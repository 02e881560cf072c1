-- ===== src/Users/AccountLaws.antt =====
-- The table of users under the queries of Accounts.antt.
use ai_agentic_english.Prelude.{
  String, true, false, ◌||◌, Option, none, some, List, [], ◌∷◌, ◌≡◌, refl, arith, any, is_some,
  if◌then◌else◌, str_eq, eq_iff, Bool-cases, inl, inr,
}
use ai_agentic_english.Users.Accounts.{
  UserSettings, User, Fresh, is_user, find_user, upsert_user, delete_users, set_settings,
  default_settings,
}

-- No two rows have the same Clerk user id.
abbrev pub Distinct : List User → Type 0
Distinct [] = Unit
Distinct (u ∷ us) = (any (is_user u.clerk_user_id) us ≡ false) × Distinct us

-- Every row has an email and its settings.
abbrev pub Filled : List User → Type 0
Filled [] = Unit
Filled (u ∷ us) = (str_eq u.email "" ≡ false) × (is_some u.settings ≡ true) × Filled us

pub record IsAccounts (us : List User) : Type 0 where
  pub distinct : Distinct us
  pub filled : Filled us

any-upsert_user :
    (j : String) (f : Fresh) (id email : String) (name : Option String) (us : List User)
    → any (is_user j) (upsert_user f id email name us) ≡ (str_eq id j || any (is_user j) us)
unfolding upsert_user is_user
any-upsert_user j f id email name [] = ground arith
any-upsert_user j f id email name (u ∷ us) = ground (
  arith,
  eq_iff id j,
  eq_iff u.clerk_user_id id,
  eq_iff u.clerk_user_id j,
  any-upsert_user j f id email name us,
)

upsert_user-Distinct :
    (f : Fresh) (id email : String) (name : Option String) (us : List User)
    → Distinct us
    → Distinct (upsert_user f id email name us)
unfolding upsert_user is_user
upsert_user-Distinct f id email name [] h = (refl, tt)
upsert_user-Distinct f id email name (u ∷ us) (fresh, h) =
    elim (Bool-cases (str_eq u.clerk_user_id id)) [
      | inl e ↦ rw e (fresh, h)
      | inr e ↦ rw e (
        ground (
          arith,
          any-upsert_user u.clerk_user_id f id email name us,
          eq_iff id u.clerk_user_id,
          eq_iff u.clerk_user_id id,
        ),
        upsert_user-Distinct f id email name us h,
      )
    ]

upsert_user-Filled :
    (f : Fresh) (id email : String) (name : Option String) (us : List User)
    → str_eq email "" ≡ false
    → Filled us
    → Filled (upsert_user f id email name us)
unfolding upsert_user
upsert_user-Filled f id email name [] e h = (e, refl, tt)
upsert_user-Filled f id email name (u ∷ us) e (g, k, h) = elim (Bool-cases (is_user id u)) [
  | inl t ↦ rw t (e, k, h)
  | inr t ↦ rw t (g, k, upsert_user-Filled f id email name us e h)
]

pub upsert_user-IsAccounts :
    (f : Fresh) (id email : String) (name : Option String) (us : List User)
    → str_eq email "" ≡ false
    → IsAccounts us
    → IsAccounts (upsert_user f id email name us)
upsert_user-IsAccounts f id email name us e h = record {
  distinct = upsert_user-Distinct f id email name us h.distinct;
  filled = upsert_user-Filled f id email name us e h.filled;
}

any-delete_users :
    (j id : String) (us : List User)
    → any (is_user j) us ≡ false
    → any (is_user j) (delete_users id us) ≡ false
unfolding delete_users
any-delete_users j id [] h = refl
any-delete_users j id (u ∷ us) h = ground (arith, any-delete_users j id us)

delete_users-Distinct : (id : String) (us : List User) → Distinct us → Distinct (delete_users id us)
unfolding delete_users
delete_users-Distinct id [] h = tt
delete_users-Distinct id (u ∷ us) (fresh, h) = elim (Bool-cases (is_user id u)) [
  | inl t ↦ rw t (delete_users-Distinct id us h)
  | inr t ↦ rw t (any-delete_users u.clerk_user_id id us fresh, delete_users-Distinct id us h)
]

delete_users-Filled : (id : String) (us : List User) → Filled us → Filled (delete_users id us)
unfolding delete_users
delete_users-Filled id [] h = tt
delete_users-Filled id (u ∷ us) (g, k, h) = elim (Bool-cases (is_user id u)) [
  | inl t ↦ rw t (delete_users-Filled id us h)
  | inr t ↦ rw t (g, k, delete_users-Filled id us h)
]

pub delete_users-IsAccounts :
    (id : String) (us : List User) → IsAccounts us → IsAccounts (delete_users id us)
delete_users-IsAccounts id us h = record {
  distinct = delete_users-Distinct id us h.distinct;
  filled = delete_users-Filled id us h.filled;
}

any-set_settings :
    (j id : String) (s : UserSettings) (us : List User)
    → any (is_user j) (set_settings id s us) ≡ any (is_user j) us
unfolding set_settings is_user
any-set_settings j id s [] = refl
any-set_settings j id s (u ∷ us) = ground (arith, any-set_settings j id s us)

set_settings-Distinct :
    (id : String) (s : UserSettings) (us : List User)
    → Distinct us
    → Distinct (set_settings id s us)
unfolding set_settings
set_settings-Distinct id s [] h = tt
set_settings-Distinct id s (u ∷ us) (fresh, h) = elim (Bool-cases (is_user id u)) [
  | inl t ↦ rw t (fresh, h)
  | inr t ↦
      rw t
        (ground (arith, any-set_settings u.clerk_user_id id s us), set_settings-Distinct id s us h)
]

set_settings-Filled :
    (id : String) (s : UserSettings) (us : List User) → Filled us → Filled (set_settings id s us)
unfolding set_settings
set_settings-Filled id s [] h = tt
set_settings-Filled id s (u ∷ us) (g, k, h) = elim (Bool-cases (is_user id u)) [
  | inl t ↦ rw t (g, refl, h)
  | inr t ↦ rw t (g, k, set_settings-Filled id s us h)
]

pub set_settings-IsAccounts :
    (id : String) (s : UserSettings) (us : List User)
    → IsAccounts us
    → IsAccounts (set_settings id s us)
set_settings-IsAccounts id s us h = record {
  distinct = set_settings-Distinct id s us h.distinct;
  filled = set_settings-Filled id s us h.filled;
}

-- What an upsert leaves in the rows: the row of the id, or the new one, with the email and the name.
abbrev pub saved : Fresh → String → String → Option String → Option User → User
saved f id email name none = record {
  id = f.id;
  clerk_user_id = id;
  email = email;
  name = name;
  created_at = f.now;
  updated_at = f.now;
  settings = some default_settings;
}
saved f id email name (some u) = record u { email = email; name = name; updated_at = f.now }

pub find_user-upsert_user :
    (j : String) (f : Fresh) (id email : String) (name : Option String) (us : List User)
    → find_user j (upsert_user f id email name us)
      ≡ (if str_eq id j then some (saved f id email name (find_user id us)) else find_user j us)
unfolding find_user upsert_user is_user
find_user-upsert_user j f id email name [] = ground arith
find_user-upsert_user j f id email name (u ∷ us) = ground (
  arith,
  eq_iff id j,
  eq_iff u.clerk_user_id id,
  eq_iff u.clerk_user_id j,
  find_user-upsert_user j f id email name us,
)

pub find_user-delete_users :
    (j id : String) (us : List User)
    → find_user j (delete_users id us) ≡ (if str_eq id j then none else find_user j us)
unfolding find_user delete_users is_user
find_user-delete_users j id [] = ground arith
find_user-delete_users j id (u ∷ us) = ground (
  arith,
  eq_iff id j,
  eq_iff u.clerk_user_id id,
  eq_iff u.clerk_user_id j,
  find_user-delete_users j id us,
)

abbrev pub given_settings : UserSettings → Option User → Option User
given_settings s none = none
given_settings s (some u) = some (record u { settings = some s })

pub find_user-set_settings :
    (j id : String) (s : UserSettings) (us : List User)
    → find_user j (set_settings id s us)
      ≡ (if str_eq id j then given_settings s (find_user id us) else find_user j us)
unfolding find_user set_settings is_user
find_user-set_settings j id s [] = ground arith
find_user-set_settings j id s (u ∷ us) = ground (
  arith,
  eq_iff id j,
  eq_iff u.clerk_user_id id,
  eq_iff u.clerk_user_id j,
  find_user-set_settings j id s us,
)
