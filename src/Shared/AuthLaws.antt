-- ===== src/Shared/AuthLaws.antt =====
-- Whom the guards of packages/shared let through.
use Prim.Native.Char.{Char, code}
use Prim.Native.String.{String, [], ◌∷◌, ◌++◌}
use Prim.Native.String.append
use ai_agentic_english.Prelude.{
  Char-path, Bool, true, false, ◌&&◌, ◌==◌, Option, none, some, ◌≡◌, refl, sym, ap, ◌∙◌, arith,
  if◌then◌else◌, str_eq, eq_iff, Bool-cases, inl, inr,
}
use ai_agentic_english.Shared.Errors.{app, Thrown, error_handler, unauthorized_error}
use ai_agentic_english.Shared.Effect.{Result, ok, err, and_then-eq-ok}
use ai_agentic_english.Shared.Json.{Json, null, boolean, whole, fraction, text, array, object}
use ai_agentic_english.Shared.Trim.{trim, strip_prefix}
use ai_agentic_english.Shared.Auth.{
  Env, read_env, get_env, is_weak, assert_production_secret, Guarded, passed, check_secret,
  create_internal_middleware, read_sub, read_token, extract_user_id,
}

deploy_env :
    (env : Env)
    → env "DEPLOY_ENV" ≡ some "production"
    → get_env env "DEPLOY_ENV" (some "development") ≡ ok "production"
unfolding get_env read_env
deploy_env env e = rw e refl

gate-ok :
    (p w : Bool) (t : Thrown) (u : Unit {0})
    → p ≡ true
    → (if p && w then err t else ok tt) ≡ ok u
    → w ≡ false
gate-ok p w t u e h = ground arith

strong :
    (env : Env) (secret : String) (u : Unit {0})
    → env "DEPLOY_ENV" ≡ some "production"
    → assert_production_secret env secret "INTERNAL_SECRET" ≡ ok u
    → is_weak (trim secret) ≡ false
unfolding assert_production_secret
strong env secret u e h =
    let (d, got, rest) = and_then-eq-ok (get_env env "DEPLOY_ENV" (some "development")) _ h in
    gate-ok (str_eq d "production") (is_weak (trim secret)) _ u (same d got) rest
  where
    same :
        (d : String)
        → get_env env "DEPLOY_ENV" (some "development") ≡ ok d
        → str_eq d "production" ≡ true
    same d got =
        (eq_iff d "production").1
          (let both : ok "production" ≡ ok d = sym (deploy_env env e) ∙ got in cc)

check_secret-passed :
    (secret : String) (header : Option String)
    → check_secret secret header ≡ passed
    → header ≡ some secret
unfolding check_secret
check_secret-passed secret none h = cc
check_secret-passed secret (some t) h = ground (arith, eq_iff t secret)

-- A middleware that was made in production lets a request through only with the secret itself,
-- which is neither blank nor the development default.
pub create_internal_middleware_lem :
    (env : Env) (secret : String) (guard : Option String → Guarded) (header : Option String)
    → env "DEPLOY_ENV" ≡ some "production"
    → create_internal_middleware env secret ≡ ok guard
    → guard header ≡ passed
    → (header ≡ some secret) × (is_weak (trim secret) ≡ false)
unfolding create_internal_middleware
create_internal_middleware_lem env secret guard header e h p =
    let (u, made, same) =
      and_then-eq-ok (assert_production_secret env secret "INTERNAL_SECRET") _ h in
    (check_secret-passed secret header (sent same), strong env secret u e made)
  where
    sent : ok (check_secret secret) ≡ ok guard → check_secret secret header ≡ passed
    sent q = let k : check_secret secret ≡ guard = cc in ap (λ f. f header) k ∙ p

read_sub-ok :
    (c : Option (Option Json)) (user : String)
    → read_sub c ≡ ok user
    → (c ≡ some (some (text user))) × (str_eq user "" ≡ false)
unfolding read_sub
read_sub-ok (some (some (text s))) user h = ground (arith, h)
read_sub-ok none user h = cc
read_sub-ok (some none) user h = cc
read_sub-ok (some (some null)) user h = cc
read_sub-ok (some (some (boolean b))) user h = cc
read_sub-ok (some (some (whole b))) user h = cc
read_sub-ok (some (some (fraction b))) user h = cc
read_sub-ok (some (some (array b))) user h = cc
read_sub-ok (some (some (object b))) user h = cc

pub nil_append : (t : String) → [] ++ t ≡ t
nil_append t = λ i. append.nil t i

pub cons_append : (c : Char) (s t : String) → (c ∷ s) ++ t ≡ c ∷ (s ++ t)
cons_append c s t = λ i. append.cons c s t i

same_text : (s rest : String) → some s ≡ some rest → s ≡ rest
same_text s rest h = cc

strip_prefix-some : (p s rest : String) → strip_prefix p s ≡ some rest → s ≡ p ++ rest
unfolding strip_prefix
strip_prefix-some [] s rest h = same_text s rest h ∙ sym (nil_append rest)
strip_prefix-some (c ∷ p) [] rest h = cc
strip_prefix-some (c ∷ p) (d ∷ s) rest h = elim (Bool-cases (code c == code d)) [
  | inl e ↦
      let k : strip_prefix p s ≡ some rest = ground (arith, h, e) in
      let same : d ≡ c = sym (Char-path c d (ground (arith, e))) in
      rw (cons_append c p rest, same) (ap (λ t. c ∷ t) (strip_prefix-some p s rest k))
  | inr e ↦ absurd (ground (arith, h, e))
]

-- A caller is taken for a user only by a header that is "Bearer " and a token whose decoded claim
-- `sub` is that user's id, which is not empty.
pub extract_user_id-ok :
    (decode : String → Option (Option Json)) (header : Option String) (user : String)
    → extract_user_id decode header ≡ ok user
    → (rest : String) × (header ≡ some ("Bearer " ++ rest))
      × (decode (trim rest) ≡ some (some (text user)))
      × (str_eq user "" ≡ false)
unfolding extract_user_id read_token
extract_user_id-ok decode none user h = cc
extract_user_id-ok decode (some header) user h = go (strip_prefix "Bearer " header) refl h
  where
    go :
        (o : Option String)
        → strip_prefix "Bearer " header ≡ o
        → read_token decode o ≡ ok user
        → (rest : String) × (some header ≡ some ("Bearer " ++ rest))
          × (decode (trim rest) ≡ some (some (text user)))
          × (str_eq user "" ≡ false)
    go none e k = cc
    go (some rest) e k =
        let (claims, full) = read_sub-ok (decode (trim rest)) user k in
        (rest, ap some (strip_prefix-some "Bearer " header rest e), claims, full)

refused_by :
    (u t : Thrown)
    → ◌≡◌ {A = Result String} (err u) (err t)
    → (error_handler u).status ≡ 401
    → (error_handler t).status ≡ 401
refused_by u t h s = let same : u ≡ t = cc in ap (λ v. (error_handler v).status) (sym same) ∙ s

empty_sub-err :
    (b : Bool) (s : String) (t : Thrown)
    → (if b then err (app (unauthorized_error "Token missing sub claim")) else ok s) ≡ err t
    → (error_handler t).status ≡ 401
unfolding unauthorized_error error_handler
empty_sub-err true s t h = refused_by _ t h refl
empty_sub-err false s t h = absurd (ok-not-err h)
  where
    ok-not-err : ok s ≡ err t → ⊥
    ok-not-err k = cc

read_sub-err :
    (c : Option (Option Json)) (t : Thrown) → read_sub c ≡ err t → (error_handler t).status ≡ 401
unfolding read_sub unauthorized_error error_handler
read_sub-err (some (some (text s))) t h = empty_sub-err (str_eq s "") s t h
read_sub-err none t h = refused_by _ t h refl
read_sub-err (some none) t h = refused_by _ t h refl
read_sub-err (some (some null)) t h = refused_by _ t h refl
read_sub-err (some (some (boolean b))) t h = refused_by _ t h refl
read_sub-err (some (some (whole b))) t h = refused_by _ t h refl
read_sub-err (some (some (fraction b))) t h = refused_by _ t h refl
read_sub-err (some (some (array b))) t h = refused_by _ t h refl
read_sub-err (some (some (object b))) t h = refused_by _ t h refl

-- A request without a user is answered 401.
pub extract_user_id-err :
    (decode : String → Option (Option Json)) (header : Option String) (t : Thrown)
    → extract_user_id decode header ≡ err t
    → (error_handler t).status ≡ 401
unfolding extract_user_id unauthorized_error error_handler
extract_user_id-err decode none t h = refused_by _ t h refl
extract_user_id-err decode (some header) t h = go (strip_prefix "Bearer " header) h
  where
    go : (o : Option String) → read_token decode o ≡ err t → (error_handler t).status ≡ 401
    go none h = unfold read_token in refused_by _ t h refl
    go (some rest) h = read_sub-err (decode (trim rest)) t (unfold read_token in h)
