-- ===== src/Users/Clerk.antt =====
-- services/user-service/src/lib/clerkWebhookEvent.ts: the email and the name of a Clerk user.
use Prim.Native.String.{String, ◌++◌}
use mathlib.Core.List.{List, [] as nil}
use ai_agentic_english.Prelude.{
  Option, none, some, if◌then◌else◌, str_eq, opt_is, find, head?, or_else, get_or,
}
use ai_agentic_english.Shared.Trim.{trim}

pub record ClerkEmailAddress : Type 0 where
  pub id : String
  pub email_address : String

-- A field that is missing and a field that is null are both `none`.
pub record ClerkUserEventData : Type 0 where
  pub id : String
  pub email_addresses : Option (List ClerkEmailAddress)
  pub primary_email_address_id : Option String
  pub first_name : Option String
  pub last_name : Option String

abbrev address_of : Option ClerkEmailAddress → Option String
address_of none = none
address_of (some e) = some e.email_address

unfoldable pub get_primary_email : ClerkUserEventData → Option String
get_primary_email user =
    let emails = get_or user.email_addresses nil in
    address_of
      (or_else (find (λ e. opt_is user.primary_email_address_id e.id) emails) (head? emails))

-- `[first, last].filter(Boolean).join(' ')`.
unfoldable pub join_names : Option String → Option String → String
join_names none none = ""
join_names none (some b) = b
join_names (some a) none = a
join_names (some a) (some b) = if str_eq a "" then b else if str_eq b "" then a else a ++ " " ++ b

unfoldable pub get_full_name : ClerkUserEventData → Option String
unfolding trim join_names
get_full_name user =
    let name = trim (join_names user.first_name user.last_name) in
    if str_eq name "" then none else some name
