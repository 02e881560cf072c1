-- ===== src/Shared/Json.antt =====
-- JSON values, as `JSON.parse` gives them: an object holds each field once, numbers are finite, and
-- a number that is not whole stands for its printed text.
use ai_agentic_english.Prelude.{String, Bool, Option, none, some, if◌then◌else◌, str_eq}
use ai_agentic_english.Prelude.Int.{ℤ}

mutual
  pub data Json : Type 0 where
    null : Json
    boolean : Bool → Json
    whole : ℤ → Json
    fraction : String → Json
    text : String → Json
    array : Items → Json
    object : Fields → Json

  pub data Items : Type 0 where
    no_items : Items
    item : Json → Items → Items

  pub data Fields : Type 0 where
    no_fields : Fields
    field : String → Json → Fields → Fields

-- `input[key]`, missing where the object has no such field.
unfoldable pub lookup : String → Fields → Option Json
lookup key no_fields = none
lookup key (field k v fs) = if str_eq k key then some v else lookup key fs
