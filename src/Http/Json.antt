-- ===== src/Http/Json.antt =====
-- The values of a request and of a response. A text is the list of its UTF-16 codes; a number is its
-- text, since the code only prints it. The fields of an object are in the order of Object.entries,
-- and no two of them have one key.
use base_api_nest_js.Base.{ℕ, Bool, Option, none, some, List, if◌then◌else◌, list_eq}

mutual
  pub data Json : Type 0 where
    undefined : Json
    null : Json
    boolean : Bool → Json
    number : List ℕ → Json
    string : List ℕ → Json
    array : Items → Json
    object : Fields → Json

  pub data Items : Type 0 where
    nil : Items
    cons : Json → Items → Items

  pub data Fields : Type 0 where
    end : Fields
    field : List ℕ → Json → Fields → Fields

-- `o[key]`, for a key of the object's own.
unfoldable pub lookup : List ℕ → Fields → Option Json
lookup key end = none
lookup key (field k v fs) = let rest = lookup key fs in if list_eq k key then some v else rest
