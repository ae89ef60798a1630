-- ===== src/Json.antt =====
-- Parsed JSON, and the readers of it in webhook/handlers.ts and libs/server-common/src/records.ts.
use wizteros.Common.{
  if◌then◌else◌, or_else, and_then, truthy, String, Bool, Option, none, some, ◌==◌,
}

mutual
  pub data Json : Type 0 where
    null : Json
    flag : Bool → Json
    number : (literal : String) → Json
    text : String → Json
    array : Items → Json
    object : Fields → Json

  pub data Items : Type 0 where
    end : Items
    next : Json → Items → Items

  -- The keys of an object, in order; no key stands twice.
  pub data Fields : Type 0 where
    no_more : Fields
    field : String → Json → Fields → Fields

-- `obj[key]`, none for a key that is missing
unfoldable pub get : String → Fields → Option Json
get key no_more = none
get key (field k v more) = let rest = get key more in if k == key then some v else rest

-- `isRow`
unfoldable pub row_of : Option Json → Option Fields
row_of (some (object fields)) = some fields
row_of _ = none

-- A value that is a text.
unfoldable pub as_text : Option Json → Option String
as_text (some (text s)) = some s
as_text _ = none

-- `truthyText`
unfoldable pub truthy_text : String → Fields → Option String
unfolding get as_text
truthy_text key obj = truthy (as_text (get key obj))

-- `nested`
unfoldable pub nested : String → Fields → Fields
unfolding get row_of
nested key obj = or_else (row_of (get key obj)) no_more

-- `envelopeField`: none when it throws
unfoldable pub envelope_field : String → Option Json → Option Json
unfolding get row_of
envelope_field key value = and_then (row_of value) (get key)
