-- ===== src/Odin/Json.antt =====
-- The values that internal/odin/tree.go builds: Go's any, map[string]any and []any.
use morgue.Common.{List, [], ◌∷◌, Option, none, some, text_eq, if◌then◌else◌}
use morgue.Odin.Reader.{Text}
use morgue.Odin.Decoder.{Value}

-- A map holds each key once.
mutual
  pub data Json : Type 0 where
    leaf : Value → Json
    object : Fields → Json
    array : Items → Json

  pub data Fields : Type 0 where
    no_fields : Fields
    field : Text → Json → Fields → Fields

  pub data Items : Type 0 where
    no_items : Items
    item : Json → Items → Items

-- `m[key] = val`
unfoldable pub set_field : Text → Json → Fields → Fields
set_field key val no_fields = field key val no_fields
set_field key val (field k v m) =
    if text_eq k key then field key val m else field k v (set_field key val m)

-- `m[key]`
unfoldable pub get_field : Text → Fields → Option Json
get_field key no_fields = none
get_field key (field k v m) = if text_eq k key then some v else get_field key m

unfoldable pub items_of : List Json → Items
items_of [] = no_items
items_of (v ∷ vs) = item v (items_of vs)
