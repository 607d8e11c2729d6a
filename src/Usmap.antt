-- ===== src/Usmap.antt =====
-- The offline parser of .usmap mappings, internal/recipe/usmap.go: the data model and the parser of
-- the decompressed body. `Usmap.File` holds the header and the decompression.
pub mod File
pub mod Format
pub mod RoundTrip
pub mod EnumNames
pub mod Bounds
pub mod Nesting
mod Tests
use morgue.Common.{
  ℕ, zero, suc, ◌+◌, ◌*◌, ◌-◌, ◌^◌, String, List, [], ◌∷◌, ◌++◌, Bool, true, false, ◌||◌, Option,
  none, some, Bytes, Result, ok, err, length, get_elem?, ltb, leb, ◌==◌, if◌then◌else◌, ℤ, pos,
  negsuc, codes, itoa,
}
use morgue.Cursor.{pure, fail, ◌>>=◌, ◌>>◌, wrapped, repeat}
use morgue.ByteReader.{
  Error, message, message_ℕ, message_ℤ, wrap, wrap_at, Read, take_bytes, uint8, uint16, uint32,
  uint64, int32,
}

-- A string read from the file, as its bytes.
abbrev pub Text : Type 0
Text = Bytes

-- UsmapPropertyType; its two pointers are `nil` or point to a type of their own.
mutual
  pub data UsmapPropertyType : Type 0 where
    property_type : (type struct_type enum_name : Text) (inner value : Pointer) → UsmapPropertyType

  pub data Pointer : Type 0 where
    nil : Pointer
    to : UsmapPropertyType → Pointer

pub record UsmapProperty : Type 0 where
  pub index : ℕ
  pub name : Text
  pub array_dim : ℕ
  pub type : UsmapPropertyType

pub record UsmapStruct : Type 0 where
  pub name : Text
  pub super_type : Text
  pub properties : List UsmapProperty

-- The map from values to names holds each value once.
pub record UsmapEnum : Type 0 where
  pub name : Text
  pub names : List (ℕ × Text)

pub record UsmapBody : Type 0 where
  pub names : List Text
  pub enums : List UsmapEnum
  pub structs : List UsmapStruct

abbrev pub usmap_max_names : ℕ
usmap_max_names = 5_000_000

abbrev pub usmap_max_enums : ℕ
usmap_max_enums = 2_000_000

abbrev pub usmap_max_structs : ℕ
usmap_max_structs = 2_000_000

abbrev pub usmap_max_enum_vals : ℕ
usmap_max_enum_vals = 1_000_000

abbrev pub usmap_max_props : ℕ
usmap_max_props = 1_000_000

abbrev pub usmap_max_string_len : ℕ
usmap_max_string_len = 2 ^ 20

abbrev pub usmap_max_nest_depth : ℕ
usmap_max_nest_depth = 32

abbrev pub pt_array : ℕ
pt_array = 8

abbrev pub pt_struct : ℕ
pt_struct = 9

abbrev pub pt_map : ℕ
pt_map = 24

abbrev pub pt_set : ℕ
pt_set = 25

abbrev pub pt_enum : ℕ
pt_enum = 26

abbrev pub pt_optional : ℕ
pt_optional = 28

-- The values of propertyTypeNames at the keys 0, 1, …, 36.
property_type_names : List String
property_type_names =
    "ByteProperty" ∷ "BoolProperty" ∷ "IntProperty" ∷ "FloatProperty" ∷ "ObjectProperty"
    ∷ "NameProperty" ∷ "DelegateProperty" ∷ "DoubleProperty" ∷ "ArrayProperty" ∷ "StructProperty"
    ∷ "StrProperty" ∷ "TextProperty" ∷ "InterfaceProperty" ∷ "MulticastDelegateProperty"
    ∷ "WeakObjectProperty" ∷ "LazyObjectProperty" ∷ "AssetObjectProperty" ∷ "SoftObjectProperty"
    ∷ "UInt64Property" ∷ "UInt32Property" ∷ "UInt16Property" ∷ "Int64Property" ∷ "Int16Property"
    ∷ "Int8Property" ∷ "MapProperty" ∷ "SetProperty" ∷ "EnumProperty" ∷ "FieldPathProperty"
    ∷ "OptionalProperty" ∷ "Utf8StrProperty" ∷ "AnsiStrProperty" ∷ "ClassProperty"
    ∷ "MulticastInlineDelegateProperty" ∷ "SoftClassProperty" ∷ "VerseStringProperty"
    ∷ "VerseDynamicProperty" ∷ "VerseFunctionProperty" ∷ []

unfoldable pub type_name : ℕ → Text
unfolding property_type_names itoa
type_name tag = elim (get_elem? property_type_names tag) [
  | some name ↦ codes name
  | none ↦ codes "Unknown(" ++ (itoa tag ++ codes ")")
]

-- The closure `resolve` over the name table.
unfoldable pub resolve : List Text → ℤ → Result Error Text
resolve names (negsuc zero) = ok []
resolve names (negsuc (suc n)) = err (message_ℤ "usmap: name index out of range" (negsuc (suc n)))
resolve names (pos i) = elim (get_elem? names i) [
  | some name ↦ ok name
  | none ↦ err (message_ℤ "usmap: name index out of range" (pos i))
]

-- A result that does not touch the reader.
unfoldable pub lift {κ} : {A : Type κ} → Result Error A → Read A
lift (ok a) = pure a
lift (err e) = fail e

-- `nameIdx, err := r.int32()` and `resolve(nameIdx)`, which wrap either error alike.
unfoldable pub read_name : List Text → (Error → Error) → Read Text
read_name names context = do i ← wrapped context int32; wrapped context (lift (resolve names i))

unfoldable pub usmap_name : ℕ → Read Text
usmap_name version = do
  n ← (if leb 2 version then uint16 else uint8)
  if ltb usmap_max_string_len n then fail (message_ℕ "name length exceeds cap" n) else take_bytes n

module _ (names : List Text) where
  -- The switch over the tag; `nested` is the recursive call.
  unfoldable pub property_type_of_tag : Read UsmapPropertyType → ℕ → Read UsmapPropertyType
  property_type_of_tag nested tag =
      if tag == pt_enum
      then (do
        inner ← nested
        name ← read_name names (wrap "enum name")
        pure (property_type (type_name tag) [] name (to inner) nil))
      else if tag == pt_struct
      then (do
        name ← read_name names (wrap "struct name")
        pure (property_type (type_name tag) name [] nil nil))
      else if tag == pt_array || (tag == pt_set || tag == pt_optional)
      then (do inner ← nested; pure (property_type (type_name tag) [] [] (to inner) nil))
      else if tag == pt_map
      then (do
        inner ← nested
        value ← nested
        pure (property_type (type_name tag) [] [] (to inner) (to value)))
      else pure (property_type (type_name tag) [] [] nil nil)

  -- `left` is usmapMaxNestDepth + 1 - depth: it is zero where depth > usmapMaxNestDepth.
  unfoldable pub parse_usmap_property_type : ℕ → Read UsmapPropertyType
  unfolding property_type_of_tag
  parse_usmap_property_type zero =
      fail (message_ℕ "property type nested deeper than" usmap_max_nest_depth)
  parse_usmap_property_type (suc left) = do
    tag ← wrapped (wrap "type tag") uint8
    property_type_of_tag (parse_usmap_property_type left) tag

  unfoldable pub parse_usmap_property : Read UsmapProperty
  parse_usmap_property = do
    idx ← wrapped (wrap "index") uint16
    array_dim ← wrapped (wrap "array dim") uint8
    name ← read_name names (wrap "name")
    t ← wrapped (wrap "type") (parse_usmap_property_type (usmap_max_nest_depth + 1))
    pure (record { index = idx; name = name; array_dim = array_dim; type = t })

  unfoldable pub parse_usmap_struct : Read UsmapStruct
  parse_usmap_struct = do
    name ← read_name names (wrap "name")
    super ← read_name names (wrap "super")
    wrapped (wrap "property count") uint16
    ser_count ← wrapped (wrap "serializable count") uint16
    if ltb usmap_max_props ser_count
        then fail (message_ℕ "serializable count exceeds cap" ser_count)
        else (do
          properties ← repeat (λ i. wrapped (wrap_at "property" i) parse_usmap_property) ser_count 0
          pure (record { name = name; super_type = super; properties = properties }))

-- `e.Names[value] = vName`
unfoldable pub set_name : ℕ → Text → List (ℕ × Text) → List (ℕ × Text)
set_name value name [] = (value, name) ∷ []
set_name value name ((v, n) ∷ m) =
    if v == value then (value, name) ∷ m else (v, n) ∷ set_name value name m

unfoldable pub set_names : List (ℕ × Text) → List (ℕ × Text) → List (ℕ × Text)
unfolding set_name
set_names m [] = m
set_names m ((value, name) ∷ entries) = set_names (set_name value name m) entries

module _ (version : ℕ) (names : List Text) where
  -- The value and the name that one round of the loop over the entries sets, in the enum `i`.
  unfoldable pub parse_enum_entry : ℕ → ℕ → Read (ℕ × Text)
  parse_enum_entry i j = do
    value ←
        (if leb 4 version
          then wrapped (λ e. wrap_at "usmap: enum" i (wrap_at "value" j e)) uint64
          else pure j)
    name ← read_name names (λ e. wrap_at "usmap: enum" i (wrap_at "value name" j e))
    pure (value, name)

  unfoldable pub parse_usmap_enum : ℕ → Read UsmapEnum
  parse_usmap_enum i = do
    name ← read_name names (λ e. wrap_at "usmap: enum" i (wrap "name" e))
    entry_count ←
        wrapped (λ e. wrap_at "usmap: enum" i (wrap "entry count" e))
          (if leb 3 version then uint16 else uint8)
    if ltb usmap_max_enum_vals entry_count
        then fail (message_ℕ "usmap: enum entries exceed cap" entry_count)
        else (do
          entries ← repeat (parse_enum_entry i) entry_count 0
          pure (record { name = name; names = set_names [] entries }))

-- A count that is read, and refused above its cap.
unfoldable pub read_count : String → ℕ → Read ℕ
read_count what cap = do
  n ← wrapped (wrap what) uint32
  if ltb cap n then fail (message_ℕ what n) else pure n

unfoldable pub parse_usmap_body : ℕ → Read UsmapBody
parse_usmap_body version = do
  name_count ← read_count "usmap: name count" usmap_max_names
  names ← repeat (λ i. wrapped (wrap_at "usmap: name" i) (usmap_name version)) name_count 0
  enum_count ← read_count "usmap: enum count" usmap_max_enums
  enums ← repeat (parse_usmap_enum version names) enum_count 0
  struct_count ← read_count "usmap: struct count" usmap_max_structs
  structs ←
      repeat (λ i. wrapped (wrap_at "usmap: struct" i) (parse_usmap_struct names)) struct_count 0
  pure (record { names = names; enums = enums; structs = structs })
