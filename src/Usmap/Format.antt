-- ===== src/Usmap/Format.antt =====
-- The wire format of a decompressed body, as the comment at the top of internal/recipe/usmap.go
-- describes it, and what a body that is written in it stands for.
use morgue.Common.{
  ℕ, zero, suc, ◌^◌, ◌≤◌, ◌<◌, ◌≢◌, List, [], ◌++◌, none, some, Bytes, All, length, get_elem?, ℤ,
  pos, negsuc, leb, if◌then◌else◌,
}
use morgue.Cursor.Words.{word_bytes, int32_bytes}
use morgue.Cursor.Reads.{write_all, numbered}
use morgue.Usmap.{
  Text, UsmapPropertyType, property_type, nil, to, UsmapProperty, UsmapStruct, UsmapEnum, UsmapBody,
  usmap_max_names, usmap_max_enums, usmap_max_structs, type_name, set_names, pt_array, pt_struct,
  pt_map, pt_set, pt_enum, pt_optional,
}

-- The three containers of one inner type.
pub data Container : Type 0 where
  array set optional : Container

abbrev pub tag_of : Container → ℕ
tag_of array = pt_array
tag_of set = pt_set
tag_of optional = pt_optional

-- A property type as it is written: names are indices into the name table.
pub data WireType : Type 0 where
  leaf : ℕ → WireType
  enumeration : WireType → ℤ → WireType
  structure : ℤ → WireType
  container : Container → WireType → WireType
  mapping : WireType → WireType → WireType

pub record WireProperty : Type 0 where
  pub index : ℕ
  pub array_dim : ℕ
  pub name : ℤ
  pub type : WireType

pub record WireStruct : Type 0 where
  pub name : ℤ
  pub super : ℤ
  pub slots : ℕ
  pub properties : List WireProperty

-- An entry of an enum; its value is written from version 4 on.
pub record WireEntry : Type 0 where
  pub value : ℕ
  pub name : ℤ

pub record WireEnum : Type 0 where
  pub name : ℤ
  pub entries : List WireEntry

pub record WireBody : Type 0 where
  pub names : List Text
  pub enums : List WireEnum
  pub structs : List WireStruct

unfoldable pub write_type : WireType → Bytes
write_type (leaf tag) = word_bytes 1 tag
write_type (enumeration inner name) = word_bytes 1 pt_enum ++ (write_type inner ++ int32_bytes name)
write_type (structure name) = word_bytes 1 pt_struct ++ int32_bytes name
write_type (container c inner) = word_bytes 1 (tag_of c) ++ write_type inner
write_type (mapping key value) = word_bytes 1 pt_map ++ (write_type key ++ write_type value)

unfoldable pub write_property : WireProperty → Bytes
unfolding write_type
write_property p =
    word_bytes 2 p.index ++ (word_bytes 1 p.array_dim ++ (int32_bytes p.name ++ write_type p.type))

unfoldable pub write_struct : WireStruct → Bytes
unfolding write_property
write_struct s =
    int32_bytes s.name
    ++ (int32_bytes s.super
        ++ (word_bytes 2 s.slots
            ++ (word_bytes 2 (length s.properties) ++ write_all write_property s.properties)))

-- uint16 from version 2 on, uint8 before.
unfoldable pub write_name : ℕ → Text → Bytes
write_name version s = word_bytes (if leb 2 version then 2 else 1) (length s) ++ s

unfoldable pub write_entry : ℕ → WireEntry → Bytes
write_entry version e = (if leb 4 version then word_bytes 8 e.value else []) ++ int32_bytes e.name

unfoldable pub write_enum : ℕ → WireEnum → Bytes
unfolding write_entry
write_enum version e =
    int32_bytes e.name
    ++ (word_bytes (if leb 3 version then 2 else 1) (length e.entries)
        ++ write_all (write_entry version) e.entries)

unfoldable pub write_body : ℕ → WireBody → Bytes
unfolding write_name write_enum write_struct
write_body version b =
    word_bytes 4 (length b.names)
    ++ (write_all (write_name version) b.names
        ++ (word_bytes 4 (length b.enums)
            ++ (write_all (write_enum version) b.enums
                ++ (word_bytes 4 (length b.structs) ++ write_all write_struct b.structs))))

-- The name at an index, -1 for none.
unfoldable pub name_at : List Text → ℤ → Text
name_at names (negsuc n) = []
name_at names (pos i) = elim (get_elem? names i) [ some s ↦ s | none ↦ [] ]

module _ (names : List Text) where
  unfoldable pub type_meaning : WireType → UsmapPropertyType
  type_meaning (leaf tag) = property_type (type_name tag) [] [] nil nil
  type_meaning (enumeration inner name) =
      property_type (type_name pt_enum) [] (name_at names name) (to (type_meaning inner)) nil
  type_meaning (structure name) =
      property_type (type_name pt_struct) (name_at names name) [] nil nil
  type_meaning (container c inner) =
      property_type (type_name (tag_of c)) [] [] (to (type_meaning inner)) nil
  type_meaning (mapping key value) =
      property_type (type_name pt_map) [] [] (to (type_meaning key)) (to (type_meaning value))

  unfoldable pub property_meaning : WireProperty → UsmapProperty
  unfolding type_meaning
  property_meaning p = record {
    index = p.index;
    name = name_at names p.name;
    array_dim = p.array_dim;
    type = type_meaning p.type;
  }

  unfoldable pub struct_meaning : WireStruct → UsmapStruct
  unfolding property_meaning
  struct_meaning s = record {
    name = name_at names s.name;
    super_type = name_at names s.super;
    properties = numbered (λ _. property_meaning) 0 s.properties;
  }

  -- Before version 4 an entry has its position for its value.
  unfoldable pub entry_meaning : ℕ → ℕ → WireEntry → ℕ × Text
  entry_meaning version j e = (if leb 4 version then e.value else j, name_at names e.name)

  unfoldable pub enum_meaning : ℕ → WireEnum → UsmapEnum
  unfolding entry_meaning
  enum_meaning version e = record {
    name = name_at names e.name;
    names = set_names [] (numbered (entry_meaning version) 0 e.entries);
  }

unfoldable pub body_meaning : ℕ → WireBody → UsmapBody
unfolding enum_meaning struct_meaning
body_meaning version b = record {
  names = b.names;
  enums = numbered (λ _. enum_meaning b.names version) 0 b.enums;
  structs = numbered (λ _. struct_meaning b.names) 0 b.structs;
}

-- An index that the table of `count` names has, or -1.
abbrev pub IsIndex : ℕ → ℤ → Type 0
IsIndex count (negsuc n) = n ≤ 0
IsIndex count (pos i) = i < count

-- A tag of a type with nothing behind it.
pub record IsLeaf (tag : ℕ) : Type 0 where
  pub small : tag < 256
  pub no_enum : tag ≢ pt_enum
  pub no_struct : tag ≢ pt_struct
  pub no_array : tag ≢ pt_array
  pub no_set : tag ≢ pt_set
  pub no_optional : tag ≢ pt_optional
  pub no_map : tag ≢ pt_map

module _ (count : ℕ) where
  -- What fits the format, nested at most `left` deep.
  abbrev pub IsType : ℕ → WireType → Type 0
  IsType zero t = ⊥
  IsType (suc left) (leaf tag) = IsLeaf tag
  IsType (suc left) (enumeration inner name) = IsType left inner × IsIndex count name
  IsType (suc left) (structure name) = IsIndex count name
  IsType (suc left) (container c inner) = IsType left inner
  IsType (suc left) (mapping key value) = IsType left key × IsType left value

  pub record IsWireProperty (p : WireProperty) : Type 0 where
    pub index_fits : p.index < 2 ^ 16
    pub dim_fits : p.array_dim < 256
    pub name_fits : IsIndex count p.name
    pub type_fits : IsType 33 p.type

  pub record IsWireStruct (s : WireStruct) : Type 0 where
    pub name_fits : IsIndex count s.name
    pub super_fits : IsIndex count s.super
    pub slots_fit : s.slots < 2 ^ 16
    pub count_fits : length s.properties < 2 ^ 16
    pub properties_fit : All IsWireProperty s.properties

  pub record IsWireEnum (version : ℕ) (e : WireEnum) : Type 0 where
    pub name_fits : IsIndex count e.name
    pub count_fits : length e.entries < 256 ^ (if leb 3 version then 2 else 1)
    pub values_fit : All (λ d. (d.value < 2 ^ 64) × IsIndex count d.name) e.entries

pub record IsWireBody (version : ℕ) (b : WireBody) : Type 0 where
  pub names_cap : length b.names ≤ usmap_max_names
  pub enums_cap : length b.enums ≤ usmap_max_enums
  pub structs_cap : length b.structs ≤ usmap_max_structs
  pub lengths_fit : All (λ s. length s < 256 ^ (if leb 2 version then 2 else 1)) b.names
  pub enums_fit : All (IsWireEnum (length b.names) version) b.enums
  pub structs_fit : All (IsWireStruct (length b.names)) b.structs
