-- ===== src/Odin/Format.antt =====
-- The stream of a BinaryDataWriter of Odin Serializer: what its entries are written as, by the tag
-- bytes that the comments of internal/odin/decoder.go name, and which tokens they stand for.
pub mod Cases
pub mod RoundTrip
use morgue.Common.{
  ℕ, ◌+◌, ◌*◌, ◌^◌, ◌≤◌, ◌<◌, ◌≡◌, List, [], ◌∷◌, ◌++◌, Bool, true, false, Option, none, some,
  Bytes, All, length, if◌then◌else◌, ℤ, pos, Fits, unsigned, inc, dec, codes, itoa,
}
use morgue.Cursor.Words.{word_bytes, int32_bytes}
use morgue.Odin.Reader.{Text}
use morgue.Odin.Reader.Utf16.{decode_utf16}
use morgue.Odin.Reader.Written.{WireString, text_of, write_string, IsString}
use morgue.Odin.Decoder.{
  Kind, node_start, node_end, array_start, array_end, primarray, int, uint, long, ulong, float,
  double, string, bool, sbyte, byte, short, ushort, char, null, internalref, extref, eos, decimal,
  guid, Value, nil, int8, int16, int32, int64, uint8, uint16, uint32, uint64, float32, float64,
  text, boolean, Tok, Decoder, bare, cached_type, hex,
}

-- A value of a primitive type. A float is its bits, and of a decimal and a guid only 16 bytes matter.
pub data Scalar : Type 0 where
  as_sbyte as_short as_int as_long : ℤ → Scalar
  as_byte as_ushort as_uint as_ulong as_float as_double as_char : ℕ → Scalar
  as_string : WireString → Scalar
  as_bool : Bool → Scalar
  as_null : Scalar
  as_decimal as_guid : Bytes → Scalar

-- The type of a node: named and given an id, named by an id, or none.
pub data Mark : Type 0 where
  type_name : ℤ → WireString → Mark
  type_id : ℤ → Mark
  no_type : Mark

pub data Entry : Type 0 where
  reference_node : Option WireString → Mark → ℤ → Entry
  struct_node : Option WireString → Mark → Entry
  end_node end_array end_of_stream : Entry
  start_of_array : ℤ → Entry
  primitives : ℕ → ℕ → Bytes → Entry
  internal_reference : WireString → ℤ → Entry
  unnamed_reference : ℤ → Entry
  by_index : Option WireString → ℤ → Entry
  by_guid : Option WireString → Bytes → Entry
  by_string : Option WireString → WireString → Entry
  scalar : Option WireString → Scalar → Entry
  stray_name : ℤ → WireString → Entry
  stray_id : ℤ → Entry

abbrev pub write_name : Option WireString → Bytes
write_name none = []
write_name (some s) = write_string s

-- The tag of an entry with a name; its unnamed twin has the next one.
abbrev pub tag : Option WireString → ℕ → ℕ → ℕ
tag none with_name without = without
tag (some s) with_name without = with_name

abbrev pub write_mark : Mark → Bytes
write_mark (type_name id s) = word_bytes 1 0x2F ++ (int32_bytes id ++ write_string s)
write_mark (type_id id) = word_bytes 1 0x30 ++ int32_bytes id
write_mark no_type = word_bytes 1 0x2E

abbrev pub tags : Scalar → ℕ × ℕ
tags (as_sbyte _) = (0x0F, 0x10)
tags (as_byte _) = (0x11, 0x12)
tags (as_short _) = (0x13, 0x14)
tags (as_ushort _) = (0x15, 0x16)
tags (as_int _) = (0x17, 0x18)
tags (as_uint _) = (0x19, 0x1A)
tags (as_long _) = (0x1B, 0x1C)
tags (as_ulong _) = (0x1D, 0x1E)
tags (as_float _) = (0x1F, 0x20)
tags (as_double _) = (0x21, 0x22)
tags (as_decimal _) = (0x23, 0x24)
tags (as_char _) = (0x25, 0x26)
tags (as_string _) = (0x27, 0x28)
tags (as_guid _) = (0x29, 0x2A)
tags (as_bool _) = (0x2B, 0x2C)
tags as_null = (0x2D, 0x2E)

abbrev pub write_scalar : Scalar → Bytes
write_scalar (as_sbyte z) = word_bytes 1 (unsigned (2 ^ 7) z)
write_scalar (as_byte v) = word_bytes 1 v
write_scalar (as_short z) = word_bytes 2 (unsigned (2 ^ 15) z)
write_scalar (as_ushort v) = word_bytes 2 v
write_scalar (as_int z) = int32_bytes z
write_scalar (as_uint v) = word_bytes 4 v
write_scalar (as_long z) = word_bytes 8 (unsigned (2 ^ 63) z)
write_scalar (as_ulong v) = word_bytes 8 v
write_scalar (as_float v) = word_bytes 4 v
write_scalar (as_double v) = word_bytes 8 v
write_scalar (as_decimal bs) = bs
write_scalar (as_char v) = word_bytes 2 v
write_scalar (as_string s) = write_string s
write_scalar (as_guid bs) = bs
write_scalar (as_bool b) = word_bytes 1 (if b then 1 else 0)
write_scalar as_null = []

-- The bytes of an entry behind its tag.
abbrev pub payload : Entry → Bytes
payload (reference_node name mark id) = write_name name ++ (write_mark mark ++ int32_bytes id)
payload (struct_node name mark) = write_name name ++ write_mark mark
payload end_node = []
payload end_array = []
payload end_of_stream = []
payload (start_of_array n) = word_bytes 8 (unsigned (2 ^ 63) n)
payload (primitives count bytes_per bs) =
    int32_bytes (pos count) ++ (int32_bytes (pos bytes_per) ++ bs)
payload (internal_reference name id) = write_string name ++ int32_bytes id
payload (unnamed_reference id) = int32_bytes id
payload (by_index name id) = write_name name ++ int32_bytes id
payload (by_guid name g) = write_name name ++ g
payload (by_string name s) = write_name name ++ write_string s
payload (scalar name v) = write_name name ++ write_scalar v
payload (stray_name id s) = int32_bytes id ++ write_string s
payload (stray_id id) = int32_bytes id

abbrev pub entry_tag : Entry → ℕ
entry_tag (reference_node name _ _) = tag name 0x01 0x02
entry_tag (struct_node name _) = tag name 0x03 0x04
entry_tag end_node = 0x05
entry_tag (start_of_array _) = 0x06
entry_tag end_array = 0x07
entry_tag (primitives _ _ _) = 0x08
entry_tag (internal_reference _ _) = 0x09
entry_tag (unnamed_reference _) = 0x0A
entry_tag (by_index name _) = tag name 0x0B 0x0C
entry_tag (by_guid name _) = tag name 0x0D 0x0E
entry_tag (scalar name v) = tag name (tags v).0 (tags v).1
entry_tag (stray_name _ _) = 0x2F
entry_tag (stray_id _) = 0x30
entry_tag end_of_stream = 0x31
entry_tag (by_string name _) = tag name 0x32 0x33

unfoldable pub write_entry : Entry → Bytes
write_entry e = word_bytes 1 (entry_tag e) ++ payload e

abbrev pub name_text : Option WireString → Text
name_text none = []
name_text (some s) = text_of s

-- The type name of a mark, and the cache behind it.
abbrev pub mark_type : Mark → List (ℤ × Text) → Text
mark_type (type_name id s) cache = text_of s
mark_type (type_id id) cache = cached_type id cache
mark_type no_type cache = []

abbrev pub mark_cache : Mark → List (ℤ × Text) → List (ℤ × Text)
mark_cache (type_name id s) cache = (id, text_of s) ∷ cache
mark_cache (type_id id) cache = cache
mark_cache no_type cache = cache

abbrev pub scalar_kind : Scalar → Kind
scalar_kind (as_sbyte _) = sbyte
scalar_kind (as_byte _) = byte
scalar_kind (as_short _) = short
scalar_kind (as_ushort _) = ushort
scalar_kind (as_int _) = int
scalar_kind (as_uint _) = uint
scalar_kind (as_long _) = long
scalar_kind (as_ulong _) = ulong
scalar_kind (as_float _) = float
scalar_kind (as_double _) = double
scalar_kind (as_decimal _) = decimal
scalar_kind (as_char _) = char
scalar_kind (as_string _) = string
scalar_kind (as_guid _) = guid
scalar_kind (as_bool _) = bool
scalar_kind as_null = null

abbrev pub scalar_value : Scalar → Value
scalar_value (as_sbyte z) = int8 z
scalar_value (as_byte v) = uint8 v
scalar_value (as_short z) = int16 z
scalar_value (as_ushort v) = uint16 v
scalar_value (as_int z) = int32 z
scalar_value (as_uint v) = uint32 v
scalar_value (as_long z) = int64 z
scalar_value (as_ulong v) = uint64 v
scalar_value (as_float v) = float32 v
scalar_value (as_double v) = float64 v
scalar_value (as_decimal _) = text (codes "?")
scalar_value (as_char v) = text (decode_utf16 (v ∷ []))
scalar_value (as_string s) = text (text_of s)
scalar_value (as_guid _) = text (codes "?")
scalar_value (as_bool b) = boolean b
scalar_value as_null = nil

-- A token with a value, at the decoder's depth.
abbrev pub push : Kind → Text → Value → Decoder → Decoder
push kind name v d = record d {
  toks = d.toks ++ record (bare kind d.depth) { name = name; value = v } ∷ [];
}

abbrev pub push_node : Option WireString → Mark → Decoder → Decoder
push_node name mark d = record {
  toks =
      d.toks
      ++ record (bare node_start d.depth) {
        name = name_text name;
        type_str = mark_type mark d.type_cache;
      }
        ∷ [];
  depth = inc d.depth;
  type_cache = mark_cache mark d.type_cache;
}

abbrev pub push_end : Kind → Decoder → Decoder
push_end kind d = record d { toks = d.toks ++ bare kind (dec d.depth) ∷ []; depth = dec d.depth }

-- What an entry adds to a decoder.
abbrev pub apply : Entry → Decoder → Decoder
apply (reference_node name mark _) d = push_node name mark d
apply (struct_node name mark) d = push_node name mark d
apply end_node d = push_end node_end d
apply end_array d = push_end array_end d
apply end_of_stream d = push eos [] nil d
apply (start_of_array n) d = record (push array_start [] (int64 n) d) { depth = inc d.depth }
apply (primitives count bytes_per bs) d = record d {
  toks =
      d.toks
      ++ record (bare primarray d.depth) {
        value = int64 (pos count);
        type_str = itoa bytes_per;
        raw_arr = bs;
      }
        ∷ [];
}
apply (internal_reference name id) d = push internalref (text_of name) (int32 id) d
apply (unnamed_reference _) d = push internalref [] nil d
apply (by_index name id) d = push extref (name_text name) (int32 id) d
apply (by_guid name g) d = push extref (name_text name) (text (hex g)) d
apply (by_string name s) d = push extref (name_text name) (text (text_of s)) d
apply (scalar name v) d = push (scalar_kind v) (name_text name) (scalar_value v) d
apply (stray_name _ _) d = d
apply (stray_id _) d = d

abbrev pub apply_all : List Entry → Decoder → Decoder
apply_all [] d = d
apply_all (e ∷ es) d = apply_all es (apply e d)

abbrev pub IsNameFits : Option WireString → Type 0
IsNameFits none = Unit
IsNameFits (some s) = IsString s

abbrev pub IsMark : Mark → Type 0
IsMark (type_name id s) = Fits (2 ^ 31) id × IsString s
IsMark (type_id id) = Fits (2 ^ 31) id
IsMark no_type = Unit

abbrev pub IsScalarFits : Scalar → Type 0
IsScalarFits (as_sbyte z) = Fits (2 ^ 7) z
IsScalarFits (as_byte v) = v < 256
IsScalarFits (as_short z) = Fits (2 ^ 15) z
IsScalarFits (as_ushort v) = v < 2 ^ 16
IsScalarFits (as_int z) = Fits (2 ^ 31) z
IsScalarFits (as_uint v) = v < 2 ^ 32
IsScalarFits (as_long z) = Fits (2 ^ 63) z
IsScalarFits (as_ulong v) = v < 2 ^ 64
IsScalarFits (as_float v) = v < 2 ^ 32
IsScalarFits (as_double v) = v < 2 ^ 64
IsScalarFits (as_decimal bs) = length bs ≡ 16
IsScalarFits (as_char v) = v < 2 ^ 16
IsScalarFits (as_string s) = IsString s
IsScalarFits (as_guid bs) = length bs ≡ 16
IsScalarFits (as_bool b) = Unit
IsScalarFits as_null = Unit

-- The numbers of an entry fit their fields.
abbrev pub IsEntry : Entry → Type 0
IsEntry (reference_node name mark id) = IsNameFits name × IsMark mark × Fits (2 ^ 31) id
IsEntry (struct_node name mark) = IsNameFits name × IsMark mark
IsEntry end_node = Unit
IsEntry end_array = Unit
IsEntry end_of_stream = Unit
IsEntry (start_of_array n) = Fits (2 ^ 63) n
IsEntry (primitives count bytes_per bs) =
    (count < 2 ^ 31)
    × (bytes_per < 2 ^ 31)
    × (length bs ≡ count * bytes_per)
    × All (λ b. b < 256) bs
IsEntry (internal_reference name id) = IsString name × Fits (2 ^ 31) id
IsEntry (unnamed_reference id) = Fits (2 ^ 31) id
IsEntry (by_index name id) = IsNameFits name × Fits (2 ^ 31) id
IsEntry (by_guid name g) = IsNameFits name × (length g ≡ 16) × All (λ b. b < 256) g
IsEntry (by_string name s) = IsNameFits name × IsString s
IsEntry (scalar name v) = IsNameFits name × IsScalarFits v
IsEntry (stray_name id s) = Fits (2 ^ 31) id × IsString s
IsEntry (stray_id id) = Fits (2 ^ 31) id
