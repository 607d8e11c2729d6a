-- ===== src/Odin/Decoder.antt =====
-- The decoder of internal/odin/decoder.go, from a blob to a flat list of tokens.
pub mod Tokens
pub mod Loop
use morgue.Common.{
  ℕ, zero, suc, ◌+◌, ◌*◌, ◌-◌, ◌/◌, ◌%◌, ◌^◌, String, List, [], ◌∷◌, ◌++◌, Bool, true, false, not,
  ◌||◌, Option, none, some, Bytes, Result, ok, err, length, get_elem?, ltb, leb, ◌==◌,
  if◌then◌else◌, ℤ, pos, negsuc, inc, dec, codes, itoa, itoa_ℤ, min,
}
use morgue.Cursor.{Cursor, pure, fail, ◌>>=◌, ◌>>◌, repeat, advance}
use morgue.Odin.Reader.{
  Text, Panic, decode_error, index_out_of_range, Read, state, end, remaining, read_byte_raw,
  read_sbyte, read_int16, read_uint16, read_int32, read_uint32, read_int64, read_uint64,
  read_single, read_double, read_char, read_string,
}

-- tok.kind
pub data Kind : Type 0 where
  node_start node_end array_start array_end primarray int uint long ulong float double string bool
        sbyte byte short ushort char null internalref extref eos raw decimal guid :
      Kind

-- tok.value, with its Go type; a float is its bit pattern.
pub data Value : Type 0 where
  nil : Value
  int8 int16 int32 int64 : ℤ → Value
  uint8 uint16 uint32 uint64 : ℕ → Value
  float32 float64 : ℕ → Value
  text : Text → Value
  boolean : Bool → Value

pub record Tok : Type 0 where
  pub kind : Kind
  pub name : Text
  pub value : Value
  pub type_str : Text
  pub raw_arr : Bytes
  pub depth : ℤ

-- The decoder without its reader. The cache holds the newest entry of an id first.
pub record Decoder : Type 0 where
  pub toks : List Tok
  pub depth : ℤ
  pub type_cache : List (ℤ × Text)

abbrev pub new_decoder : Decoder
new_decoder = record { toks = []; depth = pos 0; type_cache = [] }

unfoldable pub eq_ℤ : ℤ → ℤ → Bool
eq_ℤ (pos a) (pos b) = a == b
eq_ℤ (negsuc a) (negsuc b) = a == b
eq_ℤ _ _ = false

unfoldable pub cached : ℤ → List (ℤ × Text) → Option Text
unfolding eq_ℤ
cached id [] = none
cached id ((i, s) ∷ cache) = if eq_ℤ i id then some s else cached id cache

-- `d.typeCache[id]`, or "#id" and the number.
unfoldable pub cached_type : ℤ → List (ℤ × Text) → Text
unfolding cached itoa_ℤ
cached_type id cache = elim (cached id cache) [ some v ↦ v | none ↦ codes "#id" ++ itoa_ℤ id ]

-- The switch of readType over the byte that it peeks at, with the cache that it leaves.
unfoldable pub type_of_marker : ℕ → List (ℤ × Text) → Read (Text × List (ℤ × Text))
type_of_marker t cache =
    if t == 0x2F
    then (do read_byte_raw; id ← read_int32; s ← read_string; pure (s, (id, s) ∷ cache))
    else if t == 0x30
    then (do read_byte_raw; id ← read_int32; pure (cached_type id cache, cache))
    else if t == 0x2E
    then (do read_byte_raw; pure ([], cache))
    else pure ([], cache)

unfoldable pub read_type : List (ℤ × Text) → Read (Text × List (ℤ × Text))
read_type cache r = elim (get_elem? r.bytes r.pos) [
  | none ↦ ok (([], cache), r)
  | some t ↦ type_of_marker t cache r
]

-- A token of `kind` at the current depth; its other fields are Go's zero values.
abbrev pub bare : Kind → ℤ → Tok
bare kind depth = record {
  kind = kind;
  name = [];
  value = nil;
  type_str = [];
  raw_arr = [];
  depth = depth;
}

unfoldable pub add : Tok → Decoder → Decoder
add t d = record d { toks = d.toks ++ t ∷ [] }

unfoldable pub add_val : Kind → Text → Value → Decoder → Decoder
unfolding add
add_val kind name v d = add (record (bare kind d.depth) { name = name; value = v }) d

unfoldable pub skip_n : ℕ → Read (Unit {0})
unfolding remaining
skip_n n r = ok (tt, advance (min n (remaining r)) r)

-- The digits of hex.EncodeToString.
unfoldable pub hex_digit : ℕ → ℕ
hex_digit n = if ltb n 10 then b'0' + n else b'a' + (n - 10)

unfoldable pub hex : Bytes → Text
unfolding hex_digit
hex [] = []
hex (b ∷ bs) = hex_digit (b / 16 % 16) ∷ (hex_digit (b % 16) ∷ hex bs)

-- Up to 16 bytes, as many as are left.
unfoldable pub read_guid_hex : Read Text
read_guid_hex = do
  left ← state remaining
  bs ← repeat (λ _. read_byte_raw) (min 16 left) 0
  pure (hex bs)

-- A case of the switch in `run`: what it does to the decoder behind the tag byte.
abbrev pub Handler : Type 0
Handler = Decoder → Read Decoder

-- `d.add(node-start)` and `d.depth++`.
unfoldable pub open_node : Text → Text → Decoder → Decoder
unfolding add
open_node name ty d =
    let d' = add (record (bare node_start d.depth) { name = name; type_str = ty }) d in
    record d' { depth = inc d.depth }

-- The name that a case reads first, or "" in its unnamed twin.
unfoldable pub name_of : Bool → Read Text
name_of named = if named then read_string else pure []

unfoldable pub start_reference_node : Bool → Handler
start_reference_node named d = do
  name ← name_of named
  (ty, cache) ← read_type d.type_cache
  read_int32
  pure (open_node name ty (record d { type_cache = cache }))

unfoldable pub start_struct_node : Bool → Handler
start_struct_node named d = do
  name ← name_of named
  (ty, cache) ← read_type d.type_cache
  pure (open_node name ty (record d { type_cache = cache }))

-- `d.depth--` and `d.add(node-end)` or `d.add(array-end)`.
unfoldable pub close : Kind → Handler
unfolding add
close kind d = let z = dec d.depth in pure (add (bare kind z) (record d { depth = z }))

unfoldable pub start_array : Handler
unfolding add
start_array d = do
  length ← read_int64
  let d' = add (record (bare array_start d.depth) { value = int64 length }) d
  pure (record d' { depth = inc d.depth })

-- One byte of the loop that fills `raw`, which checks for the end itself.
unfoldable pub raw_byte : Read ℕ
raw_byte r = if end r then err (decode_error "truncated primarray") else read_byte_raw r

-- The array behind its two counts; the guard rejects a count below zero and a total above what is left.
unfoldable pub read_raw : ℤ → ℤ → Read (ℕ × ℕ × Bytes)
read_raw (pos count) (pos bytes_per) = do
  left ← state remaining
  if ltb left (count * bytes_per)
      then fail (decode_error "primarray length exceeds remaining bytes")
      else (do bs ← repeat (λ _. raw_byte) (count * bytes_per) 0; pure (count, bytes_per, bs))
read_raw _ _ = fail (decode_error "primarray length exceeds remaining bytes")

unfoldable pub primitive_array : Handler
unfolding add itoa
primitive_array d = do
  count ← read_int32
  bytes_per ← read_int32
  (n, k, bs) ← read_raw count bytes_per
  let t = bare primarray d.depth
  pure (add (record t { value = int64 (pos n); type_str = itoa k; raw_arr = bs }) d)

-- A case that adds one value of `kind`, read behind the name.
unfoldable pub value_case : Kind → Read Value → Bool → Handler
value_case kind read named d = do name ← name_of named; v ← read; pure (add_val kind name v d)

-- A read method and the Go type that the value gets.
unfoldable pub as_value {κ} : {A : Type κ} → (A → Value) → Read A → Read Value
as_value f read = do v ← read; pure (f v)

unfoldable pub placeholder : Read Value
unfolding skip_n
placeholder = do skip_n 16; pure (text (codes "?"))

unfoldable pub stray_type_name : Handler
stray_type_name d = do read_int32; read_string; pure d

unfoldable pub stray_type_id : Handler
stray_type_id d = do read_int32; pure d

-- The unnamed internal reference: the id is read and dropped.
unfoldable pub unnamed_internal_reference : Handler
unnamed_internal_reference d = do read_int32; pure (add_val internalref [] nil d)

-- The cases of the switch: the tag byte, and the case behind it.
unfoldable pub cases : List (ℕ × Handler)
cases =
    (0x01, start_reference_node true)
    ∷ (0x02, start_reference_node false)
    ∷ (0x03, start_struct_node true)
    ∷ (0x04, start_struct_node false)
    ∷ (0x05, close node_end)
    ∷ (0x06, start_array)
    ∷ (0x07, close array_end)
    ∷ (0x08, primitive_array)
    ∷ (0x09, value_case internalref (as_value int32 read_int32) true)
    ∷ (0x0A, unnamed_internal_reference)
    ∷ (0x0B, value_case extref (as_value int32 read_int32) true)
    ∷ (0x0C, value_case extref (as_value int32 read_int32) false)
    ∷ (0x0D, value_case extref (as_value text read_guid_hex) true)
    ∷ (0x0E, value_case extref (as_value text read_guid_hex) false)
    ∷ (0x0F, value_case sbyte (as_value int8 read_sbyte) true)
    ∷ (0x10, value_case sbyte (as_value int8 read_sbyte) false)
    ∷ (0x11, value_case byte (as_value uint8 read_byte_raw) true)
    ∷ (0x12, value_case byte (as_value uint8 read_byte_raw) false)
    ∷ (0x13, value_case short (as_value int16 read_int16) true)
    ∷ (0x14, value_case short (as_value int16 read_int16) false)
    ∷ (0x15, value_case ushort (as_value uint16 read_uint16) true)
    ∷ (0x16, value_case ushort (as_value uint16 read_uint16) false)
    ∷ (0x17, value_case int (as_value int32 read_int32) true)
    ∷ (0x18, value_case int (as_value int32 read_int32) false)
    ∷ (0x19, value_case uint (as_value uint32 read_uint32) true)
    ∷ (0x1A, value_case uint (as_value uint32 read_uint32) false)
    ∷ (0x1B, value_case long (as_value int64 read_int64) true)
    ∷ (0x1C, value_case long (as_value int64 read_int64) false)
    ∷ (0x1D, value_case ulong (as_value uint64 read_uint64) true)
    ∷ (0x1E, value_case ulong (as_value uint64 read_uint64) false)
    ∷ (0x1F, value_case float (as_value float32 read_single) true)
    ∷ (0x20, value_case float (as_value float32 read_single) false)
    ∷ (0x21, value_case double (as_value float64 read_double) true)
    ∷ (0x22, value_case double (as_value float64 read_double) false)
    ∷ (0x23, value_case decimal placeholder true)
    ∷ (0x24, value_case decimal placeholder false)
    ∷ (0x25, value_case char (as_value text read_char) true)
    ∷ (0x26, value_case char (as_value text read_char) false)
    ∷ (0x27, value_case string (as_value text read_string) true)
    ∷ (0x28, value_case string (as_value text read_string) false)
    ∷ (0x29, value_case guid placeholder true)
    ∷ (0x2A, value_case guid placeholder false)
    ∷ (0x2B, value_case bool (as_value (λ b. boolean (not (b == 0))) read_byte_raw) true)
    ∷ (0x2C, value_case bool (as_value (λ b. boolean (not (b == 0))) read_byte_raw) false)
    ∷ (0x2D, value_case null (pure nil) true)
    ∷ (0x2E, value_case null (pure nil) false)
    ∷ (0x2F, stray_type_name)
    ∷ (0x30, stray_type_id)
    ∷ (0x31, value_case eos (pure nil) false)
    ∷ (0x32, value_case extref (as_value text read_string) true)
    ∷ (0x33, value_case extref (as_value text read_string) false)
    ∷ []

-- The default case keeps the byte as a value.
unfoldable pub select : ℕ → List (ℕ × Handler) → Handler
select t [] = λ d. pure (add_val raw [] (uint8 t) d)
select t ((tag, handler) ∷ rest) = if t == tag then handler else select t rest

-- One round of the loop.
unfoldable pub round : Handler
unfolding select cases
round d = do t ← read_byte_raw; select t cases d

-- What the loop does with the outcome of a round.
unfoldable pub continue :
    (Decoder → Cursor → Option (Result Panic Decoder))
    → Result Panic (Decoder × Cursor)
    → Option (Result Panic Decoder)
continue loop (ok (d, r)) = loop d r
continue loop (err e) = some (err e)

-- The loop of `run`; `none` means that the fuel ran out.
unfoldable pub run_loop : ℕ → Decoder → Cursor → Option (Result Panic Decoder)
unfolding continue
run_loop zero d r = if end r then some (ok d) else none
run_loop (suc fuel) d r = if end r then some (ok d) else continue (run_loop fuel) (round d r)

-- newDecoder and `run`: each round takes a byte at least.
unfoldable pub decode : Bytes → Option (Result Panic Decoder)
unfolding run_loop
decode blob = run_loop (length blob) new_decoder (record { bytes = blob; pos = 0 })
