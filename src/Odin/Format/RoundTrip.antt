-- ===== src/Odin/Format/RoundTrip.antt =====
-- The decoder of internal/odin/decoder.go on a stream that is written in the format.
use morgue.Common.{
  ℕ, zero, suc, ◌≤◌, ◌<◌, ◌≡◌, refl, sym, ap, ◌∙◌, subst, List, [], ◌∷◌, ◌++◌, Bool, true, false,
  Option, none, some, Bytes, ok, All, length, length-append, ◌==◌, if◌then◌else◌, not, arith,
}
use morgue.Cursor.{pure}
use morgue.Cursor.Words.{word_bytes, length-word_bytes}
use morgue.Cursor.Reads.{Reads, between, Reads-pure, Reads-bind, write_all}
use morgue.Odin.Reader.{
  Read, end, read_byte_raw, read_sbyte, read_int16, read_uint16, read_int32, read_uint32,
  read_int64, read_uint64, read_single, read_double, read_char, read_string,
}
use morgue.Odin.Reader.Written.{
  WireString, Reads-byte, Reads-sbyte, Reads-int16, Reads-uint16, Reads-int32, Reads-uint32,
  Reads-int64, Reads-uint64, Reads-single, Reads-double, Reads-char, Reads-string,
}
use morgue.Odin.Decoder.{
  Value, nil, int8, int16, int32, int64, uint8, uint16, uint32, uint64, float32, float64, text,
  boolean, Decoder, node_end, array_end, internalref, extref, eos, new_decoder, select, cases,
  round, continue, run_loop, decode, value_case, as_value, placeholder,
}
use morgue.Odin.Format.{
  Scalar, as_sbyte, as_short, as_int, as_long, as_byte, as_ushort, as_uint, as_ulong, as_float,
  as_double, as_char, as_string, as_bool, as_null, as_decimal, as_guid, Entry, reference_node,
  struct_node, end_node, end_array, end_of_stream, start_of_array, primitives, internal_reference,
  unnamed_reference, by_index, by_guid, by_string, scalar, stray_name, stray_id, tag, tags,
  write_scalar, payload, entry_tag, write_entry, scalar_kind, scalar_value, apply, apply_all,
  IsScalarFits, IsEntry,
}
use morgue.Odin.Format.Cases.{
  is_named, Reads-guid, Reads-placeholder, Reads-reference_node, Reads-struct_node, Reads-close,
  Reads-start_array, Reads-primitives, Reads-value_case, Reads-as_value, Reads-unnamed_reference,
  Reads-stray_name, Reads-stray_id,
}

-- The read behind the name of a value.
abbrev scalar_read : Scalar → Read Value
scalar_read (as_sbyte _) = as_value int8 read_sbyte
scalar_read (as_byte _) = as_value uint8 read_byte_raw
scalar_read (as_short _) = as_value int16 read_int16
scalar_read (as_ushort _) = as_value uint16 read_uint16
scalar_read (as_int _) = as_value int32 read_int32
scalar_read (as_uint _) = as_value uint32 read_uint32
scalar_read (as_long _) = as_value int64 read_int64
scalar_read (as_ulong _) = as_value uint64 read_uint64
scalar_read (as_float _) = as_value float32 read_single
scalar_read (as_double _) = as_value float64 read_double
scalar_read (as_decimal _) = placeholder
scalar_read (as_char _) = as_value text read_char
scalar_read (as_string _) = as_value text read_string
scalar_read (as_guid _) = placeholder
scalar_read (as_bool _) = as_value (λ b. boolean (not (b == 0))) read_byte_raw
scalar_read as_null = pure nil

Reads-scalar :
    (v : Scalar) → IsScalarFits v → Reads (scalar_read v) (write_scalar v) (scalar_value v)
Reads-scalar (as_sbyte z) h = Reads-as_value int8 (Reads-sbyte z h)
Reads-scalar (as_byte n) h = Reads-as_value uint8 (Reads-byte n h)
Reads-scalar (as_short z) h = Reads-as_value int16 (Reads-int16 z h)
Reads-scalar (as_ushort n) h = Reads-as_value uint16 (Reads-uint16 n h)
Reads-scalar (as_int z) h = Reads-as_value int32 (Reads-int32 z h)
Reads-scalar (as_uint n) h = Reads-as_value uint32 (Reads-uint32 n h)
Reads-scalar (as_long z) h = Reads-as_value int64 (Reads-int64 z h)
Reads-scalar (as_ulong n) h = Reads-as_value uint64 (Reads-uint64 n h)
Reads-scalar (as_float n) h = Reads-as_value float32 (Reads-single n h)
Reads-scalar (as_double n) h = Reads-as_value float64 (Reads-double n h)
Reads-scalar (as_decimal bs) h = Reads-placeholder bs h
Reads-scalar (as_char n) h = Reads-as_value text (Reads-char n h)
Reads-scalar (as_string s) h = Reads-as_value text (Reads-string s h)
Reads-scalar (as_guid bs) h = Reads-placeholder bs h
Reads-scalar (as_bool true) h =
    Reads-as_value (λ b. boolean (not (b == 0))) (Reads-byte 1 (omega arith))
Reads-scalar (as_bool false) h =
    Reads-as_value (λ b. boolean (not (b == 0))) (Reads-byte 0 (omega arith))
Reads-scalar as_null h = Reads-pure

-- The tag of a value selects the case that reads it.
select-scalar :
    (name : Option WireString) (v : Scalar)
    → select (entry_tag (scalar name v)) cases
      ≡ value_case (scalar_kind v) (scalar_read v) (is_named name)
unfolding select cases
select-scalar none (as_sbyte _) = refl
select-scalar none (as_byte _) = refl
select-scalar none (as_short _) = refl
select-scalar none (as_ushort _) = refl
select-scalar none (as_int _) = refl
select-scalar none (as_uint _) = refl
select-scalar none (as_long _) = refl
select-scalar none (as_ulong _) = refl
select-scalar none (as_float _) = refl
select-scalar none (as_double _) = refl
select-scalar none (as_decimal _) = refl
select-scalar none (as_char _) = refl
select-scalar none (as_string _) = refl
select-scalar none (as_guid _) = refl
select-scalar none (as_bool _) = refl
select-scalar none as_null = refl
select-scalar (some s) (as_sbyte _) = refl
select-scalar (some s) (as_byte _) = refl
select-scalar (some s) (as_short _) = refl
select-scalar (some s) (as_ushort _) = refl
select-scalar (some s) (as_int _) = refl
select-scalar (some s) (as_uint _) = refl
select-scalar (some s) (as_long _) = refl
select-scalar (some s) (as_ulong _) = refl
select-scalar (some s) (as_float _) = refl
select-scalar (some s) (as_double _) = refl
select-scalar (some s) (as_decimal _) = refl
select-scalar (some s) (as_char _) = refl
select-scalar (some s) (as_string _) = refl
select-scalar (some s) (as_guid _) = refl
select-scalar (some s) (as_bool _) = refl
select-scalar (some s) as_null = refl

-- A round takes the tag and the case behind it.
Reads-round :
    (t : ℕ) {bs : Bytes} (d d' : Decoder)
    → t < 256
    → Reads (select t cases d) bs d'
    → Reads (round d) (word_bytes 1 t ++ bs) d'
unfolding round
Reads-round t d d' small h = Reads-bind _ (Reads-byte t small) h

tag-lt : (name : Option WireString) (a b : ℕ) → a < 256 → b < 256 → tag name a b < 256
tag-lt none a b ha hb = hb
tag-lt (some s) a b ha hb = ha

entry_tag-lt : (e : Entry) → entry_tag e < 256
entry_tag-lt (reference_node name _ _) = tag-lt name 0x01 0x02 (omega arith) (omega arith)
entry_tag-lt (struct_node name _) = tag-lt name 0x03 0x04 (omega arith) (omega arith)
entry_tag-lt (by_index name _) = tag-lt name 0x0B 0x0C (omega arith) (omega arith)
entry_tag-lt (by_guid name _) = tag-lt name 0x0D 0x0E (omega arith) (omega arith)
entry_tag-lt (by_string name _) = tag-lt name 0x32 0x33 (omega arith) (omega arith)
entry_tag-lt (scalar name v) = tag-lt name (tags v).0 (tags v).1 (small v).0 (small v).1
  where
    small : (v : Scalar) → ((tags v).0 < 256) × ((tags v).1 < 256)
    small (as_sbyte _) = (omega arith, omega arith)
    small (as_byte _) = (omega arith, omega arith)
    small (as_short _) = (omega arith, omega arith)
    small (as_ushort _) = (omega arith, omega arith)
    small (as_int _) = (omega arith, omega arith)
    small (as_uint _) = (omega arith, omega arith)
    small (as_long _) = (omega arith, omega arith)
    small (as_ulong _) = (omega arith, omega arith)
    small (as_float _) = (omega arith, omega arith)
    small (as_double _) = (omega arith, omega arith)
    small (as_decimal _) = (omega arith, omega arith)
    small (as_char _) = (omega arith, omega arith)
    small (as_string _) = (omega arith, omega arith)
    small (as_guid _) = (omega arith, omega arith)
    small (as_bool _) = (omega arith, omega arith)
    small as_null = (omega arith, omega arith)
entry_tag-lt end_node = omega arith
entry_tag-lt end_array = omega arith
entry_tag-lt end_of_stream = omega arith
entry_tag-lt (start_of_array _) = omega arith
entry_tag-lt (primitives _ _ _) = omega arith
entry_tag-lt (internal_reference _ _) = omega arith
entry_tag-lt (unnamed_reference _) = omega arith
entry_tag-lt (stray_name _ _) = omega arith
entry_tag-lt (stray_id _) = omega arith

-- The case of an entry reads what stands behind its tag.
Reads-case :
    (e : Entry) (d : Decoder)
    → IsEntry e
    → Reads (select (entry_tag e) cases d) (payload e) (apply e d)
unfolding select cases
Reads-case (reference_node none mark id) d (h, g, f) = Reads-reference_node none mark id d h g f
Reads-case (reference_node (some s) mark id) d (h, g, f) =
    Reads-reference_node (some s) mark id d h g f
Reads-case (struct_node none mark) d (h, g) = Reads-struct_node none mark d h g
Reads-case (struct_node (some s) mark) d (h, g) = Reads-struct_node (some s) mark d h g
Reads-case end_node d h = Reads-close node_end d
Reads-case end_array d h = Reads-close array_end d
Reads-case end_of_stream d h = Reads-value_case eos (pure nil) none d h Reads-pure
Reads-case (start_of_array n) d h = Reads-start_array n d h
Reads-case (primitives count bytes_per bs) d h = Reads-primitives count bytes_per bs d h
Reads-case (internal_reference name id) d (h, g) =
    Reads-value_case internalref _ (some name) d h (Reads-as_value int32 (Reads-int32 id g))
Reads-case (unnamed_reference id) d h = Reads-unnamed_reference id d h
Reads-case (by_index none id) d (h, g) =
    Reads-value_case extref _ none d h (Reads-as_value int32 (Reads-int32 id g))
Reads-case (by_index (some s) id) d (h, g) =
    Reads-value_case extref _ (some s) d h (Reads-as_value int32 (Reads-int32 id g))
Reads-case (by_guid none bs) d (h, g, k) =
    Reads-value_case extref _ none d h (Reads-as_value text (Reads-guid bs g k))
Reads-case (by_guid (some s) bs) d (h, g, k) =
    Reads-value_case extref _ (some s) d h (Reads-as_value text (Reads-guid bs g k))
Reads-case (by_string none t) d (h, g) =
    Reads-value_case extref _ none d h (Reads-as_value text (Reads-string t g))
Reads-case (by_string (some s) t) d (h, g) =
    Reads-value_case extref _ (some s) d h (Reads-as_value text (Reads-string t g))
Reads-case (scalar name v) d (h, g) =
    subst (λ f. Reads (f d) (payload (scalar name v)) (apply (scalar name v) d))
      (sym (select-scalar name v))
      (Reads-value_case (scalar_kind v) (scalar_read v) name d h (Reads-scalar v g))
Reads-case (stray_name id s) d (h, g) = Reads-stray_name id s d h g
Reads-case (stray_id id) d h = Reads-stray_id id d h

Reads-entry : (e : Entry) (d : Decoder) → IsEntry e → Reads (round d) (write_entry e) (apply e d)
unfolding write_entry
Reads-entry e d h = Reads-round (entry_tag e) d (apply e d) (entry_tag-lt e) (Reads-case e d h)

-- An entry is a byte at least.
write_entry-nonempty : (e : Entry) → 1 ≤ length (write_entry e)
unfolding write_entry
write_entry-nonempty e = omega (
  arith,
  length-append (word_bytes 1 (entry_tag e)) (payload e),
  length-word_bytes 1 (entry_tag e),
)

loop_step :
    (fuel : ℕ) (d d' : Decoder) (front bs rest : Bytes)
    → Reads (round d) bs d'
    → 1 ≤ length bs
    → run_loop (suc fuel) d (between front (bs ++ rest))
      ≡ run_loop fuel d' (between (front ++ bs) rest)
unfolding run_loop
loop_step fuel d d' front bs rest h some_byte =
    ap
      (λ (b : Bool).
        if b then some (ok d) else continue (run_loop fuel) (round d (between front (bs ++ rest))))
      more
    ∙ ap (continue (run_loop fuel)) (h.reads front rest)
    ∙ unfold continue in refl
  where
    more : end (between front (bs ++ rest)) ≡ false
    more = unfold end in ground (arith, length-append front (bs ++ rest), length-append bs rest)

at_end : (front : Bytes) → end (between front []) ≡ true
unfolding end
at_end front = ground (arith, length-append front [])

loop_end :
    (fuel : ℕ) (d : Decoder) (front : Bytes) → run_loop fuel d (between front []) ≡ some (ok d)
unfolding run_loop
loop_end zero d front = ap (λ (b : Bool). if b then some (ok d) else none) (at_end front)
loop_end (suc fuel) d front =
    ap
      (λ (b : Bool).
        if b then some (ok d) else continue (run_loop fuel) (round d (between front [])))
      (at_end front)

run_loop-write :
    (fuel : ℕ) (es : List Entry) (d : Decoder) (front : Bytes)
    → length (write_all write_entry es) ≤ fuel
    → All IsEntry es
    → run_loop fuel d (between front (write_all write_entry es)) ≡ some (ok (apply_all es d))
run_loop-write fuel [] d front room h = loop_end fuel d front
run_loop-write zero (e ∷ es) d front room h =
    ground (
      arith,
      room,
      write_entry-nonempty e,
      length-append (write_entry e) (write_all write_entry es),
    )
run_loop-write (suc fuel) (e ∷ es) d front room (he, h) =
    loop_step fuel d (apply e d) front (write_entry e) (write_all write_entry es)
      (Reads-entry e d he) (write_entry-nonempty e)
    ∙ run_loop-write fuel es (apply e d) (front ++ write_entry e)
        (omega (
          arith,
          room,
          write_entry-nonempty e,
          length-append (write_entry e) (write_all write_entry es),
        ))
        h

-- A stream of entries, written one behind the other, decodes to the tokens of these entries in
-- their order, each at its depth and with its name, type and value, where the numbers, the strings
-- (of at most 5,000,000 characters) and the arrays of each entry fit their fields. A decimal and a
-- guid have the value "?", and an unnamed internal reference none.
pub decode-write_entries :
    (es : List Entry)
    → All IsEntry es
    → decode (write_all write_entry es) ≡ some (ok (apply_all es new_decoder))
unfolding decode
decode-write_entries es h =
    run_loop-write (length (write_all write_entry es)) es new_decoder [] (omega arith) h
