-- ===== src/Odin/Format/Cases.antt =====
-- Each case of the switch of `run` in internal/odin/decoder.go on the payload of its entry.
use morgue.Common.{
  ℕ, ◌-◌, ◌*◌, ◌^◌, ◌≤◌, ◌<◌, ◌≡◌, refl, ap, ◌∙◌, subst, List, [], ◌∷◌, ◌++◌, Bool, true, false,
  Option, none, some, Bytes, ok, err, All, length, length-append, ap₂, codes, ◌%◌, get_elem?, ltb,
  le→ltb-false, if◌then◌else◌, ℤ, pos, Fits, arith, min, append-nil,
}
use morgue.Cursor.{Cursor, pure, ◌>>=◌, ◌>>◌, repeat, advance}
use morgue.Cursor.Words.{word_bytes, int32_bytes}
use morgue.Cursor.Reads.{
  Reads, between, Reads-pure, Reads-bind, Reads-then, Reads-map, Reads-else_branch, bind_ok,
  advance-between, write_all,
}
use morgue.Odin.Reader.{Text, Read, decode_error, state, end, remaining, read_byte_raw}
use morgue.Odin.Reader.Written.{
  WireString, write_string, IsString, Reads-byte, Reads-int32, Reads-int64, Reads-string,
  Reads-items,
}
use morgue.Odin.Decoder.{
  Kind, Value, nil, text, Decoder, type_of_marker, read_type, skip_n, hex, read_guid_hex, raw_byte,
  read_raw, name_of, as_value, placeholder, open_node, add_val, value_case, start_reference_node,
  start_struct_node, close, start_array, primitive_array, stray_type_name, stray_type_id,
  unnamed_internal_reference, internalref,
}
use morgue.Odin.Format.{
  start_of_array, primitives, IsEntry, Mark, type_name, type_id, no_type, write_name, write_mark,
  name_text, mark_type, mark_cache, push, push_node, push_end, IsNameFits, IsMark, payload, apply,
}

abbrev pub is_named : Option WireString → Bool
is_named none = false
is_named (some s) = true

pub Reads-name :
    (name : Option WireString)
    → IsNameFits name
    → Reads (name_of (is_named name)) (write_name name) (name_text name)
unfolding name_of
Reads-name none h = Reads-pure
Reads-name (some s) h = Reads-string s h

get_elem?-between :
    (front : Bytes) (c : ℕ) (rest : Bytes) → get_elem? (front ++ c ∷ rest) (length front) ≡ some c
get_elem?-between [] c rest = refl
get_elem?-between (b ∷ front) c rest = get_elem?-between front c rest

-- A read whose value is not used.
Reads-end {κ} :
    {A : Type κ} {p : Read A} {bs : Bytes} {a : A} {d : Decoder}
    → Reads p bs a
    → Reads (p >> pure d) bs d
Reads-end {p} {bs} {a} {d} h =
    subst (λ cs. Reads (p >> pure d) cs d) (append-nil bs) (Reads-then h Reads-pure)

-- A mark whose first byte is `t`.
Reads-peek :
    (cache : List (ℤ × Text)) (t : ℕ) (bs : Bytes) (a : Text × List (ℤ × Text))
    → t < 256
    → Reads (type_of_marker t cache) (word_bytes 1 t ++ bs) a
    → Reads (read_type cache) (word_bytes 1 t ++ bs) a
unfolding read_type word_bytes
Reads-peek cache t bs a small h = record {
  reads = λ front rest.
      ap
        (λ o. elim o [
          | none ↦ ok (([], cache), between front (t % 256 ∷ (bs ++ rest)))
          | some c ↦ type_of_marker c cache (between front (t % 256 ∷ (bs ++ rest)))
        ])
        (get_elem?-between front (t % 256) (bs ++ rest) ∙ ap some (omega arith))
      ∙ h.reads front rest;
}

Reads-mark :
    (mark : Mark) (cache : List (ℤ × Text))
    → IsMark mark
    → Reads (read_type cache) (write_mark mark) (mark_type mark cache, mark_cache mark cache)
Reads-mark (type_name id s) cache h = Reads-peek cache 0x2F _ _ (omega arith) (
    unfold type_of_marker in
    Reads-then (Reads-byte 0x2F (omega arith))
      (Reads-bind _ (Reads-int32 id h.0) (Reads-map _ (Reads-string s h.1))))
Reads-mark (type_id id) cache h = Reads-peek cache 0x30 _ _ (omega arith) (
    unfold type_of_marker in
    Reads-then (Reads-byte 0x30 (omega arith)) (Reads-map _ (Reads-int32 id h)))
Reads-mark no_type cache h =
    subst (λ bs. Reads (read_type cache) bs ([], cache)) (append-nil (word_bytes 1 0x2E))
      (Reads-peek cache 0x2E [] _ (omega arith)
        (unfold type_of_marker in Reads-then (Reads-byte 0x2E (omega arith)) Reads-pure))

state_ok {κ} : {A : Type κ} (f : Cursor → A) (r : Cursor) → state f r ≡ ok (f r, r)
unfolding state
state_ok f r = refl

-- A guard on what is left, over the bytes that are.
Reads-guarded {κ} :
    {A : Type κ} (f : ℕ → Read A) (bs : Bytes) (a : A)
    → ((left : ℕ) → length bs ≤ left → Reads (f left) bs a)
    → Reads (state remaining >>= f) bs a
Reads-guarded f bs a h = record {
  reads = λ front rest.
      bind_ok (state remaining) f (state_ok remaining (between front (bs ++ rest)))
      ∙ (h (remaining (between front (bs ++ rest))) (enough front rest)).reads front rest;
}
  where
    enough : (front rest : Bytes) → length bs ≤ remaining (between front (bs ++ rest))
    enough front rest =
        unfold remaining in omega (arith, length-append front (bs ++ rest), length-append bs rest)

raw_bytes : (bs : Bytes) → All (λ b. b < 256) bs → write_all (word_bytes 1) bs ≡ bs
unfolding word_bytes
raw_bytes [] h = refl
raw_bytes (b ∷ bs) (hb, h) = ap₂ (λ c cs. c ∷ cs) (omega arith) (raw_bytes bs h)

Reads-raw_byte : (b : ℕ) → b < 256 → Reads raw_byte (word_bytes 1 b) b
unfolding raw_byte
Reads-raw_byte b h = record {
  reads = λ front rest.
      ap
        (λ (e : Bool).
          if e
          then err (decode_error "truncated primarray")
          else read_byte_raw (between front (word_bytes 1 b ++ rest)))
        (more front rest)
      ∙ (Reads-byte b h).reads front rest;
}
  where
    more : (front rest : Bytes) → end (between front (word_bytes 1 b ++ rest)) ≡ false
    more front rest = unfold end word_bytes in ground (arith, length-append front (b % 256 ∷ rest))

Reads-bytes :
    (p : Read ℕ) (bs : Bytes)
    → ((b : ℕ) → b < 256 → Reads p (word_bytes 1 b) b)
    → All (λ b. b < 256) bs
    → Reads (repeat (λ _. p) (length bs) 0) bs bs
Reads-bytes p bs h g =
    subst (λ cs. Reads (repeat (λ _. p) (length bs) 0) cs bs) (raw_bytes bs g)
      (Reads-items p (word_bytes 1) (λ b. b < 256) bs h g)

Reads-read_raw :
    (count bytes_per : ℕ) (bs : Bytes)
    → length bs ≡ count * bytes_per
    → All (λ b. b < 256) bs
    → Reads (read_raw (pos count) (pos bytes_per)) bs (count, bytes_per, bs)
unfolding read_raw
Reads-read_raw count bytes_per bs h g = Reads-guarded _ bs _ λ left room.
    Reads-else_branch _ _ (ltb left (count * bytes_per)) (le→ltb-false _ _ (omega (arith, h, room)))
      (Reads-map _ (
        subst (λ n. Reads (repeat (λ _. raw_byte) n 0) bs bs) h
          (Reads-bytes raw_byte bs Reads-raw_byte g)))

pub Reads-guid : (g : Bytes) → length g ≡ 16 → All (λ b. b < 256) g → Reads read_guid_hex g (hex g)
unfolding read_guid_hex
Reads-guid g h k = Reads-guarded _ g _ λ left room. Reads-map hex (
    subst (λ n. Reads (repeat (λ _. read_byte_raw) n 0) g g) (sixteen left room)
      (Reads-bytes read_byte_raw g Reads-byte k))
  where
    sixteen : (left : ℕ) → length g ≤ left → length g ≡ min 16 left
    sixteen left room = omega (arith, h)

Reads-skip_n : (bs : Bytes) → length bs ≡ 16 → Reads (skip_n 16) bs tt
unfolding skip_n remaining
Reads-skip_n bs h = record {
  reads = λ front rest.
      ap (λ n. ok (tt, advance n (between front (bs ++ rest)))) (all front rest)
      ∙ ap (λ r. ok (tt, r)) (advance-between front bs rest);
}
  where
    all : (front rest : Bytes) → min 16 (length (front ++ (bs ++ rest)) - length front) ≡ length bs
    all front rest = omega (arith, h, length-append front (bs ++ rest), length-append bs rest)

pub Reads-placeholder : (bs : Bytes) → length bs ≡ 16 → Reads placeholder bs (text (codes "?"))
unfolding placeholder
Reads-placeholder bs h =
    subst (λ cs. Reads placeholder cs (text (codes "?"))) (append-nil bs)
      (unfold placeholder in Reads-then (Reads-skip_n bs h) Reads-pure)

pub Reads-reference_node :
    (name : Option WireString) (mark : Mark) (id : ℤ) (d : Decoder)
    → IsNameFits name
    → IsMark mark
    → Fits (2 ^ 31) id
    → Reads
        (start_reference_node (is_named name) d)
        (write_name name ++ (write_mark mark ++ int32_bytes id))
        (push_node name mark d)
unfolding start_reference_node open_node
Reads-reference_node name mark id d h g f =
    Reads-bind _ (Reads-name name h)
      (Reads-bind _ (Reads-mark mark d.type_cache g) (Reads-end (Reads-int32 id f)))

pub Reads-struct_node :
    (name : Option WireString) (mark : Mark) (d : Decoder)
    → IsNameFits name
    → IsMark mark
    → Reads
        (start_struct_node (is_named name) d)
        (write_name name ++ write_mark mark)
        (push_node name mark d)
unfolding start_struct_node open_node
Reads-struct_node name mark d h g =
    Reads-bind _ (Reads-name name h) (Reads-map _ (Reads-mark mark d.type_cache g))

pub Reads-close : (kind : Kind) (d : Decoder) → Reads (close kind d) [] (push_end kind d)
unfolding close
Reads-close kind d = Reads-pure

pub Reads-start_array :
    (n : ℤ) (d : Decoder)
    → Fits (2 ^ 63) n
    → Reads (start_array d) (payload (start_of_array n)) (apply (start_of_array n) d)
unfolding start_array
Reads-start_array n d h = Reads-map _ (Reads-int64 n h)

pub Reads-primitives :
    (count bytes_per : ℕ) (bs : Bytes) (d : Decoder)
    → IsEntry (primitives count bytes_per bs)
    → Reads
        (primitive_array d)
        (payload (primitives count bytes_per bs))
        (apply (primitives count bytes_per bs) d)
unfolding primitive_array
Reads-primitives count bytes_per bs d (hc, hb, hl, hs) = Reads-bind _ (Reads-int32 (pos count) hc) (
    Reads-bind _ (Reads-int32 (pos bytes_per) hb)
      (Reads-map _ (Reads-read_raw count bytes_per bs hl hs)))

pub Reads-value_case :
    (kind : Kind) (read : Read Value) (name : Option WireString) {bs : Bytes} {v : Value}
    (d : Decoder)
    → IsNameFits name
    → Reads read bs v
    → Reads
        (value_case kind read (is_named name) d)
        (write_name name ++ bs)
        (push kind (name_text name) v d)
unfolding value_case add_val
Reads-value_case kind read name d h g = Reads-bind _ (Reads-name name h) (Reads-map _ g)

pub Reads-as_value {κ} :
    {A : Type κ} (f : A → Value) {read : Read A} {bs : Bytes} {a : A}
    → Reads read bs a
    → Reads (as_value f read) bs (f a)
unfolding as_value
Reads-as_value f h = Reads-map f h

pub Reads-unnamed_reference :
    (id : ℤ) (d : Decoder)
    → Fits (2 ^ 31) id
    → Reads (unnamed_internal_reference d) (int32_bytes id) (push internalref [] nil d)
unfolding unnamed_internal_reference add_val
Reads-unnamed_reference id d h = Reads-end (Reads-int32 id h)

pub Reads-stray_name :
    (id : ℤ) (s : WireString) (d : Decoder)
    → Fits (2 ^ 31) id
    → IsString s
    → Reads (stray_type_name d) (int32_bytes id ++ write_string s) d
unfolding stray_type_name
Reads-stray_name id s d h g = Reads-then (Reads-int32 id h) (Reads-end (Reads-string s g))

pub Reads-stray_id :
    (id : ℤ) (d : Decoder) → Fits (2 ^ 31) id → Reads (stray_type_id d) (int32_bytes id) d
unfolding stray_type_id
Reads-stray_id id d h = Reads-end (Reads-int32 id h)
