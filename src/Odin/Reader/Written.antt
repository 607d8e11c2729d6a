-- ===== src/Odin/Reader/Written.antt =====
-- The methods of `reader` (internal/odin/reader.go) on input that is written for them.
use morgue.Common.{
  ℕ, ◌+◌, ◌*◌, ◌^◌, ◌≤◌, ◌<◌, ◌≡◌, refl, ◌∙◌, ap, subst, List, [], ◌∷◌, ◌++◌, false, Bytes, Result,
  ok, err, All, All-map, length, length-append, ltb, le→ltb-false, if◌then◌else◌, ℤ, pos, Fits,
  signed, unsigned, unsigned-lt, signed-unsigned, arith,
}
use morgue.Cursor.{Cursor, pure, ◌>>=◌, fetch, repeat}
use morgue.Cursor.Words.{
  little_endian, word_bytes, length-word_bytes, little_endian-word_bytes, int32_bytes,
}
use morgue.Cursor.Reads.{
  Reads, between, Reads-pure, Reads-bind, Reads-map, Reads-fetch, Reads-repeat, write_all, numbered,
}
use morgue.Odin.Reader.{
  Text, Panic, Read, read_bytes, read_byte_raw, read_sbyte, read_int16, read_uint16, read_int32,
  read_uint32, read_int64, read_uint64, read_single, read_double, read_char, read_chars,
  checked_count, read_string, bad_string_len, index_out_of_range,
}
use morgue.Odin.Reader.Utf16.{decode_utf16}

Reads-read_bytes : (bs : Bytes) → Reads (read_bytes (length bs)) bs bs
unfolding read_bytes
Reads-read_bytes bs = record {
  reads = λ front rest.
      ap (λ b. if b then err index_out_of_range else fetch (length bs) (between front (bs ++ rest)))
        (enough front rest)
      ∙ (Reads-fetch bs).reads front rest;
}
  where
    enough :
        (front rest : Bytes)
        → ltb (length (front ++ (bs ++ rest))) (length front + length bs) ≡ false
    enough front rest =
        le→ltb-false _ _ (omega (arith, length-append front (bs ++ rest), length-append bs rest))

-- A word of `k` bytes, and what a method makes of it.
Reads-word {κ} :
    {A : Type κ} (f : ℕ → A) (k v : ℕ)
    → v < 256 ^ k
    → Reads (read_bytes k >>= λ b. pure (f (little_endian b))) (word_bytes k v) (f v)
Reads-word f k v h =
    subst (λ n. Reads (read_bytes n >>= λ b. pure (f (little_endian b))) (word_bytes k v) (f v))
      (length-word_bytes k v)
      (subst
        (λ w.
          Reads (read_bytes (length (word_bytes k v)) >>= λ b. pure (f (little_endian b)))
            (word_bytes k v) (f w))
        (little_endian-word_bytes k v h)
        (Reads-map (λ b. f (little_endian b)) (Reads-read_bytes (word_bytes k v))))

Reads-signed :
    (half k : ℕ) (z : ℤ)
    → 2 * half ≤ 256 ^ k
    → Fits half z
    → Reads
        (read_bytes k >>= λ b. pure (signed half (little_endian b)))
        (word_bytes k (unsigned half z))
        z
Reads-signed half k z h g =
    subst
      (Reads (read_bytes k >>= λ b. pure (signed half (little_endian b)))
        (word_bytes k (unsigned half z)))
      (signed-unsigned half z g)
      (Reads-word (signed half) k (unsigned half z) (omega (arith, unsigned-lt half z g)))

pub Reads-byte : (v : ℕ) → v < 256 → Reads read_byte_raw (word_bytes 1 v) v
unfolding read_byte_raw
Reads-byte v h = Reads-word (λ n. n) 1 v h

pub Reads-sbyte : (z : ℤ) → Fits (2 ^ 7) z → Reads read_sbyte (word_bytes 1 (unsigned (2 ^ 7) z)) z
unfolding read_sbyte
Reads-sbyte z h = Reads-signed (2 ^ 7) 1 z (omega arith) h

pub Reads-int16 :
    (z : ℤ) → Fits (2 ^ 15) z → Reads read_int16 (word_bytes 2 (unsigned (2 ^ 15) z)) z
unfolding read_int16
Reads-int16 z h = Reads-signed (2 ^ 15) 2 z (omega arith) h

pub Reads-uint16 : (v : ℕ) → v < 2 ^ 16 → Reads read_uint16 (word_bytes 2 v) v
unfolding read_uint16
Reads-uint16 v h = Reads-word (λ n. n) 2 v h

pub Reads-int32 :
    (z : ℤ) → Fits (2 ^ 31) z → Reads read_int32 (word_bytes 4 (unsigned (2 ^ 31) z)) z
unfolding read_int32
Reads-int32 z h = Reads-signed (2 ^ 31) 4 z (omega arith) h

pub Reads-uint32 : (v : ℕ) → v < 2 ^ 32 → Reads read_uint32 (word_bytes 4 v) v
unfolding read_uint32
Reads-uint32 v h = Reads-word (λ n. n) 4 v h

pub Reads-int64 :
    (z : ℤ) → Fits (2 ^ 63) z → Reads read_int64 (word_bytes 8 (unsigned (2 ^ 63) z)) z
unfolding read_int64
Reads-int64 z h = Reads-signed (2 ^ 63) 8 z (omega arith) h

pub Reads-uint64 : (v : ℕ) → v < 2 ^ 64 → Reads read_uint64 (word_bytes 8 v) v
unfolding read_uint64
Reads-uint64 v h = Reads-word (λ n. n) 8 v h

pub Reads-single : (v : ℕ) → v < 2 ^ 32 → Reads read_single (word_bytes 4 v) v
unfolding read_single
Reads-single v h = Reads-word (λ n. n) 4 v h

pub Reads-double : (v : ℕ) → v < 2 ^ 64 → Reads read_double (word_bytes 8 v) v
unfolding read_double
Reads-double v h = Reads-word (λ n. n) 8 v h

pub Reads-char : (v : ℕ) → v < 2 ^ 16 → Reads read_char (word_bytes 2 v) (decode_utf16 (v ∷ []))
unfolding read_char
Reads-char v h = Reads-map (λ u. decode_utf16 (u ∷ [])) (Reads-uint16 v h)

-- A string as it is written: one byte or one UTF-16 unit to a character.
pub data WireString : Type 0 where
  narrow wide : List ℕ → WireString

abbrev pub text_of : WireString → Text
text_of (narrow s) = s
text_of (wide u) = decode_utf16 u

unfoldable pub write_string : WireString → Bytes
write_string (narrow s) =
    word_bytes 1 0 ++ (int32_bytes (pos (length s)) ++ write_all (word_bytes 1) s)
write_string (wide u) =
    word_bytes 1 1 ++ (int32_bytes (pos (length u)) ++ write_all (word_bytes 2) u)

abbrev pub IsString : WireString → Type 0
IsString (narrow s) = (length s ≤ 5_000_000) × All (λ c. c < 256) s
IsString (wide u) = (length u ≤ 5_000_000) × All (λ c. c < 2 ^ 16) u

numbered_id : (i : ℕ) (s : List ℕ) → numbered (λ _ c. c) i s ≡ s
numbered_id i [] = refl
numbered_id i (c ∷ s) = ap (λ t. c ∷ t) (numbered_id (i + 1) s)

pub Reads-items :
    (p : Read ℕ) (write : ℕ → Bytes) (P : ℕ → Type 0) (s : List ℕ)
    → ((c : ℕ) → P c → Reads p (write c) c)
    → All P s
    → Reads (repeat (λ _. p) (length s) 0) (write_all write s) s
Reads-items p write P s h g =
    subst (Reads (repeat (λ _. p) (length s) 0) (write_all write s)) (numbered_id 0 s)
      (Reads-repeat write (λ _ c. c) (λ _. p) s 0 (All-map P _ (λ c k _. h c k) s g))

Reads-checked_count : (n : ℕ) → n ≤ 5_000_000 → Reads (checked_count (pos n)) [] n
unfolding checked_count pure
Reads-checked_count n h = record {
  reads = λ front rest.
      ap
        (λ b. if b then err (bad_string_len (pos n) (length front)) else ok (n, between front rest))
        (le→ltb-false 5_000_000 n h)
      ∙ same front rest;
}
  where
    same :
        (front rest : Bytes)
        → ◌≡◌ {A = Result Panic (ℕ × Cursor)}
            (ok (n, between front rest))
            (ok (n, between (front ++ []) rest))
    same front rest = (Reads-pure {E = Panic} {a = n}).reads front rest

-- A string of either width is read back.
pub Reads-string : (s : WireString) → IsString s → Reads read_string (write_string s) (text_of s)
unfolding read_string write_string
Reads-string (narrow s) h = Reads-bind _ (Reads-byte 0 (omega arith)) (
    Reads-bind _ (Reads-int32 (pos (length s)) (omega (arith, h.0))) (
      Reads-bind _ (Reads-checked_count (length s) h.0) (
        unfold read_chars in
        Reads-items read_byte_raw (word_bytes 1) (λ c. c < 256) s Reads-byte h.1)))
Reads-string (wide u) h = Reads-bind _ (Reads-byte 1 (omega arith)) (
    Reads-bind _ (Reads-int32 (pos (length u)) (omega (arith, h.0))) (
      Reads-bind _ (Reads-checked_count (length u) h.0) (
        unfold read_chars in
        Reads-map decode_utf16
          (Reads-items read_uint16 (word_bytes 2) (λ c. c < 2 ^ 16) u Reads-uint16 h.1))))
