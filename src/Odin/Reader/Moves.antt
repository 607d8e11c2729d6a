-- ===== src/Odin/Reader/Moves.antt =====
-- The methods of `reader` (internal/odin/reader.go) on any input: how far each of them moves.
use morgue.Common.{
  ℕ, ◌+◌, ◌*◌, ◌^◌, ◌≤◌, ◌≡◌, false, Bytes, length, ltb, ltb-false→le, ◌==◌, ℤ, pos, negsuc, signed,
  arith,
}
use morgue.Cursor.{Cursor, pure, ◌>>=◌, fetch, repeat}
use morgue.Cursor.Words.{little_endian}
use morgue.Cursor.Ensures.{
  Ensures, Outcome, Outcome-if, Outcome-same, Outcome-mono, stopped, Ensures-pure, Ensures-if,
  Ensures-mono, Ensures-bind, Ensures-fetch, Ensures-repeat,
}
use morgue.Odin.Reader.{
  Panic, Read, read_bytes, read_byte_raw, read_sbyte, read_int16, read_uint16, read_int32,
  read_uint32, read_int64, read_uint64, read_single, read_double, read_char, read_chars,
  checked_count, read_string,
}

-- A computation that stays in the buffer.
abbrev pub Anything {κ} : {A : Type κ} → A → ℕ → Type 0
Anything _ _ = Unit {0}

pub Ensures-read_bytes : (n : ℕ) → Ensures (λ _ m. m ≡ n) (read_bytes n)
unfolding read_bytes
Ensures-read_bytes n = record {
  ensures = λ r i.
      Outcome-if _ (ltb (length r.bytes) (r.pos + n)) (λ _. stopped _) (λ fits. fetched r fits);
}
  where
    fetched :
        (r : Cursor)
        → ltb (length r.bytes) (r.pos + n) ≡ false
        → Outcome {E = Panic} (λ _ m. m ≡ n) r (fetch n r)
    fetched r fits = Outcome-mono _ (λ _ m h. h.1) (Ensures-fetch n r (ltb-false→le _ _ fits))

Ensures-word {κ} :
    {A : Type κ} (k : ℕ) (f : Bytes → A) → Ensures (λ _ m. m ≡ k) (read_bytes k >>= λ b. pure (f b))
Ensures-word k f =
    Ensures-bind _ _ _ (Ensures-read_bytes k) λ bs m h. Ensures-pure _ (omega (arith, h))

pub Ensures-byte : Ensures (λ _ m. m ≡ 1) read_byte_raw
unfolding read_byte_raw
Ensures-byte = Ensures-word 1 little_endian

pub Ensures-sbyte : Ensures (λ _ m. m ≡ 1) read_sbyte
unfolding read_sbyte
Ensures-sbyte = Ensures-word 1 (λ b. signed (2 ^ 7) (little_endian b))

pub Ensures-int16 : Ensures (λ _ m. m ≡ 2) read_int16
unfolding read_int16
Ensures-int16 = Ensures-word 2 (λ b. signed (2 ^ 15) (little_endian b))

pub Ensures-uint16 : Ensures (λ _ m. m ≡ 2) read_uint16
unfolding read_uint16
Ensures-uint16 = Ensures-word 2 little_endian

pub Ensures-int32 : Ensures (λ _ m. m ≡ 4) read_int32
unfolding read_int32
Ensures-int32 = Ensures-word 4 (λ b. signed (2 ^ 31) (little_endian b))

pub Ensures-uint32 : Ensures (λ _ m. m ≡ 4) read_uint32
unfolding read_uint32
Ensures-uint32 = Ensures-word 4 little_endian

pub Ensures-int64 : Ensures (λ _ m. m ≡ 8) read_int64
unfolding read_int64
Ensures-int64 = Ensures-word 8 (λ b. signed (2 ^ 63) (little_endian b))

pub Ensures-uint64 : Ensures (λ _ m. m ≡ 8) read_uint64
unfolding read_uint64
Ensures-uint64 = Ensures-word 8 little_endian

pub Ensures-single : Ensures (λ _ m. m ≡ 4) read_single
unfolding read_single
Ensures-single = Ensures-word 4 little_endian

pub Ensures-double : Ensures (λ _ m. m ≡ 8) read_double
unfolding read_double
Ensures-double = Ensures-word 8 little_endian

pub Ensures-char : Ensures (λ _ m. m ≡ 2) read_char
unfolding read_char
Ensures-char = Ensures-bind _ _ _ Ensures-uint16 λ v m h. Ensures-pure _ (omega (arith, h))

Ensures-checked_count : (len : ℤ) → Ensures Anything (checked_count len)
unfolding checked_count
Ensures-checked_count (negsuc n) = record { ensures = λ r i. stopped _ }
Ensures-checked_count (pos n) = record {
  ensures = λ r i. Outcome-if _ (ltb 5_000_000 n) (λ _. stopped _) (λ _. Outcome-same _ r tt i);
}

Ensures-loop :
    (p : Read ℕ) (n k : ℕ)
    → Ensures (λ _ m. m ≡ k) p
    → Ensures (λ _ m. n * k ≤ m) (repeat (λ _. p) n 0)
Ensures-loop p n k h =
    Ensures-mono _ (λ _ m g. g.2)
      (Ensures-repeat (λ _. Unit {0}) k (λ _. p)
        (λ _. Ensures-mono _ (λ _ m e. (tt, omega (arith, e))) h) n 0)

pub Ensures-string : Ensures (λ _ m. 5 ≤ m) read_string
unfolding read_string read_chars
Ensures-string = Ensures-bind _ _ _ Ensures-byte λ flag n h.
    Ensures-bind _ _ _ Ensures-int32 λ len m g.
      Ensures-bind Anything _ _ (Ensures-checked_count len) λ count k _.
        Ensures-if _ (flag == 1)
          (λ _.
            Ensures-bind _ _ _ (Ensures-loop read_uint16 count 2 Ensures-uint16)
              λ u l f. Ensures-pure _ (omega (arith, h, g)))
          (λ _.
            Ensures-mono _ (λ _ l f. omega (arith, h, g))
              (Ensures-loop read_byte_raw count 1 Ensures-byte))
