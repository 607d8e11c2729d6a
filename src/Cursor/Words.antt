-- ===== src/Cursor/Words.antt =====
-- Little-endian words: binary.LittleEndian of Go's standard library, and the bytes of a word.
use native.Mathlib.Nat.{pow-suc}
use morgue.Common.{
  ℕ, zero, suc, ◌+◌, ◌*◌, ◌/◌, ◌%◌, ◌^◌, ◌<◌, ◌≡◌, refl, [], ◌∷◌, Bytes, length, arith, All, ℤ,
  unsigned,
}

-- Uint16, Uint32 and Uint64 of a slice of 2, 4 and 8 bytes.
unfoldable pub little_endian : Bytes → ℕ
little_endian [] = 0
little_endian (b ∷ bs) = b + 256 * little_endian bs

unfoldable pub word_bytes : ℕ → ℕ → Bytes
word_bytes zero v = []
word_bytes (suc k) v = (v % 256) ∷ word_bytes k (v / 256)

pub length-word_bytes : (k v : ℕ) → length (word_bytes k v) ≡ k
unfolding word_bytes
length-word_bytes zero v = refl
length-word_bytes (suc k) v = omega (arith, length-word_bytes k (v / 256))

pub little_endian-word_bytes : (k v : ℕ) → v < 256 ^ k → little_endian (word_bytes k v) ≡ v
unfolding little_endian word_bytes
little_endian-word_bytes zero v h = omega arith
little_endian-word_bytes (suc k) v h =
    omega (arith, little_endian-word_bytes k (v / 256) (omega arith))

abbrev pub IsByte : ℕ → Type 0
IsByte b = b < 256

pub little_endian-lt : (bs : Bytes) → All IsByte bs → little_endian bs < 256 ^ length bs
unfolding little_endian
little_endian-lt [] h = omega arith
little_endian-lt (b ∷ bs) (hb, h) = omega (arith, little_endian-lt bs h, pow-suc 256 (length bs))

-- The four bytes of an int32.
abbrev pub int32_bytes : ℤ → Bytes
int32_bytes z = word_bytes 4 (unsigned (2 ^ 31) z)
