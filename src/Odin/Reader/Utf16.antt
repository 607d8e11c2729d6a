-- ===== src/Odin/Reader/Utf16.antt =====
-- utf16.Decode of Go's standard library, and the encoding that it undoes.
use morgue.Common.{
  ℕ, ◌+◌, ◌-◌, ◌*◌, ◌/◌, ◌%◌, ◌≤◌, ◌<◌, ◌≡◌, ◌⊎◌, refl, List, [], ◌∷◌, ◌++◌, Bool, ◌&&◌, All, ltb,
  leb, if◌then◌else◌, arith,
}

-- A surrogate of the first and of the second half of a pair.
abbrev pub is_high : ℕ → Bool
is_high u = leb 0xd800 u && ltb u 0xdc00

abbrev pub is_low : ℕ → Bool
is_low u = leb 0xdc00 u && ltb u 0xe000

-- A unit by itself; a surrogate is replaced.
unfoldable pub lone : ℕ → ℕ
lone u = if leb 0xd800 u && ltb u 0xe000 then 0xfffd else u

unfoldable pub decode_utf16 : List ℕ → List ℕ
unfolding lone
decode_utf16 [] = []
decode_utf16 (u ∷ []) = lone u ∷ []
decode_utf16 (u ∷ (v ∷ rest)) =
    let pair = ((u - 0xd800) * 0x400 + (v - 0xdc00) + 0x10000) ∷ decode_utf16 rest in
    let one = lone u ∷ decode_utf16 (v ∷ rest) in if is_high u && is_low v then pair else one

-- The units of a code point.
unfoldable pub units : ℕ → List ℕ
units c =
    if ltb c 0x10000
    then c ∷ []
    else ((c - 0x10000) / 0x400 + 0xd800) ∷ ((c - 0x10000) % 0x400 + 0xdc00) ∷ []

unfoldable pub encode_utf16 : List ℕ → List ℕ
unfolding units
encode_utf16 [] = []
encode_utf16 (c ∷ s) = units c ++ encode_utf16 s

-- A Unicode scalar value.
abbrev pub IsScalar : ℕ → Type 0
IsScalar c = (c < 0xd800) ⊎ ((0xe000 ≤ c) × (c < 0x110000))

decode_unit :
    (c : ℕ) (rest : List ℕ)
    → IsScalar c
    → c < 0x10000
    → decode_utf16 (c ∷ rest) ≡ c ∷ decode_utf16 rest
unfolding decode_utf16 lone
decode_unit c [] h g = ground arith
decode_unit c (v ∷ rest) h g = ground arith

decode_pair :
    (c : ℕ) (rest : List ℕ)
    → 0x10000 ≤ c
    → c < 0x110000
    → decode_utf16 (((c - 0x10000) / 0x400 + 0xd800) ∷ (((c - 0x10000) % 0x400 + 0xdc00) ∷ rest))
      ≡ c ∷ decode_utf16 rest
unfolding decode_utf16
decode_pair c rest h g = ground arith

decode-units :
    (c : ℕ) (rest : List ℕ) → IsScalar c → decode_utf16 (units c ++ rest) ≡ c ∷ decode_utf16 rest
unfolding units
decode-units c rest h = ground (arith, decode_unit c rest, decode_pair c rest)

-- Decoding gives back every list of Unicode scalar values that is encoded as UTF-16.
pub decode-encode : (s : List ℕ) → All IsScalar s → decode_utf16 (encode_utf16 s) ≡ s
unfolding encode_utf16
decode-encode [] h = unfold decode_utf16 in refl
decode-encode (c ∷ s) (hc, h) = rw (decode-units c (encode_utf16 s) hc, decode-encode s h)
