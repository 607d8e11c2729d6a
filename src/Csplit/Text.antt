-- ===== src/Csplit/Text.antt =====
-- The functions of Go's strings and bufio packages that internal/recipe/csplit.go calls, on bytes.
use morgue.Common.{
  ℕ, zero, suc, ◌+◌, List, [], ◌∷◌, ◌++◌, Bool, true, false, ◌&&◌, ◌||◌, Option, none, some, Bytes,
  length, drop, leb, ◌==◌, if◌then◌else◌,
}

abbrev pub Text : Type 0
Text = Bytes

abbrev pub is_empty : Text → Bool
is_empty [] = true
is_empty (c ∷ s) = false

unfoldable pub reverse : Text → Text → Text
reverse acc [] = acc
reverse acc (c ∷ s) = reverse (c ∷ acc) s

-- The white space of Unicode, by the length of its encoding.
abbrev pub is_space : ℕ → Bool
is_space c = (leb 9 c && leb c 13) || c == b' '

abbrev pub is_space_2 : ℕ → ℕ → Bool
is_space_2 a b = a == 0xc2 && (b == 0x85 || b == 0xa0)

abbrev pub is_space_3 : ℕ → ℕ → ℕ → Bool
is_space_3 a b c =
    (a == 0xe1 && b == 0x9a && c == 0x80)
    || (a == 0xe2 && b == 0x80 && (leb 0x80 c && leb c 0x8a || c == 0xa8 || c == 0xa9 || c == 0xaf))
    || (a == 0xe2 && b == 0x81 && c == 0x9f)
    || (a == 0xe3 && b == 0x80 && c == 0x80)

-- The length of the white space character that begins a text, zero if there is none.
unfoldable pub space_first : Text → ℕ
space_first [] = 0
space_first (a ∷ []) = if is_space a then 1 else 0
space_first (a ∷ (b ∷ [])) = if is_space a then 1 else if is_space_2 a b then 2 else 0
space_first (a ∷ (b ∷ (c ∷ s))) =
    if is_space a then 1 else if is_space_2 a b then 2 else if is_space_3 a b c then 3 else 0

-- The same of the character that ends a text, which is given backwards.
unfoldable pub space_last : Text → ℕ
space_last [] = 0
space_last (a ∷ []) = if is_space a then 1 else 0
space_last (b ∷ (a ∷ [])) = if is_space b then 1 else if is_space_2 a b then 2 else 0
space_last (c ∷ (b ∷ (a ∷ s))) =
    if is_space c then 1 else if is_space_2 b c then 2 else if is_space_3 a b c then 3 else 0

-- A text without the characters that `first` measures at its front; the length of the text is
-- enough fuel, since each round drops a byte or stops.
unfoldable pub strip : (Text → ℕ) → ℕ → Text → Text
strip first zero s = s
strip first (suc f) s =
    let rest = strip first f (drop (first s) s) in if first s == 0 then s else rest

unfoldable pub trim_space : Text → Text
unfolding reverse space_first space_last strip
trim_space s =
    let left = strip space_first (length s) s in
    reverse [] (strip space_last (length left) (reverse [] left))

abbrev pub is_blank : Text → Bool
is_blank s = is_empty (trim_space s)

abbrev pub lower_byte : ℕ → ℕ
lower_byte c = if leb b'A' c && leb c b'Z' then c + 32 else c

-- strings.ToLower of an ASCII text.
unfoldable pub to_lower : Text → Text
to_lower [] = []
to_lower (c ∷ s) = lower_byte c ∷ to_lower s

-- strings.HasPrefix and the rest of the text, in one.
unfoldable pub cut_prefix : Text → Text → Option Text
cut_prefix [] s = some s
cut_prefix (d ∷ p) [] = none
cut_prefix (d ∷ p) (c ∷ s) = let rest = cut_prefix p s in if d == c then rest else none

abbrev pub is_some {ℓ} : {A : Type ℓ} → Option A → Bool
is_some none = false
is_some (some a) = true

unfoldable pub has_prefix : Text → Text → Bool
unfolding cut_prefix
has_prefix p s = is_some (cut_prefix p s)

-- strings.HasSuffix of a byte.
unfoldable pub ends_with : ℕ → Text → Bool
ends_with d [] = false
ends_with d (c ∷ []) = c == d
ends_with d (c ∷ (e ∷ s)) = ends_with d (e ∷ s)

-- The longest prefix of bytes that `p` accepts, and what follows it.
unfoldable pub span : (ℕ → Bool) → Text → Text × Text
span p [] = ([], [])
span p (c ∷ s) = let (front, rest) = span p s in if p c then (c ∷ front, rest) else ([], c ∷ s)

-- bufio.ScanLines: a line without its `\n`, and without a `\r` before that; `line` is what has been
-- read of a line.
unfoldable pub drop_cr : Text → Text
drop_cr [] = []
drop_cr (c ∷ []) = if c == b'\r' then [] else c ∷ []
drop_cr (c ∷ (d ∷ s)) = c ∷ drop_cr (d ∷ s)

unfoldable pub scan_lines : Text → Text → List Text
unfolding drop_cr
scan_lines line [] = if is_empty line then [] else drop_cr line ∷ []
scan_lines line (c ∷ s) =
    let next = drop_cr line ∷ scan_lines [] s in
    let more = scan_lines (line ++ c ∷ []) s in if c == b'\n' then next else more

-- strings.SplitSeq at a byte.
unfoldable pub split_at : ℕ → Text → Text → List Text
split_at d part [] = part ∷ []
split_at d part (c ∷ s) =
    let next = part ∷ split_at d [] s in
    let more = split_at d (part ++ c ∷ []) s in if c == d then next else more
