-- ===== src/Odin/Scalars.antt =====
-- The values of tokens in internal/odin/tree.go: scalarValue, refValue and primArrayToValue. The
-- formatting of floats by strconv and fmt is a parameter.
use morgue.Common.{
  ℕ, zero, suc, ◌+◌, ◌*◌, ◌-◌, ◌/◌, ◌^◌, List, [], ◌∷◌, Bool, true, false, ◌&&◌, ◌||◌, Option, none,
  some, Bytes, length, take, drop, ltb, leb, ◌==◌, if◌then◌else◌, ℤ, pos, negsuc, signed, codes,
  itoa, itoa_ℤ,
}
use morgue.Cursor.Words.{little_endian}
use morgue.Odin.Reader.{Text}
use morgue.Odin.Decoder.{
  Kind, int, uint, float, sbyte, byte, short, ushort, Value, nil, int8, int16, int32, int64, uint8,
  uint16, uint32, uint64, float32, float64, text, boolean, Tok, hex,
}
use morgue.Odin.Json.{Json, leaf, object, array, no_fields, field, items_of}

-- Floats as their bits: clean32, and what "%v" prints of either width.
pub record Floats : Type 0 where
  pub clean32 : ℕ → ℕ
  pub sprint32 : ℕ → Text
  pub sprint64 : ℕ → Text

unfoldable pub has_prefix : Text → Text → Bool
has_prefix [] s = true
has_prefix (c ∷ p) [] = false
has_prefix (c ∷ p) (d ∷ s) = (c == d) && has_prefix p s

-- strings.Contains
unfoldable pub contains : Text → Text → Bool
unfolding has_prefix
contains [] sub = has_prefix sub []
contains (c ∷ s) sub = has_prefix sub (c ∷ s) || contains s sub

-- A run of decimal digits, behind those that make `n`; it ends at the first number that does not fit
-- into 64 bits.
unfoldable pub digits : ℕ → Text → Option ℕ
digits n [] = some n
digits n (c ∷ s) =
    let m = n * 10 + (c - b'0') in
    let rest = digits m s in
    if leb b'0' c && leb c b'9' then (if ltb m (2 ^ 64) then rest else some (2 ^ 64)) else none

-- The value of strconv.Atoi without its error: 0 for a syntax error, the nearest bound out of range.
unfoldable pub atoi : Text → ℤ
unfolding digits
atoi [] = pos 0
atoi (c ∷ s) =
    if c == b'-'
    then elim s [
      | [] ↦ pos 0
      | d ∷ t ↦ elim (digits 0 (d ∷ t)) [
        | none ↦ pos 0
        | some zero ↦ pos 0
        | some (suc n) ↦ if ltb n (2 ^ 63) then negsuc n else negsuc (2 ^ 63 - 1)
      ]
    ]
    else (let number = if c == b'+' then s else c ∷ s in
        elim number [
          | [] ↦ pos 0
          | d ∷ t ↦ elim (digits 0 (d ∷ t)) [
            | none ↦ pos 0
            | some n ↦ if ltb n (2 ^ 63) then pos n else pos (2 ^ 63 - 1)
          ]
        ])

module _ (floats : Floats) where
  unfoldable pub scalar_value : Tok → Json
  scalar_value t = leaf (normal t.kind t.value)
    where
      normal : Kind → Value → Value
      normal int (int32 v) = int64 v
      normal uint (uint32 v) = uint64 v
      normal short (int16 v) = int64 v
      normal ushort (uint16 v) = int64 (pos v)
      normal sbyte (int8 v) = int64 v
      normal byte (uint8 v) = int64 (pos v)
      normal float (float32 v) = float64 (floats.clean32 v)
      normal _ v = v

  -- fmt's "%v" of a value.
  unfoldable pub sprint : Value → Text
  unfolding itoa_ℤ itoa
  sprint nil = codes "<nil>"
  sprint (int8 v) = itoa_ℤ v
  sprint (int16 v) = itoa_ℤ v
  sprint (int32 v) = itoa_ℤ v
  sprint (int64 v) = itoa_ℤ v
  sprint (uint8 v) = itoa v
  sprint (uint16 v) = itoa v
  sprint (uint32 v) = itoa v
  sprint (uint64 v) = itoa v
  sprint (float32 v) = floats.sprint32 v
  sprint (float64 v) = floats.sprint64 v
  sprint (text v) = v
  sprint (boolean true) = codes "true"
  sprint (boolean false) = codes "false"

  -- The switch of refValue over the type of the value.
  unfoldable pub ref_id : Value → Text
  unfolding sprint
  ref_id nil = []
  ref_id v = sprint v

  unfoldable pub ref_value : Bool → Tok → Json
  unfolding ref_id
  ref_value internal t =
      let id = ref_id t.value in
      object (field (codes "$ref") (leaf (text (if internal then b'#' ∷ id else id))) no_fields)

  -- One element of a primitive array of `bytes_per` bytes each, at the offset `off`.
  unfoldable pub element : Bytes → ℕ → Text → ℕ → Json
  unfolding contains little_endian signed
  element raw_arr bytes_per ptype off =
      let word = little_endian (take bytes_per (drop off raw_arr)) in
      if contains ptype (codes "Single") && bytes_per == 4
      then leaf (float64 (floats.clean32 word))
      else if contains ptype (codes "Double") && bytes_per == 8
      then leaf (float64 word)
      else if contains ptype (codes "Int64") && bytes_per == 8
      then leaf (int64 (signed (2 ^ 63) word))
      else if bytes_per == 4
      then leaf (int64 (signed (2 ^ 31) word))
      else if bytes_per == 8
      then leaf (int64 (signed (2 ^ 63) word))
      else if bytes_per == 2
      then leaf (int64 (signed (2 ^ 15) word))
      else leaf (int64 (pos (little_endian (take 1 (drop off raw_arr)))))

  -- The elements from index `k` on.
  unfoldable pub elements : Bytes → ℕ → Text → ℕ → ℕ → List Json
  unfolding element
  elements raw_arr bytes_per ptype zero k = []
  elements raw_arr bytes_per ptype (suc count) k =
      element raw_arr bytes_per ptype (k * bytes_per)
      ∷ elements raw_arr bytes_per ptype count (k + 1)

  unfoldable pub prim_array_to_value : Bytes → ℤ → Text → Json
  unfolding elements hex items_of
  prim_array_to_value raw_arr (negsuc n) ptype = leaf (text (hex raw_arr))
  prim_array_to_value raw_arr (pos bytes_per) ptype =
      if leb bytes_per 1
      then leaf (text (hex raw_arr))
      else array (items_of (elements raw_arr bytes_per ptype (length raw_arr / bytes_per) 0))
