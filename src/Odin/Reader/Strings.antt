-- ===== src/Odin/Reader/Strings.antt =====
-- readString of internal/odin/reader.go on a text that is written as UTF-16.
use morgue.Common.{ℕ, ◌^◌, ◌≤◌, ◌<◌, List, [], ◌∷◌, All, All-append, length, subst, arith}
use morgue.Cursor.Reads.{Reads}
use morgue.Odin.Reader.{read_string}
use morgue.Odin.Reader.Utf16.{IsScalar, units, encode_utf16, decode-encode}
use morgue.Odin.Reader.Written.{wide, write_string, Reads-string}

units-lt : (c : ℕ) → IsScalar c → All (λ u. u < 2 ^ 16) (units c)
unfolding units
units-lt c h = ground arith

encode_utf16-lt : (s : List ℕ) → All IsScalar s → All (λ u. u < 2 ^ 16) (encode_utf16 s)
unfolding encode_utf16
encode_utf16-lt [] h = tt
encode_utf16-lt (c ∷ s) (hc, h) =
    All-append _ (units c) (encode_utf16 s) (units-lt c hc) (encode_utf16-lt s h)

-- A text of Unicode scalar values that is written as UTF-16 in at most 5,000,000 units is read back
-- whole, whatever stands before and behind it: characters outside the basic plane are put together
-- from their two units.
pub read_string-encode :
    (s : List ℕ)
    → All IsScalar s
    → length (encode_utf16 s) ≤ 5_000_000
    → Reads read_string (write_string (wide (encode_utf16 s))) s
read_string-encode s h fits =
    subst (Reads read_string (write_string (wide (encode_utf16 s)))) (decode-encode s h)
      (Reads-string (wide (encode_utf16 s)) (fits, encode_utf16-lt s h))
