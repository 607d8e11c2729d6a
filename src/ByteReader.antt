-- ===== src/ByteReader.antt =====
-- The bounds-checked reader of internal/recipe/uasset.go and internal/recipe/usmap.go. Its struct
-- byteReader is the record `Cursor`. Lengths are natural numbers here, so the test `n < 0` of `need`
-- and `off < 0` of `seek`, which the callers exclude, have no counterpart.
pub mod Laws
use morgue.Common.{
  ℕ, ◌+◌, ◌-◌, ◌^◌, String, Bytes, Result, ok, err, length, take, drop, ltb, if◌then◌else◌, ℤ,
  signed, Option, some, none,
}
use morgue.Cursor.{Cursor, Run, pure, fail, ◌>>=◌, ◌>>◌, fetch, advance}
use morgue.Cursor.Words.{little_endian}

-- A Go error: a failed check of the reader, a message with the numbers that it prints, or a message
-- around the error of a call, with the loop's index where it prints one.
pub data Error : Type 0 where
  past_end : ℕ → ℕ → ℕ → Error
  seek_range : ℕ → ℕ → Error
  message : String → Error
  message_ℕ : String → ℕ → Error
  message_ℤ : String → ℤ → Error
  wrap : String → Error → Error
  wrap_at : String → ℕ → Error → Error

abbrev pub Read {κ} : Type κ → Type κ
Read A = Run Error A

unfoldable pub remaining : Cursor → ℕ
remaining r = length r.bytes - r.pos

unfoldable pub need : ℕ → Read (Unit {0})
need n r =
    if ltb (length r.bytes) (r.pos + n) then err (past_end r.pos n (length r.bytes)) else ok (tt, r)

unfoldable pub seek : ℕ → Read (Unit {0})
seek off r =
    if ltb (length r.bytes) off
    then err (seek_range off (length r.bytes))
    else ok (tt, record r { pos = off })

-- `r.pos += n`
unfoldable pub move : ℕ → Read (Unit {0})
move n r = ok (tt, advance n r)

unfoldable pub skip : ℕ → Read (Unit {0})
skip n = need n >> move n

-- `need(n)`, then the `n` bytes at the position, and `pos += n`.
unfoldable pub take_bytes : ℕ → Read Bytes
take_bytes n = need n >> fetch n

unfoldable pub uint8 : Read ℕ
uint8 = do b ← take_bytes 1; pure (little_endian b)

unfoldable pub uint16 : Read ℕ
uint16 = do b ← take_bytes 2; pure (little_endian b)

unfoldable pub uint32 : Read ℕ
uint32 = do b ← take_bytes 4; pure (little_endian b)

unfoldable pub uint64 : Read ℕ
uint64 = do b ← take_bytes 8; pure (little_endian b)

unfoldable pub int32 : Read ℤ
int32 = do b ← take_bytes 4; pure (signed (2 ^ 31) (little_endian b))

-- The next int32, with the position left alone.
unfoldable pub peek_int32 : Cursor → Option ℤ
unfolding remaining little_endian signed
peek_int32 r =
    if ltb (remaining r) 4
    then none
    else some (signed (2 ^ 31) (little_endian (take 4 (drop r.pos r.bytes))))
