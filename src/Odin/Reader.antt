-- ===== src/Odin/Reader.antt =====
-- The cursor of internal/odin/reader.go: its struct `reader` is the record `Cursor`. A Go string is
-- the list of its code points.
pub mod Utf16
pub mod Written
pub mod Moves
pub mod Strings
use morgue.Common.{
  ℕ, ◌+◌, ◌*◌, ◌^◌, ◌-◌, String, List, [], ◌∷◌, ◌++◌, Bool, true, false, Bytes, Result, ok, err,
  length, take, drop, ltb, leb, ◌==◌, if◌then◌else◌, ℤ, pos, negsuc, signed, min, map, not,
}
use morgue.Cursor.{Cursor, Run, pure, fail, ◌>>=◌, ◌>>◌, fetch, repeat, advance}
use morgue.Cursor.Words.{little_endian}
use morgue.Odin.Reader.Utf16.{decode_utf16}

abbrev pub Text : Type 0
Text = List ℕ

-- What a panic carries: Go's own index error, the message of `readString`, or a decodeError.
pub data Panic : Type 0 where
  index_out_of_range : Panic
  bad_string_len : ℤ → ℕ → Panic
  decode_error : String → Panic

abbrev pub Read {κ} : Type κ → Type κ
Read A = Run Panic A

-- A value that the code reads off the cursor's state.
unfoldable pub state {κ} : {A : Type κ} → (Cursor → A) → Read A
state f r = ok (f r, r)

unfoldable pub end : Cursor → Bool
end r = leb (length r.bytes) r.pos

unfoldable pub remaining : Cursor → ℕ
remaining r = length r.bytes - r.pos

-- The next `n` bytes, which Go's slices refuse to give where they are not there.
unfoldable pub read_bytes : ℕ → Read Bytes
unfolding fetch
read_bytes n r = if ltb (length r.bytes) (r.pos + n) then err index_out_of_range else fetch n r

unfoldable pub read_byte_raw : Read ℕ
unfolding little_endian
read_byte_raw = do b ← read_bytes 1; pure (little_endian b)

unfoldable pub read_sbyte : Read ℤ
unfolding little_endian signed
read_sbyte = do b ← read_bytes 1; pure (signed (2 ^ 7) (little_endian b))

unfoldable pub read_int16 : Read ℤ
unfolding little_endian signed
read_int16 = do b ← read_bytes 2; pure (signed (2 ^ 15) (little_endian b))

unfoldable pub read_uint16 : Read ℕ
unfolding little_endian
read_uint16 = do b ← read_bytes 2; pure (little_endian b)

unfoldable pub read_int32 : Read ℤ
unfolding little_endian signed
read_int32 = do b ← read_bytes 4; pure (signed (2 ^ 31) (little_endian b))

unfoldable pub read_uint32 : Read ℕ
unfolding little_endian
read_uint32 = do b ← read_bytes 4; pure (little_endian b)

unfoldable pub read_int64 : Read ℤ
unfolding little_endian signed
read_int64 = do b ← read_bytes 8; pure (signed (2 ^ 63) (little_endian b))

unfoldable pub read_uint64 : Read ℕ
unfolding little_endian
read_uint64 = do b ← read_bytes 8; pure (little_endian b)

-- A float is its bit pattern.
unfoldable pub read_single : Read ℕ
unfolding little_endian
read_single = do b ← read_bytes 4; pure (little_endian b)

unfoldable pub read_double : Read ℕ
unfolding little_endian
read_double = do b ← read_bytes 8; pure (little_endian b)

unfoldable pub read_char : Read Text
unfolding read_uint16 decode_utf16
read_char = do v ← read_uint16; pure (decode_utf16 (v ∷ []))

-- The text behind the flag and a count that passed the test.
unfoldable pub read_chars : ℕ → ℕ → Read Text
unfolding read_uint16 read_byte_raw decode_utf16
read_chars flag count =
    if flag == 1
    then (do u ← repeat (λ _. read_uint16) count 0; pure (decode_utf16 u))
    else repeat (λ _. read_byte_raw) count 0

-- `count < 0 || count > 5_000_000`
unfoldable pub checked_count : ℤ → Read ℕ
checked_count (negsuc n) r = err (bad_string_len (negsuc n) r.pos)
checked_count (pos n) r = if ltb 5_000_000 n then err (bad_string_len (pos n) r.pos) else ok (n, r)

unfoldable pub read_string : Read Text
unfolding read_byte_raw read_int32 checked_count read_chars
read_string = do
  flag ← read_byte_raw
  len ← read_int32
  count ← checked_count len
  read_chars flag count
