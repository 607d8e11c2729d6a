-- ===== src/Uasset.antt =====
-- The name table of an Unreal package: readNameTable, scanNameTableStart, isFNameRunStart,
-- plausibleFStringAt and peekFStringLen of internal/recipe/uasset.go. `Uasset.Package` is the parser
-- around it.
pub mod Package
pub mod Names
pub mod Scan
pub mod Written
pub mod RoundTrip
mod Tests
use morgue.Common.{
  ℕ, zero, suc, ◌+◌, ◌-◌, ◌*◌, ◌^◌, List, [], ◌∷◌, Bool, true, false, not, ◌&&◌, ◌||◌, Option, none,
  some, Bytes, length, take, drop, ltb, leb, ◌==◌, if◌then◌else◌, ℤ, pos, negsuc, signed,
}
use morgue.Cursor.{Cursor}
use morgue.Cursor.Words.{little_endian}

-- A string of the package, as its bytes.
abbrev pub Text : Type 0
Text = Bytes

abbrev pub uasset_max_names : ℕ
uasset_max_names = 5_000_000

-- The int32 at a position.
abbrev pub int32_at : Bytes → ℕ → ℤ
int32_at buf at = signed (2 ^ 31) (little_endian (take 4 (drop at buf)))

-- One NUL at the end is taken off.
unfoldable pub strip_nul : Bytes → Bytes
strip_nul [] = []
strip_nul (b ∷ []) = if b == 0 then [] else b ∷ []
strip_nul (b ∷ (c ∷ bs)) = b ∷ strip_nul (c ∷ bs)

-- The loop over the bytes of the body.
unfoldable pub is_printable : Bytes → Bool
is_printable [] = true
is_printable (c ∷ cs) = if ltb c 32 || leb 127 c then false else is_printable cs

unfoldable pub is_empty : Bytes → Bool
is_empty [] = true
is_empty (c ∷ cs) = false

-- The string of a body whose length has passed the tests.
unfoldable pub plausible_body : Bytes → Option Text
unfolding strip_nul is_printable is_empty
plausible_body body =
    let s = strip_nul body in if is_empty s then none else if is_printable s then some s else none

unfoldable pub with_length : ℕ → Option Text → Option (Text × ℕ)
with_length n none = none
with_length n (some s) = some (s, 4 + n)

-- The string at a position and the bytes that it takes, by its length.
unfoldable pub plausible_of_length : Bytes → ℕ → ℤ → Option (Text × ℕ)
unfolding plausible_body with_length
plausible_of_length buf at (negsuc n) = none
plausible_of_length buf at (pos n) =
    if n == 0 || (ltb 1024 n || ltb (length buf) (at + 4 + n))
    then none
    else with_length n (plausible_body (take n (drop (at + 4) buf)))

unfoldable pub plausible_fstring_at : Bytes → ℕ → Option (Text × ℕ)
unfolding plausible_of_length little_endian signed
plausible_fstring_at buf at =
    if ltb (length buf) (at + 4) then none else plausible_of_length buf at (int32_at buf at)

unfoldable pub peek_fstring_len : Bytes → ℕ → Option ℤ
unfolding little_endian signed
peek_fstring_len buf at = if ltb (length buf) (at + 4) then none else some (int32_at buf at)

-- `next <= 0 || int(next) > left`
unfoldable pub no_length : ℤ → ℕ → Bool
no_length (negsuc n) left = true
no_length (pos n) left = n == 0 || ltb left n

-- What a round of the loop of readNameTable does: it ends, ends behind a name, or goes on at a
-- position, behind hash bytes or not.
pub data NameEntry : Type 0 where
  no_entry : NameEntry
  last_entry : Text → NameEntry
  entry : Text → ℕ → Bool → NameEntry

-- A round behind the name `s`, at the position `at`, by what peekInt32 says: the hash bytes are skipped
-- where they are.
unfoldable pub by_next : Bytes → Text → ℕ → Option ℤ → NameEntry
unfolding no_length
by_next buf s at none = last_entry s
by_next buf s at (some next) =
    if no_length next (length buf - at - 4) then entry s (at + 4) true else entry s at false

unfoldable pub behind_name : Bytes → Text → ℕ → NameEntry
unfolding peek_fstring_len by_next
behind_name buf s at = by_next buf s at (peek_fstring_len buf at)

unfoldable pub entry_of : Bytes → ℕ → Option (Text × ℕ) → NameEntry
unfolding behind_name
entry_of buf at none = no_entry
entry_of buf at (some (s, consumed)) =
    if ltb (length buf) (at + consumed) then last_entry s else behind_name buf s (at + consumed)

unfoldable pub read_entry : Bytes → ℕ → NameEntry
unfolding entry_of plausible_fstring_at
read_entry buf at = entry_of buf at (plausible_fstring_at buf at)

unfoldable pub add_name : Text → Bool → List Text × Bool → List Text × Bool
add_name s hash (names, seen) = (s ∷ names, hash || seen)

unfoldable pub names_of : (ℕ → List Text × Bool) → NameEntry → List Text × Bool
unfolding add_name
names_of loop no_entry = ([], false)
names_of loop (last_entry s) = (s ∷ [], false)
names_of loop (entry s next hash) = add_name s hash (loop next)

-- The loop of readNameTable, of `count` rounds at most.
unfoldable pub read_names : Bytes → ℕ → ℕ → List Text × Bool
unfolding read_entry names_of
read_names buf zero at = ([], false)
read_names buf (suc count) at = names_of (read_names buf count) (read_entry buf at)

unfoldable pub read_name_table : Bytes → ℕ → ℕ → List Text × Bool
unfolding read_names
read_name_table buf offset count =
    if ltb (length buf) offset then ([], false) else read_names buf count offset

-- A round of isFNameRunStart: where the next entry would begin.
unfoldable pub run_entry : Bytes → ℕ → Option ℕ
unfolding plausible_fstring_at peek_fstring_len no_length
run_entry buf at = elim (plausible_fstring_at buf at) [
  | none ↦ none
  | some (s, consumed) ↦
      if ltb (length s) 2 then none else elim (peek_fstring_len buf (at + consumed)) [
        | none ↦ some (at + consumed + 4)
        | some next ↦
            if no_length next (length buf - (at + consumed) - 4)
            then some (at + consumed + 4)
            else some (at + consumed)
      ]
]

unfoldable pub is_fname_run_start : Bytes → ℕ → Bool
unfolding run_entry
is_fname_run_start buf off = elim (run_entry buf off) [
  | none ↦ false
  | some next ↦ elim (run_entry buf next) [ none ↦ false | some _ ↦ true ]
]

-- The loop of scanNameTableStart from `off` on; none is its -1.
unfoldable pub scan_from : ℕ → Bytes → ℕ → Option ℕ
unfolding is_fname_run_start
scan_from zero buf off = none
scan_from (suc fuel) buf off =
    let rest = scan_from fuel buf (off + 4) in
    if ltb (off + 8) (length buf)
    then (if is_fname_run_start buf off then some off else rest)
    else none

-- Each round moves on by four bytes, so one for each byte is enough.
unfoldable pub scan_name_table_start : Bytes → Option ℕ
unfolding scan_from
scan_name_table_start buf = scan_from (length buf) buf 0x14
