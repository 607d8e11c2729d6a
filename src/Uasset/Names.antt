-- ===== src/Uasset/Names.antt =====
-- readNameTable of internal/recipe/uasset.go, whatever bytes it is given.
use morgue.Common.{
  ℕ, zero, suc, ◌+◌, ◌-◌, ◌≤◌, ◌<◌, ◌≡◌, List, [], ◌∷◌, Bool, true, false, branches, ◌||◌, Option,
  none, some, Bytes, All, length, length-take, take, drop, ltb, ltb-false→le, ◌==◌, ℤ, pos, negsuc,
  arith,
}
use morgue.Uasset.{
  Text, int32_at, strip_nul, is_printable, is_empty, plausible_body, with_length,
  plausible_of_length, plausible_fstring_at, peek_fstring_len, no_length, NameEntry, no_entry,
  last_entry, entry, by_next, behind_name, entry_of, read_entry, add_name, names_of, read_names,
  read_name_table,
}

-- A printable ASCII string of 1 to 1024 characters.
pub record IsFName (s : Text) : Type 0 where
  pub not_empty : 1 ≤ length s
  pub short : length s ≤ 1024
  pub printable : All (λ c. (32 ≤ c) × (c < 127)) s

length-strip_nul : (bs : Bytes) → length (strip_nul bs) ≤ length bs
unfolding strip_nul
length-strip_nul [] = omega arith
length-strip_nul (b ∷ []) = ground arith
length-strip_nul (b ∷ (c ∷ bs)) = omega (arith, length-strip_nul (c ∷ bs))

is_printable-All : (s : Text) → is_printable s ≡ true → All (λ c. (32 ≤ c) × (c < 127)) s
unfolding is_printable
is_printable-All [] h = tt
is_printable-All (c ∷ s) h = ground (arith, is_printable-All s)

is_empty-length : (s : Text) → is_empty s ≡ false → 1 ≤ length s
unfolding is_empty
is_empty-length [] h = cc
is_empty-length (c ∷ s) h = omega arith

-- A string that is found at `at`, with the bytes that it takes.
pub data Found (buf : Bytes) (at : ℕ) : Option (Text × ℕ) → Type 0 where
  missing : Found buf at none
  found :
      {s : Text} {consumed : ℕ}
      → IsFName s
      → length s + 4 ≤ consumed
      → at + consumed ≤ length buf
      → Found buf at (some (s, consumed))

data Body (n : ℕ) : Option Text → Type 0 where
  rejected : Body n none
  accepted : {s : Text} → IsFName s → length s ≤ n → Body n (some s)

plausible_body-Body :
    (body : Bytes) (n : ℕ) → length body ≤ n → n ≤ 1024 → Body n (plausible_body body)
unfolding plausible_body
plausible_body-Body body n room cap =
    branches (Body n) (is_empty (strip_nul body)) (λ _. rejected)
      λ full.
        branches (Body n) (is_printable (strip_nul body))
          (λ e.
            accepted
              (record {
                not_empty = is_empty-length (strip_nul body) full;
                short = omega (arith, length-strip_nul body, room, cap);
                printable = is_printable-All (strip_nul body) e;
              })
              (omega (arith, length-strip_nul body, room)))
          (λ _. rejected)

with_length-Found :
    (buf : Bytes) (at n : ℕ) {o : Option Text}
    → at + 4 + n ≤ length buf
    → Body n o
    → Found buf at (with_length n o)
unfolding with_length
with_length-Found buf at n fits rejected = missing
with_length-Found buf at n fits (accepted v less) =
    found v (omega (arith, less)) (omega (arith, fits))

plausible_of_length-Found :
    (buf : Bytes) (at : ℕ) (z : ℤ) → Found buf at (plausible_of_length buf at z)
unfolding plausible_of_length
plausible_of_length-Found buf at (negsuc n) = missing
plausible_of_length-Found buf at (pos n) =
    branches (Found buf at) (n == 0 || (ltb 1024 n || ltb (length buf) (at + 4 + n))) (λ _. missing)
      λ e. with_length-Found buf at n (ground (arith, e)) (
        plausible_body-Body (take n (drop (at + 4) buf)) n
          (omega (arith, length-take n (drop (at + 4) buf))) (ground (arith, e)))

pub plausible_fstring_at-Found : (buf : Bytes) (at : ℕ) → Found buf at (plausible_fstring_at buf at)
unfolding plausible_fstring_at
plausible_fstring_at-Found buf at =
    branches (Found buf at) (ltb (length buf) (at + 4)) (λ _. missing)
      (λ _. plausible_of_length-Found buf at (int32_at buf at))

-- A round at `at` ends the loop, or has a name and goes on inside the buffer, behind the name.
data Round (buf : Bytes) (at : ℕ) : NameEntry → Type 0 where
  ended : Round buf at no_entry
  ended_behind :
      {s : Text} → IsFName s → at + 4 + length s ≤ length buf → Round buf at (last_entry s)
  went_on :
      {s : Text} {next : ℕ} {hash : Bool}
      → IsFName s
      → at + 4 + length s ≤ next
      → next ≤ length buf
      → Round buf at (entry s next hash)

-- What stands at `at`, if four bytes do.
pub data Peeked (buf : Bytes) (at : ℕ) : Option ℤ → Type 0 where
  past : Peeked buf at none
  here : {z : ℤ} → at + 4 ≤ length buf → Peeked buf at (some z)

pub peek_fstring_len-Peeked : (buf : Bytes) (at : ℕ) → Peeked buf at (peek_fstring_len buf at)
unfolding peek_fstring_len
peek_fstring_len-Peeked buf at =
    branches (Peeked buf at) (ltb (length buf) (at + 4)) (λ _. past)
      (λ e. here (ltb-false→le _ _ e))

behind_name-Round :
    (buf : Bytes) (at : ℕ) (s : Text) (behind : ℕ)
    → IsFName s
    → at + 4 + length s ≤ behind
    → behind ≤ length buf
    → Round buf at (behind_name buf s behind)
unfolding behind_name by_next
behind_name-Round buf at s behind v less fits = go (peek_fstring_len-Peeked buf behind)
  where
    go : {o : Option ℤ} → Peeked buf behind o → Round buf at (by_next buf s behind o)
    go past = ended_behind v (omega (arith, less, fits))
    go (here {z} room) =
        branches (Round buf at) (no_length z (length buf - behind - 4))
          (λ _. went_on v (omega (arith, less)) room) (λ _. went_on v less fits)

read_entry-Round : (buf : Bytes) (at : ℕ) → Round buf at (read_entry buf at)
unfolding read_entry entry_of
read_entry-Round buf at = go (plausible_fstring_at-Found buf at)
  where
    go : {o : Option (Text × ℕ)} → Found buf at o → Round buf at (entry_of buf at o)
    go missing = ended
    go (found {s} {consumed} v less fits) =
        branches (Round buf at) (ltb (length buf) (at + consumed))
          (λ _. ended_behind v (omega (arith, less, fits)))
          (λ _. behind_name-Round buf at s (at + consumed) v (omega (arith, less)) fits)

abbrev pub total_length : List Text → ℕ
total_length [] = 0
total_length (s ∷ ss) = 4 + length s + total_length ss

-- The names of a table that starts at `at`.
pub record IsTable (buf : Bytes) (at count : ℕ) (names : List Text) : Type 0 where
  pub named : All IsFName names
  pub counted : length names ≤ count
  pub inside : at + total_length names ≤ length buf

read_names-IsTable :
    (buf : Bytes) (count at : ℕ)
    → at ≤ length buf
    → IsTable buf at count (read_names buf count at).0
unfolding read_names names_of add_name
read_names-IsTable buf zero at fits = record {
  named = tt;
  counted = omega arith;
  inside = omega arith;
}
read_names-IsTable buf (suc count) at fits =
    go (λ next h. read_names-IsTable buf count next h) (read_entry-Round buf at)
  where
    go :
        ((next : ℕ) → next ≤ length buf → IsTable buf next count (read_names buf count next).0)
        → {r : NameEntry} → Round buf at r
        → IsTable buf at (suc count) (names_of (read_names buf count) r).0
    go ih ended = record { named = tt; counted = omega arith; inside = omega arith }
    go ih (ended_behind v less) = record {
      named = (v, tt);
      counted = omega arith;
      inside = omega (arith, less);
    }
    go ih (went_on {next = next} v less room) = record {
      named = (v, (ih next room).named);
      counted = omega (arith, (ih next room).counted);
      inside = omega (arith, less, (ih next room).inside);
    }

-- Whatever buffer, offset and count it is given, `readNameTable` returns at most `count` names, each
-- of 1 to 1024 printable ASCII characters; and if it returns any, these and their length fields fit
-- into the buffer behind the offset.
pub read_name_table-IsTable :
    (buf : Bytes) (offset count : ℕ)
    → All IsFName (read_name_table buf offset count).0
      × (length (read_name_table buf offset count).0 ≤ count)
      × (total_length (read_name_table buf offset count).0 ≤ length buf - offset)
unfolding read_name_table
read_name_table-IsTable buf offset count =
    branches
      (λ (x : List Text × Bool).
        All IsFName x.0 × (length x.0 ≤ count) × (total_length x.0 ≤ length buf - offset))
      (ltb (length buf) offset) (λ _. (tt, omega arith, omega arith))
      (λ e.
        let table = read_names-IsTable buf count offset (ltb-false→le _ _ e) in
        (table.named, table.counted, omega (arith, table.inside)))
