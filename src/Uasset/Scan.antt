-- ===== src/Uasset/Scan.antt =====
-- The scan for the start of the name table in internal/recipe/uasset.go.
use morgue.Common.{
  ℕ, zero, suc, ◌+◌, ◌*◌, ◌≤◌, ◌<◌, ◌≡◌, refl, subst, true, false, branches, Option, none, some,
  Bytes, length, ltb, ltb→lt, ltb-false→le, arith,
}
use morgue.Uasset.{is_fname_run_start, scan_from, scan_name_table_start}

-- `r` is the first of the offsets `off`, `off + 4`, … at which a run of names starts, of those with
-- more than 8 bytes behind them; or there is none.
pub data IsFirst (buf : Bytes) (off : ℕ) : Option ℕ → Type 0 where
  first_at :
      {r : ℕ} (k : ℕ)
      → r ≡ off + 4 * k
      → r + 8 < length buf
      → is_fname_run_start buf r ≡ true
      → ((j : ℕ) → j < k → is_fname_run_start buf (off + 4 * j) ≡ false)
      → IsFirst buf off (some r)
  nowhere :
      ((j : ℕ) → off + 4 * j + 8 < length buf → is_fname_run_start buf (off + 4 * j) ≡ false)
      → IsFirst buf off none

later :
    (buf : Bytes) (off j : ℕ)
    → is_fname_run_start buf off ≡ false
    → ((i : ℕ) → j ≡ suc i → is_fname_run_start buf (off + 4 + 4 * i) ≡ false)
    → is_fname_run_start buf (off + 4 * j) ≡ false
later buf off zero h g = subst (λ o. is_fname_run_start buf o ≡ false) (omega arith) h
later buf off (suc i) h g = subst (λ o. is_fname_run_start buf o ≡ false) (omega arith) (g i refl)

IsFirst-skip :
    (buf : Bytes) (off : ℕ) {o : Option ℕ}
    → is_fname_run_start buf off ≡ false
    → IsFirst buf (off + 4) o
    → IsFirst buf off o
IsFirst-skip buf off h (first_at k e room start before) =
    first_at (suc k) (omega (arith, e)) room start
      (λ j less. later buf off j h (λ i e'. before i (omega (arith, e', less))))
IsFirst-skip buf off h (nowhere none_there) =
    nowhere (λ j room. later buf off j h (λ i e. none_there i (omega (arith, e, room))))

scan_from-IsFirst :
    (fuel : ℕ) (buf : Bytes) (off : ℕ)
    → length buf ≤ off + fuel
    → IsFirst buf off (scan_from fuel buf off)
unfolding scan_from
scan_from-IsFirst zero buf off enough = nowhere (λ j room. ground (arith, enough, room))
scan_from-IsFirst (suc fuel) buf off enough =
    let rest = scan_from-IsFirst fuel buf (off + 4) (omega (arith, enough)) in
    branches (IsFirst buf off) (ltb (off + 8) (length buf))
      (λ e.
        branches (IsFirst buf off) (is_fname_run_start buf off)
          (λ start. first_at 0 (omega arith) (ltb→lt _ _ e) start (λ j less. ground (arith, less)))
          (λ no. IsFirst-skip buf off no rest))
      (λ e. nowhere (λ j room. ground (arith, ltb-false→le _ _ e, room)))

-- `scanNameTableStart` finds the first offset of the form 0x14 + 4k, with more than 8 bytes behind it,
-- at which a run of two names starts, and none only where there is no such offset: one round of its
-- loop for each byte is enough.
pub scan_name_table_start-IsFirst : (buf : Bytes) → IsFirst buf 0x14 (scan_name_table_start buf)
unfolding scan_name_table_start
scan_name_table_start-IsFirst buf = scan_from-IsFirst (length buf) buf 0x14 (omega arith)
