-- ===== src/Uasset/Package/Laws.antt =====
-- parseUAsset of internal/recipe/uasset.go, whatever the file holds.
use morgue.Common.{
  ℕ, zero, suc, ◌*◌, ◌≤◌, ◌≡◌, refl, subst, List, [], ◌∷◌, Bool, true, false, not, ◌||◌, branches,
  Option, none, some, Bytes, Result, ok, err, All, length, length-take, take, ltb, leb, ◌==◌,
  if◌then◌else◌, min, arith,
}
use morgue.Cursor.{Cursor}
use morgue.ByteReader.{Error}
use morgue.Uasset.{Text, uasset_max_names, read_name_table, scan_name_table_start}
use morgue.Uasset.Names.{IsFName, total_length, read_name_table-IsTable}
use morgue.Uasset.Package.{
  UassetInfo, uasset_names_cap, read_summary, longer, best_names, package_info, info_of,
  parse_uasset,
}

-- What the info of a package of `size` bytes is.
pub record IsInfo (size : ℕ) (info : UassetInfo) : Type 0 where
  pub names_counted : info.name_count ≡ info.total_names
  pub names_capped : length info.names ≡ min uasset_names_cap info.total_names
  pub names_plausible : All IsFName info.names
  pub total_fits : 5 * info.total_names ≤ size
  pub no_imports : (info.import_count ≡ 0) × (info.imports ≡ [])
  pub no_exports : (info.export_count ≡ 0) × (info.exports ≡ [])

All-take {κ} : {A : Type 0} (P : A → Type κ) (n : ℕ) (xs : List A) → All P xs → All P (take n xs)
All-take P zero xs h = tt
All-take P (suc n) [] h = tt
All-take P (suc n) (x ∷ xs) (hx, h) = (hx, All-take P n xs h)

abbrev Plausible : ℕ → List Text → Type 0
Plausible size names = All IsFName names × (total_length names ≤ size)

total_length-ge : (names : List Text) → All IsFName names → 5 * length names ≤ total_length names
total_length-ge [] h = omega arith
total_length-ge (s ∷ names) (v, h) = omega (arith, v.not_empty, total_length-ge names h)

read_name_table-Plausible :
    (buf : Bytes) (offset count : ℕ) → Plausible (length buf) (read_name_table buf offset count).0
read_name_table-Plausible buf offset count =
    let table = read_name_table-IsTable buf offset count in (table.0, omega (arith, table.2))

best_names-Plausible :
    (buf : Bytes) (offset count : ℕ) → Plausible (length buf) (best_names buf offset count)
unfolding best_names longer
best_names-Plausible buf offset count = go (scan_name_table_start buf)
  where
    go :
        (o : Option ℕ)
        → Plausible (length buf) (elim o [
          | none ↦ (read_name_table buf offset count).0
          | some off ↦
              longer
                (read_name_table buf off uasset_max_names).0
                (read_name_table buf offset count).0
        ])
    go none = read_name_table-Plausible buf offset count
    go (some off) =
        branches (Plausible (length buf)) _
          (λ _. read_name_table-Plausible buf off uasset_max_names)
          (λ _. read_name_table-Plausible buf offset count)

package_info-IsInfo :
    (buf : Bytes) (count offset : ℕ) → IsInfo (length buf) (package_info buf count offset)
unfolding package_info
package_info-IsInfo buf count offset =
    let names = best_names buf offset count in
    let v = best_names-Plausible buf offset count in
    record {
      names_counted = counted (length names);
      names_capped = capped names;
      names_plausible =
          branches (All IsFName) (ltb uasset_names_cap (length names))
            (λ _. All-take IsFName uasset_names_cap names v.0) (λ _. v.0);
      total_fits = omega (arith, v.1, total_length-ge names v.0);
      no_imports = (refl, refl);
      no_exports = (refl, refl);
    }
  where
    counted : (n : ℕ) → (if leb count 0 || not (n == count) then n else count) ≡ n
    counted n = ground arith

    capped :
        (names : List Text)
        → length
            (if ltb uasset_names_cap (length names) then take uasset_names_cap names else names)
          ≡ min uasset_names_cap (length names)
    capped names =
        branches (λ (ns : List Text). length ns ≡ min uasset_names_cap (length names))
          (ltb uasset_names_cap (length names)) (λ _. length-take uasset_names_cap names)
          (λ e. ground arith)

info_of-IsInfo :
    (buf : Bytes) (x : Result Error ((ℕ × ℕ) × Cursor)) (info : UassetInfo)
    → info_of buf x ≡ ok info
    → IsInfo (length buf) info
unfolding info_of
info_of-IsInfo buf (err e) info h = cc
info_of-IsInfo buf (ok ((count, offset), r)) info h =
    subst (IsInfo (length buf)) (cc) (package_info-IsInfo buf count offset)

past_guard :
    {A : Type 0} (b : Bool) (e : Error) (x : Result Error A) {a : A}
    → (if b then err e else x) ≡ ok a
    → x ≡ ok a
past_guard true e x h = cc
past_guard false e x h = h

-- Whatever a package holds, if `parseUAsset` returns an info, its name count is the number of the names
-- that were found, of which it has the first 200, each of 1 to 1024 printable ASCII characters; the
-- names took five bytes of the file each at least; and it has no imports and no exports.
pub parse_uasset-IsInfo :
    (buf : Bytes) (info : UassetInfo) → parse_uasset (ok buf) ≡ ok info → IsInfo (length buf) info
unfolding parse_uasset
parse_uasset-IsInfo buf info h =
    info_of-IsInfo buf (read_summary (length buf) (record { bytes = buf; pos = 0 })) info
      (past_guard (ltb (length buf) 32) _ _ h)
