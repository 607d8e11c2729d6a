-- ===== src/Uasset/Package.antt =====
-- parseUAsset of internal/recipe/uasset.go with byteReader.fstring, and the readers of imports and
-- exports. What os.ReadFile returns is a parameter; the path is left out.
pub mod Laws
use morgue.Common.{
  ℕ, zero, suc, ◌+◌, ◌-◌, ◌*◌, ◌^◌, List, [], ◌∷◌, ◌++◌, Bool, true, false, not, ◌&&◌, ◌||◌, Option,
  none, some, Bytes, Result, ok, err, get_elem?, length, take, drop, ltb, leb, ◌==◌, if◌then◌else◌,
  ℤ, pos, negsuc,
}
use morgue.Cursor.{Cursor, pure, fail, ◌>>=◌, ◌>>◌, repeat}
use morgue.ByteReader.{
  Error, message, message_ℕ, message_ℤ, Read, remaining, skip, take_bytes, uint16, uint32, int32,
}
use morgue.Odin.Reader.Utf16.{decode_utf16}
use morgue.Uasset.{Text, uasset_max_names, is_empty, read_name_table, scan_name_table_start}

abbrev pub uasset_tag : ℕ
uasset_tag = 0x9E2A83C1

abbrev pub uasset_names_cap : ℕ
uasset_names_cap = 200

pub record UassetImport : Type 0 where
  pub class : Text
  pub name : Text

pub record UassetExport : Type 0 where
  pub class_index : ℤ
  pub name : Text

pub record UassetInfo : Type 0 where
  pub name_count : ℕ
  pub import_count : ℕ
  pub export_count : ℕ
  pub total_names : ℕ
  pub names : List Text
  pub imports : List UassetImport
  pub exports : List UassetExport

-- All NULs, or UTF-16 units of zero, at the end are taken off.
unfoldable pub trim_nul : List ℕ → List ℕ
unfolding is_empty
trim_nul [] = []
trim_nul (b ∷ bs) = let rest = trim_nul bs in if is_empty rest && b == 0 then [] else b ∷ rest

-- A Go string, made from bytes or from the code points of UTF-16 units.
pub data GoString : Type 0 where
  of_bytes : Bytes → GoString
  of_runes : List ℕ → GoString

-- fstring behind its length, which is zero, positive, or negative; -(-2 ^ 31) is negative in Go, which
-- `need` refuses.
unfoldable pub fstring_of : ℤ → Read GoString
unfolding trim_nul decode_utf16
fstring_of (pos zero) = pure (of_bytes [])
fstring_of (pos (suc n)) = do
  left ← (λ r. ok (remaining r, r))
  if ltb left (suc n)
      then fail (message_ℕ "uasset: FString len exceeds remaining" (suc n))
      else (do raw ← take_bytes (suc n); pure (of_bytes (trim_nul raw)))
fstring_of (negsuc n) = do
  left ← (λ r. ok (remaining r, r))
  if suc n == 2 ^ 31
      then fail (message "uasset: read past end")
      else if ltb left (suc n * 2)
      then fail (message_ℕ "uasset: FString utf16 len exceeds remaining" (suc n * 2))
      else (do u16 ← repeat (λ _. uint16) (suc n) 0; pure (of_runes (decode_utf16 (trim_nul u16))))

unfoldable pub fstring : Read GoString
unfolding fstring_of
fstring = do n ← int32; fstring_of n

-- `cvCount < 0 || cvCount > 4096`, then the skip.
unfoldable pub skip_custom_versions : ℤ → Read (Unit {0})
skip_custom_versions (negsuc n) =
    fail (message_ℤ "uasset: implausible custom-version count" (negsuc n))
skip_custom_versions (pos n) =
    if ltb 4096 n
    then fail (message_ℤ "uasset: implausible custom-version count" (pos n))
    else skip (n * (16 + 4))

abbrev pub is_minus_four : ℤ → Bool
is_minus_four (negsuc n) = n == 3
is_minus_four (pos n) = false

abbrev pub up_to_minus_eight : ℤ → Bool
up_to_minus_eight (negsuc n) = leb 7 n
up_to_minus_eight (pos n) = false

-- An int32 that is read and not used, where the version has it.
unfoldable pub skip_int32 : Bool → Read (Unit {0})
skip_int32 present = if present then (do int32; pure tt) else pure tt

-- The name count and the name offset, behind their tests; `size` is the length of the buffer.
unfoldable pub checked_table : ℕ → ℤ → ℤ → Read (ℕ × ℕ)
checked_table size (negsuc n) offset = fail (message_ℤ "uasset: implausible name count" (negsuc n))
checked_table size (pos n) offset =
    if ltb uasset_max_names n
    then fail (message_ℤ "uasset: implausible name count" (pos n))
    else elim offset [
      | negsuc o ↦ fail (message_ℤ "uasset: name offset out of range" (negsuc o))
      | pos o ↦
          if ltb size o
          then fail (message_ℤ "uasset: name offset out of range" (pos o))
          else pure (n, o)
    ]

-- parseUAsset from the tag to the tests of the name count and the name offset.
unfoldable pub read_summary : ℕ → Read (ℕ × ℕ)
unfolding skip_custom_versions skip_int32 checked_table
read_summary size = do
  tag ← uint32
  if not (tag == uasset_tag) then fail (message_ℕ "uasset: bad tag" tag) else (do
    legacy_ver ← int32
    skip_int32 (not (is_minus_four legacy_ver))
    int32
    skip_int32 (up_to_minus_eight legacy_ver)
    int32
    cv_count ← int32
    skip_custom_versions cv_count
    int32
    fstring
    uint32
    name_count ← int32
    name_offset ← int32
    checked_table size name_count name_offset)

-- `names[idx]`, or "".
unfoldable pub name_at : List Text → ℤ → Text
name_at names (negsuc n) = []
name_at names (pos i) = elim (get_elem? names i) [ none ↦ [] | some s ↦ s ]

-- The closure `resolve` of readImports: an index and a number, as far as they are there.
unfoldable pub resolve : List Text → Cursor → Text × Cursor
unfolding name_at
resolve names r = elim (int32 r) [
  | err e ↦ ([], r)
  | ok (idx, r1) ↦ elim (int32 r1) [ err e ↦ ([], r1) | ok (number, r2) ↦ (name_at names idx, r2) ]
]

-- A round of the loop of readImports.
unfoldable pub read_import : List Text → Cursor → Option (UassetImport × Cursor)
unfolding resolve
read_import names r =
    if ltb (remaining r) 24
    then none
    else (let class_package = resolve names r in
        let class = resolve names class_package.1 in
        elim (int32 class.1) [
          | err e ↦ none
          | ok (outer, r3) ↦
              let object = resolve names r3 in
              if is_empty object.0 && is_empty class.0
              then none
              else some (record { class = class.0; name = object.0 }, object.1)
        ])

unfoldable pub import_loop : List Text → ℕ → Cursor → List UassetImport
unfolding read_import
import_loop names zero r = []
import_loop names (suc count) r = elim (read_import names r) [
  | none ↦ []
  | some (i, r') ↦ i ∷ import_loop names count r'
]

unfoldable pub read_imports : Bytes → ℕ → ℕ → List Text → List UassetImport
unfolding import_loop
read_imports buf offset count names =
    if ltb (length buf) offset
    then []
    else import_loop names count (record { bytes = buf; pos = offset })

-- A round of the loop of readExports; a failed read ends it.
unfoldable pub read_export : List Text → Read UassetExport
unfolding name_at
read_export names = do
  left ← (λ r. ok (remaining r, r))
  if ltb left 16 then fail (message "break") else (do
    class_index ← int32
    int32
    int32
    name_idx ← int32
    int32
    let name = name_at names name_idx
    if is_empty name
        then fail (message "break")
        else pure (record { class_index = class_index; name = name }))

unfoldable pub export_loop : List Text → ℕ → Cursor → List UassetExport
unfolding read_export
export_loop names zero r = []
export_loop names (suc count) r = elim (read_export names r) [
  | err e ↦ []
  | ok (x, r') ↦ x ∷ export_loop names count r'
]

unfoldable pub read_exports : Bytes → ℕ → ℕ → List Text → List UassetExport
unfolding export_loop
read_exports buf offset count names =
    if ltb (length buf) offset
    then []
    else export_loop names count (record { bytes = buf; pos = offset })

-- Import count and offset, export count and offset, which are never read.
abbrev pub try_read_import_export_meta : ℕ × ℕ × ℕ × ℕ
try_read_import_export_meta = (0, 0, 0, 0)

unfoldable pub longer : List Text → List Text → List Text
longer scanned names = if ltb (length names) (length scanned) then scanned else names

-- The names of the summary's table, or of the scan where it finds more.
unfoldable pub best_names : Bytes → ℕ → ℕ → List Text
unfolding read_name_table scan_name_table_start longer
best_names buf name_offset name_count =
    let names = (read_name_table buf name_offset name_count).0 in
    elim (scan_name_table_start buf) [
      | none ↦ names
      | some off ↦ longer (read_name_table buf off uasset_max_names).0 names
    ]

-- parseUAsset behind the summary.
unfoldable pub package_info : Bytes → ℕ → ℕ → UassetInfo
unfolding best_names read_imports read_exports
package_info buf name_count name_offset =
    let names = best_names buf name_offset name_count in
    let (imp_count, imp_off, exp_count, exp_off) = try_read_import_export_meta in
    record {
      name_count =
          if leb name_count 0 || not (length names == name_count) then length names else name_count;
      import_count = imp_count;
      export_count = exp_count;
      total_names = length names;
      names = if ltb uasset_names_cap (length names) then take uasset_names_cap names else names;
      imports =
          if ltb 0 imp_count && (ltb 0 imp_off && ltb imp_off (length buf))
          then read_imports buf imp_off imp_count names
          else [];
      exports =
          if ltb 0 exp_count && (ltb 0 exp_off && ltb exp_off (length buf))
          then read_exports buf exp_off exp_count names
          else [];
    }

unfoldable pub info_of : Bytes → Result Error ((ℕ × ℕ) × Cursor) → Result Error UassetInfo
unfolding package_info
info_of buf (err e) = err e
info_of buf (ok ((name_count, name_offset), r)) = ok (package_info buf name_count name_offset)

unfoldable pub parse_uasset : Result Error Bytes → Result Error UassetInfo
unfolding read_summary info_of
parse_uasset (err e) = err e
parse_uasset (ok buf) =
    if ltb (length buf) 32
    then err (message "uasset: file too small to be a package")
    else info_of buf (read_summary (length buf) (record { bytes = buf; pos = 0 }))
