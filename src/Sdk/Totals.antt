-- ===== src/Sdk/Totals.antt =====
-- The totals of internal/recipe/sdk.go: writeSDKDump and buildUsmapResolution count the same things.
use morgue.Common.{
  ℕ, suc, ◌+◌, ◌≡◌, refl, sym, ap, ◌∙◌, List, [], ◌∷◌, Option, none, some, Result, ok, length,
  arith, map, codes,
}
use morgue.Usmap.{Text, UsmapStruct, UsmapEnum}
use morgue.Usmap.File.{UsmapData}
use morgue.Sdk.{
  SdkDump, SdkProperty, SdkResult, class_of, class_less, enum_of, enum_less, property_of,
  sorted_classes, sorted_enums,
}
use morgue.Sdk.Dump.{Disk, Files, checked, count_rendered, prop_count, write_sdk_dump}
use morgue.Sdk.Sorted.{length-sort}
use morgue.Sdk.Resolution.{
  UsmapResolution, totals, count_properties, build_usmap_resolution, with_symbols, with_assets,
}

pub length-map {ℓ κ} :
    {A : Type ℓ} {B : Type κ} (f : A → B) (items : List A) → length (map f items) ≡ length items
length-map f [] = refl
length-map f (a ∷ items) = omega (arith, length-map f items)

count_rendered-length : (n : ℕ) (ps : List SdkProperty) → count_rendered n ps ≡ n + length ps
unfolding count_rendered
count_rendered-length n [] = omega arith
count_rendered-length n (p ∷ ps) = omega (arith, count_rendered-length (suc n) ps)

prop_count-count_properties :
    (n : ℕ) (ss : List UsmapStruct) → prop_count n ss ≡ count_properties n ss
unfolding prop_count count_properties
prop_count-count_properties n [] = refl
prop_count-count_properties n (s ∷ ss) =
    ap (λ k. prop_count k ss)
      (count_rendered-length n (map property_of s.properties)
        ∙ ap (λ k. n + k) (length-map property_of s.properties))
    ∙ prop_count-count_properties (n + length s.properties) ss

length-sorted_classes : (ss : List UsmapStruct) → length (sorted_classes ss) ≡ length ss
unfolding sorted_classes
length-sorted_classes ss = length-sort class_less (map class_of ss) ∙ length-map class_of ss

length-sorted_enums : (es : List UsmapEnum) → length (sorted_enums es) ≡ length es
unfolding sorted_enums
length-sorted_enums es = length-sort enum_less (map enum_of es) ∙ length-map enum_of es

-- No call of the file system fails.
pub record Works (disk : Disk) : Type 0 where
  pub mkdir_all : (dir : Text) → disk.mkdir_all dir ≡ none
  pub create : (path : Text) → disk.create path ≡ none
  pub write_file : (path : Text) → disk.write_file path ≡ none
  pub encodes : (dump : SdkDump) → disk.encode dump ≡ none

abbrev totals_in : UsmapResolution → Text → SdkResult
totals_in ur dir = record {
  classes = ur.classes;
  enums = ur.enums;
  properties = ur.properties;
  dir = dir;
}

-- What a dump returned and wrote, next to the resolution of the same mappings.
pub record Agrees (r : Result Text SdkResult × Files) (ur : UsmapResolution) (dir : Text)
    : Type 0 where
  pub result : r.0 ≡ ok (totals_in ur dir)
  pub files : length r.1 ≡ 4

-- The totals of a resolution are those of the mappings, whatever they are joined with.
resolution_totals :
    (order : List Text → List Text) (m : UsmapData) (symbols : Option (List Text))
    (assets : Option (List (List Text))) (dir : Text)
    → totals_in (build_usmap_resolution order m symbols assets) dir ≡ totals_in (totals m) dir
unfolding build_usmap_resolution with_symbols with_assets
resolution_totals order m none none dir = refl
resolution_totals order m none (some sample) dir = refl
resolution_totals order m (some classes) none dir = refl
resolution_totals order m (some classes) (some sample) dir = refl

-- The fields of a result, one by one.
result_path :
    (dir : Text) {c c' e e' p p' : ℕ}
    → c ≡ c'
    → e ≡ e'
    → p ≡ p'
    → Path SdkResult
        (record { classes = c; enums = e; properties = p; dir = dir })
        (record { classes = c'; enums = e'; properties = p'; dir = dir })
result_path dir hc he hp =
    λ i. record { classes = hc i; enums = he i; properties = hp i; dir = dir }

dump_totals :
    (m : UsmapData) (dir : Text)
    → Path SdkResult
        (record {
          classes = length (sorted_classes m.body.structs);
          enums = length (sorted_enums m.body.enums);
          properties = prop_count 0 m.body.structs;
          dir = dir;
        })
        (totals_in (totals m) dir)
dump_totals m dir =
    result_path dir (length-sorted_classes m.body.structs) (length-sorted_enums m.body.enums)
      (prop_count-count_properties 0 m.body.structs)

module _ (disk : Disk) (readme : Text → ℕ → ℕ → ℕ → Text) where
  write_sdk_dump-Works :
      (out_dir : Text) (m : UsmapData) (source : Text)
      → Works disk
      → ((write_sdk_dump disk readme out_dir m source).0
          ≡ ok (totals_in (totals m) (disk.join out_dir (codes "sdk"))))
        × (length (write_sdk_dump disk readme out_dir m source).1 ≡ 4)
  unfolding write_sdk_dump checked
  write_sdk_dump-Works out_dir m source w =
      simp (w.mkdir_all, w.create, w.encodes, w.write_file, dump_totals m) (refl, refl)

  -- Where no call of the file system and not the encoder fails, a dump writes four files and returns
  -- the numbers of classes, enums and properties that the resolution of the same mappings has,
  -- whatever it is joined with.
  pub write_sdk_dump-Agrees :
      (out_dir : Text) (m : UsmapData) (source : Text) (order : List Text → List Text)
      (symbols : Option (List Text)) (assets : Option (List (List Text)))
      → Works disk
      → Agrees
          (write_sdk_dump disk readme out_dir m source)
          (build_usmap_resolution order m symbols assets)
          (disk.join out_dir (codes "sdk"))
  write_sdk_dump-Agrees out_dir m source order symbols assets w =
      let dir = disk.join out_dir (codes "sdk") in
      let works = write_sdk_dump-Works out_dir m source w in
      record {
        result = works.0 ∙ ap ok (sym (resolution_totals order m symbols assets dir));
        files = works.1;
      }
