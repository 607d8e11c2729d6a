-- ===== src/Sdk/Resolution.antt =====
-- buildUsmapResolution in internal/recipe/sdk.go: the totals of a .usmap and the joins of its class
-- names with the names that other passes have found. The order of a range over a map is a parameter.
use morgue.Common.{
  ℕ, ◌+◌, List, [], ◌∷◌, ◌++◌, Bool, not, ◌&&◌, ◌||◌, Option, none, some, length, leb, ◌==◌,
  if◌then◌else◌, codes, itoa, map, text_eq,
}
use morgue.Usmap.{Text, UsmapStruct}
use morgue.Usmap.File.{UsmapData}
use morgue.Csplit.Names.{is_in}
use morgue.Csplit.Split.{sorted_keys}
use morgue.Sdk.{is_boilerplate_usmap_class}

pub record UsmapResolution : Type 0 where
  pub version : ℕ
  pub compression_method : Text
  pub classes : ℕ
  pub enums : ℕ
  pub properties : ℕ
  pub matched_symbol_classes : ℕ
  pub symbol_classes_total : ℕ
  pub matched_asset_names : ℕ
  pub sample_game_classes : List Text

unfoldable pub usmap_compression_name : ℕ → Text
usmap_compression_name m =
    if m == 0
    then codes "None"
    else if m == 1
    then codes "Oodle"
    else if m == 2
    then codes "Brotli"
    else if m == 3
    then codes "ZStandard"
    else codes "Unknown(" ++ itoa m ++ codes ")"

abbrev pub is_ue_prefix : ℕ → Bool
is_ue_prefix c = c == b'U' || c == b'A' || c == b'F'

unfoldable pub strip_ue_prefix : Text → Text
strip_ue_prefix [] = []
strip_ue_prefix (c ∷ []) = c ∷ []
strip_ue_prefix (c ∷ (d ∷ s)) =
    if is_ue_prefix c && (leb b'A' d && leb d b'Z') then d ∷ s else c ∷ (d ∷ s)

-- The closure matchUsmap, over the names in usmapSet.
unfoldable pub match_usmap : List Text → Text → Option Text
unfolding strip_ue_prefix is_in
match_usmap usmap_set external =
    if is_in external usmap_set
    then some external
    else if not (text_eq (strip_ue_prefix external) external)
        && is_in (strip_ue_prefix external) usmap_set
    then some (strip_ue_prefix external)
    else none

-- `matched[name] = true`; the set is the list of its members.
unfoldable pub mark : Option Text → List Text → List Text
unfolding is_in
mark none matched = matched
mark (some name) matched = if is_in name matched then matched else name ∷ matched

unfoldable pub join_names : List Text → List Text → List Text → List Text
unfolding mark
join_names usmap_set matched [] = matched
join_names usmap_set matched (c ∷ cs) =
    join_names usmap_set (mark (match_usmap usmap_set c) matched) cs

-- The same for the names of each asset.
unfoldable pub join_assets : List Text → List Text → List (List Text) → List Text
join_assets usmap_set matched [] = matched
join_assets usmap_set matched (names ∷ sample) =
    join_assets usmap_set (join_names usmap_set matched names) sample

-- The loop that samples classes, which ends at twenty.
unfoldable pub sample_loop : List Text → List Text → List Text
sample_loop sample [] = sample
sample_loop sample (name ∷ names) =
    let skipped = sample_loop sample names in
    let taken = sample_loop (sample ++ name ∷ []) names in
    if is_boilerplate_usmap_class name
    then skipped
    else if leb 20 (length (sample ++ name ∷ []))
    then sample ++ name ∷ []
    else taken

unfoldable pub count_properties : ℕ → List UsmapStruct → ℕ
count_properties n [] = n
count_properties n (s ∷ ss) = count_properties (n + length s.properties) ss

abbrev pub class_names : UsmapData → List Text
class_names m = map (λ s. s.name) m.body.structs

abbrev pub totals : UsmapData → UsmapResolution
totals m = record {
  version = m.version;
  compression_method = usmap_compression_name m.compression_method;
  classes = length m.body.structs;
  enums = length m.body.enums;
  properties = count_properties 0 m.body.structs;
  matched_symbol_classes = 0;
  symbol_classes_total = 0;
  matched_asset_names = 0;
  sample_game_classes = [];
}

-- The join with symbols.json, which is `none` where it cannot be read or decoded.
unfoldable pub with_symbols :
    (List Text → List Text) → UsmapData → Option (List Text) → UsmapResolution → UsmapResolution
with_symbols order m none ur = ur
with_symbols order m (some classes) ur =
    let matched = join_names (class_names m) [] classes in
    record ur {
      symbol_classes_total = length classes;
      matched_symbol_classes = length matched;
      sample_game_classes = sorted_keys (sample_loop [] (order matched));
    }

-- And with assets_index.json, of which the names of each asset of the sample are read.
unfoldable pub with_assets :
    UsmapData → Option (List (List Text)) → UsmapResolution → UsmapResolution
with_assets m none ur = ur
with_assets m (some sample) ur = record ur {
  matched_asset_names = length (join_assets (class_names m) [] sample);
}

unfoldable pub build_usmap_resolution :
    (List Text → List Text)
    → UsmapData
    → Option (List Text)
    → Option (List (List Text))
    → UsmapResolution
build_usmap_resolution order m symbols assets =
    with_assets m assets (with_symbols order m symbols (totals m))
