-- ===== src/Sdk/Joined.antt =====
-- The sets of matched names in buildUsmapResolution of internal/recipe/sdk.go.
use morgue.Common.{
  true-false, suc, ◌≤◌, ◌≡◌, sym, ◌∙◌, subst, inl, inr, List, [], ◌∷◌, true, false, Option, none,
  some, length, arith, if◌then◌else◌, Bool-cases, Option-cases, branches, text_eq, text_eq→eq,
  text_eq_refl,
}
use morgue.Usmap.{Text, UsmapStruct}
use morgue.Usmap.File.{UsmapData}
use morgue.Csplit.Names.{is_in}
use morgue.Sdk.Resolution.{
  match_usmap, mark, join_names, join_assets, class_names, UsmapResolution, build_usmap_resolution,
  with_symbols, with_assets,
}
use morgue.Sdk.Matches.{match_usmap-Refers}
use morgue.Sdk.Totals.{length-map}

-- Each name stands once in the list, and is one of the set.
abbrev Within : List Text → List Text → Type 0
Within usmap_set [] = Unit
Within usmap_set (n ∷ ns) =
    ((is_in n ns ≡ false) × (is_in n usmap_set ≡ true)) × Within usmap_set ns

-- A list without the first place of a name.
remove : Text → List Text → List Text
remove n [] = []
remove n (t ∷ ts) = let rest = remove n ts in if text_eq n t then ts else t ∷ rest

length-remove :
    (n : Text) (ts : List Text) → is_in n ts ≡ true → suc (length (remove n ts)) ≡ length ts
unfolding remove is_in
length-remove n [] h = ground arith
length-remove n (t ∷ ts) h = ground (arith, length-remove n ts)

is_in-remove :
    (n x : Text) (ts : List Text)
    → text_eq x n ≡ false
    → is_in x ts ≡ true
    → is_in x (remove n ts) ≡ true
unfolding remove is_in
is_in-remove n x [] h k = ground arith
is_in-remove n x (t ∷ ts) h k = elim (Bool-cases (text_eq n t)) [
  | inl e ↦
      let apart : text_eq x t ≡ false = subst (λ s. text_eq x s ≡ false) (text_eq→eq n t e) h in
      ground arith
  | inr e ↦ ground (arith, is_in-remove n x ts h)
]

apart : (n x : Text) → text_eq n x ≡ false → text_eq x n ≡ false
apart n x h = elim (Bool-cases (text_eq x n)) [
  | inl e ↦
      let itself : text_eq x x ≡ false =
        subst (λ m. text_eq m x ≡ false) (sym (text_eq→eq x n e)) h in
      absurd (true-false (sym (text_eq_refl x) ∙ itself))
  | inr e ↦ e
]

Within-remove :
    (n : Text) (usmap_set ns : List Text)
    → is_in n ns ≡ false
    → Within usmap_set ns
    → Within (remove n usmap_set) ns
unfolding is_in
Within-remove n usmap_set [] h w = tt
Within-remove n usmap_set (x ∷ ns) h ((fresh, known), w) = (
  (fresh, is_in-remove n x usmap_set (apart n x (ground arith)) known),
  Within-remove n usmap_set ns (ground arith) w,
)

length-Within : (usmap_set ns : List Text) → Within usmap_set ns → length ns ≤ length usmap_set
length-Within usmap_set [] w = omega arith
length-Within usmap_set (n ∷ ns) w = omega (
  arith,
  length-remove n usmap_set w.0.1,
  length-Within (remove n usmap_set) ns (Within-remove n usmap_set ns w.0.0 w.1),
)

mark-Within :
    (usmap_set : List Text) (external : Text) (matched : List Text)
    → Within usmap_set matched
    → Within usmap_set (mark (match_usmap usmap_set external) matched)
unfolding mark
mark-Within usmap_set external matched w = elim (Option-cases (match_usmap usmap_set external)) [
  | inl e ↦ rw e w
  | inr (n, e) ↦ rw e (
      branches (Within usmap_set) (is_in n matched) (λ h. w)
        (λ h. ((h, (match_usmap-Refers usmap_set external n e).known), w)))
]

join_names-Within :
    (usmap_set matched names : List Text)
    → Within usmap_set matched
    → Within usmap_set (join_names usmap_set matched names)
unfolding join_names
join_names-Within usmap_set matched [] w = w
join_names-Within usmap_set matched (c ∷ cs) w =
    join_names-Within usmap_set (mark (match_usmap usmap_set c) matched) cs
      (mark-Within usmap_set c matched w)

join_assets-Within :
    (usmap_set matched : List Text) (sample : List (List Text))
    → Within usmap_set matched
    → Within usmap_set (join_assets usmap_set matched sample)
unfolding join_assets
join_assets-Within usmap_set matched [] w = w
join_assets-Within usmap_set matched (names ∷ sample) w =
    join_assets-Within usmap_set (join_names usmap_set matched names) sample
      (join_names-Within usmap_set matched names w)

-- Neither join matches more names than there are classes.
pub record Bounded (ur : UsmapResolution) : Type 0 where
  pub symbols : ur.matched_symbol_classes ≤ ur.classes
  pub assets : ur.matched_asset_names ≤ ur.classes

class_names-Within :
    (m : UsmapData) (ns : List Text) → Within (class_names m) ns → length ns ≤ length m.body.structs
class_names-Within m ns w = omega (
  arith,
  length-Within (class_names m) ns w,
  length-map (λ (s : UsmapStruct). s.name) m.body.structs,
)

joined_names :
    (m : UsmapData) (names : List Text)
    → length (join_names (class_names m) [] names) ≤ length m.body.structs
joined_names m names =
    class_names-Within m (join_names (class_names m) [] names)
      (join_names-Within (class_names m) [] names tt)

joined_assets :
    (m : UsmapData) (sample : List (List Text))
    → length (join_assets (class_names m) [] sample) ≤ length m.body.structs
joined_assets m sample =
    class_names-Within m (join_assets (class_names m) [] sample)
      (join_assets-Within (class_names m) [] sample tt)

-- A resolution never reports more matched symbol classes or matched asset names than the mappings
-- have classes, however often a name stands in the symbols or in the assets.
pub build_usmap_resolution-Bounded :
    (order : List Text → List Text) (m : UsmapData) (symbols : Option (List Text))
    (assets : Option (List (List Text)))
    → Bounded (build_usmap_resolution order m symbols assets)
unfolding build_usmap_resolution with_symbols with_assets
build_usmap_resolution-Bounded order m none none = record {
  symbols = omega arith;
  assets = omega arith;
}
build_usmap_resolution-Bounded order m none (some sample) = record {
  symbols = omega arith;
  assets = joined_assets m sample;
}
build_usmap_resolution-Bounded order m (some classes) none = record {
  symbols = joined_names m classes;
  assets = omega arith;
}
build_usmap_resolution-Bounded order m (some classes) (some sample) = record {
  symbols = joined_names m classes;
  assets = joined_assets m sample;
}
