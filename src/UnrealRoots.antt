-- ===== src/UnrealRoots.antt =====
-- The roots of Unreal games in internal/scanner/grouper.go: dedupeUnrealRoots, pathComponents,
-- hasBuildsSegment and isAncestorRoot. filepath.Clean, filepath.VolumeName and strings.EqualFold are
-- parameters.
pub mod Ancestors
pub mod Kept
pub mod Laws
mod Tests
use morgue.Common.{
  ℕ, ◌+◌, List, [], ◌∷◌, ◌++◌, Bool, true, false, not, ◌&&◌, ◌||◌, Bytes, length, drop, ltb, leb,
  ◌==◌, text_eq, if◌then◌else◌, codes,
}

abbrev pub Text : Type 0
Text = Bytes

pub record Paths : Type 0 where
  pub clean : Text → Text
  pub volume_name : Text → Text
  pub equal_fold : Text → Text → Bool

abbrev pub is_slash : ℕ → Bool
is_slash c = c == b'\\' || c == b'/'

abbrev pub is_empty : Text → Bool
is_empty [] = true
is_empty (c ∷ s) = false

-- strings.Trim of slashes, at the front and at the end.
unfoldable pub trim_left : Text → Text
trim_left [] = []
trim_left (c ∷ s) = if is_slash c then trim_left s else c ∷ s

unfoldable pub trim_right : Text → Text
trim_right [] = []
trim_right (c ∷ s) = let rest = trim_right s in if is_empty rest && is_slash c then [] else c ∷ rest

-- strings.FieldsFunc of slashes; `field` is what has been read of a field.
unfoldable pub fields : Text → Text → List Text
fields field [] = if is_empty field then [] else field ∷ []
fields field (c ∷ s) =
    let next = fields [] s in
    let more = fields (field ++ c ∷ []) s in
    if is_slash c then (if is_empty field then next else field ∷ next) else more

module _ (paths : Paths) where
  unfoldable pub path_components : Text → List Text
  unfolding trim_left trim_right fields
  path_components p =
      let cleaned = paths.clean p in
      let vol = paths.volume_name cleaned in
      let rest = trim_right (trim_left (drop (length vol) cleaned)) in
      (if is_empty vol then [] else vol ∷ []) ++ (if is_empty rest then [] else fields [] rest)

  -- The loop of hasBuildsSegment.
  unfoldable pub any_builds : List Text → Bool
  any_builds [] = false
  any_builds (c ∷ cs) = if paths.equal_fold c (codes "Builds") then true else any_builds cs

  unfoldable pub has_builds_segment : Text → Bool
  unfolding path_components any_builds
  has_builds_segment p = any_builds (path_components p)

  -- The loop of isAncestorRoot.
  unfoldable pub is_prefix : List Text → List Text → Bool
  is_prefix [] d = true
  is_prefix (x ∷ a) [] = false
  is_prefix (x ∷ a) (y ∷ d) = if not (paths.equal_fold x y) then false else is_prefix a d

  unfoldable pub is_ancestor_root : Text → Text → Bool
  unfolding path_components is_prefix
  is_ancestor_root ancestor descendant =
      let a = path_components ancestor in
      let d = path_components descendant in
      if leb (length d) (length a) then false else is_prefix a d

  -- Whether the test of hasBuildsSegment has the outcome `b` on some root.
  unfoldable pub any_with : Bool → List Text → Bool
  unfolding has_builds_segment
  any_with b [] = false
  any_with b (r ∷ roots) =
      if (if b then has_builds_segment r else not (has_builds_segment r))
      then true
      else any_with b roots

  -- The roots that are not under a Builds segment.
  unfoldable pub outside_builds : List Text → List Text
  unfolding has_builds_segment
  outside_builds [] = []
  outside_builds (r ∷ roots) =
      let rest = outside_builds roots in if has_builds_segment r then rest else r ∷ rest

  -- The inner loop of rule 2.
  unfoldable pub is_descendant : Text → List Text → Bool
  unfolding is_ancestor_root
  is_descendant r [] = false
  is_descendant r (other ∷ roots) =
      let later = is_descendant r roots in
      if text_eq other r then later else if is_ancestor_root other r then true else later

  -- The outer loop of rule 2, over the roots of `all` from some point on.
  unfoldable pub keep : List Text → List Text → List Text
  unfolding is_descendant
  keep all [] = []
  keep all (r ∷ roots) =
      let rest = keep all roots in if not (is_descendant r all) then r ∷ rest else rest

  -- Rule 1.
  unfoldable pub after_builds : List Text → List Text
  unfolding any_with outside_builds
  after_builds roots =
      if any_with true roots && any_with false roots then outside_builds roots else roots

  unfoldable pub dedupe_unreal_roots : List Text → List Text
  unfolding after_builds keep
  dedupe_unreal_roots roots =
      if leb (length roots) 1 then roots else keep (after_builds roots) (after_builds roots)
