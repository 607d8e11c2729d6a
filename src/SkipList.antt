-- ===== src/SkipList.antt =====
-- The skip list of internal/skiplist/skiplist.go. strings.ToLower and filepath.Match are parameters,
-- and so is the table of built-in patterns, whose order is the order in which Go walks its map.
pub mod Laws
mod Tests
use morgue.Common.{
  List, [], ◌∷◌, ◌++◌, map, Bool, true, false, not, ◌&&◌, Option, none, some, Bytes, text_eq,
  if◌then◌else◌, codes,
}

abbrev pub Text : Type 0
Text = Bytes

pub record Strings : Type 0 where
  pub to_lower : Text → Text
  -- The first result of filepath.Match on a pattern and a name.
  pub matches : Text → Text → Bool

-- The fields of config.Config that New reads.
pub record Config : Type 0 where
  pub skip_system_libs : Bool
  pub skip_categories : List (Text × Bool)
  pub custom_skip : List Text
  pub custom_include : List Text

-- A map from texts to true is the list of its keys; in `categories` the first entry of a key counts.
pub record SkipList : Type 0 where
  pub enabled : Bool
  pub categories : List (Text × Bool)
  pub patterns : List (Text × List Text)
  pub custom_skip : List Text
  pub custom_include : List Text

-- `m[key]` of a map that holds true under its keys.
unfoldable pub has_key : Text → List Text → Bool
has_key key [] = false
has_key key (k ∷ m) = if text_eq k key then true else has_key key m

-- `categories[cat]`, false where there is no entry.
unfoldable pub is_on : Text → List (Text × Bool) → Bool
is_on cat [] = false
is_on cat ((k, b) ∷ m) = if text_eq k cat then b else is_on cat m

module _ (strings : Strings) where
  -- New: every built-in category is on, unless the configuration says something else.
  unfoldable pub new : List (Text × List Text) → Config → SkipList
  new builtin_patterns cfg = record {
    enabled = cfg.skip_system_libs;
    categories =
        cfg.skip_categories ++ map (λ (c : Text × List Text). (c.0, true)) builtin_patterns;
    patterns = builtin_patterns;
    custom_skip = map strings.to_lower cfg.custom_skip;
    custom_include = map strings.to_lower cfg.custom_include;
  }

  -- The loop over the patterns of a category.
  unfoldable pub any_matches : List Text → Text → Bool
  any_matches [] lower = false
  any_matches (p ∷ ps) lower =
      if strings.matches (strings.to_lower p) lower then true else any_matches ps lower

  -- The loop over the categories.
  unfoldable pub skip_category : List (Text × Bool) → List (Text × List Text) → Text → Bool × Text
  unfolding is_on any_matches
  skip_category categories [] lower = (false, [])
  skip_category categories ((cat, ps) ∷ rest) lower =
      let later = skip_category categories rest lower in
      if not (is_on cat categories)
      then later
      else if any_matches ps lower
      then (true, cat)
      else later

  unfoldable pub should_skip : SkipList → Text → Bool × Text
  unfolding has_key skip_category
  should_skip sl filename =
      let lower = strings.to_lower filename in
      if has_key lower sl.custom_include
      then (false, [])
      else if has_key lower sl.custom_skip
      then (true, codes "custom")
      else if not sl.enabled
      then (false, [])
      else skip_category sl.categories sl.patterns lower
