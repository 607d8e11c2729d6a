-- ===== src/SkipList/Tests.antt =====
-- The skip list of internal/skiplist/skiplist.go with a table of two categories.
use morgue.Common.{
  ◌+◌, ◌≡◌, refl, List, [], ◌∷◌, map, true, false, text_eq, leb, ◌&&◌, if◌then◌else◌, codes,
}
use morgue.SkipList.{
  Text, Strings, Config, SkipList, new, has_key, is_on, any_matches, skip_category, should_skip,
}
use morgue.SkipList.Laws.{Reason, should_skip-Reason}

-- Lower case of ASCII letters, and patterns without wildcards.
abbrev ascii : Strings
ascii = record {
  to_lower = map (λ c. if leb b'A' c && leb c b'Z' then c + 32 else c);
  matches = text_eq;
}

abbrev patterns : List (Text × List Text)
patterns =
    (codes "dotnet", codes "System.dll" ∷ codes "mscorlib.dll" ∷ [])
    ∷ (codes "unity", codes "UnityEngine.dll" ∷ [])
    ∷ []

abbrev config : Config
config = record {
  skip_system_libs = true;
  skip_categories = (codes "unity", false) ∷ [];
  custom_skip = codes "Steam.dll" ∷ [];
  custom_include = codes "MSCORLIB.dll" ∷ [];
}

abbrev skip_list : SkipList
skip_list = new ascii patterns config

should_skip-Reason_example :
    ((should_skip ascii skip_list (codes "SYSTEM.DLL")).0 ≡ true
      → Reason ascii skip_list
          (codes "SYSTEM.DLL")
          (should_skip ascii skip_list (codes "SYSTEM.DLL")).1)
    × ((category : Text)
        → Reason ascii skip_list (codes "SYSTEM.DLL") category
        → (should_skip ascii skip_list (codes "SYSTEM.DLL")).0 ≡ true)
should_skip-Reason_example = should_skip-Reason ascii skip_list (codes "SYSTEM.DLL")

builtin_category : should_skip ascii skip_list (codes "SYSTEM.DLL") ≡ (true, codes "dotnet")
unfolding should_skip new has_key is_on any_matches skip_category text_eq
builtin_category = refl

category_off : should_skip ascii skip_list (codes "UnityEngine.dll") ≡ (false, [])
unfolding should_skip new has_key is_on any_matches skip_category text_eq
category_off = refl

included : should_skip ascii skip_list (codes "mscorlib.dll") ≡ (false, [])
unfolding should_skip new has_key is_on any_matches skip_category text_eq
included = refl

custom : should_skip ascii skip_list (codes "steam.dll") ≡ (true, codes "custom")
unfolding should_skip new has_key is_on any_matches skip_category text_eq
custom = refl
