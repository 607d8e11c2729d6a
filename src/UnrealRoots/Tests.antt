-- ===== src/UnrealRoots/Tests.antt =====
-- The roots of a game with a server build and a nested root, as internal/scanner/grouper.go has them.
use morgue.Common.{
  ◌+◌, ◌≡◌, refl, sym, subst, List, [], ◌∷◌, map, true, text_eq, text_eq→eq, leb, ◌&&◌, ◌==◌,
  if◌then◌else◌, codes,
}
use morgue.UnrealRoots.{
  Text, Paths, trim_left, trim_right, fields, path_components, any_builds, has_builds_segment,
  is_prefix, is_ancestor_root, any_with, outside_builds, is_descendant, keep, after_builds,
  dedupe_unreal_roots,
}
use morgue.UnrealRoots.Ancestors.{IsFold}
use morgue.UnrealRoots.Laws.{IsDeduped, dedupe_unreal_roots-IsDeduped}

abbrev lower : Text → Text
lower = map (λ c. if leb b'A' c && leb c b'Z' then c + 32 else c)

abbrev drive : Text → Text
drive (c ∷ (d ∷ s)) = if d == b':' then c ∷ d ∷ [] else []
drive _ = []

-- Cleaned paths with drive letters, and ASCII letters of either case.
abbrev windows : Paths
windows = record {
  clean = λ p. p;
  volume_name = drive;
  equal_fold = λ a b. text_eq (lower a) (lower b);
}

windows-IsFold : IsFold windows
windows-IsFold = record {
  transitive = λ a b c h g.
      subst (λ s. text_eq s (lower c) ≡ true) (sym (text_eq→eq (lower a) (lower b) h)) g;
}

abbrev roots : List Text
roots =
    codes "C:\\R5\\Builds\\WindowsServer"
    ∷ codes "C:\\R5\\Mods"
    ∷ codes "c:\\r5"
    ∷ codes "D:/Rebuilds"
    ∷ []

dedupe_unreal_roots-IsDeduped_example : IsDeduped windows roots (dedupe_unreal_roots windows roots)
dedupe_unreal_roots-IsDeduped_example = dedupe_unreal_roots-IsDeduped windows windows-IsFold roots

one_game_and_another : dedupe_unreal_roots windows roots ≡ codes "c:\\r5" ∷ codes "D:/Rebuilds" ∷ []
unfolding dedupe_unreal_roots after_builds keep is_descendant outside_builds any_with
    is_ancestor_root is_prefix has_builds_segment any_builds path_components fields trim_left
    trim_right text_eq
one_game_and_another = refl
