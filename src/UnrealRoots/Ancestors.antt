-- ===== src/UnrealRoots/Ancestors.antt =====
-- Ancestors among the roots of internal/scanner/grouper.go.
use morgue.Common.{
  ℕ, ◌<◌, ◌≡◌, refl, ap, ◌∙◌, List, [], ◌∷◌, Bool, true, false, not, length, leb, if◌then◌else◌,
  arith,
}
use morgue.UnrealRoots.{Text, Paths, path_components, is_prefix, is_ancestor_root}

-- What strings.EqualFold is documented to be: an equality up to case.
pub record IsFold (paths : Paths) : Type 0 where
  pub transitive :
      (a b c : Text)
      → paths.equal_fold a b ≡ true
      → paths.equal_fold b c ≡ true
      → paths.equal_fold a c ≡ true

-- An entry of a list.
pub data Among (r : Text) : List Text → Type 0 where
  here : {s : Text} {roots : List Text} → s ≡ r → Among r (s ∷ roots)
  there : {s : Text} {roots : List Text} → Among r roots → Among r (s ∷ roots)

pub guarded : (b : Bool) {c : Bool} → (if b then false else c) ≡ true → (b ≡ false) × (c ≡ true)
guarded true h = cc
guarded false h = (refl, h)

module _ (paths : Paths) where
  -- An ancestor has fewer components.
  pub is_ancestor_root-length :
      (a d : Text)
      → is_ancestor_root paths a d ≡ true
      → length (path_components paths a) < length (path_components paths d)
  unfolding is_ancestor_root
  is_ancestor_root-length a d h =
      let (h1, _) =
        guarded (leb (length (path_components paths d)) (length (path_components paths a))) h in
      ground (arith, h1)

module _ (paths : Paths) (fold : IsFold paths) where
  negated : (b : Bool) → not b ≡ false → b ≡ true
  negated true h = refl
  negated false h = cc

  is_prefix_transitive :
      (a b c : List Text)
      → is_prefix paths a b ≡ true
      → is_prefix paths b c ≡ true
      → is_prefix paths a c ≡ true
  unfolding is_prefix
  is_prefix_transitive [] b c h g = refl
  is_prefix_transitive (x ∷ a) [] c h g = cc
  is_prefix_transitive (x ∷ a) (y ∷ b) [] h g = cc
  is_prefix_transitive (x ∷ a) (y ∷ b) (z ∷ c) h g =
      let (h1, h2) = guarded (not (paths.equal_fold x y)) h in
      let (g1, g2) = guarded (not (paths.equal_fold y z)) g in
      ap (λ (e : Bool). if not e then false else is_prefix paths a c)
        (fold.transitive x y z (negated _ h1) (negated _ g1))
      ∙ is_prefix_transitive a b c h2 g2

  pub is_ancestor_root_transitive :
      (a b c : Text)
      → is_ancestor_root paths a b ≡ true
      → is_ancestor_root paths b c ≡ true
      → is_ancestor_root paths a c ≡ true
  unfolding is_ancestor_root
  is_ancestor_root_transitive a b c h g =
      let (h1, h2) =
        guarded (leb (length (path_components paths b)) (length (path_components paths a))) h in
      let (g1, g2) =
        guarded (leb (length (path_components paths c)) (length (path_components paths b))) g in
      ap
        (λ (e : Bool).
          if e then false else is_prefix paths (path_components paths a) (path_components paths c))
        (longer (length (path_components paths a)) (length (path_components paths b))
          (length (path_components paths c)) h1 g1)
      ∙ is_prefix_transitive (path_components paths a) (path_components paths b)
          (path_components paths c) h2 g2
    where
      longer : (i j k : ℕ) → leb j i ≡ false → leb k j ≡ false → leb k i ≡ false
      longer i j k h g = ground arith
