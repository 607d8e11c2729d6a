-- ===== src/Sdk/Sort.antt =====
-- sort.Slice, as internal/recipe/sdk.go calls it with a comparison of keys. Items with the same key
-- keep their order here; Go promises no order for them.
use morgue.Common.{List, [], ◌∷◌, Bool, if◌then◌else◌}

module _ {ℓ} {A : Type ℓ} (less : A → A → Bool) where
  unfoldable pub insert : A → List A → List A
  insert a [] = a ∷ []
  insert a (b ∷ bs) = let rest = insert a bs in if less b a then b ∷ rest else a ∷ (b ∷ bs)

  unfoldable pub sort : List A → List A
  sort [] = []
  sort (a ∷ items) = insert a (sort items)
