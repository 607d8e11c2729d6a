-- ===== src/Sdk/Rendered.antt =====
-- The classes of a dump of internal/recipe/sdk.go: which structs they render, and in which order.
use mathlib.Core.List.{Permᴰ, IsChain}
use morgue.Common.{
  ℕ, ◌≡◌, refl, sym, subst, ◌<◌, inl, inr, List, [], ◌∷◌, Bool, false, ltb, ltb→lt, arith, map,
  Bool-cases,
}
use morgue.Csplit.Split.{text_lt}
use morgue.Usmap.{Text, UsmapProperty, UsmapStruct, to}
use morgue.Sdk.Sort.{sort}
use morgue.Sdk.{
  SdkProperty, SdkClass, cpp_type, tag_of_type, property_of, class_of, class_less, sorted_classes,
  is_boilerplate_usmap_class,
}
use morgue.Sdk.Sorted.{Ordered, sort-Permᴰ, sort-Ordered, sort-map, text_lt_asymm}

-- The lexicographic order of texts, byte by byte.
pub data LeText : Text → Text → Type 0 where
  empty : {t : Text} → LeText [] t
  less : {c d : ℕ} {s t : Text} → c < d → LeText (c ∷ s) (d ∷ t)
  same : {c d : ℕ} {s t : Text} → c ≡ d → LeText s t → LeText (c ∷ s) (d ∷ t)

abbrev NameLe : SdkClass → SdkClass → Type 0
NameLe a b = LeText a.name b.name

-- Two lists of the same length, related place by place.
pub data Pairs {A B : Type 0} (R : A → B → Type 0) : List A → List B → Type 0 where
  none_left : Pairs R [] []
  both :
      {a : A} {b : B} {as' : List A} {bs : List B}
      → R a b
      → Pairs R as' bs
      → Pairs R (a ∷ as') (b ∷ bs)

pub record RendersProperty (p : UsmapProperty) (q : SdkProperty) : Type 0 where
  pub name : q.name ≡ p.name
  pub type : q.type ≡ tag_of_type p.type
  pub cpp : q.cpp_type ≡ cpp_type (to p.type)
  pub array_dim : q.array_dim ≡ p.array_dim

pub record Renders (s : UsmapStruct) (c : SdkClass) : Type 0 where
  pub name : c.name ≡ s.name
  pub super : c.super ≡ s.super_type
  pub boilerplate : c.boilerplate ≡ is_boilerplate_usmap_class s.name
  pub properties : Pairs RendersProperty s.properties c.properties

-- The structs in some order, each rendered by the class in its place, the names of the classes
-- ascending.
pub record IsSorting (structs : List UsmapStruct) (classes : List SdkClass) : Type 0 where
  pub order : List UsmapStruct
  pub perm : Permᴰ order structs
  pub rendered : Pairs Renders order classes
  pub ascending : IsChain NameLe classes

Pairs-map :
    {A B : Type 0} (R : A → B → Type 0) (f : A → B)
    → ((a : A) → R a (f a))
    → (items : List A) → Pairs R items (map f items)
Pairs-map R f h [] = none_left
Pairs-map R f h (a ∷ items) = both (h a) (Pairs-map R f h items)

class_of-Renders : (s : UsmapStruct) → Renders s (class_of s)
unfolding class_of property_of cpp_type
class_of-Renders s = record {
  name = refl;
  super = refl;
  boilerplate = refl;
  properties =
      Pairs-map RendersProperty property_of
        (λ p. record { name = refl; type = refl; cpp = refl; array_dim = refl }) s.properties;
}

text_lt-LeText : (s t : Text) → text_lt t s ≡ false → LeText s t
unfolding text_lt
text_lt-LeText [] t h = empty
text_lt-LeText (c ∷ s) [] h = absurd (ground arith)
text_lt-LeText (c ∷ s) (d ∷ t) h = elim (Bool-cases (ltb c d)) [
  | inl e ↦ less (ltb→lt c d e)
  | inr e ↦ same (ground arith) (text_lt-LeText s t (ground arith))
]

Ordered-IsChain : (classes : List SdkClass) → Ordered class_less classes → IsChain NameLe classes
Ordered-IsChain [] h = IsChain.nil
Ordered-IsChain (a ∷ []) h = IsChain.singleton a
Ordered-IsChain (a ∷ (b ∷ classes)) (h, hs) =
    IsChain.cons-cons (text_lt-LeText a.name b.name h) (Ordered-IsChain (b ∷ classes) hs)

-- The classes of a dump render the structs of the mappings, each struct once and field by field, in
-- the ascending order of their names.
pub sorted_classes-IsSorting :
    (structs : List UsmapStruct) → IsSorting structs (sorted_classes structs)
unfolding sorted_classes
sorted_classes-IsSorting structs =
    let by_name : UsmapStruct → UsmapStruct → Bool = λ s t. class_less (class_of s) (class_of t) in
    record {
      order = sort by_name structs;
      perm = sort-Permᴰ by_name structs;
      rendered =
          subst (Pairs Renders (sort by_name structs)) (sym (sort-map class_less class_of structs))
            (Pairs-map Renders class_of class_of-Renders (sort by_name structs));
      ascending =
          Ordered-IsChain (sort class_less (map class_of structs))
            (sort-Ordered class_less (λ a b. text_lt_asymm a.name b.name) (map class_of structs));
    }
