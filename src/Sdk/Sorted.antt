-- ===== src/Sdk/Sorted.antt =====
-- The order of the dump of internal/recipe/sdk.go: what sort makes of a list, and that the order in
-- which the map of an enum is iterated does not show.
use mathlib.Core.List.{Permᴰ}
use mathlib.Core.List.Permᴰ
use morgue.Common.{
  ℕ, ◌≡◌, refl, sym, ap, ap₂, subst, ◌∙◌, ◌≢◌, List, [], ◌∷◌, Bool, true, false, All, length, arith,
  map, branches, true-false,
}
use morgue.Csplit.Split.{text_lt}
use morgue.Usmap.{Text}
use morgue.Usmap.EnumNames.{Distinct}
use morgue.Sdk.Sort.{insert, sort}
use morgue.Sdk.{SdkEnumValue, enum_values, value_of, value_less}

-- Sorting the images of items is sorting the items by their images.
insert-map {ℓ κ} :
    {A : Type ℓ} {B : Type κ} (less : B → B → Bool) (f : A → B) (a : A) (items : List A)
    → insert less (f a) (map f items) ≡ map f (insert (λ x y. less (f x) (f y)) a items)
unfolding insert
insert-map less f a [] = refl
insert-map less f a (b ∷ bs) = ground (arith, insert-map less f a bs)

pub sort-map {ℓ κ} :
    {A : Type ℓ} {B : Type κ} (less : B → B → Bool) (f : A → B) (items : List A)
    → sort less (map f items) ≡ map f (sort (λ x y. less (f x) (f y)) items)
unfolding sort
sort-map less f [] = refl
sort-map less f (a ∷ items) =
    ap (insert less (f a)) (sort-map less f items)
    ∙ insert-map less f a (sort (λ x y. less (f x) (f y)) items)

module _ {ℓ} {A : Type ℓ} (less : A → A → Bool) where
  -- No item comes before the one in front of it.
  abbrev pub HeadLeast : A → List A → Type 0
  HeadLeast a [] = Unit
  HeadLeast a (b ∷ bs) = less b a ≡ false

  abbrev pub Ordered : List A → Type 0
  Ordered [] = Unit
  Ordered (a ∷ items) = HeadLeast a items × Ordered items

  insert-Permᴰ : (a : A) (items : List A) → Permᴰ (insert less a items) (a ∷ items)
  unfolding insert
  insert-Permᴰ a [] = Permᴰ.refl _
  insert-Permᴰ a (b ∷ bs) =
      branches (λ r. Permᴰ r (a ∷ (b ∷ bs))) (less b a)
        (λ h. Permᴰ.trans (Permᴰ.cons refl (insert-Permᴰ a bs)) (Permᴰ.swap refl refl))
        (λ h. Permᴰ.refl _)

  pub sort-Permᴰ : (items : List A) → Permᴰ (sort less items) items
  unfolding sort
  sort-Permᴰ [] = Permᴰ.nil
  sort-Permᴰ (a ∷ items) =
      Permᴰ.trans (insert-Permᴰ a (sort less items)) (Permᴰ.cons refl (sort-Permᴰ items))

  pub length-insert : (a : A) (items : List A) → length (insert less a items) ≡ length (a ∷ items)
  unfolding insert
  length-insert a [] = refl
  length-insert a (b ∷ bs) = ground (arith, length-insert a bs)

  pub length-sort : (items : List A) → length (sort less items) ≡ length items
  unfolding sort
  length-sort [] = refl
  length-sort (a ∷ items) =
      length-insert a (sort less items) ∙ ap (λ n. n) (omega (arith, length-sort items))

  insert-HeadLeast :
      (b a : A) (bs : List A) → less a b ≡ false → HeadLeast b bs → HeadLeast b (insert less a bs)
  unfolding insert
  insert-HeadLeast b a [] h hs = h
  insert-HeadLeast b a (c ∷ cs) h hs = branches (HeadLeast b) (less c a) (λ e. hs) (λ e. h)

  module _ (less_asymm : (a b : A) → less a b ≡ true → less b a ≡ false) where
    insert-Ordered : (a : A) (items : List A) → Ordered items → Ordered (insert less a items)
    unfolding insert
    insert-Ordered a [] h = (tt, tt)
    insert-Ordered a (b ∷ bs) (h, hs) =
        branches Ordered (less b a)
          (λ e. (insert-HeadLeast b a bs (less_asymm b a e) h, insert-Ordered a bs hs))
          (λ e. (e, (h, hs)))

    pub sort-Ordered : (items : List A) → Ordered (sort less items)
    unfolding sort
    sort-Ordered [] = tt
    sort-Ordered (a ∷ items) = insert-Ordered a (sort less items) (sort-Ordered items)

pub text_lt_asymm : (s t : Text) → text_lt s t ≡ true → text_lt t s ≡ false
unfolding text_lt
text_lt_asymm s [] h = absurd (true-false (sym h))
text_lt_asymm [] (d ∷ t) h = refl
text_lt_asymm (c ∷ s) (d ∷ t) h = ground (arith, text_lt_asymm s t)

-- Values with different keys may be inserted in either order.
insert_comm :
    (a b : SdkEnumValue) (vs : List SdkEnumValue)
    → a.value ≢ b.value
    → insert value_less a (insert value_less b vs) ≡ insert value_less b (insert value_less a vs)
unfolding insert
insert_comm a b [] h = ground arith
insert_comm a b (c ∷ cs) h = ground (arith, insert_comm a b cs h)

All-Permᴰ : (P : ℕ × Text → Type 0) {m n : List (ℕ × Text)} → Permᴰ m n → All P m → All P n
All-Permᴰ P Permᴰ.nil h = tt
All-Permᴰ P (Permᴰ.cons e p) (h, hs) = (subst P e h, All-Permᴰ P p hs)
All-Permᴰ P (Permᴰ.swap e e') (h, (h', hs)) = (subst P e' h', (subst P e h, hs))
All-Permᴰ P (Permᴰ.trans p q) h = All-Permᴰ P q (All-Permᴰ P p h)

Distinct-Permᴰ : (m n : List (ℕ × Text)) → Permᴰ m n → Distinct m → Distinct n
Distinct-Permᴰ [] [] Permᴰ.nil h = tt
Distinct-Permᴰ (a ∷ m) (b ∷ n) (Permᴰ.cons e p) (h, hs) = (
  subst (λ c. All (λ d. d.0 ≢ c.0) n) e (All-Permᴰ (λ d. d.0 ≢ a.0) p h),
  Distinct-Permᴰ m n p hs,
)
Distinct-Permᴰ (a ∷ (b ∷ l)) (b' ∷ (a' ∷ l')) (Permᴰ.swap e e') ((h, hs), (h', hs')) = (
  (
    λ eq. h (ap (λ d. d.0) e' ∙ sym eq ∙ ap (λ d. d.0) (sym e)),
    subst (λ c. All (λ d. d.0 ≢ c.0) l) e' h',
  ),
  (subst (λ c. All (λ d. d.0 ≢ c.0) l) e hs, hs'),
)
Distinct-Permᴰ m n (Permᴰ.trans {l₂ = k} p q) h = Distinct-Permᴰ k n q (Distinct-Permᴰ m k p h)

sorted_alike :
    (m n : List (ℕ × Text))
    → Permᴰ m n
    → Distinct m
    → sort value_less (map value_of m) ≡ sort value_less (map value_of n)
unfolding sort
sorted_alike [] [] Permᴰ.nil d = refl
sorted_alike (a ∷ m) (b ∷ n) (Permᴰ.cons e p) d =
    ap₂ (λ c vs. insert value_less (value_of c) vs) e (sorted_alike m n p d.1)
sorted_alike (a ∷ (b ∷ l)) (b' ∷ (a' ∷ l')) (Permᴰ.swap e e') d =
    insert_comm (value_of a) (value_of b) (sort value_less (map value_of l)) (λ eq. d.0.0 (sym eq))
    ∙ ap₂
        (λ c c'.
          insert value_less (value_of c)
            (insert value_less (value_of c') (sort value_less (map value_of l))))
        e' e
sorted_alike m n (Permᴰ.trans {l₂ = k} p q) d =
    sorted_alike m k p d ∙ sorted_alike k n q (Distinct-Permᴰ m k p d)

-- Two iterations of one map, whose values are distinct, give the same values in the same order.
pub enum_values-Permᴰ :
    (names other : List (ℕ × Text))
    → Distinct names
    → Permᴰ names other
    → enum_values names ≡ enum_values other
unfolding enum_values
enum_values-Permᴰ names other d p = sorted_alike names other p d
