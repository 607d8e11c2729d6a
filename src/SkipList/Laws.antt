-- ===== src/SkipList/Laws.antt =====
-- When internal/skiplist/skiplist.go skips a file.
use morgue.Common.{
  ◌≡◌, refl, sym, ap, ◌∙◌, subst, inl, inr, ◌⊎◌, List, [], ◌∷◌, Bool, true, false, not, Bool-cases,
  branches, if◌then◌else◌, codes,
}
use morgue.SkipList.{
  Text, Strings, SkipList, has_key, is_on, any_matches, skip_category, should_skip,
}

module _ (strings : Strings) where
  -- Some pattern of the list matches, in lower case.
  pub data Matching (lower : Text) : List Text → Type 0 where
    this_one :
        {p : Text} {ps : List Text}
        → strings.matches (strings.to_lower p) lower ≡ true
        → Matching lower (p ∷ ps)
    a_later_one : {p : Text} {ps : List Text} → Matching lower ps → Matching lower (p ∷ ps)

  -- A category `cat` of the table is on and has a pattern that matches.
  pub data Builtin (categories : List (Text × Bool)) (lower cat : Text)
      : List (Text × List Text) → Type 0 where
    this_category :
        {ps : List Text} {rest : List (Text × List Text)}
        → is_on cat categories ≡ true
        → Matching lower ps
        → Builtin categories lower cat ((cat, ps) ∷ rest)
    a_later_category :
        {c : Text × List Text} {rest : List (Text × List Text)}
        → Builtin categories lower cat rest
        → Builtin categories lower cat (c ∷ rest)

  -- Why a file is skipped under a category.
  pub record Reason (sl : SkipList) (filename category : Text) : Type 0 where
    pub not_included : has_key (strings.to_lower filename) sl.custom_include ≡ false
    pub why :
        ((category ≡ codes "custom") × (has_key (strings.to_lower filename) sl.custom_skip ≡ true))
        ⊎ ((sl.enabled ≡ true)
            × Builtin sl.categories (strings.to_lower filename) category sl.patterns)

  any_matches-Matching :
      (ps : List Text) (lower : Text) → any_matches strings ps lower ≡ true → Matching lower ps
  unfolding any_matches
  any_matches-Matching [] lower h = cc
  any_matches-Matching (p ∷ ps) lower h =
      elim (Bool-cases (strings.matches (strings.to_lower p) lower)) [
        | inl e ↦ this_one e
        | inr e ↦ a_later_one (
            any_matches-Matching ps lower
              (sym (ap (λ (b : Bool). if b then true else any_matches strings ps lower) e) ∙ h))
      ]

  Matching-any_matches :
      (ps : List Text) (lower : Text) → Matching lower ps → any_matches strings ps lower ≡ true
  unfolding any_matches
  Matching-any_matches [] lower h = elim h [ ]
  Matching-any_matches (p ∷ ps) lower (this_one e) =
      ap (λ (b : Bool). if b then true else any_matches strings ps lower) e
  Matching-any_matches (p ∷ ps) lower (a_later_one h) =
      branches (λ (b : Bool). b ≡ true) (strings.matches (strings.to_lower p) lower) (λ _. refl)
        (λ _. Matching-any_matches ps lower h)

  -- The outcome `x` of the loop has a reason, if it is to skip.
  abbrev Justified : List (Text × Bool) → List (Text × List Text) → Text → Bool × Text → Type 0
  Justified categories patterns lower x = x.0 ≡ true → Builtin categories lower x.1 patterns

  skip_category-Justified :
      (categories : List (Text × Bool)) (patterns : List (Text × List Text)) (lower : Text)
      → Justified categories patterns lower (skip_category strings categories patterns lower)
  unfolding skip_category
  skip_category-Justified categories [] lower = λ h. cc
  skip_category-Justified categories ((cat, ps) ∷ rest) lower =
      let later : Justified categories ((cat, ps) ∷ rest) lower
          (skip_category strings categories rest lower) =
        λ h. a_later_category (skip_category-Justified categories rest lower h) in
      branches (Justified categories ((cat, ps) ∷ rest) lower) (not (is_on cat categories))
        (λ _. later)
        (λ on.
          branches (Justified categories ((cat, ps) ∷ rest) lower) (any_matches strings ps lower)
            (λ e _.
              this_category (not_false (is_on cat categories) on) (any_matches-Matching ps lower e))
            (λ _. later))
    where
      not_false : (b : Bool) → not b ≡ false → b ≡ true
      not_false true h = refl
      not_false false h = cc

  Builtin-skip_category :
      (categories : List (Text × Bool)) (patterns : List (Text × List Text)) (lower cat : Text)
      → Builtin categories lower cat patterns
      → (skip_category strings categories patterns lower).0 ≡ true
  unfolding skip_category
  Builtin-skip_category categories [] lower cat h = elim h [ ]
  Builtin-skip_category categories ((c, ps) ∷ rest) lower cat (this_category on h) =
      ap
        (λ (b : Bool).
          (if not b
            then skip_category strings categories rest lower
            else if any_matches strings ps lower
            then (true, c)
            else skip_category strings categories rest lower).0)
        on
      ∙ ap (λ (b : Bool). (if b then (true, c) else skip_category strings categories rest lower).0)
          (Matching-any_matches ps lower h)
  Builtin-skip_category categories ((c, ps) ∷ rest) lower cat (a_later_category h) =
      let later = Builtin-skip_category categories rest lower cat h in
      branches (λ (x : Bool × Text). x.0 ≡ true) (not (is_on c categories)) (λ _. later)
        (λ _.
          branches (λ (x : Bool × Text). x.0 ≡ true) (any_matches strings ps lower) (λ _. refl)
            (λ _. later))

  -- A file that is skipped has a reason of the category that is returned; and a file with a reason
  -- of any category is skipped. A reason is that the file is not force-included, and is in the
  -- custom list, or the built-in patterns are switched on and a category that is on has a pattern
  -- that matches.
  pub should_skip-Reason :
      (sl : SkipList) (filename : Text)
      → ((should_skip strings sl filename).0 ≡ true
          → Reason sl filename (should_skip strings sl filename).1)
        × ((category : Text)
            → Reason sl filename category
            → (should_skip strings sl filename).0 ≡ true)
  unfolding should_skip
  should_skip-Reason sl filename = (
    branches (λ (x : Bool × Text). x.0 ≡ true → Reason sl filename x.1)
        (has_key lower sl.custom_include) (λ _ h. cc)
        (λ out.
          branches (λ (x : Bool × Text). x.0 ≡ true → Reason sl filename x.1)
            (has_key lower sl.custom_skip)
            (λ e _. record { not_included = out; why = inl (refl, e) })
            (λ _.
              branches (λ (x : Bool × Text). x.0 ≡ true → Reason sl filename x.1) (not sl.enabled)
                (λ _ h. cc)
                (λ on h. record {
                  not_included = out;
                  why = inr (
                    switched (sl.enabled) on,
                    skip_category-Justified sl.categories sl.patterns lower h,
                  );
                }))),
    λ category reason.
        subst (λ (b : Bool). (if b then (false, []) else rest).0 ≡ true) (sym reason.not_included)
          (skipped reason.why),
  )
    where
      lower : Text
      lower = strings.to_lower filename

      last : Bool × Text
      last = skip_category strings sl.categories sl.patterns lower

      rest : Bool × Text
      rest =
          if has_key lower sl.custom_skip
          then (true, codes "custom")
          else if not sl.enabled
          then (false, [])
          else last

      switched : (b : Bool) → not b ≡ false → b ≡ true
      switched true h = refl
      switched false h = cc

      skipped :
          {category : Text}
          → ((category ≡ codes "custom") × (has_key lower sl.custom_skip ≡ true))
            ⊎ ((sl.enabled ≡ true) × Builtin sl.categories lower category sl.patterns)
          → rest.0 ≡ true
      skipped (inl (_, e)) =
          ap
            (λ (b : Bool).
              (if b
                then (true, codes "custom")
                else if not sl.enabled
                then (false, [])
                else last).0)
            e
      skipped {category} (inr (on, h)) =
          branches (λ (x : Bool × Text). x.0 ≡ true) (has_key lower sl.custom_skip) (λ _. refl)
            (λ _.
              ap (λ (b : Bool). (if not b then (false, []) else last).0) on
              ∙ Builtin-skip_category sl.categories sl.patterns lower category h)
