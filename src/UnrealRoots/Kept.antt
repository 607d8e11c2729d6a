-- ===== src/UnrealRoots/Kept.antt =====
-- The loops of dedupeUnrealRoots of internal/scanner/grouper.go.
use morgue.Common.{
  ◌<◌, ◌≡◌, refl, sym, ap, ◌∙◌, subst, ◌⊎◌, List, [], ◌∷◌, Bool, true, false, not, Bool-cases,
  branches, inl, inr, length, if◌then◌else◌, text_eq, text_eq→eq, arith,
}
use morgue.UnrealRoots.{
  Text, Paths, path_components, has_builds_segment, is_ancestor_root, any_with, outside_builds,
  is_descendant, keep,
}
use morgue.UnrealRoots.Ancestors.{Among, here, there, is_ancestor_root-length}

module _ (paths : Paths) where
  pub not_own_ancestor : (a : Text) → is_ancestor_root paths a a ≡ false
  not_own_ancestor a = elim (Bool-cases (is_ancestor_root paths a a)) [
    | inl e ↦ absurd_length (is_ancestor_root-length paths a a e)
    | inr e ↦ e
  ]
    where
      absurd_length :
          length (path_components paths a) < length (path_components paths a)
          → is_ancestor_root paths a a ≡ false
      absurd_length less = ground (arith, less)

  -- An entry of `all` that is an ancestor of `r`.
  pub record Above (r : Text) (all : List Text) : Type 0 where
    pub other : Text
    pub among : Among other all
    pub ancestor : is_ancestor_root paths other r ≡ true

  pub is_descendant-Above :
      (r : Text) (all : List Text) → is_descendant paths r all ≡ true → Above r all
  unfolding is_descendant
  is_descendant-Above r [] h = cc
  is_descendant-Above r (o ∷ all) h =
      step (is_descendant-Above r all) (Bool-cases (text_eq o r))
        (Bool-cases (is_ancestor_root paths o r))
    where
      deeper : Above r all → Above r (o ∷ all)
      deeper u = record { other = u.other; among = there u.among; ancestor = u.ancestor }

      step :
          (is_descendant paths r all ≡ true → Above r all)
          → (text_eq o r ≡ true) ⊎ (text_eq o r ≡ false)
          → (is_ancestor_root paths o r ≡ true) ⊎ (is_ancestor_root paths o r ≡ false)
          → Above r (o ∷ all)
      step ih _ (inl g) = record { other = o; among = here refl; ancestor = g }
      step ih (inl e) (inr g) = deeper (
          ih (
            sym (
              ap
                (λ (b : Bool).
                  if b
                  then is_descendant paths r all
                  else if is_ancestor_root paths o r
                  then true
                  else is_descendant paths r all)
                e)
            ∙ h))
      step ih (inr e) (inr g) = deeper (
          ih (
            sym (
              ap
                (λ (b : Bool).
                  if b
                  then is_descendant paths r all
                  else if is_ancestor_root paths o r
                  then true
                  else is_descendant paths r all)
                e
              ∙ ap (λ (b : Bool). if b then true else is_descendant paths r all) g)
            ∙ h))

  pub is_descendant-found :
      (r o : Text) (all : List Text)
      → Among o all
      → is_ancestor_root paths o r ≡ true
      → is_descendant paths r all ≡ true
  unfolding is_descendant
  is_descendant-found r o [] m h = elim m [ ]
  is_descendant-found r o (s ∷ all) (here e) h = met (Bool-cases (text_eq s r))
    where
      found : is_ancestor_root paths s r ≡ true
      found = subst (λ a. is_ancestor_root paths a r ≡ true) (sym e) h

      met :
          (text_eq s r ≡ true) ⊎ (text_eq s r ≡ false)
          → (if text_eq s r
              then is_descendant paths r all
              else if is_ancestor_root paths s r
              then true
              else is_descendant paths r all)
            ≡ true
      met (inl g) = contradiction (
          sym (not_own_ancestor r)
          ∙ subst (λ a. is_ancestor_root paths a r ≡ true) (text_eq→eq s r g) found)
        where
          contradiction :
              false ≡ true
              → (if text_eq s r
                  then is_descendant paths r all
                  else if is_ancestor_root paths s r
                  then true
                  else is_descendant paths r all)
                ≡ true
          contradiction h = cc
      met (inr g) =
          ap
            (λ (b : Bool).
              if b
              then is_descendant paths r all
              else if is_ancestor_root paths s r
              then true
              else is_descendant paths r all)
            g
          ∙ ap (λ (b : Bool). if b then true else is_descendant paths r all) found
  is_descendant-found r o (s ∷ all) (there m) h =
      let later = is_descendant-found r o all m h in
      branches (λ (b : Bool). b ≡ true) (text_eq s r) (λ _. later)
        (λ _.
          branches (λ (b : Bool). b ≡ true) (is_ancestor_root paths s r) (λ _. refl) (λ _. later))

  pub keep-Among :
      (r : Text) (all roots : List Text)
      → Among r roots
      → is_descendant paths r all ≡ false
      → Among r (keep paths all roots)
  unfolding keep
  keep-Among r all [] m h = elim m [ ]
  keep-Among r all (s ∷ roots) (here e) h =
      subst
        (λ (b : Bool). Among r (if not b then s ∷ keep paths all roots else keep paths all roots))
        (sym (ap (λ a. is_descendant paths a all) e ∙ h)) (here e)
  keep-Among r all (s ∷ roots) (there m) h =
      let later = keep-Among r all roots m h in
      branches (Among r) (not (is_descendant paths s all)) (λ _. there later) (λ _. later)

  -- A root that rule 2 keeps.
  pub record Kept (r : Text) (all roots : List Text) : Type 0 where
    pub root_of : Among r roots
    pub topmost : is_descendant paths r all ≡ false

  pub Among-Kept :
      (r : Text) (all roots : List Text) → Among r (keep paths all roots) → Kept r all roots
  unfolding keep
  Among-Kept r all [] m = elim m [ ]
  Among-Kept r all (s ∷ roots) m =
      branches (λ kept. Among r kept → Kept r all (s ∷ roots)) (not (is_descendant paths s all))
        (λ e. first (λ m'. Among-Kept r all roots m') (is_false (is_descendant paths s all) e))
        (λ _ m'. later (Among-Kept r all roots m')) m
    where
      is_false : (b : Bool) → not b ≡ true → b ≡ false
      is_false true h = cc
      is_false false h = refl

      later : Kept r all roots → Kept r all (s ∷ roots)
      later k = record { root_of = there k.root_of; topmost = k.topmost }

      first :
          (Among r (keep paths all roots) → Kept r all roots)
          → is_descendant paths s all ≡ false
          → Among r (s ∷ keep paths all roots)
          → Kept r all (s ∷ roots)
      first ih e (here g) = record {
        root_of = here g;
        topmost = sym (ap (λ a. is_descendant paths a all) g) ∙ e;
      }
      first ih e (there m) = later (ih m)

  pub outside_builds-Among :
      (r : Text) (roots : List Text)
      → Among r (outside_builds paths roots)
      → Among r roots × (has_builds_segment paths r ≡ false)
  unfolding outside_builds
  outside_builds-Among r [] m = elim m [ ]
  outside_builds-Among r (s ∷ roots) m =
      branches (λ kept. Among r kept → Among r (s ∷ roots) × (has_builds_segment paths r ≡ false))
        (has_builds_segment paths s) (λ _ m'. later (outside_builds-Among r roots m'))
        (λ e. first (λ m'. outside_builds-Among r roots m') e) m
    where
      later :
          Among r roots × (has_builds_segment paths r ≡ false)
          → Among r (s ∷ roots) × (has_builds_segment paths r ≡ false)
      later (m, h) = (there m, h)

      first :
          (Among r (outside_builds paths roots)
            → Among r roots × (has_builds_segment paths r ≡ false))
          → has_builds_segment paths s ≡ false
          → Among r (s ∷ outside_builds paths roots)
          → Among r (s ∷ roots) × (has_builds_segment paths r ≡ false)
      first ih e (here g) = (here g, sym (ap (has_builds_segment paths) g) ∙ e)
      first ih e (there m) = later (ih m)

  pub Among-outside_builds :
      (r : Text) (roots : List Text)
      → Among r roots
      → has_builds_segment paths r ≡ false
      → Among r (outside_builds paths roots)
  unfolding outside_builds
  Among-outside_builds r [] m h = elim m [ ]
  Among-outside_builds r (s ∷ roots) (here e) h =
      subst
        (λ (b : Bool).
          Among r (if b then outside_builds paths roots else s ∷ outside_builds paths roots))
        (sym (ap (has_builds_segment paths) e ∙ h)) (here e)
  Among-outside_builds r (s ∷ roots) (there m) h =
      let later = Among-outside_builds r roots m h in
      branches (Among r) (has_builds_segment paths s) (λ _. later) (λ _. there later)

  pub any_with-found :
      (b : Bool) (o : Text) (roots : List Text)
      → Among o roots
      → has_builds_segment paths o ≡ b
      → any_with paths b roots ≡ true
  unfolding any_with
  any_with-found b o [] m h = elim m [ ]
  any_with-found b o (s ∷ roots) (here e) h = hit b (ap (has_builds_segment paths) e ∙ h)
    where
      hit :
          (b : Bool)
          → has_builds_segment paths s ≡ b
          → (if (if b then has_builds_segment paths s else not (has_builds_segment paths s))
              then true
              else any_with paths b roots)
            ≡ true
      hit true g = ap (λ (c : Bool). if c then true else any_with paths true roots) g
      hit false g = ap (λ (c : Bool). if not c then true else any_with paths false roots) g
  any_with-found b o (s ∷ roots) (there m) h =
      let later = any_with-found b o roots m h in
      branches (λ (c : Bool). c ≡ true)
        (if b then has_builds_segment paths s else not (has_builds_segment paths s)) (λ _. refl)
        (λ _. later)

  -- A root that is not under a Builds segment.
  pub record Outside (roots : List Text) : Type 0 where
    pub root : Text
    pub among : Among root roots
    pub outside : has_builds_segment paths root ≡ false

  pub any_with-Outside : (roots : List Text) → any_with paths false roots ≡ true → Outside roots
  unfolding any_with
  any_with-Outside [] h = cc
  any_with-Outside (s ∷ roots) h =
      step (λ g. any_with-Outside roots g) (Bool-cases (has_builds_segment paths s))
    where
      step :
          (any_with paths false roots ≡ true → Outside roots)
          → (has_builds_segment paths s ≡ true) ⊎ (has_builds_segment paths s ≡ false)
          → Outside (s ∷ roots)
      step ih (inr e) = record { root = s; among = here refl; outside = e }
      step ih (inl e) =
          let o =
            ih
              (sym (ap (λ (c : Bool). if not c then true else any_with paths false roots) e) ∙ h) in
          record { root = o.root; among = there o.among; outside = o.outside }
