-- ===== src/UnrealRoots/Laws.antt =====
-- Which roots dedupeUnrealRoots of internal/scanner/grouper.go keeps.
use morgue.Common.{
  ℕ, zero, suc, ◌+◌, ◌<◌, ◌≡◌, refl, sym, ap, ap₂, ◌∙◌, subst, ◌⊎◌, List, [], ◌∷◌, Bool, true,
  false, ◌&&◌, Bool-cases, branches, inl, inr, length, leb, arith,
}
use morgue.UnrealRoots.{
  Text, Paths, path_components, has_builds_segment, is_ancestor_root, any_with, outside_builds,
  is_descendant, keep, after_builds, dedupe_unreal_roots,
}
use morgue.UnrealRoots.Ancestors.{
  IsFold, Among, here, there, is_ancestor_root-length, is_ancestor_root_transitive,
}
use morgue.UnrealRoots.Kept.{
  not_own_ancestor, Above, is_descendant-Above, is_descendant-found, keep-Among, Kept, Among-Kept,
  outside_builds-Among, Among-outside_builds, any_with-found, Outside, any_with-Outside,
}

-- The root `r` or an ancestor of it is kept.
pub record IsCovered (paths : Paths) (kept : List Text) (r : Text) : Type 0 where
  pub root : Text
  pub is_kept : Among root kept
  pub above : (root ≡ r) ⊎ (is_ancestor_root paths root r ≡ true)

pub record IsDeduped (paths : Paths) (roots kept : List Text) : Type 0 where
  pub from_roots : (r : Text) → Among r kept → Among r roots
  pub independent : (a r : Text) → Among a kept → Among r kept → is_ancestor_root paths a r ≡ false
  pub no_server_builds :
      (o r : Text)
      → Among o roots
      → has_builds_segment paths o ≡ false
      → Among r kept
      → has_builds_segment paths r ≡ false
  pub covering :
      (r : Text)
      → Among r roots
      → (has_builds_segment paths r ≡ false)
        ⊎ ((o : Text) → Among o roots → has_builds_segment paths o ≡ true)
      → IsCovered paths kept r

module _ (paths : Paths) (fold : IsFold paths) where
  covered :
      (n : ℕ) (r : Text) (all : List Text)
      → Among r all
      → length (path_components paths r) < n
      → IsCovered paths (keep paths all all) r
  covered zero r all m less = ground (arith, less)
  covered (suc n) r all m less = elim (Bool-cases (is_descendant paths r all)) [
    | inr e ↦ record { root = r; is_kept = keep-Among paths r all all m e; above = inl refl }
    | inl e ↦ through (is_descendant-Above paths r all e) (λ o m' less'. covered n o all m' less')
  ]
    where
      through :
          (u : Above paths r all)
          → ((o : Text)
              → Among o all
              → length (path_components paths o) < n
              → IsCovered paths (keep paths all all) o)
          → IsCovered paths (keep paths all all) r
      through u ih =
          let c =
            ih u.other u.among
              (omega (arith, less, is_ancestor_root-length paths u.other r u.ancestor)) in
          record { root = c.root; is_kept = c.is_kept; above = inr (up c.root u c.above) }
        where
          up :
              (root : Text) (u : Above paths r all)
              → (root ≡ u.other) ⊎ (is_ancestor_root paths root u.other ≡ true)
              → is_ancestor_root paths root r ≡ true
          up root u (inl e) = ap (λ a. is_ancestor_root paths a r) e ∙ u.ancestor
          up root u (inr h) = is_ancestor_root_transitive paths fold root u.other r h u.ancestor

  single-IsDeduped : (roots : List Text) → leb (length roots) 1 ≡ true → IsDeduped paths roots roots
  single-IsDeduped [] h = record {
    from_roots = λ r m. m;
    independent = λ a r m. elim m [ ];
    no_server_builds = λ o r m. elim m [ ];
    covering = λ r m. elim m [ ];
  }
  single-IsDeduped (s ∷ []) h = record {
    from_roots = λ r m. m;
    independent = λ a r m m'.
        ap₂ (is_ancestor_root paths) (sym (only a m)) (sym (only r m')) ∙ not_own_ancestor paths s;
    no_server_builds = λ o r m g m'. ap (has_builds_segment paths) (sym (only r m') ∙ only o m) ∙ g;
    covering = λ r m _. record { root = r; is_kept = m; above = inl refl };
  }
    where
      only : (a : Text) → Among a (s ∷ []) → s ≡ a
      only a (here e) = e
      only a (there m) = elim m [ ]
  single-IsDeduped (s ∷ (t ∷ roots)) h = ground (arith, h)

  -- After rule 1, the roots of `all` are among `roots`, those of `roots` that are to be covered are in
  -- `all`, and one root outside of Builds leaves only such roots.
  record IsOutside (roots all : List Text) : Type 0 where
    from_roots : (r : Text) → Among r all → Among r roots
    no_server_builds :
        (o r : Text)
        → Among o roots
        → has_builds_segment paths o ≡ false
        → Among r all
        → has_builds_segment paths r ≡ false
    covering :
        (r : Text)
        → Among r roots
        → (has_builds_segment paths r ≡ false)
          ⊎ ((o : Text) → Among o roots → has_builds_segment paths o ≡ true)
        → Among r all

  after_builds-IsOutside : (roots : List Text) → IsOutside roots (after_builds paths roots)
  unfolding after_builds
  after_builds-IsOutside roots =
      branches (IsOutside roots) (any_with paths true roots && any_with paths false roots)
        (λ e. record {
          from_roots = λ r m. (outside_builds-Among paths r roots m).0;
          no_server_builds = λ o r _ _ m. (outside_builds-Among paths r roots m).1;
          covering = λ r m.
              some_outside r m
                (any_with-Outside paths roots (second (any_with paths true roots) e));
        })
        (λ e. record {
          from_roots = λ r m. m;
          no_server_builds = λ o r m g m'.
              no_builds r m'
                (subst (λ b. (any_with paths true roots && b) ≡ false)
                  (any_with-found paths false o roots m g) e)
                (Bool-cases (has_builds_segment paths r));
          covering = λ r m _. m;
        })
    where
      second : (b : Bool) {c : Bool} → (b && c) ≡ true → c ≡ true
      second true h = h
      second false h = cc

      some_outside :
          (r : Text)
          → Among r roots
          → Outside paths roots
          → (has_builds_segment paths r ≡ false)
            ⊎ ((o : Text) → Among o roots → has_builds_segment paths o ≡ true)
          → Among r (outside_builds paths roots)
      some_outside r m o (inl h) = Among-outside_builds paths r roots m h
      some_outside r m o (inr h) = contradiction (sym (h o.root o.among) ∙ o.outside)
        where
          contradiction : true ≡ false → Among r (outside_builds paths roots)
          contradiction h = cc

      no_builds :
          (r : Text)
          → Among r roots
          → (any_with paths true roots && true) ≡ false
          → (has_builds_segment paths r ≡ true) ⊎ (has_builds_segment paths r ≡ false)
          → has_builds_segment paths r ≡ false
      no_builds r m h (inr g) = g
      no_builds r m h (inl g) =
          contradiction
            (sym (subst (λ b. (b && true) ≡ false) (any_with-found paths true r roots m g) h))
        where
          contradiction : false ≡ true → has_builds_segment paths r ≡ false
          contradiction h = cc

  kept-IsDeduped :
      (roots all : List Text) → IsOutside roots all → IsDeduped paths roots (keep paths all all)
  kept-IsDeduped roots all v = record {
    from_roots = λ r m. v.from_roots r (Among-Kept paths r all all m).root_of;
    independent = λ a r m m'.
        apart a r (Among-Kept paths a all all m) (Among-Kept paths r all all m')
          (Bool-cases (is_ancestor_root paths a r));
    no_server_builds =
        λ o r m g m'. v.no_server_builds o r m g (Among-Kept paths r all all m').root_of;
    covering = λ r m g.
        covered (length (path_components paths r) + 1) r all (v.covering r m g) (omega arith);
  }
    where
      apart :
          (a r : Text)
          → Kept paths a all all
          → Kept paths r all all
          → (is_ancestor_root paths a r ≡ true) ⊎ (is_ancestor_root paths a r ≡ false)
          → is_ancestor_root paths a r ≡ false
      apart a r k k' (inr e) = e
      apart a r k k' (inl e) =
          contradiction (sym (is_descendant-found paths r a all k.root_of e) ∙ k'.topmost)
        where
          contradiction : true ≡ false → is_ancestor_root paths a r ≡ false
          contradiction h = cc

  -- `dedupeUnrealRoots` keeps roots of its list such that none is an ancestor of another; if some root is
  -- not under a Builds segment, none that is kept is; and every root that is not under one, or any root
  -- where all are, is kept or has an ancestor that is. strings.EqualFold is taken to be transitive.
  pub dedupe_unreal_roots-IsDeduped :
      (roots : List Text) → IsDeduped paths roots (dedupe_unreal_roots paths roots)
  unfolding dedupe_unreal_roots
  dedupe_unreal_roots-IsDeduped roots =
      branches (IsDeduped paths roots) (leb (length roots) 1) (λ e. single-IsDeduped roots e)
        (λ _. kept-IsDeduped roots (after_builds paths roots) (after_builds-IsOutside roots))
