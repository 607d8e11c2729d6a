-- ===== src/Engine/Returns/Counted.antt =====
-- The first pass of a run that is not cancelled has one outcome for every file of the scan.
use morgue.Common.{
  ℕ, suc, ◌≡◌, refl, ap, List, [], ◌∷◌, ◌++◌, Bool, not, ◌&&◌, Option, none, some, Result, ok, err,
  length, length-append, arith,
}
use morgue.SkipList.{should_skip}
use morgue.Engine.{Text, Recon, TargetGroup, Recipe, Options, World}
use morgue.Engine.Execute.{matches_exclude}
use morgue.Engine.Pipeline.{
  count_files, or_fail, check_cancelled, pause, classified, classify_target, matched,
  after_classify, select_file, analyse_file, analyse_files, analyse_groups,
}
use morgue.Engine.Returns.{
  Returns, Any, Returns-pure, Returns-call, Returns-call_with, Returns-send, Returns->>=,
  Returns-if,
}

-- A list with as many elements as another has.
abbrev pub Long : {A : Type 0} → ℕ → List A → Type 0
Long n xs = length xs ≡ n

module _ {W : Type 0} (env : World W) (uncancelled : (w : W) → (env.ctx_err w).1 ≡ none)
    (unpaused : (w : W) → (env.wait_if_paused w).1 ≡ none) where
  or_fail-Returns : (e : Option Text) → e ≡ none → Returns Any (or_fail env e)
  unfolding or_fail
  or_fail-Returns none h = Returns-pure tt tt
  or_fail-Returns (some e) h = absurd (some_none h)
    where
      some_none : some e ≡ none → ⊥
      some_none h = cc

  pub check_cancelled-Returns : Returns Any (check_cancelled env)
  unfolding check_cancelled
  check_cancelled-Returns = Returns->>= (Returns-call_with _ uncancelled) or_fail-Returns

  pub pause-Returns : (opts : Options) → Returns Any (pause env opts)
  unfolding pause
  pause-Returns opts =
      Returns-if opts.has_pause (Returns->>= (Returns-call_with _ unpaused) or_fail-Returns)
        (Returns-pure tt tt)

  classified-Returns :
      (group : TargetGroup) (file : Text) (r : Result Text Recon)
      → Returns Any (classified env group file r)
  unfolding classified
  classified-Returns group file (err e) = Returns->>= (Returns-send _) (λ _ _. Returns-pure _ tt)
  classified-Returns group file (ok recon) = Returns->>= (Returns-send _) (λ _ _. Returns-pure _ tt)

  classify_target-Returns :
      (group : TargetGroup) (file : Text) → Returns Any (classify_target env group file)
  unfolding classify_target
  classify_target-Returns group file =
      Returns->>= (Returns-send _)
        (λ _ _. Returns->>= (Returns-call _) (λ r _. classified-Returns group file r))

  matched-Returns :
      (group : TargetGroup) (file : Text) (recon : Recon) (r : Option Recipe)
      → Returns Any (matched env group file recon r)
  unfolding matched
  matched-Returns group file recon none = Returns->>= (Returns-send _) (λ _ _. Returns-pure _ tt)
  matched-Returns group file recon (some rec) =
      Returns->>= (Returns-send _) (λ _ _. Returns-pure _ tt)

  after_classify-Returns :
      (opts : Options) (group : TargetGroup) (file : Text) (r : Result Text Recon)
      → Returns Any (after_classify env opts group file r)
  unfolding after_classify
  after_classify-Returns opts group file (err e) = Returns-pure _ tt
  after_classify-Returns opts group file (ok recon) = matched-Returns group file recon _

  select_file-Returns :
      (opts : Options) (group : TargetGroup) (file : Text)
      → Returns Any (select_file env opts group file)
  unfolding select_file
  select_file-Returns opts group file =
      Returns-if (not opts.no_skip && skip.0)
        (Returns->>= (Returns-send _) (λ _ _. Returns-pure _ tt))
        (Returns-if (matches_exclude env.strings.matches (env.base file) opts.exclude)
          (Returns->>= (Returns-send _) (λ _ _. Returns-pure _ tt))
          (Returns->>= (classify_target-Returns group file)
            (λ r _. after_classify-Returns opts group file r)))
    where
      skip : Bool × Text
      skip = should_skip env.strings env.skip_list (env.base file)

  analyse_file-Returns :
      (opts : Options) (group : TargetGroup) (file : Text)
      → Returns Any (analyse_file env opts group file)
  unfolding analyse_file
  analyse_file-Returns opts group file =
      Returns->>= check_cancelled-Returns
        (λ _ _. Returns->>= (pause-Returns opts) (λ _ _. select_file-Returns opts group file))

  analyse_files-Long :
      (opts : Options) (group : TargetGroup) (files : List Text)
      → Returns (Long (length files)) (analyse_files env opts group files)
  unfolding analyse_files
  analyse_files-Long opts group [] = Returns-pure [] refl
  analyse_files-Long opts group (file ∷ files) =
      Returns->>= (analyse_file-Returns opts group file) (λ o _.
        Returns->>= (analyse_files-Long opts group files)
          (λ rest h. Returns-pure (o ∷ rest) (ap suc h)))

  pub analyse_groups-Long :
      (opts : Options) (groups : List TargetGroup)
      → Returns (Long (count_files groups)) (analyse_groups env opts groups)
  unfolding analyse_groups count_files
  analyse_groups-Long opts [] = Returns-pure [] refl
  analyse_groups-Long opts (g ∷ gs) = Returns->>= (analyse_files-Long opts g g.files) (λ os h.
      Returns->>= (analyse_groups-Long opts gs)
        (λ rest k. Returns-pure (os ++ rest) (omega (arith, h, k, length-append os rest))))
