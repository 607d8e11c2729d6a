-- ===== src/Engine/Quiet/Analysis.antt =====
-- The first pass of a run only adds events.
use morgue.Common.{refl, List, [], ◌∷◌, Bool, not, ◌&&◌, Option, none, some, Result, ok, err}
use morgue.SkipList.{should_skip}
use morgue.Engine.Execute.{matches_exclude}
use morgue.Engine.{Text, Recon, TargetGroup, Recipe, Options, World}
use morgue.Engine.Pipeline.{
  or_fail, check_cancelled, pause, warn_deep_output, classified, classify_target, matched,
  after_classify, select_file, analyse_file, analyse_files, analyse_groups,
}
use morgue.Engine.Quiet.{Quiet, Quiet-pure, Quiet-fail, Quiet-call, Quiet-send, Quiet->>=, Quiet-if}

module _ {W : Type 0} (env : World W) where
  or_fail-Quiet : (e : Option Text) → Quiet (or_fail env e)
  unfolding or_fail
  or_fail-Quiet none = Quiet-pure tt
  or_fail-Quiet (some e) = Quiet-fail e

  pub check_cancelled-Quiet : Quiet (check_cancelled env)
  unfolding check_cancelled
  check_cancelled-Quiet = Quiet->>= (Quiet-call _) or_fail-Quiet

  pub pause-Quiet : (opts : Options) → Quiet (pause env opts)
  unfolding pause
  pause-Quiet opts =
      Quiet-if opts.has_pause (Quiet->>= (Quiet-call _) or_fail-Quiet) (Quiet-pure tt)

  pub warn_deep_output-Quiet : (output : Text) → Quiet (warn_deep_output env output)
  unfolding warn_deep_output
  warn_deep_output-Quiet output = Quiet-if _ (Quiet-pure tt) (Quiet-send _ refl)

  classified-Quiet :
      (group : TargetGroup) (file : Text) (r : Result Text Recon)
      → Quiet (classified env group file r)
  unfolding classified
  classified-Quiet group file (err e) = Quiet->>= (Quiet-send _ refl) (λ _. Quiet-pure _)
  classified-Quiet group file (ok recon) = Quiet->>= (Quiet-send _ refl) (λ _. Quiet-pure _)

  classify_target-Quiet :
      (group : TargetGroup) (file : Text) → Quiet (classify_target env group file)
  unfolding classify_target
  classify_target-Quiet group file =
      Quiet->>= (Quiet-send _ refl)
        (λ _. Quiet->>= (Quiet-call _) (λ r. classified-Quiet group file r))

  matched-Quiet :
      (group : TargetGroup) (file : Text) (recon : Recon) (r : Option Recipe)
      → Quiet (matched env group file recon r)
  unfolding matched
  matched-Quiet group file recon none = Quiet->>= (Quiet-send _ refl) (λ _. Quiet-pure _)
  matched-Quiet group file recon (some rec) = Quiet->>= (Quiet-send _ refl) (λ _. Quiet-pure _)

  after_classify-Quiet :
      (opts : Options) (group : TargetGroup) (file : Text) (r : Result Text Recon)
      → Quiet (after_classify env opts group file r)
  unfolding after_classify
  after_classify-Quiet opts group file (err e) = Quiet-pure _
  after_classify-Quiet opts group file (ok recon) = matched-Quiet group file recon _

  select_file-Quiet :
      (opts : Options) (group : TargetGroup) (file : Text) → Quiet (select_file env opts group file)
  unfolding select_file
  select_file-Quiet opts group file =
      Quiet-if (not opts.no_skip && skip.0) (Quiet->>= (Quiet-send _ refl) (λ _. Quiet-pure _)) (
        Quiet-if (matches_exclude env.strings.matches (env.base file) opts.exclude)
          (Quiet->>= (Quiet-send _ refl) (λ _. Quiet-pure _))
          (Quiet->>= (classify_target-Quiet group file)
            (λ r. after_classify-Quiet opts group file r)))
    where
      skip : Bool × Text
      skip = should_skip env.strings env.skip_list (env.base file)

  analyse_file-Quiet :
      (opts : Options) (group : TargetGroup) (file : Text)
      → Quiet (analyse_file env opts group file)
  unfolding analyse_file
  analyse_file-Quiet opts group file =
      Quiet->>= check_cancelled-Quiet
        (λ _. Quiet->>= (pause-Quiet opts) (λ _. select_file-Quiet opts group file))

  analyse_files-Quiet :
      (opts : Options) (group : TargetGroup) (files : List Text)
      → Quiet (analyse_files env opts group files)
  unfolding analyse_files
  analyse_files-Quiet opts group [] = Quiet-pure []
  analyse_files-Quiet opts group (file ∷ files) =
      Quiet->>= (analyse_file-Quiet opts group file)
        (λ o. Quiet->>= (analyse_files-Quiet opts group files) (λ rest. Quiet-pure _))

  pub analyse_groups-Quiet :
      (opts : Options) (groups : List TargetGroup) → Quiet (analyse_groups env opts groups)
  unfolding analyse_groups
  analyse_groups-Quiet opts [] = Quiet-pure []
  analyse_groups-Quiet opts (g ∷ gs) =
      Quiet->>= (analyse_files-Quiet opts g g.files)
        (λ os. Quiet->>= (analyse_groups-Quiet opts gs) (λ rest. Quiet-pure _))
