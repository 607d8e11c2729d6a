-- ===== src/Engine/Quiet/Recipes.antt =====
-- The execution of a recipe only adds events.
use morgue.Common.{refl, List, [], ◌∷◌, Option, none, some, text_eq, codes, branches}
use morgue.Engine.{
  Text, Run, Recon, TargetGroup, Recipe, TargetResult, StepProgress, Options, Sent, progress, log,
  World,
}
use morgue.Engine.Execute.{
  progress_event, forward, saved, save_recon, report_outcome, remove_each, cleanup, run_recipe,
  in_output_dir, execute_recipe, final_phase, execute_recipe_with_filter,
}
use morgue.Engine.Quiet.{NotDone, Quiet, Quiet-pure, Quiet-call, Quiet-send, Quiet->>=, Quiet-if}

progress_event-NotDone : (file : Text) (p : StepProgress) → NotDone (progress_event file p)
unfolding progress_event
progress_event-NotDone file p = branches NotDone p.warned (λ _. refl) (λ _. refl)

module _ {W : Type 0} (env : World W) where
  forward-Quiet : (file tool : Text) (sent : List Sent) → Quiet (forward env file tool sent)
  unfolding forward
  forward-Quiet file tool [] = Quiet-pure tt
  forward-Quiet file tool (progress p ∷ sent) =
      Quiet->>= (Quiet-send _ (progress_event-NotDone file p)) (λ _. forward-Quiet file _ sent)
  forward-Quiet file tool (log msg ∷ sent) =
      Quiet->>= (Quiet-send _ refl) (λ _. forward-Quiet file tool sent)

  saved-Quiet : (file : Text) (e : Option Text) → Quiet (saved env file e)
  unfolding saved
  saved-Quiet file none = Quiet-pure tt
  saved-Quiet file (some e) = Quiet-send _ refl

  save_recon-Quiet : (file output : Text) (recon : Recon) → Quiet (save_recon env file output recon)
  unfolding save_recon
  save_recon-Quiet file output recon = Quiet->>= (Quiet-call _) (λ e. saved-Quiet file e)

  report_outcome-Quiet :
      (file output : Text) (e : Option Text) → Quiet (report_outcome env file output e)
  unfolding report_outcome
  report_outcome-Quiet file output (some e) = Quiet-send _ refl
  report_outcome-Quiet file output none =
      Quiet->>= (Quiet-send _ refl) (λ _. Quiet->>= (Quiet-call _) (λ stats. Quiet-send _ refl))

  remove_each-Quiet : (output : Text) (names : List Text) → Quiet (remove_each env output names)
  unfolding remove_each
  remove_each-Quiet output [] = Quiet-pure tt
  remove_each-Quiet output (name ∷ names) =
      Quiet->>= (Quiet-call _) (λ _. remove_each-Quiet output names)

  cleanup-Quiet :
      (output : Text) (names : List Text) (e : Option Text) → Quiet (cleanup env output names e)
  unfolding cleanup
  cleanup-Quiet output names (some e) = Quiet-pure tt
  cleanup-Quiet output names none = Quiet-if _ (Quiet-pure tt) (remove_each-Quiet output names)

  run_recipe-Quiet :
      (file output : Text) (opts : Options) (rec : Recipe) (recon : Recon) (filter : Text)
      → Quiet (run_recipe env file output opts rec recon filter)
  unfolding run_recipe
  run_recipe-Quiet file output opts rec recon filter =
      Quiet->>= (Quiet-call _) (λ x. Quiet->>= (forward-Quiet file [] x.0) (λ _. Quiet-pure x.1))

  in_output_dir-Quiet :
      (made : Option Text) (file : Text) (group : TargetGroup) (recon : Recon) (rec : Recipe)
      {body : Run W TargetResult}
      → Quiet body
      → Quiet (in_output_dir env made file group recon rec body)
  unfolding in_output_dir
  in_output_dir-Quiet none file group recon rec h = h
  in_output_dir-Quiet (some e) file group recon rec h =
      Quiet->>= (Quiet-send _ refl) (λ _. Quiet-pure _)

  pub execute_recipe-Quiet :
      (file : Text) (opts : Options) (rec : Recipe) (recon : Recon) (group : TargetGroup)
      → Quiet (execute_recipe env file opts rec recon group)
  unfolding execute_recipe
  execute_recipe-Quiet file opts rec recon group = Quiet->>= (Quiet-call _) (λ made.
      in_output_dir-Quiet made file group recon rec (
        Quiet->>= (run_recipe-Quiet file _ opts rec recon []) (λ e.
          Quiet->>= (save_recon-Quiet file _ recon) (λ _.
            Quiet->>= (cleanup-Quiet _ _ e)
              (λ _. Quiet->>= (report_outcome-Quiet file _ e) (λ _. Quiet-pure _))))))

  final_phase-Quiet :
      (file output : Text) (recon : Recon) (e : Option Text)
      → Quiet (final_phase env file output recon e)
  unfolding final_phase
  final_phase-Quiet file output recon e =
      Quiet->>= (save_recon-Quiet file output recon)
        (λ _. Quiet->>= (cleanup-Quiet output _ e) (λ _. report_outcome-Quiet file output e))

  pub execute_recipe_with_filter-Quiet :
      (file : Text) (opts : Options) (rec : Recipe) (recon : Recon) (group : TargetGroup)
      (filter : Text)
      → Quiet (execute_recipe_with_filter env file opts rec recon group filter)
  unfolding execute_recipe_with_filter
  execute_recipe_with_filter-Quiet file opts rec recon group filter =
      Quiet->>= (Quiet-call _) (λ made. in_output_dir-Quiet made file group recon rec (
        Quiet->>= (run_recipe-Quiet file _ opts rec recon filter) (λ e.
          Quiet->>=
            (Quiet-if (text_eq filter (codes "ghidra")) (final_phase-Quiet file _ recon e)
              (Quiet-pure tt))
            (λ _. Quiet-pure _))))
