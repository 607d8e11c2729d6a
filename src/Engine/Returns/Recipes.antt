-- ===== src/Engine/Returns/Recipes.antt =====
-- The execution of a recipe returns a result.
use morgue.Common.{List, [], ◌∷◌, Option, none, some, text_eq, codes}
use morgue.Engine.{
  Text, Run, Recon, TargetGroup, Recipe, TargetResult, Options, Sent, progress, log, World,
}
use morgue.Engine.Execute.{
  forward, saved, save_recon, report_outcome, remove_each, cleanup, run_recipe, in_output_dir,
  execute_recipe, final_phase, execute_recipe_with_filter,
}
use morgue.Engine.Returns.{
  Returns, Any, Returns-pure, Returns-call, Returns-send, Returns->>=, Returns-if,
}

module _ {W : Type 0} (env : World W) where
  forward-Returns : (file tool : Text) (sent : List Sent) → Returns Any (forward env file tool sent)
  unfolding forward
  forward-Returns file tool [] = Returns-pure tt tt
  forward-Returns file tool (progress p ∷ sent) =
      Returns->>= (Returns-send _) (λ _ _. forward-Returns file _ sent)
  forward-Returns file tool (log msg ∷ sent) =
      Returns->>= (Returns-send _) (λ _ _. forward-Returns file tool sent)

  saved-Returns : (file : Text) (e : Option Text) → Returns Any (saved env file e)
  unfolding saved
  saved-Returns file none = Returns-pure tt tt
  saved-Returns file (some e) = Returns-send _

  save_recon-Returns :
      (file output : Text) (recon : Recon) → Returns Any (save_recon env file output recon)
  unfolding save_recon
  save_recon-Returns file output recon = Returns->>= (Returns-call _) (λ e _. saved-Returns file e)

  report_outcome-Returns :
      (file output : Text) (e : Option Text) → Returns Any (report_outcome env file output e)
  unfolding report_outcome
  report_outcome-Returns file output (some e) = Returns-send _
  report_outcome-Returns file output none =
      Returns->>= (Returns-send _) (λ _ _. Returns->>= (Returns-call _) (λ stats _. Returns-send _))

  remove_each-Returns :
      (output : Text) (names : List Text) → Returns Any (remove_each env output names)
  unfolding remove_each
  remove_each-Returns output [] = Returns-pure tt tt
  remove_each-Returns output (name ∷ names) =
      Returns->>= (Returns-call _) (λ _ _. remove_each-Returns output names)

  cleanup-Returns :
      (output : Text) (names : List Text) (e : Option Text)
      → Returns Any (cleanup env output names e)
  unfolding cleanup
  cleanup-Returns output names (some e) = Returns-pure tt tt
  cleanup-Returns output names none =
      Returns-if _ (Returns-pure tt tt) (remove_each-Returns output names)

  run_recipe-Returns :
      (file output : Text) (opts : Options) (rec : Recipe) (recon : Recon) (filter : Text)
      → Returns Any (run_recipe env file output opts rec recon filter)
  unfolding run_recipe
  run_recipe-Returns file output opts rec recon filter =
      Returns->>= (Returns-call _)
        (λ x _. Returns->>= (forward-Returns file [] x.0) (λ _ _. Returns-pure x.1 tt))

  in_output_dir-Returns :
      (made : Option Text) (file : Text) (group : TargetGroup) (recon : Recon) (rec : Recipe)
      {body : Run W TargetResult}
      → Returns Any body
      → Returns Any (in_output_dir env made file group recon rec body)
  unfolding in_output_dir
  in_output_dir-Returns none file group recon rec h = h
  in_output_dir-Returns (some e) file group recon rec h =
      Returns->>= (Returns-send _) (λ _ _. Returns-pure _ tt)

  pub execute_recipe-Returns :
      (file : Text) (opts : Options) (rec : Recipe) (recon : Recon) (group : TargetGroup)
      → Returns Any (execute_recipe env file opts rec recon group)
  unfolding execute_recipe
  execute_recipe-Returns file opts rec recon group = Returns->>= (Returns-call _) (λ made _.
      in_output_dir-Returns made file group recon rec (
        Returns->>= (run_recipe-Returns file _ opts rec recon []) (λ e _.
          Returns->>= (save_recon-Returns file _ recon) (λ _ _.
            Returns->>= (cleanup-Returns _ _ e)
              (λ _ _. Returns->>= (report_outcome-Returns file _ e) (λ _ _. Returns-pure _ tt))))))

  final_phase-Returns :
      (file output : Text) (recon : Recon) (e : Option Text)
      → Returns Any (final_phase env file output recon e)
  unfolding final_phase
  final_phase-Returns file output recon e =
      Returns->>= (save_recon-Returns file output recon) (λ _ _.
        Returns->>= (cleanup-Returns output _ e) (λ _ _. report_outcome-Returns file output e))

  pub execute_recipe_with_filter-Returns :
      (file : Text) (opts : Options) (rec : Recipe) (recon : Recon) (group : TargetGroup)
      (filter : Text)
      → Returns Any (execute_recipe_with_filter env file opts rec recon group filter)
  unfolding execute_recipe_with_filter
  execute_recipe_with_filter-Returns file opts rec recon group filter =
      Returns->>= (Returns-call _) (λ made _. in_output_dir-Returns made file group recon rec (
        Returns->>= (run_recipe-Returns file _ opts rec recon filter) (λ e _.
          Returns->>=
            (Returns-if (text_eq filter (codes "ghidra")) (final_phase-Returns file _ recon e)
              (Returns-pure tt tt))
            (λ _ _. Returns-pure _ tt))))
