-- ===== src/Engine/Returns/Results.antt =====
-- A run that is not cancelled has one result for every file of the scan.
use morgue.Common.{
  ℕ, suc, ◌+◌, ◌≡◌, refl, ap, List, [], ◌∷◌, ◌++◌, Option, none, some, Result, ok, err, length,
  length-append, arith,
}
use morgue.Engine.{Text, TargetGroup, TargetResult, SummaryStats, Options, World, Run}
use morgue.Engine.Summary.{add_result, add_results, no_stats, build_summary}
use morgue.Engine.Pipeline.{FileTask, Outcome, settled, planned, results_of, tasks_of, count_files}
use morgue.Engine.Passes.{
  nested_error, nested_made, too_deep, recurse, recurse_into, maybe_recurse_unpack, execute_task,
  with_tools, with_runtimes, process_task, process_tasks, report_strings, strings_phase,
  ghidra_phase, native_phases, announce_tools, run_groups,
}
use morgue.Engine.Returns.{
  Returns, Any, Returns-pure, Returns-call, Returns-send, Returns->>=, Returns-attempt, Returns-if,
}
use morgue.Engine.Returns.Recipes.{execute_recipe-Returns, execute_recipe_with_filter-Returns}
use morgue.Engine.Returns.Counted.{
  Long, check_cancelled-Returns, pause-Returns, analyse_groups-Long,
}

outcomes : (os : List Outcome) → length (results_of os) + length (tasks_of os) ≡ length os
unfolding results_of tasks_of
outcomes [] = omega arith
outcomes (settled r ∷ os) = omega (arith, outcomes os)
outcomes (planned t ∷ os) = omega (arith, outcomes os)

-- A round counts its result once, and under one of three heads.
count_one :
    (stats : SummaryStats) (r : TargetResult)
    → ((add_result stats r).total ≡ suc stats.total)
      × ((add_result stats r).skipped + (add_result stats r).failed + (add_result stats r).success
          ≡ suc (stats.skipped + stats.failed + stats.success))
unfolding add_result
count_one stats r = ground arith

count_all :
    (stats : SummaryStats) (rs : List TargetResult)
    → ((add_results stats rs).total ≡ stats.total + length rs)
      × ((add_results stats rs).skipped
            + (add_results stats rs).failed
            + (add_results stats rs).success
          ≡ stats.skipped + stats.failed + stats.success + length rs)
unfolding add_results
count_all stats [] = (omega arith, omega arith)
count_all stats (r ∷ rs) =
    let (a, b) = count_one stats r in
    let (c, d) = count_all (add_result stats r) rs in (omega (arith, a, c), omega (arith, b, d))

-- What the summary of `n` results says.
pub record Summed (n : ℕ) (results : List TargetResult) : Type 0 where
  pub results_count : length results ≡ n
  pub total : (build_summary results).0.total ≡ n
  pub parts :
      (build_summary results).0.skipped
        + (build_summary results).0.failed
        + (build_summary results).0.success
      ≡ n

summed : (n : ℕ) (results : List TargetResult) → length results ≡ n → Summed n results
unfolding build_summary
summed n results h =
    let (a, b) = count_all no_stats results in
    record { results_count = h; total = omega (arith, a, h); parts = omega (arith, b, h) }

module _ {W : Type 0} (env : World W) where
  nested_error-Returns :
      (extracted : Text) (r : Result {0, 0} Text Unit) → Returns Any (nested_error env extracted r)
  unfolding nested_error
  nested_error-Returns extracted (ok u) = Returns-pure tt tt
  nested_error-Returns extracted (err e) = Returns-send _

  nested_made-Returns :
      (opts : Options) (output : Text) (made : Option Text) (nested : Run W Unit)
      → Returns Any (nested_made env opts output made nested)
  unfolding nested_made
  nested_made-Returns opts output (some e) nested = Returns-send _
  nested_made-Returns opts output none nested =
      Returns->>= (Returns-send _)
        (λ _ _. Returns->>= (Returns-attempt nested) (λ r _. nested_error-Returns _ r))

  recurse-Returns :
      (opts : Options) (output : Text) (nested : Run W Unit)
      → Returns Any (recurse env opts output nested)
  unfolding recurse too_deep
  recurse-Returns opts output nested =
      Returns-if _ (Returns-send _)
        (Returns->>= (Returns-call _) (λ made _. nested_made-Returns opts output made nested))

  recurse_into-Returns :
      (opts : Options) (output : Text) (nested : Text → Run W Unit)
      → Returns Any (recurse_into env opts output nested)
  unfolding recurse_into
  recurse_into-Returns opts output nested = Returns->>= (Returns-call _) (λ empty _.
      Returns-if empty (Returns-pure tt tt) (recurse-Returns opts output (nested output)))

  maybe_recurse_unpack-Returns :
      (opts : Options) (tr : TargetResult) (nested : Text → Run W Unit)
      → Returns Any (maybe_recurse_unpack env opts tr nested)
  unfolding maybe_recurse_unpack
  maybe_recurse_unpack-Returns opts tr nested = Returns-if _ (Returns-pure tt tt) (
      Returns->>= (Returns-call _)
        (λ dir _. Returns-if dir (recurse_into-Returns opts tr.output nested) (Returns-pure tt tt)))

  report_strings-Returns :
      (opts : Options) (file : Text) (e : Option Text) → Returns Any (report_strings env file e)
  unfolding report_strings
  report_strings-Returns opts file none = Returns-pure tt tt
  report_strings-Returns opts file (some e) = Returns-send _

  announce_tools-Returns :
      (opts : Options) (names : List Text) → Returns Any (announce_tools env opts names)
  unfolding announce_tools
  announce_tools-Returns opts [] = Returns-pure tt tt
  announce_tools-Returns opts (n ∷ names) = Returns-send _

module _ {W : Type 0} (env : World W) (uncancelled : (w : W) → (env.ctx_err w).1 ≡ none)
    (unpaused : (w : W) → (env.wait_if_paused w).1 ≡ none) (opts : Options)
    (nested : Text → Run W Unit) where
  unpack : TargetResult → Run W Unit
  unpack tr = maybe_recurse_unpack env opts tr nested

  execute_task-Returns : (t : FileTask) → Returns Any (execute_task env opts unpack t)
  unfolding execute_task unpack
  execute_task-Returns t = Returns->>= (pause-Returns env uncancelled unpaused opts) (λ _ _.
      Returns-if _ (Returns-pure _ tt) (
        Returns->>= (execute_recipe-Returns env t.file_path opts t.recipe t.recon t.group) (λ tr _.
          Returns->>= (maybe_recurse_unpack-Returns env opts tr nested)
            (λ _ _. Returns-pure _ tt))))

  with_tools-Returns :
      (t : FileTask) (r : Result {0, 0} Text Unit) → Returns Any (with_tools env opts unpack t r)
  unfolding with_tools
  with_tools-Returns t (err e) = Returns-pure _ tt
  with_tools-Returns t (ok u) = execute_task-Returns t

  with_runtimes-Returns :
      (t : FileTask) (r : Result {0, 0} Text Unit) → Returns Any (with_runtimes env opts unpack t r)
  unfolding with_runtimes
  with_runtimes-Returns t (err e) = Returns-pure _ tt
  with_runtimes-Returns t (ok u) = Returns->>= (Returns-attempt _) (λ r _. with_tools-Returns t r)

  process_task-Returns : (t : FileTask) → Returns Any (process_task env opts unpack t)
  unfolding process_task
  process_task-Returns t = Returns->>= (check_cancelled-Returns env uncancelled unpaused) (λ _ _.
      Returns->>= (pause-Returns env uncancelled unpaused opts)
        (λ _ _. Returns->>= (Returns-attempt _) (λ r _. with_runtimes-Returns t r)))

  process_tasks-Long :
      (ts : List FileTask) → Returns (Long (length ts)) (process_tasks env opts unpack ts)
  unfolding process_tasks
  process_tasks-Long [] = Returns-pure [] refl
  process_tasks-Long (t ∷ ts) =
      Returns->>= (process_task-Returns t)
        (λ o _. Returns->>= (process_tasks-Long ts) (λ rest h. Returns-pure (o ∷ rest) (ap suc h)))

  strings_phase-Returns : (ts : List FileTask) → Returns Any (strings_phase env opts ts)
  unfolding strings_phase
  strings_phase-Returns [] = Returns-pure tt tt
  strings_phase-Returns (t ∷ ts) =
      Returns->>= (check_cancelled-Returns env uncancelled unpaused) (λ _ _.
        Returns->>= (pause-Returns env uncancelled unpaused opts) (λ _ _.
          Returns->>=
            (execute_recipe_with_filter-Returns env t.file_path opts t.recipe t.recon t.group _)
            (λ tr _.
              Returns->>= (report_strings-Returns env opts t.file_path tr.error)
                (λ _ _. strings_phase-Returns ts))))

  ghidra_phase-Long : (ts : List FileTask) → Returns (Long (length ts)) (ghidra_phase env opts ts)
  unfolding ghidra_phase
  ghidra_phase-Long [] = Returns-pure [] refl
  ghidra_phase-Long (t ∷ ts) =
      Returns->>= (check_cancelled-Returns env uncancelled unpaused) (λ _ _.
        Returns->>= (pause-Returns env uncancelled unpaused opts) (λ _ _.
          Returns->>=
            (execute_recipe_with_filter-Returns env t.file_path opts t.recipe t.recon t.group _)
            (λ tr _.
              Returns->>= (ghidra_phase-Long ts) (λ rest h. Returns-pure (tr ∷ rest) (ap suc h)))))

  native_phases-Long : (ts : List FileTask) → Returns (Long (length ts)) (native_phases env opts ts)
  unfolding native_phases
  native_phases-Long [] = Returns-pure [] refl
  native_phases-Long (t ∷ []) =
      Returns->>= (execute_recipe-Returns env t.file_path opts t.recipe t.recon t.group)
        (λ tr _. Returns-pure (tr ∷ []) refl)
  native_phases-Long (t ∷ (u ∷ ts)) =
      Returns->>= (strings_phase-Returns (t ∷ (u ∷ ts))) (λ _ _. ghidra_phase-Long (t ∷ (u ∷ ts)))

  -- If the run is not cancelled, the passes come to an end without an error, whatever the recon, the
  -- recipes, the installations and the nested runs do, with as many results as the groups have files;
  -- the summary counts all of them, each as skipped, failed or successful.
  pub run_groups-Summed :
      (groups : List TargetGroup)
      → Returns
          (Summed (count_files groups))
          (run_groups env opts (λ tr. maybe_recurse_unpack env opts tr nested) groups)
  unfolding run_groups unpack
  run_groups-Summed groups =
      Returns->>= (analyse_groups-Long env uncancelled unpaused opts groups) (λ analysed a.
        Returns->>= (announce_tools-Returns env opts _) (λ _ _.
          Returns->>= (process_tasks-Long (tasks_of analysed)) (λ processed p.
            Returns->>= (native_phases-Long (tasks_of processed)) (λ native n. Returns-pure _ (
              summed (count_files groups) _ (
                omega (
                  arith,
                  a,
                  p,
                  n,
                  outcomes analysed,
                  outcomes processed,
                  length-append (results_of analysed) (results_of processed ++ native),
                  length-append (results_of processed) native,
                )))))))
