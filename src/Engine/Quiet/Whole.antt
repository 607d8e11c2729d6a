-- ===== src/Engine/Quiet/Whole.antt =====
-- The second pass, the native phases and the body of a run only add events.
use morgue.Common.{refl, List, [], ◌∷◌, Option, none, some, Result, ok, err}
use morgue.Engine.{Text, TargetGroup, TargetResult, Options, World, Run}
use morgue.Engine.Pipeline.{FileTask}
use morgue.Engine.Passes.{
  nested_error, nested_made, too_deep, recurse, recurse_into, maybe_recurse_unpack, execute_task,
  with_tools, with_runtimes, process_task, process_tasks, report_strings, strings_phase,
  ghidra_phase, native_phases, announce_tools, run_groups, summary_written, save_summary, scanned,
  run_body,
}
use morgue.Engine.Quiet.{
  Quiet, Quiet-pure, Quiet-fail, Quiet-call, Quiet-send, Quiet->>=, Quiet-attempt, Quiet-if,
}
use morgue.Engine.Quiet.Tooling.{ensure_runtime_deps-Quiet, ensure_tools-Quiet}
use morgue.Engine.Quiet.Recipes.{execute_recipe-Quiet, execute_recipe_with_filter-Quiet}
use morgue.Engine.Quiet.Analysis.{
  check_cancelled-Quiet, pause-Quiet, warn_deep_output-Quiet, analyse_groups-Quiet,
}

module _ {W : Type 0} (env : World W) where
  nested_error-Quiet :
      (extracted : Text) (r : Result {0, 0} Text Unit) → Quiet (nested_error env extracted r)
  unfolding nested_error
  nested_error-Quiet extracted (ok u) = Quiet-pure tt
  nested_error-Quiet extracted (err e) = Quiet-send _ refl

  nested_made-Quiet :
      (opts : Options) (output : Text) (made : Option Text) {nested : Run W Unit}
      → Quiet nested
      → Quiet (nested_made env opts output made nested)
  unfolding nested_made
  nested_made-Quiet opts output (some e) h = Quiet-send _ refl
  nested_made-Quiet opts output none h =
      Quiet->>= (Quiet-send _ refl) (λ _. Quiet->>= (Quiet-attempt h) (λ r. nested_error-Quiet _ r))

  recurse-Quiet :
      (opts : Options) (output : Text) {nested : Run W Unit}
      → Quiet nested
      → Quiet (recurse env opts output nested)
  unfolding recurse too_deep
  recurse-Quiet opts output h =
      Quiet-if _ (Quiet-send _ refl)
        (Quiet->>= (Quiet-call _) (λ made. nested_made-Quiet opts output made h))

  recurse_into-Quiet :
      (opts : Options) (output : Text) (nested : Text → Run W Unit)
      → ((o : Text) → Quiet (nested o))
      → Quiet (recurse_into env opts output nested)
  unfolding recurse_into
  recurse_into-Quiet opts output nested h =
      Quiet->>= (Quiet-call _)
        (λ empty. Quiet-if empty (Quiet-pure tt) (recurse-Quiet opts output (h output)))

  pub maybe_recurse_unpack-Quiet :
      (opts : Options) (tr : TargetResult) (nested : Text → Run W Unit)
      → ((o : Text) → Quiet (nested o))
      → Quiet (maybe_recurse_unpack env opts tr nested)
  unfolding maybe_recurse_unpack
  maybe_recurse_unpack-Quiet opts tr nested h = Quiet-if _ (Quiet-pure tt) (
      Quiet->>= (Quiet-call _)
        (λ dir. Quiet-if dir (recurse_into-Quiet opts tr.output nested h) (Quiet-pure tt)))

  module _ (opts : Options) (unpack : TargetResult → Run W Unit)
      (h : (tr : TargetResult) → Quiet (unpack tr)) where
    execute_task-Quiet : (t : FileTask) → Quiet (execute_task env opts unpack t)
    unfolding execute_task
    execute_task-Quiet t = Quiet->>= (pause-Quiet env opts) (λ _. Quiet-if _ (Quiet-pure _) (
        Quiet->>= (execute_recipe-Quiet env t.file_path opts t.recipe t.recon t.group)
          (λ tr. Quiet->>= (h tr) (λ _. Quiet-pure _))))

    with_tools-Quiet :
        (t : FileTask) (r : Result {0, 0} Text Unit) → Quiet (with_tools env opts unpack t r)
    unfolding with_tools
    with_tools-Quiet t (err e) = Quiet-pure _
    with_tools-Quiet t (ok u) = execute_task-Quiet t

    with_runtimes-Quiet :
        (t : FileTask) (r : Result {0, 0} Text Unit) → Quiet (with_runtimes env opts unpack t r)
    unfolding with_runtimes
    with_runtimes-Quiet t (err e) = Quiet-pure _
    with_runtimes-Quiet t (ok u) =
        Quiet->>= (Quiet-attempt (ensure_tools-Quiet env t.file_path t.recipe _))
          (λ r. with_tools-Quiet t r)

    process_task-Quiet : (t : FileTask) → Quiet (process_task env opts unpack t)
    unfolding process_task
    process_task-Quiet t = Quiet->>= (check_cancelled-Quiet env) (λ _.
        Quiet->>= (pause-Quiet env opts) (λ _.
          Quiet->>= (Quiet-attempt (ensure_runtime_deps-Quiet env t.file_path t.recipe _))
            (λ r. with_runtimes-Quiet t r)))

    process_tasks-Quiet : (ts : List FileTask) → Quiet (process_tasks env opts unpack ts)
    unfolding process_tasks
    process_tasks-Quiet [] = Quiet-pure []
    process_tasks-Quiet (t ∷ ts) =
        Quiet->>= (process_task-Quiet t)
          (λ o. Quiet->>= (process_tasks-Quiet ts) (λ rest. Quiet-pure _))

    report_strings-Quiet : (file : Text) (e : Option Text) → Quiet (report_strings env file e)
    unfolding report_strings
    report_strings-Quiet file none = Quiet-pure tt
    report_strings-Quiet file (some e) = Quiet-send _ refl

    strings_phase-Quiet : (ts : List FileTask) → Quiet (strings_phase env opts ts)
    unfolding strings_phase
    strings_phase-Quiet [] = Quiet-pure tt
    strings_phase-Quiet (t ∷ ts) = Quiet->>= (check_cancelled-Quiet env) (λ _.
        Quiet->>= (pause-Quiet env opts) (λ _.
          Quiet->>=
            (execute_recipe_with_filter-Quiet env t.file_path opts t.recipe t.recon t.group _)
            (λ tr.
              Quiet->>= (report_strings-Quiet t.file_path tr.error) (λ _. strings_phase-Quiet ts))))

    ghidra_phase-Quiet : (ts : List FileTask) → Quiet (ghidra_phase env opts ts)
    unfolding ghidra_phase
    ghidra_phase-Quiet [] = Quiet-pure []
    ghidra_phase-Quiet (t ∷ ts) = Quiet->>= (check_cancelled-Quiet env) (λ _.
        Quiet->>= (pause-Quiet env opts) (λ _.
          Quiet->>=
            (execute_recipe_with_filter-Quiet env t.file_path opts t.recipe t.recon t.group _)
            (λ tr. Quiet->>= (ghidra_phase-Quiet ts) (λ rest. Quiet-pure _))))

    native_phases-Quiet : (ts : List FileTask) → Quiet (native_phases env opts ts)
    unfolding native_phases
    native_phases-Quiet [] = Quiet-pure []
    native_phases-Quiet (t ∷ []) =
        Quiet->>= (execute_recipe-Quiet env t.file_path opts t.recipe t.recon t.group)
          (λ tr. Quiet-pure _)
    native_phases-Quiet (t ∷ (u ∷ ts)) =
        Quiet->>= (strings_phase-Quiet (t ∷ (u ∷ ts))) (λ _. ghidra_phase-Quiet (t ∷ (u ∷ ts)))

    announce_tools-Quiet : (names : List Text) → Quiet (announce_tools env opts names)
    unfolding announce_tools
    announce_tools-Quiet [] = Quiet-pure tt
    announce_tools-Quiet (n ∷ names) = Quiet-send _ refl

    run_groups-Quiet : (groups : List TargetGroup) → Quiet (run_groups env opts unpack groups)
    unfolding run_groups
    run_groups-Quiet groups = Quiet->>= (analyse_groups-Quiet env opts groups) (λ analysed.
        Quiet->>= (announce_tools-Quiet _) (λ _.
          Quiet->>= (process_tasks-Quiet _)
            (λ processed. Quiet->>= (native_phases-Quiet _) (λ native. Quiet-pure _))))

    summary_written-Quiet : (e : Option Text) → Quiet (summary_written env opts e)
    unfolding summary_written
    summary_written-Quiet none = Quiet-pure tt
    summary_written-Quiet (some e) = Quiet-send _ refl

    save_summary-Quiet : (results : List TargetResult) → Quiet (save_summary env opts results)
    unfolding save_summary
    save_summary-Quiet results = Quiet->>= (Quiet-call _) summary_written-Quiet

    scanned-Quiet : (r : Result Text (List TargetGroup)) → Quiet (scanned env opts unpack r)
    unfolding scanned
    scanned-Quiet (err e) = Quiet->>= (Quiet-send _ refl) (λ _. Quiet-fail _)
    scanned-Quiet (ok groups) =
        Quiet->>= (Quiet-send _ refl)
          (λ _. Quiet->>= (run_groups-Quiet groups) (λ results. save_summary-Quiet results))

    pub run_body-Quiet : Quiet (run_body env opts unpack)
    unfolding run_body
    run_body-Quiet =
        Quiet->>= (warn_deep_output-Quiet env opts.output) (λ _.
          Quiet->>= (Quiet-send _ refl) (λ _. Quiet->>= (Quiet-call _) (λ r. scanned-Quiet r)))
