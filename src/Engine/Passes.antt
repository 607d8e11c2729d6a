-- ===== src/Engine/Passes.antt =====
-- The second pass of Run in internal/engine/pipeline.go, its native phases and the whole of it.
use morgue.Common.{
  ℕ, zero, suc, List, [], ◌∷◌, ◌++◌, Bool, true, not, ◌&&◌, ◌||◌, Option, none, some, Result, ok,
  err, length, leb, ◌==◌, text_eq, if◌then◌else◌, codes, itoa,
}
use morgue.Engine.{
  Text, TargetGroup, TargetResult, PipelineEvent, event, Options, World, State, Run, pure, fail,
  ◌>>=◌, ◌>>◌, call, attempt, send, emit, emit_err, emit_warn,
}
use morgue.Engine.Tools.{dash, ensure_runtime_deps, ensure_tools}
use morgue.Engine.Execute.{is_empty, execute_recipe, execute_recipe_with_filter}
use morgue.Engine.Summary.{build_summary}
use morgue.Engine.Pipeline.{
  FileTask, Outcome, settled, planned, results_of, tasks_of, count_files, failed, all_tools,
  is_nsis, is_none, max_unpack_depth, check_cancelled, pause, warn_deep_output, analyse_groups,
}

module _ {W : Type 0} (env : World W) where
  -- The options of the run over what an installer has unpacked.
  unfoldable pub nested_options : Options → Text → Options
  nested_options opts output = record opts {
    input = env.join output (codes "extracted");
    output = env.join output (codes "decompiled");
    depth = suc opts.depth;
    recipe = [];
  }

  abbrev pub is_unpacked : TargetResult → Bool
  is_unpacked tr = is_none tr.error && is_nsis tr.recon.kind && not (is_empty tr.output)

  unfoldable pub nested_error : Text → Result {0, 0} Text Unit → Run W Unit
  nested_error extracted (ok u) = pure tt
  nested_error extracted (err e) = emit_err (codes "unpack") extracted e

  unfoldable pub nested_made : Options → Text → Option Text → Run W Unit → Run W Unit
  nested_made opts output (some e) nested =
      emit_err (codes "unpack") (env.join output (codes "extracted"))
        (codes "create nested output dir: " ++ e)
  nested_made opts output none nested = do
    send (record (event (codes "unpack") output) {
      recon_kind = codes "NSIS";
      message =
          codes "Unpacked installer "
          ++ dash
          ++ codes " recursing into extracted tree (depth "
          ++ itoa (suc opts.depth)
          ++ codes ")";
    })
    r ← attempt nested
    nested_error (env.join output (codes "extracted")) r

  unfoldable pub too_deep : Text → Run W Unit
  too_deep output =
      emit_warn (codes "unpack") output (
        codes "max unpack depth (3) reached " ++ dash ++ codes " not recursing into extracted tree")

  -- Behind the look at the extracted tree.
  unfoldable pub recurse : Options → Text → Run W Unit → Run W Unit
  recurse opts output nested = if leb max_unpack_depth opts.depth then too_deep output else do
    made ← call (λ w. env.mkdir_all w (env.join output (codes "decompiled")))
    nested_made opts output made nested

  -- The look into the extracted directory.
  unfoldable pub recurse_into : Options → Text → (Text → Run W Unit) → Run W Unit
  recurse_into opts output nested = do
    empty ← call (λ w. env.is_empty_dir w (env.join output (codes "extracted")))
    if empty then pure tt else recurse opts output (nested output)

  -- `nested` is the run over what the result has unpacked.
  unfoldable pub maybe_recurse_unpack : Options → TargetResult → (Text → Run W Unit) → Run W Unit
  maybe_recurse_unpack opts tr nested = if not (is_unpacked tr) then pure tt else do
    dir ← call (λ w. env.is_dir w (env.join tr.output (codes "extracted")))
    if dir then recurse_into opts tr.output nested else pure tt

  abbrev skips_assets : Options → Bool
  skips_assets opts = opts.code_only || not env.unity_extract_assets

  -- `unpack` is what maybeRecurseUnpack does with a result in these functions.
  -- A task whose tools are there: a native one waits for the phases, another is executed.
  unfoldable pub execute_task : Options → (TargetResult → Run W Unit) → FileTask → Run W Outcome
  execute_task opts unpack t = do
    pause env opts
    if text_eq t.recipe.name (codes "native") then pure (planned t) else do
      tr ← execute_recipe env t.file_path opts t.recipe t.recon t.group
      unpack tr
      pure (settled tr)

  unfoldable pub with_tools :
      Options → (TargetResult → Run W Unit) → FileTask → Result {0, 0} Text Unit → Run W Outcome
  with_tools opts unpack t (err e) = pure (settled (failed t e))
  with_tools opts unpack t (ok u) = execute_task opts unpack t

  unfoldable pub with_runtimes :
      Options → (TargetResult → Run W Unit) → FileTask → Result {0, 0} Text Unit → Run W Outcome
  with_runtimes opts unpack t (err e) =
      pure (settled (failed t (codes "failed to install required runtime")))
  with_runtimes opts unpack t (ok u) =
      attempt (ensure_tools env t.file_path t.recipe (skips_assets opts))
      >>= with_tools opts unpack t

  -- A round of pass 2.
  unfoldable pub process_task : Options → (TargetResult → Run W Unit) → FileTask → Run W Outcome
  process_task opts unpack t = do
    check_cancelled env
    pause env opts
    r ← attempt (ensure_runtime_deps env t.file_path t.recipe (skips_assets opts))
    with_runtimes opts unpack t r

  unfoldable pub process_tasks :
      Options → (TargetResult → Run W Unit) → List FileTask → Run W (List Outcome)
  process_tasks opts unpack [] = pure []
  process_tasks opts unpack (t ∷ ts) = do
    o ← process_task opts unpack t
    rest ← process_tasks opts unpack ts
    pure (o ∷ rest)

  unfoldable pub report_strings : Text → Option Text → Run W Unit
  report_strings file none = pure tt
  report_strings file (some e) = emit_err (codes "execute") file e

  -- The phase of the strings, whose failures do not count.
  unfoldable pub strings_phase : Options → List FileTask → Run W Unit
  strings_phase opts [] = pure tt
  strings_phase opts (t ∷ ts) = do
    check_cancelled env
    pause env opts
    tr ← execute_recipe_with_filter env t.file_path opts t.recipe t.recon t.group (codes "strings")
    report_strings t.file_path tr.error
    strings_phase opts ts

  unfoldable pub ghidra_phase : Options → List FileTask → Run W (List TargetResult)
  ghidra_phase opts [] = pure []
  ghidra_phase opts (t ∷ ts) = do
    check_cancelled env
    pause env opts
    tr ← execute_recipe_with_filter env t.file_path opts t.recipe t.recon t.group (codes "ghidra")
    rest ← ghidra_phase opts ts
    pure (tr ∷ rest)

  unfoldable pub native_phases : Options → List FileTask → Run W (List TargetResult)
  native_phases opts [] = pure []
  native_phases opts (t ∷ []) = do
    tr ← execute_recipe env t.file_path opts t.recipe t.recon t.group
    pure (tr ∷ [])
  native_phases opts (t ∷ (u ∷ ts)) =
      strings_phase opts (t ∷ (u ∷ ts)) >> ghidra_phase opts (t ∷ (u ∷ ts))

  unfoldable pub announce_tools : Options → List Text → Run W Unit
  announce_tools opts [] = pure tt
  announce_tools opts (n ∷ names) = send (record (event (codes "tools") opts.input) {
    message = itoa (length (n ∷ names)) ++ codes " tools needed";
    tools_needed = n ∷ names;
  })

  -- From the groups of the scan to the results of all files.
  unfoldable pub run_groups :
      Options → (TargetResult → Run W Unit) → List TargetGroup → Run W (List TargetResult)
  run_groups opts unpack groups = do
    analysed ← analyse_groups env opts groups
    let tasks = tasks_of analysed
    announce_tools opts (all_tools (skips_assets opts) [] tasks)
    processed ← process_tasks opts unpack tasks
    native ← native_phases opts (tasks_of processed)
    pure (results_of analysed ++ (results_of processed ++ native))

  unfoldable pub summary_written : Options → Option Text → Run W Unit
  summary_written opts none = pure tt
  summary_written opts (some e) =
      emit_warn (codes "done") opts.output (codes "could not write summary.json: " ++ e)

  unfoldable pub save_summary : Options → List TargetResult → Run W Unit
  save_summary opts results = do
    let summary = build_summary results
    e ←
        call (λ w.
          env.write_summary w (env.join opts.output (codes "summary.json")) summary.0 summary.1)
    summary_written opts e

  unfoldable pub scanned :
      Options → (TargetResult → Run W Unit) → Result Text (List TargetGroup) → Run W Unit
  scanned opts unpack (err e) = emit_err (codes "scan") opts.input e >> fail (codes "scan: " ++ e)
  scanned opts unpack (ok groups) = do
    send (record (event (codes "scan") opts.input) {
      message =
          codes "Found "
          ++ itoa (count_files groups)
          ++ codes " files in "
          ++ itoa (length groups)
          ++ codes " groups";
      files_total = count_files groups;
    })
    results ← run_groups opts unpack groups
    save_summary opts results

  -- Run without its deferred event.
  unfoldable pub run_body : Options → (TargetResult → Run W Unit) → Run W Unit
  run_body opts unpack = do
    warn_deep_output env opts.output
    emit (codes "scan") opts.input (codes "Scanning for binaries...")
    r ← call (λ w. env.scan w opts.input)
    scanned opts unpack r

  abbrev pub done_event : Options → PipelineEvent
  done_event opts = record (event (codes "done") []) { done = true; output_path = opts.output }

  -- The deferred function, which runs whatever the body returns.
  unfoldable pub deferred :
      Options → State W × Result {0, 0} Text Unit → State W × Result {0, 0} Text Unit
  deferred opts (s, r) =
      if opts.depth == 0
      then (record s { events = s.events ++ done_event opts ∷ [] }, r)
      else (s, r)

  -- Run, whose nesting the fuel bounds.
  unfoldable pub run_fuel : ℕ → Options → Run W Unit
  run_fuel zero opts = pure tt
  run_fuel (suc f) opts = λ s. deferred opts (
      run_body opts
        (λ tr. maybe_recurse_unpack opts tr (λ output. run_fuel f (nested_options opts output))) s)

  -- A run at depth zero has runs at the depths up to maxUnpackDepth in it.
  unfoldable pub run_pipeline : Options → Run W Unit
  run_pipeline opts = run_fuel (suc max_unpack_depth) opts
