-- ===== src/Engine/Execute.antt =====
-- Running a recipe in internal/engine/pipeline.go: executeRecipe, executeRecipeWithFilter and their
-- forwarder, sanitizeName, resolveDeobfuscator and matchesExclude.
use morgue.Common.{
  ◌-◌, List, [], ◌∷◌, ◌++◌, Bool, true, false, ◌&&◌, ◌||◌, Option, none, some, length, take, ◌==◌,
  text_eq, if◌then◌else◌, codes,
}
use morgue.Odin.Scalars.{contains}
use morgue.Engine.{
  Text, Recon, TargetGroup, Recipe, TargetResult, StepProgress, PipelineEvent, event, Options,
  Context, Sent, progress, log, World, Run, pure, ◌>>=◌, ◌>>◌, call, send, emit_err, emit_warn,
}

abbrev pub is_empty : Text → Bool
is_empty [] = true
is_empty (c ∷ s) = false

-- The `[tool] ` prefix of a log message behind its `[`, and the message: up to the first `] `.
unfoldable pub split_tag : Text → Text → Option (Text × Text)
split_tag tag [] = none
split_tag tag (c ∷ []) = none
split_tag tag (c ∷ (d ∷ s)) =
    let more = split_tag (tag ++ c ∷ []) (d ∷ s) in
    if c == b']' && d == b' ' then some (tag, s) else more

unfoldable pub or_untagged : Option (Text × Text) → Text → Text → Text × Text
or_untagged (some x) tool msg = x
or_untagged none tool msg = (tool, msg)

-- The tool of a log message and its text; without a prefix it is the current tool.
unfoldable pub log_message : Text → Text → Text × Text
log_message tool [] = (tool, [])
log_message tool (c ∷ s) =
    let tagged = or_untagged (split_tag [] s) tool (c ∷ s) in
    if c == b'[' then tagged else (tool, c ∷ s)

text_of : Option Text → Text
text_of none = []
text_of (some e) = e

unfoldable pub progress_event : Text → StepProgress → PipelineEvent
unfolding text_of
progress_event file p =
    let ev = record (event (codes "execute") file) { tool = p.tool; progress = some p } in
    if p.warned then record ev { severity = codes "warn"; message = text_of p.error } else ev

unfoldable pub resolve_deobfuscator : (Text → Text) → Text → Text
unfolding contains
resolve_deobfuscator to_lower obfuscator =
    let lower = to_lower obfuscator in
    if is_empty obfuscator
    then []
    else if contains lower (codes "confuserex") || contains lower (codes "confuser")
    then codes "de4dot"
    else if contains lower (codes "obfuscated")
    then codes "de4dot"
    else []

unfoldable pub matches_exclude : (Text → Text → Bool) → Text → List Text → Bool
matches_exclude matches filename [] = false
matches_exclude matches filename (p ∷ ps) =
    if matches p filename then true else matches_exclude matches filename ps

module _ {W : Type 0} (env : World W) where
  unfoldable pub sanitize_name : Text → Text
  sanitize_name name =
      let base = take (length name - length (env.ext name)) name in
      if is_empty base then name else base

  -- The goroutine that forwards progress and log messages; `tool` is currentTool.
  unfoldable pub forward : Text → Text → List Sent → Run W Unit
  unfolding progress_event log_message
  forward file tool [] = pure tt
  forward file tool (progress p ∷ sent) =
      send (progress_event file p) >> forward file (if is_empty p.tool then tool else p.tool) sent
  forward file tool (log msg ∷ sent) =
      send (record (event (codes "log") file) {
        tool = (log_message tool msg).0;
        message = (log_message tool msg).1;
      })
      >> forward file tool sent

  unfoldable pub saved : Text → Option Text → Run W Unit
  saved file none = pure tt
  saved file (some e) = emit_warn (codes "execute") file e

  unfoldable pub save_recon : Text → Text → Recon → Run W Unit
  save_recon file output recon = do
    e ← call (λ w. env.write_recon_json w output recon)
    saved file e

  unfoldable pub report_outcome : Text → Text → Option Text → Run W Unit
  report_outcome file output (some e) = emit_err (codes "execute") file e
  report_outcome file output none = do
    send (record (event (codes "execute") file) { message = codes "Complete" })
    stats ← call (λ w. env.scan_output_dir w output)
    send (record (event (codes "stats") file) { output_stats = stats })

  unfoldable pub remove_each : Text → List Text → Run W Unit
  remove_each output [] = pure tt
  remove_each output (name ∷ names) = do
    call (λ w. (env.remove_all w (env.join output name), tt))
    remove_each output names

  unfoldable pub cleanup : Text → List Text → Option Text → Run W Unit
  cleanup output names (some e) = pure tt
  cleanup output names none = if env.keep_intermediates then pure tt else remove_each output names

  abbrev context : Text → Text → Options → Recon → Text → Context
  context file output opts recon step_filter = record {
    target = file;
    output = output;
    step_filter = step_filter;
    obfuscator = recon.obfuscator;
    compiler = recon.compiler;
    options = opts;
  }

  abbrev outcome_of : TargetGroup → Recon → Recipe → Text → Option Text → TargetResult
  outcome_of group recon rec output error = record {
    group = group;
    recon = recon;
    recipe = some rec;
    output = output;
    error = error;
    skipped = false;
    skip_reason = [];
  }

  -- What a recipe does, with its messages forwarded; the result is its error.
  unfoldable pub run_recipe : Text → Text → Options → Recipe → Recon → Text → Run W (Option Text)
  run_recipe file output opts rec recon step_filter = do
    x ← call (λ w. env.execute w rec (context file output opts recon step_filter))
    forward file [] x.0
    pure x.1

  -- Both functions begin by making the output directory; `body` is the rest.
  unfoldable pub in_output_dir :
      Option Text → Text → TargetGroup → Recon → Recipe → Run W TargetResult → Run W TargetResult
  in_output_dir none file group recon rec body = body
  in_output_dir (some e) file group recon rec body =
      emit_err (codes "execute") file (codes "create output dir: " ++ e)
      >> pure (outcome_of group recon rec [] (some e))

  abbrev output_of : Options → Text → Text
  output_of opts file = env.join opts.output (sanitize_name (env.base file))

  unfoldable pub execute_recipe : Text → Options → Recipe → Recon → TargetGroup → Run W TargetResult
  unfolding sanitize_name
  execute_recipe file opts rec recon group = do
    let output = output_of opts file
    made ← call (λ w. env.mkdir_all w output)
    in_output_dir made file group recon rec (do
      error ← run_recipe file output opts rec recon []
      save_recon file output recon
      cleanup output (codes "metadata/DummyDll" ∷ (codes ".tmp" ∷ (codes "strings.txt" ∷ []))) error
      report_outcome file output error
      pure (outcome_of group recon rec output error))

  -- The part of executeRecipeWithFilter for the final phase.
  unfoldable pub final_phase : Text → Text → Recon → Option Text → Run W Unit
  final_phase file output recon error = do
    save_recon file output recon
    cleanup output (codes "strings.txt" ∷ []) error
    report_outcome file output error

  unfoldable pub execute_recipe_with_filter :
      Text → Options → Recipe → Recon → TargetGroup → Text → Run W TargetResult
  unfolding sanitize_name
  execute_recipe_with_filter file opts rec recon group step_filter = do
    let output = output_of opts file
    made ← call (λ w. env.mkdir_all w output)
    in_output_dir made file group recon rec (do
      error ← run_recipe file output opts rec recon step_filter
      (if text_eq step_filter (codes "ghidra")
          then final_phase file output recon error
          else pure tt)
      pure (outcome_of group recon rec output error))
