-- ===== src/Engine/Tests.antt =====
-- Runs of the pipeline of internal/engine over a small world: every file is an installer that has
-- unpacked something, and the world counts the calls of recipes.
use morgue.Common.{
  ℕ, suc, ◌≡◌, refl, List, [], ◌∷◌, ◌++◌, true, false, none, some, ok, codes, text_eq, itoa, arith,
}
use morgue.Engine.{kind_name, by_outcome, ◌>>=◌, call, attempt, send}
use morgue.Engine.Tools.{
  without_asset_tools, recipe_tools, called, callbacks, installed_runtime, install_dep,
  runtime_deps, tool_deps, ensure_runtime_deps, optional_tool, install_failure_severity,
  fatal_missing_tools, or_cancelled, after_attempt, try_install, by_severity, report_failure,
  install_all, warn_optional, refuse_missing, install_missing, ensure_tools,
}
use morgue.Engine.Execute.{
  progress_event, resolve_deobfuscator, matches_exclude, sanitize_name, forward, saved, save_recon,
  report_outcome, remove_each, cleanup, run_recipe, in_output_dir, execute_recipe, final_phase,
  execute_recipe_with_filter,
}
use morgue.Engine.Pipeline.{
  results_of, tasks_of, override, add_tools, all_tools, is_nsis, is_none, or_fail, check_cancelled,
  pause, near_max_path, warn_deep_output, classified, classify_target, match_recipe, matched,
  after_classify, select_file, analyse_file, analyse_files, analyse_groups,
}
use morgue.Engine.Passes.{
  nested_options, nested_error, nested_made, too_deep, recurse, recurse_into, execute_task,
  with_tools, with_runtimes, process_task, process_tasks, report_strings, strings_phase,
  ghidra_phase, native_phases, announce_tools, summary_written, save_summary, scanned, run_body,
  deferred,
}
use morgue.SkipList.{has_key, is_on, any_matches, skip_category, should_skip}
use morgue.SkipList.{Strings, SkipList}
use morgue.Engine.{
  Text, nsis, Recon, group_standalone, TargetGroup, Recipe, Options, log, World, State,
}
use morgue.Engine.Execute.{log_message, split_tag, or_untagged}
use morgue.Engine.Pipeline.{count_files}
use morgue.Engine.Passes.{maybe_recurse_unpack, run_groups, run_fuel, run_pipeline}
use morgue.Engine.Summary.{build_summary, add_results, add_result, entry_of, entries_of, bump}
use morgue.Engine.Ends.{Ended, run_pipeline-Ended, run_fuel-run_pipeline}
use morgue.Engine.Returns.{Returns}
use morgue.Engine.Returns.Results.{Summed, run_groups-Summed}

tagged : log_message (codes "strings") (codes "[ghidra] done") ≡ (codes "ghidra", codes "done")
unfolding log_message split_tag or_untagged
tagged = refl

untagged : log_message (codes "strings") (codes "[x]y") ≡ (codes "strings", codes "[x]y")
unfolding log_message split_tag or_untagged
untagged = refl

abbrev strings : Strings
strings = record { to_lower = λ s. s; matches = text_eq }

abbrev skip_list : SkipList
skip_list = record {
  enabled = true;
  categories = [];
  patterns = [];
  custom_skip = codes "skip.dll" ∷ [];
  custom_include = [];
}

abbrev installer : Recipe
installer = record {
  name = codes "nsis";
  description = codes "unpacks";
  required_tools = [];
  display_tools = none;
}

abbrev recon_of : Text → Recon
recon_of file = record {
  path = file;
  size = 1;
  kind = nsis;
  compiler = [];
  obfuscator = [];
  fallback = false;
}

abbrev groups : List TargetGroup
groups =
    record {
      kind = group_standalone;
      root = codes "in";
      files = codes "a.exe" ∷ (codes "skip.dll" ∷ []);
    }
    ∷ []

abbrev world : World ℕ
world = record {
  strings = strings;
  skip_list = skip_list;
  unity_extract_assets = true;
  keep_intermediates = true;
  base = λ p. p;
  ext = λ p. [];
  join = λ a b. a ++ b'/' ∷ b;
  abs_path = λ p. none;
  windows = false;
  find_tool = λ n. none;
  find_recipe = λ n. none;
  match_recipe = λ r. some installer;
  is_benign_cert_noise = λ e. false;
  is_network_timeout = λ e. false;
  ctx_err = λ w. (w, none);
  wait_if_paused = λ w. (w, none);
  scan = λ w p. (w, ok groups);
  classify = λ w p. (w, ok (recon_of p));
  runtime_path = λ w rk. (w, true);
  install_runtime = λ w rk. (w, ([], none));
  tools_needed = λ w names. (w, []);
  install = λ w n. (w, ([], none));
  mkdir_all = λ w p. (w, none);
  execute = λ w r c. (suc w, (log (codes "[nsis] unpacked") ∷ [], none));
  write_recon_json = λ w p r. (w, none);
  remove_all = λ w p. w;
  scan_output_dir = λ w p. (w, []);
  is_dir = λ w p. (w, true);
  is_empty_dir = λ w p. (w, false);
  write_summary = λ w p s es. (w, none);
}

abbrev options : Options
options = record {
  input = codes "in";
  output = codes "out";
  recipe = [];
  no_skip = false;
  exclude = [];
  has_pause = true;
  allow_dynamic = false;
  cflow = false;
  code_only = false;
  game_data_out = [];
  depth = 0;
}

abbrev start : State ℕ
start = record { world = 0; events = [] }

run_pipeline-Ended_example : Ended world options start (run_pipeline world options start).0
run_pipeline-Ended_example = run_pipeline-Ended world options start refl

run_fuel-run_pipeline_example : run_fuel world 9 options ≡ run_pipeline world options
run_fuel-run_pipeline_example = run_fuel-run_pipeline world 9 options (omega arith)

run_groups-Summed_example : Returns (Summed (count_files groups)) (
    run_groups world options
      (λ tr. maybe_recurse_unpack world options tr (λ output. run_fuel world 3 options))
      groups)
run_groups-Summed_example =
    run_groups-Summed world (λ w. refl) (λ w. refl) options (λ output. run_fuel world 3 options)
      groups

-- The installer is run at the depths 0 to 3.
four_recipes : (run_pipeline world options start).0.world ≡ 4
unfolding kind_name by_outcome ◌>>=◌ call attempt send without_asset_tools recipe_tools called
    callbacks installed_runtime install_dep runtime_deps tool_deps ensure_runtime_deps optional_tool
    install_failure_severity fatal_missing_tools or_cancelled after_attempt try_install by_severity
    report_failure install_all warn_optional refuse_missing install_missing ensure_tools split_tag
    log_message progress_event resolve_deobfuscator matches_exclude sanitize_name forward saved
    save_recon report_outcome remove_each cleanup run_recipe in_output_dir execute_recipe
    final_phase execute_recipe_with_filter results_of tasks_of count_files override add_tools
    all_tools is_nsis is_none or_fail check_cancelled pause near_max_path warn_deep_output
    classified classify_target match_recipe matched after_classify select_file analyse_file
    analyse_files analyse_groups nested_options nested_error nested_made too_deep recurse
    recurse_into maybe_recurse_unpack execute_task with_tools with_runtimes process_task
    process_tasks report_strings strings_phase ghidra_phase native_phases announce_tools run_groups
    summary_written save_summary scanned run_body deferred run_fuel run_pipeline has_key is_on
    any_matches skip_category should_skip itoa text_eq build_summary add_results add_result entry_of
    entries_of bump
four_recipes = refl
