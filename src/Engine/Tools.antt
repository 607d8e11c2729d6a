-- ===== src/Engine/Tools.antt =====
-- The tools of a recipe in internal/engine/pipeline.go: recipeTools, ensureRuntimeDeps, ensureTools,
-- installFailureSeverity and fatalMissingTools.
use morgue.Common.{
  ℕ, zero, suc, ◌*◌, ◌/◌, List, [], ◌∷◌, ◌++◌, Bool, false, not, ◌||◌, Option, none, some, ltb, leb,
  ◌==◌, text_eq, if◌then◌else◌, codes, itoa,
}
use morgue.SkipList.{has_key}
use morgue.Engine.{
  Text, Recipe, ToolDef, event, Callback, on_progress, on_extract, World, Run, pure, fail, ◌>>=◌,
  ◌>>◌, call, send, emit, emit_err, emit_warn,
}

-- A dash of the messages, in UTF-8.
abbrev pub dash : Text
dash = 0xe2 ∷ (0x80 ∷ (0x94 ∷ []))

abbrev is_asset_tool : Text → Bool
is_asset_tool n = text_eq n (codes "assetripper") || text_eq n (codes "assetstudiomod")

unfoldable pub without_asset_tools : List Text → List Text
without_asset_tools [] = []
without_asset_tools (n ∷ names) =
    let kept = without_asset_tools names in if is_asset_tool n then kept else n ∷ kept

unfoldable pub recipe_tools : Recipe → Bool → List Text
recipe_tools rec skip_assets =
    if not skip_assets then rec.required_tools else without_asset_tools rec.required_tools

abbrev percent : ℕ → ℕ → ℕ
percent bytes_down bytes_total = if ltb 0 bytes_total then bytes_down * 100 / bytes_total else 0

-- `lastPct`, none for the -1 of the start.
abbrev pub LastPct : Type 0
LastPct = Option ℕ

is_last : ℕ → LastPct → Bool
is_last pct none = false
is_last pct (some p) = pct == p

abbrev spaced : List Text → Text
spaced [] = []
spaced (n ∷ []) = n
spaced (n ∷ (m ∷ names)) = n ++ b' ' ∷ spaced (m ∷ names)

-- The severity of installFailureSeverity, which is either "warn" or "error".
pub data Severity : Type 0 where
  warn error : Severity

module _ {W : Type 0} (env : World W) where
  -- A call of the callbacks: `label` is what the message says before the name.
  unfoldable pub called : Text → Text → LastPct → Callback → Run W LastPct
  unfolding is_last
  called label file last (on_progress tool down total late) =
      let pct = percent down total in
      if not (is_last pct last) || leb 100 pct || late
      then send (record (event (codes "download") file) {
        message = codes "Downloading " ++ label ++ tool ++ codes "... " ++ itoa pct ++ codes "%";
      })
        >> pure (some pct)
      else pure last
  called label file last (on_extract tool) = do
    send (record (event (codes "extract") file) {
      message = codes "Extracting " ++ label ++ tool ++ codes "...";
    })
    pure last

  unfoldable pub callbacks : Text → Text → LastPct → List Callback → Run W LastPct
  callbacks label file last [] = pure last
  callbacks label file last (c ∷ cs) = do
    next ← called label file last c
    callbacks label file next cs

  unfoldable pub installed_runtime : Text → Text → Option Text → Run W Unit
  installed_runtime file rk (some e) =
      emit_err (codes "runtime") file (codes "auto-install runtime " ++ rk ++ codes ": " ++ e)
      >> fail e
  installed_runtime file rk none =
      emit (codes "runtime") file (codes "Runtime " ++ rk ++ codes " installed")

  unfoldable pub install_dep : Text → Text → Run W Unit
  install_dep file rk = do
    available ← call (λ w. env.runtime_path w rk)
    if available then pure tt else do
      emit (codes "runtime") file (codes "Installing runtime " ++ rk ++ codes "...")
      x ← call (λ w. env.install_runtime w rk)
      callbacks (codes "runtime ") file none x.0
      installed_runtime file rk x.1

  -- The loop over the runtimes of a tool; the result is `runtimeSeen`.
  unfoldable pub runtime_deps : Text → List Text → List Text → Run W (List Text)
  runtime_deps file seen [] = pure seen
  runtime_deps file seen (rk ∷ rks) =
      let skip = runtime_deps file seen rks in
      let next = install_dep file rk >> runtime_deps file (rk ∷ seen) rks in
      if has_key rk seen then skip else next

  deps_of : Option ToolDef → List Text
  deps_of none = []
  deps_of (some def) = def.runtime_deps

  unfoldable pub tool_deps : Text → List Text → List Text → Run W Unit
  unfolding deps_of
  tool_deps file seen [] = pure tt
  tool_deps file seen (name ∷ names) = do
    next ← runtime_deps file seen (deps_of (env.find_tool name))
    tool_deps file next names

  unfoldable pub ensure_runtime_deps : Text → Recipe → Bool → Run W Unit
  ensure_runtime_deps file rec skip_assets = tool_deps file [] (recipe_tools rec skip_assets)

  is_optional : Option ToolDef → Bool
  is_optional none = false
  is_optional (some def) = def.optional

  unfoldable pub optional_tool : Text → Bool
  unfolding is_optional
  optional_tool name = is_optional (env.find_tool name)

  unfoldable pub install_failure_severity : Text → Text → Bool → ℕ → Severity × Text
  install_failure_severity name e optional attempts =
      let hint =
        codes "auto-install "
        ++ name
        ++ codes " failed: network unreachable "
        ++ dash
        ++ codes
            " set GHIDRA_HOME to a local Ghidra install or configure ToolsMirror for offline use" in
      if env.is_benign_cert_noise e
      then (warn, codes "install " ++ name ++ codes ": ignoring benign system cert-store notice")
      else if env.is_network_timeout e
      then (if optional then (warn, hint) else (error, hint))
      else if optional
      then (
        warn,
        codes "auto-install optional tool "
            ++ name
            ++ codes " failed (continuing without it): "
            ++ e,
      )
      else (
        error,
        codes "auto-install "
            ++ name
            ++ codes " (after "
            ++ itoa attempts
            ++ codes " attempts): "
            ++ e,
      )

  unfoldable pub fatal_missing_tools : List Text → List Text
  fatal_missing_tools [] = []
  fatal_missing_tools (n ∷ names) =
      let fatal = fatal_missing_tools names in if optional_tool n then fatal else n ∷ fatal

  abbrev pub install_attempts : ℕ
  install_attempts = 3

  abbrev attempt_message : Text → ℕ → Text
  attempt_message name attempt =
      if attempt == 1
      then codes "Installing " ++ name ++ codes "..."
      else codes "Retrying "
        ++ name
        ++ codes " (attempt "
        ++ itoa attempt
        ++ b'/' ∷ (itoa install_attempts ++ codes ")...")

  -- After an attempt: a cancelled run does not retry.
  unfoldable pub or_cancelled :
      Option Text → Run W (LastPct × Option Text) → Run W (LastPct × Option Text)
  or_cancelled (some c) retry = fail c
  or_cancelled none retry = retry

  unfoldable pub after_attempt :
      LastPct → Option Text → Run W (LastPct × Option Text) → Run W (LastPct × Option Text)
  after_attempt last none retry = pure (last, none)
  after_attempt last (some e) retry = do c ← call env.ctx_err; or_cancelled c retry

  -- The attempts at a tool that are left; the result is `lastErr`.
  unfoldable pub try_install :
      Text → Text → ℕ → ℕ → LastPct → Option Text → Run W (LastPct × Option Text)
  try_install file name zero attempt last last_err = pure (last, last_err)
  try_install file name (suc left) attempt last last_err = do
    emit (codes "install") file (attempt_message name attempt)
    x ← call (λ w. env.install w name)
    next ← callbacks [] file last x.0
    after_attempt next x.1 (try_install file name left (suc attempt) next x.1)

  unfoldable pub by_severity : Text → Severity × Text → Run W Unit
  by_severity file (warn, msg) = emit_warn (codes "tools") file msg
  by_severity file (error, msg) = emit_err (codes "tools") file msg

  unfoldable pub report_failure : Text → Text → Option Text → Run W Unit
  report_failure file name none = pure tt
  report_failure file name (some e) =
      by_severity file (install_failure_severity name e (optional_tool name) install_attempts)

  unfoldable pub install_all : Text → LastPct → List Text → Run W Unit
  install_all file last [] = pure tt
  install_all file last (name ∷ names) = do
    x ← try_install file name install_attempts 1 last none
    report_failure file name x.1
    install_all file x.0 names

  -- The warnings about the optional tools among those that are still missing.
  unfoldable pub warn_optional : Text → List Text → List Text → Run W Unit
  warn_optional file fatal [] = pure tt
  warn_optional file fatal (name ∷ names) =
      let rest = warn_optional file fatal names in
      if has_key name fatal then rest else do
        emit_warn (codes "tools") file (
            codes "optional tool "
            ++ name
            ++ codes " unavailable "
            ++ dash
            ++ codes
                " continuing without it (set GHIDRA_HOME or configure ToolsMirror for offline use)")
        rest

  unfoldable pub refuse_missing : Text → List Text → Run W Unit
  refuse_missing file [] = pure tt
  refuse_missing file (n ∷ names) =
      let e = codes "still missing after install: [" ++ spaced (n ∷ names) ++ codes "]" in
      emit_err (codes "tools") file e >> fail e

  unfoldable pub install_missing : Text → List Text → List Text → Run W Unit
  install_missing file names [] = pure tt
  install_missing file names (n ∷ needed) = do
    install_all file none (n ∷ needed)
    missing ← call (λ w. env.tools_needed w names)
    let fatal = fatal_missing_tools missing
    warn_optional file fatal missing
    refuse_missing file fatal

  unfoldable pub ensure_tools : Text → Recipe → Bool → Run W Unit
  ensure_tools file rec skip_assets = do
    let names = recipe_tools rec skip_assets
    needed ← call (λ w. env.tools_needed w names)
    install_missing file names needed
