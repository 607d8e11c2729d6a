-- ===== src/Engine/Quiet/Tooling.antt =====
-- The installation of tools and the execution of recipes only add events.
use morgue.Common.{ℕ, zero, suc, refl, List, [], ◌∷◌, Bool, Option, none, some}
use morgue.SkipList.{has_key}
use morgue.Engine.{Text, Run, Recipe, Callback, on_progress, on_extract, World}
use morgue.Engine.Tools.{
  LastPct, Severity, warn, error, called, callbacks, install_dep, installed_runtime, runtime_deps,
  tool_deps, ensure_runtime_deps, after_attempt, or_cancelled, try_install, by_severity,
  report_failure, install_all, warn_optional, refuse_missing, install_missing, ensure_tools,
}
use morgue.Engine.Quiet.{Quiet, Quiet-pure, Quiet-fail, Quiet-call, Quiet-send, Quiet->>=, Quiet-if}

module _ {W : Type 0} (env : World W) where
  called-Quiet :
      (label file : Text) (last : LastPct) (c : Callback) → Quiet (called env label file last c)
  unfolding called
  called-Quiet label file last (on_progress tool down total late) =
      Quiet-if _ (Quiet->>= (Quiet-send _ refl) (λ _. Quiet-pure _)) (Quiet-pure last)
  called-Quiet label file last (on_extract tool) =
      Quiet->>= (Quiet-send _ refl) (λ _. Quiet-pure last)

  callbacks-Quiet :
      (label file : Text) (last : LastPct) (cs : List Callback)
      → Quiet (callbacks env label file last cs)
  unfolding callbacks
  callbacks-Quiet label file last [] = Quiet-pure last
  callbacks-Quiet label file last (c ∷ cs) =
      Quiet->>= (called-Quiet label file last c) (λ next. callbacks-Quiet label file next cs)

  installed_runtime-Quiet :
      (file rk : Text) (e : Option Text) → Quiet (installed_runtime env file rk e)
  unfolding installed_runtime
  installed_runtime-Quiet file rk (some e) = Quiet->>= (Quiet-send _ refl) (λ _. Quiet-fail e)
  installed_runtime-Quiet file rk none = Quiet-send _ refl

  install_dep-Quiet : (file rk : Text) → Quiet (install_dep env file rk)
  unfolding install_dep
  install_dep-Quiet file rk = Quiet->>= (Quiet-call _) (λ available.
      Quiet-if available (Quiet-pure tt) (
        Quiet->>= (Quiet-send _ refl) (λ _. Quiet->>= (Quiet-call _) (λ x.
          Quiet->>= (callbacks-Quiet _ file none x.0) (λ _. installed_runtime-Quiet file rk x.1)))))

  runtime_deps-Quiet : (file : Text) (seen rks : List Text) → Quiet (runtime_deps env file seen rks)
  unfolding runtime_deps
  runtime_deps-Quiet file seen [] = Quiet-pure seen
  runtime_deps-Quiet file seen (rk ∷ rks) =
      Quiet-if (has_key rk seen) (runtime_deps-Quiet file seen rks)
        (Quiet->>= (install_dep-Quiet file rk) (λ _. runtime_deps-Quiet file (rk ∷ seen) rks))

  tool_deps-Quiet : (file : Text) (seen names : List Text) → Quiet (tool_deps env file seen names)
  unfolding tool_deps
  tool_deps-Quiet file seen [] = Quiet-pure tt
  tool_deps-Quiet file seen (name ∷ names) =
      Quiet->>= (runtime_deps-Quiet file seen _) (λ next. tool_deps-Quiet file next names)

  pub ensure_runtime_deps-Quiet :
      (file : Text) (rec : Recipe) (skip : Bool) → Quiet (ensure_runtime_deps env file rec skip)
  unfolding ensure_runtime_deps
  ensure_runtime_deps-Quiet file rec skip = tool_deps-Quiet file [] _

  after_attempt-Quiet :
      (last : LastPct) (e : Option Text) {retry : Run W (LastPct × Option Text)}
      → Quiet retry
      → Quiet (after_attempt env last e retry)
  unfolding after_attempt or_cancelled
  after_attempt-Quiet last none h = Quiet-pure _
  after_attempt-Quiet last (some e) {retry} h = Quiet->>= (Quiet-call _) (λ c. unless c)
    where
      unless : (c : Option Text) → Quiet (or_cancelled env c retry)
      unless none = h
      unless (some c) = Quiet-fail c

  try_install-Quiet :
      (file name : Text) (left attempt : ℕ) (last : LastPct) (e : Option Text)
      → Quiet (try_install env file name left attempt last e)
  unfolding try_install
  try_install-Quiet file name zero attempt last e = Quiet-pure _
  try_install-Quiet file name (suc left) attempt last e = Quiet->>= (Quiet-send _ refl) (λ _.
      Quiet->>= (Quiet-call _) (λ x. Quiet->>= (callbacks-Quiet [] file last x.0) (λ next.
        after_attempt-Quiet next x.1 (try_install-Quiet file name left (suc attempt) next x.1))))

  by_severity-Quiet : (file : Text) (x : Severity × Text) → Quiet (by_severity env file x)
  unfolding by_severity
  by_severity-Quiet file (warn, msg) = Quiet-send _ refl
  by_severity-Quiet file (error, msg) = Quiet-send _ refl

  report_failure-Quiet :
      (file name : Text) (e : Option Text) → Quiet (report_failure env file name e)
  unfolding report_failure
  report_failure-Quiet file name none = Quiet-pure tt
  report_failure-Quiet file name (some e) = by_severity-Quiet file _

  install_all-Quiet :
      (file : Text) (last : LastPct) (names : List Text) → Quiet (install_all env file last names)
  unfolding install_all
  install_all-Quiet file last [] = Quiet-pure tt
  install_all-Quiet file last (name ∷ names) =
      Quiet->>= (try_install-Quiet file name _ 1 last none) (λ x.
        Quiet->>= (report_failure-Quiet file name x.1) (λ _. install_all-Quiet file x.0 names))

  warn_optional-Quiet :
      (file : Text) (fatal names : List Text) → Quiet (warn_optional env file fatal names)
  unfolding warn_optional
  warn_optional-Quiet file fatal [] = Quiet-pure tt
  warn_optional-Quiet file fatal (name ∷ names) =
      Quiet-if (has_key name fatal) (warn_optional-Quiet file fatal names)
        (Quiet->>= (Quiet-send _ refl) (λ _. warn_optional-Quiet file fatal names))

  refuse_missing-Quiet : (file : Text) (names : List Text) → Quiet (refuse_missing env file names)
  unfolding refuse_missing
  refuse_missing-Quiet file [] = Quiet-pure tt
  refuse_missing-Quiet file (n ∷ names) = Quiet->>= (Quiet-send _ refl) (λ _. Quiet-fail _)

  install_missing-Quiet :
      (file : Text) (names needed : List Text) → Quiet (install_missing env file names needed)
  unfolding install_missing
  install_missing-Quiet file names [] = Quiet-pure tt
  install_missing-Quiet file names (n ∷ needed) =
      Quiet->>= (install_all-Quiet file none (n ∷ needed)) (λ _.
        Quiet->>= (Quiet-call _) (λ missing.
          Quiet->>= (warn_optional-Quiet file _ missing) (λ _. refuse_missing-Quiet file _)))

  pub ensure_tools-Quiet :
      (file : Text) (rec : Recipe) (skip : Bool) → Quiet (ensure_tools env file rec skip)
  unfolding ensure_tools
  ensure_tools-Quiet file rec skip =
      Quiet->>= (Quiet-call _) (λ needed. install_missing-Quiet file _ needed)
