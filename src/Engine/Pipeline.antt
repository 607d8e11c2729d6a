-- ===== src/Engine/Pipeline.antt =====
-- Run, classifyTarget, maybeRecurseUnpack and warnDeepOutput of internal/engine/pipeline.go.
use morgue.Common.{
  ℕ, ◌+◌, ◌-◌, List, [], ◌∷◌, ◌++◌, Bool, true, false, not, ◌&&◌, ◌||◌, Option, none, some, Result,
  ok, err, length, leb, if◌then◌else◌, codes, itoa,
}
use morgue.SkipList.{has_key, should_skip}
use morgue.Engine.{
  Text, Kind, nsis, unity_mono, unity_il2cpp, unreal_engine, kind_name, Recon, no_recon, GroupKind,
  group_unity_mono, group_unity_il2cpp, group_unreal, TargetGroup, Recipe, TargetResult, event,
  Options, World, Run, pure, fail, ◌>>=◌, ◌>>◌, call, send, emit, emit_err, emit_warn,
}
use morgue.Engine.Tools.{dash, recipe_tools}
use morgue.Engine.Execute.{is_empty, matches_exclude, resolve_deobfuscator}

abbrev pub max_unpack_depth : ℕ
max_unpack_depth = 3

pub record FileTask : Type 0 where
  pub group : TargetGroup
  pub file_path : Text
  pub recon : Recon
  pub recipe : Recipe

-- What a pass makes of a file: a result, or a task for what comes next.
pub data Outcome : Type 0 where
  settled : TargetResult → Outcome
  planned : FileTask → Outcome

unfoldable pub results_of : List Outcome → List TargetResult
results_of [] = []
results_of (settled r ∷ os) = r ∷ results_of os
results_of (planned t ∷ os) = results_of os

unfoldable pub tasks_of : List Outcome → List FileTask
tasks_of [] = []
tasks_of (settled r ∷ os) = tasks_of os
tasks_of (planned t ∷ os) = t ∷ tasks_of os

unfoldable pub count_files : List TargetGroup → ℕ
count_files [] = 0
count_files (g ∷ gs) = length g.files + count_files gs

-- The override of classifyTarget.
unfoldable pub override : GroupKind → Recon → Recon
override group_unreal r = record r { kind = unreal_engine; fallback = false }
override group_unity_mono r = record r { kind = unity_mono; fallback = false }
override group_unity_il2cpp r = record r { kind = unity_il2cpp; fallback = false }
override _ r = r

abbrev pub result_of : TargetGroup → TargetResult
result_of group = record {
  group = group;
  recon = no_recon;
  recipe = none;
  output = [];
  error = none;
  skipped = false;
  skip_reason = [];
}

abbrev pub failed : FileTask → Text → TargetResult
failed t e = record (result_of t.group) { recon = t.recon; recipe = some t.recipe; error = some e }

unfoldable pub add_tools : List Text → List Text → List Text
add_tools seen [] = seen
add_tools seen (n ∷ names) = add_tools (if has_key n seen then seen else seen ++ n ∷ []) names

tools_or : Option (List Text) → List Text → List Text
tools_or none names = names
tools_or (some []) names = names
tools_or (some (n ∷ display)) names = n ∷ display

-- The tools of all tasks, once each and in the order of their first use.
unfoldable pub all_tools : Bool → List Text → List FileTask → List Text
unfolding tools_or
all_tools skip_assets seen [] = seen
all_tools skip_assets seen (t ∷ ts) =
    all_tools skip_assets
      (add_tools seen (tools_or t.recipe.display_tools (recipe_tools t.recipe skip_assets))) ts

unfoldable pub is_nsis : Kind → Bool
is_nsis nsis = true
is_nsis _ = false

unfoldable pub is_none {ℓ} : {A : Type ℓ} → Option A → Bool
is_none none = true
is_none (some a) = false

module _ {W : Type 0} (env : World W) where
  unfoldable pub or_fail : Option Text → Run W Unit
  or_fail none = pure tt
  or_fail (some e) = fail e

  unfoldable pub check_cancelled : Run W Unit
  check_cancelled = call env.ctx_err >>= or_fail

  unfoldable pub pause : Options → Run W Unit
  pause opts = if opts.has_pause then call env.wait_if_paused >>= or_fail else pure tt

  -- util.NearMaxPath.
  unfoldable pub near_max_path : ℕ → Bool
  near_max_path len = env.windows && leb (260 - 40) len

  absolute : Option Text → Text → Text
  absolute none output = output
  absolute (some abs) output = abs

  abbrev pub output_headroom : ℕ
  output_headroom = 110

  unfoldable pub warn_deep_output : Text → Run W Unit
  unfolding absolute
  warn_deep_output output =
      let abs = absolute (env.abs_path output) output in
      if is_empty output || not (near_max_path (length abs + output_headroom))
      then pure tt
      else emit_warn (codes "scan") abs (
          codes "output path is "
          ++ itoa (length abs)
          ++ codes
              " characters deep; Windows limits paths to 260 and external tools (Ghidra, decompilers) fail past it "
          ++ dash
          ++ codes " extraction may be incomplete. Re-run with a short output dir, e.g. -o D:\\out")

  unfoldable pub classified : TargetGroup → Text → Result Text Recon → Run W (Result Text Recon)
  classified group file (err e) = emit_err (codes "recon") file e >> pure (err e)
  classified group file (ok recon) =
      let r = override group.kind recon in
      send (record (event (codes "recon") file) {
        message = kind_name r.kind;
        recon_kind = kind_name r.kind;
        compiler = r.compiler;
        obfuscator = r.obfuscator;
        deobfuscator = resolve_deobfuscator env.strings.to_lower r.obfuscator;
        file_size = r.size;
      })
      >> pure (ok r)

  unfoldable pub classify_target : TargetGroup → Text → Run W (Result Text Recon)
  classify_target group file = do
    emit (codes "recon") file (codes "Classifying...")
    r ← call (λ w. env.classify w file)
    classified group file r

  unfoldable pub match_recipe : Options → Recon → Option Recipe
  match_recipe opts recon =
      if is_empty opts.recipe then env.match_recipe recon else env.find_recipe opts.recipe

  unfoldable pub matched : TargetGroup → Text → Recon → Option Recipe → Run W Outcome
  matched group file recon none =
      emit (codes "match") file (codes "No matching recipe found")
      >> pure (
          settled (record (result_of group) {
            recon = recon;
            skipped = true;
            skip_reason = codes "no matching recipe";
          }))
  matched group file recon (some rec) =
      send (record (event (codes "match") file) {
        message = codes "Recipe: " ++ rec.name;
        recipe_name = rec.name;
        recipe_desc = rec.description;
      })
      >> pure (planned (record { group = group; file_path = file; recon = recon; recipe = rec }))

  unfoldable pub after_classify : Options → TargetGroup → Text → Result Text Recon → Run W Outcome
  after_classify opts group file (err e) =
      pure (settled (record (result_of group) { error = some e }))
  after_classify opts group file (ok recon) = matched group file recon (match_recipe opts recon)

  abbrev skip_file : TargetGroup → Text → Text → Text → Run W Outcome
  skip_file group file reason msg =
      emit (codes "skip") file msg
      >> pure (settled (record (result_of group) { skipped = true; skip_reason = reason }))

  -- Behind the checks of a round of pass 1.
  unfoldable pub select_file : Options → TargetGroup → Text → Run W Outcome
  unfolding matches_exclude
  select_file opts group file =
      let skip = should_skip env.strings env.skip_list (env.base file) in
      if not opts.no_skip && skip.0
      then skip_file group file skip.1 (codes "Skipped: " ++ skip.1)
      else if matches_exclude env.strings.matches (env.base file) opts.exclude
      then skip_file group file (codes "excluded") (codes "Excluded by pattern")
      else classify_target group file >>= after_classify opts group file

  unfoldable pub analyse_file : Options → TargetGroup → Text → Run W Outcome
  analyse_file opts group file = do check_cancelled; pause opts; select_file opts group file

  -- Pass 1 over the files of a group, and over the groups.
  unfoldable pub analyse_files : Options → TargetGroup → List Text → Run W (List Outcome)
  analyse_files opts group [] = pure []
  analyse_files opts group (file ∷ files) = do
    o ← analyse_file opts group file
    rest ← analyse_files opts group files
    pure (o ∷ rest)

  unfoldable pub analyse_groups : Options → List TargetGroup → Run W (List Outcome)
  analyse_groups opts [] = pure []
  analyse_groups opts (g ∷ gs) = do
    os ← analyse_files opts g g.files
    rest ← analyse_groups opts gs
    pure (os ++ rest)
