-- ===== src/Engine.antt =====
-- The pipeline engine of internal/engine: types.go, emitter.go and pipeline.go. What happens outside
-- of the engine is a value of a type of worlds, which every call of another package may change.
pub mod Tools
pub mod Execute
pub mod Summary
pub mod Pipeline
pub mod Passes
pub mod Quiet
pub mod Ends
pub mod Returns
mod Tests
use morgue.Common.{
  ℕ, zero, suc, List, [], ◌∷◌, ◌++◌, Bool, true, false, Option, none, some, Bytes, Result, ok, err,
  codes,
}
use morgue.SkipList.{Strings, SkipList}

abbrev pub Text : Type 0
Text = Bytes

pub data Kind : Type 0 where
  unknown managed native unity_mono unity_il2cpp unreal_engine mixed nsis java : Kind

-- Kind.String.
unfoldable pub kind_name : Kind → Text
kind_name unknown = codes "Unknown"
kind_name managed = codes "Managed"
kind_name native = codes "Native"
kind_name unity_mono = codes "UnityMono"
kind_name unity_il2cpp = codes "UnityIL2CPP"
kind_name unreal_engine = codes "UnrealEngine"
kind_name mixed = codes "Mixed"
kind_name nsis = codes "NSIS"
kind_name java = codes "Java"

-- The fields of recon.Result that the engine reads.
pub record Recon : Type 0 where
  pub path : Text
  pub size : ℕ
  pub kind : Kind
  pub compiler : Text
  pub obfuscator : Text
  pub fallback : Bool

-- The Go zero value, which a result without recon has.
abbrev pub no_recon : Recon
no_recon = record {
  path = [];
  size = 0;
  kind = unknown;
  compiler = [];
  obfuscator = [];
  fallback = false;
}

pub data GroupKind : Type 0 where
  group_standalone group_unity_mono group_unity_il2cpp group_dotnet_app group_delphi_app
        group_unreal :
      GroupKind

pub record TargetGroup : Type 0 where
  pub kind : GroupKind
  pub root : Text
  pub files : List Text

-- A recipe by what its methods return; `display_tools` is none where there is no such method.
pub record Recipe : Type 0 where
  pub name : Text
  pub description : Text
  pub required_tools : List Text
  pub display_tools : Option (List Text)

-- The fields of tools.ToolDef that the engine reads.
pub record ToolDef : Type 0 where
  pub runtime_deps : List Text
  pub optional : Bool

pub record TargetResult : Type 0 where
  pub group : TargetGroup
  pub recon : Recon
  pub recipe : Option Recipe
  pub output : Text
  pub error : Option Text
  pub skipped : Bool
  pub skip_reason : Text

-- The fields of recipe.StepProgress that the engine reads; `warned` is Status == Warn.
pub record StepProgress : Type 0 where
  pub tool : Text
  pub warned : Bool
  pub error : Option Text

pub record PipelineEvent : Type 0 where
  pub phase : Text
  pub target : Text
  pub message : Text
  pub tool : Text
  pub progress : Option StepProgress
  pub done : Bool
  pub error : Option Text
  pub severity : Text
  pub recon_kind : Text
  pub compiler : Text
  pub obfuscator : Text
  pub deobfuscator : Text
  pub file_size : ℕ
  pub recipe_name : Text
  pub recipe_desc : Text
  pub tools_needed : List Text
  pub output_path : Text
  pub output_stats : List Text
  pub files_total : ℕ

-- An event with a phase and a target, and no other field.
abbrev pub event : Text → Text → PipelineEvent
event phase target = record {
  phase = phase;
  target = target;
  message = [];
  tool = [];
  progress = none;
  done = false;
  error = none;
  severity = [];
  recon_kind = [];
  compiler = [];
  obfuscator = [];
  deobfuscator = [];
  file_size = 0;
  recipe_name = [];
  recipe_desc = [];
  tools_needed = [];
  output_path = [];
  output_stats = [];
  files_total = 0;
}

pub record Options : Type 0 where
  pub input : Text
  pub output : Text
  pub recipe : Text
  pub no_skip : Bool
  pub exclude : List Text
  pub has_pause : Bool  -- Pause != nil
  pub allow_dynamic : Bool
  pub cflow : Bool
  pub code_only : Bool
  pub game_data_out : Text
  pub depth : ℕ

-- What recipe.Context passes to a recipe, but for its channels and the manager.
pub record Context : Type 0 where
  pub target : Text
  pub output : Text
  pub step_filter : Text
  pub obfuscator : Text
  pub compiler : Text
  pub options : Options

-- A call of InstallCallbacks; `late` says that a second has passed since the last event.
pub data Callback : Type 0 where
  on_progress : (tool : Text) (bytes_down bytes_total : ℕ) (late : Bool) → Callback
  on_extract : (tool : Text) → Callback

-- What a recipe sends, in the order in which the forwarder receives it.
pub data Sent : Type 0 where
  progress : StepProgress → Sent
  log : Text → Sent

pub record SummaryEntry : Type 0 where
  pub path : Text
  pub kind : Text
  pub recipe : Text
  pub skipped : Bool
  pub skip_reason : Text
  pub error : Text

pub record SummaryStats : Type 0 where
  pub total : ℕ
  pub success : ℕ
  pub failed : ℕ
  pub skipped : ℕ
  pub by_kind : List (Text × ℕ)
  pub by_recipe : List (Text × ℕ)

-- The calls of the engine into the other packages and the operating system. A call that can fail
-- returns its error; the cancellation of the context is an error, too.
pub record World (W : Type 0) : Type 0 where
  pub strings : Strings
  pub skip_list : SkipList
  pub unity_extract_assets : Bool
  pub keep_intermediates : Bool
  pub base : Text → Text
  pub ext : Text → Text
  pub join : Text → Text → Text
  pub abs_path : Text → Option Text
  pub windows : Bool  -- runtime.GOOS
  pub find_tool : Text → Option ToolDef
  pub find_recipe : Text → Option Recipe
  pub match_recipe : Recon → Option Recipe
  pub is_benign_cert_noise : Text → Bool
  pub is_network_timeout : Text → Bool
  pub ctx_err : W → W × Option Text
  pub wait_if_paused : W → W × Option Text
  pub scan : W → Text → W × Result Text (List TargetGroup)
  pub classify : W → Text → W × Result Text Recon
  pub runtime_path : W → Text → W × Bool
  pub install_runtime : W → Text → W × (List Callback × Option Text)
  pub tools_needed : W → List Text → W × List Text
  pub install : W → Text → W × (List Callback × Option Text)
  pub mkdir_all : W → Text → W × Option Text
  pub execute : W → Recipe → Context → W × (List Sent × Option Text)
  pub write_recon_json : W → Text → Recon → W × Option Text
  pub remove_all : W → Text → W
  pub scan_output_dir : W → Text → W × List Text
  pub is_dir : W → Text → W × Bool
  pub is_empty_dir : W → Text → W × Bool
  pub write_summary : W → Text → SummaryStats → List SummaryEntry → W × Option Text

pub record State (W : Type 0) : Type 0 where
  pub world : W
  pub events : List PipelineEvent

-- A part of the run, with its effect on the world and the events, and the error that it returns.
abbrev pub Run : Type 0 → Type 0 → Type 0
Run W A = State W → State W × Result Text A

module _ {W : Type 0} where
  abbrev pub pure : {A : Type 0} → A → Run W A
  pure a s = (s, ok a)

  abbrev pub fail : {A : Type 0} → Text → Run W A
  fail e s = (s, err e)

  unfoldable pub by_outcome :
      {A B : Type 0} → State W × Result Text A → (A → Run W B) → State W × Result Text B
  by_outcome (s, ok a) f = f a s
  by_outcome (s, err e) f = (s, err e)

  infixl 10 ◌>>=◌ ◌>>◌
  unfoldable pub ◌>>=◌ : {A B : Type 0} → Run W A → (A → Run W B) → Run W B
  (m >>= f) s = by_outcome (m s) f

  abbrev pub ◌>>◌ : {A B : Type 0} → Run W A → Run W B → Run W B
  m >> k = m >>= (λ _. k)

  -- A call out of the engine.
  unfoldable pub call : {A : Type 0} → (W → W × A) → Run W A
  call f s = let (w, a) = f s.world in (record s { world = w }, ok a)

  -- The error of a run as a value.
  unfoldable pub attempt : {A : Type 0} → Run W A → Run W (Result Text A)
  attempt m s = let (t, r) = m s in (t, ok r)

  -- The methods of emitter, whose channel is not nil.
  unfoldable pub send : PipelineEvent → Run W Unit
  send ev s = (record s { events = s.events ++ ev ∷ [] }, ok tt)

  abbrev pub emit : Text → Text → Text → Run W Unit
  emit phase target msg = send (record (event phase target) { message = msg })

  abbrev pub emit_err : Text → Text → Text → Run W Unit
  emit_err phase target e = send (record (event phase target) { error = some e })

  abbrev pub emit_warn : Text → Text → Text → Run W Unit
  emit_warn phase target msg =
      send (record (event phase target) { message = msg; severity = codes "warn" })
