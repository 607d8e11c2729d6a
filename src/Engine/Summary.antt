-- ===== src/Engine/Summary.antt =====
-- buildSummary of internal/engine/pipeline.go, without the duration.
use morgue.Common.{
  ℕ, suc, List, [], ◌∷◌, Bool, true, false, Option, none, some, text_eq, if◌then◌else◌,
}
use morgue.Engine.{Text, kind_name, Recipe, TargetResult, SummaryEntry, SummaryStats}
use morgue.Engine.Execute.{is_empty}

-- `m[key]++` of a map of numbers.
unfoldable pub bump : Text → List (Text × ℕ) → List (Text × ℕ)
bump key [] = (key, 1) ∷ []
bump key ((k, n) ∷ m) =
    let rest = bump key m in if text_eq k key then (k, suc n) ∷ m else (k, n) ∷ rest

recipe_name : Option Recipe → Text
recipe_name none = []
recipe_name (some rec) = rec.name

error_text : Option Text → Text
error_text none = []
error_text (some e) = e

unfoldable pub entry_of : TargetResult → SummaryEntry
unfolding kind_name recipe_name error_text
entry_of r = record {
  path = r.recon.path;
  kind = kind_name r.recon.kind;
  recipe = recipe_name r.recipe;
  skipped = r.skipped;
  skip_reason = r.skip_reason;
  error = error_text r.error;
}

counted : Bool → Option Text → SummaryStats → SummaryStats
counted true error stats = record stats { skipped = suc skipped }
  where
    open stats use {skipped}
counted false (some e) stats = record stats { failed = suc failed }
  where
    open stats use {failed}
counted false none stats = record stats { success = suc success }
  where
    open stats use {success}

-- A round of the loop.
unfoldable pub add_result : SummaryStats → TargetResult → SummaryStats
unfolding counted entry_of bump
add_result stats r =
    let e = entry_of r in
    counted r.skipped r.error (record stats {
      total = suc stats.total;
      by_kind = if is_empty e.kind then stats.by_kind else bump e.kind stats.by_kind;
      by_recipe = if is_empty e.recipe then stats.by_recipe else bump e.recipe stats.by_recipe;
    })

unfoldable pub add_results : SummaryStats → List TargetResult → SummaryStats
add_results stats [] = stats
add_results stats (r ∷ rs) = add_results (add_result stats r) rs

abbrev pub no_stats : SummaryStats
no_stats = record { total = 0; success = 0; failed = 0; skipped = 0; by_kind = []; by_recipe = [] }

unfoldable pub entries_of : List TargetResult → List SummaryEntry
entries_of [] = []
entries_of (r ∷ rs) = entry_of r ∷ entries_of rs

unfoldable pub build_summary : List TargetResult → SummaryStats × List SummaryEntry
build_summary results = (add_results no_stats results, entries_of results)
