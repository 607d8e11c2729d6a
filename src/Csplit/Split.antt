-- ===== src/Csplit/Split.antt =====
-- The whole of splitDecompiledC in internal/recipe/csplit.go: a combined file in, the result, the
-- catalogs and the split files out.
use morgue.Common.{
  ℕ, List, [], ◌∷◌, ◌++◌, Bool, true, false, ◌&&◌, ◌||◌, Option, Result, ok, err, length, ltb, ◌==◌,
  if◌then◌else◌, codes, itoa,
}
use morgue.Csplit.Text.{Text, scan_lines}
use morgue.Csplit.Buckets.{new_bucket_writer, close_open}
use morgue.Csplit.Splitter.{FuncEntry, Output, State, stream_lines}
use morgue.Csplit.Outcomes.{and_then}

-- splitResult without the percentages, which are floating point numbers.
pub record SplitResult : Type 0 where
  pub function_count : ℕ
  pub named_count : ℕ
  pub anonymous_count : ℕ
  pub total_function_bytes : ℕ
  pub classes : List Text
  pub sample : List FuncEntry

-- The order of Go's strings.
unfoldable pub text_lt : Text → Text → Bool
text_lt s [] = false
text_lt [] (d ∷ t) = true
text_lt (c ∷ s) (d ∷ t) = ltb c d || (c == d && text_lt s t)

-- sort.Strings, whose result does not depend on how it sorts.
unfoldable pub insert_sorted : Text → List Text → List Text
unfolding text_lt
insert_sorted s [] = s ∷ []
insert_sorted s (t ∷ ts) =
    let rest = insert_sorted s ts in if text_lt t s then t ∷ rest else s ∷ (t ∷ ts)

unfoldable pub sorted_keys : List Text → List Text
unfolding insert_sorted
sorted_keys [] = []
sorted_keys (s ∷ ts) = insert_sorted s (sorted_keys ts)

-- Before the first line: the functions directory has been cleared and every stream is new.
abbrev pub new_output : Output
new_output = record {
  bw = new_bucket_writer [];
  functions = [];
  symbols = [];
  string_refs = [];
  callers = [];
  class_set = [];
  function_count = 0;
  named_count = 0;
  anonymous_count = 0;
  total_function_bytes = 0;
  sample = [];
}

abbrev pub new_state : State
new_state = record {
  in_record = false;
  rec_addr_hex = [];
  rec_builder = [];
  rec_bytes = 0;
  rec_lines = 0;
  rec_capped = false;
  sig_pending = false;
  rec_name = [];
  rec_sig = [];
  out = new_output;
}

unfoldable pub no_functions : ℕ → Text
no_functions size =
    codes "split produced 0 functions from a non-empty combined .c ("
    ++ itoa size
    ++ codes " bytes): function-header format may have changed"

-- What stands behind the last flush: the open file is closed, and a file without a function is
-- refused, unless it is empty.
unfoldable pub finish : ℕ → Output → Result Text (SplitResult × Output)
unfolding close_open sorted_keys
finish size out =
    if out.function_count == 0 && ltb 0 size
    then err (no_functions size)
    else ok (
      record {
        function_count = out.function_count;
        named_count = out.named_count;
        anonymous_count = out.anonymous_count;
        total_function_bytes = out.total_function_bytes;
        classes = sorted_keys out.class_set;
        sample = out.sample;
      },
      record out { bw = close_open out.bw },
    )

module _ (dir : Text) (open_error : Text → Option Text) where
  unfoldable pub split_decompiled_c : Text → Result Text (SplitResult × Output)
  split_decompiled_c input =
      and_then (stream_lines dir open_error new_state (scan_lines [] input))
        (λ s. finish (length input) s.out)
