-- ===== src/Csplit/Records/Total.antt =====
-- When the split of internal/recipe/csplit.go succeeds.
use morgue.Common.{
  ℕ, suc, ◌+◌, ◌≡◌, ◌<◌, ◌≢◌, refl, sym, ap, ◌∙◌, List, [], ◌∷◌, Bool, true, not, ◌&&◌, ◌||◌,
  Option, none, some, Result, ok, err, length, if◌then◌else◌, branches, ltb, leb, ◌==◌, arith,
  text_eq, ◌⊎◌, inl, inr, subst, lt→ltb, true-false,
}
use morgue.Csplit.Text.{Text, scan_lines}
use morgue.Csplit.Outcomes.{and_then}
use morgue.Csplit.Buckets.{
  BucketWriter, open_file, opened, write_to, write, split_soft_cap, bucket_for, file_path,
  close_open,
}
use morgue.Csplit.Splitter.{Function, Output, emit, written, add_entry, block_of}
use morgue.Csplit.Split.{SplitResult, finish, new_output, no_functions, split_decompiled_c}
use morgue.Csplit.Records.{Record, group, function_in, emit_all}
use morgue.Csplit.Records.Refines.{split_decompiled_c-emit_all}

-- An outcome that is no error.
abbrev pub IsOk {ℓ} : {A : Type ℓ} → Result Text A → Type ℓ
IsOk {A = A} r = (a : A) × (r ≡ ok a)

module _ (dir : Text) (open_error : Text → Option Text)
    (opens : (path : Text) → open_error path ≡ none) where
  opened-IsOk :
      (o : Option Text) (b : BucketWriter) (bucket : Text) (index : ℕ)
      → o ≡ none
      → IsOk (opened dir open_error o b bucket index)
  unfolding opened
  opened-IsOk none b bucket index h = (_, refl)
  opened-IsOk (some e) b bucket index h = absurd (some_none h)
    where
      some_none : some e ≡ none → ⊥
      some_none h = cc

  write_to-IsOk :
      (r : Result Text BucketWriter) (block : Text)
      → IsOk r
      → IsOk (write_to dir open_error r block)
  unfolding write_to
  write_to-IsOk r block (b, e) = (_, ap (λ r'. write_to dir open_error r' block) e)

  write-IsOk : (b : BucketWriter) (addr block : Text) → IsOk (write dir open_error b addr block)
  unfolding write open_file
  write-IsOk b addr block = write_to-IsOk _ block (
      branches IsOk (not b.cur_open || changed || leb split_soft_cap b.cur_written)
        (λ _. opened-IsOk (open_error path) (close_open b) bucket index (opens path))
        (λ _. (b, refl)))
    where
      bucket : Text
      bucket = bucket_for addr

      changed : Bool
      changed = not (text_eq bucket b.cur_bucket)

      index : ℕ
      index = if changed then 0 else suc b.cur_index

      path : Text
      path = file_path dir bucket index

  written-IsOk :
      (out : Output) (f : Function) (r : Result Text (BucketWriter × Text))
      → IsOk r
      → (o : Output) × (written out f r ≡ ok o) × (o.function_count ≡ suc out.function_count)
  unfolding written add_entry
  written-IsOk out f r ((bw, rel), e) = (_, ap (written out f) e, refl)

  emit_all-IsOk :
      (rs : List Record) (out : Output)
      → (o : Output) × (emit_all dir open_error out rs ≡ ok o)
        × (o.function_count ≡ out.function_count + length rs)
  unfolding emit_all emit and_then
  emit_all-IsOk [] out = (out, refl, omega arith)
  emit_all-IsOk (r ∷ rs) out =
      let (bw, e) = write-IsOk out.bw (function_in r).addr_hex (block_of (function_in r)) in
      let (mid, e', count) = written-IsOk out (function_in r) _ (bw, e) in
      let (o, e'', count') = emit_all-IsOk rs mid in
      (
        o,
        ap (λ r'. and_then r' (λ o'. emit_all dir open_error o' rs)) e' ∙ e'',
        omega (arith, count, count'),
      )

  finish-IsOk :
      (n : ℕ) (out : Output)
      → (0 < out.function_count) ⊎ (n ≡ 0)
      → (x : SplitResult × Output) × (finish n out ≡ ok x)
        × (x.0.function_count ≡ out.function_count)
  unfolding finish
  finish-IsOk n out h =
      branches
        (λ r. (x : SplitResult × Output) × (r ≡ ok x) × (x.0.function_count ≡ out.function_count))
        (out.function_count == 0 && ltb 0 n) (λ e. absurd (refused h e)) (λ _. (_, refl, refl))
    where
      refused : (0 < out.function_count) ⊎ (n ≡ 0) → (out.function_count == 0 && ltb 0 n) ≡ true → ⊥
      refused h e = ground arith

  some_record : (rs : List Record) → rs ≢ [] → 0 < length rs
  some_record [] h = absurd (h refl)
  some_record (r ∷ rs) h = omega arith

  enough :
      (input : Text) (rs : List Record)
      → (rs ≢ []) ⊎ (input ≡ [])
      → (0 < length rs) ⊎ (length input ≡ 0)
  enough input rs (inl h) = inl (some_record rs h)
  enough input rs (inr h) = inr (ap length h)

  -- Where every file can be opened, the split of a file with a record, or of an empty file, succeeds
  -- and counts every record.
  pub split_decompiled_c-IsOk :
      (input : Text)
      → ((group (scan_lines [] input)).1 ≢ []) ⊎ (input ≡ [])
      → (result : SplitResult) × (out : Output) × (split_decompiled_c dir open_error input
          ≡ ok (result, out))
        × (result.function_count ≡ length (group (scan_lines [] input)).1)
  unfolding and_then
  split_decompiled_c-IsOk input h =
      let rs = (group (scan_lines [] input)).1 in
      let (o, e, count) = emit_all-IsOk rs new_output in
      let counted : o.function_count ≡ length rs = omega (arith, count) in
      let ((result, out), e', same) =
        finish-IsOk (length input) o
          (subst (λ n. (0 < n) ⊎ (length input ≡ 0)) (sym counted) (enough input rs h)) in
      (
        result,
        out,
        split_decompiled_c-emit_all dir open_error input
            ∙ ap (λ r. and_then r (λ o'. finish (length input) o')) e
            ∙ e',
        same ∙ counted,
      )

-- A file that is not empty and has no record is an error that says its size, whatever can be opened.
pub split_decompiled_c-no_functions :
    (dir : Text) (open_error : Text → Option Text) (input : Text)
    → (group (scan_lines [] input)).1 ≡ []
    → input ≢ []
    → split_decompiled_c dir open_error input ≡ err (no_functions (length input))
unfolding and_then emit_all finish
split_decompiled_c-no_functions dir open_error input h n =
    split_decompiled_c-emit_all dir open_error input
    ∙ ap (λ rs. and_then (emit_all dir open_error new_output rs) (λ o. finish (length input) o)) h
    ∙ refused input n
  where
    refused : (s : Text) → s ≢ [] → finish (length s) new_output ≡ err (no_functions (length s))
    refused [] n = absurd (n refl)
    refused (c ∷ s) n =
        branches (λ r. r ≡ err (no_functions (length (c ∷ s)))) (ltb 0 (length (c ∷ s))) (λ _. refl)
          (λ e. absurd (true-false (sym (lt→ltb 0 (length (c ∷ s)) (omega arith)) ∙ e)))
