-- ===== src/Csplit/Records/Catalog.antt =====
-- What the catalogs of internal/recipe/csplit.go say of the records of a file.
use morgue.Common.{
  ℕ, zero, suc, ◌+◌, ◌≡◌, refl, sym, ap, ◌∙◌, List, [], ◌∷◌, ◌++◌, map, Bool, true, false, ◌&&◌,
  Option, Result, ok, err, length, take, ltb, if◌then◌else◌, arith, branches, length-append, lt→ltb,
  ◌==◌,
}
use morgue.Csplit.Text.{Text, scan_lines}
use morgue.Csplit.Buckets.{BucketWriter}
use morgue.Csplit.Records.Refines.{split_decompiled_c-emit_all}
use morgue.Csplit.Splitter.{
  Function, FuncEntry, SymbolEntry, Output, emit, written, add_entry, entry_of, sample_function_cap,
}
use morgue.Csplit.Outcomes.{OnOk, OnOk-ok, OnOk-and_then}
use morgue.Csplit.Records.{Record, group, function_in, emit_all}
use morgue.Csplit.Split.{SplitResult, finish, new_output, split_decompiled_c}

abbrev pub count_named : List FuncEntry → ℕ
count_named [] = 0
count_named (e ∷ es) = if e.is_named then suc (count_named es) else count_named es

abbrev pub sum_bytes : List FuncEntry → ℕ
sum_bytes [] = 0
sum_bytes (e ∷ es) = e.size_bytes + sum_bytes es

abbrev pub symbol_of : FuncEntry → SymbolEntry
symbol_of e = record { address = e.address; name = e.name }

-- The counters, the sample and the symbols are those of the entries of functions.ndjson.
pub record Consistent (out : Output) : Type 0 where
  pub function_count : out.function_count ≡ length out.functions
  pub named_count : out.named_count ≡ count_named out.functions
  pub anonymous_count : out.named_count + out.anonymous_count ≡ length out.functions
  pub total_function_bytes : out.total_function_bytes ≡ sum_bytes out.functions
  pub symbols : out.symbols ≡ map symbol_of out.functions
  pub sample : out.sample ≡ take sample_function_cap out.functions

count_named_append :
    (es : List FuncEntry) (e : FuncEntry)
    → count_named (es ++ e ∷ []) ≡ (if e.is_named then suc (count_named es) else count_named es)
count_named_append [] e = refl
count_named_append (x ∷ es) e = ground (arith, count_named_append es e)

sum_bytes_append :
    (es : List FuncEntry) (e : FuncEntry) → sum_bytes (es ++ e ∷ []) ≡ sum_bytes es + e.size_bytes
sum_bytes_append [] e = omega arith
sum_bytes_append (x ∷ es) e = omega (arith, sum_bytes_append es e)

map_append :
    (es : List FuncEntry) (e : FuncEntry)
    → map symbol_of (es ++ e ∷ []) ≡ map symbol_of es ++ symbol_of e ∷ []
map_append [] e = refl
map_append (x ∷ es) e = ap (λ t. symbol_of x ∷ t) (map_append es e)

take_nil : (n : ℕ) → take {A = FuncEntry} n [] ≡ []
take_nil zero = refl
take_nil (suc n) = refl

ltb-suc : (a b : ℕ) → ltb a b ≡ ltb (suc a) (suc b)
ltb-suc a b = ground arith

-- A sample takes one more entry as long as it is short.
take_append_one :
    (n : ℕ) (es : List FuncEntry) (e : FuncEntry)
    → take n (es ++ e ∷ [])
      ≡ (if ltb (length (take n es)) n then take n es ++ e ∷ [] else take n es)
take_append_one zero es e = refl
take_append_one (suc n) [] e =
    ap (λ t. e ∷ t) (take_nil n)
    ∙ ap (λ (b : Bool). if b then e ∷ [] else []) (sym (lt→ltb 0 (suc n) (omega arith)))
take_append_one (suc n) (x ∷ es) e =
    ap (λ t. x ∷ t) (take_append_one n es e)
    ∙ inside (ltb (length (take n es)) n)
    ∙ ap (λ (b : Bool). if b then x ∷ (take n es ++ e ∷ []) else x ∷ take n es)
        (ltb-suc (length (take n es)) n)
  where
    inside :
        (b : Bool)
        → x ∷ (if b then take n es ++ e ∷ [] else take n es)
          ≡ (if b then x ∷ (take n es ++ e ∷ []) else x ∷ take n es)
    inside true = refl
    inside false = refl

add_entry-Consistent :
    (out : Output) (e : FuncEntry) (raw : Text) → Consistent out → Consistent (add_entry out e raw)
unfolding add_entry
add_entry-Consistent out e raw h = record {
  function_count = omega (arith, h.function_count, length-append out.functions (e ∷ []));
  named_count =
      ap (λ n. if e.is_named then suc n else n) h.named_count
      ∙ sym (count_named_append out.functions e);
  anonymous_count =
      one_more e.is_named out.named_count out.anonymous_count
      ∙ ap suc h.anonymous_count
      ∙ omega (arith, length-append out.functions (e ∷ []));
  total_function_bytes = omega (arith, h.total_function_bytes, sum_bytes_append out.functions e);
  symbols = ap (λ s. s ++ symbol_of e ∷ []) h.symbols ∙ sym (map_append out.functions e);
  sample =
      ap (λ (s : List FuncEntry). if ltb (length s) sample_function_cap then s ++ e ∷ [] else s)
        h.sample
      ∙ sym (take_append_one sample_function_cap out.functions e);
}
  where
    one_more :
        (b : Bool) (m n : ℕ) → (if b then suc m else m) + (if b then n else suc n) ≡ suc (m + n)
    one_more true m n = omega arith
    one_more false m n = omega arith

written-Consistent :
    (out : Output) (f : Function) (r : Result Text (BucketWriter × Text))
    → Consistent out
    → OnOk Consistent (written out f r)
unfolding written
written-Consistent out f (err e) h = tt
written-Consistent out f (ok (bw, rel)) h =
    add_entry-Consistent (record out { bw = bw }) (entry_of f rel) f.raw
      (record {
        function_count = h.function_count;
        named_count = h.named_count;
        anonymous_count = h.anonymous_count;
        total_function_bytes = h.total_function_bytes;
        symbols = h.symbols;
        sample = h.sample;
      })

-- The result and the output agree.
pub record Reported (x : SplitResult × Output) : Type 0 where
  pub consistent : Consistent x.1
  pub function_count : x.0.function_count ≡ x.1.function_count
  pub named_count : x.0.named_count ≡ x.1.named_count
  pub anonymous_count : x.0.anonymous_count ≡ x.1.anonymous_count
  pub total_function_bytes : x.0.total_function_bytes ≡ x.1.total_function_bytes
  pub sample : x.0.sample ≡ x.1.sample

module _ (dir : Text) (open_error : Text → Option Text) where
  emit_all-Consistent :
      (rs : List Record) (out : Output)
      → Consistent out
      → OnOk Consistent (emit_all dir open_error out rs)
  unfolding emit_all emit
  emit_all-Consistent [] out h = h
  emit_all-Consistent (r ∷ rs) out h =
      OnOk-and_then Consistent Consistent _ _ (written-Consistent out (function_in r) _ h)
        (λ o. emit_all-Consistent rs o)

  finish-Reported : (n : ℕ) (out : Output) → Consistent out → OnOk Reported (finish n out)
  unfolding finish
  finish-Reported n out h =
      branches (OnOk Reported) (out.function_count == 0 && ltb 0 n) (λ _. tt)
        (λ _. record {
          consistent = record {
            function_count = h.function_count;
            named_count = h.named_count;
            anonymous_count = h.anonymous_count;
            total_function_bytes = h.total_function_bytes;
            symbols = h.symbols;
            sample = h.sample;
          };
          function_count = refl;
          named_count = refl;
          anonymous_count = refl;
          total_function_bytes = refl;
          sample = refl;
        })

  -- A split that succeeds counts what it has written to functions.ndjson: the function count is the
  -- number of the entries, the named and the anonymous functions are those whose entry says so and
  -- make up all, the bytes are the sum of the sizes, symbols.ndjson has the address and the name of
  -- every entry in the same order, and the sample has the first 50,000 entries; and the result has the
  -- same counts and sample.
  pub split_decompiled_c-Consistent :
      (input : Text) (result : SplitResult) (out : Output)
      → split_decompiled_c dir open_error input ≡ ok (result, out)
      → Reported (result, out)
  split_decompiled_c-Consistent input result out e =
      OnOk-ok Reported _ (result, out)
        (OnOk-and_then Consistent Reported _ _
          (emit_all-Consistent (group (scan_lines [] input)).1 new_output (record {
            function_count = refl;
            named_count = refl;
            anonymous_count = refl;
            total_function_bytes = refl;
            symbols = refl;
            sample = refl;
          }))
          (λ o. finish-Reported (length input) o))
        (sym (split_decompiled_c-emit_all dir open_error input) ∙ e)
