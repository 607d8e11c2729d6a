-- ===== src/Csplit/Records/Placed.antt =====
-- Where internal/recipe/csplit.go puts the text of a function: the catalog entry names the file.
use morgue.Common.{
  ℕ, ◌≡◌, refl, sym, ap, ap₂, ◌∙◌, List, [], ◌∷◌, ◌++◌, append_assoc, append-nil, map, ◌&&◌, Option,
  Result, ok, err, length, branches, ltb, ◌==◌,
}
use morgue.Csplit.Text.{Text, scan_lines}
use morgue.Csplit.Outcomes.{OnOk, OnOk-ok, OnOk-map, OnOk-and_then}
use morgue.Csplit.Buckets.{BucketWriter, close_open, new_bucket_writer, content, line_end}
use morgue.Csplit.Buckets.Contents.{final_content, if_at, Appends, write-Appends}
use morgue.Csplit.Splitter.{FuncEntry, Output, emit, written, add_entry, entry_of, block_of}
use morgue.Csplit.Split.{SplitResult, finish, new_output, split_decompiled_c}
use morgue.Csplit.Records.{Record, group, function_in, emit_all}
use morgue.Csplit.Records.Refines.{split_decompiled_c-emit_all}

-- An entry but for its file.
abbrev pub without_file : FuncEntry → FuncEntry
without_file e = record e { file = [] }

abbrev pub entry_in : Record → FuncEntry
entry_in r = entry_of (function_in r) []

abbrev pub block_in : Record → Text
block_in r = block_of (function_in r) ++ line_end (block_of (function_in r))

-- What the file of a path has got of the records whose entries name it.
unfoldable pub placed : Text → List FuncEntry → List Record → Text
placed path [] rs = []
placed path (e ∷ es) [] = []
placed path (e ∷ es) (r ∷ rs) = if_at e.file path (block_in r) ++ placed path es rs

-- From one output to a later one, over some records.
record Emits (out : Output) (rs : List Record) (out' : Output) : Type 0 where
  entries : List FuncEntry
  functions : out'.functions ≡ out.functions ++ entries
  described : map without_file entries ≡ map entry_in rs
  contents :
      (path : Text)
      → final_content out'.bw path ≡ final_content out.bw path ++ placed path entries rs

record EmitsOne (out : Output) (r : Record) (out' : Output) : Type 0 where
  entry : FuncEntry
  functions : out'.functions ≡ out.functions ++ entry ∷ []
  described : without_file entry ≡ entry_in r
  contents :
      (path : Text)
      → final_content out'.bw path ≡ final_content out.bw path ++ if_at entry.file path (block_in r)

-- What the catalog and the files say of the records.
pub record Placed (rs : List Record) (x : SplitResult × Output) : Type 0 where
  pub described : map without_file x.1.functions ≡ map entry_in rs
  pub contents : (path : Text) → content path x.1.bw.files ≡ placed path x.1.functions rs

module _ (dir : Text) (open_error : Text → Option Text) where
  written-EmitsOne :
      (out : Output) (r : Record) (w : Result Text (BucketWriter × Text))
      → Appends out.bw (block_of (function_in r)) w
      → OnOk (λ o. EmitsOne out r o) (written out (function_in r) w)
  unfolding written add_entry entry_of
  written-EmitsOne out r (err e) h = tt
  written-EmitsOne out r (ok (bw, rel)) h = record {
    entry = entry_of (function_in r) rel;
    functions = refl;
    described = refl;
    contents = h;
  }

  Emits-then :
      (out mid out' : Output) (r : Record) (rs : List Record)
      → EmitsOne out r mid
      → Emits mid rs out'
      → Emits out (r ∷ rs) out'
  unfolding placed
  Emits-then out mid out' r rs h k = record {
    entries = h.entry ∷ k.entries;
    functions =
        k.functions
        ∙ ap (λ s. s ++ k.entries) h.functions
        ∙ append_assoc out.functions (h.entry ∷ []) k.entries;
    described = ap₂ (λ x xs. x ∷ xs) h.described k.described;
    contents = λ path.
        k.contents path
        ∙ ap (λ s. s ++ placed path k.entries rs) (h.contents path)
        ∙ append_assoc (final_content out.bw path) (if_at h.entry.file path (block_in r))
            (placed path k.entries rs);
  }

  emit_all-Emits :
      (rs : List Record) (out : Output)
      → OnOk (λ o. Emits out rs o) (emit_all dir open_error out rs)
  unfolding emit_all emit placed
  emit_all-Emits [] out = record {
    entries = [];
    functions = sym (append-nil out.functions);
    described = refl;
    contents = λ path. sym (append-nil (final_content out.bw path));
  }
  emit_all-Emits (r ∷ rs) out =
      OnOk-and_then (λ mid. EmitsOne out r mid) (λ o. Emits out (r ∷ rs) o) _
        (λ o. emit_all dir open_error o rs)
        (written-EmitsOne out r _
          (write-Appends dir open_error out.bw (function_in r).addr_hex (block_of (function_in r))))
        (λ mid h.
          OnOk-map (λ o. Emits mid rs o) (λ o. Emits out (r ∷ rs) o)
            (emit_all dir open_error mid rs) (λ o. Emits-then out mid o r rs h)
            (emit_all-Emits rs mid))

  finish-Placed :
      (n : ℕ) (rs : List Record) (out : Output)
      → Emits new_output rs out
      → OnOk (Placed rs) (finish n out)
  unfolding finish final_content close_open content placed new_bucket_writer
  finish-Placed n rs out h =
      branches (OnOk (Placed rs)) (out.function_count == 0 && ltb 0 n) (λ _. tt)
        (λ _. record {
          described = ap (map without_file) h.functions ∙ h.described;
          contents = λ path. h.contents path ∙ ap (λ es. placed path es rs) (sym h.functions);
        })

  -- A split that succeeds has an entry in functions.ndjson for every record, in the order of the
  -- file, with the name, address, size, lines and signature of the record; and at every path the
  -- split files hold the blocks of exactly the records whose entry names this path, in the order of
  -- the entries: no block is lost, overwritten or put elsewhere, in whatever order the addresses come.
  pub split_decompiled_c-Placed :
      (input : Text) (result : SplitResult) (out : Output)
      → split_decompiled_c dir open_error input ≡ ok (result, out)
      → Placed (group (scan_lines [] input)).1 (result, out)
  split_decompiled_c-Placed input result out e =
      let rs = (group (scan_lines [] input)).1 in
      OnOk-ok (Placed rs) _ (result, out)
        (OnOk-and_then (λ o. Emits new_output rs o) (Placed rs) _ (λ o. finish (length input) o)
          (emit_all-Emits rs new_output) (λ o. finish-Placed (length input) rs o))
        (sym (split_decompiled_c-emit_all dir open_error input) ∙ e)
