-- ===== src/Csplit/Splitter.antt =====
-- splitDecompiledC of internal/recipe/csplit.go: its record state, its closures flush, startRecord,
-- appendLine and onLine, and the result.
use morgue.Common.{
  ℕ, suc, ◌+◌, List, [], ◌∷◌, ◌++◌, Bool, true, false, not, ◌&&◌, ◌||◌, Option, none, some, Result,
  ok, err, length, ltb, leb, if◌then◌else◌, codes, itoa,
}
use morgue.Csplit.Text.{Text, is_empty, trim_space, is_blank, to_lower}
use morgue.Csplit.Names.{
  func_header, is_total_line, is_anon_name, extract_func_name, cpp_class_owner, is_in,
}
use morgue.Csplit.Refs.{extract_refs}
use morgue.Csplit.Buckets.{BucketWriter, write}
use morgue.Csplit.Outcomes.{and_then}

pub record FuncEntry : Type 0 where
  pub name : Text
  pub address : Text
  pub size_bytes : ℕ
  pub lines : ℕ
  pub is_named : Bool
  pub file : Text
  pub signature : Text

pub record SymbolEntry : Type 0 where
  pub address : Text
  pub name : Text

-- What a split has counted and collected: the counters and the sample of splitResult, the keys of
-- classSet in the order of their first use, the entries of functions.ndjson and symbols.ndjson, the
-- rows of string_refs.csv and callers.csv, and the writer of the split files.
pub record Output : Type 0 where
  pub bw : BucketWriter
  pub functions : List FuncEntry
  pub symbols : List SymbolEntry
  pub string_refs : List (Text × (Text × Text))
  pub callers : List (Text × (Text × Text))
  pub class_set : List Text
  pub function_count : ℕ
  pub named_count : ℕ
  pub anonymous_count : ℕ
  pub total_function_bytes : ℕ
  pub sample : List FuncEntry

-- The record that is being read, and the output of those before. recSigDone is set and never read.
pub record State : Type 0 where
  pub in_record : Bool
  pub rec_addr_hex : Text
  pub rec_builder : Text
  pub rec_bytes : ℕ
  pub rec_lines : ℕ
  pub rec_capped : Bool
  pub sig_pending : Bool
  pub rec_name : Text
  pub rec_sig : Text
  pub out : Output

abbrev pub sample_function_cap : ℕ
sample_function_cap = 50000

abbrev pub max_record_bytes : ℕ
max_record_bytes = 67108864

abbrev pub notice : Text
notice = codes "// ... [record body truncated by Morgue: exceeded in-memory cap] ...\n"

-- The name of a record: that of its signature, or the one that Ghidra would give.
unfoldable pub name_or_default : Text → Text → Text
name_or_default name addr = if is_empty name then codes "FUN_" ++ addr else name

unfoldable pub is_named_name : Text → Bool
is_named_name name = not (is_empty name) && not (is_anon_name name)

unfoldable pub block_header : Text → Text → ℕ → ℕ → Text
block_header name addr bytes lines =
    codes "// === "
    ++ name
    ++ codes " @ 0x"
    ++ addr
    ++ codes " (size="
    ++ itoa bytes
    ++ codes " lines="
    ++ itoa lines
    ++ codes ") ===\n"

abbrev rows : Text → Text → List Text → List (Text × (Text × Text))
rows name addr [] = []
rows name addr (r ∷ refs) = (name, (addr, r)) ∷ rows name addr refs

abbrev pub add_class : Text → List Text → List Text
add_class owner classes =
    if is_empty owner || is_in owner classes then classes else classes ++ owner ∷ []

-- The part of flush behind the write of the split file: every stream gets its entries.
unfoldable pub add_entry : Output → FuncEntry → Text → Output
unfolding cpp_class_owner extract_refs is_in
add_entry out entry raw = record out {
  functions = out.functions ++ entry ∷ [];
  function_count = suc out.function_count;
  total_function_bytes = out.total_function_bytes + entry.size_bytes;
  named_count = if entry.is_named then suc out.named_count else out.named_count;
  anonymous_count = if entry.is_named then out.anonymous_count else suc out.anonymous_count;
  sample =
      if ltb (length out.sample) sample_function_cap then out.sample ++ entry ∷ [] else out.sample;
  symbols = out.symbols ++ record { address = entry.address; name = entry.name } ∷ [];
  class_set = add_class (cpp_class_owner entry.name) out.class_set;
  string_refs = out.string_refs ++ rows entry.name entry.address (extract_refs raw entry.name).0;
  callers = out.callers ++ rows entry.name entry.address (extract_refs raw entry.name).1;
}

-- What flush writes of a record.
pub record Function : Type 0 where
  pub addr_hex : Text
  pub name : Text
  pub sig : Text
  pub bytes : ℕ
  pub lines : ℕ
  pub raw : Text

unfoldable pub entry_of : Function → Text → FuncEntry
unfolding name_or_default is_named_name
entry_of f file = record {
  name = name_or_default f.name f.addr_hex;
  address = codes "0x" ++ f.addr_hex;
  size_bytes = f.bytes;
  lines = f.lines;
  is_named = is_named_name (name_or_default f.name f.addr_hex);
  file = file;
  signature = f.sig;
}

unfoldable pub block_of : Function → Text
unfolding block_header name_or_default
block_of f = block_header (name_or_default f.name f.addr_hex) f.addr_hex f.bytes f.lines ++ f.raw

unfoldable pub written : Output → Function → Result Text (BucketWriter × Text) → Result Text Output
unfolding add_entry entry_of
written out f (err e) = err e
written out f (ok (bw, rel)) = ok (add_entry (record out { bw = bw }) (entry_of f rel) f.raw)

abbrev pub closed : State → Output → State
closed s out = record s {
  in_record = false;
  rec_builder = [];
  rec_bytes = 0;
  rec_lines = 0;
  rec_capped = false;
  sig_pending = false;
  rec_name = [];
  rec_sig = [];
  out = out;
}

abbrev pub started : Output → Text → Text → State
started out addr line = record {
  in_record = true;
  rec_addr_hex = to_lower addr;
  rec_builder = line ++ b'\n' ∷ [];
  rec_bytes = length line + 1;
  rec_lines = 1;
  rec_capped = false;
  sig_pending = true;
  rec_name = [];
  rec_sig = [];
  out = out;
}

abbrev pub function_of : State → Function
function_of s = record {
  addr_hex = s.rec_addr_hex;
  name = s.rec_name;
  sig = s.rec_sig;
  bytes = s.rec_bytes;
  lines = s.rec_lines;
  raw = s.rec_builder;
}

abbrev pub with_signature : State → Text → State
with_signature s line =
    if s.sig_pending && not (is_blank line)
    then record s {
      rec_name = extract_func_name line;
      rec_sig = trim_space line;
      sig_pending = false;
    }
    else s

abbrev pub with_body : State → Text → State
with_body s line =
    if s.rec_capped
    then s
    else if leb max_record_bytes (length s.rec_builder)
    then record s { rec_builder = s.rec_builder ++ notice; rec_capped = true }
    else record s { rec_builder = s.rec_builder ++ line ++ b'\n' ∷ [] }

unfoldable pub append_line : State → Text → State
unfolding extract_func_name trim_space
append_line s line =
    with_body
      (with_signature
        (record s { rec_bytes = s.rec_bytes + (length line + 1); rec_lines = suc s.rec_lines })
        line)
      line

module _ (dir : Text) (open_error : Text → Option Text) where
  unfoldable pub emit : Output → Function → Result Text Output
  emit out f = written out f (write dir open_error out.bw f.addr_hex (block_of f))

  unfoldable pub flush : State → Result Text State
  flush s =
      if s.in_record then and_then (emit s.out (function_of s)) (λ out. ok (closed s out)) else ok s

  unfoldable pub start_record : State → Text → Text → Result Text State
  start_record s addr line = and_then (flush s) (λ t. ok (started t.out addr line))

  unfoldable pub on_other_line : Option Text → State → Text → Result Text State
  on_other_line (some addr) s line = start_record s addr line
  on_other_line none s line = ok (if s.in_record then append_line s line else s)

  unfoldable pub on_line : State → Text → Result Text State
  on_line s line = if is_total_line line then flush s else on_other_line (func_header line) s line

  -- streamLines over the lines, and the flush of the last record.
  unfoldable pub stream_lines : State → List Text → Result Text State
  stream_lines s [] = flush s
  stream_lines s (line ∷ lines) = and_then (on_line s line) (λ t. stream_lines t lines)
