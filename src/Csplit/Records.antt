-- ===== src/Csplit/Records.antt =====
-- What a combined .c file of internal/recipe/csplit.go says, as a list of records: the reading that
-- the line by line splitter of the source implements.
pub mod Refines
pub mod Catalog
pub mod Placed
pub mod Bounded
pub mod Total
use morgue.Common.{
  ℕ, zero, suc, ◌+◌, List, [], ◌∷◌, ◌++◌, Bool, true, false, not, ◌&&◌, Option, none, some, Result,
  ok, err, length, ltb, leb, if◌then◌else◌,
}
use morgue.Csplit.Text.{Text, trim_space, is_blank, to_lower}
use morgue.Csplit.Names.{func_header, is_total_line, extract_func_name}
use morgue.Csplit.Splitter.{Function, Output, emit, max_record_bytes, notice}
use morgue.Csplit.Outcomes.{and_then}

-- A header line with its address, and the lines up to the next header or total line.
pub record Record : Type 0 where
  pub address : Text
  pub header : Text
  pub body : List Text

unfoldable pub add_line : Option Text → Text → List Text × List Record → List Text × List Record
add_line (some a) line (loose, records) =
    ([], record { address = a; header = line; body = loose } ∷ records)
add_line none line (loose, records) = (line ∷ loose, records)

-- The lines before the first header or total line, and the records of the others: read from the
-- end, a header takes the loose lines behind it, and a total line drops them.
unfoldable pub group : List Text → List Text × List Record
group [] = ([], [])
group (line ∷ lines) =
    let rest = group lines in
    if is_total_line line then ([], rest.1) else add_line (func_header line) line rest

-- The first line that is not blank.
unfoldable pub first_line : List Text → Option Text
first_line [] = none
first_line (line ∷ lines) = let rest = first_line lines in if is_blank line then rest else some line

abbrev pub name_in : Option Text → Text
name_in none = []
name_in (some line) = extract_func_name line

abbrev pub sig_in : Option Text → Text
sig_in none = []
sig_in (some line) = trim_space line

unfoldable pub text_bytes : List Text → ℕ
text_bytes [] = 0
text_bytes (line ∷ lines) = length line + 1 + text_bytes lines

unfoldable pub unlines : List Text → Text
unlines [] = []
unlines (line ∷ lines) = (line ++ b'\n' ∷ []) ++ unlines lines

-- The lines behind `text` until the text is as long as the cap allows, and a notice if any is left.
unfoldable pub capped : Text → List Text → Text
capped text [] = text
capped text (line ∷ lines) =
    let more = capped (text ++ line ++ b'\n' ∷ []) lines in
    if leb max_record_bytes (length text) then text ++ notice else more

unfoldable pub function_in : Record → Function
unfolding first_line text_bytes capped to_lower
function_in r = record {
  addr_hex = to_lower r.address;
  name = name_in (first_line r.body);
  sig = sig_in (first_line r.body);
  bytes = text_bytes (r.header ∷ r.body);
  lines = suc (length r.body);
  raw = capped (r.header ++ b'\n' ∷ []) r.body;
}

module _ (dir : Text) (open_error : Text → Option Text) where
  -- The records of a file, emitted in their order up to the first error.
  unfoldable pub emit_all : Output → List Record → Result Text Output
  emit_all out [] = ok out
  emit_all out (r ∷ rs) = and_then (emit dir open_error out (function_in r)) (λ o. emit_all o rs)
