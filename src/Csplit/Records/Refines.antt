-- ===== src/Csplit/Records/Refines.antt =====
-- The splitter of internal/recipe/csplit.go emits the records of the file.
use morgue.Common.{
  ℕ, ◌+◌, ◌≡◌, refl, sym, ap, ap₂, ◌∙◌, List, [], ◌∷◌, Bool, true, false, Option, none, some,
  Result, ok, err, length, if◌then◌else◌, arith,
}
use morgue.Csplit.Text.{Text, trim_space, scan_lines}
use morgue.Csplit.Split.{finish, new_output, new_state, split_decompiled_c}
use morgue.Csplit.Names.{func_header, is_total_line, extract_func_name}
use morgue.Csplit.Splitter.{
  Function, Output, State, emit, flush, start_record, on_other_line, on_line, append_line,
  stream_lines, started, closed, function_of,
}
use morgue.Csplit.Records.{add_line, group, first_line, text_bytes, capped, function_in, emit_all}
use morgue.Csplit.Outcomes.{and_then}

-- A name or a signature that a state has, and the lines behind it.
name_else : Text → Option Text → Text
unfolding extract_func_name
name_else name none = name
name_else name (some line) = extract_func_name line

sig_else : Text → Option Text → Text
unfolding trim_space
sig_else sig none = sig
sig_else sig (some line) = trim_space line

-- The function that a state in a record has read when it has seen the lines too.
pub after : State → List Text → Function
unfolding first_line text_bytes capped name_else sig_else
after s lines = record {
  addr_hex = s.rec_addr_hex;
  name = if s.sig_pending then name_else s.rec_name (first_line lines) else s.rec_name;
  sig = if s.sig_pending then sig_else s.rec_sig (first_line lines) else s.rec_sig;
  bytes = s.rec_bytes + text_bytes lines;
  lines = s.rec_lines + length lines;
  raw = if s.rec_capped then s.rec_builder else capped s.rec_builder lines;
}

pub after-append_line :
    (s : State) (line : Text) (lines : List Text)
    → after (append_line s line) lines ≡ after s (line ∷ lines)
unfolding after append_line first_line text_bytes capped
after-append_line s line lines = ground arith

pub after-started :
    (out : Output) (addr line : Text) (lines : List Text)
    → after (started out addr line) lines
      ≡ function_in (record { address = addr; header = line; body = lines })
unfolding after function_in text_bytes
after-started out addr line lines = ground arith

pub after_nothing : (s : State) → after s [] ≡ function_of s
unfolding after first_line text_bytes capped
after_nothing s = ground arith

append_line-in_record :
    (s : State) (line : Text)
    → ((append_line s line).in_record ≡ s.in_record) × ((append_line s line).out ≡ s.out)
unfolding append_line
append_line-in_record s line = ground arith

module _ (dir : Text) (open_error : Text → Option Text) where
  -- The output of a run.
  final : Result Text State → Result Text Output
  final (err e) = err e
  final (ok s) = ok s.out

  -- What follows a flush sees its output in a state without a record.
  flush_then {ℓ} :
      {B : Type ℓ} (s : State) (f : State → Result Text B)
      → s.in_record ≡ true
      → and_then (flush dir open_error s) f
        ≡ and_then (emit dir open_error s.out (after s [])) (λ o. f (closed s o))
  unfolding flush and_then
  flush_then s f h =
      ap
        (λ (b : Bool).
          and_then (if b then closing (emit dir open_error s.out (function_of s)) else ok s) f)
        h
      ∙ through (emit dir open_error s.out (function_of s))
      ∙ ap (λ g. and_then (emit dir open_error s.out g) (λ o. f (closed s o)))
          (sym (after_nothing s))
    where
      closing : Result Text Output → Result Text State
      closing r = and_then r (λ o. ok (closed s o))

      through : (r : Result Text Output) → and_then (closing r) f ≡ and_then r (λ o. f (closed s o))
      through (err e) = refl
      through (ok o) = refl

  idle_flush : (s : State) → s.in_record ≡ false → flush dir open_error s ≡ ok s
  unfolding flush
  idle_flush s h =
      ap
        (λ (b : Bool).
          if b
          then and_then (emit dir open_error s.out (function_of s)) (λ o. ok (closed s o))
          else ok s)
        h

  and_then_assoc {ℓ} :
      {B : Type ℓ} (r : Result Text State) (f : State → Result Text State)
      (g : State → Result Text B)
      → and_then (and_then r f) g ≡ and_then r (λ t. and_then (f t) g)
  unfolding and_then
  and_then_assoc (err e) f g = refl
  and_then_assoc (ok t) f g = refl

  and_then_ok : (r : Result Text State) → and_then r (λ t. ok t) ≡ r
  unfolding and_then
  and_then_ok (err e) = refl
  and_then_ok (ok t) = refl

  final_each :
      (r : Result Text Output) (f : Output → Result Text State) (g : Output → Result Text Output)
      → ((o : Output) → final (f o) ≡ g o)
      → final (and_then r f) ≡ and_then r g
  unfolding and_then final
  final_each (err e) f g h = refl
  final_each (ok o) f g h = h o

  abbrev Idle : List Text → Type 0
  Idle lines =
      (s : State)
      → s.in_record ≡ false
      → final (stream_lines dir open_error s lines) ≡ emit_all dir open_error s.out (group lines).1

  abbrev Open : List Text → Type 0
  Open lines =
      (s : State)
      → s.in_record ≡ true
      → final (stream_lines dir open_error s lines)
        ≡ and_then (emit dir open_error s.out (after s (group lines).0))
            (λ o. emit_all dir open_error o (group lines).1)

  -- What `on_line` and `group` do with a line, by the two tests that they share.
  -- A record that starts is emitted with the lines behind it.
  Open-started :
      (line : Text) (lines : List Text)
      → Open lines
      → (a : Text) (o : Output)
      → final (stream_lines dir open_error (started o a line) lines)
        ≡ emit_all dir open_error o
            (record { address = a; header = line; body = (group lines).0 } ∷ (group lines).1)
  unfolding emit_all
  Open-started line lines open_ a o =
      open_ (started o a line) refl
      ∙ ap
          (λ (f : Function).
            and_then (emit dir open_error o f) (λ o'. emit_all dir open_error o' (group lines).1))
          (after-started o a line (group lines).0)

  Idle-line :
      (line : Text) (lines : List Text)
      → Idle lines
      → Open lines
      → (total : Bool) (header : Option Text) (s : State) → s.in_record ≡ false
      → final (
          and_then
            (if total then flush dir open_error s else on_other_line dir open_error header s line)
            (λ t. stream_lines dir open_error t lines))
        ≡ emit_all dir open_error s.out
            (if total then ([], (group lines).1) else add_line header line (group lines)).1
  unfolding add_line on_other_line start_record and_then
  Idle-line line lines idle open_ true header s h =
      ap (λ r. final (and_then r (λ t. stream_lines dir open_error t lines))) (idle_flush s h)
      ∙ idle s h
  Idle-line line lines idle open_ false (some a) s h =
      ap
        (λ r. final (
          and_then (and_then r (λ t. ok (started t.out a line)))
            (λ t. stream_lines dir open_error t lines)))
        (idle_flush s h)
      ∙ Open-started line lines open_ a s.out
  Idle-line line lines idle open_ false none s h =
      ap
        (λ (b : Bool).
          final (stream_lines dir open_error (if b then append_line s line else s) lines))
        h
      ∙ idle s h

  Open-line :
      (line : Text) (lines : List Text)
      → Idle lines
      → Open lines
      → (total : Bool) (header : Option Text) (s : State) → s.in_record ≡ true
      → final (
          and_then
            (if total then flush dir open_error s else on_other_line dir open_error header s line)
            (λ t. stream_lines dir open_error t lines))
        ≡ and_then
            (emit dir open_error s.out (
              after s
                (if total then ([], (group lines).1) else add_line header line (group lines)).0))
            (λ o.
              emit_all dir open_error o
                (if total then ([], (group lines).1) else add_line header line (group lines)).1)
  unfolding add_line on_other_line start_record and_then
  Open-line line lines idle open_ true header s h =
      ap final (flush_then s (λ t. stream_lines dir open_error t lines) h)
      ∙ final_each (emit dir open_error s.out (after s []))
          (λ o. stream_lines dir open_error (closed s o) lines)
          (λ o. emit_all dir open_error o (group lines).1) (λ o. idle (closed s o) refl)
  Open-line line lines idle open_ false (some a) s h =
      ap final (
        and_then_assoc (flush dir open_error s) (λ t. ok (started t.out a line))
          (λ t. stream_lines dir open_error t lines)
        ∙ flush_then s (λ t. stream_lines dir open_error (started t.out a line) lines) h)
      ∙ final_each (emit dir open_error s.out (after s []))
          (λ o. stream_lines dir open_error (started o a line) lines)
          (λ o.
            emit_all dir open_error o
              (record { address = a; header = line; body = (group lines).0 } ∷ (group lines).1))
          (Open-started line lines open_ a)
  Open-line line lines idle open_ false none s h =
      let same = append_line-in_record s line in
      ap
        (λ (b : Bool).
          final (stream_lines dir open_error (if b then append_line s line else s) lines))
        h
      ∙ open_ (append_line s line) (same.0 ∙ h)
      ∙ ap₂
          (λ o f.
            and_then (emit dir open_error o f) (λ o'. emit_all dir open_error o' (group lines).1))
          (same.1) (after-append_line s line (group lines).0)

  -- A run from a state outside of a record emits the records of the lines; a run from one in a
  -- record emits that of the state with the loose lines in front of them.
  runs : (lines : List Text) → Idle lines × Open lines
  unfolding stream_lines group on_line emit_all final and_then
  runs [] = (
    λ s h. ap final (idle_flush s h),
    λ s h.
        ap final (sym (and_then_ok (flush dir open_error s)) ∙ flush_then s (λ t. ok t) h)
        ∙ final_each (emit dir open_error s.out (after s [])) (λ o. ok (closed s o)) (λ o. ok o)
            (λ o. refl),
  )
  runs (line ∷ lines) =
      let (idle, open_) = runs lines in
      (
        Idle-line line lines idle open_ (is_total_line line) (func_header line),
        Open-line line lines idle open_ (is_total_line line) (func_header line),
      )

  final_then :
      (r : Result Text State) (n : ℕ)
      → and_then r (λ s. finish n s.out) ≡ and_then (final r) (λ o. finish n o)
  unfolding and_then final
  final_then (err e) n = refl
  final_then (ok s) n = refl

  -- Splitting a file is emitting its records one by one, in their order and up to the first error,
  -- and then the check of the result: a record is a header line with the lines up to the next header
  -- or total line, the lines before the first header and between a total line and the next header
  -- count for nothing, and the name, the size, the lines and the capped text of a record are those
  -- that are read from the whole of it.
  pub split_decompiled_c-emit_all :
      (input : Text)
      → split_decompiled_c dir open_error input
        ≡ and_then
            (emit_all dir open_error new_output (group (scan_lines [] input)).1)
            (λ o. finish (length input) o)
  unfolding split_decompiled_c
  split_decompiled_c-emit_all input =
      final_then (stream_lines dir open_error new_state (scan_lines [] input)) (length input)
      ∙ ap (λ r. and_then r (λ o. finish (length input) o))
          ((runs (scan_lines [] input)).0 new_state refl)
