-- ===== src/Csplit/Records/Bounded.antt =====
-- How much of a record internal/recipe/csplit.go holds in memory.
use morgue.Common.{
  ℕ, suc, ◌+◌, ◌≡◌, ◌≤◌, ◌<◌, ◌⊎◌, inl, inr, Bool-cases, subst, sym, ap, ◌∙◌, List, [], ◌∷◌, ◌++◌,
  append_assoc, append-nil, length, length-append, All, leb, arith, branches, leb→le, leb-false→lt,
  true,
}
use morgue.Csplit.Text.{Text}
use morgue.Csplit.Splitter.{
  Output, State, max_record_bytes, notice, append_line, started, function_of,
}
use morgue.Csplit.Records.Refines.{after, after-append_line, after-started, after_nothing}
use morgue.Csplit.Records.{Record, capped, text_bytes, unlines, function_in}

ends : (text line : Text) → length (text ++ line ++ b'\n' ∷ []) ≡ length text + length line + 1
ends text line = omega (arith, length-append (text ++ line) (b'\n' ∷ []), length-append text line)

capped_short :
    (text : Text) (lines : List Text)
    → length text + text_bytes lines ≤ max_record_bytes
    → capped text lines ≡ text ++ unlines lines
unfolding capped text_bytes unlines
capped_short text [] h = sym (append-nil text)
capped_short text (line ∷ lines) h =
    branches (λ (s : Text). s ≡ text ++ ((line ++ b'\n' ∷ []) ++ unlines lines))
      (leb max_record_bytes (length text)) (λ e. absurd (full e))
      (λ _.
        capped_short (text ++ line ++ b'\n' ∷ []) lines (omega (arith, ends text line, h))
        ∙ append_assoc (text ++ line) (b'\n' ∷ []) (unlines lines)
        ∙ append_assoc text line (b'\n' ∷ unlines lines)
        ∙ ap (λ s. text ++ s) (sym (append_assoc line (b'\n' ∷ []) (unlines lines))))
  where
    full : leb max_record_bytes (length text) ≡ true → ⊥
    full e = omega (arith, leb→le max_record_bytes (length text) e, h)

-- No line is longer than `m`.
abbrev pub Within : ℕ → Text → Type 0
Within m line = length line ≤ m

capped_bound :
    (m : ℕ) (text : Text) (lines : List Text)
    → All (Within m) lines
    → length text ≤ max_record_bytes + m + 1
    → length (capped text lines) ≤ max_record_bytes + m + 1 + length notice
unfolding capped
capped_bound m text [] a h = omega (arith, h)
capped_bound m text (line ∷ lines) (within, a) h =
    branches (λ (s : Text). length s ≤ max_record_bytes + m + 1 + length notice)
      (leb max_record_bytes (length text)) (λ _. omega (arith, length-append text notice, h))
      (λ e.
        capped_bound m (text ++ line ++ b'\n' ∷ []) lines a
          (omega (arith, ends text line, within, leb-false→lt max_record_bytes (length text) e)))

-- The loop of onLine over lines that are no headers and no total lines.
unfoldable pub append_lines : State → List Text → State
append_lines s [] = s
append_lines s (line ∷ lines) = append_lines (append_line s line) lines

after-append_lines :
    (s : State) (lines : List Text) → function_of (append_lines s lines) ≡ after s lines
unfolding append_lines
after-append_lines s [] = sym (after_nothing s)
after-append_lines s (line ∷ lines) =
    after-append_lines (append_line s line) lines ∙ after-append_line s line lines

-- What a state holds of the record with a header and a body, if no line is longer than `m`.
pub record Holds (m : ℕ) (header : Text) (body : List Text) (s : State) : Type 0 where
  pub bound : length s.rec_builder ≤ max_record_bytes + m + 1 + length notice
  pub bytes : s.rec_bytes ≡ text_bytes (header ∷ body)
  pub lines : s.rec_lines ≡ suc (length body)
  pub text :
      (max_record_bytes < text_bytes (header ∷ body)) ⊎ (s.rec_builder ≡ unlines (header ∷ body))

whole_or_long :
    (header : Text) (body : List Text)
    → (max_record_bytes < text_bytes (header ∷ body))
      ⊎ (capped (header ++ b'\n' ∷ []) body ≡ unlines (header ∷ body))
unfolding text_bytes unlines
whole_or_long header body = elim (Bool-cases (leb (text_bytes (header ∷ body)) max_record_bytes)) [
  | inl e ↦ inr (
      capped_short (header ++ b'\n' ∷ []) body (
        omega (
          arith,
          leb→le (text_bytes (header ∷ body)) max_record_bytes e,
          length-append header (b'\n' ∷ []),
        )))
  | inr e ↦ inl (leb-false→lt (text_bytes (header ∷ body)) max_record_bytes e)
]

-- When the lines of a record have been appended to it, none longer than `m`, the text that is held is
-- at most a line and the notice longer than the cap, however long the record is; it is the whole of
-- the lines unless these are longer than the cap; and the bytes and the lines are counted in full.
pub append_lines-Holds :
    (m : ℕ) (out : Output) (addr header : Text) (body : List Text)
    → length header ≤ m
    → All (Within m) body
    → Holds m header body (append_lines (started out addr header) body)
unfolding function_in
append_lines-Holds m out addr header body h a =
    let r : Record = record { address = addr; header = header; body = body } in
    let s = append_lines (started out addr header) body in
    let same : function_of s ≡ function_in r =
      after-append_lines (started out addr header) body ∙ after-started out addr header body in
    record {
      bound =
          subst (λ t. length t ≤ max_record_bytes + m + 1 + length notice)
            (sym (ap (λ f. f.raw) same))
            (capped_bound m (header ++ b'\n' ∷ []) body a
              (omega (arith, h, length-append header (b'\n' ∷ []))));
      bytes = ap (λ f. f.bytes) same;
      lines = ap (λ f. f.lines) same;
      text =
          subst
            (λ t. (max_record_bytes < text_bytes (header ∷ body)) ⊎ (t ≡ unlines (header ∷ body)))
            (sym (ap (λ f. f.raw) same)) (whole_or_long header body);
    }
