-- ===== src/Csplit/Refs/Collected.antt =====
-- What extractRefs of internal/recipe/csplit.go returns of what it finds.
use morgue.Common.{
  ◌≡◌, refl, map, codes, get_elem?, Option, if◌then◌else◌, ◌==◌, take, leb, none, some, All, ◌++◌,
  ℕ, ap, ◌∙◌, List, [], ◌∷◌, Bool, true, false, not, ◌&&◌, ◌||◌, length, branches, text_eq,
  text_eq→eq, text_eq_refl, arith,
}
use morgue.Csplit.Text.{Text, cut_prefix, is_empty, split_at}
use morgue.Csplit.Names.{is_in, primitive_casts}
use morgue.Csplit.Refs.{
  is_pseudo_op, digit_after, starts_with_digit, call_keywords, is_not_callee, collect,
  string_literals, calls_in, extract_refs,
}
use morgue.Csplit.Refs.Literals.{Quoted, string_literals-Quoted}
use morgue.Csplit.Refs.Found.{CalledOutside, calls_in-CalledOutside}

-- No text stands twice in a list.
abbrev pub Unique : List Text → Type 0
Unique [] = Unit
Unique (m ∷ ms) = (is_in m ms ≡ false) × Unique ms

-- The texts of `ms` that are not left out and not seen, once each.
abbrev Chosen : (Text → Bool) → List Text → List Text → List Text → Type 0
Chosen out seen ms found =
    (x : Text) → is_in x found ≡ (not (out x) && not (is_in x seen) && is_in x ms)

skipped :
    (same out_x out_m seen_x seen_m rest : Bool)
    → (same ≡ true → out_x ≡ out_m)
    → (same ≡ true → seen_x ≡ seen_m)
    → (out_m || seen_m) ≡ true
    → (not out_x && not seen_x && rest) ≡ (not out_x && not seen_x && (same || rest))
skipped same out_x out_m seen_x seen_m rest h k e = ground arith

kept :
    (same out_x out_m seen_x seen_m rest : Bool)
    → (same ≡ true → out_x ≡ out_m)
    → (same ≡ true → seen_x ≡ seen_m)
    → (out_m || seen_m) ≡ false
    → (same || (not out_x && not (same || seen_x) && rest))
      ≡ (not out_x && not seen_x && (same || rest))
kept same out_x out_m seen_x seen_m rest h k e = ground arith

collect-Chosen :
    (out : Text → Bool) (seen ms : List Text) → Chosen out seen ms (collect out seen ms)
unfolding collect is_in
collect-Chosen out seen [] x = nothing (out x) (is_in x seen)
  where
    nothing : (b c : Bool) → false ≡ (not b && not c && false)
    nothing b c = ground arith
collect-Chosen out seen (m ∷ ms) x =
    branches
      (λ found. is_in x found ≡ (not (out x) && not (is_in x seen) && (text_eq x m || is_in x ms)))
      (out m || is_in m seen)
      (λ e.
        collect-Chosen out seen ms x
        ∙ skipped (text_eq x m) (out x) (out m) (is_in x seen) (is_in m seen) (is_in x ms)
            (λ s. ap out (text_eq→eq x m s)) (λ s. ap (λ t. is_in t seen) (text_eq→eq x m s)) e)
      (λ e.
        ap (λ b. text_eq x m || b) (collect-Chosen out (m ∷ seen) ms x)
        ∙ kept (text_eq x m) (out x) (out m) (is_in x seen) (is_in m seen) (is_in x ms)
            (λ s. ap out (text_eq→eq x m s)) (λ s. ap (λ t. is_in t seen) (text_eq→eq x m s)) e)

collect-Unique : (out : Text → Bool) (seen ms : List Text) → Unique (collect out seen ms)
unfolding collect is_in
collect-Unique out seen [] = tt
collect-Unique out seen (m ∷ ms) =
    branches Unique (out m || is_in m seen) (λ _. collect-Unique out seen ms)
      (λ _. (collect-Chosen out (m ∷ seen) ms m ∙ itself, collect-Unique out (m ∷ seen) ms))
  where
    itself : (not (out m) && not (is_in m (m ∷ seen)) && is_in m ms) ≡ false
    itself =
        ap (λ (b : Bool). not (out m) && not (b || is_in m seen) && is_in m ms) (text_eq_refl m)
        ∙ seen_itself (out m) (is_in m ms)
      where
        seen_itself : (b c : Bool) → (not b && false && c) ≡ false
        seen_itself b c = ground arith

collect-All :
    (P : Text → Type 0) (out : Text → Bool) (seen ms : List Text)
    → All P ms
    → All P (collect out seen ms)
unfolding collect
collect-All P out seen [] h = tt
collect-All P out seen (m ∷ ms) (h, hs) =
    branches (All P) (out m || is_in m seen) (λ _. collect-All P out seen ms hs)
      (λ _. (h, collect-All P out (m ∷ seen) ms hs))

-- The words that are no callees: control words of C, and types that Ghidra casts to.
abbrev pub reserved_words : List Text
reserved_words = map codes (
    "if" ∷ "for" ∷ "while" ∷ "switch" ∷ "return" ∷ "sizeof" ∷ "do" ∷ "else" ∷ "case" ∷ "catch"
    ∷ "__assert" ∷ "void" ∷ "bool" ∷ "char" ∷ "uchar" ∷ "wchar_t" ∷ "short" ∷ "ushort" ∷ "int"
    ∷ "uint" ∷ "long" ∷ "ulong" ∷ "longlong" ∷ "ulonglong" ∷ "float" ∷ "double" ∷ "byte" ∷ "code"
    ∷ "undefined" ∷ "undefined1" ∷ "undefined2" ∷ "undefined4" ∷ "undefined8" ∷ [])

-- A name that begins with `p` and a digit.
has_digit_at : ℕ → Text → Bool
has_digit_at n s = elim (get_elem? s n) [ none ↦ false | some d ↦ leb b'0' d && leb d b'9' ]

pub is_numbered : Text → Text → Bool
unfolding has_digit_at
is_numbered p s = text_eq (take (length p) s) p && has_digit_at (length p) s

abbrev pub is_excluded : Text → Text → Bool
is_excluded caller x =
    is_in x reserved_words
    || text_eq x caller
    || is_numbered (codes "CONCAT") x
    || is_numbered (codes "ZEXT") x
    || is_numbered (codes "SEXT") x
    || is_numbered (codes "SUB") x

is_in-append : (x : Text) (a b : List Text) → is_in x (a ++ b) ≡ (is_in x a || is_in x b)
unfolding is_in
is_in-append x [] b = refl
is_in-append x (y ∷ a) b = ground (arith, is_in-append x a b)

digit_after-is_numbered : (p s : Text) → digit_after (cut_prefix p s) ≡ is_numbered p s
unfolding cut_prefix is_numbered text_eq digit_after starts_with_digit has_digit_at
digit_after-is_numbered [] [] = refl
digit_after-is_numbered [] (c ∷ s) = refl
digit_after-is_numbered (d ∷ p) [] = refl
digit_after-is_numbered (d ∷ p) (c ∷ s) =
    turned (d == c) (c == d) (cut_prefix p s) (text_eq (take (length p) s) p)
      (has_digit_at (length p) s) (ground arith) (digit_after-is_numbered p s)
  where
    turned :
        (b b' : Bool) (m : Option Text) (x y : Bool)
        → b ≡ b'
        → digit_after m ≡ (x && y)
        → digit_after (if b then m else none) ≡ (b' && x && y)
    turned true b' m x y e h = ground arith
    turned false b' m x y e h = ground arith

is_not_callee-is_excluded :
    (caller x : Text) → is_not_callee caller x ≡ (is_empty x || is_excluded caller x)
unfolding is_not_callee is_pseudo_op
is_not_callee-is_excluded caller x =
    rearranged (is_empty x) (is_in x call_keywords) (text_eq x caller) (is_in x primitive_casts)
      (is_in-append x call_keywords primitive_casts) (digit_after-is_numbered (codes "CONCAT") x)
      (digit_after-is_numbered (codes "ZEXT") x) (digit_after-is_numbered (codes "SEXT") x)
      (digit_after-is_numbered (codes "SUB") x)
  where
    rearranged :
        (e k t p : Bool) {w a b c d a' b' c' d' : Bool}
        → w ≡ (k || p)
        → a ≡ a'
        → b ≡ b'
        → c ≡ c'
        → d ≡ d'
        → (e || k || t || p || (a || b || c || d)) ≡ (e || (w || t || a' || b' || c' || d'))
    rearranged e k t p hw ha hb hc hd = ground arith

-- What extractRefs returns of a record: strings and callees that are not empty, each once, where they
-- stand, and that none is left out but the excluded names.
pub record IsExtracted (raw caller : Text) (strs callees : List Text) : Type 0 where
  pub strs_once : Unique strs
  pub callees_once : Unique callees
  pub strs_found : All (Quoted raw) strs
  pub callees_found : All (CalledOutside (split_at b'\n' [] raw)) callees
  pub strs_kept :
      (x : Text) → is_in x strs ≡ (not (is_empty x) && is_in x (string_literals (length raw) raw))
  pub callees_kept :
      (x : Text)
      → is_in x callees
        ≡ (not (is_empty x || is_excluded caller x) && is_in x (calls_in (split_at b'\n' [] raw)))

-- Of the strings of a record each stands between quotes in it, and of the callees each stands before a
-- parenthesis, with white space between them at most, in a line that is no comment. They are not empty
-- and stand in their list once. No callee is the caller, a control word, a primitive type or a
-- synthetic operation; every other match of the regular expressions is in the list.
pub extract_refs-IsExtracted :
    (raw caller : Text)
    → IsExtracted raw caller (extract_refs raw caller).0 (extract_refs raw caller).1
unfolding extract_refs is_in
extract_refs-IsExtracted raw caller =
    let lits = string_literals (length raw) raw in
    let calls = calls_in (split_at b'\n' [] raw) in
    record {
      strs_once = collect-Unique is_empty [] lits;
      callees_once = collect-Unique (is_not_callee caller) [] calls;
      strs_found =
          collect-All (Quoted raw) is_empty [] lits (string_literals-Quoted (length raw) raw);
      callees_found =
          collect-All (CalledOutside (split_at b'\n' [] raw)) (is_not_callee caller) [] calls
            (calls_in-CalledOutside (split_at b'\n' [] raw));
      strs_kept = λ x. collect-Chosen is_empty [] lits x ∙ unseen (is_empty x) (is_in x lits);
      callees_kept = λ x.
          collect-Chosen (is_not_callee caller) [] calls x
          ∙ unseen (is_not_callee caller x) (is_in x calls)
          ∙ ap (λ b. not b && is_in x calls) (is_not_callee-is_excluded caller x);
    }
  where
    unseen : (b c : Bool) → (not b && true && c) ≡ (not b && c)
    unseen b c = ground arith
