-- ===== src/Csplit/Refs.antt =====
-- extractRefs of internal/recipe/csplit.go and the regular expressions that it searches for.
pub mod Literals
pub mod Found
pub mod Collected
use morgue.Common.{
  ℕ, zero, suc, List, [], ◌∷◌, ◌++◌, Bool, true, false, not, ◌&&◌, ◌||◌, Option, none, some, length,
  ◌==◌, text_eq, if◌then◌else◌, codes,
}
use morgue.Csplit.Text.{Text, is_empty, trim_space, cut_prefix, has_prefix, span, split_at}
use morgue.Csplit.Names.{is_ident_byte, is_ident_start, is_digit, is_in, primitive_casts}

-- A match of `p`: the matched text and what follows it.
abbrev pub Match : Type 0
Match = Option (Text × Text)

prepend : Text → Match → Match
prepend s none = none
prepend s (some (m, rest)) = some (s ++ m, rest)

-- The part `(\\.|[^"\\])*"` of reStringLit, without the quote. No alternative matches where another
-- one does, so the search never has to go back.
unfoldable pub string_body : Text → Match
unfolding prepend
string_body [] = none
string_body (c ∷ []) = if c == b'"' then some ([], []) else none
string_body (c ∷ (d ∷ s)) =
    let escaped = prepend (c ∷ (d ∷ [])) (string_body s) in
    let plain = prepend (c ∷ []) (string_body (d ∷ s)) in
    if c == b'"'
    then some ([], d ∷ s)
    else if c == b'\\'
    then (if d == b'\n' then none else escaped)
    else plain

-- The result `m` of a search at the front of a text, whose rest is `s`: the search goes on after the
-- match, or one byte further.
continue_search : Match → (Text → List Text) → Text → List Text
continue_search none search s = search s
continue_search (some (m, rest)) search s = m ∷ search rest

string_at : ℕ → Text → Match
unfolding string_body
string_at c s = if c == b'"' then string_body s else none

-- reStringLit.FindAllString without the quotes; the length of the text is enough fuel, since each
-- round passes a byte.
unfoldable pub string_literals : ℕ → Text → List Text
unfolding continue_search string_at
string_literals zero s = []
string_literals (suc f) [] = []
string_literals (suc f) (c ∷ s) = continue_search (string_at c s) (λ t. string_literals f t) s

-- The part `[A-Za-z0-9_~]*` of reCallSite.
abbrev is_member_byte : ℕ → Bool
is_member_byte c = is_ident_byte c || c == b'~'

-- The part `<[^>]*>`, behind the `<`.
until_angle : Text → Match
until_angle [] = none
until_angle (c ∷ s) =
    let more = prepend (c ∷ []) (until_angle s) in if c == b'>' then some (c ∷ [], s) else more

qualifier : Text → Match
unfolding until_angle prepend
qualifier [] = none
qualifier (c ∷ []) = none
qualifier (c ∷ (d ∷ s)) =
    if c == b':' && d == b':'
    then some (c ∷ (d ∷ []), s)
    else if c == b'<'
    then prepend (c ∷ []) (until_angle (d ∷ s))
    else none

-- The part `(?:(?:::|<[^>]*>)[A-Za-z0-9_~]*)*`; the length of the text is enough fuel. A part that
-- is given up is followed by a byte that neither `\s` nor `(` matches, so the search never has to go
-- back.
go_on : Match → (Text → Text × Text) → Text → Text × Text
unfolding span
go_on none parts s = ([], s)
go_on (some (m, rest)) parts s =
    let (members, t) = span is_member_byte rest in
    let (more, u) = parts t in (m ++ members ++ more, u)

unfoldable pub qualifiers : ℕ → Text → Text × Text
unfolding go_on qualifier
qualifiers zero s = ([], s)
qualifiers (suc f) s = go_on (qualifier s) (λ t. qualifiers f t) s

abbrev is_re_space : ℕ → Bool
is_re_space c = c == b'\t' || c == b'\n' || c == 12 || c == b'\r' || c == b' '

call_open : Text → Text → Match
call_open callee [] = none
call_open callee (c ∷ s) = if c == b'(' then some (callee, s) else none

call_at : ℕ → Text → Match
unfolding call_open qualifiers span
call_at c s =
    let (word, t) = span is_ident_byte s in
    let (more, u) = qualifiers (length t) t in
    if is_ident_start c then call_open ((c ∷ word) ++ more) (span is_re_space u).1 else none

-- The group of reCallSite.FindAllStringSubmatch.
unfoldable pub call_sites : ℕ → Text → List Text
unfolding continue_search call_at
call_sites zero s = []
call_sites (suc f) [] = []
call_sites (suc f) (c ∷ s) = continue_search (call_at c s) (λ t. call_sites f t) s

starts_with_digit : Text → Bool
starts_with_digit [] = false
starts_with_digit (c ∷ s) = is_digit c

digit_after : Option Text → Bool
unfolding starts_with_digit
digit_after none = false
digit_after (some s) = starts_with_digit s

-- rePseudoOp.
unfoldable pub is_pseudo_op : Text → Bool
unfolding digit_after cut_prefix
is_pseudo_op s =
    digit_after (cut_prefix (codes "CONCAT") s)
    || digit_after (cut_prefix (codes "ZEXT") s)
    || digit_after (cut_prefix (codes "SEXT") s)
    || digit_after (cut_prefix (codes "SUB") s)

abbrev pub call_keywords : List Text
call_keywords =
    codes "if"
    ∷ (codes "for"
        ∷ (codes "while"
            ∷ (codes "switch"
                ∷ (codes "return"
                    ∷ (codes "sizeof"
                        ∷ (codes "do"
                            ∷ (codes "else"
                                ∷ (codes "case" ∷ (codes "catch" ∷ (codes "__assert" ∷ []))))))))))

-- The matches that extractRefs leaves out whether they are new or not.
unfoldable pub is_not_callee : Text → Text → Bool
is_not_callee caller callee =
    is_empty callee
    || is_in callee call_keywords
    || text_eq callee caller
    || is_in callee primitive_casts
    || is_pseudo_op callee

-- The loop that collects what `out` does not leave out and has not been seen.
unfoldable pub collect : (Text → Bool) → List Text → List Text → List Text
collect out seen [] = []
collect out seen (m ∷ ms) =
    let skip = collect out seen ms in
    let keep = m ∷ collect out (m ∷ seen) ms in if out m || is_in m seen then skip else keep

-- The call sites of the lines that are no comments.
unfoldable pub calls_in : List Text → List Text
calls_in [] = []
calls_in (line ∷ lines) =
    let rest = calls_in lines in
    if has_prefix (codes "//") (trim_space line)
    then rest
    else call_sites (length line) line ++ rest

unfoldable pub extract_refs : Text → Text → List Text × List Text
extract_refs raw caller = (
  collect is_empty [] (string_literals (length raw) raw),
  collect (is_not_callee caller) [] (calls_in (split_at b'\n' [] raw)),
)
