-- ===== src/Csplit/Refs/Found.antt =====
-- Where the matches of extractRefs of internal/recipe/csplit.go stand: what its regular expressions
-- reStringLit and reCallSite find, said without them.
use morgue.Common.{
  ℕ, zero, suc, ◌≡◌, refl, ap, subst, ◌∙◌, List, [], ◌∷◌, ◌++◌, append_assoc, Bool, true, false,
  ◌&&◌, none, some, ◌==◌, ==→eq, length, All, All-append, All-map, arith, branches, text_eq_refl,
  codes,
}
use morgue.Csplit.Text.{Text, has_prefix, trim_space, span}
use morgue.Csplit.Names.{is_ident_byte, is_ident_start, is_in}
use morgue.Csplit.Refs.{
  Match, prepend, continue_search, is_member_byte, until_angle, qualifier, go_on, qualifiers,
  is_re_space, call_open, call_at, call_sites, calls_in,
}

-- A match is a part of the text, and what follows it is the rest.
data Splits : Match → Text → Type 0 where
  no_match : {s : Text} → Splits none s
  at_front : {m rest s : Text} → m ++ rest ≡ s → Splits (some (m, rest)) s

prepend-Splits : (t : Text) {m : Match} {s : Text} → Splits m s → Splits (prepend t m) (t ++ s)
unfolding prepend
prepend-Splits t no_match = no_match
prepend-Splits t (at_front e) = at_front (append_assoc t _ _ ∙ ap (λ r. t ++ r) e)

span-append : (p : ℕ → Bool) (s : Text) → (span p s).0 ++ (span p s).1 ≡ s
unfolding span
span-append p [] = refl
span-append p (c ∷ s) =
    branches (λ (r : Text × Text). r.0 ++ r.1 ≡ c ∷ s) (p c)
      (λ e. ap (λ t. c ∷ t) (span-append p s)) (λ e. refl)

span-All : (p : ℕ → Bool) (s : Text) → All (λ c. p c ≡ true) (span p s).0
unfolding span
span-All p [] = tt
span-All p (c ∷ s) =
    branches (λ (r : Text × Text). All (λ c. p c ≡ true) r.0) (p c) (λ e. (e, span-All p s))
      (λ e. tt)

until_angle-Splits : (s : Text) → Splits (until_angle s) s
unfolding until_angle
until_angle-Splits [] = no_match
until_angle-Splits (c ∷ s) =
    branches (λ m. Splits m (c ∷ s)) (c == b'>') (λ e. at_front refl)
      (λ e. prepend-Splits (c ∷ []) (until_angle-Splits s))

qualifier-Splits : (s : Text) → Splits (qualifier s) s
unfolding qualifier
qualifier-Splits [] = no_match
qualifier-Splits (c ∷ []) = no_match
qualifier-Splits (c ∷ (d ∷ s)) =
    branches (λ m. Splits m (c ∷ (d ∷ s))) (c == b':' && d == b':') (λ e. at_front refl)
      (λ e.
        branches (λ m. Splits m (c ∷ (d ∷ s))) (c == b'<')
          (λ e. prepend-Splits (c ∷ []) (until_angle-Splits (d ∷ s))) (λ e. no_match))

go_on-append :
    {m : Match} (parts : Text → Text × Text) {s : Text}
    → ((t : Text) → (parts t).0 ++ (parts t).1 ≡ t)
    → Splits m s
    → (go_on m parts s).0 ++ (go_on m parts s).1 ≡ s
unfolding go_on
go_on-append parts h no_match = refl
go_on-append parts h (at_front {m = m} {rest = rest} {s = s} e) =
    append_assoc (m ++ (span is_member_byte rest).0) (parts (span is_member_byte rest).1).0 _
    ∙ append_assoc m (span is_member_byte rest).0 _
    ∙ ap (λ r. m ++ r)
        (ap (λ r. (span is_member_byte rest).0 ++ r) (h (span is_member_byte rest).1)
          ∙ span-append is_member_byte rest)
    ∙ e

qualifiers-append : (f : ℕ) (s : Text) → (qualifiers f s).0 ++ (qualifiers f s).1 ≡ s
unfolding qualifiers
qualifiers-append zero s = refl
qualifiers-append (suc f) s =
    go_on-append (λ t. qualifiers f t) (λ t. qualifiers-append f t) (qualifier-Splits s)

-- A call of `x` in a text: its name, white space, and a parenthesis. The name begins like an
-- identifier.
pub record Called (s x : Text) : Type 0 where
  pub before : Text
  pub spaces : Text
  pub after : Text
  pub stands : before ++ (x ++ (spaces ++ b'(' ∷ after)) ≡ s
  pub white : All (λ c. is_re_space c ≡ true) spaces
  pub named : (c : ℕ) × ((rest : Text) × ((x ≡ c ∷ rest) × (is_ident_start c ≡ true)))

-- A call site at the front of a text.
data Site : Match → Text → Type 0 where
  no_site : {s : Text} → Site none s
  site : {x rest s : Text} → Called s x → (pre : Text) → pre ++ rest ≡ s → Site (some (x, rest)) s

call_open-Site :
    (c : ℕ) (word s : Text) (u : Text × Text)
    → is_ident_start c ≡ true
    → u.0 ++ u.1 ≡ s
    → All (λ d. is_re_space d ≡ true) u.0
    → Site (call_open (c ∷ word) u.1) ((c ∷ word) ++ s)
unfolding call_open
call_open-Site c word s (spaces, []) h e w = no_site
call_open-Site c word s (spaces, d ∷ t) h e w =
    branches (λ m. Site m ((c ∷ word) ++ s)) (d == b'(')
      (λ g.
        let opened : spaces ++ b'(' ∷ t ≡ s = subst (λ q. spaces ++ q ∷ t ≡ s) (==→eq d b'(' g) e in
        site
          (record {
            before = [];
            spaces = spaces;
            after = t;
            stands = ap (λ r. (c ∷ word) ++ r) opened;
            white = w;
            named = (c, (word, (refl, h)));
          })
          (((c ∷ word) ++ spaces) ++ b'(' ∷ [])
          (append_assoc ((c ∷ word) ++ spaces) (b'(' ∷ []) t
            ∙ append_assoc (c ∷ word) spaces (b'(' ∷ t)
            ∙ ap (λ r. (c ∷ word) ++ r) opened))
      (λ g. no_site)

call_at-Site : (c : ℕ) (s : Text) → Site (call_at c s) (c ∷ s)
unfolding call_at
call_at-Site c s =
    let word = (span is_ident_byte s).0 in
    let t = (span is_ident_byte s).1 in
    let more = (qualifiers (length t) t).0 in
    let u = (qualifiers (length t) t).1 in
    let whole : (c ∷ (word ++ more)) ++ u ≡ c ∷ s =
      ap (λ r. c ∷ r)
        (append_assoc word more u
          ∙ ap (λ r. word ++ r) (qualifiers-append (length t) t)
          ∙ span-append is_ident_byte s) in
    branches (λ m. Site m (c ∷ s)) (is_ident_start c)
      (λ h. subst (Site (call_open (c ∷ (word ++ more)) (span is_re_space u).1)) whole (
        call_open-Site c (word ++ more) u (span is_re_space u) h (span-append is_re_space u)
          (span-All is_re_space u)))
      (λ h. no_site)

later : (pre : Text) {t s x : Text} → pre ++ t ≡ s → Called t x → Called s x
later pre e k = record {
  before = pre ++ k.before;
  spaces = k.spaces;
  after = k.after;
  stands = append_assoc pre k.before _ ∙ ap (λ r. pre ++ r) k.stands ∙ e;
  white = k.white;
  named = k.named;
}

continue-Called :
    {m : Match} {c : ℕ} {s : Text} (search : Text → List Text)
    → ((t : Text) → All (Called t) (search t))
    → Site m (c ∷ s)
    → All (Called (c ∷ s)) (continue_search m search s)
unfolding continue_search
continue-Called {c = c} {s = s} search h no_site =
    All-map (Called s) (Called (c ∷ s)) (λ x k. later (c ∷ []) refl k) (search s) (h s)
continue-Called {c = c} {s = s} search h (site {rest = rest} k pre e) =
    (k, All-map (Called rest) (Called (c ∷ s)) (λ x j. later pre e j) (search rest) (h rest))

call_sites-Called : (f : ℕ) (s : Text) → All (Called s) (call_sites f s)
unfolding call_sites
call_sites-Called zero s = tt
call_sites-Called (suc f) [] = tt
call_sites-Called (suc f) (c ∷ s) =
    continue-Called (λ t. call_sites f t) (λ t. call_sites-Called f t) (call_at-Site c s)

-- A call in one of the lines, which is no comment.
pub record CalledOutside (lines : List Text) (x : Text) : Type 0 where
  pub line : Text
  pub of_lines : is_in line lines ≡ true
  pub no_comment : has_prefix (codes "//") (trim_space line) ≡ false
  pub called : Called line x

further :
    (line : Text) (lines : List Text) (x : Text)
    → CalledOutside lines x
    → CalledOutside (line ∷ lines) x
unfolding is_in
further line lines x k = record {
  line = k.line;
  of_lines = ground (arith, k.of_lines);
  no_comment = k.no_comment;
  called = k.called;
}

pub calls_in-CalledOutside : (lines : List Text) → All (CalledOutside lines) (calls_in lines)
unfolding calls_in is_in
calls_in-CalledOutside [] = tt
calls_in-CalledOutside (line ∷ lines) =
    let rest =
      All-map (CalledOutside lines) (CalledOutside (line ∷ lines)) (further line lines)
        (calls_in lines) (calls_in-CalledOutside lines) in
    branches (All (CalledOutside (line ∷ lines))) (has_prefix (codes "//") (trim_space line))
      (λ h. rest)
      (λ h.
        All-append (CalledOutside (line ∷ lines)) (call_sites (length line) line) (calls_in lines)
          (All-map (Called line) (CalledOutside (line ∷ lines))
            (λ x k. record {
              line = line;
              of_lines = ground (arith, text_eq_refl line);
              no_comment = h;
              called = k;
            })
            (call_sites (length line) line) (call_sites-Called (length line) line))
          rest)
