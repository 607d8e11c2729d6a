-- ===== src/Csplit/Refs/Literals.antt =====
-- Where the string literals of extractRefs in internal/recipe/csplit.go stand.
use morgue.Common.{
  ℕ, zero, suc, ◌≡◌, ◌≢◌, refl, ap, ◌∙◌, List, [], ◌∷◌, ◌++◌, append_assoc, false, none, some, ◌==◌,
  ==→eq, All, All-map, arith, branches, subst, sym,
}
use morgue.Csplit.Text.{Text}
use morgue.Csplit.Refs.{Match, prepend, string_body, continue_search, string_at, string_literals}

-- The inside of a literal: no quote that no backslash is in front of, and no backslash at the end.
pub data IsInside : Text → Type 0 where
  done : IsInside []
  plain : {c : ℕ} {s : Text} → c ≢ b'"' → c ≢ b'\\' → IsInside s → IsInside (c ∷ s)
  escaped : {c : ℕ} {s : Text} → c ≢ b'\n' → IsInside s → IsInside (b'\\' ∷ (c ∷ s))

-- A literal in a text, and its inside.
pub record Quoted (s x : Text) : Type 0 where
  pub before : Text
  pub after : Text
  pub stands : before ++ (b'"' ∷ (x ++ b'"' ∷ after)) ≡ s
  pub inside : IsInside x

-- A match of a literal behind its first quote.
data Body : Match → Text → Type 0 where
  no_body : {s : Text} → Body none s
  body : {x rest s : Text} → IsInside x → x ++ b'"' ∷ rest ≡ s → Body (some (x, rest)) s

apart : (c d : ℕ) → (c == d) ≡ false → c ≢ d
apart c d h e = ground arith

prepend-plain :
    {m : Match} {c : ℕ} {s : Text}
    → c ≢ b'"'
    → c ≢ b'\\'
    → Body m s
    → Body (prepend (c ∷ []) m) (c ∷ s)
unfolding prepend
prepend-plain h k no_body = no_body
prepend-plain {c = c} h k (body i e) = body (plain h k i) (ap (λ r. c ∷ r) e)

prepend-escaped :
    {m : Match} {c d : ℕ} {s : Text}
    → c ≡ b'\\'
    → d ≢ b'\n'
    → Body m s
    → Body (prepend (c ∷ (d ∷ [])) m) (c ∷ (d ∷ s))
unfolding prepend
prepend-escaped e k no_body = no_body
prepend-escaped {c = c} {d = d} {s = s} e k (body {x = x} {rest = rest} i q) =
    subst (λ b. Body (some (b ∷ (d ∷ x), rest)) (b ∷ (d ∷ s))) (sym e)
      (body (escaped k i) (ap (λ r. b'\\' ∷ (d ∷ r)) q))

string_body-Body : (s : Text) → Body (string_body s) s
unfolding string_body
string_body-Body [] = no_body
string_body-Body (c ∷ []) =
    branches (λ m. Body m (c ∷ [])) (c == b'"')
      (λ h. body done (ap (λ q. q ∷ []) (sym (==→eq c b'"' h)))) (λ h. no_body)
string_body-Body (c ∷ (d ∷ s)) =
    branches (λ m. Body m (c ∷ (d ∷ s))) (c == b'"')
      (λ h. body done (ap (λ q. q ∷ (d ∷ s)) (sym (==→eq c b'"' h))))
      (λ h.
        branches (λ m. Body m (c ∷ (d ∷ s))) (c == b'\\')
          (λ e.
            branches (λ m. Body m (c ∷ (d ∷ s))) (d == b'\n') (λ n. no_body)
              (λ n. prepend-escaped (==→eq c b'\\' e) (apart d b'\n' n) (string_body-Body s)))
          (λ e. prepend-plain (apart c b'"' h) (apart c b'\\' e) (string_body-Body (d ∷ s))))

data At : Match → Text → Type 0 where
  nothing : {s : Text} → At none s
  literal : {x rest s : Text} → Quoted s x → (pre : Text) → pre ++ rest ≡ s → At (some (x, rest)) s

Body-At : {m : Match} {c : ℕ} {s : Text} → c ≡ b'"' → Body m s → At m (c ∷ s)
Body-At e no_body = nothing
Body-At {c = c} {s = s} e (body {x = x} {rest = rest} i q) =
    subst (λ b. At (some (x, rest)) (b ∷ s)) (sym e)
      (literal (record { before = []; after = rest; stands = ap (λ r. b'"' ∷ r) q; inside = i })
        (b'"' ∷ (x ++ b'"' ∷ [])) (ap (λ r. b'"' ∷ r) (append_assoc x (b'"' ∷ []) rest ∙ q)))

string_at-At : (c : ℕ) (s : Text) → At (string_at c s) (c ∷ s)
unfolding string_at
string_at-At c s =
    branches (λ m. At m (c ∷ s)) (c == b'"') (λ h. Body-At (==→eq c b'"' h) (string_body-Body s))
      (λ h. nothing)

later : (pre : Text) {t s x : Text} → pre ++ t ≡ s → Quoted t x → Quoted s x
later pre e k = record {
  before = pre ++ k.before;
  after = k.after;
  stands = append_assoc pre k.before _ ∙ ap (λ r. pre ++ r) k.stands ∙ e;
  inside = k.inside;
}

continue-Quoted :
    {m : Match} {c : ℕ} {s : Text} (search : Text → List Text)
    → ((t : Text) → All (Quoted t) (search t))
    → At m (c ∷ s)
    → All (Quoted (c ∷ s)) (continue_search m search s)
unfolding continue_search
continue-Quoted {c = c} {s = s} search h nothing =
    All-map (Quoted s) (Quoted (c ∷ s)) (λ x k. later (c ∷ []) refl k) (search s) (h s)
continue-Quoted {c = c} {s = s} search h (literal {rest = rest} k pre e) =
    (k, All-map (Quoted rest) (Quoted (c ∷ s)) (λ x j. later pre e j) (search rest) (h rest))

pub string_literals-Quoted : (f : ℕ) (s : Text) → All (Quoted s) (string_literals f s)
unfolding string_literals
string_literals-Quoted zero s = tt
string_literals-Quoted (suc f) [] = tt
string_literals-Quoted (suc f) (c ∷ s) =
    continue-Quoted (λ t. string_literals f t) (λ t. string_literals-Quoted f t) (string_at-At c s)
