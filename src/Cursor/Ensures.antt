-- ===== src/Cursor/Ensures.antt =====
-- Postconditions of computations over a cursor: what holds of the value and of the number of bytes
-- read if there is one, and that the cursor stays in its buffer.
use morgue.Common.{
  ℕ, zero, suc, ◌+◌, ◌*◌, ◌≤◌, ◌≡◌, refl, ◌∙◌, List, Result, ok, err, All, length, arith, Bool,
  true, false, if◌then◌else◌, ap, drop, length-take, length-drop,
}
use morgue.Cursor.{Cursor, Run, pure, fail, ◌>>=◌, ◌>>◌, fetch, repeat, wrapped, advance}

-- The position lies in the buffer, or behind its last byte.
abbrev pub IsInside : Cursor → Type 0
IsInside r = r.pos ≤ length r.bytes

-- `err`, or a value with `P` and a cursor that moved by `n` bytes inside the same buffer.
pub data Outcome {ℓ κ μ} {E : Type ℓ} {A : Type κ} (P : A → ℕ → Type μ) (r : Cursor)
    : Result E (A × Cursor) → Type (ℓ ⊔ κ ⊔ μ) where
  done :
      {a : A} {r' : Cursor} (n : ℕ)
      → P a n
      → r' ≡ advance n r
      → IsInside r'
      → Outcome P r (ok (a, r'))
  stopped : (e : E) → Outcome P r (err e)

pub record Ensures {ℓ κ μ} {E : Type ℓ} {A : Type κ} (P : A → ℕ → Type μ) (p : Run E A)
    : Type (ℓ ⊔ κ ⊔ μ) where
  pub ensures : (r : Cursor) → IsInside r → Outcome P r (p r)

advance_zero : (r : Cursor) → r ≡ advance 0 r
advance_zero r =
    let e : r.pos ≡ r.pos + 0 = omega arith in ap (λ n. record { bytes = r.bytes; pos = n }) e

advance_add : (m n : ℕ) (r : Cursor) → advance m (advance n r) ≡ advance (n + m) r
advance_add m n r =
    let e : r.pos + n + m ≡ r.pos + (n + m) = omega arith in
    ap (λ k. record { bytes = r.bytes; pos = k }) e

module _ {ℓ κ μ} {E : Type ℓ} {A : Type κ} (P : A → ℕ → Type μ) where
  pub Ensures-pure : {a : A} → P a 0 → Ensures {E = E} P (pure a)
  unfolding pure
  Ensures-pure h = record { ensures = λ r i. done 0 h (advance_zero r) i }

  -- A value that leaves the cursor where it is, and a guard on the state.
  pub Outcome-same : {a : A} (r : Cursor) → P a 0 → IsInside r → Outcome {E = E} P r (ok (a, r))
  Outcome-same r h i = done 0 h (advance_zero r) i

  pub Outcome-if :
      (b : Bool) {r : Cursor} {x y : Result E (A × Cursor)}
      → (b ≡ true → Outcome P r x)
      → (b ≡ false → Outcome P r y)
      → Outcome P r (if b then x else y)
  Outcome-if true hx hy = hx refl
  Outcome-if false hx hy = hy refl

  pub Ensures-fail : (e : E) → Ensures P (fail e)
  unfolding fail
  Ensures-fail e = record { ensures = λ r i. stopped e }

  pub Ensures-wrapped : {p : Run E A} (f : E → E) → Ensures P p → Ensures P (wrapped f p)
  unfolding wrapped
  Ensures-wrapped {p} f h = record { ensures = λ r i. go r (h.ensures r i) }
    where
      go :
          (r : Cursor) {x : Result E (A × Cursor)}
          → Outcome P r x
          → Outcome P r (elim x [ ok a ↦ ok a | err e ↦ err (f e) ])
      go r (done n h e i) = done n h e i
      go r (stopped e) = stopped (f e)

  pub Ensures-if :
      (b : Bool) {p q : Run E A}
      → (b ≡ true → Ensures P p)
      → (b ≡ false → Ensures P q)
      → Ensures P (if b then p else q)
  Ensures-if true hp hq = hp refl
  Ensures-if false hp hq = hq refl

  pub Outcome-mono {ν} :
      {Q : A → ℕ → Type ν} {r : Cursor} {x : Result E (A × Cursor)}
      → ((a : A) (n : ℕ) → P a n → Q a n)
      → Outcome P r x
      → Outcome Q r x
  Outcome-mono f (done n h e i) = done n (f _ n h) e i
  Outcome-mono f (stopped e) = stopped e

  pub Ensures-mono {ν} :
      {Q : A → ℕ → Type ν} {p : Run E A}
      → ((a : A) (n : ℕ) → P a n → Q a n)
      → Ensures P p
      → Ensures Q p
  Ensures-mono f h = record { ensures = λ r i. Outcome-mono f (h.ensures r i) }

shift {ℓ κ μ} :
    {E : Type ℓ} {A : Type κ} (P : A → ℕ → Type μ) (n : ℕ) (r : Cursor) {s : Cursor}
    {x : Result E (A × Cursor)}
    → s ≡ advance n r
    → Outcome (λ a m. P a (n + m)) s x
    → Outcome P r x
shift P n r e (done m h e' i) = done (n + m) h (e' ∙ ap (advance m) e ∙ advance_add m n r) i
shift P n r e (stopped x) = stopped x

module _ {ℓ κ κ' μ ν} {E : Type ℓ} {A : Type κ} {B : Type κ'} (P : A → ℕ → Type μ)
    (Q : B → ℕ → Type ν) where
  pub Ensures-bind :
      {p : Run E A} (f : A → Run E B)
      → Ensures P p
      → ((a : A) (n : ℕ) → P a n → Ensures (λ b m. Q b (n + m)) (f a))
      → Ensures Q (p >>= f)
  unfolding ◌>>=◌
  Ensures-bind {p} f hp hf = record { ensures = λ r i. go r (hp.ensures r i) }
    where
      go :
          (r : Cursor) {x : Result E (A × Cursor)}
          → Outcome P r x
          → Outcome Q r (elim x [ err e ↦ err e | ok (a, r') ↦ f a r' ])
      go r (done {a} {r'} n h e i) = shift Q n r e ((hf a n h).ensures r' i)
      go r (stopped e) = stopped e

  pub Ensures-then :
      {p : Run E A} {q : Run E B}
      → Ensures P p
      → ((a : A) (n : ℕ) → P a n → Ensures (λ b m. Q b (n + m)) q)
      → Ensures Q (p >> q)
  unfolding ◌>>◌
  Ensures-then {p} {q} hp hf = record { ensures = λ r i. go r (hp.ensures r i) }
    where
      go :
          (r : Cursor) {x : Result E (A × Cursor)}
          → Outcome P r x
          → Outcome Q r (elim x [ err e ↦ err e | ok (a, r') ↦ q r' ])
      go r (done {a} {r'} n h e i) = shift Q n r e ((hf a n h).ensures r' i)
      go r (stopped e) = stopped e

-- A loop of `k` rounds returns `k` values; each has what the step ensures, and cost its bytes.
module _ {ℓ κ μ} {E : Type ℓ} {A : Type κ} (P : A → Type μ) (cost : ℕ) (step : ℕ → Run E A) where
  abbrev pub Rounds : ℕ → List A → ℕ → Type μ
  Rounds k as' n = All P as' × (length as' ≡ k) × (k * cost ≤ n)

  pub Ensures-repeat :
      ((i : ℕ) → Ensures (λ a n. P a × (cost ≤ n)) (step i))
      → (k i : ℕ) → Ensures (Rounds k) (repeat step k i)
  unfolding repeat
  Ensures-repeat hs zero i = Ensures-pure (Rounds zero) (tt, refl, omega arith)
  Ensures-repeat hs (suc k) i = Ensures-bind _ (Rounds (suc k)) _ (hs i) λ a n h.
      Ensures-bind (Rounds k) _ _ (Ensures-repeat hs k (i + 1))
        λ rest m h'. Ensures-pure _ ((h.0, h'.0), ap suc h'.1, grind (arith, h.1, h'.2))

-- A slice that lies in the buffer.
pub Ensures-fetch {ℓ} :
    {E : Type ℓ} (n : ℕ) (r : Cursor)
    → r.pos + n ≤ length r.bytes
    → Outcome {E = E} (λ bs m. (length bs ≡ n) × (m ≡ n)) r (fetch n r)
unfolding fetch
Ensures-fetch n r h =
    done n (omega (arith, length-take n (drop r.pos r.bytes), length-drop r.pos r.bytes), refl) refl
      h
