-- ===== src/Cursor/Reads.antt =====
-- What a computation makes of input that is written in its format.
use morgue.Common.{
  subst, Bool, true, false, if◌then◌else◌, ℕ, ◌+◌, ◌≡◌, ap, ap₂, sym, ◌∙◌, List, [], ◌∷◌, ◌++◌,
  append_assoc, append-nil, Bytes, ok, err, All, length, length-append, take_append, drop_append,
}
use morgue.Cursor.{Cursor, Run, pure, ◌>>=◌, ◌>>◌, fetch, repeat, wrapped, advance}

-- The cursor between what has been read and what has not.
abbrev pub between : Bytes → Bytes → Cursor
between front back = record { bytes = front ++ back; pos = length front }

-- The computation takes exactly `bs` off the input, whatever stands before and after, and returns
-- `a`.
pub record Reads {ℓ κ} {E : Type ℓ} {A : Type κ} (p : Run E A) (bs : Bytes) (a : A)
    : Type (ℓ ⊔ κ) where
  pub reads :
      (front rest : Bytes) → p (between front (bs ++ rest)) ≡ ok (a, between (front ++ bs) rest)

module _ {ℓ κ} {E : Type ℓ} {A : Type κ} where
  pub Reads-pure : {a : A} → Reads {E = E} (pure a) [] a
  unfolding pure
  Reads-pure = record { reads = λ front rest. rw append-nil }

  pub Reads-wrapped :
      (f : E → E) {p : Run E A} {bs : Bytes} {a : A} → Reads p bs a → Reads (wrapped f p) bs a
  unfolding wrapped
  Reads-wrapped f h = record { reads = λ front rest. rw (h.reads front rest) }

module _ {ℓ κ κ'} {E : Type ℓ} {A : Type κ} {B : Type κ'} where
  pub bind_ok :
      (p : Run E A) (f : A → Run E B) {r r' : Cursor} {a : A}
      → p r ≡ ok (a, r')
      → (p >>= f) r ≡ f a r'
  unfolding ◌>>=◌
  bind_ok p f e = ap (λ x. elim x [ err e ↦ err e | ok (a, r') ↦ f a r' ]) e

  pub bind_err :
      (p : Run E A) (f : A → Run E B) {r : Cursor} {e : E} → p r ≡ err e → (p >>= f) r ≡ err e
  unfolding ◌>>=◌
  bind_err p f h = ap (λ x. elim x [ err e ↦ err e | ok (a, r') ↦ f a r' ]) h

  pub then_ok :
      (p : Run E A) (q : Run E B) {r r' : Cursor} {a : A} → p r ≡ ok (a, r') → (p >> q) r ≡ q r'
  unfolding ◌>>◌
  then_ok p q e = ap (λ x. elim x [ err e ↦ err e | ok (a, r') ↦ q r' ]) e

  pub then_err : (p : Run E A) (q : Run E B) {r : Cursor} {e : E} → p r ≡ err e → (p >> q) r ≡ err e
  unfolding ◌>>◌
  then_err p q h = ap (λ x. elim x [ err e ↦ err e | ok (a, r') ↦ q r' ]) h

  pub Reads-bind :
      {p : Run E A} (f : A → Run E B) {bs cs : Bytes} {a : A} {b : B}
      → Reads p bs a
      → Reads (f a) cs b
      → Reads (p >>= f) (bs ++ cs) b
  Reads-bind {p} f {bs} {cs} hp hf = record {
    reads = λ front rest. rw (append_assoc bs cs rest) (
        bind_ok p f (hp.reads front (cs ++ rest))
        ∙ rw (← append_assoc front bs cs) (hf.reads (front ++ bs) rest));
  }

  pub Reads-then :
      {p : Run E A} {q : Run E B} {bs cs : Bytes} {a : A} {b : B}
      → Reads p bs a
      → Reads q cs b
      → Reads (p >> q) (bs ++ cs) b
  Reads-then {p} {q} {bs} {cs} hp hq = record {
    reads = λ front rest. rw (append_assoc bs cs rest) (
        then_ok p q (hp.reads front (cs ++ rest))
        ∙ rw (← append_assoc front bs cs) (hq.reads (front ++ bs) rest));
  }

module _ {ℓ κ κ'} {E : Type ℓ} {A : Type κ} {B : Type κ'} where
  -- A last step that reads nothing more.
  pub Reads-last :
      {p : Run E A} (f : A → Run E B) {bs : Bytes} {a : A} {b : B}
      → Reads p bs a
      → Reads (f a) [] b
      → Reads (p >>= f) bs b
  Reads-last {p} f {bs} {a} {b} hp hf =
      subst (λ cs. Reads (p >>= f) cs b) (append-nil bs) (Reads-bind f hp hf)

  pub Reads-map :
      {p : Run E A} {bs : Bytes} {a : A} (g : A → B)
      → Reads p bs a
      → Reads (p >>= λ x. pure (g x)) bs (g a)
  Reads-map g h = Reads-last _ h Reads-pure

-- The guards of the code.
module _ {ℓ κ} {E : Type ℓ} {A : Type κ} (p q : Run E A) {bs : Bytes} {a : A} where
  pub Reads-then_branch : (b : Bool) → b ≡ true → Reads p bs a → Reads (if b then p else q) bs a
  Reads-then_branch true e h = h
  Reads-then_branch false e h = cc

  pub Reads-else_branch : (b : Bool) → b ≡ false → Reads q bs a → Reads (if b then p else q) bs a
  Reads-else_branch true e h = cc
  Reads-else_branch false e h = h

pub advance-between :
    (front bs rest : Bytes)
    → advance (length bs) (between front (bs ++ rest)) ≡ between (front ++ bs) rest
advance-between front bs rest =
    ap₂ (λ b n. record { bytes = b; pos = n }) (sym (append_assoc front bs rest))
      (sym (length-append front bs))

pub Reads-fetch {ℓ} : {E : Type ℓ} (bs : Bytes) → Reads {E = E} (fetch (length bs)) bs bs
unfolding fetch
Reads-fetch bs = record {
  reads = λ front rest.
      rw (drop_append front (bs ++ rest), take_append bs rest)
        (ap (λ r. ok (bs, r)) (advance-between front bs rest));
}

-- A loop reads the items that are written one behind the other; `meaning i w` is what its round `i`
-- makes of the item `w`.
abbrev pub write_all {μ} : {W : Type μ} → (W → Bytes) → List W → Bytes
write_all write [] = []
write_all write (w ∷ ws) = write w ++ write_all write ws

abbrev pub numbered {κ μ} : {A : Type κ} {W : Type μ} → (ℕ → W → A) → ℕ → List W → List A
numbered meaning i [] = []
numbered meaning i (w ∷ ws) = meaning i w ∷ numbered meaning (i + 1) ws

module _ {ℓ κ μ} {E : Type ℓ} {A : Type κ} {W : Type μ} (write : W → Bytes)
    (meaning : ℕ → W → A) where
  pub Reads-repeat :
      (step : ℕ → Run E A) (ws : List W) (i : ℕ)
      → All (λ w. (j : ℕ) → Reads (step j) (write w) (meaning j w)) ws
      → Reads (repeat step (length ws) i) (write_all write ws) (numbered meaning i ws)
  unfolding repeat
  Reads-repeat step [] i h = Reads-pure
  Reads-repeat step (w ∷ ws) i (hw, h) =
      Reads-bind _ (hw i) (Reads-map (λ rest. meaning i w ∷ rest) (Reads-repeat step ws (i + 1) h))
