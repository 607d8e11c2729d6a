-- ===== src/Common/Outcome.antt =====
-- The outcome of code that can fail.

-- A value, or what a Go error or a panic carries.
pub data Result {ℓ κ} (E : Type ℓ) (A : Type κ) : Type (ℓ ⊔ κ) where
  ok : A → Result E A
  err : E → Result E A

abbrev pub map_err {ℓ κ} : {E : Type ℓ} {A : Type κ} → (E → E) → Result E A → Result E A
map_err f (ok a) = ok a
map_err f (err e) = err (f e)
