-- ===== src/Csplit/Outcomes.antt =====
-- The errors of internal/recipe/csplit.go, which end what is being done.
use morgue.Common.{◌≡◌, subst, Result, ok, err}
use morgue.Csplit.Text.{Text}

-- The next step, unless there is an error.
unfoldable pub and_then {ℓ κ} :
    {A : Type ℓ} {B : Type κ} → Result Text A → (A → Result Text B) → Result Text B
and_then (err e) f = err e
and_then (ok a) f = f a

-- What holds of an outcome, if it is no error.
abbrev pub OnOk {ℓ κ} : {A : Type ℓ} → (A → Type κ) → Result Text A → Type κ
OnOk P (err e) = Unit
OnOk P (ok a) = P a

pub OnOk-ok {ℓ κ} :
    {A : Type ℓ} (P : A → Type κ) (r : Result Text A) (a : A) → OnOk P r → r ≡ ok a → P a
OnOk-ok P r a h e = subst (OnOk P) e h

pub OnOk-and_then {ℓ κ ℓ' κ'} :
    {A : Type ℓ} {B : Type κ} (P : A → Type ℓ') (Q : B → Type κ') (r : Result Text A)
    (f : A → Result Text B)
    → OnOk P r
    → ((a : A) → P a → OnOk Q (f a))
    → OnOk Q (and_then r f)
unfolding and_then
OnOk-and_then P Q (err e) f h g = tt
OnOk-and_then P Q (ok a) f h g = g a h

pub OnOk-map {ℓ κ κ'} :
    {A : Type ℓ} (P : A → Type κ) (Q : A → Type κ') (r : Result Text A)
    → ((a : A) → P a → Q a)
    → OnOk P r
    → OnOk Q r
OnOk-map P Q (err e) f h = tt
OnOk-map P Q (ok a) f h = f a h
