-- ===== src/Usmap/EnumNames.antt =====
-- The map of an enum, UsmapEnum.Names of internal/recipe/usmap.go.
use morgue.Common.{ℕ, ◌≢◌, inl, inr, List, [], ◌∷◌, All, arith, ◌==◌, ==→eq, subst, Bool-cases}
use morgue.Usmap.{Text, set_name, set_names}

-- No value is set twice.
abbrev pub Distinct : List (ℕ × Text) → Type 0
Distinct [] = Unit
Distinct (e ∷ m) = All (λ d. d.0 ≢ e.0) m × Distinct m

set_name-All :
    (P : ℕ × Text → Type 0) (value : ℕ) (name : Text) (m : List (ℕ × Text))
    → P (value, name)
    → All P m
    → All P (set_name value name m)
unfolding set_name
set_name-All P value name [] h hs = (h, tt)
set_name-All P value name ((v, n) ∷ m) h (h', hs) = elim (Bool-cases (v == value)) [
  | inl e ↦ rw e (h, hs)
  | inr e ↦ rw e (h', set_name-All P value name m h hs)
]

set_name-Distinct :
    (value : ℕ) (name : Text) (m : List (ℕ × Text)) → Distinct m → Distinct (set_name value name m)
unfolding set_name
set_name-Distinct value name [] h = (tt, tt)
set_name-Distinct value name ((v, n) ∷ m) (h, hs) = elim (Bool-cases (v == value)) [
  | inl e ↦ rw e (subst (λ w. All (λ d. d.0 ≢ w) m) (==→eq v value e) h, hs)
  | inr e ↦
      rw e (
        set_name-All (λ d. d.0 ≢ v) value name m (ground arith) h,
        set_name-Distinct value name m hs,
      )
]

pub set_names-Distinct :
    (P : ℕ × Text → Type 0) (m entries : List (ℕ × Text))
    → All P entries
    → All P m × Distinct m
    → All P (set_names m entries) × Distinct (set_names m entries)
unfolding set_names
set_names-Distinct P m [] h g = g
set_names-Distinct P m ((value, name) ∷ entries) (h, hs) g =
    set_names-Distinct P (set_name value name m) entries hs
      (set_name-All P value name m h g.0, set_name-Distinct value name m g.1)
