-- ===== src/Sdk/Matches.antt =====
-- The joins of internal/recipe/sdk.go: which class of the mappings a name refers to, how many match,
-- and that stripping a type prefix agrees with the test for engine classes.
use morgue.Common.{
  not, Option, true-false, leb→le, ◌≤◌, ◌∙◌, length, refl, ap, suc, if◌then◌else◌, ℕ, ◌≡◌, sym,
  subst, ◌⊎◌, inl, inr, List, [], ◌∷◌, true, false, ◌&&◌, none, some, arith, leb, ◌==◌, ==→eq,
  Bool-cases, branches, text_eq, text_eq→eq,
}
use morgue.Usmap.{Text}
use morgue.Csplit.Names.{is_in}
use morgue.Sdk.{is_boilerplate_class, is_boilerplate_usmap_class}
use morgue.Sdk.Resolution.{strip_ue_prefix, match_usmap, is_ue_prefix}

-- What a name may refer to: itself, if it is a class of the mappings, and else itself without its
-- type prefix.
pub record Refers (usmap_set : List Text) (external name : Text) : Type 0 where
  pub known : is_in name usmap_set ≡ true
  pub how :
      (name ≡ external) ⊎ ((is_in external usmap_set ≡ false) × (name ≡ strip_ue_prefix external))

-- A name that is found refers to the class found: a class of the mappings, which is the name itself,
-- or the name without its prefix where the name itself is no class of them.
pub match_usmap-Refers :
    (usmap_set : List Text) (external name : Text)
    → match_usmap usmap_set external ≡ some name
    → Refers usmap_set external name
unfolding match_usmap
match_usmap-Refers usmap_set external name h = elim (Bool-cases (is_in external usmap_set)) [
  | inl e ↦ record {
    known = subst (λ n. is_in n usmap_set ≡ true) (ground arith) e;
    how = inl (ground arith);
  }
  | inr e ↦ elim (Bool-cases (is_in (strip_ue_prefix external) usmap_set)) [
    | inl k ↦
        let eq : strip_ue_prefix external ≡ name = ground arith in
        record { known = subst (λ n. is_in n usmap_set ≡ true) eq k; how = inr (e, sym eq) }
    | inr k ↦ absurd (ground arith)
  ]
]

-- A name with a type prefix of Unreal, U, A or F before a capital letter, and the name behind it.
pub data Prefixed : Text → Text → Type 0 where
  prefixed :
      (c d : ℕ) (s : Text)
      → (c ≡ b'U') ⊎ ((c ≡ b'A') ⊎ (c ≡ b'F'))
      → b'A' ≤ d
      → d ≤ b'Z'
      → Prefixed (c ∷ (d ∷ s)) (d ∷ s)

-- An answer of matchUsmap, with what it says of the mappings and of the name.
pub data IsMatch (usmap_set : List Text) (external : Text) : Option Text → Type 0 where
  exact : is_in external usmap_set ≡ true → IsMatch usmap_set external (some external)
  stripped :
      (name : Text)
      → is_in external usmap_set ≡ false
      → Prefixed external name
      → is_in name usmap_set ≡ true
      → IsMatch usmap_set external (some name)
  unknown :
      (name : Text)
      → is_in external usmap_set ≡ false
      → Prefixed external name
      → is_in name usmap_set ≡ false
      → IsMatch usmap_set external none
  plain :
      is_in external usmap_set ≡ false
      → ¬ ((name : Text) × Prefixed external name)
      → IsMatch usmap_set external none

-- What stripUEPrefix does with a name: it takes a prefix off, or there is none.
pub data IsStripped (external : Text) : Text → Type 0 where
  took : (name : Text) → Prefixed external name → IsStripped external name
  kept : ¬ ((name : Text) × Prefixed external name) → IsStripped external external

prefix_letter : (c : ℕ) → is_ue_prefix c ≡ true → (c ≡ b'U') ⊎ ((c ≡ b'A') ⊎ (c ≡ b'F'))
prefix_letter c h = elim (Bool-cases (c == b'U')) [
  | inl e ↦ inl (==→eq c b'U' e)
  | inr e ↦ elim (Bool-cases (c == b'A')) [
    | inl e' ↦ inr (inl (==→eq c b'A' e'))
    | inr e' ↦ inr (inr (==→eq c b'F' (ground arith)))
  ]
]

passes :
    (c d : ℕ) (s name : Text)
    → Prefixed (c ∷ (d ∷ s)) name
    → (is_ue_prefix c && (leb b'A' d && leb d b'Z')) ≡ true
passes c d s name (prefixed c' d' s' (inl e) h k) = ground arith
passes c d s name (prefixed c' d' s' (inr (inl e)) h k) = ground arith
passes c d s name (prefixed c' d' s' (inr (inr e)) h k) = ground arith

longer : {external name : Text} → Prefixed external name → length external ≡ suc (length name)
longer (prefixed c d s l h k) = refl

not_empty : {external name : Text} → Prefixed external name → 1 ≤ length name
not_empty (prefixed c d s l h k) = omega arith

strip_ue_prefix-IsStripped : (external : Text) → IsStripped external (strip_ue_prefix external)
unfolding strip_ue_prefix
strip_ue_prefix-IsStripped [] = kept (λ p. omega (arith, longer p.1))
strip_ue_prefix-IsStripped (c ∷ []) = kept (λ p. omega (arith, longer p.1, not_empty p.1))
strip_ue_prefix-IsStripped (c ∷ (d ∷ s)) =
    branches (IsStripped (c ∷ (d ∷ s))) (is_ue_prefix c && (leb b'A' d && leb d b'Z'))
      (λ h. took (d ∷ s) (
        prefixed c d s (prefix_letter c (ground arith)) (leb→le b'A' d (ground arith))
          (leb→le d b'Z' (ground arith))))
      (λ h. kept (λ p. true-false (sym (passes c d s p.0 p.1) ∙ h)))

other : {external name : Text} → Prefixed external name → text_eq name external ≡ false
other {external} {name} p = elim (Bool-cases (text_eq name external)) [
  | inl e ↦ absurd (omega (arith, longer p, ap length (text_eq→eq name external e)))
  | inr e ↦ e
]

IsStripped-IsMatch :
    (usmap_set : List Text) (external rest : Text)
    → is_in external usmap_set ≡ false
    → IsStripped external rest
    → IsMatch usmap_set external
        (if not (text_eq rest external) && is_in rest usmap_set then some rest else none)
IsStripped-IsMatch usmap_set external rest e (took name p) =
    branches (IsMatch usmap_set external) (not (text_eq name external) && is_in name usmap_set)
      (λ h. stripped name e p (ground arith)) (λ h. unknown name e p (ground (arith, other p)))
IsStripped-IsMatch usmap_set external rest e (kept bare) =
    branches (IsMatch usmap_set external)
      (not (text_eq external external) && is_in external usmap_set) (λ h. absurd (ground arith))
      (λ h. plain e bare)

-- A name is matched with itself where it is a class of the mappings, with what stands behind its type
-- prefix where it has one and only that is a class of them, and with nothing otherwise.
pub match_usmap-IsMatch :
    (usmap_set : List Text) (external : Text)
    → IsMatch usmap_set external (match_usmap usmap_set external)
unfolding match_usmap
match_usmap-IsMatch usmap_set external =
    branches (IsMatch usmap_set external) (is_in external usmap_set) (λ e. exact e)
      (λ e.
        IsStripped-IsMatch usmap_set external (strip_ue_prefix external) e
          (strip_ue_prefix-IsStripped external))

-- The four names that are tried for a name of the mappings.
bare_boilerplate :
    (name : Text) → is_boilerplate_class name ≡ true → is_boilerplate_usmap_class name ≡ true
unfolding is_boilerplate_usmap_class
bare_boilerplate name h = ground arith

prefixed_boilerplate :
    (c : ℕ) (name : Text)
    → is_ue_prefix c ≡ true
    → is_boilerplate_class (c ∷ name) ≡ true
    → is_boilerplate_usmap_class name ≡ true
unfolding is_boilerplate_usmap_class
prefixed_boilerplate c name p h = elim (Bool-cases (c == b'U')) [
  | inl e ↦
      let u : is_boilerplate_class (b'U' ∷ name) ≡ true =
        subst (λ d. is_boilerplate_class (d ∷ name) ≡ true) (==→eq c b'U' e) h in
      ground arith
  | inr e ↦ elim (Bool-cases (c == b'A')) [
    | inl e' ↦
        let a : is_boilerplate_class (b'A' ∷ name) ≡ true =
          subst (λ d. is_boilerplate_class (d ∷ name) ≡ true) (==→eq c b'A' e') h in
        ground arith
    | inr e' ↦
        let f : is_boilerplate_class (b'F' ∷ name) ≡ true =
          subst (λ d. is_boilerplate_class (d ∷ name) ≡ true) (==→eq c b'F' (ground arith)) h in
        ground arith
  ]
]

-- A class that is engine boilerplate under its full name is so under the name in the mappings.
pub strip_ue_prefix-boilerplate :
    (name : Text)
    → is_boilerplate_class name ≡ true
    → is_boilerplate_usmap_class (strip_ue_prefix name) ≡ true
unfolding strip_ue_prefix
strip_ue_prefix-boilerplate [] h = bare_boilerplate [] h
strip_ue_prefix-boilerplate (c ∷ []) h = bare_boilerplate (c ∷ []) h
strip_ue_prefix-boilerplate (c ∷ (d ∷ s)) h =
    branches (λ n. is_boilerplate_usmap_class n ≡ true)
      (is_ue_prefix c && (leb b'A' d && leb d b'Z'))
      (λ e. prefixed_boilerplate c (d ∷ s) (ground arith) h) (λ e. bare_boilerplate (c ∷ (d ∷ s)) h)
