-- ===== src/Engine/Returns.antt =====
-- Parts of a run of internal/engine/pipeline.go that return a value and no error.
pub mod Recipes
pub mod Counted
pub mod Results
use morgue.Common.{
  ℕ, ◌≡◌, refl, sym, ap, ◌∙◌, List, [], ◌∷◌, ◌++◌, Bool, true, false, Option, none, some, Result,
  ok, err, if◌then◌else◌,
}
use morgue.Engine.{
  Text, PipelineEvent, State, Run, pure, fail, ◌>>=◌, by_outcome, call, attempt, send,
}

-- The property of every value.
abbrev pub Any : {A : Type 0} → A → Type 0
Any a = Unit

module _ {W : Type 0} where
  -- From every state, the part returns a value with the property.
  pub record Returns {A : Type 0} (P : A → Type 0) (m : Run W A) : Type 0 where
    pub returns : (s : State W) → (t : State W) × (a : A) × (m s ≡ (t, ok a)) × P a

  pub Returns-pure : {A : Type 0} {P : A → Type 0} (a : A) → P a → Returns P (pure a)
  Returns-pure a p = record { returns = λ s. (s, a, refl, p) }

  pub Returns-call : {A : Type 0} (f : W → W × A) → Returns Any (call f)
  unfolding call
  Returns-call f = record { returns = λ s. (_, _, refl, tt) }

  -- A call whose value has a property in every world.
  pub Returns-call_with :
      {A : Type 0} {P : A → Type 0} (f : W → W × A) → ((w : W) → P (f w).1) → Returns P (call f)
  unfolding call
  Returns-call_with f h = record { returns = λ s. (_, _, refl, h s.world) }

  pub Returns-send : (ev : PipelineEvent) → Returns Any (send ev)
  unfolding send
  Returns-send ev = record { returns = λ s. (_, _, refl, tt) }

  pub Returns->>= :
      {A B : Type 0} {P : A → Type 0} {Q : B → Type 0} {m : Run W A} {f : A → Run W B}
      → Returns P m
      → ((a : A) → P a → Returns Q (f a))
      → Returns Q (m >>= f)
  unfolding ◌>>=◌ by_outcome
  Returns->>= {f = f} h k = record {
    returns = λ s.
        let (t, a, e, p) = h.returns s in
        let (u, b, e', q) = (k a p).returns t in (u, b, ap (λ x. by_outcome x f) e ∙ e', q);
  }

  pub Returns-attempt : {A : Type 0} (m : Run W A) → Returns Any (attempt m)
  unfolding attempt
  Returns-attempt m = record { returns = λ s. (_, _, refl, tt) }

  pub Returns-if :
      {A : Type 0} {P : A → Type 0} (b : Bool) {m k : Run W A}
      → Returns P m
      → Returns P k
      → Returns P (if b then m else k)
  Returns-if true h k = h
  Returns-if false h k = k
