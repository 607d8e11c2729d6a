-- ===== src/Engine/Quiet.antt =====
-- Parts of a run of internal/engine/pipeline.go that only add events, none of them the last.
pub mod Tooling
pub mod Recipes
pub mod Analysis
pub mod Whole
use morgue.Common.{
  ℕ, ◌≡◌, refl, sym, ap, ◌∙◌, List, [], ◌∷◌, ◌++◌, append_assoc, append-nil, Bool, true, false,
  Option, none, some, Result, ok, err, All, All-append, if◌then◌else◌,
}
use morgue.Engine.{
  Text, PipelineEvent, State, Run, pure, fail, ◌>>=◌, by_outcome, call, attempt, send,
}

abbrev pub NotDone : PipelineEvent → Type 0
NotDone ev = ev.done ≡ false

module _ {W : Type 0} where
  -- The events of a later state.
  pub record Adds (s t : State W) : Type 0 where
    pub added : List PipelineEvent
    pub events : t.events ≡ s.events ++ added
    pub not_done : All NotDone added

  Adds-nothing : (s t : State W) → t.events ≡ s.events → Adds s t
  Adds-nothing s t h = record { added = []; events = h ∙ sym (append-nil s.events); not_done = tt }

  Adds-trans : (s t u : State W) → Adds s t → Adds t u → Adds s u
  Adds-trans s t u h k = record {
    added = h.added ++ k.added;
    events = k.events ∙ ap (λ es. es ++ k.added) h.events ∙ append_assoc s.events h.added k.added;
    not_done = All-append NotDone h.added k.added h.not_done k.not_done;
  }

  -- From every state, the part adds events to it.
  pub record Quiet {A : Type 0} (m : Run W A) : Type 0 where
    pub adds : (s : State W) → Adds s (m s).0

  pub Quiet-pure : {A : Type 0} (a : A) → Quiet (pure a)
  Quiet-pure a = record { adds = λ s. Adds-nothing s s refl }

  pub Quiet-fail : {A : Type 0} (e : Text) → Quiet {A = A} (fail e)
  Quiet-fail e = record { adds = λ s. Adds-nothing s s refl }

  pub Quiet-call : {A : Type 0} (f : W → W × A) → Quiet (call f)
  unfolding call
  Quiet-call f = record { adds = λ s. Adds-nothing s (record s { world = (f s.world).0 }) refl }

  pub Quiet-send : (ev : PipelineEvent) → NotDone ev → Quiet (send ev)
  unfolding send
  Quiet-send ev h = record {
    adds = λ s. record { added = ev ∷ []; events = refl; not_done = (h, tt) };
  }

  pub Quiet->>= :
      {A B : Type 0} {m : Run W A} {f : A → Run W B}
      → Quiet m
      → ((a : A) → Quiet (f a))
      → Quiet (m >>= f)
  unfolding ◌>>=◌ by_outcome
  Quiet->>= {A} {B} {m} {f} h k = record { adds = λ s. onwards s (m s) (h.adds s) }
    where
      onwards : (s : State W) (x : State W × Result Text A) → Adds s x.0 → Adds s (by_outcome x f).0
      onwards s (t, ok a) g = Adds-trans s t (f a t).0 g ((k a).adds t)
      onwards s (t, err e) g = g

  pub Quiet-attempt : {A : Type 0} {m : Run W A} → Quiet m → Quiet (attempt m)
  unfolding attempt
  Quiet-attempt h = record { adds = h.adds }

  pub Quiet-if :
      {A : Type 0} (b : Bool) {m k : Run W A} → Quiet m → Quiet k → Quiet (if b then m else k)
  Quiet-if true h k = h
  Quiet-if false h k = k
