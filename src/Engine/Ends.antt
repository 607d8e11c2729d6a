-- ===== src/Engine/Ends.antt =====
-- How a run of internal/engine/pipeline.go ends.
use morgue.Common.{
  ℕ, zero, suc, ◌+◌, ◌≡◌, ◌<◌, refl, sym, ap, ◌∙◌, List, [], ◌∷◌, ◌++◌, append_assoc, Bool, true,
  false, Result, All, if◌then◌else◌, ◌==◌, leb, arith, subst, inl, inr, Bool-cases, branches, ◌⊎◌,
  not, codes, leb-false→lt,
}
use morgue.Engine.{Text, TargetResult, PipelineEvent, Options, World, State, Run, pure, call, ◌>>=◌}
use morgue.Engine.Passes.{
  too_deep, is_unpacked, nested_made, nested_options, recurse, recurse_into, maybe_recurse_unpack,
  run_body, done_event, deferred, run_fuel, run_pipeline,
}
use morgue.Engine.Pipeline.{max_unpack_depth}
use morgue.Engine.Quiet.{NotDone, Adds, Quiet, Quiet-pure}
use morgue.Engine.Quiet.Whole.{maybe_recurse_unpack-Quiet, run_body-Quiet}

module _ {W : Type 0} (env : World W) where
  not_deferred :
      (opts : Options) (x : State W × Result {0, 0} Text Unit)
      → 0 < opts.depth
      → (deferred env opts x).0 ≡ x.0
  unfolding deferred
  not_deferred opts (s, r) h =
      branches (λ (x : State W × Result {0, 0} Text Unit). x.0 ≡ s) (opts.depth == 0)
        (λ e. absurd (zero_not_positive e h)) (λ _. refl)
    where
      zero_not_positive : {n : ℕ} → (n == 0) ≡ true → 0 < n → ⊥
      zero_not_positive e h = ground (arith, e, h)

  is_deferred :
      (opts : Options) (x : State W × Result {0, 0} Text Unit)
      → opts.depth ≡ 0
      → (deferred env opts x).0 ≡ record (x.0) { events = x.0.events ++ done_event env opts ∷ [] }
  unfolding deferred
  is_deferred opts (s, r) h =
      branches
        (λ (x : State W × Result {0, 0} Text Unit).
          x.0 ≡ record s { events = s.events ++ done_event env opts ∷ [] })
        (opts.depth == 0) (λ _. refl) (λ e. absurd (positive e h))
    where
      positive : {n : ℕ} → (n == 0) ≡ false → n ≡ 0 → ⊥
      positive e h = ground (arith, e, h)

  unpack_with : ℕ → Options → TargetResult → Run W Unit
  unpack_with f opts tr =
      maybe_recurse_unpack env opts tr (λ output. run_fuel env f (nested_options env opts output))

  -- A nested run never sends the last event.
  nested-Quiet : (f : ℕ) (opts : Options) → 0 < opts.depth → Quiet (run_fuel env f opts)
  unfolding run_fuel unpack_with nested_options
  nested-Quiet zero opts h = Quiet-pure tt
  nested-Quiet (suc f) opts h = record {
    adds = λ s.
        subst (Adds s) (sym (not_deferred opts (run_body env opts (unpack_with f opts) s) h)) (
          (run_body-Quiet env opts (unpack_with f opts) (λ tr.
              maybe_recurse_unpack-Quiet env opts tr _
                (λ output. nested-Quiet f (nested_options env opts output) (omega arith)))).adds
            s);
  }

  -- The events of a run: those before, others that are not the last one, and the last one.
  pub record Ended (opts : Options) (s t : State W) : Type 0 where
    pub sent : List PipelineEvent
    pub events : t.events ≡ s.events ++ (sent ++ done_event env opts ∷ [])
    pub not_done : All NotDone sent

  -- Every run at depth zero comes to an end in which it has sent the event that says so exactly once
  -- and as the last one, whatever the scan, the recipes, the installations and the cancellation of
  -- the context do, and whether it returns an error or not; the runs over what installers have
  -- unpacked do not send it.
  pub run_pipeline-Ended :
      (opts : Options) (s : State W) → opts.depth ≡ 0 → Ended opts s (run_pipeline env opts s).0
  unfolding run_pipeline run_fuel unpack_with nested_options
  run_pipeline-Ended opts s h =
      let body = run_body env opts (unpack_with max_unpack_depth opts) s in
      let quiet =
        (run_body-Quiet env opts (unpack_with max_unpack_depth opts) (λ tr.
            maybe_recurse_unpack-Quiet env opts tr _ (λ output.
              nested-Quiet max_unpack_depth (nested_options env opts output) (omega arith)))).adds
          s in
      record {
        sent = quiet.added;
        events =
            ap (λ (t : State W). t.events) (is_deferred opts body h)
            ∙ ap (λ es. es ++ done_event env opts ∷ []) quiet.events
            ∙ append_assoc s.events quiet.added (done_event env opts ∷ []);
        not_done = quiet.not_done;
      }

  recurse_at_cap :
      (opts : Options) (output : Text) (n m : Run W Unit)
      → leb max_unpack_depth opts.depth ≡ true
      → recurse env opts output n ≡ recurse env opts output m
  unfolding recurse
  recurse_at_cap opts output n m h = at_cap n ∙ sym (at_cap m)
    where
      at_cap : (k : Run W Unit) → recurse env opts output k ≡ too_deep env output
      at_cap k =
          ap
            (λ (b : Bool).
              if b
              then too_deep env output
              else call (λ w. env.mkdir_all w (env.join output (codes "decompiled")))
                >>= (λ made. nested_made env opts output made k))
            h

  -- At the greatest depth nothing is unpacked further, whatever the run over it is.
  unpack_at_cap :
      (opts : Options) (tr : TargetResult) (n m : Text → Run W Unit)
      → leb max_unpack_depth opts.depth ≡ true
      → maybe_recurse_unpack env opts tr n ≡ maybe_recurse_unpack env opts tr m
  unfolding maybe_recurse_unpack recurse_into
  unpack_at_cap opts tr n m h =
      let same = recurse_at_cap opts tr.output (n tr.output) (m tr.output) h in
      ap
        (λ (k : Run W Unit).
          if not (is_unpacked env tr)
          then pure tt
          else call (λ w. env.is_dir w (env.join tr.output (codes "extracted"))) >>= (λ dir.
            if dir
            then call (λ w. env.is_empty_dir w (env.join tr.output (codes "extracted")))
              >>= (λ empty. if empty then pure tt else k)
            else pure tt))
        same

  run_fuel_same :
      (f g : ℕ) (opts : Options)
      → 0 < f
      → 0 < g
      → max_unpack_depth < f + opts.depth
      → max_unpack_depth < g + opts.depth
      → run_fuel env f opts ≡ run_fuel env g opts
  unfolding run_fuel nested_options
  run_fuel_same zero g opts p q h k = absurd (omega (arith, p))
  run_fuel_same (suc f) zero opts p q h k = absurd (omega (arith, q))
  run_fuel_same (suc f) (suc g) opts p q h k =
      ap
        (λ (u : TargetResult → Run W Unit).
          λ (s : State W). deferred env opts (run_body env opts u s))
        (λ i tr.
          same tr (λ o a b c d. run_fuel_same f g o a b c d)
            (Bool-cases (leb max_unpack_depth opts.depth)) i)
    where
      same :
          (tr : TargetResult)
          → ((o : Options)
              → 0 < f
              → 0 < g
              → max_unpack_depth < f + o.depth
              → max_unpack_depth < g + o.depth
              → run_fuel env f o ≡ run_fuel env g o)
          → (leb max_unpack_depth opts.depth ≡ true) ⊎ (leb max_unpack_depth opts.depth ≡ false)
          → maybe_recurse_unpack env opts tr
              (λ output. run_fuel env f (nested_options env opts output))
            ≡ maybe_recurse_unpack env opts tr
                (λ output. run_fuel env g (nested_options env opts output))
      same tr ih (inl e) = unpack_at_cap opts tr _ _ e
      same tr ih (inr e) =
          let shallow : opts.depth < max_unpack_depth = leb-false→lt _ _ e in
          ap (λ (n : Text → Run W Unit). maybe_recurse_unpack env opts tr n)
            (λ i output.
              ih (nested_options env opts output) (omega (arith, h, shallow))
                (omega (arith, k, shallow)) (omega (arith, h)) (omega (arith, k)) i)

  -- The runs nest no deeper than the fuel of a run allows: with more of it, every run, at whatever
  -- depth, is the same.
  pub run_fuel-run_pipeline :
      (f : ℕ) (opts : Options) → max_unpack_depth < f → run_fuel env f opts ≡ run_pipeline env opts
  unfolding run_pipeline
  run_fuel-run_pipeline f opts h =
      run_fuel_same f (suc max_unpack_depth) opts (omega (arith, h)) (omega arith)
        (omega (arith, h)) (omega arith)
