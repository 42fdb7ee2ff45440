-- ===== src/Pipeline/Execute/Fresh.antt =====
-- A run from its start: what holds of every state that it can reach (pkg/pipeline/run.go, step.go).
use paddle_flow.Prelude.{
  >>=-eq-some, Bool, Text, [], arith, false, if◌then◌else◌, inl, inr, lookup, lookup→In, refl, some,
  some-inj, subst, sym, true, ◌+◌, ◌||◌, ◌∙◌, ◌∷◌, ◌≡◌, ◌≤◌, ◌⊎◌,
}
use mathlib.Core.Bool.{false≢true}
use paddle_flow.Pipeline.Job.{is_cached, is_succeeded}
use paddle_flow.Pipeline.Runtime.{
  idle, selecting, RunSteps, Step, WorkflowRuntime, is_deps_ready, start, start_step, start_steps,
}
use paddle_flow.Pipeline.Runtime.Deps.{AllFinishedWell, is_deps_ready-true, waits_for}
use paddle_flow.Pipeline.Runtime.Moves.{Zip}
use paddle_flow.Pipeline.Execute.Traces.{IsFresh, IsFreshStep, Reaches}
use paddle_flow.Pipeline.Execute.Ordering.{
  AllFinishedWell-Later, AllOrderly, IsLocal, Later, phase_signalled, waits_for_of_info,
}
use paddle_flow.Pipeline.Execute.Safety.{Reaches-AllOrderly, Zip-lookup, Zip-lookup_forth}

-- What `Start` does to a step.
pub record Launched (all : RunSteps) (s t : Step) : Type 0 where
  pub same_info : t.info ≡ s.info
  pub same_job : t.job ≡ s.job
  pub same_pending : t.pending ≡ s.pending
  pub launched : s.phase ≡ idle → (t.phase ≡ idle) ⊎ (t.phase ≡ selecting)
  pub signal :
      (t.submitted ≡ s.submitted) × (t.ready ≡ s.ready)
      ⊎ (t.submitted ≡ true)
        × (s.submitted ≡ false)
        × (t.ready ≡ s.ready + 1)
        × (is_deps_ready all s ≡ some true)

start_step-Launched : (all : RunSteps) (s t : Step) → start_step all s ≡ some t → Launched all s t
unfolding start_step
start_step-Launched all s t h = ground arith

pub start_steps-Zip :
    (all steps steps' : RunSteps)
    → start_steps all steps ≡ some steps'
    → Zip (Launched all) steps steps'
unfolding start_steps
start_steps-Zip all [] steps' h = subst (Zip (Launched all) []) (some-inj h) tt
start_steps-Zip all ((n, s) ∷ steps) steps' h =
    let (t, e, h') = >>=-eq-some (start_step all s) _ h in
    let (rest, f, h'') = >>=-eq-some (start_steps all steps) _ h' in
    subst (Zip (Launched all) ((n, s) ∷ steps)) (some-inj h'')
      (refl, start_step-Launched all s t e, start_steps-Zip all steps rest f)

Launched-IsLocal : (all : RunSteps) (s t : Step) → Launched all s t → IsFreshStep s → IsLocal t
Launched-IsLocal all s t l f = ground arith

Launched-Later : (all xs ys : RunSteps) → Zip (Launched all) xs ys → Later xs ys
Launched-Later all xs ys z n s e =
    let (t, f, l) = Zip-lookup_forth (Launched all) xs ys n s z e in
    (t, f, λ h. subst (λ j. (is_succeeded j || is_cached j) ≡ true) (sym l.same_job) h)

module _ (w w' : WorkflowRuntime) (fresh : IsFresh w) (started : start w ≡ some w') where
  start-AllOrderly : AllOrderly w'.steps
  unfolding start
  start-AllOrderly =
      let (steps, e, h) = >>=-eq-some (start_steps w.steps w.steps) _ started in
      subst (λ (v : WorkflowRuntime). AllOrderly v.steps) (some-inj h)
        (go steps (start_steps-Zip w.steps w.steps steps e))
    where
      was_ready :
          (s t : Step)
          → Launched w.steps s t
          → IsFreshStep s
          → t.submitted ≡ true
          → AllFinishedWell w.steps (waits_for s)
      was_ready s t l f sub = elim (l.signal) [
        | inl (same, _) ↦ absurd (false≢true (sym f.unsubmitted ∙ sym same ∙ sub))
        | inr (_, _, _, ready) ↦ (is_deps_ready-true w.steps s).0 ready
      ]

      go : (steps : RunSteps) → Zip (Launched w.steps) w.steps steps → AllOrderly steps
      go steps z n t e =
          let (s, f, l) = Zip-lookup (Launched w.steps) w.steps steps n t z e in
          let fs = fresh.fresh_steps n s (lookup→In n s w.steps f) in
          record {
            local_ok = Launched-IsLocal w.steps s t l fs;
            ordered = λ sub. rw (← waits_for_of_info s t l.same_info) (
                AllFinishedWell-Later w.steps steps (waits_for s)
                  (Launched-Later w.steps w.steps steps z) (was_ready s t l fs sub));
          }

  -- However the goroutines of a run interleave after `Start`: when a step has read its signal, and so
  -- when its job runs, each step that its text of dependencies names is in the run, and the job of
  -- that step succeeded or its result was cached.
  pub start-AllFinishedWell :
      (enable : Bool) (v : WorkflowRuntime)
      → Reaches enable w' v
      → (n : Text) (st : Step) → lookup n v.steps ≡ some st
      → phase_signalled st.phase ≡ true
      → AllFinishedWell v.steps (waits_for st)
  start-AllFinishedWell enable v r n st f p =
      let o = Reaches-AllOrderly enable w' v start-AllOrderly r n st f in
      o.ordered (o.local_ok.signalled p)

  -- In every such state at most one signal waits in a step's channel, so that the send of `Start`
  -- and `updateStatus`, which find room for one, never block; and none waits at a step that was not
  -- submitted.
  pub start-one_signal :
      (enable : Bool) (v : WorkflowRuntime)
      → Reaches enable w' v
      → (n : Text) (st : Step) → lookup n v.steps ≡ some st
      → st.ready ≤ (if st.submitted then 1 else 0)
  start-one_signal enable v r n st f =
      (Reaches-AllOrderly enable w' v start-AllOrderly r n st f).local_ok.one_signal
