-- ===== src/Pipeline/Runtime/Verdict.antt =====
-- How `updateStatus` judges a run (pkg/pipeline/run.go).
use paddle_flow.Prelude.{
  >>=-eq-some, Bool, arith, false, length, not, some, some-inj, subst, sym, true, ◌&&◌, ◌==◌, ◌||◌,
  ◌↔◌, ◌∙◌, ◌≡◌,
}
use mathlib.Core.Path.{ap₂}
use native.Mathlib.Nat.{zero-add}
use paddle_flow.Apiserver.Status.{RunStatus, terminating, succeeded, terminated}
use paddle_flow.Apiserver.Status
use paddle_flow.Pipeline.Runtime.{
  Tally, WorkflowRuntime, conclude, is_completed, no_tally, tally_steps, update_status,
}
use paddle_flow.Pipeline.Runtime.Moves.{
  Moved, Zip, all_ended, any_failed, any_terminated, Zip-length, count_ended, count_ended-all,
  tally_steps-AllTallied,
}

-- What a run becomes when `updateStatus` looks at it.
pub record Verdict (w w' : WorkflowRuntime) : Type 0 where
  pub moved : Zip (Moved w.steps) w.steps w'.steps
  pub completed : is_completed w' ≡ all_ended w.steps
  pub succeeds :
      (w'.status ≡ Status.succeeded)
      ↔ (all_ended w.steps ≡ true) × (any_failed w.steps ≡ false) × (any_terminated w.steps ≡ false)
  pub terminates :
      (w'.status ≡ Status.terminated)
      ↔ (all_ended w.steps ≡ true)
        × (any_failed w.steps ≡ false)
        × (any_terminated w.steps ≡ true)
        × (w.status ≡ terminating)
  pub cancels :
      w'.cancelled
      ≡ (w.cancelled || not (all_ended w.steps) && (any_failed w.steps || any_terminated w.steps))
  pub slots_kept : w'.slots ≡ w.slots
  pub parallelism_kept : w'.parallelism ≡ w.parallelism

conclude_keeps :
    (w : WorkflowRuntime) (t : Tally)
    → ((conclude w t).steps ≡ w.steps)
      × ((conclude w t).slots ≡ w.slots)
      × ((conclude w t).parallelism ≡ w.parallelism)
unfolding conclude
conclude_keeps w t = ground arith

conclude_verdict :
    (w : WorkflowRuntime) (t : Tally) (all_done : Bool)
    → is_completed w ≡ false
    → (t.step_done == length w.steps) ≡ all_done
    → (is_completed (conclude w t) ≡ all_done)
      × (((conclude w t).status ≡ Status.succeeded)
          ↔ (all_done ≡ true) × (t.has_failed_step ≡ false) × (t.has_terminated_step ≡ false))
      × (((conclude w t).status ≡ Status.terminated)
          ↔ (all_done ≡ true)
            × (t.has_failed_step ≡ false)
            × (t.has_terminated_step ≡ true)
            × (w.status ≡ terminating))
      × ((conclude w t).cancelled
          ≡ (w.cancelled || not all_done && (t.has_failed_step || t.has_terminated_step)))
unfolding conclude
conclude_verdict w t true open_run e = rw e (ground arith, ground arith, ground arith, ground arith)
conclude_verdict w t false open_run e =
    rw e (ground arith, ground arith, ground arith, ground arith)

-- `updateStatus` on a run that is not completed: only submissions change in the steps; the run is
-- completed exactly when every step has ended; it then succeeds exactly when no job failed or was
-- terminated, and is terminated exactly when no job failed, some job was terminated and the run
-- was being stopped; and the context is cancelled exactly when it was before, or some job failed
-- or was terminated while a step has not ended.
pub update_status-Verdict :
    (w w' : WorkflowRuntime) → is_completed w ≡ false → update_status w ≡ some w' → Verdict w w'
unfolding update_status
update_status-Verdict w w' open_run h =
    let ((steps, t), e, h') = >>=-eq-some (tally_steps w.steps w.steps no_tally) _ h in
    let k = tally_steps-AllTallied w.steps w.steps no_tally steps t e in
    let v = record w { steps = steps } in
    let count : (t.step_done == length steps) ≡ all_ended w.steps =
      ap₂ (λ a b. a == b) (k.counted ∙ zero-add (count_ended w.steps))
        (Zip-length _ w.steps steps k.moved)
      ∙ count_ended-all w.steps in
    let (done, well, stopped, cancel) = conclude_verdict v t (all_ended w.steps) open_run count in
    let (same_steps, same_slots, same_parallelism) = conclude_keeps v t in
    subst (Verdict w) (some-inj h') (record {
      moved = subst (Zip (Moved w.steps) w.steps) (sym same_steps) k.moved;
      completed = done;
      succeeds = rw (← k.failed_seen, ← k.terminated_seen) well;
      terminates = rw (← k.failed_seen, ← k.terminated_seen) stopped;
      cancels = rw (← k.failed_seen, ← k.terminated_seen) cancel;
      slots_kept = same_slots;
      parallelism_kept = same_parallelism;
    })
