-- ===== src/Pipeline/Execute/Capacity.antt =====
-- How many jobs of a run may run at once, whatever the interleaving.
use paddle_flow.Apiserver.Status
use paddle_flow.Prelude.{
  >>=-eq-some, Bool, In, Text, [], ap, arith, false, if◌then◌else◌, inl, inr, lookup, refl, some,
  some-inj, subst, sym, true, ◌+◌, ◌<◌, ◌∷◌, ◌≡◌, ◌≤◌, ◌⊎◌,
}
use paddle_flow.Schema.Jobs.{cancelled}
use paddle_flow.Pipeline.Event.{job_update}
use paddle_flow.Pipeline.Runtime.{
  RunSteps, Step, WorkflowRuntime, acquiring, idle, selecting, start, start_steps,
}
use paddle_flow.Pipeline.Runtime.Moves.{Zip}
use mathlib.Core.Bool.{true≢false}
use paddle_flow.Pipeline.Execute.{
  after_check, dec_concurrent_jobs, check_missed, execute_with_slot, give_up, inc_concurrent_jobs,
  start_failed, start_job,
}
use paddle_flow.Pipeline.Execute.Traces.{IsFresh, IsFreshStep, Reaches}
use paddle_flow.Pipeline.Execute.Slots.{
  phase_holds, running_jobs, running_jobs-insert, execute_with_slot-SlotMove,
}
use paddle_flow.Pipeline.Execute.Fresh.{Launched, start_steps-Zip}
use paddle_flow.Pipeline.Execute.Keeping.{
  HasSlots, Reaches-KeepsSlots, KeepsSlots-HasSlots, SlotMove-KeepsSlots_room,
}

Launched-running_jobs :
    (all xs ys : RunSteps)
    → Zip (Launched all) xs ys
    → ((n : Text) (st : Step) → In (n, st) xs → IsFreshStep st)
    → running_jobs ys ≡ 0
Launched-running_jobs all [] [] z fresh = refl
Launched-running_jobs all ((n, s) ∷ xs) ((m, t) ∷ ys) (e, l, z) fresh =
    idle_or_selecting (l.launched (fresh n s (inl refl)).waiting)
      (Launched-running_jobs all xs ys z (λ k st i. fresh k st (inr i)))
  where
    idle_or_selecting :
        (t.phase ≡ idle) ⊎ (t.phase ≡ selecting)
        → running_jobs ys ≡ 0
        → phase_holds t.phase + running_jobs ys ≡ 0
    idle_or_selecting (inl p) h = omega (arith, ap phase_holds p, h)
    idle_or_selecting (inr p) h = omega (arith, ap phase_holds p, h)
Launched-running_jobs all [] (_ ∷ _) z fresh = absurd z
Launched-running_jobs all (_ ∷ _) [] z fresh = absurd z

-- However the goroutines of a run interleave after `Start`, no more jobs run at once than the run's
-- parallelism.
pub start-parallelism :
    (w w' : WorkflowRuntime)
    → IsFresh w
    → start w ≡ some w'
    → (enable : Bool) (v : WorkflowRuntime) → Reaches enable w' v
    → running_jobs v.steps ≤ w.parallelism
unfolding start
start-parallelism w w' fresh started enable v r =
    let (steps, e, h) = >>=-eq-some (start_steps w.steps w.steps) _ started in
    let zero_jobs =
      Launched-running_jobs w.steps w.steps steps (start_steps-Zip w.steps w.steps steps e)
        fresh.fresh_steps in
    let begun : WorkflowRuntime = record w { steps = steps; status = Status.running } in
    let ok : HasSlots begun = record {
      held = omega (arith, zero_jobs);
      within = omega (arith, fresh.free);
    } in
    let (hv, kv) =
      Reaches-KeepsSlots enable begun v ok (subst (λ x. Reaches enable x v) (sym (some-inj h)) r) in
    omega (arith, hv.held, hv.within, kv.same_parallelism)

-- What `execute_with_slot` leaves when the context is not done and the job cannot be started.
start_failed-slots :
    (w : WorkflowRuntime) (n : Text) (st : Step) (enable : Bool) (err : Text)
    → lookup n w.steps ≡ some st
    → st.phase ≡ acquiring
    → w.cancelled ≡ false
    → ((execute_with_slot w n st enable check_missed (start_failed err)).slots ≡ w.slots + 1)
      × (running_jobs (execute_with_slot w n st enable check_missed (start_failed err)).steps
          ≡ running_jobs w.steps)
unfolding execute_with_slot start_job give_up inc_concurrent_jobs
start_failed-slots w n st enable err f p open_run = go w.cancelled enable open_run
  where
    w' : WorkflowRuntime
    w' = inc_concurrent_jobs w

    failed_run : WorkflowRuntime
    failed_run = start_job w' n st (start_failed err)

    Leaves : WorkflowRuntime → Type 0
    Leaves u = (u.slots ≡ w.slots + 1) × (running_jobs u.steps ≡ running_jobs w.steps)

    leaves : Leaves failed_run
    leaves = (refl, omega (arith, ap phase_holds p, running_jobs-insert w.steps n st _ f))

    go :
        (c b : Bool)
        → c ≡ false
        → Leaves (
            if c
            then give_up (dec_concurrent_jobs w') n st cancelled job_update []
            else if b
            then after_check w' n st check_missed (start_failed err)
            else start_job w' n st (start_failed err))
    go true b e = absurd (true≢false e)
    go false true e = leaves
    go false false e = leaves

-- When `job.Start` fails after a step got its slot, with the context not done and no cache found,
-- then from then on the run never has that slot again: in every later state at least one slot more
-- is taken than jobs run, beside those that were so before.
pub start_failed_leaks :
    (w : WorkflowRuntime) (n : Text) (st : Step) (enable : Bool) (err : Text)
    → HasSlots w
    → lookup n w.steps ≡ some st
    → st.phase ≡ acquiring
    → w.slots < w.parallelism
    → w.cancelled ≡ false
    → (v : WorkflowRuntime)
    → Reaches enable (execute_with_slot w n st enable check_missed (start_failed err)) v
    → w.slots + 1 + running_jobs v.steps ≤ v.slots + running_jobs w.steps
start_failed_leaks w n st enable err h f p room open_run v r =
    let u = execute_with_slot w n st enable check_missed (start_failed err) in
    let m = execute_with_slot-SlotMove w n st enable check_missed (start_failed err) in
    let hu = KeepsSlots-HasSlots w u h (SlotMove-KeepsSlots_room w u n st f h m room) in
    let (taken, jobs) = start_failed-slots w n st enable err f p open_run in
    let (_, k) = Reaches-KeepsSlots enable u v hu r in omega (arith, taken, jobs, k.gap)
