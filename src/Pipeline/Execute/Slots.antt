-- ===== src/Pipeline/Execute/Slots.antt =====
-- The slots of `concurrentJobs`: how many jobs run at once (pkg/pipeline/run.go, step.go).
use paddle_flow.Prelude.{
  Bool, Bool-cases, List, Text, [], ap, arith, false, if◌then◌else◌, inl, inr, insert, lookup, not,
  refl, some, some-inj, suc, text_eq, true, ℕ, ◌&&◌, ◌++◌, ◌+◌, ◌∷◌, ◌≡◌, ◌≤◌,
}
use paddle_flow.Schema.Jobs.{JobStatus}
use paddle_flow.Pipeline.Event.{
  EventValue, WorkflowEvent, is_job_update, is_job_watch_err, job_submit_err, job_update,
}
use paddle_flow.Pipeline.Runtime.{watching, Phase, RunSteps, Step, WorkflowRuntime}
use paddle_flow.Pipeline.Execute.{
  CacheCheck, StartResult, after_check, check_failed, check_found, check_missed,
  dec_concurrent_jobs, execute_with_slot, give_up, inc_concurrent_jobs, is_final_update,
  start_failed, start_job, start_ok, watch_event, watch_final,
}

abbrev pub phase_holds : Phase → ℕ
phase_holds watching = 1
phase_holds _ = 0

-- The steps whose job runs.
abbrev pub running_jobs : RunSteps → ℕ
running_jobs [] = 0
running_jobs ((n, st) ∷ steps) = phase_holds st.phase + running_jobs steps

pub running_jobs-insert :
    (steps : RunSteps) (n : Text) (st st' : Step)
    → lookup n steps ≡ some st
    → running_jobs (insert n st' steps) + phase_holds st.phase
      ≡ running_jobs steps + phase_holds st'.phase
unfolding lookup insert
running_jobs-insert [] n st st' e = cc
running_jobs-insert ((m, s) ∷ steps) n st st' e = elim (Bool-cases (text_eq m n)) [
  | inl h ↦
      let same : s ≡ st = some-inj (rw h at e) in
      rw (h, running_jobs) (rw (ap (λ (x : Step). phase_holds x.phase) same) (omega arith))
  | inr h ↦ rw (h, running_jobs) (omega (arith, running_jobs-insert steps n st st' (rw h at e)))
]

-- What a move of one step does to the slots: it takes one for each job that it starts, and gives
-- back none that it does not hold.
pub record SlotMove (w : WorkflowRuntime) (n : Text) (st : Step) (v : WorkflowRuntime)
    : Type 0 where
  pub new : Step
  pub placed : v.steps ≡ insert n new w.steps
  pub taken : w.slots + phase_holds new.phase ≤ v.slots + phase_holds st.phase
  pub within : v.slots ≤ suc w.slots
  pub same_parallelism : v.parallelism ≡ w.parallelism

start_job-SlotMove :
    (w : WorkflowRuntime) (n : Text) (st : Step) (started : StartResult)
    → SlotMove w n st (start_job (inc_concurrent_jobs w) n st started)
unfolding start_job inc_concurrent_jobs
start_job-SlotMove w n st (start_failed err) = record {
  new = _;
  placed = refl;
  taken = omega arith;
  within = omega arith;
  same_parallelism = refl;
}
start_job-SlotMove w n st (start_ok id) = record {
  new = _;
  placed = refl;
  taken = omega arith;
  within = omega arith;
  same_parallelism = refl;
}

give_up-SlotMove :
    (w : WorkflowRuntime) (n : Text) (st : Step) (status : JobStatus) (value : EventValue)
    (msg : Text)
    → SlotMove w n st (give_up (dec_concurrent_jobs (inc_concurrent_jobs w)) n st status value msg)
unfolding give_up inc_concurrent_jobs dec_concurrent_jobs
give_up-SlotMove w n st status value msg = record {
  new = _;
  placed = refl;
  taken = omega arith;
  within = omega arith;
  same_parallelism = refl;
}

pub execute_with_slot-SlotMove :
    (w : WorkflowRuntime) (n : Text) (st : Step) (enable : Bool) (check : CacheCheck)
    (started : StartResult)
    → SlotMove w n st (execute_with_slot w n st enable check started)
unfolding execute_with_slot
execute_with_slot-SlotMove w n st enable check started = go w.cancelled enable check
  where
    w' : WorkflowRuntime
    w' = inc_concurrent_jobs w

    go :
        (c b : Bool) (k : CacheCheck)
        → SlotMove w n st (
            if c
            then give_up (dec_concurrent_jobs w') n st JobStatus.cancelled job_update []
            else if b
            then after_check w' n st k started
            else start_job w' n st started)
    go true b k = give_up-SlotMove w n st JobStatus.cancelled job_update []
    go false true (check_failed err) = give_up-SlotMove w n st JobStatus.failed job_submit_err _
    go false true check_found = give_up-SlotMove w n st JobStatus.cached job_update _
    go false true check_missed = start_job-SlotMove w n st started
    go false false k = start_job-SlotMove w n st started

pub watch_event-SlotMove :
    (w : WorkflowRuntime) (n : Text) (st : Step) (enable : Bool) (e : WorkflowEvent)
    (rest : List WorkflowEvent)
    → st.phase ≡ watching
    → 1 ≤ w.slots
    → SlotMove w n st (watch_event w n st enable e rest)
unfolding watch_event dec_concurrent_jobs
watch_event-SlotMove w n st enable e rest p held =
    go (not (is_job_watch_err e) && (is_job_update e && is_final_update e.extra))
  where
    st' : Step
    st' = record st { inbox = rest }

    w' : WorkflowRuntime
    w' = record w { events = w.events ++ e ∷ [] }

    holds : phase_holds st.phase ≡ 1
    holds = rw (p, phase_holds)

    go :
        (c : Bool)
        → SlotMove w n st (
            if c
            then watch_final w' n st' enable e.extra
            else record w' { steps = insert n st' w.steps })
    go true = record {
      new = _;
      placed = refl;
      taken = omega (arith, holds);
      within = omega arith;
      same_parallelism = refl;
    }
    go false = record {
      new = st';
      placed = refl;
      taken = omega arith;
      within = omega arith;
      same_parallelism = refl;
    }
