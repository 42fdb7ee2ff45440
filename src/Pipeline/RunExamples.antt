-- ===== src/Pipeline/RunExamples.antt =====
-- A run of two steps, of which b waits for a (pkg/pipeline/run.go, step.go).
use Prim.Native.String.{String}
use paddle_flow.Prelude.{
  In, Option, Text, [], ap, arith, codes, false, if◌then◌else◌, inl, inr, insert, lookup, none,
  refl, some, subst, text_eq, true, ◌+◌, ◌<◌, ◌∷◌, ◌≡◌, ◌≤◌,
}
use paddle_flow.Schema.Jobs.{succeeded}
use paddle_flow.Pipeline.Job.{new_paddle_flow_job}
use paddle_flow.Pipeline.Event.{job_update, new_workflow_event}
use paddle_flow.Pipeline.Execute.Traces.{
  IsFresh, IsFreshStep, Moves, Reaches, acquire, announce, handle, here, next, put, receive, settle,
  take_signal, update_event,
}
use paddle_flow.Pipeline.Execute.Fresh.{start-AllFinishedWell, start-one_signal}
use paddle_flow.Pipeline.Execute.Ordering.{phase_signalled}
use paddle_flow.Pipeline.Execute.Slots.{running_jobs}
use paddle_flow.Pipeline.Execute.Keeping.{HasSlots}
use paddle_flow.Pipeline.Execute.Capacity.{start-parallelism, start_failed_leaks}
use paddle_flow.Pipeline.Runtime.Deps.{AllFinishedWell, waits_for}
use paddle_flow.Pipeline.Runtime.Verdict.{Verdict, update_status-Verdict}
use paddle_flow.Pipeline.Runtime.{
  Step, WorkflowRuntime, new_workflow_runtime, process_event, start, idle, acquiring, is_completed,
  update_status,
}
use paddle_flow.Pipeline.Execute.{
  check_missed, execute_with_slot, start_ok, start_failed, watch_event,
}

abbrev pub blank_step : String → String → Step
unfolding new_paddle_flow_job
blank_step name deps = record {
  info = record {
    parameters = [];
    command = [];
    deps = codes deps;
    artifacts = record { input = []; output = [] };
    env = [];
    image = [];
  };
  ready = 0;
  done = false;
  submitted = false;
  job = new_paddle_flow_job (codes name) [] (codes deps);
  first_fp = [];
  second_fp = [];
  phase = idle;
  inbox = [];
  pending = none;
}

abbrev made : WorkflowRuntime
unfolding new_workflow_runtime
made = record (new_workflow_runtime (codes "run") 1) {
  steps = (codes "a", blank_step "run-a" "") ∷ (codes "b", blank_step "run-b" " a") ∷ [];
}

made-IsFresh : IsFresh made
unfolding made blank_step new_paddle_flow_job new_workflow_runtime
made-IsFresh = record { fresh_steps = each; free = refl }
  where
    new : (name deps : String) → IsFreshStep (blank_step name deps)
    new name deps = record {
      unsent = refl;
      unsubmitted = refl;
      waiting = refl;
      settled = refl;
      unseen = refl;
    }

    each : (n : Text) (st : Step) → In (n, st) made.steps → IsFreshStep st
    each n st (inl e) = subst IsFreshStep (ap (λ (x : Text × Step). x.1) e) (new "run-a" "")
    each n st (inr (inl e)) = subst IsFreshStep (ap (λ (x : Text × Step). x.1) e) (new "run-b" " a")
    each n st (inr (inr x)) = elim x [ ]

abbrev or_made : Option WorkflowRuntime → WorkflowRuntime
or_made none = made
or_made (some w) = w

abbrev begun : WorkflowRuntime
unfolding start
begun = or_made (start made)

made-begun : start made ≡ some begun
unfolding made blank_step new_paddle_flow_job new_workflow_runtime start lookup text_eq insert
    process_event begun
made-begun = refl

abbrev step_of : WorkflowRuntime → String → Step
unfolding lookup
step_of w n = elim (lookup (codes n) w.steps) [ none ↦ blank_step n "" | some st ↦ st ]

-- a has read its signal, and has got the slot.
abbrev signalled : WorkflowRuntime
signalled = put begun (codes "a") (record (step_of begun "a") { ready = 0; phase = acquiring })

begun_signalled : Moves false begun signalled
unfolding made blank_step new_paddle_flow_job new_workflow_runtime start lookup text_eq insert
    process_event begun step_of
begun_signalled = take_signal (codes "a") (step_of begun "a") 0 refl refl refl refl

abbrev submitted : WorkflowRuntime
unfolding execute_with_slot
submitted =
    execute_with_slot signalled (codes "a") (step_of signalled "a") false check_missed
      (start_ok (codes "job-1"))

signalled_submitted : Moves false signalled submitted
unfolding made blank_step new_paddle_flow_job new_workflow_runtime start lookup text_eq insert
    process_event begun step_of submitted
signalled_submitted =
    acquire (codes "a") (step_of signalled "a") check_missed (start_ok (codes "job-1")) refl refl
      (omega arith) refl

-- Its job succeeds.
abbrev announced : WorkflowRuntime
unfolding submitted step_of
announced = put submitted (codes "a") (record (step_of submitted "a") {
  inbox = update_event (step_of submitted "a") succeeded [] ∷ [];
  pending = some (succeeded, []);
})

submitted_announced : Moves false submitted announced
unfolding made blank_step new_paddle_flow_job new_workflow_runtime start lookup text_eq insert
    process_event begun step_of submitted
submitted_announced =
    announce (codes "a") (step_of submitted "a") succeeded [] refl refl refl refl refl refl

abbrev received : WorkflowRuntime
unfolding watch_event
received =
    watch_event announced (codes "a") (step_of announced "a") false
      (update_event (step_of submitted "a") succeeded []) []

announced-received : Moves false announced received
unfolding made blank_step new_paddle_flow_job new_workflow_runtime start lookup text_eq insert
    process_event begun step_of submitted received
announced-received = receive (codes "a") (step_of announced "a") _ [] refl refl refl refl

abbrev settled : WorkflowRuntime
settled = put received (codes "a") (record (step_of received "a") {
  job = record ((step_of received "a").job) { status = succeeded; message = [] };
  pending = none;
})

received_settled : Moves false received settled
unfolding made blank_step new_paddle_flow_job new_workflow_runtime start lookup text_eq insert
    process_event begun step_of submitted received
received_settled = settle (codes "a") (step_of received "a") succeeded [] refl refl refl

-- The run takes the event, and submits b.
abbrev next_state : WorkflowRuntime → WorkflowRuntime
unfolding process_event
next_state w =
    elim (process_event (record w { events = [] }) (new_workflow_event job_update [] none)) [
      | none ↦ w
      | some (v, _) ↦ v
    ]

abbrev ready_for_b : WorkflowRuntime
ready_for_b = next_state settled

settled_ready : Moves false settled ready_for_b
unfolding made blank_step new_paddle_flow_job new_workflow_runtime start lookup text_eq insert
    process_event begun step_of submitted received next_state
settled_ready = handle _ [] _ refl refl

abbrev b_signalled : WorkflowRuntime
b_signalled =
    put ready_for_b (codes "b") (record (step_of ready_for_b "b") { ready = 0; phase = acquiring })

ready_signalled : Moves false ready_for_b b_signalled
unfolding made blank_step new_paddle_flow_job new_workflow_runtime start lookup text_eq insert
    process_event begun step_of submitted received next_state
ready_signalled = take_signal (codes "b") (step_of ready_for_b "b") 0 refl refl refl refl

begun-b_signalled : Reaches false begun b_signalled
begun-b_signalled =
    next
      (next
        (next
          (next (next (next (next here begun_signalled) signalled_submitted) submitted_announced)
            announced-received)
          received_settled)
        settled_ready)
      ready_signalled

b_found : lookup (codes "b") b_signalled.steps ≡ some (step_of b_signalled "b")
unfolding made blank_step new_paddle_flow_job new_workflow_runtime start lookup text_eq insert
    process_event begun step_of submitted received next_state
b_found = refl

b_selected : phase_signalled (step_of b_signalled "b").phase ≡ true
unfolding made blank_step new_paddle_flow_job new_workflow_runtime start lookup text_eq insert
    process_event begun step_of submitted received next_state
b_selected = refl

start-AllFinishedWell_example :
    AllFinishedWell b_signalled.steps (waits_for (step_of b_signalled "b"))
start-AllFinishedWell_example =
    start-AllFinishedWell made begun made-IsFresh made-begun false b_signalled begun-b_signalled
      (codes "b") (step_of b_signalled "b") b_found b_selected

start-one_signal_example :
    (step_of b_signalled "b").ready ≤ (if (step_of b_signalled "b").submitted then 1 else 0)
start-one_signal_example =
    start-one_signal made begun made-IsFresh made-begun false b_signalled begun-b_signalled
      (codes "b") (step_of b_signalled "b") b_found

start-parallelism_example : running_jobs submitted.steps ≤ made.parallelism
start-parallelism_example =
    start-parallelism made begun made-IsFresh made-begun false submitted
      (next (next here begun_signalled) signalled_submitted)

signalled-HasSlots : HasSlots signalled
unfolding made blank_step new_paddle_flow_job new_workflow_runtime start lookup text_eq insert
    process_event begun step_of submitted received next_state
signalled-HasSlots = record { held = omega arith; within = omega arith }

a_found : lookup (codes "a") signalled.steps ≡ some (step_of signalled "a")
unfolding made blank_step new_paddle_flow_job new_workflow_runtime start lookup text_eq insert
    process_event begun step_of submitted received next_state
a_found = refl

a_selected : (step_of signalled "a").phase ≡ acquiring
unfolding made blank_step new_paddle_flow_job new_workflow_runtime start lookup text_eq insert
    process_event begun step_of submitted received next_state
a_selected = refl

has_room : signalled.slots < signalled.parallelism
unfolding made blank_step new_paddle_flow_job new_workflow_runtime start lookup text_eq insert
    process_event begun step_of submitted received next_state
has_room = omega arith

not_cancelled : signalled.cancelled ≡ false
unfolding made blank_step new_paddle_flow_job new_workflow_runtime start lookup text_eq insert
    process_event begun step_of submitted received next_state
not_cancelled = refl

start_failed_leaks_example :
    signalled.slots
      + 1
      + running_jobs
          (execute_with_slot signalled
            (codes "a")
            (step_of signalled "a")
            false
            check_missed
            (start_failed (codes "quota"))).steps
    ≤ (execute_with_slot signalled
        (codes "a")
        (step_of signalled "a")
        false
        check_missed
        (start_failed (codes "quota"))).slots
      + running_jobs signalled.steps
start_failed_leaks_example =
    start_failed_leaks signalled (codes "a") (step_of signalled "a") false (codes "quota")
      signalled-HasSlots a_found a_selected has_room not_cancelled _ here

abbrev listening : WorkflowRuntime
listening = record settled { events = [] }

is_open : is_completed listening ≡ false
unfolding made blank_step new_paddle_flow_job new_workflow_runtime start lookup text_eq insert
    process_event begun step_of submitted received next_state
is_open = refl

updated : update_status listening ≡ some ready_for_b
unfolding made blank_step new_paddle_flow_job new_workflow_runtime start lookup text_eq insert
    process_event begun step_of submitted received next_state
updated = refl

update_status-Verdict_example : Verdict listening ready_for_b
update_status-Verdict_example = update_status-Verdict listening ready_for_b is_open updated
