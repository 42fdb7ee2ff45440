-- ===== src/Pipeline/Runtime.antt =====
-- pkg/pipeline/run.go: the run of a workflow, which starts its steps and reads their events.
pub mod Deps
pub mod Moves
pub mod Verdict
use paddle_flow.Prelude.{
  Bool, List, Option, Text, [], codes, false, has, if◌then◌else◌, is_blank, length, lookup, map,
  none, not, some, split, suc, text_empty, trim, true, zero, ℕ, ◌&&◌, ◌++◌, ◌+◌, ◌==◌, ◌>>=◌, ◌||◌,
  ◌∷◌,
}
use paddle_flow.Schema.Jobs.{JobStatus}
use paddle_flow.Schema.Workflow.{Artifacts, WorkflowSourceStep}
use paddle_flow.Apiserver.Status.{
  RunStatus, no_status, terminating, failed, is_run_final_status, running, succeeded, terminated,
}
use paddle_flow.Apiserver.Status
use paddle_flow.Pipeline.Event.{WorkflowEvent, is_job_stop_err, is_job_submit_err, is_job_watch_err}
use paddle_flow.Pipeline.Job.{
  PaddleFlowJob, is_cached, is_failed, is_succeeded, is_terminated, watch, not_ended,
}

-- Where the goroutine of a step stands: not started, in the `select` of `Execute`, waiting for a
-- slot, in the loop of `Watch`, or ended.
pub data Phase : Type 0 where
  idle selecting acquiring watching ended : Phase

-- `Step`. `ready` counts the signals in the channel, which has room for one. `inbox` is the channel
-- from the goroutine that watches the job, and `pending` a status that this goroutine has sent and
-- has not yet written into the job.
pub record Step : Type 0 where
  pub info : WorkflowSourceStep
  pub ready : ℕ
  pub done : Bool
  pub submitted : Bool
  pub job : PaddleFlowJob
  pub first_fp : Text
  pub second_fp : Text
  pub phase : Phase
  pub inbox : List WorkflowEvent
  pub pending : Option (JobStatus × Text)

abbrev pub RunSteps : Type 0
RunSteps = List (Text × Step)

-- The callbacks that steps make: a cache record, or an artifact under its name.
pub data Call : Type 0 where
  log_cache : (step first_fp second_fp : Text) → Call
  log_input : (step artifact path : Text) → Call
  log_output : (step artifact path : Text) → Call

-- `WorkflowRuntime`. `cancelled` says that the context is done, `slots` is the number of entries in
-- `concurrentJobs`, `events` holds the channel with the senders that wait for room in it, and
-- `calls` lists the callbacks made so far.
pub record WorkflowRuntime : Type 0 where
  pub run_id : Text
  pub steps : RunSteps
  pub cancelled : Bool
  pub parallelism : ℕ
  pub slots : ℕ
  pub events : List WorkflowEvent
  pub status : RunStatus
  pub calls : List Call

unfoldable pub new_workflow_runtime : Text → ℕ → WorkflowRuntime
new_workflow_runtime run_id parallelism = record {
  run_id = run_id;
  steps = [];
  cancelled = false;
  parallelism = parallelism;
  slots = 0;
  events = [];
  status = no_status;
  calls = [];
}

abbrev pub job_finished_well : Step → Bool
job_finished_well st = is_succeeded st.job || is_cached st.job

-- The loop of `isDepsReady`; `none` is the panic on a step that is not in the map.
unfoldable pub deps_ready : RunSteps → List Text → Bool → Option Bool
unfolding lookup trim
deps_ready steps [] ready = some ready
deps_ready steps (part ∷ parts) ready =
    let dep = trim is_blank part in
    elim (text_empty dep) [
      | true ↦ deps_ready steps parts ready
      | false ↦ elim (lookup dep steps) [
        | none ↦ none
        | some st ↦ deps_ready steps parts (if job_finished_well st then ready else false)
      ]
    ]

unfoldable pub is_deps_ready : RunSteps → Step → Option Bool
unfolding deps_ready split
is_deps_ready steps st = deps_ready steps (split b',' st.info.deps) true

-- `st.update(st.done, true, st.job)` and `st.ready <- true`.
abbrev pub submit : Step → Step
submit st = record st { submitted = true; ready = st.ready + 1 }

abbrev pub submit_if : Step → Bool → Step
submit_if st ready = if ready && not st.submitted then submit st else st

-- The variables of `updateStatus`.
pub record Tally : Type 0 where
  pub step_done : ℕ
  pub has_failed_step : Bool
  pub has_terminated_step : Bool

abbrev pub no_tally : Tally
no_tally = record { step_done = 0; has_failed_step = false; has_terminated_step = false }

-- The body of the loop of `updateStatus`, for one step.
unfoldable pub tally_step : RunSteps → Step → Tally → Option (Step × Tally)
unfolding is_deps_ready
tally_step steps st t =
    if is_succeeded st.job
    then some (st, record t { step_done = t.step_done + 1 })
    else if is_failed st.job
    then some (st, record t { step_done = t.step_done + 1; has_failed_step = true })
    else if is_terminated st.job
    then some (st, record t { step_done = t.step_done + 1; has_terminated_step = true })
    else if st.done
    then some (st, record t { step_done = t.step_done + 1 })
    else do ready ← is_deps_ready steps st; some (submit_if st ready, t)

unfoldable pub tally_steps : RunSteps → RunSteps → Tally → Option (RunSteps × Tally)
unfolding tally_step
tally_steps all [] t = some ([], t)
tally_steps all ((name, st) ∷ steps) t = do
  (st', t') ← tally_step all st t
  (steps', t'') ← tally_steps all steps t'
  some ((name, st') ∷ steps', t'')

-- The status of a run whose steps are all done.
abbrev pub final_status : Tally → RunStatus → RunStatus
final_status t status =
    if t.has_failed_step
    then Status.failed
    else if t.has_terminated_step
    then elim status [ terminating ↦ Status.terminated | _ ↦ Status.failed ]
    else Status.succeeded

-- What `updateStatus` does behind its loop.
unfoldable pub conclude : WorkflowRuntime → Tally → WorkflowRuntime
conclude w t =
    if t.step_done == length w.steps
    then record w { status = final_status t w.status }
    else if (t.has_failed_step || t.has_terminated_step) && not w.cancelled
    then record w { cancelled = true }
    else w

unfoldable pub update_status : WorkflowRuntime → Option WorkflowRuntime
unfolding tally_steps conclude
update_status w = do
  (steps, t) ← tally_steps w.steps w.steps no_tally
  some (conclude (record w { steps = steps }) t)

abbrev pub is_completed : WorkflowRuntime → Bool
is_completed w = Status.is_run_final_status w.status

-- `Stop` leaves the steps to notice that the context is done.
unfoldable pub stop : WorkflowRuntime → WorkflowRuntime
stop w = if is_completed w then w else record w { cancelled = true; status = terminating }

-- The message for the user that `callback` chooses.
unfoldable pub callback_message : WorkflowEvent → RunStatus → Text
callback_message e status =
    if is_job_stop_err e && elim status [ terminating ↦ true | _ ↦ false ]
    then codes "stop runfailed because of " ++ (e.message ++ codes ". please retry it.")
    else if is_job_stop_err e
    then codes "run has failed. but cannot stop related job because of " ++ (e.message ++ codes ".")
    else if is_job_submit_err e
    then codes "submit job in run error because of " ++ (e.message ++ codes ".")
    else if is_job_watch_err e
    then codes "watch job in run error because of " ++ (e.message ++ codes ".")
    else []

-- `JobView`, the job of a step as the user sees it.
pub record JobView : Type 0 where
  pub job_id : Text
  pub job_name : Text
  pub command : Text
  pub parameters : List (Text × Text)
  pub env : List (Text × Text)
  pub start_time : Text
  pub end_time : Text
  pub status : JobStatus
  pub deps : Text
  pub image : Text
  pub artifacts : Artifacts
  pub job_message : Text

abbrev pub job_view : Step → JobView
job_view st = record {
  job_id = st.job.id;
  job_name = st.job.name;
  command = st.job.command;
  parameters = st.job.parameters;
  env = st.job.env;
  start_time = st.job.start_time;
  end_time = st.job.end_time;
  status = st.job.status;
  deps = st.job.deps;
  image = st.info.image;
  artifacts = st.job.artifacts;
  job_message = st.job.message;
}

-- What `UpdateRunCb` is told: the run's status, the message, and the jobs of the steps.
pub record RunUpdate : Type 0 where
  pub run_id : Text
  pub status : RunStatus
  pub message : Text
  pub runtime : List (Text × JobView)

unfoldable pub callback : WorkflowRuntime → WorkflowEvent → RunUpdate
unfolding callback_message
callback w e = record {
  run_id = w.run_id;
  status = w.status;
  message = callback_message e w.status;
  runtime = map (λ entry. (entry.0, job_view entry.1)) w.steps;
}

-- The loop that calls `UpdateRunCb` three times at most; `answers` are its results.
unfoldable pub deliver : ℕ → List Bool → Bool
deliver zero answers = false
deliver (suc tries) [] = false
deliver (suc tries) (ok ∷ answers) = let rest = deliver tries answers in if ok then true else rest

-- `processEvent`: the new run, and the update if one is sent.
unfoldable pub process_event :
    WorkflowRuntime → WorkflowEvent → Option (WorkflowRuntime × Option RunUpdate)
unfolding update_status callback
process_event w e =
    if is_completed w
    then some (w, none)
    else do w' ← update_status w; some (w', some (callback w' e))

-- `go st.Execute()` for a step that has not ended.
abbrev pub launch : Step → Step
launch st = record st { phase = selecting }

unfoldable pub start_step : RunSteps → Step → Option Step
unfolding is_deps_ready
start_step all st =
    if st.done then some st else do ready ← is_deps_ready all st; some (submit_if (launch st) ready)

-- The loop of `Start`.
unfoldable pub start_steps : RunSteps → RunSteps → Option RunSteps
unfolding start_step
start_steps all [] = some []
start_steps all ((name, st) ∷ steps) = do
  st' ← start_step all st
  steps' ← start_steps all steps
  some ((name, st') ∷ steps')

unfoldable pub start : WorkflowRuntime → Option WorkflowRuntime
unfolding start_steps
start w = do
  steps ← start_steps w.steps w.steps
  some (record w { steps = steps; status = Status.running })
