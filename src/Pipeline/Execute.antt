-- ===== src/Pipeline/Execute.antt =====
-- pkg/pipeline/step.go: `Execute` and `Watch`, cut where the goroutine of a step may wait.
pub mod Slots
pub mod Traces
pub mod Ordering
pub mod Growth
pub mod Safety
pub mod Fresh
pub mod Keeping
pub mod Capacity
use Prim.Native.String.{String}
use paddle_flow.Prelude.{
  Bool, List, Option, Text, [], codes, false, if◌then◌else◌, insert, none, not, some, true, ◌&&◌,
  ◌++◌, ◌+◌, ◌-◌, ◌||◌, ◌∷◌,
}
use paddle_flow.Schema.Jobs.{JobStatus, cancelled, cached, failed, succeeded}
use paddle_flow.Pipeline.Event.{
  EventValue, JobExtra, WorkflowEvent, is_job_update, is_job_watch_err, job_submit_err, job_update,
  new_workflow_event,
}
use paddle_flow.Pipeline.Job.{status_failed, status_succeeded, status_terminated}
use paddle_flow.Pipeline.Runtime.{
  log_input, log_output, log_cache, ended, watching, Call, Step, WorkflowRuntime, start,
}

-- `checkCached` and `job.Start` as the step sees them.
pub data CacheCheck : Type 0 where
  check_failed : Text → CacheCheck
  check_found check_missed : CacheCheck

pub data StartResult : Type 0 where
  start_failed : Text → StartResult
  start_ok : Text → StartResult

unfoldable pub inc_concurrent_jobs : WorkflowRuntime → WorkflowRuntime
inc_concurrent_jobs w = record w { slots = w.slots + 1 }

-- A receive from `concurrentJobs`: it never finds the channel empty, since the caller holds a slot.
unfoldable pub dec_concurrent_jobs : WorkflowRuntime → WorkflowRuntime
dec_concurrent_jobs w = record w { slots = w.slots - 1 }

unfoldable pub get_job_extra : Step → JobStatus → JobExtra
get_job_extra st status = record {
  status = status;
  pre_status = st.job.status;
  job_id = st.job.id;
  message = none;
}

-- How every early end of `Execute` looks: the job's status, `done`, and an event.
unfoldable pub give_up :
    WorkflowRuntime → Text → Step → JobStatus → EventValue → Text → WorkflowRuntime
unfolding get_job_extra new_workflow_event insert
give_up w name st status value msg =
    let job = record (st.job) { status = status } in
    let st' = record st { job = job; done = true; phase = ended } in
    record w {
      steps = insert name st' w.steps;
      events = w.events ++ new_workflow_event value msg (some (get_job_extra st status)) ∷ [];
    }

-- The branch of the `select` for a context that is done.
unfoldable pub execute_cancelled : WorkflowRuntime → Text → Step → WorkflowRuntime
unfolding give_up
execute_cancelled w name st = give_up w name st cancelled job_update []

abbrev failure_text : String → Text → Text → Text → Text
failure_text what name run_id err =
    codes what
    ++ (name ++ (codes "] with runid[" ++ (run_id ++ (codes "] failed: [" ++ (err ++ codes "]")))))

abbrev input_calls : Text → List (Text × Text) → List Call
input_calls name [] = []
input_calls name ((artifact, path) ∷ rest) = log_input name artifact path ∷ input_calls name rest

abbrev output_calls : Text → List (Text × Text) → List Call
output_calls name [] = []
output_calls name ((artifact, path) ∷ rest) = log_output name artifact path ∷ output_calls name rest

-- From `st.job.Start()` on. If it fails, no slot is given back.
unfoldable pub start_job : WorkflowRuntime → Text → Step → StartResult → WorkflowRuntime
unfolding give_up insert
start_job w name st (start_failed err) =
    give_up w name st failed job_submit_err (failure_text "start job for step[" name w.run_id err)
start_job w name st (start_ok id) =
    let job = record (st.job) { id = id } in
    record w {
      steps = insert name (record st { job = job; phase = watching }) w.steps;
      calls = w.calls ++ input_calls name st.info.artifacts.input;
    }

abbrev pub after_check : WorkflowRuntime → Text → Step → CacheCheck → StartResult → WorkflowRuntime
after_check w name st (check_failed err) started =
    give_up (dec_concurrent_jobs w) name st failed job_submit_err
      (failure_text "check cache for step[" name w.run_id err)
after_check w name st check_found started =
    give_up (dec_concurrent_jobs w) name st cached job_update (
      codes "skip job for step["
      ++ (name ++ (codes "] with runid[" ++ (w.run_id ++ codes "], use cache"))))
after_check w name st check_missed started = start_job w name st started

-- From `IncConcurrentJobs(1)` on: `enable` is `cache.Enable`.
unfoldable pub execute_with_slot :
    WorkflowRuntime → Text → Step → Bool → CacheCheck → StartResult → WorkflowRuntime
unfolding give_up start_job inc_concurrent_jobs dec_concurrent_jobs
execute_with_slot w name st enable check started =
    let w' = inc_concurrent_jobs w in
    if w'.cancelled
    then give_up (dec_concurrent_jobs w') name st cancelled job_update []
    else if enable
    then after_check w' name st check started
    else start_job w' name st started

abbrev pub is_final_update : Option JobExtra → Bool
is_final_update none = false
is_final_update (some x) =
    status_succeeded x.status || (status_failed x.status || status_terminated x.status)

abbrev pub is_success_update : Option JobExtra → Bool
is_success_update none = false
is_success_update (some x) = status_succeeded x.status

-- The end of a job in the loop of `Watch`.
unfoldable pub watch_final :
    WorkflowRuntime → Text → Step → Bool → Option JobExtra → WorkflowRuntime
unfolding insert dec_concurrent_jobs
watch_final w name st enable extra =
    let logged =
      if enable && is_success_update extra
      then log_cache name st.first_fp st.second_fp ∷ []
      else [] in
    let outputs =
      if is_success_update extra then output_calls name st.info.artifacts.output else [] in
    let w' = dec_concurrent_jobs w in
    record w' {
      steps = insert name (record st { done = true; phase = ended }) w'.steps;
      calls = w'.calls ++ (logged ++ outputs);
    }

-- One round of the loop of `Watch`, on an event from the job; `rest` is what stays in the channel.
unfoldable pub watch_event :
    WorkflowRuntime → Text → Step → Bool → WorkflowEvent → List WorkflowEvent → WorkflowRuntime
unfolding watch_final insert
watch_event w name st enable e rest =
    let st' = record st { inbox = rest } in
    let w' = record w { events = w.events ++ e ∷ [] } in
    if not (is_job_watch_err e) && (is_job_update e && is_final_update e.extra)
    then watch_final w' name st' enable e.extra
    else record w' { steps = insert name st' w.steps }
