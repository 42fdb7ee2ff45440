-- ===== src/Pipeline/Event.antt =====
-- pkg/pipeline/event.go: what a step's goroutine and the run tell each other.
use paddle_flow.Prelude.{Bool, Option, Text, false, true}
use paddle_flow.Schema.Jobs.{JobStatus}

-- `WfEventValue`.
pub data EventValue : Type 0 where
  job_update run_update job_submit_err job_watch_err job_stop_err run_sys_error : EventValue

-- The map `Extra` of an event about a job.
pub record JobExtra : Type 0 where
  pub status : JobStatus
  pub pre_status : JobStatus
  pub job_id : Text
  pub message : Option Text

-- Every event is made by `NewWorkflowEvent`, so `Type` is always "Normal" and is left out.
pub record WorkflowEvent : Type 0 where
  pub event : EventValue
  pub message : Text
  pub extra : Option JobExtra

unfoldable pub new_workflow_event : EventValue → Text → Option JobExtra → WorkflowEvent
new_workflow_event e msg extra = record { event = e; message = msg; extra = extra }

abbrev value_is_job_update : EventValue → Bool
value_is_job_update job_update = true
value_is_job_update _ = false

abbrev value_is_job_watch_err : EventValue → Bool
value_is_job_watch_err job_watch_err = true
value_is_job_watch_err _ = false

abbrev value_is_job_submit_err : EventValue → Bool
value_is_job_submit_err job_submit_err = true
value_is_job_submit_err _ = false

abbrev value_is_job_stop_err : EventValue → Bool
value_is_job_stop_err job_stop_err = true
value_is_job_stop_err _ = false

abbrev pub is_job_update : WorkflowEvent → Bool
is_job_update e = value_is_job_update e.event

abbrev pub is_job_watch_err : WorkflowEvent → Bool
is_job_watch_err e = value_is_job_watch_err e.event

abbrev pub is_job_submit_err : WorkflowEvent → Bool
is_job_submit_err e = value_is_job_submit_err e.event

abbrev pub is_job_stop_err : WorkflowEvent → Bool
is_job_stop_err e = value_is_job_stop_err e.event

abbrev pub get_job_update : WorkflowEvent → Option JobExtra × Bool
get_job_update e = (e.extra, is_job_update e)
