-- ===== src/Schema/Jobs.antt =====
-- pkg/common/schema/job.go: the states of a job, and what the cluster's states stand for.
use paddle_flow.Prelude.{Bool, false, true}

-- `JobStatus`; `unset` is the empty string, which a job has before it is first seen.
pub data JobStatus : Type 0 where
  unset pending running failed succeeded terminating terminated cancelled cached : JobStatus

-- The states of a spark application; `other_state` is any text with no name in the source.
pub data SparkState : Type 0 where
  new_state submitted_state running_state succeeding_state failing_state invalidating_state
        pending_rerun_state completed_state failed_state failed_submission_state unknown_state
        other_state :
      SparkState

-- The phases of a volcano job, as the source names them.
pub data JobPhase : Type 0 where
  pending_phase running_phase restarting_phase completing_phase terminating_phase aborting_phase
        completed_phase aborted_phase failed_phase terminated_phase other_phase :
      JobPhase

-- The status, and whether the error is `nil`.
abbrev status_or_error : JobStatus → JobStatus × Bool
status_or_error unset = (unset, false)
status_or_error s = (s, true)

abbrev spark_status : SparkState → JobStatus
spark_status new_state = pending
spark_status submitted_state = pending
spark_status running_state = running
spark_status succeeding_state = running
spark_status failing_state = running
spark_status invalidating_state = running
spark_status pending_rerun_state = running
spark_status completed_state = succeeded
spark_status failed_state = failed
spark_status failed_submission_state = failed
spark_status unknown_state = failed
spark_status other_state = unset

unfoldable pub get_spark_job_status : SparkState → JobStatus × Bool
get_spark_job_status state = status_or_error (spark_status state)

abbrev vc_status : JobPhase → JobStatus
vc_status pending_phase = pending
vc_status running_phase = running
vc_status restarting_phase = running
vc_status completing_phase = running
vc_status terminating_phase = terminating
vc_status aborting_phase = terminating
vc_status completed_phase = succeeded
vc_status aborted_phase = terminated
vc_status failed_phase = failed
vc_status terminated_phase = failed
vc_status other_phase = unset

unfoldable pub get_vc_job_status : JobPhase → JobStatus × Bool
get_vc_job_status phase = status_or_error (vc_status phase)

abbrev pub status_eq : JobStatus → JobStatus → Bool
status_eq unset unset = true
status_eq pending pending = true
status_eq running running = true
status_eq failed failed = true
status_eq succeeded succeeded = true
status_eq terminating terminating = true
status_eq terminated terminated = true
status_eq cancelled cancelled = true
status_eq cached cached = true
status_eq _ _ = false
