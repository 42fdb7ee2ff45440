-- ===== src/Engine/Table.antt =====
-- pkg/job/job.go: the table of jobs in the database.
use paddle_flow.Prelude.{
  Bool, List, Option, Text, false, if◌then◌else◌, insert, lookup, none, not, some, text_empty, true,
  ◌&&◌,
}
use paddle_flow.Schema.Jobs.{JobStatus, failed, running, succeeded, terminated, unset}

-- The columns of `models.Job` that a status change concerns; the runtime object is kept as a text.
pub record Job : Type 0 where
  pub status : JobStatus
  pub runtime_info : Option Text
  pub message : Text
  pub activated_at : Option Text

abbrev pub Jobs : Type 0
Jobs = List (Text × Job)

-- How the database and the cluster answer during one call: whether a row can be read, whether it
-- can be saved, whether the cluster stops the job, and the time.
pub record Answers : Type 0 where
  pub reads : Bool
  pub saves : Bool
  pub stops : Bool
  pub now : Text

-- The table after a call, and whether it returned an error.
pub record Result : Type 0 where
  pub jobs : Jobs
  pub failed : Bool

unfoldable pub get_job_by_id : Jobs → Text → Answers → Option Job
unfolding lookup
get_job_by_id jobs id a = if a.reads then lookup id jobs else none

unfoldable pub is_immutable_job_status : JobStatus → Bool
is_immutable_job_status succeeded = true
is_immutable_job_status failed = true
is_immutable_job_status terminated = true
is_immutable_job_status _ = false

abbrev pub is_unset : JobStatus → Bool
is_unset unset = true
is_unset _ = false

abbrev pub status_is_running : JobStatus → Bool
status_is_running running = true
status_is_running _ = false

abbrev some_or {ℓ} : {A : Type ℓ} → Option A → Option A → Option A
some_or none b = b
some_or (some a) b = some a

-- The row that `UpdateJob` saves.
unfoldable pub updated_job : Job → JobStatus → Option Text → Text → Text → Job
unfolding is_immutable_job_status
updated_job job status info message now = record job {
  status =
      if not (is_unset status) && not (is_immutable_job_status job.status)
      then status
      else job.status;
  runtime_info = some_or info job.runtime_info;
  message = if text_empty message then job.message else message;
  activated_at = if status_is_running status then some now else job.activated_at;
}

-- `UpdateJob`. When the row cannot be saved it returns the error of the read, which is nil.
unfoldable pub update_job : Jobs → Text → JobStatus → Option Text → Text → Answers → Result
unfolding get_job_by_id updated_job insert
update_job jobs id status info message a = elim (get_job_by_id jobs id a) [
  | none ↦ record { jobs = jobs; failed = true }
  | some job ↦
      if a.saves
      then record {
        jobs = insert id (updated_job job status info message a.now) jobs;
        failed = false;
      }
      else record { jobs = jobs; failed = false }
]

-- `StopJobByID`: the cluster is asked; the table is left to the events that follow.
unfoldable pub stop_job_by_id : Jobs → Text → Answers → Result
unfolding get_job_by_id
stop_job_by_id jobs id a = elim (get_job_by_id jobs id a) [
  | none ↦ record { jobs = jobs; failed = true }
  | some job ↦ record { jobs = jobs; failed = not a.stops }
]
