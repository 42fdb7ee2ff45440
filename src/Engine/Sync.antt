-- ===== src/Engine/Sync.antt =====
-- pkg/job/controller/job_sync: the controller that copies the states of cluster jobs into the table.
pub mod Traces
pub mod Stable
pub mod Drain
use paddle_flow.Prelude.{
  Bool, List, Option, Text, [], codes, false, if◌then◌else◌, ltb, none, some, text_empty, text_eq,
  true, ℕ, ◌&&◌, ◌++◌, ◌+◌, ◌||◌, ◌∷◌,
}
use paddle_flow.Schema.Jobs.{
  JobPhase, JobStatus, SparkState, get_spark_job_status, get_vc_job_status, pending, terminated,
  unset, failed,
}
use paddle_flow.Engine.Table.{
  Answers, Job, Jobs, Result, get_job_by_id, is_unset, stop_job_by_id, update_job,
}

-- `ActionOnJob`.
pub data Action : Type 0 where
  update_action delete_action terminate_action : Action

-- `JobSyncInfo`. Its `Type` is never read.
pub record JobSyncInfo : Type 0 where
  pub id : Text
  pub status : JobStatus
  pub runtime : Option Text
  pub message : Text
  pub action : Action
  pub retry_times : ℕ

-- What the handlers read of a job object; S is the type of its phases.
pub record ClusterJob (S : Type 0) : Type 0 where
  pub job_id : Text
  pub resource_version : Text
  pub phase : S
  pub message : Text
  pub object : Text

-- `addVCJob` and `addSparkJob`, by what `GetVCJobStatus` and `GetSparkJobStatus` make of a phase.
unfoldable pub add_job : {S : Type 0} → (S → JobStatus × Bool) → ClusterJob S → JobSyncInfo
add_job get_status job =
    let status = (get_status job.phase).0 in
    record {
      id = job.job_id;
      status = if is_unset status then pending else status;
      runtime = some job.object;
      message = job.message;
      action = update_action;
      retry_times = 0;
    }

abbrev told : {S : Type 0} → (S → JobStatus × Bool) → ClusterJob S → Action → Option JobSyncInfo
told get_status job action =
    let (status, known) = get_status job.phase in
    if known
    then some (record {
      id = job.job_id;
      status = status;
      runtime = some job.object;
      message = job.message;
      action = action;
      retry_times = 0;
    })
    else none

-- `updateVCJob` and `updateSparkJob`; `same` compares phases.
unfoldable pub update_job_object :
    {S : Type 0}
    → (S → JobStatus × Bool)
    → (S → S → Bool)
    → ClusterJob S
    → ClusterJob S
    → Option JobSyncInfo
unfolding text_eq
update_job_object get_status same old new =
    if text_eq old.resource_version new.resource_version && same old.phase new.phase
    then none
    else told get_status new update_action

-- `deleteVCJob` and `deleteSparkJob`.
unfoldable pub delete_job_object :
    {S : Type 0} → (S → JobStatus × Bool) → ClusterJob S → Option JobSyncInfo
delete_job_object get_status job = told get_status job delete_action

abbrev pub add_vc_job : ClusterJob JobPhase → JobSyncInfo
add_vc_job job = add_job get_vc_job_status job

abbrev pub add_spark_job : ClusterJob SparkState → JobSyncInfo
add_spark_job job = add_job get_spark_job_status job

-- The actions of `syncJobStatus`.
unfoldable pub do_delete_action : Jobs → JobSyncInfo → Answers → Result
unfolding update_job
do_delete_action jobs info a = update_job jobs info.id terminated info.runtime [] a

unfoldable pub do_update_action : Jobs → JobSyncInfo → Answers → Result
unfolding update_job
do_update_action jobs info a = update_job jobs info.id info.status info.runtime info.message a

abbrev pub status_is_pending : JobStatus → Bool
status_is_pending pending = true
status_is_pending _ = false

unfoldable pub do_terminate_action : Jobs → JobSyncInfo → Answers → Result
unfolding get_job_by_id stop_job_by_id
do_terminate_action jobs info a = elim (get_job_by_id jobs info.id a) [
  | none ↦ record { jobs = jobs; failed = false }
  | some job ↦
      if status_is_pending job.status
      then stop_job_by_id jobs info.id a
      else record { jobs = jobs; failed = false }
]

abbrev pub by_action : Action → Jobs → JobSyncInfo → Answers → Result
by_action delete_action jobs info a = do_delete_action jobs info a
by_action update_action jobs info a = do_update_action jobs info a
by_action terminate_action jobs info a = do_terminate_action jobs info a

unfoldable pub sync_job_status : Jobs → JobSyncInfo → Answers → Result
sync_job_status jobs info a = by_action info.action jobs info a

abbrev pub default_sync_retry_times : ℕ
default_sync_retry_times = 3

-- The table, the queue, and what is added to the queue after a delay.
pub record JobSync : Type 0 where
  pub jobs : Jobs
  pub queue : List JobSyncInfo
  pub delayed : List JobSyncInfo

abbrev pub retry : JobSyncInfo → List JobSyncInfo → List JobSyncInfo
retry info delayed =
    if ltb info.retry_times default_sync_retry_times
    then record info { retry_times = info.retry_times + 1 } ∷ delayed
    else delayed

-- `processWorkItem` on the head of a queue; an empty queue makes it wait.
unfoldable pub process : JobSync → JobSyncInfo → List JobSyncInfo → Answers → JobSync
unfolding sync_job_status
process j info rest a =
    let r = sync_job_status j.jobs info a in
    record {
      jobs = r.jobs;
      queue = rest;
      delayed = if r.failed then retry info j.delayed else j.delayed;
    }

unfoldable pub process_work_item : JobSync → Answers → JobSync
unfolding process
process_work_item j a = elim (j.queue) [ [] ↦ j | info ∷ rest ↦ process j info rest a ]

-- The waiting state of a container of a pod, if it is in one.
pub record Waiting : Type 0 where
  pub reason : Text
  pub message : Text

pub record Pod : Type 0 where
  pub job_name : Option Text
  pub is_pending : Bool
  pub init_containers : List (Option Waiting)
  pub containers : List (Option Waiting)

unfoldable pub is_valid_waiting_state : Waiting → Bool
unfolding text_eq
is_valid_waiting_state w =
    text_eq w.reason (codes "PodInitializing") || text_eq w.reason (codes "ContainerCreating")

-- The loops of `updatePod` over containers: the message, and whether the state is a valid one.
unfoldable pub scan_containers : List (Option Waiting) → Text × Bool → Text × Bool
unfolding is_valid_waiting_state
scan_containers [] found = found
scan_containers (none ∷ cs) (message, valid) = scan_containers cs (message, false)
scan_containers (some w ∷ cs) found = (w.reason ++ 58 ∷ w.message, is_valid_waiting_state w)

-- What `updatePod` adds to the queue at once, and what after the time to live of a pending job.
unfoldable pub pod_infos : Text → Text × Bool → List JobSyncInfo × List JobSyncInfo
pod_infos job_name (message, valid) =
    let info : JobSyncInfo = record {
      id = job_name;
      status = unset;
      runtime = none;
      message = message;
      action = update_action;
      retry_times = 0;
    } in
    if text_empty message then ([], []) else (
      info ∷ [],
      if valid then [] else record info { message = []; action = terminate_action } ∷ [],
    )

unfoldable pub update_pod : Pod → Pod → List JobSyncInfo × List JobSyncInfo
unfolding scan_containers pod_infos
update_pod old new = elim (old.job_name) [
  | none ↦ ([], [])
  | some _ ↦ elim (new.job_name) [
    | none ↦ ([], [])
    | some job_name ↦
        if new.is_pending
        then pod_infos job_name
            (scan_containers new.containers (scan_containers new.init_containers ([], false)))
        else ([], [])
  ]
]
