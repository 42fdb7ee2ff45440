-- ===== src/Pipeline/Job.antt =====
-- pkg/pipeline/job.go: the job of a step, and the loop that watches it.
pub mod Watching
pub mod Ending
use paddle_flow.Prelude.{
  Bool, List, Option, Text, [], codes, false, if◌then◌else◌, ltb, none, not, some, text_empty,
  text_eq, true, ℕ, ◌++◌, ◌+◌, ◌||◌, ◌∷◌,
}
use paddle_flow.Schema.Workflow.{Artifacts}
use paddle_flow.Schema.Jobs.{
  JobStatus, cached, failed, pending, running, status_eq, succeeded, terminated, terminating, unset,
}
use paddle_flow.Pipeline.Event.{WorkflowEvent, job_update, job_watch_err, new_workflow_event}

-- `BaseJob` with the image of `PaddleFlowJob`.
pub record PaddleFlowJob : Type 0 where
  pub id : Text
  pub name : Text
  pub command : Text
  pub parameters : List (Text × Text)
  pub artifacts : Artifacts
  pub env : List (Text × Text)
  pub start_time : Text
  pub end_time : Text
  pub status : JobStatus
  pub deps : Text
  pub message : Text
  pub image : Text

unfoldable pub new_paddle_flow_job : Text → Text → Text → PaddleFlowJob
new_paddle_flow_job name image deps = record {
  id = [];
  name = name;
  command = [];
  parameters = [];
  artifacts = record { input = []; output = [] };
  env = [];
  start_time = [];
  end_time = [];
  status = unset;
  deps = deps;
  message = [];
  image = image;
}

abbrev or_else {ℓ} : {A : Type ℓ} → Option A → A → A
or_else none a = a
or_else (some b) a = b

-- `Update`; `none` is a nil map or pointer.
unfoldable pub update :
    PaddleFlowJob
    → Text
    → Option (List (Text × Text))
    → Option (List (Text × Text))
    → Option Artifacts
    → PaddleFlowJob
update j cmd params envs artifacts = record j {
  command = if text_empty cmd then j.command else cmd;
  parameters = or_else params j.parameters;
  env = or_else envs j.env;
  artifacts = or_else artifacts j.artifacts;
}

abbrev pub status_succeeded : JobStatus → Bool
status_succeeded succeeded = true
status_succeeded _ = false

abbrev pub status_cached : JobStatus → Bool
status_cached cached = true
status_cached _ = false

abbrev pub status_failed : JobStatus → Bool
status_failed failed = true
status_failed _ = false

abbrev pub status_terminated : JobStatus → Bool
status_terminated terminated = true
status_terminated _ = false

abbrev pub status_not_ended : JobStatus → Bool
status_not_ended unset = true
status_not_ended terminating = true
status_not_ended running = true
status_not_ended pending = true
status_not_ended _ = false

abbrev pub status_started : JobStatus → Bool
status_started unset = false
status_started _ = true

abbrev pub is_succeeded : PaddleFlowJob → Bool
is_succeeded j = status_succeeded j.status

abbrev pub is_cached : PaddleFlowJob → Bool
is_cached j = status_cached j.status

abbrev pub is_failed : PaddleFlowJob → Bool
is_failed j = status_failed j.status

abbrev pub is_terminated : PaddleFlowJob → Bool
is_terminated j = status_terminated j.status

abbrev pub not_ended : PaddleFlowJob → Bool
not_ended j = status_not_ended j.status

abbrev pub is_started : PaddleFlowJob → Bool
is_started j = status_started j.status

-- `job.GetJobByID` as one poll sees it: an error, or the row of the job in the database.
pub record JobRow : Type 0 where
  pub created_at : Text
  pub updated_at : Text
  pub status : JobStatus
  pub message : Text

pub data Poll : Type 0 where
  poll_error : Text → Poll
  poll_row : JobRow → Poll

abbrev pub try_max : ℕ
try_max = 5

-- The variables of `Watch`, with the events sent so far, and whether the loop is left.
pub record Watcher : Type 0 where
  pub job : PaddleFlowJob
  pub try_count : ℕ
  pub sent : List WorkflowEvent
  pub closed : Bool

unfoldable pub poll_failed : Watcher → Text → Watcher
unfolding new_workflow_event
poll_failed w err =
    if ltb w.try_count try_max then record w { try_count = w.try_count + 1 } else record w {
      try_count = 0;
      sent =
          w.sent
          ++ new_workflow_event job_watch_err
              (codes "get job by jobid[" ++ (w.job.id ++ (codes "] failed: " ++ err))) none
            ∷ [];
    }

-- A change of status or message is sent before the job takes it over.
unfoldable pub report_change : Watcher → JobRow → Watcher
unfolding new_workflow_event
report_change w row =
    if not (status_eq row.status w.job.status) || not (text_eq row.message w.job.message)
    then record w {
      sent =
          w.sent
          ++ new_workflow_event job_update [] (
              some (record {
                status = row.status;
                pre_status = w.job.status;
                job_id = w.job.id;
                message = some row.message;
              }))
            ∷ [];
      job = record (w.job) { status = row.status; message = row.message };
    }
    else w

unfoldable pub close_if_ended : Watcher → JobRow → Watcher
close_if_ended w row =
    if is_succeeded w.job || (is_terminated w.job || is_failed w.job)
    then record w { job = record (w.job) { end_time = row.updated_at }; closed = true }
    else w

unfoldable pub poll_found : Watcher → JobRow → Watcher
unfolding report_change close_if_ended
poll_found w row =
    let w' = record w { try_count = 0; job = record (w.job) { start_time = row.created_at } } in
    close_if_ended (report_change w' row) row

abbrev pub handle_poll : Watcher → Poll → Watcher
handle_poll w (poll_error err) = poll_failed w err
handle_poll w (poll_row row) = poll_found w row

-- One round of the loop of `Watch`.
unfoldable pub watch_round : Watcher → Poll → Watcher
unfolding poll_failed poll_found new_workflow_event
watch_round w poll =
    if text_empty w.job.id
    then record w {
      sent =
          w.sent
          ++ new_workflow_event job_watch_err
              (codes "watch paddleflow job failed, job not started, id is empty!") none
            ∷ [];
      closed = true;
    }
    else handle_poll w poll

-- `Watch` over the answers of the polls; it is still running if it has seen them all.
unfoldable pub watch_from : Watcher → List Poll → Watcher
unfolding watch_round
watch_from w [] = w
watch_from w (poll ∷ polls) =
    let w' = watch_round w poll in let rest = watch_from w' polls in if w'.closed then w' else rest

unfoldable pub watch : PaddleFlowJob → List Poll → Watcher
unfolding watch_from
watch j polls = watch_from (record { job = j; try_count = 0; sent = []; closed = false }) polls
