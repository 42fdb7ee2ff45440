-- ===== src/Apiserver/Run.antt =====
-- pkg/apiserver/controller/run: what users and the engine do to runs.
pub mod Starting
pub mod Creating
pub mod Events
pub mod Listing
pub mod Access
pub mod Races
pub mod Retry
pub mod Created
use paddle_flow.Prelude.{
  Bool, List, Option, Text, [], codes, if◌then◌else◌, leb, lookup, none, not, some, text_eq, ℕ,
  ◌&&◌, ◌+◌, ◌||◌, ◌∷◌,
}
use paddle_flow.Apiserver.Status.{RunStatus, is_run_final_status, is_terminating, terminating}
use paddle_flow.Apiserver.Runs.{Run, delete_rows, get_run, update_run, update_run_status}
use paddle_flow.Pipeline.Runtime.{JobView}

-- The error codes of `ctx`; `no_code` is an error without one.
pub data ErrorCode : Type 0 where
  access_denied run_not_found action_not_allowed internal_error invalid_marker malformed_yaml
        invalid_name_pattern io_operation_failure no_code :
      ErrorCode

pub data Reply (A : Type 0) : Type 0 where
  done : A → Reply A
  refused : ErrorCode → Reply A

-- The calls of the engine's workflows; a workflow is known by the number of its pointer.
pub data WfCall : Type 0 where
  start_wf : ℕ → WfCall
  restart_wf : ℕ → WfCall
  stop_wf : ℕ → WfCall

-- The table of runs with its next key, `wfMap`, the next pointer and the calls so far, the last one
-- first.
pub record Server : Type 0 where
  pub runs : List Run
  pub next_pk : ℕ
  pub wf_map : List (Text × ℕ)
  pub next_wf : ℕ
  pub calls : List WfCall

-- What the parsing of a run.yaml gives, as far as it is read here.
pub record Wfs : Type 0 where
  pub name : Text
  pub docker_env : Text
  pub body : Text

-- The pipeline engine, the yaml library and the image handler, as far as the controller calls them:
-- `accepts` is whether NewWorkflow gives a workflow, `sets_runtime` whether SetWorkflowRuntime
-- takes the runtime over, `handles_image` whether HandleImage takes its task.
pub record Engine : Type 0 where
  pub unmarshal : Text → Option Wfs
  pub accepts : Run → Wfs → Bool
  pub sets_runtime : Option (List (Text × JobView)) → Bool
  pub need_handle_image : Text → Bool
  pub handles_image : Run → Text → Bool

-- Whether the calls of the database succeed, and the order in which it gives the rows of a query
-- that asks for none.
pub record Db : Type 0 where
  pub arrange : List Run → List Run
  pub gets : Bool
  pub updates : Bool
  pub deletes : Bool

-- `IsRootUser`, which ignores case.
abbrev pub lower : ℕ → ℕ
lower c = if leb 65 c && leb c 90 then c + 32 else c

abbrev pub lower_text : Text → Text
lower_text [] = []
lower_text (c ∷ s) = lower c ∷ lower_text s

unfoldable pub is_root_user : Text → Bool
unfolding text_eq
is_root_user user = text_eq (lower_text user) (codes "root")

abbrev pub may_access : Text → Run → Bool
may_access user r = is_root_user user || text_eq user r.user_name

-- `GetRunByID` of the controller.
unfoldable pub get_run_by_id : Server → Text → Text → Db → Reply Run
unfolding get_run is_root_user text_eq
get_run_by_id s user id db =
    if not db.gets then refused run_not_found else elim (get_run s.runs id) [
      | none ↦ refused run_not_found
      | some r ↦ if may_access user r then done r else refused access_denied
    ]

abbrev pub with_status : Server → Text → RunStatus → Server
with_status s id status = record s { runs = update_run_status s.runs id status }

abbrev pub with_change : Server → Text → Run → Server
with_change s id change = record s { runs = update_run s.runs id change }

-- `StopRun` behind its first read; `between` is what others do before the status is written.
abbrev pub stop_found : Server → Text → Run → (Server → Server) → Db → Reply Unit × Server
stop_found s id r between db =
    let t = between s in
    if is_terminating r.status || is_run_final_status r.status
    then (refused action_not_allowed, s)
    else elim (lookup id s.wf_map) [
      | none ↦ (refused internal_error, s)
      | some wf ↦
          if not db.updates
          then (refused internal_error, t)
          else (done tt, record (with_status t id terminating) { calls = stop_wf wf ∷ t.calls })
    ]

unfoldable pub stop_run : Server → Text → Text → (Server → Server) → Db → Reply Unit × Server
unfolding get_run_by_id update_run_status lookup
stop_run s user id between db = elim (get_run_by_id s user id db) [
  | refused e ↦ (refused e, s)
  | done r ↦ stop_found s id r between db
]

-- `DeleteRun`.
unfoldable pub delete_run : Server → Text → Text → Db → Reply Unit × Server
unfolding get_run delete_rows is_root_user text_eq
delete_run s user id db =
    if not db.gets then (refused internal_error, s) else elim (get_run s.runs id) [
      | none ↦ (refused run_not_found, s)
      | some r ↦
          if not (may_access user r)
          then (refused access_denied, s)
          else if not (is_run_final_status r.status)
          then (refused action_not_allowed, s)
          else if not db.deletes
          then (refused internal_error, s)
          else (done tt, record s { runs = delete_rows s.runs id })
    ]
