-- ===== src/Apiserver/Run/Events.antt =====
-- pkg/apiserver/controller/run/callbacks.go: the events of workflows.
use paddle_flow.Prelude.{
  Bool, List, Option, Text, [], delete, false, if◌then◌else◌, none, not, some, text_empty, text_eq,
  true, ◌||◌, ◌∷◌,
}
use paddle_flow.Apiserver.Status.{RunStatus, failed, is_pending, is_run_final_status}
use paddle_flow.Apiserver.Runs.{Run, get_run, no_change, update_run}
use paddle_flow.Apiserver.Run.{no_code, Db, Engine, Reply, Server, done, refused, with_change}
use paddle_flow.Apiserver.Run.Starting.{start_wf_with_image_url, update_status_and_msg}
use paddle_flow.Pipeline.Runtime.{JobView}

-- `WorkflowEvent` with its `Extra`; `is_update` is whether it is one of type WfEventRunUpdate, and
-- the runtime is there if it has its type.
pub record RunEvent : Type 0 where
  pub is_update : Bool
  pub run_id : Text
  pub status : RunStatus
  pub runtime : Option (List (Text × JobView))
  pub message : Text

abbrev pub event_change : Run → RunEvent → List (Text × JobView) → Run
event_change prev e views = record no_change {
  status = e.status;
  runtime = some views;
  message = if text_empty prev.message then e.message else [];
  activated = is_pending prev.status;
}

-- `UpdateRunByWfEvent`.
unfoldable pub update_run_by_wf_event : Server → Text → RunEvent → Db → Bool × Server
unfolding delete get_run update_run text_eq
update_run_by_wf_event s id e db =
    let t =
      if is_run_final_status e.status then record s { wf_map = delete e.run_id s.wf_map } else s in
    if not e.is_update || not (text_eq id e.run_id) then (false, s) else elim e.runtime [
      | none ↦ (false, t)
      | some views ↦ elim (if db.gets then get_run t.runs id else none) [
        | none ↦ (false, t)
        | some prev ↦
            if db.updates then (true, with_change t id (event_change prev e views)) else (false, t)
      ]
    ]

module _ (engine : Engine) where
  -- `handleImageCallbackFunc`, as far as it concerns runs: `failure` is the message of an error
  -- that it is told, `url` what the image handler gives and `known_url` what the database knows.
  unfoldable pub handle_image_callback :
      Server
      → Text
      → Option Text
      → Text
      → Option Text
      → (Server → Server)
      → Text
      → Db
      → Reply Unit × Server
  unfolding update_run start_wf_with_image_url
  handle_image_callback s id (some failure) url known_url between msg db =
      update_status_and_msg s id failed failure db
  handle_image_callback s id none [] none between msg db =
      (refused no_code, (update_status_and_msg s id failed msg db).1)
  handle_image_callback s id none [] (some url) between msg db =
      (done tt, (start_wf_with_image_url engine s id url between msg db).1)
  handle_image_callback s id none (c ∷ url) known_url between msg db =
      (done tt, (start_wf_with_image_url engine s id (c ∷ url) between msg db).1)
