-- ===== src/Apiserver/Run/Starting.antt =====
-- pkg/apiserver/controller/run: how a run is created, started, resumed and retried.
use paddle_flow.Prelude.{
  Bool, List, Option, Text, [], false, if◌then◌else◌, insert, none, not, some, text_empty, true, ℕ,
  ◌&&◌, ◌+◌, ◌>>=◌, ◌∷◌,
}
use paddle_flow.Schema.Jobs
use paddle_flow.Schema.Jobs.{
  JobStatus, cancelled, failed, pending, running, terminated, terminating, unset,
}
use paddle_flow.Apiserver.Status.{RunStatus}
use paddle_flow.Apiserver.Status
use paddle_flow.Apiserver.Runs.{Run, active_runs, get_run, no_change, update_run}
use paddle_flow.Apiserver.Run.{
  action_not_allowed, internal_error, Db, Engine, Reply, Server, WfCall, Wfs, done, get_run_by_id,
  no_code, refused, restart_wf, start_wf, with_change,
}
use paddle_flow.Pipeline.Runtime.{JobView}

abbrev pub status_and_message : RunStatus → Text → Run
status_and_message status msg = record no_change { status = status; message = msg }

-- `updateRunStatusAndMsg`.
abbrev pub update_status_and_msg : Server → Text → RunStatus → Text → Db → Reply Unit × Server
update_status_and_msg s id status msg db =
    if db.updates
    then (done tt, with_change s id (status_and_message status msg))
    else (refused no_code, s)

abbrev pub add_call : Server → WfCall → Server
add_call s call = record s { calls = call ∷ s.calls }

abbrev pub pending_with_image : Text → Run
pending_with_image url = record no_change { image_url = url; status = Status.pending }

-- The last statement of `handleImageAndStartWf` and of `startWfWithImageUrl`, after what the
-- goroutines of the workflow did since it was started.
abbrev pub mark_pending : Server → Text → Text → (Server → Server) → Db → Reply Unit × Server
mark_pending s id url between db =
    let t = between s in
    if db.updates
    then (done tt, with_change t id (pending_with_image url))
    else (refused no_code, t)

abbrev pub or_text : Text → Text → Text
or_text [] t = t
or_text (c ∷ s) t = c ∷ s

abbrev pub is_retryable : RunStatus → Bool
is_retryable Status.failed = true
is_retryable Status.terminated = true
is_retryable _ = false

abbrev pub to_reset : JobStatus → Bool
to_reset Jobs.cancelled = true
to_reset Jobs.failed = true
to_reset Jobs.terminated = true
to_reset _ = false

abbrev pub is_busy : JobStatus → Bool
is_busy Jobs.running = true
is_busy Jobs.terminating = true
is_busy _ = false

abbrev pub reset_view : JobView → JobView
reset_view v =
    if to_reset v.status
    then record v { job_id = []; status = Jobs.unset; start_time = []; end_time = [] }
    else v

-- The loop of `resetRunSteps`, none for its error.
unfoldable pub reset_views : List (Text × JobView) → Option (List (Text × JobView))
reset_views [] = some []
reset_views ((name, v) ∷ views) = do
  rest ← reset_views views
  if is_busy v.status then none else some ((name, reset_view v) ∷ rest)

-- `resetRunSteps`: the run with its steps reset, if that could be saved.
unfoldable pub reset_run_steps : Server → Run → Db → Option Run × Server
unfolding reset_views update_run
reset_run_steps s r db = elim r.runtime [
  | none ↦ if db.updates then (some r, with_change s r.id r) else (none, s)
  | some views ↦ elim (reset_views views) [
    | none ↦ (none, s)
    | some views' ↦
        let reset = record r { runtime = some views' } in
        if db.updates then (some reset, with_change s r.id reset) else (none, s)
  ]
]

module _ (engine : Engine) where
  -- `newWorkflowByRun`: the pointer, or none for an error.
  unfoldable pub new_workflow_by_run : Server → Run → Wfs → Option ℕ × Server
  unfolding insert
  new_workflow_by_run s r wfs = if not (engine.accepts r wfs) then (none, s) else (
    some s.next_wf,
    record s {
      next_wf = s.next_wf + 1;
      wf_map = if text_empty r.id then s.wf_map else insert r.id s.next_wf s.wf_map;
    },
  )

  abbrev pub start_new :
      Option ℕ × Server → Run → Wfs → Bool → (Server → Server) → Text → Db → Reply Unit × Server
  start_new (none, s) r wfs is_resume between msg db =
      update_status_and_msg s r.id Status.failed msg db
  start_new (some wf, s) r wfs is_resume between msg db =
      if not is_resume
      then mark_pending (add_call s (start_wf wf)) r.id wfs.docker_env between db
      else if not (engine.sets_runtime r.runtime)
      then (refused no_code, s)
      else mark_pending (add_call s (restart_wf wf)) r.id wfs.docker_env between db

  -- `handleImageAndStartWf`; `msg` is the text of an error.
  unfoldable pub handle_image_and_start_wf :
      Server → Run → Wfs → Bool → (Server → Server) → Text → Db → Reply Unit × Server
  unfolding new_workflow_by_run update_run
  handle_image_and_start_wf s r wfs is_resume between msg db =
      if not (engine.need_handle_image wfs.docker_env)
      then start_new (new_workflow_by_run s r wfs) r wfs is_resume between msg db
      else if not (db.gets && engine.handles_image r wfs.docker_env)
      then update_status_and_msg s r.id Status.failed msg db
      else (done tt, s)

  -- `resumeRun`, whose error is that of the yaml only.
  unfoldable pub resume_run : Server → Run → (Server → Server) → Text → Db → Reply Unit × Server
  unfolding handle_image_and_start_wf
  resume_run s r between msg db = elim (engine.unmarshal r.run_yaml) [
    | none ↦ (refused no_code, s)
    | some wfs ↦
        let with_image = record wfs { docker_env = or_text r.image_url wfs.docker_env } in
        (done tt, (handle_image_and_start_wf s r with_image true between msg db).1)
  ]

  -- The goroutine of `resumeActiveRuns`, over the runs that were listed.
  unfoldable pub resume_all : Server → List Run → (Server → Server) → Text → Db → Server
  unfolding resume_run
  resume_all s [] between msg db = s
  resume_all s (r ∷ runs) between msg db =
      resume_all (resume_run s r between msg db).1 runs between msg db

  unfoldable pub resume_active_runs : Server → (Server → Server) → Text → Db → Server
  unfolding resume_all active_runs
  resume_active_runs s between msg db =
      if db.gets then resume_all s (db.arrange (active_runs s.runs)) between msg db else s

  -- `startWfWithImageUrl`, the callback when an image is there.
  unfoldable pub start_wf_with_image_url :
      Server → Text → Text → (Server → Server) → Text → Db → Reply Unit × Server
  unfolding new_workflow_by_run update_run get_run
  start_wf_with_image_url s id url between msg db =
      elim (if db.gets then get_run s.runs id else none) [
        | none ↦ update_status_and_msg s id Status.failed msg db
        | some r ↦ elim (engine.unmarshal r.run_yaml) [
          | none ↦ update_status_and_msg s id Status.failed msg db
          | some wfs ↦
              start_new (new_workflow_by_run s r (record wfs { docker_env = url })) r
                (record wfs { docker_env = url }) false between msg db
        ]
      ]

  -- `RetryRun`; its answer does not tell whether the resumption failed.
  unfoldable pub retry_run :
      Server → Text → Text → (Server → Server) → Text → Db → Reply Unit × Server
  unfolding get_run_by_id reset_run_steps resume_run
  retry_run s user id between msg db = elim (get_run_by_id s user id db) [
    | refused e ↦ (refused e, s)
    | done r ↦
        if not (is_retryable r.status)
        then (refused action_not_allowed, s)
        else elim (reset_run_steps s r db).0 [
          | none ↦ (refused internal_error, (reset_run_steps s r db).1)
          | some reset ↦ (done tt, (resume_run (reset_run_steps s r db).1 reset between msg db).1)
        ]
  ]
