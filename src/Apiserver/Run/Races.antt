-- ===== src/Apiserver/Run/Races.antt =====
-- pkg/apiserver/controller/run: a workflow that ends before its run is marked as pending.
use paddle_flow.Prelude.{
  List, Text, ap, delete, false, if◌then◌else◌, insert, lookup, lookup-delete, none, refl, some,
  subst, sym, text_empty, text_eq_refl, true, ◌+◌, ◌∙◌, ◌∷◌, ◌≡◌,
}
use paddle_flow.Apiserver.Status.{is_run_final_status, pending}
use paddle_flow.Apiserver.Status
use paddle_flow.Apiserver.Runs.{Run, get_run, updated}
use paddle_flow.Apiserver.Runs.Rows.{get_run-update_run}
use paddle_flow.Apiserver.Run.{
  action_not_allowed, internal_error, Db, Engine, Server, Wfs, delete_run, get_run_by_id,
  may_access, refused, start_wf, stop_run, with_change,
}
use paddle_flow.Apiserver.Run.Starting.{
  handle_image_and_start_wf, new_workflow_by_run, pending_with_image, retry_run,
}
use paddle_flow.Apiserver.Run.Events.{RunEvent, event_change, update_run_by_wf_event}
use paddle_flow.Pipeline.Runtime.{JobView}

-- The event of a workflow that ended, as it changes the server.
abbrev pub end_event : Server → RunEvent → Db → Server
end_event s e db = (update_run_by_wf_event s e.run_id e db).1

-- A run that is pending and has no workflow.
pub record IsStuck (s : Server) (id : Text) : Type 0 where
  pub run : Run
  pub found : get_run s.runs id ≡ some run
  pub waits : run.status ≡ Status.pending
  pub no_workflow : lookup id s.wf_map ≡ none

status-pending :
    (r : Run) (url : Text) → (updated r (pending_with_image url)).status ≡ Status.pending
unfolding updated
status-pending r url = refl

end_event-found :
    (s : Server) (e : RunEvent) (db : Db) (r : Run) (views : List (Text × JobView))
    → get_run s.runs e.run_id ≡ some r
    → e.is_update ≡ true
    → e.runtime ≡ some views
    → is_run_final_status e.status ≡ true
    → db.gets ≡ true
    → db.updates ≡ true
    → (get_run (end_event s e db).runs e.run_id ≡ some (updated r (event_change r e views)))
      × (lookup e.run_id (end_event s e db).wf_map ≡ none)
unfolding update_run_by_wf_event
end_event-found s e db r views found is_event has_views final gets updates =
    let same = text_eq_refl e.run_id in
    let gone : lookup e.run_id (delete e.run_id s.wf_map) ≡ none =
      lookup-delete e.run_id e.run_id s.wf_map ∙ rw same refl in
    let written = get_run-update_run s.runs e.run_id (event_change r e views) r refl found in
    let answer : update_run_by_wf_event s e.run_id e db ≡ (
      true,
      with_change (record s { wf_map = delete e.run_id s.wf_map }) e.run_id
          (event_change r e views),
    ) =
      rw (is_event, same, has_views, final, gets, found, updates, final, update_run_by_wf_event)
        refl in
    subst
      (λ a.
        (get_run a.1.runs e.run_id ≡ some (updated r (event_change r e views)))
        × (lookup e.run_id a.1.wf_map ≡ none))
      (sym answer) (written, gone)

module _ (engine : Engine) where
  -- When a workflow that was started ends, and its event is handled, before its run is marked as
  -- pending, then the run is pending although its workflow has ended and is not known any more.
  pub handle_image_and_start_wf-IsStuck :
      (s : Server) (r : Run) (wfs : Wfs) (e : RunEvent) (views : List (Text × JobView)) (msg : Text)
      (db db' : Db)
      → engine.need_handle_image wfs.docker_env ≡ false
      → engine.accepts r wfs ≡ true
      → get_run s.runs r.id ≡ some r
      → e.run_id ≡ r.id
      → e.is_update ≡ true
      → e.runtime ≡ some views
      → is_run_final_status e.status ≡ true
      → db'.gets ≡ true
      → db'.updates ≡ true
      → db.updates ≡ true
      → (let after =
            (handle_image_and_start_wf engine s r wfs false (λ t. end_event t e db') msg db).1 in
          IsStuck after r.id)
  unfolding handle_image_and_start_wf new_workflow_by_run
  handle_image_and_start_wf-IsStuck s r wfs e views msg db db' url accepted found same is_event
        has_views final gets written updates =
      let found' : get_run s.runs e.run_id ≡ some r = ap (get_run s.runs) same ∙ found in
      let started : Server = record s {
        next_wf = s.next_wf + 1;
        wf_map = if text_empty r.id then s.wf_map else insert r.id s.next_wf s.wf_map;
        calls = start_wf s.next_wf ∷ s.calls;
      } in
      let (at_end, gone) =
        end_event-found started e db' r views found' is_event has_views final gets written in
      let changed = updated r (event_change r e views) in
      let ended' : get_run (end_event started e db').runs r.id ≡ some changed =
        sym (ap (get_run (end_event started e db').runs) same) ∙ at_end in
      rw (url, accepted, updates, handle_image_and_start_wf, new_workflow_by_run)
        (record {
          run = updated changed (pending_with_image wfs.docker_env);
          found =
              get_run-update_run (end_event started e db').runs r.id
                (pending_with_image wfs.docker_env) changed refl ended';
          waits = status-pending changed wfs.docker_env;
          no_workflow = ap (λ i. lookup i (end_event started e db').wf_map) (sym same) ∙ gone;
        })

  -- What is refused for such a run.
  pub IsStuck-refused :
      (s : Server) (id user : Text) (between : Server → Server) (msg : Text) (db : Db)
      → (h : IsStuck s id) → may_access user h.run ≡ true
      → db.gets ≡ true
      → (stop_run s user id between db ≡ (refused internal_error, s))
        × (retry_run engine s user id between msg db ≡ (refused action_not_allowed, s))
        × (delete_run s user id db ≡ (refused action_not_allowed, s))
  unfolding stop_run retry_run delete_run get_run_by_id
  IsStuck-refused s id user between msg db h access works = (
    rw (works, h.found, access, h.waits, h.no_workflow, stop_run, get_run_by_id) refl,
    rw (works, h.found, access, h.waits, retry_run, get_run_by_id) refl,
    rw (works, h.found, access, h.waits, delete_run) refl,
  )
