-- ===== src/Apiserver/Run/Retry.antt =====
-- pkg/apiserver/controller/run/run.go: which steps a retried run does again.
use paddle_flow.Prelude.{
  Bool-cases, In, List, Text, [], ap, inl, inr, none, refl, some, sym, true, ◌∙◌, ◌∷◌, ◌≡◌, ◌⊎◌,
}
use mathlib.Core.Bool.{true≢false}
use paddle_flow.Schema.Jobs.{
  JobStatus, cancelled, failed, running, terminated, terminating, unset, pending, succeeded, cached,
}
use paddle_flow.Apiserver.Runs.{Run, get_run, updated}
use paddle_flow.Apiserver.Runs.Rows.{get_run-update_run, new_text_same}
use paddle_flow.Apiserver.Run.{Db, Server, with_change}
use paddle_flow.Apiserver.Run.Starting.{is_busy, reset_run_steps, reset_view, reset_views, to_reset}
use paddle_flow.Pipeline.Runtime.{JobView}

-- A step whose job failed, was terminated or was cancelled.
abbrev pub IsFallen : JobStatus → Type 0
IsFallen status = (status ≡ failed) ⊎ (status ≡ terminated) ⊎ (status ≡ cancelled)

-- A step that is running or being terminated.
abbrev pub IsBusy : JobStatus → Type 0
IsBusy status = (status ≡ running) ⊎ (status ≡ terminating)

-- The step as never started: without job, times and status, and else the same.
pub record IsFresh (v v' : JobView) : Type 0 where
  pub no_job : v'.job_id ≡ []
  pub no_start : v'.start_time ≡ []
  pub no_end : v'.end_time ≡ []
  pub no_status : v'.status ≡ unset
  pub same_name : v'.job_name ≡ v.job_name
  pub same_command : v'.command ≡ v.command
  pub same_parameters : v'.parameters ≡ v.parameters
  pub same_env : v'.env ≡ v.env
  pub same_deps : v'.deps ≡ v.deps
  pub same_image : v'.image ≡ v.image
  pub same_artifacts : v'.artifacts ≡ v.artifacts
  pub same_message : v'.job_message ≡ v.job_message

-- One step of a run that is done again.
abbrev pub IsResetView : JobView → JobView → Type 0
IsResetView v v' = (IsFallen v.status × IsFresh v v') ⊎ ((¬ IsFallen v.status) × (v' ≡ v))

-- The same steps, of which those that failed or were terminated or cancelled are as never started,
-- and the others as they were; none was busy.
abbrev pub IsReset : List (Text × JobView) → List (Text × JobView) → Type 0
IsReset [] [] = Unit
IsReset ((name, v) ∷ views) ((name', v') ∷ views') =
    (name' ≡ name) × (¬ IsBusy v.status) × IsResetView v v' × IsReset views views'
IsReset _ _ = ⊥

abbrev pub HasBusy : List (Text × JobView) → Type 0
HasBusy views = (name : Text) × (v : JobView) × In (name, v) views × IsBusy v.status

unset-IsFresh :
    (v : JobView)
    → IsFresh v (record v { job_id = []; status = unset; start_time = []; end_time = [] })
unset-IsFresh v = record {
  no_job = refl;
  no_start = refl;
  no_end = refl;
  no_status = refl;
  same_name = refl;
  same_command = refl;
  same_parameters = refl;
  same_env = refl;
  same_deps = refl;
  same_image = refl;
  same_artifacts = refl;
  same_message = refl;
}

to_reset-IsFallen : (j : JobStatus) → to_reset j ≡ true → IsFallen j
to_reset-IsFallen failed e = inl refl
to_reset-IsFallen terminated e = inr (inl refl)
to_reset-IsFallen cancelled e = inr (inr refl)
to_reset-IsFallen unset e = cc
to_reset-IsFallen pending e = cc
to_reset-IsFallen running e = cc
to_reset-IsFallen succeeded e = cc
to_reset-IsFallen terminating e = cc
to_reset-IsFallen cached e = cc

IsFallen-to_reset : (j : JobStatus) → IsFallen j → to_reset j ≡ true
IsFallen-to_reset j (inl e) = ap to_reset e
IsFallen-to_reset j (inr (inl e)) = ap to_reset e
IsFallen-to_reset j (inr (inr e)) = ap to_reset e

is_busy-IsBusy : (j : JobStatus) → is_busy j ≡ true → IsBusy j
is_busy-IsBusy running e = inl refl
is_busy-IsBusy terminating e = inr refl
is_busy-IsBusy unset e = cc
is_busy-IsBusy pending e = cc
is_busy-IsBusy failed e = cc
is_busy-IsBusy succeeded e = cc
is_busy-IsBusy terminated e = cc
is_busy-IsBusy cancelled e = cc
is_busy-IsBusy cached e = cc

IsBusy-is_busy : (j : JobStatus) → IsBusy j → is_busy j ≡ true
IsBusy-is_busy j (inl e) = ap is_busy e
IsBusy-is_busy j (inr e) = ap is_busy e

reset_view-IsResetView : (v : JobView) → IsResetView v (reset_view v)
reset_view-IsResetView v = elim (Bool-cases (to_reset v.status)) [
  | inl e ↦ inl (to_reset-IsFallen v.status e, rw e (unset-IsFresh v))
  | inr e ↦ inr (λ h. true≢false (sym (IsFallen-to_reset v.status h) ∙ e), rw e refl)
]

reset_views_lem :
    (views : List (Text × JobView))
    → (HasBusy views × (reset_views views ≡ none))
      ⊎ ((views' : List (Text × JobView)) × (reset_views views ≡ some views')
          × IsReset views views')
unfolding reset_views
reset_views_lem [] = inr ([], refl, tt)
reset_views_lem ((name, v) ∷ views) = elim (reset_views_lem views) [
  | inl ((n, w, i, busy), e) ↦ inl ((n, w, inr i, busy), rw (e, reset_views) refl)
  | inr (views', e, h) ↦ elim (Bool-cases (is_busy v.status)) [
    | inl b ↦ inl ((name, v, inl refl, is_busy-IsBusy v.status b), rw (e, b, reset_views) refl)
    | inr b ↦ inr (
      (name, reset_view v) ∷ views',
      rw (e, b, reset_views) refl,
      (
        refl,
        λ busy. true≢false (sym (IsBusy-is_busy v.status busy) ∙ b),
        reset_view-IsResetView v,
        h,
      ),
    )
  ]
]

runtime-updated :
    (r : Run) (views : List (Text × JobView))
    → (updated r (record r { runtime = some views })).runtime ≡ some views
unfolding updated
runtime-updated r views = refl

-- `resetRunSteps`, for a run with steps that the table has and when the database saves, refuses a run
-- of which a step is running or being terminated, and changes nothing; else it saves the run with
-- the steps that failed or were terminated or cancelled as never started, without job, times and
-- status, and all others as they were.
pub reset_run_steps-IsReset :
    (s : Server) (r : Run) (views : List (Text × JobView)) (db : Db)
    → get_run s.runs r.id ≡ some r
    → r.runtime ≡ some views
    → db.updates ≡ true
    → (HasBusy views × (reset_run_steps s r db ≡ (none, s)))
      ⊎ ((views' : List (Text × JobView)) × (q : Run) × ((reset_run_steps s r db).0
            ≡ some (record r { runtime = some views' }))
          × (get_run (reset_run_steps s r db).1.runs r.id ≡ some q)
          × (q.runtime ≡ some views')
          × IsReset views views')
unfolding reset_run_steps
reset_run_steps-IsReset s r views db found has_views works = elim (reset_views_lem views) [
  | inl (busy, e) ↦ inl (busy, rw (has_views, e, reset_run_steps) refl)
  | inr (views', e, h) ↦
      let reset : Run = record r { runtime = some views' } in
      let answer : reset_run_steps s r db ≡ (some reset, with_change s r.id reset) =
        rw (has_views, e, works, reset_run_steps) refl in
      inr (
        views',
        updated r reset,
        ap (λ a. a.0) answer,
        ap (λ a. get_run a.1.runs r.id) answer
            ∙ get_run-update_run s.runs r.id reset r (new_text_same r.id) found,
        runtime-updated r views',
        h,
      )
]
