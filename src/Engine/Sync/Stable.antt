-- ===== src/Engine/Sync/Stable.antt =====
-- The final status of a job stays (pkg/job/job.go, pkg/job/controller/job_sync).
use paddle_flow.Prelude.{
  Bool, Bool-cases, List, Option, Text, [], false, if◌then◌else◌, inl, inr, insert, lookup,
  lookup-insert, none, none≢some, not, refl, some, some-inj, subst, sym, text_eq, text_eq→eq, true,
  ◌∙◌, ◌∷◌, ◌≡◌,
}
use paddle_flow.Schema.Jobs.{JobStatus, terminated}
use paddle_flow.Engine.Table.{
  Answers, Job, Jobs, Result, get_job_by_id, is_immutable_job_status, is_unset, stop_job_by_id,
  update_job, updated_job,
}
use paddle_flow.Engine.Sync.{
  Action, by_action, status_is_pending, JobSync, JobSyncInfo, delete_action, do_delete_action,
  do_terminate_action, do_update_action, process, process_work_item, sync_job_status,
  terminate_action, update_action,
}
use paddle_flow.Engine.Sync.Traces.{
  Moves, Reaches, arrive, create, here, next, pod_updated, tell, work,
}

-- Each row of the first table is in the second, and a final status is the same there.
abbrev pub Settled : Jobs → Jobs → Type 0
Settled jobs jobs' =
    (id : Text) (job : Job)
    → lookup id jobs ≡ some job
    → (job' : Job) × (lookup id jobs' ≡ some job')
      × (is_immutable_job_status job.status ≡ true → job'.status ≡ job.status)

Settled-refl : (jobs : Jobs) → Settled jobs jobs
Settled-refl jobs id job e = (job, e, λ f. refl)

Settled-trans : (a b c : Jobs) → Settled a b → Settled b c → Settled a c
Settled-trans a b c f g id job e =
    let (job', e', same) = f id job e in
    let (job'', e'', same') = g id job' e' in
    (
      job'',
      e'',
      λ final.
          same' (subst (λ x. is_immutable_job_status x ≡ true) (sym (same final)) final)
          ∙ same final,
    )

updated_job-final :
    (job : Job) (status : JobStatus) (info : Option Text) (message now : Text)
    → is_immutable_job_status job.status ≡ true
    → (updated_job job status info message now).status ≡ job.status
unfolding updated_job
updated_job-final job status info message now final =
    rw final (elim (Bool-cases (is_unset status)) [ inl e ↦ rw e refl | inr e ↦ rw e refl ])

insert-Settled :
    (jobs : Jobs) (id : Text) (job new : Job)
    → lookup id jobs ≡ some job
    → (is_immutable_job_status job.status ≡ true → new.status ≡ job.status)
    → Settled jobs (insert id new jobs)
insert-Settled jobs id job new e same k other f = elim (Bool-cases (text_eq id k)) [
  | inl q ↦
      let is_job : job ≡ other =
        some-inj (sym e ∙ subst (λ x. lookup x jobs ≡ some other) (sym (text_eq→eq id k q)) f) in
      (
        new,
        rw (lookup-insert id k new jobs) (rw q refl),
        subst (λ (x : Job). is_immutable_job_status x.status ≡ true → new.status ≡ x.status) is_job
            same,
      )
  | inr q ↦ (other, rw (lookup-insert id k new jobs) (rw q f), λ final. refl)
]

found_in :
    (jobs : Jobs) (id : Text) (a : Answers) (job : Job)
    → get_job_by_id jobs id a ≡ some job
    → lookup id jobs ≡ some job
unfolding get_job_by_id
found_in jobs id a job h = elim (Bool-cases a.reads) [
  | inl r ↦ rw r at h
  | inr r ↦ absurd (none≢some (rw r at h))
]

update_job-Settled :
    (jobs : Jobs) (id : Text) (status : JobStatus) (info : Option Text) (message : Text)
    (a : Answers)
    → Settled jobs (update_job jobs id status info message a).jobs
unfolding update_job
update_job-Settled jobs id status info message a = at_row (get_job_by_id jobs id a) refl
  where
    after : Job → Bool → Result
    after job saves =
        if saves
        then record {
          jobs = insert id (updated_job job status info message a.now) jobs;
          failed = false;
        }
        else record { jobs = jobs; failed = false }

    at_save :
        (job : Job) (saves : Bool) → lookup id jobs ≡ some job → Settled jobs (after job saves).jobs
    at_save job true e =
        insert-Settled jobs id job _ e (updated_job-final job status info message a.now)
    at_save job false e = Settled-refl jobs

    at_row :
        (o : Option Job)
        → get_job_by_id jobs id a ≡ o
        → Settled jobs
            (elim o as (λ x. Result) [
              | none ↦ record { jobs = jobs; failed = true }
              | some job ↦ after job a.saves
            ]).jobs
    at_row none e = Settled-refl jobs
    at_row (some job) e = at_save job a.saves (found_in jobs id a job e)

stop_job_by_id-jobs :
    (jobs : Jobs) (id : Text) (a : Answers) → (stop_job_by_id jobs id a).jobs ≡ jobs
unfolding stop_job_by_id
stop_job_by_id-jobs jobs id a = at_row (get_job_by_id jobs id a)
  where
    at_row :
        (o : Option Job)
        → (elim o as (λ x. Result) [
          | none ↦ record { jobs = jobs; failed = true }
          | some job ↦ record { jobs = jobs; failed = not a.stops }
        ]).jobs
          ≡ jobs
    at_row none = refl
    at_row (some job) = refl

do_terminate_action-jobs :
    (jobs : Jobs) (info : JobSyncInfo) (a : Answers) → (do_terminate_action jobs info a).jobs ≡ jobs
unfolding do_terminate_action
do_terminate_action-jobs jobs info a = at_row (get_job_by_id jobs info.id a)
  where
    at_row :
        (o : Option Job)
        → (elim o as (λ x. Result) [
          | none ↦ record { jobs = jobs; failed = false }
          | some job ↦
              if status_is_pending job.status
              then stop_job_by_id jobs info.id a
              else record { jobs = jobs; failed = false }
        ]).jobs
          ≡ jobs
    at_row none = refl
    at_row (some job) = elim (Bool-cases (status_is_pending job.status)) [
      | inl e ↦ rw e (stop_job_by_id-jobs jobs info.id a)
      | inr e ↦ rw e refl
    ]

sync_job_status-Settled :
    (jobs : Jobs) (info : JobSyncInfo) (a : Answers)
    → Settled jobs (sync_job_status jobs info a).jobs
unfolding sync_job_status do_delete_action do_update_action
sync_job_status-Settled jobs info a = at_action info.action
  where
    at_action : (x : Action) → Settled jobs (by_action x jobs info a).jobs
    at_action delete_action = update_job-Settled jobs info.id terminated info.runtime [] a
    at_action update_action =
        update_job-Settled jobs info.id info.status info.runtime info.message a
    at_action terminate_action =
        subst (Settled jobs) (sym (do_terminate_action-jobs jobs info a)) (Settled-refl jobs)

process_work_item-Settled :
    (j : JobSync) (a : Answers) → Settled j.jobs (process_work_item j a).jobs
unfolding process_work_item process
process_work_item-Settled j a = at_queue (j.queue)
  where
    at_queue :
        (q : List JobSyncInfo)
        → Settled j.jobs
            (elim q as (λ x. JobSync) [ [] ↦ j | info ∷ rest ↦ process j info rest a ]).jobs
    at_queue [] = Settled-refl j.jobs
    at_queue (info ∷ rest) = sync_job_status-Settled j.jobs info a

create-Settled :
    (jobs : Jobs) (id : Text) (job : Job)
    → lookup id jobs ≡ none
    → Settled jobs (insert id job jobs)
create-Settled jobs id job absent k other f = elim (Bool-cases (text_eq id k)) [
  | inl q ↦
      absurd (
        none≢some
          (sym absent ∙ subst (λ x. lookup x jobs ≡ some other) (sym (text_eq→eq id k q)) f))
  | inr q ↦ (other, rw (lookup-insert id k job jobs) (rw q f), λ final. refl)
]

Moves-Settled : (j k : JobSync) → Moves j k → Settled j.jobs k.jobs
Moves-Settled j k (tell info t e) =
    subst (λ (x : JobSync). Settled j.jobs x.jobs) (sym e) (Settled-refl j.jobs)
Moves-Settled j k (pod_updated old new e) =
    subst (λ (x : JobSync). Settled j.jobs x.jobs) (sym e) (Settled-refl j.jobs)
Moves-Settled j k (arrive before after info d e) =
    subst (λ (x : JobSync). Settled j.jobs x.jobs) (sym e) (Settled-refl j.jobs)
Moves-Settled j k (work a e) =
    subst (λ (x : JobSync). Settled j.jobs x.jobs) (sym e) (process_work_item-Settled j a)
Moves-Settled j k (create id job absent e) =
    subst (λ (x : JobSync). Settled j.jobs x.jobs) (sym e) (create-Settled j.jobs id job absent)

-- While rows are not deleted, whatever the cluster tells and however the items of the queue are
-- delayed, retried and reordered: a job that is in the table stays there, and once its status is
-- succeeded, failed or terminated, it has that status for ever.
pub Reaches-Settled : (j k : JobSync) → Reaches j k → Settled j.jobs k.jobs
Reaches-Settled j k here = Settled-refl j.jobs
Reaches-Settled j k (next {k = l} r m) =
    Settled-trans j.jobs l.jobs k.jobs (Reaches-Settled j l r) (Moves-Settled l k m)
