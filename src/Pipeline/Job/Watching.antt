-- ===== src/Pipeline/Job/Watching.antt =====
-- What the events of `Watch` say about the job (pkg/pipeline/job.go).
use paddle_flow.Prelude.{
  Bool-cases, List, Option, Option-cases, Text, [], arith, false, if◌then◌else◌, inl, inr, ltb,
  none, not, refl, some, text_empty, text_eq, true, ◌++◌, ◌||◌, ◌∙◌, ◌∷◌, ◌≡◌,
}
use paddle_flow.Schema.Jobs.{JobStatus, status_eq, unset}
use paddle_flow.Pipeline.Event.{JobExtra, WorkflowEvent, is_job_update}
use paddle_flow.Pipeline.Job.{
  JobRow, Poll, Watcher, close_if_ended, handle_poll, is_failed, is_succeeded, is_terminated,
  poll_error, poll_failed, poll_found, poll_row, report_change, try_max, watch_round, PaddleFlowJob,
  watch, watch_from,
}

status_eq_refl : (s : JobStatus) → status_eq s s ≡ true
status_eq_refl unset = refl
status_eq_refl _ = refl

-- Where an update leads from a status: it must tell that status as the one before.
abbrev pub follow_extra : JobStatus → Option JobExtra → Option JobStatus
follow_extra s none = none
follow_extra s (some x) = if status_eq x.pre_status s then some x.status else none

abbrev pub follow_event : JobStatus → WorkflowEvent → Option JobStatus
follow_event s e = if is_job_update e then follow_extra s e.extra else some s

abbrev pub follow : JobStatus → List WorkflowEvent → Option JobStatus
follow s [] = some s
follow s (e ∷ es) = elim (follow_event s e) [ none ↦ none | some t ↦ follow t es ]

follow-snoc :
    (s t : JobStatus) (es : List WorkflowEvent) (e : WorkflowEvent)
    → follow s es ≡ some t
    → follow s (es ++ e ∷ []) ≡ follow_event t e
follow-snoc s t [] e h = go (follow_event s e) (follow_event t e) (ground arith)
  where
    go : (a b : Option JobStatus) → a ≡ b → elim a [ none ↦ none | some u ↦ some u ] ≡ b
    go none b q = q
    go (some u) b q = q
follow-snoc s t (f ∷ es) e h = elim (Option-cases (follow_event s f)) [
  | inl q ↦ absurd (ground arith)
  | inr (u, q) ↦ rw (q, follow) (follow-snoc u t es e (rw (q, follow) at h))
]

abbrev pub Tells : JobStatus → Watcher → Type 0
Tells s w = follow s w.sent ≡ some w.job.status

poll_failed-Tells :
    (s : JobStatus) (w : Watcher) (err : Text) → Tells s w → Tells s (poll_failed w err)
unfolding poll_failed
poll_failed-Tells s w err h = elim (Bool-cases (ltb w.try_count try_max)) [
  | inl b ↦ rw b h
  | inr b ↦ rw b (follow-snoc s w.job.status w.sent _ h)
]

report_change-Tells :
    (s : JobStatus) (w : Watcher) (row : JobRow) → Tells s w → Tells s (report_change w row)
unfolding report_change
report_change-Tells s w row h =
    elim (Bool-cases
      (not (status_eq row.status w.job.status) || not (text_eq row.message w.job.message))) [
        | inl b ↦ rw b (follow-snoc s w.job.status w.sent _ h ∙ rw (status_eq_refl w.job.status))
        | inr b ↦ rw b h
      ]

close_if_ended-Tells :
    (s : JobStatus) (w : Watcher) (row : JobRow) → Tells s w → Tells s (close_if_ended w row)
unfolding close_if_ended
close_if_ended-Tells s w row h =
    elim (Bool-cases (is_succeeded w.job || (is_terminated w.job || is_failed w.job))) [
      | inl b ↦ rw b h
      | inr b ↦ rw b h
    ]

watch_round-Tells :
    (s : JobStatus) (w : Watcher) (poll : Poll) → Tells s w → Tells s (watch_round w poll)
unfolding watch_round poll_found
watch_round-Tells s w poll h = elim (Bool-cases (text_empty w.job.id)) [
  | inl b ↦ rw b (follow-snoc s w.job.status w.sent _ h)
  | inr b ↦ rw b (handled poll)
]
  where
    handled : (p : Poll) → Tells s (handle_poll w p)
    handled (poll_error err) = poll_failed-Tells s w err h
    handled (poll_row row) = close_if_ended-Tells s _ row (report_change-Tells s _ row h)

watch_from-Tells :
    (s : JobStatus) (w : Watcher) (polls : List Poll) → Tells s w → Tells s (watch_from w polls)
unfolding watch_from
watch_from-Tells s w [] h = h
watch_from-Tells s w (poll ∷ polls) h =
    let h' = watch_round-Tells s w poll h in
    elim (Bool-cases (watch_round w poll).closed) [
      | inl b ↦ rw b h'
      | inr b ↦ rw b (watch_from-Tells s (watch_round w poll) polls h')
    ]

-- The updates that `Watch` sends form a chain from the job's status at the start to the one it has
-- now: each tells as the status before the one that the update before it told.
pub watch-follow :
    (j : PaddleFlowJob) (polls : List Poll)
    → follow j.status (watch j polls).sent ≡ some (watch j polls).job.status
unfolding watch
watch-follow j polls =
    watch_from-Tells j.status (record { job = j; try_count = 0; sent = []; closed = false }) polls
      refl
