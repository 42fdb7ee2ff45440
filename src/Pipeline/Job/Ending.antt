-- ===== src/Pipeline/Job/Ending.antt =====
-- When `Watch` ends, and how many errors it reports (pkg/pipeline/job.go).
use paddle_flow.Prelude.{
  Bool, Bool-cases, List, Text, [], ap, arith, false, if◌then◌else◌, inl, inr, length, ltb, not,
  refl, suc, sym, text_empty, text_eq, true, ℕ, ◌*◌, ◌++◌, ◌+◌, ◌||◌, ◌∙◌, ◌∷◌, ◌≡◌, ◌≤◌,
}
use mathlib.Core.Bool.{true≢false}
use paddle_flow.Schema.Jobs.{JobStatus, status_eq}
use paddle_flow.Pipeline.Event.{WorkflowEvent, is_job_watch_err}
use paddle_flow.Pipeline.Job.{
  JobRow, Poll, Watcher, close_if_ended, handle_poll, poll_error, poll_failed, poll_found, poll_row,
  report_change, try_max, watch_round, PaddleFlowJob, status_failed, status_succeeded,
  status_terminated, watch, watch_from,
}

status_eq→eq : (s t : JobStatus) → status_eq s t ≡ true → s ≡ t
status_eq→eq s t e = ground arith

abbrev pub count_errors : List WorkflowEvent → ℕ
count_errors [] = 0
count_errors (e ∷ es) = (if is_job_watch_err e then 1 else 0) + count_errors es

count_errors-snoc :
    (es : List WorkflowEvent) (e : WorkflowEvent)
    → count_errors (es ++ e ∷ []) ≡ count_errors es + (if is_job_watch_err e then 1 else 0)
count_errors-snoc [] e = omega arith
count_errors-snoc (f ∷ es) e = omega (arith, count_errors-snoc es e)

abbrev pub status_ended : JobStatus → Bool
status_ended s = status_succeeded s || (status_terminated s || status_failed s)

-- The state of the loop for a job that has an id, after `n` polls.
record IsWatching (n : ℕ) (w : Watcher) : Type 0 where
  named : text_empty w.job.id ≡ false
  few : 6 * count_errors w.sent + w.try_count ≤ n

poll_failed-IsWatching :
    (n : ℕ) (w : Watcher) (err : Text) → IsWatching n w → IsWatching (suc n) (poll_failed w err)
unfolding poll_failed
poll_failed-IsWatching n w err h = elim (Bool-cases (ltb w.try_count try_max)) [
  | inl b ↦ rw b (record { named = h.named; few = omega (arith, h.few) })
  | inr b ↦
      rw b
        (record { named = h.named; few = rw (count_errors-snoc w.sent _) (ground (arith, h.few)) })
]

report_change_keeps :
    (w : Watcher) (row : JobRow)
    → (count_errors (report_change w row).sent ≡ count_errors w.sent)
      × ((report_change w row).try_count ≡ w.try_count)
      × ((report_change w row).job.id ≡ w.job.id)
      × ((report_change w row).closed ≡ w.closed)
      × ((report_change w row).job.status ≡ row.status)
unfolding report_change
report_change_keeps w row =
    elim (Bool-cases
      (not (status_eq row.status w.job.status) || not (text_eq row.message w.job.message))) [
        | inl b ↦ rw b (rw (count_errors-snoc w.sent _) (omega arith), refl, refl, refl, refl)
        | inr b ↦
            rw b (refl, refl, refl, refl, unchanged (status_eq row.status w.job.status) _ b refl)
      ]
  where
    unchanged :
        (same other : Bool)
        → (not same || other) ≡ false
        → status_eq row.status w.job.status ≡ same
        → w.job.status ≡ row.status
    unchanged true other b e = sym (status_eq→eq row.status w.job.status e)
    unchanged false other b e = absurd (true≢false b)

poll_failed-closed : (w : Watcher) (err : Text) → (poll_failed w err).closed ≡ w.closed
unfolding poll_failed
poll_failed-closed w err = elim (Bool-cases (ltb w.try_count try_max)) [
  | inl b ↦ rw b
  | inr b ↦ rw b
]

close_if_ended_cases :
    (w : Watcher) (row : JobRow)
    → ((close_if_ended w row).sent ≡ w.sent)
      × ((close_if_ended w row).try_count ≡ w.try_count)
      × ((close_if_ended w row).job.id ≡ w.job.id)
      × ((close_if_ended w row).job.status ≡ w.job.status)
      × ((close_if_ended w row).closed ≡ (w.closed || status_ended w.job.status))
unfolding close_if_ended
close_if_ended_cases w row = elim (Bool-cases (status_ended w.job.status)) [
  | inl b ↦ rw b (refl, refl, refl, refl, ground arith)
  | inr b ↦ rw b (refl, refl, refl, refl, ground arith)
]

abbrev started_at : Watcher → JobRow → Watcher
started_at w row = record w { try_count = 0; job = record (w.job) { start_time = row.created_at } }

poll_found-IsWatching :
    (n : ℕ) (w : Watcher) (row : JobRow)
    → IsWatching n w
    → w.closed ≡ false
    → IsWatching (suc n) (poll_found w row)
      × ((poll_found w row).closed ≡ status_ended row.status)
      × ((poll_found w row).job.status ≡ row.status)
unfolding poll_found
poll_found-IsWatching n w row h open_loop =
    let r = report_change (started_at w row) row in
    let (c0, c1, c2, c3, c4) = report_change_keeps (started_at w row) row in
    let (d0, d1, d2, d3, d4) = close_if_ended_cases r row in
    (
      record { named = rw (d2, c2) h.named; few = rw (d0, d1, c0, c1) (omega (arith, h.few)) },
      d4 ∙ rw (c3, c4, open_loop),
      d3 ∙ c4,
    )

abbrev pub is_final_poll : Poll → Bool
is_final_poll (poll_error err) = false
is_final_poll (poll_row row) = status_ended row.status

abbrev pub any_final : List Poll → Bool
any_final [] = false
any_final (poll ∷ polls) = is_final_poll poll || any_final polls

-- One poll: the loop ends exactly when the row has a final status, which the job then has.
watch_round-IsWatching :
    (n : ℕ) (w : Watcher) (poll : Poll)
    → IsWatching n w
    → w.closed ≡ false
    → IsWatching (suc n) (watch_round w poll)
      × ((watch_round w poll).closed ≡ is_final_poll poll)
      × ((watch_round w poll).closed ≡ true → status_ended (watch_round w poll).job.status ≡ true)
unfolding watch_round
watch_round-IsWatching n w poll h open_loop = rw h.named (handled poll)
  where
    handled :
        (p : Poll)
        → IsWatching (suc n) (handle_poll w p)
          × ((handle_poll w p).closed ≡ is_final_poll p)
          × ((handle_poll w p).closed ≡ true → status_ended (handle_poll w p).job.status ≡ true)
    handled (poll_error err) =
        let open_still = poll_failed-closed w err ∙ open_loop in
        (
          poll_failed-IsWatching n w err h,
          open_still,
          λ c. absurd (true≢false (sym c ∙ open_still)),
        )
    handled (poll_row row) =
        let (v, e, same) = poll_found-IsWatching n w row h open_loop in
        (v, e, λ c. ap status_ended same ∙ sym e ∙ c)

-- What the loop of `Watch` does with a list of polls, after `n` polls.
record Ends (n : ℕ) (polls : List Poll) (w : Watcher) : Type 0 where
  few : 6 * count_errors w.sent ≤ n + length polls
  closes : w.closed ≡ any_final polls
  final : w.closed ≡ true → status_ended w.job.status ≡ true

watch_from-Ends :
    (n : ℕ) (w : Watcher) (polls : List Poll)
    → IsWatching n w
    → w.closed ≡ false
    → Ends n polls (watch_from w polls)
unfolding watch_from
watch_from-Ends n w [] h open_loop = record {
  few = omega (arith, h.few);
  closes = open_loop;
  final = λ c. absurd (true≢false (sym c ∙ open_loop));
}
watch_from-Ends n w (poll ∷ polls) h open_loop =
    let (v, e, final) = watch_round-IsWatching n w poll h open_loop in
    elim (Bool-cases (watch_round w poll).closed) [
      | inl b ↦ rw b (record {
        few = omega (arith, v.few);
        closes = b ∙ sym (ap (λ c. c || any_final polls) (sym e ∙ b));
        final = final;
      })
      | inr b ↦
          let rest = watch_from-Ends (suc n) (watch_round w poll) polls v b in
          rw b (record {
            few = omega (arith, rest.few);
            closes = rest.closes ∙ sym (ap (λ c. c || any_final polls) (sym e ∙ b));
            final = rest.final;
          })
    ]

-- For a job that has an id: `Watch` ends exactly when some poll finds the job succeeded, terminated
-- or failed, the job then has such a status, and at most one failed look-up in six polls is reported.
pub watch_ends :
    (j : PaddleFlowJob) (polls : List Poll)
    → text_empty j.id ≡ false
    → ((watch j polls).closed ≡ any_final polls)
      × ((watch j polls).closed ≡ true → status_ended (watch j polls).job.status ≡ true)
      × (6 * count_errors (watch j polls).sent ≤ length polls)
unfolding watch
watch_ends j polls named =
    let e =
      watch_from-Ends 0 (record { job = j; try_count = 0; sent = []; closed = false }) polls
        (record { named = named; few = omega arith }) refl in
    (e.closes, e.final, omega (arith, e.few))
