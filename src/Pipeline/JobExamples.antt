-- ===== src/Pipeline/JobExamples.antt =====
-- A job that is looked at while it runs and when it has succeeded, and the dependencies of steps
-- (pkg/pipeline/job.go, run.go).
use paddle_flow.Prelude.{
  List, [], codes, false, length, none, refl, some, text_empty, true, ◌*◌, ◌↔◌, ◌∷◌, ◌≡◌, ◌≤◌,
}
use paddle_flow.Schema.Jobs.{JobStatus}
use paddle_flow.Pipeline.Job.{
  JobRow, PaddleFlowJob, Poll, poll_error, poll_row, watch, new_paddle_flow_job,
}
use paddle_flow.Pipeline.Job.Watching.{follow, watch-follow}
use paddle_flow.Pipeline.Job.Ending.{any_final, count_errors, status_ended, watch_ends}
use paddle_flow.Pipeline.Runtime.{is_deps_ready}
use paddle_flow.Pipeline.Runtime.Deps.{
  AllFinishedWell, SomeUnknown, is_deps_ready_panic, is_deps_ready-true, waits_for,
}
use paddle_flow.Pipeline.RunExamples.{blank_step}

abbrev row_with : JobStatus → JobRow
row_with status = record {
  created_at = codes "10:00";
  updated_at = codes "10:05";
  status = status;
  message = [];
}

abbrev polls : List Poll
polls =
    poll_error (codes "timeout")
    ∷ poll_row (row_with JobStatus.running)
    ∷ poll_row (row_with JobStatus.succeeded)
    ∷ []

abbrev started_job : PaddleFlowJob
unfolding new_paddle_flow_job
started_job = record (new_paddle_flow_job (codes "run-a") [] []) { id = codes "job-1" }

watch-follow_example :
    follow started_job.status (watch started_job polls).sent
    ≡ some (watch started_job polls).job.status
watch-follow_example = watch-follow started_job polls

started_job_named : text_empty started_job.id ≡ false
unfolding started_job
started_job_named = refl

watch_ends_example :
    ((watch started_job polls).closed ≡ any_final polls)
    × ((watch started_job polls).closed ≡ true
        → status_ended (watch started_job polls).job.status ≡ true)
    × (6 * count_errors (watch started_job polls).sent ≤ length polls)
watch_ends_example = watch_ends started_job polls started_job_named

is_deps_ready-true_example :
    (is_deps_ready ((codes "a", blank_step "a" "") ∷ []) (blank_step "b" "a") ≡ some true)
    ↔ AllFinishedWell ((codes "a", blank_step "a" "") ∷ []) (waits_for (blank_step "b" "a"))
is_deps_ready-true_example =
    is_deps_ready-true ((codes "a", blank_step "a" "") ∷ []) (blank_step "b" "a")

is_deps_ready_panic_example :
    (is_deps_ready ((codes "a", blank_step "a" "") ∷ []) (blank_step "b" "c") ≡ none)
    ↔ SomeUnknown ((codes "a", blank_step "a" "") ∷ []) (waits_for (blank_step "b" "c"))
is_deps_ready_panic_example =
    is_deps_ready_panic ((codes "a", blank_step "a" "") ∷ []) (blank_step "b" "c")
