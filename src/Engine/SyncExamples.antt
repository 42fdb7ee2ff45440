-- ===== src/Engine/SyncExamples.antt =====
-- A job that fails, and a late event about it (pkg/job/controller/job_sync).
use paddle_flow.Prelude.{[], codes, false, none, refl, true, ◌+◌, ◌∷◌, ◌≤◌}
use paddle_flow.Schema.Jobs.{JobPhase, JobStatus, running_phase}
use paddle_flow.Engine.Table.{Answers, Job}
use paddle_flow.Engine.Sync.{ClusterJob, JobSync, add_vc_job, process_work_item}
use paddle_flow.Engine.Sync.Traces.{Reaches, next, tell, vc_added, here, work}
use paddle_flow.Engine.Sync.Traces
use paddle_flow.Engine.Sync.Stable.{Reaches-Settled, Settled}
use paddle_flow.Engine.Sync.Drain.{Works, Works-load, load}
use paddle_flow.Engine.Sync.Drain

abbrev failed_job : Job
failed_job = record {
  status = JobStatus.failed;
  runtime_info = none;
  message = codes "out of memory";
  activated_at = none;
}

abbrev at_rest : JobSync
at_rest = record { jobs = (codes "job-1", failed_job) ∷ []; queue = []; delayed = [] }

abbrev late : ClusterJob JobPhase
late = record {
  job_id = codes "job-1";
  resource_version = codes "7";
  phase = running_phase;
  message = [];
  object = codes "object";
}

abbrev informed : JobSync
informed = record at_rest { queue = add_vc_job late ∷ [] }

abbrev fine : Answers
fine = record { reads = true; saves = true; stops = true; now = codes "10:00" }

abbrev unreachable : Answers
unreachable = record { reads = false; saves = true; stops = true; now = codes "10:00" }

Reaches-Settled_example : Settled at_rest.jobs (process_work_item informed fine).jobs
Reaches-Settled_example = Reaches-Settled at_rest (process_work_item informed fine) (
    next (next Traces.here (tell (add_vc_job late) (vc_added late refl) refl))
      (Traces.work fine refl))

Works-load_example : 1 + load (process_work_item informed unreachable) ≤ load informed
Works-load_example =
    Works-load informed 1 (process_work_item informed unreachable)
      (Drain.work unreachable (add_vc_job late) [] Drain.here refl refl)
