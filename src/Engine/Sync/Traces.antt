-- ===== src/Engine/Sync/Traces.antt =====
-- The interleavings of the events of the cluster and the worker (pkg/job/controller/job_sync).
use paddle_flow.Prelude.{Bool, List, Text, [], insert, lookup, none, some, ◌++◌, ◌∷◌, ◌≡◌}
use paddle_flow.Schema.Jobs.{JobPhase, SparkState, get_spark_job_status, get_vc_job_status}
use paddle_flow.Engine.Table.{Answers, Job}
use paddle_flow.Engine.Sync.{
  ClusterJob, JobSync, JobSyncInfo, Pod, add_spark_job, add_vc_job, delete_job_object,
  process_work_item, update_job_object, update_pod,
}

-- What a handler adds to the queue.
pub data Told (info : JobSyncInfo) : Type 0 where
  vc_added : (job : ClusterJob JobPhase) → info ≡ add_vc_job job → Told info
  vc_updated :
      (same : JobPhase → JobPhase → Bool) (old new : ClusterJob JobPhase)
      → update_job_object get_vc_job_status same old new ≡ some info
      → Told info
  vc_deleted :
      (job : ClusterJob JobPhase) → delete_job_object get_vc_job_status job ≡ some info → Told info
  spark_added : (job : ClusterJob SparkState) → info ≡ add_spark_job job → Told info
  spark_updated :
      (same : SparkState → SparkState → Bool) (old new : ClusterJob SparkState)
      → update_job_object get_spark_job_status same old new ≡ some info
      → Told info
  spark_deleted :
      (job : ClusterJob SparkState)
      → delete_job_object get_spark_job_status job ≡ some info
      → Told info

pub data Moves (j k : JobSync) : Type 0 where
  -- a handler of job events
  tell :
      (info : JobSyncInfo) → Told info → k ≡ record j { queue = j.queue ++ info ∷ [] } → Moves j k
  -- the handler of pod events
  pod_updated :
      (old new : Pod)
      → k ≡ record j {
        queue = j.queue ++ (update_pod old new).0;
        delayed = j.delayed ++ (update_pod old new).1;
      }
      → Moves j k
  -- a delay is over
  arrive :
      (before after : List JobSyncInfo) (info : JobSyncInfo)
      → j.delayed ≡ before ++ info ∷ after
      → k ≡ record j { queue = j.queue ++ info ∷ []; delayed = before ++ after }
      → Moves j k
  -- the worker takes an item
  work : (a : Answers) → k ≡ process_work_item j a → Moves j k
  -- `CreateJob` adds a row
  create :
      (id : Text) (job : Job)
      → lookup id j.jobs ≡ none
      → k ≡ record j { jobs = insert id job j.jobs }
      → Moves j k

pub data Reaches (j : JobSync) : JobSync → Type 0 where
  here : Reaches j j
  next : {k l : JobSync} → Reaches j k → Moves k l → Reaches j l
