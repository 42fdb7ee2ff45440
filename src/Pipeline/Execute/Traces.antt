-- ===== src/Pipeline/Execute/Traces.antt =====
-- The interleavings of a run: the goroutines of its steps, of their jobs, and of the run itself
-- (pkg/pipeline/run.go, step.go, job.go).
use paddle_flow.Prelude.{
  Bool, In, List, Option, Text, [], false, insert, lookup, none, some, suc, true, ℕ, ◌++◌, ◌<◌, ◌∷◌,
  ◌≡◌,
}
use paddle_flow.Schema.Jobs.{JobStatus, unset}
use paddle_flow.Pipeline.Event.{
  WorkflowEvent, job_stop_err, job_update, job_watch_err, new_workflow_event,
}
use paddle_flow.Pipeline.Job.{status_not_ended}
use paddle_flow.Pipeline.Runtime.{
  selecting, acquiring, watching, RunUpdate, Step, WorkflowRuntime, idle, process_event, stop,
}
use paddle_flow.Pipeline.Execute.{
  CacheCheck, StartResult, execute_cancelled, execute_with_slot, watch_event,
}

-- A step at its place in the map.
abbrev pub put : WorkflowRuntime → Text → Step → WorkflowRuntime
put w name st = record w { steps = insert name st w.steps }

abbrev pub update_event : Step → JobStatus → Text → WorkflowEvent
update_event st status message = new_workflow_event job_update [] (
    some (record {
      status = status;
      pre_status = st.job.status;
      job_id = st.job.id;
      message = some message;
    }))

-- One move of a run that was started afresh; `enable` is `cache.Enable`.
pub data Moves (enable : Bool) (w v : WorkflowRuntime) : Type 0 where
  -- `select`: the context is done
  notice_cancel :
      (n : Text) (st : Step)
      → lookup n w.steps ≡ some st
      → st.phase ≡ selecting
      → w.cancelled ≡ true
      → v ≡ execute_cancelled w n st
      → Moves enable w v
  -- `select`: the run has sent the signal
  take_signal :
      (n : Text) (st : Step) (left : ℕ)
      → lookup n w.steps ≡ some st
      → st.phase ≡ selecting
      → st.ready ≡ suc left
      → v ≡ put w n (record st { ready = left; phase = acquiring })
      → Moves enable w v
  -- `IncConcurrentJobs(1)` finds room, and `Execute` goes on to its next wait
  acquire :
      (n : Text) (st : Step) (check : CacheCheck) (started : StartResult)
      → lookup n w.steps ≡ some st
      → st.phase ≡ acquiring
      → w.slots < w.parallelism
      → v ≡ execute_with_slot w n st enable check started
      → Moves enable w v
  -- the job's goroutine sends a change of a job that has not ended
  announce :
      (n : Text) (st : Step) (status : JobStatus) (message : Text)
      → lookup n w.steps ≡ some st
      → st.phase ≡ watching
      → st.pending ≡ none
      → st.inbox ≡ []
      → status_not_ended st.job.status ≡ true
      → v
        ≡ put w n (record st {
          inbox = update_event st status message ∷ [];
          pending = some (status, message);
        })
      → Moves enable w v
  -- and writes it into the job after that
  settle :
      (n : Text) (st : Step) (status : JobStatus) (message : Text)
      → lookup n w.steps ≡ some st
      → st.pending ≡ some (status, message)
      → v
        ≡ put w n (record st {
          job = record (st.job) { status = status; message = message };
          pending = none;
        })
      → Moves enable w v
  -- the job's goroutine reports that it cannot look the job up
  announce_error :
      (n : Text) (st : Step) (message : Text)
      → lookup n w.steps ≡ some st
      → st.phase ≡ watching
      → st.inbox ≡ []
      → v ≡ put w n (record st { inbox = new_workflow_event job_watch_err message none ∷ [] })
      → Moves enable w v
  -- `Watch` reads an event
  receive :
      (n : Text) (st : Step) (e : WorkflowEvent) (rest : List WorkflowEvent)
      → lookup n w.steps ≡ some st
      → st.phase ≡ watching
      → st.inbox ≡ e ∷ rest
      → v ≡ watch_event w n st enable e rest
      → Moves enable w v
  -- `stopJob` reports that the job could not be stopped
  stop_failed :
      (message : Text)
      → w.cancelled ≡ true
      → v ≡ record w { events = w.events ++ new_workflow_event job_stop_err message none ∷ [] }
      → Moves enable w v
  -- `Listen` handles an event
  handle :
      (e : WorkflowEvent) (rest : List WorkflowEvent) (update : Option RunUpdate)
      → w.events ≡ e ∷ rest
      → process_event (record w { events = rest }) e ≡ some (v, update)
      → Moves enable w v
  -- the user stops the run
  user_stop : v ≡ stop w → Moves enable w v

pub data Reaches (enable : Bool) (w : WorkflowRuntime) : WorkflowRuntime → Type 0 where
  here : Reaches enable w w
  next : {u v : WorkflowRuntime} → Reaches enable w u → Moves enable u v → Reaches enable w v

-- A run whose steps were just made by `NewStep`.
pub record IsFreshStep (st : Step) : Type 0 where
  pub unsent : st.ready ≡ 0
  pub unsubmitted : st.submitted ≡ false
  pub waiting : st.phase ≡ idle
  pub settled : st.pending ≡ none
  pub unseen : st.job.status ≡ unset

pub record IsFresh (w : WorkflowRuntime) : Type 0 where
  pub fresh_steps : (n : Text) (st : Step) → In (n, st) w.steps → IsFreshStep st
  pub free : w.slots ≡ 0
