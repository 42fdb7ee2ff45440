-- ===== src/Pipeline/Restart.antt =====
-- pkg/pipeline/run.go and workflow.go: a run that is taken up again from the database.
use paddle_flow.Prelude.{
  List, Option, Text, [], if◌then◌else◌, lookup, map, none, not, some, text_empty, ◌>>=◌, ◌||◌, ◌∷◌,
}
use paddle_flow.Apiserver.Status
use paddle_flow.Apiserver.Status.{running}
use paddle_flow.Pipeline.Job.{not_ended}
use paddle_flow.Pipeline.Runtime.{
  JobView, RunSteps, Step, WorkflowRuntime, is_deps_ready, launch, submit_if,
}

-- The first loop of `Restart` starts the goroutines, the second submits the steps that are ready.
abbrev restart_launch : Step → Step
restart_launch st = if st.done then st else launch st

unfoldable pub restart_step : RunSteps → Step → Option Step
unfolding is_deps_ready
restart_step all st =
    if st.done || st.submitted
    then some st
    else do ready ← is_deps_ready all st; some (submit_if st ready)

unfoldable pub restart_submit : RunSteps → RunSteps → Option RunSteps
unfolding restart_step
restart_submit all [] = some []
restart_submit all ((name, st) ∷ steps) = do
  st' ← restart_step all st
  steps' ← restart_submit all steps
  some ((name, st') ∷ steps')

-- `SetWorkflowRuntime` for one step: the job is made anew from the view in the database.
unfoldable pub resume_step : Text → Step → JobView → Step
resume_step docker_env st view =
    let job = record (st.job) {
      id = view.job_id;
      name = view.job_name;
      command = view.command;
      parameters = view.parameters;
      artifacts = record { input = []; output = [] };
      env = view.env;
      start_time = view.start_time;
      end_time = view.end_time;
      status = view.status;
      deps = view.deps;
      message = [];
      image = docker_env;
    } in
    record st { done = not (not_ended job); submitted = not (text_empty view.job_id); job = job }

unfoldable pub set_workflow_runtime : Text → List (Text × JobView) → RunSteps → RunSteps
unfolding resume_step lookup
set_workflow_runtime docker_env runtime [] = []
set_workflow_runtime docker_env runtime ((name, st) ∷ steps) =
    (name, elim (lookup name runtime) [ none ↦ st | some view ↦ resume_step docker_env st view ])
    ∷ set_workflow_runtime docker_env runtime steps

unfoldable pub restart : WorkflowRuntime → Option WorkflowRuntime
unfolding restart_submit
restart w =
    let launched = map (λ entry. (entry.0, restart_launch entry.1)) w.steps in
    do
      steps ← restart_submit launched launched
      some (record w { steps = steps; status = Status.running })
