-- ===== src/Pipeline/WorkflowExamples.antt =====
-- The run of a workflow of two steps (pkg/pipeline/workflow.go).
use paddle_flow.Prelude.{[], codes, false, length, not, pos, refl, text_empty, text_eq, ◌≡◌, ◌≤◌}
use paddle_flow.Schema.Workflow.{WorkflowSource}
use paddle_flow.Pipeline.Runtime.{WorkflowRuntime, new_workflow_runtime}
use paddle_flow.Pipeline.Execute.Traces.{IsFresh}
use paddle_flow.Pipeline.GraphExamples.{as_listed}
use paddle_flow.Pipeline.ParamExamples.{no_dict, train_and_report}
use paddle_flow.Pipeline.Params.{Outcome, ok}
use paddle_flow.Pipeline.Workflow.{Setup, make_runtime}
use paddle_flow.Pipeline.Workflow.Fresh.{make_runtime-IsFresh}

abbrev setup : Setup
setup = record {
  run_id = codes "run-7";
  extra = [];
  fuel = 3;
  decode = no_dict;
  validate = λ job. not (text_empty job.image);
}

abbrev source : WorkflowSource
source = record {
  name = codes "demo";
  docker_env = codes "paddle:2.0";
  entry_points = train_and_report;
  cache = record { enable = false; max_expired_time = []; fs_scope = [] };
  parallelism = pos 50;
}

abbrev or_empty : Outcome WorkflowRuntime → WorkflowRuntime
unfolding new_workflow_runtime
or_empty (ok w) = w
or_empty _ = new_workflow_runtime [] 1

abbrev made : WorkflowRuntime
unfolding make_runtime
made = or_empty (make_runtime as_listed setup source train_and_report)

runtime_made : make_runtime as_listed setup source train_and_report ≡ ok made
unfolding made or_empty make_runtime text_eq
runtime_made = refl

two_steps : (length made.steps ≡ 2) × (made.parallelism ≡ 20)
unfolding made or_empty make_runtime text_eq
two_steps = (refl, refl)

make_runtime-IsFresh_example : IsFresh made × (1 ≤ made.parallelism) × (made.parallelism ≤ 20)
make_runtime-IsFresh_example =
    make_runtime-IsFresh as_listed setup source train_and_report made runtime_made
