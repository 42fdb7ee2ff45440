-- ===== src/Pipeline/Workflow.antt =====
-- pkg/pipeline/workflow.go: `newWorkflowRuntime`, with `NewStep` and `updateJob` of step.go.
pub mod Fresh
use Prim.Native.String.{String}
use paddle_flow.Prelude.{
  Bool, List, Option, Text, [], codes, false, if◌then◌else◌, insert, leb, lookup, ltb, map, negsuc,
  none, pos, some, text_empty, true, ℕ, ℤ, ◌&&◌, ◌++◌, ◌-◌, ◌==◌, ◌∷◌,
}
use paddle_flow.Schema.Workflow.{Artifacts, Value, WorkflowSource, WorkflowSourceStep}
use paddle_flow.Pipeline.Topology.{Order, SortResult, Steps, topological_sort, sorted, not_acyclic}
use paddle_flow.Pipeline.Topology
use paddle_flow.Pipeline.Job.{PaddleFlowJob, new_paddle_flow_job, update}
use paddle_flow.Pipeline.Runtime.{RunSteps, Step, WorkflowRuntime, new_workflow_runtime, idle}
use paddle_flow.Pipeline.Params.{
  DictParam, Outcome, Solver, failed, invalid_job, cyclic_steps, ok, on_ok, out_of_fuel, panics,
  sprint,
}
use paddle_flow.Pipeline.Solve.{solve}

abbrev wf_parallelism_default : ℕ
wf_parallelism_default = 10

abbrev pub wf_parallelism_maximum : ℕ
wf_parallelism_maximum = 20

-- The bounds that `newWorkflowRuntime` puts on the parallelism.
unfoldable pub bounded_parallelism : ℤ → ℕ
bounded_parallelism (negsuc n) = wf_parallelism_default
bounded_parallelism (pos n) =
    if n == 0
    then wf_parallelism_default
    else if ltb wf_parallelism_maximum n
    then wf_parallelism_maximum
    else n

-- What a step is made from, beside its source: the run, the fuel for references, the decoder of the
-- mapping library, and `job.ValidateJob`.
pub record Setup : Type 0 where
  pub run_id : Text
  pub extra : List (Text × Text)
  pub fuel : ℕ
  pub decode : Text → Option DictParam
  pub validate : PaddleFlowJob → Bool

-- `Extra[key]`, which is empty without the key.
abbrev extra_of : Option Text → Text
extra_of none = []
extra_of (some t) = t

unfoldable pub sys_params_of : Setup → Text → List (Text × Text)
unfolding lookup
sys_params_of setup name =
    (codes "PF_RUN_ID", setup.run_id)
    ∷ (codes "PF_STEP_NAME", name)
    ∷ (codes "PF_FS_ID", extra_of (lookup (codes "FsID") setup.extra))
    ∷ (codes "PF_FS_NAME", extra_of (lookup (codes "FsName") setup.extra))
    ∷ (codes "PF_USER_NAME", extra_of (lookup (codes "UserName") setup.extra))
    ∷ []

-- strings.ToUpper on the letters that a checked name has.
abbrev upper : ℕ → ℕ
upper c = if leb 97 c && leb c 122 then c - 32 else c

-- `GetInputArtifactEnvName` and `GetOutputArtifactEnvName`.
unfoldable pub artifact_env_name : String → Text → Text
artifact_env_name kind name = codes kind ++ map upper name

unfoldable pub insert_all : List (Text × Text) → List (Text × Text) → List (Text × Text)
unfolding insert
insert_all [] m = m
insert_all ((k, v) ∷ es) m = insert_all es (insert k v m)

-- The environment of the job: that of the step, the parameters of the system, and the artifacts.
unfoldable pub job_env : WorkflowSourceStep → List (Text × Text) → List (Text × Text)
unfolding insert_all artifact_env_name
job_env info sys =
    insert_all (map (λ e. (artifact_env_name "PF_OUTPUT_ARTIFACT_" e.0, e.1)) info.artifacts.output)
      (insert_all
        (map (λ e. (artifact_env_name "PF_INPUT_ARTIFACT_" e.0, e.1)) info.artifacts.input)
        (insert_all sys info.env))

unfoldable pub infos_of : RunSteps → Steps
infos_of [] = []
infos_of ((name, st) ∷ steps) = (name, st.info) ∷ infos_of steps

-- The end of `updateJob`, behind `Solve`: the resolved source of the step, and its job.
unfoldable pub filled_job :
    List (Text × Text)
    → PaddleFlowJob
    → Option WorkflowSourceStep
    → Outcome (WorkflowSourceStep × PaddleFlowJob)
unfolding update job_env
filled_job sys job none = panics
filled_job sys job (some real) = ok (
  real,
  update job real.command (some (map (λ e. (e.0, sprint e.1)) real.parameters))
      (some (job_env real sys)) (some real.artifacts),
)

-- The solver that `updateJob` makes: the step and those made before it.
unfoldable pub step_solver : Setup → RunSteps → Text → WorkflowSourceStep → Solver
unfolding sys_params_of insert infos_of
step_solver setup steps name info = record {
  steps = insert name info (infos_of steps);
  sys_params = sys_params_of setup name;
  need_replace = true;
  decode = setup.decode;
}

-- `updateJob`.
unfoldable pub update_step_job :
    Setup
    → RunSteps
    → Text
    → WorkflowSourceStep
    → PaddleFlowJob
    → Outcome (WorkflowSourceStep × PaddleFlowJob)
unfolding sys_params_of step_solver solve lookup filled_job
update_step_job setup steps name info job =
    on_ok (solve setup.fuel name (step_solver setup steps name info))
      (λ solved. filled_job (sys_params_of setup name) job (lookup name solved.steps))

-- The end of `NewStep`.
unfoldable pub checked_step : Setup → WorkflowSourceStep × PaddleFlowJob → Outcome Step
checked_step setup (real, job) =
    if setup.validate job
    then ok (record {
      info = real;
      ready = 0;
      done = false;
      submitted = false;
      job = job;
      first_fp = [];
      second_fp = [];
      phase = idle;
      inbox = [];
      pending = none;
    })
    else failed invalid_job

-- `NewStep`.
unfoldable pub new_step : Setup → RunSteps → Text → WorkflowSourceStep → Outcome Step
unfolding update_step_job new_paddle_flow_job checked_step
new_step setup steps name info =
    let job = new_paddle_flow_job (setup.run_id ++ 45 ∷ name) info.image info.deps in
    on_ok (update_step_job setup steps name info job) (checked_step setup)

abbrev pub with_image : Text → WorkflowSourceStep → WorkflowSourceStep
with_image docker_env info = record info {
  image = if text_empty info.image then docker_env else info.image;
}

-- The loop of `newWorkflowRuntime` over the sorted names.
unfoldable pub new_steps : Setup → Text → Steps → List Text → RunSteps → Outcome RunSteps
unfolding lookup insert new_step
new_steps setup docker_env run_steps [] steps = ok steps
new_steps setup docker_env run_steps (name ∷ names) steps = elim (lookup name run_steps) [
  | none ↦ panics
  | some info ↦
      on_ok (new_step setup steps name (with_image docker_env info))
        (λ st. new_steps setup docker_env run_steps names (insert name st steps))
]

abbrev pub after_sort : Setup → WorkflowSource → Steps → SortResult → Outcome WorkflowRuntime
after_sort setup source run_steps (sorted names) =
    on_ok (new_steps setup source.docker_env run_steps names []) (λ steps.
      ok (record (new_workflow_runtime setup.run_id (bounded_parallelism source.parallelism)) {
        steps = steps;
      }))
after_sort setup source run_steps not_acyclic = failed cyclic_steps
after_sort setup source run_steps Topology.out_of_fuel = out_of_fuel

-- `newWorkflowRuntime`, for an order in which maps are visited.
unfoldable pub make_runtime : Order → Setup → WorkflowSource → Steps → Outcome WorkflowRuntime
unfolding topological_sort new_steps bounded_parallelism new_workflow_runtime
make_runtime order setup source run_steps =
    after_sort setup source run_steps (topological_sort order run_steps)
