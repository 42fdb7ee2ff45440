-- ===== src/Pipeline/Workflow/Fresh.antt =====
-- The runs that `NewWorkflow` makes (pkg/pipeline/workflow.go).
use paddle_flow.Prelude.{
  Bool-cases, In, List, Option, Text, [], ap, arith, inl, inr, insert, lookup, negsuc, none, pos,
  refl, some, subst, sym, text_eq, ℤ, ◌++◌, ◌∷◌, ◌≡◌, ◌≤◌, ◌⊎◌,
}
use paddle_flow.Schema.Workflow.{WorkflowSource, WorkflowSourceStep}
use paddle_flow.Pipeline.Topology.{Order, SortResult, Steps, not_acyclic, sorted, topological_sort}
use paddle_flow.Pipeline.Topology
use paddle_flow.Schema.Jobs.{unset}
use paddle_flow.Pipeline.Job.{PaddleFlowJob, new_paddle_flow_job, update}
use paddle_flow.Pipeline.Runtime.{RunSteps, Step, WorkflowRuntime, new_workflow_runtime}
use paddle_flow.Pipeline.Execute.Traces.{IsFresh, IsFreshStep}
use paddle_flow.Pipeline.Params.{failed, invalid_job, ok, on_ok, panics}
use paddle_flow.Pipeline.Params.Scope.{on_ok-ok}
use paddle_flow.Pipeline.Solve.{solve}
use paddle_flow.Pipeline.Workflow.{
  Setup, step_solver, sys_params_of, after_sort, checked_step, filled_job, with_image,
  bounded_parallelism, make_runtime, new_step, new_steps, update_step_job,
}

bounded_parallelism-within : (n : ℤ) → (1 ≤ bounded_parallelism n) × (bounded_parallelism n ≤ 20)
unfolding bounded_parallelism
bounded_parallelism-within (negsuc n) = (omega arith, omega arith)
bounded_parallelism-within (pos n) = ground arith

insert-In :
    (k : Text) (v : Step) (steps : RunSteps) (n : Text) (st : Step)
    → In (n, st) (insert k v steps)
    → (v ≡ st) ⊎ In (n, st) steps
unfolding insert
insert-In k v [] n st (inl e) = inl (ap (λ (x : Text × Step). x.1) e)
insert-In k v [] n st (inr i) = absurd i
insert-In k v ((m, s) ∷ steps) n st i = elim (Bool-cases (text_eq m k)) [
  | inl q ↦ elim (rw q at i) [ inl e ↦ inl (ap (λ (x : Text × Step). x.1) e) | inr j ↦ inr (inr j) ]
  | inr q ↦ elim (rw q at i) [
    | inl e ↦ inr (inl e)
    | inr j ↦ elim (insert-In k v steps n st j) [ inl e ↦ inl e | inr l ↦ inr (inr l) ]
  ]
]

abbrev AllFresh : RunSteps → Type 0
AllFresh steps = (n : Text) (st : Step) → In (n, st) steps → IsFreshStep st

ok-inj {ℓ} : {A : Type ℓ} {a b : A} → ok a ≡ ok b → a ≡ b
ok-inj e = cc

filled_job-status :
    (sys : List (Text × Text)) (job job' : PaddleFlowJob) (o : Option WorkflowSourceStep)
    (real : WorkflowSourceStep)
    → filled_job sys job o ≡ ok (real, job')
    → job'.status ≡ job.status
unfolding filled_job update
filled_job-status sys job job' none real h = cc
filled_job-status sys job job' (some info) real h =
    sym (ap (λ (r : WorkflowSourceStep × PaddleFlowJob). r.1.status) (ok-inj h))

module _ (setup : Setup) where
  update_step_job-status :
      (steps : RunSteps) (name : Text) (info real : WorkflowSourceStep) (job job' : PaddleFlowJob)
      → update_step_job setup steps name info job ≡ ok (real, job')
      → job'.status ≡ job.status
  unfolding update_step_job
  update_step_job-status steps name info real job job' h =
      let (solved, e, q) =
        on_ok-ok (solve setup.fuel name (step_solver setup steps name info)) _ (real, job') h in
      filled_job-status (sys_params_of setup name) job job' (lookup name solved.steps) real q

  checked_step-IsFreshStep :
      (real : WorkflowSourceStep) (job : PaddleFlowJob) (st : Step)
      → job.status ≡ unset
      → checked_step setup (real, job) ≡ ok st
      → IsFreshStep st
  unfolding checked_step
  checked_step-IsFreshStep real job st unseen h = elim (Bool-cases (setup.validate job)) [
    | inl e ↦ subst IsFreshStep (ok-inj (rw e at h)) (record {
      unsent = refl;
      unsubmitted = refl;
      waiting = refl;
      settled = refl;
      unseen = unseen;
    })
    | inr e ↦ absurd (refused (rw e at h))
  ]
    where
      refused : failed invalid_job ≡ ok st → ⊥
      refused q = cc

  new_step-IsFreshStep :
      (steps : RunSteps) (name : Text) (info : WorkflowSourceStep) (st : Step)
      → new_step setup steps name info ≡ ok st
      → IsFreshStep st
  unfolding new_step new_paddle_flow_job
  new_step-IsFreshStep steps name info st h =
      let job = new_paddle_flow_job (setup.run_id ++ 45 ∷ name) info.image info.deps in
      let ((real, job'), e, q) = on_ok-ok (update_step_job setup steps name info job) _ st h in
      checked_step-IsFreshStep real job' st (update_step_job-status steps name info real job job' e)
        q

  new_steps-AllFresh :
      (docker_env : Text) (run_steps : Steps) (names : List Text) (steps made : RunSteps)
      → AllFresh steps
      → new_steps setup docker_env run_steps names steps ≡ ok made
      → AllFresh made
  unfolding new_steps
  new_steps-AllFresh docker_env run_steps [] steps made fresh h = subst AllFresh (ok-inj h) fresh
  new_steps-AllFresh docker_env run_steps (name ∷ names) steps made fresh h =
      at_info (lookup name run_steps) h (new_steps-AllFresh docker_env run_steps names)
    where
      at_info :
          (o : Option WorkflowSourceStep)
          → elim o [
            | none ↦ panics
            | some info ↦
                on_ok
                  (new_step setup steps name (with_image docker_env info))
                  (λ st. new_steps setup docker_env run_steps names (insert name st steps))
          ]
            ≡ ok made
          → ((steps made : RunSteps)
              → AllFresh steps
              → new_steps setup docker_env run_steps names steps ≡ ok made
              → AllFresh made)
          → AllFresh made
      at_info none q later = cc
      at_info (some info) q later =
          let (st, e, r) =
            on_ok-ok (new_step setup steps name (with_image docker_env info)) _ made q in
          later (insert name st steps) made
            (λ n x i. elim (insert-In name st steps n x i) [
              | inl same ↦
                  subst IsFreshStep same
                    (new_step-IsFreshStep steps name (with_image docker_env info) st e)
              | inr j ↦ fresh n x j
            ])
            r

-- A run that `newWorkflowRuntime` makes is fresh, and its parallelism is between 1 and 20, whatever
-- the workflow asks for.
pub make_runtime-IsFresh :
    (order : Order) (setup : Setup) (source : WorkflowSource) (run_steps : Steps)
    (w : WorkflowRuntime)
    → make_runtime order setup source run_steps ≡ ok w
    → IsFresh w × (1 ≤ w.parallelism) × (w.parallelism ≤ 20)
unfolding make_runtime new_workflow_runtime
make_runtime-IsFresh order setup source run_steps w h =
    at_sorted (topological_sort order run_steps) h
  where
    at_sorted :
        (r : SortResult)
        → after_sort setup source run_steps r ≡ ok w
        → IsFresh w × (1 ≤ w.parallelism) × (w.parallelism ≤ 20)
    at_sorted not_acyclic q = cc
    at_sorted Topology.out_of_fuel q = cc
    at_sorted (sorted names) q =
        let (steps, e, r) = on_ok-ok (new_steps setup source.docker_env run_steps names []) _ w q in
        subst (λ (x : WorkflowRuntime). IsFresh x × (1 ≤ x.parallelism) × (x.parallelism ≤ 20))
          (ok-inj r)
          (
            record {
              fresh_steps =
                  new_steps-AllFresh setup source.docker_env run_steps names [] steps
                    (λ n st i. absurd i) e;
              free = refl;
            },
            (bounded_parallelism-within source.parallelism).0,
            (bounded_parallelism-within source.parallelism).1,
          )
