-- ===== src/Pipeline/Solve.antt =====
-- pkg/pipeline/common.go: `Solve`, which checks a step and writes the resolved values back.
pub mod Keeping
pub mod Total
use paddle_flow.Prelude.{List, Text, [], insert, lookup, none, some, ℕ, ◌∷◌}
use paddle_flow.Schema.Workflow.{Value, WorkflowSourceStep, text}
use paddle_flow.Pipeline.Params.{
  Field, Outcome, Solver, check_name, check_param_value, field_command, field_env,
  field_input_artifacts, field_output_artifacts, field_parameters, ok, on_ok, panics, sprint,
}

-- The step as it stands in the map.
unfoldable pub put_step : Solver → Text → WorkflowSourceStep → Solver
unfolding insert
put_step s name st = record s { steps = insert name st s.steps }

-- One round of a loop of `Solve`: the name is checked, the value resolved, and `write` puts it into
-- the step.
unfoldable pub solve_one :
    ℕ
    → Text
    → Field
    → (Text → Value → WorkflowSourceStep → WorkflowSourceStep)
    → Text × Value
    → Solver
    → Outcome Solver
unfolding check_name check_param_value put_step lookup
solve_one fuel current field write (name, val) s = on_ok (check_name name) (λ _.
    on_ok (check_param_value fuel s current val field) (λ real. elim (lookup current s.steps) [
      | none ↦ panics
      | some st ↦ ok (put_step s current (write name real st))
    ]))

unfoldable pub solve_each :
    ℕ
    → Text
    → Field
    → (Text → Value → WorkflowSourceStep → WorkflowSourceStep)
    → List (Text × Value)
    → Solver
    → Outcome Solver
unfolding solve_one
solve_each fuel current field write [] s = ok s
solve_each fuel current field write (e ∷ es) s =
    on_ok (solve_one fuel current field write e s) (solve_each fuel current field write es)

unfoldable pub write_parameter : Text → Value → WorkflowSourceStep → WorkflowSourceStep
unfolding insert
write_parameter name real st = record st { parameters = insert name real st.parameters }

unfoldable pub write_input : Text → Value → WorkflowSourceStep → WorkflowSourceStep
unfolding insert
write_input name real st = record st {
  artifacts = record (st.artifacts) { input = insert name (sprint real) st.artifacts.input };
}

unfoldable pub write_output : Text → Value → WorkflowSourceStep → WorkflowSourceStep
unfolding insert
write_output name real st = record st {
  artifacts = record (st.artifacts) { output = insert name (sprint real) st.artifacts.output };
}

unfoldable pub write_env : Text → Value → WorkflowSourceStep → WorkflowSourceStep
unfolding insert
write_env name real st = record st { env = insert name (sprint real) st.env }

abbrev pub as_values : List (Text × Text) → List (Text × Value)
as_values [] = []
as_values ((name, t) ∷ rest) = (name, text t) ∷ as_values rest

-- The sections of `Solve`, from the last to the first, each with what follows it: the command, the
-- environment, the artifacts and the parameters. The loops go through the maps in the order of the
-- lists.
unfoldable pub solve_command : ℕ → Text → WorkflowSourceStep → Solver → Outcome Solver
unfolding check_param_value put_step lookup
solve_command fuel current step s =
    on_ok (check_param_value fuel s current (text step.command) field_command) (λ real.
      elim (lookup current s.steps) [
        | none ↦ panics
        | some st ↦ ok (put_step s current (record st { command = sprint real }))
      ])

unfoldable pub solve_env : ℕ → Text → WorkflowSourceStep → Solver → Outcome Solver
unfolding solve_each write_env solve_command
solve_env fuel current step s =
    on_ok (solve_each fuel current field_env write_env (as_values step.env) s)
      (solve_command fuel current step)

unfoldable pub solve_outputs : ℕ → Text → WorkflowSourceStep → Solver → Outcome Solver
unfolding solve_each write_output solve_env
solve_outputs fuel current step s =
    on_ok
      (solve_each fuel current field_output_artifacts write_output (as_values step.artifacts.output)
        s)
      (solve_env fuel current step)

unfoldable pub solve_inputs : ℕ → Text → WorkflowSourceStep → Solver → Outcome Solver
unfolding solve_each write_input solve_outputs
solve_inputs fuel current step s =
    on_ok
      (solve_each fuel current field_input_artifacts write_input (as_values step.artifacts.input) s)
      (solve_outputs fuel current step)

unfoldable pub solve_step : ℕ → Text → WorkflowSourceStep → Solver → Outcome Solver
unfolding solve_each write_parameter solve_inputs
solve_step fuel current step s =
    on_ok (solve_each fuel current field_parameters write_parameter step.parameters s)
      (solve_inputs fuel current step)

-- A step that is not in the map is nil, and reading it panics.
unfoldable pub solve : ℕ → Text → Solver → Outcome Solver
unfolding solve_step lookup
solve fuel current s = elim (lookup current s.steps) [
  | none ↦ panics
  | some step ↦ solve_step fuel current step s
]

-- The loop of `checkSteps` over the names of the steps.
unfoldable pub check_steps : ℕ → List Text → Solver → Outcome Solver
unfolding solve
check_steps fuel [] s = ok s
check_steps fuel (name ∷ names) s = on_ok (solve fuel name s) (check_steps fuel names)
