-- ===== src/Pipeline/Override.antt =====
-- pkg/pipeline/workflow.go: `checkParams` and `replaceRunParam`, by which the user of a run overrides
-- parameters of its workflow.
pub mod Replaced
use paddle_flow.Prelude.{
  List, Option, Text, [], if◌then◌else◌, insert, lookup, none, some, text_empty, ◌∷◌,
}
use paddle_flow.Schema.Workflow.{Value, WorkflowSourceStep}
use paddle_flow.Pipeline.Topology.{Steps}
use paddle_flow.Pipeline.Template.{parse_param_name}
use paddle_flow.Pipeline.Params.{
  DictParam, Outcome, check_dict_param, failed, ok, on_ok, unknown_param, unknown_step,
}

-- `DictParam.From` of any value, by the mapping library.
abbrev pub Decode : Type 0
Decode = Value → Option DictParam

-- `step.Parameters[paramName] = val` in the step of the map.
unfoldable pub put_param : Text → WorkflowSourceStep → Text → Value → Steps → Steps
unfolding insert
put_param name st param val steps =
    insert name (record st { parameters = insert param val st.parameters }) steps

-- A value that replaces a dictionary must suit it.
unfoldable pub suits : Decode → Value → Value → Outcome Value
unfolding check_dict_param
suits decode original val = elim (decode original) [
  | none ↦ ok val
  | some d ↦ on_ok (check_dict_param d val) (λ _. ok val)
]

-- The branch for a name with a step.
unfoldable pub replace_of_step : Decode → Text → Text → Value → Steps → Outcome Steps
unfolding lookup suits put_param
replace_of_step decode step param val steps = elim (lookup step steps) [
  | none ↦ failed unknown_step
  | some st ↦ elim (lookup param st.parameters) [
    | none ↦ failed unknown_param
    | some original ↦ on_ok (suits decode original val) (λ v. ok (put_param step st param v steps))
  ]
]

-- The loop for a name without one: the first step visited that has the parameter.
unfoldable pub replace_of_any : Decode → Steps → Text → Value → Steps → Outcome Steps
unfolding lookup suits put_param
replace_of_any decode [] param val steps = failed unknown_param
replace_of_any decode ((name, st) ∷ visited) param val steps = elim (lookup param st.parameters) [
  | none ↦ replace_of_any decode visited param val steps
  | some original ↦ on_ok (suits decode original val) (λ v. ok (put_param name st param v steps))
]

-- `order` is the order in which the map of steps is visited.
unfoldable pub replace_run_param : Decode → (Steps → Steps) → Text → Value → Steps → Outcome Steps
unfolding parse_param_name replace_of_step replace_of_any
replace_run_param decode order name val steps =
    let (step, param) = parse_param_name name in
    if text_empty step
    then replace_of_any decode (order steps) param val steps
    else replace_of_step decode step param val steps

-- `checkParams`.
unfoldable pub check_params : Decode → (Steps → Steps) → List (Text × Value) → Steps → Outcome Steps
unfolding replace_run_param
check_params decode order [] steps = ok steps
check_params decode order ((name, val) ∷ params) steps =
    on_ok (replace_run_param decode order name val steps) (check_params decode order params)
