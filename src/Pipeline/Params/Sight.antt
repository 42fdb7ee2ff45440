-- ===== src/Pipeline/Params/Sight.antt =====
-- What a reference in a field may name.
use paddle_flow.Prelude.{
  Bool, In, Option, Text, false, lookup, none, some, text_empty, true, ◌||◌, ◌≡◌, ◌⊎◌,
}
use paddle_flow.Schema.Workflow.{WorkflowSourceStep, get_deps}
use paddle_flow.Pipeline.Template.{Ref, parse_param_name}
use paddle_flow.Pipeline.Params.{
  Field, Solver, field_command, field_output_artifacts, field_parameters, referred_value,
}

-- The fields whose references may name a parameter of the step itself.
abbrev pub sees_own : Field → Bool
sees_own field_parameters = false
sees_own _ = true

abbrev pub sees_upstream : Field → Bool
sees_upstream field_output_artifacts = false
sees_upstream _ = true

abbrev pub is_command : Field → Bool
is_command field_command = true
is_command _ = false

abbrev pub is_given {ℓ} : {A : Type ℓ} → Option A → Bool
is_given none = false
is_given (some a) = true

-- A reference without a step names a parameter of the system, or one of the step, or in a command
-- also an artifact of the step.
pub data OwnScope (s : Solver) (step name : Text) (field : Field) : Type 0 where
  system : is_given (lookup name s.sys_params) ≡ true → OwnScope s step name field
  own :
      (st : WorkflowSourceStep)
      → lookup step s.steps ≡ some st
      → sees_own field ≡ true
      → is_given (lookup name st.parameters) ≡ true
      → OwnScope s step name field
  artifact :
      (st : WorkflowSourceStep)
      → lookup step s.steps ≡ some st
      → is_command field ≡ true
      → (is_given (lookup name st.artifacts.input) || is_given (lookup name st.artifacts.output))
        ≡ true
      → OwnScope s step name field

-- A reference with a step names a step that this one waits for, and there an output artifact if it
-- stands in an input artifact, and else a parameter.
pub record UpstreamScope (s : Solver) (step ref name : Text) (field : Field) : Type 0 where
  pub current : WorkflowSourceStep
  pub target : WorkflowSourceStep
  pub here : lookup step s.steps ≡ some current
  pub waits : In ref (get_deps current)
  pub there : lookup ref s.steps ≡ some target
  pub allowed : sees_upstream field ≡ true
  pub given : is_given (referred_value target name field) ≡ true

abbrev pub IsInScope : Solver → Text → Field → Ref → Type 0
IsInScope s step field r =
    let (ref, name) = parse_param_name r.name in
    (text_empty ref ≡ true) × OwnScope s step name field
    ⊎ (text_empty ref ≡ false) × UpstreamScope s step ref name field
