-- ===== src/Pipeline/Params.antt =====
-- pkg/pipeline/common.go: `StepParamSolver`, which checks and resolves the parameters of a step.
pub mod Agreement
pub mod Ending
pub mod Sight
pub mod Scope
pub mod Scheduled
use paddle_flow.Prelude.{
  Bool, List, Option, Text, [], codes, false, if◌then◌else◌, lookup, none, not, some, suc,
  text_empty, text_eq, true, zero, ℕ, ◌&&◌, ◌==◌, ◌||◌, ◌∷◌,
}
use paddle_flow.Schema.Workflow.{
  Artifacts, Value, WorkflowSourceStep, get_deps, absent, bool, dict, float32, float64, int, int32,
  int64, text,
}
use paddle_flow.Pipeline.Topology.{Steps}
use paddle_flow.Pipeline.Template.{Ref, find_refs, is_word, parse_param_name, replace_all}

-- The errors of this file, and of the mapping library.
pub data ParamError : Type 0 where
  bad_name unsupported_sys_param unsupported_ref_param output_artifact_ref invalid_reference
        invalid_dict unsupported_type invalid_type invalid_value invalid_path invalid_job
        unknown_step unknown_param cyclic_steps :
      ParamError

-- What a call gives: a value, an error, a panic on a nil step, or no answer within the fuel.
pub data Outcome {ℓ} (A : Type ℓ) : Type ℓ where
  ok : A → Outcome A
  failed : ParamError → Outcome A
  panics : Outcome A
  out_of_fuel : Outcome A

abbrev pub on_ok {ℓ κ} : {A : Type ℓ} {B : Type κ} → Outcome A → (A → Outcome B) → Outcome B
on_ok (ok a) f = f a
on_ok (failed e) f = failed e
on_ok panics f = panics
on_ok out_of_fuel f = out_of_fuel

-- The field in which a reference stands.
pub data Field : Type 0 where
  field_parameters field_command field_env field_input_artifacts field_output_artifacts : Field

-- `DictParam`; mapstructure decodes one from a map, by the parameter `decode`.
pub record DictParam : Type 0 where
  pub type : Text
  pub default : Value

abbrev pub value_is_none : Value → Bool
value_is_none absent = true
value_is_none (text t) = text_empty t
value_is_none _ = false

abbrev pub all_word : (ℕ → Bool) → Text → Bool
all_word p [] = true
all_word p (c ∷ s) = p c && all_word p s

-- [a-zA-Z0-9/_-]
abbrev pub is_path : ℕ → Bool
is_path c = is_word c || (c == 47 || c == 45)

abbrev pub check_text : Value → Outcome Value
check_text (text t) = ok (text t)
check_text _ = failed invalid_type

abbrev pub check_number : Value → Outcome Value
check_number (float32 t) = ok (float32 t)
check_number (float64 t) = ok (float64 t)
check_number (int32 t) = ok (int32 t)
check_number (int64 t) = ok (int64 t)
check_number (int t) = ok (int t)
check_number _ = failed invalid_type

abbrev pub check_path : Value → Outcome Value
check_path (text t) =
    if not (text_empty t) && all_word is_path t then ok (text t) else failed invalid_path
check_path _ = failed invalid_type

abbrev pub check_typed : Text → Value → Outcome Value
check_typed type val =
    if text_eq type (codes "string")
    then check_text val
    else if text_eq type (codes "float")
    then check_number val
    else if text_eq type (codes "path")
    then check_path val
    else failed unsupported_type

unfoldable pub check_dict_param : DictParam → Value → Outcome Value
unfolding text_eq
check_dict_param d real =
    if text_empty d.type
    then failed unsupported_type
    else if value_is_none real
    then (if value_is_none d.default then failed invalid_value else check_typed d.type d.default)
    else check_typed d.type real

-- `checkName`.
unfoldable pub check_name : Text → Outcome Text
check_name name =
    if not (text_empty name) && all_word is_word name then ok name else failed bad_name

unfoldable pub strings_contain : List Text → Text → Bool
unfolding text_eq
strings_contain [] item = false
strings_contain (x ∷ items) item =
    let rest = strings_contain items item in if text_eq x item then true else rest

-- `StepParamSolver`, with the decoder of the mapping library.
pub record Solver : Type 0 where
  pub steps : Steps
  pub sys_params : List (Text × Text)
  pub need_replace : Bool
  pub decode : Text → Option DictParam

-- fmt.Sprintf("%v", v) of a value.
abbrev pub sprint : Value → Text
sprint absent = codes "<nil>"
sprint (text t) = t
sprint (int t) = t
sprint (int32 t) = t
sprint (int64 t) = t
sprint (float32 t) = t
sprint (float64 t) = t
sprint (bool true) = codes "true"
sprint (bool false) = codes "false"
sprint (dict t) = t

abbrev pub or_unsupported : Option Text → Outcome Text
or_unsupported none = failed unsupported_ref_param
or_unsupported (some t) = ok t

abbrev pub or_else_text : Option Text → Option Text → Option Text
or_else_text none b = b
or_else_text (some a) b = some a

-- A name that is no parameter of the step itself: only a command may name an artifact.
unfoldable pub own_artifact : WorkflowSourceStep → Text → Field → Outcome Text
unfolding lookup
own_artifact st name field_command =
    or_unsupported (or_else_text (lookup name st.artifacts.input) (lookup name st.artifacts.output))
own_artifact st name _ = failed unsupported_ref_param

unfoldable pub own_param : WorkflowSourceStep → Text → Field → Outcome Text
unfolding lookup own_artifact
own_param st name field = elim (lookup name st.parameters) [
  | none ↦ own_artifact st name field
  | some v ↦ ok (sprint v)
]

-- The branch of `resolveRefParam` for a reference that names no step.
unfoldable pub own_reference : Solver → Text → Text → Field → Outcome Text
unfolding lookup own_param
own_reference s step name field = elim (lookup name s.sys_params) [
  | some v ↦ ok v
  | none ↦ elim field [
    | field_parameters ↦ failed unsupported_sys_param
    | f ↦ elim (lookup step s.steps) [ none ↦ panics | some st ↦ own_param st name f ]
  ]
]

-- The value that a reference to a step finds there, before it is resolved itself.
unfoldable pub referred_value : WorkflowSourceStep → Text → Field → Option Value
unfolding lookup
referred_value ref name field_input_artifacts = elim (lookup name ref.artifacts.output) [
  | none ↦ none
  | some t ↦ some (text t)
]
referred_value ref name _ = lookup name ref.parameters

-- `checkParamValue` as the recursive call sees it: the step, the value and the field.
abbrev pub Check : Type 0
Check = Text → Value → Field → Outcome Value

unfoldable pub refer_to : Check → Solver → Text → Text → Field → Outcome Value
unfolding lookup referred_value
refer_to go s ref name field = elim (lookup ref s.steps) [
  | none ↦ panics
  | some st ↦ elim (referred_value st name field) [
    | none ↦ failed invalid_reference
    | some v ↦ go ref v field
  ]
]

unfoldable pub ref_param_exist : Check → Solver → Text → Text → Text → Field → Outcome Value
unfolding lookup refer_to strings_contain get_deps
ref_param_exist go s step ref name field_output_artifacts = failed output_artifact_ref
ref_param_exist go s step ref name field = elim (lookup step s.steps) [
  | none ↦ failed invalid_reference
  | some st ↦
      if strings_contain (get_deps st) ref
      then refer_to go s ref name field
      else failed invalid_reference
]

-- The text that one reference stands for.
unfoldable pub resolve_one : Check → Solver → Text → Text → Field → Outcome Text
unfolding parse_param_name own_reference ref_param_exist
resolve_one go s step name field =
    let (ref, param) = parse_param_name name in
    if text_empty ref
    then own_reference s step param field
    else on_ok (ref_param_exist go s step ref param field) (λ v. ok (sprint v))

-- The loop of `resolveRefParam`.
unfoldable pub resolve_refs : Check → Solver → Text → Field → List Ref → Text → Outcome Value
unfolding resolve_one replace_all
resolve_refs go s step field [] result = ok (text result)
resolve_refs go s step field (r ∷ refs) result = on_ok (resolve_one go s step r.name field) (λ val.
    resolve_refs go s step field refs
      (if s.need_replace then replace_all r.whole val 0 result else result))

unfoldable pub resolve_ref_param : Check → Solver → Text → Text → Field → Outcome Value
unfolding resolve_refs find_refs
resolve_ref_param go s step param field = resolve_refs go s step field (find_refs 0 param) param

unfoldable pub check_with : Check → Solver → Text → Value → Field → Outcome Value
unfolding resolve_ref_param check_dict_param
check_with go s step (float32 t) field = ok (float32 t)
check_with go s step (float64 t) field = ok (float64 t)
check_with go s step (int t) field = ok (int t)
check_with go s step (text t) field = resolve_ref_param go s step t field
check_with go s step (dict t) field = elim (s.decode t) [
  | none ↦ failed invalid_dict
  | some d ↦ check_dict_param d absent
]
check_with go s step _ field = failed unsupported_type

-- `checkParamValue`; the fuel bounds how far references lead from step to step.
unfoldable pub check_param_value : ℕ → Solver → Check
unfolding check_with
check_param_value zero s step v field = out_of_fuel
check_param_value (suc fuel) s step v field = check_with (check_param_value fuel s) s step v field
