-- ===== src/Pipeline/Params/Scope.antt =====
-- What the references of a parameter may name (pkg/pipeline/common.go).
use paddle_flow.Prelude.{
  All, Bool-cases, List, Option, Text, [], ap, if◌then◌else◌, inl, inr, lookup, none, refl, some,
  suc, text_empty, true, zero, ℕ, ◌||◌, ◌∷◌, ◌≡◌,
}
use paddle_flow.Schema.Workflow.{Value, WorkflowSourceStep, get_deps, text}
use paddle_flow.Pipeline.Template.{Ref, find_refs, parse_param_name}
use paddle_flow.Pipeline.Params.{
  Check, Field, Outcome, Solver, check_param_value, failed, field_command, field_env,
  field_input_artifacts, field_output_artifacts, field_parameters, invalid_reference, ok, on_ok,
  or_else_text, or_unsupported, out_of_fuel, own_artifact, own_param, own_reference, panics,
  ref_param_exist, refer_to, referred_value, resolve_one, resolve_ref_param, resolve_refs, sprint,
  strings_contain, unsupported_sys_param, check_with,
}
use paddle_flow.Pipeline.Params.Ending.{strings_contain→In}
use paddle_flow.Pipeline.Params.Sight.{
  OwnScope, system, own, artifact, UpstreamScope, IsInScope, sees_own, sees_upstream, is_given,
}

pub on_ok-ok {ℓ κ} :
    {A : Type ℓ} {B : Type κ} (a : Outcome A) (f : A → Outcome B) (b : B)
    → on_ok a f ≡ ok b
    → (x : A) × (a ≡ ok x) × (f x ≡ ok b)
on_ok-ok (ok a) f b h = (a, refl, h)
on_ok-ok (failed e) f b h = cc
on_ok-ok panics f b h = cc
on_ok-ok out_of_fuel f b h = cc

or_unsupported-ok : (o : Option Text) (t : Text) → or_unsupported o ≡ ok t → is_given o ≡ true
or_unsupported-ok none t h = cc
or_unsupported-ok (some a) t h = refl

or_else_text-given :
    (a b : Option Text) → is_given (or_else_text a b) ≡ true → (is_given a || is_given b) ≡ true
or_else_text-given none b h = h
or_else_text-given (some a) b h = refl

module _ (s : Solver) (step name : Text) where
  own_param-OwnScope :
      (st : WorkflowSourceStep) (field : Field) (t : Text)
      → lookup step s.steps ≡ some st
      → sees_own field ≡ true
      → own_param st name field ≡ ok t
      → OwnScope s step name field
  unfolding own_param own_artifact
  own_param-OwnScope st field t e sees h = at_param (lookup name st.parameters) refl h
    where
      at_artifact : (f : Field) → own_artifact st name f ≡ ok t → OwnScope s step name f
      at_artifact field_command q = artifact st e refl (
          or_else_text-given (lookup name st.artifacts.input) (lookup name st.artifacts.output) (
            or_unsupported-ok
              (or_else_text (lookup name st.artifacts.input) (lookup name st.artifacts.output)) t
              q))
      at_artifact field_parameters q = cc
      at_artifact field_env q = cc
      at_artifact field_input_artifacts q = cc
      at_artifact field_output_artifacts q = cc

      at_param :
          (o : Option Value)
          → lookup name st.parameters ≡ o
          → elim o [ none ↦ own_artifact st name field | some v ↦ ok (sprint v) ] ≡ ok t
          → OwnScope s step name field
      at_param none q r = at_artifact field r
      at_param (some v) q r = own st e sees (ap is_given q)

  own_reference-OwnScope :
      (field : Field) (t : Text)
      → own_reference s step name field ≡ ok t
      → OwnScope s step name field
  unfolding own_reference
  own_reference-OwnScope field t h = at_sys (lookup name s.sys_params) refl field h
    where
      at_step :
          (f : Field) (o : Option WorkflowSourceStep)
          → sees_own f ≡ true
          → lookup step s.steps ≡ o
          → elim o [ none ↦ panics | some st ↦ own_param st name f ] ≡ ok t
          → OwnScope s step name f
      at_step f none sees q r = cc
      at_step f (some st) sees q r = own_param-OwnScope st f t q sees r

      at_field :
          (f : Field)
          → elim f [
            | field_parameters ↦ failed unsupported_sys_param
            | g ↦ elim (lookup step s.steps) [ none ↦ panics | some st ↦ own_param st name g ]
          ]
            ≡ ok t
          → OwnScope s step name f
      at_field field_parameters r = cc
      at_field field_command r = at_step field_command _ refl refl r
      at_field field_env r = at_step field_env _ refl refl r
      at_field field_input_artifacts r = at_step field_input_artifacts _ refl refl r
      at_field field_output_artifacts r = at_step field_output_artifacts _ refl refl r

      at_sys :
          (o : Option Text)
          → lookup name s.sys_params ≡ o
          → (f : Field)
          → elim o [
            | some v ↦ ok v
            | none ↦ elim f [
              | field_parameters ↦ failed unsupported_sys_param
              | g ↦ elim (lookup step s.steps) [ none ↦ panics | some st ↦ own_param st name g ]
            ]
          ]
            ≡ ok t
          → OwnScope s step name f
      at_sys (some v) q f r = system (ap is_given q)
      at_sys none q f r = at_field f r

  module _ (go : Check) (ref : Text) where
    refer_to-given :
        (field : Field) (v : Value)
        → refer_to go s ref name field ≡ ok v
        → (target : WorkflowSourceStep) × (lookup ref s.steps ≡ some target)
          × (is_given (referred_value target name field) ≡ true)
    unfolding refer_to
    refer_to-given field v h = at_step (lookup ref s.steps) refl h
      where
        found :
            (o : Option Value)
            → elim o [ none ↦ failed invalid_reference | some w ↦ go ref w field ] ≡ ok v
            → is_given o ≡ true
        found none q = cc
        found (some w) q = refl

        at_step :
            (o : Option WorkflowSourceStep)
            → lookup ref s.steps ≡ o
            → elim o [
              | none ↦ panics
              | some st ↦ elim (referred_value st name field) [
                | none ↦ failed invalid_reference
                | some w ↦ go ref w field
              ]
            ]
              ≡ ok v
            → (target : WorkflowSourceStep) × (lookup ref s.steps ≡ some target)
              × (is_given (referred_value target name field) ≡ true)
        at_step none q r = cc
        at_step (some st) q r = (st, q, found (referred_value st name field) r)

    ref_param_exist-UpstreamScope :
        (field : Field) (v : Value)
        → ref_param_exist go s step ref name field ≡ ok v
        → UpstreamScope s step ref name field
    unfolding ref_param_exist
    ref_param_exist-UpstreamScope field v h = at_field field h
      where
        at_step :
            (f : Field) (o : Option WorkflowSourceStep)
            → sees_upstream f ≡ true
            → lookup step s.steps ≡ o
            → elim o [
              | none ↦ failed invalid_reference
              | some st ↦
                  if strings_contain (get_deps st) ref
                  then refer_to go s ref name f
                  else failed invalid_reference
            ]
              ≡ ok v
            → UpstreamScope s step ref name f
        at_step f none sees q r = cc
        at_step f (some st) sees q r = elim (Bool-cases (strings_contain (get_deps st) ref)) [
          | inl c ↦
              let (target, there, given) = refer_to-given f v (rw c at r) in
              record {
                current = st;
                target = target;
                here = q;
                waits = strings_contain→In (get_deps st) ref c;
                there = there;
                allowed = sees;
                given = given;
              }
          | inr c ↦ absurd (refused (rw c at r))
        ]
          where
            refused : failed invalid_reference ≡ ok v → ⊥
            refused q = cc

        at_field :
            (f : Field)
            → ref_param_exist go s step ref name f ≡ ok v
            → UpstreamScope s step ref name f
        at_field field_output_artifacts r = cc
        at_field field_parameters r = at_step field_parameters _ refl refl r
        at_field field_command r = at_step field_command _ refl refl r
        at_field field_env r = at_step field_env _ refl refl r
        at_field field_input_artifacts r = at_step field_input_artifacts _ refl refl r

module _ (go : Check) (s : Solver) (step : Text) (field : Field) where
  resolve_one-IsInScope :
      (r : Ref) (t : Text) → resolve_one go s step r.name field ≡ ok t → IsInScope s step field r
  unfolding resolve_one
  resolve_one-IsInScope r t h = elim (Bool-cases (text_empty (parse_param_name r.name).0)) [
    | inl e ↦ inl (e, own_reference-OwnScope s step _ field t (rw e at h))
    | inr e ↦
        let (v, q, _) = on_ok-ok (ref_param_exist go s step _ _ field) _ t (rw e at h) in
        inr (e, ref_param_exist-UpstreamScope s step _ go _ field v q)
  ]

  resolve_refs-IsInScope :
      (refs : List Ref) (result : Text) (v : Value)
      → resolve_refs go s step field refs result ≡ ok v
      → All (IsInScope s step field) refs
  unfolding resolve_refs
  resolve_refs-IsInScope [] result v h = tt
  resolve_refs-IsInScope (r ∷ refs) result v h =
      let (t, q, h') = on_ok-ok (resolve_one go s step r.name field) _ v h in
      (resolve_one-IsInScope r t q, resolve_refs-IsInScope refs _ v h')

-- When a text is accepted as a value of a field, each reference in it that names no step names a
-- parameter of the system, or outside of parameters one of the step, or in a command also an
-- artifact of the step; and each that names a step names one that this step waits for, never in an
-- output artifact, and there an output artifact if it stands in an input artifact, else a parameter.
pub check_param_value-IsInScope :
    (fuel : ℕ) (s : Solver) (step t : Text) (field : Field) (v : Value)
    → check_param_value fuel s step (text t) field ≡ ok v
    → All (IsInScope s step field) (find_refs 0 t)
unfolding check_param_value check_with resolve_ref_param
check_param_value-IsInScope zero s step t field v h = absurd (stuck h)
  where
    stuck : out_of_fuel ≡ ok v → ⊥
    stuck q = cc
check_param_value-IsInScope (suc fuel) s step t field v h =
    resolve_refs-IsInScope (check_param_value fuel s) s step field (find_refs 0 t) t v h
