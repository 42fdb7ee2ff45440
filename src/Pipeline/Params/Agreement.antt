-- ===== src/Pipeline/Params/Agreement.antt =====
-- Checking a parameter and replacing its references agree (pkg/pipeline/common.go).
use paddle_flow.Prelude.{
  Bool, Bool-cases, List, Option, Text, [], false, if◌then◌else◌, inl, inr, lookup, none, refl,
  some, suc, text_empty, true, zero, ℕ, ◌∷◌, ◌≡◌,
}
use paddle_flow.Schema.Workflow.{
  Value, WorkflowSourceStep, absent, bool, dict, float32, float64, int, int32, int64, text,
  get_deps,
}
use paddle_flow.Pipeline.Template.{Ref, find_refs, parse_param_name}
use paddle_flow.Pipeline.Params.{
  Check, Field, Outcome, Solver, check_param_value, check_with, failed, invalid_reference,
  field_command, field_env, field_input_artifacts, field_output_artifacts, field_parameters, ok,
  on_ok, out_of_fuel, own_reference, panics, ref_param_exist, refer_to, referred_value, resolve_one,
  resolve_ref_param, resolve_refs, strings_contain,
}

-- Both succeed, or both fail in the same way.
abbrev pub Agree {ℓ} : {A : Type ℓ} → Outcome A → Outcome A → Type 0
Agree (ok a) (ok b) = Unit
Agree (failed e) (failed f) = e ≡ f
Agree panics panics = Unit
Agree out_of_fuel out_of_fuel = Unit
Agree _ _ = ⊥

pub Agree-refl {ℓ} : {A : Type ℓ} (a : Outcome A) → Agree a a
Agree-refl (ok a) = tt
Agree-refl (failed e) = refl
Agree-refl panics = tt
Agree-refl out_of_fuel = tt

pub on_ok-Agree {ℓ κ} :
    {A : Type ℓ} {B : Type κ} (a b : Outcome A) (f g : A → Outcome B)
    → Agree a b
    → ((x y : A) → Agree (f x) (g y))
    → Agree (on_ok a f) (on_ok b g)
on_ok-Agree (ok a) (ok b) f g e h = h a b
on_ok-Agree (failed e) (failed e') f g q h = q
on_ok-Agree panics panics f g e h = tt
on_ok-Agree out_of_fuel out_of_fuel f g e h = tt
on_ok-Agree (ok a) (failed _) f g e h = absurd e
on_ok-Agree (ok a) panics f g e h = absurd e
on_ok-Agree (ok a) out_of_fuel f g e h = absurd e
on_ok-Agree (failed _) (ok b) f g e h = absurd e
on_ok-Agree (failed _) panics f g e h = absurd e
on_ok-Agree (failed _) out_of_fuel f g e h = absurd e
on_ok-Agree panics (ok b) f g e h = absurd e
on_ok-Agree panics (failed _) f g e h = absurd e
on_ok-Agree panics out_of_fuel f g e h = absurd e
on_ok-Agree out_of_fuel (ok b) f g e h = absurd e
on_ok-Agree out_of_fuel (failed _) f g e h = absurd e
on_ok-Agree out_of_fuel panics f g e h = absurd e

-- The solver with `needReplace` as given.
abbrev pub replacing : Solver → Bool → Solver
replacing s b = record s { need_replace = b }

-- Two checks that agree on every argument.
abbrev AgreeOnAll : Check → Check → Type 0
AgreeOnAll go go' =
    (step : Text) (v : Value) (field : Field) → Agree (go step v field) (go' step v field)

module _ (go go' : Check) (same : AgreeOnAll go go') (s : Solver) (b c : Bool) where
  refer_to-Agree :
      (ref name : Text) (field : Field)
      → Agree
          (refer_to go (replacing s b) ref name field)
          (refer_to go' (replacing s c) ref name field)
  unfolding refer_to
  refer_to-Agree ref name field = at_step (lookup ref s.steps)
    where
      refer : Check → Option Value → Outcome Value
      refer check o = elim o [ none ↦ failed invalid_reference | some v ↦ check ref v field ]

      found : (o : Option Value) → Agree (refer go o) (refer go' o)
      found none = refl
      found (some v) = same ref v field

      at_step :
          (o : Option WorkflowSourceStep)
          → Agree
              (elim o [ none ↦ panics | some st ↦ refer go (referred_value st name field) ])
              (elim o [ none ↦ panics | some st ↦ refer go' (referred_value st name field) ])
      at_step none = tt
      at_step (some st) = found (referred_value st name field)

  ref_param_exist-Agree :
      (step ref name : Text) (field : Field)
      → Agree
          (ref_param_exist go (replacing s b) step ref name field)
          (ref_param_exist go' (replacing s c) step ref name field)
  unfolding ref_param_exist
  ref_param_exist-Agree step ref name field = go_field field
    where
      looked_up :
          (f : Field) (o : Option WorkflowSourceStep)
          → Agree
              (elim o [
                | none ↦ failed invalid_reference
                | some st ↦
                    if strings_contain (get_deps st) ref
                    then refer_to go (replacing s b) ref name f
                    else failed invalid_reference
              ])
              (elim o [
                | none ↦ failed invalid_reference
                | some st ↦
                    if strings_contain (get_deps st) ref
                    then refer_to go' (replacing s c) ref name f
                    else failed invalid_reference
              ])
      looked_up f none = refl
      looked_up f (some st) = elim (Bool-cases (strings_contain (get_deps st) ref)) [
        | inl e ↦ rw e (refer_to-Agree ref name f)
        | inr e ↦ rw (e, Agree) refl
      ]

      go_field :
          (f : Field)
          → Agree
              (ref_param_exist go (replacing s b) step ref name f)
              (ref_param_exist go' (replacing s c) step ref name f)
      go_field field_output_artifacts = refl
      go_field field_parameters = looked_up field_parameters (lookup step s.steps)
      go_field field_command = looked_up field_command (lookup step s.steps)
      go_field field_env = looked_up field_env (lookup step s.steps)
      go_field field_input_artifacts = looked_up field_input_artifacts (lookup step s.steps)

  resolve_one-Agree :
      (step name : Text) (field : Field)
      → Agree
          (resolve_one go (replacing s b) step name field)
          (resolve_one go' (replacing s c) step name field)
  unfolding resolve_one own_reference
  resolve_one-Agree step name field =
      let (ref, param) = parse_param_name name in
      elim (Bool-cases (text_empty (parse_param_name name).0)) [
        | inl e ↦ rw e (Agree-refl _)
        | inr e ↦ rw e (on_ok-Agree _ _ _ _ (ref_param_exist-Agree step _ _ field) (λ x y. tt))
      ]

  resolve_refs-Agree :
      (step : Text) (field : Field) (refs : List Ref) (result result' : Text)
      → Agree
          (resolve_refs go (replacing s b) step field refs result)
          (resolve_refs go' (replacing s c) step field refs result')
  unfolding resolve_refs
  resolve_refs-Agree step field [] result result' = tt
  resolve_refs-Agree step field (r ∷ refs) result result' =
      on_ok-Agree _ _ _ _ (resolve_one-Agree step r.name field)
        (λ x y. resolve_refs-Agree step field refs _ _)

  check_with-Agree :
      (step : Text) (v : Value) (field : Field)
      → Agree
          (check_with go (replacing s b) step v field)
          (check_with go' (replacing s c) step v field)
  unfolding check_with resolve_ref_param
  check_with-Agree step (float32 t) field = tt
  check_with-Agree step (float64 t) field = tt
  check_with-Agree step (int t) field = tt
  check_with-Agree step (text t) field = resolve_refs-Agree step field (find_refs 0 t) t t
  check_with-Agree step (dict t) field = Agree-refl _
  check_with-Agree step absent field = refl
  check_with-Agree step (int32 t) field = refl
  check_with-Agree step (int64 t) field = refl
  check_with-Agree step (bool b) field = refl

-- A parameter that is only checked, as `checkSteps` does, and one whose references are replaced, as
-- for a job, succeed together or fail in the same way.
pub check_param_value-Agree :
    (fuel : ℕ) (s : Solver) (step : Text) (v : Value) (field : Field)
    → Agree
        (check_param_value fuel (replacing s false) step v field)
        (check_param_value fuel (replacing s true) step v field)
unfolding check_param_value
check_param_value-Agree zero s step v field = tt
check_param_value-Agree (suc fuel) s step v field =
    check_with-Agree (check_param_value fuel (replacing s false))
      (check_param_value fuel (replacing s true)) (check_param_value-Agree fuel s) s false true step
      v field
