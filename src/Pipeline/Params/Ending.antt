-- ===== src/Pipeline/Params/Ending.antt =====
-- A check of a parameter ends if the checks that it calls do (pkg/pipeline/common.go).
use paddle_flow.Prelude.{
  Bool, Bool-cases, In, List, Option, Text, [], codes, false, has, has_of_none, if◌then◌else◌, inl,
  inr, lookup, none, not, refl, some, sym, text_empty, text_eq, text_eq→eq, true, ◌&&◌, ◌∙◌, ◌∷◌,
  ◌≡◌, ◌⊎◌,
}
use mathlib.Core.Bool.{false≢true}
use paddle_flow.Schema.Workflow.{
  Value, WorkflowSourceStep, absent, bool, dict, float32, float64, int, int32, int64, text,
  get_deps,
}
use paddle_flow.Pipeline.Topology.{Steps}
use paddle_flow.Pipeline.Template.{Ref, find_refs}
use paddle_flow.Pipeline.Params.{
  DictParam, check_typed, check_text, check_number, check_path, value_is_none, or_unsupported,
  all_word, is_path, invalid_path, invalid_value, unsupported_type, invalid_dict,
  unsupported_sys_param, Check, Field, Outcome, Solver, check_dict_param, check_with, failed,
  invalid_reference, field_command, field_env, field_input_artifacts, field_output_artifacts,
  field_parameters, ok, on_ok, out_of_fuel, own_artifact, own_param, own_reference, panics,
  ref_param_exist, refer_to, referred_value, resolve_one, resolve_ref_param, resolve_refs, sprint,
  strings_contain, DictParam, check_number, check_path, check_text, check_typed, or_unsupported,
}

-- The call ends: with a value, with an error, or by a panic if that may be.
abbrev pub has_ended {ℓ} : {A : Type ℓ} → Bool → Outcome A → Bool
has_ended may_panic out_of_fuel = false
has_ended may_panic panics = may_panic
has_ended may_panic _ = true

pub record EndedWith {ℓ} {A : Type ℓ} (may_panic : Bool) (a : Outcome A) : Type 0 where
  pub ends : has_ended may_panic a ≡ true

abbrev pub Ended {ℓ} : {A : Type ℓ} → Outcome A → Type 0
Ended a = EndedWith true a

-- A name of which a nil step may be read: a panic may be, or the step is there.
abbrev pub Safe : Bool → Steps → Text → Type 0
Safe may_panic steps name = (may_panic ≡ true) ⊎ (has name steps ≡ true)

-- `go` ends on every step that the step waits for.
abbrev pub EndsOnDeps : Bool → Check → Steps → Text → Type 0
EndsOnDeps may_panic go steps step =
    (st : WorkflowSourceStep) (dep : Text)
    → lookup step steps ≡ some st
    → In dep (get_deps st)
    → Safe may_panic steps dep
      × ((v : Value) (field : Field) → EndedWith may_panic (go dep v field))

pub strings_contain→In :
    (items : List Text) (x : Text) → strings_contain items x ≡ true → In x items
unfolding strings_contain
strings_contain→In [] x e = absurd (false≢true e)
strings_contain→In (y ∷ items) x e = elim (Bool-cases (text_eq y x)) [
  | inl q ↦ inl (text_eq→eq y x q)
  | inr q ↦ inr (strings_contain→In items x (rw q at e))
]

module _ {p : Bool} where
  pub panics-Ended {ℓ} :
      {A : Type ℓ} (steps : Steps) (name : Text)
      → Safe p steps name
      → lookup name steps ≡ none
      → EndedWith {A = A} p panics
  panics-Ended steps name (inl may) e = record { ends = may }
  panics-Ended steps name (inr there) e =
      absurd (false≢true (sym (has_of_none name steps e) ∙ there))

  on_ok-Ended {ℓ κ} :
      {A : Type ℓ} {B : Type κ} (a : Outcome A) (f : A → Outcome B)
      → EndedWith p a
      → ((x : A) → EndedWith p (f x))
      → EndedWith p (on_ok a f)
  on_ok-Ended (ok a) f e h = h a
  on_ok-Ended (failed _) f e h = record { ends = refl }
  on_ok-Ended panics f e h = record { ends = e.ends }
  on_ok-Ended out_of_fuel f e h = absurd (false≢true e.ends)

  pub if-Ended {ℓ} :
      {A : Type ℓ} (c : Bool) (a b : Outcome A)
      → EndedWith p a
      → EndedWith p b
      → EndedWith p (if c then a else b)
  if-Ended true a b e f = e
  if-Ended false a b e f = f

  check_typed-Ended : (type : Text) (v : Value) → EndedWith p (check_typed type v)
  check_typed-Ended type v = if-Ended (text_eq type (codes "string")) (check_text v) _ (as_text v) (
      if-Ended (text_eq type (codes "float")) (check_number v) _ (as_number v) (
        if-Ended (text_eq type (codes "path")) (check_path v) (failed unsupported_type) (as_path v)
          (record { ends = refl })))
    where
      as_text : (v : Value) → EndedWith p (check_text v)
      as_text (text t) = record { ends = refl }
      as_text _ = record { ends = refl }

      as_number : (v : Value) → EndedWith p (check_number v)
      as_number (float32 t) = record { ends = refl }
      as_number (float64 t) = record { ends = refl }
      as_number (int32 t) = record { ends = refl }
      as_number (int64 t) = record { ends = refl }
      as_number (int t) = record { ends = refl }
      as_number _ = record { ends = refl }

      as_path : (v : Value) → EndedWith p (check_path v)
      as_path (text t) =
          if-Ended (not (text_empty t) && all_word is_path t) (ok (text t)) (failed invalid_path)
            (record { ends = refl }) (record { ends = refl })
      as_path _ = record { ends = refl }

  check_dict_param-Ended : (d : DictParam) (v : Value) → EndedWith p (check_dict_param d v)
  unfolding check_dict_param
  check_dict_param-Ended d v =
      if-Ended (text_empty d.type) (failed unsupported_type) _ (record { ends = refl })
        (if-Ended (value_is_none v)
          (if value_is_none d.default then failed invalid_value else check_typed d.type d.default)
          (check_typed d.type v)
          (if-Ended (value_is_none d.default) (failed invalid_value) (check_typed d.type d.default)
            (record { ends = refl }) (check_typed-Ended d.type d.default))
          (check_typed-Ended d.type v))

  own_param-Ended :
      (st : WorkflowSourceStep) (name : Text) (field : Field)
      → EndedWith p (own_param st name field)
  unfolding own_param own_artifact
  own_param-Ended st name field = at_param (lookup name st.parameters)
    where
      ended : (o : Option Text) → EndedWith p (or_unsupported o)
      ended none = record { ends = refl }
      ended (some t) = record { ends = refl }

      at_artifact : (f : Field) → EndedWith p (own_artifact st name f)
      at_artifact field_command = ended _
      at_artifact field_parameters = record { ends = refl }
      at_artifact field_env = record { ends = refl }
      at_artifact field_input_artifacts = record { ends = refl }
      at_artifact field_output_artifacts = record { ends = refl }

      at_param :
          (o : Option Value)
          → EndedWith p (elim o [ none ↦ own_artifact st name field | some v ↦ ok (sprint v) ])
      at_param none = at_artifact field
      at_param (some v) = record { ends = refl }

  own_reference-Ended :
      (s : Solver) (step name : Text) (field : Field)
      → Safe p s.steps step
      → EndedWith p (own_reference s step name field)
  unfolding own_reference
  own_reference-Ended s step name field safe = at_sys (lookup name s.sys_params)
    where
      at_step :
          (f : Field) (o : Option WorkflowSourceStep)
          → lookup step s.steps ≡ o
          → EndedWith p (elim o [ none ↦ panics | some st ↦ own_param st name f ])
      at_step f none e = panics-Ended s.steps step safe e
      at_step f (some st) e = own_param-Ended st name f

      at_field :
          (f : Field)
          → EndedWith p (elim f [
            | field_parameters ↦ failed unsupported_sys_param
            | g ↦ elim (lookup step s.steps) [ none ↦ panics | some st ↦ own_param st name g ]
          ])
      at_field field_parameters = record { ends = refl }
      at_field field_command = at_step field_command _ refl
      at_field field_env = at_step field_env _ refl
      at_field field_input_artifacts = at_step field_input_artifacts _ refl
      at_field field_output_artifacts = at_step field_output_artifacts _ refl

      at_sys :
          (o : Option Text)
          → EndedWith p (elim o [
            | some v ↦ ok v
            | none ↦ elim field [
              | field_parameters ↦ failed unsupported_sys_param
              | g ↦ elim (lookup step s.steps) [ none ↦ panics | some st ↦ own_param st name g ]
            ]
          ])
      at_sys none = at_field field
      at_sys (some v) = record { ends = refl }

  module _ (go : Check) (s : Solver) (step : Text) (safe : Safe p s.steps step)
      (ends : EndsOnDeps p go s.steps step) where
    refer_to-Ended :
        (ref name : Text) (field : Field)
        → Safe p s.steps ref
        → ((v : Value) (f : Field) → EndedWith p (go ref v f))
        → EndedWith p (refer_to go s ref name field)
    unfolding refer_to
    refer_to-Ended ref name field there h = at_step (lookup ref s.steps) refl
      where
        found :
            (o : Option Value)
            → EndedWith p (elim o [ none ↦ failed invalid_reference | some v ↦ go ref v field ])
        found none = record { ends = refl }
        found (some v) = h v field

        at_step :
            (o : Option WorkflowSourceStep)
            → lookup ref s.steps ≡ o
            → EndedWith p (elim o [
              | none ↦ panics
              | some st ↦ elim (referred_value st name field) [
                | none ↦ failed invalid_reference
                | some v ↦ go ref v field
              ]
            ])
        at_step none e = panics-Ended s.steps ref there e
        at_step (some st) e = found (referred_value st name field)

    ref_param_exist-Ended :
        (ref name : Text) (field : Field) → EndedWith p (ref_param_exist go s step ref name field)
    unfolding ref_param_exist
    ref_param_exist-Ended ref name field = at_field field
      where
        looked_up :
            (f : Field) (o : Option WorkflowSourceStep)
            → lookup step s.steps ≡ o
            → EndedWith p (elim o [
              | none ↦ failed invalid_reference
              | some st ↦
                  if strings_contain (get_deps st) ref
                  then refer_to go s ref name f
                  else failed invalid_reference
            ])
        looked_up f none e = record { ends = refl }
        looked_up f (some st) e = elim (Bool-cases (strings_contain (get_deps st) ref)) [
          | inl c ↦
              let (there, h) = ends st ref e (strings_contain→In (get_deps st) ref c) in
              rw c (refer_to-Ended ref name f there h)
          | inr c ↦ rw c (record { ends = refl })
        ]

        at_field : (f : Field) → EndedWith p (ref_param_exist go s step ref name f)
        at_field field_output_artifacts = record { ends = refl }
        at_field field_parameters = looked_up field_parameters (lookup step s.steps) refl
        at_field field_command = looked_up field_command (lookup step s.steps) refl
        at_field field_env = looked_up field_env (lookup step s.steps) refl
        at_field field_input_artifacts = looked_up field_input_artifacts (lookup step s.steps) refl

    resolve_one-Ended :
        (name : Text) (field : Field) → EndedWith p (resolve_one go s step name field)
    unfolding resolve_one
    resolve_one-Ended name field =
        if-Ended _ _ _ (own_reference-Ended s step _ field safe)
          (on_ok-Ended _ _ (ref_param_exist-Ended _ _ field) (λ v. record { ends = refl }))

    resolve_refs-Ended :
        (field : Field) (refs : List Ref) (result : Text)
        → EndedWith p (resolve_refs go s step field refs result)
    unfolding resolve_refs
    resolve_refs-Ended field [] result = record { ends = refl }
    resolve_refs-Ended field (r ∷ refs) result =
        on_ok-Ended _ _ (resolve_one-Ended r.name field) (λ v. resolve_refs-Ended field refs _)

    pub check_with-Ended : (v : Value) (field : Field) → EndedWith p (check_with go s step v field)
    unfolding check_with resolve_ref_param
    check_with-Ended (float32 t) field = record { ends = refl }
    check_with-Ended (float64 t) field = record { ends = refl }
    check_with-Ended (int t) field = record { ends = refl }
    check_with-Ended (text t) field = resolve_refs-Ended field (find_refs 0 t) t
    check_with-Ended (dict t) field = at_dict (s.decode t)
      where
        at_dict :
            (o : Option DictParam)
            → EndedWith p
                (elim o [ none ↦ failed invalid_dict | some d ↦ check_dict_param d absent ])
        at_dict none = record { ends = refl }
        at_dict (some d) = check_dict_param-Ended d absent
    check_with-Ended absent field = record { ends = refl }
    check_with-Ended (int32 t) field = record { ends = refl }
    check_with-Ended (int64 t) field = record { ends = refl }
    check_with-Ended (bool b) field = record { ends = refl }
