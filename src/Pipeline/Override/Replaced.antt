-- ===== src/Pipeline/Override/Replaced.antt =====
-- Overriding changes parameters that the workflow has, and nothing else (pkg/pipeline/workflow.go).
use mathlib.Core.Bool.{true≢false}
use paddle_flow.Prelude.{
  Bool-cases, In, Option, Text, [], ap, false, if◌then◌else◌, inl, inr, insert, lookup,
  lookup-insert, none, refl, some, sym, text_empty, text_eq, ◌∙◌, ◌∷◌, ◌≡◌,
}
use paddle_flow.Schema.Workflow.{Value, WorkflowSourceStep}
use paddle_flow.Pipeline.Topology.{Steps}
use paddle_flow.Pipeline.Template.{parse_param_name}
use paddle_flow.Pipeline.Params.{
  DictParam, check_dict_param, failed, ok, on_ok, unknown_param, unknown_step,
}
use paddle_flow.Pipeline.Params.Scope.{on_ok-ok}
use paddle_flow.Pipeline.Override.{
  Decode, put_param, replace_of_any, replace_of_step, replace_run_param, suits,
}

-- A parameter that the named step has is given the value: the other parameters of the step, all
-- else of it, and the other steps are as before.
pub record Replaced (name param : Text) (val : Value) (steps steps' : Steps) : Type 0 where
  pub step : WorkflowSourceStep
  pub original : Value
  pub new : WorkflowSourceStep
  pub found : lookup name steps ≡ some step
  pub had : lookup param step.parameters ≡ some original
  pub now : (n : Text) → lookup n steps' ≡ (if text_eq name n then some new else lookup n steps)
  pub given :
      (p : Text)
      → lookup p new.parameters ≡ (if text_eq param p then some val else lookup p step.parameters)
  pub same_command : new.command ≡ step.command
  pub same_deps : new.deps ≡ step.deps
  pub same_artifacts : new.artifacts ≡ step.artifacts
  pub same_env : new.env ≡ step.env
  pub same_image : new.image ≡ step.image

-- An order in which a map is visited, which gives entries of the map only.
abbrev pub VisitsEntries : (Steps → Steps) → Type 0
VisitsEntries order =
    (steps : Steps) (name : Text) (st : WorkflowSourceStep)
    → In (name, st) (order steps)
    → lookup name steps ≡ some st

ok-inj {ℓ} : {A : Type ℓ} {a b : A} → ok a ≡ ok b → a ≡ b
ok-inj e = cc

suits-ok : (decode : Decode) (original val v : Value) → suits decode original val ≡ ok v → val ≡ v
unfolding suits
suits-ok decode original val v h = at_dict (decode original) h
  where
    at_dict :
        (o : Option DictParam)
        → elim o [ none ↦ ok val | some d ↦ on_ok (check_dict_param d val) (λ _. ok val) ] ≡ ok v
        → val ≡ v
    at_dict none q = ok-inj q
    at_dict (some d) q =
        let (_, _, r) = on_ok-ok (check_dict_param d val) (λ _. ok val) v q in ok-inj r

module _ (decode : Decode) (param : Text) (val : Value) (steps steps' : Steps) where
  at_param :
      (name : Text) (st : WorkflowSourceStep) (original : Value)
      → lookup name steps ≡ some st
      → lookup param st.parameters ≡ some original
      → on_ok (suits decode original val) (λ v. ok (put_param name st param v steps)) ≡ ok steps'
      → Replaced name param val steps steps'
  unfolding put_param
  at_param name st original f g h =
      let (v, e, q) = on_ok-ok (suits decode original val) _ steps' h in
      record {
        step = st;
        original = original;
        found = f;
        had = g;
        new = record st { parameters = insert param val st.parameters };
        now = λ n. ap (lookup n) (put v e q) ∙ lookup-insert name n _ steps;
        given = λ p. lookup-insert param p val st.parameters;
        same_command = refl;
        same_deps = refl;
        same_artifacts = refl;
        same_env = refl;
        same_image = refl;
      }
    where
      put :
          (v : Value)
          → suits decode original val ≡ ok v
          → ok (put_param name st param v steps) ≡ ok steps'
          → steps' ≡ insert name (record st { parameters = insert param val st.parameters }) steps
      put v e q =
          sym (ok-inj q)
          ∙ ap (λ x. put_param name st param x steps) (sym (suits-ok decode original val v e))

  replace_of_step-Replaced :
      (step : Text)
      → replace_of_step decode step param val steps ≡ ok steps'
      → Replaced step param val steps steps'
  unfolding replace_of_step
  replace_of_step-Replaced step h = at_step (lookup step steps) refl h
    where
      at_original :
          (st : WorkflowSourceStep)
          → lookup step steps ≡ some st
          → (o : Option Value) → lookup param st.parameters ≡ o
          → elim o [
            | none ↦ failed unknown_param
            | some original ↦
                on_ok (suits decode original val) (λ v. ok (put_param step st param v steps))
          ]
            ≡ ok steps'
          → Replaced step param val steps steps'
      at_original st f none g q = cc
      at_original st f (some original) g q = at_param step st original f g q

      at_step :
          (o : Option WorkflowSourceStep)
          → lookup step steps ≡ o
          → elim o [
            | none ↦ failed unknown_step
            | some st ↦ elim (lookup param st.parameters) [
              | none ↦ failed unknown_param
              | some original ↦
                  on_ok (suits decode original val) (λ v. ok (put_param step st param v steps))
            ]
          ]
            ≡ ok steps'
          → Replaced step param val steps steps'
      at_step none f q = cc
      at_step (some st) f q = at_original st f (lookup param st.parameters) refl q

  replace_of_any-Replaced :
      (visited : Steps)
      → ((name : Text) (st : WorkflowSourceStep)
          → In (name, st) visited
          → lookup name steps ≡ some st)
      → replace_of_any decode visited param val steps ≡ ok steps'
      → (n : Text) × Replaced n param val steps steps'
  unfolding replace_of_any
  replace_of_any-Replaced [] entries h = cc
  replace_of_any-Replaced ((name, st) ∷ visited) entries h =
      at_original (lookup param st.parameters) refl h
        (replace_of_any-Replaced visited (λ n s i. entries n s (inr i)))
    where
      at_original :
          (o : Option Value)
          → lookup param st.parameters ≡ o
          → elim o [
            | none ↦ replace_of_any decode visited param val steps
            | some original ↦
                on_ok (suits decode original val) (λ v. ok (put_param name st param v steps))
          ]
            ≡ ok steps'
          → (replace_of_any decode visited param val steps ≡ ok steps'
              → (n : Text) × Replaced n param val steps steps')
          → (n : Text) × Replaced n param val steps steps'
      at_original none g q later = later q
      at_original (some original) g q later =
          (name, at_param name st original (entries name st (inl refl)) g q)

-- When `replaceRunParam` succeeds, it has given the value to one parameter that a step had before,
-- and the other parameters of that step, all else of it, and the other steps are as they were; if
-- the name has a step, that step is the one changed. The order in which the map of steps is visited
-- gives entries of the map only.
pub replace_run_param-Replaced :
    (decode : Decode) (order : Steps → Steps)
    → VisitsEntries order
    → (name : Text) (val : Value) (steps steps' : Steps)
    → replace_run_param decode order name val steps ≡ ok steps'
    → (step : Text) × Replaced step (parse_param_name name).1 val steps steps'
      × (text_empty (parse_param_name name).0 ≡ false → step ≡ (parse_param_name name).0)
unfolding replace_run_param
replace_run_param-Replaced decode order entries name val steps steps' h =
    elim (Bool-cases (text_empty (parse_param_name name).0)) [
      | inl e ↦
          let (n, r) =
            replace_of_any-Replaced decode (parse_param_name name).1 val steps steps' (order steps)
              (entries steps) (rw e at h) in
          (n, r, λ f. absurd (true≢false (sym e ∙ f)))
      | inr e ↦ (
        (parse_param_name name).0,
        replace_of_step-Replaced decode (parse_param_name name).1 val steps steps'
            (parse_param_name name).0 (rw e at h),
        λ _. refl,
      )
    ]
