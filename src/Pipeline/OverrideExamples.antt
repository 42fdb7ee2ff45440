-- ===== src/Pipeline/OverrideExamples.antt =====
-- The rate of a training step is overridden (pkg/pipeline/workflow.go).
use paddle_flow.Prelude.{
  In, Option, Text, [], codes, false, inl, inr, lookup, none, refl, some, subst, text_empty,
  text_eq, ◌∷◌, ◌≡◌,
}
use paddle_flow.Schema.Workflow.{WorkflowSourceStep, text}
use paddle_flow.Pipeline.Topology.{Steps}
use paddle_flow.Pipeline.ParamExamples.{train_and_report}
use paddle_flow.Pipeline.Template.{parse_param_name}
use paddle_flow.Pipeline.Params.{Outcome, ok}
use paddle_flow.Pipeline.Override.{Decode, replace_run_param}
use paddle_flow.Pipeline.Override.Replaced.{Replaced, VisitsEntries, replace_run_param-Replaced}

abbrev no_dicts : Decode
no_dicts v = none

-- The entries that a look-up finds.
abbrev visible : Steps → Steps → Steps
unfolding lookup
visible steps [] = []
visible steps ((name, st) ∷ rest) =
    let others = visible steps rest in
    elim (lookup name steps) [ none ↦ others | some found ↦ (name, found) ∷ others ]

abbrev in_order : Steps → Steps
in_order steps = visible steps steps

visible-In :
    (steps visited : Steps) (name : Text) (st : WorkflowSourceStep)
    → In (name, st) (visible steps visited)
    → lookup name steps ≡ some st
unfolding visible
visible-In steps [] name st i = absurd i
visible-In steps ((n, s) ∷ rest) name st i =
    at_entry (lookup n steps) refl i (visible-In steps rest name st)
  where
    at_entry :
        (o : Option WorkflowSourceStep)
        → lookup n steps ≡ o
        → In
            (name, st)
            (elim o [ none ↦ visible steps rest | some found ↦ (n, found) ∷ visible steps rest ])
        → (In (name, st) (visible steps rest) → lookup name steps ≡ some st)
        → lookup name steps ≡ some st
    at_entry none e j later = later j
    at_entry (some found) e (inl q) later =
        subst (λ (x : Text × WorkflowSourceStep). lookup x.0 steps ≡ some x.1) q e
    at_entry (some found) e (inr j) later = later j

in_order-VisitsEntries : VisitsEntries in_order
in_order-VisitsEntries steps name st i = visible-In steps steps name st i

abbrev or_none : Outcome Steps → Steps
or_none (ok steps) = steps
or_none _ = []

abbrev overridden : Steps
unfolding replace_run_param
overridden =
    or_none (
      replace_run_param no_dicts in_order (codes "train.rate") (text (codes "0.2"))
        train_and_report)

rate_replaced :
    replace_run_param no_dicts in_order (codes "train.rate") (text (codes "0.2")) train_and_report
    ≡ ok overridden
unfolding overridden replace_run_param text_eq
rate_replaced = refl

replace_run_param-Replaced_example :
    (step : Text) × Replaced step
      (parse_param_name (codes "train.rate")).1
      (text (codes "0.2"))
      train_and_report
      overridden
    × (text_empty (parse_param_name (codes "train.rate")).0 ≡ false
        → step ≡ (parse_param_name (codes "train.rate")).0)
replace_run_param-Replaced_example =
    replace_run_param-Replaced no_dicts in_order in_order-VisitsEntries (codes "train.rate")
      (text (codes "0.2")) train_and_report overridden rate_replaced
