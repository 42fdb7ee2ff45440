-- ===== src/Pipeline/GraphExamples.antt =====
-- Small workflows, sorted and walked (pkg/pipeline/workflow.go).
use Prim.Native.String.{String}
use paddle_flow.Prelude.{
  In, List, NoDup, Text, [], arith, codes, keys, lookup, refl, some, text_eq, ◌↔◌, ◌∷◌, ◌≡◌,
}
use paddle_flow.Schema.Workflow.{WorkflowSourceStep}
use paddle_flow.Pipeline.Topology.{sorted, Order, Steps, not_acyclic, topological_sort}
use paddle_flow.Pipeline.Topology.Visits.{Visits}
use paddle_flow.Pipeline.Topology.Sorted.{
  IsCycle, Schedule, Schedule-not-IsCycle, topological_sort-Schedule, topological_sort_cyclic,
  topological_sort_total,
}
use paddle_flow.Pipeline.RunSteps.{get_run_steps}
use paddle_flow.Pipeline.RunSteps.Walks.{Reaches}
use paddle_flow.Pipeline.RunSteps.Reach.{get_run_steps-Reaches}

abbrev waiting_for : String → WorkflowSourceStep
waiting_for deps = record {
  parameters = [];
  command = [];
  deps = codes deps;
  artifacts = record { input = []; output = [] };
  env = [];
  image = [];
}

-- b waits for a, and c for both.
abbrev diamond : Steps
diamond =
    (codes "c", waiting_for "a, b")
    ∷ (codes "b", waiting_for "a")
    ∷ (codes "a", waiting_for "")
    ∷ []

abbrev ring : Steps
ring = (codes "a", waiting_for "b") ∷ (codes "b", waiting_for " a") ∷ []

-- The order in which the entries stand.
abbrev pub as_listed : Order
as_listed g = g

pub as_listed-Visits : Visits as_listed
as_listed-Visits = record { each = λ g e. ((λ i. i), (λ i. i)); once = λ g d. d }

diamond-NoDup : NoDup (keys diamond)
diamond-NoDup = ground arith

ring-NoDup : NoDup (keys ring)
ring-NoDup = ground arith

diamond_sorted :
    topological_sort as_listed diamond ≡ sorted (codes "a" ∷ codes "b" ∷ codes "c" ∷ [])
unfolding topological_sort text_eq
diamond_sorted = refl

ring_sorted : topological_sort as_listed ring ≡ not_acyclic
unfolding topological_sort text_eq
ring_sorted = refl

topological_sort-Schedule_example : Schedule diamond (codes "a" ∷ codes "b" ∷ codes "c" ∷ [])
topological_sort-Schedule_example =
    topological_sort-Schedule as_listed as_listed-Visits diamond diamond-NoDup
      (codes "a" ∷ codes "b" ∷ codes "c" ∷ []) diamond_sorted

topological_sort_cyclic_example :
    (topological_sort as_listed ring ≡ not_acyclic) ↔ ((names : List Text) × IsCycle ring names)
topological_sort_cyclic_example = topological_sort_cyclic as_listed as_listed-Visits ring ring-NoDup

diamond_acyclic : (names : List Text) → IsCycle diamond names → ⊥
diamond_acyclic names c =
    Schedule-not-IsCycle diamond names c (codes "a" ∷ codes "b" ∷ codes "c" ∷ []) (
      topological_sort-Schedule as_listed as_listed-Visits diamond diamond-NoDup
        (codes "a" ∷ codes "b" ∷ codes "c" ∷ []) diamond_sorted)

topological_sort_total_example :
    (out : List Text) × (topological_sort as_listed diamond ≡ sorted out)
topological_sort_total_example =
    topological_sort_total as_listed as_listed-Visits diamond diamond-NoDup diamond_acyclic

get_run_steps-Reaches_example :
    (steps : Steps) × (get_run_steps diamond (codes "b") ≡ some steps)
    × ((n : Text) (s : WorkflowSourceStep)
        → In (n, s) steps ↔ ((lookup n diamond ≡ some s) × Reaches diamond (codes "b") n))
get_run_steps-Reaches_example = get_run_steps-Reaches diamond (codes "b") (λ e. ground arith)
