-- ===== src/Pipeline/Topology.antt =====
-- pkg/pipeline/workflow.go: `topologicalSort`. A Go map is visited in an order that the language
-- leaves open: `order` gives the visit of one `range`, and the theorems hold for all of them.
pub mod Visits
pub mod Rounds
pub mod Graphs
pub mod Sorted
use paddle_flow.Prelude.{
  ℕ, zero, suc, Bool, true, false, List, [], ◌∷◌, ◌++◌, Text, text_empty, none, some, lookup,
  insert, delete, has, length, if◌then◌else◌,
}
use paddle_flow.Schema.Workflow.{WorkflowSourceStep, get_deps}

abbrev pub Steps : Type 0
Steps = List (Text × WorkflowSourceStep)

-- `unsorted`: each step with the steps that it waits for.
abbrev pub Graph : Type 0
Graph = List (Text × List Text)

unfoldable pub known_parents : Text → Graph → List Text
unfolding lookup
known_parents name g = elim (lookup name g) [ none ↦ [] | some parents ↦ parents ]

-- The inner loop over `step.GetDeps()`.
unfoldable pub record_deps : Text → List Text → Graph → Graph
unfolding insert known_parents
record_deps name [] g = g
record_deps name (dep ∷ deps) g =
    record_deps name deps (insert name (known_parents name g ++ dep ∷ []) g)

-- One round of the loop that fills `unsorted`.
unfoldable pub record_step : Text → WorkflowSourceStep → Graph → Graph
unfolding record_deps get_deps insert
record_step name step g =
    if text_empty step.deps then insert name [] g else record_deps name (get_deps step) g

unfoldable pub unsorted_from : Steps → Graph → Graph
unfolding record_step
unsorted_from [] g = g
unsorted_from ((name, step) ∷ steps) g = unsorted_from steps (record_step name step g)

-- What one pass over `unsorted` works on.
pub record Pass : Type 0 where
  pub unsorted : Graph
  pub sorted : List Text
  pub acyclic : Bool

-- The loop over `parents`: is one of them still unsorted?
unfoldable pub blocked : Graph → List Text → Bool
unfolding lookup
blocked g [] = false
blocked g (parent ∷ parents) = let rest = blocked g parents in if has parent g then true else rest

unfoldable pub visit : Pass → Text × List Text → Pass
unfolding blocked delete
visit p (name, parents) = if blocked p.unsorted parents then p else record {
  unsorted = delete name p.unsorted;
  sorted = p.sorted ++ name ∷ [];
  acyclic = true;
}

unfoldable pub visit_all : List (Text × List Text) → Pass → Pass
unfolding visit
visit_all [] p = p
visit_all (e ∷ es) p = visit_all es (visit p e)

pub data SortResult : Type 0 where
  sorted : List Text → SortResult
  not_acyclic : SortResult
  out_of_fuel : SortResult

abbrev pub Order : Type 0
Order = Graph → List (Text × List Text)

-- The loop `for len(unsorted) != 0`.
unfoldable pub sort_rounds : ℕ → Order → Graph → List Text → SortResult
unfolding visit_all
sort_rounds fuel order [] out = sorted out
sort_rounds zero order (e ∷ g) out = out_of_fuel
sort_rounds (suc fuel) order (e ∷ g) out =
    let p =
      visit_all (order (e ∷ g)) (record { unsorted = e ∷ g; sorted = out; acyclic = false }) in
    let rest = sort_rounds fuel order p.unsorted p.sorted in if p.acyclic then rest else not_acyclic

unfoldable pub topological_sort : Order → Steps → SortResult
unfolding unsorted_from sort_rounds
topological_sort order steps = let g = unsorted_from steps [] in sort_rounds (length g) order g []
