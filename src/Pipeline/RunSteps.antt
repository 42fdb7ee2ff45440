-- ===== src/Pipeline/RunSteps.antt =====
-- pkg/pipeline/workflow.go: `getRunSteps`, the steps that a run with an entry point needs.
pub mod Missing
pub mod Walks
pub mod Reach
use paddle_flow.Prelude.{
  List, Option, Text, [], has, if◌then◌else◌, insert, length, lookup, none, some, suc, text_empty,
  zero, ℕ, ◌∷◌,
}
use paddle_flow.Schema.Workflow.{WorkflowSourceStep, get_deps}
use paddle_flow.Pipeline.Topology.{Steps}

-- `steps[entry] = step` and the loop that visits the dependencies by `go`; `none` says that the
-- fuel ran out.
unfoldable pub visit_deps : (Text → Steps → Option Steps) → List Text → Steps → Option Steps
visit_deps go [] steps = some steps
visit_deps go (dep ∷ deps) steps = elim (go dep steps) [
  | none ↦ none
  | some steps' ↦ visit_deps go deps steps'
]

-- `recursiveGetRunSteps`; `source` is `bwf.Source.EntryPoints`, and `steps` the map that it fills.
unfoldable pub recursive_get_run_steps : ℕ → Steps → Text → Steps → Option Steps
unfolding visit_deps lookup insert get_deps
recursive_get_run_steps zero source entry steps = none
recursive_get_run_steps (suc fuel) source entry steps =
    let go = recursive_get_run_steps fuel source in
    if has entry steps then some steps else elim (lookup entry source) [
      | none ↦ some steps
      | some step ↦ visit_deps go (get_deps step) (insert entry step steps)
    ]

-- A call visits a step that is not in the map yet, so they nest no deeper than there are steps.
unfoldable pub get_run_steps : Steps → Text → Option Steps
unfolding recursive_get_run_steps
get_run_steps source entry =
    if text_empty entry
    then some source
    else recursive_get_run_steps (suc (length source)) source entry []
