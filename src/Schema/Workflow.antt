-- ===== src/Schema/Workflow.antt =====
-- pkg/common/schema/workflow.go: the workflow that a user writes, and the step's dependencies.
use paddle_flow.Prelude.{
  ℤ, Bool, List, [], ◌∷◌, Text, split, trim, is_space, text_empty, if◌then◌else◌,
}

-- A parameter's value as YAML gives it (`interface{}`). The numbers of Go's float types are left
-- out: no code here looks at them.
pub data Value : Type 0 where
  absent : Value
  text : Text → Value
  int : Text → Value
  int32 : Text → Value
  int64 : Text → Value
  float32 : Text → Value
  float64 : Text → Value
  bool : Bool → Value
  dict : Text → Value

pub record Artifacts : Type 0 where
  pub input : List (Text × Text)
  pub output : List (Text × Text)

pub record WorkflowSourceStep : Type 0 where
  pub parameters : List (Text × Value)
  pub command : Text
  pub deps : Text
  pub artifacts : Artifacts
  pub env : List (Text × Text)
  pub image : Text

-- The loop of `GetDeps` over the parts of the text.
unfoldable pub dry_deps : List Text → List Text
unfolding trim
dry_deps [] = []
dry_deps (dep ∷ deps) =
    let dry = trim is_space dep in
    let rest = dry_deps deps in if text_empty dry then rest else dry ∷ rest

unfoldable pub get_deps : WorkflowSourceStep → List Text
unfolding dry_deps split
get_deps s = dry_deps (split b',' s.deps)

pub record Cache : Type 0 where
  pub enable : Bool
  pub max_expired_time : Text
  pub fs_scope : Text

pub record WorkflowSource : Type 0 where
  pub name : Text
  pub docker_env : Text
  pub entry_points : List (Text × WorkflowSourceStep)
  pub cache : Cache
  pub parallelism : ℤ
