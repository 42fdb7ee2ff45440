-- ===== src/Pipeline/Solve/Keeping.antt =====
-- The steps that a solver must keep, and that must be there (pkg/pipeline/common.go).
use mathlib.Core.Bool.{false≢true}
use paddle_flow.Prelude.{
  Bool, Bool-cases, In, List, Text, [], ap, false, has, if◌then◌else◌, inl, inr, insert, lookup,
  lookup-insert, not, refl, some, some-inj, subst, sym, text_eq, text_eq→eq, true, ◌||◌, ◌∙◌, ◌∷◌,
  ◌≡◌,
}
use paddle_flow.Schema.Workflow.{Value, WorkflowSourceStep, get_deps}
use paddle_flow.Pipeline.Topology.{Steps}
use paddle_flow.Pipeline.Params.{Solver}
use paddle_flow.Pipeline.Params.Scheduled.{DepsKept}
use paddle_flow.Pipeline.Solve.{put_step}

-- The solver has the steps of `base`, and they wait for what they waited for there.
pub record Kept (base : Steps) (s : Solver) : Type 0 where
  pub deps : DepsKept base s
  pub steps : (n : Text) → has n base ≡ true → has n s.steps ≡ true

put_step-DepsKept :
    (base : Steps) (s : Solver) (current : Text) (st st' : WorkflowSourceStep)
    → DepsKept base s
    → lookup current s.steps ≡ some st
    → get_deps st' ≡ get_deps st
    → DepsKept base (put_step s current st')
unfolding put_step
put_step-DepsKept base s current st st' k e same step found h =
    let found_in : (if text_eq current step then some st' else lookup step s.steps) ≡ some found =
      sym (lookup-insert current step st' s.steps) ∙ h in
    elim (Bool-cases (text_eq current step)) [
      | inl q ↦
          let is_new : st' ≡ found = some-inj (rw q at found_in) in
          let (old, f, r) = k current st e in
          (
            old,
            subst (λ x. lookup x base ≡ some old) (text_eq→eq current step q) f,
            ap get_deps (sym is_new) ∙ same ∙ r,
          )
      | inr q ↦ k step found (rw q at found_in)
    ]

pub put_step-Kept :
    (base : Steps) (s : Solver) (current : Text) (st st' : WorkflowSourceStep)
    → Kept base s
    → lookup current s.steps ≡ some st
    → get_deps st' ≡ get_deps st
    → Kept base (put_step s current st')
unfolding put_step
put_step-Kept base s current st st' k e same = record {
  deps = put_step-DepsKept base s current st st' k.deps e same;
  steps = λ n h. still n (k.steps n h);
}
  where
    still : (n : Text) → has n s.steps ≡ true → has n (insert current st' s.steps) ≡ true
    still n h =
        let after = lookup-insert current n st' s.steps in
        elim (Bool-cases (text_eq current n)) [
          | inl q ↦ rw (after, q, has) refl
          | inr q ↦ rw (after, q, has) h
        ]

-- Writing a value leaves the dependencies of a step.
abbrev pub KeepsDeps : (Text → Value → WorkflowSourceStep → WorkflowSourceStep) → Type 0
KeepsDeps write =
    (name : Text) (v : Value) (st : WorkflowSourceStep) → get_deps (write name v st) ≡ get_deps st

-- Whether one of the names has no step.
abbrev pub lacks_step : Steps → List Text → Bool
lacks_step steps [] = false
lacks_step steps (n ∷ names) = not (has n steps) || lacks_step steps names

-- Whether one of the visited steps waits for one that does not exist.
abbrev pub lacks_dep : Steps → List (Text × WorkflowSourceStep) → Bool
lacks_dep steps [] = false
lacks_dep steps ((name, st) ∷ visited) = lacks_step steps (get_deps st) || lacks_dep steps visited

pub lacks_step-Safe :
    (steps : Steps) (names : List Text) (n : Text)
    → lacks_step steps names ≡ false
    → In n names
    → has n steps ≡ true
lacks_step-Safe steps (m ∷ names) n e i = elim (Bool-cases (has m steps)) [
  | inl here ↦
      let rest : lacks_step steps names ≡ false = rw here at e in
      elim i [
        | inl q ↦ subst (λ x. has x steps ≡ true) q here
        | inr j ↦ lacks_step-Safe steps names n rest j
      ]
  | inr none_here ↦ absurd (false≢true (sym (rw none_here at e)))
]
lacks_step-Safe steps [] n e i = absurd i

pub lacks_dep-Safe :
    (steps : Steps) (visited : List (Text × WorkflowSourceStep)) (name dep : Text)
    (st : WorkflowSourceStep)
    → lacks_dep steps visited ≡ false
    → In (name, st) visited
    → In dep (get_deps st)
    → has dep steps ≡ true
lacks_dep-Safe steps [] name dep st e i j = absurd i
lacks_dep-Safe steps ((m, t) ∷ visited) name dep st e i j =
    elim (Bool-cases (lacks_step steps (get_deps t))) [
      | inl lacks ↦ absurd (false≢true (sym (rw lacks at e)))
      | inr here ↦
          let rest : lacks_dep steps visited ≡ false = rw here at e in
          elim i [
            | inl q ↦
                lacks_step-Safe steps (get_deps t) dep here
                  (subst (λ (x : Text × WorkflowSourceStep). In dep (get_deps x.1)) (sym q) j)
            | inr k ↦ lacks_dep-Safe steps visited name dep st rest k j
          ]
    ]
