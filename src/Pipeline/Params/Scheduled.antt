-- ===== src/Pipeline/Params/Scheduled.antt =====
-- References do not lead round for ever in a workflow that can be sorted (pkg/pipeline/common.go).
use mathlib.Core.List.{append_assoc}
use paddle_flow.Prelude.{
  Bool, Bool-cases, In, In-append, List, NoDup, Text, [], arith, eq→text_eq, false, inl, inr, keys,
  length, length-append, lookup, lookup→In, not, refl, some, subst, suc, sym, text_empty, text_eq,
  text_eq→eq, zero, ℕ, ◌++◌, ◌+◌, ◌<◌, ◌||◌, ◌↔◌, ◌∙◌, ◌∷◌, ◌≡◌, ◌≤◌, ◌⊎◌,
}
use mathlib.Core.Bool.{false≢true}
use paddle_flow.Schema.Workflow.{Value, WorkflowSourceStep, get_deps}
use paddle_flow.Pipeline.Topology.{Order, sorted, topological_sort, Steps}
use paddle_flow.Pipeline.Topology.Visits.{Visits}
use paddle_flow.Pipeline.Topology.Graphs.{IsRecorded, recorded, is_nil}
use paddle_flow.Pipeline.Topology.Sorted.{IsScheduled, topological_sort-Schedule}
use paddle_flow.Pipeline.Params.{Field, Solver, check_param_value}
use paddle_flow.Pipeline.Params.Ending.{Ended, EndedWith, Safe, check_with-Ended}

-- Every check in the step ends with that much fuel or more.
abbrev EndsFrom : Bool → ℕ → Solver → Text → Type 0
EndsFrom may_panic least s step =
    Safe may_panic s.steps step
    → (fuel : ℕ) → least ≤ fuel
    → (v : Value) (field : Field) → EndedWith may_panic (check_param_value fuel s step v field)

-- Where no panic may be, the steps that any step waits for are there.
abbrev pub AreSafe : Bool → Steps → Type 0
AreSafe may_panic steps =
    (step : Text) (st : WorkflowSourceStep) (dep : Text)
    → lookup step steps ≡ some st
    → In dep (get_deps st)
    → Safe may_panic steps dep

-- The steps of the solver wait for what they waited for in `base`.
abbrev pub DepsKept : Steps → Solver → Type 0
DepsKept base s =
    (step : Text) (st : WorkflowSourceStep)
    → lookup step s.steps ≡ some st
    → (old : WorkflowSourceStep) × (lookup step base ≡ some old) × (get_deps st ≡ get_deps old)

module _ {p : Bool} (base : Steps) (s : Solver) (deps_kept : DepsKept base s)
    (safe_deps : AreSafe p s.steps) where
  -- A step that the sort leaves out has no dependency.
  no_deps :
      (step : Text) (st : WorkflowSourceStep) (dep : Text)
      → ((r : IsRecorded base step) → ⊥)
      → lookup step s.steps ≡ some st
      → In dep (get_deps st)
      → ⊥
  no_deps step st dep out e i =
      let (old, e', same) = deps_kept step st e in
      elim (Bool-cases (recorded old)) [
        | inl k ↦ out (record { step = old; named = lookup→In step old base e'; kept = k })
        | inr k ↦ empty (text_empty old.deps) (get_deps old) (subst (In dep) same i) k
      ]
    where
      empty : (b : Bool) (deps : List Text) → In dep deps → (b || not (is_nil deps)) ≡ false → ⊥
      empty b [] i k = i
      empty b (d ∷ deps) i k = ground arith

  left_out : (step : Text) → (IsRecorded base step → ⊥) → EndsFrom p 1 s step
  unfolding check_param_value
  left_out step out safe (suc fuel) enough v field =
      check_with-Ended (check_param_value fuel s) s step safe
        (λ st dep e i. absurd (no_deps step st dep out e i)) v field
  left_out step out safe zero enough v field = absurd (omega arith)

  -- A step whose recorded dependencies have been seen.
  next_step :
      (step : Text) (seen : ℕ)
      → ((st : WorkflowSourceStep) (dep : Text)
          → lookup step s.steps ≡ some st
          → In dep (get_deps st)
          → EndsFrom p (suc seen) s dep)
      → EndsFrom p (suc (suc seen)) s step
  unfolding check_param_value
  next_step step seen h safe (suc fuel) enough v field =
      check_with-Ended (check_param_value fuel s) s step safe
        (λ st dep e i.
          let there = safe_deps step st dep e i in
          (there, λ w f. h st dep e i there fuel (omega (arith, enough)) w f))
        v field
  next_step step seen h safe zero enough v field = absurd (omega arith)

  scheduled :
      (known : (n : Text) → IsRecorded base n ⊎ (IsRecorded base n → ⊥)) (seen ns : List Text)
      → ((n : Text) → In n seen → EndsFrom p (suc (length seen)) s n)
      → IsScheduled base seen ns
      → (n : Text) → In n (seen ++ ns)
      → EndsFrom p (suc (length seen + length ns)) s n
  scheduled known seen [] h o n i safe fuel enough = elim (In-append n seen [] i) [
    | inl j ↦ h n j safe fuel (omega (arith, enough))
    | inr j ↦ absurd j
  ]
  scheduled known seen (m ∷ ns) h (first, o) n i safe fuel enough =
      scheduled known (seen ++ m ∷ []) ns seen_after o n
        (subst (In n) (sym (append_assoc seen (m ∷ []) ns)) i) safe fuel
        (omega (arith, enough, length-append seen (m ∷ [])))
    where
      deps_end :
          (st : WorkflowSourceStep) (dep : Text)
          → lookup m s.steps ≡ some st
          → In dep (get_deps st)
          → EndsFrom p (suc (length seen)) s dep
      deps_end st dep e i safe fuel enough = elim (known dep) [
        | inl r ↦
            let (old, e', same) = deps_kept m st e in
            h dep (first old dep (lookup→In m old base e') (subst (In dep) same i) r) safe fuel
              enough
        | inr out ↦ left_out dep out safe fuel (omega (arith, enough))
      ]

      seen_after :
          (k : Text) → In k (seen ++ m ∷ []) → EndsFrom p (suc (length (seen ++ m ∷ []))) s k
      seen_after k i safe fuel enough =
          let more : suc (suc (length seen)) ≤ fuel =
            omega (arith, enough, length-append seen (m ∷ [])) in
          elim (In-append k seen (m ∷ []) i) [
            | inl j ↦ h k j safe fuel (omega (arith, more))
            | inr (inl e) ↦
                subst (λ x. EndsFrom p (suc (suc (length seen))) s x) e
                  (next_step m (length seen) deps_end) safe fuel more
            | inr (inr j) ↦ absurd j
          ]

In-or_not : (n : Text) (xs : List Text) → In n xs ⊎ (In n xs → ⊥)
In-or_not n [] = inr (λ i. i)
In-or_not n (x ∷ xs) = elim (Bool-cases (text_eq x n)) [
  | inl e ↦ inl (inl (text_eq→eq x n e))
  | inr e ↦ elim (In-or_not n xs) [
    | inl i ↦ inl (inr i)
    | inr out ↦ inr (λ i. elim i [ inl q ↦ false≢true (sym e ∙ eq→text_eq x n q) | inr j ↦ out j ])
  ]
]

pub check_param_value-EndedWith :
    {p : Bool} (order : Order)
    → Visits order
    → (base : Steps) → NoDup (keys base)
    → (out : List Text) → topological_sort order base ≡ sorted out
    → (s : Solver) → DepsKept base s
    → AreSafe p s.steps
    → (fuel : ℕ) → length out < fuel
    → (step : Text) → Safe p s.steps step
    → (v : Value) (field : Field) → EndedWith p (check_param_value fuel s step v field)
check_param_value-EndedWith order visits base distinct out e s kept safe_deps fuel enough step safe
      v field =
    let (_, same, schedule) = topological_sort-Schedule order visits base distinct out e in
    elim (In-or_not step out) [
      | inl i ↦
          scheduled base s kept safe_deps (λ n. known n (same n) (In-or_not n out)) [] out
            (λ n j. absurd j) schedule step i safe fuel (omega (arith, enough)) v field
      | inr absent_step ↦
          left_out base s kept safe_deps step (λ r. absent_step ((same step).1 r)) safe fuel
            (omega (arith, enough)) v field
    ]
  where
    known :
        (n : Text)
        → In n out ↔ IsRecorded base n
        → In n out ⊎ (In n out → ⊥)
        → IsRecorded base n ⊎ (IsRecorded base n → ⊥)
    known n same (inl i) = inl (same.0 i)
    known n same (inr not_in) = inr (λ r. not_in (same.1 r))

-- When `topologicalSort` accepts the steps, every check of a parameter of any step ends, with a value
-- or an error or by a panic, with one unit of fuel more than there are sorted steps: no chain of
-- references is longer. The same holds after values of the steps have been replaced.
pub check_param_value-Ended :
    (order : Order)
    → Visits order
    → (base : Steps) → NoDup (keys base)
    → (out : List Text) → topological_sort order base ≡ sorted out
    → (s : Solver) → DepsKept base s
    → (fuel : ℕ) → length out < fuel
    → (step : Text) (v : Value) (field : Field) → Ended (check_param_value fuel s step v field)
check_param_value-Ended order visits base distinct out e s kept fuel enough step v field =
    check_param_value-EndedWith order visits base distinct out e s kept
      (λ step st dep f i. inl refl) fuel enough step (inl refl) v field
