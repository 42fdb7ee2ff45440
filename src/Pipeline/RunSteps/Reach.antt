-- ===== src/Pipeline/RunSteps/Reach.antt =====
-- Which steps `getRunSteps` collects.
use paddle_flow.Prelude.{
  In, In-keys_entry, Option, Text, [], arith, has, has_of_lookup, inl, inr, keys, length, lookup,
  none, refl, some, subst, suc, true, ◌↔◌, ◌∷◌, ◌≡◌, ◌≢◌,
}
use paddle_flow.Schema.Workflow.{WorkflowSourceStep}
use paddle_flow.Pipeline.Topology.{Steps}
use paddle_flow.Pipeline.RunSteps.{get_run_steps, recursive_get_run_steps}
use paddle_flow.Pipeline.RunSteps.Missing.{missing-le_length}
use paddle_flow.Pipeline.RunSteps.Walks.{
  Reaches, here, along, Returns, IsSound, Walked, recursive_get_run_steps-Walked,
}

module _ (source : Steps) (root : Text) where
  Walked-Reaches :
      (steps : Steps)
      → Walked source root (root ∷ []) [] steps
      → (n : Text) → Reaches source root n
      → has n source ≡ true
      → In n (keys steps)
  Walked-Reaches steps w n here h = w.visited root (inl refl) h
  Walked-Reaches steps w n (along {n = m} s dep r e i) h =
      let j = Walked-Reaches steps w m r (has_of_lookup m s source e) in
      elim (w.closed m j) [ inl old ↦ absurd old | inr cl ↦ cl s dep e i h ]

  abbrev Holds : Steps → Type 0
  Holds steps =
      (n : Text) (s : WorkflowSourceStep)
      → In (n, s) steps ↔ ((lookup n source ≡ some s) × Reaches source root n)

  Walked-IsSound :
      (steps : Steps) → Walked source root (root ∷ []) [] steps → IsSound source root steps
  Walked-IsSound steps w = w.sound (λ dep i. at_root i) (λ n s i. absurd i)
    where
      at_root : {dep : Text} → In dep (root ∷ []) → Reaches source root dep
      at_root (inl e) = subst (Reaches source root) e here
      at_root (inr i) = absurd i

  Walked-Holds : (steps : Steps) → Walked source root (root ∷ []) [] steps → Holds steps
  Walked-Holds steps w n s = (
    Walked-IsSound steps w n s,
    λ (e, r).
        let (t, i) =
          In-keys_entry n steps (Walked-Reaches steps w n r (has_of_lookup n s source e)) in
        let found = (Walked-IsSound steps w n t i).0 in
        let same : t ≡ s = cc in subst (λ x. In (n, x) steps) same i,
  )

  found-Holds :
      (r : Option Steps)
      → Returns (Walked source root (root ∷ []) []) r
      → (steps : Steps) × (r ≡ some steps) × Holds steps
  found-Holds none w = absurd w
  found-Holds (some steps) w = (steps, refl, Walked-Holds steps w)

-- `getRunSteps` with an entry point always ends, and collects each step that the entry depends on,
-- directly or by others, with the step itself, and nothing else. A dependency on a name that the
-- workflow does not have is passed over.
pub get_run_steps-Reaches :
    (source : Steps) (entry : Text)
    → entry ≢ []
    → (steps : Steps) × (get_run_steps source entry ≡ some steps)
      × ((n : Text) (s : WorkflowSourceStep)
          → In (n, s) steps ↔ ((lookup n source ≡ some s) × Reaches source entry n))
unfolding get_run_steps
get_run_steps-Reaches source [] ne = absurd (ne refl)
get_run_steps-Reaches source (c ∷ cs) ne =
    found-Holds source (c ∷ cs) (recursive_get_run_steps (suc (length source)) source (c ∷ cs) []) (
      recursive_get_run_steps-Walked source (c ∷ cs) (suc (length source)) (c ∷ cs) []
        (omega (arith, missing-le_length source [])))
