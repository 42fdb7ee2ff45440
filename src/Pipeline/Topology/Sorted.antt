-- ===== src/Pipeline/Topology/Sorted.antt =====
-- The result of `topologicalSort` in terms of the steps.
use paddle_flow.Prelude.{
  In, In-append, In-keys, In-keys_entry, List, NoDup, Text, [], ap, arith, entry_unique, inl, inr,
  keys, refl, subst, sym, ◌++◌, ◌↔◌, ◌∙◌, ◌∷◌, ◌≡◌, ◌≢◌, ◌⊎◌,
}
use paddle_flow.Schema.Workflow.{WorkflowSourceStep, get_deps}
use paddle_flow.Pipeline.Topology.{
  Steps, Graph, Order, SortResult, sorted, not_acyclic, out_of_fuel, topological_sort,
}
use paddle_flow.Pipeline.Topology.Visits.{Visits, IsOrdered}
use paddle_flow.Pipeline.Topology.Rounds.{IsStuck, IsCorrect, sort_rounds_lem}
use paddle_flow.Pipeline.Topology.Graphs.{
  IsRecorded, entries, unsorted_of_steps, In-entries→IsRecorded, IsRecorded→In-entries,
  NoDup-entries,
}

-- Each name stands behind the recorded steps that it depends on.
abbrev pub IsScheduled : Steps → List Text → List Text → Type 0
IsScheduled steps seen [] = Unit
IsScheduled steps seen (n ∷ ns) =
    ((s : WorkflowSourceStep) (dep : Text)
      → In (n, s) steps
      → In dep (get_deps s)
      → IsRecorded steps dep
      → In dep seen)
    × IsScheduled steps (seen ++ n ∷ []) ns

-- Steps of which each waits for another of them: a dependency cycle, with what leads to it.
pub record IsCycle (steps : Steps) (names : List Text) : Type 0 where
  pub some_name : names ≢ []
  pub waits :
      (n : Text)
      → In n names
      → (r : IsRecorded steps n) × (dep : Text) × In dep (get_deps r.step) × In dep names

abbrev pub Schedule : Steps → List Text → Type 0
Schedule steps out =
    NoDup out × ((n : Text) → In n out ↔ IsRecorded steps n) × IsScheduled steps [] out

module _ (steps : Steps) (d : NoDup (keys steps)) where
  In-keys→IsRecorded : (n : Text) → In n (keys (entries steps)) ↔ IsRecorded steps n
  In-keys→IsRecorded n = (
    λ i. let (ps, j) = In-keys_entry n (entries steps) i in (In-entries→IsRecorded steps n ps j).0,
    λ r.
        In-keys n (get_deps r.step) (entries steps)
          (IsRecorded→In-entries steps n r.step r.named r.kept),
  )

  step_of_entry :
      (n : Text) (s : WorkflowSourceStep) (ps : List Text)
      → In (n, s) steps
      → In (n, ps) (entries steps)
      → ps ≡ get_deps s
  step_of_entry n s ps i j =
      let (r, e) = In-entries→IsRecorded steps n ps j in
      e ∙ ap get_deps (entry_unique n r.step s steps d r.named i)

  IsOrdered→IsScheduled :
      (seen ns : List Text)
      → ((n : Text) → In n ns → IsRecorded steps n)
      → IsOrdered (entries steps) seen ns
      → IsScheduled steps seen ns
  IsOrdered→IsScheduled seen [] r o = tt
  IsOrdered→IsScheduled seen (n ∷ ns) r o = (
    λ s dep i j known.
        let (ps, k) = In-keys_entry n (entries steps) ((In-keys→IsRecorded n).1 (r n (inl refl))) in
        o.0 ps dep k (subst (λ l. In dep l) (sym (step_of_entry n s ps i k)) j)
          ((In-keys→IsRecorded dep).1 known),
    IsOrdered→IsScheduled (seen ++ n ∷ []) ns (λ m i. r m (inr i)) o.1,
  )

  IsStuck→IsCycle : (h : Graph) → IsStuck (entries steps) h → IsCycle steps (keys h)
  IsStuck→IsCycle h k = record {
    some_name = some_key h k.some_entry;
    waits = λ n i.
        let (ps, j) = In-keys_entry n h i in
        let (r, e) = In-entries→IsRecorded steps n ps (k.part _ j) in
        let (dep, m, l) = k.waits _ j in (r, dep, subst (λ l. In dep l) e m, l);
  }
    where
      some_key : (h : Graph) → h ≢ [] → keys h ≢ []
      some_key [] n e = n refl
      some_key (x ∷ h) n e = ground arith

  abbrev SortsWell : SortResult → Type 0
  SortsWell (sorted out) = Schedule steps out
  SortsWell not_acyclic = (names : List Text) × IsCycle steps names
  SortsWell out_of_fuel = ⊥

  sorts_well : (r : SortResult) → IsCorrect (entries steps) r → SortsWell r
  sorts_well (sorted out) (once, same, o) = (
    once,
    λ n. (
      λ i. (In-keys→IsRecorded n).0 ((same n).0 i),
      λ r. (same n).1 ((In-keys→IsRecorded n).1 r),
    ),
    IsOrdered→IsScheduled [] out (λ n i. (In-keys→IsRecorded n).0 ((same n).0 i)) o,
  )
  sorts_well not_acyclic (h, k) = (keys h, IsStuck→IsCycle h k)
  sorts_well out_of_fuel h = h

  module _ (order : Order) (v : Visits order) where
    topological_sort-SortsWell : SortsWell (topological_sort order steps)
    unfolding topological_sort
    topological_sort-SortsWell =
        rw (unsorted_of_steps steps d)
          (sorts_well _ (sort_rounds_lem (entries steps) (NoDup-entries steps d) order v))

Result-cases :
    (r : SortResult)
    → ((out : List Text) × (r ≡ sorted out)) ⊎ ((r ≡ not_acyclic) ⊎ (r ≡ out_of_fuel))
Result-cases (sorted out) = inl (out, refl)
Result-cases not_acyclic = inr (inl refl)
Result-cases out_of_fuel = inr (inr refl)

module _ (steps : Steps) (names : List Text) (c : IsCycle steps names) where
  abbrev Absent : List Text → Type 0
  Absent seen = (m : Text) → In m seen → In m names → ⊥

  -- The first of the cycle's names in a schedule would stand behind one that is not there.
  head-Absent :
      (seen ns : List Text) (n : Text)
      → Absent seen
      → IsScheduled steps seen (n ∷ ns)
      → In n names
      → ⊥
  head-Absent seen ns n none_seen o k =
      let (r, dep, md, mn) = c.waits n k in
      none_seen dep (o.0 r.step dep r.named md (c.waits dep mn).0) mn

  snoc-Absent :
      (seen : List Text) (n : Text) → Absent seen → (In n names → ⊥) → Absent (seen ++ n ∷ [])
  snoc-Absent seen n none_seen h x i j = elim (In-append x seen (n ∷ []) i) [
    | inl l ↦ none_seen x l j
    | inr (inl e) ↦ h (subst (λ y. In y names) (sym e) j)
    | inr (inr a) ↦ a
  ]

  IsCycle-Absent : (seen ns : List Text) → Absent seen → IsScheduled steps seen ns → Absent ns
  IsCycle-Absent seen [] none_seen o m i j = i
  IsCycle-Absent seen (n ∷ ns) none_seen o m (inl e) j =
      head-Absent seen ns n none_seen o (subst (λ x. In x names) (sym e) j)
  IsCycle-Absent seen (n ∷ ns) none_seen o m (inr k) j =
      IsCycle-Absent (seen ++ n ∷ []) ns
        (snoc-Absent seen n none_seen (head-Absent seen ns n none_seen o)) o.1 m k j

  pub Schedule-not-IsCycle : (out : List Text) → Schedule steps out → ⊥
  Schedule-not-IsCycle out (once, same, o) = go names refl
    where
      go : (l : List Text) → l ≡ names → ⊥
      go [] e = c.some_name (sym e)
      go (n ∷ l) e =
          let i : In n names = subst (λ x. In n x) e (inl refl) in
          IsCycle-Absent [] out (λ m a _. a) o n ((same n).1 (c.waits n i).0) i

module _ (order : Order) (v : Visits order) (steps : Steps) (d : NoDup (keys steps)) where
  -- When `topologicalSort` returns a list, whatever order the map is visited in: no name stands in
  -- it twice, it holds exactly the steps whose text of dependencies is empty or names some step,
  -- and each step stands behind all of its dependencies that are such steps.
  pub topological_sort-Schedule :
      (out : List Text) → topological_sort order steps ≡ sorted out → Schedule steps out
  topological_sort-Schedule out e =
      subst (SortsWell steps d) e (topological_sort-SortsWell steps d order v)

  -- `topologicalSort` reports "workflow is not acyclic" exactly when there is a nonempty list of
  -- steps of which each has a dependency in the list.
  pub topological_sort_cyclic :
      (topological_sort order steps ≡ not_acyclic) ↔ ((names : List Text) × IsCycle steps names)
  topological_sort_cyclic = (
    λ e. subst (SortsWell steps d) e (topological_sort-SortsWell steps d order v),
    λ (names, c). elim (Result-cases (topological_sort order steps)) [
      | inl (out, e) ↦
          absurd (Schedule-not-IsCycle steps names c out (topological_sort-Schedule out e))
      | inr (inl e) ↦ e
      | inr (inr e) ↦
          absurd (subst (SortsWell steps d) e (topological_sort-SortsWell steps d order v))
    ],
  )

  -- The sort ends with a list if there is no such list of steps: the rounds given are enough.
  pub topological_sort_total :
      ((names : List Text) → IsCycle steps names → ⊥)
      → (out : List Text) × (topological_sort order steps ≡ sorted out)
  topological_sort_total acyclic = elim (Result-cases (topological_sort order steps)) [
    | inl found ↦ found
    | inr (inl e) ↦ let (names, c) = topological_sort_cyclic.0 e in absurd (acyclic names c)
    | inr (inr e) ↦
        absurd (subst (SortsWell steps d) e (topological_sort-SortsWell steps d order v))
  ]
