-- ===== src/Pipeline/Topology/Graphs.antt =====
-- The graph that `topologicalSort` builds from the steps, in closed form.
use mathlib.Core.List.{append-nil, append_assoc}
use paddle_flow.Prelude.{
  Bool, Bool-cases, In, In-keys, In-keys_entry, List, NoDup, Text, [], ap, arith, false,
  if◌then◌else◌, inl, inr, insert_last, insert_new, keys, lookup, lookup_last, lookup_new, none,
  not, refl, some, subst, sym, text_empty, true, ◌++◌, ◌||◌, ◌∙◌, ◌∷◌, ◌≡◌, ◌⊎◌,
}
use paddle_flow.Schema.Workflow.{WorkflowSourceStep, get_deps}
use paddle_flow.Pipeline.Topology.{
  Steps, Graph, known_parents, record_deps, record_step, unsorted_from,
}

known_of_lookup :
    (name : Text) (g : Graph) (ps : List Text) → lookup name g ≡ some ps → known_parents name g ≡ ps
unfolding known_parents
known_of_lookup name g ps e = rw (e, known_parents)

known_of_none : (name : Text) (g : Graph) → lookup name g ≡ none → known_parents name g ≡ []
unfolding known_parents
known_of_none name g e = rw (e, known_parents)

module _ (name : Text) (g : Graph) (n : In name (keys g) → ⊥) where
  record_more :
      (deps ps : List Text)
      → record_deps name deps (g ++ (name, ps) ∷ []) ≡ g ++ (name, ps ++ deps) ∷ []
  unfolding record_deps
  record_more [] ps = rw (append-nil ps)
  record_more (dep ∷ deps) ps =
      rw
        (
          known_of_lookup name _ ps (lookup_last name ps g n),
          insert_last name (ps ++ dep ∷ []) ps g n,
        )
        (record_more deps (ps ++ dep ∷ [])
          ∙ ap (λ l. g ++ (name, l) ∷ []) (append_assoc ps (dep ∷ []) deps))

  record_first :
      (dep : Text) (deps : List Text)
      → record_deps name (dep ∷ deps) g ≡ g ++ (name, dep ∷ deps) ∷ []
  unfolding record_deps
  record_first dep deps =
      rw (known_of_none name g (lookup_new name g n), insert_new name (dep ∷ []) g n)
        (record_more deps (dep ∷ []))

abbrev pub is_nil : List Text → Bool
is_nil [] = true
is_nil (_ ∷ _) = false

-- The steps that reach `unsorted`: those whose text of dependencies is empty or names a step.
abbrev pub recorded : WorkflowSourceStep → Bool
recorded s = text_empty s.deps || not (is_nil (get_deps s))

abbrev pub entries : Steps → Graph
entries [] = []
entries ((name, s) ∷ steps) =
    let rest = entries steps in if recorded s then (name, get_deps s) ∷ rest else rest

get_deps_of_empty : (s : WorkflowSourceStep) → text_empty s.deps ≡ true → get_deps s ≡ []
unfolding get_deps
get_deps_of_empty s e = go s.deps e
  where
    go : (t : Text) → text_empty t ≡ true → get_deps (record s { deps = t }) ≡ []
    go [] e = refl
    go (c ∷ t) e = ground arith

-- What one step adds behind a graph that does not know it yet.
abbrev entry : Text → WorkflowSourceStep → Graph
entry name s = if recorded s then (name, get_deps s) ∷ [] else []

record_step_lem :
    (name : Text) (s : WorkflowSourceStep) (g : Graph)
    → (In name (keys g) → ⊥)
    → record_step name s g ≡ g ++ entry name s
unfolding record_step
record_step_lem name s g n = elim (Bool-cases (text_empty s.deps)) [
  | inl e ↦ rw (e, get_deps_of_empty s e) (insert_new name [] g n)
  | inr e ↦ rw e (go (get_deps s))
]
  where
    go :
        (deps : List Text)
        → record_deps name deps g ≡ g ++ (if not (is_nil deps) then (name, deps) ∷ [] else [])
    go [] = unfold record_deps in sym (append-nil g)
    go (dep ∷ deps) = record_first name g n dep deps

In-entry : (n name : Text) (s : WorkflowSourceStep) → In n (keys (entry name s)) → name ≡ n
In-entry n name s i = elim (Bool-cases (recorded s)) [
  | inl e ↦ only (rw e at i)
  | inr e ↦ absurd (rw e at i)
]
  where
    only : In n (keys ((name, get_deps s) ∷ [])) → name ≡ n
    only (inl q) = q
    only (inr h) = absurd h

entries_cons :
    (name : Text) (s : WorkflowSourceStep) (steps : Steps)
    → entry name s ++ entries steps ≡ entries ((name, s) ∷ steps)
entries_cons name s steps = elim (Bool-cases (recorded s)) [ inl e ↦ rw e | inr e ↦ rw e ]

In-keys-append : (n : Text) (g h : Graph) → In n (keys (g ++ h)) → In n (keys g) ⊎ In n (keys h)
In-keys-append n [] h i = inr i
In-keys-append n (e ∷ g) h (inl q) = inl (inl q)
In-keys-append n (e ∷ g) h (inr i) = elim (In-keys-append n g h i) [
  | inl l ↦ inl (inr l)
  | inr r ↦ inr r
]

unsorted_from-entries :
    (steps : Steps) (g : Graph)
    → NoDup (keys steps)
    → ((n : Text) → In n (keys steps) → In n (keys g) → ⊥)
    → unsorted_from steps g ≡ g ++ entries steps
unfolding unsorted_from
unsorted_from-entries [] g d n = sym (append-nil g)
unsorted_from-entries ((name, s) ∷ steps) g d n =
    rw (record_step_lem name s g (n name (inl refl))) (
      unsorted_from-entries steps (g ++ entry name s) d.1 apart
      ∙ append_assoc g (entry name s) (entries steps)
      ∙ ap (λ h. g ++ h) (entries_cons name s steps))
  where
    apart : (m : Text) → In m (keys steps) → In m (keys (g ++ entry name s)) → ⊥
    apart m i j = elim (In-keys-append m g (entry name s) j) [
      | inl old ↦ n m (inr i) old
      | inr new ↦ d.0 (subst (λ x. In x (keys steps)) (sym (In-entry m name s new)) i)
    ]

pub unsorted_of_steps :
    (steps : Steps) → NoDup (keys steps) → unsorted_from steps [] ≡ entries steps
unsorted_of_steps steps d = unsorted_from-entries steps [] d (λ n i j. j)

-- A step of the workflow that the sort takes in.
pub record IsRecorded (steps : Steps) (n : Text) : Type 0 where
  pub step : WorkflowSourceStep
  pub named : In (n, step) steps
  pub kept : recorded step ≡ true

pub IsRecorded-cons :
    (e : Text × WorkflowSourceStep) (steps : Steps) (n : Text)
    → IsRecorded steps n
    → IsRecorded (e ∷ steps) n
IsRecorded-cons e steps n r = record { step = r.step; named = inr r.named; kept = r.kept }

pub In-entries→IsRecorded :
    (steps : Steps) (n : Text) (ps : List Text)
    → In (n, ps) (entries steps)
    → (r : IsRecorded steps n) × (ps ≡ get_deps r.step)
unfolding IsRecorded-cons
In-entries→IsRecorded [] n ps i = absurd i
In-entries→IsRecorded ((name, s) ∷ steps) n ps i = elim (Bool-cases (recorded s)) [
  | inl e ↦ first e (In-entries→IsRecorded steps n ps) (rw e at i)
  | inr e ↦ later (In-entries→IsRecorded steps n ps (rw e at i))
]
  where
    later :
        (r : IsRecorded steps n) × (ps ≡ get_deps r.step)
        → (r : IsRecorded ((name, s) ∷ steps) n) × (ps ≡ get_deps r.step)
    later (r, q) = (IsRecorded-cons (name, s) steps n r, q)

    first :
        recorded s ≡ true
        → (In (n, ps) (entries steps) → (r : IsRecorded steps n) × (ps ≡ get_deps r.step))
        → In (n, ps) ((name, get_deps s) ∷ entries steps)
        → (r : IsRecorded ((name, s) ∷ steps) n) × (ps ≡ get_deps r.step)
    first e rec (inl q) = (
      record { step = s; named = inl (ap (λ t. (t, s)) (ap (λ x. x.0) q)); kept = e },
      sym (ap (λ x. x.1) q),
    )
    first e rec (inr j) = later (rec j)

pub IsRecorded→In-entries :
    (steps : Steps) (n : Text) (s : WorkflowSourceStep)
    → In (n, s) steps
    → recorded s ≡ true
    → In (n, get_deps s) (entries steps)
IsRecorded→In-entries [] n s i e = i
IsRecorded→In-entries ((name, t) ∷ steps) n s (inl q) e =
    subst (λ x. In (n, get_deps s) (entries (x ∷ steps))) (sym q) (rw (e, entries) (inl refl))
IsRecorded→In-entries ((name, t) ∷ steps) n s (inr i) e = elim (Bool-cases (recorded t)) [
  | inl f ↦ rw (f, entries) (inr (IsRecorded→In-entries steps n s i e))
  | inr f ↦ rw (f, entries) (IsRecorded→In-entries steps n s i e)
]

pub NoDup-entries : (steps : Steps) → NoDup (keys steps) → NoDup (keys (entries steps))
NoDup-entries [] d = tt
NoDup-entries ((name, s) ∷ steps) d = elim (Bool-cases (recorded s)) [
  | inl e ↦ rw (e, entries) (absent, NoDup-entries steps d.1)
  | inr e ↦ rw (e, entries) (NoDup-entries steps d.1)
]
  where
    absent : In name (keys (entries steps)) → ⊥
    absent i =
        let (ps, j) = In-keys_entry name (entries steps) i in
        let (r, _) = In-entries→IsRecorded steps name ps j in
        d.0 (In-keys name r.step steps r.named)
