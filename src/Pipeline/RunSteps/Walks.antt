-- ===== src/Pipeline/RunSteps/Walks.antt =====
-- What the walk of `getRunSteps` over dependencies makes of its map.
use paddle_flow.Prelude.{
  Bool-cases, In, In-append, In-keys, In-keys-snoc, In-keys-snoc_new, In-keys-snoc_old, In→has,
  List, Option, Option-cases, Text, [], arith, false, has, has_of_none, has→In, inl, inr, insert,
  insert_new, keys, lookup, lookup→In, none, not-has→In, refl, some, subst, suc, sym, true, zero, ℕ,
  ◌++◌, ◌<◌, ◌∙◌, ◌∷◌, ◌≡◌, ◌⊎◌,
}
use mathlib.Core.Bool.{false≢true}
use paddle_flow.Schema.Workflow.{WorkflowSourceStep, get_deps}
use paddle_flow.Pipeline.Topology.{Steps}
use paddle_flow.Pipeline.RunSteps.{visit_deps, recursive_get_run_steps}
use paddle_flow.Pipeline.RunSteps.Missing.{missing, Keeps, missing-le, missing-lt}

-- The steps that a step depends on, directly or by others.
pub data Reaches (source : Steps) (root : Text) : Text → Type 0 where
  here : Reaches source root root
  along :
      {n : Text} (s : WorkflowSourceStep) (dep : Text)
      → Reaches source root n
      → lookup n source ≡ some s
      → In dep (get_deps s)
      → Reaches source root dep

abbrev pub Returns : (Steps → Type 0) → Option Steps → Type 0
Returns P none = ⊥
Returns P (some steps) = P steps

module _ (source : Steps) (root : Text) where
  abbrev pub Visited : Steps → Text → Type 0
  Visited steps dep = has dep source ≡ true → In dep (keys steps)

  abbrev pub IsClosed : Steps → Text → Type 0
  IsClosed steps n =
      (s : WorkflowSourceStep) (dep : Text)
      → lookup n source ≡ some s
      → In dep (get_deps s)
      → Visited steps dep

  abbrev pub IsSound : Steps → Type 0
  IsSound steps =
      (n : Text) (s : WorkflowSourceStep)
      → In (n, s) steps
      → (lookup n source ≡ some s) × Reaches source root n

  -- What a walk over `deps` makes of the map.
  pub record Walked (deps : List Text) (old new : Steps) : Type 0 where
    pub keeps : Keeps old new
    pub closed : (n : Text) → In n (keys new) → In n (keys old) ⊎ IsClosed new n
    pub visited : (dep : Text) → In dep deps → Visited new dep
    pub sound : ((dep : Text) → In dep deps → Reaches source root dep) → IsSound old → IsSound new

  Walked-nil : (steps : Steps) → Walked [] steps steps
  Walked-nil steps = record {
    keeps = λ n i. i;
    closed = λ n i. inl i;
    visited = λ dep i. absurd i;
    sound = λ r h. h;
  }

  Walked-cons :
      (dep : Text) (deps : List Text) (a b c : Steps)
      → Walked (dep ∷ []) a b
      → Walked deps b c
      → Walked (dep ∷ deps) a c
  Walked-cons dep deps a b c p q = record {
    keeps = λ n i. q.keeps n (p.keeps n i);
    closed = λ n i. elim (q.closed n i) [
      | inl old ↦ elim (p.closed n old) [
        | inl older ↦ inl older
        | inr cl ↦ inr (λ s x e m h. q.keeps x (cl s x e m h))
      ]
      | inr cl ↦ inr cl
    ];
    visited = λ x i. visited i;
    sound = λ r h. q.sound (λ x i. r x (inr i)) (p.sound (λ x i. r x (only i)) h);
  }
    where
      visited : {x : Text} → In x (dep ∷ deps) → Visited c x
      visited {x} (inl e) h = q.keeps x (p.visited x (inl e) h)
      visited {x} (inr i) h = q.visited x i h

      only : {x : Text} → In x (dep ∷ []) → In x (dep ∷ deps)
      only (inl e) = inl e
      only (inr i) = absurd i

  visit_deps-Walked :
      (k : ℕ) (go : Text → Steps → Option Steps)
      → ((dep : Text) (steps : Steps)
          → missing source steps < k
          → Returns (Walked (dep ∷ []) steps) (go dep steps))
      → (deps : List Text) (steps : Steps) → missing source steps < k
      → Returns (Walked deps steps) (visit_deps go deps steps)
  unfolding visit_deps
  visit_deps-Walked k go h [] steps m = Walked-nil steps
  visit_deps-Walked k go h (dep ∷ deps) steps m =
      next (go dep steps) (h dep steps m) (λ b. visit_deps-Walked k go h deps b)
    where
      next :
          (r : Option Steps)
          → Returns (Walked (dep ∷ []) steps) r
          → ((b : Steps) → missing source b < k → Returns (Walked deps b) (visit_deps go deps b))
          → Returns
              (Walked (dep ∷ deps) steps)
              (elim r [ none ↦ none | some b ↦ visit_deps go deps b ])
      next none w rec = w
      next (some b) w rec =
          join (visit_deps go deps b) (rec b (omega (arith, missing-le source steps b w.keeps)))
        where
          join :
              (r : Option Steps) → Returns (Walked deps b) r → Returns (Walked (dep ∷ deps) steps) r
          join none q = q
          join (some c) q = Walked-cons dep deps steps b c w q

  Walked-present :
      (entry : Text) (steps : Steps) → has entry steps ≡ true → Walked (entry ∷ []) steps steps
  Walked-present entry steps h = record {
    keeps = λ n i. i;
    closed = λ n i. inl i;
    visited = λ dep i _. present i;
    sound = λ r s. s;
  }
    where
      present : {dep : Text} → In dep (entry ∷ []) → In dep (keys steps)
      present (inl e) = subst (λ x. In x (keys steps)) e (has→In entry steps h)
      present (inr i) = absurd i

  Walked-unknown :
      (entry : Text) (steps : Steps) → lookup entry source ≡ none → Walked (entry ∷ []) steps steps
  Walked-unknown entry steps h = record {
    keeps = λ n i. i;
    closed = λ n i. inl i;
    visited = λ dep i k. unknown i k;
    sound = λ r s. s;
  }
    where
      unknown : {dep : Text} → In dep (entry ∷ []) → has dep source ≡ true → In dep (keys steps)
      unknown (inl e) k = absurd (
          false≢true
            (sym (has_of_none entry source h) ∙ subst (λ x. has x source ≡ true) (sym e) k))
      unknown (inr i) k = absurd i

  -- The walk over the dependencies of a step that was just added, as a walk at that step.
  Walked-added :
      (entry : Text) (step : WorkflowSourceStep) (steps new : Steps)
      → lookup entry source ≡ some step
      → Walked (get_deps step) (steps ++ (entry, step) ∷ []) new
      → Walked (entry ∷ []) steps new
  Walked-added entry step steps new found w = record {
    keeps = λ n i. w.keeps n (In-keys-snoc_old n entry step steps i);
    closed = λ n i. elim (w.closed n i) [
      | inl old ↦ elim (In-keys-snoc n entry step steps old) [
        | inl older ↦ inl older
        | inr e ↦ inr (
            subst (IsClosed new) e (λ s dep q m.
              let same : s ≡ step = cc in w.visited dep (subst (λ t. In dep (get_deps t)) same m)))
      ]
      | inr cl ↦ inr cl
    ];
    visited = λ dep i _. added i;
    sound = λ r h.
        let reach = r entry (inl refl) in
        w.sound (λ dep m. along step dep reach found m) (λ n s i. from h reach i);
  }
    where
      added : {dep : Text} → In dep (entry ∷ []) → In dep (keys new)
      added (inl e) =
          subst (λ x. In x (keys new)) e (w.keeps entry (In-keys-snoc_new entry step steps))
      added (inr i) = absurd i

      from :
          IsSound steps
          → Reaches source root entry
          → {n : Text} {s : WorkflowSourceStep} → In (n, s) (steps ++ (entry, step) ∷ [])
          → (lookup n source ≡ some s) × Reaches source root n
      from h reach {n} {s} i = elim (In-append (n, s) steps ((entry, step) ∷ []) i) [
        | inl old ↦ h n s old
        | inr (inl e) ↦
            subst
              (λ (x : Text × WorkflowSourceStep).
                (lookup x.0 source ≡ some x.1) × Reaches source root x.0)
              e (found, reach)
        | inr (inr a) ↦ absurd a
      ]

  Walked-step :
      (fuel : ℕ) (go : Text → Steps → Option Steps)
      → ((dep : Text) (old : Steps)
          → missing source old < fuel
          → Returns (Walked (dep ∷ []) old) (go dep old))
      → (entry : Text) (steps : Steps) (step : WorkflowSourceStep) → missing source steps < suc fuel
      → has entry steps ≡ false
      → lookup entry source ≡ some step
      → Returns
          (Walked (entry ∷ []) steps)
          (visit_deps go (get_deps step) (insert entry step steps))
  Walked-step fuel go rec entry steps step m h found =
      rw (insert_new entry step steps (not-has→In entry steps h))
        (finish _ (visit_deps-Walked fuel go rec (get_deps step) added (omega (arith, less))))
    where
      added : Steps
      added = steps ++ (entry, step) ∷ []

      less : missing source added < missing source steps
      less =
          missing-lt source steps added entry (λ n i. In-keys-snoc_old n entry step steps i)
            (In-keys entry step source (lookup→In entry step source found)) h
            (In→has entry added (In-keys-snoc_new entry step steps))

      finish :
          (r : Option Steps)
          → Returns (Walked (get_deps step) added) r
          → Returns (Walked (entry ∷ []) steps) r
      finish none w = w
      finish (some new) w = Walked-added entry step steps new found w

  pub recursive_get_run_steps-Walked :
      (fuel : ℕ) (entry : Text) (steps : Steps)
      → missing source steps < fuel
      → Returns (Walked (entry ∷ []) steps) (recursive_get_run_steps fuel source entry steps)
  unfolding recursive_get_run_steps
  recursive_get_run_steps-Walked zero entry steps m = absurd (omega arith)
  recursive_get_run_steps-Walked (suc fuel) entry steps m = elim (Bool-cases (has entry steps)) [
    | inl h ↦ rw (h, Returns) (Walked-present entry steps h)
    | inr h ↦
        rw (h, Returns)
          (elim (Option-cases (lookup entry source)) [
            | inl e ↦ rw (e, Returns) (Walked-unknown entry steps e)
            | inr (step, e) ↦
                rw (e, Returns)
                  (Walked-step fuel (recursive_get_run_steps fuel source)
                    (recursive_get_run_steps-Walked fuel) entry steps step m h e)
          ])
  ]
