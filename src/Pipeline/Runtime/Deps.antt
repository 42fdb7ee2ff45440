-- ===== src/Pipeline/Runtime/Deps.antt =====
-- When `isDepsReady` says yes, and when it panics (pkg/pipeline/run.go).
use paddle_flow.Prelude.{
  Bool, Bool-cases, List, Option, Option-cases, Text, [], false, if◌then◌else◌, inl, inr, is_blank,
  lookup, none, none≢some, refl, some, some-inj, split, subst, sym, text_empty, trim, true, ◌↔◌,
  ◌∙◌, ◌∷◌, ◌≡◌, ◌⊎◌,
}
use mathlib.Core.Bool.{false≢true}
use paddle_flow.Pipeline.Runtime.{RunSteps, Step, deps_ready, job_finished_well, is_deps_ready}

-- The names that `isDepsReady` looks up.
abbrev pub names_of : List Text → List Text
names_of [] = []
names_of (part ∷ parts) =
    let dep = trim is_blank part in
    let rest = names_of parts in if text_empty dep then rest else dep ∷ rest

abbrev pub waits_for : Step → List Text
waits_for st = names_of (split b',' st.info.deps)

-- The step named `dep` is there, and its job succeeded or its result was cached.
pub record FinishedWell (steps : RunSteps) (dep : Text) : Type 0 where
  pub step : Step
  pub found : lookup dep steps ≡ some step
  pub well : job_finished_well step ≡ true

abbrev pub AllFinishedWell : RunSteps → List Text → Type 0
AllFinishedWell steps [] = Unit
AllFinishedWell steps (dep ∷ deps) = FinishedWell steps dep × AllFinishedWell steps deps

abbrev pub SomeUnknown : RunSteps → List Text → Type 0
SomeUnknown steps [] = ⊥
SomeUnknown steps (dep ∷ deps) = (lookup dep steps ≡ none) ⊎ SomeUnknown steps deps

AllFinishedWell-known :
    (steps : RunSteps) (deps : List Text) → AllFinishedWell steps deps → SomeUnknown steps deps → ⊥
AllFinishedWell-known steps [] all u = u
AllFinishedWell-known steps (dep ∷ deps) (f, all) (inl u) = none≢some (sym u ∙ f.found)
AllFinishedWell-known steps (dep ∷ deps) (f, all) (inr u) = AllFinishedWell-known steps deps all u

-- The three results of the loop, for the flag that it starts from.
abbrev Meaning : RunSteps → List Text → Bool → Option Bool → Type 0
Meaning steps deps ready none = SomeUnknown steps deps
Meaning steps deps ready (some true) = (ready ≡ true) × AllFinishedWell steps deps
Meaning steps deps ready (some false) =
    (SomeUnknown steps deps → ⊥) × ((ready ≡ true) × AllFinishedWell steps deps → ⊥)

Meaning-skip :
    (steps : RunSteps) (dep : Text) (deps : List Text) (st : Step) (ready : Bool) (r : Option Bool)
    → lookup dep steps ≡ some st
    → Meaning steps deps (if job_finished_well st then ready else false) r
    → Meaning steps (dep ∷ deps) ready r
Meaning-skip steps dep deps st ready none e m = inr m
Meaning-skip steps dep deps st ready (some true) e m = elim (Bool-cases (job_finished_well st)) [
  | inl w ↦ let (r, all) = (rw w at m) in (r, (record { step = st; found = e; well = w }, all))
  | inr w ↦ absurd (false≢true (rw w at m).0)
]
Meaning-skip steps dep deps st ready (some false) e m = (known, λ (r, (f, all)). unready r f all)
  where
    known : SomeUnknown steps (dep ∷ deps) → ⊥
    known (inl u) = none≢some (sym u ∙ e)
    known (inr u) = m.0 u

    unready : ready ≡ true → FinishedWell steps dep → AllFinishedWell steps deps → ⊥
    unready r f all =
        let same : f.step ≡ st = some-inj (sym f.found ∙ e) in
        let well : job_finished_well st ≡ true =
          subst (λ x. job_finished_well x ≡ true) same f.well in
        m.1 (rw well r, all)

names_of_blank :
    (part : Text) (parts : List Text)
    → text_empty (trim is_blank part) ≡ true
    → names_of (part ∷ parts) ≡ names_of parts
names_of_blank part parts e = rw e

names_of_name :
    (part : Text) (parts : List Text)
    → text_empty (trim is_blank part) ≡ false
    → names_of (part ∷ parts) ≡ trim is_blank part ∷ names_of parts
names_of_name part parts e = rw e

deps_ready-Meaning :
    (steps : RunSteps) (parts : List Text) (ready : Bool)
    → Meaning steps (names_of parts) ready (deps_ready steps parts ready)
unfolding deps_ready
deps_ready-Meaning steps [] true = (refl, tt)
deps_ready-Meaning steps [] false = ((λ u. u), (λ (r, _). false≢true r))
deps_ready-Meaning steps (part ∷ parts) ready =
    elim (Bool-cases (text_empty (trim is_blank part))) [
      | inl e ↦
          subst (λ l. Meaning steps l ready (deps_ready steps (part ∷ parts) ready))
            (sym (names_of_blank part parts e))
            (rw (e, Meaning) (deps_ready-Meaning steps parts ready))
      | inr e ↦
          subst (λ l. Meaning steps l ready (deps_ready steps (part ∷ parts) ready))
            (sym (names_of_name part parts e))
            (rw (e, Meaning)
              (elim (Option-cases (lookup (trim is_blank part) steps)) [
                | inl u ↦ rw (u, Meaning) (inl u)
                | inr (st, f) ↦
                    rw (f, Meaning)
                      (Meaning-skip steps (trim is_blank part) (names_of parts) st ready _ f (
                        deps_ready-Meaning steps parts
                          (if job_finished_well st then ready else false)))
              ]))
    ]

module _ (steps : RunSteps) (st : Step) where
  -- `isDepsReady` says yes exactly when every step that the text of dependencies names is there and
  -- its job succeeded or its result was cached.
  pub is_deps_ready-true :
      (is_deps_ready steps st ≡ some true) ↔ AllFinishedWell steps (waits_for st)
  unfolding is_deps_ready
  is_deps_ready-true =
      go (is_deps_ready steps st) (deps_ready-Meaning steps (split b',' st.info.deps) true)
    where
      go :
          (r : Option Bool)
          → Meaning steps (waits_for st) true r
          → (r ≡ some true) ↔ AllFinishedWell steps (waits_for st)
      go none m =
          ((λ e. absurd (none≢some e)), (λ all. absurd (AllFinishedWell-known steps _ all m)))
      go (some true) m = ((λ _. m.1), (λ _. refl))
      go (some false) m =
          ((λ e. absurd (false≢true (some-inj e))), (λ all. absurd (m.1 (refl, all))))

  -- `isDepsReady` panics exactly when the text of dependencies names a step that the run does not
  -- have.
  pub is_deps_ready_panic : (is_deps_ready steps st ≡ none) ↔ SomeUnknown steps (waits_for st)
  unfolding is_deps_ready
  is_deps_ready_panic =
      go (is_deps_ready steps st) (deps_ready-Meaning steps (split b',' st.info.deps) true)
    where
      go :
          (r : Option Bool)
          → Meaning steps (waits_for st) true r
          → (r ≡ none) ↔ SomeUnknown steps (waits_for st)
      go none m = ((λ _. m), (λ _. refl))
      go (some true) m =
          ((λ e. absurd (none≢some (sym e))), (λ u. absurd (AllFinishedWell-known steps _ m.1 u)))
      go (some false) m = ((λ e. absurd (none≢some (sym e))), (λ u. absurd (m.0 u)))
