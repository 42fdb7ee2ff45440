-- ===== src/Pipeline/Runtime/Moves.antt =====
-- What `updateStatus`, `Start` and `Restart` may change in a step (pkg/pipeline/run.go).
use paddle_flow.Prelude.{
  >>=-eq-some, Bool, Bool-cases, Text, [], ap, arith, false, if◌then◌else◌, inl, inr, length,
  or_assoc, refl, some, some-inj, subst, suc, true, ℕ, ◌&&◌, ◌+◌, ◌==◌, ◌||◌, ◌∙◌, ◌∷◌, ◌≡◌, ◌≤◌,
  ◌⊎◌,
}
use paddle_flow.Pipeline.Job.{is_failed, is_succeeded, is_terminated}
use paddle_flow.Pipeline.Runtime.{
  RunSteps, Step, Tally, is_deps_ready, tally_step, submit_if, tally_steps,
}

-- The steps of two maps in pairs, under the same names.
abbrev pub Zip : (Step → Step → Type 0) → RunSteps → RunSteps → Type 0
Zip R [] [] = Unit
Zip R ((n, s) ∷ xs) ((m, t) ∷ ys) = (n ≡ m) × R s t × Zip R xs ys
Zip R [] (_ ∷ _) = ⊥
Zip R (_ ∷ _) [] = ⊥

pub Zip-length : (R : Step → Step → Type 0) (xs ys : RunSteps) → Zip R xs ys → length ys ≡ length xs
Zip-length R [] [] z = refl
Zip-length R (_ ∷ xs) (_ ∷ ys) (e, r, z) = ap suc (Zip-length R xs ys z)
Zip-length R [] (_ ∷ _) z = absurd z
Zip-length R (_ ∷ _) [] z = absurd z

-- Only the submission may change, and a step is submitted anew only when it is ready.
pub record Moved (all : RunSteps) (s t : Step) : Type 0 where
  pub same_info : t.info ≡ s.info
  pub same_job : t.job ≡ s.job
  pub same_done : t.done ≡ s.done
  pub same_phase : t.phase ≡ s.phase
  pub same_pending : t.pending ≡ s.pending
  pub signal :
      (t.submitted ≡ s.submitted) × (t.ready ≡ s.ready)
      ⊎ (s.submitted ≡ false)
        × (t.submitted ≡ true)
        × (t.ready ≡ s.ready + 1)
        × (is_deps_ready all s ≡ some true)

submit_if-Moved :
    (all : RunSteps) (st : Step) (ready : Bool)
    → is_deps_ready all st ≡ some ready
    → Moved all st (submit_if st ready)
submit_if-Moved all st ready e = ground arith

-- A step that counts as done in `updateStatus`.
abbrev pub step_ended : Step → Bool
step_ended st = is_succeeded st.job || (is_failed st.job || (is_terminated st.job || st.done))

record Tallied (all : RunSteps) (st : Step) (t : Tally) (st' : Step) (t' : Tally) : Type 0 where
  moved : Moved all st st'
  counted : t'.step_done ≡ t.step_done + (if step_ended st then 1 else 0)
  failed_seen : t'.has_failed_step ≡ (t.has_failed_step || is_failed st.job)
  terminated_seen : t'.has_terminated_step ≡ (t.has_terminated_step || is_terminated st.job)

tally_step-Tallied :
    (all : RunSteps) (st : Step) (t : Tally) (st' : Step) (t' : Tally)
    → tally_step all st t ≡ some (st', t')
    → Tallied all st t st' t'
unfolding tally_step
tally_step-Tallied all st t st' t' h = ground arith

abbrev pub count_ended : RunSteps → ℕ
count_ended [] = 0
count_ended ((n, st) ∷ steps) = (if step_ended st then 1 else 0) + count_ended steps

abbrev pub all_ended : RunSteps → Bool
all_ended [] = true
all_ended ((n, st) ∷ steps) = step_ended st && all_ended steps

abbrev pub any_failed : RunSteps → Bool
any_failed [] = false
any_failed ((n, st) ∷ steps) = is_failed st.job || any_failed steps

abbrev pub any_terminated : RunSteps → Bool
any_terminated [] = false
any_terminated ((n, st) ∷ steps) = is_terminated st.job || any_terminated steps

count_ended-le : (steps : RunSteps) → count_ended steps ≤ length steps
count_ended-le [] = omega arith
count_ended-le ((n, st) ∷ steps) = ground (arith, count_ended-le steps)

-- The test `stepDone == len(wfr.steps)`.
pub count_ended-all : (steps : RunSteps) → (count_ended steps == length steps) ≡ all_ended steps
count_ended-all [] = refl
count_ended-all ((n, st) ∷ steps) = elim (Bool-cases (step_ended st)) [
  | inl e ↦ rw (e, count_ended, all_ended) (ground (arith, count_ended-all steps))
  | inr e ↦ rw (e, count_ended, all_ended) (ground (arith, count_ended-le steps))
]

pub record AllTallied (all steps : RunSteps) (t : Tally) (steps' : RunSteps) (t' : Tally)
    : Type 0 where
  pub moved : Zip (Moved all) steps steps'
  pub counted : t'.step_done ≡ t.step_done + count_ended steps
  pub failed_seen : t'.has_failed_step ≡ (t.has_failed_step || any_failed steps)
  pub terminated_seen : t'.has_terminated_step ≡ (t.has_terminated_step || any_terminated steps)

AllTallied-nil : (all : RunSteps) (t : Tally) → AllTallied all [] t [] t
AllTallied-nil all t = ground arith

AllTallied-cons :
    (all : RunSteps) (n : Text) (st st' : Step) (steps steps' : RunSteps) (t t' t'' : Tally)
    → Tallied all st t st' t'
    → AllTallied all steps t' steps' t''
    → AllTallied all ((n, st) ∷ steps) t ((n, st') ∷ steps') t''
AllTallied-cons all n st st' steps steps' t t' t'' h k = record {
  moved = (refl, h.moved, k.moved);
  counted = omega (arith, h.counted, k.counted);
  failed_seen =
      k.failed_seen
      ∙ ap (λ b. b || any_failed steps) h.failed_seen
      ∙ or_assoc t.has_failed_step (is_failed st.job) (any_failed steps);
  terminated_seen =
      k.terminated_seen
      ∙ ap (λ b. b || any_terminated steps) h.terminated_seen
      ∙ or_assoc t.has_terminated_step (is_terminated st.job) (any_terminated steps);
}

pub tally_steps-AllTallied :
    (all steps : RunSteps) (t : Tally) (steps' : RunSteps) (t' : Tally)
    → tally_steps all steps t ≡ some (steps', t')
    → AllTallied all steps t steps' t'
unfolding tally_steps
tally_steps-AllTallied all [] t steps' t' h =
    subst (λ (r : RunSteps × Tally). AllTallied all [] t r.0 r.1) (some-inj h)
      (AllTallied-nil all t)
tally_steps-AllTallied all ((n, st) ∷ steps) t steps' t' h =
    let ((st', u), e, h') = >>=-eq-some (tally_step all st t) _ h in
    let ((s, v), f, h'') = >>=-eq-some (tally_steps all steps u) _ h' in
    subst (λ (r : RunSteps × Tally). AllTallied all ((n, st) ∷ steps) t r.0 r.1) (some-inj h'')
      (AllTallied-cons all n st st' steps s t u v (tally_step-Tallied all st t st' u e)
        (tally_steps-AllTallied all steps u s v f))
