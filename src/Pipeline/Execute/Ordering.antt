-- ===== src/Pipeline/Execute/Ordering.antt =====
-- No step starts before the steps that it depends on have finished well.
use paddle_flow.Prelude.{
  Bool, Bool-cases, List, Option, Text, [], false, if◌then◌else◌, inl, inr, insert, lookup,
  lookup-insert, none, some, some-inj, subst, sym, text_eq, text_eq→eq, true, ◌∙◌, ◌∷◌, ◌≡◌, ◌≤◌,
}
use paddle_flow.Schema.Jobs.{JobStatus, unset}
use paddle_flow.Pipeline.Job.{status_not_ended}
use paddle_flow.Pipeline.Runtime.{
  idle, selecting, acquiring, watching, Phase, RunSteps, Step, job_finished_well,
}
use paddle_flow.Pipeline.Runtime.Deps.{AllFinishedWell, waits_for}

-- Has the goroutine read the signal, and is its job not looked at yet?
abbrev pub phase_signalled : Phase → Bool
phase_signalled acquiring = true
phase_signalled watching = true
phase_signalled _ = false

abbrev pub phase_unstarted : Phase → Bool
phase_unstarted idle = true
phase_unstarted selecting = true
phase_unstarted acquiring = true
phase_unstarted _ = false

abbrev pub has_pending : Option (JobStatus × Text) → Bool
has_pending none = false
has_pending (some _) = true

pub record IsLocal (st : Step) : Type 0 where
  pub one_signal : st.ready ≤ (if st.submitted then 1 else 0)
  pub signalled : phase_signalled st.phase ≡ true → st.submitted ≡ true
  pub unstarted : phase_unstarted st.phase ≡ true → st.job.status ≡ unset
  pub live : has_pending st.pending ≡ true → status_not_ended st.job.status ≡ true
  pub quiet : phase_unstarted st.phase ≡ true → has_pending st.pending ≡ false

pub record IsOrderly (steps : RunSteps) (st : Step) : Type 0 where
  pub local_ok : IsLocal st
  pub ordered : st.submitted ≡ true → AllFinishedWell steps (waits_for st)

abbrev pub AllOrderly : RunSteps → Type 0
AllOrderly steps = (n : Text) (st : Step) → lookup n steps ≡ some st → IsOrderly steps st

-- A change of one step that keeps what the others rely on.
pub record Grows (st st' : Step) : Type 0 where
  pub same_info : st'.info ≡ st.info
  pub same_submitted : st'.submitted ≡ st.submitted
  pub well_stays : job_finished_well st ≡ true → job_finished_well st' ≡ true
  pub local_ok : IsLocal st'

-- Every step of the first map is in the second, and what finished well stays so.
abbrev pub Later : RunSteps → RunSteps → Type 0
Later steps steps' =
    (n : Text) (st : Step)
    → lookup n steps ≡ some st
    → (st' : Step) × (lookup n steps' ≡ some st')
      × (job_finished_well st ≡ true → job_finished_well st' ≡ true)

pub AllFinishedWell-Later :
    (steps steps' : RunSteps) (deps : List Text)
    → Later steps steps'
    → AllFinishedWell steps deps
    → AllFinishedWell steps' deps
AllFinishedWell-Later steps steps' [] l all = tt
AllFinishedWell-Later steps steps' (dep ∷ deps) l (f, all) =
    let (st', found, stays) = l dep f.step f.found in
    (
      record { step = st'; found = found; well = stays f.well },
      AllFinishedWell-Later steps steps' deps l all,
    )

pub waits_for_of_info : (st st' : Step) → st'.info ≡ st.info → waits_for st ≡ waits_for st'
waits_for_of_info st st' e = rw e

module _ (steps : RunSteps) (n : Text) (st st' : Step) (found : lookup n steps ≡ some st)
    (g : Grows st st') where
  Later-insert : Later steps (insert n st' steps)
  Later-insert m s e = elim (Bool-cases (text_eq n m)) [
    | inl q ↦
        let same : st ≡ s =
          some-inj (sym found ∙ subst (λ x. lookup x steps ≡ some s) (sym (text_eq→eq n m q)) e) in
        (
          st',
          rw (lookup-insert n m st' steps, q),
          λ w. g.well_stays (subst (λ x. job_finished_well x ≡ true) (sym same) w),
        )
    | inr q ↦ (s, rw (lookup-insert n m st' steps, q) e, λ w. w)
  ]

  pub AllOrderly-insert : AllOrderly steps → AllOrderly (insert n st' steps)
  AllOrderly-insert all m t e = elim (Bool-cases (text_eq n m)) [
    | inl q ↦
        subst (IsOrderly (insert n st' steps))
          (some-inj (sym (rw (lookup-insert n m st' steps, q)) ∙ e))
          (record {
            local_ok = g.local_ok;
            ordered = λ s. rw (← waits_for_of_info st st' g.same_info) (
                AllFinishedWell-Later steps (insert n st' steps) (waits_for st) Later-insert
                  ((all n st found).ordered (sym g.same_submitted ∙ s)));
          })
    | inr q ↦
        let old = all m t (sym (rw (lookup-insert n m st' steps, q)) ∙ e) in
        record {
          local_ok = old.local_ok;
          ordered = λ s.
              AllFinishedWell-Later steps (insert n st' steps) (waits_for t) Later-insert
                (old.ordered s);
        }
  ]
