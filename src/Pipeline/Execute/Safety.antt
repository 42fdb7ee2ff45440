-- ===== src/Pipeline/Execute/Safety.antt =====
-- No step starts before the steps that it depends on have finished well, whatever the interleaving.
use paddle_flow.Prelude.{
  >>=-eq-some, Bool, Bool-cases, Option, Text, [], arith, false, inl, inr, lookup, none, refl, some,
  some-inj, subst, sym, text_eq, true, ◌>>=◌, ◌||◌, ◌∙◌, ◌∷◌, ◌≡◌,
}
use paddle_flow.Schema.Jobs.{cancelled}
use paddle_flow.Pipeline.Event.{WorkflowEvent}
use paddle_flow.Pipeline.Job.{is_cached, is_succeeded}
use paddle_flow.Pipeline.Runtime.{
  RunSteps, Step, RunUpdate, WorkflowRuntime, callback, is_completed, job_finished_well,
  process_event, stop, update_status,
}
use paddle_flow.Pipeline.Runtime.Deps.{AllFinishedWell, is_deps_ready-true, waits_for}
use paddle_flow.Pipeline.Runtime.Moves.{Moved, Zip}
use paddle_flow.Pipeline.Runtime.Verdict.{update_status-Verdict}
use paddle_flow.Pipeline.Execute.{execute_cancelled}
use paddle_flow.Pipeline.Execute.Traces.{
  Moves, Reaches, acquire, announce, announce_error, handle, here, notice_cancel, receive, settle,
  stop_failed, take_signal, user_stop, next,
}
use paddle_flow.Pipeline.Execute.Ordering.{
  IsLocal, AllFinishedWell-Later, AllOrderly, IsOrderly, Later, phase_unstarted, waits_for_of_info,
}
use paddle_flow.Pipeline.Execute.Growth.{
  GrowsTo, GrowsTo-AllOrderly, announce-Grows, announce_error-Grows, execute_with_slot-Grows,
  given_up-Grows, settle-Grows, take_signal-Grows, watch_event-Grows,
}

pub Zip-lookup :
    (R : Step → Step → Type 0) (xs ys : RunSteps) (n : Text) (t : Step)
    → Zip R xs ys
    → lookup n ys ≡ some t
    → (s : Step) × (lookup n xs ≡ some s) × R s t
unfolding lookup
Zip-lookup R [] [] n t z e = cc
Zip-lookup R ((m, s) ∷ xs) ((k, u) ∷ ys) n t (q, r, z) e = elim (Bool-cases (text_eq m n)) [
  | inl h ↦
      let h' : text_eq k n ≡ true = subst (λ x. text_eq x n ≡ true) q h in
      (s, rw h, subst (R s) (some-inj (rw h' at e)) r)
  | inr h ↦
      let h' : text_eq k n ≡ false = subst (λ x. text_eq x n ≡ false) q h in
      rw h (Zip-lookup R xs ys n t z (rw h' at e))
]
Zip-lookup R [] (_ ∷ _) n t z e = absurd z
Zip-lookup R (_ ∷ _) [] n t z e = absurd z

pub Zip-lookup_forth :
    (R : Step → Step → Type 0) (xs ys : RunSteps) (n : Text) (s : Step)
    → Zip R xs ys
    → lookup n xs ≡ some s
    → (t : Step) × (lookup n ys ≡ some t) × R s t
unfolding lookup
Zip-lookup_forth R [] [] n s z e = cc
Zip-lookup_forth R ((m, u) ∷ xs) ((k, t) ∷ ys) n s (q, r, z) e = elim (Bool-cases (text_eq m n)) [
  | inl h ↦
      let h' : text_eq k n ≡ true = subst (λ x. text_eq x n ≡ true) q h in
      (t, rw h', subst (λ x. R x t) (some-inj (rw h at e)) r)
  | inr h ↦
      let h' : text_eq k n ≡ false = subst (λ x. text_eq x n ≡ false) q h in
      rw h' (Zip-lookup_forth R xs ys n s z (rw h at e))
]
Zip-lookup_forth R [] (_ ∷ _) n s z e = absurd z
Zip-lookup_forth R (_ ∷ _) [] n s z e = absurd z

-- Submitting the steps that are ready.
Moved-IsLocal : (all : RunSteps) (s t : Step) → Moved all s t → IsLocal s → IsLocal t
Moved-IsLocal all s t m h = ground arith

Moved-well :
    (all : RunSteps) (s t : Step)
    → Moved all s t
    → job_finished_well s ≡ true
    → job_finished_well t ≡ true
Moved-well all s t m h = subst (λ j. (is_succeeded j || is_cached j) ≡ true) (sym m.same_job) h

Zip-Later : (all xs ys : RunSteps) → Zip (Moved all) xs ys → Later xs ys
Zip-Later all xs ys z n s e =
    let (t, f, m) = Zip-lookup_forth (Moved all) xs ys n s z e in (t, f, Moved-well all s t m)

Zip-AllOrderly : (xs ys : RunSteps) → Zip (Moved xs) xs ys → AllOrderly xs → AllOrderly ys
Zip-AllOrderly xs ys z all n t e =
    let (s, f, m) = Zip-lookup (Moved xs) xs ys n t z e in
    let old = all n s f in
    record {
      local_ok = Moved-IsLocal xs s t m old.local_ok;
      ordered = λ sub. rw (← waits_for_of_info s t m.same_info) (
          AllFinishedWell-Later xs ys (waits_for s) (Zip-Later xs xs ys z)
            (was_ready s t m old sub));
    }
  where
    was_ready :
        (s t : Step)
        → Moved xs s t
        → IsOrderly xs s
        → t.submitted ≡ true
        → AllFinishedWell xs (waits_for s)
    was_ready s t m old sub = elim (m.signal) [
      | inl (same, _) ↦ old.ordered (sym same ∙ sub)
      | inr (_, _, _, ready) ↦ (is_deps_ready-true xs s).0 ready
    ]

unfoldable pub handled :
    WorkflowRuntime → WorkflowEvent → Bool → Option (WorkflowRuntime × Option RunUpdate)
handled w e true = some (w, none)
handled w e false = do u ← update_status w; some (u, some (callback u e))

handled-AllOrderly :
    (w v : WorkflowRuntime) (e : WorkflowEvent) (upd : Option RunUpdate) (b : Bool)
    → is_completed w ≡ b
    → AllOrderly w.steps
    → handled w e b ≡ some (v, upd)
    → AllOrderly v.steps
unfolding handled
handled-AllOrderly w v e upd true c all h =
    subst (λ (r : WorkflowRuntime × Option RunUpdate). AllOrderly (r.0).steps) (some-inj h) all
handled-AllOrderly w v e upd false c all h =
    let (u, f, h') = >>=-eq-some (update_status w) _ h in
    subst (λ (r : WorkflowRuntime × Option RunUpdate). AllOrderly (r.0).steps) (some-inj h')
      (Zip-AllOrderly w.steps u.steps (update_status-Verdict w u c f).moved all)

pub process_event-handled :
    (w : WorkflowRuntime) (e : WorkflowEvent) → process_event w e ≡ handled w e (is_completed w)
unfolding process_event handled
process_event-handled w e = elim (Bool-cases (is_completed w)) [ inl c ↦ rw c | inr c ↦ rw c ]

process_event-AllOrderly :
    (w v : WorkflowRuntime) (e : WorkflowEvent) (upd : Option RunUpdate)
    → AllOrderly w.steps
    → process_event w e ≡ some (v, upd)
    → AllOrderly v.steps
process_event-AllOrderly w v e upd all h =
    handled-AllOrderly w v e upd (is_completed w) refl all (sym (process_event-handled w e) ∙ h)

pub stop-steps : (w : WorkflowRuntime) → (stop w).steps ≡ w.steps
unfolding stop
stop-steps w = ground arith

Moves-AllOrderly :
    (enable : Bool) (w v : WorkflowRuntime)
    → AllOrderly w.steps
    → Moves enable w v
    → AllOrderly v.steps
unfolding execute_cancelled
Moves-AllOrderly enable w v all (notice_cancel n st f p c e) = GrowsTo-AllOrderly w v n st f all (
    subst (GrowsTo w n st) (sym e)
      (_, refl, given_up-Grows st cancelled (all n st f).local_ok (rw (p, phase_unstarted))))
Moves-AllOrderly enable w v all (take_signal n st left f p r e) =
    GrowsTo-AllOrderly w v n st f all
      (subst (GrowsTo w n st) (sym e) (take_signal-Grows w n st (all n st f).local_ok left p r))
Moves-AllOrderly enable w v all (acquire n st check started f p room e) =
    GrowsTo-AllOrderly w v n st f all (
      subst (GrowsTo w n st) (sym e)
        (execute_with_slot-Grows w n st enable check started (all n st f).local_ok p))
Moves-AllOrderly enable w v all (announce n st status message f p q i l e) =
    GrowsTo-AllOrderly w v n st f all (
      subst (GrowsTo w n st) (sym e)
        (announce-Grows w n st (all n st f).local_ok status message p l))
Moves-AllOrderly enable w v all (settle n st status message f q e) =
    GrowsTo-AllOrderly w v n st f all
      (subst (GrowsTo w n st) (sym e) (settle-Grows w n st (all n st f).local_ok status message q))
Moves-AllOrderly enable w v all (announce_error n st message f p i e) =
    GrowsTo-AllOrderly w v n st f all
      (subst (GrowsTo w n st) (sym e) (announce_error-Grows w n st (all n st f).local_ok _))
Moves-AllOrderly enable w v all (receive n st ev rest f p i e) = GrowsTo-AllOrderly w v n st f all (
    subst (GrowsTo w n st) (sym e)
      (watch_event-Grows w n st enable ev rest (all n st f).local_ok p))
Moves-AllOrderly enable w v all (stop_failed message c e) =
    subst (λ (x : WorkflowRuntime). AllOrderly x.steps) (sym e) all
Moves-AllOrderly enable w v all (handle ev rest upd q e) =
    process_event-AllOrderly (record w { events = rest }) v ev upd all e
Moves-AllOrderly enable w v all (user_stop e) =
    subst (λ (x : WorkflowRuntime). AllOrderly x.steps) (sym e)
      (subst AllOrderly (sym (stop-steps w)) all)

pub Reaches-AllOrderly :
    (enable : Bool) (w v : WorkflowRuntime)
    → AllOrderly w.steps
    → Reaches enable w v
    → AllOrderly v.steps
Reaches-AllOrderly enable w v all here = all
Reaches-AllOrderly enable w v all (next {u = u} r m) =
    Moves-AllOrderly enable u v (Reaches-AllOrderly enable w u all r) m
