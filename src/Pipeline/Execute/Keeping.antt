-- ===== src/Pipeline/Execute/Keeping.antt =====
-- What the moves of a run keep of its slots.
use paddle_flow.Prelude.{
  >>=-eq-some, Bool, Bool-cases, List, Option, Text, [], ap, arith, false, if◌then◌else◌, inl, inr,
  insert, lookup, not, refl, some, some-inj, subst, sym, text_eq, true, ◌&&◌, ◌++◌, ◌+◌, ◌<◌, ◌∙◌,
  ◌∷◌, ◌≡◌, ◌≤◌,
}
use paddle_flow.Pipeline.Event.{WorkflowEvent, is_job_update, is_job_watch_err}
use paddle_flow.Pipeline.Runtime.{
  RunSteps, Step, WorkflowRuntime, RunUpdate, is_completed, stop, update_status,
}
use paddle_flow.Pipeline.Runtime.Moves.{Moved, Zip}
use paddle_flow.Pipeline.Runtime.Verdict.{update_status-Verdict}
use paddle_flow.Pipeline.Execute.{
  dec_concurrent_jobs, is_final_update, watch_event, watch_final, execute_cancelled, give_up,
}
use paddle_flow.Pipeline.Execute.Traces.{
  Moves, Reaches, acquire, announce, announce_error, handle, here, next, notice_cancel, receive,
  settle, stop_failed, take_signal, user_stop,
}
use paddle_flow.Pipeline.Execute.Slots.{
  SlotMove, phase_holds, running_jobs, running_jobs-insert, execute_with_slot-SlotMove,
  watch_event-SlotMove,
}
use paddle_flow.Pipeline.Execute.Safety.{handled, process_event-handled}

-- Each running job holds a slot, and there are no more slots than the parallelism.
pub record HasSlots (w : WorkflowRuntime) : Type 0 where
  pub held : running_jobs w.steps ≤ w.slots
  pub within : w.slots ≤ w.parallelism

-- No move gives back a slot that a running job does not hold.
pub record KeepsSlots (w v : WorkflowRuntime) : Type 0 where
  pub gap : w.slots + running_jobs v.steps ≤ v.slots + running_jobs w.steps
  pub bounded : v.slots ≤ v.parallelism
  pub same_parallelism : v.parallelism ≡ w.parallelism

running_jobs-lookup :
    (steps : RunSteps) (n : Text) (st : Step)
    → lookup n steps ≡ some st
    → phase_holds st.phase ≤ running_jobs steps
unfolding lookup
running_jobs-lookup [] n st e = cc
running_jobs-lookup ((m, s) ∷ steps) n st e = elim (Bool-cases (text_eq m n)) [
  | inl h ↦
      let same : s ≡ st = some-inj (rw h at e) in
      omega (arith, ap (λ (x : Step). phase_holds x.phase) same)
  | inr h ↦ omega (arith, running_jobs-lookup steps n st (rw h at e))
]

module _ (w v : WorkflowRuntime) (n : Text) (st : Step) (f : lookup n w.steps ≡ some st)
    (h : HasSlots w) where
  SlotMove-gap : SlotMove w n st v → w.slots + running_jobs v.steps ≤ v.slots + running_jobs w.steps
  SlotMove-gap m =
      omega (arith, m.taken, ap running_jobs m.placed, running_jobs-insert w.steps n st m.new f)

  pub SlotMove-KeepsSlots_room : SlotMove w n st v → w.slots < w.parallelism → KeepsSlots w v
  SlotMove-KeepsSlots_room m room = record {
    gap = SlotMove-gap m;
    bounded = omega (arith, m.within, m.same_parallelism);
    same_parallelism = m.same_parallelism;
  }

  -- A move that leaves the slots alone and starts no job.
  placed-KeepsSlots :
      (new : Step)
      → v.steps ≡ insert n new w.steps
      → phase_holds new.phase ≤ phase_holds st.phase
      → v.slots ≡ w.slots
      → v.parallelism ≡ w.parallelism
      → KeepsSlots w v
  placed-KeepsSlots new placed less same_slots same = record {
    gap = omega (arith, ap running_jobs placed, running_jobs-insert w.steps n st new f);
    bounded = omega (arith, h.within);
    same_parallelism = same;
  }

Moved-running_jobs :
    (all xs ys : RunSteps) → Zip (Moved all) xs ys → running_jobs ys ≡ running_jobs xs
Moved-running_jobs all [] [] z = refl
Moved-running_jobs all ((n, s) ∷ xs) ((m, t) ∷ ys) (e, r, z) =
    omega (arith, ap phase_holds r.same_phase, Moved-running_jobs all xs ys z)
Moved-running_jobs all [] (_ ∷ _) z = absurd z
Moved-running_jobs all (_ ∷ _) [] z = absurd z

watch_event-slots :
    (w : WorkflowRuntime) (n : Text) (st : Step) (enable : Bool) (e : WorkflowEvent)
    (rest : List WorkflowEvent)
    → (watch_event w n st enable e rest).slots ≤ w.slots
unfolding watch_event dec_concurrent_jobs
watch_event-slots w n st enable e rest =
    go (not (is_job_watch_err e) && (is_job_update e && is_final_update e.extra))
  where
    w' : WorkflowRuntime
    w' = record w { events = w.events ++ e ∷ [] }

    go :
        (c : Bool)
        → (if c
            then watch_final w' n (record st { inbox = rest }) enable e.extra
            else record w' { steps = insert n (record st { inbox = rest }) w.steps }).slots
          ≤ w.slots
    go true = omega arith
    go false = omega arith

handled-KeepsSlots :
    (w v : WorkflowRuntime) (e : WorkflowEvent) (upd : Option RunUpdate) (b : Bool)
    → is_completed w ≡ b
    → HasSlots w
    → handled w e b ≡ some (v, upd)
    → KeepsSlots w v
unfolding handled
handled-KeepsSlots w v e upd true c h q =
    subst (λ (r : WorkflowRuntime × Option RunUpdate). KeepsSlots w r.0) (some-inj q)
      (record { gap = omega arith; bounded = h.within; same_parallelism = refl })
handled-KeepsSlots w v e upd false c h q =
    let (u, f, q') = >>=-eq-some (update_status w) _ q in
    let d = update_status-Verdict w u c f in
    subst (λ (r : WorkflowRuntime × Option RunUpdate). KeepsSlots w r.0) (some-inj q')
      (record {
        gap = omega (arith, Moved-running_jobs w.steps w.steps u.steps d.moved, d.slots_kept);
        bounded = omega (arith, h.within, d.slots_kept, d.parallelism_kept);
        same_parallelism = d.parallelism_kept;
      })

stop-KeepsSlots : (w : WorkflowRuntime) → HasSlots w → KeepsSlots w (stop w)
unfolding stop
stop-KeepsSlots w h = elim (Bool-cases (is_completed w)) [
  | inl c ↦ rw c (record { gap = omega arith; bounded = h.within; same_parallelism = refl })
  | inr c ↦ rw c (record { gap = omega arith; bounded = h.within; same_parallelism = refl })
]

-- A move never makes the slots that no running job holds fewer: a slot that was lost stays lost.
pub Moves-KeepsSlots :
    (enable : Bool) (w v : WorkflowRuntime) → HasSlots w → Moves enable w v → KeepsSlots w v
unfolding execute_cancelled give_up
Moves-KeepsSlots enable w v h (notice_cancel n st f p c e) =
    subst (KeepsSlots w) (sym e) (placed-KeepsSlots w _ n st f h _ refl (omega arith) refl refl)
Moves-KeepsSlots enable w v h (take_signal n st left f p r e) =
    subst (KeepsSlots w) (sym e) (placed-KeepsSlots w _ n st f h _ refl (omega arith) refl refl)
Moves-KeepsSlots enable w v h (acquire n st check started f p room e) =
    subst (KeepsSlots w) (sym e) (
      SlotMove-KeepsSlots_room w _ n st f h (execute_with_slot-SlotMove w n st enable check started)
        room)
Moves-KeepsSlots enable w v h (announce n st status message f p q i l e) =
    subst (KeepsSlots w) (sym e) (placed-KeepsSlots w _ n st f h _ refl (omega arith) refl refl)
Moves-KeepsSlots enable w v h (settle n st status message f q e) =
    subst (KeepsSlots w) (sym e) (placed-KeepsSlots w _ n st f h _ refl (omega arith) refl refl)
Moves-KeepsSlots enable w v h (announce_error n st message f p i e) =
    subst (KeepsSlots w) (sym e) (placed-KeepsSlots w _ n st f h _ refl (omega arith) refl refl)
Moves-KeepsSlots enable w v h (receive n st ev rest f p i e) =
    let one : 1 ≤ w.slots =
      omega (arith, ap phase_holds p, running_jobs-lookup w.steps n st f, h.held) in
    let m = watch_event-SlotMove w n st enable ev rest p one in
    subst (KeepsSlots w) (sym e) (record {
      gap = SlotMove-gap w _ n st f h m;
      bounded =
          omega (arith, watch_event-slots w n st enable ev rest, m.same_parallelism, h.within);
      same_parallelism = m.same_parallelism;
    })
Moves-KeepsSlots enable w v h (stop_failed message c e) =
    subst (KeepsSlots w) (sym e)
      (record { gap = omega arith; bounded = h.within; same_parallelism = refl })
Moves-KeepsSlots enable w v h (handle ev rest upd q e) =
    let u = record w { events = rest } in
    let k =
      handled-KeepsSlots u v ev upd (is_completed u) refl
        (record { held = h.held; within = h.within }) (sym (process_event-handled u ev) ∙ e) in
    record { gap = k.gap; bounded = k.bounded; same_parallelism = k.same_parallelism }
Moves-KeepsSlots enable w v h (user_stop e) = subst (KeepsSlots w) (sym e) (stop-KeepsSlots w h)

pub KeepsSlots-HasSlots : (w v : WorkflowRuntime) → HasSlots w → KeepsSlots w v → HasSlots v
KeepsSlots-HasSlots w v h k = record { held = omega (arith, h.held, k.gap); within = k.bounded }

-- From a state in which each running job holds a slot and the slots are no more than the
-- parallelism, every state that the run can reach is such a state, with the same parallelism, and
-- has no fewer slots that no running job holds.
pub Reaches-KeepsSlots :
    (enable : Bool) (w v : WorkflowRuntime)
    → HasSlots w
    → Reaches enable w v
    → HasSlots v × KeepsSlots w v
Reaches-KeepsSlots enable w v h here =
    (h, record { gap = omega arith; bounded = h.within; same_parallelism = refl })
Reaches-KeepsSlots enable w v h (next {u = u} r m) =
    let (hu, ku) = Reaches-KeepsSlots enable w u h r in
    let k = Moves-KeepsSlots enable u v hu m in
    (
      KeepsSlots-HasSlots u v hu k,
      record {
        gap = omega (arith, ku.gap, k.gap, hu.held, h.held);
        bounded = k.bounded;
        same_parallelism = k.same_parallelism ∙ ku.same_parallelism;
      },
    )
