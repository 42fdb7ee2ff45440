-- ===== src/Pipeline/Execute/Growth.antt =====
-- What each move of a run changes in its step.
use mathlib.Core.Bool.{true≢false, false≢true}
use paddle_flow.Prelude.{
  Bool, List, Text, [], arith, false, if◌then◌else◌, insert, lookup, none, not, refl, some, subst,
  suc, sym, true, ℕ, ◌&&◌, ◌++◌, ◌∙◌, ◌∷◌, ◌≡◌,
}
use paddle_flow.Schema.Jobs.{JobStatus, cached, cancelled, failed}
use paddle_flow.Pipeline.Event.{WorkflowEvent, is_job_update, is_job_watch_err, job_update}
use paddle_flow.Pipeline.Job.{status_not_ended}
use paddle_flow.Pipeline.Runtime.{selecting, acquiring, watching, ended, Step, WorkflowRuntime}
use paddle_flow.Pipeline.Execute.{
  CacheCheck, StartResult, after_check, check_failed, check_found, check_missed,
  dec_concurrent_jobs, execute_with_slot, give_up, inc_concurrent_jobs, is_final_update,
  start_failed, start_job, start_ok, watch_event, watch_final,
}
use paddle_flow.Pipeline.Execute.Traces.{put, update_event}
use paddle_flow.Pipeline.Execute.Ordering.{
  AllOrderly, AllOrderly-insert, Grows, IsLocal, has_pending, phase_signalled, phase_unstarted,
}

-- The early ends of `Execute`, for a step whose job was not started.
pub given_up-Grows :
    (st : Step) (status : JobStatus)
    → IsLocal st
    → phase_unstarted st.phase ≡ true
    → Grows st (record st { job = record (st.job) { status = status }; done = true; phase = ended })
given_up-Grows st status h p =
    let status_unset = h.unstarted p in
    let none_pending = h.quiet p in
    record {
      same_info = refl;
      same_submitted = refl;
      well_stays = λ w. absurd (ground arith);
      local_ok = record {
        one_signal = h.one_signal;
        signalled = λ e. cc;
        unstarted = λ e. cc;
        live = λ e. cc;
        quiet = λ e. cc;
      };
    }

started-Grows :
    (st : Step) (id : Text)
    → IsLocal st
    → st.phase ≡ acquiring
    → Grows st (record st { job = record (st.job) { id = id }; phase = watching })
started-Grows st id h p = record {
  same_info = refl;
  same_submitted = refl;
  well_stays = λ w. w;
  local_ok = record {
    one_signal = h.one_signal;
    signalled = λ e. h.signalled (rw (p, phase_signalled));
    unstarted = λ e. cc;
    live = h.live;
    quiet = λ e. cc;
  };
}

abbrev pub GrowsTo : WorkflowRuntime → Text → Step → WorkflowRuntime → Type 0
GrowsTo w n st v = (st' : Step) × (v.steps ≡ insert n st' w.steps) × Grows st st'

start_job-Grows :
    (w : WorkflowRuntime) (n : Text) (st : Step) (started : StartResult)
    → IsLocal st
    → st.phase ≡ acquiring
    → GrowsTo w n st (start_job w n st started)
unfolding start_job
start_job-Grows w n st (start_failed err) h p =
    (_, refl, given_up-Grows st failed h (rw (p, phase_unstarted)))
start_job-Grows w n st (start_ok id) h p = (_, refl, started-Grows st id h p)

pub execute_with_slot-Grows :
    (w : WorkflowRuntime) (n : Text) (st : Step) (enable : Bool) (check : CacheCheck)
    (started : StartResult)
    → IsLocal st
    → st.phase ≡ acquiring
    → GrowsTo w n st (execute_with_slot w n st enable check started)
unfolding execute_with_slot
execute_with_slot-Grows w n st enable check started h p = go w.cancelled enable check
  where
    w' : WorkflowRuntime
    w' = inc_concurrent_jobs w

    go :
        (c b : Bool) (k : CacheCheck)
        → GrowsTo w n st (
            if c
            then give_up (dec_concurrent_jobs w') n st cancelled job_update []
            else if b
            then after_check w' n st k started
            else start_job w' n st started)
    go true b k = (_, refl, given_up-Grows st cancelled h (rw (p, phase_unstarted)))
    go false true (check_failed err) =
        (_, refl, given_up-Grows st failed h (rw (p, phase_unstarted)))
    go false true check_found = (_, refl, given_up-Grows st cached h (rw (p, phase_unstarted)))
    go false true check_missed = start_job-Grows w' n st started h p
    go false false k = start_job-Grows w' n st started h p

pub watch_event-Grows :
    (w : WorkflowRuntime) (n : Text) (st : Step) (enable : Bool) (e : WorkflowEvent)
    (rest : List WorkflowEvent)
    → IsLocal st
    → st.phase ≡ watching
    → GrowsTo w n st (watch_event w n st enable e rest)
unfolding watch_event
watch_event-Grows w n st enable e rest h p =
    go (not (is_job_watch_err e) && (is_job_update e && is_final_update e.extra))
  where
    st' : Step
    st' = record st { inbox = rest }

    w' : WorkflowRuntime
    w' = record w { events = w.events ++ e ∷ [] }

    read : IsLocal st'
    read = record {
      one_signal = h.one_signal;
      signalled = h.signalled;
      unstarted = h.unstarted;
      live = h.live;
      quiet = h.quiet;
    }

    go :
        (c : Bool)
        → GrowsTo w n st (
            if c
            then watch_final w' n st' enable e.extra
            else record w' { steps = insert n st' w.steps })
    go true = (
      _,
      refl,
      record {
        same_info = refl;
        same_submitted = refl;
        well_stays = λ x. x;
        local_ok = record {
          one_signal = h.one_signal;
          signalled = λ q. cc;
          unstarted = λ q. cc;
          live = h.live;
          quiet = λ q. cc;
        };
      },
    )
    go false = (
      _,
      refl,
      record { same_info = refl; same_submitted = refl; well_stays = λ x. x; local_ok = read },
    )

pub GrowsTo-AllOrderly :
    (w v : WorkflowRuntime) (n : Text) (st : Step)
    → lookup n w.steps ≡ some st
    → AllOrderly w.steps
    → GrowsTo w n st v
    → AllOrderly v.steps
GrowsTo-AllOrderly w v n st found all (st', e, g) =
    subst AllOrderly (sym e) (AllOrderly-insert w.steps n st st' found g all)

-- The other moves of one step, by what they change.
module _ (w : WorkflowRuntime) (n : Text) (st : Step) (h : IsLocal st) where
  pub take_signal-Grows :
      (left : ℕ)
      → st.phase ≡ selecting
      → st.ready ≡ suc left
      → GrowsTo w n st (put w n (record st { ready = left; phase = acquiring }))
  take_signal-Grows left p r = (
    _,
    refl,
    record {
      same_info = refl;
      same_submitted = refl;
      well_stays = λ x. x;
      local_ok = record {
        one_signal = ground (arith, h.one_signal);
        signalled = λ _. ground (arith, h.one_signal);
        unstarted = λ _. h.unstarted (rw (p, phase_unstarted));
        live = h.live;
        quiet = λ _. h.quiet (rw (p, phase_unstarted));
      };
    },
  )

  pub announce-Grows :
      (status : JobStatus) (message : Text)
      → st.phase ≡ watching
      → status_not_ended st.job.status ≡ true
      → GrowsTo w n st (
          put w n (record st {
            inbox = update_event st status message ∷ [];
            pending = some (status, message);
          }))
  announce-Grows status message p l = (
    _,
    refl,
    record {
      same_info = refl;
      same_submitted = refl;
      well_stays = λ x. x;
      local_ok = record {
        one_signal = h.one_signal;
        signalled = h.signalled;
        unstarted = h.unstarted;
        live = λ _. l;
        quiet = λ q. absurd (false≢true (rw (p, phase_unstarted) at q));
      };
    },
  )

  pub settle-Grows :
      (status : JobStatus) (message : Text)
      → st.pending ≡ some (status, message)
      → GrowsTo w n st (
          put w n (record st {
            job = record (st.job) { status = status; message = message };
            pending = none;
          }))
  settle-Grows status message e =
      let l = h.live (rw (e, has_pending)) in
      let busy : phase_unstarted st.phase ≡ true → ⊥ =
        λ q. true≢false (sym (rw (e, has_pending)) ∙ h.quiet q) in
      (
        _,
        refl,
        record {
          same_info = refl;
          same_submitted = refl;
          well_stays = λ x. absurd (ground arith);
          local_ok = record {
            one_signal = h.one_signal;
            signalled = h.signalled;
            unstarted = λ q. absurd (busy q);
            live = λ q. cc;
            quiet = λ _. refl;
          };
        },
      )

  pub announce_error-Grows :
      (e : WorkflowEvent) → GrowsTo w n st (put w n (record st { inbox = e ∷ [] }))
  announce_error-Grows e = (
    _,
    refl,
    record {
      same_info = refl;
      same_submitted = refl;
      well_stays = λ x. x;
      local_ok = record {
        one_signal = h.one_signal;
        signalled = h.signalled;
        unstarted = h.unstarted;
        live = h.live;
        quiet = h.quiet;
      };
    },
  )
