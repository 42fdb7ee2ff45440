-- ===== src/Pipeline/Solve/Total.antt =====
-- `Solve` and `checkSteps` end on a workflow that can be sorted (pkg/pipeline/common.go,
-- workflow.go).
use mathlib.Core.Bool.{false≢true}
use paddle_flow.Prelude.{
  Bool, Bool-cases, In, List, NoDup, Option, Text, [], arith, inl, inr, keys, length, lookup,
  lookup→In, none, not, refl, some, subst, suc, text_empty, ℕ, ◌&&◌, ◌||◌, ◌∷◌, ◌≡◌,
}
use paddle_flow.Schema.Workflow.{Value, WorkflowSourceStep, get_deps, text}
use paddle_flow.Pipeline.Topology.{Order, Steps, sorted, topological_sort}
use paddle_flow.Pipeline.Topology.Visits.{Visits}
use paddle_flow.Pipeline.Params.{
  all_word, bad_name, Field, Outcome, Solver, check_name, check_param_value, failed, field_command,
  field_env, field_input_artifacts, field_output_artifacts, field_parameters, ok, on_ok,
  out_of_fuel, panics, sprint,
}
use paddle_flow.Pipeline.Params.Ending.{EndedWith, Safe, if-Ended, panics-Ended}
use paddle_flow.Pipeline.Params.Scheduled.{check_param_value-EndedWith}
use paddle_flow.Pipeline.Template.{is_word}
use paddle_flow.Pipeline.Solve.{
  check_steps, put_step, solve, solve_each, solve_one, solve_step, write_env, write_input,
  write_output, write_parameter, as_values, solve_command, solve_env, solve_inputs, solve_outputs,
}
use paddle_flow.Pipeline.Solve.Keeping.{
  Kept, KeepsDeps, put_step-Kept, lacks_step, lacks_dep, lacks_step-Safe, lacks_dep-Safe,
}

-- The fuel is enough for every check while the dependencies are those of `base`.
abbrev IsEnough : Bool → Steps → ℕ → Type 0
IsEnough p base fuel =
    (s : Solver)
    → Kept base s
    → (step : Text) → Safe p base step
    → (v : Value) (field : Field) → EndedWith p (check_param_value fuel s step v field)

-- The call ends, and if it gives a solver then one with the same steps and dependencies.
record EndsKeeping (p : Bool) (base : Steps) (o : Outcome Solver) : Type 0 where
  ended : EndedWith p o
  kept : (s : Solver) → o ≡ ok s → Kept base s

module _ {p : Bool} where
  ok-EndsKeeping : (base : Steps) (s : Solver) → Kept base s → EndsKeeping p base (ok s)
  ok-EndsKeeping base s k = record {
    ended = record { ends = refl };
    kept = λ s' e. subst (Kept base) (ok-inj e) k;
  }
    where
      ok-inj : {s s' : Solver} → ok s ≡ ok s' → s ≡ s'
      ok-inj e = cc

  -- What gives no solver keeps the dependencies.
  on_ok-EndsKeeping {ℓ} :
      {A : Type ℓ} (base : Steps) (a : Outcome A) (f : A → Outcome Solver)
      → EndedWith p a
      → ((x : A) → EndsKeeping p base (f x))
      → EndsKeeping p base (on_ok a f)
  on_ok-EndsKeeping base (ok x) f e h = h x
  on_ok-EndsKeeping base (failed _) f e h = record {
    ended = record { ends = refl };
    kept = λ s q. cc;
  }
  on_ok-EndsKeeping base panics f e h = record {
    ended = record { ends = e.ends };
    kept = λ s q. cc;
  }
  on_ok-EndsKeeping base out_of_fuel f e h = absurd (false≢true e.ends)

  next-EndsKeeping :
      (base : Steps) (a : Outcome Solver) (f : Solver → Outcome Solver)
      → EndsKeeping p base a
      → ((s : Solver) → Kept base s → EndsKeeping p base (f s))
      → EndsKeeping p base (on_ok a f)
  next-EndsKeeping base (ok s) f e h = h s (e.kept s refl)
  next-EndsKeeping base (failed _) f e h = record {
    ended = record { ends = refl };
    kept = λ s q. cc;
  }
  next-EndsKeeping base panics f e h = record {
    ended = record { ends = e.ended.ends };
    kept = λ s q. cc;
  }
  next-EndsKeeping base out_of_fuel f e h = absurd (false≢true e.ended.ends)

  check_name-Ended : (name : Text) → EndedWith p (check_name name)
  unfolding check_name
  check_name-Ended name =
      if-Ended (not (text_empty name) && all_word is_word name) (ok name) (failed bad_name)
        (record { ends = refl }) (record { ends = refl })

  still-Safe :
      (base : Steps) (s : Solver) → Kept base s → (n : Text) → Safe p base n → Safe p s.steps n
  still-Safe base s k n (inl may) = inl may
  still-Safe base s k n (inr there) = inr (k.steps n there)

  put-EndsKeeping :
      (base : Steps) (s : Solver) (current : Text)
      (change : WorkflowSourceStep → WorkflowSourceStep)
      → Kept base s
      → Safe p base current
      → ((st : WorkflowSourceStep) → get_deps (change st) ≡ get_deps st)
      → EndsKeeping p base (elim (lookup current s.steps) [
        | none ↦ panics
        | some st ↦ ok (put_step s current (change st))
      ])
  put-EndsKeeping base s current change k safe same = at_step (lookup current s.steps) refl
    where
      at_step :
          (o : Option WorkflowSourceStep)
          → lookup current s.steps ≡ o
          → EndsKeeping p base
              (elim o [ none ↦ panics | some st ↦ ok (put_step s current (change st)) ])
      at_step none e = record {
        ended = panics-Ended s.steps current (still-Safe base s k current safe) e;
        kept = λ s q. cc;
      }
      at_step (some st) e =
          ok-EndsKeeping base _ (put_step-Kept base s current st (change st) k e (same st))

  module _ (base : Steps) (fuel : ℕ) (enough : IsEnough p base fuel) (current : Text)
      (safe : Safe p base current) where
    module _ (field : Field) (write : Text → Value → WorkflowSourceStep → WorkflowSourceStep)
        (keeps : KeepsDeps write) where
      solve_one-EndsKeeping :
          (e : Text × Value) (s : Solver)
          → Kept base s
          → EndsKeeping p base (solve_one fuel current field write e s)
      unfolding solve_one
      solve_one-EndsKeeping (name, val) s k =
          on_ok-EndsKeeping base _ _ (check_name-Ended name) (λ _.
            on_ok-EndsKeeping base _ _ (enough s k current safe val field)
              (λ real. put-EndsKeeping base s current (write name real) k safe (keeps name real)))

      solve_each-EndsKeeping :
          (es : List (Text × Value)) (s : Solver)
          → Kept base s
          → EndsKeeping p base (solve_each fuel current field write es s)
      unfolding solve_each
      solve_each-EndsKeeping [] s k = ok-EndsKeeping base s k
      solve_each-EndsKeeping (e ∷ es) s k =
          next-EndsKeeping base _ _ (solve_one-EndsKeeping e s k) (solve_each-EndsKeeping es)

    solve_command-EndsKeeping :
        (step : WorkflowSourceStep) (s : Solver)
        → Kept base s
        → EndsKeeping p base (solve_command fuel current step s)
    unfolding solve_command get_deps
    solve_command-EndsKeeping step s k =
        on_ok-EndsKeeping base _ _ (enough s k current safe (text step.command) field_command)
          (λ real.
            put-EndsKeeping base s current (λ st. record st { command = sprint real }) k safe
              (λ st. refl))

    solve_env-EndsKeeping :
        (step : WorkflowSourceStep) (s : Solver)
        → Kept base s
        → EndsKeeping p base (solve_env fuel current step s)
    unfolding solve_env write_env get_deps
    solve_env-EndsKeeping step s k =
        next-EndsKeeping base _ _
          (solve_each-EndsKeeping field_env write_env (λ n v st. refl) (as_values step.env) s k)
          (solve_command-EndsKeeping step)

    solve_outputs-EndsKeeping :
        (step : WorkflowSourceStep) (s : Solver)
        → Kept base s
        → EndsKeeping p base (solve_outputs fuel current step s)
    unfolding solve_outputs write_output get_deps
    solve_outputs-EndsKeeping step s k =
        next-EndsKeeping base _ _
          (solve_each-EndsKeeping field_output_artifacts write_output (λ n v st. refl)
            (as_values step.artifacts.output) s k)
          (solve_env-EndsKeeping step)

    solve_inputs-EndsKeeping :
        (step : WorkflowSourceStep) (s : Solver)
        → Kept base s
        → EndsKeeping p base (solve_inputs fuel current step s)
    unfolding solve_inputs write_input get_deps
    solve_inputs-EndsKeeping step s k =
        next-EndsKeeping base _ _
          (solve_each-EndsKeeping field_input_artifacts write_input (λ n v st. refl)
            (as_values step.artifacts.input) s k)
          (solve_outputs-EndsKeeping step)

    solve_step-EndsKeeping :
        (step : WorkflowSourceStep) (s : Solver)
        → Kept base s
        → EndsKeeping p base (solve_step fuel current step s)
    unfolding solve_step write_parameter get_deps
    solve_step-EndsKeeping step s k =
        next-EndsKeeping base _ _
          (solve_each-EndsKeeping field_parameters write_parameter (λ n v st. refl) step.parameters
            s k)
          (solve_inputs-EndsKeeping step)

    solve-EndsKeeping : (s : Solver) → Kept base s → EndsKeeping p base (solve fuel current s)
    unfolding solve
    solve-EndsKeeping s k = at_step (lookup current s.steps) refl
      where
        at_step :
            (o : Option WorkflowSourceStep)
            → lookup current s.steps ≡ o
            → EndsKeeping p base
                (elim o [ none ↦ panics | some step ↦ solve_step fuel current step s ])
        at_step none e = record {
          ended = panics-Ended s.steps current (still-Safe base s k current safe) e;
          kept = λ s q. cc;
        }
        at_step (some step) e = solve_step-EndsKeeping step s k

  check_steps-EndsKeeping :
      (base : Steps) (fuel : ℕ)
      → IsEnough p base fuel
      → (names : List Text) → ((n : Text) → In n names → Safe p base n)
      → (s : Solver) → Kept base s
      → EndsKeeping p base (check_steps fuel names s)
  unfolding check_steps
  check_steps-EndsKeeping base fuel enough [] safe s k = ok-EndsKeeping base s k
  check_steps-EndsKeeping base fuel enough (name ∷ names) safe s k =
      next-EndsKeeping base _ _ (solve-EndsKeeping base fuel enough name (safe name (inl refl)) s k)
        (check_steps-EndsKeeping base fuel enough names (λ n i. safe n (inr i)))

-- When `topologicalSort` accepts the steps, `checkSteps` over any list of names ends: its calls do not
-- go on for ever, with one unit of fuel more than there are sorted steps. It ends with the solved
-- steps or with an error, or by a panic, but by a panic only if one of the names has no step or a
-- step waits for one that does not exist.
pub check_steps-Ended :
    (order : Order)
    → Visits order
    → (s : Solver) → NoDup (keys s.steps)
    → (out : List Text) → topological_sort order s.steps ≡ sorted out
    → (names : List Text)
    → EndedWith
        (lacks_step s.steps names || lacks_dep s.steps s.steps)
        (check_steps (suc (length out)) names s)
check_steps-Ended order visits s distinct out e names =
    (check_steps-EndsKeeping s.steps (suc (length out))
      (λ s' k step safe v field.
        check_param_value-EndedWith order visits s.steps distinct out e s' k.deps
          (λ at st dep f i.
            let (old, g, same) = k.deps at st f in
            still-Safe s.steps s' k dep (dep_safe at old dep g (subst (In dep) same i)))
          (suc (length out)) (omega arith) step (still-Safe s.steps s' k step safe) v field)
      names name_safe s (record { deps = λ step st f. (st, f, refl); steps = λ n h. h })).ended
  where
    name_safe :
        (n : Text)
        → In n names
        → Safe (lacks_step s.steps names || lacks_dep s.steps s.steps) s.steps n
    name_safe n i = elim (Bool-cases (lacks_step s.steps names)) [
      | inl lacks ↦ inl (rw lacks refl)
      | inr here ↦ inr (lacks_step-Safe s.steps names n here i)
    ]

    dep_safe :
        (step : Text) (st : WorkflowSourceStep) (dep : Text)
        → lookup step s.steps ≡ some st
        → In dep (get_deps st)
        → Safe (lacks_step s.steps names || lacks_dep s.steps s.steps) s.steps dep
    dep_safe step st dep f i = elim (Bool-cases (lacks_step s.steps names)) [
      | inl lacks ↦ inl (rw lacks refl)
      | inr here ↦ elim (Bool-cases (lacks_dep s.steps s.steps)) [
        | inl lacks ↦ inl (rw (here, lacks) refl)
        | inr deps_here ↦
            inr
              (lacks_dep-Safe s.steps s.steps step dep st deps_here (lookup→In step st s.steps f) i)
      ]
    ]
