-- ===== src/Pipeline/Topology/Rounds.antt =====
-- The loop over the passes: what each of its results means for the graph that it started from.
use paddle_flow.Prelude.{
  ℕ, zero, suc, ◌≤◌, ◌≢◌, ◌↔◌, inl, inr, false, List, [], ◌∷◌, arith, Text, keys, length, In, NoDup,
  All, All-In, if◌then◌else◌, ap,
}
use paddle_flow.Pipeline.Topology.{
  Graph, Order, Pass, SortResult, sorted, not_acyclic, out_of_fuel, visit_all, sort_rounds,
}
use paddle_flow.Pipeline.Topology.Visits.{
  Visits, IsOrdered, IsPartial, Blocked, Progress, blocker, visit_all-IsPartial, visit_all-Progress,
}

-- A part of the graph in which each entry waits for another: a cycle, with what leads to it.
pub record IsStuck (g h : Graph) : Type 0 where
  pub some_entry : h ≢ []
  pub part : (e : Text × List Text) → In e h → In e g
  pub waits : (e : Text × List Text) → In e h → (p : Text) × In p e.1 × In p (keys h)

abbrev pub IsCorrect : Graph → SortResult → Type 0
IsCorrect g (sorted out) = NoDup out × ((n : Text) → In n out ↔ In n (keys g)) × IsOrdered g [] out
IsCorrect g not_acyclic = (h : Graph) × IsStuck g h
IsCorrect g out_of_fuel = ⊥

module _ (g : Graph) (d : NoDup (keys g)) (order : Order) (v : Visits order) where
  finished :
      (out : List Text)
      → IsPartial g (record { unsorted = []; sorted = out; acyclic = false })
      → IsCorrect g (sorted out)
  finished out h = (
    h.once,
    λ n. (h.known n, λ k. elim (h.done_or_left n k) [ inl old ↦ old | inr left ↦ absurd left ]),
    h.ordered,
  )

  stuck :
      (h : Graph)
      → h ≢ []
      → ((e : Text × List Text) → In e h → In e g)
      → All (Blocked h) (order h)
      → IsCorrect g not_acyclic
  stuck h n part b = (
    h,
    record {
      some_entry = n;
      part = part;
      waits = λ e i. blocker h e.1 (All-In (Blocked h) e (order h) b ((v.each h e).1 i));
    },
  )

  abbrev start : Graph → List Text → Pass
  start u out = record { unsorted = u; sorted = out; acyclic = false }

  after_pass :
      (u : Graph) (out : List Text)
      → IsPartial g (start u out)
      → IsPartial g (visit_all (order u) (start u out))
  after_pass u out h =
      visit_all-IsPartial g d (order u) (start u out) (v.once u h.single) (λ e. (v.each u e).0) h

  sort_rounds-IsCorrect :
      (fuel : ℕ) (u : Graph) (out : List Text)
      → length u ≤ fuel
      → IsPartial g (start u out)
      → IsCorrect g (sort_rounds fuel order u out)
  unfolding sort_rounds
  sort_rounds-IsCorrect zero [] out le h = finished out h
  sort_rounds-IsCorrect (suc fuel) [] out le h = finished out h
  sort_rounds-IsCorrect zero (e ∷ u) out le h = absurd (omega arith)
  sort_rounds-IsCorrect (suc fuel) (e ∷ u) out le h =
      next (visit_all (order (e ∷ u)) (start (e ∷ u) out)) (after_pass (e ∷ u) out h)
        (visit_all-Progress (order (e ∷ u)) (start (e ∷ u) out) (λ x. (v.each (e ∷ u) x).0))
        (sort_rounds-IsCorrect fuel)
    where
      next :
          (p : Pass)
          → IsPartial g p
          → Progress (order (e ∷ u)) (start (e ∷ u) out) p
          → ((w : Graph) (o : List Text)
              → length w ≤ fuel
              → IsPartial g (start w o)
              → IsCorrect g (sort_rounds fuel order w o))
          → IsCorrect g
              (if p.acyclic then sort_rounds fuel order p.unsorted p.sorted else not_acyclic)
      next p q (inl (same, b)) rec =
          rw (ap (λ (x : Pass). x.acyclic) same) (stuck (e ∷ u) (λ nil. ground arith) h.part b)
      next p q (inr (ok, less)) rec = rw ok (
          rec p.unsorted p.sorted (omega arith) (record {
            part = q.part;
            done_or_left = q.done_or_left;
            known = q.known;
            apart = q.apart;
            once = q.once;
            single = q.single;
            ordered = q.ordered;
          }))

  pub sort_rounds_lem : IsCorrect g (sort_rounds (length g) order g [])
  sort_rounds_lem = sort_rounds-IsCorrect (length g) g [] (omega arith) (record {
    part = λ e i. i;
    done_or_left = λ n i. inr i;
    known = λ n i. absurd i;
    apart = λ n i j. i;
    once = tt;
    single = d;
    ordered = tt;
  })
