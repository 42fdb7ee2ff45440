-- ===== src/Pipeline/Topology/Visits.antt =====
-- One pass over the unsorted graph.
use mathlib.Core.Bool.{true≢false}
use mathlib.Core.List.{append-nil, append_assoc}
use paddle_flow.Prelude.{
  ◌≤◌, ◌<◌, ◌≡◌, ◌≢◌, refl, sym, ◌∙◌, ◌⊎◌, inl, inr, true, false, List, [], ◌∷◌, ◌++◌, arith, Text,
  text_eq, text_eq→eq, eq→text_eq, subst, entry_unique, delete, has, keys, length, In, NoDup, All,
  ap, In-append_left, In-append, In-append_right, NoDup-snoc, has→In, In→has, In-keys, In-delete→In,
  In→In-delete, length-delete-lt, length-delete-le, In-keys-delete, In-keys→delete,
  NoDup-keys-delete, Bool-cases, ◌↔◌,
}
use paddle_flow.Pipeline.Topology.{Graph, Order, Pass, blocked, visit, visit_all}

-- A `range` visits each entry of the map once.
pub record Visits (order : Order) : Type 0 where
  pub each : (g : Graph) (e : Text × List Text) → In e (order g) ↔ In e g
  pub once : (g : Graph) → NoDup (keys g) → NoDup (keys (order g))

pub unblocked :
    (g : Graph) (parents : List Text) (p : Text)
    → blocked g parents ≡ false
    → In p parents
    → In p (keys g)
    → ⊥
unfolding blocked
unblocked g [] p b m k = m
unblocked g (q ∷ parents) p b (inl e) k = ground (arith, In→has p g k)
unblocked g (q ∷ parents) p b (inr m) k = unblocked g parents p (ground arith) m k

pub blocker :
    (g : Graph) (parents : List Text)
    → blocked g parents ≡ true
    → (p : Text) × In p parents × In p (keys g)
unfolding blocked
blocker g [] b = cc
blocker g (q ∷ parents) b = elim (Bool-cases (has q g)) [
  | inl h ↦ (q, inl refl, has→In q g h)
  | inr h ↦ let (p, m, k) = blocker g parents (ground arith) in (p, inr m, k)
]

-- The parents of `n` that the graph knows stand in `seen`.
abbrev pub Covered : Graph → List Text → Text → Type 0
Covered g seen n = (ps : List Text) (p : Text) → In (n, ps) g → In p ps → In p (keys g) → In p seen

abbrev pub IsOrdered : Graph → List Text → List Text → Type 0
IsOrdered g seen [] = Unit
IsOrdered g seen (n ∷ ns) = Covered g seen n × IsOrdered g (seen ++ n ∷ []) ns

-- What holds between two visits: `g` is the whole graph.
pub record IsPartial (g : Graph) (p : Pass) : Type 0 where
  pub part : (e : Text × List Text) → In e p.unsorted → In e g
  pub done_or_left : (n : Text) → In n (keys g) → In n p.sorted ⊎ In n (keys p.unsorted)
  pub known : (n : Text) → In n p.sorted → In n (keys g)
  pub apart : (n : Text) → In n p.sorted → In n (keys p.unsorted) → ⊥
  pub once : NoDup p.sorted
  pub single : NoDup (keys p.unsorted)
  pub ordered : IsOrdered g [] p.sorted

IsOrdered-snoc :
    (g : Graph) (seen ns : List Text) (n : Text)
    → IsOrdered g seen ns
    → Covered g (seen ++ ns) n
    → IsOrdered g seen (ns ++ n ∷ [])
IsOrdered-snoc g seen [] n o c = (subst (λ s. Covered g s n) (append-nil seen) c, tt)
IsOrdered-snoc g seen (m ∷ ns) n o c =
    (o.0, IsOrdered-snoc g (seen ++ m ∷ []) ns n o.1 (rw append_assoc c))

text_cases : (s t : Text) → (s ≡ t) ⊎ (s ≢ t)
text_cases s t = elim (Bool-cases (text_eq s t)) [
  | inl e ↦ inl (text_eq→eq s t e)
  | inr e ↦ inr (λ q. true≢false (sym (eq→text_eq s t q) ∙ e))
]

visit_keeps :
    (p : Pass) (name : Text) (parents : List Text) (e : Text × List Text)
    → In e p.unsorted
    → name ≢ e.0
    → In e (visit p (name, parents)).unsorted
unfolding visit
visit_keeps p name parents e i n = elim (Bool-cases (blocked p.unsorted parents)) [
  | inl b ↦ rw b i
  | inr b ↦ rw b (In→In-delete name e p.unsorted i n)
]

module _ (g : Graph) (d : NoDup (keys g)) where
  settle :
      (p : Pass) (name : Text) (parents : List Text)
      → IsPartial g p
      → In (name, parents) p.unsorted
      → blocked p.unsorted parents ≡ false
      → IsPartial g (record {
        unsorted = delete name p.unsorted;
        sorted = p.sorted ++ name ∷ [];
        acyclic = true;
      })
  settle p name parents h i b = record {
    part = λ e j. h.part e (In-delete→In name e p.unsorted j).0;
    done_or_left = λ n k. elim (h.done_or_left n k) [
      | inl old ↦ inl (In-append_left n p.sorted (name ∷ []) old)
      | inr left ↦ elim (text_cases name n) [
        | inl e ↦ inl (In-append_right n p.sorted (name ∷ []) (inl e))
        | inr e ↦ inr (In-keys→delete name n p.unsorted left e)
      ]
    ];
    known = λ n j. elim (In-append n p.sorted (name ∷ []) j) [
      | inl old ↦ h.known n old
      | inr (inl e) ↦ subst (λ m. In m (keys g)) e (In-keys name parents g (h.part _ i))
      | inr (inr a) ↦ absurd a
    ];
    apart = λ n j k.
        let (left, ne) = In-keys-delete name n p.unsorted k in
        elim (In-append n p.sorted (name ∷ []) j) [
          | inl old ↦ h.apart n old left
          | inr (inl e) ↦ ne e
          | inr (inr a) ↦ a
        ];
    once =
        NoDup-snoc p.sorted name h.once (λ j. h.apart name j (In-keys name parents p.unsorted i));
    single = NoDup-keys-delete name p.unsorted h.single;
    ordered = IsOrdered-snoc g [] p.sorted name h.ordered λ ps q m1 m2 m3.
        elim (h.done_or_left q m3) [
          | inl old ↦ old
          | inr left ↦ absurd (
              unblocked p.unsorted parents q b
                (subst (λ l. In q l) (entry_unique name ps parents g d m1 (h.part _ i)) m2) left)
        ];
  }

  visit-IsPartial :
      (p : Pass) (name : Text) (parents : List Text)
      → IsPartial g p
      → In (name, parents) p.unsorted
      → IsPartial g (visit p (name, parents))
  unfolding visit
  visit-IsPartial p name parents h i = elim (Bool-cases (blocked p.unsorted parents)) [
    | inl b ↦ rw b h
    | inr b ↦ rw b (settle p name parents h i b)
  ]

  pub visit_all-IsPartial :
      (es : List (Text × List Text)) (p : Pass)
      → NoDup (keys es)
      → ((e : Text × List Text) → In e es → In e p.unsorted)
      → IsPartial g p
      → IsPartial g (visit_all es p)
  unfolding visit_all
  visit_all-IsPartial [] p s i h = h
  visit_all-IsPartial ((name, parents) ∷ es) p s i h =
      visit_all-IsPartial es (visit p (name, parents)) s.1
        (λ e j.
          visit_keeps p name parents e (i e (inr j))
            (λ q. s.0 (subst (λ n. In n (keys es)) (sym q) (In-keys e.0 e.1 es j))))
        (visit-IsPartial p name parents h (i _ (inl refl)))

abbrev settled : Pass → Text → Pass
settled p name = record {
  unsorted = delete name p.unsorted;
  sorted = p.sorted ++ name ∷ [];
  acyclic = true;
}

visit_cases :
    (p : Pass) (name : Text) (parents : List Text)
    → (visit p (name, parents) ≡ p) × (blocked p.unsorted parents ≡ true)
      ⊎ (visit p (name, parents) ≡ settled p name)
unfolding visit
visit_cases p name parents = elim (Bool-cases (blocked p.unsorted parents)) [
  | inl b ↦ inl (rw b, b)
  | inr b ↦ inr (rw b)
]

visit_all-le :
    (es : List (Text × List Text)) (p : Pass) → length (visit_all es p).unsorted ≤ length p.unsorted
unfolding visit_all
visit_all-le [] p = omega arith
visit_all-le ((name, parents) ∷ es) p = elim (visit_cases p name parents) [
  | inl (e, _) ↦ rw (e, visit_all, length) (visit_all-le es p)
  | inr e ↦
      rw (e, visit_all, length)
        (omega (arith, visit_all-le es (settled p name), length-delete-le name p.unsorted))
]

visit_all-acyclic :
    (es : List (Text × List Text)) (p : Pass) → p.acyclic ≡ true → (visit_all es p).acyclic ≡ true
unfolding visit_all
visit_all-acyclic [] p h = h
visit_all-acyclic ((name, parents) ∷ es) p h = elim (visit_cases p name parents) [
  | inl (e, _) ↦ rw (e, visit_all) (visit_all-acyclic es p h)
  | inr e ↦ rw (e, visit_all) (visit_all-acyclic es (settled p name) refl)
]

abbrev pub Blocked : Graph → Text × List Text → Type 0
Blocked g e = blocked g e.1 ≡ true

-- A pass that removes nothing found every entry blocked; any other makes the graph smaller.
abbrev pub Progress : List (Text × List Text) → Pass → Pass → Type 0
Progress es p q =
    (q ≡ p) × All (Blocked p.unsorted) es
    ⊎ (q.acyclic ≡ true) × (length q.unsorted < length p.unsorted)

pub visit_all-Progress :
    (es : List (Text × List Text)) (p : Pass)
    → ((e : Text × List Text) → In e es → In e p.unsorted)
    → Progress es p (visit_all es p)
unfolding visit_all
visit_all-Progress [] p i = inl (refl, tt)
visit_all-Progress ((name, parents) ∷ es) p i = elim (visit_cases p name parents) [
  | inl (e, b) ↦ elim (visit_all-Progress es p (λ x j. i x (inr j))) [
    | inl (same, stuck) ↦ inl (ap (visit_all es) e ∙ same, (b, stuck))
    | inr more ↦ inr (
        subst
          (λ q.
            ((visit_all es q).acyclic ≡ true)
            × (length (visit_all es q).unsorted < length p.unsorted))
          (sym e) more)
  ]
  | inr e ↦ inr (
      subst
        (λ q.
          ((visit_all es q).acyclic ≡ true)
          × (length (visit_all es q).unsorted < length p.unsorted))
        (sym e)
        (
          visit_all-acyclic es (settled p name) refl,
          omega (
            arith,
            visit_all-le es (settled p name),
            length-delete-lt name p.unsorted (In-keys name parents p.unsorted (i _ (inl refl))),
          ),
        ))
]
