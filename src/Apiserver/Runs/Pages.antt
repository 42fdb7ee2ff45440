-- ===== src/Apiserver/Runs/Pages.antt =====
-- pkg/apiserver/models/run.go: the pages of `ListRun`.
use paddle_flow.Prelude.{
  &&_true, All, All-In, All-of-In, Bool-cases, List, [], ap, arith, false, inl, inr, ltb, ltb→lt,
  lt→ltb, refl, subst, suc, sym, take, true, zero, ℕ, ◌&&◌, ◌++◌, ◌<◌, ◌∙◌, ◌∷◌, ◌≡◌, ◌≤◌,
}
use paddle_flow.Apiserver.Runs.{Filters, Run, matches, rows_after, last_pk, last_of_page}

-- Keys grow along the table.
abbrev pub IsAscending : List Run → Type 0
IsAscending [] = Unit
IsAscending (r ∷ runs) = All (λ q. r.pk < q.pk) runs × IsAscending runs

-- The database gives rows in the order of their keys, although the query asks for none.
abbrev pub IsByKey : (List Run → List Run) → Type 0
IsByKey arrange = (rows : List Run) → IsAscending rows → arrange rows ≡ rows

module _ (f : Filters) where
  All-rows_after :
      (P : Run → Type 0) (pk : ℕ) (runs : List Run) → All P runs → All P (rows_after f pk runs)
  unfolding rows_after
  All-rows_after P pk [] h = tt
  All-rows_after P pk (r ∷ runs) h = elim (Bool-cases (ltb pk r.pk && matches f r)) [
    | inl e ↦ rw (e, rows_after) (h.0, All-rows_after P pk runs h.1)
    | inr e ↦ rw (e, rows_after) (All-rows_after P pk runs h.1)
  ]

  -- Behind a key below all others begins the same listing.
  rows_after_below :
      (pk pk' : ℕ) (runs : List Run)
      → All (λ q. pk < q.pk) runs
      → All (λ q. pk' < q.pk) runs
      → rows_after f pk runs ≡ rows_after f pk' runs
  unfolding rows_after
  rows_after_below pk pk' [] h h' = refl
  rows_after_below pk pk' (r ∷ runs) h h' =
      rw
        (
          rows_after_below pk pk' runs h.1 h'.1,
          lt→ltb pk r.pk h.0,
          lt→ltb pk' r.pk h'.0,
          rows_after,
        )
        refl

  rows_after_skip :
      (pk : ℕ) (r : Run) (runs : List Run)
      → r.pk ≤ pk
      → rows_after f pk (r ∷ runs) ≡ rows_after f pk runs
  unfolding rows_after
  rows_after_skip pk r runs h =
      let not_behind : ltb pk r.pk ≡ false = ground (arith, h) in rw (not_behind, rows_after) refl

  -- A part of a table in the order of its keys is in this order.
  pub rows_after-IsAscending :
      (pk : ℕ) (runs : List Run) → IsAscending runs → IsAscending (rows_after f pk runs)
  unfolding rows_after
  rows_after-IsAscending pk [] up = tt
  rows_after-IsAscending pk (r ∷ runs) up =
      let rest = rows_after-IsAscending pk runs up.1 in
      elim (Bool-cases (ltb pk r.pk && matches f r)) [
        | inl e ↦ rw (e, rows_after) (All-rows_after (λ q. r.pk < q.pk) pk runs up.0, rest)
        | inr e ↦ rw (e, rows_after) rest
      ]

  All-take : (P : Run → Type 0) (n : ℕ) (rows : List Run) → All P rows → All P (take n rows)
  All-take P zero rows h = tt
  All-take P (suc n) [] h = tt
  All-take P (suc n) (r ∷ rows) h = (h.0, All-take P n rows h.1)

  All-last_of_page :
      (P : Run → Type 0) (r : Run) (rows : List Run) → P r → All P rows → P (last_of_page r rows)
  All-last_of_page P r [] h hs = h
  All-last_of_page P r (q ∷ rows) h hs = All-last_of_page P q rows hs.0 hs.1

  -- The listing behind a key is a page of it and the listing behind the last key of the page.
  pub rows_after-page :
      (pk n : ℕ) (runs : List Run) (r : Run) (rows : List Run)
      → IsAscending runs
      → take (suc n) (rows_after f pk runs) ≡ r ∷ rows
      → rows_after f pk runs ≡ (r ∷ rows) ++ rows_after f (last_of_page r rows).pk runs
  unfolding rows_after
  rows_after-page pk n [] r rows up e = cc
  rows_after-page pk n (q ∷ runs) r rows up e = elim (Bool-cases (ltb pk q.pk && matches f q)) [
    | inr out ↦
        let same : rows_after f pk (q ∷ runs) ≡ rows_after f pk runs = rw (out, rows_after) refl in
        let page = sym (ap (take (suc n)) same) ∙ e in
        let behind : All (λ x. q.pk < x.pk) (r ∷ rows) = subst (All (λ x. q.pk < x.pk)) page (
          All-take (λ x. q.pk < x.pk) (suc n) (rows_after f pk runs)
            (All-rows_after (λ x. q.pk < x.pk) pk runs up.0)) in
        let later : q.pk < (last_of_page r rows).pk =
          All-last_of_page (λ x. q.pk < x.pk) r rows behind.0 behind.1 in
        same
        ∙ rows_after-page pk n runs r rows up.1 page
        ∙ ap (λ x. (r ∷ rows) ++ x)
            (sym (rows_after_skip (last_of_page r rows).pk q runs (omega (arith, later))))
    | inl taken ↦
        let same : rows_after f pk (q ∷ runs) ≡ q ∷ rows_after f pk runs =
          rw (taken, rows_after) refl in
        let page : q ∷ take n (rows_after f pk runs) ≡ r ∷ rows =
          sym (ap (take (suc n)) same) ∙ e in
        let first : ltb pk q.pk ≡ true = (&&_true (ltb pk q.pk) (matches f q) taken).0 in
        let core =
          at_page (λ m r' rows' t. rows_after-page pk m runs r' rows' up.1 t) same n
            (take n (rows_after f pk runs)) refl up (ltb→lt pk q.pk first) in
        let heads : q ≡ r = cc in
        let tails : take n (rows_after f pk runs) ≡ rows = cc in
        subst (λ x. IsSplit x rows) heads (subst (λ y. IsSplit q y) tails core)
  ]
    where
      all_behind : pk < q.pk → All (λ x. q.pk < x.pk) runs → All (λ x. pk < x.pk) runs
      all_behind lt h =
          All-of-In (λ x. pk < x.pk) runs
            (λ x m. omega (arith, lt, All-In (λ y. q.pk < y.pk) x runs h m))

      IsSplit : Run → List Run → Type 0
      IsSplit x y =
          rows_after f pk (q ∷ runs) ≡ (x ∷ y) ++ rows_after f (last_of_page x y).pk (q ∷ runs)

      at_page :
          ((m : ℕ) (r' : Run) (rows' : List Run)
            → take (suc m) (rows_after f pk runs) ≡ r' ∷ rows'
            → rows_after f pk runs ≡ (r' ∷ rows') ++ rows_after f (last_of_page r' rows').pk runs)
          → (same : rows_after f pk (q ∷ runs) ≡ q ∷ rows_after f pk runs)
          → (m : ℕ) (part : List Run) → take m (rows_after f pk runs) ≡ part
          → IsAscending (q ∷ runs)
          → pk < q.pk
          → IsSplit q part
      at_page ih same m [] p up lt =
          same
          ∙ ap (λ x. q ∷ x)
              (rows_after_below pk q.pk runs (all_behind lt up.0) up.0
                ∙ sym (rows_after_skip q.pk q runs (omega arith)))
      at_page ih same zero (r' ∷ rows') p up lt = cc
      at_page ih same (suc m) (r' ∷ rows') p up lt =
          let behind : All (λ x. q.pk < x.pk) (r' ∷ rows') = subst (All (λ x. q.pk < x.pk)) p (
            All-take (λ x. q.pk < x.pk) (suc m) (rows_after f pk runs)
              (All-rows_after (λ x. q.pk < x.pk) pk runs up.0)) in
          let later : q.pk < (last_of_page r' rows').pk =
            All-last_of_page (λ x. q.pk < x.pk) r' rows' behind.0 behind.1 in
          same
          ∙ ap (λ x. q ∷ x) (ih m r' rows' p)
          ∙ ap (λ x. q ∷ (r' ∷ rows') ++ x)
              (sym (rows_after_skip (last_of_page r' rows').pk q runs (omega (arith, later))))

  All-last_pk : (runs : List Run) → IsAscending runs → All (λ q. q.pk ≤ last_pk runs) runs
  All-last_pk [] up = tt
  All-last_pk (r ∷ []) up = (omega arith, tt)
  All-last_pk (r ∷ q ∷ runs) up =
      let rest = All-last_pk (q ∷ runs) up.1 in (omega (arith, up.0.0, rest.0), rest)

  -- Nothing is listed behind the last key of the table.
  pub rows_after-last : (runs : List Run) → IsAscending runs → rows_after f (last_pk runs) runs ≡ []
  unfolding rows_after
  rows_after-last runs up = none_behind (last_pk runs) runs (All-last_pk runs up)
    where
      none_behind :
          (pk : ℕ) (rows : List Run) → All (λ q. q.pk ≤ pk) rows → rows_after f pk rows ≡ []
      none_behind pk [] h = refl
      none_behind pk (r ∷ rows) h = rows_after_skip pk r rows h.0 ∙ none_behind pk rows h.1
