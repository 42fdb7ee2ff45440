-- ===== src/Pipeline/RunSteps/Missing.antt =====
-- How many steps the walk has left: the bound on the depth of its calls.
use paddle_flow.Prelude.{
  Bool, Bool-cases, In, In→has, Text, [], arith, false, has, has→In, if◌then◌else◌, inl, inr, keys,
  length, subst, suc, sym, true, ℕ, ◌+◌, ◌<◌, ◌∷◌, ◌≡◌, ◌≤◌,
}
use paddle_flow.Pipeline.Topology.{Steps}

-- The steps of the workflow that the map does not hold.
abbrev pub missing : Steps → Steps → ℕ
missing [] steps = 0
missing ((n, s) ∷ source) steps = (if has n steps then 0 else 1) + missing source steps

abbrev pub Keeps : Steps → Steps → Type 0
Keeps steps steps' = (n : Text) → In n (keys steps) → In n (keys steps')

pub missing-le :
    (source steps steps' : Steps)
    → Keeps steps steps'
    → missing source steps' ≤ missing source steps
missing-le [] steps steps' k = omega arith
missing-le ((n, s) ∷ source) steps steps' k = elim (Bool-cases (has n steps)) [
  | inl e ↦
      rw (e, In→has n steps' (k n (has→In n steps e)), missing)
        (omega (arith, missing-le source steps steps' k))
  | inr e ↦ rw (e, missing) (one_more (has n steps') (missing-le source steps steps' k))
]
  where
    one_more :
        (b : Bool)
        → missing source steps' ≤ missing source steps
        → (if b then 0 else 1) + missing source steps' ≤ 1 + missing source steps
    one_more true h = omega arith
    one_more false h = omega arith

pub missing-lt :
    (source steps steps' : Steps) (n : Text)
    → Keeps steps steps'
    → In n (keys source)
    → has n steps ≡ false
    → has n steps' ≡ true
    → missing source steps' < missing source steps
missing-lt [] steps steps' n k i h h' = absurd i
missing-lt ((m, s) ∷ source) steps steps' n k (inl e) h h' =
    rw
      (
        subst (λ x. has x steps ≡ false) (sym e) h,
        subst (λ x. has x steps' ≡ true) (sym e) h',
        missing,
      )
      (omega (arith, missing-le source steps steps' k))
missing-lt ((m, s) ∷ source) steps steps' n k (inr i) h h' = elim (Bool-cases (has m steps)) [
  | inl e ↦
      rw (e, In→has m steps' (k m (has→In m steps e)), missing)
        (omega (arith, missing-lt source steps steps' n k i h h'))
  | inr e ↦ rw (e, missing) (one_more (has m steps') (missing-lt source steps steps' n k i h h'))
]
  where
    one_more :
        (b : Bool)
        → missing source steps' < missing source steps
        → (if b then 0 else 1) + missing source steps' < 1 + missing source steps
    one_more true h = omega arith
    one_more false h = omega arith

pub missing-le_length : (source steps : Steps) → missing source steps ≤ length source
missing-le_length [] steps = omega arith
missing-le_length ((n, s) ∷ source) steps = one_more (has n steps) (missing-le_length source steps)
  where
    one_more :
        (b : Bool)
        → missing source steps ≤ length source
        → (if b then 0 else 1) + missing source steps ≤ suc (length source)
    one_more true h = omega arith
    one_more false h = omega arith
