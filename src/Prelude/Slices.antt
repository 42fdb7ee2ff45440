-- ===== src/Prelude/Slices.antt =====
-- Go's slices of bytes: parts of a list, and what `copy` leaves in its destination.
use Prim.Native.Nat.{ℕ, zero, suc, ◌+◌, ◌-◌, ◌≤◌, min}
use mathlib.Core.Path.{◌≡◌, refl, sym, ap, ◌∙◌}
use mathlib.Core.List.{List, [], ◌∷◌, ◌++◌}
use native.Mathlib.Omega.{arith}
use paddle_flow.Prelude.Lists.{length, length-append, take, drop}

module _ {ℓ} {A : Type ℓ} where
  -- s[lo:hi]
  abbrev pub slice : ℕ → ℕ → List A → List A
  slice lo hi s = take (hi - lo) (drop lo s)

  -- What `copy(dst, src)` leaves in `dst`.
  unfoldable pub copied : List A → List A → List A
  copied [] src = []
  copied (d ∷ dst) [] = d ∷ dst
  copied (d ∷ dst) (s ∷ src) = s ∷ copied dst src

  pub length-copied : (dst src : List A) → length (copied dst src) ≡ length dst
  unfolding copied
  length-copied [] src = refl
  length-copied (d ∷ dst) [] = refl
  length-copied (d ∷ dst) (s ∷ src) = omega (arith, length-copied dst src)

  pub take-copied :
      (k : ℕ) (dst src : List A)
      → k ≤ length dst
      → k ≤ length src
      → take k (copied dst src) ≡ take k src
  unfolding copied
  take-copied zero dst src h g = refl
  take-copied (suc k) [] src h g = absurd (omega (arith, h))
  take-copied (suc k) (d ∷ dst) [] h g = absurd (omega (arith, g))
  take-copied (suc k) (d ∷ dst) (s ∷ src) h g =
      ap (λ t. s ∷ t) (take-copied k dst src (omega (arith, h)) (omega (arith, g)))

  pub take_none : (k : ℕ) → take {A = A} k [] ≡ []
  take_none zero = refl
  take_none (suc k) = refl

  pub drop_none : (k : ℕ) → drop {A = A} k [] ≡ []
  drop_none zero = refl
  drop_none (suc k) = refl

  pub length-take : (k : ℕ) (s : List A) → length (take k s) ≡ min k (length s)
  length-take zero s = omega arith
  length-take (suc k) [] = omega arith
  length-take (suc k) (x ∷ s) = omega (arith, length-take k s)

  pub length-drop : (k : ℕ) (s : List A) → length (drop k s) ≡ length s - k
  length-drop zero s = omega arith
  length-drop (suc k) [] = omega arith
  length-drop (suc k) (x ∷ s) = omega (arith, length-drop k s)

  pub drop-drop : (j k : ℕ) (s : List A) → drop j (drop k s) ≡ drop (k + j) s
  drop-drop j zero s = let same : 0 + j ≡ j = omega arith in rw same refl
  drop-drop j (suc k) [] = drop_none j ∙ sym (drop_none (suc k + j))
  drop-drop j (suc k) (x ∷ s) =
      let more : suc k + j ≡ suc (k + j) = omega arith in rw more (drop-drop j k s)

  -- A part of the first `n` entries.
  pub take-drop-take :
      (k j n : ℕ) (s : List A) → k + j ≤ n → take k (drop j (take n s)) ≡ take k (drop j s)
  take-drop-take k j zero s h = let no_k : k ≡ 0 = omega (arith, h) in rw no_k refl
  take-drop-take k zero (suc n) [] h = refl
  take-drop-take k (suc j) (suc n) [] h = refl
  take-drop-take zero zero (suc n) (x ∷ s) h = refl
  take-drop-take (suc k) zero (suc n) (x ∷ s) h =
      ap (λ t. x ∷ t) (take-drop-take k zero n s (omega (arith, h)))
  take-drop-take k (suc j) (suc n) (x ∷ s) h = take-drop-take k j n s (omega (arith, h))

  pub take_all : (k : ℕ) (s : List A) → length s ≤ k → take k s ≡ s
  take_all zero [] h = refl
  take_all zero (x ∷ s) h = absurd (omega (arith, h))
  take_all (suc k) [] h = refl
  take_all (suc k) (x ∷ s) h = ap (λ t. x ∷ t) (take_all k s (omega (arith, h)))

  pub drop_all : (k : ℕ) (s : List A) → length s ≤ k → drop k s ≡ []
  drop_all zero [] h = refl
  drop_all zero (x ∷ s) h = absurd (omega (arith, h))
  drop_all (suc k) [] h = refl
  drop_all (suc k) (x ∷ s) h = drop_all k s (omega (arith, h))

  pub take-take : (j k : ℕ) (s : List A) → j ≤ k → take j (take k s) ≡ take j s
  take-take j k s h = take-drop-take j 0 k s (omega (arith, h))

  pub take-min : (k : ℕ) (s : List A) → take (min k (length s)) s ≡ take k s
  take-min zero s = let none_left : min 0 (length s) ≡ 0 = omega arith in rw none_left refl
  take-min (suc k) [] = take_none (min (suc k) 0)
  take-min (suc k) (x ∷ s) =
      let less : min (suc k) (suc (length s)) ≡ suc (min k (length s)) = omega arith in
      rw less (ap (λ t. x ∷ t) (take-min k s))

  pub take_append : (j k : ℕ) (s : List A) → take j s ++ take k (drop j s) ≡ take (j + k) s
  take_append zero k s = let same : 0 + k ≡ k = omega arith in rw same refl
  take_append (suc j) k [] = take_none k ∙ sym (take_none (suc j + k))
  take_append (suc j) k (x ∷ s) =
      let more : suc j + k ≡ suc (j + k) = omega arith in
      rw more (ap (λ t. x ∷ t) (take_append j k s))

  pub take-append_left : (s t : List A) → take (length s) (s ++ t) ≡ s
  take-append_left [] t = refl
  take-append_left (x ∷ s) t = ap (λ u. x ∷ u) (take-append_left s t)

  pub drop-append_left : (s t : List A) → drop (length s) (s ++ t) ≡ t
  drop-append_left [] t = refl
  drop-append_left (x ∷ s) t = drop-append_left s t

  -- Parts agree where the whole does.
  pub slice_agree :
      (k j n : ℕ) (s t : List A)
      → k + j ≤ n
      → take n s ≡ take n t
      → take k (drop j s) ≡ take k (drop j t)
  slice_agree k j n s t h e =
      sym (take-drop-take k j n s h) ∙ ap (λ u. take k (drop j u)) e ∙ take-drop-take k j n t h

  pub take-append_le : (k : ℕ) (s t : List A) → k ≤ length s → take k (s ++ t) ≡ take k s
  take-append_le zero s t h = refl
  take-append_le (suc k) [] t h = absurd (omega (arith, h))
  take-append_le (suc k) (x ∷ s) t h = ap (λ u. x ∷ u) (take-append_le k s t (omega (arith, h)))

  -- What `s` becomes when `part` is written at `lo`.
  abbrev pub patched : ℕ → List A → List A → List A
  patched lo part s = take lo s ++ (part ++ drop (lo + length part) s)

  pub length-patched :
      (lo : ℕ) (part s : List A)
      → lo + length part ≤ length s
      → length (patched lo part s) ≡ length s
  length-patched lo part s h = omega (
    arith,
    h,
    length-append (take lo s) (part ++ drop (lo + length part) s),
    length-append part (drop (lo + length part) s),
    length-take lo s,
    length-drop (lo + length part) s,
  )

  -- The front up to what was written, and the first entries of that.
  pub take-patched :
      (lo k : ℕ) (part s : List A)
      → lo ≤ length s
      → k ≤ length part
      → take (lo + k) (patched lo part s) ≡ take lo s ++ take k part
  take-patched lo k part s h g =
      let front = take lo s in
      let back = part ++ drop (lo + length part) s in
      let size : length front ≡ lo = omega (arith, h, length-take lo s) in
      sym (take_append lo k (front ++ back))
      ∙ ap (λ u. u ++ take k (drop lo (front ++ back)))
          (take-append_le lo front back (omega (arith, size))
            ∙ take_all lo front (omega (arith, size)))
      ∙ ap (λ u. front ++ take k u)
          (ap (λ n. drop n (front ++ back)) (sym size) ∙ drop-append_left front back)
      ∙ ap (λ u. front ++ u) (take-append_le k part (drop (lo + length part) s) g)
