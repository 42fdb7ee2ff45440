-- ===== src/Fs/Cache/Stale.antt =====
-- pkg/fs/client/cache/cache.go: which keys the goroutine of `InvalidateCache` deletes.
use paddle_flow.Prelude.{
  ==_iff, Bool-cases, In, Text, ap, arith, inl, inr, leb, leb→le, subst, suc, sym, zero, ℕ, ◌*◌,
  ◌+◌, ◌<◌, ◌==◌, ◌↔◌, ◌∙◌, ◌≡◌, ◌≤◌,
}
use native.Mathlib.Nat.{add-mul, mul-le-mul_left, mul-le-mul_right}
use paddle_flow.Fs.Cache.{Lru, block_key}
use paddle_flow.Fs.Cache.Invalidation.{stale_keys}

module _ (l : Lru) (hash : Text → ℕ) (id : Text) (size length : ℕ) (some_size : 0 < size) where
  -- The key of a block from `index` on that begins within the length or right behind it.
  abbrev IsStale : ℕ → Text → Type 0
  IsStale index key = (i : ℕ) × (index ≤ i) × (i * size ≤ length) × (key ≡ block_key hash id i)

  IsStale-from :
      (k write index : ℕ) (key : Text)
      → write ≡ index * size
      → length < (k + index) * size
      → In key (stale_keys l hash k id size length write index) ↔ IsStale index key
  unfolding stale_keys
  IsStale-from zero write index key at_index fuel = (
    (λ h. absurd h),
    (λ h.
        let (i, later, begins, e) = h in
        let same : zero + index ≡ index = omega arith in
        absurd (
          omega (
            arith,
            mul-le-mul_right size later,
            begins,
            subst (λ j. length < j * size) same fuel,
          ))),
  )
  IsStale-from (suc k) write index key at_index fuel =
      let next : (index + 1) * size ≡ index * size + 1 * size = add-mul index 1 size in
      let less : suc k + index ≡ k + (index + 1) = omega arith in
      let ih =
        IsStale-from k (write + size) (index + 1) key (omega (arith, at_index, next))
          (subst (λ j. length < j * size) less fuel) in
      elim (Bool-cases (leb write length)) [
        | inl e ↦
            rw (e, stale_keys)
              (
                (λ h. elim h [
                  | inl here ↦
                      (index, omega arith, omega (arith, leb→le write length e, at_index), sym here)
                  | inr m ↦
                      let (i, later, begins, is) = ih.0 m in (i, omega (arith, later), begins, is)
                ]),
                (λ h.
                    let (i, later, begins, is) = h in
                    elim (Bool-cases (index == i)) [
                      | inl same ↦
                          inl (sym (is ∙ ap (block_key hash id) (sym ((==_iff index i).0 same))))
                      | inr other ↦
                          inr (ih.1 (i, ground (arith, later, ==_iff index i), begins, is))
                    ]),
              )
        | inr e ↦
            rw (e, stale_keys)
              (
                (λ h. absurd h),
                (λ h.
                    let (i, later, begins, is) = h in
                    absurd (ground (arith, e, at_index, mul-le-mul_right size later, begins))),
              )
      ]

  -- The goroutine of `InvalidateCache` ends, within one round more than the length of the file, and
  -- deletes the keys of the blocks that begin within that length or right behind it, and no other.
  pub stale_keys-IsStale :
      (key : Text)
      → In key (stale_keys l hash (length + 1) id size length 0 0)
        ↔ ((i : ℕ) × (0 ≤ i) × (i * size ≤ length) × (key ≡ block_key hash id i))
  stale_keys-IsStale key =
      let one : (length + 1) * 1 ≤ (length + 1) * size = mul-le-mul_left (length + 1) some_size in
      let same : length + 1 + 0 ≡ length + 1 = omega arith in
      IsStale-from (length + 1) 0 0 key (omega arith) (rw same (omega (arith, one)))
