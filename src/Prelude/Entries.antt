-- ===== src/Prelude/Entries.antt =====
-- Which entries a map holds, and what a deletion leaves.
use Prim.Native.Nat.{◌≤◌, ◌<◌}
use mathlib.Core.Path.{subst, refl, ◌≡◌, sym, ap, ◌∙◌}
use mathlib.Core.Logic.{◌≢◌, ◌⊎◌, inl, inr}
use mathlib.Core.Bool.{true, false, true≢false}
use mathlib.Core.List.{List, [], ◌∷◌, ◌++◌}
use native.Mathlib.Omega.{arith}
use paddle_flow.Prelude.Tests.{Bool-cases}
use paddle_flow.Prelude.Lists.{In, NoDup, length}
use mathlib.Core.Option.{some, none}
use paddle_flow.Prelude.Texts.{Text, text_eq, text_eq→eq, eq→text_eq, text_eq_refl}
use paddle_flow.Prelude.Maps.{lookup, insert, delete, keys, has}

module _ {V : Type 0} where
  pub has→In : (k : Text) (m : List (Text × V)) → has k m ≡ true → In k (keys m)
  unfolding lookup
  has→In k [] h = cc
  has→In k ((j, v) ∷ m) h = elim (Bool-cases (text_eq j k)) [
    | inl e ↦ inl (text_eq→eq j k e)
    | inr e ↦ inr (has→In k m (rw (e, has) at h))
  ]

  pub In→has : (k : Text) (m : List (Text × V)) → In k (keys m) → has k m ≡ true
  unfolding lookup
  In→has k [] h = absurd h
  In→has k ((j, v) ∷ m) (inl e) = rw (eq→text_eq j k e, has)
  In→has k ((j, v) ∷ m) (inr h) = elim (Bool-cases (text_eq j k)) [
    | inl e ↦ rw (e, has)
    | inr e ↦ rw (e, has) (In→has k m h)
  ]

  pub In-keys : (k : Text) (v : V) (m : List (Text × V)) → In (k, v) m → In k (keys m)
  In-keys k v [] h = absurd h
  In-keys k v (e ∷ m) (inl h) = inl (ap (λ x. x.0) h)
  In-keys k v (e ∷ m) (inr h) = inr (In-keys k v m h)

  pub In-keys_entry : (k : Text) (m : List (Text × V)) → In k (keys m) → (v : V) × In (k, v) m
  In-keys_entry k [] h = absurd h
  In-keys_entry k ((j, v) ∷ m) (inl h) = (v, inl (rw h))
  In-keys_entry k ((j, v) ∷ m) (inr h) = let (w, i) = In-keys_entry k m h in (w, inr i)

  -- Deleting a key leaves exactly the entries of the other keys.
  pub In-delete→In :
      (k : Text) (e : Text × V) (m : List (Text × V)) → In e (delete k m) → In e m × (k ≢ e.0)
  unfolding delete
  In-delete→In k e [] h = absurd h
  In-delete→In k e ((j, w) ∷ m) h = elim (Bool-cases (text_eq j k)) [
    | inl q ↦ let (i, n) = In-delete→In k e m (rw q at h) in (inr i, n)
    | inr q ↦ kept q (In-delete→In k e m) (rw q at h)
  ]
    where
      kept :
          text_eq j k ≡ false
          → (In e (delete k m) → In e m × (k ≢ e.0))
          → In e ((j, w) ∷ delete k m)
          → In e ((j, w) ∷ m) × (k ≢ e.0)
      kept q rec (inl r) =
          (inl r, λ s. absurd (true≢false (sym (eq→text_eq j k (ap (λ x. x.0) r ∙ sym s)) ∙ q)))
      kept q rec (inr i) = let (i', n) = rec i in (inr i', n)

  pub In→In-delete :
      (k : Text) (e : Text × V) (m : List (Text × V)) → In e m → k ≢ e.0 → In e (delete k m)
  unfolding delete
  In→In-delete k e [] h n = h
  In→In-delete k e ((j, w) ∷ m) h n = elim (Bool-cases (text_eq j k)) [
    | inl q ↦ rw q (In→In-delete k e m (other q h) n)
    | inr q ↦ rw q (kept (λ i. In→In-delete k e m i n) h)
  ]
    where
      other : text_eq j k ≡ true → In e ((j, w) ∷ m) → In e m
      other q (inl r) = absurd (n (sym (text_eq→eq j k q) ∙ ap (λ x. x.0) r))
      other q (inr i) = i

      kept : (In e m → In e (delete k m)) → In e ((j, w) ∷ m) → In e ((j, w) ∷ delete k m)
      kept rec (inl r) = inl r
      kept rec (inr i) = inr (rec i)

  pub length-delete-le : (k : Text) (m : List (Text × V)) → length (delete k m) ≤ length m
  unfolding delete
  length-delete-le k [] = omega arith
  length-delete-le k ((j, w) ∷ m) = elim (Bool-cases (text_eq j k)) [
    | inl q ↦ rw q (omega (arith, length-delete-le k m))
    | inr q ↦ rw q (omega (arith, length-delete-le k m))
  ]

  pub length-delete-lt :
      (k : Text) (m : List (Text × V)) → In k (keys m) → length (delete k m) < length m
  unfolding delete
  length-delete-lt k [] h = absurd h
  length-delete-lt k ((j, w) ∷ m) (inl e) =
      rw (eq→text_eq j k e) (omega (arith, length-delete-le k m))
  length-delete-lt k ((j, w) ∷ m) (inr h) = elim (Bool-cases (text_eq j k)) [
    | inl q ↦ rw q (omega (arith, length-delete-le k m))
    | inr q ↦ rw q (omega (arith, length-delete-lt k m h))
  ]

  pub In-keys-delete :
      (k n : Text) (m : List (Text × V)) → In n (keys (delete k m)) → In n (keys m) × (k ≢ n)
  In-keys-delete k n m h =
      let (v, i) = In-keys_entry n (delete k m) h in
      let (j, ne) = In-delete→In k (n, v) m i in (In-keys n v m j, ne)

  pub In-keys→delete :
      (k n : Text) (m : List (Text × V)) → In n (keys m) → k ≢ n → In n (keys (delete k m))
  In-keys→delete k n m h ne =
      let (v, i) = In-keys_entry n m h in In-keys n v (delete k m) (In→In-delete k (n, v) m i ne)

  pub NoDup-keys-delete :
      (k : Text) (m : List (Text × V)) → NoDup (keys m) → NoDup (keys (delete k m))
  unfolding delete
  NoDup-keys-delete k [] d = tt
  NoDup-keys-delete k ((j, w) ∷ m) d = elim (Bool-cases (text_eq j k)) [
    | inl q ↦ rw q (NoDup-keys-delete k m d.1)
    | inr q ↦ rw q ((λ i. d.0 (In-keys-delete k j m i).0), NoDup-keys-delete k m d.1)
  ]

  pub entry_unique :
      (k : Text) (v w : V) (m : List (Text × V))
      → NoDup (keys m)
      → In (k, v) m
      → In (k, w) m
      → v ≡ w
  entry_unique k v w [] d i j = absurd i
  entry_unique k v w (e ∷ m) d (inl p) (inl q) = ap (λ x. x.1) (sym p ∙ q)
  entry_unique k v w (e ∷ m) d (inl p) (inr j) =
      absurd (d.0 (subst (λ n. In n (keys m)) (sym (ap (λ x. x.0) p)) (In-keys k w m j)))
  entry_unique k v w (e ∷ m) d (inr i) (inl q) =
      absurd (d.0 (subst (λ n. In n (keys m)) (sym (ap (λ x. x.0) q)) (In-keys k v m i)))
  entry_unique k v w (e ∷ m) d (inr i) (inr j) = entry_unique k v w m d.1 i j

module _ {V : Type 0} (k : Text) where
  pub other_key :
      (j : Text) (m : List (Text × V)) (v : V)
      → (In k (keys ((j, v) ∷ m)) → ⊥)
      → text_eq j k ≡ false
  other_key j m v n = elim (Bool-cases (text_eq j k)) [
    | inl e ↦ absurd (n (inl (text_eq→eq j k e)))
    | inr e ↦ e
  ]

  pub insert_new :
      (v : V) (m : List (Text × V)) → (In k (keys m) → ⊥) → insert k v m ≡ m ++ (k, v) ∷ []
  unfolding insert
  insert_new v [] n = refl
  insert_new v ((j, w) ∷ m) n =
      rw (other_key j m w n) (ap (λ t. (j, w) ∷ t) (insert_new v m (λ i. n (inr i))))

  pub insert_last :
      (v w : V) (m : List (Text × V))
      → (In k (keys m) → ⊥)
      → insert k v (m ++ (k, w) ∷ []) ≡ m ++ (k, v) ∷ []
  unfolding insert
  insert_last v w [] n = rw (text_eq_refl k)
  insert_last v w ((j, u) ∷ m) n =
      rw (other_key j m u n) (ap (λ t. (j, u) ∷ t) (insert_last v w m (λ i. n (inr i))))

  pub lookup_new : (m : List (Text × V)) → (In k (keys m) → ⊥) → lookup k m ≡ none
  unfolding lookup
  lookup_new [] n = refl
  lookup_new ((j, w) ∷ m) n = rw (other_key j m w n) (lookup_new m (λ i. n (inr i)))

  pub lookup_last :
      (w : V) (m : List (Text × V)) → (In k (keys m) → ⊥) → lookup k (m ++ (k, w) ∷ []) ≡ some w
  unfolding lookup
  lookup_last w [] n = rw (text_eq_refl k)
  lookup_last w ((j, u) ∷ m) n = rw (other_key j m u n) (lookup_last w m (λ i. n (inr i)))

module _ {V : Type 0} where
  pub lookup→In : (k : Text) (v : V) (m : List (Text × V)) → lookup k m ≡ some v → In (k, v) m
  unfolding lookup
  lookup→In k v [] h = cc
  lookup→In k v ((j, w) ∷ m) h = elim (Bool-cases (text_eq j k)) [
    | inl e ↦ inl (ground (arith, text_eq→eq j k e))
    | inr e ↦ inr (lookup→In k v m (rw e at h))
  ]

  pub has_of_lookup :
      (k : Text) (v : V) (m : List (Text × V)) → lookup k m ≡ some v → has k m ≡ true
  has_of_lookup k v m h = rw (h, has)

  pub not-has→In : (k : Text) (m : List (Text × V)) → has k m ≡ false → In k (keys m) → ⊥
  not-has→In k m h i = true≢false (sym (In→has k m i) ∙ h)

  pub In-keys-snoc :
      (n k : Text) (v : V) (m : List (Text × V))
      → In n (keys (m ++ (k, v) ∷ []))
      → In n (keys m) ⊎ (k ≡ n)
  In-keys-snoc n k v [] (inl e) = inr e
  In-keys-snoc n k v [] (inr h) = absurd h
  In-keys-snoc n k v (e ∷ m) (inl q) = inl (inl q)
  In-keys-snoc n k v (e ∷ m) (inr i) = elim (In-keys-snoc n k v m i) [
    | inl l ↦ inl (inr l)
    | inr r ↦ inr r
  ]

  pub In-keys-snoc_old :
      (n k : Text) (v : V) (m : List (Text × V)) → In n (keys m) → In n (keys (m ++ (k, v) ∷ []))
  In-keys-snoc_old n k v [] i = absurd i
  In-keys-snoc_old n k v (e ∷ m) (inl q) = inl q
  In-keys-snoc_old n k v (e ∷ m) (inr i) = inr (In-keys-snoc_old n k v m i)

  pub In-keys-snoc_new : (k : Text) (v : V) (m : List (Text × V)) → In k (keys (m ++ (k, v) ∷ []))
  In-keys-snoc_new k v [] = inl refl
  In-keys-snoc_new k v (e ∷ m) = inr (In-keys-snoc_new k v m)

  pub has_of_none : (k : Text) (m : List (Text × V)) → lookup k m ≡ none → has k m ≡ false
  has_of_none k m h = rw (h, has)
