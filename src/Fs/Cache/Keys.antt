-- ===== src/Fs/Cache/Keys.antt =====
-- pkg/fs/client/cache/cache.go: `store.key`. Blocks of two identities, or of two places in a file,
-- never share a key.
use paddle_flow.Prelude.{
  All, IsDigit, IsName, IsName-underscore, Lacks, Text, [], append-inj, arith, clean_three, codes,
  decimal, decimal-IsDigit, decimal-inj, decimal_cons, refl, slash, subst, sym, text_eq, ℕ, ◌%◌,
  ◌++◌, ◌∙◌, ◌∷◌, ◌≡◌,
}
use paddle_flow.Fs.Cache.{block_key}

-- A text such as a UUID: no slash, no underscore.
pub record IsPlain (id : Text) : Type 0 where
  pub no_slash : Lacks slash id
  pub no_underscore : Lacks 95 id

digits-Lacks : (c : ℕ) (s : Text) → (IsDigit c → ⊥) → All IsDigit s → Lacks c s
digits-Lacks c [] h hs = tt
digits-Lacks c (d ∷ s) h hs = ((λ e. h (subst IsDigit e hs.0)), digits-Lacks c s h hs.1)

decimal-Lacks : (n : ℕ) → Lacks slash (decimal n)
decimal-Lacks n = digits-Lacks slash (decimal n) (λ h. omega (arith, h)) (decimal-IsDigit n)

digits-IsName : (d : ℕ) (s : Text) → All IsDigit (d ∷ s) → IsName (d ∷ s)
unfolding text_eq
digits-IsName d s h = record {
  not_empty = refl;
  not_dot = ground arith;
  not_dots = ground arith;
  no_slash = digits-Lacks slash (d ∷ s) (λ k. omega (arith, k)) h;
}

decimal-IsName : (n : ℕ) → IsName (decimal n)
decimal-IsName n =
    let (d, s, e) = decimal_cons n in rw e (digits-IsName d s (rw e at (decimal-IsDigit n)))

blocks-IsName : IsName (codes "blocks")
unfolding text_eq
blocks-IsName = record {
  not_empty = refl;
  not_dot = refl;
  not_dots = refl;
  no_slash =
      (omega arith, (omega arith, (omega arith, (omega arith, (omega arith, (omega arith, tt))))));
}

-- The path of a block is clean as it is made.
pub block_key_clean :
    (hash : Text → ℕ) (id : Text) (index : ℕ)
    → IsPlain id
    → block_key hash id index
      ≡ codes "blocks" ++ slash ∷ (decimal (hash id % 256) ++ slash ∷ (id ++ 95 ∷ decimal index))
unfolding block_key
block_key_clean hash id index plain =
    clean_three (codes "blocks") (decimal (hash id % 256)) (id ++ 95 ∷ decimal index) blocks-IsName
      (decimal-IsName (hash id % 256))
      (IsName-underscore id (decimal index) plain.no_slash (decimal-Lacks index))

-- Two blocks of plain identities have the same key only if they have the same identity and the same
-- index, whatever the hash is.
pub block_key-inj :
    (hash : Text → ℕ) (id id' : Text) (i j : ℕ)
    → IsPlain id
    → IsPlain id'
    → block_key hash id i ≡ block_key hash id' j
    → (id ≡ id') × (i ≡ j)
block_key-inj hash id id' i j p q e =
    let paths = sym (block_key_clean hash id i p) ∙ e ∙ block_key_clean hash id' j q in
    let (_, behind) =
      append-inj slash (codes "blocks") (codes "blocks")
        (decimal (hash id % 256) ++ slash ∷ (id ++ 95 ∷ decimal i))
        (decimal (hash id' % 256) ++ slash ∷ (id' ++ 95 ∷ decimal j)) blocks-IsName.no_slash
        blocks-IsName.no_slash paths in
    let (_, names) =
      append-inj slash (decimal (hash id % 256)) (decimal (hash id' % 256)) (id ++ 95 ∷ decimal i)
        (id' ++ 95 ∷ decimal j) (decimal-Lacks (hash id % 256)) (decimal-Lacks (hash id' % 256))
        behind in
    let (ids, numbers) =
      append-inj 95 id id' (decimal i) (decimal j) p.no_underscore q.no_underscore names in
    (ids, decimal-inj i j numbers)
