-- ===== src/Fs/Cache/Sound.antt =====
-- pkg/fs/client/cache: what is kept under the key of a file's identity is a block of the file.
use paddle_flow.Prelude.{
  Bool-cases, In, List, Text, ap, false, inl, inr, insert, lookup, lookup-insert, refl, some,
  some-inj, subst, sym, text_empty, text_eq, text_eq→eq, ℕ, ◌∙◌, ◌∷◌, ◌≡◌, ◌⊎◌,
}
use paddle_flow.Fs.Disk.{Bytes}
use paddle_flow.Fs.Cache.{Lru, Store, block_key}
use paddle_flow.Fs.Cache.Keys.{IsPlain}
use paddle_flow.Fs.Cache.Blocks.{block_of}
use paddle_flow.Fs.Cache.Kept.{Kept, Shrinks, in_mem, on_disk}
use paddle_flow.Fs.Cache.Traces.{IsNew}

-- An identity that was made.
pub record IsIdentity (id : Text) : Type 0 where
  pub plain : IsPlain id
  pub not_empty : text_empty id ≡ false

module _ (l : Lru) (hash : Text → ℕ) (size : ℕ) where
  -- What is known of a block that is kept: it has the key of an identity, and belongs to the file
  -- that has the identity now.
  pub record IsBlock (files : Text → Bytes) (issued : List Text) (meta : List (Text × Text))
      (key : Text) (b : Bytes) : Type 0 where
    pub id : Text
    pub index : ℕ
    pub keyed : key ≡ block_key hash id index
    pub known : In id issued
    pub content : (name : Text) → lookup name meta ≡ some id → b ≡ block_of size (files name) index

  pub record IsSound (files : Text → Bytes) (issued : List Text) (s : Store l) : Type 0 where
    pub same_size : s.conf.block_size ≡ size
    pub identities : (id : Text) → In id issued → IsIdentity id
    pub known : (name id : Text) → lookup name s.meta ≡ some id → In id issued
    pub distinct :
        (name name' id : Text)
        → lookup name s.meta ≡ some id
        → lookup name' s.meta ≡ some id
        → name ≡ name'
    pub kept : (key : Text) (b : Bytes) → Kept l s key b → IsBlock files issued s.meta key b

  IsBlock-issue :
      (files : Text → Bytes) (issued : List Text) (meta : List (Text × Text)) (uuid key : Text)
      (b : Bytes)
      → IsBlock files issued meta key b
      → IsBlock files (uuid ∷ issued) meta key b
  IsBlock-issue files issued meta uuid key b h = record {
    id = h.id;
    index = h.index;
    keyed = h.keyed;
    known = inr h.known;
    content = h.content;
  }

  pub IsSound-issue :
      (files : Text → Bytes) (issued : List Text) (s : Store l) (uuid : Text)
      → IsNew issued uuid
      → IsSound files issued s
      → IsSound files (uuid ∷ issued) s
  IsSound-issue files issued s uuid new h = record {
    same_size = h.same_size;
    identities = identities;
    known = λ name id e. inr (h.known name id e);
    distinct = h.distinct;
    kept = λ key b k. IsBlock-issue files issued s.meta uuid key b (h.kept key b k);
  }
    where
      identities : (id : Text) → In id (uuid ∷ issued) → IsIdentity id
      identities id (inl e) =
          subst IsIdentity e (record { plain = new.plain; not_empty = new.not_empty })
      identities id (inr m) = h.identities id m

  pub IsSound-shrink :
      (files : Text → Bytes) (issued : List Text) (s t : Store l)
      → Shrinks l s t
      → IsSound files issued s
      → IsSound files issued t
  IsSound-shrink files issued s t less h = record {
    same_size = ap (λ c. c.block_size) less.same_conf ∙ h.same_size;
    identities = h.identities;
    known = λ name id e. h.known name id (as_before name id e);
    distinct = λ name name' id e e'.
        h.distinct name name' id (as_before name id e) (as_before name' id e');
    kept = λ key b k.
        subst (λ m. IsBlock files issued m key b) (sym less.same_meta)
          (h.kept key b (less.fewer key b k));
  }
    where
      as_before : (name id : Text) → lookup name t.meta ≡ some id → lookup name s.meta ≡ some id
      as_before name id e = subst (λ m. lookup name m ≡ some id) less.same_meta e

  -- A file gets an identity that nothing has yet.
  named : Store l → Text → Text → Store l
  named s name uuid = record s { meta = insert name uuid s.meta }

  lookup_named :
      (s : Store l) (name uuid other id : Text)
      → lookup other (insert name uuid s.meta) ≡ some id
      → ((name ≡ other) × (id ≡ uuid)) ⊎ (lookup other s.meta ≡ some id)
  lookup_named s name uuid other id e = elim (Bool-cases (text_eq name other)) [
    | inl t ↦ inl (
      text_eq→eq name other t,
      sym (some-inj (sym (lookup-insert name other uuid s.meta ∙ rw t refl) ∙ e)),
    )
    | inr t ↦ inr (sym (lookup-insert name other uuid s.meta ∙ rw t refl) ∙ e)
  ]

  pub IsSound-name :
      (files : Text → Bytes) (issued : List Text) (s : Store l) (name uuid : Text)
      → IsNew issued uuid
      → IsSound files issued s
      → IsSound files (uuid ∷ issued) (record s { meta = insert name uuid s.meta })
  IsSound-name files issued s name uuid new h = record {
    same_size = h.same_size;
    identities = (IsSound-issue files issued s uuid new h).identities;
    known = λ other id e. at_known other id (lookup_named s name uuid other id e);
    distinct = λ other other' id e e'.
        at_distinct other other' id (lookup_named s name uuid other id e)
          (lookup_named s name uuid other' id e');
    kept = λ key b k. at_kept key b (h.kept key b (unnamed key b k));
  }
    where
      unnamed :
          (key : Text) (b : Bytes)
          → Kept l (record s { meta = insert name uuid s.meta }) key b
          → Kept l s key b
      unnamed key b (in_mem c e k) = in_mem c e k
      unnamed key b (on_disk d e k) = on_disk d e k

      at_known :
          (other id : Text)
          → ((name ≡ other) × (id ≡ uuid)) ⊎ (lookup other s.meta ≡ some id)
          → In id (uuid ∷ issued)
      at_known other id (inl e) = inl (sym e.1)
      at_known other id (inr e) = inr (h.known other id e)

      not_old : (other : Text) → (id : Text) → id ≡ uuid → lookup other s.meta ≡ some id → ⊥
      not_old other id e k = new.not_issued (subst (λ i. In i issued) e (h.known other id k))

      at_distinct :
          (other other' id : Text)
          → ((name ≡ other) × (id ≡ uuid)) ⊎ (lookup other s.meta ≡ some id)
          → ((name ≡ other') × (id ≡ uuid)) ⊎ (lookup other' s.meta ≡ some id)
          → other ≡ other'
      at_distinct other other' id (inl e) (inl e') = sym e.0 ∙ e'.0
      at_distinct other other' id (inl e) (inr k) = absurd (not_old other' id e.1 k)
      at_distinct other other' id (inr k) (inl e) = absurd (not_old other id e.1 k)
      at_distinct other other' id (inr k) (inr k') = h.distinct other other' id k k'

      at_kept :
          (key : Text) (b : Bytes)
          → IsBlock files issued s.meta key b
          → IsBlock files (uuid ∷ issued) (insert name uuid s.meta) key b
      at_kept key b i = record {
        id = i.id;
        index = i.index;
        keyed = i.keyed;
        known = inr i.known;
        content = λ other e. elim (lookup_named s name uuid other i.id e) [
          | inl same ↦ absurd (new.not_issued (subst (λ x. In x issued) same.1 i.known))
          | inr old ↦ i.content other old
        ];
      }
