-- ===== src/Fs/Cache/Moves.antt =====
-- pkg/fs/client/cache: every move keeps the store sound, and the calls of `setCache` right.
use paddle_flow.Prelude.{
  Bool-cases, List, Option, Text, [], ap, if◌then◌else◌, inl, inr, insert, lookup, lookup-insert,
  none, none≢some, refl, some, subst, sym, text_empty, text_eq, text_eq_refl, text_eq→eq, ℕ, ◌∙◌,
  ◌∷◌, ◌≡◌,
}
use mathlib.Core.Bool.{true≢false}
use paddle_flow.Fs.Disk.{Bytes}
use paddle_flow.Fs.Cache.{Lru, Store, block_key, or_empty, reader_key}
use paddle_flow.Fs.Cache.Keys.{IsPlain, block_key-inj}
use paddle_flow.Fs.Cache.Blocks.{block_of}
use paddle_flow.Fs.Cache.Kept.{Kept, in_mem, on_disk}
use paddle_flow.Fs.Cache.Traces.{IsNew}
use paddle_flow.Fs.Cache.Sound.{IsSound, IsBlock, IsSound-issue, IsSound-name}

module _ (l : Lru) (hash : Text → ℕ) (size : ℕ) where
  -- What `rCache.key` leaves: a file that has an identity, or had none and got the new one.
  pub record IsNamed (files : Text → Bytes) (issued : List Text) (uuid name : Text) (index : ℕ)
      (s : Store l) (r : Text × Store l) : Type 0 where
    pub sound : IsSound l hash size files (uuid ∷ issued) r.1
    pub same_kept : (key : Text) (b : Bytes) → Kept l r.1 key b → Kept l s key b
    pub keyed : r.0 ≡ block_key hash (or_empty (lookup name s.meta)) index
    pub has_identity : (id : Text) × (lookup name r.1.meta ≡ some id)
    pub same_names :
        (other id : Text) → lookup other s.meta ≡ some id → lookup other r.1.meta ≡ some id

  pub reader_key-IsNamed :
      (files : Text → Bytes) (issued : List Text) (s : Store l) (name uuid : Text) (index : ℕ)
      → IsNew issued uuid
      → IsSound l hash size files issued s
      → IsNamed files issued uuid name index s (reader_key l hash s name uuid index)
  unfolding reader_key
  reader_key-IsNamed files issued s name uuid index new h = at_name (lookup name s.meta) refl
    where
      result : Option Text → Text × Store l
      result o = (
        block_key hash (or_empty o) index,
        if text_empty (or_empty o) then record s { meta = insert name uuid s.meta } else s,
      )

      kept_named :
          (key : Text) (b : Bytes)
          → Kept l (record s { meta = insert name uuid s.meta }) key b
          → Kept l s key b
      kept_named key b (in_mem c e k) = in_mem c e k
      kept_named key b (on_disk d e k) = on_disk d e k

      still :
          lookup name s.meta ≡ none
          → (other id : Text) → lookup other s.meta ≡ some id
          → lookup other (insert name uuid s.meta) ≡ some id
      still o other id e = elim (Bool-cases (text_eq name other)) [
        | inl t ↦
            absurd (none≢some (sym o ∙ ap (λ n. lookup n s.meta) (text_eq→eq name other t) ∙ e))
        | inr t ↦ lookup-insert name other uuid s.meta ∙ rw t e
      ]

      at_name :
          (o : Option Text)
          → lookup name s.meta ≡ o
          → IsNamed files issued uuid name index s (result o)
      at_name none o = record {
        sound = IsSound-name l hash size files issued s name uuid new h;
        same_kept = kept_named;
        keyed = ap (λ n. block_key hash (or_empty n) index) (sym o);
        has_identity = (uuid, lookup-insert name name uuid s.meta ∙ rw (text_eq_refl name) refl);
        same_names = still o;
      }
      at_name (some id) o =
          let old = (h.identities id (h.known name id o)).not_empty in
          subst
            (λ t. IsNamed files issued uuid name index s (
              block_key hash id index,
              if t then record s { meta = insert name uuid s.meta } else s,
            ))
            (sym old)
            (record {
              sound = IsSound-issue l hash size files issued s uuid new h;
              same_kept = λ key b k. k;
              keyed = ap (λ n. block_key hash (or_empty n) index) (sym o);
              has_identity = (id, o);
              same_names = λ other i e. e;
            })

  -- A block that is kept under the key that `rCache.key` gives is the block of the file.
  pub Kept-reader_key :
      (files : Text → Bytes) (issued : List Text) (s : Store l) (name : Text) (index : ℕ)
      (b : Bytes)
      → IsSound l hash size files issued s
      → Kept l s (block_key hash (or_empty (lookup name s.meta)) index) b
      → b ≡ block_of size (files name) index
  Kept-reader_key files issued s name index b h k = at_name (lookup name s.meta) refl
    where
      i :
          IsBlock l hash size files issued s.meta
            (block_key hash (or_empty (lookup name s.meta)) index)
            b
      i = h.kept (block_key hash (or_empty (lookup name s.meta)) index) b k

      at_name : (o : Option Text) → lookup name s.meta ≡ o → b ≡ block_of size (files name) index
      at_name none o =
          let empty_plain : IsPlain [] = record { no_slash = tt; no_underscore = tt } in
          let known = h.identities i.id i.known in
          let same = sym (ap (λ n. block_key hash (or_empty n) index) o) ∙ i.keyed in
          let empty = (block_key-inj hash [] i.id index i.index empty_plain known.plain same).0 in
          absurd (true≢false (ap text_empty empty ∙ known.not_empty))
      at_name (some id) o =
          let known = h.identities i.id i.known in
          let mine = h.identities id (h.known name id o) in
          let same = sym (ap (λ n. block_key hash (or_empty n) index) o) ∙ i.keyed in
          let (ids, indices) =
            block_key-inj hash id i.id index i.index mine.plain known.plain same in
          i.content name (o ∙ ap some ids) ∙ ap (block_of size (files name)) (sym indices)
