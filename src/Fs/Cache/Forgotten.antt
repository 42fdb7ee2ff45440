-- ===== src/Fs/Cache/Forgotten.antt =====
-- What is kept when a file is invalidated or changes.
use paddle_flow.Prelude.{
  Bool-cases, List, Option, Text, ap, clean, delete, inl, inr, lookup, lookup-delete, none,
  none≢some, refl, some, sym, text_eq, text_eq→eq, ℕ, ◌∙◌, ◌≡◌, ◌≢◌,
}
use paddle_flow.Fs.Disk.{Bytes}
use paddle_flow.Fs.Cache.{Lru, Store}
use paddle_flow.Fs.Cache.Kept.{Kept, in_mem, on_disk}
use paddle_flow.Fs.Cache.Invalidation.{invalidate_cache}
use paddle_flow.Fs.Cache.Traces.{changed}
use paddle_flow.Fs.Cache.Sound.{IsBlock, IsSound}

lookup-delete_same :
    (name other : Text) (m : List (Text × Text))
    → other ≢ name
    → lookup other (delete name m) ≡ lookup other m
lookup-delete_same name other m ne = elim (Bool-cases (text_eq name other)) [
  | inl e ↦ absurd (ne (sym (text_eq→eq name other e)))
  | inr e ↦ lookup-delete name other m ∙ rw e refl
]

lookup-delete_old :
    (name other id : Text) (m : List (Text × Text))
    → lookup other (delete name m) ≡ some id
    → lookup other m ≡ some id
lookup-delete_old name other id m e = elim (Bool-cases (text_eq name other)) [
  | inl t ↦ absurd (none≢some (sym (lookup-delete name other m ∙ rw t refl) ∙ e))
  | inr t ↦ sym (lookup-delete name other m ∙ rw t refl) ∙ e
]

module _ (l : Lru) (hash : Text → ℕ) (size : ℕ) where
  open l use {C, set}

  pub invalidate_cache-IsSound :
      (files : Text → Bytes) (issued : List Text) (s : Store l) (name : Text)
      → IsSound l hash size files issued s
      → IsSound l hash size files issued (invalidate_cache l hash s name).0
  unfolding invalidate_cache
  invalidate_cache-IsSound files issued s name h = at_name (lookup (clean name) s.meta)
    where
      old :
          (other id : Text)
          → lookup other (delete (clean name) s.meta) ≡ some id
          → lookup other s.meta ≡ some id
      old other id e = lookup-delete_old (clean name) other id s.meta e

      as_before :
          (key : Text) (b : Bytes)
          → Kept l (record s { meta = delete (clean name) s.meta }) key b
          → Kept l s key b
      as_before key b (in_mem c e k) = in_mem c e k
      as_before key b (on_disk d e k) = on_disk d e k

      at_kept :
          (key : Text) (b : Bytes)
          → IsBlock l hash size files issued s.meta key b
          → IsBlock l hash size files issued (delete (clean name) s.meta) key b
      at_kept key b i = record {
        id = i.id;
        index = i.index;
        keyed = i.keyed;
        known = i.known;
        content = λ other e. i.content other (old other i.id e);
      }

      at_name :
          (o : Option Text)
          → IsSound l hash size files issued
              (elim o as (λ x. Store l × Option Text) [
                | none ↦ (s, none)
                | some key_id ↦ (record s { meta = delete (clean name) s.meta }, some key_id)
              ]).0
      at_name none = h
      at_name (some key_id) = record {
        same_size = h.same_size;
        identities = h.identities;
        known = λ other id e. h.known other id (old other id e);
        distinct = λ a b id e e'. h.distinct a b id (old a id e) (old b id e');
        kept = λ key b k. at_kept key b (h.kept key b (as_before key b k));
      }

  pub changed-IsSound :
      (files : Text → Bytes) (issued : List Text) (s : Store l) (name : Text) (content : Bytes)
      → lookup name s.meta ≡ none
      → IsSound l hash size files issued s
      → IsSound l hash size (changed files name content) issued s
  changed-IsSound files issued s name content unnamed h = record {
    same_size = h.same_size;
    identities = h.identities;
    known = h.known;
    distinct = h.distinct;
    kept = λ key b k.
        let i = h.kept key b k in
        record {
          id = i.id;
          index = i.index;
          keyed = i.keyed;
          known = i.known;
          content = λ other e. elim (Bool-cases (text_eq name other)) [
            | inl t ↦
                absurd (
                  none≢some (sym unnamed ∙ ap (λ n. lookup n s.meta) (text_eq→eq name other t) ∙ e))
            | inr t ↦ rw t (i.content other e)
          ];
        };
  }

  -- An invalidation concerns no other name.
  pub lookup-invalidate_cache :
      (s : Store l) (name other : Text)
      → other ≢ clean name
      → lookup other (invalidate_cache l hash s name).0.meta ≡ lookup other s.meta
  unfolding invalidate_cache
  lookup-invalidate_cache s name other ne = at_name (lookup (clean name) s.meta)
    where
      at_name :
          (o : Option Text)
          → lookup other
              (elim o as (λ x. Store l × Option Text) [
                | none ↦ (s, none)
                | some key_id ↦ (record s { meta = delete (clean name) s.meta }, some key_id)
              ]).0.meta
            ≡ lookup other s.meta
      at_name none = refl
      at_name (some key_id) = lookup-delete_same (clean name) other s.meta ne

pub unchanged :
    (files : Text → Bytes) (name : Text) (content : Bytes) (other : Text)
    → other ≢ name
    → changed files name content other ≡ files other
unchanged files name content other ne = elim (Bool-cases (text_eq name other)) [
  | inl t ↦ absurd (ne (sym (text_eq→eq name other t)))
  | inr t ↦ rw t refl
]
