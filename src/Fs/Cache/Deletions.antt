-- ===== src/Fs/Cache/Deletions.antt =====
-- pkg/fs/client/cache: a key that is deleted.
use paddle_flow.Prelude.{
  Option, Text, lookup, none, none≢some, refl, some, some-inj, subst, sym, ℕ, ◌≡◌,
}
use paddle_flow.Fs.Disk.{Bytes, Disk, disk_delete}
use paddle_flow.Fs.Cache.{Lru, Store}
use paddle_flow.Fs.Cache.Kept.{Kept, Shrinks, in_mem, on_disk}
use paddle_flow.Fs.Cache.Invalidation.{delete_key, disk_delete_if, mem_delete}

module _ (l : Lru) (hash : Text → ℕ) where
  -- Deleting a key keeps nothing new.
  mem_delete_keeps :
      (c : l.C) (key j : Text) (b : Bytes) → l.Holds (mem_delete l hash c key) j b → l.Holds c j b
  mem_delete_keeps c key j b = at_get (l.get c key).0
    where
      at_get :
          (o : Option Bytes)
          → l.Holds
              (elim o as (λ x. l.C) [
                | none ↦ (l.get c key).1
                | some x ↦ l.remove (l.get c key).1 key
              ])
              j
              b
          → l.Holds c j b
      at_get none h = l.get_keeps c key j b h
      at_get (some x) h = l.get_keeps c key j b (l.remove_keeps (l.get c key).1 key j b h)

  pub delete_key-Shrinks : (s : Store l) (key : Text) → Shrinks l s (delete_key l hash s key)
  unfolding delete_key disk_delete
  delete_key-Shrinks s key = record { same_meta = refl; same_conf = refl; fewer = fewer }
    where
      fewer : (k : Text) (b : Bytes) → Kept l (delete_key l hash s key) k b → Kept l s k b
      fewer k b (in_mem d e h) = at_mem s.mem refl e
        where
          at_mem :
              (o : Option l.C)
              → s.mem ≡ o
              → elim o as (λ x. Option l.C) [
                | none ↦ none
                | some c ↦ some (mem_delete l hash c key)
              ]
                ≡ some d
              → Kept l s k b
          at_mem none m e' = absurd (none≢some e')
          at_mem (some c) m e' =
              in_mem c m
                (mem_delete_keeps c key k b (subst (λ x. l.Holds x k b) (sym (some-inj e')) h))
      fewer k b (on_disk d e h) = at_disk s.disk refl e
        where
          at_disk :
              (o : Option Disk) → s.disk ≡ o → disk_delete_if l hash o key ≡ some d → Kept l s k b
          at_disk none m e' = absurd (none≢some e')
          at_disk (some c) m e' =
              on_disk c m (subst (λ x. lookup k x.files ≡ some b) (sym (some-inj e')) h)
