-- ===== src/Fs/Cache/Made.antt =====
-- pkg/fs/client/cache/cache.go: `NewCacheStore`.
use paddle_flow.Prelude.{
  Bool, Option, Text, [], arith, false, if◌then◌else◌, leb, lookup, none, none≢some, not, refl,
  some, some-inj, subst, sym, true, ℕ, ◌<◌, ◌==◌, ◌||◌, ◌≡◌,
}
use paddle_flow.Fs.Disk.{Bytes, Disk, DiskConfig, new_disk_cache}
use paddle_flow.Fs.Disk.Files.{new_disk_cache_empty}
use paddle_flow.Fs.Cache.{Config, Lru, Store, is_some, new_cache_store, new_mem_cache}
use paddle_flow.Fs.Cache.Kept.{Kept, in_mem, on_disk}
use paddle_flow.Fs.Cache.Sound.{IsSound}

module _ (l : Lru) (hash : Text → ℕ) where
  -- What `NewCacheStore` answers.
  pub record IsMade (config : Config) (s : Store l) : Type 0 where
    pub some_size : 0 < config.block_size
    pub sound : (files : Text → Bytes) → IsSound l hash config.block_size files [] s

  pub new_cache_store-IsMade :
      (config : Config) (df : Option (ℕ × ℕ)) (s : Store l)
      → new_cache_store l config df ≡ some s
      → IsMade config s
  unfolding new_cache_store lookup
  new_cache_store-IsMade config df s e =
      at_tests (not (is_some config.mem_size || is_some config.disk)) (config.block_size == 0) refl
        e
    where
      t : Store l
      t = record {
        mem = elim config.mem_size [ none ↦ none | some size ↦ new_mem_cache l size ];
        disk = elim config.disk [ none ↦ none | some d ↦ new_disk_cache d df ];
        conf = config;
        meta = [];
      }

      no_mem :
          (o : Option ℕ) (c : l.C)
          → elim o as (λ x. Option l.C) [ none ↦ none | some size ↦ new_mem_cache l size ] ≡ some c
          → c ≡ l.new
      no_mem none c k = absurd (none≢some k)
      no_mem (some size) c k = at_leb (leb size 0) k
        where
          at_leb : (b : Bool) → (if b then none else some l.new) ≡ some c → c ≡ l.new
          at_leb true h = absurd (none≢some h)
          at_leb false h = sym (some-inj h)

      no_disk :
          (o : Option DiskConfig) (d : Disk)
          → elim o as (λ x. Option Disk) [ none ↦ none | some c ↦ new_disk_cache c df ] ≡ some d
          → d.files ≡ []
      no_disk none d k = absurd (none≢some k)
      no_disk (some c) d k = new_disk_cache_empty c df d k

      at_tests :
          (neither is_zero : Bool)
          → (config.block_size == 0) ≡ is_zero
          → (if neither then none else if is_zero then none else some t) ≡ some s
          → IsMade config s
      at_tests true is_zero z k = absurd (none≢some k)
      at_tests false true z k = absurd (none≢some k)
      at_tests false false z k = subst (IsMade config) (some-inj k) (record {
        some_size = ground arith;
        sound = λ files. record {
          same_size = refl;
          identities = λ id m. absurd m;
          known = λ name id h. absurd (none≢some h);
          distinct = λ name name' id h h'. absurd (none≢some h);
          kept = λ key b kept. absurd (at_kept key b kept);
        };
      })
        where
          at_kept : (key : Text) (b : Bytes) → Kept l t key b → ⊥
          at_kept key b (in_mem c h held) =
              l.new_holds key b (subst (λ x. l.Holds x key b) (no_mem config.mem_size c h) held)
          at_kept key b (on_disk d h held) =
              none≢some (subst (λ x. lookup key x ≡ some b) (no_disk config.disk d h) held)
