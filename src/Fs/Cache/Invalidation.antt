-- ===== src/Fs/Cache/Invalidation.antt =====
-- pkg/fs/client/cache/cache.go: `InvalidateCache`.
use paddle_flow.Prelude.{
  List, Option, Text, [], clean, delete, if◌then◌else◌, leb, length, lookup, none, some, suc, zero,
  ℕ, ◌+◌, ◌∷◌,
}
use paddle_flow.Fs.Disk.{Disk, disk_delete}
use paddle_flow.Fs.Cache.{Lru, Store, block_key}

module _ (l : Lru) (hash : Text → ℕ) where
  open l use {C, get, remove}

  -- `memCache.delete`.
  abbrev pub mem_delete : C → Text → C
  mem_delete c key = elim (get c key).0 [ none ↦ (get c key).1 | some _ ↦ remove (get c key).1 key ]

  abbrev pub disk_delete_if : Option Disk → Text → Option Disk
  disk_delete_if none key = none
  disk_delete_if (some d) key = some (disk_delete d key)

  -- The keys that the goroutine of `InvalidateCache` deletes, one unit of fuel for each.
  unfoldable pub stale_keys : ℕ → Text → ℕ → ℕ → ℕ → ℕ → List Text
  unfolding block_key
  stale_keys zero id size length write index = []
  stale_keys (suc k) id size length write index =
      let rest = stale_keys k id size length (write + size) (index + 1) in
      if leb write length then block_key hash id index ∷ rest else []

  -- `InvalidateCache` but for its goroutine, with the identity whose keys that one deletes.
  unfoldable pub invalidate_cache : Store l → Text → Store l × Option Text
  unfolding clean lookup delete
  invalidate_cache s name = elim (lookup (clean name) s.meta) [
    | none ↦ (s, none)
    | some key_id ↦ (record s { meta = delete (clean name) s.meta }, some key_id)
  ]

  -- One round of that goroutine.
  unfoldable pub delete_key : Store l → Text → Store l
  unfolding disk_delete
  delete_key s key = record s {
    mem = elim s.mem [ none ↦ none | some c ↦ some (mem_delete c key) ];
    disk = disk_delete_if s.disk key;
  }
