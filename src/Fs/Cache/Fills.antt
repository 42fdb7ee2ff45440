-- ===== src/Fs/Cache/Fills.antt =====
-- pkg/fs/client/cache/cache.go: `setCache` keeps the blocks that were read.
use paddle_flow.Prelude.{
  Option, Text, if◌then◌else◌, ltb, min, none, slice, some, suc, zero, ℕ, ◌+◌, ◌-◌, ◌/◌,
}
use paddle_flow.Fs.Disk.{Bytes, Disk, Os, disk_save}
use paddle_flow.Fs.Cache.{Config, Fill, Lru, Store, reader_key}

unfoldable pub block_count : ℕ → ℕ → ℕ
block_count zero block_size = 1
block_count (suc m) block_size = m / block_size + 1

module _ (l : Lru) (hash : Text → ℕ) where
  open l use {C, set}

  -- `mem.save` and `disk.save` of `setCache`, with its test of the cache's size.
  abbrev pub set_mem : Config → Option C → Text → Bytes → Option C
  set_mem conf none key block = none
  set_mem conf (some c) key block =
      if ltb 0 (elim conf.mem_size [ none ↦ 0 | some size ↦ size ])
      then some (set c key block)
      else some c

  abbrev pub set_disk : Option Disk → Text → Bytes → Os → Option Disk
  set_disk none key block os = none
  set_disk (some d) key block os = some (disk_save d key block os)

  -- One round of the loop of `setCache`.
  unfoldable pub fill_block : Store l → Fill → Text → Os → Store l × Fill
  unfolding reader_key disk_save
  fill_block s f uuid os =
      let (key, t) = reader_key l hash s f.id uuid f.index in
      let right = min (f.left + s.conf.block_size) f.n in
      let block = slice f.left right f.data_read in
      (
        record t { mem = set_mem t.conf t.mem key block; disk = set_disk t.disk key block os },
        record f { index = f.index + 1; left = right; blocks = f.blocks - 1 },
      )

  -- `setCache`, when nothing comes between its rounds.
  unfoldable pub set_cache : ℕ → Store l → Fill → Text → Os → Store l
  unfolding fill_block
  set_cache zero s f uuid os = s
  set_cache (suc k) s f uuid os = let (t, g) = fill_block s f uuid os in set_cache k t g uuid os
