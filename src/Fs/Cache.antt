-- ===== src/Fs/Cache.antt =====
-- pkg/fs/client/cache/cache.go, memory.go: blocks of files in memory and on disk. What is kept has
-- a key of the identity that the file has at the time, so that a file that changes gets another.
pub mod Keys
pub mod Fills
pub mod Reads
pub mod Blocks
pub mod Kept
pub mod Traces
pub mod Sound
pub mod Through
pub mod Moves
pub mod Answers
pub mod Steady
pub mod Forgotten
pub mod Deletions
pub mod Made
pub mod Runs
pub mod Leaks
pub mod Stale
pub mod Invalidation
use paddle_flow.Prelude.{
  Bool, List, Option, Text, [], clean, codes, decimal, false, if◌then◌else◌, insert, leb, lookup,
  none, not, slash, some, text_empty, text_eq, true, ℕ, ◌%◌, ◌++◌, ◌==◌, ◌||◌, ◌∷◌, ◌≡◌, ◌⊎◌,
}
use paddle_flow.Fs.Answer.{Answer, io_error, ok, panics}
use paddle_flow.Fs.Disk.{
  Bytes, Disk, DiskConfig, disk_delete, new_disk_cache, Os, disk_load, disk_save,
}

-- gcache, as far as it is relied on: `Holds c k b` says that the cache may answer `b` for `k`. An
-- entry may be dropped at any time, and `age` is the time that passes.
pub record Lru : Type 1 where
  pub C : Type 0
  pub new : C
  pub get : C → Text → Option Bytes × C
  pub set : C → Text → Bytes → C
  pub remove : C → Text → C
  pub age : C → C
  pub Holds : C → Text → Bytes → Type 0
  pub new_holds : (k : Text) (b : Bytes) → Holds new k b → ⊥
  pub get_holds : (c : C) (k : Text) (b : Bytes) → (get c k).0 ≡ some b → Holds c k b
  pub get_keeps : (c : C) (k j : Text) (b : Bytes) → Holds (get c k).1 j b → Holds c j b
  pub set_holds :
      (c : C) (k j : Text) (b d : Bytes) → Holds (set c k b) j d → ((j ≡ k) × (d ≡ b)) ⊎ Holds c j d
  pub remove_keeps : (c : C) (k j : Text) (b : Bytes) → Holds (remove c k) j b → Holds c j b
  pub age_keeps : (c : C) (j : Text) (b : Bytes) → Holds (age c) j b → Holds c j b

-- `Config`; `mem_size` is the CacheSize of its MemConfig.
pub record Config : Type 0 where
  pub mem_size : Option ℕ
  pub disk : Option DiskConfig
  pub block_size : ℕ

-- fmt.Sprintf("blocks/%d/%v_%v", hash%256, keyID, index), cleaned.
unfoldable pub block_key : (Text → ℕ) → Text → ℕ → Text
block_key hash key_id index = clean (
    codes "blocks"
    ++ slash ∷ (decimal (hash key_id % 256) ++ slash ∷ (key_id ++ 95 ∷ decimal index)))

abbrev pub read_ahead_num : ℕ
read_ahead_num = 2

abbrev pub or_empty : Option Text → Text
or_empty none = []
or_empty (some id) = id

abbrev pub is_some {ℓ} : {A : Type ℓ} → Option A → Bool
is_some none = false
is_some (some a) = true

-- What is left of a call of `setCache`: the blocks of `data[left:n]`, the first of which gets the
-- number `index`.
pub record Fill : Type 0 where
  pub id : Text
  pub data_read : Bytes
  pub n : ℕ
  pub index : ℕ
  pub left : ℕ
  pub blocks : ℕ

module _ (l : Lru) where
  open l use {C, new}

  -- `store`.
  pub record Store : Type 0 where
    pub mem : Option C
    pub disk : Option Disk
    pub conf : Config
    pub meta : List (Text × Text)

  -- `NewMemCache`.
  abbrev pub new_mem_cache : ℕ → Option C
  new_mem_cache size = if leb size 0 then none else some new

  -- `NewCacheStore`, nil where it answers nil.
  unfoldable pub new_cache_store : Config → Option (ℕ × ℕ) → Option Store
  unfolding new_disk_cache text_eq
  new_cache_store config df =
      let store : Store = record {
        mem = elim config.mem_size [ none ↦ none | some size ↦ new_mem_cache size ];
        disk = elim config.disk [ none ↦ none | some d ↦ new_disk_cache d df ];
        conf = config;
        meta = [];
      } in
      if not (is_some config.mem_size || is_some config.disk)
      then none
      else if config.block_size == 0
      then none
      else some store

module _ (l : Lru) (hash : Text → ℕ) where
  -- `rCache.key`: a file without an identity gets the new one, and the key is made of the old.
  unfoldable pub reader_key : Store l → Text → Text → ℕ → Text × Store l
  unfolding lookup insert block_key
  reader_key s id uuid index =
      let key_id = or_empty (lookup id s.meta) in
      (
        block_key hash key_id index,
        if text_empty key_id then record s { meta = insert id uuid s.meta } else s,
      )
