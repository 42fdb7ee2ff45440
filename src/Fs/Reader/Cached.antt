-- ===== src/Fs/Reader/Cached.antt =====
-- pkg/fs/client/vfs/reader.go with pkg/fs/client/cache: reads of a file through the cache.
use paddle_flow.Prelude.{Option, Text, clean, length, some, subst, sym, ℕ, ◌≡◌, ◌≤◌}
use paddle_flow.Fs.Answer.{ok}
use paddle_flow.Fs.Disk.{Bytes, Os}
use paddle_flow.Fs.Cache.{Config, Lru, Store, new_cache_store}
use paddle_flow.Fs.Cache.Reads.{read_at}
use paddle_flow.Fs.Cache.Blocks.{IsRightAnswer, IsSlice, Serves}
use paddle_flow.Fs.Cache.Traces.{IsNew, Reaches, World}
use paddle_flow.Fs.Cache.Made.{new_cache_store-IsMade}
use paddle_flow.Fs.Cache.Runs.{at_start, read_at_lem}
use paddle_flow.Fs.Reader.{BlockReader, data_read}
use paddle_flow.Fs.Reader.Whole.{data_read-IsWhole}

module _ (l : Lru) (hash : Text → ℕ) where
  -- The reader that `NewReader` makes for a name, when the store, the identities and the answers of
  -- the system are given for each of its calls.
  abbrev pub cached_reader :
      (ℕ → Store l) → Text → (ℕ → ℕ → Option Bytes) → (ℕ → Text) → (ℕ → Os) → BlockReader
  cached_reader store name fd uuid os k buf off =
      (read_at l hash (store k) (clean name) fd buf off (uuid k) (os k)).answer

  -- A read of a file that begins within it ends, and answers the bytes that the file holds there,
  -- as many as there are and the buffer has room for, although other readers, writers and the
  -- goroutines of the cache move between its calls of the cache, as long as this file keeps its
  -- content meanwhile and each file changes only when nothing is cached or being cached for it.
  pub data_read-cached :
      (config : Config) (df : Option (ℕ × ℕ)) (s : Store l) (files : Text → Bytes)
      (world : ℕ → World l)
      → new_cache_store l config df ≡ some s
      → ((k : ℕ) → Reaches l hash (at_start l hash s files) (world k))
      → (name : Text) (f : Bytes) → ((k : ℕ) → (world k).files (clean name) ≡ f)
      → (fd : ℕ → ℕ → Option Bytes) (buf : Bytes) (off : ℕ) (uuid : ℕ → Text) (os : ℕ → Os)
      → Serves f fd
      → ((k : ℕ) → IsNew (world k).issued (uuid k))
      → off ≤ length f
      → (filled : Bytes) × (n : ℕ) × (data_read
            (cached_reader (λ k. (world k).store) name fd uuid os)
            config.block_size
            buf
            off
          ≡ ok (filled, n))
        × IsSlice f buf off filled n
  data_read-cached config df s files world made reaches name f same fd buf off uuid os serves new
        inside =
      data_read-IsWhole config.block_size f (cached_reader (λ k. (world k).store) name fd uuid os)
        off (new_cache_store-IsMade l hash config df s made).some_size
        (λ k chunk o one_block in_file.
          subst
            (λ g.
              IsRightAnswer g chunk o
                (read_at l hash (world k).store (clean name) fd chunk o (uuid k) (os k)).answer)
            (same k)
            (read_at_lem l hash config df s files (world k) made (reaches k) name fd chunk o
              (uuid k) (os k) (subst (λ g. Serves g fd) (sym (same k)) serves) (new k) one_block
              (subst (λ g. o ≤ length g) (sym (same k)) in_file)))
        buf inside
