-- ===== src/Fs/Cache/Traces.antt =====
-- pkg/fs/client/cache: all that readers, writers and the goroutines of the cache do, in any order.
use paddle_flow.Prelude.{
  All, In, List, Option, Text, [], clean, drop, false, if◌then◌else◌, lookup, none, some, take,
  text_empty, text_eq, ℕ, ◌++◌, ◌<◌, ◌∷◌, ◌≡◌, ◌≢◌, ◌⊎◌,
}
use paddle_flow.Fs.Disk.{Bytes, Disk, Os, disk_clean, run_removal}
use paddle_flow.Fs.Cache.{Fill, Lru, Store}
use paddle_flow.Fs.Cache.Keys.{IsPlain}
use paddle_flow.Fs.Cache.Fills.{fill_block}
use paddle_flow.Fs.Cache.Reads.{Reading, read_at}
use paddle_flow.Fs.Cache.Invalidation.{delete_key, invalidate_cache}

-- The store, what the files hold by their clean names, the calls of `setCache` that are not done,
-- and the identities that were made.
pub record World (l : Lru) : Type 0 where
  pub store : Store l
  pub files : Text → Bytes
  pub pending : List Fill
  pub issued : List Text

-- What uuid.NewString answers.
pub record IsNew (issued : List Text) (uuid : Text) : Type 0 where
  pub plain : IsPlain uuid
  pub not_empty : text_empty uuid ≡ false
  pub not_issued : In uuid issued → ⊥

-- A file handle may fail, and else gives the bytes of the file.
abbrev pub MayServe : Bytes → (ℕ → ℕ → Option Bytes) → Type 0
MayServe f fd = (k off : ℕ) → (fd k off ≡ none) ⊎ (fd k off ≡ some (take k (drop off f)))

-- No call of `setCache` for the file is under way.
abbrev pub IsQuiet : Text → List Fill → Type 0
IsQuiet name pending = All (λ f. f.id ≢ name) pending

abbrev pub with_fill : Option Fill → List Fill → List Fill
with_fill none pending = pending
with_fill (some f) pending = f ∷ pending

abbrev pub changed : (Text → Bytes) → Text → Bytes → Text → Bytes
changed files name content other = if text_eq name other then content else files other

module _ (l : Lru) (hash : Text → ℕ) where
  abbrev pub after_read : World l → Text → Reading l hash → World l
  after_read w uuid reading = record {
    store = reading.store;
    files = w.files;
    pending = with_fill reading.fill w.pending;
    issued = uuid ∷ w.issued;
  }

  -- A file is invalidated when no `setCache` is under way for it, and changes when, moreover, no
  -- read came since: these are the conditions on the users of the cache.
  pub data Move : World l → World l → Type 0 where
    read :
        (w : World l) (name : Text) (fd : ℕ → ℕ → Option Bytes) (buf : Bytes) (off : ℕ)
        (uuid : Text) (os : Os)
        → MayServe (w.files (clean name)) fd
        → IsNew w.issued uuid
        → Move w (after_read w uuid (read_at l hash w.store (clean name) fd buf off uuid os))
    fill :
        (w : World l) (before after : List Fill) (f : Fill) (uuid : Text) (os : Os)
        → w.pending ≡ before ++ f ∷ after
        → 0 < f.blocks
        → IsNew w.issued uuid
        → Move w (record {
          store = (fill_block l hash w.store f uuid os).0;
          files = w.files;
          pending = before ++ (fill_block l hash w.store f uuid os).1 ∷ after;
          issued = uuid ∷ w.issued;
        })
    fill_done :
        (w : World l) (before after : List Fill) (f : Fill)
        → w.pending ≡ before ++ f ∷ after
        → Move w (record w { pending = before ++ after })
    invalidate :
        (w : World l) (name : Text)
        → IsQuiet (clean name) w.pending
        → Move w (record w { store = (invalidate_cache l hash w.store name).0 })
    write :
        (w : World l) (name : Text) (content : Bytes)
        → IsQuiet name w.pending
        → lookup name w.store.meta ≡ none
        → Move w (record w { files = changed w.files name content })
    delete_one :
        (w : World l) (key : Text) → Move w (record w { store = delete_key l hash w.store key })
    age_memory :
        (w : World l) (c : l.C)
        → w.store.mem ≡ some c
        → Move w (record w { store = record (w.store) { mem = some (l.age c) } })
    remove_file :
        (w : World l) (d : Disk) (key : Text)
        → w.store.disk ≡ some d
        → Move w (record w { store = record (w.store) { disk = some (run_removal d key) } })
    clean_disk :
        (w : World l) (d : Disk) (os : Os)
        → w.store.disk ≡ some d
        → Move w (record w { store = record (w.store) { disk = some (disk_clean d os) } })

  pub data Reaches (w : World l) : World l → Type 0 where
    here : Reaches w w
    next : {v u : World l} → Reaches w v → Move v u → Reaches w u

-- A store that was just made.
pub record IsEmpty {l : Lru} (s : Store l) : Type 0 where
  pub no_names : s.meta ≡ []
  pub no_memory : (c : l.C) → s.mem ≡ some c → c ≡ l.new
  pub no_files : (d : Disk) → s.disk ≡ some d → d.files ≡ []
