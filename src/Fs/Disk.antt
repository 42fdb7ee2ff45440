-- ===== src/Fs/Disk.antt =====
-- pkg/fs/client/cache/disk.go: blocks in files below a directory, with a table of their keys.
pub mod Files
pub mod RoundTrip
pub mod Cleaning
use paddle_flow.Prelude.{
  Bool, List, Option, Text, [], codes, delete, false, has, if◌then◌else◌, insert, keys, leb, length,
  lookup, none, not, some, text_eq, ℕ, ◌*◌, ◌+◌, ◌/◌, ◌||◌, ◌∷◌, ◌≡◌,
}

abbrev pub Bytes : Type 0
Bytes = List ℕ

pub record DiskConfig : Type 0 where
  pub dir : Text
  pub expire : ℕ

-- `cacheItem`; a time is a number.
pub record CacheItem : Type 0 where
  pub size : ℕ
  pub exp_time : ℕ

-- `diskCache`, with the files below its directory, by their paths from it, and the removals of
-- files that `delete` has left to goroutines.
pub record Disk : Type 0 where
  pub dir : Text
  pub capacity : ℕ
  pub used : ℕ
  pub expire : ℕ
  pub keys : List (Text × CacheItem)
  pub files : List (Text × Bytes)
  pub removals : List Text

-- What the operating system answers: the time, whether a file that is there can be opened and read
-- and a new one be written, the files that a walk finds and can remove, in its order, and
-- the total and the used size that `df` prints.
pub record Os : Type 0 where
  pub now : ℕ
  pub opens : Bool
  pub reads : Bool
  pub writes : Bool
  pub walked : List Text
  pub df : Option (ℕ × ℕ)

abbrev pub no_dir : Text → Bool
no_dir dir = text_eq dir [] || text_eq dir (codes "/")

-- `updateCapacity`.
abbrev pub update_capacity : Disk → Option (ℕ × ℕ) → Disk
update_capacity c none = c
update_capacity c (some (total, used)) = record c { capacity = total * 1024; used = used * 1024 }

-- `NewDiskCache`; the directory is new, and its cleaner is a step of its own.
unfoldable pub new_disk_cache : DiskConfig → Option (ℕ × ℕ) → Option Disk
unfolding text_eq
new_disk_cache config df =
    let d : Disk = record {
      dir = config.dir;
      capacity = 0;
      used = 0;
      expire = config.expire;
      keys = [];
      files = [];
      removals = [];
    } in
    if no_dir config.dir then none else some (update_capacity d df)

-- `diskCache.delete`.
unfoldable pub disk_delete : Disk → Text → Disk
unfolding delete
disk_delete c key = record c { keys = delete key c.keys; removals = key ∷ c.removals }

-- One of the goroutines of `delete` removes its file.
unfoldable pub run_removal : Disk → Text → Disk
unfolding delete
run_removal c key = record c { files = delete key c.files }

abbrev pub is_expired : ℕ → CacheItem → Bool
is_expired now item = leb item.exp_time now

-- The first loop of `clean`, over the keys that it visits.
unfoldable pub delete_expired : ℕ → List (Text × CacheItem) → Disk → Disk
unfolding disk_delete
delete_expired now [] c = c
delete_expired now ((key, item) ∷ items) c =
    delete_expired now items (if is_expired now item then disk_delete c key else c)

-- The walk of `clean`.
unfoldable pub remove_unknown : List Text → Disk → Disk
unfolding lookup delete
remove_unknown [] c = c
remove_unknown (key ∷ paths) c =
    remove_unknown paths (if has key c.keys then c else record c { files = delete key c.files })

unfoldable pub disk_clean : Disk → Os → Disk
unfolding delete_expired remove_unknown text_eq
disk_clean c os =
    let fresh = delete_expired os.now c.keys c in
    if no_dir c.dir then fresh else update_capacity (remove_unknown os.walked fresh) os.df

unfoldable pub disk_exist : Disk → Text → Os → Bool
unfolding lookup
disk_exist c key os = elim (lookup key c.keys) [
  | none ↦ false
  | some item ↦ not (is_expired os.now item)
]

-- `diskCache.load`, what the opened file holds.
unfoldable pub disk_load : Disk → Text → Os → Option Bytes
unfolding lookup disk_exist text_eq
disk_load c key os =
    if text_eq c.dir []
    then none
    else if not (disk_exist c key os)
    then none
    else if not os.opens
    then none
    else lookup key c.files

abbrev pub is_full : Disk → ℕ → Bool
is_full c size = leb c.capacity (c.used + size)

-- `diskCache.save`, the rename included: readers see the old file or the whole new one.
unfoldable pub disk_save : Disk → Text → Bytes → Os → Disk
unfolding disk_clean insert text_eq
disk_save c key buf os =
    let cleaned = if is_full c (length buf) then disk_clean c os else c in
    if text_eq c.dir []
    then c
    else if is_full cleaned (length buf)
    then cleaned
    else if not os.writes
    then cleaned
    else record cleaned {
      files = insert key buf cleaned.files;
      keys =
          insert key (record { size = length buf; exp_time = os.now + cleaned.expire })
            cleaned.keys;
    }

-- What a load may ever answer comes from a file.
abbrev pub DiskHolds : Disk → Text → Bytes → Type 0
DiskHolds c key b = lookup key c.files ≡ some b
