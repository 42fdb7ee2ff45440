-- ===== src/Fs/Cache/Reads.antt =====
-- pkg/fs/client/cache/cache.go: `ReadAt`, with `FileHandle.ReadAt` of pkg/fs/client/ufs/ufs.go.
use paddle_flow.Prelude.{
  Option, Text, [], copied, drop, if◌then◌else◌, length, ltb, min, negsuc, none, pos, slice, some,
  suc, zero, ℕ, ℤ, ◌%◌, ◌*◌, ◌+◌, ◌-◌, ◌/◌, ◌∷◌,
}
use paddle_flow.Fs.Answer.{Answer, io_error, ok, panics}
use paddle_flow.Fs.Disk.{Bytes, Disk, Os, disk_load}
use paddle_flow.Fs.Cache.{Fill, Lru, Store, read_ahead_num, reader_key}
use paddle_flow.Fs.Cache.Fills.{block_count}

-- `ReadAt` of a bytes.Reader or a file on what it holds: the buffer after it, and the count.
abbrev pub read_block : Bytes → Bytes → ℕ → Bytes × ℕ
read_block block buf off = (copied buf (drop off block), min (length buf) (length block - off))

-- `FileHandle.ReadAt` of pkg/fs/client/ufs/ufs.go; `fd` gives the bytes of an open file.
unfoldable pub ufs_read_at : (ℕ → ℕ → Option Bytes) → Bytes → ℕ → Option (Bytes × ℕ)
unfolding copied
ufs_read_at fd buf off = elim (fd (length buf) off) [
  | none ↦ none
  | some buffer ↦ some (copied buf buffer, min (length buffer) (length buf))
]

abbrev pub zeros : ℕ → Bytes
zeros zero = []
zeros (suc n) = 0 ∷ zeros n

-- `a - b` on int.
abbrev pub minus : ℕ → ℕ → ℤ
minus a b = if ltb a b then negsuc (b - a - 1) else pos (a - b)

abbrev pub min_int : ℕ → ℤ → ℤ
min_int a (pos b) = pos (min a b)
min_int a (negsuc b) = negsuc b

module _ (l : Lru) (hash : Text → ℕ) where
  open l use {C, get}

  abbrev pub read_disk : Option Disk → Bytes → Text → ℕ → Os → Option (Bytes × ℕ)
  read_disk none buf key off os = none
  read_disk (some d) buf key off os = elim (disk_load d key os) [
    | none ↦ none
    | some block ↦ if os.reads then some (read_block block buf off) else none
  ]

  -- `readCache`.
  unfoldable pub read_cache : Store l → Bytes → Text → ℕ → Os → Option (Bytes × ℕ) × Store l
  unfolding disk_load copied
  read_cache s buf key off os = elim s.mem [
    | none ↦ (read_disk s.disk buf key off os, s)
    | some c ↦
        let t : Store l = record s { mem = some (get c key).1 } in
        elim (get c key).0 [
          | none ↦ (read_disk s.disk buf key off os, t)
          | some block ↦ (some (read_block block buf off), t)
        ]
  ]

  -- What `ReadAt` answers, the store after it and the call of `setCache` that it leaves behind.
  pub record Reading : Type 0 where
    pub answer : Answer (Bytes × ℤ)
    pub store : Store l
    pub fill : Option Fill

  -- `ReadAt` when the cache has no answer.
  unfoldable pub read_through : Store l → Text → (ℕ → ℕ → Option Bytes) → Bytes → ℕ → Reading
  unfolding ufs_read_at copied block_count
  read_through s id fd buf off =
      let size = s.conf.block_size in
      let index = off / size in
      let block_off = off % size in
      elim (ufs_read_at fd (zeros (read_ahead_num * size)) (index * size)) [
        | none ↦ record { answer = io_error; store = s; fill = none }
        | some (ufs_buf, n) ↦ record {
          answer =
              if ltb (read_ahead_num * size) (length buf + block_off)
              then panics
              else ok (
                copied buf (slice block_off (length buf + block_off) ufs_buf),
                min_int (length buf) (minus n block_off),
              );
          store = s;
          fill = some (record {
            id = id;
            data_read = ufs_buf;
            n = n;
            index = index;
            left = 0;
            blocks = block_count n size;
          });
        }
      ]

  -- `ReadAt` of an rCache of the name `id`.
  unfoldable pub read_at : Store l → Text → (ℕ → ℕ → Option Bytes) → Bytes → ℕ → Text → Os → Reading
  unfolding reader_key read_cache read_through
  read_at s id fd [] off uuid os = record { answer = ok ([], pos 0); store = s; fill = none }
  read_at s id fd (b ∷ buf) off uuid os =
      let size = s.conf.block_size in
      let (key, t) = reader_key l hash s id uuid (off / size) in
      let (found, u) = read_cache t (b ∷ buf) key (off % size) os in
      elim found [
        | some (filled, n) ↦ record { answer = ok (filled, pos n); store = u; fill = none }
        | none ↦ read_through u id fd (b ∷ buf) off
      ]
