-- ===== src/Fs/Reader.antt =====
-- pkg/fs/client/vfs/reader.go: reads of a file, block by block.
pub mod Whole
pub mod Cached
pub mod Behind
use paddle_flow.Prelude.{
  Option, if◌then◌else◌, length, ltb, min, negsuc, none, not, patched, pos, slice, some, suc, zero,
  ℕ, ℤ, ◌%◌, ◌+◌, ◌-◌,
}
use paddle_flow.Fs.Answer.{Answer, io_error, ok, on_ok, out_of_fuel, panics}
use paddle_flow.Fs.Disk.{Bytes}
use paddle_flow.Fs.Cache.Reads.{ufs_read_at}

-- The `ReadAt` of a cache.Reader; the number tells its calls apart, since the cache may change
-- between them.
abbrev pub BlockReader : Type 0
BlockReader = ℕ → Bytes → ℕ → Answer (Bytes × ℤ)

-- `buf[read:end]` is the part of the buffer for the next call, `off` the place in the file at which
-- the buffer begins.
abbrev pub end_of : ℕ → ℕ → ℕ → ℕ → ℕ
end_of size len off read = min (read + (size - (off + read) % size)) len

-- `dataReader.Read`, from its loop on. A count below zero that takes `read` below zero makes
-- the next slice panic.
unfoldable pub read_loop : ℕ → BlockReader → ℕ → Bytes → ℕ → ℕ → Answer (Bytes × ℕ)
read_loop zero reader size buf off read = out_of_fuel
read_loop (suc k) reader size buf off read =
    let end = end_of size (length buf) off read in
    let rest : Bytes → ℕ → Answer (Bytes × ℕ) = λ b r. read_loop k reader size b off r in
    if not (ltb read (length buf))
    then ok (buf, read)
    else on_ok (reader k (slice read end buf) (off + read)) λ a.
      let after = patched read a.0 buf in
      elim a.1 [
        | pos zero ↦ ok (after, read)
        | pos (suc n) ↦ rest after (read + suc n)
        | negsuc n ↦ if ltb read (n + 1) then panics else rest after (read - (n + 1))
      ]

unfoldable pub data_read : BlockReader → ℕ → Bytes → ℕ → Answer (Bytes × ℕ)
unfolding read_loop
data_read reader size buf off = read_loop (suc (length buf)) reader size buf off 0

-- `fileReader.Read`: through the store if there is one, else from the file handle. An error is
-- EBADF.
unfoldable pub file_read :
    Option BlockReader → (ℕ → ℕ → Option Bytes) → ℕ → Bytes → ℕ → Answer (Bytes × ℕ)
unfolding data_read ufs_read_at
file_read (some reader) fd size buf off = data_read reader size buf off
file_read none fd size buf off = elim (ufs_read_at fd buf off) [ none ↦ io_error | some a ↦ ok a ]
