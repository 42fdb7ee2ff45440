-- ===== src/Fs/Cache/Blocks.antt =====
-- pkg/fs/client/cache/cache.go: what a read from a block, or through to the file, copies.
use paddle_flow.Prelude.{
  Option, ap, arith, copied, drop, drop-drop, length, length-copied, length-drop, length-take, min,
  pos, refl, slice, slice_agree, some, suc, sym, take, take-copied, take-drop-take, take-take,
  take-min, zero, ℕ, ℤ, ◌%◌, ◌*◌, ◌+◌, ◌-◌, ◌/◌, ◌<◌, ◌∙◌, ◌≡◌, ◌≤◌,
}
use native.Mathlib.Nat.{add-mul, div-add-mod', le-div_iff_mul-le, div-lt_iff_lt-mul}
use paddle_flow.Fs.Answer.{Answer, ok}
use paddle_flow.Fs.Disk.{Bytes}
use paddle_flow.Fs.Cache.{Fill}
use paddle_flow.Fs.Cache.Fills.{block_count}

-- The block of a file with the given index; the last one may be shorter, and those behind are
-- empty.
abbrev pub block_of : ℕ → Bytes → ℕ → Bytes
block_of size f i = take size (drop (i * size) f)

-- `filled` is `buf` with as many bytes of the file as it has room for, and `n` is their number.
pub record IsSlice (f buf : Bytes) (off : ℕ) (filled : Bytes) (n : ℕ) : Type 0 where
  pub count : n ≡ min (length buf) (length f - off)
  pub same_length : length filled ≡ length buf
  pub bytes : take n filled ≡ take n (drop off f)

-- A successful answer of that kind.
abbrev pub IsRightAnswer : Bytes → Bytes → ℕ → Answer (Bytes × ℤ) → Type 0
IsRightAnswer f buf off a =
    (filled : Bytes) × (n : ℕ) × (a ≡ ok (filled, pos n)) × IsSlice f buf off filled n

-- The file handle gives the bytes of the file.
abbrev pub Serves : Bytes → (ℕ → ℕ → Option Bytes) → Type 0
Serves f fd = (k off : ℕ) → fd k off ≡ some (take k (drop off f))

module _ (size : ℕ) (f buf : Bytes) (off : ℕ) (some_size : 0 < size)
    (one_block : off % size + length buf ≤ size) where
  abbrev start : ℕ
  start = off / size * size

  start_off : start + off % size ≡ off
  start_off = div-add-mod' off size

  length_block : length (block_of size f (off / size)) ≡ min size (length f - start)
  length_block = length-take size (drop start f) ∙ ap (λ k. min size k) (length-drop start f)

  -- What is copied from a part of the file that begins with its block is right.
  copied-IsSlice :
      (k : ℕ) (part : Bytes) (n : ℕ)
      → n ≡ min (length buf) (length f - off)
      → length buf + off % size ≤ k
      → n ≤ length part
      → take n part ≡ take n (drop (off % size) (take k (drop start f)))
      → IsSlice f buf off (copied buf part) n
  copied-IsSlice k part n count room enough same = record {
    count = count;
    same_length = length-copied buf part;
    bytes =
        take-copied n buf part (omega (arith, count)) enough
        ∙ same
        ∙ take-drop-take n (off % size) k (drop start f) (omega (arith, count, room))
        ∙ ap (take n) (drop-drop (off % size) start f)
        ∙ ap (λ o. take n (drop o f)) start_off;
  }

  -- A read from the block of the file.
  pub read_block-IsSlice :
      IsSlice f buf off
        (copied buf (drop (off % size) (block_of size f (off / size))))
        (min (length buf) (length (block_of size f (off / size)) - off % size))
  read_block-IsSlice =
      let count : min (length buf) (length (block_of size f (off / size)) - off % size)
          ≡ min (length buf) (length f - off) =
        omega (arith, length_block, start_off, one_block) in
      copied-IsSlice size (drop (off % size) (block_of size f (off / size))) _ count
        (omega (arith, one_block))
        (omega (arith, length-drop (off % size) (block_of size f (off / size)))) refl

  -- What `ReadAt` of the file handle leaves in the buffer of two blocks.
  abbrev ahead : Bytes
  ahead = take (2 * size) (drop start f)

  length-ahead : length ahead ≡ min (2 * size) (length f - start)
  length-ahead =
      length-take (2 * size) (drop start f) ∙ ap (λ k. min (2 * size) k) (length-drop start f)

  -- The part of that buffer from `off` on.
  pub ahead-IsSlice :
      (ufs_buf : Bytes) (n : ℕ)
      → length ufs_buf ≡ 2 * size
      → n ≡ min (2 * size) (length f - start)
      → off ≤ length f
      → take n ufs_buf ≡ take n ahead
      → IsSlice f buf off
          (copied buf (slice (off % size) (length buf + off % size) ufs_buf))
          (min (length buf) (n - off % size))
  ahead-IsSlice ufs_buf n whole count inside same =
      let r = off % size in
      let lb = length buf in
      let m = min lb (n - r) in
      let right_count : m ≡ min lb (length f - off) = omega (arith, count, start_off, one_block) in
      let width : lb + r - r ≡ lb = omega arith in
      let fits : m + r ≤ n = omega (arith, count, inside, start_off) in
      copied-IsSlice (2 * size) (slice r (lb + r) ufs_buf) m right_count (omega (arith, one_block))
        (omega
          (arith, length-take (lb + r - r) (drop r ufs_buf), length-drop r ufs_buf, whole, count))
        (rw width (
          take-take m lb (drop r ufs_buf) (omega arith)
          ∙ slice_agree m r n ufs_buf ahead fits same))

-- A call of `setCache` that works on blocks of the file, of which it has done some.
pub record IsRightFill (size : ℕ) (file : Bytes) (f : Fill) : Type 0 where
  pub first : ℕ
  pub done : ℕ
  pub at_index : f.index ≡ first + done
  pub at_left : f.left ≡ min (done * size) f.n
  pub count : f.n ≡ min (2 * size) (length file - first * size)
  pub same : take f.n f.data_read ≡ take f.n (drop (first * size) file)
  pub rest : f.blocks + done ≡ block_count f.n size

pub fill_slice :
    (size : ℕ) (file : Bytes) (f : Fill)
    → 0 < size
    → (h : IsRightFill size file f) → (h.done ≤ 1)
    → (h.done * size ≤ f.n)
    → slice f.left (min (f.left + size) f.n) f.data_read ≡ block_of size file f.index
fill_slice size file f some_size h two within =
    let s = h.first * size in
    let d = h.done * size in
    let k = min (f.left + size) f.n - f.left in
    let left : f.left ≡ d = omega (arith, h.at_left, within) in
    let place : (h.first + h.done) * size ≡ s + d = add-mul h.first h.done size in
    let short : d ≤ size = mul_le_size h.done size two in
    let rest = drop (s + d) file in
    let width : k ≡ min size (length rest) =
      omega (arith, left, within, short, h.count, length-drop (s + d) file) in
    slice_agree k f.left f.n f.data_read (drop s file) (omega (arith, left, within)) h.same
    ∙ ap (λ j. take k (drop j (drop s file))) left
    ∙ ap (take k) (drop-drop d s file)
    ∙ ap (λ j. take j rest) width
    ∙ take-min size rest
    ∙ ap (λ j. take size (drop j file)) (sym place ∙ ap (λ i. i * size) (sym h.at_index))
  where
    mul_le_size : (j size : ℕ) → j ≤ 1 → j * size ≤ size
    mul_le_size zero size h = omega arith
    mul_le_size (suc zero) size h = omega arith
    mul_le_size (suc (suc j)) size h = absurd (omega (arith, h))

block_bound :
    (size n j blocks : ℕ)
    → 0 < size
    → n ≤ 2 * size
    → 0 < blocks
    → blocks + j ≡ block_count n size
    → (j ≤ 1) × (j * size ≤ n)
unfolding block_count
block_bound size zero j blocks some_size room more e =
    let none_done : j ≡ 0 = omega (arith, more, e) in
    (omega (arith, none_done), rw none_done (omega arith))
block_bound size (suc m) j blocks some_size room more e =
    let below : j ≤ m / size = omega (arith, more, e) in
    let two : m / size < 2 = (div-lt_iff_lt-mul some_size).1 (omega (arith, room)) in
    (omega (arith, below, two), omega (arith, (le-div_iff_mul-le some_size).0 below))

-- The next block that `setCache` saves is a block of the file.
pub next_block :
    (size : ℕ) (file : Bytes) (f : Fill)
    → 0 < size
    → 0 < f.blocks
    → IsRightFill size file f
    → slice f.left (min (f.left + size) f.n) f.data_read ≡ block_of size file f.index
next_block size file f some_size more h =
    let (two, within) =
      block_bound size f.n h.done f.blocks some_size (omega (arith, h.count)) more h.rest in
    fill_slice size file f some_size h two within

-- And what is left after it works on the next ones.
pub next_fill :
    (size : ℕ) (file : Bytes) (f : Fill)
    → 0 < size
    → 0 < f.blocks
    → IsRightFill size file f
    → IsRightFill size file
        (record f { index = f.index + 1; left = min (f.left + size) f.n; blocks = f.blocks - 1 })
next_fill size file f some_size more h =
    let (two, within) =
      block_bound size f.n h.done f.blocks some_size (omega (arith, h.count)) more h.rest in
    let next : (h.done + 1) * size ≡ h.done * size + 1 * size = add-mul h.done 1 size in
    record {
      first = h.first;
      done = h.done + 1;
      at_index = omega (arith, h.at_index);
      at_left = omega (arith, h.at_left, next, within);
      count = h.count;
      same = h.same;
      rest = omega (arith, h.rest, more);
    }
