-- ===== src/Fs/Cache/Through.antt =====
-- pkg/fs/client/cache/cache.go: a read that goes through to the file.
use paddle_flow.Prelude.{
  Option, Text, ap, arith, copied, drop, false, inl, inr, length, length-copied, length-drop,
  length-take, ltb, min, none, none≢some, refl, slice, some, some-inj, subst, suc, sym, take,
  take-copied, take-take, zero, ℕ, ◌%◌, ◌*◌, ◌+◌, ◌-◌, ◌/◌, ◌<◌, ◌∙◌, ◌≡◌, ◌≤◌,
}
use native.Mathlib.Nat.{div-add-mod'}
use paddle_flow.Fs.Disk.{Bytes}
use paddle_flow.Fs.Cache.{Fill, Lru, Store}
use paddle_flow.Fs.Cache.Fills.{block_count}
use paddle_flow.Fs.Cache.Reads.{Reading, read_through, ufs_read_at, zeros}
use paddle_flow.Fs.Cache.Blocks.{IsRightAnswer, IsRightFill, Serves, ahead-IsSlice}
use paddle_flow.Fs.Cache.Traces.{MayServe}

length-zeros : (n : ℕ) → length (zeros n) ≡ n
length-zeros zero = refl
length-zeros (suc n) = omega (arith, length-zeros n)

-- What `FileHandle.ReadAt` answers when it does not fail.
pub record IsUfsAnswer (f : Bytes) (k off : ℕ) (a : Bytes × ℕ) : Type 0 where
  pub whole : length a.0 ≡ k
  pub count : a.1 ≡ min k (length f - off)
  pub same : take a.1 a.0 ≡ take a.1 (take k (drop off f))

pub ufs_read_at-IsUfsAnswer :
    (f : Bytes) (fd : ℕ → ℕ → Option Bytes) (k off : ℕ)
    → fd k off ≡ some (take k (drop off f))
    → (a : Bytes × ℕ) × (ufs_read_at fd (zeros k) off ≡ some a) × IsUfsAnswer f k off a
unfolding ufs_read_at
ufs_read_at-IsUfsAnswer f fd k off e =
    let part = take k (drop off f) in
    let n = min (length part) (length (zeros k)) in
    let size : length part ≡ min k (length f - off) =
      length-take k (drop off f) ∙ ap (min k) (length-drop off f) in
    let asked = ap (λ i. fd i off) (length-zeros k) ∙ e in
    (
      (copied (zeros k) part, n),
      rw (asked, ufs_read_at) refl,
      record {
        whole = length-copied (zeros k) part ∙ length-zeros k;
        count = omega (arith, size, length-zeros k);
        same = take-copied n (zeros k) part (omega arith) (omega arith);
      },
    )

ufs_read_at-none :
    (fd : ℕ → ℕ → Option Bytes) (k off : ℕ) → fd k off ≡ none → ufs_read_at fd (zeros k) off ≡ none
unfolding ufs_read_at
ufs_read_at-none fd k off e =
    let asked = ap (λ i. fd i off) (length-zeros k) ∙ e in rw (asked, ufs_read_at) refl

module _ (l : Lru) (hash : Text → ℕ) where
  -- What a read that goes through leaves behind.
  pub record IsThrough (s : Store l) (name : Text) (f buf : Bytes) (off : ℕ) (r : Reading l hash)
      : Type 0 where
    pub same_store : r.store ≡ s
    pub fills : (g : Fill) → r.fill ≡ some g → (g.id ≡ name) × IsRightFill s.conf.block_size f g

  first_fill :
      (size index : ℕ) (name : Text) (f : Bytes) (a : Bytes × ℕ)
      → IsUfsAnswer f (2 * size) (index * size) a
      → IsRightFill size f (record {
        id = name;
        data_read = a.0;
        n = a.1;
        index = index;
        left = 0;
        blocks = block_count a.1 size;
      })
  first_fill size index name f a h = record {
    first = index;
    done = 0;
    at_index = omega arith;
    at_left = omega arith;
    count = h.count;
    same = h.same ∙ take-take a.1 (2 * size) (drop (index * size) f) (omega (arith, h.count));
    rest = omega arith;
  }

  pub read_through-IsThrough :
      (s : Store l) (name : Text) (f : Bytes) (fd : ℕ → ℕ → Option Bytes) (buf : Bytes) (off : ℕ)
      → MayServe f fd
      → IsThrough s name f buf off (read_through l hash s name fd buf off)
  unfolding read_through
  read_through-IsThrough s name f fd buf off serves =
      let size = s.conf.block_size in
      elim (serves (2 * size) (off / size * size)) [
        | inl e ↦
            rw (ufs_read_at-none fd (2 * size) (off / size * size) e, read_through)
              (record { same_store = refl; fills = λ g no. absurd (none≢some no) })
        | inr e ↦
            let (a, answered, right) =
              ufs_read_at-IsUfsAnswer f fd (2 * size) (off / size * size) e in
            rw (answered, read_through)
              (record {
                same_store = refl;
                fills = λ g is. (
                  ap (λ x. x.id) (sym (some-inj is)),
                  subst (IsRightFill size f) (some-inj is)
                      (first_fill size (off / size) name f a right),
                );
              })
      ]

  -- A read that goes through and does not fail answers the bytes of the file, when it stays in one
  -- block and begins in the file.
  pub read_through-IsRightAnswer :
      (s : Store l) (name : Text) (f : Bytes) (fd : ℕ → ℕ → Option Bytes) (buf : Bytes) (off : ℕ)
      → Serves f fd
      → 0 < s.conf.block_size
      → off % s.conf.block_size + length buf ≤ s.conf.block_size
      → off ≤ length f
      → IsRightAnswer f buf off (read_through l hash s name fd buf off).answer
  unfolding read_through
  read_through-IsRightAnswer s name f fd buf off serves some_size one_block inside =
      let size = s.conf.block_size in
      let start = off / size * size in
      let (a, answered, right) =
        ufs_read_at-IsUfsAnswer f fd (2 * size) start (serves (2 * size) start) in
      let fits : ltb (2 * size) (length buf + off % size) ≡ false = ground (arith, one_block) in
      let in_file : ltb a.1 (off % size) ≡ false =
        ground (arith, right.count, div-add-mod' off size, inside, one_block) in
      rw (answered, fits, in_file, read_through)
        (
          copied buf (slice (off % size) (length buf + off % size) a.0),
          min (length buf) (a.1 - off % size),
          refl,
          ahead-IsSlice size f buf off some_size one_block a.0 a.1 right.whole right.count inside
              right.same,
        )
