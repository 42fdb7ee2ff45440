-- ===== src/Fs/Reader/Behind.antt =====
-- pkg/fs/client/vfs/reader.go with pkg/fs/client/cache: a read that begins behind the end of its
-- file.
use paddle_flow.Prelude.{
  Option, Option-cases, Text, [], ap, arith, clean, copied, false, inl, inr, length, length-take,
  ltb, lt→ltb, min, negsuc, none, none≢some, pos, refl, slice, some, subst, suc, sym, true, ℕ, ◌%◌,
  ◌*◌, ◌+◌, ◌-◌, ◌/◌, ◌<◌, ◌∙◌, ◌∷◌, ◌≡◌, ◌≤◌,
}
use native.Mathlib.Nat.{mod-lt, div-add-mod'}
use paddle_flow.Fs.Answer.{ok, panics}
use paddle_flow.Fs.Disk.{Bytes, Os}
use paddle_flow.Fs.Cache.{Config, Lru, Store, new_cache_store, reader_key}
use paddle_flow.Fs.Cache.Reads.{Reading, read_at, read_cache, read_through}
use paddle_flow.Fs.Cache.Blocks.{Serves}
use paddle_flow.Fs.Cache.Kept.{read_cache_lem}
use paddle_flow.Fs.Cache.Traces.{IsNew}
use paddle_flow.Fs.Cache.Moves.{reader_key-IsNamed}
use paddle_flow.Fs.Cache.Through.{ufs_read_at-IsUfsAnswer}
use paddle_flow.Fs.Cache.Made.{new_cache_store-IsMade}
use paddle_flow.Fs.Reader.{data_read, end_of, read_loop, BlockReader}
use paddle_flow.Fs.Reader.Cached.{cached_reader}

-- A first count below zero makes the read panic.
loop_negative :
    (k : ℕ) (reader : BlockReader) (size : ℕ) (buf : Bytes) (off : ℕ) (part : Bytes) (n : ℕ)
    → 0 < length buf
    → reader k (slice 0 (end_of size (length buf) off 0) buf) (off + 0) ≡ ok (part, negsuc n)
    → read_loop (suc k) reader size buf off 0 ≡ panics
unfolding read_loop
loop_negative k reader size buf off part n room answered =
    let more : ltb 0 (length buf) ≡ true = lt→ltb 0 (length buf) room in
    let below : ltb 0 (n + 1) ≡ true = lt→ltb 0 (n + 1) (omega arith) in
    rw (more, answered, below, read_loop) refl

module _ (l : Lru) (hash : Text → ℕ) where
  through_behind :
      (u : Store l) (name : Text) (f : Bytes) (fd : ℕ → ℕ → Option Bytes) (buf : Bytes) (off : ℕ)
      → Serves f fd
      → off % u.conf.block_size + length buf ≤ u.conf.block_size
      → length f < off
      → 0 < off % u.conf.block_size
      → (part : Bytes) × (m : ℕ) × ((read_through l hash u name fd buf off).answer
          ≡ ok (part, negsuc m))
  unfolding read_through
  through_behind u name f fd buf off serves one_block behind inner =
      let size = u.conf.block_size in
      let start = off / size * size in
      let (a, answered, right) =
        ufs_read_at-IsUfsAnswer f fd (2 * size) start (serves (2 * size) start) in
      let fits : ltb (2 * size) (length buf + off % size) ≡ false = ground (arith, one_block) in
      let short : ltb a.1 (off % size) ≡ true =
        lt→ltb a.1 (off % size)
          (omega (arith, right.count, div-add-mod' off size, behind, inner)) in
      rw (answered, fits, short, read_through)
        (copied buf (slice (off % size) (length buf + off % size) a.0), off % size - a.1 - 1, refl)

  module _ (config : Config) (df : Option (ℕ × ℕ)) (s : Store l)
      (made : new_cache_store l config df ≡ some s) (name : Text) (f : Bytes)
      (fd : ℕ → ℕ → Option Bytes) (uuid : Text) (os : Os) (serves : Serves f fd)
      (new : IsNew [] uuid) where
    nothing_cached :
        (buf : Bytes) (off index : ℕ)
        → (let (key, t) = reader_key l hash s name uuid index in
            let c = read_cache l hash t buf key off os in
            (c.0 ≡ none) × (c.1.conf.block_size ≡ config.block_size))
    nothing_cached buf off index =
        let m = new_cache_store-IsMade l hash config df s made in
        let sound = m.sound (λ n. f) in
        let named =
          reader_key-IsNamed l hash config.block_size (λ n. f) [] s name uuid index new sound in
        let r = reader_key l hash s name uuid index in
        let cached = read_cache_lem l r.1 hash buf r.0 off os in
        let c = read_cache l hash r.1 buf r.0 off os in
        (
          elim (Option-cases c.0) [
            | inl e ↦ e
            | inr (a, e) ↦
                let (b, kept, _) = cached.from_kept a e in
                absurd (sound.kept r.0 b (named.same_kept r.0 b kept)).known
          ],
          ap (λ x. x.block_size) cached.shrinks.same_conf ∙ named.sound.same_size,
        )

    at_cache :
        (buf : Bytes) (off : ℕ) (c : Option (Bytes × ℕ) × Store l)
        → c.0 ≡ none
        → c.1.conf.block_size ≡ config.block_size
        → off % config.block_size + length buf ≤ config.block_size
        → length f < off
        → 0 < off % config.block_size
        → (part : Bytes) × (m : ℕ) × ((elim c.0 as (λ x. Reading l hash) [
          | some (filled, n) ↦ record { answer = ok (filled, pos n); store = c.1; fill = none }
          | none ↦ read_through l hash c.1 name fd buf off
        ]).answer
            ≡ ok (part, negsuc m))
    at_cache buf off (some a, u) e same one_block behind inner = absurd (none≢some (sym e))
    at_cache buf off (none, u) e same one_block behind inner =
        through_behind u name f fd buf off serves
          (subst (λ z. off % z + length buf ≤ z) (sym same) one_block) behind
          (subst (λ z. 0 < off % z) (sym same) inner)

    read_at_behind :
        (buf : Bytes) (off : ℕ)
        → 0 < length buf
        → off % config.block_size + length buf ≤ config.block_size
        → length f < off
        → 0 < off % config.block_size
        → (part : Bytes) × (m : ℕ) × ((read_at l hash s name fd buf off uuid os).answer
            ≡ ok (part, negsuc m))
    unfolding read_at
    read_at_behind [] off room = absurd (omega (arith, room))
    read_at_behind (b ∷ buf) off room =
        let z = s.conf.block_size in
        let (no_block, same) = nothing_cached (b ∷ buf) (off % z) (off / z) in
        at_cache (b ∷ buf) off
          (let (key, t) = reader_key l hash s name uuid (off / z) in
            read_cache l hash t (b ∷ buf) key (off % z) os)
          no_block same

  -- A read of a file of which nothing was read before, that begins behind the end of the file and
  -- not at the beginning of a block, panics.
  pub data_read_behind :
      (config : Config) (df : Option (ℕ × ℕ)) (s : Store l)
      → new_cache_store l config df ≡ some s
      → (name : Text) (f : Bytes) (fd : ℕ → ℕ → Option Bytes) (uuid : Text) (os : Os) (buf : Bytes)
        (off : ℕ)
      → Serves f fd
      → IsNew [] uuid
      → 0 < length buf
      → length f < off
      → 0 < off % config.block_size
      → data_read
          (cached_reader l hash (λ k. s) name fd (λ k. uuid) (λ k. os))
          config.block_size
          buf
          off
        ≡ panics
  unfolding data_read
  data_read_behind config df s made name f fd uuid os buf off serves new room behind inner =
      let m = new_cache_store-IsMade l hash config df s made in
      let size = config.block_size in
      let end = end_of size (length buf) off 0 in
      let chunk = slice 0 end buf in
      let here : off + 0 ≡ off = omega arith in
      let small : off % size < size = mod-lt off m.some_size in
      let width : length chunk ≡ end - 0 = omega (arith, length-take (end - 0) buf) in
      let width' : length chunk ≡ min (size - off % size) (length buf) =
        width ∙ rw here (omega arith) in
      let (part, n, answered) =
        read_at_behind config df s made (clean name) f fd uuid os serves new chunk (off + 0)
          (omega (arith, width', small, room))
          (subst (λ o. o % size + length chunk ≤ size) (sym here) (omega (arith, width', small)))
          (subst (λ o. length f < o) (sym here) behind)
          (subst (λ o. 0 < o % size) (sym here) inner) in
      loop_negative (length buf) (cached_reader l hash (λ k. s) name fd (λ k. uuid) (λ k. os)) size
        buf off part n room answered
