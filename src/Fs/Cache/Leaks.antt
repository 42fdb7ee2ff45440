-- ===== src/Fs/Cache/Leaks.antt =====
-- pkg/fs/client/cache/cache.go: what comes of an invalidation while `setCache` is under way.
use paddle_flow.Prelude.{
  Option, Text, [], ap, arith, false, insert, lookup, lookup-insert, ltb, lt→ltb, min, none,
  none≢some, pos, refl, slice, some, some-inj, subst, suc, sym, text_eq, text_eq_iff, true, ℕ, ◌%◌,
  ◌+◌, ◌/◌, ◌∙◌, ◌∷◌, ◌≡◌, ◌≢◌,
}
use paddle_flow.Fs.Answer.{ok}
use paddle_flow.Fs.Disk.{Bytes, Os}
use paddle_flow.Fs.Cache.{Fill, Lru, Store, block_key, reader_key}
use paddle_flow.Fs.Cache.Fills.{fill_block, set_disk}
use paddle_flow.Fs.Cache.Reads.{read_at, read_block, read_cache, Reading, read_through}

-- The memory cache still has what was just put in.
abbrev pub Remembers : Lru → Type 0
Remembers l = (c : l.C) (k : Text) (b : Bytes) → (l.get (l.set c k b) k).0 ≡ some b

module _ (l : Lru) (hash : Text → ℕ) (remembers : Remembers l) where
  unnamed_key :
      (s : Store l) (name uuid : Text) (index : ℕ)
      → lookup name s.meta ≡ none
      → reader_key l hash s name uuid index
        ≡ (block_key hash [] index, record s { meta = insert name uuid s.meta })
  unfolding reader_key
  unnamed_key s name uuid index e = rw (e, reader_key) refl

  cached_answer :
      (t : Store l) (d : l.C) (buf : Bytes) (key : Text) (off : ℕ) (os : Os) (block : Bytes)
      → t.mem ≡ some d
      → (l.get d key).0 ≡ some block
      → (read_cache l hash t buf key off os).0 ≡ some (read_block block buf off)
  unfolding read_cache
  cached_answer t d buf key off os block m e = rw (m, e, read_cache) refl

  after_cache :
      Option (Bytes × ℕ) × Store l → Text → (ℕ → ℕ → Option Bytes) → Bytes → ℕ → Reading l hash
  after_cache c name fd buf off = elim c.0 [
    | some (filled, n) ↦ record { answer = ok (filled, pos n); store = c.1; fill = none }
    | none ↦ read_through l hash c.1 name fd buf off
  ]

  from_cache :
      (c : Option (Bytes × ℕ) × Store l) (name : Text) (fd : ℕ → ℕ → Option Bytes) (buf : Bytes)
      (off : ℕ) (a : Bytes × ℕ)
      → c.0 ≡ some a
      → (after_cache c name fd buf off).answer ≡ ok (a.0, pos a.1)
  unfolding after_cache
  from_cache (none, u) name fd buf off a e = absurd (none≢some e)
  from_cache (some x, u) name fd buf off a e = ap (λ y. ok (y.0, pos y.1)) (some-inj e)

  -- The first read of a file, when its block is in memory under the key of the empty identity.
  first_read :
      (t : Store l) (d : l.C) (name : Text) (fd : ℕ → ℕ → Option Bytes) (b : ℕ) (buf : Bytes)
      (off : ℕ) (uuid : Text) (os : Os) (block : Bytes)
      → t.mem ≡ some d
      → lookup name t.meta ≡ none
      → (l.get d (block_key hash [] (off / t.conf.block_size))).0 ≡ some block
      → (let filled = read_block block (b ∷ buf) (off % t.conf.block_size) in
          (read_at l hash t name fd (b ∷ buf) off uuid os).answer ≡ ok (filled.0, pos filled.1))
  unfolding read_at after_cache
  first_read t d name fd b buf off uuid os block m unread held =
      let z = t.conf.block_size in
      let named : Store l = record t { meta = insert name uuid t.meta } in
      let key = block_key hash [] (off / z) in
      let answer = cached_answer named d (b ∷ buf) key (off % z) os block m held in
      subst
        (λ kt.
          (after_cache (read_cache l hash kt.1 (b ∷ buf) kt.0 (off % z) os) name fd (b ∷ buf)
            off).answer
          ≡ ok (
            (read_block block (b ∷ buf) (off % z)).0,
            pos (read_block block (b ∷ buf) (off % z)).1,
          ))
        (sym (unnamed_key t name uuid (off / z) unread))
        (from_cache (read_cache l hash named (b ∷ buf) key (off % z) os) name fd (b ∷ buf) off
          (read_block block (b ∷ buf) (off % z)) answer)

  -- What the store is when a block of a file without identity was saved.
  stored : Store l → Fill → l.C → Text → Os → Store l
  stored s f c uuid os =
      let key = block_key hash [] f.index in
      let block = slice f.left (min (f.left + s.conf.block_size) f.n) f.data_read in
      record {
        mem = some (l.set c key block);
        disk = set_disk l hash s.disk key block os;
        conf = s.conf;
        meta = insert f.id uuid s.meta;
      }

  fill_block-stored :
      (s : Store l) (c : l.C) (f : Fill) (size : ℕ) (uuid : Text) (os : Os)
      → s.mem ≡ some c
      → s.conf.mem_size ≡ some (suc size)
      → lookup f.id s.meta ≡ none
      → (fill_block l hash s f uuid os).0 ≡ stored s f c uuid os
  unfolding fill_block reader_key stored
  fill_block-stored s c f size uuid os m sized gone =
      let some_room : ltb 0 (suc size) ≡ true = lt→ltb 0 (suc size) (omega arith) in
      rw (gone, m, sized, some_room, fill_block, reader_key) refl

  -- When the identity of a file was taken away before `setCache` saves its first block, the block
  -- is kept under the key of the empty identity, and is what the next read answers that is the
  -- first one of any other file and is about a block with the same index, while the memory cache
  -- keeps it.
  pub fill_block_leaks :
      (s : Store l) (c : l.C) (f : Fill) (size : ℕ) (uuid : Text) (os : Os)
      → s.mem ≡ some c
      → s.conf.mem_size ≡ some (suc size)
      → lookup f.id s.meta ≡ none
      → (name : Text) (fd : ℕ → ℕ → Option Bytes) (b : ℕ) (buf : Bytes) (off : ℕ) (uuid' : Text)
        (os' : Os)
      → name ≢ f.id
      → lookup name s.meta ≡ none
      → off / s.conf.block_size ≡ f.index
      → (let z = s.conf.block_size in
          let block = slice f.left (min (f.left + z) f.n) f.data_read in
          let filled = read_block block (b ∷ buf) (off % z) in
          (read_at l hash (fill_block l hash s f uuid os).0 name fd (b ∷ buf) off uuid' os').answer
          ≡ ok (filled.0, pos filled.1))
  unfolding stored
  fill_block_leaks s c f size uuid os m sized gone name fd b buf off uuid' os' ne unread same =
      let block = slice f.left (min (f.left + s.conf.block_size) f.n) f.data_read in
      let t = stored s f c uuid os in
      let z = s.conf.block_size in
      let other : text_eq f.id name ≡ false = ground (arith, text_eq_iff f.id name) in
      let still_unread : lookup name t.meta ≡ none =
        lookup-insert f.id name uuid s.meta ∙ rw other unread in
      let held : (l.get (l.set c (block_key hash [] f.index) block) (block_key hash [] (off / z))).0
          ≡ some block =
        rw same (remembers c (block_key hash [] f.index) block) in
      ap (λ u. (read_at l hash u name fd (b ∷ buf) off uuid' os').answer)
        (fill_block-stored s c f size uuid os m sized gone)
      ∙ first_read t (l.set c (block_key hash [] f.index) block) name fd b buf off uuid' os' block
          refl still_unread held
