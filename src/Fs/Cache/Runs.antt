-- ===== src/Fs/Cache/Runs.antt =====
-- pkg/fs/client/cache: whatever readers, writers and goroutines did, reads answer what the file
-- holds.
use paddle_flow.Prelude.{
  All, All-append, List, Option, Text, [], clean, length, lookup, none, refl, some, subst, sym, ℕ,
  ◌%◌, ◌++◌, ◌+◌, ◌<◌, ◌∙◌, ◌∷◌, ◌≡◌, ◌≢◌, ◌≤◌,
}
use paddle_flow.Fs.Disk.{Bytes, disk_clean, run_removal, Os}
use paddle_flow.Fs.Disk.Files.{disk_clean_keeps, run_removal_keeps}
use paddle_flow.Fs.Cache.{Fill, Lru, Store, Config, new_cache_store}
use paddle_flow.Fs.Cache.Fills.{fill_block}
use paddle_flow.Fs.Cache.Reads.{read_at}
use paddle_flow.Fs.Cache.Blocks.{IsRightFill, IsRightAnswer, Serves}
use paddle_flow.Fs.Cache.Kept.{Shrinks, disk-Shrinks, mem-Shrinks}
use paddle_flow.Fs.Cache.Invalidation.{delete_key, invalidate_cache}
use paddle_flow.Fs.Cache.Traces.{
  Move, Reaches, World, age_memory, changed, clean_disk, delete_one, fill, fill_done, here,
  invalidate, next, read, remove_file, with_fill, write, IsNew,
}
use paddle_flow.Fs.Cache.Sound.{IsSound, IsSound-shrink}
use paddle_flow.Fs.Cache.Answers.{IsPending, read_at-IsRead, read_at-IsRightAnswer}
use paddle_flow.Fs.Cache.Made.{new_cache_store-IsMade}
use paddle_flow.Fs.Cache.Deletions.{delete_key-Shrinks}
use paddle_flow.Fs.Cache.Steady.{fill_block-IsFilled}
use paddle_flow.Fs.Cache.Forgotten.{
  changed-IsSound, invalidate_cache-IsSound, lookup-invalidate_cache, unchanged,
}

All-around :
    (P : Fill → Type 0) (before after : List Fill) (f : Fill)
    → All P (before ++ f ∷ after)
    → All P before × P f × All P after
All-around P [] after f h = (tt, h.0, h.1)
All-around P (g ∷ before) after f h =
    let (front, mid, back) = All-around P before after f h.1 in ((h.0, front), mid, back)

All-imp : (P Q : Fill → Type 0) (fs : List Fill) → ((f : Fill) → P f → Q f) → All P fs → All Q fs
All-imp P Q [] imp h = tt
All-imp P Q (f ∷ fs) imp h = (imp f h.0, All-imp P Q fs imp h.1)

All-imp2 :
    (P Q R : Fill → Type 0) (fs : List Fill)
    → ((f : Fill) → P f → Q f → R f)
    → All P fs
    → All Q fs
    → All R fs
All-imp2 P Q R [] imp h g = tt
All-imp2 P Q R (f ∷ fs) imp h g = (imp f h.0 g.0, All-imp2 P Q R fs imp h.1 g.1)

module _ (l : Lru) (hash : Text → ℕ) (size : ℕ) (some_size : 0 < size) where
  pub record IsGood (w : World l) : Type 0 where
    pub sound : IsSound l hash size w.files w.issued w.store
    pub pending : All (IsPending size w.files w.store.meta) w.pending

  more_names :
      (files : Text → Bytes) (meta meta' : List (Text × Text)) (fs : List Fill)
      → ((other id : Text) → lookup other meta ≡ some id → lookup other meta' ≡ some id)
      → All (IsPending size files meta) fs
      → All (IsPending size files meta') fs
  more_names files meta meta' fs same =
      All-imp (IsPending size files meta) (IsPending size files meta') fs λ f p. record {
        has_identity = (p.has_identity.0, same f.id p.has_identity.0 p.has_identity.1);
        right = p.right;
      }

  shrunk :
      (w : World l) (s : Store l) → Shrinks l w.store s → IsGood w → IsGood (record w { store = s })
  shrunk w s less g = record {
    sound = IsSound-shrink l hash size w.files w.issued w.store s less g.sound;
    pending = subst (λ m. All (IsPending size w.files m) w.pending) (sym less.same_meta) g.pending;
  }

  pub Move-IsGood : {w v : World l} → Move l hash w v → IsGood w → IsGood v
  Move-IsGood (read w name fd buf off uuid os serves new) g =
      let r = read_at l hash w.store (clean name) fd buf off uuid os in
      let done =
        read_at-IsRead l hash size w.files w.issued w.store (clean name) fd uuid os new g.sound buf
          off serves in
      record {
        sound = done.sound;
        pending =
            at_fill r.store.meta r.fill done.fills
              (more_names w.files w.store.meta r.store.meta w.pending done.same_names g.pending);
      }
    where
      at_fill :
          (meta : List (Text × Text)) (o : Option Fill)
          → ((f : Fill) → o ≡ some f → IsPending size w.files meta f)
          → All (IsPending size w.files meta) w.pending
          → All (IsPending size w.files meta) (with_fill o w.pending)
      at_fill meta none h p = p
      at_fill meta (some f) h p = (h f refl, p)
  Move-IsGood (fill w before after f uuid os e more new) g =
      let P = IsPending size w.files w.store.meta in
      let (front, mid, back) = All-around P before after f (subst (All P) e g.pending) in
      let done =
        fill_block-IsFilled l hash size w.files w.issued w.store f uuid os some_size more new
          g.sound mid in
      let r = fill_block l hash w.store f uuid os in
      record {
        sound = done.sound;
        pending =
            All-append (IsPending size w.files r.0.meta) before (r.1 ∷ after)
              (more_names w.files w.store.meta r.0.meta before done.same_names front)
              (done.rest, more_names w.files w.store.meta r.0.meta after done.same_names back);
      }
  Move-IsGood (fill_done w before after f e) g =
      let P = IsPending size w.files w.store.meta in
      let (front, mid, back) = All-around P before after f (subst (All P) e g.pending) in
      record { sound = g.sound; pending = All-append P before after front back }
  Move-IsGood (invalidate w name quiet) g = record {
    sound = invalidate_cache-IsSound l hash size w.files w.issued w.store name g.sound;
    pending =
        All-imp2 (IsPending size w.files w.store.meta) (λ f. f.id ≢ clean name)
          (IsPending size w.files (invalidate_cache l hash w.store name).0.meta) w.pending
          (λ f p ne. record {
            has_identity = (
              p.has_identity.0,
              lookup-invalidate_cache l hash size w.store name f.id ne ∙ p.has_identity.1,
            );
            right = p.right;
          })
          g.pending quiet;
  }
  Move-IsGood (write w name content quiet unnamed) g = record {
    sound = changed-IsSound l hash size w.files w.issued w.store name content unnamed g.sound;
    pending =
        All-imp2 (IsPending size w.files w.store.meta) (λ f. f.id ≢ name)
          (IsPending size (changed w.files name content) w.store.meta) w.pending
          (λ f p ne. record {
            has_identity = p.has_identity;
            right =
                subst (λ c. IsRightFill size c f) (sym (unchanged w.files name content f.id ne))
                  p.right;
          })
          g.pending quiet;
  }
  Move-IsGood (delete_one w key) g =
      shrunk w (delete_key l hash w.store key) (delete_key-Shrinks l hash w.store key) g
  Move-IsGood (age_memory w c e) g =
      shrunk w _ (mem-Shrinks l w.store c (l.age c) e (l.age_keeps c)) g
  Move-IsGood (remove_file w d key e) g =
      shrunk w _ (disk-Shrinks l w.store d (run_removal d key) e (run_removal_keeps d key)) g
  Move-IsGood (clean_disk w d os e) g =
      shrunk w _ (disk-Shrinks l w.store d (disk_clean d os) e (disk_clean_keeps d os)) g

  pub Reaches-IsGood : {w v : World l} → IsGood w → Reaches l hash w v → IsGood v
  Reaches-IsGood g here = g
  Reaches-IsGood g (next r m) = Move-IsGood m (Reaches-IsGood g r)

module _ (l : Lru) (hash : Text → ℕ) where
  -- A store that was just made, and files.
  abbrev pub at_start : Store l → (Text → Bytes) → World l
  at_start s files = record { store = s; files = files; pending = []; issued = [] }

  -- In whatever order readers, writers and the goroutines of the cache move, as long as a file
  -- changes only when nothing is cached or being cached for it, a read that stays within one block
  -- and begins within the file fills the buffer with the bytes that the file holds, as many as
  -- there are.
  pub read_at_lem :
      (config : Config) (df : Option (ℕ × ℕ)) (s : Store l) (files : Text → Bytes) (w : World l)
      → new_cache_store l config df ≡ some s
      → Reaches l hash (at_start s files) w
      → (name : Text) (fd : ℕ → ℕ → Option Bytes) (buf : Bytes) (off : ℕ) (uuid : Text) (os : Os)
      → Serves (w.files (clean name)) fd
      → IsNew w.issued uuid
      → off % config.block_size + length buf ≤ config.block_size
      → off ≤ length (w.files (clean name))
      → IsRightAnswer
          (w.files (clean name))
          buf
          off
          (read_at l hash w.store (clean name) fd buf off uuid os).answer
  read_at_lem config df s files w made r name fd buf off uuid os serves new one_block inside =
      let m = new_cache_store-IsMade l hash config df s made in
      let start : IsGood l hash config.block_size m.some_size (at_start s files) = record {
        sound = m.sound files;
        pending = tt;
      } in
      let good = Reaches-IsGood l hash config.block_size m.some_size start r in
      read_at-IsRightAnswer l hash config.block_size w.files w.issued w.store (clean name) fd uuid
        os new good.sound buf off serves m.some_size one_block inside
