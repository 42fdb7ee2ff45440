-- ===== src/Fs/Cache/Steady.antt =====
-- pkg/fs/client/cache: the operations but `ReadAt` on a sound store.
use paddle_flow.Prelude.{
  Bool, List, Option, Text, ap, false, if◌then◌else◌, inl, inr, lookup, ltb, min, none, none≢some,
  refl, slice, some, some-inj, subst, sym, true, ℕ, ◌+◌, ◌-◌, ◌<◌, ◌∙◌, ◌∷◌, ◌≡◌, ◌⊎◌,
}
use paddle_flow.Fs.Disk.{Bytes, Disk, DiskHolds, Os}
use paddle_flow.Fs.Disk.Files.{disk_save_keeps}
use paddle_flow.Fs.Cache.{Config, Fill, Lru, Store, block_key, or_empty, reader_key}
use paddle_flow.Fs.Cache.Fills.{fill_block, set_disk, set_mem}
use paddle_flow.Fs.Cache.Blocks.{IsRightFill, block_of, next_block, next_fill}
use paddle_flow.Fs.Cache.Kept.{Kept, in_mem, on_disk}
use paddle_flow.Fs.Cache.Traces.{IsNew}
use paddle_flow.Fs.Cache.Sound.{IsBlock, IsSound}
use paddle_flow.Fs.Cache.Moves.{reader_key-IsNamed}
use paddle_flow.Fs.Cache.Answers.{IsPending}

module _ (l : Lru) (hash : Text → ℕ) (size : ℕ) where
  open l use {C, set}

  -- What a store keeps after one block was saved.
  set_mem_lem :
      (conf : Config) (c : C) (key k : Text) (block b : Bytes) (d : C)
      → set_mem l hash conf (some c) key block ≡ some d
      → l.Holds d k b
      → ((k ≡ key) × (b ≡ block)) ⊎ l.Holds c k b
  set_mem_lem conf c key k block b d =
      at_size (ltb 0 (elim conf.mem_size [ none ↦ 0 | some size ↦ size ]))
    where
      at_size :
          (t : Bool)
          → (if t then some (set c key block) else some c) ≡ some d
          → l.Holds d k b
          → ((k ≡ key) × (b ≡ block)) ⊎ l.Holds c k b
      at_size true e h =
          l.set_holds c key k block b (subst (λ x. l.Holds x k b) (sym (some-inj e)) h)
      at_size false e h = inr (subst (λ x. l.Holds x k b) (sym (some-inj e)) h)

  saved : Store l → Text → Bytes → Os → Store l
  saved t key block os = record t {
    mem = set_mem l hash t.conf t.mem key block;
    disk = set_disk l hash t.disk key block os;
  }

  saved_keeps :
      (t : Store l) (key : Text) (block : Bytes) (os : Os) (k : Text) (b : Bytes)
      → Kept l (saved t key block os) k b
      → ((k ≡ key) × (b ≡ block)) ⊎ Kept l t k b
  unfolding saved
  saved_keeps t key block os k b (in_mem d e h) = at_mem t.mem refl e
    where
      at_mem :
          (o : Option C)
          → t.mem ≡ o
          → set_mem l hash t.conf o key block ≡ some d
          → ((k ≡ key) × (b ≡ block)) ⊎ Kept l t k b
      at_mem none m e' = absurd (none≢some e')
      at_mem (some c) m e' = elim (set_mem_lem t.conf c key k block b d e' h) [
        | inl new ↦ inl new
        | inr old ↦ inr (in_mem c m old)
      ]
  saved_keeps t key block os k b (on_disk d e h) = at_disk t.disk refl e
    where
      at_disk :
          (o : Option Disk)
          → t.disk ≡ o
          → set_disk l hash o key block os ≡ some d
          → ((k ≡ key) × (b ≡ block)) ⊎ Kept l t k b
      at_disk none m e' = absurd (none≢some e')
      at_disk (some c) m e' =
          elim (disk_save_keeps c key block os k b
            (subst (λ x. DiskHolds x k b) (sym (some-inj e')) h)) [
              | inl new ↦ inl new
              | inr old ↦ inr (on_disk c m old)
            ]

  saved-IsSound :
      (files : Text → Bytes) (issued : List Text) (t : Store l) (key : Text) (block : Bytes)
      (os : Os)
      → IsSound l hash size files issued t
      → IsBlock l hash size files issued t.meta key block
      → IsSound l hash size files issued (saved t key block os)
  unfolding saved
  saved-IsSound files issued t key block os h new = record {
    same_size = h.same_size;
    identities = h.identities;
    known = h.known;
    distinct = h.distinct;
    kept = λ k b kept. elim (saved_keeps t key block os k b kept) [
      | inl same ↦
          subst (λ x. IsBlock l hash size files issued t.meta x b) (sym same.0)
            (subst (IsBlock l hash size files issued t.meta key) (sym same.1) new)
      | inr old ↦ h.kept k b old
    ];
  }

  -- What is true after a round of `setCache`.
  pub record IsFilled (files : Text → Bytes) (issued : List Text) (s : Store l) (uuid : Text)
      (r : Store l × Fill) : Type 0 where
    pub sound : IsSound l hash size files (uuid ∷ issued) r.0
    pub same_names :
        (other id : Text) → lookup other s.meta ≡ some id → lookup other r.0.meta ≡ some id
    pub rest : IsPending size files r.0.meta r.1

  pub fill_block-IsFilled :
      (files : Text → Bytes) (issued : List Text) (s : Store l) (f : Fill) (uuid : Text) (os : Os)
      → 0 < size
      → 0 < f.blocks
      → IsNew issued uuid
      → IsSound l hash size files issued s
      → IsPending size files s.meta f
      → IsFilled files issued s uuid (fill_block l hash s f uuid os)
  unfolding fill_block saved
  fill_block-IsFilled files issued s f uuid os some_size more new h p =
      let named = reader_key-IsNamed l hash size files issued s f.id uuid f.index new h in
      let (key, t) = reader_key l hash s f.id uuid f.index in
      let (id, e) = p.has_identity in
      let here = named.same_names f.id id e in
      let z = s.conf.block_size in
      let right : IsRightFill z (files f.id) f =
        subst (λ x. IsRightFill x (files f.id) f) (sym h.same_size) p.right in
      let some_z : 0 < z = subst (λ x. 0 < x) (sym h.same_size) some_size in
      let block = slice f.left (min (f.left + z) f.n) f.data_read in
      let is_block : block ≡ block_of size (files f.id) f.index =
        next_block z (files f.id) f some_z more right
        ∙ ap (λ x. block_of x (files f.id) f.index) h.same_size in
      let new_block : IsBlock l hash size files (uuid ∷ issued) t.meta key block = record {
        id = id;
        index = f.index;
        keyed = named.keyed ∙ ap (λ o. block_key hash (or_empty o) f.index) e;
        known = named.sound.known f.id id here;
        content = λ name k.
            is_block
            ∙ ap (λ n. block_of size (files n) f.index) (named.sound.distinct f.id name id here k);
      } in
      record {
        sound = saved-IsSound files (uuid ∷ issued) t key block os named.sound new_block;
        same_names = named.same_names;
        rest = record {
          has_identity = (id, here);
          right =
              subst
                (λ x. IsRightFill x (files f.id) (record f {
                  index = f.index + 1;
                  left = min (f.left + z) f.n;
                  blocks = f.blocks - 1;
                }))
                h.same_size (next_fill z (files f.id) f some_z more right);
        };
      }
