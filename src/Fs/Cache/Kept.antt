-- ===== src/Fs/Cache/Kept.antt =====
-- pkg/fs/client/cache: which blocks a store may answer, and which operations keep none that is new.
use paddle_flow.Prelude.{
  Bool, Option, Text, false, if◌then◌else◌, none, none≢some, refl, some, some-inj, subst, sym, true,
  ℕ, ◌∙◌, ◌≡◌,
}
use paddle_flow.Fs.Disk.{Bytes, Disk, DiskHolds, Os, disk_load}
use paddle_flow.Fs.Disk.Files.{disk_load_holds}
use paddle_flow.Fs.Cache.{Lru, Store}
use paddle_flow.Fs.Cache.Reads.{read_block, read_cache, read_disk}

module _ (l : Lru) where
  open l use {C, get, remove}

  pub data Kept (s : Store l) (key : Text) (b : Bytes) : Type 0 where
    in_mem : (c : C) → s.mem ≡ some c → l.Holds c key b → Kept s key b
    on_disk : (d : Disk) → s.disk ≡ some d → DiskHolds d key b → Kept s key b

  -- `t` has the names and the configuration of `s` and keeps nothing that `s` does not keep.
  pub record Shrinks (s t : Store l) : Type 0 where
    pub same_meta : t.meta ≡ s.meta
    pub same_conf : t.conf ≡ s.conf
    pub fewer : (key : Text) (b : Bytes) → Kept t key b → Kept s key b

  pub Shrinks-refl : (s : Store l) → Shrinks s s
  Shrinks-refl s = record { same_meta = refl; same_conf = refl; fewer = λ key b k. k }

  pub mem-Shrinks :
      (s : Store l) (c c' : C)
      → s.mem ≡ some c
      → ((j : Text) (b : Bytes) → l.Holds c' j b → l.Holds c j b)
      → Shrinks s (record s { mem = some c' })
  mem-Shrinks s c c' e keeps = record { same_meta = refl; same_conf = refl; fewer = fewer }
    where
      fewer : (key : Text) (b : Bytes) → Kept (record s { mem = some c' }) key b → Kept s key b
      fewer key b (in_mem x e' h) =
          in_mem c e (keeps key b (subst (λ y. l.Holds y key b) (some-inj (sym e')) h))
      fewer key b (on_disk d e' h) = on_disk d e' h

  pub disk-Shrinks :
      (s : Store l) (d d' : Disk)
      → s.disk ≡ some d
      → ((j : Text) (b : Bytes) → DiskHolds d' j b → DiskHolds d j b)
      → Shrinks s (record s { disk = some d' })
  disk-Shrinks s d d' e keeps = record { same_meta = refl; same_conf = refl; fewer = fewer }
    where
      fewer : (key : Text) (b : Bytes) → Kept (record s { disk = some d' }) key b → Kept s key b
      fewer key b (in_mem x e' h) = in_mem x e' h
      fewer key b (on_disk x e' h) =
          on_disk d e (keeps key b (subst (λ y. DiskHolds y key b) (some-inj (sym e')) h))

  pub Shrinks-trans : (s t u : Store l) → Shrinks s t → Shrinks t u → Shrinks s u
  Shrinks-trans s t u p q = record {
    same_meta = q.same_meta ∙ p.same_meta;
    same_conf = q.same_conf ∙ p.same_conf;
    fewer = λ key b k. p.fewer key b (q.fewer key b k);
  }

  -- `readCache` answers from a block that is kept under the key, and keeps nothing new.
  pub record CacheAnswers (s : Store l) (buf : Bytes) (key : Text) (off : ℕ)
      (r : Option (Bytes × ℕ) × Store l) : Type 0 where
    pub shrinks : Shrinks s r.1
    pub from_kept :
        (a : Bytes × ℕ) → r.0 ≡ some a → (b : Bytes) × Kept s key b × (a ≡ read_block b buf off)

  read_disk_lem :
      (s : Store l) (hash : Text → ℕ) (buf : Bytes) (key : Text) (off : ℕ) (os : Os)
      (o : Option Disk)
      → s.disk ≡ o
      → (a : Bytes × ℕ) → read_disk l hash o buf key off os ≡ some a
      → (b : Bytes) × Kept s key b × (a ≡ read_block b buf off)
  read_disk_lem s hash buf key off os none e a h = absurd (none≢some h)
  read_disk_lem s hash buf key off os (some d) e a h = at_load (disk_load d key os) refl os.reads h
    where
      at_load :
          (o : Option Bytes)
          → disk_load d key os ≡ o
          → (reads : Bool)
          → elim o as (λ x. Option (Bytes × ℕ)) [
            | none ↦ none
            | some block ↦ if reads then some (read_block block buf off) else none
          ]
            ≡ some a
          → (b : Bytes) × Kept s key b × (a ≡ read_block b buf off)
      at_load none load reads k = absurd (none≢some k)
      at_load (some b) load false k = absurd (none≢some k)
      at_load (some b) load true k =
          (b, on_disk d e (disk_load_holds d key os b load), sym (some-inj k))

  pub read_cache_lem :
      (s : Store l) (hash : Text → ℕ) (buf : Bytes) (key : Text) (off : ℕ) (os : Os)
      → CacheAnswers s buf key off (read_cache l hash s buf key off os)
  unfolding read_cache
  read_cache_lem s hash buf key off os = at_mem s.mem refl
    where
      result : Option C → Option (Bytes × ℕ) × Store l
      result m = elim m [
        | none ↦ (read_disk l hash s.disk buf key off os, s)
        | some c ↦
            let t : Store l = record s { mem = some (get c key).1 } in
            elim (get c key).0 [
              | none ↦ (read_disk l hash s.disk buf key off os, t)
              | some block ↦ (some (read_block block buf off), t)
            ]
      ]

      at_mem : (m : Option C) → s.mem ≡ m → CacheAnswers s buf key off (result m)
      at_mem none e = record {
        shrinks = Shrinks-refl s;
        from_kept = read_disk_lem s hash buf key off os s.disk refl;
      }
      at_mem (some c) e = at_get (get c key).0 refl
        where
          t : Store l
          t = record s { mem = some (get c key).1 }

          at_get :
              (o : Option Bytes)
              → (get c key).0 ≡ o
              → CacheAnswers s buf key off (elim o as (λ x. Option (Bytes × ℕ) × Store l) [
                | none ↦ (read_disk l hash s.disk buf key off os, t)
                | some block ↦ (some (read_block block buf off), t)
              ])
          at_get none g = record {
            shrinks = mem-Shrinks s c (get c key).1 e (l.get_keeps c key);
            from_kept = read_disk_lem s hash buf key off os s.disk refl;
          }
          at_get (some b) g = record {
            shrinks = mem-Shrinks s c (get c key).1 e (l.get_keeps c key);
            from_kept = λ a h. (b, in_mem c e (l.get_holds c key b g), sym (some-inj h));
          }
