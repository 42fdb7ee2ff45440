-- ===== src/Fs/Disk/Files.antt =====
-- pkg/fs/client/cache/disk.go: the files that the operations leave.
use paddle_flow.Prelude.{
  Bool, Bool-cases, List, Option, Text, [], ap, delete, false, has, if◌then◌else◌, inl, inr, insert,
  length, lookup, lookup-delete, lookup-insert, none, none≢some, not, refl, some, some-inj, subst,
  sym, text_eq, text_eq→eq, true, ℕ, ◌+◌, ◌∙◌, ◌∷◌, ◌≡◌, ◌⊎◌,
}
use paddle_flow.Fs.Disk.{
  Bytes, CacheItem, Disk, DiskHolds, Os, delete_expired, disk_clean, disk_delete, disk_exist,
  disk_load, disk_save, is_expired, is_full, no_dir, remove_unknown, update_capacity, DiskConfig,
  new_disk_cache, run_removal,
}

pub files-delete_expired :
    (now : ℕ) (items : List (Text × CacheItem)) (c : Disk)
    → (delete_expired now items c).files ≡ c.files
unfolding delete_expired disk_delete
files-delete_expired now [] c = refl
files-delete_expired now ((key, item) ∷ items) c = elim (Bool-cases (is_expired now item)) [
  | inl e ↦ rw (e, delete_expired) (files-delete_expired now items (disk_delete c key))
  | inr e ↦ rw (e, delete_expired) (files-delete_expired now items c)
]

-- A deletion leaves no entry that was not there.
lookup-delete-some :
    (key j : Text) (m : List (Text × Bytes)) (b : Bytes)
    → lookup j (delete key m) ≡ some b
    → lookup j m ≡ some b
lookup-delete-some key j m b e = elim (Bool-cases (text_eq key j)) [
  | inl same ↦ absurd (none≢some (sym (lookup-delete key j m ∙ rw same refl) ∙ e))
  | inr other ↦ sym (lookup-delete key j m ∙ rw other refl) ∙ e
]

remove_unknown_keeps :
    (paths : List Text) (c : Disk) (j : Text) (b : Bytes)
    → DiskHolds (remove_unknown paths c) j b
    → DiskHolds c j b
unfolding remove_unknown
remove_unknown_keeps [] c j b h = h
remove_unknown_keeps (key ∷ paths) c j b h = elim (Bool-cases (has key c.keys)) [
  | inl e ↦ remove_unknown_keeps paths c j b (rw (e, remove_unknown) at h)
  | inr e ↦ lookup-delete-some key j c.files b (
      remove_unknown_keeps paths (record c { files = delete key c.files }) j b
        (rw (e, remove_unknown) at h))
]

pub update_capacity_keeps :
    (c : Disk) (df : Option (ℕ × ℕ)) → (update_capacity c df).files ≡ c.files
update_capacity_keeps c none = refl
update_capacity_keeps c (some (total, used)) = refl

pub disk_clean_keeps :
    (c : Disk) (os : Os) (j : Text) (b : Bytes) → DiskHolds (disk_clean c os) j b → DiskHolds c j b
unfolding disk_clean
disk_clean_keeps c os j b h =
    let fresh = delete_expired os.now c.keys c in
    let same = files-delete_expired os.now c.keys c in
    elim (Bool-cases (no_dir c.dir)) [
      | inl e ↦ subst (λ m. lookup j m ≡ some b) same (rw e at h)
      | inr e ↦
          subst (λ m. lookup j m ≡ some b) same
            (remove_unknown_keeps os.walked fresh j b (
              subst (λ m. lookup j m ≡ some b)
                (update_capacity_keeps (remove_unknown os.walked fresh) os.df) (rw e at h)))
    ]

pub disk_save_keeps :
    (c : Disk) (key : Text) (buf : Bytes) (os : Os) (j : Text) (b : Bytes)
    → DiskHolds (disk_save c key buf os) j b
    → ((j ≡ key) × (b ≡ buf)) ⊎ DiskHolds c j b
unfolding disk_save
disk_save_keeps c key buf os j b = at_room (is_full c (length buf)) (text_eq c.dir [])
  where
    from_clean : (t : Bool) → DiskHolds (if t then disk_clean c os else c) j b → DiskHolds c j b
    from_clean true h = disk_clean_keeps c os j b h
    from_clean false h = h

    saved :
        (d : Disk)
        → (DiskHolds d j b → DiskHolds c j b)
        → lookup j (insert key buf d.files) ≡ some b
        → ((j ≡ key) × (b ≡ buf)) ⊎ DiskHolds c j b
    saved d from h = elim (Bool-cases (text_eq key j)) [
      | inl e ↦ inl (
        sym (text_eq→eq key j e),
        some-inj (sym (sym (lookup-insert key j buf d.files ∙ rw e refl) ∙ h)),
      )
      | inr e ↦ inr (from (sym (lookup-insert key j buf d.files ∙ rw e refl) ∙ h))
    ]

    at_room :
        (full no_dir : Bool)
        → DiskHolds
            (let cleaned = if full then disk_clean c os else c in
              if no_dir
              then c
              else if is_full cleaned (length buf)
              then cleaned
              else if not os.writes
              then cleaned
              else record cleaned {
                files = insert key buf cleaned.files;
                keys =
                    insert key
                      (record { size = length buf; exp_time = os.now + cleaned.expire })
                      cleaned.keys;
              })
            j
            b
        → ((j ≡ key) × (b ≡ buf)) ⊎ DiskHolds c j b
    at_room full true h = inr h
    at_room full false h =
        let cleaned = if full then disk_clean c os else c in
        elim (Bool-cases (is_full cleaned (length buf))) [
          | inl e ↦ inr (from_clean full (rw e at h))
          | inr e ↦ elim (Bool-cases os.writes) [
            | inl w ↦ saved cleaned (from_clean full) (rw (e, w) at h)
            | inr w ↦ inr (from_clean full (rw (e, w) at h))
          ]
        ]

pub disk_load_holds :
    (c : Disk) (key : Text) (os : Os) (b : Bytes) → disk_load c key os ≡ some b → DiskHolds c key b
unfolding disk_load
disk_load_holds c key os b = at_tests (text_eq c.dir []) (disk_exist c key os) os.opens
  where
    at_tests :
        (no_dir there opens : Bool)
        → (if no_dir
            then none
            else if not there
            then none
            else if not opens
            then none
            else lookup key c.files)
          ≡ some b
        → DiskHolds c key b
    at_tests true there opens h = absurd (none≢some h)
    at_tests false false opens h = absurd (none≢some h)
    at_tests false true false h = absurd (none≢some h)
    at_tests false true true h = h

pub run_removal_keeps :
    (d : Disk) (key j : Text) (b : Bytes) → DiskHolds (run_removal d key) j b → DiskHolds d j b
unfolding run_removal
run_removal_keeps d key j b h = lookup-delete-some key j d.files b h

pub new_disk_cache_empty :
    (config : DiskConfig) (df : Option (ℕ × ℕ)) (d : Disk)
    → new_disk_cache config df ≡ some d
    → d.files ≡ []
unfolding new_disk_cache
new_disk_cache_empty config df d = at_dir (no_dir config.dir) df
  where
    at_dir :
        (b : Bool) (df : Option (ℕ × ℕ))
        → (if b
            then none
            else some (
                update_capacity
                  (record {
                    dir = config.dir;
                    capacity = 0;
                    used = 0;
                    expire = config.expire;
                    keys = [];
                    files = [];
                    removals = [];
                  })
                  df))
          ≡ some d
        → d.files ≡ []
    at_dir true df h = absurd (none≢some h)
    at_dir false none h = ap (λ x. x.files) (sym (some-inj h))
    at_dir false (some (total, used)) h = ap (λ x. x.files) (sym (some-inj h))
