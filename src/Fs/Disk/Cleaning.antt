-- ===== src/Fs/Disk/Cleaning.antt =====
-- pkg/fs/client/cache/disk.go: what `clean` takes away.
use paddle_flow.Prelude.{
  Bool, Bool-cases, In, List, NoDup, Option, Text, [], ap, delete, false, has, if◌then◌else◌, inl,
  inr, keys, lookup, lookup-delete, none, refl, some, subst, sym, text_eq, text_eq→eq, true, ℕ,
  ◌&&◌, ◌||◌, ◌∙◌, ◌∷◌, ◌≡◌, ◌⊎◌,
}
use mathlib.Core.Bool.{true≢false}
use paddle_flow.Fs.Disk.{
  CacheItem, Disk, Os, no_dir, disk_clean, update_capacity, delete_expired, disk_delete, is_expired,
  remove_unknown,
}
use paddle_flow.Fs.Disk.Files.{files-delete_expired, update_capacity_keeps}

-- Whether one of the entries for a key has expired.
abbrev any_expired : ℕ → Text → List (Text × CacheItem) → Bool
any_expired now j [] = false
any_expired now j ((k, item) ∷ items) =
    (text_eq k j && is_expired now item) || any_expired now j items

-- An entry that has not expired.
abbrev pub unexpired : ℕ → Option CacheItem → Option CacheItem
unexpired now none = none
unexpired now (some item) = if is_expired now item then none else some item

keys-delete_expired :
    (now : ℕ) (items : List (Text × CacheItem)) (c : Disk) (j : Text)
    → lookup j (delete_expired now items c).keys
      ≡ (if any_expired now j items then none else lookup j c.keys)
unfolding delete_expired disk_delete
keys-delete_expired now [] c j = refl
keys-delete_expired now ((k, item) ∷ items) c j = elim (Bool-cases (is_expired now item)) [
  | inr e ↦ elim (Bool-cases (text_eq k j)) [
    | inl t ↦ rw (e, t, delete_expired) (keys-delete_expired now items c j)
    | inr t ↦ rw (e, t, delete_expired) (keys-delete_expired now items c j)
  ]
  | inl e ↦
      let ih = keys-delete_expired now items (disk_delete c k) j in
      let gone = lookup-delete k j c.keys in
      elim (Bool-cases (text_eq k j)) [
        | inl t ↦
            rw (e, t, delete_expired) (ih ∙ at_any (any_expired now j items) (gone ∙ rw t refl))
        | inr t ↦
            rw (e, t, delete_expired)
              (ih ∙ ap (λ o. if any_expired now j items then none else o) (gone ∙ rw t refl))
      ]
]
  where
    at_any :
        (b : Bool)
        → lookup j (delete k c.keys) ≡ none
        → (if b then none else lookup j (delete k c.keys)) ≡ none
    at_any true h = refl
    at_any false h = h

any_expired_not-In :
    (now : ℕ) (j : Text) (items : List (Text × CacheItem))
    → (In j (keys items) → ⊥)
    → any_expired now j items ≡ false
any_expired_not-In now j [] h = refl
any_expired_not-In now j ((k, item) ∷ items) h =
    let rest = any_expired_not-In now j items (λ m. h (inr m)) in
    elim (Bool-cases (text_eq k j)) [
      | inl t ↦ absurd (h (inl (text_eq→eq k j t)))
      | inr t ↦ rw t rest
    ]

-- Each key has one entry, as in a map.
any_expired-unexpired :
    (now : ℕ) (j : Text) (items : List (Text × CacheItem))
    → NoDup (keys items)
    → (if any_expired now j items then none else lookup j items) ≡ unexpired now (lookup j items)
unfolding lookup
any_expired-unexpired now j [] d = refl
any_expired-unexpired now j ((k, item) ∷ items) d = elim (Bool-cases (text_eq k j)) [
  | inr t ↦ rw t (any_expired-unexpired now j items d.1)
  | inl t ↦
      let others =
        any_expired_not-In now j items
          (λ m. d.0 (subst (λ x. In x (keys items)) (sym (text_eq→eq k j t)) m)) in
      elim (Bool-cases (is_expired now item)) [
        | inl e ↦ rw (t, e) refl
        | inr e ↦ rw (t, e, others) refl
      ]
]

files-remove_unknown :
    (paths : List Text) (c : Disk) (j : Text)
    → has j c.keys ≡ true
    → lookup j (remove_unknown paths c).files ≡ lookup j c.files
unfolding remove_unknown
files-remove_unknown [] c j h = refl
files-remove_unknown (k ∷ paths) c j h = elim (Bool-cases (has k c.keys)) [
  | inl e ↦ rw (e, remove_unknown) (files-remove_unknown paths c j h)
  | inr e ↦
      let c' : Disk = record c { files = delete k c.files } in
      let same = files-remove_unknown paths c' j h in
      let other : text_eq k j ≡ false = elim (Bool-cases (text_eq k j)) [
        | inl t ↦ absurd (true≢false (sym h ∙ sym (ap (λ x. has x c.keys) (text_eq→eq k j t)) ∙ e))
        | inr t ↦ t
      ] in
      rw (e, remove_unknown) (same ∙ lookup-delete k j c.files ∙ rw other refl)
]

keys-remove_unknown : (paths : List Text) (c : Disk) → (remove_unknown paths c).keys ≡ c.keys
unfolding remove_unknown
keys-remove_unknown [] c = refl
keys-remove_unknown (k ∷ paths) c = elim (Bool-cases (has k c.keys)) [
  | inl e ↦ rw (e, remove_unknown) (keys-remove_unknown paths c)
  | inr e ↦
      rw (e, remove_unknown) (keys-remove_unknown paths (record c { files = delete k c.files }))
]

keys-update_capacity : (c : Disk) (df : Option (ℕ × ℕ)) → (update_capacity c df).keys ≡ c.keys
keys-update_capacity c none = refl
keys-update_capacity c (some (total, used)) = refl

-- `clean` takes the entries that have expired out of the table of keys and no other, for each key,
-- and a key that is still there keeps its file, whatever the walk finds. The table has one entry
-- for a key.
pub disk_clean-unexpired :
    (c : Disk) (os : Os) (j : Text)
    → NoDup (keys c.keys)
    → (lookup j (disk_clean c os).keys ≡ unexpired os.now (lookup j c.keys))
      × ((lookup j (disk_clean c os).keys ≡ none)
          ⊎ (lookup j (disk_clean c os).files ≡ lookup j c.files))
unfolding disk_clean
disk_clean-unexpired c os j d = at_dir (no_dir c.dir)
  where
    fresh : Disk
    fresh = delete_expired os.now c.keys c

    walked : Disk
    walked = remove_unknown os.walked fresh

    fresh_keys : lookup j fresh.keys ≡ unexpired os.now (lookup j c.keys)
    fresh_keys = keys-delete_expired os.now c.keys c j ∙ any_expired-unexpired os.now j c.keys d

    fresh_files : lookup j fresh.files ≡ lookup j c.files
    fresh_files = ap (λ m. lookup j m) (files-delete_expired os.now c.keys c)

    all_keys : lookup j (update_capacity walked os.df).keys ≡ lookup j fresh.keys
    all_keys =
        ap (λ m. lookup j m)
          (keys-update_capacity walked os.df ∙ keys-remove_unknown os.walked fresh)

    all_files :
        has j fresh.keys ≡ true → lookup j (update_capacity walked os.df).files ≡ lookup j c.files
    all_files h =
        ap (λ m. lookup j m) (update_capacity_keeps walked os.df)
        ∙ files-remove_unknown os.walked fresh j h
        ∙ fresh_files

    none_of : (o : Option CacheItem) → (elim o [ none ↦ false | some _ ↦ true ]) ≡ false → o ≡ none
    none_of none h = refl
    none_of (some item) h = absurd (true≢false h)

    at_dir :
        (b : Bool)
        → (let after = if b then fresh else update_capacity walked os.df in
            (lookup j after.keys ≡ unexpired os.now (lookup j c.keys))
            × ((lookup j after.keys ≡ none) ⊎ (lookup j after.files ≡ lookup j c.files)))
    at_dir true = (fresh_keys, inr fresh_files)
    at_dir false = (
      all_keys ∙ fresh_keys,
      elim (Bool-cases (has j fresh.keys)) [
        | inl h ↦ inr (all_files h)
        | inr h ↦ inl (all_keys ∙ none_of (lookup j fresh.keys) h)
      ],
    )
