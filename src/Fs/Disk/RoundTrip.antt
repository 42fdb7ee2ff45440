-- ===== src/Fs/Disk/RoundTrip.antt =====
-- pkg/fs/client/cache/disk.go: what was saved is loaded.
use paddle_flow.Prelude.{
  Text, [], ap, arith, false, insert, leb, length, lookup, lookup-insert, refl, some, text_eq,
  text_eq_refl, true, ◌+◌, ◌<◌, ◌∙◌, ◌≡◌,
}
use paddle_flow.Fs.Disk.{Bytes, CacheItem, Disk, Os, disk_exist, disk_load, disk_save, is_full}

saved : Disk → Text → Bytes → Os → Disk
saved c key buf os = record c {
  files = insert key buf c.files;
  keys = insert key (record { size = length buf; exp_time = os.now + c.expire }) c.keys;
}

disk_save-saved :
    (c : Disk) (key : Text) (buf : Bytes) (os : Os)
    → text_eq c.dir [] ≡ false
    → is_full c (length buf) ≡ false
    → os.writes ≡ true
    → disk_save c key buf os ≡ saved c key buf os
unfolding disk_save saved
disk_save-saved c key buf os named room writes = rw (room, named, room, writes, disk_save) refl

-- A block that was saved when there was room for it, in a file that could be written and can be
-- opened, is loaded as it was until it expires.
pub disk_load-disk_save :
    (c : Disk) (key : Text) (buf : Bytes) (os later : Os)
    → text_eq c.dir [] ≡ false
    → is_full c (length buf) ≡ false
    → os.writes ≡ true
    → later.opens ≡ true
    → later.now < os.now + c.expire
    → disk_load (disk_save c key buf os) key later ≡ some buf
unfolding disk_load disk_exist saved
disk_load-disk_save c key buf os later named room writes opens early =
    let item : CacheItem = record { size = length buf; exp_time = os.now + c.expire } in
    let there : lookup key (insert key item c.keys) ≡ some item =
      lookup-insert key key item c.keys ∙ rw (text_eq_refl key) refl in
    let held : lookup key (insert key buf c.files) ≡ some buf =
      lookup-insert key key buf c.files ∙ rw (text_eq_refl key) refl in
    let fresh : leb (os.now + c.expire) later.now ≡ false = ground (arith, early) in
    ap (λ d. disk_load d key later) (disk_save-saved c key buf os named room writes)
    ∙ rw (named, there, fresh, opens, disk_load, disk_exist) held
