-- ===== src/Fs/DiskExamples.antt =====
-- A block on disk, and two of which one is old (pkg/fs/client/cache/disk.go).
use paddle_flow.Prelude.{
  In, [], arith, codes, eq→text_eq, false, inl, inr, lookup, none, refl, some, sym, text_eq, ◌∙◌,
  ◌∷◌, ◌≡◌, ◌⊎◌,
}
use mathlib.Core.Bool.{true≢false}
use paddle_flow.Fs.Disk.{Os, Disk, disk_clean, disk_load, disk_save}
use paddle_flow.Fs.Disk.Cleaning.{disk_clean-unexpired, unexpired}
use paddle_flow.Fs.Disk.RoundTrip.{disk_load-disk_save}
use paddle_flow.Fs.CacheExamples.{idle, six}

abbrev small_disk : Disk
small_disk = record {
  dir = codes "c";
  capacity = 100;
  used = 0;
  expire = 10;
  keys = [];
  files = [];
  removals = [];
}

named_dir : text_eq (codes "c") [] ≡ false
unfolding text_eq
named_dir = refl

disk_load-disk_save_example :
    disk_load (disk_save small_disk (codes "k") six idle) (codes "k") idle ≡ some six
disk_load-disk_save_example =
    disk_load-disk_save small_disk (codes "k") six idle idle named_dir refl refl refl (omega arith)

abbrev old_disk : Disk
old_disk = record small_disk {
  keys =
      (codes "a", record { size = 6; exp_time = 1 })
      ∷ (codes "b", record { size = 6; exp_time = 9 })
      ∷ [];
  files = (codes "a", six) ∷ (codes "b", six) ∷ (codes "x", six) ∷ [];
}

abbrev later : Os
later = record idle { now = 5; walked = codes "a" ∷ codes "b" ∷ codes "x" ∷ [] }

a_is_not_b : text_eq (codes "a") (codes "b") ≡ false
unfolding text_eq
a_is_not_b = refl

disk_clean-unexpired_example :
    (lookup (codes "b") (disk_clean old_disk later).keys
      ≡ unexpired 5 (lookup (codes "b") old_disk.keys))
    × ((lookup (codes "b") (disk_clean old_disk later).keys ≡ none)
        ⊎ (lookup (codes "b") (disk_clean old_disk later).files
            ≡ lookup (codes "b") old_disk.files))
disk_clean-unexpired_example = disk_clean-unexpired old_disk later (codes "b") (once, (λ h. h, tt))
  where
    once : In (codes "a") (codes "b" ∷ []) → ⊥
    once (inl e) = true≢false (sym (eq→text_eq (codes "a") (codes "b") (sym e)) ∙ a_is_not_b)
    once (inr h) = h
