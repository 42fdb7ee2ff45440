-- ===== src/Fs/Handle/Runs.antt =====
-- The table of handles stays valid (pkg/fs/client/vfs/handle.go).
use paddle_flow.Prelude.{
  Bool, List, Option, [], arith, length, none, refl, some, ℕ, ◌+◌, ◌<◌, ◌^◌, ◌∷◌, ◌≡◌,
}
use paddle_flow.Fs.Handle.{
  Handle, Table, find_handle, new_handle, release_file_handle, release_handle,
}
use paddle_flow.Fs.Handle.Refinement.{IsValid, new_handle-IsValid, release_handle-IsValid}

-- What users of the table do.
pub data Operation : Type 0 where
  open_handle : (inode : ℕ) (reader writer : Bool) → Operation
  release : (inode fh : ℕ) → Operation

abbrev pub run_one : Table → Operation → Table
run_one v (open_handle inode reader writer) = (new_handle v inode reader writer).1
run_one v (release inode fh) = release_file_handle v inode fh

abbrev pub run : Table → List Operation → Table
run v [] = v
run v (o ∷ os) = run (run_one v o) os

release_file_handle-IsValid :
    (v : Table) (inode fh : ℕ)
    → IsValid v
    → IsValid (release_file_handle v inode fh)
      × ((release_file_handle v inode fh).next_fh ≡ v.next_fh)
unfolding release_file_handle release_handle
release_file_handle-IsValid v inode fh valid = at_found (find_handle v inode fh)
  where
    at_found :
        (o : Option Handle)
        → IsValid (elim o as (λ x. Table) [ none ↦ v | some h ↦ release_handle v inode fh ])
          × ((elim o as (λ x. Table) [ none ↦ v | some h ↦ release_handle v inode fh ]).next_fh
              ≡ v.next_fh)
    at_found none = (valid, refl)
    at_found (some h) = (release_handle-IsValid v valid inode fh, refl)

new_handle-next_fh :
    (v : Table) (inode : ℕ) (reader writer : Bool)
    → v.next_fh + 1 < 2 ^ 64
    → (new_handle v inode reader writer).1.next_fh ≡ v.next_fh + 1
unfolding new_handle
new_handle-next_fh v inode reader writer room = omega (arith, room)

-- A table on which operations are run stays valid, while fewer than 2 ^ 64 numbers are given out.
pub run-IsValid :
    (v : Table) (os : List Operation)
    → IsValid v
    → v.next_fh + length os < 2 ^ 64
    → IsValid (run v os)
run-IsValid v [] valid room = valid
run-IsValid v (open_handle inode reader writer ∷ os) valid room =
    let less : v.next_fh + 1 < 2 ^ 64 = omega (arith, room) in
    run-IsValid (new_handle v inode reader writer).1 os
      (new_handle-IsValid v valid inode reader writer less)
      (omega (arith, room, new_handle-next_fh v inode reader writer less))
run-IsValid v (release inode fh ∷ os) valid room =
    let (still, same) = release_file_handle-IsValid v inode fh valid in
    run-IsValid (release_file_handle v inode fh) os still (omega (arith, room, same))
