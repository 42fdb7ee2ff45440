-- ===== src/Fs/Handle.antt =====
-- pkg/fs/client/vfs/handle.go: the table of open handles.
pub mod Removal
pub mod Refinement
pub mod Runs
use paddle_flow.Prelude.{
  Bool, List, Option, Text, [], false, if◌then◌else◌, none, some, true, ℕ, ◌%◌, ◌++◌, ◌+◌, ◌==◌,
  ◌^◌, ◌∷◌,
}

-- `handle`; the reader and the writer are there or nil.
pub record Handle : Type 0 where
  pub fh : ℕ
  pub inode : ℕ
  pub reader : Bool
  pub writer : Bool

-- The two fields of `VFS` behind `handleLock`. A map without a key gives the nil slice, so the map
-- is a function to lists, and deleting a key makes its list empty.
pub record Table : Type 0 where
  pub next_fh : ℕ
  pub handle_map : ℕ → List Handle

abbrev pub at_inode : (ℕ → List Handle) → ℕ → List Handle → ℕ → List Handle
at_inode m inode handles i = if i == inode then handles else m i

-- `v.nextfh++` on a uint64.
abbrev pub next_of : ℕ → ℕ
next_of fh = (fh + 1) % 2 ^ 64

-- `newHandle`, with the reader and the writer that `newFileHandle` puts into the handle.
unfoldable pub new_handle : Table → ℕ → Bool → Bool → Handle × Table
new_handle v inode reader writer =
    let h : Handle = record { fh = v.next_fh; inode = inode; reader = reader; writer = writer } in
    (
      h,
      record {
        next_fh = next_of v.next_fh;
        handle_map = at_inode v.handle_map inode (v.handle_map inode ++ h ∷ []);
      },
    )

unfoldable pub find_in : List Handle → ℕ → Option Handle
find_in [] fh = none
find_in (f ∷ handles) fh = let rest = find_in handles fh in if f.fh == fh then some f else rest

unfoldable pub find_handle : Table → ℕ → ℕ → Option Handle
unfolding find_in
find_handle v inode fh = find_in (v.handle_map inode) fh

abbrev pub last_of : Handle → List Handle → Handle
last_of h [] = h
last_of h (k ∷ ks) = last_of k ks

abbrev pub all_but_last : Handle → List Handle → List Handle
all_but_last h [] = []
all_but_last h (k ∷ ks) = h ∷ all_but_last k ks

-- What the loop of `releaseHandle` makes of the list at the handle that it looks for: the last one
-- takes its place if others follow, and the list is cut by one.
abbrev pub cut_at : List Handle → List Handle
cut_at [] = []
cut_at (k ∷ ks) = last_of k ks ∷ all_but_last k ks

unfoldable pub release_in : List Handle → ℕ → List Handle
release_in [] fh = []
release_in (f ∷ handles) fh =
    let rest = release_in handles fh in if f.fh == fh then cut_at handles else f ∷ rest

unfoldable pub release_handle : Table → ℕ → ℕ → Table
unfolding release_in
release_handle v inode fh = record v {
  handle_map = at_inode v.handle_map inode (release_in (v.handle_map inode) fh);
}

-- `releaseFileHandle`: the handle is closed, which the table does not show, and released.
unfoldable pub release_file_handle : Table → ℕ → ℕ → Table
unfolding find_handle release_handle
release_file_handle v inode fh = elim (find_handle v inode fh) [
  | none ↦ v
  | some h ↦ release_handle v inode fh
]

-- How a reader or a writer opens: it is there, or an error.
pub data Opened : Type 0 where
  opened : Opened
  open_failed : Text → Opened

abbrev is_opened : Opened → Bool
is_opened opened = true
is_opened (open_failed err) = false

abbrev error_of : Opened → Option Text
error_of opened = none
error_of (open_failed err) = some err

-- `newFileHandle`; the access mode is `flags & 3`: read, write, or both, where the error of the
-- writer replaces that of the reader.
unfoldable pub new_file_handle : Table → ℕ → ℕ → Opened → Opened → (ℕ × Option Text) × Table
unfolding new_handle
new_file_handle v inode flags reader writer =
    let mode = flags % 4 in
    if mode == 0
    then (let (h, w) = new_handle v inode (is_opened reader) false in ((h.fh, error_of reader), w))
    else if mode == 1
    then (let (h, w) = new_handle v inode false (is_opened writer) in ((h.fh, error_of writer), w))
    else if mode == 2
    then (let (h, w) = new_handle v inode (is_opened reader) (is_opened writer) in
        ((h.fh, error_of writer), w))
    else (let (h, w) = new_handle v inode false false in ((h.fh, none), w))
