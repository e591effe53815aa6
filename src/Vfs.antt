-- ===== src/Vfs.antt =====
-- The virtual file system of the machine (aeon-vm/src/vfs.rs). A failing call leaves it unchanged,
-- so the new state stands beside a result only. A `Vec` holds fewer than 2 ^ 63 bytes, so that the
-- sum of a cursor and a length does not wrap.
pub mod Slots
pub mod Invariant
pub mod Contents
use aeon_flow.Base.{
  ℕ, zero, suc, ◌+◌, ◌-◌, min, Bool, true, false, Option, none, some, List, [], ◌∷◌, ◌++◌, ltb, leb,
  if◌then◌else◌, length, get_elem?, set, slice, splice, replicate, Bytes, Table, lookup, insert,
  Outcome, ok, err, panic, ◌>>=◌, ◌>>◌, ok_or, guard,
}

pub record OpenFile : Type 0 where
  pub path : Bytes
  pub cursor : ℕ
  pub writable : Bool

pub record VirtualFs : Type 0 where
  pub files : Table Bytes
  pub open_fds : List (Option OpenFile)

pub data FsError : Type 0 where
  file_not_found : Bytes → FsError
  bad_fd : ℕ → FsError
  not_writable : ℕ → FsError

-- `VirtualFS::default`
abbrev pub default : VirtualFs
default = record { files = []; open_fds = [] }

-- `entry(path).or_default()`
unfoldable pub or_default : Bytes → Table Bytes → Table Bytes
or_default path files = elim (lookup path files) [ none ↦ insert path [] files | some _ ↦ files ]

-- The search of `open` for a free slot, which is filled, or else the push: the descriptors after it,
-- and the one that was given.
unfoldable pub fill_slot : OpenFile → List (Option OpenFile) → ℕ × List (Option OpenFile)
fill_slot f [] = (0, some f ∷ [])
fill_slot f (none ∷ fds) = (0, some f ∷ fds)
fill_slot f (some g ∷ fds) = let (fd, fds') = fill_slot f fds in (suc fd, some g ∷ fds')

unfoldable pub file_open : Bytes → Bool → VirtualFs → Outcome FsError (ℕ × VirtualFs)
unfolding or_default fill_slot
file_open path writable fs = do
  files ← elim writable [
    | true ↦ ok (or_default path fs.files)
    | false ↦ elim (lookup path fs.files) [
      | none ↦ err (file_not_found path)
      | some _ ↦ ok fs.files
    ]
  ]
  let slot = fill_slot (record { path = path; cursor = 0; writable = writable }) fs.open_fds
  ok (slot.0, record { files = files; open_fds = slot.1 })

abbrev flatten_slot : Option (Option OpenFile) → Option OpenFile
flatten_slot none = none
flatten_slot (some o) = o

-- `open_file_mut`
unfoldable pub open_file : ℕ → VirtualFs → Outcome FsError OpenFile
open_file fd fs = ok_or (flatten_slot (get_elem? fs.open_fds fd)) (bad_fd fd)

-- `self.open_file_mut(fd)?.cursor = c`, for the file that stands there
abbrev pub set_cursor : ℕ → OpenFile → ℕ → VirtualFs → VirtualFs
set_cursor fd f c fs = record fs { open_fds = set fs.open_fds fd (some (record f { cursor = c })) }

-- `read` into a buffer of `count` bytes: the bytes read, as many as the result says.
unfoldable pub file_read : ℕ → ℕ → VirtualFs → Outcome FsError (Bytes × VirtualFs)
unfolding open_file
file_read fd count fs = do
  f ← open_file fd fs
  file ← ok_or (lookup f.path fs.files) (file_not_found f.path)
  let len = min (length file - f.cursor) count
  if leb (f.cursor + len) (length file)
      then ok (slice file f.cursor len, set_cursor fd f (f.cursor + len) fs)
      else panic

-- `resize(end, 0)` where the file is shorter
abbrev pub grow : Bytes → ℕ → Bytes
grow file end = file ++ replicate (end - length file) 0

unfoldable pub file_write : ℕ → Bytes → VirtualFs → Outcome FsError (ℕ × VirtualFs)
unfolding open_file or_default
file_write fd bytes fs = do
  f ← open_file fd fs
  guard f.writable (not_writable fd)
  let files = or_default f.path fs.files
  file ← ok_or (lookup f.path files) (file_not_found f.path)
  let end = f.cursor + length bytes
  ok (
    length bytes,
    set_cursor fd f end
        (record fs { files = insert f.path (splice (grow file end) f.cursor bytes) files }),
  )

unfoldable pub file_close : ℕ → VirtualFs → Outcome FsError VirtualFs
unfolding open_file
file_close fd fs = do _ ← open_file fd fs; ok (record fs { open_fds = set fs.open_fds fd none })
