-- ===== src/Tests/Memory.antt =====
-- Witnesses for the heap and the file system (aeon-vm/src/cowheap.rs, aeon-vm/src/vfs.rs).
use aeon_flow.Base.{
  ℕ, zero, suc, subst, lookup, insert, splice, replicate, bytes_eq, ◌+◌, ◌≤◌, ◌<◌, ◌≡◌, refl, ◌⊎◌,
  Bool, true, false, none, some, List, [], ◌∷◌, arith, length, slice, take, drop, get_elem?, Bytes,
  ok, err, ◌>>=◌,
}
use aeon_flow.Heap.{
  CowHeap, HeapPageDelta, new, check_range, read, write, to_vec, dirty_pages, apply_pages,
}
use aeon_flow.Heap.Flat
use aeon_flow.Heap.Flat.{flat}
use aeon_flow.Heap.Ops.{write-ok, read-refines, read-write}
use aeon_flow.Heap.Dirty.{new-IsValid, Tracks, Tracks-refl, write-Tracks}
use aeon_flow.Heap.Deltas.{apply_pages-dirty_pages}
use aeon_flow.Vfs.{
  OpenFile, VirtualFs, bad_fd, file_not_found, default, file_open, set_cursor, file_read,
  file_write,
}
use aeon_flow.Vfs.Slots.{IsValid, IsTaken, default-IsValid}
use aeon_flow.Vfs.Invariant.{file_open-IsValid, file_read-IsValid}
use aeon_flow.Vfs.Contents.{file_read-file_write}

abbrev two_bytes : Bytes
two_bytes = 7 ∷ 8 ∷ []

heap-IsValid : Flat.IsValid (new 10)
heap-IsValid = new-IsValid 10 (omega arith)

heap-Tracks : Tracks (new 10).pages (new 10)
unfolding new
heap-Tracks = Tracks-refl (new 10) refl

written_parts :
    (h : CowHeap) × (write (new 10) 3 two_bytes ≡ ok h) × Flat.IsValid h × (h.len ≡ (new 10).len)
unfolding new
written_parts =
    let (h, e, v, _, n) = write-ok (new 10) 3 two_bytes heap-IsValid (omega arith) in (h, e, v, n)

abbrev written : CowHeap
written = written_parts.0

read-refines_example :
    read (new 10) 3 4 ≡ (check_range (new 10) 3 4 >>= λ _. ok (slice (flat (new 10)) 3 4))
read-refines_example = read-refines (new 10) 3 4 heap-IsValid

read-write_example :
    (read written 3 2 ≡ ok two_bytes)
    × ((c n : ℕ) → (c + n ≤ 3) ⊎ (3 + 2 ≤ c) → read written c n ≡ read (new 10) c n)
read-write_example = read-write (new 10) 3 two_bytes heap-IsValid written_parts.1

written-Tracks : Tracks (new 10).pages written
written-Tracks = write-Tracks (new 10).pages (new 10) 3 two_bytes heap-Tracks written_parts.1

apply_pages-dirty_pages_example :
    (ds : List HeapPageDelta) × (r' : CowHeap) × (dirty_pages written ≡ ok ds)
    × (apply_pages (new 10) ds ≡ ok r')
    × (to_vec r' ≡ to_vec written)
apply_pages-dirty_pages_example =
    apply_pages-dirty_pages (new 10) written (new 10) heap-IsValid written_parts.2 heap-IsValid
      written-Tracks (omega (arith, written_parts.3)) refl refl

abbrev path : Bytes
path = 97 ∷ []

abbrev fs_open : ℕ → Bool → Bytes → VirtualFs
fs_open cursor writable file = record {
  files = (path, file) ∷ [];
  open_fds = some (record { path = path; cursor = cursor; writable = writable }) ∷ [];
}

abbrev fs_two : VirtualFs
fs_two = record {
  files = (path, two_bytes) ∷ [];
  open_fds =
      some (record { path = path; cursor = 2; writable = true })
      ∷ some (record { path = path; cursor = 0; writable = false })
      ∷ [];
}

open_first : file_open path true default ≡ ok (0, fs_open 0 true [])
unfolding file_open default lookup insert
open_first = refl

write_first : file_write 0 two_bytes (fs_open 0 true []) ≡ ok (2, fs_open 2 true two_bytes)
unfolding file_write lookup bytes_eq insert splice replicate
write_first = refl

open_second : file_open path false (fs_open 2 true two_bytes) ≡ ok (1, fs_two)
unfolding file_open lookup bytes_eq
open_second = refl

file_read-file_write_example :
    (2 ≡ length two_bytes) × ((fs₄ : VirtualFs) × (file_read 1 2 fs_two ≡ ok (two_bytes, fs₄)))
file_read-file_write_example =
    file_read-file_write path two_bytes default (fs_open 0 true []) (fs_open 2 true two_bytes)
      fs_two 0 2 1 open_first write_first open_second

abbrev first : OpenFile
first = record { path = path; cursor = 0; writable = true }

StandsIn : OpenFile → Type 0
StandsIn f =
    (file : Bytes) × (lookup f.path (fs_open 0 true two_bytes).files ≡ some file)
    × (f.cursor ≤ length file)

first-StandsIn : StandsIn first
unfolding lookup bytes_eq StandsIn
first-StandsIn = (two_bytes, refl, omega arith)

every_StandsIn :
    (fd : ℕ) (f : OpenFile)
    → get_elem? (fs_open 0 true two_bytes).open_fds fd ≡ some (some f)
    → StandsIn f
every_StandsIn zero f e = let same : first ≡ f = cc e in subst StandsIn same first-StandsIn
every_StandsIn (suc fd) f e = absurd (cc e)

first-IsValid : IsValid (fs_open 0 true two_bytes)
unfolding StandsIn
first-IsValid = record { open_within = every_StandsIn }

file_read-IsValid_example :
    ((¬ IsTaken (fs_open 0 true two_bytes).open_fds 0)
      × (file_read 0 5 (fs_open 0 true two_bytes) ≡ err (bad_fd 0)))
    ⊎ ((f : OpenFile) × (file bytes : Bytes) × (fs' : VirtualFs) × (get_elem?
            (fs_open 0 true two_bytes).open_fds
            0
          ≡ some (some f))
        × (lookup f.path (fs_open 0 true two_bytes).files ≡ some file)
        × (file_read 0 5 (fs_open 0 true two_bytes) ≡ ok (bytes, fs'))
        × (bytes ≡ take 5 (drop f.cursor file))
        × (fs' ≡ set_cursor 0 f (f.cursor + length bytes) (fs_open 0 true two_bytes))
        × IsValid fs')
file_read-IsValid_example = file_read-IsValid 0 5 (fs_open 0 true two_bytes) first-IsValid

file_open-IsValid_example :
    ((false ≡ false)
      × (lookup path default.files ≡ none)
      × (file_open path false default ≡ err (file_not_found path)))
    ⊎ ((fd : ℕ) × (fs' : VirtualFs) × (file_open path false default ≡ ok (fd, fs'))
        × IsValid fs'
        × (¬ IsTaken default.open_fds fd)
        × ((i : ℕ) → i < fd → IsTaken default.open_fds i))
file_open-IsValid_example = file_open-IsValid path false default default-IsValid
