-- ===== src/Vfs/Invariant.antt =====
-- Every call of the file system (aeon-vm/src/vfs.rs) keeps the invariant, and none panics.
use aeon_flow.Base.{
  ℕ, ◌+◌, ◌-◌, ◌≤◌, ◌<◌, ◌≡◌, refl, subst, ◌∙◌, ◌⊎◌, inl, inr, Bool, true, false, none, some, [],
  arith, ◌==◌, Bool-cases, Option-cases, min, length, length-append, length-replicate,
  length-splice, length-slice, length-drop, take, drop, take-min, get_elem?, set, slice, splice,
  replicate, Bytes, bytes_eq, bytes_eq_iff, bytes_eq_refl, Table, lookup, insert, lookup-insert, ok,
  err,
}
use aeon_flow.Vfs.{
  OpenFile, VirtualFs, or_default, bad_fd, file_not_found, not_writable, fill_slot, file_open,
  set_cursor, file_read, grow, file_write, file_close,
}
use aeon_flow.Vfs.Slots.{
  IsValid, lookup-or_default, fill_slot_lem, IsTaken, fill_slot_free, fill_slot_lowest, Extends,
  Extends-refl, Extends-or_default, none_ne_some, IsValid_of, slot_cases, set_cursor-IsValid,
  open_cases, open_file_closed, file_read-ok, file_write-ok,
}

-- A slice that stops at the end
slice-take :
    (file : Bytes) (c n : ℕ) → slice file c (min (length file - c) n) ≡ take n (drop c file)
slice-take file c n =
    let e : min (length file - c) n ≡ min n (length (drop c file)) =
      omega (arith, length-drop c file) in
    rw e (take-min n (drop c file))

-- In a valid file system `read` fails at a descriptor that is not open. At an open one it gives the
-- bytes of the file from the cursor on, `count` of them or as many as are left, moves that cursor
-- behind them and changes nothing else, which keeps the file system valid. It does not panic.
pub file_read-IsValid :
    (fd count : ℕ) (fs : VirtualFs)
    → IsValid fs
    → ((¬ IsTaken fs.open_fds fd) × (file_read fd count fs ≡ err (bad_fd fd)))
      ⊎ ((f : OpenFile) × (file bytes : Bytes) × (fs' : VirtualFs) × (get_elem? fs.open_fds fd
            ≡ some (some f))
          × (lookup f.path fs.files ≡ some file)
          × (file_read fd count fs ≡ ok (bytes, fs'))
          × (bytes ≡ take count (drop f.cursor file))
          × (fs' ≡ set_cursor fd f (f.cursor + length bytes) fs)
          × IsValid fs')
file_read-IsValid fd count fs v = elim (open_cases fd fs) [
  | inr n ↦ inl (open_file_closed fd fs n, unfold file_read in rw n)
  | inl (f, o, o') ↦
      let (file, w, l) = v.open_within fd f o in
      let n = min (length file - f.cursor) count in
      let size = length-slice file f.cursor n (omega arith) in
      inr (
        f,
        file,
        slice file f.cursor n,
        set_cursor fd f (f.cursor + n) fs,
        o,
        w,
        file_read-ok fd count fs f file o' w l,
        slice-take file f.cursor count,
        rw size,
        set_cursor-IsValid fd f (f.cursor + n) fs fs.files v (Extends-refl fs.files) w
            (omega arith),
      )
]

pub length-grow : (file : Bytes) (end : ℕ) → end ≤ length (grow file end)
length-grow file end = omega (
  arith,
  length-append file (replicate (end - length file) 0),
  length-replicate {A = ℕ} (end - length file) 0,
)

length-grow_old : (file : Bytes) (end : ℕ) → length file ≤ length (grow file end)
length-grow_old file end = omega (arith, length-append file (replicate (end - length file) 0))

Extends-insert :
    (p : Bytes) (files : Table Bytes) (a b : Bytes)
    → lookup p files ≡ some a
    → length a ≤ length b
    → Extends files (insert p b files)
Extends-insert p files a b e l j c h = elim (Bool-cases (bytes_eq p j)) [
  | inl t ↦ (b, rw (lookup-insert p j b files, t), ground (arith, bytes_eq_iff p j, e, h, l))
  | inr t ↦ (c, rw (lookup-insert p j b files, t) h, omega arith)
]

-- In a valid file system `write` fails at a descriptor that is not open or not writable; else it
-- writes all the bytes and keeps the file system valid. It does not panic.
pub file_write-IsValid :
    (fd : ℕ) (bytes : Bytes) (fs : VirtualFs)
    → IsValid fs
    → (file_write fd bytes fs ≡ err (bad_fd fd))
      ⊎ (file_write fd bytes fs ≡ err (not_writable fd))
      ⊎ ((fs' : VirtualFs) × (file_write fd bytes fs ≡ ok (length bytes, fs')) × IsValid fs')
file_write-IsValid fd bytes fs v = elim (open_cases fd fs) [
  | inr n ↦ inl (unfold file_write in rw n)
  | inl (f, o, o') ↦
      let (file, w, l) = v.open_within fd f o in
      let end = f.cursor + length bytes in
      let new_file = splice (grow file end) f.cursor bytes in
      let size = length-splice (grow file end) f.cursor bytes in
      elim (Bool-cases f.writable) [
        | inr n ↦ inr (inl (file_write-ok fd bytes fs f file o' w ∙ rw n))
        | inl y ↦ inr (
            inr (
              set_cursor fd f end (record fs { files = insert f.path new_file fs.files }),
              file_write-ok fd bytes fs f file o' w ∙ rw y,
              set_cursor-IsValid fd f end fs (insert f.path new_file fs.files) {file = new_file} v
                  (Extends-insert f.path fs.files file new_file w
                    (omega (arith, length-grow_old file end)))
                  (rw (lookup-insert, bytes_eq_refl)) (omega (arith, length-grow file end)),
            ))
      ]
]

-- In a valid file system `close` fails at a descriptor that is not open; else it keeps the file
-- system valid.
pub file_close-IsValid :
    (fd : ℕ) (fs : VirtualFs)
    → IsValid fs
    → (file_close fd fs ≡ err (bad_fd fd))
      ⊎ ((fs' : VirtualFs) × (file_close fd fs ≡ ok fs') × IsValid fs')
unfolding file_close
file_close-IsValid fd fs v = elim (open_cases fd fs) [
  | inr n ↦ inl (rw n)
  | inl (f, o, o') ↦ inr (
    record fs { open_fds = set fs.open_fds fd none },
    rw o',
    IsValid_of fs fs.files (set fs.open_fds fd none) v (Extends-refl fs.files) λ i g h.
        elim (slot_cases fs.open_fds fd i none {g = g} h) [
          | inl q ↦ inl q
          | inr q ↦ absurd (none_ne_some q)
        ],
  )
]

pub or_default-has :
    (p : Bytes) (files : Table Bytes) → (file : Bytes) × (lookup p (or_default p files) ≡ some file)
or_default-has p files = elim (Option-cases (lookup p files)) [
  | inl n ↦ ([], ground (arith, lookup-or_default p p files, bytes_eq_refl p))
  | inr (file, e) ↦ (file, ground (arith, lookup-or_default p p files))
]

opened-IsValid :
    (fs : VirtualFs) (files : Table Bytes) (path : Bytes) (writable : Bool) {file : Bytes}
    → IsValid fs
    → Extends fs.files files
    → lookup path files ≡ some file
    → IsValid (record {
      files = files;
      open_fds =
          (fill_slot (record { path = path; cursor = 0; writable = writable }) fs.open_fds).1;
    })
opened-IsValid fs files path writable {file} v x e =
    let f : OpenFile = record { path = path; cursor = 0; writable = writable } in
    let slot = fill_slot f fs.open_fds in
    IsValid_of fs files slot.1 v x λ i g h. elim (Bool-cases (i == slot.0)) [
      | inl t ↦
          let p : f ≡ g = cc (fill_slot_lem f fs.open_fds i, h, t) in
          inr (
            subst (λ y. (b : Bytes) × (lookup y.path files ≡ some b) × (y.cursor ≤ length b)) p
              (file, e, omega arith))
      | inr t ↦ inl (cc (fill_slot_lem f fs.open_fds i, h, t))
    ]

-- In a valid file system `open` fails only to read a file that is not there; else it gives a
-- descriptor that was free and the lowest such, and keeps the file system valid.
pub file_open-IsValid :
    (path : Bytes) (writable : Bool) (fs : VirtualFs)
    → IsValid fs
    → ((writable ≡ false)
        × (lookup path fs.files ≡ none)
        × (file_open path writable fs ≡ err (file_not_found path)))
      ⊎ ((fd : ℕ) × (fs' : VirtualFs) × (file_open path writable fs ≡ ok (fd, fs'))
          × IsValid fs'
          × (¬ IsTaken fs.open_fds fd)
          × ((i : ℕ) → i < fd → IsTaken fs.open_fds i))
unfolding file_open
file_open-IsValid path true fs v =
    let files = or_default path fs.files in
    let (file, e) = or_default-has path fs.files in
    let slot = fill_slot (record { path = path; cursor = 0; writable = true }) fs.open_fds in
    inr (
      slot.0,
      record { files = files; open_fds = slot.1 },
      refl,
      opened-IsValid fs files path true v (Extends-or_default path fs.files) e,
      fill_slot_free _ fs.open_fds,
      fill_slot_lowest _ fs.open_fds,
    )
file_open-IsValid path false fs v = elim (Option-cases (lookup path fs.files)) [
  | inl n ↦ inl (refl, n, rw n)
  | inr (file, e) ↦
      let slot = fill_slot (record { path = path; cursor = 0; writable = false }) fs.open_fds in
      inr (
        slot.0,
        record { files = fs.files; open_fds = slot.1 },
        rw e,
        opened-IsValid fs fs.files path false v (Extends-refl fs.files) e,
        fill_slot_free _ fs.open_fds,
        fill_slot_lowest _ fs.open_fds,
      )
]
