-- ===== src/Vfs/Slots.antt =====
-- Open files and free descriptors (aeon-vm/src/vfs.rs): the invariant, and what each call does where
-- its descriptor is open.
use aeon_flow.Base.{
  ℕ, zero, suc, ◌+◌, ◌-◌, ◌≤◌, ◌<◌, ◌≡◌, ◌≢◌, refl, subst, ap, ◌∙◌, ◌⊎◌, inl, inr, Option, none,
  some, List, [], ◌∷◌, arith, ◌==◌, le→leb, Bool-cases, Option-cases, if◌then◌else◌, min, length,
  get_elem?, set, slice, splice, Bytes, bytes_eq, bytes_eq_iff, Table, lookup, insert,
  lookup-insert, ok, err,
}
use aeon_flow.Vfs.{
  OpenFile, VirtualFs, or_default, bad_fd, not_writable, fill_slot, open_file, set_cursor,
  file_read, grow, file_write, default,
}

-- A descriptor that is open names a file that exists, and stands within it.
pub record IsValid (fs : VirtualFs) : Type 0 where
  pub open_within :
      (fd : ℕ) (f : OpenFile)
      → get_elem? fs.open_fds fd ≡ some (some f)
      → (file : Bytes) × (lookup f.path fs.files ≡ some file) × (f.cursor ≤ length file)

pub default-IsValid : IsValid default
default-IsValid = record { open_within = λ fd f e. absurd (cc e) }

pub lookup-or_default :
    (p j : Bytes) (files : Table Bytes)
    → lookup j (or_default p files) ≡ elim (lookup j files) [
      | some file ↦ some file
      | none ↦ if bytes_eq p j then some [] else none
    ]
unfolding or_default
lookup-or_default p j files = ground (arith, lookup-insert p j [] files, bytes_eq_iff p j)

-- The slot that `open` fills was free, all slots below it are taken, and no other slot changes.
pub fill_slot_lem :
    (f : OpenFile) (fds : List (Option OpenFile)) (i : ℕ)
    → get_elem? (fill_slot f fds).1 i
      ≡ (if i == (fill_slot f fds).0 then some (some f) else get_elem? fds i)
unfolding fill_slot
fill_slot_lem f [] zero = refl
fill_slot_lem f [] (suc i) = ground arith
fill_slot_lem f (none ∷ fds) zero = refl
fill_slot_lem f (none ∷ fds) (suc i) = ground arith
fill_slot_lem f (some g ∷ fds) zero = ground arith
fill_slot_lem f (some g ∷ fds) (suc i) = ground (arith, fill_slot_lem f fds i)

abbrev pub IsTaken : List (Option OpenFile) → ℕ → Type 0
IsTaken fds i = (f : OpenFile) × (get_elem? fds i ≡ some (some f))

pub fill_slot_free :
    (f : OpenFile) (fds : List (Option OpenFile)) → ¬ IsTaken fds (fill_slot f fds).0
unfolding fill_slot
fill_slot_free f [] t = cc t.1
fill_slot_free f (none ∷ fds) t = cc t.1
fill_slot_free f (some g ∷ fds) t = fill_slot_free f fds t

pub fill_slot_lowest :
    (f : OpenFile) (fds : List (Option OpenFile)) (i : ℕ) → i < (fill_slot f fds).0 → IsTaken fds i
unfolding fill_slot
fill_slot_lowest f [] i l = absurd (omega arith)
fill_slot_lowest f (none ∷ fds) i l = absurd (omega arith)
fill_slot_lowest f (some g ∷ fds) zero l = (g, refl)
fill_slot_lowest f (some g ∷ fds) (suc i) l = fill_slot_lowest f fds i (omega arith)

pub open_file-inv :
    (fd : ℕ) (fs : VirtualFs) {f : OpenFile}
    → open_file fd fs ≡ ok f
    → get_elem? fs.open_fds fd ≡ some (some f)
unfolding open_file
open_file-inv fd fs e = ground arith

-- Every file is still there, and none is shorter.
abbrev pub Extends : Table Bytes → Table Bytes → Type 0
Extends files files' =
    (j : Bytes) (a : Bytes)
    → lookup j files ≡ some a
    → (b : Bytes) × (lookup j files' ≡ some b) × (length a ≤ length b)

pub Extends-refl : (files : Table Bytes) → Extends files files
Extends-refl files j a e = (a, e, omega arith)

pub Extends-or_default : (p : Bytes) (files : Table Bytes) → Extends files (or_default p files)
Extends-or_default p files j a e = (a, ground (arith, lookup-or_default p j files), omega arith)

pub none_ne_some : {g : OpenFile} → none ≢ some g
none_ne_some e = cc e

-- Files that only grow, and descriptors that are old or within their file.
pub IsValid_of :
    (fs : VirtualFs) (files : Table Bytes) (fds : List (Option OpenFile))
    → IsValid fs
    → Extends fs.files files
    → ((i : ℕ) (g : OpenFile)
        → get_elem? fds i ≡ some (some g)
        → (get_elem? fs.open_fds i ≡ some (some g))
          ⊎ ((file : Bytes) × (lookup g.path files ≡ some file) × (g.cursor ≤ length file)))
    → IsValid (record { files = files; open_fds = fds })
IsValid_of fs files fds v x c = record {
  open_within = λ i g h. elim (c i g h) [
    | inl o ↦
        let (a, e, l) = v.open_within i g o in let (b, e', m) = x g.path a e in (b, e', omega arith)
    | inr r ↦ r
  ];
}

-- After a write to one slot the others are as they were.
pub slot_cases :
    (fds : List (Option OpenFile)) (fd i : ℕ) (v : Option OpenFile) {g : OpenFile}
    → get_elem? (set fds fd v) i ≡ some (some g)
    → (get_elem? fds i ≡ some (some g)) ⊎ (v ≡ some g)
slot_cases [] fd i v e = absurd (cc e)
slot_cases (x ∷ fds) zero zero v e = inr (cc e)
slot_cases (x ∷ fds) zero (suc i) v e = inl e
slot_cases (x ∷ fds) (suc fd) zero v e = inl e
slot_cases (x ∷ fds) (suc fd) (suc i) v e = slot_cases fds fd i v e

-- One cursor moved within its file, over files that only grew.
pub set_cursor-IsValid :
    (fd : ℕ) (f : OpenFile) (c : ℕ) (fs : VirtualFs) (files : Table Bytes) {file : Bytes}
    → IsValid fs
    → Extends fs.files files
    → lookup f.path files ≡ some file
    → c ≤ length file
    → IsValid (set_cursor fd f c (record fs { files = files }))
set_cursor-IsValid fd f c fs files {file} v x e l =
    let f' : OpenFile = record f { cursor = c } in
    IsValid_of fs files (set fs.open_fds fd (some f')) v x λ i g h.
      elim (slot_cases fs.open_fds fd i (some f') {g = g} h) [
        | inl o ↦ inl o
        | inr q ↦
            let p : f' ≡ g = cc q in
            inr (
              subst (λ y. (b : Bytes) × (lookup y.path files ≡ some b) × (y.cursor ≤ length b)) p
                (file, e, l))
      ]

pub open_cases :
    (fd : ℕ) (fs : VirtualFs)
    → ((f : OpenFile) × (get_elem? fs.open_fds fd ≡ some (some f)) × (open_file fd fs ≡ ok f))
      ⊎ (open_file fd fs ≡ err (bad_fd fd))
unfolding open_file
open_cases fd fs = elim (Option-cases (get_elem? fs.open_fds fd)) [
  | inl n ↦ inr (rw n)
  | inr (o, e) ↦ elim (Option-cases o) [
    | inl n ↦ inr (rw (e, n))
    | inr (f, q) ↦ inl (f, e ∙ ap some q, rw (e, q))
  ]
]

pub open_file_closed :
    (fd : ℕ) (fs : VirtualFs) → open_file fd fs ≡ err (bad_fd fd) → ¬ IsTaken fs.open_fds fd
unfolding open_file
open_file_closed fd fs n (f, e) = absurd (cc (rw e at n))

-- What `read` does at an open descriptor of a valid file system.
pub file_read-ok :
    (fd count : ℕ) (fs : VirtualFs) (f : OpenFile) (file : Bytes)
    → open_file fd fs ≡ ok f
    → lookup f.path fs.files ≡ some file
    → f.cursor ≤ length file
    → file_read fd count fs
      ≡ ok (
        slice file f.cursor (min (length file - f.cursor) count),
        set_cursor fd f (f.cursor + min (length file - f.cursor) count) fs,
      )
unfolding file_read
file_read-ok fd count fs f file o e l =
    rw (o, e, le→leb (f.cursor + min (length file - f.cursor) count) (length file) (omega arith))

pub or_default_self :
    (p : Bytes) (files : Table Bytes) {a : Bytes}
    → lookup p files ≡ some a
    → or_default p files ≡ files
unfolding or_default
or_default_self p files e = rw (e, or_default)

-- What `write` does there.
pub file_write-ok :
    (fd : ℕ) (bytes : Bytes) (fs : VirtualFs) (f : OpenFile) (file : Bytes)
    → open_file fd fs ≡ ok f
    → lookup f.path fs.files ≡ some file
    → file_write fd bytes fs ≡ (
        if f.writable
        then ok (
          length bytes,
          set_cursor fd f (f.cursor + length bytes) (record fs {
            files =
                insert f.path
                  (splice (grow file (f.cursor + length bytes)) f.cursor bytes)
                  fs.files;
          }),
        )
        else err (not_writable fd))
unfolding file_write
file_write-ok fd bytes fs f file o e = elim (Bool-cases f.writable) [
  | inl w ↦ rw (o, w, or_default_self f.path fs.files e) (rw e)
  | inr w ↦ rw (o, w)
]
