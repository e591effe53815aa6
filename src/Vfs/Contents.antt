-- ===== src/Vfs/Contents.antt =====
-- What programs find in the files that they wrote (aeon-vm/src/vfs.rs).
use aeon_flow.Base.{
  ℕ, ◌+◌, ◌-◌, ◌≡◌, sym, ap, ◌∙◌, inl, inr, Bool, true, false, some, arith, ==_refl, Option-cases,
  min, length, length-splice, slice, splice, slice-splice, Bytes, bytes_eq_refl, lookup, insert,
  lookup-insert, ok,
}
use aeon_flow.Vfs.{
  OpenFile, VirtualFs, file_open, open_file, set_cursor, file_read, grow, file_write,
}
use aeon_flow.Vfs.Slots.{fill_slot_lem, file_read-ok, file_write-ok}
use aeon_flow.Vfs.Invariant.{or_default-has, length-grow}

abbrev pub fresh : Bytes → Bool → OpenFile
fresh path writable = record { path = path; cursor = 0; writable = writable }

-- What a successful `open` leaves: the file is there, and the descriptor stands at its start.
pub opened :
    (path : Bytes) (writable : Bool) (fs : VirtualFs) (fd : ℕ) (fs' : VirtualFs)
    → file_open path writable fs ≡ ok (fd, fs')
    → (file : Bytes) × (lookup path fs'.files ≡ some file)
      × (open_file fd fs' ≡ ok (fresh path writable))
unfolding file_open open_file
opened path true fs fd fs' e =
    let (file, has) = or_default-has path fs.files in
    (
      file,
      ground (arith, has),
      ground (arith, fill_slot_lem (fresh path true) fs.open_fds fd, ==_refl fd),
    )
opened path false fs fd fs' e = elim (Option-cases (lookup path fs.files)) [
  | inl n ↦ absurd (cc (n, rw n at e))
  | inr (file, has) ↦ (
    file,
    ground (arith, has),
    ground (arith, has, fill_slot_lem (fresh path false) fs.open_fds fd, ==_refl fd),
  )
]

pub reopened_files :
    (path : Bytes) (fs : VirtualFs) (fd : ℕ) (fs' : VirtualFs)
    → file_open path false fs ≡ ok (fd, fs')
    → fs'.files ≡ fs.files
unfolding file_open
reopened_files path fs fd fs' e = ground arith

-- What one descriptor writes at the start of a file, another that is opened later reads back.
pub file_read-file_write :
    (path bytes : Bytes) (fs fs₁ fs₂ fs₃ : VirtualFs) (fd n fd' : ℕ)
    → file_open path true fs ≡ ok (fd, fs₁)
    → file_write fd bytes fs₁ ≡ ok (n, fs₂)
    → file_open path false fs₂ ≡ ok (fd', fs₃)
    → (n ≡ length bytes)
      × ((fs₄ : VirtualFs) × (file_read fd' (length bytes) fs₃ ≡ ok (bytes, fs₄)))
file_read-file_write path bytes fs fs₁ fs₂ fs₃ fd n fd' o w r =
    let (file, has, at) = opened path true fs fd fs₁ o in
    let (_, _, at') = opened path false fs₂ fd' fs₃ r in
    let size = length bytes in
    let new_file = splice (grow file (0 + size)) 0 bytes in
    let wrote = sym w ∙ file_write-ok fd bytes fs₁ (fresh path true) file at has in
    let files : fs₃.files ≡ insert path new_file fs₁.files =
      reopened_files path fs₂ fd' fs₃ r ∙ (cc wrote) in
    let fits = length-grow file (0 + size) in
    let has' : lookup path fs₃.files ≡ some new_file =
      ap (lookup path) files ∙ (rw (lookup-insert, bytes_eq_refl)) in
    let long = length-splice (grow file (0 + size)) 0 bytes in
    let m : min (length new_file - 0) size ≡ size = omega arith in
    let whole : slice new_file 0 (min (length new_file - 0) size) ≡ bytes =
      rw m (slice-splice (grow file (0 + size)) 0 bytes (omega arith)) in
    (
      cc wrote,
      (
        set_cursor fd' (fresh path false) (0 + min (length new_file - 0) size) fs₃,
        file_read-ok fd' size fs₃ (fresh path false) new_file at' has' (omega arith)
            ∙ ap
                (λ x.
                  ok
                    (x, set_cursor fd' (fresh path false) (0 + min (length new_file - 0) size) fs₃))
                whole,
      ),
    )
