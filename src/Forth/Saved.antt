-- ===== src/Forth/Saved.antt =====
-- What the Forth front end finds in the files that it saved (aeon-vm/src/forth.rs).
use aeon_flow.Base.{
  ℕ, zero, suc, ◌+◌, ◌-◌, ◌%◌, ◌^◌, ◌<◌, ◌≤◌, ◌≡◌, ◌≢◌, ◌↔◌, refl, sym, ap, ◌∙◌, subst, min, inl,
  inr, Bool, true, false, Bool-cases, Option-cases, Option, none, some, [], ◌∷◌, ◌++◌, append_assoc,
  append-nil, append_inj, arith, ltb, leb, ◌==◌, if◌then◌else◌, length, length-append,
  get_elem?-set_self, lt_of_get_elem?, set, drop, slice, length-slice, slice-splice, slice_split,
  drop_split, drop_all, length-splice, splice, Bytes, Table, bytes_eq_refl, bytes_eq_of_ne,
  le_bytes, le_value, le_value-le_bytes, le_space, AreBytes, take, length-le_bytes, lookup, insert,
  lookup-insert, Text, to_utf8, ok, err, panic, ok_or,
}
use aeon_flow.Vfs.{
  OpenFile, VirtualFs, file_open, file_write, file_close, open_file, set_cursor, grow, fill_slot,
  or_default,
}
use aeon_flow.Vfs.Slots.{lookup-or_default, open_file-inv, file_read-ok, file_write-ok}
use aeon_flow.Vfs.Invariant.{length-grow}
use aeon_flow.Vfs.Contents.{fresh, opened, reopened_files}
use aeon_flow.Forth.{codec, Codec, read_chunks, read_raw, save, decode, load}

-- A descriptor stays open where its cursor moves.
open_file-set_cursor :
    (fd : ℕ) (f : OpenFile) (c : ℕ) (fs : VirtualFs)
    → open_file fd fs ≡ ok f
    → open_file fd (set_cursor fd f c fs) ≡ ok (record f { cursor = c })
unfolding open_file
open_file-set_cursor fd f c fs o =
    rw
      (get_elem?-set_self fs.open_fds fd (some (record f { cursor = c }))
        (lt_of_get_elem? fs.open_fds fd (open_file-inv fd fs o)))
      refl

-- The descriptor is open in a file system that holds these files.
abbrev IsOpen : ℕ → VirtualFs → VirtualFs → Type 0
IsOpen fd fs fs' = (fs'.files ≡ fs.files) × ((g : OpenFile) × (open_file fd fs' ≡ ok g))

-- With enough rounds, the loop reads what is left of the file.
read_chunks-drop :
    (fuel fd : ℕ) (acc : Bytes) (fs : VirtualFs) (f : OpenFile) (file : Bytes)
    → length file - f.cursor < fuel
    → open_file fd fs ≡ ok f
    → lookup f.path fs.files ≡ some file
    → f.cursor ≤ length file
    → (fs' : VirtualFs) × (read_chunks fuel fd acc fs ≡ (ok (acc ++ drop f.cursor file), fs'))
      × IsOpen fd fs fs'
unfolding read_chunks
read_chunks-drop zero fd acc fs f file l o e w = absurd (omega arith)
read_chunks-drop (suc fuel) fd acc fs f file l o e w =
    let n = min (length file - f.cursor) 4096 in
    let fs₁ = set_cursor fd f (f.cursor + n) fs in
    let size = length-slice file f.cursor n (omega arith) in
    let o₁ = open_file-set_cursor fd f (f.cursor + n) fs o in
    elim (Bool-cases (length (slice file f.cursor n) == 0)) [
      | inl t ↦
          let past : length file ≤ f.cursor = ground arith in
          (
            fs₁,
            rw
                (
                  file_read-ok fd 4096 fs f file o e w,
                  t,
                  drop_all file f.cursor past,
                  append-nil acc,
                )
                refl,
            (refl, (record f { cursor = f.cursor + n }, o₁)),
          )
      | inr t ↦
          let (fs', r, (same, (g, o'))) =
            read_chunks-drop fuel fd (acc ++ slice file f.cursor n) fs₁
              (record f { cursor = f.cursor + n }) file (ground arith) o₁ e (omega arith) in
          (
            fs',
            rw
                (
                  file_read-ok fd 4096 fs f file o e w,
                  t,
                  r,
                  append_assoc,
                  drop_split file f.cursor n,
                )
                refl,
            (same, (g, o')),
          )
    ]

open_there :
    (path : Bytes) (fs : VirtualFs) (file : Bytes)
    → lookup path fs.files ≡ some file
    → (fd : ℕ) × (fs' : VirtualFs) × (file_open path false fs ≡ ok (fd, fs'))
unfolding file_open
open_there path fs file has =
    let slot = fill_slot (fresh path false) fs.open_fds in
    (slot.0, record { files = fs.files; open_fds = slot.1 }, rw has refl)

close_open :
    (fd : ℕ) (fs : VirtualFs) (g : OpenFile)
    → open_file fd fs ≡ ok g
    → file_close fd fs ≡ ok (record fs { open_fds = set fs.open_fds fd none })
unfolding file_close
close_open fd fs g o = rw o refl

-- `read_raw` gives the whole of a file that is there, and leaves the files as they are.
pub read_raw-file :
    (path : Text) (fs : VirtualFs) (file : Bytes)
    → lookup (to_utf8 path) fs.files ≡ some file
    → (fs' : VirtualFs) × (read_raw path fs ≡ (ok file, fs')) × (fs'.files ≡ fs.files)
unfolding read_raw
read_raw-file path fs file has =
    let (fd, fs₁, o) = open_there (to_utf8 path) fs file has in
    let (_, _, at) = opened (to_utf8 path) false fs fd fs₁ o in
    let files = reopened_files (to_utf8 path) fs fd fs₁ o in
    let has₁ : lookup (to_utf8 path) fs₁.files ≡ some file =
      ap (lookup (to_utf8 path)) files ∙ has in
    let (fs₂, r, (same, (g, o₂))) =
      read_chunks-drop (suc (length file)) fd [] fs₁ (fresh (to_utf8 path) false) file (omega arith)
        at has₁ (omega arith) in
    (
      record fs₂ { open_fds = set fs₂.open_fds fd none },
      rw (o, has₁, r, close_open fd fs₂ g o₂) refl,
      same ∙ files,
    )

open_file_files :
    (fd : ℕ) (fs : VirtualFs) (files : Table Bytes)
    → open_file fd (record fs { files = files }) ≡ open_file fd fs
unfolding open_file
open_file_files fd fs files = refl

lookup-insert_other :
    (p other file : Bytes) (files : Table Bytes)
    → p ≢ other
    → lookup other (insert p file (or_default p files)) ≡ lookup other files
lookup-insert_other p other file files ne =
    let b = bytes_eq_of_ne p other ne in
    rw (lookup-insert p other file (or_default p files), b, lookup-or_default p other files)
      (elim (Option-cases (lookup other files)) [ inl n ↦ rw (n, b) refl | inr (x, e) ↦ rw e refl ])

-- What `save` writes: a payload behind its length.
abbrev framed : Bytes → Bytes
framed payload = le_bytes 8 (length payload) ++ payload

-- A file that begins with a framed payload decodes to it, whatever stands behind.
decode-framed :
    {A : Type 0} (c : Codec A) (payload file : Bytes) {value : A}
    → c.deserialize payload ≡ some value
    → 8 + length payload < 2 ^ 64
    → length (framed payload) ≤ length file
    → slice file 0 (length (framed payload)) ≡ framed payload
    → decode c file ≡ ok value
unfolding decode
decode-framed c payload file {value} d small long starts =
    let n = length payload in
    let size = length-append (le_bytes 8 n) payload in
    let eight = length-le_bytes 8 n in
    let parts : slice file 0 8 ++ slice file 8 n ≡ le_bytes 8 n ++ payload =
      sym (slice_split file 0 8 n)
      ∙ subst (λ k. slice file 0 k ≡ framed payload) (omega arith) starts in
    let (head, tail) =
      append_inj (slice file 0 8) (le_bytes 8 n) (slice file 8 n) payload
        (omega (arith, length-slice file 0 8 (omega arith))) parts in
    let value' : le_value (slice file 0 8) ≡ n =
      ap le_value head ∙ le_value-le_bytes 8 n (omega arith) in
    let a : ltb (length file) 8 ≡ false = ground arith in
    let b : ltb (length file) ((8 + n) % 2 ^ 64) ≡ false = ground arith in
    let e : ltb ((8 + n) % 2 ^ 64) 8 ≡ false = ground arith in rw (a, value', b, e, tail, d) refl

-- The value of eight bytes is a `u64`.
le_value-le : (bs : Bytes) → AreBytes bs → le_value bs < le_space (length bs)
unfolding le_value
le_value-le [] a = omega arith
le_value-le (b ∷ bs) a = omega (arith, le_value-le bs a.1, a.0)

AreBytes-take : (n : ℕ) (bs : Bytes) → AreBytes bs → AreBytes (take n bs)
AreBytes-take zero bs a = tt
AreBytes-take (suc n) [] a = tt
AreBytes-take (suc n) (b ∷ bs) a = (a.0, AreBytes-take n bs a.1)

no_panic : {A : Type 0} (b : Bool) (o : Option A) → (if b then err codec else ok_or o codec) ≢ panic
no_panic true o e = cc e
no_panic false none e = cc e
no_panic false (some a) e = cc e

-- Reading a saved file panics for exactly the files whose length prefix is so large that 8 more is no
-- `usize`; every other file gives a value or an error.
pub decode-panics :
    {A : Type 0} (c : Codec A) (bytes : Bytes)
    → AreBytes bytes
    → (decode c bytes ≡ panic) ↔ ((8 ≤ length bytes) × (2 ^ 64 ≤ 8 + le_value (slice bytes 0 8)))
unfolding decode
decode-panics c bytes a =
    let n = le_value (slice bytes 0 8) in
    elim (Bool-cases (ltb (length bytes) 8)) [
      | inl t ↦ (λ e. absurd (cc (rw t at e)), λ h. absurd (ground (arith, h.0)))
      | inr t ↦
          let eight : length (slice bytes 0 8) ≡ 8 = length-slice bytes 0 8 (ground arith) in
          let small : n < 2 ^ 64 =
            subst (λ k. n < le_space k) eight
              (le_value-le (slice bytes 0 8) (AreBytes-take 8 bytes a)) in
          elim (Bool-cases (leb (2 ^ 64) (8 + n))) [
            | inl u ↦
                let p : ltb (length bytes) ((8 + n) % 2 ^ 64) ≡ false = ground arith in
                let q : ltb ((8 + n) % 2 ^ 64) 8 ≡ true = ground arith in
                (λ _. (ground arith, ground arith), λ _. rw (t, p, q) refl)
            | inr u ↦
                let q : ltb ((8 + n) % 2 ^ 64) 8 ≡ false = ground arith in
                (
                  λ e. absurd (
                      no_panic (ltb (length bytes) ((8 + n) % 2 ^ 64))
                        (c.deserialize (slice bytes 8 n)) (rw (t, q) at e)),
                  λ h. absurd (ground (arith, h.1)),
                )
          ]
    ]

module _ {A : Type 0} (c : Codec A) where
  save-file :
      (path : Text) (value : A) (payload : Bytes) (fs : VirtualFs)
      → c.serialize value ≡ some payload
      → (old : Bytes) × (fs' : VirtualFs) × (save c path value fs ≡ (ok tt, fs'))
        × (fs'.files
            ≡ insert
                (to_utf8 path)
                (splice (grow old (0 + length (framed payload))) 0 (framed payload))
                (or_default (to_utf8 path) fs.files))
  unfolding save file_open
  save-file path value payload fs s =
      let p = to_utf8 path in
      let slot = fill_slot (fresh p true) fs.open_fds in
      let fs₁ : VirtualFs = record { files = or_default p fs.files; open_fds = slot.1 } in
      let (old, has, at) = opened p true fs slot.0 fs₁ refl in
      let n = 0 + length (framed payload) in
      let new_files = insert p (splice (grow old n) 0 (framed payload)) (or_default p fs.files) in
      let fs₂ : VirtualFs = record { files = new_files; open_fds = slot.1 } in
      let fs₃ : VirtualFs = set_cursor slot.0 (fresh p true) n fs₂ in
      let wrote : file_write slot.0 (framed payload) fs₁ ≡ ok (length (framed payload), fs₃) =
        file_write-ok slot.0 (framed payload) fs₁ (fresh p true) old at has in
      let at₂ = open_file_files slot.0 fs₁ new_files ∙ at in
      let closed =
        close_open slot.0 fs₃ (record (fresh p true) { cursor = n })
          (open_file-set_cursor slot.0 (fresh p true) n fs₂ at₂) in
      (
        old,
        record fs₃ { open_fds = set fs₃.open_fds slot.0 none },
        rw (s, wrote, closed) refl,
        refl,
      )

  -- Whatever the file held before, and however long it was, `save` succeeds and `load` then gives the
  -- value that was saved; no other file changes. It is for a value that the serializer turns into a
  -- payload that it can read back, of a length that a `usize` holds with 8 more.
  pub load-save :
      (path : Text) (value : A) (payload : Bytes) (fs : VirtualFs)
      → c.serialize value ≡ some payload
      → c.deserialize payload ≡ some value
      → 8 + length payload < 2 ^ 64
      → ((save c path value fs).0 ≡ ok tt)
        × ((load c path (save c path value fs).1).0 ≡ ok value)
        × ((other : Bytes)
            → to_utf8 path ≢ other
            → lookup other (save c path value fs).1.files ≡ lookup other fs.files)
  unfolding load
  load-save path value payload fs s d small =
      let p = to_utf8 path in
      let (old, fs', saved, files) = save-file path value payload fs s in
      let n = 0 + length (framed payload) in
      let file = splice (grow old n) 0 (framed payload) in
      let room = length-grow old n in
      let has : lookup p fs'.files ≡ some file =
        ap (lookup p) files ∙ (rw (lookup-insert, bytes_eq_refl) refl) in
      let (fs'', read, _) = read_raw-file path fs' file has in
      let decoded =
        decode-framed c payload file d small
          (omega (arith, length-splice (grow old n) 0 (framed payload)))
          (slice-splice (grow old n) 0 (framed payload) (omega arith)) in
      (
        rw saved refl,
        rw (saved, read, decoded) refl,
        λ other ne. rw (saved, files) (lookup-insert_other p other file fs.files ne),
      )
