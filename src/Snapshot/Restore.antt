-- ===== src/Snapshot/Restore.antt =====
-- Capture, restore and the wire format of a snapshot (aeon-vm/src/snapshot.rs).
use aeon_flow.Base.{
  ℕ, ◌^◌, ◌≤◌, ◌<◌, ◌≡◌, ap, subst, ◌∙◌, true, Option, some, Option-cases, List, [], ◌++◌, arith,
  ltb, leb, ltb-false, le_of_ltb, ◌==◌, le→leb, ==_iff, Bool-cases, inl, inr, length, length-append,
  length-take, take, drop, drop-append_past, append-nil, take-append, take_all, replicate, Bytes,
  bytes_eq, bytes_eq_refl, eq_of_bytes_eq, lookup-insert, if◌then◌else◌, ok, guard-bind,
}
use aeon_flow.Heap.{CowHeap, to_vec}
use aeon_flow.Heap.Flat
use aeon_flow.Heap.Ops.{len-le-length-flat}
use aeon_flow.Heap.Dirty.{from_bytes-to_vec, to_vec-eq-take}
use aeon_flow.Vfs.Slots
use aeon_flow.EventLog.{AeonEvent}
use aeon_flow.Inst.{Inst, Program, program_id}
use aeon_flow.Machine.{VmState, default_heap_size, new}
use aeon_flow.Machine.Safe.{IsValid}
use aeon_flow.Snapshot.{
  Snapshot, ProgramStore, current_version, or_else, store_add, store_get, checkpointed, capture,
  restore, restored, to_bytes, from_bytes,
}

pub length-to_vec : (h : CowHeap) → Flat.IsValid h → length (to_vec h) ≡ h.len
length-to_vec h v =
    rw (to_vec-eq-take h v) (omega (arith, length-take h.len (Flat.flat h), len-le-length-flat h v))

-- A program that is added is found under its identifier, and every other identifier keeps what it
-- had.
pub store_get-store_add :
    (blake3 : Bytes → Bytes) (serialize : List Inst → Bytes) (p : Program) (store : ProgramStore)
    (id : Bytes)
    → store_get id (store_add blake3 serialize p store).1
      ≡ (if bytes_eq (program_id blake3 serialize p) id then some p else store_get id store)
unfolding store_get store_add
store_get-store_add blake3 serialize p store id =
    lookup-insert (program_id blake3 serialize p) id p store

-- Take a valid machine and a store that has its program. Restoring what `capture` gives succeeds,
-- with every field as it was, but for the heap, which has the same bytes and no dirty page, and the
-- event log, which has the checkpoint of the capture behind it. The restored machine is valid.
pub restore-capture :
    (blake3 : Bytes → Bytes) (serialize_entry : AeonEvent → ℕ → Bytes → Bytes)
    (serialize_program : List Inst → Bytes) (now : ℕ) (vm : VmState) (p : Program)
    (store : ProgramStore)
    → IsValid vm
    → vm.program_id ≡ program_id blake3 serialize_program p
    → store_get vm.program_id store ≡ some p
    → (h : CowHeap) × (restore blake3 serialize_program
          (capture blake3 serialize_entry now vm)
          store
        ≡ ok (record vm { heap = h; event_log = checkpointed blake3 serialize_entry now vm }))
      × (to_vec h ≡ to_vec vm.heap)
      × (h.dirty ≡ [])
      × IsValid (record vm { heap = h })
unfolding restore capture new restored
restore-capture blake3 serialize_entry serialize_program now vm p store v i g =
    let l = length-to_vec vm.heap v.heap_ok in
    let (h, e, vh, same, d, n) =
      from_bytes-to_vec (to_vec vm.heap) (omega (arith, l, v.heap_ok.small)) in
    let within : vm.heap_top ≤ h.len = omega (arith, n, l, v.top_within) in
    (
      h,
      rw (g, e, ltb-false h.len vm.heap_top within, ← i),
      same,
      d,
      record { regs_256 = v.regs_256; heap_ok = vh; top_within = within; fs_ok = v.fs_ok },
    )

-- What `restore` gives for a snapshot with 256 registers, a valid file system and a heap shorter
-- than 2 ^ 64 is a valid machine.
pub restore-IsValid :
    (blake3 : Bytes → Bytes) (serialize : List Inst → Bytes) (snap : Snapshot)
    (store : ProgramStore) {vm : VmState}
    → length snap.regs ≡ 256
    → Slots.IsValid snap.vfs
    → length (or_else snap.heap (replicate default_heap_size 0)) < 2 ^ 64
    → restore blake3 serialize snap store ≡ ok vm
    → IsValid vm
unfolding restore new restored
restore-IsValid blake3 serialize snap store {vm} r f l e =
    elim (Option-cases (store_get snap.program_id store)) [
      | inl n ↦ absurd (cc (rw (n, restore) at e))
      | inr (p, g) ↦
          let (h, e₂, vh, same, d, n) =
            from_bytes-to_vec (or_else snap.heap (replicate default_heap_size 0)) l in
          let e₃ = (rw (g, e₂) at e) in
          elim (Bool-cases (ltb h.len (or_else snap.heap_top 0))) [
            | inl t ↦ absurd (cc (rw t at e₃))
            | inr t ↦
                let same : restored (program_id blake3 serialize p) snap h ≡ vm = cc (rw t at e₃) in
                subst IsValid same (record {
                  regs_256 = r;
                  heap_ok = vh;
                  top_within = le_of_ltb h.len (or_else snap.heap_top 0) t;
                  fs_ok = f;
                })
          ]
    ]

-- A snapshot of the current version reads back from its bytes, for a hash of 32 bytes and a
-- deserializer that undoes the serializer on this snapshot.
pub from_bytes-to_bytes :
    (blake3 : Bytes → Bytes) (serialize : Snapshot → Bytes) (deserialize : Bytes → Option Snapshot)
    (snap : Snapshot)
    → snap.format_version ≡ current_version
    → length (blake3 (serialize snap)) ≡ 32
    → deserialize (serialize snap) ≡ some snap
    → from_bytes blake3 deserialize (to_bytes blake3 serialize snap) ≡ ok snap
unfolding from_bytes to_bytes
from_bytes-to_bytes blake3 serialize deserialize snap v h d =
    let payload = serialize snap in
    let enough : leb 32 (length (blake3 payload ++ payload)) ≡ true =
      le→leb _ _ (omega (arith, length-append (blake3 payload) payload)) in
    let rest : drop 32 (blake3 payload ++ payload) ≡ payload =
      drop-append_past (blake3 payload) payload 32 0 (omega arith) in
    let front : take 32 (blake3 payload ++ payload) ≡ blake3 payload =
      take-append 32 (blake3 payload) payload
      ∙ rw (h, take_all (blake3 payload) 32 (omega arith), append-nil) in
    rw (enough, rest, front, bytes_eq_refl (blake3 payload), d, v)

-- Bytes that read back as a snapshot are its payload behind the hash of that payload, and the
-- snapshot is of the current version: nothing else is accepted.
pub from_bytes_sound :
    (blake3 : Bytes → Bytes) (deserialize : Bytes → Option Snapshot) (bytes : Bytes)
    {snap : Snapshot}
    → from_bytes blake3 deserialize bytes ≡ ok snap
    → (take 32 bytes ≡ blake3 (drop 32 bytes))
      × (deserialize (drop 32 bytes) ≡ some snap)
      × (snap.format_version ≡ current_version)
unfolding from_bytes
from_bytes_sound blake3 deserialize bytes {snap} e =
    let (l, e₁) = guard-bind (leb 32 (length bytes)) _ _ e in
    let (t, e₂) = guard-bind (bytes_eq (take 32 bytes) (blake3 (drop 32 bytes))) _ _ e₁ in
    elim (Option-cases (deserialize (drop 32 bytes))) [
      | inl n ↦ absurd (cc (rw n at e₂))
      | inr (s, d) ↦
          let (w, e₃) = guard-bind (s.format_version == current_version) _ _ (rw d at e₂) in
          let same : s ≡ snap = cc e₃ in
          (eq_of_bytes_eq _ _ t, d ∙ ap some same, rw (← same) ((==_iff _ _).0 w))
    ]
