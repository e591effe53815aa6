-- ===== src/Snapshot.antt =====
-- Snapshots of a machine and deltas between them (aeon-vm/src/snapshot.rs), and the store of
-- programs that a snapshot is restored with (aeon-vm/src/store.rs). BLAKE3 and the bincode
-- serializers are parameters, and so is the clock. `save` and `load`, which move the same bytes to
-- and from a file, are not modelled.
pub mod Restore
pub mod Delta
use aeon_flow.Base.{
  ℕ, ◌-◌, ◌≡◌, Bool, true, false, not, Option, none, some, List, [], ◌∷◌, ◌++◌, ltb, leb, ◌==◌,
  if◌then◌else◌, length, take, drop, replicate, Bytes, bytes_eq, Table, lookup, insert, Outcome, ok,
  err, panic, ◌>>=◌, ◌>>◌, ok_or, guard, map_err,
}
use aeon_flow.Heap.{CowHeap, HeapPageDelta, HeapError}
use aeon_flow.Heap
use aeon_flow.Vfs.{VirtualFs}
use aeon_flow.EventLog.{AeonEvent, EventLog, checkpoint, append_at}
use aeon_flow.Inst.{Inst, Program, program_id}
use aeon_flow.Machine.{VmState, default_heap_size}
use aeon_flow.Machine

pub record Snapshot : Type 0 where
  pub format_version : ℕ
  pub program_id : Bytes
  pub regs : List ℕ
  pub pc : ℕ
  pub call_stack : List ℕ
  pub steps : ℕ
  pub heap : Option Bytes
  pub heap_top : Option ℕ
  pub vfs : VirtualFs
  pub event_log : EventLog

pub record SnapshotDelta : Type 0 where
  pub format_version : ℕ
  pub program_id : Bytes
  pub regs : List ℕ
  pub pc : ℕ
  pub call_stack : List ℕ
  pub steps : ℕ
  pub heap_len : ℕ
  pub heap_top : ℕ
  pub dirty_pages : List HeapPageDelta
  pub vfs : VirtualFs
  pub event_log : EventLog

pub data SnapshotError : Type 0 where
  missing_checksum checksum_mismatch : SnapshotError
  deserialize_failed : SnapshotError
  unsupported_version : ℕ → SnapshotError

pub data RestoreError : Type 0 where
  heap_top_exceeds : (heap_top len : ℕ) → RestoreError
  program_not_found : RestoreError

pub data DeltaError : Type 0 where
  program_mismatch : DeltaError
  heap_len_mismatch : (heap_len len : ℕ) → DeltaError
  heap_error : HeapError → DeltaError

-- Snapshot::CURRENT_VERSION
abbrev pub current_version : ℕ
current_version = 2

-- `ProgramStore`, behind its lock
abbrev pub ProgramStore : Type 0
ProgramStore = Table Program

abbrev pub or_else {ℓ} : {A : Type ℓ} → Option A → A → A
or_else none a = a
or_else (some a) b = a

-- A call of the heap that only panics or succeeds.
abbrev pub or_panic {ℓ} : {E F A : Type ℓ} → Outcome E A → Outcome F A
or_panic (ok a) = ok a
or_panic (err _) = panic
or_panic panic = panic

-- `ProgramStore::add`, over the hash and the serializer of programs
unfoldable pub store_add :
    (Bytes → Bytes) → (List Inst → Bytes) → Program → ProgramStore → Bytes × ProgramStore
store_add blake3 serialize program store =
    let id = program_id blake3 serialize program in (id, insert id program store)

-- `ProgramStore::get` and `has`
unfoldable pub store_get : Bytes → ProgramStore → Option Program
store_get id store = lookup id store

unfoldable pub store_has : Bytes → ProgramStore → Bool
store_has id store = elim (lookup id store) [ none ↦ false | some _ ↦ true ]

-- The machine that `restore` fills in, for a program's identifier and a heap.
unfoldable pub restored : Bytes → Snapshot → CowHeap → VmState
restored id snap h = record (Machine.new id) {
  regs = snap.regs;
  pc = snap.pc;
  call_stack = snap.call_stack;
  steps = snap.steps;
  heap = h;
  heap_top = or_else snap.heap_top 0;
  vfs = snap.vfs;
  event_log = snap.event_log;
}

unfoldable pub restore :
    (Bytes → Bytes) → (List Inst → Bytes) → Snapshot → ProgramStore → Outcome RestoreError VmState
unfolding store_get restored
restore blake3 serialize snap store = do
  program ← ok_or (store_get snap.program_id store) program_not_found
  heap ← or_panic (Heap.from_bytes (or_else snap.heap (replicate default_heap_size 0)))
  let vm = restored (program_id blake3 serialize program) snap heap
  if ltb vm.heap.len vm.heap_top then err (heap_top_exceeds vm.heap_top vm.heap.len) else ok vm

module _ (blake3 : Bytes → Bytes) (serialize_entry : AeonEvent → ℕ → Bytes → Bytes) where
  abbrev pub checkpointed : ℕ → VmState → EventLog
  checkpointed now vm =
      (append_at blake3 serialize_entry (checkpoint vm.program_id vm.pc vm.steps) now
        vm.event_log).1

  -- `Snapshot::capture`, at the time `now`
  unfoldable pub capture : ℕ → VmState → Snapshot
  capture now vm = record {
    format_version = current_version;
    program_id = vm.program_id;
    regs = vm.regs;
    pc = vm.pc;
    call_stack = vm.call_stack;
    steps = vm.steps;
    heap = some (Heap.to_vec vm.heap);
    heap_top = some vm.heap_top;
    vfs = vm.vfs;
    event_log = checkpointed now vm;
  }

  -- `Snapshot::append_event`
  unfoldable pub append_event : AeonEvent → ℕ → Snapshot → Bytes × Snapshot
  append_event event now snap =
      let (hash, log) = append_at blake3 serialize_entry event now snap.event_log in
      (hash, record snap { event_log = log })

  -- The delta that `SnapshotDelta::capture` makes of the dirty pages.
  abbrev pub delta_of : ℕ → VmState → List HeapPageDelta → SnapshotDelta
  delta_of now vm pages = record {
    format_version = current_version;
    program_id = vm.program_id;
    regs = vm.regs;
    pc = vm.pc;
    call_stack = vm.call_stack;
    steps = vm.steps;
    heap_len = vm.heap.len;
    heap_top = vm.heap_top;
    dirty_pages = pages;
    vfs = vm.vfs;
    event_log = checkpointed now vm;
  }

  -- `SnapshotDelta::capture`
  unfoldable pub capture_delta : ℕ → VmState → Outcome HeapError SnapshotDelta
  capture_delta now vm = do pages ← Heap.dirty_pages vm.heap; ok (delta_of now vm pages)

-- `SnapshotDelta::apply_to`
unfoldable pub apply_to : SnapshotDelta → Snapshot → Outcome DeltaError Snapshot
apply_to delta base = do
  guard (bytes_eq delta.program_id base.program_id) program_mismatch
  h ← or_panic (Heap.from_bytes (or_else base.heap []))
  guard (h.len == delta.heap_len) (heap_len_mismatch delta.heap_len h.len)
  h' ← map_err heap_error (Heap.apply_pages h delta.dirty_pages)
  ok (record {
    format_version = delta.format_version;
    program_id = delta.program_id;
    regs = delta.regs;
    pc = delta.pc;
    call_stack = delta.call_stack;
    steps = delta.steps;
    heap = some (Heap.to_vec h');
    heap_top = some delta.heap_top;
    vfs = delta.vfs;
    event_log = delta.event_log;
  })

unfoldable pub to_bytes : (Bytes → Bytes) → (Snapshot → Bytes) → Snapshot → Bytes
to_bytes blake3 serialize snap = let payload = serialize snap in blake3 payload ++ payload

unfoldable pub from_bytes :
    (Bytes → Bytes) → (Bytes → Option Snapshot) → Bytes → Outcome SnapshotError Snapshot
from_bytes blake3 deserialize bytes = do
  guard (leb 32 (length bytes)) missing_checksum
  let payload = drop 32 bytes
  guard (bytes_eq (take 32 bytes) (blake3 payload)) checksum_mismatch
  snap ← ok_or (deserialize payload) deserialize_failed
  guard (snap.format_version == current_version) (unsupported_version snap.format_version)
  ok snap
