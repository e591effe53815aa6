-- ===== src/Editor.antt =====
-- Patches on a snapshot and the editor that records them (aeon-vm/src/editor.rs). An error value
-- stands for the source's message. The printing half of `Inspector` is not modelled.
pub mod Undo
pub mod Edits
use aeon_flow.Base.{
  ℕ, zero, suc, ◌+◌, ◌-◌, ◌/◌, ◌%◌, min, Bool, true, false, ◌||◌, not, Option, none, some, List, [],
  ◌∷◌, ◌++◌, ltb, leb, ◌==◌, if◌then◌else◌, length, get_elem?, set, slice, splice, Bytes, ascii,
  le_bytes, Outcome, ok, err, ◌>>=◌, ok_or,
}
use aeon_flow.Heap.{checked_add}
use aeon_flow.Snapshot.{Snapshot}

pub data Patch : Type 0 where
  reg : (index old new : ℕ) → Patch
  pc_patch : (old new : ℕ) → Patch
  call_stack_entry : (index old new : ℕ) → Patch
  heap_range : (addr : ℕ) (old new : Bytes) → Patch
  heap_top_patch : (old new : Option ℕ) → Patch

pub record PatchSet : Type 0 where
  pub description : Bytes
  pub patches : List Patch

pub data EditError : Type 0 where
  register_out_of_range call_stack_out_of_range : ℕ → EditError
  heap_not_available : EditError
  heap_range_overflows : (addr len : ℕ) → EditError
  heap_range_exceeds : (addr end len : ℕ) → EditError
  heap_top_exceeds : (heap_top len : ℕ) → EditError

unfoldable pub checked_heap_end : Bytes → ℕ → ℕ → Outcome EditError ℕ
unfolding checked_add
checked_heap_end heap addr len = do
  end ← ok_or (checked_add addr len) (heap_range_overflows addr len)
  if ltb (length heap) end then err (heap_range_exceeds addr end (length heap)) else ok end

unfoldable pub read_heap_range : Bytes → ℕ → ℕ → Outcome EditError Bytes
read_heap_range heap addr len = do _ ← checked_heap_end heap addr len; ok (slice heap addr len)

unfoldable pub write_heap_range : Bytes → ℕ → Bytes → Outcome EditError Bytes
write_heap_range heap addr bytes = do
  _ ← checked_heap_end heap addr (length bytes)
  ok (splice heap addr bytes)

-- `slice.get_mut(index).ok_or_else(..)?`, and the assignment through it
unfoldable pub set_slot : EditError → List ℕ → ℕ → ℕ → Outcome EditError (List ℕ)
set_slot e xs i v = do _ ← ok_or (get_elem? xs i) e; ok (set xs i v)

-- The guard on a new `heap_top`, where there are a heap and a value.
unfoldable pub check_heap_top : Option Bytes → Option ℕ → Outcome EditError Unit
check_heap_top (some heap) (some top) =
    if ltb (length heap) top then err (heap_top_exceeds top (length heap)) else ok tt
check_heap_top _ _ = ok tt

-- The arms of the match in `PatchSet::apply`.
unfoldable pub apply_one : Patch → Snapshot → Outcome EditError Snapshot
apply_one (reg index _ new) snap = do
  regs ← set_slot (register_out_of_range index) snap.regs index new
  ok (record snap { regs = regs })
apply_one (pc_patch _ new) snap = ok (record snap { pc = new })
apply_one (call_stack_entry index _ new) snap = do
  call_stack ← set_slot (call_stack_out_of_range index) snap.call_stack index new
  ok (record snap { call_stack = call_stack })
apply_one (heap_range addr _ new) snap = do
  heap ← ok_or snap.heap heap_not_available
  heap' ← write_heap_range heap addr new
  ok (record snap { heap = some heap' })
apply_one (heap_top_patch _ new) snap = do
  _ ← check_heap_top snap.heap new
  ok (record snap { heap_top = new })

unfoldable pub apply_all : List Patch → Snapshot → Outcome EditError Snapshot
apply_all [] snap = ok snap
apply_all (p ∷ ps) snap = do next ← apply_one p snap; apply_all ps next

-- `PatchSet::apply`
abbrev pub apply : PatchSet → Snapshot → Outcome EditError Snapshot
apply ps snap = apply_all ps.patches snap

abbrev pub invert : Patch → Patch
invert (reg index old new) = reg index new old
invert (pc_patch old new) = pc_patch new old
invert (call_stack_entry index old new) = call_stack_entry index new old
invert (heap_range addr old new) = heap_range addr new old
invert (heap_top_patch old new) = heap_top_patch new old

-- `.iter().rev().map(..)`
unfoldable pub reverse_all : List Patch → List Patch
reverse_all [] = []
reverse_all (p ∷ ps) = reverse_all ps ++ invert p ∷ []

-- `PatchSet::reverse`
unfoldable pub reverse : PatchSet → PatchSet
reverse ps = record {
  description = ascii "undo: " ++ ps.description;
  patches = reverse_all ps.patches;
}

pub record SnapshotEditor : Type 0 where
  pub working : Snapshot
  pub description : Bytes
  pub patches : List Patch

unfoldable pub new : Snapshot → Bytes → SnapshotEditor
new snap description = record { working = snap; description = description; patches = [] }

-- The working snapshot after an edit, and the patch pushed for it.
abbrev pub push : SnapshotEditor → Snapshot → Patch → SnapshotEditor
push ed snap p = record ed { working = snap; patches = ed.patches ++ p ∷ [] }

unfoldable pub set_reg : ℕ → ℕ → SnapshotEditor → Outcome EditError SnapshotEditor
set_reg index val ed = do
  old ← ok_or (get_elem? ed.working.regs index) (register_out_of_range index)
  ok (push ed (record ed.working { regs = set ed.working.regs index val }) (reg index old val))

unfoldable pub set_pc : ℕ → SnapshotEditor → Outcome EditError SnapshotEditor
set_pc val ed = ok (push ed (record ed.working { pc = val }) (pc_patch ed.working.pc val))

unfoldable pub set_call_stack_entry : ℕ → ℕ → SnapshotEditor → Outcome EditError SnapshotEditor
set_call_stack_entry index val ed = do
  old ← ok_or (get_elem? ed.working.call_stack index) (call_stack_out_of_range index)
  ok (
      push ed (record ed.working { call_stack = set ed.working.call_stack index val })
        (call_stack_entry index old val))

unfoldable pub set_heap_range : ℕ → Bytes → SnapshotEditor → Outcome EditError SnapshotEditor
set_heap_range addr bytes ed = do
  heap ← ok_or ed.working.heap heap_not_available
  old ← read_heap_range heap addr (length bytes)
  heap' ← write_heap_range heap addr bytes
  ok (push ed (record ed.working { heap = some heap' }) (heap_range addr old bytes))

unfoldable pub set_heap_byte : ℕ → ℕ → SnapshotEditor → Outcome EditError SnapshotEditor
set_heap_byte addr val = set_heap_range addr (val ∷ [])

-- `val.to_le_bytes()`
unfoldable pub set_heap_u64 : ℕ → ℕ → SnapshotEditor → Outcome EditError SnapshotEditor
set_heap_u64 addr val = set_heap_range addr (le_bytes 8 val)

unfoldable pub set_heap_top : ℕ → SnapshotEditor → Outcome EditError SnapshotEditor
set_heap_top val ed = do
  heap ← ok_or ed.working.heap heap_not_available
  if ltb (length heap) val
      then err (heap_top_exceeds val (length heap))
      else ok (
          push ed (record ed.working { heap_top = some val })
            (heap_top_patch ed.working.heap_top (some val)))

unfoldable pub build : SnapshotEditor → PatchSet
build ed = record { description = ed.description; patches = ed.patches }

-- `changed_heap_byte_count`: the places in which the shared prefixes differ, and the rest of the
-- longer one.
unfoldable pub changed_bytes : Bytes → Bytes → ℕ
changed_bytes [] bs = length bs
changed_bytes (a ∷ as') [] = suc (length as')
changed_bytes (a ∷ as') (b ∷ bs) = (if a == b then 0 else 1) + changed_bytes as' bs

unfoldable pub changed_heap_byte_count : Option Bytes → Option Bytes → ℕ
changed_heap_byte_count (some before) (some after) = changed_bytes before after
changed_heap_byte_count (some before) none = length before
changed_heap_byte_count none (some after) = length after
changed_heap_byte_count none none = 0
