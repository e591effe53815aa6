-- ===== src/Tests/Editing.antt =====
-- Witnesses for patches and shared contexts (aeon-vm/src/editor.rs, aeon-vm/src/session.rs).
use aeon_flow.Base.{
  ℕ, ◌≡◌, refl, ◌||◌, some, List, [], ◌∷◌, arith, Bytes, bytes_eq, contains, splice, ok,
}
use aeon_flow.Heap.{checked_add}
use aeon_flow.Vfs.{default}
use aeon_flow.EventLog.{append_at, patch_applied}
use aeon_flow.Snapshot.{Snapshot}
use aeon_flow.Editor.{
  PatchSet, SnapshotEditor, reg, heap_range, heap_top_patch, apply, apply_all, apply_one, set_slot,
  reverse, new, build, set_reg, set_heap_range, set_heap_top, checked_heap_end, read_heap_range,
  write_heap_range,
}
use aeon_flow.Editor.Edits.{Edit, reg_edit, heap_range_edit, heap_top_edit, edit_all, apply-build}
use aeon_flow.Session.{
  SharedContext, SessionMessage, MergeReport, Lamport, Key, SessionId, patch_key, message_key,
  has_key, key_eq, key_lt, max_clock, next_clock, insert_sorted, sort, push_missing, join_missing,
  merge_from, post_message, play_all, current_snapshot, apply_patch,
}
use aeon_flow.Session.Merge.{merge_from-again, merge_from-union}
use aeon_flow.Session.Patches.{apply_patch-current}
use aeon_flow.Session.Clocks.{AllBelow, clocks, post_message-clock}
use aeon_flow.Tests.{hash, serialize_entry}

abbrev snapshot : List ℕ → Bytes → ℕ → Snapshot
snapshot regs heap top = record {
  format_version = 2;
  program_id = [];
  regs = regs;
  pc = 0;
  call_stack = [];
  steps = 0;
  heap = some heap;
  heap_top = some top;
  vfs = default;
  event_log = [];
}

abbrev base : Snapshot
base = snapshot (4 ∷ 0 ∷ []) (1 ∷ 2 ∷ 3 ∷ []) 1

abbrev edits : List Edit
edits = reg_edit 0 7 ∷ heap_range_edit 1 (9 ∷ []) ∷ heap_top_edit 3 ∷ []

abbrev edited : SnapshotEditor
edited = record {
  working = snapshot (7 ∷ 0 ∷ []) (1 ∷ 9 ∷ 3 ∷ []) 3;
  description = [];
  patches = reg 0 4 7 ∷ heap_range 1 (2 ∷ []) (9 ∷ []) ∷ heap_top_patch (some 1) (some 3) ∷ [];
}

edits_run : edit_all edits (new base []) ≡ ok edited
unfolding edit_all new set_reg set_heap_range set_heap_top read_heap_range write_heap_range
    checked_heap_end checked_add splice
edits_run = refl

apply-build_example :
    (apply (build edited) base ≡ ok edited.working)
    × (apply (reverse (build edited)) edited.working ≡ ok base)
apply-build_example = apply-build base [] edits (omega arith) edits_run

abbrev alice : SessionId
alice = 97 ∷ []

abbrev bob : SessionId
bob = 98 ∷ []

abbrev said : SessionId → Lamport → SessionMessage
said who clock = record { author = who; clock = clock; wall_ms = 0; text = [] }

abbrev context : List SessionMessage → List SessionId → SharedContext
context messages sessions = record {
  id = [];
  base_snapshot = base;
  patches = [];
  messages = messages;
  connected_sessions = sessions;
}

abbrev here : SharedContext
here = context (said alice 2 ∷ []) (alice ∷ [])

abbrev remote : SharedContext
remote = context (said bob 1 ∷ said alice 2 ∷ []) (bob ∷ [])

abbrev both : SharedContext
both = context (said bob 1 ∷ said alice 2 ∷ []) (alice ∷ bob ∷ [])

abbrev report : MergeReport
report = record { patches = 0; messages = 1; sessions = 1 }

merge_run : merge_from remote here ≡ ok (report, both)
unfolding merge_from push_missing join_missing has_key key_eq key_lt contains sort insert_sorted
    bytes_eq
merge_run = refl

merge_from-again_example :
    merge_from remote both ≡ ok (record { patches = 0; messages = 0; sessions = 0 }, both)
merge_from-again_example = merge_from-again remote here merge_run

merge_from-union_example :
    ((k : Key)
      → has_key patch_key k both.patches
        ≡ (has_key patch_key k here.patches || has_key patch_key k remote.patches))
    × ((k : Key)
        → has_key message_key k both.messages
          ≡ (has_key message_key k here.messages || has_key message_key k remote.messages))
    × ((s : SessionId)
        → contains s both.connected_sessions
          ≡ (contains s here.connected_sessions || contains s remote.connected_sessions))
merge_from-union_example = merge_from-union remote here merge_run

abbrev patchset : PatchSet
patchset = record { description = []; patches = reg 0 4 7 ∷ [] }

abbrev patched_context : SharedContext
patched_context = record here {
  patches =
      record { author = bob; clock = 3; wall_ms = 50; message = []; patchset = patchset } ∷ [];
}

patch_run : apply_patch hash serialize_entry 50 bob [] patchset here ≡ ok (3, patched_context)
unfolding apply_patch current_snapshot play_all apply_all apply_one set_slot next_clock max_clock
patch_run = refl

apply_patch-current_example :
    (current patched : Snapshot) × (current_snapshot hash serialize_entry here ≡ ok current)
    × (apply patchset current ≡ ok patched)
    × (current_snapshot hash serialize_entry patched_context
        ≡ ok (record patched {
          event_log =
              (append_at hash serialize_entry (patch_applied [] bob [] 1) 50 patched.event_log).1;
        }))
apply_patch-current_example =
    apply_patch-current hash serialize_entry 50 bob [] patchset here patch_run

post_message-clock_example : AllBelow (clocks here) (post_message 50 bob [] here).0
post_message-clock_example = post_message-clock 50 bob [] here (omega arith, tt)
