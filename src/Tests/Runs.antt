-- ===== src/Tests/Runs.antt =====
-- Witnesses for the machine and its snapshots (aeon-vm/src/vm.rs, aeon-vm/src/snapshot.rs).
use aeon_flow.Base.{
  ℕ, ◌%◌, ◌^◌, ◌≡◌, ◌≢◌, ◌<◌, refl, Bool, true, Option, some, [], ◌∷◌, arith, length, Bytes,
  bytes_eq, replicate, lookup, ok,
}
use aeon_flow.Inst.{Program, program_id, load_imm, halt, fibonacci}
use aeon_flow.Heap.{CowHeap, to_vec, write}
use aeon_flow.Heap
use aeon_flow.Heap.Flat
use aeon_flow.Heap.Ops.{write-ok}
use aeon_flow.Heap.Dirty.{new-IsValid, Tracks, Tracks-refl, write-Tracks}
use aeon_flow.Machine.{
  VmState, panicked, new, step, run, run_bounded, exec_inst, set_reg, next_pc, finish_step,
  default_heap_size,
}
use aeon_flow.Machine.Safe.{IsValid}
use aeon_flow.Machine.Parts.{new-IsValid_vm}
use aeon_flow.Machine.Invariant.{AllInRange, step-IsValid, run_bounded-IsValid}
use aeon_flow.Machine.Runs.{run_bounded-run}
use aeon_flow.Machine.Fibonacci.{fib, fibonacci_program, HaltsWith, fibonacci-computes}
use aeon_flow.Snapshot.{
  Snapshot, SnapshotDelta, ProgramStore, store_get, capture, restore, checkpointed, capture_delta,
  apply_to, to_bytes, from_bytes, or_else,
}
use aeon_flow.Snapshot.Restore.{length-to_vec, restore-capture, from_bytes-to_bytes}
use aeon_flow.Snapshot.Delta.{apply_to-capture_delta}
use aeon_flow.Vfs.Slots
use aeon_flow.Tests.{hash, serialize_entry, serialize_program}

fibonacci-AllInRange : AllInRange (fibonacci 10)
fibonacci-AllInRange = (
  omega arith,
  (
    omega arith,
    (
      omega arith,
      (
        omega arith,
        (
          omega arith,
          (
            (omega arith, omega arith, omega arith),
            (
              (omega arith, omega arith),
              (
                (omega arith, omega arith),
                ((omega arith, omega arith, omega arith), (tt, (tt, tt))),
              ),
            ),
          ),
        ),
      ),
    ),
  ),
)

step-IsValid_example :
    ((step (fibonacci_program 10) (new [])).0 ≢ panicked)
    × IsValid (step (fibonacci_program 10) (new [])).1
step-IsValid_example =
    step-IsValid (fibonacci_program 10) (new []) fibonacci-AllInRange (new-IsValid_vm [])

run_bounded-IsValid_example :
    (out : ℕ × Bool) × ((run_bounded (fibonacci_program 10) 100 (new [])).0 ≡ ok out)
    × IsValid (run_bounded (fibonacci_program 10) 100 (new [])).1
run_bounded-IsValid_example =
    run_bounded-IsValid 100 (fibonacci_program 10) (new []) fibonacci-AllInRange (new-IsValid_vm [])

fibonacci-computes_example : HaltsWith (fibonacci_program 10) 60 (new []) 2 (fib 10 % 2 ^ 64)
fibonacci-computes_example = fibonacci-computes [] 10 60 (omega arith) (omega arith) (omega arith)

abbrev small : Program
small = record { name = []; instructions = load_imm 0 5 ∷ halt ∷ [] }

abbrev small_id : Bytes
small_id = program_id hash serialize_program small

abbrev vm : VmState
vm = new small_id

small_run : run 2 small vm ≡ some (ok 1, (step small vm).1)
unfolding run step exec_inst set_reg next_pc finish_step new replicate
small_run = refl

run_bounded-run_example : run_bounded small 5 vm ≡ (ok (1, true), (step small vm).1)
run_bounded-run_example = run_bounded-run 2 5 small vm small_run (omega arith)

abbrev store : ProgramStore
store = (small_id, small) ∷ []

small_found : store_get vm.program_id store ≡ some small
unfolding new store_get lookup bytes_eq
small_found = refl

small_named : vm.program_id ≡ small_id
unfolding new
small_named = refl

restore-capture_example :
    (h : CowHeap) × (restore hash serialize_program (capture hash serialize_entry 7 vm) store
      ≡ ok (record vm { heap = h; event_log = checkpointed hash serialize_entry 7 vm }))
    × (to_vec h ≡ to_vec vm.heap)
    × (h.dirty ≡ [])
    × IsValid (record vm { heap = h })
restore-capture_example =
    restore-capture hash serialize_entry serialize_program 7 vm small store
      (new-IsValid_vm small_id) small_named small_found

abbrev heap₀ : CowHeap
heap₀ = Heap.new default_heap_size

heap₀-IsValid : Flat.IsValid heap₀
heap₀-IsValid = new-IsValid default_heap_size (omega arith)

written_parts :
    (h : CowHeap) × (write heap₀ 3 (7 ∷ []) ≡ ok h) × Flat.IsValid h × (h.len ≡ heap₀.len)
unfolding Heap.new
written_parts =
    let (h, e, v, _, n) = write-ok heap₀ 3 (7 ∷ []) heap₀-IsValid (omega arith) in (h, e, v, n)

abbrev vm_written : VmState
vm_written = record vm { heap = written_parts.0 }

written-Tracks : Tracks heap₀.pages written_parts.0
unfolding Heap.new
written-Tracks = write-Tracks heap₀.pages heap₀ 3 (7 ∷ []) (Tracks-refl heap₀ refl) written_parts.1

abbrev base : Snapshot
base = record {
  format_version = 2;
  program_id = vm.program_id;
  regs = [];
  pc = 0;
  call_stack = [];
  steps = 0;
  heap = some (to_vec heap₀);
  heap_top = some 0;
  vfs = vm.vfs;
  event_log = [];
}

apply_to-capture_delta_example :
    (delta : SnapshotDelta) × (capture_delta hash serialize_entry 7 vm_written ≡ ok delta)
    × (apply_to delta base ≡ ok (capture hash serialize_entry 7 vm_written))
apply_to-capture_delta_example =
    apply_to-capture_delta hash serialize_entry 7 base heap₀ vm_written heap₀-IsValid
      written_parts.2 refl refl written_parts.3 written-Tracks

restored_parts :
    (h : CowHeap) × (restore hash serialize_program (capture hash serialize_entry 7 vm) store
      ≡ ok (record vm { heap = h; event_log = checkpointed hash serialize_entry 7 vm }))
    × (to_vec h ≡ to_vec vm.heap)
    × (h.dirty ≡ [])
    × IsValid (record vm { heap = h })
restored_parts =
    restore-capture hash serialize_entry serialize_program 7 vm small store
      (new-IsValid_vm small_id) small_named small_found

captured_regs : length (capture hash serialize_entry 7 vm).regs ≡ 256
unfolding capture
captured_regs = (new-IsValid_vm small_id).regs_256

captured_vfs : Slots.IsValid (capture hash serialize_entry 7 vm).vfs
unfolding capture
captured_vfs = (new-IsValid_vm small_id).fs_ok

captured_heap :
    length (or_else (capture hash serialize_entry 7 vm).heap (replicate default_heap_size 0))
    < 2 ^ 64
unfolding capture
captured_heap =
    let v = (new-IsValid_vm small_id).heap_ok in omega (arith, length-to_vec vm.heap v, v.small)

abbrev serialize : Snapshot → Bytes
serialize snap = snap.format_version ∷ snap.pc ∷ []

abbrev deserialize : Bytes → Option Snapshot
deserialize bytes = some base

from_bytes-to_bytes_example : from_bytes hash deserialize (to_bytes hash serialize base) ≡ ok base
from_bytes-to_bytes_example = from_bytes-to_bytes hash serialize deserialize base refl refl refl

base_read : from_bytes hash deserialize (to_bytes hash serialize base) ≡ ok base
base_read = from_bytes-to_bytes hash serialize deserialize base refl refl refl
