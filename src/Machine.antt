-- ===== src/Machine.antt =====
-- The virtual machine (aeon-vm/src/vm.rs): its state, one step, system calls, and the two run loops.
-- A step that panics in the source (a register past the end of `regs`, which a state made by
-- `VMState::new` never meets) gives `panicked`. The build is a release build on a 64-bit target: the
-- arithmetic of `pc` and `steps` wraps. What `print` writes is not modelled.
mod Monad
pub mod Registers
pub mod Invariant
pub mod Safe
pub mod Parts
pub mod Calls
pub mod Runs
pub mod Fibonacci
pub use Monad.{Exec, pure, raise, lift, gets, modify, continue, ◌>>=◌, ◌>>◌}
use aeon_flow.Base.{
  ℕ, zero, suc, ◌+◌, ◌-◌, ◌*◌, ◌%◌, ◌^◌, Bool, true, false, not, Option, none, some, List, [], ◌∷◌,
  ◌++◌, ltb, leb, ◌==◌, if◌then◌else◌, length, get_elem?, set, slice, replicate, Bytes, is_utf8,
  Outcome, err, panic, ok_or, expect, map_err, map_ok,
}
use aeon_flow.Heap
use aeon_flow.Heap.{CowHeap, checked_add}
use aeon_flow.Vfs
use aeon_flow.Vfs.{VirtualFs, FsError}
use aeon_flow.EventLog.{EventLog}
use aeon_flow.Inst.{
  Inst, Offset, Program, forward, backward, load_imm, mov, add, sub, mul, jz, jump, call, ret,
  print, load_mem, store_mem, alloc, halt, syscall,
}

pub data VmError : Type 0 where
  empty_call_stack : VmError
  memory_out_of_bounds : (addr heap_len : ℕ) → VmError
  out_of_memory : (requested available : ℕ) → VmError
  unknown_syscall : ℕ → VmError
  invalid_utf8 : VmError
  fs : FsError → VmError

-- `panicked` stands for a panic of the thread.
pub data StepResult : Type 0 where
  ok halted panicked : StepResult
  error : VmError → StepResult

pub record VmState : Type 0 where
  pub program_id : Bytes
  pub regs : List ℕ
  pub pc : ℕ
  pub call_stack : List ℕ
  pub steps : ℕ
  pub heap : CowHeap
  pub heap_top : ℕ
  pub vfs : VirtualFs
  pub event_log : EventLog

abbrev pub M : Type 0 → Type 0
M = Exec VmState VmError

abbrev pub usize_max : ℕ
usize_max = 2 ^ 64 - 1

-- DEFAULT_HEAP_SIZE
abbrev pub default_heap_size : ℕ
default_heap_size = 1024 * 1024

-- `VMState::new`, for the identifier of the program
unfoldable pub new : Bytes → VmState
new id = record {
  program_id = id;
  regs = replicate 256 0;
  pc = 0;
  call_stack = [];
  steps = 0;
  heap = Heap.new default_heap_size;
  heap_top = 0;
  vfs = Vfs.default;
  event_log = [];
}

-- `usize::try_from` of a `u64`
unfoldable pub try_usize : ℕ → Option ℕ
try_usize n = if ltb n (2 ^ 64) then some n else none

-- `self.regs[r as usize]`, read and written
unfoldable pub reg : ℕ → M ℕ
reg r vm = (expect (get_elem? vm.regs r), vm)

unfoldable pub set_reg : ℕ → ℕ → M Unit
set_reg r v vm =
    if ltb r (length vm.regs)
    then (Outcome.ok tt, record vm { regs = set vm.regs r v })
    else (panic, vm)

-- `self.pc += 1`
unfoldable pub next_pc : M Unit
next_pc vm = (Outcome.ok tt, record vm { pc = (vm.pc + 1) % 2 ^ 64 })

-- `(self.pc as isize + off) as usize`
unfoldable pub offset_pc : ℕ → Offset → ℕ
offset_pc pc (forward n) = (pc + n) % 2 ^ 64
offset_pc pc (backward n) = (pc + (2 ^ 64 - (n + 1))) % 2 ^ 64

-- `Vec::pop`
unfoldable pub pop : List ℕ → Option (ℕ × List ℕ)
pop [] = none
pop (x ∷ []) = some (x, [])
pop (x ∷ y ∷ xs) = elim (pop (y ∷ xs)) [ none ↦ none | some (z, zs) ↦ some (z, x ∷ zs) ]

unfoldable pub reg_usize : ℕ → M ℕ
unfolding reg try_usize
reg_usize r = do
  v ← reg r
  heap ← gets (λ vm. vm.heap)
  lift (ok_or (try_usize v) (memory_out_of_bounds usize_max heap.len))

unfoldable pub checked_heap_addr : ℕ → M ℕ
unfolding reg_usize
checked_heap_addr r = do
  addr ← reg_usize r
  heap ← gets (λ vm. vm.heap)
  if ltb addr heap.len then pure addr else raise (memory_out_of_bounds addr heap.len)

unfoldable pub checked_heap_range : ℕ → ℕ → M Bytes
checked_heap_range addr len = do
  heap ← gets (λ vm. vm.heap)
  end ← lift (ok_or (checked_add addr len) (memory_out_of_bounds addr heap.len))
  if leb end heap.len
      then lift (map_err (λ _. memory_out_of_bounds end heap.len) (Heap.read heap addr len))
      else raise (memory_out_of_bounds end heap.len)

-- The calls of the heap and of the file system, with their effect on the state.
unfoldable pub heap_write : ℕ → Bytes → M Unit
heap_write addr bytes = do
  heap ← gets (λ vm. vm.heap)
  heap' ← lift (
      map_err (λ _. memory_out_of_bounds (addr + length bytes) heap.len)
        (Heap.write heap addr bytes))
  modify (λ vm. record vm { heap = heap' })

unfoldable pub with_fs : {A : Type 0} → (VirtualFs → Outcome FsError (A × VirtualFs)) → M A
with_fs f = do
  vfs ← gets (λ vm. vm.vfs)
  r ← lift (map_err (λ e. fs e) (f vfs))
  modify (λ vm. record vm { vfs = r.1 })
  pure r.0

unfoldable pub sys_open : M Unit
sys_open = do
  path_addr ← reg_usize 1
  path_len ← reg_usize 2
  mode ← reg 3
  path ← checked_heap_range path_addr path_len
  if is_utf8 path
      then (do fd ← with_fs (Vfs.file_open path (not (mode == 0))); set_reg 0 fd)
      else raise invalid_utf8

unfoldable pub sys_read : M Unit
sys_read = do
  fd ← reg_usize 1
  buf_addr ← reg_usize 2
  count ← reg_usize 3
  _ ← checked_heap_range buf_addr count
  bytes ← with_fs (Vfs.file_read fd count)
  heap_write buf_addr bytes
  set_reg 0 (length bytes)

unfoldable pub sys_write : M Unit
sys_write = do
  fd ← reg_usize 1
  buf_addr ← reg_usize 2
  count ← reg_usize 3
  bytes ← checked_heap_range buf_addr count
  written ← with_fs (Vfs.file_write fd bytes)
  set_reg 0 written

unfoldable pub sys_close : M Unit
sys_close = do
  fd ← reg_usize 1
  with_fs (λ s. map_ok (λ s'. (tt, s')) (Vfs.file_close fd s))
  set_reg 0 0

unfoldable pub handle_syscall : ℕ → M Unit
unfolding sys_open sys_read sys_write sys_close
handle_syscall num =
    if num == 0
    then sys_open
    else if num == 1
    then sys_read
    else if num == 2
    then sys_write
    else if num == 3
    then sys_close
    else raise (unknown_syscall num)

-- `heap.len().saturating_sub(heap_top)`
abbrev pub available : VmState → ℕ
available vm = vm.heap.len - vm.heap_top

unfoldable pub do_alloc : ℕ → ℕ → M Unit
do_alloc dst size = do
  v ← reg size
  vm ← gets (λ s. s)
  requested ← lift (ok_or (try_usize v) (out_of_memory usize_max (available vm)))
  next_top ←
      lift (ok_or (checked_add vm.heap_top requested) (out_of_memory requested (available vm)))
  if ltb vm.heap.len next_top
      then raise (out_of_memory requested (available vm))
      else do set_reg dst vm.heap_top; modify (λ s. record s { heap_top = next_top })

-- Whether the loop goes on behind an instruction.
pub data Flow : Type 0 where
  next stop : Flow

abbrev pub binary : (ℕ → ℕ → ℕ) → ℕ → ℕ → ℕ → M Flow
binary op dst a b = do x ← reg a; y ← reg b; set_reg dst (op x y); next_pc; pure next

-- The arms of the match in `step`.
unfoldable pub exec_inst : Inst → M Flow
exec_inst (load_imm dst val) = do set_reg dst val; next_pc; pure next
exec_inst (mov dst src) = do v ← reg src; set_reg dst v; next_pc; pure next
exec_inst (add dst a b) = binary (λ x y. (x + y) % 2 ^ 64) dst a b
exec_inst (sub dst a b) = binary (λ x y. (x + (2 ^ 64 - y)) % 2 ^ 64) dst a b
exec_inst (mul dst a b) = binary (λ x y. x * y % 2 ^ 64) dst a b
exec_inst (jz c off) = do
  v ← reg c
  modify (λ vm. record vm { pc = if v == 0 then offset_pc vm.pc off else (vm.pc + 1) % 2 ^ 64 })
  pure next
exec_inst (jump off) = do modify (λ vm. record vm { pc = offset_pc vm.pc off }); pure next
exec_inst (call addr) = do
  modify (λ vm. record vm { call_stack = vm.call_stack ++ (vm.pc + 1) % 2 ^ 64 ∷ []; pc = addr })
  pure next
exec_inst ret = do
  vm ← gets (λ s. s)
  r ← lift (ok_or (pop vm.call_stack) empty_call_stack)
  modify (λ s. record s { call_stack = r.1; pc = r.0 })
  pure next
exec_inst (print r) = do _ ← reg r; next_pc; pure next
exec_inst (load_mem dst r) = do
  addr ← checked_heap_addr r
  heap ← gets (λ vm. vm.heap)
  byte ← lift (map_err (λ _. memory_out_of_bounds addr heap.len) (Heap.get heap addr))
  set_reg dst byte
  next_pc
  pure next
exec_inst (store_mem r src) = do
  addr ← checked_heap_addr r
  heap ← gets (λ vm. vm.heap)
  v ← reg src
  heap' ←
      lift (map_err (λ _. memory_out_of_bounds addr heap.len) (Heap.set_byte heap addr (v % 256)))
  modify (λ vm. record vm { heap = heap' })
  next_pc
  pure next
exec_inst (alloc dst size) = do do_alloc dst size; next_pc; pure next
exec_inst (syscall num) = do handle_syscall num; next_pc; pure next
exec_inst halt = pure stop

-- `self.steps += 1; StepResult::Ok` behind an arm that did not return
unfoldable pub finish_step : Outcome VmError Flow → VmState → StepResult × VmState
finish_step (Outcome.ok next) vm = (ok, record vm { steps = (vm.steps + 1) % 2 ^ 64 })
finish_step (Outcome.ok stop) vm = (halted, vm)
finish_step (Outcome.err e) vm = (error e, vm)
finish_step Outcome.panic vm = (panicked, vm)

unfoldable pub step : Program → VmState → StepResult × VmState
unfolding finish_step
step program vm = elim (get_elem? program.instructions vm.pc) [
  | none ↦ (halted, vm)
  | some inst ↦ let (r, vm') = exec_inst inst vm in finish_step r vm'
]

-- `run_bounded`: the step count and whether the program halted, and the state. It returns no error,
-- and where a step panics it returns nothing: there are no errors in its result but the panic.
unfoldable pub run_bounded : Program → ℕ → VmState → Outcome ⊥ (ℕ × Bool) × VmState
run_bounded program zero vm = (Outcome.ok (vm.steps, false), vm)
run_bounded program (suc max_steps) vm =
    let (r, vm') = step program vm in
    elim r [
      | ok ↦ run_bounded program max_steps vm'
      | halted ↦ (Outcome.ok (vm'.steps, true), vm')
      | error _ ↦ (Outcome.ok (vm'.steps, false), vm')
      | panicked ↦ (Outcome.panic, vm')
    ]

-- `run` has no bound: with fuel for that many steps, `none` says that it has not returned yet.
unfoldable pub run : ℕ → Program → VmState → Option (Outcome VmError ℕ × VmState)
run zero program vm = none
run (suc fuel) program vm =
    let (r, vm') = step program vm in
    elim r [
      | ok ↦ run fuel program vm'
      | halted ↦ some (Outcome.ok vm'.steps, vm')
      | error e ↦ some (Outcome.err e, vm')
      | panicked ↦ some (Outcome.panic, vm')
    ]
