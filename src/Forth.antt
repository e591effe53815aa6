-- ===== src/Forth.antt =====
-- The Forth front end (aeon-vm/src/forth.rs): programs and their state live in files of the virtual
-- file system, the data stack in the heap of the machine. Storage has the files, Source the compiler,
-- Words the words; here the driver around them. The build is a release build on a 64-bit target.
mod Storage
mod Source
mod Words
pub mod Stack
pub mod Effects
pub mod Definitions
pub mod Saved
pub mod Safety
unfoldable pub use Storage.*
unfoldable pub use Source.*
unfoldable pub use Words.*
use aeon_flow.Base.{
  ℕ, zero, suc, ◌+◌, ◌-◌, ◌%◌, Bool, true, false, ◌||◌, not, Option, none, some, List, [], ◌∷◌,
  ◌++◌, ltb, leb, ◌==◌, if◌then◌else◌, length, get_elem?, set, Bytes, ascii, le_value, Table,
  lookup, Text, Outcome, map_err, expect,
}
use aeon_flow.Heap
use aeon_flow.Machine.{VmState, Exec, pure, raise, lift, gets, modify, set_reg, ◌>>=◌, ◌>>◌}

abbrev pub dict_path : Text
dict_path = ascii "/forth/dict"

abbrev pub runtime_path : Text
runtime_path = ascii "/forth/runtime"

-- An operation on `vm.vfs`
abbrev pub on_vfs : {A : Type 0} → Files A → F A
on_vfs f vm = let (r, fs) = f vm.vfs in (r, record vm { vfs = fs })

abbrev pub start_state : List Text → Runtime
start_state tokens = record {
  tokens = tokens;
  ip = 0;
  frames = [];
  loops = [];
  envs = [] ∷ [];
  output = [];
  halted = false;
}

-- The serializer of the two files
module _ (dict_codec : Codec Dictionary) (runtime_codec : Codec Runtime) where
  unfoldable pub start : Text → F Unit
  unfolding save compile_source set_stack_ptr
  start source = do
    r ← on_vfs (compile_source source)
    set_stack_ptr stack_base
    on_vfs (save dict_codec dict_path r.0)
    on_vfs (save runtime_codec runtime_path (start_state r.1))

  unfoldable pub start_file : Text → F Unit
  unfolding start read_raw
  start_file path = do bytes ← on_vfs (read_raw path); source ← lift (from_utf8 bytes); start source

  unfoldable pub run_steps : ℕ → F Bool
  unfolding load save step_once
  run_steps zero = pure false
  run_steps (suc max_steps) = do
    dict ← on_vfs (load dict_codec dict_path)
    runtime ← on_vfs (load runtime_codec runtime_path)
    if runtime.halted then pure true else do
      runtime' ← step_once dict runtime
      on_vfs (save runtime_codec runtime_path runtime')
      if runtime'.halted then pure true else run_steps max_steps

  unfoldable pub output : F (List ℕ)
  unfolding load
  output = do runtime ← on_vfs (load runtime_codec runtime_path); pure runtime.output

  -- The loop of `run`, with its budget of steps
  unfoldable pub run_for : ℕ → F (List ℕ)
  unfolding run_steps output
  run_for zero = raise (bad_control budget_exhausted)
  run_for (suc budget) = do done ← run_steps 1; if done then output else run_for budget

  unfoldable pub run : F (List ℕ)
  unfolding run_for
  run = run_for 100000

-- The loop of `stack`, over the words from `addr` on; each round has a word, so `words_left` rounds
-- are enough.
unfoldable pub stack_from : (words_left addr ptr : ℕ) → Heap.CowHeap → Outcome ForthError (List ℕ)
stack_from zero addr ptr heap = Outcome.ok []
stack_from (suc n) addr ptr heap =
    let rest = stack_from n (addr + 8) ptr heap in
    if ltb addr ptr
    then (elim (Heap.read heap addr 8) [
      | Outcome.ok bytes ↦ elim rest [
        | Outcome.ok values ↦ Outcome.ok (le_value bytes ∷ values)
        | Outcome.err e ↦ Outcome.err e
        | Outcome.panic ↦ Outcome.panic
      ]
      | Outcome.err e ↦ Outcome.err (bad_control (heap_fault e))
      | Outcome.panic ↦ Outcome.panic
    ])
    else Outcome.ok []

unfoldable pub stack : VmState → Outcome ForthError (List ℕ)
unfolding stack_from
stack vm = elim (get_elem? vm.regs stack_reg) [
  | none ↦ Outcome.panic
  | some ptr ↦
      if ltb ptr stack_base || ltb stack_limit ptr || ltb vm.heap.len ptr
      then Outcome.err stack_underflow
      else if (ptr - stack_base) % 8 == 0
      then stack_from (ptr - stack_base) stack_base ptr vm.heap
      else Outcome.err (bad_control unaligned)
]
