-- ===== src/Tests/Compilers.antt =====
-- Witnesses for the assembler, the compiler of hot programs and the Forth front end
-- (aeon-vm/src/asm.rs, aeon-vm/src/jit.rs, aeon-vm/src/forth.rs).
use aeon_flow.Base.{
  ℕ, ◌+◌, ◌^◌, ◌≡◌, ◌≢◌, ◌≤◌, ◌↔◌, refl, Bool, true, some, List, [], ◌∷◌, ◌++◌, arith, length,
  length-replicate, Bytes, ascii, bytes_eq, insert, le_value, slice, replicate, Text, to_utf8,
  lookup, ok, panic, to_ascii_lowercase, trim,
}
use aeon_flow.Heap
use aeon_flow.Heap.{insert_index, has_index}
use aeon_flow.Heap.Dirty.{new-IsValid}
use aeon_flow.Inst.{Program, load_imm, jz, jump, halt, forward}
use aeon_flow.Machine.{
  VmState, panicked, new, step, run, run_bounded, exec_inst, reg, set_reg, next_pc, offset_pc,
  finish_step, default_heap_size,
}
use aeon_flow.Machine.Safe.{IsValid, IsSafe}
use aeon_flow.Machine.Parts.{new-IsValid_vm}
use aeon_flow.Vfs.{default}
use aeon_flow.Asm.{assemble, strip_comment, parse_raw}
use aeon_flow.Asm.Resolved.{IsAssembled, assemble-IsAssembled, assemble-run_bounded}
use aeon_flow.Base.{Ensures}
use aeon_flow.Jit.{Code, iconst, goto, brif, compile, all_avoid_start, entry}
use aeon_flow.Jit.Entry.{entry-run}
use aeon_flow.Forth.{
  Codec, Runtime, start_state, save, load, decode, step_once, exec_word, w_dup, compile_tokens,
  outside,
}
use aeon_flow.Forth.Stack.{Holds, push-ok}
use aeon_flow.Forth.Effects.{Implements, exec_word-stack_effect}
use aeon_flow.Forth.Safety.{step_once-IsSafe}
use aeon_flow.Forth.Saved.{load-save, decode-panics}
use aeon_flow.Forth.Definitions.{
  Item, define, word, print_items, meaning, compile_tokens-print_items,
}

abbrev source : Text
source = ascii "load r0, 5 ; five\njmp Done\ndone:\nHALT"

abbrev assembled : Program
assembled = record { name = []; instructions = load_imm 0 5 ∷ jump (forward 1) ∷ halt ∷ [] }

source_assembles : assemble to_ascii_lowercase [] source ≡ ok assembled
unfolding assemble trim strip_comment parse_raw lookup bytes_eq to_ascii_lowercase insert
source_assembles = refl

assemble-IsAssembled_example : Ensures IsAssembled (assemble to_ascii_lowercase [] source)
assemble-IsAssembled_example = assemble-IsAssembled to_ascii_lowercase [] source

assemble-run_bounded_example :
    (out : ℕ × Bool) × ((run_bounded assembled 3 (new [])).0 ≡ ok out)
    × IsValid (run_bounded assembled 3 (new [])).1
    × ((step assembled (run_bounded assembled 3 (new [])).1).0 ≢ panicked)
assemble-run_bounded_example =
    assemble-run_bounded to_ascii_lowercase [] source 3 (new []) source_assembles
      (new-IsValid_vm [])

abbrev hot : Program
hot = record {
  name = [];
  instructions = load_imm 0 1 ∷ jz 0 (forward 2) ∷ load_imm 1 7 ∷ halt ∷ [];
}

abbrev hot_code : Code
hot_code = record {
  blocks =
      record { start = 0; ops = iconst 0 1 ∷ []; end = brif 0 3 2 }
      ∷ record { start = 2; ops = iconst 1 7 ∷ []; end = goto 3 }
      ∷ record { start = 3; ops = []; end = goto 4 }
      ∷ [];
  touched = 0 ∷ 1 ∷ [];
  exit = 4;
}

hot_compiles : compile hot ≡ ok hot_code
unfolding compile has_index
hot_compiles = refl

hot_avoids : all_avoid_start hot_code.blocks ≡ true
unfolding all_avoid_start
hot_avoids = refl

abbrev hot_end : VmState
hot_end = (run_bounded hot 4 (new [])).1

hot_runs : run 4 hot (new []) ≡ some (ok 3, hot_end)
unfolding run run_bounded step exec_inst reg set_reg next_pc offset_pc finish_step new replicate
hot_runs = refl

new_start : (new []).pc ≡ 0
unfolding new
new_start = refl

new_regs : length (new []).regs ≡ 256
unfolding new
new_regs = length-replicate {A = ℕ} 256 0

entry-run_example : (fuel : ℕ) × (entry fuel hot_code (new []).regs ≡ some hot_end.regs)
entry-run_example =
    entry-run hot hot_code 4 3 (new []) hot_end hot_compiles hot_avoids
      (omega arith, (omega arith, (omega arith, (tt, tt)))) (omega arith) (omega arith) new_start
      new_regs hot_runs

-- A machine with an empty data stack, and with one value on it.
abbrev vm₀ : VmState
vm₀ = record (new []) { regs = replicate 200 0 ++ 65536 ∷ replicate 55 0 }

vm₀-Holds : Holds default_heap_size vm₀ []
unfolding new replicate Heap.new
vm₀-Holds = record {
  ptr = 65536;
  heap_ok = new-IsValid default_heap_size (omega arith);
  heap_len = refl;
  at_ptr = refl;
  in_limit = omega arith;
  in_heap = omega arith;
  items = refl;
}

one_pushed : (vm' : VmState) × Holds default_heap_size vm' (7 ∷ [])
one_pushed =
    let (vm', _, h) = push-ok default_heap_size vm₀ 7 [] (omega arith) (omega arith) vm₀-Holds in
    (vm', h)

abbrev runtime : Runtime
runtime = start_state (ascii "dup" ∷ [])

exec_word-stack_effect_example :
    Implements default_heap_size runtime (exec_word w_dup runtime one_pushed.0) (ok (7 ∷ 7 ∷ []))
exec_word-stack_effect_example =
    exec_word-stack_effect default_heap_size w_dup runtime one_pushed.0 (7 ∷ []) tt one_pushed.1

step_once-IsSafe_example : IsSafe (step_once [] runtime)
step_once-IsSafe_example = step_once-IsSafe [] runtime

abbrev plain : Codec Bytes
plain = record { serialize = λ b. some b; deserialize = λ b. some b }

load-save_example :
    ((save plain (ascii "/f") (1 ∷ 2 ∷ []) default).0 ≡ ok tt)
    × ((load plain (ascii "/f") (save plain (ascii "/f") (1 ∷ 2 ∷ []) default).1).0
        ≡ ok (1 ∷ 2 ∷ []))
    × ((other : Bytes)
        → to_utf8 (ascii "/f") ≢ other
        → lookup other (save plain (ascii "/f") (1 ∷ 2 ∷ []) default).1.files
          ≡ lookup other default.files)
load-save_example =
    load-save plain (ascii "/f") (1 ∷ 2 ∷ []) (1 ∷ 2 ∷ []) default refl refl (omega arith)

abbrev huge : Bytes
huge = 255 ∷ 255 ∷ 255 ∷ 255 ∷ 255 ∷ 255 ∷ 255 ∷ 255 ∷ []

decode-panics_example :
    (decode plain huge ≡ panic) ↔ ((8 ≤ length huge) × (2 ^ 64 ≤ 8 + le_value (slice huge 0 8)))
decode-panics_example = decode-panics plain huge (
  omega arith,
  (
    omega arith,
    (omega arith, (omega arith, (omega arith, (omega arith, (omega arith, (omega arith, tt)))))),
  ),
)

abbrev items : List Item
items =
    define (ascii "sq") (ascii "dup" ∷ ascii "*" ∷ []) ∷ word (ascii "3") ∷ word (ascii "sq") ∷ []

compile_tokens-print_items_example :
    compile_tokens (λ path c fs. (ok c, fs)) outside (print_items items) ([], []) default
    ≡ (ok (meaning items ([], [])), default)
unfolding bytes_eq
compile_tokens-print_items_example =
    compile_tokens-print_items (λ path c fs. (ok c, fs)) default items ([], [])
      ((refl, (refl, tt)), ((refl, refl, refl, (refl, refl, refl, tt))))
