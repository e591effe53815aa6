-- ===== src/Jit/Engine.antt =====
-- The engine that compiles hot programs and runs them (aeon-vm/src/jit.rs). Programs stand by their
-- identifier; the names of functions and the module of Cranelift are not modelled.
use aeon_flow.Base.{
  ℕ, ◌+◌, Bool, true, false, Option, none, some, List, leb, ◌==◌, if◌then◌else◌, length, Bytes,
  Table, lookup, insert, Outcome, ok, err, panic,
}
use aeon_flow.Inst.{Program}
use aeon_flow.Machine.{VmState}
use aeon_flow.Jit.{JitError, not_at_start, not_compiled, Code, compile, entry}

pub record JitEngine : Type 0 where
  pub counts : Table ℕ
  pub compiled : Table Code

abbrev pub hot_threshold : ℕ
hot_threshold = 1000

-- A count, or 0
abbrev pub count_of : Option ℕ → ℕ
count_of none = 0
count_of (some n) = n

unfoldable pub hot_count : Bytes → JitEngine → ℕ
hot_count id e = count_of (lookup id e.counts)

abbrev pub is_some : {A : Type 0} → Option A → Bool
is_some none = false
is_some (some _) = true

unfoldable pub has_compiled : Bytes → JitEngine → Bool
has_compiled id e = is_some (lookup id e.compiled)

abbrev add_code : Bytes → JitEngine → Outcome JitError Code → Outcome JitError JitEngine
add_code id e (ok code) = ok (record e { compiled = insert id code e.compiled })
add_code id e (err x) = err x
add_code id e panic = panic

-- `compile`, for the identifier of the program
unfoldable pub compile_program : Bytes → Program → JitEngine → Outcome JitError JitEngine
unfolding has_compiled compile
compile_program id p e = if has_compiled id e then ok e else add_code id e (compile p)

-- Methods on the engine and the machine: the result, and what they leave. `none` says that the
-- compiled function has not returned with the fuel given.
abbrev pub Run : Type 0 → Type 0
Run A = Option (Outcome JitError A × (JitEngine × VmState))

abbrev finish_run : ℕ → JitEngine → VmState → Option (List ℕ) → Run Unit
finish_run len e vm none = none
finish_run len e vm (some regs) = some (ok tt, (e, record vm { regs = regs; pc = len }))

unfoldable pub run_compiled_cached : ℕ → Bytes → ℕ → JitEngine → VmState → Run Unit
unfolding entry
run_compiled_cached fuel id program_len e vm =
    if vm.pc == 0
    then (elim (lookup id e.compiled) [
      | none ↦ some (err not_compiled, (e, vm))
      | some code ↦ finish_run program_len e vm (entry fuel code vm.regs)
    ])
    else some (err not_at_start, (e, vm))

unfoldable pub run_compiled : ℕ → Bytes → Program → JitEngine → VmState → Run Unit
unfolding run_compiled_cached compile_program
run_compiled fuel id p e vm =
    if vm.pc == 0
    then (elim (compile_program id p e) [
      | ok e' ↦ run_compiled_cached fuel id (length p.instructions) e' vm
      | err x ↦ some (err x, (e, vm))
      | panic ↦ some (panic, (e, vm))
    ])
    else some (err not_at_start, (e, vm))

abbrev ran : Run Unit → Run Bool
ran none = none
ran (some (ok _, s)) = some (ok true, s)
ran (some (err x, s)) = some (err x, s)
ran (some (panic, s)) = some (panic, s)

-- Every error of `compile` that is modelled is an `Unsupported`, for which the interpreter goes on.
unfoldable pub run_hot : ℕ → Bytes → Program → JitEngine → VmState → Run Bool
unfolding hot_count compile_program run_compiled
run_hot fuel id p e₀ vm =
    let count = hot_count id e₀ + 1 in
    let e = record e₀ { counts = insert id count e₀.counts } in
    if leb count hot_threshold then some (ok false, (e, vm)) else (elim (compile_program id p e) [
      | ok e' ↦ ran (run_compiled fuel id p e' vm)
      | err x ↦ some (ok false, (e, vm))
      | panic ↦ some (panic, (e, vm))
    ])
