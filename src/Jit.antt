-- ===== src/Jit.antt =====
-- The compiler of hot programs (aeon-vm/src/jit.rs): which programs it takes, and the blocks that it
-- emits. Cranelift turns the blocks into machine code; `exec_code` is the documented meaning of the
-- instructions used, on 64-bit words. The first block takes the function's parameter, so that no
-- branch may lead back to it: Cranelift refuses such code, and its run has no result here.
pub mod Engine
pub mod Leaders
pub mod Steps
pub mod Blocks
pub mod Simulation
pub mod Entry
use aeon_flow.Base.{
  ℕ, zero, suc, ◌+◌, ◌-◌, ◌*◌, ◌%◌, ◌^◌, Bool, true, false, not, ◌&&◌, ◌||◌, Option, none, some,
  List, [], ◌∷◌, ltb, leb, ◌==◌, if◌then◌else◌, length, get_elem?, set, Outcome, ok, err, panic,
  ◌>>=◌, ◌>>◌, expect,
}
use aeon_flow.Heap.{insert_index, has_index}
use aeon_flow.Inst.{
  Inst, Offset, Program, forward, backward, load_imm, mov, add, sub, mul, jz, jump, halt,
}

-- `JitError::Unsupported`, by its message
pub data JitError : Type 0 where
  branch_outside : (pc : ℕ) (offset : Offset) (len : ℕ) → JitError
  side_effects : Inst → JitError
  not_at_start not_compiled : JitError

-- The sum in the source is of an `isize`, which an index into a `Vec` does not bring to overflow.
unfoldable pub checked_target : ℕ → Offset → ℕ → Outcome JitError ℕ
checked_target pc (forward n) len =
    if ltb len (pc + n) then err (branch_outside pc (forward n) len) else ok (pc + n)
checked_target pc (backward n) len =
    if leb pc n || ltb len (pc - (n + 1))
    then err (branch_outside pc (backward n) len)
    else ok (pc - (n + 1))

unfoldable pub validate_from : ℕ → ℕ → List Inst → Outcome JitError Unit
unfolding checked_target
validate_from pc len [] = ok tt
validate_from pc len (load_imm _ _ ∷ is) = validate_from (pc + 1) len is
validate_from pc len (mov _ _ ∷ is) = validate_from (pc + 1) len is
validate_from pc len (add _ _ _ ∷ is) = validate_from (pc + 1) len is
validate_from pc len (sub _ _ _ ∷ is) = validate_from (pc + 1) len is
validate_from pc len (mul _ _ _ ∷ is) = validate_from (pc + 1) len is
validate_from pc len (halt ∷ is) = validate_from (pc + 1) len is
validate_from pc len (jz _ off ∷ is) = do
  _ ← checked_target pc off len
  validate_from (pc + 1) len is
validate_from pc len (jump off ∷ is) = do
  _ ← checked_target pc off len
  validate_from (pc + 1) len is
validate_from pc len (other ∷ is) = err (side_effects other)

unfoldable pub validate_program : Program → Outcome JitError Unit
unfolding validate_from
validate_program p = validate_from 0 (length p.instructions) p.instructions

-- The loop of `basic_block_leaders`
unfoldable pub leaders_from : ℕ → ℕ → List Inst → List ℕ → Outcome JitError (List ℕ)
unfolding checked_target insert_index
leaders_from pc len [] leaders = ok leaders
leaders_from pc len (jz _ off ∷ is) leaders = do
  t ← checked_target pc off len
  leaders_from (pc + 1) len is (insert_index (pc + 1) (insert_index t leaders))
leaders_from pc len (jump off ∷ is) leaders = do
  t ← checked_target pc off len
  leaders_from (pc + 1) len is (insert_index (pc + 1) (insert_index t leaders))
leaders_from pc len (halt ∷ is) leaders =
    leaders_from (pc + 1) len is (insert_index (pc + 1) leaders)
leaders_from pc len (other ∷ is) leaders = leaders_from (pc + 1) len is leaders

-- `.filter(|leader| *leader <= len)`
unfoldable pub up_to : ℕ → List ℕ → List ℕ
up_to len [] = []
up_to len (l ∷ ls) = let rest = up_to len ls in if leb l len then l ∷ rest else rest

unfoldable pub basic_block_leaders : Program → Outcome JitError (List ℕ)
unfolding leaders_from up_to
basic_block_leaders p = do
  let len = length p.instructions
  leaders ← leaders_from 0 len p.instructions (insert_index len (insert_index 0 []))
  ok (up_to len leaders)

-- The loop of `touched_registers`; the `unreachable!` is a panic.
unfoldable pub touched_from : List Inst → List ℕ → Outcome JitError (List ℕ)
unfolding insert_index
touched_from [] regs = ok regs
touched_from (load_imm dst _ ∷ is) regs = touched_from is (insert_index dst regs)
touched_from (mov dst src ∷ is) regs = touched_from is (insert_index src (insert_index dst regs))
touched_from (add dst a b ∷ is) regs =
    touched_from is (insert_index b (insert_index a (insert_index dst regs)))
touched_from (sub dst a b ∷ is) regs =
    touched_from is (insert_index b (insert_index a (insert_index dst regs)))
touched_from (mul dst a b ∷ is) regs =
    touched_from is (insert_index b (insert_index a (insert_index dst regs)))
touched_from (jz cond _ ∷ is) regs = touched_from is (insert_index cond regs)
touched_from (jump _ ∷ is) regs = touched_from is regs
touched_from (halt ∷ is) regs = touched_from is regs
touched_from (_ ∷ is) regs = panic

-- What is emitted for an instruction that goes on, over the variables of the registers, and for the
-- end of a block.
pub data Op : Type 0 where
  iconst : (dst val : ℕ) → Op
  copy : (dst src : ℕ) → Op
  iadd isub imul : (dst a b : ℕ) → Op

pub data Terminator : Type 0 where
  goto : ℕ → Terminator
  brif : (cond zero_target other_target : ℕ) → Terminator

pub record Block : Type 0 where
  pub start : ℕ
  pub ops : List Op
  pub end : Terminator

pub record Code : Type 0 where
  pub blocks : List Block
  pub touched : List ℕ
  pub exit : ℕ

-- `blocks[&target]` and `reg_vars[&reg]`, which panic without their key
abbrev pub keyed : {A : Type 0} → List ℕ → ℕ → A → Outcome JitError A
keyed keys k a = if has_index k keys then ok a else panic

abbrev pub emit : Op → List Op × Terminator → Outcome JitError (List Op × Terminator)
emit op (ops, end) = ok (op ∷ ops, end)

-- The blocks and variables that `build_function` may name, and the program.
module _ (leaders touched : List ℕ) (is : List Inst) where
  abbrev pub goto_block : ℕ → Outcome JitError (List Op × Terminator)
  goto_block t = keyed leaders t ([], goto t)

  abbrev pub var3 : ℕ → ℕ → ℕ → Outcome JitError Unit
  var3 a b dst = do _ ← keyed touched a tt; _ ← keyed touched b tt; keyed touched dst tt

  -- The arms of the match on the instruction at `pc`, for what the rest of the window gives; the
  -- `unreachable!` is a panic.
  unfoldable pub emit_inst :
      ℕ → Outcome JitError (List Op × Terminator) → Inst → Outcome JitError (List Op × Terminator)
  emit_inst pc rest (load_imm dst val) = do
    _ ← keyed touched dst tt
    r ← rest
    emit (iconst dst val) r
  emit_inst pc rest (mov dst src) = do
    _ ← keyed touched src tt
    _ ← keyed touched dst tt
    r ← rest
    emit (copy dst src) r
  emit_inst pc rest (add dst a b) = do _ ← var3 a b dst; r ← rest; emit (iadd dst a b) r
  emit_inst pc rest (sub dst a b) = do _ ← var3 a b dst; r ← rest; emit (isub dst a b) r
  emit_inst pc rest (mul dst a b) = do _ ← var3 a b dst; r ← rest; emit (imul dst a b) r
  emit_inst pc rest (jz cond off) = do
    _ ← keyed touched cond tt
    t ← checked_target pc off (length is)
    _ ← keyed leaders t tt
    keyed leaders (pc + 1) ([], brif cond t (pc + 1))
  emit_inst pc rest (jump off) = do t ← checked_target pc off (length is); goto_block t
  emit_inst pc rest halt = goto_block (length is)
  emit_inst pc rest _ = panic

  -- The loop over one window, with `n` instructions from `pc` to its end
  unfoldable pub block_from : ℕ → ℕ → Outcome JitError (List Op × Terminator)
  unfolding emit_inst
  block_from zero pc = goto_block pc
  block_from (suc n) pc =
      let rest = block_from n (pc + 1) in expect (get_elem? is pc) >>= emit_inst pc rest

  -- The loop over the windows of the leaders
  unfoldable pub blocks_of : List ℕ → Outcome JitError (List Block)
  unfolding block_from
  blocks_of (a ∷ b ∷ rest) = do
    (ops, end) ← block_from (b - a) a
    blocks ← blocks_of (b ∷ rest)
    ok (record { start = a; ops = ops; end = end } ∷ blocks)
  blocks_of _ = ok []

-- `compile`, up to the machine code: `validate_program`, then `build_function`
unfoldable pub compile : Program → Outcome JitError Code
unfolding validate_program basic_block_leaders touched_from blocks_of
compile p = do
  validate_program p
  leaders ← basic_block_leaders p
  touched ← touched_from p.instructions []
  blocks ← blocks_of leaders touched p.instructions leaders
  ok (record { blocks = blocks; touched = touched; exit = length p.instructions })

abbrev pub get_or_zero : Option ℕ → ℕ
get_or_zero none = 0
get_or_zero (some v) = v

abbrev pub var : List ℕ → ℕ → ℕ
var env r = get_or_zero (get_elem? env r)

abbrev pub exec_op : Op → List ℕ → List ℕ
exec_op (iconst dst val) env = set env dst val
exec_op (copy dst src) env = set env dst (var env src)
exec_op (iadd dst a b) env = set env dst ((var env a + var env b) % 2 ^ 64)
exec_op (isub dst a b) env = set env dst ((var env a + (2 ^ 64 - var env b)) % 2 ^ 64)
exec_op (imul dst a b) env = set env dst (var env a * var env b % 2 ^ 64)

abbrev pub next_block : Terminator → List ℕ → ℕ
next_block (goto t) env = t
next_block (brif cond t e) env = if var env cond == 0 then t else e

-- No branch to the first block, and no block of the code has one.
abbrev pub avoids_start : Terminator → Bool
avoids_start (goto t) = not (t == 0)
avoids_start (brif cond t e) = not (t == 0) && not (e == 0)

unfoldable pub all_avoid_start : List Block → Bool
all_avoid_start [] = true
all_avoid_start (b ∷ bs) = avoids_start b.end && all_avoid_start bs

unfoldable pub find_block : ℕ → List Block → Option Block
find_block pc [] = none
find_block pc (b ∷ bs) = if b.start == pc then some b else find_block pc bs

-- A run of the code over the variables, in the middle of a block; `none` where the fuel ends.
unfoldable pub exec_code : ℕ → Code → List Op → Terminator → List ℕ → Option (List ℕ)
exec_code zero code ops end env = none
exec_code (suc f) code (op ∷ ops) end env = exec_code f code ops end (exec_op op env)
exec_code (suc f) code [] end env =
    if next_block end env == code.exit
    then some env
    else if next_block end env == 0
    then none
    else elim (find_block (next_block end env) code.blocks) [
      | none ↦ none
      | some b ↦ exec_code f code b.ops b.end env
    ]

-- The stores of the exit block, into the registers
unfoldable pub store_back : List ℕ → List ℕ → List ℕ → List ℕ
store_back [] env regs = regs
store_back (r ∷ rs) env regs = store_back rs env (set regs r (var env r))

abbrev stored : Code → List ℕ → Option (List ℕ) → Option (List ℕ)
stored code regs none = none
stored code regs (some env) = some (store_back code.touched env regs)

-- The compiled function, from the registers to the registers. Without a first block, the exit block
-- is the entry.
unfoldable pub entry : ℕ → Code → List ℕ → Option (List ℕ)
unfolding find_block exec_code store_back
entry fuel code regs = elim (find_block 0 code.blocks) [
  | none ↦ stored code regs (some regs)
  | some b ↦ stored code regs (exec_code fuel code b.ops b.end regs)
]
