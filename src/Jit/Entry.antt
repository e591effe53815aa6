-- ===== src/Jit/Entry.antt =====
-- A compiled program as a whole (aeon-vm/src/jit.rs): from the registers of the machine to the
-- registers that the interpreter leaves.
use aeon_flow.Base.{
  ℕ, suc, ◌^◌, ◌<◌, ◌≡◌, refl, sym, ap, ◌∙◌, subst, inl, inr, true, false, Bool-cases, some, List,
  [], ◌∷◌, arith, ltb, ◌==◌, length, length-set, get_elem?, get_elem?-lt, get_elem?-ge,
  get_elem?-set_ne, get_elem?-set_self, list_ext, set, ok, bind-eq-ok, Ensures-at,
}
use aeon_flow.Heap.{has_index}
use aeon_flow.Inst.{Program}
use aeon_flow.Machine.{VmState, run}
use aeon_flow.Machine.Invariant.{AllInRange}
use aeon_flow.Jit.{
  Code, block_from, compile, validate_program, basic_block_leaders, touched_from, blocks_of, var,
  all_avoid_start, store_back, entry,
}
use aeon_flow.Jit.Leaders.{AreLeaders, basic_block_leaders-AreLeaders}
use aeon_flow.Jit.Blocks.{blocks_of-IsBlockAt}
use aeon_flow.Jit.Simulation.{find_block-avoids, simulates}

get_elem?-set-var :
    (regs env : List ℕ) (t r : ℕ)
    → length env ≡ length regs
    → (r == t ≡ false → get_elem? env r ≡ get_elem? regs r)
    → get_elem? env r ≡ get_elem? (set regs t (var env t)) r
get_elem?-set-var regs env t r l h = elim (Bool-cases (r == t)) [
  | inr n ↦ h n ∙ sym (get_elem?-set_ne regs t r (var env t) (λ q. absurd (ground arith)))
  | inl y ↦
      let same : r ≡ t = ground arith in
      elim (Bool-cases (ltb r (length env))) [
        | inl i ↦
            let (x, at) = get_elem?-lt env r (ground arith) in
            let value : var env t ≡ x = (rw (← same, at) refl) in
            at ∙ sym (rw (value, ← same) (get_elem?-set_self regs r x (ground arith)))
        | inr i ↦
            get_elem?-ge env r (ground arith)
            ∙ sym (
                get_elem?-ge (set regs t (var env t)) r
                  (ground (arith, length-set regs t (var env t))))
      ]
]

-- The stores of the exit block bring the registers to the variables, where only touched registers
-- differ.
store_back-env :
    (touched env regs : List ℕ)
    → length env ≡ length regs
    → ((r : ℕ) → has_index r touched ≡ false → get_elem? env r ≡ get_elem? regs r)
    → store_back touched env regs ≡ env
unfolding store_back has_index
store_back-env [] env regs l h = list_ext regs env (sym l) (λ i _. sym (h i refl))
store_back-env (t ∷ ts) env regs l h =
    store_back-env ts env (set regs t (var env t)) (l ∙ sym (length-set regs t (var env t)))
      λ r n. get_elem?-set-var regs env t r l (λ q. h r (rw (q, n) refl))

-- The parts of a successful `compile`.
record IsCompiled (p : Program) (code : Code) : Type 0 where
  leaders : List ℕ
  are_leaders : AreLeaders (length p.instructions) leaders
  built : blocks_of leaders code.touched p.instructions leaders ≡ ok code.blocks
  at_exit : code.exit ≡ length p.instructions

compile-IsCompiled : (p : Program) (code : Code) → compile p ≡ ok code → IsCompiled p code
unfolding compile
compile-IsCompiled p code e =
    let (_, _, f) = bind-eq-ok (validate_program p) _ e in
    let (leaders, l, g) = bind-eq-ok (basic_block_leaders p) _ f in
    let (touched, _, h) = bind-eq-ok (touched_from p.instructions []) _ g in
    let (blocks, b, k) = bind-eq-ok (blocks_of leaders touched p.instructions leaders) _ h in
    let code' : Code = record {
      blocks = blocks;
      touched = touched;
      exit = length p.instructions;
    } in
    let same : code' ≡ code = (cc k) in
    subst (IsCompiled p) same (record {
      leaders = leaders;
      are_leaders =
          Ensures-at (AreLeaders (length p.instructions)) (basic_block_leaders p)
            (basic_block_leaders-AreLeaders p) l;
      built = b;
      at_exit = refl;
    })

-- Where the interpreter halts, the compiled code returns, and leaves the registers that the
-- interpreter leaves. This is for a program with an instruction, with operands in range and fewer than
-- 2 ^ 63 instructions, that compiles to code without a branch to its first block, on a machine at
-- instruction 0 with its 256 registers.
pub entry-run :
    (p : Program) (code : Code) (n s : ℕ) (vm vm' : VmState)
    → compile p ≡ ok code
    → all_avoid_start code.blocks ≡ true
    → AllInRange p.instructions
    → 0 < length p.instructions
    → length p.instructions < 2 ^ 63
    → vm.pc ≡ 0
    → length vm.regs ≡ 256
    → run n p vm ≡ some (ok s, vm')
    → (fuel : ℕ) × (entry fuel code vm.regs ≡ some vm'.regs)
unfolding entry
entry-run p code n s vm vm' e accepted in_range some_code small at_start regs_256 r =
    let c = compile-IsCompiled p code e in
    let len = length p.instructions in
    let b =
      blocks_of-IsBlockAt c.leaders code.touched p.instructions 0 len 0 c.leaders
        c.are_leaders.ascending c.are_leaders.has_start c.are_leaders.has_end some_code c.built in
    let emitted =
      subst
        (λ q.
          block_from c.leaders code.touched p.instructions (suc b.size) q
          ≡ ok (b.block.ops, b.block.end))
        (sym at_start) b.emitted in
    let (m, x, u) =
      simulates p code c.leaders small in_range c.are_leaders c.built c.at_exit accepted n
        (suc b.size) vm b.block.ops b.block.end s vm' regs_256 emitted
        (find_block-avoids 0 code.blocks accepted b.found) r in
    (m, rw (b.found, entry) (rw x (ap some (store_back-env code.touched vm'.regs vm.regs u.0 u.1))))
