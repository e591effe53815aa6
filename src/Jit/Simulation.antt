-- ===== src/Jit/Simulation.antt =====
-- Compiled code against the interpreter (aeon-vm/src/jit.rs, aeon-vm/src/vm.rs): where a run of the
-- interpreter halts, the code returns with the same registers.
use aeon_flow.Base.{
  ℕ, zero, suc, ◌+◌, ◌^◌, ◌<◌, ◌≤◌, ◌≡◌, refl, sym, ap, ◌∙◌, subst, ◌⊎◌, inl, inr, true, false,
  Bool-cases, some, Option-cases, List, [], ◌∷◌, arith, ◌==◌, length, get_elem?, get_elem?-ge,
  lt_of_get_elem?, ok,
}
use aeon_flow.Heap.{has_index}
use aeon_flow.Inst.{Program}
use aeon_flow.Machine.{VmState, StepResult, step, run}
use aeon_flow.Machine.Invariant.{AllInRange, InRange-at}
use aeon_flow.Jit.{
  Op, Terminator, goto, brif, Block, Code, block_from, blocks_of, next_block, avoids_start,
  all_avoid_start, find_block, exec_code,
}
use aeon_flow.Jit.Leaders.{AreLeaders}
use aeon_flow.Jit.Blocks.{blocks_of-IsBlockAt}
use aeon_flow.Jit.Steps.{keyed-inv, Untouched, emit_inst-Matches}

-- The interpreter, one step on.
module _ (n : ℕ) (p : Program) (vm : VmState) where
  run-ok : (after : VmState) → step p vm ≡ (StepResult.ok, after) → run (suc n) p vm ≡ run n p after
  unfolding run
  run-ok after e = rw (e, run) (rw e refl)

  run-halted : step p vm ≡ (StepResult.halted, vm) → run (suc n) p vm ≡ some (ok vm.steps, vm)
  unfolding run
  run-halted e = rw (e, run) (rw e refl)

step-past :
    (p : Program) (vm : VmState)
    → length p.instructions ≤ vm.pc
    → step p vm ≡ (StepResult.halted, vm)
unfolding step
step-past p vm l = rw (get_elem?-ge p.instructions vm.pc l, step) refl

exec_code-goto :
    (m : ℕ) (code : Code) (end : Terminator) (env : List ℕ)
    → exec_code m code [] (goto (next_block end env)) env ≡ exec_code m code [] end env
unfolding exec_code
exec_code-goto zero code end env = refl
exec_code-goto (suc m) code end env = refl

next_block-start :
    (end : Terminator) (env : List ℕ) → avoids_start end ≡ true → (next_block end env == 0) ≡ false
next_block-start (goto t) env a = ground arith
next_block-start (brif cond t e) env a = ground arith

pub find_block-avoids :
    (t : ℕ) (bs : List Block) {b : Block}
    → all_avoid_start bs ≡ true
    → find_block t bs ≡ some b
    → avoids_start b.end ≡ true
unfolding all_avoid_start find_block
find_block-avoids t [] a f = absurd (cc f)
find_block-avoids t (x ∷ bs) {b} a f = elim (Bool-cases (x.start == t)) [
  | inl q ↦
      let same : x ≡ b = (cc (rw q at f)) in
      subst (λ y. avoids_start y.end ≡ true) same (ground arith)
  | inr q ↦ find_block-avoids t bs (ground arith) (rw q at f)
]

Untouched-trans :
    (touched a b c : List ℕ) → Untouched touched a b → Untouched touched b c → Untouched touched a c
Untouched-trans touched a b c u v = (v.0 ∙ u.0, λ r h. v.1 r h ∙ u.1 r h)

module _ (p : Program) (code : Code) (leaders : List ℕ) (small : length p.instructions < 2 ^ 63)
    (in_range : AllInRange p.instructions)
    (are_leaders : AreLeaders (length p.instructions) leaders)
    (built : blocks_of leaders code.touched p.instructions leaders ≡ ok code.blocks)
    (at_exit : code.exit ≡ length p.instructions)
    (accepted : all_avoid_start code.blocks ≡ true) where
  -- The code comes to the registers of `vm'` from the middle of a block.
  abbrev pub Reaches : List Op → Terminator → VmState → VmState → Type 0
  Reaches ops end vm vm' =
      (m : ℕ) × (exec_code m code ops end vm.regs ≡ some vm'.regs)
      × Untouched code.touched vm.regs vm'.regs

  -- So it does for every run of at most `n` steps that halts.
  abbrev pub Simulates : ℕ → ℕ → Type 0
  Simulates n k =
      (vm : VmState) (ops : List Op) (end : Terminator) (s : ℕ) (vm' : VmState)
      → length vm.regs ≡ 256
      → block_from leaders code.touched p.instructions k vm.pc ≡ ok (ops, end)
      → avoids_start end ≡ true
      → run n p vm ≡ some (ok s, vm')
      → Reaches ops end vm vm'

  -- At the end of the program the code returns.
  exit-Reaches :
      (vm vm' : VmState) (end : Terminator)
      → next_block end vm.regs ≡ length p.instructions
      → vm ≡ vm'
      → Reaches [] end vm vm'
  unfolding exec_code
  exit-Reaches vm vm' end e same =
      let at_end : (next_block end vm.regs == code.exit) ≡ true = ground (arith, at_exit) in
      subst (Reaches [] end vm) same (1, rw at_end refl, (refl, λ r h. refl))

  -- From the end of a block, for the steps behind.
  leave :
      (n : ℕ)
      → ((j : ℕ) → Simulates n j)
      → (vm : VmState) (end : Terminator) (s : ℕ) (vm' : VmState) → length vm.regs ≡ 256
      → avoids_start end ≡ true
      → run (suc n) p vm ≡ some (ok s, vm')
      → has_index (next_block end vm.regs) leaders ≡ true
      → ((after : VmState) × (step p vm ≡ (StepResult.ok, after))
          × (after.regs ≡ vm.regs)
          × (after.pc ≡ next_block end vm.regs))
        ⊎ ((step p vm ≡ (StepResult.halted, vm)) × (next_block end vm.regs ≡ length p.instructions))
      → Reaches [] end vm vm'
  unfolding block_from
  leave n ih vm end s vm' regs_256 avoids r has (inl (after, st, regs, pc)) =
      let has' : has_index after.pc leaders ≡ true =
        subst (λ q. has_index q leaders ≡ true) (sym pc) has in
      let start = next_block-start end vm.regs avoids in
      let (m, x, u) =
        ih 0 after [] (goto after.pc) s vm' (ap length regs ∙ regs_256) (rw has' refl)
          (ground (arith, pc)) (sym (run-ok n p vm after st) ∙ r) in
      (
        m,
        cc (exec_code-goto m code end vm.regs, x, pc, regs),
        subst (λ q. Untouched code.touched q vm'.regs) regs u,
      )
  leave n ih vm end s vm' regs_256 avoids r has (inr (st, at)) =
      exit-Reaches vm vm' end at (cc (run-halted n p vm st, r))

  -- Inside a window, for the steps behind.
  window-Simulates : (n k : ℕ) → ((j : ℕ) → Simulates n j) → Simulates (suc n) (suc k)
  unfolding block_from exec_code
  window-Simulates n k ih vm ops end s vm' regs_256 e avoids r =
      let rest = block_from leaders code.touched p.instructions k (vm.pc + 1) in
      elim (Option-cases (get_elem? p.instructions vm.pc)) [
        | inl none_here ↦ absurd (cc (rw none_here at e))
        | inr (i, here) ↦
            elim (emit_inst-Matches leaders code.touched p vm small regs_256 i rest
              (InRange-at p.instructions vm.pc in_range here) here
              (lt_of_get_elem? p.instructions vm.pc here) (rw here at e)) [
                | inl g ↦
                    let (m, x, u) =
                      ih k g.after g.ops' end s vm' (g.untouched.0 ∙ regs_256)
                        (subst
                          (λ q.
                            block_from leaders code.touched p.instructions k q ≡ ok (g.ops', end))
                          (sym g.pc_after) g.rest_ok)
                        avoids (sym (run-ok n p vm g.after g.stepped) ∙ r) in
                    subst (λ o. Reaches o end vm vm') (sym g.split)
                      (
                        suc m,
                        subst (λ q. exec_code m code g.ops' end q ≡ some vm'.regs) g.regs_after x,
                        Untouched-trans code.touched vm.regs g.after.regs vm'.regs g.untouched u,
                      )
                | inr l ↦
                    subst (λ o. Reaches o end vm vm') (sym l.no_ops)
                      (leave n ih vm end s vm' regs_256 avoids r l.to_leader l.moves)
              ]
      ]

  -- At a leader: the end, or the start of a block.
  land-Simulates : (n : ℕ) → ((j : ℕ) → Simulates (suc n) (suc j)) → Simulates (suc n) 0
  unfolding block_from exec_code
  land-Simulates n window vm ops end s vm' regs_256 e avoids r =
      let len = length p.instructions in
      let (has, same) = keyed-inv leaders vm.pc ([], goto vm.pc) e in
      let here : avoids_start (goto vm.pc) ≡ true =
        (cc (ap (λ q. avoids_start q.1) same, avoids)) in
      subst (λ q. Reaches q.0 q.1 vm vm') same
        (elim (Bool-cases (vm.pc == len)) [
          | inl t ↦
              let past = step-past p vm (ground arith) in
              exit-Reaches vm vm' (goto vm.pc) (ground arith) (cc (run-halted n p vm past, r))
          | inr t ↦
              let l = are_leaders.bounded vm.pc has in
              let b =
                blocks_of-IsBlockAt leaders code.touched p.instructions vm.pc len 0 leaders
                  are_leaders.ascending has are_leaders.has_end (ground arith) built in
              let (m, x, u) =
                window b.size vm b.block.ops b.block.end s vm' regs_256 b.emitted
                  (find_block-avoids vm.pc code.blocks accepted b.found) r in
              let a : (vm.pc == code.exit) ≡ false = ground (arith, at_exit) in
              let c : (vm.pc == 0) ≡ false = ground arith in (suc m, rw (a, c, b.found) x, u)
        ])

  pub simulates : (n k : ℕ) → Simulates n k
  unfolding run
  simulates zero k = λ vm ops end s vm' regs_256 e avoids r. absurd (cc r)
  simulates (suc n) zero = land-Simulates n (λ j. window-Simulates n j (λ i. simulates n i))
  simulates (suc n) (suc k) = window-Simulates n k (λ i. simulates n i)
