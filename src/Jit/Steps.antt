-- ===== src/Jit/Steps.antt =====
-- What is emitted for one instruction (aeon-vm/src/jit.rs) against one step of the interpreter.
use aeon_flow.Base.{
  ℕ, ◌+◌, ◌-◌, ◌*◌, ◌%◌, ◌^◌, ◌<◌, ◌≤◌, ◌≡◌, refl, ap, ◌∙◌, subst, ◌⊎◌, inl, inr, true, false,
  Bool-cases, some, List, [], ◌∷◌, arith, ltb, lt→ltb, ◌==◌, if◌then◌else◌, length, length-set,
  get_elem?, get_elem?-lt, get_elem?-set_ne, set, Outcome, ok, err, panic, ◌>>=◌, bind-eq-ok,
}
use aeon_flow.Heap.{has_index}
use aeon_flow.Inst.{
  Inst, Offset, Program, forward, backward, load_imm, mov, add, sub, mul, jz, jump, call, ret,
  print, load_mem, store_mem, alloc, halt, syscall,
}
use aeon_flow.Machine.{
  VmState, StepResult, next, reg, set_reg, next_pc, offset_pc, exec_inst, finish_step, step,
}
use aeon_flow.Machine.Invariant.{InRange}
use aeon_flow.Jit.{
  JitError, checked_target, Op, iconst, copy, iadd, isub, imul, Terminator, goto, brif, keyed, emit,
  emit_inst, var3, exec_op, next_block,
}

pub keyed-inv :
    {A : Type 0} (keys : List ℕ) (k : ℕ) (a : A) {b : A}
    → keyed keys k a ≡ ok b
    → (has_index k keys ≡ true) × (a ≡ b)
keyed-inv keys k a e = elim (Bool-cases (has_index k keys)) [
  | inl t ↦ (t, cc (rw t at e))
  | inr t ↦ absurd (cc (rw t at e))
]

emit-inv :
    (op : Op) (rest : Outcome JitError (List Op × Terminator)) {ops : List Op} {end : Terminator}
    → (rest >>= emit op) ≡ ok (ops, end)
    → (ops' : List Op) × (rest ≡ ok (ops', end)) × (ops ≡ op ∷ ops')
emit-inv op (ok (ops', end')) e = (ops', cc e, cc e)
emit-inv op (err x) e = absurd (cc e)
emit-inv op panic e = absurd (cc e)

-- The offset that the compiler follows is the one that the interpreter follows.
pub checked_target-offset_pc :
    (pc len t : ℕ) (off : Offset)
    → pc < len
    → len < 2 ^ 63
    → checked_target pc off len ≡ ok t
    → (offset_pc pc off ≡ t) × (t ≤ len)
unfolding checked_target offset_pc
checked_target-offset_pc pc len t (forward n) l small e = (ground arith, ground arith)
checked_target-offset_pc pc len t (backward n) l small e = (ground arith, ground arith)

-- The registers that no instruction names are as they were.
abbrev pub Untouched : List ℕ → List ℕ → List ℕ → Type 0
Untouched touched old new =
    (length new ≡ length old)
    × ((r : ℕ) → has_index r touched ≡ false → get_elem? new r ≡ get_elem? old r)

-- An instruction of the program `p`, at the counter of the machine `vm`.
module _ (leaders touched : List ℕ) (p : Program) (vm : VmState) where
  -- The instruction goes on to the next one, and the operation does what it does.
  pub record GoesOn (rest : Outcome JitError (List Op × Terminator)) (ops : List Op)
      (end : Terminator) : Type 0 where
    pub op : Op
    pub ops' : List Op
    pub rest_ok : rest ≡ ok (ops', end)
    pub split : ops ≡ op ∷ ops'
    pub after : VmState
    pub stepped : step p vm ≡ (StepResult.ok, after)
    pub regs_after : after.regs ≡ exec_op op vm.regs
    pub pc_after : after.pc ≡ vm.pc + 1
    pub untouched : Untouched touched vm.regs after.regs

  -- The instruction ends the block, and leads where the interpreter goes.
  pub record Leads (ops : List Op) (end : Terminator) : Type 0 where
    pub no_ops : ops ≡ []
    pub to_leader : has_index (next_block end vm.regs) leaders ≡ true
    pub moves :
        ((after : VmState) × (step p vm ≡ (StepResult.ok, after))
          × (after.regs ≡ vm.regs)
          × (after.pc ≡ next_block end vm.regs))
        ⊎ ((step p vm ≡ (StepResult.halted, vm)) × (next_block end vm.regs ≡ length p.instructions))

  module _ (small : length p.instructions < 2 ^ 63) (regs_256 : length vm.regs ≡ 256) (i : Inst)
      (here : get_elem? p.instructions vm.pc ≡ some i)
      (inside : vm.pc < length p.instructions) where
    step-here : step p vm ≡ finish_step (exec_inst i vm).0 (exec_inst i vm).1
    unfolding step
    step-here = rw (here, step) refl

    -- What a write to register `d` makes of the step.
    writes :
        (op : Op) (d x : ℕ) (rest : Outcome JitError (List Op × Terminator)) {ops : List Op}
        {end : Terminator}
        → d < 256
        → has_index d touched ≡ true
        → exec_inst i vm
          ≡ (Outcome.ok next, record vm { regs = set vm.regs d x; pc = (vm.pc + 1) % 2 ^ 64 })
        → set vm.regs d x ≡ exec_op op vm.regs
        → (rest >>= emit op) ≡ ok (ops, end)
        → GoesOn rest ops end
    unfolding finish_step
    writes op d x rest l t e same f =
        let (ops', e₁, e₂) = emit-inv op rest f in
        record {
          op = op;
          ops' = ops';
          rest_ok = e₁;
          split = e₂;
          after = record vm {
            regs = set vm.regs d x;
            pc = (vm.pc + 1) % 2 ^ 64;
            steps = (vm.steps + 1) % 2 ^ 64;
          };
          stepped = step-here ∙ (rw e refl);
          regs_after = same;
          pc_after = omega arith;
          untouched = (
            length-set vm.regs d x,
            λ r h. get_elem?-set_ne vm.regs d r x (λ q. cc (ap (λ y. has_index y touched) q, t, h)),
          );
        }

    register : (r : ℕ) → r < 256 → (x : ℕ) × (get_elem? vm.regs r ≡ some x)
    register r l = get_elem?-lt vm.regs r (omega arith)

    room : (r : ℕ) → r < 256 → ltb r (length vm.regs) ≡ true
    room r l = lt→ltb r (length vm.regs) (omega arith)

    binary-GoesOn :
        (op : Op) (f : ℕ → ℕ → ℕ) (d a b : ℕ) (rest : Outcome JitError (List Op × Terminator))
        {ops : List Op} {end : Terminator}
        → (d < 256) × (a < 256) × (b < 256)
        → has_index d touched ≡ true
        → ((x y : ℕ)
            → get_elem? vm.regs a ≡ some x
            → get_elem? vm.regs b ≡ some y
            → (exec_inst i vm ≡ (
              Outcome.ok next,
              record vm { regs = set vm.regs d (f x y); pc = (vm.pc + 1) % 2 ^ 64 },
            ))
              × (set vm.regs d (f x y) ≡ exec_op op vm.regs))
        → (rest >>= emit op) ≡ ok (ops, end)
        → GoesOn rest ops end
    binary-GoesOn op f d a b rest (ld, la, lb) t h e =
        let (x, ex) = register a la in
        let (y, ey) = register b lb in
        let (e₁, e₂) = h x y ex ey in writes op d (f x y) rest ld t e₁ e₂ e

  var3-inv :
      (a b d : ℕ) {u : Unit}
      → var3 leaders touched p.instructions a b d ≡ ok u
      → has_index d touched ≡ true
  var3-inv a b d e =
      let (_, _, f) = bind-eq-ok (keyed touched a tt) _ e in
      let (_, _, g) = bind-eq-ok (keyed touched b tt) _ f in (keyed-inv touched d tt g).0

  -- Where the code goes on, so does the interpreter, with the registers that the operation gives; where
  -- it ends a block, the interpreter goes to the instruction that the block leads to, or halts.
  pub emit_inst-Matches :
      (small : length p.instructions < 2 ^ 63) (regs_256 : length vm.regs ≡ 256) (i : Inst)
      (rest : Outcome JitError (List Op × Terminator)) {ops : List Op} {end : Terminator}
      → InRange i
      → get_elem? p.instructions vm.pc ≡ some i
      → vm.pc < length p.instructions
      → emit_inst leaders touched p.instructions vm.pc rest i ≡ ok (ops, end)
      → GoesOn rest ops end ⊎ Leads ops end
  unfolding emit_inst exec_inst reg set_reg next_pc finish_step
  emit_inst-Matches small regs_256 (load_imm d x) rest r here inside e =
      let (_, v, f) = bind-eq-ok (keyed touched d tt) _ e in
      inl (
        writes small regs_256 (load_imm d x) here inside (iconst d x) d x rest r
          (keyed-inv touched d tt v).0
          (rw (room small regs_256 (load_imm d x) here inside d r) refl) refl f)
  emit_inst-Matches small regs_256 (mov d s) rest r here inside e =
      let (_, v, f) = bind-eq-ok (keyed touched s tt) _ e in
      let (_, w, g) = bind-eq-ok (keyed touched d tt) _ f in
      let (x, ex) = register small regs_256 (mov d s) here inside s r.1 in
      inl (
        writes small regs_256 (mov d s) here inside (copy d s) d x rest r.0
          (keyed-inv touched d tt w).0
          (rw (ex, room small regs_256 (mov d s) here inside d r.0) refl) (rw ex refl) g)
  emit_inst-Matches small regs_256 (add d a b) rest r here inside e =
      let (_, v, f) = bind-eq-ok (var3 leaders touched p.instructions a b d) _ e in
      inl (
        binary-GoesOn small regs_256 (add d a b) here inside (iadd d a b) (λ x y. (x + y) % 2 ^ 64)
          d a b rest r (var3-inv a b d v)
          (λ x y ex ey.
            (rw (ex, ey, room small regs_256 (add d a b) here inside d r.0) refl, rw (ex, ey) refl))
          f)
  emit_inst-Matches small regs_256 (sub d a b) rest r here inside e =
      let (_, v, f) = bind-eq-ok (var3 leaders touched p.instructions a b d) _ e in
      inl (
        binary-GoesOn small regs_256 (sub d a b) here inside (isub d a b)
          (λ x y. (x + (2 ^ 64 - y)) % 2 ^ 64) d a b rest r (var3-inv a b d v)
          (λ x y ex ey.
            (rw (ex, ey, room small regs_256 (sub d a b) here inside d r.0) refl, rw (ex, ey) refl))
          f)
  emit_inst-Matches small regs_256 (mul d a b) rest r here inside e =
      let (_, v, f) = bind-eq-ok (var3 leaders touched p.instructions a b d) _ e in
      inl (
        binary-GoesOn small regs_256 (mul d a b) here inside (imul d a b) (λ x y. x * y % 2 ^ 64) d
          a b rest r (var3-inv a b d v)
          (λ x y ex ey.
            (rw (ex, ey, room small regs_256 (mul d a b) here inside d r.0) refl, rw (ex, ey) refl))
          f)
  emit_inst-Matches small regs_256 (jz c off) rest r here inside e =
      let (_, v, f) = bind-eq-ok (keyed touched c tt) _ e in
      let (t, g, h) = bind-eq-ok (checked_target vm.pc off (length p.instructions)) _ f in
      let (_, w, k) = bind-eq-ok (keyed leaders t tt) _ h in
      let (on, same) = keyed-inv leaders (vm.pc + 1) ([], brif c t (vm.pc + 1)) k in
      let to = (keyed-inv leaders t tt w).0 in
      let (x, ex) = register small regs_256 (jz c off) here inside c r in
      let (off', _) = checked_target-offset_pc vm.pc (length p.instructions) t off inside small g in
      let stepped = step-here small regs_256 (jz c off) here inside in
      subst (λ q. GoesOn rest q.0 q.1 ⊎ Leads q.0 q.1) same
        (inr (record {
          no_ops = refl;
          to_leader = rw ex (elim (Bool-cases (x == 0)) [ inl z ↦ rw z to | inr z ↦ rw z on ]);
          moves = inl (
            record vm {
              pc = if x == 0 then offset_pc vm.pc off else (vm.pc + 1) % 2 ^ 64;
              steps = (vm.steps + 1) % 2 ^ 64;
            },
            stepped ∙ (rw ex refl),
            refl,
            rw ex (elim (Bool-cases (x == 0)) [ inl z ↦ rw z off' | inr z ↦ rw z (omega arith) ]),
          );
        }))
  emit_inst-Matches small regs_256 (jump off) rest r here inside e =
      let (t, g, h) = bind-eq-ok (checked_target vm.pc off (length p.instructions)) _ e in
      let (to, same) = keyed-inv leaders t ([], goto t) h in
      let (off', _) = checked_target-offset_pc vm.pc (length p.instructions) t off inside small g in
      subst (λ q. GoesOn rest q.0 q.1 ⊎ Leads q.0 q.1) same
        (inr (record {
          no_ops = refl;
          to_leader = to;
          moves = inl (
            record vm { pc = offset_pc vm.pc off; steps = (vm.steps + 1) % 2 ^ 64 },
            step-here small regs_256 (jump off) here inside,
            refl,
            off',
          );
        }))
  emit_inst-Matches small regs_256 halt rest r here inside e =
      let len = length p.instructions in
      let (to, same) = keyed-inv leaders len ([], goto len) e in
      subst (λ q. GoesOn rest q.0 q.1 ⊎ Leads q.0 q.1) same
        (inr (record {
          no_ops = refl;
          to_leader = to;
          moves = inr (step-here small regs_256 halt here inside, refl);
        }))
  emit_inst-Matches small regs_256 (call a) rest r here inside e = absurd (cc e)
  emit_inst-Matches small regs_256 ret rest r here inside e = absurd (cc e)
  emit_inst-Matches small regs_256 (print a) rest r here inside e = absurd (cc e)
  emit_inst-Matches small regs_256 (load_mem a b) rest r here inside e = absurd (cc e)
  emit_inst-Matches small regs_256 (store_mem a b) rest r here inside e = absurd (cc e)
  emit_inst-Matches small regs_256 (alloc a b) rest r here inside e = absurd (cc e)
  emit_inst-Matches small regs_256 (syscall a) rest r here inside e = absurd (cc e)
