-- ===== src/Machine/Invariant.antt =====
-- Every step of the machine keeps its invariant and does not panic (aeon-vm/src/vm.rs).
use aeon_flow.Base.{
  ℕ, zero, suc, ◌%◌, ◌<◌, ◌≡◌, ◌≢◌, refl, subst, inl, inr, Bool, true, false, none, some, List, [],
  ◌∷◌, arith, ltb, ltb→lt, get_elem?, get_elem?-lt, Bool-cases, Option-cases, Outcome, ok, err,
  panic, map_err,
}
use aeon_flow.Heap
use aeon_flow.Heap.Flat
use aeon_flow.Heap.{CowHeap}
use aeon_flow.Heap.Ops.{get-ok, set_byte-ok, set_byte-err}
use aeon_flow.Heap.Ranges.{check_range-err}
use aeon_flow.Inst.{
  Inst, Program, load_imm, mov, add, sub, mul, jz, jump, call, ret, print, load_mem, store_mem,
  alloc, halt, syscall,
}
use aeon_flow.Machine.{
  VmState, VmError, memory_out_of_bounds, pure, lift, gets, modify, ◌>>=◌, ◌>>◌, reg, set_reg,
  next_pc, Flow, next, stop, binary, exec_inst, StepResult, panicked, halted, error, pop,
  empty_call_stack, finish_step, step, run_bounded,
}
use aeon_flow.Machine.Calls.{do_alloc-IsSafe, handle_syscall-IsSafe}
use aeon_flow.Machine.Parts.{
  reg-IsSafe, set_reg-IsSafe, next_pc-IsSafe, checked_heap_addr-IsSafe, set_heap-IsValid,
}
use aeon_flow.Machine.Safe.{
  IsValid, NoPanic, IsSafe, IsSafe-bind, IsSafe-gets, IsSafe-ok_or, IsSafe-lift, IsSafe-then,
  IsSafe-pure,
}

-- A field that the invariant does not speak of.
jump-IsSafe : (f : VmState → ℕ) → IsSafe {E = VmError} (modify (λ vm. record vm { pc = f vm }))
jump-IsSafe f = record {
  at = λ vm v. (
    tt,
    record {
      regs_256 = v.regs_256;
      heap_ok = v.heap_ok;
      top_within = v.top_within;
      fs_ok = v.fs_ok;
    },
  );
}

stack-IsSafe :
    (f : VmState → List ℕ) (g : VmState → ℕ)
    → IsSafe {E = VmError} (modify (λ vm. record vm { call_stack = f vm; pc = g vm }))
stack-IsSafe f g = record {
  at = λ vm v. (
    tt,
    record {
      regs_256 = v.regs_256;
      heap_ok = v.heap_ok;
      top_within = v.top_within;
      fs_ok = v.fs_ok;
    },
  );
}

-- The operands are `u8`.
abbrev pub InRange : Inst → Type 0
InRange (load_imm d x) = d < 256
InRange (mov d s) = (d < 256) × (s < 256)
InRange (add d a b) = (d < 256) × (a < 256) × (b < 256)
InRange (sub d a b) = (d < 256) × (a < 256) × (b < 256)
InRange (mul d a b) = (d < 256) × (a < 256) × (b < 256)
InRange (jz c off) = c < 256
InRange (print r) = r < 256
InRange (load_mem d r) = (d < 256) × (r < 256)
InRange (store_mem r s) = (r < 256) × (s < 256)
InRange (alloc d s) = (d < 256) × (s < 256)
InRange _ = Unit

binary-IsSafe :
    (op : ℕ → ℕ → ℕ) (d a b : ℕ) → d < 256 → a < 256 → b < 256 → IsSafe (binary op d a b)
binary-IsSafe op d a b hd ha hb = IsSafe-bind _ _ (reg-IsSafe a ha) λ x.
    IsSafe-bind _ _ (reg-IsSafe b hb) λ y.
      IsSafe-then _ _ (set_reg-IsSafe d (op x y) hd)
        (IsSafe-then _ _ next_pc-IsSafe (IsSafe-pure next))

-- The end of most arms: `self.pc += 1`.
advance-IsSafe : IsSafe (next_pc >> pure next)
advance-IsSafe = IsSafe-then _ _ next_pc-IsSafe (IsSafe-pure next)

get-NoPanic :
    (h : CowHeap) (a : ℕ) (e : VmError) → Flat.IsValid h → NoPanic (map_err (λ _. e) (Heap.get h a))
get-NoPanic h a e v = elim (Bool-cases (ltb a h.len)) [
  | inl t ↦ let (b, q, _) = get-ok h a v (ltb→lt a h.len t) in rw q tt
  | inr t ↦ let (x, q) = check_range-err h a 1 (ground arith) in unfold Heap.get in rw q tt
]

load-IsSafe :
    (addr d : ℕ)
    → d < 256
    → IsSafe (
        gets (λ vm. vm.heap) >>= λ heap.
        lift (map_err (λ _. memory_out_of_bounds addr heap.len) (Heap.get heap addr)) >>= λ byte.
        set_reg d byte >> (next_pc >> pure next))
load-IsSafe addr d l = record {
  at = λ vm v.
      (IsSafe-bind _ _ (IsSafe-lift _ (get-NoPanic vm.heap addr _ v.heap_ok))
          λ byte. IsSafe-then _ _ (set_reg-IsSafe d byte l) advance-IsSafe).at
        vm v;
}

store-IsSafe :
    (addr s : ℕ)
    → s < 256
    → IsSafe (
        gets (λ vm. vm.heap) >>= λ heap. reg s >>= λ x.
        lift (map_err (λ _. memory_out_of_bounds addr heap.len) (Heap.set_byte heap addr (x % 256)))
        >>= λ heap'. modify (λ vm. record vm { heap = heap' }) >> (next_pc >> pure next))
unfolding reg
store-IsSafe addr s l = record {
  at = λ vm v.
      let (x, e) = get_elem?-lt vm.regs s (omega (arith, v.regs_256)) in
      elim (Bool-cases (ltb addr vm.heap.len)) [
        | inl t ↦
            let (h, q, w, _, n) = set_byte-ok vm.heap addr (x % 256) v.heap_ok (ltb→lt _ _ t) in
            rw (e, q) (advance-IsSafe.at (record vm { heap = h }) (set_heap-IsValid vm h v w n))
        | inr t ↦
            let (y, q) = check_range-err vm.heap addr 1 (ground arith) in
            rw (e, set_byte-err vm.heap addr (x % 256) q) (tt, v)
      ];
}

exec_inst-IsSafe : (i : Inst) → InRange i → IsSafe (exec_inst i)
unfolding exec_inst
exec_inst-IsSafe (load_imm d x) h = IsSafe-then _ _ (set_reg-IsSafe d x h) advance-IsSafe
exec_inst-IsSafe (mov d s) h =
    IsSafe-bind _ _ (reg-IsSafe s h.1) λ v. IsSafe-then _ _ (set_reg-IsSafe d v h.0) advance-IsSafe
exec_inst-IsSafe (add d a b) h = binary-IsSafe _ d a b h.0 h.1 h.2
exec_inst-IsSafe (sub d a b) h = binary-IsSafe _ d a b h.0 h.1 h.2
exec_inst-IsSafe (mul d a b) h = binary-IsSafe _ d a b h.0 h.1 h.2
exec_inst-IsSafe (jz c off) h =
    IsSafe-bind _ _ (reg-IsSafe c h) λ v. IsSafe-then _ _ (jump-IsSafe _) (IsSafe-pure next)
exec_inst-IsSafe (jump off) h = IsSafe-then _ _ (jump-IsSafe _) (IsSafe-pure next)
exec_inst-IsSafe (call addr) h = IsSafe-then _ _ (stack-IsSafe _ (λ _. addr)) (IsSafe-pure next)
exec_inst-IsSafe ret h = IsSafe-bind _ _ (IsSafe-gets (λ s. s)) λ vm.
    IsSafe-bind _ _ (IsSafe-ok_or (pop vm.call_stack) empty_call_stack)
      λ r. IsSafe-then _ _ (stack-IsSafe (λ _. r.1) (λ _. r.0)) (IsSafe-pure next)
exec_inst-IsSafe (print r) h = IsSafe-bind _ _ (reg-IsSafe r h) λ _. advance-IsSafe
exec_inst-IsSafe (load_mem d r) h =
    IsSafe-bind _ _ (checked_heap_addr-IsSafe r h.1) λ addr. load-IsSafe addr d h.0
exec_inst-IsSafe (store_mem r s) h =
    IsSafe-bind _ _ (checked_heap_addr-IsSafe r h.0) λ addr. store-IsSafe addr s h.1
exec_inst-IsSafe (alloc d s) h = IsSafe-then _ _ (do_alloc-IsSafe d s h.0 h.1) advance-IsSafe
exec_inst-IsSafe (syscall n) h = IsSafe-then _ _ (handle_syscall-IsSafe n) advance-IsSafe
exec_inst-IsSafe halt h = IsSafe-pure stop

abbrev pub AllInRange : List Inst → Type 0
AllInRange [] = Unit
AllInRange (i ∷ is) = InRange i × AllInRange is

none_ne_some_inst : {i : Inst} → none ≢ some i
none_ne_some_inst e = cc e

pub InRange-at :
    (is : List Inst) (n : ℕ) {i : Inst} → AllInRange is → get_elem? is n ≡ some i → InRange i
InRange-at [] n h e = absurd (none_ne_some_inst e)
InRange-at (j ∷ is) zero h e = subst InRange (cc e) h.0
InRange-at (j ∷ is) (suc n) h e = InRange-at is n h.1 e

finish_step-IsValid :
    (r : Outcome VmError Flow) (vm : VmState)
    → NoPanic r
    → IsValid vm
    → ((finish_step r vm).0 ≢ panicked) × IsValid (finish_step r vm).1
unfolding finish_step
finish_step-IsValid (ok next) vm n v = (
  (cc),
  record { regs_256 = v.regs_256; heap_ok = v.heap_ok; top_within = v.top_within; fs_ok = v.fs_ok },
)
finish_step-IsValid (ok stop) vm n v = ((cc), v)
finish_step-IsValid (err e) vm n v = ((cc), v)
finish_step-IsValid panic vm n v = elim n [ ]

-- One step of a valid machine, over a program whose operands are `u8`, does not panic and leaves the
-- machine valid, also where it reports an error.
pub step-IsValid :
    (program : Program) (vm : VmState)
    → AllInRange program.instructions
    → IsValid vm
    → ((step program vm).0 ≢ panicked) × IsValid (step program vm).1
unfolding step
step-IsValid program vm h v = elim (Option-cases (get_elem? program.instructions vm.pc)) [
  | inl n ↦ rw (n, step) ((cc), v)
  | inr (i, e) ↦
      let (n, v') = (exec_inst-IsSafe i (InRange-at program.instructions vm.pc h e)).at vm v in
      rw (e, step) (finish_step-IsValid (exec_inst i vm).0 (exec_inst i vm).1 n v')
]

-- A run of `run_bounded` with any bound, from a valid machine and over a program whose operands are
-- `u8`, returns without a panic and leaves the machine valid.
pub run_bounded-IsValid :
    (n : ℕ) (program : Program) (vm : VmState)
    → AllInRange program.instructions
    → IsValid vm
    → (out : ℕ × Bool) × ((run_bounded program n vm).0 ≡ ok out)
      × IsValid (run_bounded program n vm).1
unfolding run_bounded
run_bounded-IsValid zero program vm h v = ((vm.steps, false), refl, v)
run_bounded-IsValid (suc n) program vm h v =
    let (no_panic, v') = step-IsValid program vm h v in
    let vm' = (step program vm).1 in
    (elim (step program vm).0
        as (λ r.
          r ≢ panicked
          → (out : ℕ × Bool) × ((elim r as (λ _. Outcome ⊥ (ℕ × Bool) × VmState) [
            | StepResult.ok ↦ run_bounded program n vm'
            | halted ↦ (ok (vm'.steps, true), vm')
            | error _ ↦ (ok (vm'.steps, false), vm')
            | panicked ↦ (panic, vm')
          ]).0
              ≡ ok out)
            × IsValid
                (elim r as (λ _. Outcome ⊥ (ℕ × Bool) × VmState) [
                  | StepResult.ok ↦ run_bounded program n vm'
                  | halted ↦ (ok (vm'.steps, true), vm')
                  | error _ ↦ (ok (vm'.steps, false), vm')
                  | panicked ↦ (panic, vm')
                ]).1) [
                  | StepResult.ok ↦ λ _. run_bounded-IsValid n program vm' h v'
                  | halted ↦ λ _. ((vm'.steps, true), refl, v')
                  | error _ ↦ λ _. ((vm'.steps, false), refl, v')
                  | panicked ↦ λ q. absurd (q refl)
                ])
      no_panic
