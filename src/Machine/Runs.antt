-- ===== src/Machine/Runs.antt =====
-- The two run loops of the machine (aeon-vm/src/vm.rs), step by step and against one another.
use aeon_flow.Base.{
  ℕ, zero, suc, ◌≤◌, ◌≡◌, ◌≢◌, ap, Bool, true, false, Option, none, some, Outcome, ok, err, panic,
  arith,
}
use aeon_flow.Inst.{Program}
use aeon_flow.Machine.{
  VmState, VmError, StepResult, halted, error, panicked, step, run_bounded, run,
}

module _ (program : Program) (f : ℕ) (vm : VmState) {vm' : VmState} where
  -- A step that goes on, and one that stops.
  pub run_bounded-ok :
      step program vm ≡ (StepResult.ok, vm')
      → run_bounded program (suc f) vm ≡ run_bounded program f vm'
  unfolding run_bounded
  run_bounded-ok e =
      let e' : (step program vm).0 ≡ StepResult.ok = ap (λ r. r.0) e in
      rw (e', run_bounded) (ap (λ r. run_bounded program f r.1) e)

  pub run_bounded-halted :
      step program vm ≡ (halted, vm') → run_bounded program (suc f) vm ≡ (ok (vm'.steps, true), vm')
  unfolding run_bounded
  run_bounded-halted e =
      let e' : (step program vm).0 ≡ halted = ap (λ r. r.0) e in
      rw (e', run_bounded) (ap (λ r. (ok (r.1.steps, true), r.1)) e)

none_ne_some_run : {x : Outcome VmError ℕ × VmState} → none ≢ some x
none_ne_some_run e = cc e

-- What `run_bounded` reports of a run that `run` finishes.
abbrev finished : Outcome VmError ℕ → VmState → Outcome ⊥ (ℕ × Bool) × VmState
finished (ok steps) vm = (ok (steps, true), vm)
finished (err e) vm = (ok (vm.steps, false), vm)
finished panic vm = (panic, vm)

-- Where `run` ends within `n` steps, `run_bounded` with that bound or a larger one ends in the same
-- state: with the step count and `true` where `run` returns the count, with the step count and
-- `false` where it returns an error, and with a panic where it panics.
pub run_bounded-run :
    (n k : ℕ) (program : Program) (vm : VmState) {r : Outcome VmError ℕ} {vm' : VmState}
    → run n program vm ≡ some (r, vm')
    → n ≤ k
    → run_bounded program k vm ≡ finished r vm'
unfolding run run_bounded
run_bounded-run zero k program vm e l = absurd (none_ne_some_run e)
run_bounded-run (suc n) zero program vm e l = absurd (omega arith)
run_bounded-run (suc n) (suc k) program vm {r} {vm'} e l =
    (elim (step program vm).0
        as (λ x.
          (elim x as (λ _. Option (Outcome VmError ℕ × VmState)) [
            | StepResult.ok ↦ run n program (step program vm).1
            | halted ↦ some (ok (step program vm).1.steps, (step program vm).1)
            | error e ↦ some (err e, (step program vm).1)
            | panicked ↦ some (panic, (step program vm).1)
          ])
            ≡ some (r, vm')
          → (elim x as (λ _. Outcome ⊥ (ℕ × Bool) × VmState) [
            | StepResult.ok ↦ run_bounded program k (step program vm).1
            | halted ↦ (ok ((step program vm).1.steps, true), (step program vm).1)
            | error _ ↦ (ok ((step program vm).1.steps, false), (step program vm).1)
            | panicked ↦ (panic, (step program vm).1)
          ])
            ≡ finished r vm') [
              | StepResult.ok ↦ λ h. run_bounded-run n k program (step program vm).1 h (omega arith)
              | halted ↦ λ h. ground arith
              | error e ↦ λ h. ground arith
              | panicked ↦ λ h. ground arith
            ])
      e
