-- ===== src/Machine/Registers.antt =====
-- The state of the machine with its first registers written out (aeon-vm/src/vm.rs): for programs
-- that use only those.
use aeon_flow.Base.{
  ℕ, ◌<◌, ◌≡◌, refl, true, List, ◌∷◌, arith, ltb, lt→ltb, length, replicate, Bytes,
}
use aeon_flow.Machine.{VmState, new}

pub record Five : Type 0 where
  pub r0 : ℕ
  pub r1 : ℕ
  pub r2 : ℕ
  pub r3 : ℕ
  pub r4 : ℕ

abbrev pub at_pc : VmState → List ℕ → Five → ℕ → ℕ → VmState
at_pc vm rest f pc steps = record vm {
  regs = f.r0 ∷ f.r1 ∷ f.r2 ∷ f.r3 ∷ f.r4 ∷ rest;
  pc = pc;
  steps = steps;
}

abbrev pub five : ℕ → ℕ → ℕ → ℕ → ℕ → Five
five a b c d e = record { r0 = a; r1 = b; r2 = c; r3 = d; r4 = e }

pub new-at_pc : (id : Bytes) → new id ≡ at_pc (new id) (replicate 251 0) (five 0 0 0 0 0) 0 0
unfolding new replicate
new-at_pc id = refl

-- The bound check of a write to register `r`.
pub in_bounds :
    (r : ℕ) (rest : List ℕ) (f : Five)
    → r < 5
    → ltb r (length (f.r0 ∷ f.r1 ∷ f.r2 ∷ f.r3 ∷ f.r4 ∷ rest)) ≡ true
in_bounds r rest f l = lt→ltb r _ (omega arith)
