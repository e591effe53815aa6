-- ===== src/Asm/Fits.antt =====
-- Operands that fit the types of their instructions (aeon-vm/src/asm.rs, aeon-vm/src/inst.rs).
use aeon_flow.Base.{◌^◌, ◌<◌, List, [], ◌∷◌}
use aeon_flow.Inst.{
  Inst, load_imm, jz, jump, call, ret, print, halt, syscall, mov, add, sub, mul, alloc, load_mem,
  store_mem,
}
use aeon_flow.Machine.Invariant.{InRange, AllInRange}
use aeon_flow.Asm.{RawInst, resolved, jz_label, jmp_label, call_label}

-- Not a branch: those have labels, until they are resolved.
abbrev pub IsPlain : Inst → Type 0
IsPlain (jz cond off) = ⊥
IsPlain (jump off) = ⊥
IsPlain (call addr) = ⊥
IsPlain _ = Unit

-- The operands are values of their types: registers and system calls `u8`, immediates `u64`.
abbrev pub Fits : Inst → Type 0
Fits (load_imm d x) = (d < 256) × (x < 2 ^ 64)
Fits (syscall num) = num < 256
Fits i = InRange i

abbrev pub AllFit : List Inst → Type 0
AllFit [] = Unit
AllFit (i ∷ is) = Fits i × AllFit is

Fits-InRange : (i : Inst) → Fits i → InRange i
Fits-InRange (load_imm d x) h = h.0
Fits-InRange (syscall num) h = tt
Fits-InRange (mov d s) h = h
Fits-InRange (add d a b) h = h
Fits-InRange (sub d a b) h = h
Fits-InRange (mul d a b) h = h
Fits-InRange (jz c off) h = h
Fits-InRange (jump off) h = h
Fits-InRange (call addr) h = h
Fits-InRange ret h = h
Fits-InRange (print r) h = h
Fits-InRange (load_mem d r) h = h
Fits-InRange (store_mem r s) h = h
Fits-InRange (alloc d s) h = h
Fits-InRange halt h = h

pub AllFit-AllInRange : (is : List Inst) → AllFit is → AllInRange is
AllFit-AllInRange [] h = tt
AllFit-AllInRange (i ∷ is) (h, hs) = (Fits-InRange i h, AllFit-AllInRange is hs)

abbrev pub RawFits : RawInst → Type 0
RawFits (resolved i) = Fits i × IsPlain i
RawFits (jz_label cond label) = cond < 256
RawFits (jmp_label label) = Unit
RawFits (call_label label) = Unit
