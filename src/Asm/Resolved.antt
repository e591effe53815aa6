-- ===== src/Asm/Resolved.antt =====
-- What the assembler makes (aeon-vm/src/asm.rs): it does not panic, its programs have operands that
-- fit their types and branch within themselves, and so the machine runs them without a panic.
use aeon_flow.Base.{
  ℕ, ◌+◌, ◌≤◌, ◌≡◌, ◌≢◌, sym, subst, Bool, some, List, [], ◌∷◌, arith, length, Bytes, Table, lookup,
  Text, ok, Ensures, Ensures-bind, Ensures-ok_or, Ensures-at,
}
use aeon_flow.Inst.{Inst, Program, jz, jump, call}
use aeon_flow.Jit.{checked_target}
use aeon_flow.Machine.{VmState, run_bounded, step, panicked}
use aeon_flow.Machine.Safe.{IsValid}
use aeon_flow.Machine.Invariant.{step-IsValid, run_bounded-IsValid}
use aeon_flow.Asm.{
  RawInst, resolved, jz_label, jmp_label, call_label, Raw, offset_to, resolve_label, resolve,
  first_pass, second_pass, lines_onto, assemble,
}
use aeon_flow.Asm.Fits.{IsPlain, Fits, AllFit, AllFit-AllInRange, RawFits}
use aeon_flow.Asm.Parsed.{AllRawFit, IsParsed, first_pass-IsParsed_start}

-- The branches of an instruction at `pc`, and of those behind it, stay within `len`.
abbrev pub IsInside : ℕ → ℕ → Inst → Type 0
IsInside len pc (jz c off) = (t : ℕ) × (checked_target pc off len ≡ ok t) × (t ≤ len)
IsInside len pc (jump off) = (t : ℕ) × (checked_target pc off len ≡ ok t) × (t ≤ len)
IsInside len pc (call addr) = addr ≤ len
IsInside len pc _ = Unit

abbrev pub AllInside : ℕ → ℕ → List Inst → Type 0
AllInside len pc [] = Unit
AllInside len pc (i ∷ is) = IsInside len pc i × AllInside len (pc + 1) is

-- The offset from `i` to `t` leads to `t`.
pub checked_target-offset_to : (i t len : ℕ) → t ≤ len → checked_target i (offset_to i t) len ≡ ok t
unfolding checked_target offset_to
checked_target-offset_to i t len l = ground arith

-- What the second pass gives for the rest of the code, from instruction `i` on.
abbrev IsResolved : ℕ → ℕ → List Inst → Type 0
IsResolved len i is = AllFit is × AllInside len i is × (i + length is ≡ len)

IsPlain-IsInside : (len pc : ℕ) (i : Inst) → IsPlain i → IsInside len pc i
IsPlain-IsInside len pc (jz c off) h = elim h [ ]
IsPlain-IsInside len pc (jump off) h = elim h [ ]
IsPlain-IsInside len pc (call addr) h = elim h [ ]
IsPlain-IsInside len pc _ h = tt

AnyIn : ℕ → ℕ → Type 0
AnyIn len t = t ≤ len

module _ (labels : Table ℕ) (len : ℕ)
    (labelled : (label : Text) (n : ℕ) → lookup label labels ≡ some n → n ≤ len) where
  resolve_label-AnyIn :
      (label : Text) (line : ℕ) → Ensures (AnyIn len) (resolve_label labels label line)
  unfolding resolve_label AnyIn
  resolve_label-AnyIn label line = Ensures-ok_or (λ t. t ≤ len) _ _ (λ t e. labelled label t e)

  resolve-IsInside :
      (i line : ℕ) (raw : RawInst)
      → RawFits raw
      → Ensures (λ inst. Fits inst × IsInside len i inst) (resolve labels i line raw)
  unfolding resolve AnyIn
  resolve-IsInside i line (resolved inst) r = (r.0, IsPlain-IsInside len i inst r.1)
  resolve-IsInside i line (jz_label cond label) r =
      Ensures-bind (AnyIn len) (λ inst. Fits inst × IsInside len i inst)
        (resolve_label labels label line) _ (resolve_label-AnyIn label line)
        λ t l. (r, (t, checked_target-offset_to i t len l, l))
  resolve-IsInside i line (jmp_label label) r =
      Ensures-bind (AnyIn len) (λ inst. Fits inst × IsInside len i inst)
        (resolve_label labels label line) _ (resolve_label-AnyIn label line)
        λ t l. (tt, (t, checked_target-offset_to i t len l, l))
  resolve-IsInside i line (call_label label) r =
      Ensures-bind (AnyIn len) (λ inst. Fits inst × IsInside len i inst)
        (resolve_label labels label line) _ (resolve_label-AnyIn label line) λ t l. (tt, l)

  second_pass-IsResolved :
      (i : ℕ) (raw : Raw)
      → AllRawFit raw
      → i + length raw ≡ len
      → Ensures (IsResolved len i) (second_pass labels i raw)
  unfolding second_pass
  second_pass-IsResolved i [] a e = (tt, tt, e)
  second_pass-IsResolved i ((line, inst) ∷ raw) (r, a) e =
      Ensures-bind (λ x. Fits x × IsInside len i x) (IsResolved len i) (resolve labels i line inst)
        _ (resolve-IsInside i line inst r)
        λ x h.
          Ensures-bind (IsResolved len (i + 1)) (IsResolved len i) (second_pass labels (i + 1) raw)
            _ (second_pass-IsResolved (i + 1) raw a (omega arith))
            λ is k. ((h.0, k.0), (h.1, k.1), omega arith)

-- The operands fit their types, and the branches and calls lead into the program or to its end.
pub IsAssembled : Program → Type 0
IsAssembled p = AllFit p.instructions × AllInside (length p.instructions) 0 p.instructions

-- Every text either assembles or gives an error: the assembler does not panic. What it makes has
-- registers and system call numbers below 2 ^ 8 and immediates below 2 ^ 64, and all its branches and
-- calls lead into the program or to its end.
pub assemble-IsAssembled :
    (to_lowercase : Text → Text) (name : Bytes) (source : Text)
    → Ensures IsAssembled (assemble to_lowercase name source)
unfolding assemble IsAssembled
assemble-IsAssembled to_lowercase name source =
    Ensures-bind IsParsed _ (first_pass to_lowercase 1 (lines_onto [] source) [] []) _
      (first_pass-IsParsed_start to_lowercase (lines_onto [] source))
      λ parsed p.
        Ensures-bind (IsResolved (length parsed.1) 0) _ (second_pass parsed.0 0 parsed.1) _
          (second_pass-IsResolved parsed.0 (length parsed.1) p.labelled 0 parsed.1 p.fit
            (omega arith))
          λ is k.
            let e : length is ≡ length parsed.1 = omega arith in
            (k.0, subst (λ n. AllInside n 0 is) (sym e) k.1)

-- A program that was assembled runs without a panic: from a valid machine, any bounded run returns and
-- leaves the machine valid, and the step that follows it does not panic.
pub assemble-run_bounded :
    (to_lowercase : Text → Text) (name : Bytes) (source : Text) (n : ℕ) (vm : VmState) {p : Program}
    → assemble to_lowercase name source ≡ ok p
    → IsValid vm
    → (out : ℕ × Bool) × ((run_bounded p n vm).0 ≡ ok out)
      × IsValid (run_bounded p n vm).1
      × ((step p (run_bounded p n vm).1).0 ≢ panicked)
unfolding IsAssembled
assemble-run_bounded to_lowercase name source n vm {p} e v =
    let a =
      Ensures-at IsAssembled (assemble to_lowercase name source)
        (assemble-IsAssembled to_lowercase name source) e in
    let in_range = AllFit-AllInRange p.instructions a.0 in
    let (out, e', v') = run_bounded-IsValid n p vm in_range v in
    (out, e', v', (step-IsValid p (run_bounded p n vm).1 in_range v').0)
