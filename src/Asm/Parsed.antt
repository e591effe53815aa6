-- ===== src/Asm/Parsed.antt =====
-- What the first pass of the assembler gives (aeon-vm/src/asm.rs): operands that fit, labels within
-- the code, and no panic.
use aeon_flow.Base.{
  ℕ, ◌+◌, ◌<◌, ◌≤◌, ◌^◌, ◌≡◌, refl, sym, ◌∙◌, ◌||◌, Bool-cases, inl, inr, Option, none, some, List,
  [], ◌∷◌, ◌++◌, arith, leb, leb→le, ◌==◌, length, length-append, get_elem?, get_elem?-lt, bytes_eq,
  Table, lookup, insert, lookup-insert, Text, is_whitespace, is_empty, split_onto, trim,
  trim_end_by, parse_uint, parse_uint-le, Outcome, ◌>>◌, ok_or, expect, Ensures, Ensures-bind,
  Ensures-ok_or, Ensures-expect, Ensures-guard,
}
use aeon_flow.Inst.{Inst, mov, add, sub, mul, alloc, load_mem, store_mem}
use aeon_flow.Asm.Fits.{RawFits}
use aeon_flow.Asm.{
  AsmError, RawInst, resolved, Raw, fail, expected_register, unknown_instruction, u8_max, u64_max,
  hex_digits, parse_prefixed, register_digits, parse_reg, parse_u64, parse_u8, require_tokens,
  reg_at, label_at, two_regs, three_regs, Opcode, op_load, op_mov, op_add, op_sub, op_mul, op_jz,
  op_jmp, op_call, op_ret, op_alloc, op_loadmem, op_storemem, op_print, op_syscall, op_halt,
  opcodes, parse_op, parse_tokens, parse_raw, strip_comment, ends_with_colon, first_pass,
}

abbrev IsReg : ℕ → Type 0
IsReg r = r < 256

abbrev IsWord : ℕ → Type 0
IsWord v = v < 2 ^ 64

abbrev Any {ℓ} : {A : Type ℓ} → A → Type 0
Any a = Unit

abbrev pub AllRawFit : Raw → Type 0
AllRawFit [] = Unit
AllRawFit ((line, inst) ∷ raw) = RawFits inst × AllRawFit raw

AllRawFit-append :
    (raw : Raw) (line : ℕ) (inst : RawInst)
    → AllRawFit raw
    → RawFits inst
    → AllRawFit (raw ++ (line, inst) ∷ [])
AllRawFit-append [] line inst a r = (r, tt)
AllRawFit-append ((l, i) ∷ raw) line inst a r = (a.0, AllRawFit-append raw line inst a.1 r)

-- The operands fit, and each label names a place in the code or its end.
pub record IsParsed (r : Table ℕ × Raw) : Type 0 where
  pub fit : AllRawFit r.1
  pub labelled : (label : Text) (n : ℕ) → lookup label r.0 ≡ some n → n ≤ length r.1

parse_prefixed-IsWord :
    (hex : Option Text) (s : Text) {v : ℕ} → parse_prefixed hex s ≡ some v → IsWord v
parse_prefixed-IsWord none s e = let l = parse_uint-le 10 u64_max s e in omega arith
parse_prefixed-IsWord (some hex) s e = let l = parse_uint-le 16 u64_max hex e in omega arith

module _ (to_lowercase : Text → Text) where
  parse_reg-IsReg : (s : Text) (line : ℕ) → Ensures IsReg (parse_reg to_lowercase s line)
  unfolding parse_reg
  parse_reg-IsReg s line =
      Ensures-bind Any IsReg
        (ok_or (register_digits (to_lowercase s)) (fail line expected_register)) _
        (Ensures-ok_or Any _ _ (λ _ _. tt))
        λ digits _.
          Ensures-ok_or IsReg (parse_uint 10 u8_max digits) _
            (λ r e. let l = parse_uint-le 10 u8_max digits e in omega arith)

  module _ (tokens : List Text) (n line : ℕ) (enough : n ≤ length tokens) where
    token-Any : (i : ℕ) → i < n → Ensures {E = AsmError} Any (expect (get_elem? tokens i))
    token-Any i l =
        let (t, e) = get_elem?-lt tokens i (omega arith) in
        Ensures-expect Any (get_elem? tokens i) t _ refl e tt

    reg_at-IsReg : (i : ℕ) → i < n → Ensures IsReg (reg_at to_lowercase tokens i line)
    unfolding reg_at
    reg_at-IsReg i l =
        Ensures-bind Any IsReg (expect (get_elem? tokens i)) _ (token-Any i l)
          (λ s _. parse_reg-IsReg s line)

    label_at-Any : (i : ℕ) → i < n → Ensures Any (label_at to_lowercase tokens i)
    unfolding label_at
    label_at-Any i l =
        Ensures-bind Any Any (expect (get_elem? tokens i)) _ (token-Any i l) (λ _ _. tt)

  require_tokens-RawFits :
      (tokens : List Text) (n line : ℕ) (m : Outcome AsmError RawInst)
      → (n ≤ length tokens → Ensures RawFits m)
      → Ensures RawFits (require_tokens tokens n line >> m)
  unfolding require_tokens
  require_tokens-RawFits tokens n line m h =
      Ensures-guard RawFits (leb n (length tokens)) _ m (λ t. h (leb→le _ _ t))

  two_regs-RawFits :
      (inst : ℕ → ℕ → Inst) (tokens : List Text) (line : ℕ)
      → ((a b : ℕ) → a < 256 → b < 256 → RawFits (resolved (inst a b)))
      → Ensures RawFits (two_regs to_lowercase inst tokens line)
  two_regs-RawFits inst tokens line h = require_tokens-RawFits tokens 3 line _ λ l.
      Ensures-bind IsReg RawFits (reg_at to_lowercase tokens 1 line) _
        (reg_at-IsReg tokens 3 line l 1 (omega arith))
        λ a la.
          Ensures-bind IsReg RawFits (reg_at to_lowercase tokens 2 line) _
            (reg_at-IsReg tokens 3 line l 2 (omega arith)) λ b lb. h a b la lb

  three_regs-RawFits :
      (inst : ℕ → ℕ → ℕ → Inst) (tokens : List Text) (line : ℕ)
      → ((d a b : ℕ) → d < 256 → a < 256 → b < 256 → RawFits (resolved (inst d a b)))
      → Ensures RawFits (three_regs to_lowercase inst tokens line)
  three_regs-RawFits inst tokens line h = require_tokens-RawFits tokens 4 line _ λ l.
      Ensures-bind IsReg RawFits (reg_at to_lowercase tokens 1 line) _
        (reg_at-IsReg tokens 4 line l 1 (omega arith))
        λ d ld.
          Ensures-bind IsReg RawFits (reg_at to_lowercase tokens 2 line) _
            (reg_at-IsReg tokens 4 line l 2 (omega arith))
            λ a la.
              Ensures-bind IsReg RawFits (reg_at to_lowercase tokens 3 line) _
                (reg_at-IsReg tokens 4 line l 3 (omega arith)) λ b lb. h d a b ld la lb

  parse_u64-IsWord : (s : Text) (line : ℕ) → Ensures IsWord (parse_u64 s line)
  unfolding parse_u64
  parse_u64-IsWord s line = Ensures-ok_or IsWord _ _ λ v e. parse_prefixed-IsWord (hex_digits s) s e

  parse_u8-IsByte : (s : Text) (line : ℕ) → Ensures IsReg (parse_u8 s line)
  unfolding parse_u8
  parse_u8-IsByte s line =
      Ensures-bind IsWord IsReg (parse_u64 s line) _ (parse_u64-IsWord s line) λ v _.
        elim (Bool-cases (leb v u8_max)) [
          | inl t ↦ let l = leb→le v u8_max t in rw t (omega arith)
          | inr t ↦ rw t tt
        ]

  parse_op-RawFits :
      (op : Opcode) (tokens : List Text) (line : ℕ)
      → Ensures RawFits (parse_op to_lowercase op tokens line)
  unfolding parse_op
  parse_op-RawFits op_load tokens line = require_tokens-RawFits tokens 3 line _ λ l.
      Ensures-bind IsReg RawFits (reg_at to_lowercase tokens 1 line) _
        (reg_at-IsReg tokens 3 line l 1 (omega arith))
        λ d ld.
          Ensures-bind Any RawFits (expect (get_elem? tokens 2)) _
            (token-Any tokens 3 line l 2 (omega arith))
            λ s _.
              Ensures-bind IsWord RawFits (parse_u64 s line) _ (parse_u64-IsWord s line)
                λ v lv. ((ld, lv), tt)
  parse_op-RawFits op_mov tokens line =
      two_regs-RawFits mov tokens line (λ a b la lb. ((la, lb), tt))
  parse_op-RawFits op_add tokens line =
      three_regs-RawFits add tokens line (λ d a b ld la lb. ((ld, la, lb), tt))
  parse_op-RawFits op_sub tokens line =
      three_regs-RawFits sub tokens line (λ d a b ld la lb. ((ld, la, lb), tt))
  parse_op-RawFits op_mul tokens line =
      three_regs-RawFits mul tokens line (λ d a b ld la lb. ((ld, la, lb), tt))
  parse_op-RawFits op_jz tokens line = require_tokens-RawFits tokens 3 line _ λ l.
      Ensures-bind IsReg RawFits (reg_at to_lowercase tokens 1 line) _
        (reg_at-IsReg tokens 3 line l 1 (omega arith))
        λ c lc.
          Ensures-bind Any RawFits (label_at to_lowercase tokens 2) _
            (label_at-Any tokens 3 line l 2 (omega arith)) λ s _. lc
  parse_op-RawFits op_jmp tokens line = require_tokens-RawFits tokens 2 line _ λ l.
      Ensures-bind Any RawFits (label_at to_lowercase tokens 1) _
        (label_at-Any tokens 2 line l 1 (omega arith)) λ s _. tt
  parse_op-RawFits op_call tokens line = require_tokens-RawFits tokens 2 line _ λ l.
      Ensures-bind Any RawFits (label_at to_lowercase tokens 1) _
        (label_at-Any tokens 2 line l 1 (omega arith)) λ s _. tt
  parse_op-RawFits op_ret tokens line = (tt, tt)
  parse_op-RawFits op_alloc tokens line =
      two_regs-RawFits alloc tokens line (λ a b la lb. ((la, lb), tt))
  parse_op-RawFits op_loadmem tokens line =
      two_regs-RawFits load_mem tokens line (λ a b la lb. ((la, lb), tt))
  parse_op-RawFits op_storemem tokens line =
      two_regs-RawFits store_mem tokens line (λ a b la lb. ((la, lb), tt))
  parse_op-RawFits op_print tokens line = require_tokens-RawFits tokens 2 line _ λ l.
      Ensures-bind IsReg RawFits (reg_at to_lowercase tokens 1 line) _
        (reg_at-IsReg tokens 2 line l 1 (omega arith)) λ r lr. (lr, tt)
  parse_op-RawFits op_syscall tokens line = require_tokens-RawFits tokens 2 line _ λ l.
      Ensures-bind Any RawFits (expect (get_elem? tokens 1)) _
        (token-Any tokens 2 line l 1 (omega arith))
        λ s _.
          Ensures-bind IsReg RawFits (parse_u8 s line) _ (parse_u8-IsByte s line) λ v lv. (lv, tt)
  parse_op-RawFits op_halt tokens line = (tt, tt)

  parse_tokens-RawFits :
      (tokens : List Text) (line : ℕ) → Ensures RawFits (parse_tokens to_lowercase tokens line)
  parse_tokens-RawFits [] line = tt
  parse_tokens-RawFits (op ∷ args) line =
      Ensures-bind Any RawFits
        (ok_or (lookup (to_lowercase op) opcodes) (fail line unknown_instruction)) _
        (Ensures-ok_or Any _ _ (λ _ _. tt)) (λ code _. parse_op-RawFits code (op ∷ args) line)

  parse_raw-RawFits : (s : Text) (line : ℕ) → Ensures RawFits (parse_raw to_lowercase s line)
  unfolding parse_raw
  parse_raw-RawFits s line =
      parse_tokens-RawFits (split_onto (λ c. is_whitespace c || c == b',') [] s) line

  first_pass-IsParsed :
      (line : ℕ) (sources : List Text) (labels : Table ℕ) (raw : Raw)
      → IsParsed (labels, raw)
      → Ensures IsParsed (first_pass to_lowercase line sources labels raw)
  unfolding first_pass
  first_pass-IsParsed line [] labels raw p = p
  first_pass-IsParsed line (source ∷ rest) labels raw p =
      let s = trim (strip_comment source) in
      let label = to_lowercase (trim (trim_end_by (λ c. c == b':') s)) in
      elim (Bool-cases (is_empty s)) [
        | inl e ↦ rw e (first_pass-IsParsed (line + 1) rest labels raw p)
        | inr e ↦ elim (Bool-cases (ends_with_colon s)) [
          | inl c ↦ elim (Bool-cases (is_empty label)) [
            | inl z ↦ rw (e, c, z) tt
            | inr z ↦
                let q : IsParsed (insert label (length raw) labels, raw) = record {
                  fit = p.fit;
                  labelled = λ k n h. elim (Bool-cases (bytes_eq label k)) [
                    | inl t ↦
                        let g = sym (lookup-insert label k (length raw) labels) ∙ h in
                        let f : some (length raw) ≡ some n = (rw t at g) in ground (arith, f)
                    | inr t ↦
                        let g = sym (lookup-insert label k (length raw) labels) ∙ h in
                        p.labelled k n (rw t at g)
                  ];
                } in
                rw (e, c, z) (first_pass-IsParsed (line + 1) rest _ raw q)
          ]
          | inr c ↦
              rw (e, c)
                (Ensures-bind RawFits IsParsed (parse_raw to_lowercase s line) _
                  (parse_raw-RawFits s line)
                  λ inst r.
                    first_pass-IsParsed (line + 1) rest labels (raw ++ (line, inst) ∷ []) (record {
                      fit = AllRawFit-append raw line inst p.fit r;
                      labelled = λ k n h.
                          let l = p.labelled k n h in
                          omega (arith, length-append raw ((line, inst) ∷ []));
                    }))
        ]
      ]

  pub first_pass-IsParsed_start :
      (sources : List Text) → Ensures IsParsed (first_pass to_lowercase 1 sources [] [])
  unfolding lookup
  first_pass-IsParsed_start sources =
      first_pass-IsParsed 1 sources [] [] (record { fit = tt; labelled = λ k n h. cc h })
