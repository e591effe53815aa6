-- ===== src/Asm.antt =====
-- The assembler (aeon-vm/src/asm.rs): two passes from a text to a program. A text is its code points;
-- the model lowers ASCII letters only, as labels and operations in other scripts are out of its
-- scope. The hash of the source, which the assembler computes and drops, is left out.
pub mod Fits
pub mod Parsed
pub mod Resolved
use aeon_flow.Base.{
  ℕ, zero, suc, ◌+◌, ◌-◌, ◌^◌, ◌||◌, Bool, true, false, Option, none, some, List, [], ◌∷◌, ◌++◌,
  ltb, leb, ◌==◌, if◌then◌else◌, length, get_elem?, get_last?, Bytes, bytes_eq, ascii, Table,
  lookup, insert, Text, is_whitespace, is_empty, trim, trim_end_by, split_onto, parse_uint, Outcome,
  ok, err, ◌>>=◌, ◌>>◌, ok_or, expect, guard,
}
use aeon_flow.Inst.{
  Inst, Offset, Program, forward, backward, load_imm, mov, add, sub, mul, jz, jump, call, ret,
  print, load_mem, store_mem, alloc, halt, syscall,
}

pub data AsmMessage : Type 0 where
  empty_label empty_instruction unknown_instruction undefined_label : AsmMessage
  requires_tokens : (n got : ℕ) → AsmMessage
  expected_register bad_register expected_number expected_u8 : AsmMessage

-- `AsmError`: the line, and which of the messages
pub record AsmError : Type 0 where
  pub line : ℕ
  pub message : AsmMessage

abbrev pub fail : ℕ → AsmMessage → AsmError
fail line message = record { line = line; message = message }

pub data RawInst : Type 0 where
  resolved : Inst → RawInst
  jz_label : (cond : ℕ) (label : Text) → RawInst
  jmp_label : Text → RawInst
  call_label : Text → RawInst

abbrev pub u8_max : ℕ
u8_max = 255

abbrev pub u64_max : ℕ
u64_max = 2 ^ 64 - 1

-- `str::lines`: `line` is the part read so far.
abbrev pub strip_cr : Text → Text
strip_cr [] = []
strip_cr (c ∷ []) = if c == 13 then [] else c ∷ []
strip_cr (c ∷ d ∷ cs) = c ∷ strip_cr (d ∷ cs)

unfoldable pub lines_onto : Text → Text → List Text
lines_onto line [] = if is_empty line then [] else line ∷ []
lines_onto line (c ∷ cs) =
    let next = lines_onto [] cs in
    let longer = lines_onto (line ++ c ∷ []) cs in if c == 10 then strip_cr line ∷ next else longer

unfoldable pub strip_comment : Text → Text
strip_comment [] = []
strip_comment (c ∷ cs) = let rest = strip_comment cs in if c == b';' then [] else c ∷ rest

unfoldable pub require_tokens : List Text → ℕ → ℕ → Outcome AsmError Unit
require_tokens tokens n line =
    guard (leb n (length tokens)) (fail line (requires_tokens n (length tokens)))

-- What stands behind the `r` of a register.
abbrev pub register_digits : Text → Option Text
register_digits [] = none
register_digits (c ∷ cs) = if c == b'r' then some cs else none

-- `strip_prefix("0x")`, or else of `0X`
abbrev pub hex_digits : Text → Option Text
hex_digits [] = none
hex_digits (c ∷ []) = none
hex_digits (c ∷ d ∷ cs) =
    if c == b'0' then (if d == b'x' || d == b'X' then some cs else none) else none

abbrev pub parse_prefixed : Option Text → Text → Option ℕ
parse_prefixed (some hex) s = parse_uint 16 u64_max hex
parse_prefixed none s = parse_uint 10 u64_max s

unfoldable pub parse_u64 : Text → ℕ → Outcome AsmError ℕ
unfolding parse_uint
parse_u64 s line = ok_or (parse_prefixed (hex_digits s) s) (fail line expected_number)

unfoldable pub parse_u8 : Text → ℕ → Outcome AsmError ℕ
unfolding parse_u64
parse_u8 s line = do
  value ← parse_u64 s line
  if leb value u8_max then ok value else err (fail line expected_u8)

-- The arms of the match on the operation.
pub data Opcode : Type 0 where
  op_load op_mov op_add op_sub op_mul op_jz op_jmp op_call op_ret op_alloc op_loadmem : Opcode
  op_storemem op_print op_syscall op_halt : Opcode

abbrev pub opcodes : Table Opcode
opcodes =
    (ascii "load", op_load)
    ∷ (ascii "mov", op_mov)
    ∷ (ascii "add", op_add)
    ∷ (ascii "sub", op_sub)
    ∷ (ascii "mul", op_mul)
    ∷ (ascii "jz", op_jz)
    ∷ (ascii "jmp", op_jmp)
    ∷ (ascii "call", op_call)
    ∷ (ascii "ret", op_ret)
    ∷ (ascii "alloc", op_alloc)
    ∷ (ascii "loadmem", op_loadmem)
    ∷ (ascii "storemem", op_storemem)
    ∷ (ascii "print", op_print)
    ∷ (ascii "syscall", op_syscall)
    ∷ (ascii "halt", op_halt)
    ∷ []

abbrev pub Raw : Type 0
Raw = List (ℕ × RawInst)

abbrev pub ends_with_colon : Text → Bool
ends_with_colon line = elim (get_last? line) [ none ↦ false | some c ↦ c == b':' ]

unfoldable pub resolve_label : Table ℕ → Text → ℕ → Outcome AsmError ℕ
resolve_label labels label line = ok_or (lookup label labels) (fail line undefined_label)

-- `target as isize - i as isize`
unfoldable pub offset_to : ℕ → ℕ → Offset
offset_to i target = if leb i target then forward (target - i) else backward (i - target - 1)

unfoldable pub resolve : Table ℕ → ℕ → ℕ → RawInst → Outcome AsmError Inst
unfolding resolve_label offset_to
resolve labels i line (resolved inst) = ok inst
resolve labels i line (jz_label cond label) = do
  target ← resolve_label labels label line
  ok (jz cond (offset_to i target))
resolve labels i line (jmp_label label) = do
  target ← resolve_label labels label line
  ok (jump (offset_to i target))
resolve labels i line (call_label label) = do
  target ← resolve_label labels label line
  ok (call target)

-- The loop of the second pass, at instruction `i`
unfoldable pub second_pass : Table ℕ → ℕ → Raw → Outcome AsmError (List Inst)
unfolding resolve
second_pass labels i [] = ok []
second_pass labels i ((line, inst) ∷ raw) = do
  first ← resolve labels i line inst
  rest ← second_pass labels (i + 1) raw
  ok (first ∷ rest)

-- `str::to_lowercase`, whose tables are the standard library's, is an argument.
module _ (to_lowercase : Text → Text) where
  unfoldable pub parse_reg : Text → ℕ → Outcome AsmError ℕ
  unfolding parse_uint
  parse_reg s line = do
    digits ← ok_or (register_digits (to_lowercase s)) (fail line expected_register)
    ok_or (parse_uint 10 u8_max digits) (fail line bad_register)

  -- `parse_reg(tokens[i], line_no)`
  unfoldable pub reg_at : List Text → ℕ → ℕ → Outcome AsmError ℕ
  unfolding parse_reg
  reg_at tokens i line = do s ← expect (get_elem? tokens i); parse_reg s line

  unfoldable pub label_at : List Text → ℕ → Outcome AsmError Text
  label_at tokens i = do s ← expect (get_elem? tokens i); ok (to_lowercase s)

  abbrev pub two_regs : (ℕ → ℕ → Inst) → List Text → ℕ → Outcome AsmError RawInst
  two_regs inst tokens line = do
    require_tokens tokens 3 line
    a ← reg_at tokens 1 line
    b ← reg_at tokens 2 line
    ok (resolved (inst a b))

  abbrev pub three_regs : (ℕ → ℕ → ℕ → Inst) → List Text → ℕ → Outcome AsmError RawInst
  three_regs inst tokens line = do
    require_tokens tokens 4 line
    dst ← reg_at tokens 1 line
    a ← reg_at tokens 2 line
    b ← reg_at tokens 3 line
    ok (resolved (inst dst a b))

  unfoldable pub parse_op : Opcode → List Text → ℕ → Outcome AsmError RawInst
  unfolding require_tokens reg_at label_at parse_u64 parse_u8
  parse_op op_load tokens line = do
    require_tokens tokens 3 line
    dst ← reg_at tokens 1 line
    s ← expect (get_elem? tokens 2)
    val ← parse_u64 s line
    ok (resolved (load_imm dst val))
  parse_op op_mov tokens line = two_regs mov tokens line
  parse_op op_add tokens line = three_regs add tokens line
  parse_op op_sub tokens line = three_regs sub tokens line
  parse_op op_mul tokens line = three_regs mul tokens line
  parse_op op_jz tokens line = do
    require_tokens tokens 3 line
    cond ← reg_at tokens 1 line
    label ← label_at tokens 2
    ok (jz_label cond label)
  parse_op op_jmp tokens line = do
    require_tokens tokens 2 line
    label ← label_at tokens 1
    ok (jmp_label label)
  parse_op op_call tokens line = do
    require_tokens tokens 2 line
    label ← label_at tokens 1
    ok (call_label label)
  parse_op op_ret tokens line = ok (resolved ret)
  parse_op op_alloc tokens line = two_regs alloc tokens line
  parse_op op_loadmem tokens line = two_regs load_mem tokens line
  parse_op op_storemem tokens line = two_regs store_mem tokens line
  parse_op op_print tokens line = do
    require_tokens tokens 2 line
    r ← reg_at tokens 1 line
    ok (resolved (print r))
  parse_op op_syscall tokens line = do
    require_tokens tokens 2 line
    s ← expect (get_elem? tokens 1)
    num ← parse_u8 s line
    ok (resolved (syscall num))
  parse_op op_halt tokens line = ok (resolved halt)

  abbrev pub parse_tokens : List Text → ℕ → Outcome AsmError RawInst
  parse_tokens [] line = err (fail line empty_instruction)
  parse_tokens (op ∷ args) line = do
    opcode ← ok_or (lookup (to_lowercase op) opcodes) (fail line unknown_instruction)
    parse_op opcode (op ∷ args) line

  unfoldable pub parse_raw : Text → ℕ → Outcome AsmError RawInst
  unfolding parse_op split_onto
  parse_raw line line_no =
      parse_tokens (split_onto (λ c. is_whitespace c || c == b',') [] line) line_no

  -- The loop of the first pass, at line `line_no`: the labels, and the instructions with their lines.
  unfoldable pub first_pass : ℕ → List Text → Table ℕ → Raw → Outcome AsmError (Table ℕ × Raw)
  first_pass line_no [] labels raw = ok (labels, raw)
  first_pass line_no (source ∷ rest) labels raw =
      let line = trim (strip_comment source) in
      let label = to_lowercase (trim (trim_end_by (λ c. c == b':') line)) in
      let skipped = first_pass (line_no + 1) rest labels raw in
      let labelled = first_pass (line_no + 1) rest (insert label (length raw) labels) raw in
      let parsed = (do
        inst ← parse_raw line line_no
        first_pass (line_no + 1) rest labels (raw ++ (line_no, inst) ∷ [])) in
      if is_empty line
      then skipped
      else if ends_with_colon line
      then (if is_empty label then err (fail line_no empty_label) else labelled)
      else parsed

  -- `Assembler::assemble`, for the assembler's name
  unfoldable pub assemble : Bytes → Text → Outcome AsmError Program
  unfolding first_pass second_pass lines_onto
  assemble name source = do
    (labels, raw) ← first_pass 1 (lines_onto [] source) [] []
    instructions ← second_pass labels 0 raw
    ok (record { name = name; instructions = instructions })
