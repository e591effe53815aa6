-- ===== src/Inst.antt =====
-- Instructions and programs of the machine (aeon-vm/src/inst.rs, aeon-vm/src/program.rs). Register
-- numbers and bytes are `u8`, immediates `u64`, addresses `usize`, jump offsets `isize`.
use aeon_flow.Base.{ℕ, ◌-◌, ◌==◌, if◌then◌else◌, List, [], ◌∷◌, Bytes}

-- A signed offset: `forward n` is n, `backward n` is -(n + 1).
pub data Offset : Type 0 where
  forward : ℕ → Offset
  backward : ℕ → Offset

pub data Inst : Type 0 where
  load_imm : ℕ → ℕ → Inst
  mov : ℕ → ℕ → Inst
  add sub mul : ℕ → ℕ → ℕ → Inst
  jz : ℕ → Offset → Inst
  jump : Offset → Inst
  call : ℕ → Inst
  ret : Inst
  print : ℕ → Inst
  load_mem : ℕ → ℕ → Inst
  store_mem : ℕ → ℕ → Inst
  alloc : ℕ → ℕ → Inst
  halt : Inst
  syscall : ℕ → Inst

pub record Program : Type 0 where
  pub name : Bytes
  pub instructions : List Inst

-- `Program::id`, over the hash and the serializer of the libraries.
abbrev pub program_id : (Bytes → Bytes) → (List Inst → Bytes) → Program → Bytes
program_id hash serialize p = hash (serialize p.instructions)

-- `programs::fibonacci`: the code behind the four loads.
abbrev pub fibonacci : ℕ → List Inst
fibonacci n =
    load_imm 0 (if n == 0 then 0 else n - 1)
    ∷ load_imm 1 0
    ∷ load_imm 2 1
    ∷ load_imm 4 1
    ∷ jz 0 (forward 6)
    ∷ add 3 1 2
    ∷ mov 1 2
    ∷ mov 2 3
    ∷ sub 0 0 4
    ∷ jump (backward 4)
    ∷ halt
    ∷ []

-- `programs::factorial`
abbrev pub factorial : ℕ → List Inst
factorial n =
    load_imm 0 n
    ∷ load_imm 1 1
    ∷ load_imm 2 1
    ∷ mul 1 1 0
    ∷ sub 0 0 2
    ∷ jz 0 (forward 2)
    ∷ jump (backward 2)
    ∷ halt
    ∷ []
