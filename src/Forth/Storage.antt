-- ===== src/Forth/Storage.antt =====
-- Errors and state of the Forth front end, and its files in the virtual file system
-- (aeon-vm/src/forth.rs): each holds the length of a payload, then the payload, which the
-- serializer of the libraries makes. An error value stands for the source's message.
use aeon_flow.Base.{
  ℕ, zero, suc, ◌+◌, ◌%◌, ◌^◌, Bool, true, false, Option, none, some, List, [], ◌++◌, ltb, ◌==◌,
  if◌then◌else◌, length, slice, Bytes, le_bytes, le_value, Table, lookup, Text, to_utf8, Outcome,
  map_ok, ok_or,
}
use aeon_flow.Heap.{HeapError}
use aeon_flow.Vfs
use aeon_flow.Vfs.{VirtualFs, FsError}
use aeon_flow.Machine.{Exec, pure, lift, gets, ◌>>=◌, ◌>>◌}

-- The messages of `BadDefinition` and of `BadControl`
pub data DefinitionFault : Type 0 where
  include_depth include_missing_path unexpected_end missing_name : DefinitionFault
  missing_end : Text → DefinitionFault

pub data ControlFault : Type 0 where
  budget_exhausted unaligned no_loop_here loop_without_do : ControlFault
  heap_fault : HeapError → ControlFault
  missing_operand : Text → ControlFault
  unclosed : (opening closing : Text) → ControlFault

pub data ForthError : Type 0 where
  stack_underflow stack_overflow codec utf8 : ForthError
  unknown_word unknown_variable : Text → ForthError
  bad_definition : DefinitionFault → ForthError
  bad_control : ControlFault → ForthError
  vfs : FsError → ForthError

-- `Dictionary`, its one field
abbrev pub Dictionary : Type 0
Dictionary = Table (List Text)

pub record Frame : Type 0 where
  pub tokens : List Text
  pub ip : ℕ

pub record LoopFrame : Type 0 where
  pub start_ip : ℕ
  pub index : ℕ
  pub limit : ℕ

-- The stacks `frames`, `loops` and `envs` stand with their last element first.
pub record Runtime : Type 0 where
  pub tokens : List Text
  pub ip : ℕ
  pub frames : List Frame
  pub loops : List LoopFrame
  pub envs : List (Table ℕ)
  pub output : List ℕ
  pub halted : Bool

-- `bincode::serialize` and `bincode::deserialize` at a type
pub record Codec (A : Type 0) : Type 0 where
  pub serialize : A → Option Bytes
  pub deserialize : Bytes → Option A

-- Functions on `&mut VirtualFS`
abbrev pub Files : Type 0 → Type 0
Files A = Exec VirtualFs ForthError A

-- A call of the file system, which leaves it unchanged where it fails.
abbrev pub answer : {A : Type 0} → Outcome FsError (A × VirtualFs) → Files A
answer (Outcome.ok (a, fs')) fs = (Outcome.ok a, fs')
answer (Outcome.err e) fs = (Outcome.err (vfs e), fs)
answer Outcome.panic fs = (Outcome.panic, fs)

abbrev pub with_file : {A : Type 0} → (VirtualFs → Outcome FsError (A × VirtualFs)) → Files A
with_file f fs = answer (f fs) fs

abbrev pub close : ℕ → Files Unit
close fd = with_file (λ s. map_ok (λ s'. (tt, s')) (Vfs.file_close fd s))

abbrev pub chunk_size : ℕ
chunk_size = 4096

-- The loop of `read_raw`. Each round but the last reads a byte at least, so that one round more than
-- the file has bytes is enough.
unfoldable pub read_chunks : (fuel fd : ℕ) → Bytes → Files Bytes
read_chunks zero fd bytes = lift Outcome.panic
read_chunks (suc fuel) fd bytes = do
  chunk ← with_file (Vfs.file_read fd chunk_size)
  if length chunk == 0 then pure bytes else read_chunks fuel fd (bytes ++ chunk)

abbrev size_of : Option Bytes → ℕ
size_of none = 0
size_of (some file) = length file

abbrev pub file_size : Text → VirtualFs → ℕ
file_size path fs = size_of (lookup (to_utf8 path) fs.files)

unfoldable pub read_raw : Text → Files Bytes
unfolding read_chunks
read_raw path = do
  fd ← with_file (Vfs.file_open (to_utf8 path) false)
  size ← gets (file_size path)
  bytes ← read_chunks (suc size) fd []
  close fd
  pure bytes

module _ {A : Type 0} (c : Codec A) where
  unfoldable pub save : Text → A → Files Unit
  save path value = do
    payload ← lift (ok_or (c.serialize value) codec)
    let bytes = le_bytes 8 (length payload) ++ payload
    fd ← with_file (Vfs.file_open (to_utf8 path) true)
    _ ← with_file (Vfs.file_write fd bytes)
    close fd

  -- What `load` makes of the bytes of the file. The sum `8 + len` wraps, and a slice that ends before
  -- it begins is a panic.
  unfoldable pub decode : Bytes → Outcome ForthError A
  decode bytes =
      if ltb (length bytes) 8
      then Outcome.err codec
      else (let end = (8 + le_value (slice bytes 0 8)) % 2 ^ 64 in
          if ltb (length bytes) end
          then Outcome.err codec
          else if ltb end 8
          then Outcome.panic
          else ok_or (c.deserialize (slice bytes 8 (le_value (slice bytes 0 8)))) codec)

  unfoldable pub load : Text → Files A
  unfolding read_raw decode
  load path = do bytes ← read_raw path; lift (decode bytes)
