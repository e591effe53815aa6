-- ===== src/Tests.antt =====
-- Test data for the witnesses: a hash of 32 bytes, serializers, and small programs and states.
mod Memory
mod Runs
mod Editing
mod Stores
mod Compilers
mod Vaults
mod Mails
use aeon_flow.Base.{ℕ, ◌+◌, ◌%◌, List, [], ◌∷◌, ◌++◌, length, Bytes}
use aeon_flow.EventLog.{AeonEvent}
use aeon_flow.Inst.{Inst}

abbrev pub zeros : Bytes
zeros = 0 ∷ 0 ∷ 0 ∷ 0 ∷ 0 ∷ 0 ∷ 0 ∷ 0 ∷ 0 ∷ 0 ∷ 0 ∷ 0 ∷ 0 ∷ 0 ∷ 0 ∷ []

abbrev pub hash : Bytes → Bytes
hash bytes = length bytes % 256 ∷ 1 ∷ zeros ++ zeros

abbrev pub serialize_entry : AeonEvent → ℕ → Bytes → Bytes
serialize_entry event timestamp_ms prev_hash = timestamp_ms ∷ prev_hash

abbrev pub serialize_program : List Inst → Bytes
serialize_program instructions = length instructions ∷ []
