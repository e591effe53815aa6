-- ===== src/EventLog.antt =====
-- The hash-chained event log (aeon-vm/src/eventlog.rs). BLAKE3 and the bincode serializer are
-- parameters. `lines`, which formats the log, is not modelled.
pub mod Chain
use aeon_flow.Base.{
  ℕ, Bool, Option, none, some, List, [], ◌∷◌, ◌++◌, ◌+◌, get_last?, replicate, Bytes, bytes_eq,
  if◌then◌else◌, Outcome, ok, err, panic, ◌>>=◌, ◌>>◌, guard,
}

pub data AeonEvent : Type 0 where
  checkpoint : (program_id : Bytes) (pc steps : ℕ) → AeonEvent
  vm_migrated : (program_id from to : Bytes) (steps : ℕ) → AeonEvent
  patch_applied : (context_id author description : Bytes) (patch_count : ℕ) → AeonEvent
  daemon_restart : (vm_id : Bytes) → AeonEvent

pub record LogEntry : Type 0 where
  pub event : AeonEvent
  pub timestamp_ms : ℕ
  pub prev_hash : Bytes
  pub self_hash : Bytes

-- `EventLog`, whose one field is its entries.
abbrev pub EventLog : Type 0
EventLog = List LogEntry

-- [0; 32]
abbrev pub zero_hash : Bytes
unfolding replicate
zero_hash = replicate 32 0

pub data ExtendError : Type 0 where
  does_not_extend self_hash_mismatch : ExtendError

pub data VerifyError : Type 0 where
  prev_hash_mismatch self_hash_mismatch : ℕ → VerifyError

abbrev pub hash_or_zero : Option LogEntry → Bytes
hash_or_zero none = zero_hash
hash_or_zero (some entry) = entry.self_hash

-- `self.entries.last().map(|entry| entry.self_hash).unwrap_or([0; 32])`
abbrev pub last_hash : EventLog → Bytes
last_hash log = hash_or_zero (get_last? log)

module _ (blake3 : Bytes → Bytes) (serialize : AeonEvent → ℕ → Bytes → Bytes) where
  abbrev pub hash_entry : AeonEvent → ℕ → Bytes → Bytes
  hash_entry event timestamp_ms prev_hash = blake3 (serialize event timestamp_ms prev_hash)

  -- The entry that `append_at` pushes.
  abbrev pub next_entry : AeonEvent → ℕ → EventLog → LogEntry
  next_entry event timestamp_ms log = record {
    event = event;
    timestamp_ms = timestamp_ms;
    prev_hash = last_hash log;
    self_hash = hash_entry event timestamp_ms (last_hash log);
  }

  unfoldable pub append_at : AeonEvent → ℕ → EventLog → Bytes × EventLog
  append_at event timestamp_ms log =
      let entry = next_entry event timestamp_ms log in (entry.self_hash, log ++ entry ∷ [])

  -- Entries before the first that fails stay in the log.
  unfoldable pub extend_verified : List LogEntry → EventLog → Outcome ExtendError Unit × EventLog
  extend_verified [] log = (ok tt, log)
  extend_verified (entry ∷ entries) log =
      let rest = extend_verified entries (log ++ entry ∷ []) in
      if bytes_eq entry.prev_hash (last_hash log)
      then (if bytes_eq (hash_entry entry.event entry.timestamp_ms entry.prev_hash) entry.self_hash
          then rest
          else (err ExtendError.self_hash_mismatch, log))
      else (err does_not_extend, log)

  -- The loop of `verify`, at entry `index` behind `prev_hash`.
  unfoldable pub verify_from : ℕ → Bytes → List LogEntry → Outcome VerifyError Unit
  verify_from index prev_hash [] = ok tt
  verify_from index prev_hash (entry ∷ entries) = do
    guard (bytes_eq entry.prev_hash prev_hash) (prev_hash_mismatch index)
    guard (bytes_eq entry.self_hash (hash_entry entry.event entry.timestamp_ms entry.prev_hash))
        (VerifyError.self_hash_mismatch index)
    verify_from (index + 1) entry.self_hash entries

  unfoldable pub verify : EventLog → Outcome VerifyError Unit
  unfolding verify_from
  verify log = verify_from 0 zero_hash log
