-- ===== src/AgentState.antt =====
-- What the agent remembers between runs (aeon-agent/src/state.rs). BLAKE3 and `hex::encode` are
-- parameters; `load` and `save`, which hold the state in a JSON file, are not modelled.
pub mod Memory
use aeon_flow.Base.{
  ℕ, zero, suc, ◌+◌, ◌/◌, ◌%◌, ◌^◌, Bool, true, false, Option, none, some, List, [], ◌∷◌, ◌++◌, ltb,
  leb, if◌then◌else◌, length, drop, Bytes, bytes_eq, contains, ascii, Table, lookup, insert, remove,
  Outcome, ok, err, panic,
}
use aeon_flow.Blobs.{Cid, hex_cid, parse_cid_hex, is_some}

pub record Tombstone : Type 0 where
  pub path : Bytes
  pub cid : Bytes
  pub at : ℕ

pub record CollabMetrics : Type 0 where
  pub applied_patches : ℕ
  pub compacted_snapshots : ℕ

pub record FileRecord : Type 0 where
  pub path : Bytes
  pub cid : Bytes
  pub identity_id : Bytes
  pub device_id : Bytes
  pub mime : Bytes
  pub observed_at : ℕ

pub record TunnelStatus : Type 0 where
  pub provider : Bytes
  pub endpoint : Bytes
  pub healthy : Bool
  pub state : Bytes
  pub updated_at : ℕ

-- The sets and maps have unordered entries.
pub record SyncState : Type 0 where
  pub seen_cids : List Bytes
  pub tombstones : List Tombstone
  pub collab_sessions : Table Bytes
  pub seen_nonces : Table ℕ
  pub collab_metrics : Table CollabMetrics
  pub trusted_keys : Table Bytes
  pub file_records : Table FileRecord
  pub tunnel_status : Option TunnelStatus

unfoldable pub has_seen : Cid → SyncState → Bool
has_seen cid s = contains (hex_cid cid) s.seen_cids

unfoldable pub mark_seen : Cid → SyncState → SyncState
mark_seen cid s =
    if contains (hex_cid cid) s.seen_cids
    then s
    else record s { seen_cids = hex_cid cid ∷ s.seen_cids }

abbrev pub tombstone_cap : ℕ
tombstone_cap = 10000

-- The drain behind the push in `add_tombstone`
unfoldable pub drain_oldest : List Tombstone → List Tombstone
drain_oldest ts = if ltb tombstone_cap (length ts) then drop 2000 ts else ts

unfoldable pub add_tombstone : Bytes → Cid → ℕ → SyncState → SyncState
unfolding drain_oldest
add_tombstone path cid at s = record s {
  tombstones =
      drain_oldest (s.tombstones ++ record { path = path; cid = hex_cid cid; at = at } ∷ []);
}

unfoldable pub tombstones_into : List Tombstone → Table Cid → Table Cid
tombstones_into [] m = m
tombstones_into (t ∷ ts) m = elim (parse_cid_hex t.cid) [
  | ok cid ↦ tombstones_into ts (insert t.path cid m)
  | err _ ↦ tombstones_into ts m
  | panic ↦ tombstones_into ts m
]

unfoldable pub tombstone_map : SyncState → Table Cid
unfolding tombstones_into
tombstone_map s = tombstones_into s.tombstones []

-- `Result::ok`
abbrev pub ok? {ℓ} : {E A : Type ℓ} → Outcome E A → Option A
ok? (ok a) = some a
ok? (err _) = none
ok? panic = none

-- The identifier that a session's text holds, where it holds one.
abbrev pub parsed : Option Bytes → Option Cid
parsed none = none
parsed (some hex) = ok? (parse_cid_hex hex)

abbrev pub doc_or_new : (Bytes → Bytes) → Bytes → SyncState → Option Cid → Cid × SyncState
doc_or_new blake3 path s (some cid) = (cid, s)
doc_or_new blake3 path s none =
    let cid = blake3 path in
    (cid, record s { collab_sessions = insert path (hex_cid cid) s.collab_sessions })

unfoldable pub collab_doc_for_path : (Bytes → Bytes) → Bytes → SyncState → Cid × SyncState
collab_doc_for_path blake3 path s =
    doc_or_new blake3 path s (parsed (lookup path s.collab_sessions))

-- The decimal digits of a `u64`, of which there are at most 20.
unfoldable pub decimal_digits : ℕ → ℕ → Bytes
decimal_digits zero n = []
decimal_digits (suc fuel) n =
    let rest = decimal_digits fuel (n / 10) in
    if ltb n 10 then (48 + n) ∷ [] else rest ++ (48 + n % 10) ∷ []

-- `format!("{}:{}", hex_cid(&by), nonce)`
unfoldable pub nonce_key : Bytes → ℕ → Bytes
unfolding decimal_digits
nonce_key by nonce = hex_cid by ++ ascii ":" ++ decimal_digits 20 nonce

unfoldable pub nonce_seen : Bytes → ℕ → SyncState → Bool
unfolding nonce_key
nonce_seen by nonce s = is_some (lookup (nonce_key by nonce) s.seen_nonces)

unfoldable pub mark_nonce : Bytes → ℕ → ℕ → SyncState → SyncState
unfolding nonce_key
mark_nonce by nonce now s = record s { seen_nonces = insert (nonce_key by nonce) now s.seen_nonces }

-- `retain(|_, ts| *ts + ttl >= now)`
unfoldable pub retain_fresh : ℕ → ℕ → Table ℕ → Table ℕ
retain_fresh now ttl [] = []
retain_fresh now ttl ((k, ts) ∷ m) =
    let rest = retain_fresh now ttl m in
    if leb now ((ts + ttl) % 2 ^ 64) then (k, ts) ∷ rest else rest

unfoldable pub cleanup_nonces : ℕ → ℕ → SyncState → SyncState
unfolding retain_fresh
cleanup_nonces now ttl s = record s { seen_nonces = retain_fresh now ttl s.seen_nonces }

abbrev pub or_insert : Bytes → Bytes → SyncState → Option Bytes → Bool × SyncState
or_insert id_hex pk_hex s (some existing) = (bytes_eq existing pk_hex, s)
or_insert id_hex pk_hex s none =
    (true, record s { trusted_keys = insert id_hex pk_hex s.trusted_keys })

unfoldable pub trust_key : (Bytes → Bytes) → Bytes → Bytes → SyncState → Bool × SyncState
trust_key encode identity_id public_key s =
    or_insert (hex_cid identity_id) (encode public_key) s
      (lookup (hex_cid identity_id) s.trusted_keys)

unfoldable pub record_file_ingest :
    (Bytes → Bytes) → Bytes → Cid → Bytes → Bytes → Bytes → ℕ → SyncState → SyncState
record_file_ingest encode path cid identity_id device_id mime observed_at s =
    let file : FileRecord = record {
      path = path;
      cid = hex_cid cid;
      identity_id = hex_cid identity_id;
      device_id = encode device_id;
      mime = mime;
      observed_at = observed_at;
    } in
    record s { file_records = insert path file s.file_records }

unfoldable pub remove_file_record : Bytes → SyncState → SyncState
remove_file_record path s = record s { file_records = remove path s.file_records }
