-- ===== src/Sync.antt =====
-- The exchange of blobs between two stores (aeon-store/src/sync.rs). A connection is the list of
-- messages that still come in and the list of those sent: the sockets, the JSON lines and their
-- errors are not modelled. A `Node` stands for the type of aeon-store/src/node.rs, which no side
-- reads here.
pub mod Transfer
use aeon_flow.Base.{
  ℕ, zero, suc, ◌+◌, ◌%◌, Bool, true, false, not, Option, none, some, List, [], ◌∷◌, ◌++◌, map, ltb,
  ◌==◌, if◌then◌else◌, length, take, drop, Bytes, Outcome, ok, err, panic, ◌>>=◌, ◌>>◌, guard,
  map_err,
}
use aeon_flow.Blobs.{Cid, Blob, CidStore, BlobError, put, has, get}

pub record SyncReport : Type 0 where
  pub requested : ℕ
  pub sent : ℕ
  pub received : ℕ

-- `AddAssign for SyncReport`
unfoldable pub add_report : SyncReport → SyncReport → SyncReport
add_report a b = record {
  requested = a.requested + b.requested;
  sent = a.sent + b.sent;
  received = a.received + b.received;
}

abbrev pub no_report : SyncReport
no_report = record { requested = 0; sent = 0; received = 0 }

pub data SyncError : Type 0 where
  missing_cid : Cid → SyncError
  packed_length : ℕ → SyncError
  blob_error : BlobError → SyncError

unfoldable pub pack_cids : List Cid → Bytes
pack_cids [] = []
pack_cids (cid ∷ cids) = cid ++ pack_cids cids

-- `chunks_exact(32)`, for as many chunks
unfoldable pub chunks_32 : ℕ → Bytes → List Cid
chunks_32 zero bytes = []
chunks_32 (suc n) bytes =
    let rest = chunks_32 n (drop 32 bytes) in
    if ltb (length bytes) 32 then [] else take 32 bytes ∷ rest

unfoldable pub unpack_cids : Bytes → Outcome SyncError (List Cid)
unfolding chunks_32
unpack_cids bytes = do
  guard (length bytes % 32 == 0) (packed_length (length bytes))
  ok (chunks_32 (length bytes) bytes)

-- `.filter(|cid| !self.store.has(cid))`
unfoldable pub missing_of : CidStore → List Cid → List Cid
missing_of store [] = []
missing_of store (cid ∷ cids) =
    let rest = missing_of store cids in if has cid store then rest else cid ∷ rest

module _ (Node : Type 0) where
  pub data SyncMessage : Type 0 where
    have : (device_id bloom : Bytes) (total_count : ℕ) → SyncMessage
    want : Cid → SyncMessage
    data_message : Blob → Option Node → SyncMessage
    ping : ℕ → SyncMessage
    device_joined : (device_id session : Bytes) → SyncMessage
    device_left : Bytes → SyncMessage

  -- What a handler gives: its report, the messages it sent, and the store.
  abbrev pub Exchange : Type 0
  Exchange = SyncReport × List SyncMessage × CidStore

  -- The second loop of `handle_have`: up to `need` blobs are taken in.
  unfoldable pub receive : ℕ → List SyncMessage → CidStore → ℕ × CidStore
  receive zero incoming store = (0, store)
  receive (suc need) [] store = (0, store)
  receive (suc need) (data_message blob _ ∷ incoming) store =
      let (n, store') = receive need incoming (put blob store).1 in (suc n, store')
  receive (suc need) (_ ∷ incoming) store = receive (suc need) incoming store

  unfoldable pub handle_have : List SyncMessage → Bytes → CidStore → Outcome SyncError Exchange
  unfolding receive missing_of
  handle_have incoming bloom store = do
    offered ← unpack_cids bloom
    let missing = missing_of store offered
    let r = receive (length missing) incoming store
    ok (record { requested = length missing; sent = 0; received = r.0 }, map want missing, r.1)

module _ (Node : Type 0) (blake3 : Bytes → Bytes) where
  -- The answer to a `Want`, which sends the blob where the store has it.
  abbrev pub send_found : Option Blob × CidStore → Exchange Node
  send_found (none, store) = (no_report, [], store)
  send_found (some blob, store) =
      (record { requested = 0; sent = 1; received = 0 }, data_message blob none ∷ [], store)

  unfoldable pub handle_want : Cid → CidStore → Outcome SyncError (Exchange Node)
  handle_want cid store = do
    found ← map_err blob_error (get blake3 cid store)
    ok (send_found found)

  -- `handle_stream`
  unfoldable pub handle_stream :
      List (SyncMessage Node) → CidStore → Outcome SyncError (Exchange Node)
  unfolding handle_want
  handle_stream [] store = ok (no_report, [], store)
  handle_stream (have _ bloom _ ∷ incoming) store = handle_have Node incoming bloom store
  handle_stream (want cid ∷ incoming) store = handle_want cid store
  handle_stream (data_message blob _ ∷ incoming) store =
      ok (record { requested = 0; sent = 0; received = 1 }, [], (put blob store).1)
  handle_stream (_ ∷ incoming) store = ok (no_report, [], store)

  -- The loop of `announce_to`, over all that comes in.
  unfoldable pub answer : List (SyncMessage Node) → CidStore → Outcome SyncError (Exchange Node)
  unfolding handle_want
  answer [] store = ok (no_report, [], store)
  answer (want cid ∷ incoming) store = do
    (report, sent, store') ← handle_want cid store
    (report', sent', store'') ← answer incoming store'
    ok (add_report report report', sent ++ sent', store'')
  answer (data_message blob _ ∷ incoming) store = do
    (report, sent, store') ← answer incoming (put blob store).1
    ok (add_report (record { requested = 0; sent = 0; received = 1 }) report, sent, store')
  answer (_ ∷ incoming) store = answer incoming store

  unfoldable pub announce_to :
      Bytes → Cid → List (SyncMessage Node) → CidStore → Outcome SyncError (Exchange Node)
  unfolding answer
  announce_to device_id cid incoming store = do
    guard (has cid store) (missing_cid cid)
    (report, sent, store') ← answer incoming store
    ok (report, have device_id (pack_cids (cid ∷ [])) 1 ∷ sent, store')
