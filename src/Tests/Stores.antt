-- ===== src/Tests/Stores.antt =====
-- Witnesses for the event log, the stores, the contexts and the agent (aeon-vm/src/eventlog.rs,
-- aeon-store/src, aeon-agent/src/state.rs).
use aeon_flow.Base.{
  ◌≡◌, refl, true, false, none, some, List, [], ◌∷◌, ◌++◌, arith, Bytes, AreBytes, bytes_eq,
  contains, is_utf8, lookup, ok,
}
use aeon_flow.EventLog.{
  AeonEvent, LogEntry, EventLog, daemon_restart, last_hash, next_entry, append_at, extend_verified,
  verify, verify_from,
}
use aeon_flow.EventLog.Chain.{verify-append_at, extend_verified-keeps}
use aeon_flow.Blobs.{Blob, CidStore, hex_cid, encode_blob, decode_blob, blob_path, put, has, get}
use aeon_flow.Blobs.Format.{decode_blob-encode_blob}
use aeon_flow.Blobs.Keeps.{reopened, IsSound, get-put-reopened, get-IsSound}
use aeon_flow.Sync.{SyncMessage, have, want, data_message, pack_cids, handle_have, announce_to}
use aeon_flow.Sync.Transfer.{transfer}
use aeon_flow.Contexts.{Context, new, add_node, require_member, is_member, node_added}
use aeon_flow.Contexts.Replay.{IsExplained, add_node_op, exec, new-IsExplained, exec-IsExplained}
use aeon_flow.AgentState.{SyncState, trust_key, nonce_seen, mark_nonce, cleanup_nonces}
use aeon_flow.AgentState.Memory.{trust_key-pinned, nonce_seen-cleanup_nonces}
use aeon_flow.Tests.{hash, serialize_entry}

abbrev event : AeonEvent
event = daemon_restart (1 ∷ [])

abbrev one_entry : EventLog
one_entry = next_entry hash serialize_entry event 5 [] ∷ []

empty_verifies : verify hash serialize_entry [] ≡ ok tt
unfolding verify verify_from
empty_verifies = refl

verify-append_at_example :
    (verify hash serialize_entry (append_at hash serialize_entry event 5 []).1 ≡ ok tt)
    × (last_hash (append_at hash serialize_entry event 5 []).1
        ≡ (append_at hash serialize_entry event 5 []).0)
verify-append_at_example = verify-append_at hash serialize_entry event 5 [] empty_verifies

extend_verified-keeps_example :
    (verify hash serialize_entry (extend_verified hash serialize_entry one_entry []).1 ≡ ok tt)
    × ((new : List LogEntry) × ((extend_verified hash serialize_entry one_entry []).1 ≡ [] ++ new))
extend_verified-keeps_example =
    extend_verified-keeps hash serialize_entry one_entry [] empty_verifies

abbrev contents : Bytes
contents = 104 ∷ 105 ∷ []

abbrev blob : Blob
blob = record { cid = hash contents; contents = contents; mime = 116 ∷ [] }

blob_utf8 : is_utf8 blob.mime ≡ true
unfolding is_utf8
blob_utf8 = refl

abbrev empty : CidStore
empty = record { memory = []; disk = [] }

abbrev holding : CidStore
holding = record { memory = (blob.cid, blob) ∷ []; disk = [] }

empty-IsSound : IsSound hash empty
unfolding lookup
empty-IsSound cid b e = absurd (cc e)

hash-AreBytes : (bytes : Bytes) → AreBytes (hash bytes)
hash-AreBytes bytes = (
  omega arith,
  (
    omega arith,
    (
      omega arith,
      (
        omega arith,
        (
          omega arith,
          (
            omega arith,
            (
              omega arith,
              (
                omega arith,
                (
                  omega arith,
                  (
                    omega arith,
                    (
                      omega arith,
                      (
                        omega arith,
                        (
                          omega arith,
                          (
                            omega arith,
                            (
                              omega arith,
                              (
                                omega arith,
                                (
                                  omega arith,
                                  (
                                    omega arith,
                                    (
                                      omega arith,
                                      (
                                        omega arith,
                                        (
                                          omega arith,
                                          (
                                            omega arith,
                                            (
                                              omega arith,
                                              (
                                                omega arith,
                                                (
                                                  omega arith,
                                                  (
                                                    omega arith,
                                                    (
                                                      omega arith,
                                                      (
                                                        omega arith,
                                                        (
                                                          omega arith,
                                                          (
                                                            omega arith,
                                                            (omega arith, (omega arith, (tt))),
                                                          ),
                                                        ),
                                                      ),
                                                    ),
                                                  ),
                                                ),
                                              ),
                                            ),
                                          ),
                                        ),
                                      ),
                                    ),
                                  ),
                                ),
                              ),
                            ),
                          ),
                        ),
                      ),
                    ),
                  ),
                ),
              ),
            ),
          ),
        ),
      ),
    ),
  ),
)

decode_blob-encode_blob_example : decode_blob hash blob.cid (encode_blob blob) ≡ ok blob
decode_blob-encode_blob_example = decode_blob-encode_blob hash blob refl blob_utf8 (omega arith)

nothing_there : lookup (blob_path blob.cid) empty.disk ≡ none
unfolding lookup
nothing_there = refl

get-put-reopened_example :
    (store' : CidStore) × (get hash blob.cid (reopened (put blob empty).1) ≡ ok (some blob, store'))
get-put-reopened_example =
    get-put-reopened hash blob empty refl blob_utf8 (omega arith) nothing_there

abbrev on_disk : CidStore
on_disk = record { memory = []; disk = (put blob empty).1.disk }

disk_parts : (store' : CidStore) × (get hash blob.cid on_disk ≡ ok (some blob, store'))
disk_parts = get-put-reopened hash blob empty refl blob_utf8 (omega arith) nothing_there

on_disk-IsSound : IsSound hash on_disk
unfolding lookup
on_disk-IsSound cid b e = absurd (cc e)

get-IsSound_example :
    IsSound hash disk_parts.0
    × ((b : Blob) → some blob ≡ some b → (b.cid ≡ blob.cid) × (hash b.contents ≡ blob.cid))
get-IsSound_example = get-IsSound hash blob.cid on_disk on_disk-IsSound disk_parts.1

held : has blob.cid holding ≡ true
unfolding has lookup bytes_eq
held = refl

found : get hash blob.cid holding ≡ ok (some blob, holding)
unfolding get lookup bytes_eq
found = refl

lacking : has blob.cid empty ≡ false
unfolding has lookup
lacking = refl

transfer_example :
    (announce_to Unit hash (1 ∷ []) blob.cid (want blob.cid ∷ []) holding
      ≡ ok (
        record { requested = 0; sent = 1; received = 0 },
        have (1 ∷ []) (pack_cids (blob.cid ∷ [])) 1 ∷ data_message blob none ∷ [],
        holding,
      ))
    × (handle_have Unit (data_message blob none ∷ []) (pack_cids (blob.cid ∷ [])) empty
        ≡ ok (
          record { requested = 1; sent = 0; received = 1 },
          want blob.cid ∷ [],
          (put blob empty).1,
        ))
    × (get hash blob.cid (put blob empty).1 ≡ ok (some blob, (put blob empty).1))
transfer_example =
    transfer Unit hash (1 ∷ []) blob.cid blob holding holding empty refl refl held found lacking

taken :
    handle_have Unit (data_message blob none ∷ []) (pack_cids (blob.cid ∷ [])) empty
    ≡ ok (record { requested = 1; sent = 0; received = 1 }, want blob.cid ∷ [], (put blob empty).1)
taken =
    (transfer Unit hash (1 ∷ []) blob.cid blob holding holding empty refl refl held found lacking).1

abbrev asked : List (SyncMessage Unit)
asked = want blob.cid ∷ []

abbrev owner : Bytes
owner = 9 ∷ []

abbrev fresh : Context
fresh = new hash (110 ∷ []) owner 3

abbrev with_node : Context
with_node = record fresh {
  nodes = blob.cid ∷ [];
  events = fresh.events ++ node_added blob.cid owner 4 ∷ [];
}

node_run : exec (add_node_op blob.cid owner 4) fresh ≡ ok with_node
unfolding add_node require_member is_member contains bytes_eq new
node_run = refl

exec-IsExplained_example : IsExplained with_node
exec-IsExplained_example =
    exec-IsExplained (add_node_op blob.cid owner 4) fresh (new-IsExplained hash (110 ∷ []) owner 3)
      node_run

abbrev memory : SyncState
memory = record {
  seen_cids = [];
  tombstones = [];
  collab_sessions = [];
  seen_nonces = [];
  collab_metrics = [];
  trusted_keys = [];
  file_records = [];
  tunnel_status = none;
}

abbrev same : Bytes → Bytes
same bytes = bytes

unknown_key : lookup (hex_cid owner) memory.trusted_keys ≡ none
unfolding lookup
unknown_key = refl

trust_key-pinned_example :
    ((trust_key same owner (5 ∷ []) memory).0 ≡ true)
    × (trust_key same owner (6 ∷ []) (trust_key same owner (5 ∷ []) memory).1
        ≡ (bytes_eq (5 ∷ []) (6 ∷ []), (trust_key same owner (5 ∷ []) memory).1))
trust_key-pinned_example = trust_key-pinned same owner (5 ∷ []) (6 ∷ []) memory unknown_key

nonce_seen-cleanup_nonces_example :
    (nonce_seen owner 8 (mark_nonce owner 8 100 memory) ≡ true)
    × (nonce_seen owner 8 (cleanup_nonces 130 50 (mark_nonce owner 8 100 memory)) ≡ true)
nonce_seen-cleanup_nonces_example =
    nonce_seen-cleanup_nonces owner 8 100 130 50 memory (omega arith) (omega arith)
