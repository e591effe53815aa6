-- ===== src/AgentState/Memory.antt =====
-- The promises of the agent's memory (aeon-agent/src/state.rs): pinned keys, replay protection,
-- bounded tombstones and stable documents.
use aeon_flow.Base.{
  ℕ, ◌+◌, ◌%◌, ◌^◌, ◌<◌, ◌≤◌, ◌≡◌, ap, true, Bool-cases, inl, inr, none, some, Option-cases, [],
  ◌∷◌, ◌++◌, arith, ltb, leb, le_of_ltb, le→leb, length, length-append, length-drop, Bytes,
  AreBytes, bytes_eq, bytes_eq_refl, Table, lookup, insert, lookup-insert,
}
use aeon_flow.Blobs.{Cid, hex_cid, is_some}
use aeon_flow.Blobs.Hex.{parse_cid_hex-hex_cid}
use aeon_flow.AgentState.{
  Tombstone, SyncState, tombstone_cap, drain_oldest, add_tombstone, collab_doc_for_path, parsed,
  nonce_key, nonce_seen, mark_nonce, retain_fresh, cleanup_nonces, trust_key,
}

lookup-insert_same {ℓ} :
    {V : Type ℓ} (k : Bytes) (v : V) (m : Table V) → lookup k (insert k v m) ≡ some v
lookup-insert_same k v m = rw (lookup-insert k k v m, bytes_eq_refl k)

-- The first key seen for an identity is pinned: where none is known, the first call accepts and
-- stores its key, and a later call accepts exactly the keys of the same encoding, without changing
-- the state.
pub trust_key-pinned :
    (encode : Bytes → Bytes) (id key other : Bytes) (s : SyncState)
    → lookup (hex_cid id) s.trusted_keys ≡ none
    → ((trust_key encode id key s).0 ≡ true)
      × (trust_key encode id other (trust_key encode id key s).1
          ≡ (bytes_eq (encode key) (encode other), (trust_key encode id key s).1))
unfolding trust_key
trust_key-pinned encode id key other s n =
    (rw n, rw (n, lookup-insert_same (hex_cid id) (encode key) s.trusted_keys))

retain_fresh-lookup :
    (now ttl : ℕ) (k : Bytes) (m : Table ℕ) {ts : ℕ}
    → lookup k m ≡ some ts
    → leb now ((ts + ttl) % 2 ^ 64) ≡ true
    → lookup k (retain_fresh now ttl m) ≡ some ts
unfolding lookup retain_fresh
retain_fresh-lookup now ttl k [] e f = cc
retain_fresh-lookup now ttl k ((j, t) ∷ m) {ts} e f = elim (Bool-cases (bytes_eq j k)) [
  | inl b ↦
      let same : some t ≡ some ts = (rw b at e) in
      let g : leb now ((t + ttl) % 2 ^ 64) ≡ true = ground (arith, same, f) in rw (g, b) same
  | inr b ↦
      let ih = retain_fresh-lookup now ttl k m (rw b at e) f in
      elim (Bool-cases (leb now ((t + ttl) % 2 ^ 64))) [ inl g ↦ rw (g, b) ih | inr g ↦ rw g ih ]
]

-- A nonce that was marked is seen, and is still seen after a cleanup at any time up to `ttl` behind
-- the mark, where that time is a `u64`: within it, a message cannot be replayed.
pub nonce_seen-cleanup_nonces :
    (by : Bytes) (nonce marked now ttl : ℕ) (s : SyncState)
    → now ≤ marked + ttl
    → marked + ttl < 2 ^ 64
    → (nonce_seen by nonce (mark_nonce by nonce marked s) ≡ true)
      × (nonce_seen by nonce (cleanup_nonces now ttl (mark_nonce by nonce marked s)) ≡ true)
unfolding nonce_seen mark_nonce cleanup_nonces
nonce_seen-cleanup_nonces by nonce marked now ttl s l b =
    let e = lookup-insert_same (nonce_key by nonce) marked s.seen_nonces in
    let f : leb now ((marked + ttl) % 2 ^ 64) ≡ true = le→leb _ _ (omega arith) in
    (ap is_some e, ap is_some (retain_fresh-lookup now ttl (nonce_key by nonce) _ e f))

-- The list of tombstones never grows past its cap.
pub add_tombstone_bound :
    (path : Bytes) (cid : Cid) (at : ℕ) (s : SyncState)
    → length s.tombstones ≤ tombstone_cap
    → length (add_tombstone path cid at s).tombstones ≤ tombstone_cap
unfolding add_tombstone drain_oldest
add_tombstone_bound path cid at s l =
    let t : Tombstone = record { path = path; cid = hex_cid cid; at = at } in
    let ts = s.tombstones ++ t ∷ [] in
    elim (Bool-cases (ltb tombstone_cap (length ts))) [
      | inl e ↦ rw e (omega (arith, length-append s.tombstones (t ∷ []), length-drop 2000 ts))
      | inr e ↦ rw e (le_of_ltb tombstone_cap (length ts) e)
    ]

-- The document of a path is stable: a second request gives the same identifier and leaves the state
-- as it is. The hash has 32 bytes.
pub collab_doc_for_path_again :
    (blake3 : Bytes → Bytes) (path : Bytes) (s : SyncState)
    → length (blake3 path) ≡ 32
    → AreBytes (blake3 path)
    → collab_doc_for_path blake3 path (collab_doc_for_path blake3 path s).1
      ≡ collab_doc_for_path blake3 path s
unfolding collab_doc_for_path
collab_doc_for_path_again blake3 path s l a =
    elim (Option-cases (parsed (lookup path s.collab_sessions))) [
      | inl n ↦ rw (
        n,
        lookup-insert_same path (hex_cid (blake3 path)) s.collab_sessions,
        parse_cid_hex-hex_cid (blake3 path) l a,
      )
      | inr (cid, e) ↦ rw (e, e)
    ]
