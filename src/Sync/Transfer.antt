-- ===== src/Sync/Transfer.antt =====
-- The exchange of blobs (aeon-store/src/sync.rs): the packed list, the limits of a session, and the
-- transfer of one blob from end to end.
use aeon_flow.Base.{
  ℕ, zero, suc, ◌*◌, ◌%◌, ◌≤◌, ◌≡◌, refl, ap, ◌∙◌, subst, true, false, none, some, List, [], ◌∷◌,
  ◌++◌, append-nil, map, arith, ltb, ltb-false, ◌==◌, ==_iff, length, length-append, take,
  take-append, take_all, drop, drop-append_past, Bytes, ok, bind-eq-ok,
}
use aeon_flow.Blobs.{Cid, Blob, CidStore, put, has, get}
use aeon_flow.Blobs.Keeps.{get-put}
use aeon_flow.Sync.{
  SyncReport, SyncMessage, have, want, data_message, pack_cids, chunks_32, unpack_cids, missing_of,
  receive, handle_have, handle_want, answer, announce_to, add_report,
}

-- Every identifier has 32 bytes.
abbrev pub AreCids : List Cid → Type 0
AreCids [] = Unit
AreCids (cid ∷ cids) = (length cid ≡ 32) × AreCids cids

length-pack_cids : (cids : List Cid) → AreCids cids → length (pack_cids cids) ≡ 32 * length cids
unfolding pack_cids
length-pack_cids [] a = omega arith
length-pack_cids (cid ∷ cids) a =
    omega (arith, length-append cid (pack_cids cids), a.0, length-pack_cids cids a.1)

chunks_32-pack_cids :
    (n : ℕ) (cids : List Cid) → AreCids cids → length cids ≤ n → chunks_32 n (pack_cids cids) ≡ cids
unfolding pack_cids chunks_32
chunks_32-pack_cids zero [] a l = refl
chunks_32-pack_cids zero (cid ∷ cids) a l = absurd (omega arith)
chunks_32-pack_cids (suc n) [] a l = refl
chunks_32-pack_cids (suc n) (cid ∷ cids) a l =
    let rest = pack_cids cids in
    let long : ltb (length (cid ++ rest)) 32 ≡ false =
      ltb-false _ _ (omega (arith, length-append cid rest, a.0)) in
    let front : take 32 (cid ++ rest) ≡ cid =
      take-append 32 cid rest ∙ rw (a.0, take_all cid 32 (omega (arith, a.0)), append-nil) in
    let behind : drop 32 (cid ++ rest) ≡ rest =
      drop-append_past cid rest 32 0 (omega (arith, a.0)) in
    rw (long, front, behind, chunks_32-pack_cids n cids a.1 (omega arith))

-- A list of identifiers reads back from its packed form.
pub unpack_cids-pack_cids :
    (cids : List Cid) → AreCids cids → unpack_cids (pack_cids cids) ≡ ok cids
unfolding unpack_cids
unpack_cids-pack_cids cids a =
    let l = length-pack_cids cids a in
    let whole : (length (pack_cids cids) % 32 == 0) ≡ true = (==_iff _ _).1 (omega arith) in
    rw (whole, chunks_32-pack_cids (length (pack_cids cids)) cids a (omega arith))

abbrev report_of : ℕ → ℕ → SyncReport
report_of requested received = record { requested = requested; sent = 0; received = received }

module _ (Node : Type 0) where
  receive_bound :
      (need : ℕ) (incoming : List (SyncMessage Node)) (store : CidStore)
      → (receive Node need incoming store).0 ≤ need
  unfolding receive
  receive_bound zero incoming store = omega arith
  receive_bound (suc need) [] store = omega arith
  receive_bound (suc need) (data_message blob _ ∷ incoming) store =
      omega (arith, receive_bound need incoming (put blob store).1)
  receive_bound (suc need) (have _ _ _ ∷ incoming) store = receive_bound (suc need) incoming store
  receive_bound (suc need) (want _ ∷ incoming) store = receive_bound (suc need) incoming store
  receive_bound (suc need) (SyncMessage.ping _ ∷ incoming) store =
      receive_bound (suc need) incoming store
  receive_bound (suc need) (SyncMessage.device_joined _ _ ∷ incoming) store =
      receive_bound (suc need) incoming store
  receive_bound (suc need) (SyncMessage.device_left _ ∷ incoming) store =
      receive_bound (suc need) incoming store

  abbrev wants : List Cid → List (SyncMessage Node)
  wants cids = map want cids

  length-map_want : (cids : List Cid) → length (wants cids) ≡ length cids
  length-map_want [] = refl
  length-map_want (c ∷ cs) = ap suc (length-map_want cs)

  -- Whatever the peer offers and sends: a session asks for one blob in each message it sends, and
  -- takes in no more blobs than it asked for.
  pub handle_have-received :
      (incoming : List (SyncMessage Node)) (bloom : Bytes) (store : CidStore) {report : SyncReport}
      {sent : List (SyncMessage Node)} {store' : CidStore}
      → handle_have Node incoming bloom store ≡ ok (report, sent, store')
      → (report.received ≤ report.requested) × (length sent ≡ report.requested)
  unfolding handle_have
  handle_have-received incoming bloom store {report} {sent} {store'} e =
      let (offered, u, e₁) = bind-eq-ok (unpack_cids bloom) _ e in
      let missing = missing_of store offered in
      let r = receive Node (length missing) incoming store in
      let e₂ : report_of (length missing) r.0 ≡ report = cc e₁ in
      let e₃ : wants missing ≡ sent = cc e₁ in
      let b = receive_bound (length missing) incoming store in
      (subst (λ x. x.received ≤ x.requested) e₂ b, rw (← e₃, ← e₂) (length-map_want missing))

-- A blob that one store has and another lacks: the announcement makes the other ask for it, the
-- answer sends it, and the other then has it, under its identifier and with its contents.
pub transfer :
    (Node : Type 0) (blake3 : Bytes → Bytes) (device_id : Bytes) (cid : Cid) (blob : Blob)
    (from from' to : CidStore)
    → length cid ≡ 32
    → blob.cid ≡ cid
    → has cid from ≡ true
    → get blake3 cid from ≡ ok (some blob, from')
    → has cid to ≡ false
    → (announce_to Node blake3 device_id cid (want cid ∷ []) from
        ≡ ok (
          record { requested = 0; sent = 1; received = 0 },
          have device_id (pack_cids (cid ∷ [])) 1 ∷ data_message blob none ∷ [],
          from',
        ))
      × (handle_have Node (data_message blob none ∷ []) (pack_cids (cid ∷ [])) to
          ≡ ok (record { requested = 1; sent = 0; received = 1 }, want cid ∷ [], (put blob to).1))
      × (get blake3 cid (put blob to).1 ≡ ok (some blob, (put blob to).1))
unfolding announce_to answer handle_want add_report handle_have receive missing_of
transfer Node blake3 device_id cid blob from from' to l i h g n = (
  rw (h, g),
  rw (unpack_cids-pack_cids (cid ∷ []) (l, tt), n),
  subst (λ c. get blake3 c (put blob to).1 ≡ ok (some blob, (put blob to).1)) i
      (get-put blake3 blob to).0,
)
