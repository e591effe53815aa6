-- ===== src/Blobs/Keeps.antt =====
-- The store (aeon-store/src/store.rs): what is put is found, also by a store opened anew on the same
-- disk, and what is found has the hash that names it.
use aeon_flow.Base.{
  ◌+◌, ◌^◌, ◌<◌, ◌≡◌, sym, ◌∙◌, subst, true, Option, none, some, Option-cases, Bool-cases, inl, inr,
  [], ◌∷◌, length, Bytes, bytes_eq, bytes_eq_refl, eq_of_bytes_eq, is_utf8, Table, lookup, insert,
  lookup-insert, ok, bind-eq-ok,
}
use aeon_flow.Blobs.{Cid, Blob, CidStore, blob_path, encode_blob, decode_blob, put, has, get}
use aeon_flow.Blobs.Format.{decode_blob-encode_blob, decode_blob_sound}

lookup-insert_same {ℓ} :
    {V : Type ℓ} (k : Bytes) (v : V) (m : Table V) → lookup k (insert k v m) ≡ some v
lookup-insert_same k v m = rw (lookup-insert k k v m, bytes_eq_refl k)

-- A blob put is found in the store, unchanged, and the store says it has it.
pub get-put :
    (blake3 : Bytes → Bytes) (blob : Blob) (store : CidStore)
    → (get blake3 blob.cid (put blob store).1 ≡ ok (some blob, (put blob store).1))
      × (has blob.cid (put blob store).1 ≡ true)
unfolding get put has
get-put blake3 blob store = (
  rw (lookup-insert_same blob.cid blob store.memory),
  rw (lookup-insert_same blob.cid blob store.memory),
)

-- `CIDStore::new` on a disk that an earlier store wrote
abbrev pub reopened : CidStore → CidStore
reopened store = record { memory = []; disk = store.disk }

-- A blob of a readable form, put in a store that had no file of that path, is read back by a store
-- opened anew on the same disk.
pub get-put-reopened :
    (blake3 : Bytes → Bytes) (blob : Blob) (store : CidStore)
    → blake3 blob.contents ≡ blob.cid
    → is_utf8 blob.mime ≡ true
    → 8 + length blob.mime < 2 ^ 64
    → lookup (blob_path blob.cid) store.disk ≡ none
    → (store' : CidStore) × (get blake3 blob.cid (reopened (put blob store).1)
        ≡ ok (some blob, store'))
unfolding get put lookup insert
get-put-reopened blake3 blob store h u l n = (
  record {
    memory = (blob.cid, blob) ∷ [];
    disk = insert (blob_path blob.cid) (encode_blob blob) store.disk;
  },
  rw (
    n,
    lookup-insert_same (blob_path blob.cid) (encode_blob blob) store.disk,
    decode_blob-encode_blob blake3 blob h u l,
  ),
)

-- Every blob in memory stands under the hash of its contents.
abbrev pub IsSound : (Bytes → Bytes) → CidStore → Type 0
IsSound blake3 store =
    (cid : Cid) (blob : Blob)
    → lookup cid store.memory ≡ some blob
    → (blob.cid ≡ cid) × (blake3 blob.contents ≡ cid)

IsSound-insert :
    (blake3 : Bytes → Bytes) (blob : Blob) (store : CidStore) (disk : Table Bytes)
    → blake3 blob.contents ≡ blob.cid
    → IsSound blake3 store
    → IsSound blake3 (record { memory = insert blob.cid blob store.memory; disk = disk })
IsSound-insert blake3 blob store disk h v cid b e = elim (Bool-cases (bytes_eq blob.cid cid)) [
  | inl t ↦
      let found : some blob ≡ some b =
        (rw (t) at (sym (lookup-insert blob.cid cid blob store.memory))) ∙ e in
      let same : blob ≡ b = cc found in
      let k = eq_of_bytes_eq blob.cid cid t in rw (← same) (k, h ∙ k)
  | inr t ↦ v cid b ((rw t at (sym (lookup-insert blob.cid cid blob store.memory))) ∙ e)
]

-- Putting a blob whose identifier is its hash keeps the memory sound.
pub put-IsSound :
    (blake3 : Bytes → Bytes) (blob : Blob) (store : CidStore)
    → blake3 blob.contents ≡ blob.cid
    → IsSound blake3 store
    → IsSound blake3 (put blob store).1
unfolding put
put-IsSound blake3 blob store h v = IsSound-insert blake3 blob store (put blob store).1.disk h v

-- From a store with sound memory, and whatever its files hold: what `get` returns has the identifier
-- asked for, which is the hash of its contents, and the memory stays sound.
pub get-IsSound :
    (blake3 : Bytes → Bytes) (cid : Cid) (store : CidStore) {found : Option Blob}
    {store' : CidStore}
    → IsSound blake3 store
    → get blake3 cid store ≡ ok (found, store')
    → IsSound blake3 store'
      × ((blob : Blob) → found ≡ some blob → (blob.cid ≡ cid) × (blake3 blob.contents ≡ cid))
unfolding get
get-IsSound blake3 cid store {found} {store'} v e = elim (Option-cases (lookup cid store.memory)) [
  | inr (b, g) ↦
      let e₁ = (rw g at e) in
      let same_found : some b ≡ found = cc e₁ in
      let same_store : store ≡ store' = cc e₁ in
      (subst (IsSound blake3) same_store v, λ blob f. v cid blob (g ∙ same_found ∙ f))
  | inl g ↦ elim (Option-cases (lookup (blob_path cid) store.disk)) [
    | inl n ↦
        let e₁ = (rw (g, n) at e) in
        let same_found : none ≡ found = cc e₁ in
        let same_store : store ≡ store' = cc e₁ in
        (subst (IsSound blake3) same_store v, λ blob f. absurd (cc (same_found ∙ f)))
    | inr (buf, n) ↦
        let (b, d, e₁) = bind-eq-ok (decode_blob blake3 cid buf) _ (rw (g, n) at e) in
        let (i, h) = decode_blob_sound blake3 cid buf d in
        let same_found : some b ≡ found = cc e₁ in
        let same_store : record store { memory = insert cid b store.memory } ≡ store' = cc e₁ in
        let kept : IsSound blake3 (record store { memory = insert cid b store.memory }) =
          subst (λ k. IsSound blake3 (record store { memory = insert k b store.memory })) i
            (IsSound-insert blake3 b store store.disk (h ∙ sym i) v) in
        (
          subst (IsSound blake3) same_store kept,
          λ blob f. let same : b ≡ blob = cc (same_found ∙ f) in rw (← same) (i, h),
        )
  ]
]
