-- ===== src/Blobs/Format.antt =====
-- The file of a blob (aeon-store/src/store.rs), written and read.
use aeon_flow.Base.{
  ℕ, ◌+◌, ◌-◌, ◌^◌, ◌<◌, ◌≡◌, refl, ap, sym, ◌∙◌, true, ◌++◌, append-nil, arith, ltb, leb, le→leb,
  lt→ltb, length, length-append, take, take-append, take_all, drop, drop-append_past, slice, Bytes,
  bytes_eq, bytes_eq_of_eq, eq_of_bytes_eq, is_utf8, le_bytes, le_value, le_value-le_bytes,
  length-le_bytes, ok, ok_or, guard-bind, bind-eq-ok,
}
use aeon_flow.Heap.{checked_add}
use aeon_flow.Blobs.{Cid, Blob, encode_blob, decode_blob, mime_len_overflow}

take_front : (xs ys : Bytes) (n : ℕ) → n ≡ length xs → take n (xs ++ ys) ≡ xs
take_front xs ys n e =
    let z : n - length xs ≡ 0 = omega arith in
    take-append n xs ys ∙ rw (z, take_all xs n (omega arith), append-nil)

drop_front : (xs ys : Bytes) (n : ℕ) → n ≡ length xs → drop n (xs ++ ys) ≡ ys
drop_front xs ys n e = drop-append_past xs ys n 0 (omega arith)

-- A blob whose identifier is the hash of its contents, whose type is UTF-8 and which is shorter than
-- 2 ^ 64 bytes with its header, reads back from the file written for it.
pub decode_blob-encode_blob :
    (blake3 : Bytes → Bytes) (blob : Blob)
    → blake3 blob.contents ≡ blob.cid
    → is_utf8 blob.mime ≡ true
    → 8 + length blob.mime < 2 ^ 64
    → decode_blob blake3 blob.cid (encode_blob blob) ≡ ok blob
unfolding decode_blob encode_blob checked_add le_bytes
decode_blob-encode_blob blake3 blob h u l =
    let header = le_bytes 8 (length blob.mime) in
    let lh : length header ≡ 8 = length-le_bytes 8 (length blob.mime) in
    let body = blob.mime ++ blob.contents in
    let front : take 8 (header ++ body) ≡ header = take_front header body 8 (sym lh) in
    let n : le_value header ≡ length blob.mime =
      le_value-le_bytes 8 (length blob.mime) (omega arith) in
    let size : length (header ++ body) ≡ 8 + length blob.mime + length blob.contents =
      omega (arith, length-append header body, length-append blob.mime blob.contents) in
    let enough : leb 8 (length (header ++ body)) ≡ true = le→leb _ _ (omega arith) in
    let fits : ltb (8 + length blob.mime) (2 ^ 64) ≡ true = lt→ltb _ _ l in
    let within : leb (8 + length blob.mime) (length (header ++ body)) ≡ true =
      le→leb _ _ (omega arith) in
    let mime : take (length blob.mime) (drop 8 (header ++ body)) ≡ blob.mime =
      ap (take (length blob.mime)) (drop_front header body 8 (sym lh))
      ∙ take_front blob.mime blob.contents (length blob.mime) refl in
    let contents : drop (8 + length blob.mime) (header ++ body) ≡ blob.contents =
      drop-append_past header body _ (length blob.mime) (omega arith)
      ∙ drop_front blob.mime blob.contents (length blob.mime) refl in
    rw (enough, front, n, fits, within, mime, u, contents, bytes_eq_of_eq _ _ h)

abbrev made : Cid → Bytes → Bytes → Blob
made cid contents mime = record { cid = cid; contents = contents; mime = mime }

-- What reads back as a blob has the identifier that was asked for, which is the hash of its contents.
pub decode_blob_sound :
    (blake3 : Bytes → Bytes) (cid : Cid) (buf : Bytes) {blob : Blob}
    → decode_blob blake3 cid buf ≡ ok blob
    → (blob.cid ≡ cid) × (blake3 blob.contents ≡ cid)
unfolding decode_blob
decode_blob_sound blake3 cid buf {blob} e =
    let (_, e₁) = guard-bind (leb 8 (length buf)) _ _ e in
    let n = le_value (take 8 buf) in
    let (start, _, e₂) = bind-eq-ok (ok_or (checked_add 8 n) mime_len_overflow) _ e₁ in
    let (_, e₃) = guard-bind (leb start (length buf)) _ _ e₂ in
    let (_, e₄) = guard-bind (is_utf8 (slice buf 8 n)) _ _ e₃ in
    let (t, e₅) = guard-bind (bytes_eq (blake3 (drop start buf)) cid) _ _ e₄ in
    let result : made cid (drop start buf) (slice buf 8 n) ≡ blob = cc e₅ in
    rw (← result) (refl, eq_of_bytes_eq _ _ t)
