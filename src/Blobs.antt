-- ===== src/Blobs.antt =====
-- The content-addressed store (aeon-store/src/store.rs): hexadecimal identifiers, the file format of
-- a blob, and the store in memory and on disk. The disk is the files under `root`, by their path;
-- failures of its calls are not modelled, and neither are signed blobs.
pub mod Hex
pub mod Format
pub mod Keeps
use aeon_flow.Base.{
  ℕ, ◌+◌, ◌-◌, ◌*◌, ◌/◌, ◌%◌, ◌^◌, Bool, true, false, ◌&&◌, ◌||◌, not, Option, none, some, List, [],
  ◌∷◌, ◌++◌, ltb, leb, ◌==◌, if◌then◌else◌, length, take, drop, slice, Bytes, bytes_eq, ascii,
  is_utf8, le_bytes, le_value, Table, lookup, insert, Outcome, ok, err, ◌>>=◌, ◌>>◌, ok_or, guard,
}
use aeon_flow.Heap.{checked_add}

-- [u8; 32]
abbrev pub Cid : Type 0
Cid = Bytes

pub record Blob : Type 0 where
  pub cid : Cid
  pub contents : Bytes
  pub mime : Bytes

-- The digits of `format!("{byte:02x}")`
abbrev pub hex_digit : ℕ → ℕ
hex_digit d = if ltb d 10 then 48 + d else 87 + d

unfoldable pub hex_cid : Cid → Bytes
hex_cid [] = []
hex_cid (b ∷ bs) = hex_digit (b / 16) ∷ hex_digit (b % 16) ∷ hex_cid bs

-- `char::to_digit(16)`
abbrev pub from_digit : ℕ → Option ℕ
from_digit c =
    if leb 48 c && leb c 57
    then some (c - 48)
    else if leb 97 c && leb c 102
    then some (c - 87)
    else if leb 65 c && leb c 70
    then some (c - 55)
    else none

abbrev pub from_digits : Option ℕ → Option ℕ → Option ℕ
from_digits (some x) (some y) = some (16 * x + y)
from_digits _ _ = none

-- `u8::from_str_radix(part, 16)` of two bytes: a leading `+` is a sign.
abbrev pub from_str_radix : ℕ → ℕ → Option ℕ
from_str_radix a b = if a == 43 then from_digit b else from_digits (from_digit a) (from_digit b)

pub data HexError : Type 0 where
  bad_length bad_digits : HexError

-- The loop of `parse_cid_hex`. A chunk that is not UTF-8 has a byte that is no digit, and is an error
-- as well.
unfoldable pub parse_chunks : Bytes → Outcome HexError Cid
parse_chunks (a ∷ b ∷ rest) = do
  byte ← ok_or (from_str_radix a b) bad_digits
  cid ← parse_chunks rest
  ok (byte ∷ cid)
parse_chunks _ = ok []

unfoldable pub parse_cid_hex : Bytes → Outcome HexError Cid
unfolding parse_chunks
parse_cid_hex hex = do guard (length hex == 64) bad_length; parse_chunks hex

unfoldable pub encode_blob : Blob → Bytes
encode_blob blob = le_bytes 8 (length blob.mime) ++ blob.mime ++ blob.contents

pub data BlobError : Type 0 where
  header_truncated mime_len_overflow mime_len_exceeds mime_not_utf8 cid_mismatch : BlobError

-- `CIDStore`, with the files on its disk.
pub record CidStore : Type 0 where
  pub memory : Table Blob
  pub disk : Table Bytes

-- `hex[..2]/hex`, under `root`
unfoldable pub blob_path : Cid → Bytes
unfolding hex_cid
blob_path cid = take 2 (hex_cid cid) ++ ascii "/" ++ hex_cid cid

abbrev pub is_some {ℓ} : {A : Type ℓ} → Option A → Bool
is_some none = false
is_some (some _) = true

unfoldable pub put : Blob → CidStore → Cid × CidStore
put blob store =
    let path = blob_path blob.cid in
    (
      blob.cid,
      record {
        memory = insert blob.cid blob store.memory;
        disk =
            if is_some (lookup path store.disk)
            then store.disk
            else insert path (encode_blob blob) store.disk;
      },
    )

unfoldable pub has : Cid → CidStore → Bool
has cid store = is_some (lookup cid store.memory) || is_some (lookup (blob_path cid) store.disk)

module _ (blake3 : Bytes → Bytes) where
  unfoldable pub decode_blob : Cid → Bytes → Outcome BlobError Blob
  unfolding checked_add
  decode_blob expected_cid buf = do
    guard (leb 8 (length buf)) header_truncated
    let mime_len = le_value (take 8 buf)
    data_start ← ok_or (checked_add 8 mime_len) mime_len_overflow
    guard (leb data_start (length buf)) mime_len_exceeds
    let mime = slice buf 8 mime_len
    guard (is_utf8 mime) mime_not_utf8
    let contents = drop data_start buf
    guard (bytes_eq (blake3 contents) expected_cid) cid_mismatch
    ok (record { cid = expected_cid; contents = contents; mime = mime })

  -- The half of `get` behind the look at the memory, for the file found.
  abbrev pub get_from_disk :
      Cid → CidStore → Option Bytes → Outcome BlobError (Option Blob × CidStore)
  get_from_disk cid store none = ok (none, store)
  get_from_disk cid store (some buf) = do
    blob ← decode_blob cid buf
    ok (some blob, record store { memory = insert cid blob store.memory })

  abbrev pub get_from :
      Cid → CidStore → Option Blob → Option Bytes → Outcome BlobError (Option Blob × CidStore)
  get_from cid store (some blob) file = ok (some blob, store)
  get_from cid store none file = get_from_disk cid store file

  unfoldable pub get : Cid → CidStore → Outcome BlobError (Option Blob × CidStore)
  unfolding decode_blob
  get cid store = get_from cid store (lookup cid store.memory) (lookup (blob_path cid) store.disk)

  -- `Blob::new`
  unfoldable pub new_blob : Bytes → Bytes → Blob
  new_blob contents mime = record { cid = blake3 contents; contents = contents; mime = mime }
