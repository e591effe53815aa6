-- ===== src/Vault/Totp.antt =====
-- One-time codes (aeon-sync/src/vault.rs): the secret in base 32, and the code of a counter.
use aeon_flow.Base.{
  ℕ, zero, suc, ◌+◌, ◌-◌, ◌*◌, ◌/◌, ◌%◌, ◌^◌, ◌<◌, ◌≡◌, refl, true, false, ◌||◌, [], ◌∷◌, ◌++◌,
  arith, leb, ◌==◌, if◌then◌else◌, length, length-append, get_elem?, get_elem?-lt, Bytes, Text,
  within, is_empty, Outcome, ok, err, ◌>>=◌, expect, Ensures, Ensures-bind, Ensures-expect,
}

pub data VaultError : Type 0 where
  io serialize crypto_unavailable missing_entry decrypt_failed unsupported_credential_kind :
      VaultError
  invalid_totp_secret invalid_url missing_oauth_refresh_config invalid_oauth_response : VaultError

-- A character of base 32: a value, one to skip, or none of it.
pub data Symbol : Type 0 where
  value : ℕ → Symbol
  skip bad : Symbol

abbrev symbol : ℕ → Symbol
symbol c =
    if within b'A' b'Z' c
    then value (c - b'A')
    else if within b'a' b'z' c
    then value (c - b'a')
    else if within b'2' b'7' c
    then value (c - b'2' + 26)
    else if c == b'=' || c == b' ' || c == b'-'
    then skip
    else bad

-- The loop over the characters. `bits` is below 8 between them, so that each gives one byte at most.
unfoldable pub decode_symbols : (buffer bits : ℕ) → Bytes → Text → Outcome VaultError Bytes
decode_symbols buffer bits out [] = ok out
decode_symbols buffer bits out (c ∷ cs) = elim (symbol c) [
  | bad ↦ err invalid_totp_secret
  | skip ↦ decode_symbols buffer bits out cs
  | value v ↦
      let buffer' = (buffer * 32 + v) % 2 ^ 32 in
      elim (leb 8 (bits + 5)) [
        | true ↦ decode_symbols buffer' (bits - 3) (out ++ buffer' / 2 ^ (bits - 3) % 256 ∷ []) cs
        | false ↦ decode_symbols buffer' (bits + 5) out cs
      ]
]

unfoldable pub decode_base32_secret : Text → Outcome VaultError Bytes
unfolding decode_symbols
decode_base32_secret secret =
    decode_symbols 0 0 [] secret >>= λ out. if is_empty out then err invalid_totp_secret else ok out

-- RFC 4648: "foobar"
decode_base32_secret_test :
    decode_base32_secret
      (b'M' ∷ b'Z' ∷ b'X' ∷ b'W' ∷ b'6' ∷ b'Y' ∷ b't' ∷ b'b' ∷ b'O' ∷ b'I' ∷ b'=' ∷ [])
    ≡ ok (b'f' ∷ b'o' ∷ b'o' ∷ b'b' ∷ b'a' ∷ b'r' ∷ [])
unfolding decode_base32_secret
decode_base32_secret_test = refl

unfoldable pub to_be_bytes : ℕ → ℕ → Bytes
to_be_bytes zero n = []
to_be_bytes (suc w) n = to_be_bytes w (n / 256) ++ n % 256 ∷ []

-- `{:0width$}` of a number below `10 ^ width`
unfoldable pub padded : (width n : ℕ) → Text
padded zero n = []
padded (suc w) n = padded w (n / 10) ++ (b'0' + n % 10) ∷ []

-- Over `HmacSha1` of the secret and the message, with `TOTP_DIGITS` digits
unfoldable pub hotp_sha1 : (Bytes → Bytes → Bytes) → Bytes → ℕ → Outcome VaultError Text
unfolding to_be_bytes padded
hotp_sha1 hmac secret counter = do
  let hash = hmac secret (to_be_bytes 8 counter)
  last ← expect (get_elem? hash (length hash - 1))
  let offset = last % 16
  a ← expect (get_elem? hash offset)
  b ← expect (get_elem? hash (offset + 1))
  c ← expect (get_elem? hash (offset + 2))
  d ← expect (get_elem? hash (offset + 3))
  let binary = a % 128 * 2 ^ 24 + b * 2 ^ 16 + c * 2 ^ 8 + d
  ok (padded 6 (binary % 10 ^ 6))

length-padded : (w n : ℕ) → length (padded w n) ≡ w
unfolding padded
length-padded zero n = refl
length-padded (suc w) n =
    omega
      (arith, length-append (padded w (n / 10)) ((b'0' + n % 10) ∷ []), length-padded w (n / 10))

AnyByte : ℕ → Type 0
AnyByte b = Unit

byte-AnyByte :
    (hash : Bytes) (i : ℕ)
    → i < length hash
    → Ensures {E = VaultError} AnyByte (expect (get_elem? hash i))
unfolding AnyByte
byte-AnyByte hash i l =
    let (b, e) = get_elem?-lt hash i l in Ensures-expect AnyByte (get_elem? hash i) b _ refl e tt

-- Over a hash of 20 bytes, as SHA-1 has, the code has exactly six characters, and the look-ups at the
-- offset that the hash itself gives do not panic.
pub hotp_sha1-length :
    (hmac : Bytes → Bytes → Bytes) (secret : Bytes) (counter : ℕ)
    → ((key message : Bytes) → length (hmac key message) ≡ 20)
    → Ensures (λ code. length code ≡ 6) (hotp_sha1 hmac secret counter)
unfolding hotp_sha1
hotp_sha1-length hmac secret counter sized =
    let hash = hmac secret (to_be_bytes 8 counter) in
    let n : length hash ≡ 20 = sized secret (to_be_bytes 8 counter) in
    Ensures-bind AnyByte _ (expect (get_elem? hash (length hash - 1))) _
      (byte-AnyByte hash _ (omega arith))
      λ last _.
        Ensures-bind AnyByte _ (expect (get_elem? hash (last % 16))) _
          (byte-AnyByte hash _ (omega arith))
          λ a _.
            Ensures-bind AnyByte _ (expect (get_elem? hash (last % 16 + 1))) _
              (byte-AnyByte hash _ (omega arith))
              λ b _.
                Ensures-bind AnyByte _ (expect (get_elem? hash (last % 16 + 2))) _
                  (byte-AnyByte hash _ (omega arith))
                  λ c _.
                    Ensures-bind AnyByte _ (expect (get_elem? hash (last % 16 + 3))) _
                      (byte-AnyByte hash _ (omega arith))
                      λ d _.
                        length-padded 6 ((a % 128 * 2 ^ 24 + b * 2 ^ 16 + c * 2 ^ 8 + d) % 10 ^ 6)
