-- ===== src/Vault.antt =====
-- The credential vault (aeon-sync/src/vault.rs): encrypted entries, the host of a page, unlock
-- sessions, and refreshed tokens. Ciphers, key derivation, JSON, random bytes, the clock and the
-- write of the file are arguments. A text is the list of its code points. Handlers of HTTP requests
-- only pass their fields on.
pub mod Hosts
pub mod Totp
pub mod Sessions
pub mod Entries
use aeon_flow.Base.{
  ℕ, zero, suc, ◌+◌, ◌-◌, ◌*◌, ◌/◌, ◌^◌, min, max, Bool, true, false, ◌&&◌, ◌||◌, not, Option, none,
  some, List, [], ◌∷◌, ◌++◌, ltb, leb, ◌==◌, if◌then◌else◌, length, map, Bytes, bytes_eq, ascii,
  Text, is_empty, trim, Table, lookup, insert, Outcome, ok, err, ◌>>=◌, ◌>>◌, ok_or, guard,
}
use aeon_flow.Vault.Hosts.{host_from_http_url, domain_matches_host}
use aeon_flow.Vault.Totp.{
  VaultError, missing_entry, unsupported_credential_kind, invalid_url, missing_oauth_refresh_config,
  invalid_oauth_response, decode_base32_secret, hotp_sha1,
}

pub data CredentialKind : Type 0 where
  password_kind oauth_token_kind browser_session_kind api_key_kind ssh_key_kind totp_kind :
      CredentialKind

pub record OauthToken : Type 0 where
  pub access_token : Text
  pub refresh_token : Text
  pub expires_at : ℕ
  pub scopes : List Text
  pub token_url : Option Text
  pub client_id : Option Text
  pub client_secret : Option Text

pub data CredentialSecret : Type 0 where
  password_secret : (username password : Text) → CredentialSecret
  oauth_token : OauthToken → CredentialSecret
  browser_session : (cookies_json user_agent : Text) → CredentialSecret
  api_key : (key header_name : Text) → CredentialSecret
  ssh_key : (public_key private_key : Text) → CredentialSecret
  totp : (secret issuer : Text) → CredentialSecret

-- `kind == kind`
abbrev kind_code : CredentialKind → ℕ
kind_code password_kind = 0
kind_code oauth_token_kind = 1
kind_code browser_session_kind = 2
kind_code api_key_kind = 3
kind_code ssh_key_kind = 4
kind_code totp_kind = 5

abbrev pub is_kind : CredentialKind → CredentialKind → Bool
is_kind a b = kind_code a == kind_code b

unfoldable pub credential_secret_kind : CredentialSecret → CredentialKind
credential_secret_kind (password_secret _ _) = password_kind
credential_secret_kind (oauth_token _) = oauth_token_kind
credential_secret_kind (browser_session _ _) = browser_session_kind
credential_secret_kind (api_key _ _) = api_key_kind
credential_secret_kind (ssh_key _ _) = ssh_key_kind
credential_secret_kind (totp _ _) = totp_kind

pub record CredentialMetadata : Type 0 where
  pub id : Text
  pub kind : CredentialKind
  pub label : Text
  pub domains : List Text
  pub last_used : ℕ
  pub auto_fill : Bool

pub record EncryptedCredentialEntry : Type 0 where
  pub metadata : CredentialMetadata
  pub nonce : Bytes
  pub encrypted_data : Bytes

pub record VaultFile : Type 0 where
  pub salt : Bytes
  pub iterations : ℕ
  pub entries : List EncryptedCredentialEntry

-- What the code takes from the libraries and the system.
pub record Crypto : Type 0 where
  pub derive_key : Text → Bytes → ℕ → Bytes
  pub encrypt : Bytes → Bytes → Bytes → Outcome VaultError Bytes
  pub decrypt : Bytes → Bytes → Bytes → Outcome VaultError Bytes
  pub to_json : CredentialSecret → Outcome VaultError Bytes
  pub from_json : Bytes → Outcome VaultError CredentialSecret
  pub write_vault_file : VaultFile → Outcome VaultError Unit

pub record PasswordFillCredential : Type 0 where
  pub id : Text
  pub label : Text
  pub username : Text
  pub password : Text
  pub expires_at : ℕ

-- `entries.iter().find(|entry| entry.metadata.id == id)`
unfoldable pub find_entry : Text → List EncryptedCredentialEntry → Option EncryptedCredentialEntry
find_entry id [] = none
find_entry id (e ∷ es) = if bytes_eq e.metadata.id id then some e else find_entry id es

-- The write through `iter_mut().find`, where it finds one
unfoldable pub replace_entry :
    EncryptedCredentialEntry
    → List EncryptedCredentialEntry
    → Option (List EncryptedCredentialEntry)
replace_entry e [] = none
replace_entry e (x ∷ xs) =
    let rest = replace_entry e xs in
    if bytes_eq x.metadata.id e.metadata.id
    then some (e ∷ xs)
    else (elim rest [ none ↦ none | some ys ↦ some (x ∷ ys) ])

-- The order of texts, and the stable sort by `id`
unfoldable pub text_le : Text → Text → Bool
text_le [] t = true
text_le (c ∷ s) [] = false
text_le (c ∷ s) (d ∷ t) = ltb c d || (c == d && text_le s t)

unfoldable pub insert_entry :
    EncryptedCredentialEntry → List EncryptedCredentialEntry → List EncryptedCredentialEntry
unfolding text_le
insert_entry e [] = e ∷ []
insert_entry e (x ∷ xs) =
    if text_le e.metadata.id x.metadata.id then e ∷ x ∷ xs else x ∷ insert_entry e xs

unfoldable pub sort_entries : List EncryptedCredentialEntry → List EncryptedCredentialEntry
unfolding insert_entry
sort_entries [] = []
sort_entries (e ∷ es) = insert_entry e (sort_entries es)

abbrev pub or_push :
    EncryptedCredentialEntry
    → List EncryptedCredentialEntry
    → Option (List EncryptedCredentialEntry)
    → List EncryptedCredentialEntry
or_push e es none = es ++ e ∷ []
or_push e es (some es') = es'

unfoldable pub any_domain : Text → List Text → Bool
unfolding domain_matches_host
any_domain host [] = false
any_domain host (d ∷ ds) = domain_matches_host d host || any_domain host ds

abbrev pub as_password : CredentialSecret → Outcome VaultError (Text × Text)
as_password (password_secret username password) = ok (username, password)
as_password _ = err unsupported_credential_kind

abbrev as_oauth : CredentialSecret → Outcome VaultError OauthToken
as_oauth (oauth_token t) = ok t
as_oauth _ = err unsupported_credential_kind

abbrev as_totp : CredentialSecret → Outcome VaultError Text
as_totp (totp secret issuer) = ok secret
as_totp _ = err unsupported_credential_kind

-- `value.map(str::trim).filter(|value| !value.is_empty())`
unfoldable pub optional_oauth_field : Option Text → Option Text
unfolding trim
optional_oauth_field none = none
optional_oauth_field (some v) = if is_empty (trim v) then none else some (trim v)

abbrev required_oauth_field : Option Text → Outcome VaultError Text
required_oauth_field v = ok_or (optional_oauth_field v) missing_oauth_refresh_config

pub record OauthRefreshRequest : Type 0 where
  pub url : Text
  pub form : List (Text × Text)

abbrev field_if : Text → Option Text → List (Text × Text)
field_if name none = []
field_if name (some v) = (name, v) ∷ []

-- `scopes.join(" ")`
unfoldable pub join_scopes : List Text → Text
join_scopes [] = []
join_scopes (s ∷ []) = s
join_scopes (s ∷ t ∷ ss) = s ++ b' ' ∷ join_scopes (t ∷ ss)

unfoldable pub build_oauth_refresh_request :
    CredentialSecret → Outcome VaultError OauthRefreshRequest
unfolding optional_oauth_field join_scopes
build_oauth_refresh_request secret = do
  t ← as_oauth secret
  url ← required_oauth_field t.token_url
  client_id ← required_oauth_field t.client_id
  refresh_token ← required_oauth_field (some t.refresh_token)
  ok (record {
    url = url;
    form =
        ((ascii "grant_type", ascii "refresh_token")
          ∷ (ascii "refresh_token", refresh_token)
          ∷ (ascii "client_id", client_id)
          ∷ [])
        ++ (field_if (ascii "client_secret") (optional_oauth_field t.client_secret)
            ++ (if is_empty t.scopes then [] else (ascii "scope", join_scopes t.scopes) ∷ []));
  })

pub record OauthRefreshResponse : Type 0 where
  pub access_token : Text
  pub refresh_token : Option Text
  pub expires_in : ℕ

-- `saturating_add` and `saturating_mul` of `u64`
abbrev pub saturate : ℕ → ℕ
saturate n = min n (2 ^ 64 - 1)

abbrev or_current : Option Text → Text → Text
or_current none t = t
or_current (some v) t = v

-- For what the JSON of the response reads as
unfoldable pub apply_oauth_refresh_response :
    CredentialSecret
    → Outcome VaultError OauthRefreshResponse
    → ℕ
    → Outcome VaultError CredentialSecret
unfolding optional_oauth_field
apply_oauth_refresh_response current raw_response now_ms = do
  t ← as_oauth current
  response ← raw_response
  access_token ← required_oauth_field (some response.access_token)
  ok (
      oauth_token (record t {
        access_token = access_token;
        refresh_token = or_current (optional_oauth_field response.refresh_token) t.refresh_token;
        expires_at = saturate (now_ms + saturate (response.expires_in * 1000));
      }))

pub data OauthAccessTokenState : Type 0 where
  ready : Text → OauthAccessTokenState
  needs_refresh : OauthRefreshRequest → CredentialSecret → OauthAccessTokenState

unfoldable pub list_metadata : VaultFile → List CredentialMetadata
list_metadata file = map (λ e. e.metadata) file.entries

module _ (crypto : Crypto) where
  unfoldable pub decrypt_entry_with_key :
      EncryptedCredentialEntry → Bytes → Outcome VaultError CredentialSecret
  decrypt_entry_with_key entry key = do
    decrypted ← crypto.decrypt key entry.nonce entry.encrypted_data
    crypto.from_json decrypted

  -- The entry of `add_entry` in its place, or the error before it
  abbrev put_entry :
      CredentialMetadata
      → Bytes
      → VaultFile
      → Outcome VaultError Bytes
      → Outcome VaultError Unit × VaultFile
  put_entry metadata nonce file (ok encrypted_data) =
      let entry : EncryptedCredentialEntry = record {
        metadata = metadata;
        nonce = nonce;
        encrypted_data = encrypted_data;
      } in
      let file' : VaultFile = record file {
        entries = sort_entries (or_push entry file.entries (replace_entry entry file.entries));
      } in
      (crypto.write_vault_file file', file')
  put_entry metadata nonce file (err e) = (err e, file)
  put_entry metadata nonce file Outcome.panic = (Outcome.panic, file)

  -- With the random nonce; the file as it is left, also where an error comes first.
  unfoldable pub add_entry :
      Text
      → CredentialMetadata
      → CredentialSecret
      → Bytes
      → VaultFile
      → Outcome VaultError Unit × VaultFile
  unfolding replace_entry sort_entries
  add_entry password metadata secret nonce file = put_entry metadata nonce file (
      crypto.to_json secret >>= λ secret_bytes.
      crypto.encrypt (crypto.derive_key password file.salt file.iterations) nonce secret_bytes)

  unfoldable pub decrypt_entry : Text → Text → VaultFile → Outcome VaultError CredentialSecret
  unfolding find_entry decrypt_entry_with_key
  decrypt_entry password entry_id file = do
    entry ← ok_or (find_entry entry_id file.entries) missing_entry
    decrypt_entry_with_key entry (crypto.derive_key password file.salt file.iterations)

  -- The first entry is the test of the key.
  abbrev first_opens : List EncryptedCredentialEntry → Bytes → Outcome VaultError Unit
  first_opens [] key = ok tt
  first_opens (e ∷ es) key = do _ ← decrypt_entry_with_key e key; ok tt

  unfoldable pub unlock_key : Text → VaultFile → Outcome VaultError Bytes
  unfolding decrypt_entry_with_key
  unlock_key password file =
      let key = crypto.derive_key password file.salt file.iterations in
      first_opens file.entries key >> ok key

  -- The loop of `password_fill_for_url`
  unfoldable pub fill_from :
      Bytes
      → Text
      → ℕ
      → List EncryptedCredentialEntry
      → Outcome VaultError (Option PasswordFillCredential)
  unfolding any_domain decrypt_entry_with_key
  fill_from key host expires_at [] = ok none
  fill_from key host expires_at (e ∷ es) =
      let rest = fill_from key host expires_at es in
      let here = (do
        secret ← decrypt_entry_with_key e key
        (username, password) ← as_password secret
        ok (
            some (record {
              id = e.metadata.id;
              label = e.metadata.label;
              username = username;
              password = password;
              expires_at = expires_at;
            }))) in
      if is_kind e.metadata.kind password_kind && e.metadata.auto_fill
      then (if any_domain host e.metadata.domains then here else rest)
      else rest

  unfoldable pub password_fill_for_url :
      Bytes → Text → ℕ → VaultFile → Outcome VaultError (Option PasswordFillCredential)
  unfolding host_from_http_url fill_from
  password_fill_for_url key url expires_at file = do
    host ← ok_or (host_from_http_url url) invalid_url
    fill_from key host expires_at file.entries

  -- The entry of an identifier and a kind, decrypted
  unfoldable pub secret_of_kind :
      CredentialKind → Bytes → Text → VaultFile → Outcome VaultError CredentialSecret
  unfolding find_entry decrypt_entry_with_key
  secret_of_kind kind key entry_id file = do
    entry ← ok_or (find_entry entry_id file.entries) missing_entry
    guard (is_kind entry.metadata.kind kind) unsupported_credential_kind
    decrypt_entry_with_key entry key

  unfoldable pub password_credential_with_key :
      Bytes → Text → VaultFile → Outcome VaultError (Text × Text)
  unfolding secret_of_kind
  password_credential_with_key key entry_id file = do
    secret ← secret_of_kind password_kind key entry_id file
    as_password secret

  unfoldable pub oauth_access_token_with_key : Bytes → Text → VaultFile → Outcome VaultError Text
  unfolding secret_of_kind
  oauth_access_token_with_key key entry_id file = do
    secret ← secret_of_kind oauth_token_kind key entry_id file
    t ← as_oauth secret
    ok t.access_token

  unfoldable pub oauth_access_token_state_with_key :
      Bytes → Text → ℕ → VaultFile → Outcome VaultError OauthAccessTokenState
  unfolding secret_of_kind build_oauth_refresh_request
  oauth_access_token_state_with_key key entry_id now_ms file = do
    secret ← secret_of_kind oauth_token_kind key entry_id file
    t ← as_oauth secret
    let refresh = (do
      request ← build_oauth_refresh_request secret
      ok (needs_refresh request secret))
    if ltb (saturate (now_ms + 60000)) t.expires_at then ok (ready t.access_token) else refresh

  -- The new secret of an entry, with the random nonce
  abbrev put_secret :
      EncryptedCredentialEntry
      → Bytes
      → VaultFile
      → Outcome VaultError Bytes
      → Outcome VaultError Unit × VaultFile
  put_secret entry nonce file (ok encrypted_data) =
      let entry' : EncryptedCredentialEntry = record entry {
        nonce = nonce;
        encrypted_data = encrypted_data;
      } in
      let file' : VaultFile = record file {
        entries = or_push entry' file.entries (replace_entry entry' file.entries);
      } in
      (crypto.write_vault_file file', file')
  put_secret entry nonce file (err e) = (err e, file)
  put_secret entry nonce file Outcome.panic = (Outcome.panic, file)

  unfoldable pub replace_secret_with_key :
      Bytes → Text → CredentialSecret → Bytes → VaultFile → Outcome VaultError Unit × VaultFile
  unfolding find_entry replace_entry credential_secret_kind
  replace_secret_with_key key entry_id secret nonce file = elim (find_entry entry_id file.entries) [
    | none ↦ (err missing_entry, file)
    | some entry ↦
        if is_kind entry.metadata.kind (credential_secret_kind secret)
        then put_secret entry nonce file
            (crypto.to_json secret >>= λ secret_bytes. crypto.encrypt key nonce secret_bytes)
        else (err unsupported_credential_kind, file)
  ]

  unfoldable pub totp_code :
      (Bytes → Bytes → Bytes) → Text → Text → ℕ → VaultFile → Outcome VaultError (Text × ℕ)
  unfolding decrypt_entry decode_base32_secret hotp_sha1
  totp_code hmac password entry_id now_secs file = do
    secret ← decrypt_entry password entry_id file
    text ← as_totp secret
    key ← decode_base32_secret text
    let counter = now_secs / 30
    code ← hotp_sha1 hmac key counter
    ok (code, (counter + 1) * 30)
