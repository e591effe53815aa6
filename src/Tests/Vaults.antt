-- ===== src/Tests/Vaults.antt =====
-- Witnesses for the vault (aeon-sync/src/vault.rs).
use aeon_flow.Base.{
  ◌+◌, ◌≡◌, ◌≤◌, ◌<◌, ◌⊎◌, ◌↔◌, refl, true, none, some, [], ◌∷◌, ◌++◌, arith, bytes_eq, ascii, Text,
  ok,
}
use aeon_flow.Vault.Hosts.{
  host_from_http_url, domain_matches_host, normalized, domain_matches_host_iff,
}
use aeon_flow.Vault.Sessions.{unlock, session_key, max_unlock_ttl_ms, session_key-unlock}
use aeon_flow.Vault.{
  CredentialMetadata, password_kind, CredentialSecret, password_secret, EncryptedCredentialEntry,
  VaultFile, Crypto, PasswordFillCredential, decrypt_entry, add_entry, password_fill_for_url,
}
use aeon_flow.Vault.Entries.{IsAllowed, decrypt_entry-add_entry, password_fill_for_url-IsAllowed}

abbrev secret : CredentialSecret
secret = password_secret (ascii "ann") (ascii "pw")

abbrev crypto : Crypto
crypto = record {
  derive_key = λ password salt iterations. password;
  encrypt = λ key nonce plaintext. ok plaintext;
  decrypt = λ key nonce ciphertext. ok ciphertext;
  to_json = λ s. ok (1 ∷ []);
  from_json = λ bytes. ok secret;
  write_vault_file = λ file. ok tt;
}

abbrev metadata : CredentialMetadata
metadata = record {
  id = ascii "e";
  kind = password_kind;
  label = ascii "mail";
  domains = ascii "*.Example.com" ∷ [];
  last_used = 0;
  auto_fill = true;
}

abbrev entry : EncryptedCredentialEntry
entry = record { metadata = metadata; nonce = []; encrypted_data = 1 ∷ [] }

abbrev file : VaultFile
file = record { salt = []; iterations = 1; entries = entry ∷ [] }

decrypt_entry-add_entry_example :
    decrypt_entry crypto
      (ascii "k")
      (ascii "e")
      (add_entry crypto (ascii "k") metadata secret [] file).1
    ≡ ok secret
decrypt_entry-add_entry_example =
    decrypt_entry-add_entry crypto (ascii "k") metadata secret [] (1 ∷ []) (1 ∷ []) file refl refl
      refl refl

abbrev url : Text
url = ascii "https://login.example.com:443/in?a=b"

abbrev filled : PasswordFillCredential
filled = record {
  id = ascii "e";
  label = ascii "mail";
  username = ascii "ann";
  password = ascii "pw";
  expires_at = 9;
}

fills : password_fill_for_url crypto [] url 9 file ≡ ok (some filled)
unfolding password_fill_for_url bytes_eq
fills = refl

password_fill_for_url-IsAllowed_example :
    (host : Text) × (host_from_http_url url ≡ some host)
    × IsAllowed crypto [] host filled file.entries
password_fill_for_url-IsAllowed_example = password_fill_for_url-IsAllowed crypto [] url 9 file fills

domain_matches_host_iff_example :
    (domain_matches_host (ascii "good.com") (ascii "evilgood.com") ≡ true) ↔ (
      (ascii "evilgood.com" ≡ normalized (ascii "good.com"))
      ⊎ ((front : Text) × (ascii "evilgood.com" ≡ front ++ b'.' ∷ normalized (ascii "good.com"))))
domain_matches_host_iff_example = domain_matches_host_iff (ascii "good.com") (ascii "evilgood.com")

expiry_later : 400 < (unlock (1 ∷ []) (2 ∷ []) none 100 []).0.1
unfolding unlock
expiry_later = omega arith

session_key-unlock_example :
    ((session_key (1 ∷ []) 400 (unlock (1 ∷ []) (2 ∷ []) none 100 []).1).0
      ≡ some (2 ∷ [], (unlock (1 ∷ []) (2 ∷ []) none 100 []).0.1))
    × ((unlock (1 ∷ []) (2 ∷ []) none 100 []).0.1 ≤ 100 + max_unlock_ttl_ms)
session_key-unlock_example = session_key-unlock (1 ∷ []) (2 ∷ []) none 100 400 [] expiry_later
