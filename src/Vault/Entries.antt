-- ===== src/Vault/Entries.antt =====
-- What the vault gives back of its entries (aeon-sync/src/vault.rs), and to whom.
use aeon_flow.Base.{
  ℕ, ◌≡◌, refl, sym, ap, ◌∙◌, ◌⊎◌, inl, inr, true, Bool-cases, some, Option-cases, List, [], ◌∷◌,
  arith, Bytes, bytes_eq, bytes_eq_refl, eq_of_bytes_eq, Text, ok, bind-eq-ok, ok_or, ok_or-eq-ok,
}
use aeon_flow.Vault.Hosts.{host_from_http_url}
use aeon_flow.Vault.Totp.{invalid_url}
use aeon_flow.Vault.{
  password_kind, is_kind, CredentialSecret, password_secret, oauth_token, browser_session, api_key,
  ssh_key, totp, CredentialMetadata, EncryptedCredentialEntry, VaultFile, Crypto,
  PasswordFillCredential, find_entry, replace_entry, text_le, insert_entry, sort_entries, or_push,
  any_domain, as_password, decrypt_entry_with_key, add_entry, decrypt_entry, fill_from,
  password_fill_for_url,
}

text_le_refl : (s : Text) → text_le s s ≡ true
unfolding text_le
text_le_refl [] = refl
text_le_refl (c ∷ s) = ground (arith, text_le_refl s)

-- The sort is stable, so that the first entry of an identifier stays the first.
find_entry-insert_entry :
    (id : Text) (e : EncryptedCredentialEntry) (xs : List EncryptedCredentialEntry)
    → find_entry id (insert_entry e xs) ≡ find_entry id (e ∷ xs)
unfolding find_entry insert_entry
find_entry-insert_entry id e [] = refl
find_entry-insert_entry id e (x ∷ xs) = elim (Bool-cases (text_le e.metadata.id x.metadata.id)) [
  | inl t ↦ rw t refl
  | inr t ↦ elim (Bool-cases (bytes_eq e.metadata.id id)) [
    | inr n ↦ rw (t, find_entry-insert_entry id e xs, n) refl
    | inl y ↦ elim (Bool-cases (bytes_eq x.metadata.id id)) [
      | inr m ↦ rw (t, m, find_entry-insert_entry id e xs, y) refl
      | inl z ↦
          let same : e.metadata.id ≡ x.metadata.id =
            eq_of_bytes_eq e.metadata.id id y ∙ sym (eq_of_bytes_eq x.metadata.id id z) in
          absurd (cc (text_le_refl x.metadata.id, t, ap (λ s. text_le s x.metadata.id) same))
    ]
  ]
]

find_entry-sort_entries :
    (id : Text) (xs : List EncryptedCredentialEntry)
    → find_entry id (sort_entries xs) ≡ find_entry id xs
unfolding sort_entries find_entry
find_entry-sort_entries id [] = refl
find_entry-sort_entries id (x ∷ xs) =
    find_entry-insert_entry id x (sort_entries xs) ∙ (rw (find_entry-sort_entries id xs) refl)

find_entry-or_push :
    (e : EncryptedCredentialEntry) (es : List EncryptedCredentialEntry)
    → find_entry e.metadata.id (or_push e es (replace_entry e es)) ≡ some e
unfolding find_entry replace_entry
find_entry-or_push e [] = rw (bytes_eq_refl e.metadata.id) refl
find_entry-or_push e (x ∷ xs) =
    let ih = find_entry-or_push e xs in
    elim (Bool-cases (bytes_eq x.metadata.id e.metadata.id)) [
      | inl t ↦ rw (t, bytes_eq_refl e.metadata.id) refl
      | inr t ↦ elim (Option-cases (replace_entry e xs)) [
        | inl n ↦ rw (t, n, t) (rw n at ih)
        | inr (ys, s) ↦ rw (t, s, t) (rw s at ih)
      ]
    ]

-- A secret that was added is what decrypting its entry gives, whether the entry is new or stands in
-- the place of an older one. It is for a cipher and a serializer that undo what they did to this
-- secret under the key of the password.
pub decrypt_entry-add_entry :
    (crypto : Crypto) (password : Text) (metadata : CredentialMetadata) (secret : CredentialSecret)
    (nonce json cipher : Bytes) (file : VaultFile)
    → crypto.to_json secret ≡ ok json
    → crypto.encrypt (crypto.derive_key password file.salt file.iterations) nonce json ≡ ok cipher
    → crypto.decrypt (crypto.derive_key password file.salt file.iterations) nonce cipher ≡ ok json
    → crypto.from_json json ≡ ok secret
    → decrypt_entry crypto password metadata.id
        (add_entry crypto password metadata secret nonce file).1
      ≡ ok secret
unfolding add_entry decrypt_entry decrypt_entry_with_key
decrypt_entry-add_entry crypto password metadata secret nonce json cipher file j e d f =
    let entry : EncryptedCredentialEntry = record {
      metadata = metadata;
      nonce = nonce;
      encrypted_data = cipher;
    } in
    let found =
      find_entry-sort_entries metadata.id
        (or_push entry file.entries (replace_entry entry file.entries))
      ∙ find_entry-or_push entry file.entries in
    rw (j, e) (rw (found, d, f) refl)

-- An entry of the list.
abbrev pub Holds : EncryptedCredentialEntry → List EncryptedCredentialEntry → Type 0
Holds e [] = ⊥
Holds e (x ∷ xs) = (x ≡ e) ⊎ Holds e xs

-- What allows a credential to be filled in for a host.
pub record IsAllowed (crypto : Crypto) (key : Bytes) (host : Text) (c : PasswordFillCredential)
    (es : List EncryptedCredentialEntry) : Type 0 where
  pub entry : EncryptedCredentialEntry
  pub held : Holds entry es
  pub is_password : is_kind entry.metadata.kind password_kind ≡ true
  pub auto_fill : entry.metadata.auto_fill ≡ true
  pub for_host : any_domain host entry.metadata.domains ≡ true
  pub opened : decrypt_entry_with_key crypto entry key ≡ ok (password_secret c.username c.password)

later :
    (crypto : Crypto) (key : Bytes) (host : Text) (c : PasswordFillCredential)
    (e : EncryptedCredentialEntry) (es : List EncryptedCredentialEntry)
    → IsAllowed crypto key host c es
    → IsAllowed crypto key host c (e ∷ es)
later crypto key host c e es a = record {
  entry = a.entry;
  held = inr a.held;
  is_password = a.is_password;
  auto_fill = a.auto_fill;
  for_host = a.for_host;
  opened = a.opened;
}

as_password-inv :
    (s : CredentialSecret) {u p : Text} → as_password s ≡ ok (u, p) → s ≡ password_secret u p
as_password-inv (password_secret a b) e = cc e
as_password-inv (oauth_token t) e = absurd (cc e)
as_password-inv (browser_session a b) e = absurd (cc e)
as_password-inv (api_key a b) e = absurd (cc e)
as_password-inv (ssh_key a b) e = absurd (cc e)
as_password-inv (totp a b) e = absurd (cc e)

fill_from-IsAllowed :
    (crypto : Crypto) (key : Bytes) (host : Text) (expires_at : ℕ)
    (es : List EncryptedCredentialEntry) {c : PasswordFillCredential}
    → fill_from crypto key host expires_at es ≡ ok (some c)
    → IsAllowed crypto key host c es
unfolding fill_from
fill_from-IsAllowed crypto key host expires_at [] h = absurd (cc h)
fill_from-IsAllowed crypto key host expires_at (e ∷ es) {c} h =
    let skipped : fill_from crypto key host expires_at es ≡ ok (some c)
        → IsAllowed crypto key host c (e ∷ es) =
      λ q. later crypto key host c e es (fill_from-IsAllowed crypto key host expires_at es q) in
    elim (Bool-cases (is_kind e.metadata.kind password_kind)) [
      | inr n ↦ skipped (rw n at h)
      | inl k ↦ elim (Bool-cases e.metadata.auto_fill) [
        | inr n ↦ skipped (rw (k, n) at h)
        | inl a ↦ elim (Bool-cases (any_domain host e.metadata.domains)) [
          | inr n ↦ skipped (rw (k, a, n) at h)
          | inl d ↦
              let (secret, opens, g) =
                bind-eq-ok (decrypt_entry_with_key crypto e key) _ (rw (k, a, d) at h) in
              let (up, is, m) = bind-eq-ok (as_password secret) _ g in
              let s = as_password-inv secret is in
              let u : up.0 ≡ c.username = cc m in
              let w : up.1 ≡ c.password = cc m in
              record {
                entry = e;
                held = inl refl;
                is_password = k;
                auto_fill = a;
                for_host = d;
                opened = opens ∙ ap ok (s ∙ (rw (u, w) refl));
              }
        ]
      ]
    ]

-- A credential is filled in on a page only from a password entry that allows it, one of whose domains
-- is for the host of the page; what is filled in is the name and the password of that entry.
pub password_fill_for_url-IsAllowed :
    (crypto : Crypto) (key : Bytes) (url : Text) (expires_at : ℕ) (file : VaultFile)
    {c : PasswordFillCredential}
    → password_fill_for_url crypto key url expires_at file ≡ ok (some c)
    → (host : Text) × (host_from_http_url url ≡ some host)
      × IsAllowed crypto key host c file.entries
unfolding password_fill_for_url
password_fill_for_url-IsAllowed crypto key url expires_at file {c} h =
    let (host, is, g) = bind-eq-ok (ok_or (host_from_http_url url) invalid_url) _ h in
    (
      host,
      ok_or-eq-ok (host_from_http_url url) invalid_url is,
      fill_from-IsAllowed crypto key host expires_at file.entries g,
    )
