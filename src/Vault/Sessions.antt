-- ===== src/Vault/Sessions.antt =====
-- Unlock sessions of the vault (aeon-sync/src/vault.rs): a key under a random identifier, until it
-- expires.
use aeon_flow.Base.{
  ℕ, ◌+◌, ◌≤◌, ◌<◌, ◌≡◌, refl, subst, inl, inr, min, max, Bool-cases, Option, none, some,
  Option-cases, [], ◌∷◌, arith, ltb, lt→ltb, ltb→lt, if◌then◌else◌, Bytes, bytes_eq, bytes_eq_refl,
  Table, lookup, insert,
}
use aeon_flow.Vault.{saturate}

pub record CredentialUnlockSession : Type 0 where
  pub key : Bytes
  pub expires_at : ℕ

abbrev pub CredentialUnlockSessions : Type 0
CredentialUnlockSessions = Table CredentialUnlockSession

unfoldable pub remove_expired : ℕ → CredentialUnlockSessions → CredentialUnlockSessions
remove_expired now_ms [] = []
remove_expired now_ms ((id, s) ∷ ss) =
    let rest = remove_expired now_ms ss in if ltb now_ms s.expires_at then (id, s) ∷ rest else rest

abbrev default_unlock_ttl_ms : ℕ
default_unlock_ttl_ms = 300000

abbrev pub max_unlock_ttl_ms : ℕ
max_unlock_ttl_ms = 1800000

abbrev or_default_ttl : Option ℕ → ℕ
or_default_ttl none = default_unlock_ttl_ms
or_default_ttl (some t) = t

abbrev pub expiry : Option ℕ → ℕ → ℕ
expiry ttl_ms now_ms = saturate (now_ms + min (max (or_default_ttl ttl_ms) 1000) max_unlock_ttl_ms)

-- For the random identifier; the response is the identifier and the expiry.
unfoldable pub unlock :
    Bytes → Bytes → Option ℕ → ℕ → CredentialUnlockSessions → (Bytes × ℕ) × CredentialUnlockSessions
unfolding remove_expired
unlock session_id key ttl_ms now_ms sessions =
    let expires_at = expiry ttl_ms now_ms in
    (
      (session_id, expires_at),
      insert session_id (record { key = key; expires_at = expires_at })
          (remove_expired now_ms sessions),
    )

abbrev key_of : Option CredentialUnlockSession → Option (Bytes × ℕ)
key_of none = none
key_of (some s) = some (s.key, s.expires_at)

unfoldable pub session_key :
    Bytes → ℕ → CredentialUnlockSessions → Option (Bytes × ℕ) × CredentialUnlockSessions
unfolding remove_expired
session_key session_id now_ms sessions =
    let sessions' = remove_expired now_ms sessions in
    (key_of (lookup session_id sessions'), sessions')

-- What is kept is live.
remove_expired-live :
    (id : Bytes) (now : ℕ) (ss : CredentialUnlockSessions) {s : CredentialUnlockSession}
    → lookup id (remove_expired now ss) ≡ some s
    → now < s.expires_at
unfolding remove_expired lookup
remove_expired-live id now [] e = absurd (cc e)
remove_expired-live id now ((j, x) ∷ ss) {s} e = elim (Bool-cases (ltb now x.expires_at)) [
  | inr t ↦ remove_expired-live id now ss (rw t at e)
  | inl t ↦ elim (Bool-cases (bytes_eq j id)) [
    | inl q ↦
        let same : x ≡ s = (cc (rw (t, q) at e)) in
        subst (λ y. now < y.expires_at) same (ltb→lt now x.expires_at t)
    | inr q ↦ remove_expired-live id now ss (rw (t, q) at e)
  ]
]

-- A live session that was put in is still there.
remove_expired-insert :
    (id : Bytes) (now : ℕ) (s : CredentialUnlockSession) (ss : CredentialUnlockSessions)
    → now < s.expires_at
    → lookup id (remove_expired now (insert id s ss)) ≡ some s
unfolding remove_expired lookup insert
remove_expired-insert id now s [] l = rw (lt→ltb now s.expires_at l, bytes_eq_refl id) refl
remove_expired-insert id now s ((j, x) ∷ ss) l = elim (Bool-cases (bytes_eq j id)) [
  | inl q ↦ rw (q, lt→ltb now s.expires_at l, bytes_eq_refl id) refl
  | inr q ↦ elim (Bool-cases (ltb now x.expires_at)) [
    | inl t ↦ rw (q, t, q) (remove_expired-insert id now s ss l)
    | inr t ↦ rw (q, t) (remove_expired-insert id now s ss l)
  ]
]

-- After an unlock, the session gives its key at every time before it expires, which is at most half
-- an hour after the unlock.
pub session_key-unlock :
    (id key : Bytes) (ttl_ms : Option ℕ) (now later : ℕ) (sessions : CredentialUnlockSessions)
    → later < (unlock id key ttl_ms now sessions).0.1
    → ((session_key id later (unlock id key ttl_ms now sessions).1).0
        ≡ some (key, (unlock id key ttl_ms now sessions).0.1))
      × ((unlock id key ttl_ms now sessions).0.1 ≤ now + max_unlock_ttl_ms)
unfolding unlock session_key
session_key-unlock id key ttl_ms now later sessions l =
    let s : CredentialUnlockSession = record { key = key; expires_at = expiry ttl_ms now } in
    (rw (remove_expired-insert id later s (remove_expired now sessions) l) refl, omega arith)

-- A session gives no key at the time it expires or later.
session_key-live :
    (id : Bytes) (now : ℕ) (sessions : CredentialUnlockSessions) (key : Bytes) (expires_at : ℕ)
    → (session_key id now sessions).0 ≡ some (key, expires_at)
    → now < expires_at
unfolding session_key
session_key-live id now sessions key expires_at e =
    elim (Option-cases (lookup id (remove_expired now sessions))) [
      | inl n ↦ absurd (cc (rw n at e))
      | inr (s, f) ↦
          let same : s.expires_at ≡ expires_at = (cc (rw f at e)) in
          subst (λ t. now < t) same (remove_expired-live id now sessions f)
    ]
