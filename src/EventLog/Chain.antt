-- ===== src/EventLog/Chain.antt =====
-- The chain of hashes (aeon-vm/src/eventlog.rs): what verifies, what appends, what is refused.
use aeon_flow.Base.{
  ℕ, ◌+◌, ◌≡◌, refl, ap, sym, ◌∙◌, ◌↔◌, List, [], ◌∷◌, ◌++◌, get_last?-append, append_assoc, Bytes,
  bytes_eq, bytes_eq_of_eq, eq_of_bytes_eq, ok, guard-bind, append-nil, Bool-cases, inl, inr, subst,
}
use aeon_flow.EventLog.{
  AeonEvent, LogEntry, EventLog, zero_hash, last_hash, hash_or_zero, next_entry, append_at,
  hash_entry, extend_verified, verify_from, verify,
}

module _ (blake3 : Bytes → Bytes) (serialize : AeonEvent → ℕ → Bytes → Bytes) where
  -- An entry carries the hash of its contents.
  abbrev IsSealed : LogEntry → Type 0
  IsSealed e = e.self_hash ≡ hash_entry blake3 serialize e.event e.timestamp_ms e.prev_hash

  -- Each entry names the hash before it, from `prev` on.
  abbrev pub IsChain : Bytes → List LogEntry → Type 0
  IsChain prev [] = Unit
  IsChain prev (e ∷ es) = (e.prev_hash ≡ prev) × IsSealed e × IsChain e.self_hash es

  abbrev end_hash : Bytes → List LogEntry → Bytes
  end_hash prev [] = prev
  end_hash prev (e ∷ es) = end_hash e.self_hash es

  verify_from→IsChain :
      (i : ℕ) (prev : Bytes) (es : List LogEntry)
      → verify_from blake3 serialize i prev es ≡ ok tt
      → IsChain prev es
  unfolding verify_from
  verify_from→IsChain i prev [] h = tt
  verify_from→IsChain i prev (e ∷ es) h =
      let (p, h') = guard-bind (bytes_eq e.prev_hash prev) _ _ h in
      let (s, h'') = guard-bind (bytes_eq e.self_hash _) _ _ h' in
      (
        eq_of_bytes_eq e.prev_hash prev p,
        eq_of_bytes_eq e.self_hash _ s,
        verify_from→IsChain (i + 1) e.self_hash es h'',
      )

  IsChain→verify_from :
      (i : ℕ) (prev : Bytes) (es : List LogEntry)
      → IsChain prev es
      → verify_from blake3 serialize i prev es ≡ ok tt
  unfolding verify_from
  IsChain→verify_from i prev [] h = refl
  IsChain→verify_from i prev (e ∷ es) (p, s, c) =
      rw (bytes_eq_of_eq e.prev_hash prev p, bytes_eq_of_eq e.self_hash _ s)
        (IsChain→verify_from (i + 1) e.self_hash es c)

  -- `verify` accepts exactly the logs in which each entry carries the hash of its contents and names
  -- the hash of the entry before it, the first one the zero hash.
  pub verify_iff : (log : EventLog) → (verify blake3 serialize log ≡ ok tt) ↔ IsChain zero_hash log
  unfolding verify
  verify_iff log = (verify_from→IsChain 0 zero_hash log, IsChain→verify_from 0 zero_hash log)

  IsChain-append :
      (prev : Bytes) (es fs : List LogEntry)
      → IsChain prev (es ++ fs) ↔ (IsChain prev es × IsChain (end_hash prev es) fs)
  IsChain-append prev [] fs = (λ c. (tt, c), λ c. c.1)
  IsChain-append prev (e ∷ es) fs = (
    λ c. let (a, b) = (IsChain-append e.self_hash es fs).0 c.2 in ((c.0, c.1, a), b),
    λ c. (c.0.0, c.0.1, (IsChain-append e.self_hash es fs).1 (c.0.2, c.1)),
  )

  last_hash-cons :
      (prev : Bytes) (e : LogEntry) (es : List LogEntry)
      → last_hash (e ∷ es) ≡ end_hash prev (e ∷ es)
  last_hash-cons prev e [] = refl
  last_hash-cons prev e (f ∷ es) = last_hash-cons e.self_hash f es

  last_hash-eq-end : (log : EventLog) → last_hash log ≡ end_hash zero_hash log
  last_hash-eq-end [] = refl
  last_hash-eq-end (e ∷ es) = last_hash-cons zero_hash e es

  last_hash-append : (log : EventLog) (e : LogEntry) → last_hash (log ++ e ∷ []) ≡ e.self_hash
  last_hash-append log e = ap hash_or_zero (get_last?-append log e)

  -- A log that verifies still verifies after an event is appended, and then ends with the hash that
  -- `append_at` returned.
  pub verify-append_at :
      (event : AeonEvent) (t : ℕ) (log : EventLog)
      → verify blake3 serialize log ≡ ok tt
      → (verify blake3 serialize (append_at blake3 serialize event t log).1 ≡ ok tt)
        × (last_hash (append_at blake3 serialize event t log).1
            ≡ (append_at blake3 serialize event t log).0)
  unfolding append_at
  verify-append_at event t log h =
      let c = (verify_iff log).0 h in
      let e = next_entry blake3 serialize event t log in
      (
        (verify_iff (log ++ e ∷ [])).1
            ((IsChain-append zero_hash log (e ∷ [])).1 (c, (last_hash-eq-end log, refl, tt))),
        last_hash-append log e,
      )

  -- A log that verifies still verifies after `extend_verified`, whatever entries it is given and
  -- whether it accepts them, and what it held is a prefix of what it holds.
  pub extend_verified-keeps :
      (es : List LogEntry) (log : EventLog)
      → verify blake3 serialize log ≡ ok tt
      → (verify blake3 serialize (extend_verified blake3 serialize es log).1 ≡ ok tt)
        × ((new : List LogEntry) × ((extend_verified blake3 serialize es log).1 ≡ log ++ new))
  unfolding extend_verified
  extend_verified-keeps [] log h = (h, ([], sym (append-nil log)))
  extend_verified-keeps (e ∷ es) log h = elim (Bool-cases (bytes_eq e.prev_hash (last_hash log))) [
    | inr n ↦ rw n (h, ([], sym (append-nil log)))
    | inl y ↦
        elim (Bool-cases
          (bytes_eq (hash_entry blake3 serialize e.event e.timestamp_ms e.prev_hash) e.self_hash)) [
            | inr n ↦ rw (y, n) (h, ([], sym (append-nil log)))
            | inl z ↦
                let v : verify blake3 serialize (log ++ e ∷ []) ≡ ok tt =
                  (verify_iff (log ++ e ∷ [])).1 (
                    (IsChain-append zero_hash log (e ∷ [])).1 (
                      (verify_iff log).0 h,
                      (eq_of_bytes_eq _ _ y ∙ last_hash-eq-end log, sym (eq_of_bytes_eq _ _ z), tt),
                    )) in
                let (v', (new, p)) = extend_verified-keeps es (log ++ e ∷ []) v in
                rw (y, z) (v', (e ∷ new, p ∙ append_assoc log (e ∷ []) new))
          ]
  ]

  chain-extends :
      (es : List LogEntry) (log : EventLog)
      → IsChain (last_hash log) es
      → extend_verified blake3 serialize es log ≡ (ok tt, log ++ es)
  unfolding extend_verified
  chain-extends [] log c = ap (λ l. (ok tt, l)) (sym (append-nil log))
  chain-extends (e ∷ es) log (p, s, c) =
      rw (bytes_eq_of_eq e.prev_hash (last_hash log) p, bytes_eq_of_eq _ e.self_hash (sym s))
        (chain-extends es (log ++ e ∷ []) (rw last_hash-append c)
          ∙ ap (λ l. (ok tt, l)) (append_assoc log (e ∷ []) es))

  -- From a log that verifies, `extend_verified` accepts exactly the entries with which it verifies
  -- still, and has then appended them all.
  pub extend_verified_iff :
      (es : List LogEntry) (log : EventLog)
      → verify blake3 serialize log ≡ ok tt
      → (extend_verified blake3 serialize es log ≡ (ok tt, log ++ es))
        ↔ (verify blake3 serialize (log ++ es) ≡ ok tt)
  extend_verified_iff es log h = (
    λ e.
        subst (λ l. verify blake3 serialize l ≡ ok tt) (ap (λ r. r.1) e)
          (extend_verified-keeps es log h).0,
    λ v. chain-extends es log (
        rw last_hash-eq-end ((IsChain-append zero_hash log es).0 ((verify_iff (log ++ es)).0 v)).1),
  )
