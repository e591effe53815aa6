-- ===== src/EmailSync/Again.antt =====
-- Importing the same messages again (`prepare_import` of aeon-sync/src/email_sync.rs).
use aeon_flow.Base.{
  ℕ, suc, ◌+◌, ◌-◌, ◌<◌, ◌≡◌, refl, sym, ap, ◌∙◌, subst, inl, inr, true, ◌||◌, Bool-cases,
  Option-cases, none, some, List, [], ◌∷◌, arith, length, length-drop, drop, Bytes, bytes_eq,
  bytes_eq_refl, eq_of_bytes_eq, contains, Text, lookup, insert, lookup-insert, Outcome, ok, err,
}
use aeon_flow.EmailSync.{
  missing_account, EmailAccountConfig, EmailCursor, FetchedEmailMessage, EmailSyncState,
  EmailSyncError, EmailImportResult, Plan, insert_text, sort_texts, bounded_seen_message_ids,
  set_of, find_account, plan_import, plan_from, keep_plan, prepare_import, or_default_cursor,
}

contains-insert_text :
    (x s : Text) (ts : List Text) → contains x (insert_text s ts) ≡ (bytes_eq s x || contains x ts)
unfolding insert_text contains
contains-insert_text x s [] = refl
contains-insert_text x s (t ∷ ts) = ground (arith, contains-insert_text x s ts)

contains-sort_texts : (x : Text) (ts : List Text) → contains x (sort_texts ts) ≡ contains x ts
unfolding sort_texts contains
contains-sort_texts x [] = refl
contains-sort_texts x (t ∷ ts) =
    rw (contains-insert_text x t (sort_texts ts), contains-sort_texts x ts)

length-insert_text : (s : Text) (ts : List Text) → length (insert_text s ts) ≡ suc (length ts)
unfolding insert_text
length-insert_text s [] = refl
length-insert_text s (t ∷ ts) = ground (arith, length-insert_text s ts)

-- Below the limit, nothing was dropped.
contains-bounded :
    (x : Text) (seen : List Text)
    → length (bounded_seen_message_ids seen) < 2048
    → contains x (bounded_seen_message_ids seen) ≡ contains x seen
unfolding bounded_seen_message_ids
contains-bounded x seen l =
    let values = sort_texts seen in
    let d : length (drop (length values - 2048) values) ≡ length values - (length values - 2048) =
      length-drop (length values - 2048) values in
    let e : length values - 2048 ≡ 0 = omega (arith, d, l) in rw e (contains-sort_texts x seen)

contains-set_of : (x : Text) (ts : List Text) → contains x ts ≡ true → contains x (set_of ts) ≡ true
unfolding set_of contains
contains-set_of x [] h = h
contains-set_of x (t ∷ ts) h = elim (Bool-cases (bytes_eq t x)) [
  | inl e ↦
      let p : t ≡ x = eq_of_bytes_eq t x e in
      elim (Bool-cases (contains t (set_of ts))) [
        | inl q ↦ rw q (subst (λ y. contains y (set_of ts) ≡ true) p q)
        | inr q ↦ rw (q, e)
      ]
  | inr e ↦
      let ih = contains-set_of x ts (rw e at h) in
      elim (Bool-cases (contains t (set_of ts))) [ inl q ↦ rw q ih | inr q ↦ rw (q, e) ih ]
]

-- Every message is one of those that were seen.
abbrev AreSeen : List FetchedEmailMessage → List Text → Type 0
AreSeen [] seen = Unit
AreSeen (m ∷ ms) seen = (contains m.message_id seen ≡ true) × AreSeen ms seen

AreSeen-mono :
    (xs ys : List Text)
    → ((x : Text) → contains x xs ≡ true → contains x ys ≡ true)
    → (ms : List FetchedEmailMessage) → AreSeen ms xs
    → AreSeen ms ys
AreSeen-mono xs ys f [] h = tt
AreSeen-mono xs ys f (m ∷ ms) (h, hs) = (f m.message_id h, AreSeen-mono xs ys f ms hs)

module _ (hash : Bytes → Bytes) (account : EmailAccountConfig) (by_identity device : Bytes) where
  plan_import-keeps :
      (ms : List FetchedEmailMessage) (p : Plan) (x : Text)
      → contains x p.seen ≡ true
      → contains x (plan_import hash account by_identity device ms p).seen ≡ true
  unfolding plan_import contains
  plan_import-keeps [] p x h = h
  plan_import-keeps (m ∷ ms) p x h = elim (Bool-cases (contains m.message_id p.seen)) [
    | inl t ↦ rw t (plan_import-keeps ms _ x h)
    | inr t ↦ rw t (plan_import-keeps ms _ x (ground arith))
  ]

  plan_import-AreSeen :
      (ms : List FetchedEmailMessage) (p : Plan)
      → AreSeen ms (plan_import hash account by_identity device ms p).seen
  unfolding plan_import contains
  plan_import-AreSeen [] p = tt
  plan_import-AreSeen (m ∷ ms) p = elim (Bool-cases (contains m.message_id p.seen)) [
    | inl t ↦ rw t (plan_import-keeps ms _ m.message_id t, plan_import-AreSeen ms _)
    | inr t ↦ rw t (
      plan_import-keeps ms _ m.message_id (ground (arith, bytes_eq_refl m.message_id)),
      plan_import-AreSeen ms _,
    )
  ]

  plan_import-seen :
      (ms : List FetchedEmailMessage) (p : Plan)
      → AreSeen ms p.seen
      → ((plan_import hash account by_identity device ms p).imported ≡ p.imported)
        × ((plan_import hash account by_identity device ms p).skipped ≡ p.skipped + length ms)
  unfolding plan_import
  plan_import-seen [] p h = (refl, omega arith)
  plan_import-seen (m ∷ ms) p (h, hs) =
      let p' : Plan = record p { skipped = p.skipped + 1 } in
      let (a, b) = plan_import-seen ms p' hs in rw h (a, b ∙ omega arith)

  plan_from-again :
      (ms : List FetchedEmailMessage) (c c' : EmailCursor)
      → c'.seen_message_ids
        ≡ bounded_seen_message_ids (plan_from hash account by_identity device ms c).seen
      → length c'.seen_message_ids < 2048
      → ((plan_from hash account by_identity device ms c').imported ≡ [])
        × ((plan_from hash account by_identity device ms c').skipped ≡ length ms)
  plan_from-again ms c c' e l =
      let p = plan_from hash account by_identity device ms c in
      let kept : (x : Text)
          → contains x p.seen ≡ true
          → contains x (set_of c'.seen_message_ids) ≡ true =
        λ x h.
          contains-set_of x c'.seen_message_ids
            (rw e (contains-bounded x p.seen (rw e at l) ∙ h)) in
      let (a, b) =
        plan_import-seen ms _
          (AreSeen-mono p.seen (set_of c'.seen_message_ids) kept ms (plan_import-AreSeen ms _)) in
      (a, b ∙ omega arith)

abbrev pub cursor_of : ℕ → Plan → EmailCursor
cursor_of now p = record {
  last_uid = p.max_uid;
  seen_message_ids = bounded_seen_message_ids p.seen;
  updated_at = now;
}

abbrev pub result_of : ℕ → Plan → EmailImportResult
result_of now p = record { imported = p.imported; skipped = p.skipped; cursor = cursor_of now p }

ok_inj :
    {x : Outcome EmailSyncError EmailImportResult} {a b : EmailImportResult}
    → x ≡ ok a
    → x ≡ ok b
    → a ≡ b
ok_inj p q = cc (p, q)

module _ (write : EmailSyncState → Outcome EmailSyncError Unit) (hash : Bytes → Bytes)
    (account_id : Text) (messages : List FetchedEmailMessage) (by_identity device : Bytes) where
  prepare_import-found :
      (now : ℕ) (state : EmailSyncState) {a : EmailAccountConfig}
      → find_account account_id state.accounts ≡ some a
      → prepare_import write hash account_id messages by_identity device now state
        ≡ keep_plan write account_id now state (
            plan_from hash a by_identity device messages
              (or_default_cursor (lookup account_id state.cursors)))
  unfolding prepare_import
  prepare_import-found now state f = rw f refl

  prepare_import-missing :
      (now : ℕ) (state : EmailSyncState)
      → find_account account_id state.accounts ≡ none
      → prepare_import write hash account_id messages by_identity device now state
        ≡ (err missing_account, state)
  unfolding prepare_import
  prepare_import-missing now state f = rw f refl

  keep_plan-ok :
      (now : ℕ) (state : EmailSyncState) (p : Plan)
      → ((s : EmailSyncState) → write s ≡ ok tt)
      → (keep_plan write account_id now state p).0 ≡ ok (result_of now p)
  keep_plan-ok now state p w = rw w refl

  -- The second import of a known account, from the cursor that the first one left
  keep_plan-again :
      (now later : ℕ) (state : EmailSyncState) (a : EmailAccountConfig) (c : EmailCursor)
      → ((s : EmailSyncState) → write s ≡ ok tt)
      → find_account account_id state.accounts ≡ some a
      → length (bounded_seen_message_ids (plan_from hash a by_identity device messages c).seen)
        < 2048
      → (r' : EmailImportResult) × ((prepare_import write hash account_id messages by_identity
            device later
            (keep_plan write account_id now state
              (plan_from hash a by_identity device messages c)).1).0
          ≡ ok r')
        × (r'.imported ≡ [])
        × (r'.skipped ≡ length messages)
  keep_plan-again now later state a c w f l =
      let c' = cursor_of now (plan_from hash a by_identity device messages c) in
      let state' : EmailSyncState = record state { cursors = insert account_id c' state.cursors } in
      let p' = plan_from hash a by_identity device messages c' in
      let look : lookup account_id state'.cursors ≡ some c' =
        rw (lookup-insert account_id account_id c' state.cursors, bytes_eq_refl account_id) in
      let second = ap (λ t. t.0) (prepare_import-found later state' f) in
      let (x, y) = plan_from-again hash a by_identity device messages c c' refl l in
      (result_of later p', (rw look at second) ∙ keep_plan-ok later state' p' w, x, y)

-- Importing the same messages once more, at any later time, imports none of them and skips them
-- all. It is for a first import after which fewer identifiers are kept than the limit, and for a
-- file that can be written.
pub prepare_import-again :
    (write : EmailSyncState → Outcome EmailSyncError Unit) (hash : Bytes → Bytes)
    (account_id : Text) (messages : List FetchedEmailMessage) (by_identity device : Bytes)
    (now later : ℕ) (state : EmailSyncState) {r : EmailImportResult}
    → ((s : EmailSyncState) → write s ≡ ok tt)
    → (prepare_import write hash account_id messages by_identity device now state).0 ≡ ok r
    → length r.cursor.seen_message_ids < 2048
    → (r' : EmailImportResult) × ((prepare_import write hash account_id messages by_identity device
          later
          (prepare_import write hash account_id messages by_identity device now state).1).0
        ≡ ok r')
      × (r'.imported ≡ [])
      × (r'.skipped ≡ length messages)
prepare_import-again write hash account_id messages by_identity device now later state w e l =
    elim (Option-cases (find_account account_id state.accounts)) [
      | inl n ↦ absurd (
          cc (
            rw
              (prepare_import-missing write hash account_id messages by_identity device now state n)
              at e))
      | inr (a, f) ↦
          let c = or_default_cursor (lookup account_id state.cursors) in
          let p = plan_from hash a by_identity device messages c in
          let first =
            prepare_import-found write hash account_id messages by_identity device now state f in
          let same = keep_plan-ok write hash account_id messages by_identity device now state p w in
          let same_result = ok_inj (ap (λ t. t.0) first ∙ same) e in
          rw first (
            keep_plan-again write hash account_id messages by_identity device now later state a c w
              f (subst (λ t. length t.cursor.seen_message_ids < 2048) (sym same_result) l))
    ]
