-- ===== src/Tests/Mails.antt =====
-- A witness for the import of e-mail messages (aeon-sync/src/email_sync.rs).
use aeon_flow.Base.{
  ◌≡◌, ◌<◌, refl, true, none, [], ◌∷◌, arith, length, Bytes, bytes_eq, lookup, ascii, Outcome, ok,
}
use aeon_flow.EmailSync.{
  EmailAccountConfig, gmail_api, FetchedEmailMessage, EmailSyncState, EmailSyncError,
  EmailImportResult, bounded_seen_message_ids, set_of, plan_import, prepare_import, plan_from,
  or_default_cursor,
}
use aeon_flow.EmailSync.Again.{result_of, prepare_import-again}

abbrev account : EmailAccountConfig
account = record {
  id = ascii "a";
  label = ascii "mail";
  address = ascii "ann@x";
  provider = gmail_api (ascii "me");
  labels = [];
  credential_ref = none;
  enabled = true;
}

abbrev message : FetchedEmailMessage
message = record {
  uid = 7;
  message_id = ascii "m1";
  from = ascii "bob";
  to = [];
  subject = ascii "hi";
  body_preview = ascii "body";
  received_at = 5;
  labels = [];
}

abbrev state : EmailSyncState
state = record { accounts = account ∷ []; cursors = [] }

abbrev hash : Bytes → Bytes
hash data_bytes = data_bytes

abbrev written : EmailSyncState → Outcome EmailSyncError Unit
written s = ok tt

abbrev first : EmailImportResult
first = result_of 9 (plan_from hash account [] [] (message ∷ message ∷ []) (or_default_cursor none))

first-prepare_import :
    (prepare_import written hash (ascii "a") (message ∷ message ∷ []) [] [] 9 state).0 ≡ ok first
unfolding prepare_import bytes_eq lookup
first-prepare_import = refl

one_kept : length first.cursor.seen_message_ids < 2048
unfolding bounded_seen_message_ids plan_import set_of bytes_eq
one_kept = omega arith

prepare_import-again_example :
    (r' : EmailImportResult) × ((prepare_import written hash
        (ascii "a")
        (message ∷ message ∷ [])
        []
        []
        12
        (prepare_import written hash (ascii "a") (message ∷ message ∷ []) [] [] 9 state).1).0
      ≡ ok r')
    × (r'.imported ≡ [])
    × (r'.skipped ≡ 2)
prepare_import-again_example =
    prepare_import-again written hash (ascii "a") (message ∷ message ∷ []) [] [] 9 12 state
      (λ s. refl) first-prepare_import one_kept
