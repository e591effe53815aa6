-- ===== src/EmailSync.antt =====
-- The import of e-mail messages (aeon-sync/src/email_sync.rs, with the capture entries of
-- aeon-capture/src/capture.rs and bridge.rs): the accounts, a cursor for each with the identifiers
-- of the messages that were seen, and the plan of an import. The hash, the clock and the write of
-- the file are arguments. A text is the list of its code points, and a `HashSet` the list of what
-- it holds.
pub mod Again
use aeon_flow.Base.{
  ℕ, zero, suc, ◌+◌, ◌-◌, ◌*◌, ◌<◌, max, Bool, Option, none, some, List, [], ◌∷◌, ◌++◌, ltb,
  if◌then◌else◌, length, take, drop, replicate, Bytes, bytes_eq, contains, ascii, Text, is_empty,
  to_utf8, Table, lookup, insert, Outcome, ok, err, ◌>>◌,
}
use aeon_flow.AgentState.{decimal_digits}
use aeon_flow.Vault.{text_le}

pub data EmailProviderConfig : Type 0 where
  imap : (host : Text) (port : ℕ) (tls : Bool) (mailbox : Text) → EmailProviderConfig
  gmail_api outlook_api : (account_id : Text) → EmailProviderConfig

pub record EmailAccountConfig : Type 0 where
  pub id : Text
  pub label : Text
  pub address : Text
  pub provider : EmailProviderConfig
  pub labels : List Text
  pub credential_ref : Option Text
  pub enabled : Bool

pub record FetchedEmailMessage : Type 0 where
  pub uid : ℕ
  pub message_id : Text
  pub from : Text
  pub to : List Text
  pub subject : Text
  pub body_preview : Text
  pub received_at : ℕ
  pub labels : List Text

pub record EmailCursor : Type 0 where
  pub last_uid : Option ℕ
  pub seen_message_ids : List Text
  pub updated_at : ℕ

pub record EmailSyncState : Type 0 where
  pub accounts : List EmailAccountConfig
  pub cursors : Table EmailCursor

pub data EmailSyncError : Type 0 where
  io serialize missing_account : EmailSyncError

pub data CaptureKind : Type 0 where
  conversation text webpage process_state os_activity vm_snapshot clipboard : CaptureKind
  code : (language : Text) → CaptureKind
  image : (width height : ℕ) (format : Text) → CaptureKind
  document : (format : Text) → CaptureKind
  blob : (mime : Text) → CaptureKind

pub data OsCaptureProvider : Type 0 where
  win_event_hook windows_ui_automation shell_notification filesystem_watcher clipboard_api
        browser_bridge android_system_bridge :
      OsCaptureProvider

pub data CaptureSource : Type 0 where
  drag_drop clipboard_source screenshot share_menu manual : CaptureSource
  file_watch : (path : Text) → CaptureSource
  app_api : (app : Text) → CaptureSource
  operating_system : OsCaptureProvider → CaptureSource
  peer_sync : (device_name : Text) → CaptureSource

pub record CaptureMetadata : Type 0 where
  pub title : Option Text
  pub summary : Option Text
  pub app_name : Option Text
  pub file_path : Option Text
  pub url : Option Text
  pub message_count : Option ℕ
  pub previous_version : Option Bytes
  pub extra : Table Text

pub record CaptureEntry : Type 0 where
  pub cid : Bytes
  pub kind : CaptureKind
  pub data_bytes : Bytes
  pub meta : CaptureMetadata
  pub source : CaptureSource
  pub captured_at : ℕ
  pub by_identity : Bytes
  pub device : Bytes

pub record ImportedEmailCapture : Type 0 where
  pub uid : ℕ
  pub message_id : Text
  pub entry : CaptureEntry

pub record EmailImportResult : Type 0 where
  pub imported : List ImportedEmailCapture
  pub skipped : ℕ
  pub cursor : EmailCursor

-- `join(",")`
unfoldable pub join_commas : List Text → Text
join_commas [] = []
join_commas (s ∷ []) = s
join_commas (s ∷ t ∷ ss) = s ++ b',' ∷ join_commas (t ∷ ss)

abbrev pub provider_key : EmailProviderConfig → Text
provider_key (imap _ _ _ _) = ascii "imap"
provider_key (gmail_api _) = ascii "gmail"
provider_key (outlook_api _) = ascii "outlook"

abbrev labels_or : List Text → List Text → List Text
labels_or account_labels labels = if is_empty labels then account_labels else labels

abbrev with_credential : Option Text → Table Text → Table Text
with_credential none extra = extra
with_credential (some r) extra = insert (ascii "credential_ref") r extra

abbrev max_seen_message_ids : ℕ
max_seen_message_ids = 2048

-- The stable sort of texts
unfoldable pub insert_text : Text → List Text → List Text
unfolding text_le
insert_text s [] = s ∷ []
insert_text s (t ∷ ts) = if text_le s t then s ∷ t ∷ ts else t ∷ insert_text s ts

unfoldable pub sort_texts : List Text → List Text
unfolding insert_text
sort_texts [] = []
sort_texts (s ∷ ss) = insert_text s (sort_texts ss)

-- Subtraction on ℕ is 0 where nothing is drained.
unfoldable pub bounded_seen_message_ids : List Text → List Text
unfolding sort_texts
bounded_seen_message_ids seen =
    let values = sort_texts seen in drop (length values - max_seen_message_ids) values

-- `collect` into a set
unfoldable pub set_of : List Text → List Text
unfolding contains
set_of [] = []
set_of (s ∷ ss) = let rest = set_of ss in if contains s rest then rest else s ∷ rest

abbrev larger_uid : Option ℕ → ℕ → Option ℕ
larger_uid none uid = some uid
larger_uid (some m) uid = some (max m uid)

-- What the loop of an import has
pub record Plan : Type 0 where
  pub imported : List ImportedEmailCapture
  pub skipped : ℕ
  pub seen : List Text
  pub max_uid : Option ℕ

abbrev pub or_default_cursor : Option EmailCursor → EmailCursor
or_default_cursor none = record { last_uid = none; seen_message_ids = []; updated_at = 0 }
or_default_cursor (some c) = c

unfoldable pub find_account : Text → List EmailAccountConfig → Option EmailAccountConfig
find_account id [] = none
find_account id (a ∷ as') = if bytes_eq a.id id then some a else find_account id as'

-- With the hash of the data; `received_at` replaces the time of the clock.
unfoldable pub into_capture_entry : (Bytes → Bytes) → FetchedEmailMessage → CaptureEntry
unfolding join_commas
into_capture_entry hash payload =
    let body = to_utf8 payload.body_preview in
    let extra = insert (ascii "bridge.kind") (ascii "email") [] in
    let extra = insert (ascii "message_id") payload.message_id extra in
    let extra = insert (ascii "from") payload.from extra in
    let extra = insert (ascii "to") (join_commas payload.to) extra in
    record {
      cid = hash body;
      kind = CaptureKind.text;
      data_bytes = body;
      meta = record {
        title = some payload.subject;
        summary = some (take 200 payload.body_preview);
        app_name = some (ascii "Email");
        file_path = none;
        url = none;
        message_count = none;
        previous_version = none;
        extra = insert (ascii "labels") (join_commas payload.labels) extra;
      };
      source = app_api (ascii "bridge.email");
      captured_at = payload.received_at;
      by_identity = replicate 32 0;
      device = replicate 16 0;
    }

-- The payload is the message with the labels it is given here.
unfoldable pub email_entry :
    (Bytes → Bytes) → EmailAccountConfig → FetchedEmailMessage → CaptureEntry
unfolding into_capture_entry decimal_digits
email_entry hash account message =
    let payload : FetchedEmailMessage = record message {
      labels = labels_or account.labels message.labels;
    } in
    let entry = into_capture_entry hash payload in
    let extra = insert (ascii "account_id") account.id entry.meta.extra in
    let extra = insert (ascii "account_label") account.label extra in
    let extra = insert (ascii "uid") (decimal_digits 20 message.uid) extra in
    let extra = insert (ascii "provider") (provider_key account.provider) extra in
    let extra = with_credential account.credential_ref extra in
    record entry { meta = record entry.meta { extra = extra } }

module _ (hash : Bytes → Bytes) where
  -- The loop of `prepare_import`
  unfoldable pub plan_import :
      EmailAccountConfig → Bytes → Bytes → List FetchedEmailMessage → Plan → Plan
  unfolding contains
  plan_import account by_identity device [] p = p
  plan_import account by_identity device (m ∷ ms) p =
      let skip = plan_import account by_identity device ms (record p { skipped = p.skipped + 1 }) in
      let planned : ImportedEmailCapture = record {
        uid = m.uid;
        message_id = m.message_id;
        entry = record (email_entry hash account m) { by_identity = by_identity; device = device };
      } in
      let take_in = plan_import account by_identity device ms (record {
        imported = p.imported ++ planned ∷ [];
        skipped = p.skipped;
        seen = m.message_id ∷ p.seen;
        max_uid = larger_uid p.max_uid m.uid;
      }) in
      if contains m.message_id p.seen then skip else take_in

  -- The plan from the cursor of an account
  abbrev pub plan_from :
      EmailAccountConfig → Bytes → Bytes → List FetchedEmailMessage → EmailCursor → Plan
  plan_from account by_identity device messages cursor =
      plan_import account by_identity device messages (record {
        imported = [];
        skipped = 0;
        seen = set_of cursor.seen_message_ids;
        max_uid = cursor.last_uid;
      })

module _ (write : EmailSyncState → Outcome EmailSyncError Unit) where
  abbrev pub keep_plan :
      Bytes → ℕ → EmailSyncState → Plan → Outcome EmailSyncError EmailImportResult × EmailSyncState
  keep_plan account_id now_ms state p =
      let cursor : EmailCursor = record {
        last_uid = p.max_uid;
        seen_message_ids = bounded_seen_message_ids p.seen;
        updated_at = now_ms;
      } in
      let state' : EmailSyncState = record state {
        cursors = insert account_id cursor state.cursors;
      } in
      (
        write state' >> ok (record { imported = p.imported; skipped = p.skipped; cursor = cursor }),
        state',
      )

  -- For the account that was found
  abbrev import_for :
      (Bytes → Bytes)
      → Text
      → List FetchedEmailMessage
      → Bytes
      → Bytes
      → ℕ
      → EmailSyncState
      → Option EmailAccountConfig
      → Outcome EmailSyncError EmailImportResult × EmailSyncState
  import_for hash account_id messages identity_id device_id now_ms state none =
      (err missing_account, state)
  import_for hash account_id messages identity_id device_id now_ms state (some account) =
      keep_plan account_id now_ms state (
        plan_from hash account identity_id device_id messages
          (or_default_cursor (lookup account_id state.cursors)))

  unfoldable pub prepare_import :
      (Bytes → Bytes)
      → Text
      → List FetchedEmailMessage
      → Bytes
      → Bytes
      → ℕ
      → EmailSyncState
      → Outcome EmailSyncError EmailImportResult × EmailSyncState
  unfolding find_account plan_import bounded_seen_message_ids
  prepare_import hash account_id messages identity_id device_id now_ms state =
      import_for hash account_id messages identity_id device_id now_ms state
        (find_account account_id state.accounts)
