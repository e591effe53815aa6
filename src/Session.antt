-- ===== src/Session.antt =====
-- Contexts that several sessions patch together (aeon-vm/src/session.rs): Lamport clocks, messages,
-- attributed patches and the merge of a remote copy. The clock of the wall is an argument; the
-- build is a release build, so a Lamport clock wraps. Printing is not modelled.
pub mod Clocks
pub mod Merge
pub mod Patches
use aeon_flow.Base.{
  ℕ, zero, suc, ◌+◌, ◌%◌, ◌^◌, max, Bool, true, false, ◌&&◌, ◌||◌, not, Option, none, some, List,
  [], ◌∷◌, ◌++◌, map, ltb, ◌==◌, if◌then◌else◌, length, Bytes, bytes_eq, contains, ascii, Table,
  lookup, insert, Outcome, ok, err, ◌>>=◌, ◌>>◌, guard, map_err,
}
use aeon_flow.EventLog.{AeonEvent, patch_applied, append_at}
use aeon_flow.Snapshot.{Snapshot}
use aeon_flow.Editor.{PatchSet, EditError, apply}

-- `SessionId::new`: `username@device/conversation`
abbrev pub SessionId : Type 0
SessionId = Bytes

unfoldable pub session_id : Bytes → Bytes → Bytes → SessionId
session_id username device conversation =
    username ++ ascii "@" ++ device ++ ascii "/" ++ conversation

abbrev pub Lamport : Type 0
Lamport = ℕ

-- `Lamport::next` and `Lamport::advance`
abbrev pub next : Lamport → Lamport
next c = (c + 1) % 2 ^ 64

abbrev pub advance : Lamport → Lamport → Lamport
advance c other = (max c other + 1) % 2 ^ 64

pub record AttributedPatch : Type 0 where
  pub author : SessionId
  pub clock : Lamport
  pub wall_ms : ℕ
  pub message : Bytes
  pub patchset : PatchSet

pub record SessionMessage : Type 0 where
  pub author : SessionId
  pub clock : Lamport
  pub wall_ms : ℕ
  pub text : Bytes

pub record MergeReport : Type 0 where
  pub patches : ℕ
  pub messages : ℕ
  pub sessions : ℕ

pub record SharedContext : Type 0 where
  pub id : Bytes
  pub base_snapshot : Snapshot
  pub patches : List AttributedPatch
  pub messages : List SessionMessage
  pub connected_sessions : List SessionId

pub data ContextError : Type 0 where
  patch_failed : SessionId → EditError → ContextError
  validation_failed : EditError → ContextError
  program_mismatch : ContextError

unfoldable pub new : Bytes → Snapshot → SessionId → SharedContext
new id base creator = record {
  id = id;
  base_snapshot = base;
  patches = [];
  messages = [];
  connected_sessions = creator ∷ [];
}

-- `.max().unwrap_or_else(Lamport::zero)`
unfoldable pub max_clock : List Lamport → Lamport
max_clock [] = 0
max_clock (c ∷ cs) = max c (max_clock cs)

unfoldable pub next_clock : SharedContext → Lamport
unfolding max_clock
next_clock ctx =
    next (
      max (max_clock (map (λ p. p.clock) ctx.patches))
        (max_clock (map (λ m. m.clock) ctx.messages)))

unfoldable pub join : SessionId → SharedContext → SharedContext
unfolding contains
join s ctx =
    if contains s ctx.connected_sessions
    then ctx
    else record ctx { connected_sessions = ctx.connected_sessions ++ s ∷ [] }

-- `retain(|item| item != session)`
unfoldable pub without : SessionId → List SessionId → List SessionId
without s [] = []
without s (t ∷ ts) = let rest = without s ts in if bytes_eq t s then rest else t ∷ rest

unfoldable pub leave : SessionId → SharedContext → SharedContext
unfolding without
leave s ctx = record ctx { connected_sessions = without s ctx.connected_sessions }

unfoldable pub post_message : ℕ → SessionId → Bytes → SharedContext → Lamport × SharedContext
unfolding next_clock
post_message now author text ctx =
    let clock = next_clock ctx in
    let message : SessionMessage = record {
      author = author;
      clock = clock;
      wall_ms = now;
      text = text;
    } in
    (clock, record ctx { messages = ctx.messages ++ message ∷ [] })

-- Patches are applied, and their events logged, with the hash and the serializer of the event log.
module _ (blake3 : Bytes → Bytes) (serialize : AeonEvent → ℕ → Bytes → Bytes) where
  -- One round of the loop of `current_snapshot`.
  unfoldable pub play : Bytes → AttributedPatch → Snapshot → Outcome ContextError Snapshot
  play id patch snap = do
    next ← map_err (patch_failed patch.author) (apply patch.patchset snap)
    let event = patch_applied id patch.author patch.message (length patch.patchset.patches)
    ok (record next {
      event_log = (append_at blake3 serialize event patch.wall_ms next.event_log).1;
    })

  unfoldable pub play_all : Bytes → List AttributedPatch → Snapshot → Outcome ContextError Snapshot
  play_all id [] snap = ok snap
  play_all id (p ∷ ps) snap = do next ← play id p snap; play_all id ps next

  unfoldable pub current_snapshot : SharedContext → Outcome ContextError Snapshot
  unfolding play_all
  current_snapshot ctx = play_all ctx.id ctx.patches ctx.base_snapshot

  -- The clock and the context with the patch, or an error that leaves the context as it was.
  unfoldable pub apply_patch :
      ℕ
      → SessionId
      → Bytes
      → PatchSet
      → SharedContext
      → Outcome ContextError (Lamport × SharedContext)
  unfolding current_snapshot next_clock
  apply_patch now author message patchset ctx = do
    current ← current_snapshot ctx
    _ ← map_err validation_failed (apply patchset current)
    let clock = next_clock ctx
    let patch : AttributedPatch = record {
      author = author;
      clock = clock;
      wall_ms = now;
      message = message;
      patchset = patchset;
    }
    ok (clock, record ctx { patches = ctx.patches ++ patch ∷ [] })

-- `Ord` of `(Lamport, SessionId)`: the derived, lexicographic orders.
unfoldable pub bytes_lt : Bytes → Bytes → Bool
bytes_lt [] [] = false
bytes_lt [] (b ∷ bs) = true
bytes_lt (a ∷ as') [] = false
bytes_lt (a ∷ as') (b ∷ bs) = ltb a b || (a == b && bytes_lt as' bs)

abbrev pub Key : Type 0
Key = Lamport × SessionId

unfoldable pub key_lt : Key → Key → Bool
key_lt (c, a) (d, b) = ltb c d || (c == d && bytes_lt a b)

unfoldable pub key_eq : Key → Key → Bool
key_eq (c, a) (d, b) = c == d && bytes_eq a b

-- The merge of one list of items, by their clock and author.
module _ {A : Type 0} (key : A → Key) where
  -- `sort_by_key`, which is stable
  unfoldable pub insert_sorted : A → List A → List A
  insert_sorted x [] = x ∷ []
  insert_sorted x (y ∷ ys) = if key_lt (key y) (key x) then y ∷ insert_sorted x ys else x ∷ y ∷ ys

  unfoldable pub sort : List A → List A
  sort [] = []
  sort (x ∷ xs) = insert_sorted x (sort xs)

  -- `.iter().any(|item| item.clock == x.clock && item.author == x.author)`
  unfoldable pub has_key : Key → List A → Bool
  has_key k [] = false
  has_key k (x ∷ xs) = key_eq (key x) k || has_key k xs

  -- The loop over the items of the remote context: the list, and how many were pushed.
  unfoldable pub push_missing : List A → List A → List A × ℕ
  push_missing [] items = (items, 0)
  push_missing (r ∷ rs) items =
      let known = has_key (key r) items in
      let rest = push_missing rs (if known then items else items ++ r ∷ []) in
      (rest.0, if known then rest.1 else suc rest.1)

abbrev pub patch_key : AttributedPatch → Key
patch_key p = (p.clock, p.author)

abbrev pub message_key : SessionMessage → Key
message_key m = (m.clock, m.author)

unfoldable pub join_missing : List SessionId → List SessionId → List SessionId × ℕ
join_missing [] ss = (ss, 0)
join_missing (r ∷ rs) ss =
    let known = contains r ss in
    let rest = join_missing rs (if known then ss else ss ++ r ∷ []) in
    (rest.0, if known then rest.1 else suc rest.1)

unfoldable pub merge_from :
    SharedContext → SharedContext → Outcome ContextError (MergeReport × SharedContext)
merge_from remote ctx = do
  guard (bytes_eq remote.base_snapshot.program_id ctx.base_snapshot.program_id) program_mismatch
  let patches = push_missing patch_key remote.patches ctx.patches
  let messages = push_missing message_key remote.messages ctx.messages
  let sessions = join_missing remote.connected_sessions ctx.connected_sessions
  ok (
    record { patches = patches.1; messages = messages.1; sessions = sessions.1 },
    record ctx {
      patches = sort patch_key patches.0;
      messages = sort message_key messages.0;
      connected_sessions = sessions.0;
    },
  )
