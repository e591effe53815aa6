-- ===== src/Contexts.antt =====
-- Contexts of the store (aeon-store/src/context.rs): members, nodes and the log of events. BLAKE3 is
-- a parameter and the time an argument; the JSON form is not modelled.
pub mod Replay
use aeon_flow.Base.{
  ℕ, zero, suc, Bool, Option, none, some, List, [], ◌∷◌, ◌++◌, map, take, set, if◌then◌else◌, Bytes,
  bytes_eq, contains, ascii, le_bytes, Outcome, ok, err, ◌>>=◌, ◌>>◌, ok_or, guard,
}
use aeon_flow.Blobs.{Cid, hex_cid}

-- [u8; 32]
abbrev pub AccountId : Type 0
AccountId = Bytes

pub data ContextEvent : Type 0 where
  node_added : (node_cid : Cid) (by : AccountId) (at : ℕ) → ContextEvent
  node_edited : (old_cid new_cid : Cid) (by : AccountId) (at : ℕ) → ContextEvent
  node_removed : (node_cid : Cid) (by : AccountId) (at : ℕ) → ContextEvent
  member_joined : (account : AccountId) (at : ℕ) → ContextEvent
  message_sent : (text : Bytes) (by : AccountId) (at : ℕ) → ContextEvent

pub data ContextError : Type 0 where
  not_member : AccountId → ContextError
  missing_node : Cid → ContextError

pub record Context : Type 0 where
  pub id : Bytes
  pub name : Bytes
  pub owner : AccountId
  pub members : List AccountId
  pub nodes : List Cid
  pub events : List ContextEvent

unfoldable pub context_id : (Bytes → Bytes) → Bytes → AccountId → ℕ → Bytes
context_id blake3 name owner at =
    ascii "ctx-" ++ take 12 (hex_cid (blake3 (name ++ owner ++ le_bytes 8 at)))

unfoldable pub new : (Bytes → Bytes) → Bytes → AccountId → ℕ → Context
unfolding context_id
new blake3 name owner at = record {
  id = context_id blake3 name owner at;
  name = name;
  owner = owner;
  members = owner ∷ [];
  nodes = [];
  events = member_joined owner at ∷ [];
}

unfoldable pub is_member : Context → AccountId → Bool
is_member ctx account = contains account ctx.members

unfoldable pub require_member : Context → AccountId → Outcome ContextError Unit
unfolding is_member
require_member ctx account = guard (is_member ctx account) (not_member account)

abbrev pub log_event : ContextEvent → Context → Context
log_event e ctx = record ctx { events = ctx.events ++ e ∷ [] }

-- `push` unless `contains`
abbrev pub push_new : Bytes → List Bytes → List Bytes
push_new x xs = if contains x xs then xs else xs ++ x ∷ []

-- `.iter().position(|cid| *cid == x)`
unfoldable pub position : Cid → List Cid → Option ℕ
position x [] = none
position x (y ∷ ys) =
    if bytes_eq y x then some 0 else elim (position x ys) [ none ↦ none | some i ↦ some (suc i) ]

-- `Vec::remove`
unfoldable pub remove_at : ℕ → List Cid → List Cid
remove_at i [] = []
remove_at zero (x ∷ xs) = xs
remove_at (suc i) (x ∷ xs) = x ∷ remove_at i xs

unfoldable pub add_member : AccountId → ℕ → Context → Context
add_member account at ctx =
    if contains account ctx.members
    then ctx
    else log_event (member_joined account at) (record ctx { members = ctx.members ++ account ∷ [] })

unfoldable pub add_node : Cid → AccountId → ℕ → Context → Outcome ContextError Context
unfolding require_member
add_node node_cid by at ctx = do
  require_member ctx by
  ok (log_event (node_added node_cid by at) (record ctx { nodes = push_new node_cid ctx.nodes }))

unfoldable pub update_node : Cid → Cid → AccountId → ℕ → Context → Outcome ContextError Context
unfolding require_member
update_node old_cid new_cid by at ctx = do
  require_member ctx by
  pos ← ok_or (position old_cid ctx.nodes) (missing_node old_cid)
  ok (
      log_event (node_edited old_cid new_cid by at)
        (record ctx { nodes = set ctx.nodes pos new_cid }))

unfoldable pub remove_node : Cid → AccountId → ℕ → Context → Outcome ContextError Context
unfolding require_member
remove_node node_cid by at ctx = do
  require_member ctx by
  pos ← ok_or (position node_cid ctx.nodes) (missing_node node_cid)
  ok (log_event (node_removed node_cid by at) (record ctx { nodes = remove_at pos ctx.nodes }))

unfoldable pub message : Bytes → AccountId → ℕ → Context → Outcome ContextError Context
unfolding require_member
message text by at ctx = do require_member ctx by; ok (log_event (message_sent text by at) ctx)
