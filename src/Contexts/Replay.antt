-- ===== src/Contexts/Replay.antt =====
-- The log of a context (aeon-store/src/context.rs) explains it: members and nodes are what its events
-- say, in order, and every event is by a member.
use aeon_flow.Base.{
  ℕ, ◌≡◌, refl, ap, sym, ◌∙◌, subst, true, Bool-cases, inl, inr, Option, none, some, List, [], ◌∷◌,
  ◌++◌, set, Bytes, bytes_eq_refl, contains, contains-append, Outcome, ok, ok_or, ok_or-eq-ok,
  guard-bind, bind-eq-ok,
}
use aeon_flow.Blobs.{Cid}
use aeon_flow.Contexts.{
  AccountId, ContextEvent, ContextError, Context, missing_node, node_added, node_edited,
  node_removed, member_joined, message_sent, new, is_member, require_member, log_event, push_new,
  position, remove_at, add_member, add_node, update_node, remove_node, message,
}

-- What one event does to the nodes, and to the members.
abbrev at_position : (ℕ → List Cid → List Cid) → Option ℕ → List Cid → List Cid
at_position f none nodes = nodes
at_position f (some i) nodes = f i nodes

abbrev pub replay_node : List Cid → ContextEvent → List Cid
replay_node nodes (node_added cid _ _) = push_new cid nodes
replay_node nodes (node_edited old new _ _) =
    at_position (λ i ns. set ns i new) (position old nodes) nodes
replay_node nodes (node_removed cid _ _) = at_position remove_at (position cid nodes) nodes
replay_node nodes (member_joined _ _) = nodes
replay_node nodes (message_sent _ _ _) = nodes

abbrev pub replay_member : List AccountId → ContextEvent → List AccountId
replay_member ms (member_joined a _) = ms ++ a ∷ []
replay_member ms (node_added _ _ _) = ms
replay_member ms (node_edited _ _ _ _) = ms
replay_member ms (node_removed _ _ _) = ms
replay_member ms (message_sent _ _ _) = ms

abbrev pub replay :
    (List Bytes → ContextEvent → List Bytes) → List ContextEvent → List Bytes → List Bytes
replay f [] xs = xs
replay f (e ∷ es) xs = replay f es (f xs e)

replay-append :
    (f : List Bytes → ContextEvent → List Bytes) (es : List ContextEvent) (e : ContextEvent)
    (xs : List Bytes)
    → replay f (es ++ e ∷ []) xs ≡ f (replay f es xs) e
replay-append f [] e xs = refl
replay-append f (x ∷ es) e xs = replay-append f es e (f xs x)

-- The account that made an event.
abbrev pub author : ContextEvent → AccountId
author (node_added _ by _) = by
author (node_edited _ _ by _) = by
author (node_removed _ by _) = by
author (member_joined account _) = account
author (message_sent _ by _) = by

abbrev pub AllAuthored : List AccountId → List ContextEvent → Type 0
AllAuthored ms [] = Unit
AllAuthored ms (e ∷ es) = (contains (author e) ms ≡ true) × AllAuthored ms es

AllAuthored-append :
    (ms : List AccountId) (es : List ContextEvent) (e : ContextEvent)
    → AllAuthored ms es
    → contains (author e) ms ≡ true
    → AllAuthored ms (es ++ e ∷ [])
AllAuthored-append ms [] e a c = (c, tt)
AllAuthored-append ms (x ∷ es) e a c = (a.0, AllAuthored-append ms es e a.1 c)

AllAuthored-more :
    (ms ns : List AccountId) (es : List ContextEvent)
    → AllAuthored ms es
    → AllAuthored (ms ++ ns) es
AllAuthored-more ms ns [] a = tt
AllAuthored-more ms ns (e ∷ es) a =
    ((rw (contains-append (author e) ms ns, a.0)), AllAuthored-more ms ns es a.1)

pub record IsExplained (ctx : Context) : Type 0 where
  pub nodes_ok : ctx.nodes ≡ replay replay_node ctx.events []
  pub members_ok : ctx.members ≡ replay replay_member ctx.events []
  pub authored : AllAuthored ctx.members ctx.events
  pub owner_in : contains ctx.owner ctx.members ≡ true

-- The operations, as values.
pub data ContextOp : Type 0 where
  add_member_op : (account : AccountId) (at : ℕ) → ContextOp
  add_node_op remove_node_op : (node_cid : Cid) (by : AccountId) (at : ℕ) → ContextOp
  update_node_op : (old_cid new_cid : Cid) (by : AccountId) (at : ℕ) → ContextOp
  message_op : (text : Bytes) (by : AccountId) (at : ℕ) → ContextOp

abbrev pub exec : ContextOp → Context → Outcome ContextError Context
exec (add_member_op account at) ctx = ok (add_member account at ctx)
exec (add_node_op node_cid by at) ctx = add_node node_cid by at ctx
exec (remove_node_op node_cid by at) ctx = remove_node node_cid by at ctx
exec (update_node_op old_cid new_cid by at) ctx = update_node old_cid new_cid by at ctx
exec (message_op text by at) ctx = message text by at ctx

-- A new context is explained by its one event.
pub new-IsExplained :
    (blake3 : Bytes → Bytes) (name : Bytes) (owner : AccountId) (at : ℕ)
    → IsExplained (new blake3 name owner at)
unfolding new contains
new-IsExplained blake3 name owner at =
    let c : contains owner (owner ∷ []) ≡ true = rw (bytes_eq_refl owner) in
    record { nodes_ok = refl; members_ok = refl; authored = (c, tt); owner_in = c }

-- An event that leaves the members alone, by a member.
logged-IsExplained :
    (ctx : Context) (nodes : List Cid) (e : ContextEvent)
    → IsExplained ctx
    → contains (author e) ctx.members ≡ true
    → nodes ≡ replay_node ctx.nodes e
    → replay_member ctx.members e ≡ ctx.members
    → IsExplained (log_event e (record ctx { nodes = nodes }))
logged-IsExplained ctx nodes e v c n m = record {
  nodes_ok =
      n ∙ ap (λ t. replay_node t e) v.nodes_ok ∙ sym (replay-append replay_node ctx.events e []);
  members_ok =
      sym m
      ∙ ap (λ t. replay_member t e) v.members_ok
      ∙ sym (replay-append replay_member ctx.events e []);
  authored = AllAuthored-append ctx.members ctx.events e v.authored c;
  owner_in = v.owner_in;
}

add_member-IsExplained :
    (account : AccountId) (at : ℕ) (ctx : Context)
    → IsExplained ctx
    → IsExplained (add_member account at ctx)
unfolding add_member contains
add_member-IsExplained account at ctx v = elim (Bool-cases (contains account ctx.members)) [
  | inl t ↦ rw (t, add_member) v
  | inr t ↦
      let e = member_joined account at in
      let ms = ctx.members ++ account ∷ [] in
      let c : contains account ms ≡ true =
        contains-append account ctx.members (account ∷ []) ∙ rw (t, bytes_eq_refl account) in
      rw (t, add_member)
        (record {
          nodes_ok = v.nodes_ok ∙ sym (replay-append replay_node ctx.events e []);
          members_ok =
              ap (λ x. x ++ account ∷ []) v.members_ok
              ∙ sym (replay-append replay_member ctx.events e []);
          authored =
              AllAuthored-append ms ctx.events e
                (AllAuthored-more ctx.members (account ∷ []) ctx.events v.authored) c;
          owner_in = contains-append ctx.owner ctx.members (account ∷ []) ∙ rw v.owner_in;
        })
]

-- Every operation that succeeds keeps the context explained by its log.
pub exec-IsExplained :
    (op : ContextOp) (ctx : Context) {ctx' : Context}
    → IsExplained ctx
    → exec op ctx ≡ ok ctx'
    → IsExplained ctx'
unfolding add_node update_node remove_node message require_member is_member
exec-IsExplained (add_member_op account at) ctx {ctx'} v e =
    let same : add_member account at ctx ≡ ctx' = cc e in
    subst IsExplained same (add_member-IsExplained account at ctx v)
exec-IsExplained (add_node_op cid by at) ctx {ctx'} v e =
    let (c, e₁) = guard-bind (contains by ctx.members) _ _ e in
    let ev = node_added cid by at in
    let same : log_event ev (record ctx { nodes = push_new cid ctx.nodes }) ≡ ctx' = cc e₁ in
    subst IsExplained same (logged-IsExplained ctx _ ev v c refl refl)
exec-IsExplained (remove_node_op cid by at) ctx {ctx'} v e =
    let (c, e₁) = guard-bind (contains by ctx.members) _ _ e in
    let (pos, o, e₂) = bind-eq-ok (ok_or (position cid ctx.nodes) (missing_node cid)) _ e₁ in
    let p = ok_or-eq-ok (position cid ctx.nodes) (missing_node cid) o in
    let ev = node_removed cid by at in
    let same : log_event ev (record ctx { nodes = remove_at pos ctx.nodes }) ≡ ctx' = cc e₂ in
    subst IsExplained same (logged-IsExplained ctx _ ev v c (rw p) refl)
exec-IsExplained (update_node_op old new_cid by at) ctx {ctx'} v e =
    let (c, e₁) = guard-bind (contains by ctx.members) _ _ e in
    let (pos, o, e₂) = bind-eq-ok (ok_or (position old ctx.nodes) (missing_node old)) _ e₁ in
    let p = ok_or-eq-ok (position old ctx.nodes) (missing_node old) o in
    let ev = node_edited old new_cid by at in
    let same : log_event ev (record ctx { nodes = set ctx.nodes pos new_cid }) ≡ ctx' = cc e₂ in
    subst IsExplained same (logged-IsExplained ctx _ ev v c (rw p) refl)
exec-IsExplained (message_op text by at) ctx {ctx'} v e =
    let (c, e₁) = guard-bind (contains by ctx.members) _ _ e in
    let ev = message_sent text by at in
    let same : log_event ev ctx ≡ ctx' = cc e₁ in
    subst IsExplained same (logged-IsExplained ctx ctx.nodes ev v c refl refl)
