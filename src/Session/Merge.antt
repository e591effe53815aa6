-- ===== src/Session/Merge.antt =====
-- The merge of a remote copy of a context (aeon-vm/src/session.rs): what is there behind it, and
-- that a second merge changes nothing.
use aeon_flow.Base.{
  ◌≡◌, refl, ap, sym, ◌∙◌, Bool, true, false, ◌||◌, List, [], ◌∷◌, ◌++◌, arith, ==_refl, Bool-cases,
  inl, inr, Bytes, contains, contains-append, bytes_eq, bytes_eq_refl, eq_of_bytes_eq, ok,
  guard-bind,
}
use aeon_flow.Session.{
  SharedContext, MergeReport, Key, SessionId, patch_key, message_key, bytes_lt, key_lt, key_eq,
  insert_sorted, sort, has_key, push_missing, join_missing, merge_from,
}

bytes_lt-asym : (a b : Bytes) → bytes_lt a b ≡ true → bytes_lt b a ≡ false
unfolding bytes_lt
bytes_lt-asym [] [] h = refl
bytes_lt-asym [] (y ∷ b) h = refl
bytes_lt-asym (x ∷ a) [] h = cc
bytes_lt-asym (x ∷ a) (y ∷ b) h = ground (arith, bytes_lt-asym a b)

key_lt-asym : (j k : Key) → key_lt j k ≡ true → key_lt k j ≡ false
unfolding key_lt
key_lt-asym (c, a) (d, b) h = ground (arith, bytes_lt-asym a b)

key_eq_refl : (k : Key) → key_eq k k ≡ true
unfolding key_eq
key_eq_refl (c, a) = rw (==_refl c, bytes_eq_refl a)

eq_of_key_eq : (j k : Key) → key_eq j k ≡ true → j ≡ k
unfolding key_eq
eq_of_key_eq (c, a) (d, b) h = ground (arith, eq_of_bytes_eq a b)

or_false : (b : Bool) → (b || false) ≡ b
or_false true = refl
or_false false = refl

module _ {A : Type 0} (key : A → Key) where
  has_key-append :
      (k : Key) (xs ys : List A) → has_key key k (xs ++ ys) ≡ (has_key key k xs || has_key key k ys)
  unfolding has_key
  has_key-append k [] ys = refl
  has_key-append k (x ∷ xs) ys = ground (arith, has_key-append k xs ys)

  has_key-insert_sorted :
      (k : Key) (x : A) (ys : List A)
      → has_key key k (insert_sorted key x ys) ≡ has_key key k (x ∷ ys)
  unfolding has_key insert_sorted
  has_key-insert_sorted k x [] = refl
  has_key-insert_sorted k x (y ∷ ys) = ground (arith, has_key-insert_sorted k x ys)

  pub has_key-sort : (k : Key) (xs : List A) → has_key key k (sort key xs) ≡ has_key key k xs
  unfolding has_key sort
  has_key-sort k [] = refl
  has_key-sort k (x ∷ xs) =
      has_key-insert_sorted k x (sort key xs) ∙ ap (λ b. key_eq (key x) k || b) (has_key-sort k xs)

  -- The keys behind the loop: those of the two lists.
  pub has_key-push_missing :
      (k : Key) (rs xs : List A)
      → has_key key k (push_missing key rs xs).0 ≡ (has_key key k xs || has_key key k rs)
  unfolding has_key push_missing
  has_key-push_missing k [] xs = sym (or_false (has_key key k xs))
  has_key-push_missing k (r ∷ rs) xs = elim (Bool-cases (has_key key (key r) xs)) [
    | inl t ↦
        rw (t, push_missing)
          (has_key-push_missing k rs xs ∙ elim (Bool-cases (key_eq (key r) k)) [
            | inl e ↦
                let there : has_key key k xs ≡ true =
                  ap (λ j. has_key key j xs) (sym (eq_of_key_eq (key r) k e)) ∙ t in
                rw there
            | inr e ↦ rw e
          ])
    | inr t ↦
        rw (t, push_missing)
          (has_key-push_missing k rs (xs ++ r ∷ []) ∙ ground (arith, has_key-append k xs (r ∷ [])))
  ]

  push_missing_known :
      (rs xs : List A)
      → ((k : Key) → has_key key k rs ≡ true → has_key key k xs ≡ true)
      → push_missing key rs xs ≡ (xs, 0)
  unfolding has_key push_missing
  push_missing_known [] xs h = refl
  push_missing_known (r ∷ rs) xs h =
      let t = h (key r) (rw (key_eq_refl (key r))) in
      let ih = push_missing_known rs xs (λ k t. h k (ground arith)) in rw (t, push_missing, ih)

  abbrev IsSorted : List A → Type 0
  IsSorted [] = Unit
  IsSorted (x ∷ []) = Unit
  IsSorted (x ∷ y ∷ ys) = (key_lt (key y) (key x) ≡ false) × IsSorted (y ∷ ys)

  insert_sorted-IsSorted : (x : A) (ys : List A) → IsSorted ys → IsSorted (insert_sorted key x ys)
  unfolding insert_sorted
  insert_sorted-IsSorted x [] s = tt
  insert_sorted-IsSorted x (y ∷ []) s = elim (Bool-cases (key_lt (key y) (key x))) [
    | inl t ↦ rw t (key_lt-asym (key y) (key x) t, tt)
    | inr t ↦ rw t (t, tt)
  ]
  insert_sorted-IsSorted x (y ∷ z ∷ zs) (n, s) =
      let ih = insert_sorted-IsSorted x (z ∷ zs) s in
      elim (Bool-cases (key_lt (key y) (key x))) [
        | inl t ↦ elim (Bool-cases (key_lt (key z) (key x))) [
          | inl u ↦ rw (t, u) (n, rw u at ih)
          | inr u ↦ rw (t, u) (key_lt-asym (key y) (key x) t, rw u at ih)
        ]
        | inr t ↦ rw t (t, (n, s))
      ]

  sort-IsSorted : (xs : List A) → IsSorted (sort key xs)
  unfolding sort
  sort-IsSorted [] = tt
  sort-IsSorted (x ∷ xs) = insert_sorted-IsSorted x (sort key xs) (sort-IsSorted xs)

  sort_fixed : (xs : List A) → IsSorted xs → sort key xs ≡ xs
  unfolding sort insert_sorted
  sort_fixed [] s = refl
  sort_fixed (x ∷ []) s = refl
  sort_fixed (x ∷ y ∷ ys) (n, s) = rw (sort_fixed (y ∷ ys) s, n)

  -- A second merge pushes nothing and leaves the order.
  pub push_missing_again :
      (rs xs : List A)
      → (push_missing key rs (sort key (push_missing key rs xs).0)
          ≡ (sort key (push_missing key rs xs).0, 0))
        × (sort key (sort key (push_missing key rs xs).0) ≡ sort key (push_missing key rs xs).0)
  push_missing_again rs xs =
      let merged = (push_missing key rs xs).0 in
      (
        push_missing_known rs (sort key merged)
            (λ k t. has_key-sort k merged ∙ has_key-push_missing k rs xs ∙ ground arith),
        sort_fixed (sort key merged) (sort-IsSorted merged),
      )

pub contains-join_missing :
    (s : SessionId) (rs xs : List SessionId)
    → contains s (join_missing rs xs).0 ≡ (contains s xs || contains s rs)
unfolding contains join_missing
contains-join_missing s [] xs = sym (or_false (contains s xs))
contains-join_missing s (r ∷ rs) xs = elim (Bool-cases (contains r xs)) [
  | inl t ↦
      rw (t, join_missing)
        (contains-join_missing s rs xs ∙ elim (Bool-cases (bytes_eq r s)) [
          | inl e ↦
              let there : contains s xs ≡ true =
                ap (λ j. contains j xs) (sym (eq_of_bytes_eq r s e)) ∙ t in
              rw there
          | inr e ↦ rw e
        ])
  | inr t ↦
      rw (t, join_missing)
        (contains-join_missing s rs (xs ++ r ∷ []) ∙ ground (arith, contains-append s xs (r ∷ [])))
]

join_missing_known :
    (rs xs : List SessionId)
    → ((s : SessionId) → contains s rs ≡ true → contains s xs ≡ true)
    → join_missing rs xs ≡ (xs, 0)
unfolding contains join_missing
join_missing_known [] xs h = refl
join_missing_known (r ∷ rs) xs h =
    let t = h r (rw (bytes_eq_refl r)) in
    let ih = join_missing_known rs xs (λ s t. h s (ground arith)) in rw (t, join_missing, ih)

join_missing_again :
    (rs xs : List SessionId) → join_missing rs (join_missing rs xs).0 ≡ ((join_missing rs xs).0, 0)
join_missing_again rs xs =
    join_missing_known rs (join_missing rs xs).0
      (λ s t. contains-join_missing s rs xs ∙ ground arith)

-- The context that a merge leaves.
abbrev merged : SharedContext → SharedContext → SharedContext
merged remote ctx = record ctx {
  patches = sort patch_key (push_missing patch_key remote.patches ctx.patches).0;
  messages = sort message_key (push_missing message_key remote.messages ctx.messages).0;
  connected_sessions = (join_missing remote.connected_sessions ctx.connected_sessions).0;
}

-- Merging the same remote context a second time succeeds, adds nothing, and leaves the context as the
-- first merge made it.
pub merge_from-again :
    (remote ctx : SharedContext) {report : MergeReport} {ctx' : SharedContext}
    → merge_from remote ctx ≡ ok (report, ctx')
    → merge_from remote ctx' ≡ ok (record { patches = 0; messages = 0; sessions = 0 }, ctx')
unfolding merge_from
merge_from-again remote ctx {report} {ctx'} e =
    let (same, e₁) =
      guard-bind (bytes_eq remote.base_snapshot.program_id ctx.base_snapshot.program_id) _ _ e in
    let result : merged remote ctx ≡ ctx' = cc e₁ in
    let (p, p') = push_missing_again patch_key remote.patches ctx.patches in
    let (m, m') = push_missing_again message_key remote.messages ctx.messages in
    let j = join_missing_again remote.connected_sessions ctx.connected_sessions in
    rw (← result, same, p, m, j, p', m')

-- After a merge that succeeds, the context has exactly the patches, the messages (by clock and
-- author) and the sessions of the two.
pub merge_from-union :
    (remote ctx : SharedContext) {report : MergeReport} {ctx' : SharedContext}
    → merge_from remote ctx ≡ ok (report, ctx')
    → ((k : Key)
        → has_key patch_key k ctx'.patches
          ≡ (has_key patch_key k ctx.patches || has_key patch_key k remote.patches))
      × ((k : Key)
          → has_key message_key k ctx'.messages
            ≡ (has_key message_key k ctx.messages || has_key message_key k remote.messages))
      × ((s : SessionId)
          → contains s ctx'.connected_sessions
            ≡ (contains s ctx.connected_sessions || contains s remote.connected_sessions))
unfolding merge_from
merge_from-union remote ctx {report} {ctx'} e =
    let (same, e₁) =
      guard-bind (bytes_eq remote.base_snapshot.program_id ctx.base_snapshot.program_id) _ _ e in
    let result : merged remote ctx ≡ ctx' = cc e₁ in
    rw (← result) (
      (λ k.
          has_key-sort patch_key k (push_missing patch_key remote.patches ctx.patches).0
          ∙ has_key-push_missing patch_key k remote.patches ctx.patches),
      (λ k.
          has_key-sort message_key k (push_missing message_key remote.messages ctx.messages).0
          ∙ has_key-push_missing message_key k remote.messages ctx.messages),
      (λ s. contains-join_missing s remote.connected_sessions ctx.connected_sessions),
    )
