-- ===== src/Jit/Leaders.antt =====
-- The leaders of a program (aeon-vm/src/jit.rs): they ascend, none is past the end, and each but the
-- end starts a block.
use aeon_flow.Base.{
  ℕ, ◌+◌, ◌-◌, ◌≤◌, ◌≡◌, inl, inr, true, ◌||◌, Bool-cases, List, [], ◌∷◌, arith, ltb, leb, ◌==◌,
  length, Outcome, ok, err, panic, Ensures, Ensures-bind,
}
use aeon_flow.Heap.{insert_index, has_index}
use aeon_flow.Heap.Dirty.{has_index-insert_index}
use aeon_flow.Inst.{Inst, Program, Offset, forward, backward, jz, jump, halt}
use aeon_flow.Jit.{JitError, checked_target, leaders_from, up_to, basic_block_leaders}

-- From `lo` on, strictly.
abbrev pub Ascends : ℕ → List ℕ → Type 0
Ascends lo [] = Unit
Ascends lo (x ∷ xs) = (lo ≤ x) × Ascends (x + 1) xs

Ascends-weaken : (lo hi : ℕ) (xs : List ℕ) → lo ≤ hi → Ascends hi xs → Ascends lo xs
Ascends-weaken lo hi [] l a = tt
Ascends-weaken lo hi (x ∷ xs) l (h, a) = (omega arith, a)

Ascends-insert_index :
    (lo i : ℕ) (xs : List ℕ) → lo ≤ i → Ascends lo xs → Ascends lo (insert_index i xs)
unfolding insert_index
Ascends-insert_index lo i [] l a = (l, tt)
Ascends-insert_index lo i (x ∷ xs) l (h, a) = elim (Bool-cases (ltb i x)) [
  | inl t ↦ rw t (l, (ground arith, a))
  | inr t ↦ elim (Bool-cases (i == x)) [
    | inl e ↦ rw (t, e) (h, a)
    | inr e ↦ rw (t, e) (h, Ascends-insert_index (x + 1) i xs (ground arith) a)
  ]
]

Ascends-up_to : (lo len : ℕ) (xs : List ℕ) → Ascends lo xs → Ascends lo (up_to len xs)
unfolding up_to
Ascends-up_to lo len [] a = tt
Ascends-up_to lo len (x ∷ xs) (h, a) = elim (Bool-cases (leb x len)) [
  | inl t ↦ rw t (h, Ascends-up_to (x + 1) len xs a)
  | inr t ↦ rw t (Ascends-weaken lo (x + 1) _ (omega arith) (Ascends-up_to (x + 1) len xs a))
]

has_index-up_to :
    (i len : ℕ) (xs : List ℕ) → i ≤ len → has_index i xs ≡ true → has_index i (up_to len xs) ≡ true
unfolding up_to has_index
has_index-up_to i len [] l h = h
has_index-up_to i len (x ∷ xs) l h = ground (arith, has_index-up_to i len xs l)

has_index-up_to_le : (i len : ℕ) (xs : List ℕ) → has_index i (up_to len xs) ≡ true → i ≤ len
unfolding up_to has_index
has_index-up_to_le i len [] h = absurd (cc h)
has_index-up_to_le i len (x ∷ xs) h = elim (Bool-cases (leb x len)) [
  | inl t ↦ elim (Bool-cases (i == x)) [
    | inl q ↦ ground arith
    | inr q ↦ has_index-up_to_le i len xs (rw (t, q) at h)
  ]
  | inr t ↦ has_index-up_to_le i len xs (rw t at h)
]

-- No member is below where they begin.
pub has_index-Ascends : (lo i : ℕ) (xs : List ℕ) → Ascends lo xs → has_index i xs ≡ true → lo ≤ i
unfolding has_index
has_index-Ascends lo i [] a h = absurd (cc h)
has_index-Ascends lo i (x ∷ xs) (l, a) h = elim (Bool-cases (i == x)) [
  | inl e ↦ ground arith
  | inr e ↦ let m = has_index-Ascends (x + 1) i xs a (rw e at h) in omega arith
]

-- The leaders of a list are still there, in order.
record Grown (ls ls' : List ℕ) : Type 0 where
  kept : (i : ℕ) → has_index i ls ≡ true → has_index i ls' ≡ true
  ordered : Ascends 0 ls → Ascends 0 ls'

Grown-insert_index : (i : ℕ) (ls ls' : List ℕ) → Grown (insert_index i ls) ls' → Grown ls ls'
Grown-insert_index i ls ls' g = record {
  kept = λ j h. g.kept j (ground (arith, has_index-insert_index i j ls));
  ordered = λ a. g.ordered (Ascends-insert_index 0 i ls (omega arith) a);
}

AnyTarget : ℕ → Type 0
AnyTarget t = Unit

checked_target-AnyTarget :
    (pc : ℕ) (off : Offset) (len : ℕ) → Ensures AnyTarget (checked_target pc off len)
unfolding checked_target AnyTarget
checked_target-AnyTarget pc (forward n) len = elim (Bool-cases (ltb len (pc + n))) [
  | inl t ↦ rw t tt
  | inr t ↦ rw t tt
]
checked_target-AnyTarget pc (backward n) len =
    elim (Bool-cases (leb pc n || ltb len (pc - (n + 1)))) [ inl t ↦ rw t tt | inr t ↦ rw t tt ]

Ensures-Grown :
    (i : ℕ) (ls : List ℕ) (m : Outcome JitError (List ℕ))
    → Ensures (Grown (insert_index i ls)) m
    → Ensures (Grown ls) m
Ensures-Grown i ls (ok ls') g = Grown-insert_index i ls ls' g
Ensures-Grown i ls (err e) g = tt
Ensures-Grown i ls panic g = elim g [ ]

leaders_from-Grown :
    (pc len : ℕ) (is : List Inst) (ls : List ℕ) → Ensures (Grown ls) (leaders_from pc len is ls)
unfolding leaders_from
leaders_from-Grown pc len [] ls = record { kept = λ i h. h; ordered = λ a. a }
leaders_from-Grown pc len (jz c off ∷ is) ls =
    Ensures-bind AnyTarget (Grown ls) (checked_target pc off len) _
      (checked_target-AnyTarget pc off len)
      λ t _.
        Ensures-Grown t ls _
          (Ensures-Grown (pc + 1) (insert_index t ls) _ (leaders_from-Grown (pc + 1) len is _))
leaders_from-Grown pc len (jump off ∷ is) ls =
    Ensures-bind AnyTarget (Grown ls) (checked_target pc off len) _
      (checked_target-AnyTarget pc off len)
      λ t _.
        Ensures-Grown t ls _
          (Ensures-Grown (pc + 1) (insert_index t ls) _ (leaders_from-Grown (pc + 1) len is _))
leaders_from-Grown pc len (halt ∷ is) ls =
    Ensures-Grown (pc + 1) ls _ (leaders_from-Grown (pc + 1) len is _)
leaders_from-Grown pc len (_ ∷ is) ls = leaders_from-Grown (pc + 1) len is ls

-- The leaders ascend, and 0 and the end are among them.
pub record AreLeaders (len : ℕ) (ls : List ℕ) : Type 0 where
  pub ascending : Ascends 0 ls
  pub has_start : has_index 0 ls ≡ true
  pub bounded : (i : ℕ) → has_index i ls ≡ true → i ≤ len
  pub has_end : has_index len ls ≡ true

up_to-AreLeaders :
    (len : ℕ) (ls : List ℕ)
    → Grown (insert_index len (insert_index 0 [])) ls
    → AreLeaders len (up_to len ls)
up_to-AreLeaders len ls g = record {
  ascending = Ascends-up_to 0 len ls (
      g.ordered (
        Ascends-insert_index 0 len _ (omega arith) (Ascends-insert_index 0 0 [] (omega arith) tt)));
  has_start = has_index-up_to 0 len ls (omega arith) (
      g.kept 0 (
        ground (
          arith,
          has_index-insert_index len 0 (insert_index 0 []),
          has_index-insert_index 0 0 [],
        )));
  bounded = λ i h. has_index-up_to_le i len ls h;
  has_end =
      has_index-up_to len len ls (omega arith)
        (g.kept len (ground (arith, has_index-insert_index len len (insert_index 0 []))));
}

pub basic_block_leaders-AreLeaders :
    (p : Program) → Ensures (AreLeaders (length p.instructions)) (basic_block_leaders p)
unfolding basic_block_leaders
basic_block_leaders-AreLeaders p =
    let len = length p.instructions in
    let ls = insert_index len (insert_index 0 []) in
    Ensures-bind (Grown ls) _ (leaders_from 0 len p.instructions ls) _
      (leaders_from-Grown 0 len p.instructions ls) λ ls' g. up_to-AreLeaders len ls' g
