-- ===== src/Machine/Safe.antt =====
-- Actions of the machine (aeon-vm/src/vm.rs) that keep its invariant and do not panic: one rule for
-- each way to build an action.
use aeon_flow.Base.{
  ◌≤◌, ◌≡◌, Bool, true, false, Option, none, some, if◌then◌else◌, length, Outcome, ok, err, panic,
  ok_or,
}
use aeon_flow.Heap.Flat
use aeon_flow.Vfs.Slots
use aeon_flow.Machine.{VmState, Exec, pure, raise, lift, gets, ◌>>=◌, ◌>>◌, continue}

-- 256 registers, a valid heap with its top inside, a valid file system.
pub record IsValid (vm : VmState) : Type 0 where
  pub regs_256 : length vm.regs ≡ 256
  pub heap_ok : Flat.IsValid vm.heap
  pub top_within : vm.heap_top ≤ vm.heap.len
  pub fs_ok : Slots.IsValid vm.vfs

abbrev pub NoPanic : {E A : Type 0} → Outcome E A → Type 0
NoPanic (ok a) = Unit
NoPanic (err e) = Unit
NoPanic panic = ⊥

pub record IsSafe {E A : Type 0} (m : Exec VmState E A) : Type 0 where
  pub at : (vm : VmState) → IsValid vm → NoPanic (m vm).0 × IsValid (m vm).1

module _ {E A : Type 0} where
  pub IsSafe-pure : (a : A) → IsSafe (pure {E = E} a)
  IsSafe-pure a = record { at = λ vm v. (tt, v) }

  pub IsSafe-raise : (e : E) → IsSafe (raise {A = A} e)
  IsSafe-raise e = record { at = λ vm v. (tt, v) }

  pub IsSafe-gets : (f : VmState → A) → IsSafe (gets {E = E} f)
  IsSafe-gets f = record { at = λ vm v. (tt, v) }

  pub IsSafe-ok_or : (o : Option A) (e : E) → IsSafe (lift (ok_or o e))
  IsSafe-ok_or none e = record { at = λ vm v. (tt, v) }
  IsSafe-ok_or (some a) e = record { at = λ vm v. (tt, v) }

  pub IsSafe-lift : (r : Outcome E A) → NoPanic r → IsSafe (lift r)
  IsSafe-lift r n = record { at = λ vm v. (n, v) }

  pub IsSafe-if :
      (b : Bool) (m n : Exec VmState E A) → IsSafe m → IsSafe n → IsSafe (if b then m else n)
  IsSafe-if true m n p q = p
  IsSafe-if false m n p q = q

module _ {E A B : Type 0} where
  continue-IsSafe :
      (r : Outcome E A) (f : A → Exec VmState E B) (vm : VmState)
      → NoPanic r
      → IsValid vm
      → ((a : A) → IsSafe (f a))
      → NoPanic (continue r f vm).0 × IsValid (continue r f vm).1
  continue-IsSafe (ok a) f vm n v h = (h a).at vm v
  continue-IsSafe (err e) f vm n v h = (tt, v)
  continue-IsSafe panic f vm n v h = elim n [ ]

  pub IsSafe-bind :
      (m : Exec VmState E A) (f : A → Exec VmState E B)
      → IsSafe m
      → ((a : A) → IsSafe (f a))
      → IsSafe (m >>= f)
  IsSafe-bind m f p h = record {
    at = λ vm v. let (n, v') = p.at vm v in continue-IsSafe (m vm).0 f (m vm).1 n v' h;
  }

pub IsSafe-then :
    {E B : Type 0} (m : Exec VmState E Unit) (k : Exec VmState E B)
    → IsSafe m
    → IsSafe k
    → IsSafe (m >> k)
IsSafe-then m k p q = IsSafe-bind m (λ _. k) p (λ _. q)

pub ruleset safe_rules =
    (IsSafe-pure, IsSafe-raise, IsSafe-gets, IsSafe-ok_or, IsSafe-if, IsSafe-bind, IsSafe-then)
