-- ===== src/Machine/Parts.antt =====
-- Registers, memory and the file system under the machine (aeon-vm/src/vm.rs): each access keeps the
-- invariant and does not panic.
use aeon_flow.Base.{
  ℕ, ◌+◌, ◌<◌, ◌≡◌, ◌∙◌, inl, inr, Bool, arith, leb, length, lt→ltb, leb→le, get_elem?-lt,
  length-set, length-replicate, Bool-cases, Bytes, Outcome, ok, err, panic, map_err, map_ok,
}
use aeon_flow.Heap
use aeon_flow.Heap.Flat
use aeon_flow.Heap.{CowHeap}
use aeon_flow.Heap.Ops.{read-refines, write-ok, write-err}
use aeon_flow.Heap.Ranges.{read-eq-slice, check_range-err}
use aeon_flow.Heap.Dirty.{new-IsValid}
use aeon_flow.Vfs
use aeon_flow.Vfs.Slots
use aeon_flow.Vfs.Slots.{default-IsValid}
use aeon_flow.Vfs.Invariant.{
  file_read-IsValid, file_write-IsValid, file_close-IsValid, file_open-IsValid,
}
use aeon_flow.Machine.{
  VmState, VmError, memory_out_of_bounds, pure, modify, ◌>>◌, continue, new, reg, set_reg, next_pc,
  reg_usize, checked_heap_addr, checked_heap_range, heap_write, with_fs, default_heap_size,
}
use aeon_flow.Machine.Safe.{
  IsValid, NoPanic, IsSafe, safe_rules, IsSafe-bind, IsSafe-ok_or, IsSafe-if, IsSafe-lift,
  IsSafe-raise, IsSafe-then,
}

-- A new machine is valid.
pub new-IsValid_vm : (id : Bytes) → IsValid (new id)
unfolding new
new-IsValid_vm id = record {
  regs_256 = length-replicate {A = ℕ} 256 0;
  heap_ok = new-IsValid default_heap_size (omega arith);
  top_within = omega arith;
  fs_ok = default-IsValid;
}

pub reg-IsSafe : (r : ℕ) → r < 256 → IsSafe (reg r)
unfolding reg
reg-IsSafe r l = record {
  at = λ vm v. let (x, e) = get_elem?-lt vm.regs r (omega (arith, v.regs_256)) in rw e (tt, v);
}

pub set_reg-IsSafe : (r x : ℕ) → r < 256 → IsSafe (set_reg r x)
unfolding set_reg
set_reg-IsSafe r x l = record {
  at = λ vm v. rw (lt→ltb r (length vm.regs) (omega (arith, v.regs_256))) (
    tt,
    record {
      regs_256 = length-set vm.regs r x ∙ v.regs_256;
      heap_ok = v.heap_ok;
      top_within = v.top_within;
      fs_ok = v.fs_ok;
    },
  );
}

pub next_pc-IsSafe : IsSafe next_pc
unfolding next_pc
next_pc-IsSafe = record {
  at = λ vm v. (
    tt,
    record {
      regs_256 = v.regs_256;
      heap_ok = v.heap_ok;
      top_within = v.top_within;
      fs_ok = v.fs_ok;
    },
  );
}

pub ruleset base_rules = (safe_rules, reg-IsSafe, set_reg-IsSafe, next_pc-IsSafe)

pub reg_usize-IsSafe : (r : ℕ) → r < 256 → IsSafe (reg_usize r)
unfolding reg_usize
reg_usize-IsSafe r l = search base_rules

pub checked_heap_addr-IsSafe : (r : ℕ) → r < 256 → IsSafe (checked_heap_addr r)
unfolding checked_heap_addr
checked_heap_addr-IsSafe r l = search (base_rules, reg_usize-IsSafe)

pub read-NoPanic :
    (h : CowHeap) (a n : ℕ) (e : VmError)
    → Flat.IsValid h
    → NoPanic (map_err (λ _. e) (Heap.read h a n))
read-NoPanic h a n e v = elim (Bool-cases (leb (a + n) h.len)) [
  | inl t ↦ rw (read-eq-slice h a n v (leb→le _ _ t)) tt
  | inr t ↦ let (x, q) = check_range-err h a n (ground arith) in rw (read-refines h a n v, q) tt
]

pub checked_heap_range-IsSafe : (a n : ℕ) → IsSafe (checked_heap_range a n)
unfolding checked_heap_range
checked_heap_range-IsSafe a n = record {
  at = λ vm v.
      (IsSafe-bind _ _ (IsSafe-ok_or (Heap.checked_add a n) (memory_out_of_bounds a vm.heap.len))
          λ end.
            IsSafe-if (leb end vm.heap.len) _ _
              (IsSafe-lift _
                (read-NoPanic vm.heap a n (memory_out_of_bounds end vm.heap.len) v.heap_ok))
              (IsSafe-raise _)).at
        vm v;
}

-- What stands in the heap's or the file system's place after a call.
pub set_heap-IsValid :
    (vm : VmState) (h : CowHeap)
    → IsValid vm
    → Flat.IsValid h
    → h.len ≡ vm.heap.len
    → IsValid (record vm { heap = h })
set_heap-IsValid vm h v w e = record {
  regs_256 = v.regs_256;
  heap_ok = w;
  top_within = omega (arith, v.top_within);
  fs_ok = v.fs_ok;
}

pub set_fs-IsValid :
    (vm : VmState) (s : Vfs.VirtualFs)
    → IsValid vm
    → Slots.IsValid s
    → IsValid (record vm { vfs = s })
set_fs-IsValid vm s v w = record {
  regs_256 = v.regs_256;
  heap_ok = v.heap_ok;
  top_within = v.top_within;
  fs_ok = w;
}

pub heap_write-IsSafe : (a : ℕ) (bytes : Bytes) → IsSafe (heap_write a bytes)
unfolding heap_write
heap_write-IsSafe a bytes = record {
  at = λ vm v. elim (Bool-cases (leb (a + length bytes) vm.heap.len)) [
    | inl t ↦
        let (h, e, w, _, n) = write-ok vm.heap a bytes v.heap_ok (leb→le _ _ t) in
        rw e (tt, set_heap-IsValid vm h v w n)
    | inr t ↦ let (x, e) = write-err vm.heap a bytes (ground arith) in rw e (tt, v)
  ];
}

-- A file system call that fails or keeps the file system valid.
abbrev pub KeepsFs : {A : Type 0} → Outcome Vfs.FsError (A × Vfs.VirtualFs) → Type 0
KeepsFs (ok r) = Slots.IsValid r.1
KeepsFs (err e) = Unit
KeepsFs panic = ⊥

pub with_fs_at :
    {A : Type 0} (r : Outcome Vfs.FsError (A × Vfs.VirtualFs))
    → KeepsFs r
    → (vm : VmState) → IsValid vm
    → NoPanic
        (continue
          (map_err (λ e. VmError.fs e) r)
          (λ x. modify (λ s. record s { vfs = x.1 }) >> pure x.0)
          vm).0
      × IsValid
          (continue
            (map_err (λ e. VmError.fs e) r)
            (λ x. modify (λ s. record s { vfs = x.1 }) >> pure x.0)
            vm).1
with_fs_at (ok r) k vm v = (tt, set_fs-IsValid vm r.1 v k)
with_fs_at (err e) k vm v = (tt, v)
with_fs_at panic k vm v = elim k [ ]

pub with_fs-IsSafe :
    {A : Type 0} (f : Vfs.VirtualFs → Outcome Vfs.FsError (A × Vfs.VirtualFs))
    → ((s : Vfs.VirtualFs) → Slots.IsValid s → KeepsFs (f s))
    → IsSafe (with_fs f)
unfolding with_fs
with_fs-IsSafe f h = record { at = λ vm v. with_fs_at (f vm.vfs) (h vm.vfs v.fs_ok) vm v }

pub file_open-KeepsFs :
    (path : Bytes) (w : Bool) (s : Vfs.VirtualFs)
    → Slots.IsValid s
    → KeepsFs (Vfs.file_open path w s)
file_open-KeepsFs path w s v = elim (file_open-IsValid path w s v) [
  | inl (_, _, e) ↦ rw e tt
  | inr r ↦ rw r.2 r.3
]

pub file_read-KeepsFs :
    (fd count : ℕ) (s : Vfs.VirtualFs) → Slots.IsValid s → KeepsFs (Vfs.file_read fd count s)
file_read-KeepsFs fd count s v = elim (file_read-IsValid fd count s v) [
  | inl (_, e) ↦ rw e tt
  | inr (_, _, _, _, _, _, e, _, _, v') ↦ rw e v'
]

pub file_write-KeepsFs :
    (fd : ℕ) (bytes : Bytes) (s : Vfs.VirtualFs)
    → Slots.IsValid s
    → KeepsFs (Vfs.file_write fd bytes s)
file_write-KeepsFs fd bytes s v = elim (file_write-IsValid fd bytes s v) [
  | inl e ↦ rw e tt
  | inr r ↦ elim r [ inl e ↦ rw e tt | inr q ↦ rw q.1 q.2 ]
]

pub file_close-KeepsFs :
    (fd : ℕ) (s : Vfs.VirtualFs)
    → Slots.IsValid s
    → KeepsFs (map_ok (λ s'. (tt {0}, s')) (Vfs.file_close fd s))
file_close-KeepsFs fd s v = elim (file_close-IsValid fd s v) [
  | inl e ↦ rw e tt
  | inr r ↦ rw r.1 r.2
]
