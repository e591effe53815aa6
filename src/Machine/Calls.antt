-- ===== src/Machine/Calls.antt =====
-- The system calls and `alloc` (aeon-vm/src/vm.rs) keep the invariant and do not panic.
use aeon_flow.Base.{
  ℕ, ◌<◌, ◌∙◌, inl, inr, arith, ltb, ◌==◌, not, length, lt→ltb, length-set, Bool-cases,
  Option-cases, is_utf8,
}
use aeon_flow.Heap
use aeon_flow.Heap.{CowHeap}
use aeon_flow.Machine.{
  unknown_syscall, set_reg, sys_open, sys_read, sys_write, sys_close, handle_syscall, do_alloc,
  try_usize,
}
use aeon_flow.Machine.Safe.{IsSafe, IsSafe-bind, IsSafe-if, IsSafe-raise, IsSafe-then}
use aeon_flow.Machine.Parts.{
  reg-IsSafe, set_reg-IsSafe, reg_usize-IsSafe, checked_heap_range-IsSafe, heap_write-IsSafe,
  with_fs-IsSafe, file_open-KeepsFs, file_read-KeepsFs, file_write-KeepsFs, file_close-KeepsFs,
}

sys_open-IsSafe : IsSafe sys_open
unfolding sys_open
sys_open-IsSafe = IsSafe-bind _ _ (reg_usize-IsSafe 1 (omega arith)) λ a.
    IsSafe-bind _ _ (reg_usize-IsSafe 2 (omega arith)) λ n.
      IsSafe-bind _ _ (reg-IsSafe 3 (omega arith)) λ mode.
        IsSafe-bind _ _ (checked_heap_range-IsSafe a n) λ path.
          IsSafe-if (is_utf8 path) _ _
            (IsSafe-bind _ _ (with_fs-IsSafe _ (file_open-KeepsFs path (not (mode == 0))))
              λ fd. set_reg-IsSafe 0 fd (omega arith))
            (IsSafe-raise _)

sys_read-IsSafe : IsSafe sys_read
unfolding sys_read
sys_read-IsSafe = IsSafe-bind _ _ (reg_usize-IsSafe 1 (omega arith)) λ fd.
    IsSafe-bind _ _ (reg_usize-IsSafe 2 (omega arith)) λ a.
      IsSafe-bind _ _ (reg_usize-IsSafe 3 (omega arith)) λ n.
        IsSafe-bind _ _ (checked_heap_range-IsSafe a n) λ _.
          IsSafe-bind _ _ (with_fs-IsSafe _ (file_read-KeepsFs fd n)) λ bytes.
            IsSafe-then _ _ (heap_write-IsSafe a bytes)
              (set_reg-IsSafe 0 (length bytes) (omega arith))

sys_write-IsSafe : IsSafe sys_write
unfolding sys_write
sys_write-IsSafe = IsSafe-bind _ _ (reg_usize-IsSafe 1 (omega arith)) λ fd.
    IsSafe-bind _ _ (reg_usize-IsSafe 2 (omega arith)) λ a.
      IsSafe-bind _ _ (reg_usize-IsSafe 3 (omega arith)) λ n.
        IsSafe-bind _ _ (checked_heap_range-IsSafe a n) λ bytes.
          IsSafe-bind _ _ (with_fs-IsSafe _ (file_write-KeepsFs fd bytes))
            λ k. set_reg-IsSafe 0 k (omega arith)

sys_close-IsSafe : IsSafe sys_close
unfolding sys_close
sys_close-IsSafe = IsSafe-bind _ _ (reg_usize-IsSafe 1 (omega arith)) λ fd.
    IsSafe-then _ _ (with_fs-IsSafe _ (file_close-KeepsFs fd)) (set_reg-IsSafe 0 0 (omega arith))

pub handle_syscall-IsSafe : (num : ℕ) → IsSafe (handle_syscall num)
unfolding handle_syscall
handle_syscall-IsSafe num = IsSafe-if (num == 0) _ _ sys_open-IsSafe (
    IsSafe-if (num == 1) _ _ sys_read-IsSafe (
      IsSafe-if (num == 2) _ _ sys_write-IsSafe
        (IsSafe-if (num == 3) _ _ sys_close-IsSafe (IsSafe-raise (unknown_syscall num)))))

pub do_alloc-IsSafe : (dst size : ℕ) → dst < 256 → size < 256 → IsSafe (do_alloc dst size)
unfolding do_alloc set_reg
do_alloc-IsSafe dst size l m = IsSafe-bind _ _ (reg-IsSafe size m) λ x. record {
  at = λ vm v. elim (Option-cases (try_usize x)) [
    | inl n ↦ rw n (tt, v)
    | inr (k, e) ↦ elim (Option-cases (Heap.checked_add vm.heap_top k)) [
      | inl n ↦ rw (e, n) (tt, v)
      | inr (top, f) ↦ elim (Bool-cases (ltb vm.heap.len top)) [
        | inl t ↦ rw (e, f, t) (tt, v)
        | inr t ↦
            rw (e, f, t, lt→ltb dst (length vm.regs) (omega (arith, v.regs_256)))
              (
                tt,
                record {
                  regs_256 = length-set vm.regs dst vm.heap_top ∙ v.regs_256;
                  heap_ok = v.heap_ok;
                  top_within = ground arith;
                  fs_ok = v.fs_ok;
                },
              )
      ]
    ]
  ];
}
