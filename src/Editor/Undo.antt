-- ===== src/Editor/Undo.antt =====
-- Patches applied in order and undone in reverse (aeon-vm/src/editor.rs).
use aeon_flow.Base.{
  ℕ, ◌+◌, ◌≤◌, ◌≡◌, refl, ap, sym, ◌∙◌, Option, none, some, List, [], ◌∷◌, ◌++◌, arith, ltb-false,
  length, get_elem?, set, set-set_back, get_elem?-set_self, lt_of_get_elem?, slice, splice,
  length-splice, length-slice, splice-slice_back, Bytes, ok, ◌>>=◌, bind-eq-ok,
}
use aeon_flow.Heap.{checked_add}
use aeon_flow.Snapshot.{Snapshot}
use aeon_flow.Editor.{
  Patch, PatchSet, reg, pc_patch, call_stack_entry, heap_range, heap_top_patch, checked_heap_end,
  write_heap_range, set_slot, check_heap_top, apply_one, apply_all, invert, reverse_all, reverse,
}

invert-invert : (p : Patch) → invert (invert p) ≡ p
invert-invert (reg index old new) = refl
invert-invert (pc_patch old new) = refl
invert-invert (call_stack_entry index old new) = refl
invert-invert (heap_range addr old new) = refl
invert-invert (heap_top_patch old new) = refl

pub reverse_all-append :
    (ps : List Patch) (p : Patch) → reverse_all (ps ++ p ∷ []) ≡ invert p ∷ reverse_all ps
unfolding reverse_all
reverse_all-append [] p = refl
reverse_all-append (q ∷ ps) p = ap (λ t. t ++ invert q ∷ []) (reverse_all-append ps p)

reverse_all-reverse_all : (ps : List Patch) → reverse_all (reverse_all ps) ≡ ps
unfolding reverse_all
reverse_all-reverse_all [] = refl
reverse_all-reverse_all (p ∷ ps) =
    rw (reverse_all-append (reverse_all ps) (invert p), invert-invert, reverse_all-reverse_all ps)

-- The undo of an undo has the patches of the first.
pub reverse-reverse : (ps : PatchSet) → (reverse (reverse ps)).patches ≡ ps.patches
unfolding reverse
reverse-reverse ps = reverse_all-reverse_all ps.patches

pub apply_all-append :
    (ps qs : List Patch) (s : Snapshot) {t : Snapshot}
    → apply_all ps s ≡ ok t
    → apply_all (ps ++ qs) s ≡ apply_all qs t
unfolding apply_all
apply_all-append [] qs s e = ap (λ r. r >>= apply_all qs) e
apply_all-append (p ∷ ps) qs s e =
    let (u, a, b) = bind-eq-ok (apply_one p s) (apply_all ps) e in rw a (apply_all-append ps qs u b)

-- `p` leads from `s` to `t`, and its inverse back.
pub record Undoes (p : Patch) (s t : Snapshot) : Type 0 where
  pub there : apply_one p s ≡ ok t
  pub back : apply_one (invert p) t ≡ ok s

-- The patches lead from `s` to `t`, and in reverse back.
pub record Round (s t : Snapshot) (ps : List Patch) : Type 0 where
  pub there : apply_all ps s ≡ ok t
  pub back : apply_all (reverse_all ps) t ≡ ok s

pub Round-nil : (s : Snapshot) → Round s s []
unfolding apply_all reverse_all
Round-nil s = record { there = refl; back = refl }

pub Round-push :
    (s t u : Snapshot) (ps : List Patch) (p : Patch)
    → Round s t ps
    → Undoes p t u
    → Round s u (ps ++ p ∷ [])
unfolding apply_all
Round-push s t u ps p r d = record {
  there = apply_all-append ps (p ∷ []) s r.there ∙ rw d.there;
  back = rw (reverse_all-append ps p, d.back) r.back;
}

pub Undoes-reg :
    (s : Snapshot) (i v : ℕ) {old : ℕ}
    → get_elem? s.regs i ≡ some old
    → Undoes (reg i old v) s (record s { regs = set s.regs i v })
unfolding apply_one set_slot
Undoes-reg s i v {old} e = record {
  there = rw e;
  back = rw (get_elem?-set_self s.regs i v (lt_of_get_elem? s.regs i e), set-set_back s.regs i v e);
}

pub Undoes-pc : (s : Snapshot) (v : ℕ) → Undoes (pc_patch s.pc v) s (record s { pc = v })
unfolding apply_one
Undoes-pc s v = record { there = refl; back = refl }

pub Undoes-call_stack :
    (s : Snapshot) (i v : ℕ) {old : ℕ}
    → get_elem? s.call_stack i ≡ some old
    → Undoes (call_stack_entry i old v) s (record s { call_stack = set s.call_stack i v })
unfolding apply_one set_slot
Undoes-call_stack s i v e = record {
  there = rw e;
  back = rw (
    get_elem?-set_self s.call_stack i v (lt_of_get_elem? s.call_stack i e),
    set-set_back s.call_stack i v e,
  );
}

-- A range that `checked_heap_end` accepts is a range of the heap.
pub checked_heap_end-ok :
    (heap : Bytes) (addr len : ℕ) {end : ℕ}
    → checked_heap_end heap addr len ≡ ok end
    → addr + len ≤ length heap
unfolding checked_heap_end checked_add
checked_heap_end-ok heap addr len e = ground arith

checked_heap_end_any :
    (heap heap' : Bytes) (addr len len' : ℕ) {end : ℕ}
    → length heap ≡ length heap'
    → len ≡ len'
    → checked_heap_end heap addr len ≡ ok end
    → checked_heap_end heap' addr len' ≡ ok end
unfolding checked_heap_end
checked_heap_end_any heap heap' addr len len' e f h = rw (← e, ← f) h

pub Undoes-heap :
    (s : Snapshot) (addr : ℕ) (bytes : Bytes) {heap : Bytes} {end : ℕ}
    → s.heap ≡ some heap
    → checked_heap_end heap addr (length bytes) ≡ ok end
    → Undoes
        (heap_range addr (slice heap addr (length bytes)) bytes)
        s
        (record s { heap = some (splice heap addr bytes) })
unfolding apply_one write_heap_range
Undoes-heap s addr bytes {heap} {end} e c =
    let l = checked_heap_end-ok heap addr (length bytes) c in
    let same : checked_heap_end (splice heap addr bytes) addr
          (length (slice heap addr (length bytes)))
        ≡ ok end =
      checked_heap_end_any heap _ addr _ _ (sym (length-splice heap addr bytes))
        (sym (length-slice heap addr (length bytes) l)) c in
    record { there = rw (e, c); back = rw (same, splice-slice_back heap addr bytes l, e) }

-- A heap and a `heap_top` that it has room for, where there are both.
abbrev pub HasTop : Option Bytes → Option ℕ → Type 0
HasTop (some heap) (some top) = top ≤ length heap
HasTop _ _ = Unit

check_heap_top-ok : (h : Option Bytes) (t : Option ℕ) → HasTop h t → check_heap_top h t ≡ ok tt
unfolding check_heap_top
check_heap_top-ok (some heap) (some top) l = rw (ltb-false (length heap) top l)
check_heap_top-ok none (some top) l = refl
check_heap_top-ok (some heap) none l = refl
check_heap_top-ok none none l = refl

pub Undoes-heap_top :
    (s : Snapshot) (new : Option ℕ)
    → HasTop s.heap s.heap_top
    → HasTop s.heap new
    → Undoes (heap_top_patch s.heap_top new) s (record s { heap_top = new })
unfolding apply_one
Undoes-heap_top s new l m = record {
  there = rw (check_heap_top-ok s.heap new m);
  back = rw (check_heap_top-ok s.heap s.heap_top l);
}
