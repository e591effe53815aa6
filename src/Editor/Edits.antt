-- ===== src/Editor/Edits.antt =====
-- Sequences of edits and the patch set that the editor builds of them (aeon-vm/src/editor.rs).
use aeon_flow.Base.{
  ℕ, ◌≡◌, refl, sym, subst, Option, none, some, Option-cases, List, [], ◌∷◌, ◌++◌, arith, ltb,
  le_of_ltb, length, get_elem?, slice, length-splice, Bytes, le_bytes, Outcome, ok, ◌>>=◌, ok_or,
  bind-eq-ok, ok_or-eq-ok, Bool-cases, inl, inr,
}
use aeon_flow.Snapshot.{Snapshot}
use aeon_flow.Editor.{
  Patch, EditError, heap_not_available, checked_heap_end, read_heap_range, write_heap_range, apply,
  reverse, SnapshotEditor, new, push, set_reg, set_pc, set_call_stack_entry, set_heap_range,
  set_heap_byte, set_heap_u64, set_heap_top, build,
}
use aeon_flow.Editor.Undo.{
  Undoes, Round, Round-nil, Round-push, Undoes-reg, Undoes-pc, Undoes-call_stack, Undoes-heap,
  Undoes-heap_top, HasTop,
}

-- One call of the editor.
pub data Edit : Type 0 where
  reg_edit call_stack_edit : (index val : ℕ) → Edit
  pc_edit heap_top_edit : ℕ → Edit
  heap_byte_edit heap_u64_edit : (addr val : ℕ) → Edit
  heap_range_edit : (addr : ℕ) (bytes : Bytes) → Edit

abbrev pub edit : Edit → SnapshotEditor → Outcome EditError SnapshotEditor
edit (reg_edit index val) = set_reg index val
edit (call_stack_edit index val) = set_call_stack_entry index val
edit (pc_edit val) = set_pc val
edit (heap_top_edit val) = set_heap_top val
edit (heap_byte_edit addr val) = set_heap_byte addr val
edit (heap_u64_edit addr val) = set_heap_u64 addr val
edit (heap_range_edit addr bytes) = set_heap_range addr bytes

-- The calls in a row, up to the first that fails.
unfoldable pub edit_all : List Edit → SnapshotEditor → Outcome EditError SnapshotEditor
edit_all [] ed = ok ed
edit_all (e ∷ es) ed = do next ← edit e ed; edit_all es next

-- A call that succeeds pushes one patch, which leads to the new snapshot and back.
record Pushed (ed ed' : SnapshotEditor) : Type 0 where
  patch : Patch
  pushed : ed'.patches ≡ ed.patches ++ patch ∷ []
  undoes : Undoes patch ed.working ed'.working
  has_top : HasTop ed'.working.heap ed'.working.heap_top

abbrev edited : SnapshotEditor → Outcome EditError SnapshotEditor
edited ed = ok ed

module _ (ed : SnapshotEditor) (t : HasTop ed.working.heap ed.working.heap_top) where
  Pushed-by :
      (s : Snapshot) (p : Patch) {ed' : SnapshotEditor}
      → Undoes p ed.working s
      → HasTop s.heap s.heap_top
      → edited (push ed s p) ≡ ok ed'
      → Pushed ed ed'
  Pushed-by s p {ed'} u h e =
      let same : push ed s p ≡ ed' = cc e in
      subst (Pushed ed) same (record { patch = p; pushed = refl; undoes = u; has_top = h })

  set_reg-Pushed : (i v : ℕ) {ed' : SnapshotEditor} → set_reg i v ed ≡ ok ed' → Pushed ed ed'
  unfolding set_reg
  set_reg-Pushed i v e = elim (Option-cases (get_elem? ed.working.regs i)) [
    | inl n ↦ absurd (cc (rw n at e))
    | inr (old, g) ↦ Pushed-by _ _ (Undoes-reg ed.working i v g) t (rw g at e)
  ]

  set_call_stack_entry-Pushed :
      (i v : ℕ) {ed' : SnapshotEditor} → set_call_stack_entry i v ed ≡ ok ed' → Pushed ed ed'
  unfolding set_call_stack_entry
  set_call_stack_entry-Pushed i v e = elim (Option-cases (get_elem? ed.working.call_stack i)) [
    | inl n ↦ absurd (cc (rw n at e))
    | inr (old, g) ↦ Pushed-by _ _ (Undoes-call_stack ed.working i v g) t (rw g at e)
  ]

  HasTop-length :
      (heap heap' : Bytes) (top : Option ℕ)
      → length heap' ≡ length heap
      → HasTop (some heap) top
      → HasTop (some heap') top
  HasTop-length heap heap' none l h = tt
  HasTop-length heap heap' (some top) l h = omega arith

  set_heap_range-Pushed :
      (addr : ℕ) (bytes : Bytes) {ed' : SnapshotEditor}
      → set_heap_range addr bytes ed ≡ ok ed'
      → Pushed ed ed'
  unfolding set_heap_range read_heap_range write_heap_range
  set_heap_range-Pushed addr bytes e = elim (Option-cases ed.working.heap) [
    | inl n ↦ absurd (cc (rw n at e))
    | inr (heap, g) ↦
        let (old, a, e₁) = bind-eq-ok (read_heap_range heap addr (length bytes)) _ (rw g at e) in
        let (end, c, e₂) = bind-eq-ok (checked_heap_end heap addr (length bytes)) _ a in
        let is_slice : slice heap addr (length bytes) ≡ old = cc e₂ in
        Pushed-by _ _ (Undoes-heap ed.working addr bytes g c)
          (HasTop-length heap _ _ (length-splice heap addr bytes)
            (subst (λ h. HasTop h ed.working.heap_top) g t))
          (rw is_slice (rw c at e₁))
  ]

  set_heap_top-Pushed :
      (val : ℕ) {ed' : SnapshotEditor} → set_heap_top val ed ≡ ok ed' → Pushed ed ed'
  unfolding set_heap_top
  set_heap_top-Pushed val e =
      let (heap, o, e₁) = bind-eq-ok (ok_or ed.working.heap heap_not_available) _ e in
      let g = ok_or-eq-ok ed.working.heap heap_not_available o in
      elim (Bool-cases (ltb (length heap) val)) [
        | inl l ↦ absurd (cc (rw l at e₁))
        | inr l ↦
            let h : HasTop ed.working.heap (some val) =
              subst (λ h. HasTop h (some val)) (sym g) (le_of_ltb (length heap) val l) in
            Pushed-by _ _ (Undoes-heap_top ed.working (some val) t h) h (rw l at e₁)
      ]

  edit-Pushed : (x : Edit) {ed' : SnapshotEditor} → edit x ed ≡ ok ed' → Pushed ed ed'
  unfolding set_pc set_heap_byte set_heap_u64
  edit-Pushed (reg_edit i v) e = set_reg-Pushed i v e
  edit-Pushed (call_stack_edit i v) e = set_call_stack_entry-Pushed i v e
  edit-Pushed (pc_edit v) e = Pushed-by _ _ (Undoes-pc ed.working v) t e
  edit-Pushed (heap_top_edit v) e = set_heap_top-Pushed v e
  edit-Pushed (heap_byte_edit addr v) e = set_heap_range-Pushed addr (v ∷ []) e
  edit-Pushed (heap_u64_edit addr v) e = set_heap_range-Pushed addr (le_bytes 8 v) e
  edit-Pushed (heap_range_edit addr bytes) e = set_heap_range-Pushed addr bytes e

edit_all-Round :
    (base : Snapshot) (es : List Edit) (ed : SnapshotEditor) {ed' : SnapshotEditor}
    → HasTop ed.working.heap ed.working.heap_top
    → Round base ed.working ed.patches
    → edit_all es ed ≡ ok ed'
    → Round base ed'.working ed'.patches
unfolding edit_all
edit_all-Round base [] ed {ed'} t r e =
    let same : ed ≡ ed' = cc e in subst (λ x. Round base x.working x.patches) same r
edit_all-Round base (x ∷ es) ed t r e =
    let (mid, a, b) = bind-eq-ok (edit x ed) (edit_all es) e in
    let p = edit-Pushed ed t x a in
    edit_all-Round base es mid p.has_top
      (subst (Round base mid.working) (sym p.pushed)
        (Round-push base ed.working mid.working ed.patches p.patch r p.undoes))
      b

-- For a snapshot whose `heap_top` is within its heap and any sequence of calls of the editor that
-- succeeds: the patch set it builds, applied to the snapshot, gives the snapshot edited, and its
-- reverse, applied to that, gives the first snapshot back.
pub apply-build :
    (snap : Snapshot) (description : Bytes) (es : List Edit) {ed : SnapshotEditor}
    → HasTop snap.heap snap.heap_top
    → edit_all es (new snap description) ≡ ok ed
    → (apply (build ed) snap ≡ ok ed.working) × (apply (reverse (build ed)) ed.working ≡ ok snap)
unfolding new build reverse
apply-build snap description es t e =
    let r = edit_all-Round snap es (new snap description) t (Round-nil snap) e in (r.there, r.back)
