-- ===== src/Heap/Ranges.antt =====
-- Checked ranges of a heap and the read loop (aeon-vm/src/cowheap.rs).
use aeon_flow.Base.{
  ℕ, zero, suc, ◌+◌, ◌-◌, ◌*◌, ◌/◌, ◌%◌, ◌^◌, ◌≤◌, ◌<◌, ◌≡◌, sym, inl, inr, some, List, [], ◌∷◌,
  ◌++◌, arith, ltb, ltb→lt, leb-false, lt→ltb, le→leb, Bool-cases, append-nil, append_assoc, length,
  get_elem?, get_elem?-lt, slice, slice_split, Bytes, ok, err,
}
use aeon_flow.Heap.{
  page_size, CowHeap, HeapError, range_overflows, range_exceeds, check_range, read_page, chunk,
  read_loop, read,
}
use aeon_flow.Heap.Flat.{Fixed, IsValid, concat, flat, Fixed-get_elem?, slice-concat}

pub check_range-ok : (h : CowHeap) (a n : ℕ) → IsValid h → a + n ≤ h.len → check_range h a n ≡ ok tt
unfolding check_range
check_range-ok h a n v e =
    let s = v.small in rw (lt→ltb (a + n) (2 ^ 64) (omega arith), le→leb (a + n) h.len e)

pub check_range-err :
    (h : CowHeap) (a n : ℕ) → h.len < a + n → (x : HeapError) × (check_range h a n ≡ err x)
unfolding check_range
check_range-err h a n e = elim (Bool-cases (ltb (a + n) (2 ^ 64))) [
  | inl t ↦ (range_exceeds a (a + n) h.len, rw (t, leb-false (a + n) h.len e))
  | inr t ↦ (range_overflows a n, rw t)
]

-- Slices that follow one another join.
pub slice_one : (xs : Bytes) (i : ℕ) {b : ℕ} → get_elem? xs i ≡ some b → slice xs i 1 ≡ b ∷ []
slice_one [] i e = cc
slice_one (x ∷ xs) zero e = cc
slice_one (x ∷ xs) (suc i) e = slice_one xs i e

pub slice_join :
    (xs : Bytes) (c k n m : ℕ) → m ≡ k + n → slice xs c k ++ slice xs (c + k) n ≡ slice xs c m
slice_join xs c k n m e = rw e (sym (slice_split xs c k n))

pub read_round :
    (ps : List Bytes) (c k : ℕ)
    → Fixed ps
    → c < length ps * page_size
    → read_page ps (c / page_size) (c % page_size) (chunk c k)
      ≡ ok (slice (concat ps) c (chunk c k))
unfolding read_page
read_round ps c k f l =
    let (p, e) = get_elem?-lt ps (c / page_size) (omega arith) in
    rw (
      e,
      le→leb (c % page_size + chunk c k) (length p)
          (omega (arith, Fixed-get_elem? ps (c / page_size) f e)),
      slice-concat ps (c / page_size) c (c % page_size) (chunk c k) f e (omega arith) (omega arith),
    )

pub read_loop-eq :
    (fuel : ℕ) (ps : List Bytes) (c end : ℕ) (out : Bytes)
    → Fixed ps
    → end ≤ length ps * page_size
    → c ≤ end
    → end - c < fuel
    → read_loop fuel ps c end out ≡ ok (out ++ slice (concat ps) c (end - c))
unfolding read_loop
read_loop-eq zero ps c end out f h l m = elim m [ ]
read_loop-eq (suc fuel) ps c end out f h l m = elim (Bool-cases (ltb c end)) [
  | inl t ↦
      let k = chunk c (end - c) in
      let lt : c < end = ltb→lt c end t in
      rw (
        t,
        read_round ps c (end - c) f (omega arith),
        read_loop-eq fuel ps (c + k) end (out ++ slice (concat ps) c k) f h (omega arith)
            (omega arith),
        append_assoc,
        slice_join (concat ps) c k (end - (c + k)) (end - c) (omega arith),
      )
  | inr t ↦ let z : end - c ≡ 0 = ground arith in rw (t, z, append-nil)
]

pub read-eq-slice :
    (h : CowHeap) (a n : ℕ) → IsValid h → a + n ≤ h.len → read h a n ≡ ok (slice (flat h) a n)
unfolding read
read-eq-slice h a n v e =
    let z : a + n - a ≡ n = omega arith in
    rw (
      check_range-ok h a n v e,
      read_loop-eq (suc n) h.pages a (a + n) [] v.fixed (omega (arith, v.count)) (omega arith)
          (omega arith),
      z,
    )

-- `get` reads the one byte that `read` would.
