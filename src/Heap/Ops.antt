-- ===== src/Heap/Ops.antt =====
-- Reading and writing a heap (aeon-vm/src/cowheap.rs) are reading and writing its flat bytes.
use aeon_flow.Base.{
  ℕ, zero, suc, ◌+◌, ◌-◌, ◌*◌, ◌/◌, ◌%◌, ◌≤◌, ◌<◌, ◌≡◌, refl, subst, ap, ◌∙◌, ◌⊎◌, inl, inr, [],
  ◌∷◌, arith, ltb, leb, ltb→lt, leb→le, le→leb, Bool-cases, length, get_elem?-lt, set, drop, slice,
  splice, length-set, length-splice, length-slice, splice_split, slice-splice, slice-splice_apart,
  drop_split, drop_all, splice_none, Bytes, ok, err, ◌>>=◌,
}
use aeon_flow.Heap.{
  page_size, CowHeap, HeapError, insert_index, check_range, get, write_page, set_byte, chunk, read,
  write_loop, write,
}
use aeon_flow.Heap.Flat.{
  IsValid, flat, Fixed-get_elem?, Fixed-set, length-concat, slice-concat, splice-concat,
}
use aeon_flow.Heap.Ranges.{check_range-ok, check_range-err, slice_one, read-eq-slice}

pub get-ok :
    (h : CowHeap) (a : ℕ)
    → IsValid h
    → a < h.len
    → (b : ℕ) × (get h a ≡ ok b) × (slice (flat h) a 1 ≡ b ∷ [])
unfolding get
get-ok h a v l =
    let (p, e) = get_elem?-lt h.pages (a / page_size) (omega (arith, v.count)) in
    let lp = Fixed-get_elem? h.pages (a / page_size) v.fixed e in
    let (b, eb) = get_elem?-lt p (a % page_size) (omega arith) in
    (
      b,
      rw (check_range-ok h a 1 v (omega arith), e) (rw eb),
      slice-concat h.pages (a / page_size) a (a % page_size) 1 v.fixed e (omega arith) (omega arith)
          ∙ slice_one p (a % page_size) eb,
    )

-- A page written in place.
write_page-ok :
    (h : CowHeap) (c : ℕ) (part : Bytes)
    → IsValid h
    → c < length h.pages * page_size
    → c % page_size + length part ≤ page_size
    → (h' : CowHeap) × (write_page h (c / page_size) (c % page_size) part ≡ ok h')
      × IsValid h'
      × (flat h' ≡ splice (flat h) c part)
      × (h'.len ≡ h.len)
unfolding write_page
write_page-ok h c part v l m =
    let i = c / page_size in
    let o = c % page_size in
    let (p, e) = get_elem?-lt h.pages i (omega arith) in
    let lp = Fixed-get_elem? h.pages i v.fixed e in
    (
      record h { pages = set h.pages i (splice p o part); dirty = insert_index i h.dirty },
      rw (e, le→leb (o + length part) (length p) (omega arith)),
      record {
        fixed = Fixed-set h.pages i (splice p o part) v.fixed (length-splice p o part ∙ lp);
        count = length-set h.pages i (splice p o part) ∙ v.count;
        small = v.small;
      },
      splice-concat h.pages i c o part v.fixed e (omega arith) m,
      refl,
    )

write_loop-ok :
    (fuel : ℕ) (h : CowHeap) (a : ℕ) (bs : Bytes) (w : ℕ)
    → IsValid h
    → a + length bs ≤ h.len
    → w ≤ length bs
    → length bs - w < fuel
    → (h' : CowHeap) × (write_loop fuel h a bs w ≡ ok h')
      × IsValid h'
      × (flat h' ≡ splice (flat h) (a + w) (drop w bs))
      × (h'.len ≡ h.len)
unfolding write_loop
write_loop-ok zero h a bs w v e l m = elim m [ ]
write_loop-ok (suc fuel) h a bs w v e l m = elim (Bool-cases (ltb w (length bs))) [
  | inl t ↦
      let lt : w < length bs = ltb→lt w (length bs) t in
      let k = chunk (a + w) (length bs - w) in
      let lk : length (slice bs w k) ≡ k = length-slice bs w k (omega arith) in
      let (h₁, e₁, v₁, f₁, n₁) =
        write_page-ok h (a + w) (slice bs w k) v (omega (arith, v.count)) (omega arith) in
      let (h₂, e₂, v₂, f₂, n₂) =
        write_loop-ok fuel h₁ a bs (w + k) v₁ (omega arith) (omega arith) (omega arith) in
      (
        h₂,
        rw (t, e₁) e₂,
        v₂,
        f₂
            ∙ ap (λ x. splice x (a + (w + k)) (drop (w + k) bs)) f₁
            ∙ splice_split (flat h) (a + w) (a + (w + k)) (slice bs w k) (drop (w + k) bs)
                (omega arith)
            ∙ ap (splice (flat h) (a + w)) (drop_split bs w k),
        n₂ ∙ n₁,
      )
  | inr t ↦
      let z : length bs ≤ w = ground arith in (h, rw t, v, rw (drop_all bs w z, splice_none), refl)
]

-- A write inside the heap succeeds and splices its bytes in.
pub write-ok :
    (h : CowHeap) (a : ℕ) (bs : Bytes)
    → IsValid h
    → a + length bs ≤ h.len
    → (h' : CowHeap) × (write h a bs ≡ ok h')
      × IsValid h'
      × (flat h' ≡ splice (flat h) a bs)
      × (h'.len ≡ h.len)
unfolding write
write-ok h a bs v e =
    let (h', e', v', f', n') =
      write_loop-ok (suc (length bs)) h a bs 0 v e (omega arith) (omega arith) in
    let z : a + 0 ≡ a = omega arith in
    (h', rw (check_range-ok h a (length bs) v e) e', v', rw z at f', n')

-- So does the write of one byte.
pub set_byte-ok :
    (h : CowHeap) (a b : ℕ)
    → IsValid h
    → a < h.len
    → (h' : CowHeap) × (set_byte h a b ≡ ok h')
      × IsValid h'
      × (flat h' ≡ splice (flat h) a (b ∷ []))
      × (h'.len ≡ h.len)
unfolding set_byte
set_byte-ok h a b v l =
    let (h', e', v', f', n') =
      write_page-ok h a (b ∷ []) v (omega (arith, v.count)) (omega arith) in
    (h', rw (check_range-ok h a 1 v (omega arith)) e', v', f', n')

pub set_byte-err :
    (h : CowHeap) (a b : ℕ) {x : HeapError} → check_range h a 1 ≡ err x → set_byte h a b ≡ err x
unfolding set_byte
set_byte-err h a b e = rw e

pub write-err :
    (h : CowHeap) (a : ℕ) (bs : Bytes)
    → h.len < a + length bs
    → (x : HeapError) × (write h a bs ≡ err x)
unfolding write
write-err h a bs l = let (x, e) = check_range-err h a (length bs) l in (x, rw e)

-- A write that succeeded was inside the heap.
pub write-inside :
    (h : CowHeap) (a : ℕ) (bs : Bytes) {h' : CowHeap} → write h a bs ≡ ok h' → a + length bs ≤ h.len
write-inside h a bs e = elim (Bool-cases (ltb h.len (a + length bs))) [
  | inl t ↦ let (x, e') = write-err h a bs (ltb→lt h.len (a + length bs) t) in absurd (cc (e, e'))
  | inr t ↦ ground arith
]

pub write-parts :
    (h : CowHeap) (a : ℕ) (bs : Bytes) {h' : CowHeap}
    → IsValid h
    → write h a bs ≡ ok h'
    → IsValid h' × (flat h' ≡ splice (flat h) a bs) × (h'.len ≡ h.len)
write-parts h a bs {h'} v e =
    let (h₁, e₁, v₁, f₁, n₁) = write-ok h a bs v (write-inside h a bs e) in
    let p : h₁ ≡ h' = cc (e, e₁) in
    subst (λ x. IsValid x × (flat x ≡ splice (flat h) a bs) × (x.len ≡ h.len)) p (v₁, f₁, n₁)

-- The length is within the flat bytes.
pub len-le-length-flat : (h : CowHeap) → IsValid h → h.len ≤ length (flat h)
len-le-length-flat h v = omega (arith, length-concat h.pages v.fixed, v.count)

-- In a valid heap `read` checks its range and then returns that range of the flat bytes; a range
-- past the end, or one whose end is no `usize`, is an error, and nothing panics.
pub read-refines :
    (h : CowHeap) (a n : ℕ)
    → IsValid h
    → read h a n ≡ (check_range h a n >>= λ _. ok (slice (flat h) a n))
read-refines h a n v = elim (Bool-cases (leb (a + n) h.len)) [
  | inl t ↦ let l = leb→le (a + n) h.len t in rw (read-eq-slice h a n v l, check_range-ok h a n v l)
  | inr t ↦ let (x, e) = check_range-err h a n (ground arith) in rw e (unfold read in rw e)
]

-- In a valid heap a successful write reads back: the range that was written holds the bytes that
-- were written, and every range apart from it holds what it held before.
pub read-write :
    (h : CowHeap) (a : ℕ) (bs : Bytes) {h' : CowHeap}
    → IsValid h
    → write h a bs ≡ ok h'
    → (read h' a (length bs) ≡ ok bs)
      × ((c n : ℕ) → (c + n ≤ a) ⊎ (a + length bs ≤ c) → read h' c n ≡ read h c n)
read-write h a bs {h'} v e =
    let (v', f', n') = write-parts h a bs v e in
    let l = write-inside h a bs e in
    (
      read-eq-slice h' a (length bs) v' (omega arith)
          ∙ rw f' (ap ok (slice-splice (flat h) a bs (omega (arith, len-le-length-flat h v)))),
      λ c n apart.
          rw
            (
              read-refines h' c n v',
              read-refines h c n v,
              f',
              slice-splice_apart (flat h) a bs c n apart,
            )
            (unfold check_range in rw n'),
    )
