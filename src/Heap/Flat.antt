-- ===== src/Heap/Flat.antt =====
-- The abstract view of a heap (aeon-vm/src/cowheap.rs): its pages as one string of bytes.
use aeon_flow.Base.{
  ℕ, zero, suc, ◌+◌, ◌-◌, ◌*◌, ◌/◌, ◌^◌, ◌≤◌, ◌<◌, ◌≡◌, refl, ap, some, List, [], ◌∷◌, ◌++◌, arith,
  length, get_elem?, set, slice, splice, replicate, length-append, take-drop-append,
  drop-append_past, splice-append, splice-append_past, Bytes,
}
use aeon_flow.Heap.{page_size, CowHeap}

abbrev pub Fixed : List Bytes → Type 0
Fixed [] = Unit
Fixed (p ∷ ps) = (length p ≡ page_size) × Fixed ps

-- Every page is whole, the pages are as many as the length asks for, and the length is a `usize`.
pub record IsValid (h : CowHeap) : Type 0 where
  pub fixed : Fixed h.pages
  pub count : length h.pages ≡ (h.len + (page_size - 1)) / page_size
  pub small : h.len < 2 ^ 64

abbrev pub concat : List Bytes → Bytes
concat [] = []
concat (p ∷ ps) = p ++ concat ps

-- The bytes of a heap, its tail behind the length included.
abbrev pub flat : CowHeap → Bytes
flat h = concat h.pages

pub Fixed-get_elem? :
    (ps : List Bytes) (i : ℕ) {p : Bytes}
    → Fixed ps
    → get_elem? ps i ≡ some p
    → length p ≡ page_size
Fixed-get_elem? [] i f e = cc
Fixed-get_elem? (q ∷ ps) zero f e = ground (arith, f.0)
Fixed-get_elem? (q ∷ ps) (suc i) f e = Fixed-get_elem? ps i f.1 e

pub Fixed-set :
    (ps : List Bytes) (i : ℕ) (p : Bytes) → Fixed ps → length p ≡ page_size → Fixed (set ps i p)
Fixed-set [] i p f e = tt
Fixed-set (q ∷ ps) zero p f e = (e, f.1)
Fixed-set (q ∷ ps) (suc i) p f e = (f.0, Fixed-set ps i p f.1 e)

pub Fixed-replicate : (n : ℕ) (p : Bytes) → length p ≡ page_size → Fixed (replicate n p)
unfolding replicate
Fixed-replicate zero p e = tt
Fixed-replicate (suc n) p e = (e, Fixed-replicate n p e)

pub length-concat : (ps : List Bytes) → Fixed ps → length (concat ps) ≡ length ps * page_size
length-concat [] f = omega arith
length-concat (p ∷ ps) f = omega (arith, length-append p (concat ps), f.0, length-concat ps f.1)

-- A range inside page `i` is a range of the whole.
pub slice-concat :
    (ps : List Bytes) (i c o n : ℕ) {p : Bytes}
    → Fixed ps
    → get_elem? ps i ≡ some p
    → c ≡ i * page_size + o
    → o + n ≤ page_size
    → slice (concat ps) c n ≡ slice p o n
slice-concat [] i c o n f e ec h = cc
slice-concat (q ∷ ps) zero c o n {p} f e ec h =
    let eo : c ≡ o = omega arith in
    let eq : q ≡ p = cc in rw (eo, ← eq) (take-drop-append q (concat ps) o n (omega (arith, f.0)))
slice-concat (q ∷ ps) (suc i) c o n f e ec h =
    rw (drop-append_past q (concat ps) c (i * page_size + o) (omega (arith, f.0)))
      (slice-concat ps i (i * page_size + o) o n f.1 e refl h)

pub splice-concat :
    (ps : List Bytes) (i c o : ℕ) (bs : Bytes) {p : Bytes}
    → Fixed ps
    → get_elem? ps i ≡ some p
    → c ≡ i * page_size + o
    → o + length bs ≤ page_size
    → concat (set ps i (splice p o bs)) ≡ splice (concat ps) c bs
splice-concat [] i c o bs f e ec h = cc
splice-concat (q ∷ ps) zero c o bs {p} f e ec h =
    let eo : c ≡ o = omega arith in
    let eq : q ≡ p = cc in rw (eo, ← eq, splice-append q (concat ps) bs o (omega (arith, f.0)))
splice-concat (q ∷ ps) (suc i) c o bs f e ec h =
    rw (splice-append_past q (concat ps) bs c (i * page_size + o) (omega (arith, f.0)))
      (ap (λ t. q ++ t) (splice-concat ps i (i * page_size + o) o bs f.1 e refl h))
