-- ===== src/Heap/Dirty.antt =====
-- Which pages a heap has written (aeon-vm/src/cowheap.rs), and its bytes as one vector.
use aeon_flow.Base.{
  ℕ, zero, suc, ◌-◌, ◌/◌, ◌%◌, ◌^◌, ◌<◌, ◌≡◌, refl, subst, ap, ◌∙◌, inl, inr, true, false, some,
  List, [], ◌∷◌, ◌++◌, arith, ltb, ◌==◌, ◌||◌, Bool-cases, append-nil, append_assoc, min, length,
  get_elem?, set, take, splice, length-set, length-append, length-take, take-append, take-min,
  take_nil, Option-cases, lt_of_get_elem?, slice-splice, length-replicate, get_elem?-set,
  bind-eq-ok, Bytes, ok,
}
use aeon_flow.Heap.{
  page_size, CowHeap, insert_index, has_index, new, check_range, write_page, set_byte, write_loop,
  write, to_vec_loop, to_vec, clear_dirty, from_bytes,
}
use aeon_flow.Heap.Flat.{Fixed, IsValid, concat, flat, Fixed-replicate}
use aeon_flow.Heap.Ops.{write-ok, len-le-length-flat}

first_page :
    (p rest : Bytes) (n : ℕ) (out : Bytes)
    → length p ≡ page_size
    → take (min (n - length out) page_size) p
        ++ take (n - length (out ++ take (min (n - length out) page_size) p)) rest
      ≡ take (n - length out) (p ++ rest)
first_page p rest n out e =
    let k = min (n - length out) page_size in
    let m : n - length (out ++ take k p) ≡ n - length out - length p =
      omega (arith, length-append out (take k p), length-take k p) in
    rw (m, take-append (n - length out) p rest, ← e, take-min)

to_vec_loop-eq :
    (ps : List Bytes) (n : ℕ) (out : Bytes)
    → Fixed ps
    → to_vec_loop ps n out ≡ out ++ take (n - length out) (concat ps)
unfolding to_vec_loop
to_vec_loop-eq [] n out f = rw (take_nil, append-nil)
to_vec_loop-eq (p ∷ ps) n out f = elim (Bool-cases (n - length out == 0)) [
  | inl t ↦ let z : n - length out ≡ 0 = ground arith in rw (t, z, append-nil)
  | inr t ↦
      let k = min (n - length out) page_size in
      rw (t, to_vec_loop-eq ps n (out ++ take k p) f.1, append_assoc)
        (ap (λ x. out ++ x) (first_page p (concat ps) n out f.0))
]

-- `to_vec` gives the bytes below the length.
pub to_vec-eq-take : (h : CowHeap) → IsValid h → to_vec h ≡ take h.len (flat h)
unfolding to_vec
to_vec-eq-take h v =
    let z : h.len - 0 ≡ h.len = omega arith in rw (to_vec_loop-eq h.pages h.len [] v.fixed, z)

pub new-IsValid : (n : ℕ) → n < 2 ^ 64 → IsValid (new n)
unfolding new
new-IsValid n l = record {
  fixed = Fixed-replicate _ _ (length-replicate page_size 0);
  count = length-replicate _ _;
  small = l;
}

new_len : (n : ℕ) → (new n).len ≡ n
unfolding new
new_len n = refl

-- A heap made from bytes shorter than 2 ^ 64 is valid, clean, and gives the same bytes back; the
-- `expect` in it does not panic.
pub from_bytes-to_vec :
    (bs : Bytes)
    → length bs < 2 ^ 64
    → (h : CowHeap) × (from_bytes bs ≡ ok h)
      × IsValid h
      × (to_vec h ≡ bs)
      × (h.dirty ≡ [])
      × (h.len ≡ length bs)
unfolding from_bytes clear_dirty
from_bytes-to_vec bs l =
    let (h, e, v, f, n) =
      write-ok (new (length bs)) 0 bs (new-IsValid (length bs) l)
        (omega (arith, new_len (length bs))) in
    let n' : h.len ≡ length bs = n ∙ new_len (length bs) in
    let v' : IsValid (clear_dirty h) = record {
      fixed = v.fixed;
      count = v.count;
      small = v.small;
    } in
    (
      clear_dirty h,
      rw (e, from_bytes),
      v',
      to_vec-eq-take (clear_dirty h) v'
          ∙ rw (n', f)
              (slice-splice (flat (new (length bs))) 0 bs (
                omega (
                  arith,
                  len-le-length-flat (new (length bs)) (new-IsValid (length bs) l),
                  new_len (length bs),
                ))),
      refl,
      n',
    )

-- `h` differs from `base` only in pages that it has marked, and marks only pages that it has.
pub record Tracks (base : List Bytes) (h : CowHeap) : Type 0 where
  pub same_count : length h.pages ≡ length base
  pub in_range : (i : ℕ) → has_index i h.dirty ≡ true → i < length h.pages
  pub clean : (i : ℕ) → has_index i h.dirty ≡ false → get_elem? h.pages i ≡ get_elem? base i

pub has_index-insert_index :
    (i j : ℕ) (ds : List ℕ) → has_index j (insert_index i ds) ≡ (j == i || has_index j ds)
unfolding has_index insert_index
has_index-insert_index i j [] = refl
has_index-insert_index i j (d ∷ ds) = ground (arith, has_index-insert_index i j ds)

pub Tracks-refl : (h : CowHeap) → h.dirty ≡ [] → Tracks h.pages h
unfolding has_index
Tracks-refl h e = record {
  same_count = refl;
  in_range = λ i t. cc (ap (has_index i) e);
  clean = λ i t. refl;
}

write_page-inv :
    (h : CowHeap) (i o : ℕ) (part : Bytes) {h' : CowHeap}
    → write_page h i o part ≡ ok h'
    → (p : Bytes) × (get_elem? h.pages i ≡ some p)
      × (h' ≡ record h { pages = set h.pages i (splice p o part); dirty = insert_index i h.dirty })
unfolding write_page
write_page-inv h i o part e = elim (Option-cases (get_elem? h.pages i)) [
  | inl n ↦ absurd (cc (rw n at e))
  | inr (p, s) ↦ (p, s, ground arith)
]

-- Replacing page `i` and marking it.
pub mark-Tracks :
    (base : List Bytes) (h : CowHeap) (i : ℕ) (p : Bytes)
    → i < length h.pages
    → Tracks base h
    → Tracks base (record h { pages = set h.pages i p; dirty = insert_index i h.dirty })
mark-Tracks base h i p l t = record {
  same_count = length-set h.pages i p ∙ t.same_count;
  in_range = λ j m.
      ground (arith, length-set h.pages i p, has_index-insert_index i j h.dirty, t.in_range j);
  clean = λ j m.
      ground (arith, get_elem?-set h.pages i j p l, has_index-insert_index i j h.dirty, t.clean j);
}

write_page-Tracks :
    (base : List Bytes) (h : CowHeap) (i o : ℕ) (part : Bytes) {h' : CowHeap}
    → Tracks base h
    → write_page h i o part ≡ ok h'
    → Tracks base h'
write_page-Tracks base h i o part t e =
    let (p, s, q) = write_page-inv h i o part e in
    rw q (mark-Tracks base h i (splice p o part) (lt_of_get_elem? h.pages i s) t)

write_loop-Tracks :
    (fuel : ℕ) (base : List Bytes) (h : CowHeap) (a : ℕ) (bs : Bytes) (w : ℕ) {h' : CowHeap}
    → Tracks base h
    → write_loop fuel h a bs w ≡ ok h'
    → Tracks base h'
unfolding write_loop
write_loop-Tracks zero base h a bs w t e = cc
write_loop-Tracks (suc fuel) base h a bs w {h'} t e = elim (Bool-cases (ltb w (length bs))) [
  | inl y ↦
      let (h₁, e₁, e₂) = bind-eq-ok (write_page h _ _ _) _ (rw y at e) in
      write_loop-Tracks fuel base h₁ a bs _ (write_page-Tracks base h _ _ _ t e₁) e₂
  | inr y ↦ let q : ok h ≡ ok h' = rw y at e in let p : h ≡ h' = cc q in subst (Tracks base) p t
]

-- A heap that has marked every page in which it differs from `base` has done so after a successful
-- write as well.
pub write-Tracks :
    (base : List Bytes) (h : CowHeap) (a : ℕ) (bs : Bytes) {h' : CowHeap}
    → Tracks base h
    → write h a bs ≡ ok h'
    → Tracks base h'
unfolding write
write-Tracks base h a bs t e =
    let (_, _, e') = bind-eq-ok (check_range h a (length bs)) _ e in
    write_loop-Tracks (suc (length bs)) base h a bs 0 t e'

pub set_byte-Tracks :
    (base : List Bytes) (h : CowHeap) (a b : ℕ) {h' : CowHeap}
    → Tracks base h
    → set_byte h a b ≡ ok h'
    → Tracks base h'
unfolding set_byte
set_byte-Tracks base h a b t e =
    let (_, _, e') = bind-eq-ok (check_range h a 1) _ e in
    write_page-Tracks base h (a / page_size) (a % page_size) (b ∷ []) t e'
