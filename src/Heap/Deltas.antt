-- ===== src/Heap/Deltas.antt =====
-- Dirty pages as a delta (aeon-vm/src/cowheap.rs): taken from one heap and applied to another.
use aeon_flow.Base.{
  ℕ, suc, ◌+◌, ◌-◌, ◌/◌, ◌<◌, ◌≡◌, refl, sym, ap, ◌∙◌, ◌⊎◌, inl, inr, true, List, [], ◌∷◌, ◌++◌,
  arith, lt→ltb, ==_refl, Bool-cases, if◌then◌else◌, length, get_elem?, get_elem?-lt, set, take,
  length-set, length-take, take-append, append_inj, get_elem?-set, Bytes, ok,
}
use aeon_flow.Heap.{
  page_size, CowHeap, HeapPageDelta, insert_index, has_index, to_vec, deltas_of, dirty_pages,
  apply_pages,
}
use aeon_flow.Heap.Flat.{Fixed, IsValid, concat, flat, Fixed-get_elem?, Fixed-set}
use aeon_flow.Heap.Dirty.{Tracks, to_vec-eq-take}

-- The first `n` bytes of the two, page by page.
abbrev SameUpTo : ℕ → List Bytes → List Bytes → Type 0
SameUpTo n [] [] = Unit
SameUpTo n (p ∷ ps) (q ∷ qs) = (take n p ≡ take n q) × SameUpTo (n - page_size) ps qs
SameUpTo n _ _ = ⊥

SameUpTo-concat :
    (n : ℕ) (ps qs : List Bytes)
    → Fixed ps
    → Fixed qs
    → SameUpTo n ps qs
    → take n (concat ps) ≡ take n (concat qs)
SameUpTo-concat n [] [] f g s = refl
SameUpTo-concat n [] (q ∷ qs) f g s = elim s [ ]
SameUpTo-concat n (p ∷ ps) [] f g s = elim s [ ]
SameUpTo-concat n (p ∷ ps) (q ∷ qs) f g s =
    rw (take-append n p (concat ps), take-append n q (concat qs), f.0, g.0, s.0)
      (ap (λ x. take n q ++ x) (SameUpTo-concat (n - page_size) ps qs f.1 g.1 s.1))

concat-SameUpTo :
    (n : ℕ) (ps qs : List Bytes)
    → Fixed ps
    → Fixed qs
    → length ps ≡ length qs
    → take n (concat ps) ≡ take n (concat qs)
    → SameUpTo n ps qs
concat-SameUpTo n [] [] f g l e = tt
concat-SameUpTo n [] (q ∷ qs) f g l e = absurd (omega arith)
concat-SameUpTo n (p ∷ ps) [] f g l e = absurd (omega arith)
concat-SameUpTo n (p ∷ ps) (q ∷ qs) f g l e =
    let e' : take n p ++ take (n - page_size) (concat ps)
        ≡ take n q ++ take (n - page_size) (concat qs) =
      rw (f.0, g.0) at (sym (take-append n p (concat ps)) ∙ e ∙ take-append n q (concat qs)) in
    let (a, b) =
      append_inj (take n p) (take n q) _ _
        (omega (arith, length-take n p, length-take n q, f.0, g.0)) e' in
    (a, concat-SameUpTo (n - page_size) ps qs f.1 g.1 (omega arith) b)

-- Pages taken from `hs` where marked, and else from `rs`, which agrees with what `hs` has there.
SameUpTo-patch :
    (n : ℕ) (ts hs rs bs : List Bytes)
    → length ts ≡ length hs
    → SameUpTo n rs bs
    → length rs ≡ length hs
    → ((i : ℕ)
        → (get_elem? ts i ≡ get_elem? hs i)
          ⊎ ((get_elem? ts i ≡ get_elem? rs i) × (get_elem? hs i ≡ get_elem? bs i)))
    → SameUpTo n ts hs
SameUpTo-patch n [] [] rs bs l s m c = tt
SameUpTo-patch n [] (h ∷ hs) rs bs l s m c = absurd (omega arith)
SameUpTo-patch n (t ∷ ts) [] rs bs l s m c = absurd (omega arith)
SameUpTo-patch n (t ∷ ts) (h ∷ hs) [] bs l s m c = absurd (omega arith)
SameUpTo-patch n (t ∷ ts) (h ∷ hs) (r ∷ rs) [] l s m c = elim s [ ]
SameUpTo-patch n (t ∷ ts) (h ∷ hs) (r ∷ rs) (b ∷ bs) l s m c = (
  elim (c 0) [
    | inl e ↦ let p : t ≡ h = cc e in rw p
    | inr e ↦ let p : t ≡ r = cc e.0 in let q : h ≡ b = cc e.1 in rw (p, q) s.0
  ],
  SameUpTo-patch (n - page_size) ts hs rs bs (omega arith) s.1 (omega arith) (λ i. c (suc i)),
)

-- The deltas of `pages` at indices within them apply to any heap with as many pages: the result has
-- the pages listed, and its own elsewhere.
apply_pages-deltas_of :
    (pages : List Bytes) (is : List ℕ) (r : CowHeap)
    → Fixed pages
    → Fixed r.pages
    → ((i : ℕ) → has_index i is ≡ true → i < length pages)
    → length r.pages ≡ length pages
    → (ds : List HeapPageDelta) × (r' : CowHeap) × (deltas_of pages is ≡ ok ds)
      × (apply_pages r ds ≡ ok r')
      × Fixed r'.pages
      × (length r'.pages ≡ length r.pages)
      × (r'.len ≡ r.len)
      × ((i : ℕ)
          → get_elem? r'.pages i
            ≡ (if has_index i is then get_elem? pages i else get_elem? r.pages i))
unfolding deltas_of apply_pages has_index
apply_pages-deltas_of pages [] r f g b l = ([], r, refl, refl, g, refl, refl, λ i. refl)
apply_pages-deltas_of pages (i ∷ is) r f g b l =
    let li : i < length pages = b i (ground (arith, ==_refl i)) in
    let (p, e) = get_elem?-lt pages i li in
    let lp = Fixed-get_elem? pages i f e in
    let r₁ : CowHeap = record r { pages = set r.pages i p; dirty = insert_index i r.dirty } in
    let (ds, r', e₁, e₂, f', l', n', at) =
      apply_pages-deltas_of pages is r₁ f (Fixed-set r.pages i p g lp) (λ j t. b j (ground arith))
        (length-set r.pages i p ∙ l) in
    (
      record { index = i; bytes = p } ∷ ds,
      r',
      rw (e, e₁),
      rw (lt→ltb i (length r.pages) (omega arith), lp) e₂,
      f',
      l' ∙ length-set r.pages i p,
      n',
      λ j. ground (arith, at j, get_elem?-set r.pages i j p (omega arith), e),
    )

-- Take a heap `h` whose marked pages cover all that differs from `base`, and a heap `r` with the
-- bytes of `base`. The dirty pages of `h`, applied to `r`, give a heap with the bytes of `h`; neither
-- step fails.
pub apply_pages-dirty_pages :
    (base h r : CowHeap)
    → IsValid base
    → IsValid h
    → IsValid r
    → Tracks base.pages h
    → h.len ≡ base.len
    → r.len ≡ base.len
    → to_vec r ≡ to_vec base
    → (ds : List HeapPageDelta) × (r' : CowHeap) × (dirty_pages h ≡ ok ds)
      × (apply_pages r ds ≡ ok r')
      × (to_vec r' ≡ to_vec h)
unfolding dirty_pages
apply_pages-dirty_pages base h r vb vh vr t nh nr e =
    let counts : length r.pages ≡ length h.pages = omega (arith, vr.count, vh.count) in
    let (ds, r', e₁, e₂, f', l', n', at) =
      apply_pages-deltas_of h.pages h.dirty r vh.fixed vr.fixed t.in_range counts in
    let v' : IsValid r' = record {
      fixed = f';
      count = l' ∙ vr.count ∙ ap (λ n. (n + (page_size - 1)) / page_size) (sym n');
      small = omega (arith, n', vr.small);
    } in
    let same : SameUpTo h.len r.pages base.pages =
      concat-SameUpTo h.len r.pages base.pages vr.fixed vb.fixed (counts ∙ t.same_count) (
        rw nh (
          ap (λ n. take n (flat r)) (sym nr)
          ∙ sym (to_vec-eq-take r vr)
          ∙ e
          ∙ to_vec-eq-take base vb)) in
    (
      ds,
      r',
      e₁,
      e₂,
      to_vec-eq-take r' v'
          ∙ ap (λ n. take n (flat r')) (n' ∙ nr ∙ sym nh)
          ∙ SameUpTo-concat h.len r'.pages h.pages f' vh.fixed (
              SameUpTo-patch h.len r'.pages h.pages r.pages base.pages (l' ∙ counts) same counts
                (λ i. elim (Bool-cases (has_index i h.dirty)) [
                  | inl m ↦ inl (at i ∙ rw m)
                  | inr m ↦ inr (at i ∙ rw m, t.clean i m)
                ]))
          ∙ sym (to_vec-eq-take h vh),
    )
