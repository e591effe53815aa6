-- ===== src/Forth/Stack.antt =====
-- The data stack (aeon-vm/src/forth.rs): a list of values, kept in the heap of the machine below the
-- pointer in register 200.
use aeon_flow.Base.{
  ℕ, ◌+◌, ◌-◌, ◌*◌, ◌/◌, ◌^◌, ◌<◌, ◌≤◌, ◌≡◌, ap, ◌∙◌, subst, min, inl, true, false, ◌||◌, some,
  List, [], ◌∷◌, arith, ltb, leb, lt→ltb, length, get_elem?, get_elem?-set_self, lt_of_get_elem?,
  set, slice, slice-splice, slice-splice_apart, splice, Bytes, le_bytes, le_value,
  le_value-le_bytes, length-le_bytes, ok, err,
}
use aeon_flow.Heap
use aeon_flow.Heap.Flat
use aeon_flow.Heap.Flat.{flat}
use aeon_flow.Heap.Ops.{write-ok, len-le-length-flat}
use aeon_flow.Heap.Ranges.{read-eq-slice}
use aeon_flow.Machine.{VmState}
use aeon_flow.Forth.{
  stack_underflow, stack_overflow, stack_reg, stack_base, stack_limit, stack_ptr, set_stack_ptr,
  push, pop, stack_depth,
}

-- The values below `p`, the top first.
abbrev pub Items : Bytes → ℕ → List ℕ → Type 0
Items bs p [] = p ≡ stack_base
Items bs p (v ∷ s) =
    (stack_base + 8 ≤ p) × (v < 2 ^ 64) × (slice bs (p - 8) 8 ≡ le_bytes 8 v) × Items bs (p - 8) s

-- The machine, with a heap of `len` bytes, has the stack `s`.
pub record Holds (len : ℕ) (vm : VmState) (s : List ℕ) : Type 0 where
  pub ptr : ℕ
  pub heap_ok : Flat.IsValid vm.heap
  pub heap_len : vm.heap.len ≡ len
  pub at_ptr : get_elem? vm.regs stack_reg ≡ some ptr
  pub in_limit : ptr ≤ stack_limit
  pub in_heap : ptr ≤ len
  pub items : Items (flat vm.heap) ptr s

-- How many values a heap of `len` bytes has room for.
abbrev pub capacity : ℕ → ℕ
capacity len = (min stack_limit len - stack_base) / 8

Items-ptr : (bs : Bytes) (p : ℕ) (s : List ℕ) → Items bs p s → p ≡ stack_base + 8 * length s
Items-ptr bs p [] i = omega arith
Items-ptr bs p (v ∷ s) (l, w, e, i) = omega (arith, Items-ptr bs (p - 8) s i)

-- There was room for what stands on the stack, and it is a word.
pub popped_room :
    (len : ℕ) (vm : VmState) (v : ℕ) (s : List ℕ)
    → Holds len vm (v ∷ s)
    → (length s < capacity len) × (v < 2 ^ 64)
popped_room len vm v s h =
    let (low, small, e, i) = h.items in
    let at = Items-ptr (flat vm.heap) (h.ptr - 8) s i in
    (omega (arith, h.in_limit, h.in_heap), small)

pub holds_room : (len : ℕ) (vm : VmState) (s : List ℕ) → Holds len vm s → length s ≤ 8192
holds_room len vm s h = omega (arith, Items-ptr (flat vm.heap) h.ptr s h.items, h.in_limit)

-- A write at `p` or behind it leaves them.
Items-splice :
    (bs part : Bytes) (q p : ℕ) (s : List ℕ) → p ≤ q → Items bs p s → Items (splice bs q part) p s
Items-splice bs part q p [] l i = i
Items-splice bs part q p (v ∷ s) l (h, w, e, i) = (
  h,
  w,
  slice-splice_apart bs q part (p - 8) 8 (inl (omega arith)) ∙ e,
  Items-splice bs part q (p - 8) s (omega arith) i,
)

-- The pointer's register is there, and holds what is written to it.
module _ (regs : List ℕ) {p : ℕ} (at : get_elem? regs stack_reg ≡ some p) where
  reg_there : ltb stack_reg (length regs) ≡ true
  reg_there = lt→ltb stack_reg (length regs) (lt_of_get_elem? regs stack_reg at)

  reg_written : (v : ℕ) → get_elem? (set regs stack_reg v) stack_reg ≡ some v
  reg_written v = get_elem?-set_self regs stack_reg v (lt_of_get_elem? regs stack_reg at)

module _ (len : ℕ) (vm : VmState) where
  -- A pop takes the top of the stack.
  pub pop-ok :
      (v : ℕ) (s : List ℕ)
      → Holds len vm (v ∷ s)
      → (vm' : VmState) × (pop vm ≡ (ok v, vm')) × Holds len vm' s
  unfolding pop stack_ptr set_stack_ptr
  pop-ok v s h =
      let (low, small, bytes, rest) = h.items in
      let p = h.ptr in
      let inside : p - 8 + 8 ≤ vm.heap.len = omega (arith, h.in_heap, h.heap_len) in
      let value : le_value (slice (flat vm.heap) (p - 8) 8) ≡ v =
        ap le_value bytes ∙ le_value-le_bytes 8 v small in
      let a : leb p stack_base ≡ false = ground arith in
      let b : ltb stack_limit p ≡ false = ground (arith, h.in_limit) in
      let c : ltb vm.heap.len p ≡ false = ground (arith, h.in_heap, h.heap_len) in
      (
        record vm { regs = set vm.regs stack_reg (p - 8) },
        rw (
          h.at_ptr,
          a,
          b,
          c,
          read-eq-slice vm.heap (p - 8) 8 h.heap_ok inside,
          reg_there vm.regs h.at_ptr,
          value,
        ),
        record {
          ptr = p - 8;
          heap_ok = h.heap_ok;
          heap_len = h.heap_len;
          at_ptr = reg_written vm.regs h.at_ptr (p - 8);
          in_limit = omega (arith, h.in_limit);
          in_heap = omega (arith, h.in_heap);
          items = rest;
        },
      )

  pub pop-empty : Holds len vm [] → pop vm ≡ (err stack_underflow, vm)
  unfolding pop stack_ptr
  pop-empty h = let a : leb h.ptr stack_base ≡ true = ground (arith, h.items) in rw (h.at_ptr, a)

  -- A push puts a value on top, where there is room.
  pub push-ok :
      (v : ℕ) (s : List ℕ)
      → v < 2 ^ 64
      → length s < capacity len
      → Holds len vm s
      → (vm' : VmState) × (push v vm ≡ (ok tt, vm')) × Holds len vm' (v ∷ s)
  unfolding push stack_ptr set_stack_ptr Heap.checked_add
  push-ok v s small room h =
      let p = h.ptr in
      let at = Items-ptr (flat vm.heap) p s h.items in
      let size = length-le_bytes 8 v in
      let inside : p + length (le_bytes 8 v) ≤ vm.heap.len = omega (arith, h.heap_len) in
      let (heap', wrote, ok', bytes, same) = write-ok vm.heap p (le_bytes 8 v) h.heap_ok inside in
      let long = len-le-length-flat vm.heap h.heap_ok in
      let a : ltb (p + 8) (2 ^ 64) ≡ true = ground arith in
      let b : ltb p stack_base ≡ false = ground arith in
      let c : ltb stack_limit (p + 8) ≡ false = ground arith in
      let d : ltb vm.heap.len (p + 8) ≡ false = ground arith in
      let z : p + 8 - 8 ≡ p = omega arith in
      let here : slice (flat heap') p 8 ≡ le_bytes 8 v = rw bytes (
        subst (λ n. slice (splice (flat vm.heap) p (le_bytes 8 v)) p n ≡ le_bytes 8 v) size
          (slice-splice (flat vm.heap) p (le_bytes 8 v) (omega arith))) in
      let below : Items (flat heap') p s =
        rw bytes (Items-splice (flat vm.heap) (le_bytes 8 v) p p s (omega arith) h.items) in
      (
        record vm { heap = heap'; regs = set vm.regs stack_reg (p + 8) },
        rw (h.at_ptr, a, b, c, d, wrote, reg_there vm.regs h.at_ptr),
        record {
          ptr = p + 8;
          heap_ok = ok';
          heap_len = same ∙ h.heap_len;
          at_ptr = reg_written vm.regs h.at_ptr (p + 8);
          in_limit = omega arith;
          in_heap = omega arith;
          items = (omega arith, small, rw z here, rw z below);
        },
      )

  pub push-full :
      (v : ℕ) (s : List ℕ)
      → capacity len ≤ length s
      → Holds len vm s
      → push v vm ≡ (err stack_overflow, vm)
  unfolding push stack_ptr Heap.checked_add
  push-full v s full h =
      let p = h.ptr in
      let at = Items-ptr (flat vm.heap) p s h.items in
      let lim = h.in_limit in
      let a : ltb (p + 8) (2 ^ 64) ≡ true = ground arith in
      let b : (ltb p stack_base || ltb stack_limit (p + 8) || ltb vm.heap.len (p + 8)) ≡ true =
        ground (arith, h.heap_len) in
      rw (h.at_ptr, a, b)

  pub stack_depth-ok : (s : List ℕ) → Holds len vm s → stack_depth vm ≡ (ok (length s), vm)
  unfolding stack_depth stack_ptr
  stack_depth-ok s h =
      let p = h.ptr in
      let at = Items-ptr (flat vm.heap) p s h.items in
      let b : ltb p stack_base ≡ false = ground arith in
      let c : ltb stack_limit p ≡ false = ground (arith, h.in_limit) in
      let d : ltb vm.heap.len p ≡ false = ground (arith, h.in_heap, h.heap_len) in
      let e : (p - stack_base) / 8 ≡ length s = omega arith in rw (h.at_ptr, b, c, d, e)
