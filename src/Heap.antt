-- ===== src/Heap.antt =====
-- The copy-on-write heap of the machine (aeon-vm/src/cowheap.rs): fixed pages of bytes, and the set
-- of pages written since it was last cleared. An error value stands for the source's message.
pub mod Flat
pub mod Ranges
pub mod Ops
pub mod Dirty
pub mod Deltas
use aeon_flow.Base.{
  ℕ, zero, suc, ◌+◌, ◌-◌, ◌/◌, ◌%◌, ◌^◌, min, Bool, false, Option, none, some, List, [], ◌∷◌, ◌++◌,
  ltb, leb, ◌==◌, ◌||◌, if◌then◌else◌, length, get_elem?, set, slice, splice, replicate, Bytes,
  Outcome, ok, err, panic, ◌>>=◌, ◌>>◌, ok_or, expect, guard,
}

-- PAGE_SIZE
abbrev pub page_size : ℕ
page_size = 4096

pub record HeapPageDelta : Type 0 where
  pub index : ℕ
  pub bytes : Bytes

-- `dirty` is the BTreeSet, as its ascending list.
pub record CowHeap : Type 0 where
  pub pages : List Bytes
  pub dirty : List ℕ
  pub len : ℕ

pub data HeapError : Type 0 where
  range_overflows : ℕ → ℕ → HeapError
  range_exceeds : ℕ → ℕ → ℕ → HeapError
  page_out_of_range : ℕ → HeapError
  page_has_bytes : ℕ → ℕ → HeapError

-- `usize::checked_add` on a 64-bit target
unfoldable pub checked_add : ℕ → ℕ → Option ℕ
checked_add a b = if ltb (a + b) (2 ^ 64) then some (a + b) else none

-- `BTreeSet::insert`, and membership
unfoldable pub insert_index : ℕ → List ℕ → List ℕ
insert_index i [] = i ∷ []
insert_index i (d ∷ ds) =
    if ltb i d then i ∷ d ∷ ds else if i == d then d ∷ ds else d ∷ insert_index i ds

unfoldable pub has_index : ℕ → List ℕ → Bool
has_index i [] = false
has_index i (d ∷ ds) = i == d || has_index i ds

-- `COWHeap::new`
unfoldable pub new : ℕ → CowHeap
new len = record {
  pages = replicate ((len + (page_size - 1)) / page_size) (replicate page_size 0);
  dirty = [];
  len = len;
}

unfoldable pub check_range : CowHeap → ℕ → ℕ → Outcome HeapError Unit
unfolding checked_add
check_range h addr len = do
  end ← ok_or (checked_add addr len) (range_overflows addr len)
  guard (leb end h.len) (range_exceeds addr end h.len)

unfoldable pub get : CowHeap → ℕ → Outcome HeapError ℕ
get h addr = do
  check_range h addr 1
  page ← expect (get_elem? h.pages (addr / page_size))
  expect (get_elem? page (addr % page_size))

-- `pages[i][offset..offset + part.len()].copy_from_slice(part)`, and `dirty.insert(i)`
unfoldable pub write_page : CowHeap → ℕ → ℕ → Bytes → Outcome HeapError CowHeap
write_page h i offset part = do
  page ← expect (get_elem? h.pages i)
  if leb (offset + length part) (length page)
      then ok (record h {
        pages = set h.pages i (splice page offset part);
        dirty = insert_index i h.dirty;
      })
      else panic

-- `COWHeap::set`
unfoldable pub set_byte : CowHeap → ℕ → ℕ → Outcome HeapError CowHeap
unfolding write_page
set_byte h addr value = do
  check_range h addr 1
  write_page h (addr / page_size) (addr % page_size) (value ∷ [])

-- `&page[offset..offset + take]`
unfoldable pub read_page : List Bytes → ℕ → ℕ → ℕ → Outcome HeapError Bytes
read_page pages i offset take = do
  page ← expect (get_elem? pages i)
  if leb (offset + take) (length page) then ok (slice page offset take) else panic

-- `(PAGE_SIZE - offset).min(left)`
abbrev pub chunk : ℕ → ℕ → ℕ
chunk cursor left = min (page_size - cursor % page_size) left

-- The loop of `read`. Each round reads a byte at least, so `len + 1` rounds are enough.
unfoldable pub read_loop : ℕ → List Bytes → ℕ → ℕ → Bytes → Outcome HeapError Bytes
read_loop zero pages cursor end out = panic
read_loop (suc fuel) pages cursor end out =
    let rest = (do
      let take = chunk cursor (end - cursor)
      part ← read_page pages (cursor / page_size) (cursor % page_size) take
      read_loop fuel pages (cursor + take) end (out ++ part)) in
    if ltb cursor end then rest else ok out

unfoldable pub read : CowHeap → ℕ → ℕ → Outcome HeapError Bytes
read h addr len = do check_range h addr len; read_loop (suc len) h.pages addr (addr + len) []

-- The loop of `write`, with as many rounds at most.
unfoldable pub write_loop : ℕ → CowHeap → ℕ → Bytes → ℕ → Outcome HeapError CowHeap
write_loop zero h addr bytes written = panic
write_loop (suc fuel) h addr bytes written =
    let rest = (do
      let cursor = addr + written
      let take = chunk cursor (length bytes - written)
      h' ← write_page h (cursor / page_size) (cursor % page_size) (slice bytes written take)
      write_loop fuel h' addr bytes (written + take)) in
    if ltb written (length bytes) then rest else ok h

unfoldable pub write : CowHeap → ℕ → Bytes → Outcome HeapError CowHeap
write h addr bytes = do
  check_range h addr (length bytes)
  write_loop (suc (length bytes)) h addr bytes 0

-- The loop of `to_vec`: `out` grows to `len` bytes.
unfoldable pub to_vec_loop : List Bytes → ℕ → Bytes → Bytes
to_vec_loop [] len out = out
to_vec_loop (page ∷ pages) len out =
    let remaining = len - length out in
    let rest = to_vec_loop pages len (out ++ slice page 0 (min remaining page_size)) in
    if remaining == 0 then out else rest

unfoldable pub to_vec : CowHeap → Bytes
unfolding to_vec_loop
to_vec h = to_vec_loop h.pages h.len []

unfoldable pub clear_dirty : CowHeap → CowHeap
clear_dirty h = record h { dirty = [] }

-- `COWHeap::from_bytes`: its `expect` panics where `write` fails.
unfoldable pub from_bytes : Bytes → Outcome HeapError CowHeap
from_bytes bytes = elim (write (new (length bytes)) 0 bytes) [
  | ok h ↦ ok (clear_dirty h)
  | err _ ↦ panic
  | panic ↦ panic
]

unfoldable pub deltas_of : List Bytes → List ℕ → Outcome HeapError (List HeapPageDelta)
deltas_of pages [] = ok []
deltas_of pages (i ∷ is) = do
  page ← expect (get_elem? pages i)
  rest ← deltas_of pages is
  ok (record { index = i; bytes = page } ∷ rest)

unfoldable pub dirty_pages : CowHeap → Outcome HeapError (List HeapPageDelta)
unfolding deltas_of
dirty_pages h = deltas_of h.pages h.dirty

-- What a failing call has applied before its error is dropped: every caller drops the heap then.
unfoldable pub apply_pages : CowHeap → List HeapPageDelta → Outcome HeapError CowHeap
apply_pages h [] = ok h
apply_pages h (d ∷ ds) = do
  guard (ltb d.index (length h.pages)) (page_out_of_range d.index)
  guard (length d.bytes == page_size) (page_has_bytes d.index (length d.bytes))
  apply_pages
      (record h { pages = set h.pages d.index d.bytes; dirty = insert_index d.index h.dirty }) ds
