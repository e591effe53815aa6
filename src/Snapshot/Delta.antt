-- ===== src/Snapshot/Delta.antt =====
-- A delta between two snapshots of a machine (aeon-vm/src/snapshot.rs).
use aeon_flow.Base.{ℕ, ◌≡◌, sym, ◌∙◌, ==_refl, some, arith, Bytes, bytes_eq_of_eq, ok}
use aeon_flow.Heap.{CowHeap, to_vec}
use aeon_flow.Heap.Flat
use aeon_flow.Heap.Dirty.{from_bytes-to_vec, Tracks}
use aeon_flow.Heap.Deltas.{apply_pages-dirty_pages}
use aeon_flow.EventLog.{AeonEvent}
use aeon_flow.Machine.{VmState}
use aeon_flow.Snapshot.{Snapshot, SnapshotDelta, capture, capture_delta, apply_to, delta_of}
use aeon_flow.Snapshot.Restore.{length-to_vec}

-- Take a snapshot that holds the bytes of a heap `h₀`, and a machine of the same program whose heap
-- has the length of `h₀` and marks as dirty all it changed since. The delta of the machine, applied to
-- the snapshot, gives exactly the snapshot of the machine taken at the same time; neither call fails.
pub apply_to-capture_delta :
    (blake3 : Bytes → Bytes) (serialize_entry : AeonEvent → ℕ → Bytes → Bytes) (now : ℕ)
    (base : Snapshot) (h₀ : CowHeap) (vm : VmState)
    → Flat.IsValid h₀
    → Flat.IsValid vm.heap
    → base.heap ≡ some (to_vec h₀)
    → base.program_id ≡ vm.program_id
    → vm.heap.len ≡ h₀.len
    → Tracks h₀.pages vm.heap
    → (delta : SnapshotDelta) × (capture_delta blake3 serialize_entry now vm ≡ ok delta)
      × (apply_to delta base ≡ ok (capture blake3 serialize_entry now vm))
unfolding capture_delta apply_to capture
apply_to-capture_delta blake3 serialize_entry now base h₀ vm v₀ v b i n t =
    let l = length-to_vec h₀ v₀ in
    let (r, e, vr, same, d, nr) = from_bytes-to_vec (to_vec h₀) (omega (arith, l, v₀.small)) in
    let len : r.len ≡ vm.heap.len = omega (arith, nr, l) in
    let (ds, r', e₁, e₂, e₃) = apply_pages-dirty_pages h₀ vm.heap r v₀ v vr t n (nr ∙ l) same in
    (
      delta_of blake3 serialize_entry now vm ds,
      rw e₁,
      rw (bytes_eq_of_eq vm.program_id base.program_id (sym i), b, e, len, ==_refl, e₂, e₃),
    )
