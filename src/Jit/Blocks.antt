-- ===== src/Jit/Blocks.antt =====
-- The blocks that are emitted (aeon-vm/src/jit.rs): each stands for a window of the program, and every
-- leader but the end has one.
use aeon_flow.Base.{
  ℕ, suc, ◌+◌, ◌-◌, ◌<◌, ◌≡◌, refl, sym, subst, inl, inr, true, Bool-cases, some, List, [], ◌∷◌,
  arith, ◌==◌, ok, bind-eq-ok,
}
use aeon_flow.Heap.{has_index}
use aeon_flow.Inst.{Inst}
use aeon_flow.Jit.{Op, Terminator, Block, block_from, blocks_of, find_block}
use aeon_flow.Jit.Leaders.{Ascends, has_index-Ascends}

module _ (leaders touched : List ℕ) (is : List Inst) where
  -- A block that starts at `t`, for a window that is not empty.
  pub record IsBlockAt (t : ℕ) (blocks : List Block) : Type 0 where
    pub block : Block
    pub found : find_block t blocks ≡ some block
    pub size : ℕ
    pub emitted : block_from leaders touched is (suc size) t ≡ ok (block.ops, block.end)

  -- The parts of a run of `blocks_of`.
  blocks_of-parts :
      (a b : ℕ) (rest : List ℕ) {blocks : List Block}
      → blocks_of leaders touched is (a ∷ b ∷ rest) ≡ ok blocks
      → (r : List Op × Terminator) × (bs : List Block) × (block_from leaders touched is (b - a) a
          ≡ ok r)
        × (blocks_of leaders touched is (b ∷ rest) ≡ ok bs)
        × (blocks ≡ record { start = a; ops = r.0; end = r.1 } ∷ bs)
  unfolding blocks_of
  blocks_of-parts a b rest e =
      let (r, e₁, f) = bind-eq-ok (block_from leaders touched is (b - a) a) _ e in
      let (bs, e₂, g) = bind-eq-ok (blocks_of leaders touched is (b ∷ rest)) _ f in
      (r, bs, e₁, e₂, cc g)

  -- Every leader but the end starts a block.
  pub blocks_of-IsBlockAt :
      (t len lo : ℕ) (ls : List ℕ) {blocks : List Block}
      → Ascends lo ls
      → has_index t ls ≡ true
      → has_index len ls ≡ true
      → t < len
      → blocks_of leaders touched is ls ≡ ok blocks
      → IsBlockAt t blocks
  unfolding has_index find_block
  blocks_of-IsBlockAt t len lo [] a h g l e = absurd (cc h)
  blocks_of-IsBlockAt t len lo (x ∷ []) a h g l e = absurd (ground arith)
  blocks_of-IsBlockAt t len lo (x ∷ y ∷ ls) {blocks} (m, a) h g l e =
      let (r, bs, e₁, e₂, f) = blocks_of-parts x y ls e in
      elim (Bool-cases (x == t)) [
        | inl q ↦
            let same : x ≡ t = ground arith in
            let z : y - x ≡ suc (y - x - 1) = omega (arith, a) in
            subst (IsBlockAt t) (sym f) (record {
              block = record { start = x; ops = r.0; end = r.1 };
              found = rw q refl;
              size = y - x - 1;
              emitted =
                  subst (λ i. block_from leaders touched is (suc (y - x - 1)) i ≡ ok r) same
                    (subst (λ k. block_from leaders touched is k x ≡ ok r) z e₁);
            })
        | inr q ↦
            let h' : has_index t (y ∷ ls) ≡ true = ground arith in
            let above = has_index-Ascends (x + 1) t (y ∷ ls) a h' in
            let g' : has_index len (y ∷ ls) ≡ true = ground arith in
            let b = blocks_of-IsBlockAt t len (x + 1) (y ∷ ls) a h' g' l e₂ in
            subst (IsBlockAt t) (sym f)
              (record { block = b.block; found = rw q b.found; size = b.size; emitted = b.emitted })
      ]
