-- ===== src/Mir/BlockOrder/Fuel.antt =====
-- A chain is no longer than the blocks that are still to be placed, so its fuel is enough.
use foptim.Base.{
  ℕ, zero, suc, ◌+◌, ◌≤◌, ◌<◌, ◌≡◌, refl, sym, ap, ◌∙◌, List, [], ◌∷◌, Bool, true, false, arith,
  ◌==◌, ==_iff, if◌then◌else◌, inl, inr, length, get_or, set,
}
use foptim.Mir.BlockOrder.{Block, BlockInfo, Layout, place, pick_next, build_chain}
use foptim.Mir.BlockOrder.Chains.{IsLayout, place-IsLayout}
use foptim.Mir.BlockOrder.Cover.{IsClosed, IsFree, pick_next-IsFree}

pub unplaced : List Bool → ℕ
unplaced [] = 0
unplaced (b ∷ bs) = if b then unplaced bs else suc (unplaced bs)

unplaced-set :
    (bs : List Bool) (i : ℕ)
    → i < length bs
    → get_or bs i false ≡ false
    → suc (unplaced (set bs i true)) ≡ unplaced bs
unfolding unplaced
unplaced-set [] i h free = absurd (omega arith)
unplaced-set (true ∷ bs) zero h free = absurd (cc)
unplaced-set (false ∷ bs) zero h free = refl
unplaced-set (true ∷ bs) (suc i) h free = unplaced-set bs i (omega arith) free
unplaced-set (false ∷ bs) (suc i) h free = ap suc (unplaced-set bs i (omega arith) free)

unplaced-le : (bs : List Bool) → unplaced bs ≤ length bs
unfolding unplaced
unplaced-le [] = omega arith
unplaced-le (true ∷ bs) = omega (arith, unplaced-le bs)
unplaced-le (false ∷ bs) = omega (arith, unplaced-le bs)

module _ (bbs : List Block) (info : BlockInfo) (closed : IsClosed bbs) where
  build_chain-stop :
      (fuel : ℕ) (st : Layout) (b : ℕ) → b ≡ length bbs → build_chain fuel bbs info st b ≡ st
  unfolding build_chain
  build_chain-stop zero st b e = refl
  build_chain-stop (suc fuel) st b e =
      let stop : (b == length bbs) ≡ true = (==_iff b (length bbs)).1 e in rw stop refl

  -- Two fuels that both cover the blocks to be placed.
  enough :
      (fuel more : ℕ) (st : Layout) (b : ℕ)
      → IsLayout (length bbs) st
      → IsFree (length bbs) st b
      → unplaced st.placed ≤ fuel
      → unplaced st.placed ≤ more
      → build_chain fuel bbs info st b ≡ build_chain more bbs info st b
  unfolding build_chain
  enough fuel more st b h (inl e) few few' =
      build_chain-stop fuel st b e ∙ sym (build_chain-stop more st b e)
  enough zero more st b h (inr (hb, free)) few few' =
      absurd (omega (arith, unplaced-set st.placed b (omega (arith, h.count)) free))
  enough (suc fuel) zero st b h (inr (hb, free)) few few' =
      absurd (omega (arith, unplaced-set st.placed b (omega (arith, h.count)) free))
  enough (suc fuel) (suc more) st b h (inr (hb, free)) few few' =
      let one_less = unplaced-set st.placed b (omega (arith, h.count)) free in
      let next = place-IsLayout (length bbs) b st h hb free in
      ap (λ r. if b == length bbs then st else r)
        (enough fuel more (place st b) (pick_next bbs info (place st b) b) next
          (pick_next-IsFree bbs info closed (place st b) b) (omega (arith, one_less))
          (omega (arith, one_less)))

  -- For a function whose jumps all go to its blocks and a layout of it, a chain that starts at no
  -- block or at a block that is not placed is the same with any more fuel than the number of blocks,
  -- so it ends before the fuel does.
  pub build_chain-settles :
      (extra : ℕ) (st : Layout) (b : ℕ)
      → IsLayout (length bbs) st
      → IsFree (length bbs) st b
      → build_chain (length bbs + extra) bbs info st b ≡ build_chain (length bbs) bbs info st b
  build_chain-settles extra st b h free =
      let few = unplaced-le st.placed in
      enough (length bbs + extra) (length bbs) st b h free (omega (arith, few, h.count))
        (omega (arith, few, h.count))
