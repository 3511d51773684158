-- ===== src/Mir/BlockOrder/Flow.antt =====
-- The pass keeps the flow of control, up to the new numbers of the blocks.
use foptim.Base.{
  ℕ, ◌<◌, ◌≡◌, refl, sym, ap, ◌∙◌, List, [], ◌∷◌, Bool, Option, none, some, arith, leb, Bool-cases,
  inl, inr, length, get_or,
}
use foptim.Mir.BlockOrder.{
  Cond, jmp, cjmp, plain, Block, no_block, BlockInfo, layout, new_ids, is_changed, rename,
  apply_order, apply, invert_branches_to_next,
}
use foptim.Mir.BlockOrder.Chains.{at_order}
use foptim.Mir.BlockOrder.Cover.{IsClosed, layout-covers, layout-Starts}
use foptim.Mir.BlockOrder.Numbers.{new_ids-position, get_or-map}
use foptim.Mir.BlockOrder.Branches.{run, Negates, invert-run}

-- The end of a block, with its target renumbered.
abbrev pub retarget {ℓ} : {S : Type ℓ} → (ℕ → ℕ) → S × Option ℕ → S × Option ℕ
retarget f (s, none) = (s, none)
retarget f (s, some t) = (s, some (f t))

retarget-same : {S : Type 0} (r : S × Option ℕ) → retarget (λ b. b) r ≡ r
retarget-same (s, none) = refl
retarget-same (s, some t) = refl

module _ {S : Type 0} (exec : ℕ → S → S) (holds : Cond → ℕ → S → Bool)
    (negates : Negates exec holds) where
  rename-run :
      (ids : List ℕ) (is : Block) (s : S)
      → run exec holds (rename ids is) s ≡ retarget (λ b. get_or ids b 0) (run exec holds is s)
  unfolding run
  rename-run ids [] s = refl
  rename-run ids (jmp t ∷ is) s = refl
  rename-run ids (plain k ∷ is) s = rename-run ids is (exec k s)
  rename-run ids (cjmp c args t ∷ is) s = elim (Bool-cases (holds c args s)) [
    | inl taken ↦ rw taken refl
    | inr passed ↦ rw passed (rename-run ids is s)
  ]

  -- A renumbering of the blocks under which `out` does what `bbs` does.
  abbrev pub Simulates : List Block → List Block → Type 0
  Simulates bbs out =
      (f : ℕ → ℕ) × (f 0 ≡ 0)
      × ((b : ℕ)
          → b < length bbs
          → (s : S)
          → run exec holds (get_or out (f b) no_block) s
            ≡ retarget f (run exec holds (get_or bbs b no_block) s))

  inverted-Simulates :
      (bbs out : List Block) → Simulates bbs out → Simulates bbs (invert_branches_to_next out)
  inverted-Simulates bbs out (f, entry, same) =
      (f, entry, λ b hb s. invert-run exec holds negates out (f b) s ∙ same b hb s)

  itself-Simulates : (bbs : List Block) → Simulates bbs bbs
  itself-Simulates bbs =
      (λ b. b, refl, λ b hb s. sym (retarget-same (run exec holds (get_or bbs b no_block) s)))

  module _ (bbs : List Block) (info : BlockInfo) (closed : IsClosed bbs) where
    moved-Simulates : 0 < length bbs → Simulates bbs (apply_order bbs (layout bbs info).order)
    unfolding apply_order
    moved-Simulates pos =
        let st = layout bbs info in
        let (is_layout, all_placed) = layout-covers bbs info closed pos in
        let (rest, starts) = layout-Starts bbs info closed pos in
        let ids = new_ids (length bbs) st.order in
        let number : (k : ℕ) → k < length st.order → get_or ids (at_order st.order k) 0 ≡ k =
          λ k hk.
            new_ids-position (length bbs) st.order k is_layout.once
              (λ j hj. (is_layout.inside j hj).0) hk in
        (
          λ b. get_or ids b 0,
          ap (λ b. get_or ids b 0) (sym (ap (λ o. at_order o 0) starts))
              ∙ number 0 (omega (arith, ap (λ o. length o) starts)),
          λ b hb s.
              let (k, hk, ek) = is_layout.found b (all_placed b hb) in
              let position : get_or ids b 0 ≡ k = ap (λ c. get_or ids c 0) (sym ek) ∙ number k hk in
              let block =
                get_or-map (λ c. rename ids (get_or bbs c no_block)) st.order k 0 no_block hk in
              ap (λ p. run exec holds (get_or (apply_order bbs st.order) p no_block) s) position
              ∙ ap (λ x. run exec holds x s)
                  (block ∙ ap (λ c. rename ids (get_or bbs c no_block)) ek)
              ∙ rename-run ids (get_or bbs b no_block) s,
        )

    -- For any meaning of the instructions on a state in which the condition of an inverted jump is
    -- the negation of the old one, any function whose jumps all go to its blocks, and any block
    -- information: there is a renumbering of the blocks that keeps the entry, block 0, such that
    -- each renumbered block of the function that apply returns ends in the same state as the old
    -- block, and goes to the renumbered target of the old one.
    pub apply-Simulates : Simulates bbs (apply bbs info)
    unfolding apply
    apply-Simulates = elim (Bool-cases (leb (length bbs) 2)) [
      | inl few ↦ rw few (itself-Simulates bbs)
      | inr many ↦ elim (Bool-cases (is_changed 0 (layout bbs info).order)) [
        | inl changed ↦
            rw (many, changed) (inverted-Simulates bbs _ (moved-Simulates (ground arith)))
        | inr same ↦ rw (many, same) (inverted-Simulates bbs bbs (itself-Simulates bbs))
      ]
    ]
