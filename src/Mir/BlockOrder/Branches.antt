-- ===== src/Mir/BlockOrder/Branches.antt =====
-- `invert_branches_to_next` keeps where every block goes.
use foptim.Base.{
  ℕ, zero, suc, ◌+◌, ◌≡◌, refl, ap, List, [], ◌∷◌, Bool, not, ◌||◌, Option, none, some, ◌==◌,
  if◌then◌else◌, Bool-cases, inl, inr, get_or,
}
use foptim.Mir.BlockOrder.{
  Cond, jmp, cjmp, plain, Block, no_block, inverse, invert_pair, invert_block, invert_from,
  invert_branches_to_next,
}

-- Instructions run on a state: `exec` is one that does not jump, `holds` is the condition of a
-- `cjmp` on its operands. A block ends at its first taken jump.
module _ {S : Type 0} (exec : ℕ → S → S) (holds : Cond → ℕ → S → Bool) where
  unfoldable pub run : Block → S → S × Option ℕ
  run [] s = (s, none)
  run (jmp t ∷ is) s = (s, some t)
  run (cjmp c args t ∷ is) s = if holds c args s then (s, some t) else run is s
  run (plain k ∷ is) s = run is (exec k s)

  -- The condition of an inverted jump is the negation.
  abbrev pub Negates : Type 0
  Negates =
      (c d : Cond) (args : ℕ) (s : S) → inverse c ≡ some d → holds d args s ≡ not (holds c args s)

  module _ (negates : Negates) where
    invert_pair-run :
        (b : ℕ) (c : Cond) (args t f : ℕ) (o : Option Cond) (s : S)
        → inverse c ≡ o
        → run (invert_pair b c args t f o) s ≡ run (cjmp c args t ∷ jmp f ∷ []) s
    unfolding run invert_pair
    invert_pair-run b c args t f none s e = refl
    invert_pair-run b c args t f (some inv) s e =
        elim (Bool-cases (not (t == b + 1) || f == b + 1)) [
          | inl stay ↦ rw stay refl
          | inr swap ↦ elim (Bool-cases (holds c args s)) [
            | inl yes_c ↦ let opposite = negates c inv args s e in rw (swap, opposite, yes_c) refl
            | inr no_c ↦ let opposite = negates c inv args s e in rw (swap, opposite, no_c) refl
          ]
        ]

    invert_block-run : (b : ℕ) (is : Block) (s : S) → run (invert_block b is) s ≡ run is s
    unfolding invert_block run
    invert_block-run b [] s = refl
    invert_block-run b (i ∷ []) s = refl
    invert_block-run b (cjmp c args t ∷ jmp f ∷ []) s =
        invert_pair-run b c args t f (inverse c) s refl
    invert_block-run b (jmp t ∷ j ∷ []) s = refl
    invert_block-run b (plain k ∷ j ∷ []) s = refl
    invert_block-run b (cjmp c args t ∷ cjmp d brgs u ∷ []) s = refl
    invert_block-run b (cjmp c args t ∷ plain k ∷ []) s = refl
    invert_block-run b (jmp t ∷ j ∷ k ∷ is) s = refl
    invert_block-run b (cjmp c args t ∷ j ∷ k ∷ is) s =
        ap (λ r. if holds c args s then (s, some t) else r) (invert_block-run b (j ∷ k ∷ is) s)
    invert_block-run b (plain m ∷ j ∷ k ∷ is) s = invert_block-run b (j ∷ k ∷ is) (exec m s)

    invert_from-run :
        (i : ℕ) (bbs : List Block) (b : ℕ) (s : S)
        → run (get_or (invert_from i bbs) b no_block) s ≡ run (get_or bbs b no_block) s
    unfolding invert_from run
    invert_from-run i [] b s = refl
    invert_from-run i (x ∷ []) b s = refl
    invert_from-run i (x ∷ y ∷ xs) zero s = invert_block-run i x s
    invert_from-run i (x ∷ y ∷ xs) (suc b) s = invert_from-run (suc i) (y ∷ xs) b s

    -- For any meaning of the instructions in which the condition of an inverted jump is the negation
    -- of the old one, every block does the same after invert_branches_to_next: it ends in the same
    -- state and goes to the same block.
    pub invert-run :
        (bbs : List Block) (b : ℕ) (s : S)
        → run (get_or (invert_branches_to_next bbs) b no_block) s ≡ run (get_or bbs b no_block) s
    unfolding invert_branches_to_next
    invert-run bbs b s = invert_from-run 0 bbs b s
