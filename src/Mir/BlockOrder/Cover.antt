-- ===== src/Mir/BlockOrder/Cover.antt =====
-- The layout has every block, and the fuel of a chain is enough.
use foptim.Base.{
  ℕ, zero, suc, ◌+◌, ◌-◌, ◌≤◌, ◌<◌, ◌≡◌, ◌⊎◌, refl, sym, ap, ◌∙◌, subst, List, [], ◌∷◌, ◌++◌, Bool,
  true, false, not, ◌&&◌, ◌||◌, arith, ◌==◌, ==_iff, if◌then◌else◌, Bool-cases, inl, inr, length,
  get_or, replicate, length-replicate, ℕ_discrete,
}
use foptim.Mir.BlockOrder.{
  Block, no_block, BlockInfo, is_cold, Layout, is_placed, place, pick_from, pick_next, build_chain,
  chain_pass, layout, succs, jmp_target, key_gt,
}
use foptim.Mir.BlockOrder.Chains.{IsLayout, place-IsLayout, get_or-set_self, get_or-set_ne}

unfoldable pub AreBelow : ℕ → List ℕ → Type 0
AreBelow n [] = Unit {0}
AreBelow n (x ∷ xs) = (x < n) × AreBelow n xs

-- Every jump goes to a block of the function.
abbrev pub IsClosed : List Block → Type 0
IsClosed bbs = (b : ℕ) → AreBelow (length bbs) (succs (get_or bbs b no_block))

-- No block, or one that is still to be placed.
abbrev pub IsFree : ℕ → Layout → ℕ → Type 0
IsFree n st b = (b ≡ n) ⊎ ((b < n) × (is_placed st b ≡ false))

pick_from-IsFree :
    (n : ℕ) (info : BlockInfo) (st : Layout) (bb jt best : ℕ) (ss : List ℕ)
    → IsFree n st best
    → AreBelow n ss
    → IsFree n st (pick_from n info st bb jt best ss)
unfolding pick_from AreBelow
pick_from-IsFree n info st bb jt best [] h hs = h
pick_from-IsFree n info st bb jt best (s ∷ ss) h hs =
    elim (Bool-cases (is_placed st s || (is_cold info s && not (is_cold info bb)))) [
      | inl skip ↦ rw skip (pick_from-IsFree n info st bb jt best ss h hs.1)
      | inr take_it ↦
          let free : is_placed st s ≡ false = ground arith in
          elim (Bool-cases (best == n || key_gt info bb jt s best)) [
            | inl better ↦
                rw (take_it, better) (pick_from-IsFree n info st bb jt s ss (inr (hs.0, free)) hs.1)
            | inr worse ↦ rw (take_it, worse) (pick_from-IsFree n info st bb jt best ss h hs.1)
          ]
    ]

unmarked : (k b : ℕ) → get_or (replicate k false) b false ≡ false
unmarked zero b = refl
unmarked (suc k) zero = refl
unmarked (suc k) (suc b) = unmarked k b

module _ (bbs : List Block) (info : BlockInfo) (closed : IsClosed bbs) where
  abbrev n : ℕ
  n = length bbs

  pub pick_next-IsFree : (st : Layout) (b : ℕ) → IsFree n st (pick_next bbs info st b)
  unfolding pick_next
  pick_next-IsFree st b =
      pick_from-IsFree n info st b (jmp_target n (get_or bbs b no_block)) n _ (inl refl) (closed b)

  -- What a chain does: the layout stays one, and no block is taken back.
  abbrev Grows : Layout → Layout → Type 0
  Grows st st' = IsLayout n st' × ((c : ℕ) → is_placed st c ≡ true → is_placed st' c ≡ true)

  place-kept :
      (st : Layout) (b c : ℕ)
      → is_placed st b ≡ false
      → is_placed st c ≡ true
      → is_placed (place st b) c ≡ true
  place-kept st b c free hc =
      get_or-set_ne st.placed b c true false (λ e. cc (free, hc, ap (is_placed st) e)) ∙ hc

  build_chain-Grows :
      (fuel : ℕ) (st : Layout) (b : ℕ)
      → IsLayout n st
      → IsFree n st b
      → Grows st (build_chain fuel bbs info st b)
  unfolding build_chain
  build_chain-Grows zero st b h free = (h, λ c hc. hc)
  build_chain-Grows (suc fuel) st b h (inl e) =
      let stop : (b == length bbs) ≡ true = (==_iff b (length bbs)).1 e in rw stop (h, λ c hc. hc)
  build_chain-Grows (suc fuel) st b h (inr (hb, free)) =
      let go_on : (b == length bbs) ≡ false = ground arith in
      let next = place-IsLayout n b st h hb free in
      let (rest, kept) =
        build_chain-Grows fuel (place st b) (pick_next bbs info (place st b) b) next
          (pick_next-IsFree (place st b) b) in
      rw go_on (rest, λ c hc. kept c (place-kept st b c free hc))

  -- A chain places its start.
  build_chain-placed :
      (fuel : ℕ) (st : Layout) (b : ℕ)
      → IsLayout n st
      → b < n
      → is_placed st b ≡ false
      → is_placed (build_chain (suc fuel) bbs info st b) b ≡ true
  unfolding build_chain
  build_chain-placed fuel st b h hb free =
      let go_on : (b == length bbs) ≡ false = ground arith in
      let next = place-IsLayout n b st h hb free in
      let (rest, kept) =
        build_chain-Grows fuel (place st b) (pick_next bbs info (place st b) b) next
          (pick_next-IsFree (place st b) b) in
      rw go_on (kept b (get_or-set_self st.placed b true false (omega (arith, hb, h.count))))

  abbrev is_wanted : Bool → Layout → ℕ → Bool
  is_wanted heat st b =
      not (is_placed st b) && (if heat then is_cold info b else not (is_cold info b))

  abbrev after_round : Bool → Layout → ℕ → Layout
  after_round heat st b = if is_wanted heat st b then build_chain n bbs info st b else st

  unwanted :
      (heat : Bool) (st : Layout) (b : ℕ)
      → is_wanted heat st b ≡ false
      → is_cold info b ≡ heat
      → is_placed st b ≡ true
  unwanted true st b h e = ground arith
  unwanted false st b h e = ground arith

  after_round-Grows :
      (heat : Bool) (st : Layout) (b : ℕ)
      → b < n
      → IsLayout n st
      → Grows st (after_round heat st b)
        × (is_cold info b ≡ heat → is_placed (after_round heat st b) b ≡ true)
  after_round-Grows heat st b hb h = elim (Bool-cases (is_wanted heat st b)) [
    | inr rest ↦ rw rest ((h, λ c hc. hc), λ e. unwanted heat st b rest e)
    | inl wanted ↦
        let free : is_placed st b ≡ false = ground arith in
        let one_more : suc (n - 1) ≡ n = omega (arith, hb) in
        rw wanted (
          build_chain-Grows n st b h (inr (hb, free)),
          λ e.
              subst (λ fuel. is_placed (build_chain fuel bbs info st b) b ≡ true) one_more
                (build_chain-placed (n - 1) st b h hb free),
        )
  ]

  chain_pass-Grows :
      (b rounds : ℕ) (heat : Bool) (st : Layout)
      → b + rounds ≤ n
      → IsLayout n st
      → Grows st (chain_pass b rounds heat bbs info st)
        × ((c : ℕ)
            → b ≤ c
            → c < b + rounds
            → is_cold info c ≡ heat
            → is_placed (chain_pass b rounds heat bbs info st) c ≡ true)
  unfolding chain_pass
  chain_pass-Grows b zero heat st hb h = ((h, λ c hc. hc), λ c lo hi e. absurd (omega arith))
  chain_pass-Grows b (suc rounds) heat st hb h =
      let (first, done_b) = after_round-Grows heat st b (omega arith) h in
      let (rest, others) =
        chain_pass-Grows (suc b) rounds heat (after_round heat st b) (omega arith) first.0 in
      (
        (rest.0, λ c hc. rest.1 c (first.1 c hc)),
        λ c lo hi e. elim (ℕ_discrete c b) [
          | yes same ↦ rest.1 c (
              subst (λ k. is_placed (after_round heat st b) k ≡ true) (sym same)
                (done_b (ap (is_cold info) (sym same) ∙ e)))
          | no ne ↦ others c (omega (arith, lo, ne)) (omega arith) e
        ],
      )

  nothing-IsLayout : IsLayout n (record { placed = replicate n false; order = [] })
  nothing-IsLayout = record {
    count = length-replicate n false;
    inside = λ i hi. absurd (omega arith);
    once = λ i j hi hj e. absurd (omega arith);
    found = λ b h. absurd (cc (h, unmarked n b));
  }

  -- The entry comes first.
  abbrev Starts : Layout → Type 0
  Starts st = (rest : List ℕ) × (st.order ≡ 0 ∷ rest)

  place-Starts : (st : Layout) (b : ℕ) → Starts st → Starts (place st b)
  place-Starts st b (rest, e) = (rest ++ b ∷ [], ap (λ o. o ++ b ∷ []) e)

  build_chain-Starts :
      (fuel : ℕ) (st : Layout) (b : ℕ) → Starts st → Starts (build_chain fuel bbs info st b)
  unfolding build_chain
  build_chain-Starts zero st b h = h
  build_chain-Starts (suc fuel) st b h = elim (Bool-cases (b == length bbs)) [
    | inl stop ↦ rw stop h
    | inr go_on ↦ rw go_on (
        build_chain-Starts fuel (place st b) (pick_next bbs info (place st b) b)
          (place-Starts st b h))
  ]

  after_round-Starts :
      (heat : Bool) (st : Layout) (b : ℕ) → Starts st → Starts (after_round heat st b)
  after_round-Starts heat st b h = elim (Bool-cases (is_wanted heat st b)) [
    | inl wanted ↦ rw wanted (build_chain-Starts n st b h)
    | inr rest ↦ rw rest h
  ]

  chain_pass-Starts :
      (b rounds : ℕ) (heat : Bool) (st : Layout)
      → Starts st
      → Starts (chain_pass b rounds heat bbs info st)
  unfolding chain_pass
  chain_pass-Starts b zero heat st h = h
  chain_pass-Starts b (suc rounds) heat st h =
      chain_pass-Starts (suc b) rounds heat (after_round heat st b) (after_round-Starts heat st b h)

  first_chain-Starts :
      (fuel : ℕ)
      → 0 < n
      → Starts
          (build_chain (suc fuel) bbs info (record { placed = replicate n false; order = [] }) 0)
  unfolding build_chain
  first_chain-Starts fuel pos =
      let start : Layout = record { placed = replicate n false; order = [] } in
      let go_on : (0 == length bbs) ≡ false = ground arith in
      rw go_on
        (build_chain-Starts fuel (place start 0) (pick_next bbs info (place start 0) 0) ([], refl))

  pub layout-Starts : 0 < n → Starts (layout bbs info)
  unfolding layout
  layout-Starts pos =
      let start : Layout = record { placed = replicate n false; order = [] } in
      let entry = build_chain n bbs info start 0 in
      let one_more : suc (n - 1) ≡ n = omega (arith, pos) in
      let first =
        subst (λ fuel. Starts (build_chain fuel bbs info start 0)) one_more
          (first_chain-Starts (n - 1) pos) in
      chain_pass-Starts 0 n true (chain_pass 0 n false bbs info entry)
        (chain_pass-Starts 0 n false entry first)

  -- For a function of at least one block whose jumps all go to its blocks, and any block
  -- information: the order that layout returns holds blocks of the function only, none of them
  -- twice, they are marked as placed, and every block of the function is placed.
  pub layout-covers :
      0 < n
      → IsLayout n (layout bbs info) × ((b : ℕ) → b < n → is_placed (layout bbs info) b ≡ true)
  unfolding layout
  layout-covers pos =
      let start : Layout = record { placed = replicate n false; order = [] } in
      let entry = build_chain n bbs info start 0 in
      let (first, kept0) = build_chain-Grows n start 0 nothing-IsLayout (inr (pos, unmarked n 0)) in
      let (hot, hot_all) = chain_pass-Grows 0 n false entry (omega arith) first in
      let (all, cold_all) =
        chain_pass-Grows 0 n true (chain_pass 0 n false bbs info entry) (omega arith) hot.0 in
      (
        all.0,
        λ b hb. elim (Bool-cases (is_cold info b)) [
          | inl cold ↦ cold_all b (omega arith) (omega arith) cold
          | inr warm ↦ all.1 b (hot_all b (omega arith) (omega arith) warm)
        ],
      )
