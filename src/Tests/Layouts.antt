-- ===== src/Tests/Layouts.antt =====
-- A loop whose body comes after its exit: entry 0, header 1, exit 2, body 3.
use foptim.Base.{
  ℕ, zero, suc, ◌+◌, ◌<◌, ◌≡◌, refl, List, [], ◌∷◌, Bool, true, false, not, arith, get_or, ltb, leb,
  ◌==◌, some_eq, replicate, ◌≢◌, inr,
}
use foptim.Mir.BlockOrder.{
  Cond, slt, sge, sle, sgt, ult, uge, ule, ugt, eq, ne, other_cond, jmp, cjmp, plain, Block,
  BlockInfo, Layout, is_placed, build_chain, apply, layout, pick_next, inverse, no_block, succs,
  invert_branches_to_next,
}
use foptim.Mir.BlockOrder.Chains.{IsLayout}
use foptim.Mir.BlockOrder.Fuel.{build_chain-settles}
use foptim.Mir.BlockOrder.Cover.{IsClosed, AreBelow, layout-covers}
use foptim.Mir.BlockOrder.Branches.{run, Negates, invert-run}
use foptim.Mir.BlockOrder.Flow.{Simulates, apply-Simulates}

abbrev loop : List Block
loop = (jmp 1 ∷ []) ∷ (cjmp sge 0 2 ∷ jmp 3 ∷ []) ∷ (plain 1 ∷ []) ∷ (plain 0 ∷ jmp 1 ∷ []) ∷ []

abbrev loop_info : BlockInfo
loop_info = record { loop_depth = 0 ∷ 1 ∷ 0 ∷ 1 ∷ []; cold = false ∷ false ∷ false ∷ false ∷ [] }

order_of_loop : (layout loop loop_info).order ≡ 0 ∷ 1 ∷ 3 ∷ 2 ∷ []
unfolding layout pick_next
order_of_loop = refl

-- The state counts up to 10, and every condition compares it with 10.
abbrev count_up : ℕ → ℕ → ℕ
count_up k s = s + 1

abbrev compares : Cond → ℕ → ℕ → Bool
compares slt args s = ltb s 10
compares sge args s = not (ltb s 10)
compares sle args s = leb s 10
compares sgt args s = not (leb s 10)
compares ult args s = ltb s 10
compares uge args s = not (ltb s 10)
compares ule args s = leb s 10
compares ugt args s = not (leb s 10)
compares eq args s = s == 10
compares ne args s = not (s == 10)
compares (other_cond k) args s = true

not-not : (b : Bool) → b ≡ not (not b)
not-not true = refl
not-not false = refl

compares-Negates : Negates count_up compares
unfolding inverse
compares-Negates slt d args s e = rw (← some_eq _ _ e) refl
compares-Negates sge d args s e = rw (← some_eq _ _ e) (not-not (ltb s 10))
compares-Negates sle d args s e = rw (← some_eq _ _ e) refl
compares-Negates sgt d args s e = rw (← some_eq _ _ e) (not-not (leb s 10))
compares-Negates ult d args s e = rw (← some_eq _ _ e) refl
compares-Negates uge d args s e = rw (← some_eq _ _ e) (not-not (ltb s 10))
compares-Negates ule d args s e = rw (← some_eq _ _ e) refl
compares-Negates ugt d args s e = rw (← some_eq _ _ e) (not-not (leb s 10))
compares-Negates eq d args s e = rw (← some_eq _ _ e) refl
compares-Negates ne d args s e = rw (← some_eq _ _ e) (not-not (s == 10))
compares-Negates (other_cond k) d args s e = absurd (cc)

loop-IsClosed : IsClosed loop
unfolding AreBelow succs
loop-IsClosed zero = (omega arith, tt)
loop-IsClosed (suc zero) = (omega arith, (omega arith, tt))
loop-IsClosed (suc (suc zero)) = tt
loop-IsClosed (suc (suc (suc zero))) = (omega arith, tt)
loop-IsClosed (suc (suc (suc (suc b)))) = tt

apply-Simulates_example : Simulates count_up compares compares-Negates loop (apply loop loop_info)
apply-Simulates_example =
    apply-Simulates count_up compares compares-Negates loop loop_info loop-IsClosed

invert-run_example :
    run count_up compares (get_or (invert_branches_to_next loop) 1 no_block) 4
    ≡ run count_up compares (get_or loop 1 no_block) 4
invert-run_example = invert-run count_up compares compares-Negates loop 1 4

nothing_placed : Layout
nothing_placed = record { placed = replicate 4 false; order = [] }

nothing-IsLayout : IsLayout 4 nothing_placed
unfolding nothing_placed
nothing-IsLayout = record {
  count = refl;
  inside = λ i hi. absurd (omega arith);
  once = λ i j hi hj e. absurd (omega arith);
  found = λ b h. absurd (unmarked b h);
}
  where
    unmarked : (b : ℕ) → get_or (replicate 4 false) b false ≢ true
    unmarked zero h = cc
    unmarked (suc zero) h = cc
    unmarked (suc (suc zero)) h = cc
    unmarked (suc (suc (suc zero))) h = cc
    unmarked (suc (suc (suc (suc b)))) h = cc

build_chain-settles_example :
    build_chain (4 + 10) loop loop_info nothing_placed 0
    ≡ build_chain 4 loop loop_info nothing_placed 0
unfolding nothing_placed
build_chain-settles_example =
    build_chain-settles loop loop_info loop-IsClosed 10 nothing_placed 0 nothing-IsLayout
      (inr (omega arith, refl))

layout-covers_example :
    IsLayout 4 (layout loop loop_info)
    × ((b : ℕ) → b < 4 → is_placed (layout loop loop_info) b ≡ true)
layout-covers_example = layout-covers loop loop_info loop-IsClosed (omega arith)
