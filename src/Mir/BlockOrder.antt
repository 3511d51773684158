-- ===== src/Mir/BlockOrder.antt =====
-- src/mir/optim/bb_reordering.cpp: the layout of the blocks of a function. `src/mir/analysis/cfg.hpp`
-- gives the successors, and `BlockInfo` of src/mir/analysis/block_info.hpp is an argument.
-- The instructions are read as far as the pass reads them.
pub mod Chains
pub mod Cover
pub mod Fuel
pub mod Numbers
pub mod Branches
pub mod Flow
use foptim.Base.{
  ℕ, zero, suc, ◌+◌, ◌-◌, List, [], ◌∷◌, ◌++◌, map, Bool, true, false, not, ◌&&◌, ◌||◌, Option,
  none, some, length, get_or, set, replicate, ltb, leb, ◌==◌, if◌then◌else◌,
}

-- The conditions of the integer `cjmp`s of GJumpSubtype; the other ones by number.
pub data Cond : Type 0 where
  slt sge sle sgt ult uge ule ugt eq ne : Cond
  other_cond : ℕ → Cond

-- A jump, a conditional jump with its operands, or another instruction, by number.
pub data Instr : Type 0 where
  jmp : ℕ → Instr
  cjmp : Cond → ℕ → ℕ → Instr
  plain : ℕ → Instr

abbrev pub Block : Type 0
Block = List Instr

abbrev pub no_block : Block
no_block = []

unfoldable pub inverse : Cond → Option Cond
inverse slt = some sge
inverse sge = some slt
inverse sle = some sgt
inverse sgt = some sle
inverse ult = some uge
inverse uge = some ult
inverse ule = some ugt
inverse ugt = some ule
inverse eq = some ne
inverse ne = some eq
inverse (other_cond k) = none

-- The last two instructions of block `b`, `cjmp T` and `jmp F`, when `T` is the next block.
pub invert_pair : ℕ → Cond → ℕ → ℕ → ℕ → Option Cond → Block
invert_pair b c args t f none = cjmp c args t ∷ jmp f ∷ []
invert_pair b c args t f (some inv) =
    if not (t == b + 1) || f == b + 1
    then cjmp c args t ∷ jmp f ∷ []
    else cjmp inv args f ∷ jmp t ∷ []

unfoldable pub invert_block : ℕ → Block → Block
unfolding inverse invert_pair
invert_block b [] = []
invert_block b (i ∷ []) = i ∷ []
invert_block b (cjmp c args t ∷ jmp f ∷ []) = invert_pair b c args t f (inverse c)
invert_block b (jmp t ∷ j ∷ []) = jmp t ∷ j ∷ []
invert_block b (plain k ∷ j ∷ []) = plain k ∷ j ∷ []
invert_block b (cjmp c args t ∷ cjmp d brgs u ∷ []) = cjmp c args t ∷ cjmp d brgs u ∷ []
invert_block b (cjmp c args t ∷ plain k ∷ []) = cjmp c args t ∷ plain k ∷ []
invert_block b (i ∷ j ∷ k ∷ is) = i ∷ invert_block b (j ∷ k ∷ is)

-- `b + 1 < func.bbs.size()`: the last block stays.
pub invert_from : ℕ → List Block → List Block
invert_from b [] = []
invert_from b (x ∷ []) = x ∷ []
invert_from b (x ∷ y ∷ xs) = invert_block b x ∷ invert_from (suc b) (y ∷ xs)

unfoldable pub invert_branches_to_next : List Block → List Block
unfolding invert_from
invert_branches_to_next bbs = invert_from 0 bbs

-- The blocks that the instructions refer to.
unfoldable pub succs : Block → List ℕ
succs [] = []
succs (jmp t ∷ is) = t ∷ succs is
succs (cjmp c args t ∷ is) = t ∷ succs is
succs (plain k ∷ is) = succs is

pub record BlockInfo : Type 0 where
  pub loop_depth : List ℕ
  pub cold : List Bool

abbrev pub is_cold : BlockInfo → ℕ → Bool
is_cold info b = get_or info.cold b false

abbrev pub depth : BlockInfo → ℕ → ℕ
depth info b = get_or info.loop_depth b 0

-- The number of blocks stands for no block.
pub jmp_target : ℕ → Block → ℕ
jmp_target n [] = n
jmp_target n (jmp t ∷ []) = t
jmp_target n (cjmp c args t ∷ []) = n
jmp_target n (plain k ∷ []) = n
jmp_target n (i ∷ j ∷ is) = jmp_target n (j ∷ is)

-- `key(s) > key(best)` of the tuples (stays in the loop, is the target of the `jmp`, ~s).
pub key_gt : BlockInfo → ℕ → ℕ → ℕ → ℕ → Bool
key_gt info bb jt s best =
    let s_stays = leb (depth info bb) (depth info s) in
    let best_stays = leb (depth info bb) (depth info best) in
    if s_stays && not best_stays
    then true
    else if best_stays && not s_stays
    then false
    else if (s == jt) && not (best == jt)
    then true
    else if (best == jt) && not (s == jt)
    then false
    else ltb s best

pub record Layout : Type 0 where
  pub placed : List Bool
  pub order : List ℕ

abbrev pub is_placed : Layout → ℕ → Bool
is_placed st b = get_or st.placed b false

pub pick_from : ℕ → BlockInfo → Layout → ℕ → ℕ → ℕ → List ℕ → ℕ
pick_from n info st bb jt best [] = best
pick_from n info st bb jt best (s ∷ ss) =
    if is_placed st s || (is_cold info s && not (is_cold info bb))
    then pick_from n info st bb jt best ss
    else pick_from n info st bb jt (if best == n || key_gt info bb jt s best then s else best) ss

unfoldable pub pick_next : List Block → BlockInfo → Layout → ℕ → ℕ
unfolding pick_from succs jmp_target key_gt
pick_next bbs info st bb =
    let n = length bbs in
    let block = get_or bbs bb no_block in
    pick_from n info st bb (jmp_target n block) n (succs block)

abbrev pub place : Layout → ℕ → Layout
place st b = record { placed = set st.placed b true; order = st.order ++ b ∷ [] }

-- The fuel bounds the length of the chain.
pub build_chain : ℕ → List Block → BlockInfo → Layout → ℕ → Layout
build_chain zero bbs info st bb = st
build_chain (suc fuel) bbs info st bb =
    if bb == length bbs
    then st
    else build_chain fuel bbs info (place st bb) (pick_next bbs info (place st bb) bb)

-- One pass over the blocks from `b` on, `rounds` of them, that builds the chains of one heat.
pub chain_pass : ℕ → ℕ → Bool → List Block → BlockInfo → Layout → Layout
chain_pass b zero heat bbs info st = st
chain_pass b (suc rounds) heat bbs info st =
    let wanted = not (is_placed st b) && (if heat then is_cold info b else not (is_cold info b)) in
    chain_pass (suc b) rounds heat bbs info
      (if wanted then build_chain (length bbs) bbs info st b else st)

unfoldable pub layout : List Block → BlockInfo → Layout
unfolding build_chain chain_pass
layout bbs info =
    let n = length bbs in
    let start : Layout = record { placed = replicate n false; order = [] } in
    let hot = chain_pass 0 n false bbs info (build_chain n bbs info start 0) in
    chain_pass 0 n true bbs info hot

-- `new_id[order[i]] = i`.
pub number_from : ℕ → List ℕ → List ℕ → List ℕ
number_from i [] ids = ids
number_from i (b ∷ bs) ids = number_from (suc i) bs (set ids b i)

unfoldable pub new_ids : ℕ → List ℕ → List ℕ
unfolding number_from
new_ids n order = number_from 0 order (replicate n 0)

abbrev pub rename_instr : List ℕ → Instr → Instr
rename_instr ids (jmp t) = jmp (get_or ids t 0)
rename_instr ids (cjmp c args t) = cjmp c args (get_or ids t 0)
rename_instr ids (plain k) = plain k

abbrev pub rename : List ℕ → Block → Block
rename ids is = map (rename_instr ids) is

pub is_changed : ℕ → List ℕ → Bool
is_changed i [] = false
is_changed i (b ∷ bs) = not (b == i) || is_changed (suc i) bs

unfoldable pub apply_order : List Block → List ℕ → List Block
apply_order bbs order = map (λ b. rename (new_ids (length bbs) order) (get_or bbs b no_block)) order

-- `BBReordering::apply`.
unfoldable pub apply : List Block → BlockInfo → List Block
unfolding is_changed
apply bbs info =
    let order = (layout bbs info).order in
    if leb (length bbs) 2
    then bbs
    else if is_changed 0 order
    then invert_branches_to_next (apply_order bbs order)
    else invert_branches_to_next bbs
