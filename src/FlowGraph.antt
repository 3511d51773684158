-- ===== src/FlowGraph.antt =====
-- src/optim/analysis/cfg.hpp: the control flow graph of a function. A block of the function is a
-- number, with what the graph reads of its terminator. A failed assertion is `none`.
pub mod Edges
pub mod Updates
use foptim.Base.Options.{◌>>=◌}
use foptim.Base.{
  ℕ, zero, suc, ◌+◌, List, [], ◌∷◌, ◌++◌, map, Bool, true, false, not, ◌==◌, ltb, if◌then◌else◌,
  Option, none, some, get_or, length,
}

pub record Node : Type 0 where
  pub bb : ℕ
  pub pred : List ℕ
  pub succ : List ℕ

abbrev pub no_node : Node
no_node = record { bb = 0; pred = []; succ = [] }

-- A block, whether it ends in a return, and the targets of its terminator.
pub record FuncBlock : Type 0 where
  pub block : ℕ
  pub returns : Bool
  pub targets : List ℕ

-- `get_bb_id`, the scan; the map of a large function holds the same numbers.
unfoldable pub get_bb_id : List Node → ℕ → Option ℕ
get_bb_id [] search_bb = none
get_bb_id (node ∷ nodes) search_bb =
    if node.bb == search_bb then some 0 else (do id ← get_bb_id nodes search_bb; some (suc id))

unfoldable pub update_at : List Node → ℕ → (Node → Node) → List Node
update_at [] i f = []
update_at (node ∷ nodes) zero f = f node ∷ nodes
update_at (node ∷ nodes) (suc i) f = node ∷ update_at nodes i f

abbrev pub push_succ : ℕ → Node → Node
push_succ j node = record node { succ = node.succ ++ j ∷ [] }

abbrev pub push_pred : ℕ → Node → Node
push_pred i node = record node { pred = node.pred ++ i ∷ [] }

unfoldable pub add_edge : List Node → ℕ → ℕ → List Node
unfolding update_at
add_edge nodes from j = update_at (update_at nodes from (push_succ j)) j (push_pred from)

unfoldable pub add_targets : List Node → ℕ → List ℕ → Option (List Node)
unfolding add_edge
add_targets nodes from [] = some nodes
add_targets nodes from (t ∷ ts) = do
  j ← get_bb_id nodes t
  add_targets (add_edge nodes from j) from ts

unfoldable pub add_blocks : List Node → ℕ → List FuncBlock → Option (List Node)
unfolding add_targets
add_blocks nodes from [] = some nodes
add_blocks nodes from (b ∷ bs) =
    if b.returns
    then add_blocks nodes (suc from) bs
    else (do next ← add_targets nodes from b.targets; add_blocks next (suc from) bs)

abbrev pub swap_edges : Node → Node
swap_edges node = record node { pred = node.succ; succ = node.pred }

abbrev pub new_node : FuncBlock → Node
new_node b = record { bb = b.block; pred = []; succ = [] }

-- `update`: every node is made or reset first.
unfoldable pub update : List FuncBlock → Bool → Option (List Node)
unfolding add_blocks
update blocks reverse = do
  nodes ← add_blocks (map new_node blocks) 0 blocks
  some (if reverse then map swap_edges nodes else nodes)

pub contains : List ℕ → ℕ → Bool
contains [] v = false
contains (x ∷ xs) v = if x == v then true else contains xs v

unfoldable pub merge_succs : List Node → ℕ → List ℕ → List Node
unfolding add_edge contains
merge_succs nodes bb_id [] = nodes
merge_succs nodes bb_id (s ∷ ss) =
    if contains (get_or nodes bb_id no_node).succ s
    then merge_succs nodes bb_id ss
    else merge_succs (add_edge nodes bb_id s) bb_id ss

unfoldable pub update_merge_succ : List Node → ℕ → ℕ → List Node
unfolding merge_succs
update_merge_succ nodes bb_id other = merge_succs nodes bb_id (get_or nodes other no_node).succ
