-- ===== src/Tests/Graphs.antt =====
-- A loop: block 10 enters 11, which goes to 12 or to 13, 12 goes back, and 13 returns.
use foptim.Base.{◌≡◌, refl, List, [], ◌∷◌, true, false, some, length, arith}
use foptim.FlowGraph.{Node, FuncBlock, update, update_merge_succ, get_bb_id}
use foptim.FlowGraph.Edges.{IsDual}
use foptim.FlowGraph.Updates.{Below, update-IsDual, update_merge_succ-IsDual}

abbrev loop_blocks : List FuncBlock
loop_blocks =
    record { block = 10; returns = false; targets = 11 ∷ [] }
    ∷ record { block = 11; returns = false; targets = 12 ∷ 13 ∷ [] }
    ∷ record { block = 12; returns = false; targets = 11 ∷ [] }
    ∷ record { block = 13; returns = true; targets = [] }
    ∷ []

abbrev loop_nodes : List Node
loop_nodes =
    record { bb = 10; pred = []; succ = 1 ∷ [] }
    ∷ record { bb = 11; pred = 0 ∷ 2 ∷ []; succ = 2 ∷ 3 ∷ [] }
    ∷ record { bb = 12; pred = 1 ∷ []; succ = 1 ∷ [] }
    ∷ record { bb = 13; pred = 1 ∷ []; succ = [] }
    ∷ []

update_runs : update loop_blocks false ≡ some loop_nodes
unfolding update get_bb_id
update_runs = refl

update-IsDual_example : (length loop_nodes ≡ 4) × IsDual loop_nodes
update-IsDual_example = update-IsDual loop_blocks false loop_nodes update_runs

two-Below : Below 4 (2 ∷ 3 ∷ [])
unfolding Below
two-Below = (omega arith, (omega arith, tt))

update_merge_succ-IsDual_example : IsDual (update_merge_succ loop_nodes 0 1)
update_merge_succ-IsDual_example =
    update_merge_succ-IsDual loop_nodes 0 1 (omega arith) two-Below
      (update-IsDual loop_blocks false loop_nodes update_runs).1
