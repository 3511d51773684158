-- ===== src/FlowGraph/Updates.antt =====
-- `update` and `update_merge_succ` keep the two lists of edges in step.
use foptim.Base.Options.{bind-some}
use foptim.Base.{
  ℕ, zero, suc, ◌+◌, ◌≤◌, ◌<◌, ◌≡◌, refl, sym, ap, ◌∙◌, subst, arith, List, [], ◌∷◌, map, Bool,
  true, false, ◌==◌, if◌then◌else◌, some, get_or, length, length-map, Bool-cases, inl, inr, some_eq,
}
use foptim.FlowGraph.{
  Node, no_node, FuncBlock, get_bb_id, update_at, push_succ, push_pred, add_edge, add_targets,
  add_blocks, swap_edges, new_node, update, contains, merge_succs, update_merge_succ,
}
use foptim.FlowGraph.Edges.{occurrences, node_at, IsDual, add_edge-IsDual, length-update_at}

get_bb_id-lt : (nodes : List Node) (b j : ℕ) → get_bb_id nodes b ≡ some j → j < length nodes
unfolding get_bb_id
get_bb_id-lt [] b j h = absurd (cc)
get_bb_id-lt (x ∷ xs) b j h = elim (Bool-cases (x.bb == b)) [
  | inl here ↦ let e = some_eq _ _ (rw here at h) in omega (arith, e)
  | inr later ↦
      let (k, found, e) = bind-some (get_bb_id xs b) _ j (rw later at h) in
      omega (arith, some_eq _ _ e, get_bb_id-lt xs b k found)
]

length-add_edge : (nodes : List Node) (i j : ℕ) → length (add_edge nodes i j) ≡ length nodes
unfolding add_edge
length-add_edge nodes i j =
    length-update_at (update_at nodes i (push_succ j)) j (push_pred i)
    ∙ length-update_at nodes i (push_succ j)

-- A graph of `n` nodes in step.
abbrev IsGraph : ℕ → List Node → Type 0
IsGraph n nodes = (length nodes ≡ n) × IsDual nodes

add_targets-IsGraph :
    (n from : ℕ) (nodes : List Node) (ts : List ℕ) (out : List Node)
    → from < n
    → IsGraph n nodes
    → add_targets nodes from ts ≡ some out
    → IsGraph n out
unfolding add_targets
add_targets-IsGraph n from nodes [] out hf h e = subst (IsGraph n) (some_eq _ _ e) h
add_targets-IsGraph n from nodes (t ∷ ts) out hf h e =
    let (j, found, e') = bind-some (get_bb_id nodes t) _ out e in
    add_targets-IsGraph n from (add_edge nodes from j) ts out hf
      (
        length-add_edge nodes from j ∙ h.0,
        add_edge-IsDual nodes from j (omega (arith, h.0)) (get_bb_id-lt nodes t j found) h.1,
      )
      e'

add_blocks-IsGraph :
    (n from : ℕ) (nodes : List Node) (bs : List FuncBlock) (out : List Node)
    → from + length bs ≤ n
    → IsGraph n nodes
    → add_blocks nodes from bs ≡ some out
    → IsGraph n out
unfolding add_blocks
add_blocks-IsGraph n from nodes [] out hf h e = subst (IsGraph n) (some_eq _ _ e) h
add_blocks-IsGraph n from nodes (b ∷ bs) out hf h e = elim (Bool-cases b.returns) [
  | inl ends ↦ add_blocks-IsGraph n (suc from) nodes bs out (omega arith) h (rw ends at e)
  | inr goes_on ↦
      let (next, found, e') =
        bind-some (add_targets nodes from b.targets) _ out (rw goes_on at e) in
      add_blocks-IsGraph n (suc from) next bs out (omega arith)
        (add_targets-IsGraph n from nodes b.targets next (omega arith) h found) e'
]

new_nodes-IsDual : (bs : List FuncBlock) → IsDual (map new_node bs)
unfolding occurrences
new_nodes-IsDual bs i j = no_succ bs i j ∙ sym (no_pred bs j i)
  where
    no_succ : (cs : List FuncBlock) (k l : ℕ) → occurrences (node_at (map new_node cs) k).succ l ≡ 0
    no_succ [] k l = refl
    no_succ (c ∷ cs) zero l = refl
    no_succ (c ∷ cs) (suc k) l = no_succ cs k l

    no_pred : (cs : List FuncBlock) (k l : ℕ) → occurrences (node_at (map new_node cs) k).pred l ≡ 0
    no_pred [] k l = refl
    no_pred (c ∷ cs) zero l = refl
    no_pred (c ∷ cs) (suc k) l = no_pred cs k l

node_at-swap :
    (nodes : List Node) (k : ℕ) → node_at (map swap_edges nodes) k ≡ swap_edges (node_at nodes k)
node_at-swap [] k = refl
node_at-swap (x ∷ xs) zero = refl
node_at-swap (x ∷ xs) (suc k) = node_at-swap xs k

swap-IsDual : (nodes : List Node) → IsDual nodes → IsDual (map swap_edges nodes)
swap-IsDual nodes d i j =
    ap (λ n. occurrences n.succ j) (node_at-swap nodes i)
    ∙ sym (d j i)
    ∙ ap (λ n. occurrences n.pred i) (sym (node_at-swap nodes j))

-- If update builds a graph, because every target is a block of the function, then the graph has a
-- node for each block, and one node lists another as a successor as often as that one lists it as a
-- predecessor; this holds for the reversed graph too.
pub update-IsDual :
    (blocks : List FuncBlock) (reverse : Bool) (nodes : List Node)
    → update blocks reverse ≡ some nodes
    → (length nodes ≡ length blocks) × IsDual nodes
unfolding update
update-IsDual blocks reverse nodes h =
    let (built, e, e') = bind-some (add_blocks (map new_node blocks) 0 blocks) _ nodes h in
    let size = length-map blocks new_node in
    let g =
      add_blocks-IsGraph (length blocks) 0 (map new_node blocks) blocks built (omega arith)
        (size, new_nodes-IsDual blocks) e in
    subst (IsGraph (length blocks)) (some_eq _ _ e') (turned reverse built g)
  where
    turned :
        (r : Bool) (built : List Node)
        → IsGraph (length blocks) built
        → IsGraph (length blocks) (if r then map swap_edges built else built)
    turned true built g = (length-map built swap_edges ∙ g.0, swap-IsDual built g.1)
    turned false built g = g

unfoldable pub Below : ℕ → List ℕ → Type 0
Below n [] = Unit {0}
Below n (x ∷ xs) = (x < n) × Below n xs

merge_succs-IsDual :
    (nodes : List Node) (b : ℕ) (ss : List ℕ)
    → b < length nodes
    → Below (length nodes) ss
    → IsDual nodes
    → IsDual (merge_succs nodes b ss)
unfolding merge_succs Below
merge_succs-IsDual nodes b [] hb hs d = d
merge_succs-IsDual nodes b (s ∷ ss) hb hs d =
    elim (Bool-cases (contains (get_or nodes b no_node).succ s)) [
      | inl known ↦ rw known (merge_succs-IsDual nodes b ss hb hs.1 d)
      | inr new ↦
          let size = length-add_edge nodes b s in
          rw new (
            merge_succs-IsDual (add_edge nodes b s) b ss (omega (arith, size))
              (subst (λ n. Below n ss) (sym size) hs.1) (add_edge-IsDual nodes b s hb hs.0 d))
    ]

-- For a graph in which successors and predecessors are listed equally often, a node of it, and
-- another node whose successors are nodes of the graph: after update_merge_succ they are again
-- listed equally often.
pub update_merge_succ-IsDual :
    (nodes : List Node) (b other : ℕ)
    → b < length nodes
    → Below (length nodes) (node_at nodes other).succ
    → IsDual nodes
    → IsDual (update_merge_succ nodes b other)
unfolding update_merge_succ
update_merge_succ-IsDual nodes b other hb hs d =
    merge_succs-IsDual nodes b (node_at nodes other).succ hb hs d
