-- ===== src/FlowGraph/Edges.antt =====
-- Every edge is in both lists, as often in the one as in the other.
use foptim.Base.{
  ℕ, zero, suc, ◌+◌, ◌<◌, ◌≡◌, ◌≢◌, refl, sym, ap, ◌∙◌, arith, List, [], ◌∷◌, ◌++◌, true, false,
  ◌==◌, ==_iff, if◌then◌else◌, get_or, length, ℕ_discrete,
}
use foptim.FlowGraph.{Node, no_node, update_at, push_succ, push_pred, add_edge}

unfoldable pub occurrences : List ℕ → ℕ → ℕ
occurrences [] v = 0
occurrences (x ∷ xs) v = if x == v then suc (occurrences xs v) else occurrences xs v

occurrences-push :
    (xs : List ℕ) (x v : ℕ)
    → occurrences (xs ++ x ∷ []) v ≡ occurrences xs v + (if x == v then 1 else 0)
unfolding occurrences
occurrences-push [] x v = ground arith
occurrences-push (y ∷ ys) x v = let ih = occurrences-push ys x v in ground arith

abbrev pub node_at : List Node → ℕ → Node
node_at nodes i = get_or nodes i no_node

-- `j` succeeds `i` as often as `i` precedes `j`.
abbrev pub IsDual : List Node → Type 0
IsDual nodes =
    (i j : ℕ) → occurrences (node_at nodes i).succ j ≡ occurrences (node_at nodes j).pred i

node_at-update_self :
    (nodes : List Node) (i : ℕ) (f : Node → Node)
    → i < length nodes
    → node_at (update_at nodes i f) i ≡ f (node_at nodes i)
unfolding update_at
node_at-update_self [] i f h = absurd (omega arith)
node_at-update_self (x ∷ xs) zero f h = refl
node_at-update_self (x ∷ xs) (suc i) f h = node_at-update_self xs i f (omega arith)

node_at-update_ne :
    (nodes : List Node) (i k : ℕ) (f : Node → Node)
    → k ≢ i
    → node_at (update_at nodes i f) k ≡ node_at nodes k
unfolding update_at
node_at-update_ne [] i k f h = refl
node_at-update_ne (x ∷ xs) zero zero f h = absurd (h refl)
node_at-update_ne (x ∷ xs) zero (suc k) f h = refl
node_at-update_ne (x ∷ xs) (suc i) zero f h = refl
node_at-update_ne (x ∷ xs) (suc i) (suc k) f h = node_at-update_ne xs i k f (λ e. h (ap suc e))

pub length-update_at :
    (nodes : List Node) (i : ℕ) (f : Node → Node) → length (update_at nodes i f) ≡ length nodes
unfolding update_at
length-update_at [] i f = refl
length-update_at (x ∷ xs) zero f = refl
length-update_at (x ∷ xs) (suc i) f = ap suc (length-update_at xs i f)

-- One more occurrence at the ends of the new edge, none elsewhere.
abbrev hit : ℕ → ℕ → ℕ → ℕ → ℕ
hit i j k l = if i == k then if j == l then 1 else 0 else 0

-- A change that keeps `side` and one that adds `v` to it.
kept :
    (side : Node → List ℕ) (nodes : List Node) (i k l : ℕ) (f : Node → Node)
    → ((n : Node) → side (f n) ≡ side n)
    → i < length nodes
    → occurrences (side (node_at (update_at nodes i f) k)) l
      ≡ occurrences (side (node_at nodes k)) l
kept side nodes i k l f same h = elim (ℕ_discrete k i) [
  | yes e ↦
      ap (λ m. occurrences (side (node_at (update_at nodes i f) m)) l) e
      ∙ ap (λ n. occurrences (side n) l) (node_at-update_self nodes i f h)
      ∙ ap (λ xs. occurrences xs l) (same (node_at nodes i))
      ∙ ap (λ m. occurrences (side (node_at nodes m)) l) (sym e)
  | no ne ↦ ap (λ n. occurrences (side n) l) (node_at-update_ne nodes i k f ne)
]

pushed :
    (side : Node → List ℕ) (nodes : List Node) (i v k l : ℕ) (f : Node → Node)
    → ((n : Node) → side (f n) ≡ side n ++ v ∷ [])
    → i < length nodes
    → occurrences (side (node_at (update_at nodes i f) k)) l
      ≡ occurrences (side (node_at nodes k)) l + hit i v k l
pushed side nodes i v k l f more h = elim (ℕ_discrete k i) [
  | yes e ↦
      let here : (i == k) ≡ true = (==_iff i k).1 (sym e) in
      rw here (
        ap (λ m. occurrences (side (node_at (update_at nodes i f) m)) l) e
        ∙ ap (λ n. occurrences (side n) l) (node_at-update_self nodes i f h)
        ∙ ap (λ xs. occurrences xs l) (more (node_at nodes i))
        ∙ occurrences-push (side (node_at nodes i)) v l
        ∙ ap (λ m. occurrences (side (node_at nodes m)) l + (if v == l then 1 else 0)) (sym e))
  | no ne ↦
      let away : (i == k) ≡ false = ground arith in
      rw away (ap (λ n. occurrences (side n) l) (node_at-update_ne nodes i k f ne) ∙ omega arith)
]

pub add_edge-IsDual :
    (nodes : List Node) (i j : ℕ)
    → i < length nodes
    → j < length nodes
    → IsDual nodes
    → IsDual (add_edge nodes i j)
unfolding add_edge
add_edge-IsDual nodes i j hi hj d k l =
    let first = update_at nodes i (push_succ j) in
    let size = length-update_at nodes i (push_succ j) in
    let s =
      kept (λ n. n.succ) first j k l (push_pred i) (λ n. refl) (omega (arith, size))
      ∙ pushed (λ n. n.succ) nodes i j k l (push_succ j) (λ n. refl) hi in
    let p =
      pushed (λ n. n.pred) first j i l k (push_pred i) (λ n. refl) (omega (arith, size))
      ∙ ap (λ m. m + hit j i l k) (kept (λ n. n.pred) nodes i l k (push_succ j) (λ n. refl) hi) in
    let base = d k l in
    s
    ∙ ap (λ m. m + hit i j k l) base
    ∙ ap (λ m. occurrences (node_at nodes l).pred k + m) symmetric
    ∙ sym p
  where
    symmetric : hit i j k l ≡ hit j i l k
    symmetric = ground arith
