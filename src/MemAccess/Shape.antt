-- ===== src/MemAccess/Shape.antt =====
-- `decompose_ptr` describes the address that it is given.
use foptim.Base.{
  ℕ, zero, suc, ◌+◌, ◌^◌, ◌<◌, ◌≡◌, refl, ap, subst, List, [], ◌∷◌, length, Bool, true, false, none,
  some, arith, ◌==◌, Bool-cases, Option-cases, some_eq, inl, inr, ==_iff,
}
use foptim.Base.Options.{bind-some}
use foptim.MemAccess.{
  int_add, int_sub, int_mul, shl, ptr_add, other_op, Node, constant, instr, leaf, Values, IndexTerm,
  Linear, PtrShape, Walk, add_i64, add_term, add_terms, index_linear, put_anchor, move_anchor,
  walk_add, walk_step, walk, decompose_ptr, start_shape,
}
use foptim.MemAccess.Terms.{Congruent, add_i64-sum, sum, add_term-sum}
use foptim.MemAccess.OneTerm.{IsDistinct, add_terms-IsDistinct, empty-IsDistinct}
use foptim.MemAccess.Indices.{Computes, linear_value, index_linear-value}

-- The address is what the shape says, from its base and from its anchor.
pub record Describes (env : ℕ → ℕ) (addr : ℕ) (s : PtrShape) : Type 0 where
  pub from_base : Congruent (env addr) (env s.base + (s.offset + sum env s.terms))
  pub from_anchor : Congruent (env addr) (env s.anchor + s.anchor_offset)
  pub offset_word : s.offset < 2 ^ 64
  pub one_term : IsDistinct s.terms

-- While the anchor is open it is the base.
record Walks (env : ℕ → ℕ) (addr : ℕ) (w : Walk) : Type 0 where
  describes : Describes env addr w.shape
  open_anchor : w.anchor_open ≡ true → w.shape.anchor ≡ w.shape.base

add_terms-sum :
    (env : ℕ → ℕ) (ts xs us : List IndexTerm)
    → add_terms ts xs ≡ some us
    → Congruent (sum env us) (sum env ts + sum env xs)
unfolding add_terms sum
add_terms-sum env ts [] us h = rw (← some_eq _ _ h) (omega arith)
add_terms-sum env ts (x ∷ xs) us h =
    let (mid, em, h') = bind-some (add_term ts x.index x.scale) _ us h in
    let first = add_term-sum env ts x.index x.scale mid em in
    let rest = add_terms-sum env mid xs us h' in omega (arith, first, rest)

sum-empty : (env : ℕ → ℕ) (ts : List IndexTerm) → length ts ≡ 0 → sum env ts ≡ 0
unfolding sum
sum-empty env [] q = refl
sum-empty env (t ∷ ts) q = absurd (omega arith)

module _ (g : Values) (env : ℕ → ℕ) (computes : Computes g env) (addr : ℕ) where
  -- The anchor after a round, with the base that the round leaves.
  move_anchor-Walks :
      (s : PtrShape) (open_now : Bool) (lin : Linear) (below index : ℕ)
      → let w : Walk = record { shape = s; anchor_open = open_now } in
        Walks env addr w
        → Congruent (env s.base) (env below + env index)
        → Congruent (linear_value g env computes lin) (env index)
        → let m = move_anchor w lin below in
          Congruent (env addr) (env m.shape.anchor + m.shape.anchor_offset)
          × (m.anchor_open ≡ true → m.shape.anchor ≡ below)
  unfolding move_anchor put_anchor
  move_anchor-Walks s false lin below index h hb hl = (h.describes.from_anchor, λ e. absurd (cc))
  move_anchor-Walks s true lin below index h hb hl = elim (Bool-cases (length lin.terms == 0)) [
    | inr several ↦ rw several (h.describes.from_anchor, λ e. absurd (cc))
    | inl none_left ↦ elim (Option-cases (add_i64 s.anchor_offset lin.offset)) [
      | inl over ↦ rw (none_left, over) (h.describes.from_anchor, λ e. absurd (cc))
      | inr (ao, e) ↦
          let r = add_i64-sum s.anchor_offset lin.offset ao e in
          let at_base = ap env (h.open_anchor refl) in
          let empty_sum = sum-empty env lin.terms ((==_iff (length lin.terms) 0).0 none_left) in
          rw (none_left, e)
            (omega (arith, r.0, at_base, empty_sum, h.describes.from_anchor, hb, hl), λ q. refl)
    ]
  ]

  walk_add-Walks :
      (w next : Walk) (below index : ℕ)
      → Walks env addr w
      → Congruent (env w.shape.base) (env below + env index)
      → walk_add g w below index ≡ some next
      → Walks env addr next
  unfolding walk_add
  walk_add-Walks w next below index h hb k =
      let (lin, el, k1) = bind-some (index_linear g index) _ next k in
      let (offset, eo, k2) = bind-some (add_i64 w.shape.offset lin.offset) _ next k1 in
      let (terms, et, k3) = bind-some (add_terms w.shape.terms lin.terms) _ next k2 in
      let value = index_linear-value g env computes index lin el in
      let o = add_i64-sum w.shape.offset lin.offset offset eo in
      let t = add_terms-sum env w.shape.terms lin.terms terms et in
      let a = move_anchor-Walks w.shape w.anchor_open lin below index h hb value in
      let same = some_eq _ _ k3 in
      subst (Walks env addr) same (record {
        describes = record {
          from_base = omega (arith, h.describes.from_base, hb, value, o.0, t);
          from_anchor = a.0;
          offset_word = o.1;
          one_term = add_terms-IsDistinct w.shape.terms lin.terms terms h.describes.one_term et;
        };
        open_anchor = a.1;
      })

  walk_step-Walks :
      (w next : Walk) (n : Node)
      → g w.shape.base ≡ n
      → Walks env addr w
      → walk_step g w n ≡ some next
      → Walks env addr next
  unfolding walk_step
  walk_step-Walks w next (constant c) e h k = absurd (cc)
  walk_step-Walks w next (instr ptr_add is_i64 a b) e h k =
      walk_add-Walks w next a b h (computes.ptr_adds w.shape.base a b is_i64 e) k
  walk_step-Walks w next (instr int_add is_i64 a b) e h k = absurd (cc)
  walk_step-Walks w next (instr int_sub is_i64 a b) e h k = absurd (cc)
  walk_step-Walks w next (instr int_mul is_i64 a b) e h k = absurd (cc)
  walk_step-Walks w next (instr shl is_i64 a b) e h k = absurd (cc)
  walk_step-Walks w next (instr other_op is_i64 a b) e h k = absurd (cc)
  walk_step-Walks w next leaf e h k = absurd (cc)

  walk-Walks : (fuel : ℕ) (w : Walk) → Walks env addr w → Walks env addr (walk g fuel w)
  unfolding walk
  walk-Walks zero w h = h
  walk-Walks (suc fuel) w h = elim (Option-cases (walk_step g w (g w.shape.base))) [
    | inl stop ↦ rw stop h
    | inr (next, e) ↦ rw e (walk-Walks fuel next (walk_step-Walks w next (g w.shape.base) refl h e))
  ]

  -- Where env gives every value the 64 bits that its instruction computes: with any fuel, the shape
  -- that decompose_ptr returns gives the address as base + offset + sum(index * scale), and as
  -- anchor + anchor_offset, modulo 2^64; its offset is a 64 bit word, and no two of its terms have
  -- the same index.
  pub decompose_ptr-Describes : (fuel : ℕ) → Describes env addr (decompose_ptr g fuel addr)
  unfolding decompose_ptr sum
  decompose_ptr-Describes fuel =
      (walk-Walks fuel (record { shape = start_shape addr; anchor_open = true })
        (record {
          describes = record {
            from_base = omega arith;
            from_anchor = omega arith;
            offset_word = omega arith;
            one_term = empty-IsDistinct;
          };
          open_anchor = λ e. refl;
        })).describes

-- The base of a `PtrAdd` has a lower rank than the `PtrAdd`, so that the loop ends.
module _ (g : Values) (rank : ℕ → ℕ)
    (acyclic : (v a b : ℕ) (is_i64 : Bool) → g v ≡ instr ptr_add is_i64 a b → rank a < rank v) where
  walk_step-rank :
      (w next : Walk) (n : Node)
      → g w.shape.base ≡ n
      → walk_step g w n ≡ some next
      → rank next.shape.base < rank w.shape.base
  unfolding walk_step walk_add
  walk_step-rank w next (constant c) e k = absurd (cc)
  walk_step-rank w next (instr ptr_add is_i64 a b) e k =
      let (lin, el, k1) = bind-some (index_linear g b) _ next k in
      let (offset, eo, k2) = bind-some (add_i64 w.shape.offset lin.offset) _ next k1 in
      let (terms, et, k3) = bind-some (add_terms w.shape.terms lin.terms) _ next k2 in
      subst (λ m. rank m.shape.base < rank w.shape.base) (some_eq _ _ k3)
        (acyclic w.shape.base a b is_i64 e)
  walk_step-rank w next (instr int_add is_i64 a b) e k = absurd (cc)
  walk_step-rank w next (instr int_sub is_i64 a b) e k = absurd (cc)
  walk_step-rank w next (instr int_mul is_i64 a b) e k = absurd (cc)
  walk_step-rank w next (instr shl is_i64 a b) e k = absurd (cc)
  walk_step-rank w next (instr other_op is_i64 a b) e k = absurd (cc)
  walk_step-rank w next leaf e k = absurd (cc)

  walk-stops :
      (fuel : ℕ) (w : Walk)
      → rank w.shape.base < fuel
      → let end = walk g fuel w in walk_step g end (g end.shape.base) ≡ none
  unfolding walk
  walk-stops zero w h = absurd (omega arith)
  walk-stops (suc fuel) w h = elim (Option-cases (walk_step g w (g w.shape.base))) [
    | inl stop ↦ rw stop stop
    | inr (next, e) ↦
        let below = walk_step-rank w next (g w.shape.base) refl e in
        rw e (walk-stops fuel next (omega arith))
  ]

  -- Where the base operand of each pointer addition has a lower rank than its result, and the fuel
  -- is above the rank of the address: the loop of decompose_ptr has left at a state from which no
  -- further round is possible, and its shape is the result.
  pub decompose_ptr-settles :
      (fuel addr : ℕ)
      → rank addr < fuel
      → (w : Walk) × (w.shape ≡ decompose_ptr g fuel addr) × (walk_step g w (g w.shape.base) ≡ none)
  unfolding decompose_ptr
  decompose_ptr-settles fuel addr h =
      let start : Walk = record { shape = start_shape addr; anchor_open = true } in
      (walk g fuel start, refl, walk-stops fuel start h)
