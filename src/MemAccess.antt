-- ===== src/MemAccess.antt =====
-- src/optim/analysis/mem/mem_access.hpp, src/optim/analysis/mem/mem_access.cpp: addresses as
-- base + offset + sum(index * scale). A `ValueR` is a number, and `Values` says what the analysis
-- reads of each. An `i64` is its 64 bits, an `i128` constant its 128 bits. A fixed array with its
-- count is a list.
pub mod Terms
pub mod Indices
pub mod Shape
pub mod OneTerm
pub mod SameTerms
pub mod Overlap
use foptim.Base.Options.{◌>>=◌, or_else}
use foptim.Base.{
  ℕ, zero, suc, ◌+◌, ◌-◌, ◌*◌, ◌/◌, ◌^◌, Bool, true, false, not, ◌&&◌, ◌||◌, Option, none, some,
  List, [], ◌∷◌, length, get_or, set, take, ltb, leb, ◌==◌, if◌then◌else◌, u64,
}

pub data Op : Type 0 where
  int_add int_sub int_mul shl ptr_add other_op : Op

-- What the analysis reads of a value: an integer constant, an instruction with its opcode, whether
-- its type is `i64`, and its first two operands, or neither.
pub data Node : Type 0 where
  constant : ℕ → Node
  instr : Op → Bool → ℕ → ℕ → Node
  leaf : Node

abbrev pub Values : Type 0
Values = ℕ → Node

pub record IndexTerm : Type 0 where
  pub index : ℕ
  pub scale : ℕ

abbrev pub max_terms : ℕ
max_terms = 3

abbrev pub max_linear_depth : ℕ
max_linear_depth = 6

abbrev pub is_neg : ℕ → Bool
is_neg x = leb (2 ^ 63) x

abbrev pub magnitude : ℕ → ℕ
magnitude x = if is_neg x then 2 ^ 64 - x else x

-- `none` is an overflow.
unfoldable pub add_i64 : ℕ → ℕ → Option ℕ
add_i64 a b =
    let s = u64 (a + b) in
    if is_neg a && is_neg b && not (is_neg s) || not (is_neg a) && not (is_neg b) && is_neg s
    then none
    else some s

unfoldable pub mul_i64 : ℕ → ℕ → Option ℕ
mul_i64 a b =
    let p = magnitude a * magnitude b in
    if is_neg a && not (is_neg b) || not (is_neg a) && is_neg b
    then if leb p (2 ^ 63) then some (u64 (2 ^ 64 - p)) else none
    else if ltb p (2 ^ 63)
    then some p
    else none

pub find_index : List IndexTerm → ℕ → Option ℕ
find_index [] index = none
find_index (t ∷ ts) index =
    if t.index == index
    then some 0
    else elim (find_index ts index) [ none ↦ none | some i ↦ some (suc i) ]

abbrev pub no_term : IndexTerm
no_term = record { index = 0; scale = 0 }

-- `dst[i] = dst[n - 1]; n--`.
unfoldable pub swap_remove : List IndexTerm → ℕ → List IndexTerm
swap_remove ts i = let last = length ts - 1 in take last (set ts i (get_or ts last no_term))

-- The term at `i` with its new scale, `none` when that overflows.
pub merge_term : List IndexTerm → ℕ → Option ℕ → Option (List IndexTerm)
unfolding swap_remove
merge_term ts i none = none
merge_term ts i (some s) =
    if s == 0
    then some (swap_remove ts i)
    else some (set ts i (record { index = (get_or ts i no_term).index; scale = s }))

abbrev pub push_back : List IndexTerm → IndexTerm → List IndexTerm
push_back [] t = t ∷ []
push_back (x ∷ xs) t = x ∷ push_back xs t

-- `place_term` goes on with the index that the loop of `add_term` has found.
pub place_term : List IndexTerm → ℕ → ℕ → Option ℕ → Option (List IndexTerm)
unfolding merge_term
place_term ts index scale (some i) = merge_term ts i (add_i64 (get_or ts i no_term).scale scale)
place_term ts index scale none =
    if scale == 0
    then some ts
    else if length ts == max_terms
    then none
    else some (push_back ts (record { index = index; scale = scale }))

unfoldable pub add_term : List IndexTerm → ℕ → ℕ → Option (List IndexTerm)
unfolding find_index place_term
add_term ts index scale = place_term ts index scale (find_index ts index)

unfoldable pub fits_i64 : ℕ → Bool
fits_i64 c = ltb c (2 ^ 63) || leb (2 ^ 128 - 2 ^ 63) c

unfoldable pub const_i64 : Node → Option ℕ
const_i64 (constant c) = if fits_i64 c then some (u64 c) else none
const_i64 (instr op is_i64 a b) = none
const_i64 leaf = none

-- offset + sum(index * scale).
pub record Linear : Type 0 where
  pub offset : ℕ
  pub terms : List IndexTerm

abbrev pub empty_linear : Linear
empty_linear = record { offset = 0; terms = [] }

unfoldable pub add_constant : ℕ → ℕ → Linear → Option Linear
add_constant c mult lin = do
  m ← mul_i64 c mult
  o ← add_i64 lin.offset m
  some (record lin { offset = o })

unfoldable pub add_opaque : ℕ → ℕ → Linear → Option Linear
add_opaque v mult lin = do ts ← add_term lin.terms v mult; some (record lin { terms = ts })

-- The multiplier of the look through `c * w`, when the constant and the product fit.
unfoldable pub scaled : Option ℕ → ℕ → Option ℕ
scaled none mult = none
scaled (some k) mult = mul_i64 k mult

unfoldable pub shifted : Option ℕ → ℕ → Option ℕ
shifted none mult = none
shifted (some k) mult = if ltb k 62 then mul_i64 (2 ^ k) mult else none

abbrev pub when_some : Option ℕ → (ℕ → Option Linear) → Option Linear → Option Linear
when_some none f other = other
when_some (some m) f other = f m

-- The instructions that `linearize` looks through; `go` is `linearize` one level deeper.
pub look_through :
    Values → (ℕ → ℕ → Linear → Option Linear) → ℕ → Op → ℕ → ℕ → ℕ → Linear → Option Linear
look_through g go v int_add a b mult lin = do mid ← go a mult lin; go b mult mid
look_through g go v int_sub a b mult lin =
    if mult == 2 ^ 63
    then add_opaque v mult lin
    else (do mid ← go a mult lin; go b (u64 (2 ^ 64 - mult)) mid)
look_through g go v int_mul a b mult lin =
    when_some (scaled (const_i64 (g a)) mult) (λ m. go b m lin)
      (when_some (scaled (const_i64 (g b)) mult) (λ m. go a m lin) (add_opaque v mult lin))
look_through g go v shl a b mult lin =
    when_some (shifted (const_i64 (g b)) mult) (λ m. go a m lin) (add_opaque v mult lin)
look_through g go v ptr_add a b mult lin = add_opaque v mult lin
look_through g go v other_op a b mult lin = add_opaque v mult lin

abbrev pub at_instr :
    Values → (ℕ → ℕ → Linear → Option Linear) → ℕ → Node → ℕ → Linear → Option Linear
at_instr g go v (constant c) mult lin = add_opaque v mult lin
at_instr g go v (instr op true a b) mult lin = look_through g go v op a b mult lin
at_instr g go v (instr op false a b) mult lin = add_opaque v mult lin
at_instr g go v leaf mult lin = add_opaque v mult lin

-- `depth` counts down from `max_linear_depth`.
pub linearize : Values → ℕ → ℕ → ℕ → Linear → Option Linear
linearize g zero v mult lin =
    when_some (const_i64 (g v)) (λ c. add_constant c mult lin) (add_opaque v mult lin)
linearize g (suc depth) v mult lin =
    when_some (const_i64 (g v)) (λ c. add_constant c mult lin)
      (at_instr g (linearize g depth) v (g v) mult lin)

pub record PtrShape : Type 0 where
  pub addr : ℕ
  pub base : ℕ
  pub offset : ℕ
  pub terms : List IndexTerm
  pub anchor : ℕ
  pub anchor_offset : ℕ

-- `IndexTerm::operator==`.
pub same_term : IndexTerm → IndexTerm → Bool
same_term t x = t.index == x.index && t.scale == x.scale

pub has_term : List IndexTerm → IndexTerm → Bool
has_term [] t = false
has_term (x ∷ xs) t = same_term t x || has_term xs t

pub all_found : List IndexTerm → List IndexTerm → Bool
all_found [] ys = true
all_found (x ∷ xs) ys = has_term ys x && all_found xs ys

unfoldable pub same_terms : PtrShape → PtrShape → Bool
unfolding all_found has_term same_term
same_terms s o = length s.terms == length o.terms && all_found s.terms o.terms

unfoldable pub same_base : PtrShape → PtrShape → Bool
same_base s o = s.base == o.base && same_terms s o

-- `operator==`.
unfoldable pub same_shape : PtrShape → PtrShape → Bool
same_shape s o = same_base s o && s.offset == o.offset

abbrev pub start_shape : ℕ → PtrShape
start_shape addr = record {
  addr = addr;
  base = addr;
  offset = 0;
  terms = [];
  anchor = addr;
  anchor_offset = 0;
}

unfoldable pub add_terms : List IndexTerm → List IndexTerm → Option (List IndexTerm)
add_terms ts [] = some ts
add_terms ts (x ∷ xs) = do next ← add_term ts x.index x.scale; add_terms next xs

-- The index operand, as one term when it does not linearize.
unfoldable pub index_linear : Values → ℕ → Option Linear
unfolding linearize look_through
index_linear g v =
    or_else (linearize g max_linear_depth v 1 empty_linear) (add_opaque v 1 empty_linear)

-- The state of the loop of `decompose_ptr`.
pub record Walk : Type 0 where
  pub shape : PtrShape
  pub anchor_open : Bool

pub put_anchor : Walk → ℕ → Option ℕ → Walk
put_anchor w below (some ao) = record w {
  shape = record (w.shape) { anchor_offset = ao; anchor = below };
}
put_anchor w below none = record w { anchor_open = false }

pub move_anchor : Walk → Linear → ℕ → Walk
unfolding put_anchor
move_anchor w lin below =
    if w.anchor_open
    then if length lin.terms == 0
      then put_anchor w below (add_i64 w.shape.anchor_offset lin.offset)
      else record w { anchor_open = false }
    else w

-- One round on `PtrAdd below index`; `none` leaves the loop.
unfoldable pub walk_add : Values → Walk → ℕ → ℕ → Option Walk
unfolding move_anchor
walk_add g w below index = do
  lin ← index_linear g index
  offset ← add_i64 w.shape.offset lin.offset
  terms ← add_terms w.shape.terms lin.terms
  let moved = move_anchor w lin below in
      some (record moved {
        shape = record (moved.shape) { offset = offset; terms = terms; base = below };
      })

unfoldable pub walk_step : Values → Walk → Node → Option Walk
walk_step g w (constant c) = none
walk_step g w (instr ptr_add is_i64 a b) = walk_add g w a b
walk_step g w (instr int_add is_i64 a b) = none
walk_step g w (instr int_sub is_i64 a b) = none
walk_step g w (instr int_mul is_i64 a b) = none
walk_step g w (instr shl is_i64 a b) = none
walk_step g w (instr other_op is_i64 a b) = none
walk_step g w leaf = none

abbrev pub advance : Walk → (Walk → Walk) → Option Walk → Walk
advance w go none = w
advance w go (some next) = go next

pub walk : Values → ℕ → Walk → Walk
walk g zero w = w
walk g (suc fuel) w = advance w (walk g fuel) (walk_step g w (g w.shape.base))

unfoldable pub decompose_ptr : Values → ℕ → ℕ → PtrShape
unfolding walk
decompose_ptr g fuel addr =
    (walk g fuel (record { shape = start_shape addr; anchor_open = true })).shape

pub record MemLoc : Type 0 where
  pub ptr : PtrShape
  -- 0 if unknown.
  pub size : ℕ

-- An `i64` plus 2 ^ 63, which keeps its order.
abbrev pub biased : ℕ → ℕ
biased x = u64 (x + 2 ^ 63)

unfoldable pub overlaps : MemLoc → MemLoc → Option Bool
overlaps l o =
    if not (same_base l.ptr o.ptr) || l.size == 0 || o.size == 0
    then none
    else let a = biased l.ptr.offset in
      let b = biased o.ptr.offset in some (ltb a (b + o.size) && ltb b (a + l.size))
