-- ===== src/Words.antt =====
-- src/utils/APInt.cpp, the word loops of its anonymous namespace: numbers as little endian lists
-- of 64-bit words. A loop over an index is a recursion on the words, lowest first; a `u128`
-- intermediate is cut to 128 bits. `n` of the source is the length of the lists.
pub mod Value
pub mod Sums
pub mod Products
pub mod Order
pub mod Digits
pub mod Shifts
pub mod RightShifts
pub mod Fills
pub mod Limbs
pub mod LongDivision
use foptim.Base.{
  ℕ, zero, suc, ◌+◌, ◌-◌, ◌*◌, ◌/◌, ◌%◌, ◌^◌, List, [], ◌∷◌, Bool, true, false, ltb, leb, ◌==◌,
  ◌&&◌, if◌then◌else◌, u64, u128, replicate, length,
}
use Prim.Native.Nat.{bit_and, bit_or, bit_xor, compare, Ordering}

-- The number that the words stand for.
unfoldable pub value : List ℕ → ℕ
value [] = 0
value (w ∷ ws) = w + 2 ^ 64 * value ws

pub record Carried : Type 0 where
  pub words : List ℕ
  pub carry : ℕ

-- `add_n`, from a carry on.
pub add_from : ℕ → List ℕ → List ℕ → Carried
add_from carry [] ys = record { words = []; carry = carry }
add_from carry (a ∷ xs) [] = record { words = []; carry = carry }
add_from carry (a ∷ xs) (b ∷ ys) =
    let t = u128 (a + b + carry) in
    let rest = add_from (u64 (t / 2 ^ 64)) xs ys in
    record { words = u64 t ∷ rest.words; carry = rest.carry }

unfoldable pub add_n : List ℕ → List ℕ → Carried
unfolding add_from
add_n a b = add_from 0 a b

-- `sub_n`, from a borrow on.
pub sub_from : ℕ → List ℕ → List ℕ → Carried
sub_from borrow [] ys = record { words = []; carry = borrow }
sub_from borrow (a ∷ xs) [] = record { words = []; carry = borrow }
sub_from borrow (a ∷ xs) (b ∷ ys) =
    let t = u128 (a + 2 ^ 128 - b - borrow) in
    let rest = sub_from (bit_and (u64 (t / 2 ^ 64)) 1) xs ys in
    record { words = u64 t ∷ rest.words; carry = rest.carry }

unfoldable pub sub_n : List ℕ → List ℕ → Carried
unfolding sub_from
sub_n a b = sub_from 0 a b

-- The inner loop of `mul_n`: `r`, from word `i` on, gains `a[i] * b`.
pub mul_row : ℕ → List ℕ → List ℕ → ℕ → List ℕ
mul_row a b [] carry = []
mul_row a [] (r ∷ rs) carry = r ∷ rs
mul_row a (b ∷ ys) (r ∷ rs) carry =
    let t = u128 (a * b + r + carry) in u64 t ∷ mul_row a ys rs (u64 (t / 2 ^ 64))

-- The lowest word is final, and the loop goes on above it.
pub above_lowest : (List ℕ → List ℕ) → List ℕ → List ℕ
above_lowest f [] = []
above_lowest f (w ∷ ws) = w ∷ f ws

-- The outer loop: each row begins one word higher.
pub mul_rows : List ℕ → List ℕ → List ℕ → List ℕ
mul_rows [] b r = r
mul_rows (a ∷ xs) b r = above_lowest (mul_rows xs b) (mul_row a b r 0)

-- The low words of the product.
unfoldable pub mul_n : List ℕ → List ℕ → List ℕ
unfolding mul_rows mul_row above_lowest
mul_n a b = mul_rows a b (replicate (length a) 0)

-- From the highest word down: the first difference decides.
pub ucmp_n : List ℕ → List ℕ → Ordering
ucmp_n [] ys = Ordering.eq
ucmp_n (a ∷ xs) [] = Ordering.eq
ucmp_n (a ∷ xs) (b ∷ ys) = elim (ucmp_n xs ys) [
  | Ordering.lt ↦ Ordering.lt
  | Ordering.eq ↦ compare a b
  | Ordering.gt ↦ Ordering.gt
]
