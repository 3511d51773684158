-- ===== src/ApInt/Special.antt =====
-- src/utils/APInt.hpp, src/utils/APInt.cpp: `set_bit`, `low_bits`, `high_bits`, `signed_max`,
-- `signed_min`, `popcount` and `is_all_ones`.
use foptim.Base.{
  ℕ, zero, suc, ◌+◌, ◌-◌, ◌/◌, ◌%◌, ◌^◌, List, [], ◌∷◌, Bool, true, false, ◌==◌, if◌then◌else◌,
  get_or, set,
}
use foptim.ApInt.{ApInt, zeroed, all_ones, from_u64}
use foptim.ApInt.Shift.{shl, lshr}
use Prim.Native.Nat.{bit_and, bit_or}

unfoldable pub set_bit : ApInt → ℕ → Bool → ApInt
set_bit x i v =
    let w = get_or x.words (i / 64) 0 in
    let m = 2 ^ (i % 64) in
    record x { words = set x.words (i / 64) (if v then bit_or w m else bit_and w (2 ^ 64 - 1 - m)) }

unfoldable pub low_bits : ℕ → ℕ → ApInt
low_bits bits n = if n == 0 then from_u64 bits 0 else lshr (all_ones bits) (bits - n)

unfoldable pub high_bits : ℕ → ℕ → ApInt
high_bits bits n = shl (all_ones bits) (if n == 0 then bits else bits - n)

unfoldable pub signed_max : ℕ → ApInt
unfolding set_bit
signed_max bits = set_bit (all_ones bits) (bits - 1) false

unfoldable pub signed_min : ℕ → ApInt
unfolding set_bit
signed_min bits = set_bit (zeroed bits) (bits - 1) true

-- `std::popcount` of a word.
unfoldable pub ones_below : ℕ → ℕ → ℕ
ones_below zero w = 0
ones_below (suc k) w = w % 2 + ones_below k (w / 2)

unfoldable pub ones_of_words : List ℕ → ℕ
unfolding ones_below
ones_of_words [] = 0
ones_of_words (w ∷ ws) = ones_below 64 w + ones_of_words ws

unfoldable pub popcount : ApInt → ℕ
unfolding ones_of_words
popcount x = ones_of_words x.words

unfoldable pub is_all_ones : ApInt → Bool
unfolding popcount
is_all_ones x = popcount x == x.bits
