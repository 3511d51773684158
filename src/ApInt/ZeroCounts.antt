-- ===== src/ApInt/ZeroCounts.antt =====
-- src/utils/APInt.hpp, src/utils/APInt.cpp: `clz`, `ctz`, `active_bits`, `log2`, `is_pow2`,
-- `fits_u64` and `umul_ov`.
use foptim.Base.{
  ℕ, zero, suc, ◌+◌, ◌-◌, ◌*◌, ◌/◌, ◌^◌, List, [], ◌∷◌, Bool, not, leb, ltb, ◌==◌, if◌then◌else◌,
  u64, get_or,
}
use foptim.Base.Bits.{countl_zero, countr_zero}
use foptim.ApInt.{ApInt, is_single, num_words, val, from_u64, mul, zext, trunc}
use foptim.ApInt.Special.{popcount}

-- The loop of `clz` over the words from the top, `i` of which are left.
unfoldable pub clz_from : ℕ → List ℕ → ℕ → ℕ → ℕ → ℕ
clz_from bits ws n zero c = bits
clz_from bits ws n (suc i) c =
    if get_or ws i 0 == 0
    then clz_from bits ws n i (c + 64)
    else c + countl_zero (get_or ws i 0) - (n * 64 - bits)

unfoldable pub clz : ApInt → ℕ
unfolding clz_from
clz x = clz_from x.bits x.words (num_words x) (num_words x) 0

-- The loop of `ctz`, from word `i` on.
unfoldable pub ctz_from : ℕ → ℕ → List ℕ → ℕ
ctz_from bits i [] = bits
ctz_from bits i (w ∷ ws) = if w == 0 then ctz_from bits (suc i) ws else i * 64 + countr_zero w

unfoldable pub ctz : ApInt → ℕ
unfolding ctz_from
ctz x = ctz_from x.bits 0 x.words

unfoldable pub active_bits : ApInt → ℕ
unfolding clz
active_bits x = x.bits - clz x

abbrev pub log2 : ApInt → ℕ
log2 x = active_bits x - 1

abbrev pub fits_u64 : ApInt → Bool
fits_u64 x = leb (active_bits x) 64

unfoldable pub is_pow2 : ApInt → Bool
unfolding popcount
is_pow2 x = popcount x == 1

-- The product and the overflow flag.
unfoldable pub umul_ov : ApInt → ApInt → ApInt × Bool
unfolding active_bits
umul_ov x y =
    if is_single x
    then (from_u64 x.bits (u64 (val x * val y)), not (val x * val y / 2 ^ x.bits == 0))
    else (let p = mul (zext x (2 * x.bits)) (zext y (2 * x.bits)) in
        (trunc p x.bits, ltb x.bits (active_bits p)))
