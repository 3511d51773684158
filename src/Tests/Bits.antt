-- ===== src/Tests/Bits.antt =====
-- src/test/test_apint.hpp: shifts, signs and divisions of integers of several widths.
use foptim.ApInt.ZeroCounts.{clz, ctz, active_bits, umul_ov}
use foptim.ApInt.Counts.{Spans, active_bits-Spans}
use foptim.ApInt.MulOverflow.{umul_ov-exact}
use foptim.Base.{
  false, ◌<◌, ◌==◌, not, ◌+◌, ◌-◌, ◌*◌, ◌/◌, ◌%◌, ◌^◌, ◌≡◌, refl, arith, [], ◌∷◌, ltb, leb, ◌||◌,
}
use foptim.Base.Bits.{bit_width, countl_zero, countr_zero}
use foptim.Base.Signed.{sar, sign_extended, biased}
use foptim.Words.{value}
use foptim.Words.Limbs.{to_limbs, trim, pack}
use foptim.Words.LongDivision.{divmnu}
use foptim.ApInt.{ApInt, add, mul}
use foptim.ApInt.Cut.{IsValid, Is}
use foptim.ApInt.Bitwise.{xor, xor-Is}
use foptim.ApInt.Shift.{shl, shl-Is}
use foptim.ApInt.SignedShift.{ashr, ashr-Is}
use foptim.ApInt.Extend.{sext, sext-Is}
use foptim.ApInt.SignedOrder.{scmp, scmp-value, sadd_ov}
use foptim.ApInt.SignedOverflow.{sadd_ov-exact}
use foptim.ApInt.Divide.{sdiv, signed_div, udiv, urem, udivrem_wide}
use foptim.ApInt.Bitwise.{is_zero}
use foptim.ApInt.SignedQuotients.{sdiv-Is}
use foptim.ApInt.RoundTrips.{add-udiv-urem}
use foptim.Tests.Integers.{wide, other, wide-IsValid, other-IsValid}
use Prim.Native.Nat.{compare, bit_xor}

-- 100 bits, negative, and 3.
abbrev pub minus : ApInt
minus = record { bits = 100; words = 7 ∷ (2 ^ 36 - 1) ∷ [] }

abbrev pub three : ApInt
three = record { bits = 100; words = 3 ∷ 0 ∷ [] }

pub minus-IsValid : IsValid minus
unfolding value
minus-IsValid = record {
  shape = record {
    positive = omega arith;
    fits = omega arith;
    count = refl;
    all_words = omega arith;
  };
  cut = omega arith;
}

pub three-IsValid : IsValid three
unfolding value
three-IsValid = record {
  shape = record {
    positive = omega arith;
    fits = omega arith;
    count = refl;
    all_words = omega arith;
  };
  cut = omega arith;
}

xor-Is_example : Is (xor wide other) 200 (bit_xor (value wide.words) (value other.words))
xor-Is_example = xor-Is wide other wide-IsValid other-IsValid refl

shl-Is_example : Is (shl wide 70) 200 (value wide.words * 2 ^ 70 % 2 ^ 200)
shl-Is_example = shl-Is wide wide-IsValid 70

ashr-Is_example : Is (ashr wide 70) 200 (sar 200 (value wide.words) 70)
ashr-Is_example = ashr-Is wide wide-IsValid (omega arith) 70

sext-Is_example : Is (sext wide 300) 300 (sign_extended 200 300 (value wide.words))
sext-Is_example = sext-Is wide 300 wide-IsValid (omega arith) (omega arith)

scmp-value_example :
    scmp wide other ≡ compare (biased 200 (value wide.words)) (biased 200 (value other.words))
scmp-value_example = scmp-value wide other wide-IsValid other-IsValid refl

sadd_ov-exact_example :
    let sum = biased 100 (value minus.words) + biased 100 (value three.words) in
    Is (sadd_ov minus three).result 100 ((value minus.words + value three.words) % 2 ^ 100)
    × ((sadd_ov minus three).ov ≡ (ltb sum (2 ^ 99) || leb (2 ^ 100 + 2 ^ 99) sum))
sadd_ov-exact_example = sadd_ov-exact minus three minus-IsValid three-IsValid refl

three-is_zero : is_zero three ≡ false
unfolding is_zero
three-is_zero = refl

sdiv-Is_example : Is (sdiv minus three) 100 (signed_div 100 (value minus.words) (value three.words))
sdiv-Is_example = sdiv-Is minus three minus-IsValid three-IsValid refl (omega arith) three-is_zero

add-udiv-urem_example :
    Is (add (mul (udiv minus three) three) (urem minus three)) 100 (value minus.words)
    × (value (urem minus three).words < value three.words)
add-udiv-urem_example =
    add-udiv-urem minus three minus-IsValid three-IsValid refl (omega arith) three-is_zero

-- Long division: limbs of 32 bits, with a divisor of four of them.
abbrev divisor : ApInt
divisor = record { bits = 200; words = 3 ∷ (2 ^ 64 - 2) ∷ 0 ∷ 0 ∷ [] }

long_division_test :
    ((udiv wide divisor).words ≡ 406 ∷ 200 ∷ 0 ∷ 0 ∷ [])
    × ((urem wide divisor).words ≡ 18446744073709550397 ∷ 211 ∷ 0 ∷ 0 ∷ [])
unfolding udiv urem udivrem_wide divmnu to_limbs trim pack bit_width sar
long_division_test = (refl, refl)

count_test : (clz three ≡ 98) × (ctz three ≡ 0) × (active_bits minus ≡ 100)
unfolding clz ctz active_bits countl_zero bit_width countr_zero
count_test = (refl, refl, refl)

active_bits-Spans_example : Spans (active_bits three) (value three.words)
active_bits-Spans_example = active_bits-Spans three three-IsValid

umul_ov-exact_example :
    Is (umul_ov minus three).0 100 (value minus.words * value three.words % 2 ^ 100)
    × ((umul_ov minus three).1 ≡ not (value minus.words * value three.words / 2 ^ 100 == 0))
umul_ov-exact_example = umul_ov-exact minus three minus-IsValid three-IsValid refl (omega arith)
