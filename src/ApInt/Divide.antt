-- ===== src/ApInt/Divide.antt =====
-- src/utils/APInt.hpp, src/utils/APInt.cpp: `udiv`, `urem`, `sdiv`, `srem` and their `_wide` paths.
-- The divisor is not zero, as the assertions of the source demand.
use foptim.Base.{
  ℕ, ◌-◌, ◌/◌, ◌%◌, ◌^◌, List, Bool, ◌==◌, leb, ltb, if◌then◌else◌, u64, u128, length, take,
}
use foptim.Base.Signed.{is_negative}
use foptim.Words.Limbs.{to_limbs, trim, pack}
use foptim.Words.LongDivision.{divmnu}
use foptim.ApInt.{ApInt, is_single, num_words, val, get128, from_u64, from_u128, neg}
use foptim.ApInt.Bitwise.{is_neg}
use foptim.ApInt.Extend.{sext64}
use foptim.ApInt.FromSigned.{to_i128}
use foptim.ApInt.SignedOrder.{differs}

-- `a / b` and `a % b` of signed integers of `w` bits, as patterns: the quotient is rounded towards
-- zero, and the remainder has the sign of `a`.
unfoldable pub magnitude : ℕ → ℕ → ℕ
magnitude w a = if is_negative w a then 2 ^ w - a else a

unfoldable pub with_sign : ℕ → Bool → ℕ → ℕ
with_sign w minus n = if minus then (2 ^ w - n) % 2 ^ w else n

unfoldable pub signed_div : ℕ → ℕ → ℕ → ℕ
signed_div w a b =
    with_sign w (differs (is_negative w a) (is_negative w b)) (magnitude w a / magnitude w b)

unfoldable pub signed_rem : ℕ → ℕ → ℕ → ℕ
signed_rem w a b = with_sign w (is_negative w a) (magnitude w a % magnitude w b)

pub record DivRem : Type 0 where
  pub quotient : ApInt
  pub remainder : ApInt

-- The limbs of the words, without the zeros at the top.
abbrev pub trimmed : ApInt → List ℕ
trimmed a = take (trim (to_limbs a.words)) (to_limbs a.words)

unfoldable pub udivrem_wide : ApInt → ApInt → DivRem
udivrem_wide a b =
    let ul = trimmed a in
    let vl = trimmed b in
    let zero_words = from_u64 a.bits 0 in
    let d = divmnu ul vl in
    if leb a.bits 128
    then (record {
      quotient = from_u128 a.bits (get128 a / get128 b);
      remainder = from_u128 a.bits (get128 a % get128 b);
    })
    else if ltb (length ul) (length vl)
    then (record { quotient = zero_words; remainder = a })
    else (record {
      quotient = record { bits = a.bits; words = pack (num_words a) d.quotient };
      remainder = record { bits = a.bits; words = pack (num_words a) d.remainder };
    })

unfoldable pub udiv : ApInt → ApInt → ApInt
unfolding udivrem_wide
udiv x y = if is_single x then from_u64 x.bits (val x / val y) else (udivrem_wide x y).quotient

unfoldable pub urem : ApInt → ApInt → ApInt
unfolding udivrem_wide
urem x y = if is_single x then from_u64 x.bits (val x % val y) else (udivrem_wide x y).remainder

abbrev pub absolute : ApInt → ApInt
absolute x = if is_neg x then neg x else x

unfoldable pub sdiv_wide : ApInt → ApInt → ApInt
unfolding udivrem_wide
sdiv_wide x y =
    let a = to_i128 x in
    let b = to_i128 y in
    let q = (udivrem_wide (absolute x) (absolute y)).quotient in
    if leb x.bits 128
    then from_u128 x.bits (if b == 2 ^ 128 - 1 then u128 (2 ^ 128 - a) else signed_div 128 a b)
    else if differs (is_neg x) (is_neg y)
    then neg q
    else q

unfoldable pub srem_wide : ApInt → ApInt → ApInt
unfolding udivrem_wide
srem_wide x y =
    let a = to_i128 x in
    let b = to_i128 y in
    let r = (udivrem_wide (absolute x) (absolute y)).remainder in
    if leb x.bits 128
    then from_u128 x.bits (if b == 2 ^ 128 - 1 then 0 else signed_rem 128 a b)
    else if is_neg x
    then neg r
    else r

unfoldable pub sdiv : ApInt → ApInt → ApInt
unfolding sdiv_wide
sdiv x y =
    let a = sext64 x in
    let b = sext64 y in
    if is_single x
    then from_u64 x.bits (if b == 2 ^ 64 - 1 then u64 (2 ^ 64 - a) else signed_div 64 a b)
    else sdiv_wide x y

unfoldable pub srem : ApInt → ApInt → ApInt
unfolding srem_wide
srem x y =
    let a = sext64 x in
    let b = sext64 y in
    if is_single x
    then from_u64 x.bits (if b == 2 ^ 64 - 1 then 0 else signed_rem 64 a b)
    else srem_wide x y
