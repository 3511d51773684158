-- ===== src/ApInt/RoundTrips.antt =====
-- The quotient and the remainder give the dividend back.
use foptim.Base.{
  ℕ, zero, suc, false, ◌==◌, ◌+◌, ◌*◌, ◌/◌, ◌%◌, ◌^◌, ◌≤◌, ◌<◌, ◌≡◌, sym, ap₂, ◌∙◌, subst, arith,
}
use foptim.Words.{value}
use foptim.ApInt.{ApInt, add, mul}
use foptim.ApInt.Bitwise.{is_zero}
use foptim.ApInt.Signs.{is_zero-exact}
use foptim.ApInt.Cut.{IsValid, Is}
use foptim.ApInt.Ring.{add-Is, mul-Is}
use foptim.ApInt.Divide.{udiv, urem}
use foptim.ApInt.Quotients.{udiv-Is, urem-Is}
use native.Mathlib.Nat.{mod-eq_of_lt, div-add-mod, mod-lt}

-- With both operands well formed (as many words as the width needs, every word below 2^64, unused
-- high bits zero) and of the same width of at most 128 bits, and a divisor that is not zero
-- (is_zero, which the source asserts): the quotient of udiv times the divisor plus the remainder of
-- urem is, as a sum and product of integers of that width, well formed and has the number of the
-- dividend, and the number of the remainder is below that of the divisor.
pub add-udiv-urem :
    (x y : ApInt)
    → IsValid x
    → IsValid y
    → x.bits ≡ y.bits
    → x.bits ≤ 128
    → is_zero y ≡ false
    → Is (add (mul (udiv x y) y) (urem x y)) x.bits (value x.words)
      × (value (urem x y).words < value y.words)
add-udiv-urem x y v w same h some_left =
    let q = udiv-Is x y v w same h some_left in
    let r = urem-Is x y v w same h some_left in
    let positive : 0 < value y.words =
      positive_of (value y.words) (sym (is_zero-exact y w) ∙ some_left) in
    let p = mul-Is (udiv x y) y q.valid w (q.width ∙ same) in
    let s =
      add-Is (mul (udiv x y) y) (urem x y) p.valid r.valid (p.width ∙ q.width ∙ sym r.width) in
    let a = value x.words in
    let b = value y.words in
    let product : value (mul (udiv x y) y).words ≡ a / b * b % 2 ^ x.bits =
      p.number ∙ ap₂ (λ n k. n * b % 2 ^ k) q.number q.width in
    let total : a / b * b + a % b ≡ a = omega (arith, div-add-mod a b) in
    let small : a / b * b % 2 ^ x.bits ≡ a / b * b = mod-eq_of_lt (omega (arith, total, v.cut)) in
    let number : (value (mul (udiv x y) y).words + value (urem x y).words)
          % 2 ^ (mul (udiv x y) y).bits
        ≡ a =
      ap₂ (λ n k. n % 2 ^ k) (ap₂ (λ m n. m + n) (product ∙ small) r.number ∙ total)
        (p.width ∙ q.width)
      ∙ mod-eq_of_lt v.cut in
    (
      subst (λ k. Is (add (mul (udiv x y) y) (urem x y)) k a) (p.width ∙ q.width)
          (subst (Is (add (mul (udiv x y) y) (urem x y)) (mul (udiv x y) y).bits) number s),
      subst (λ n. n < b) (sym r.number) (mod-lt a positive),
    )
  where
    positive_of : (n : ℕ) → (n == 0) ≡ false → 0 < n
    positive_of zero e = absurd cc
    positive_of (suc n) e = omega arith
