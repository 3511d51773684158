-- ===== src/ApInt/MulOverflow.antt =====
-- The unsigned product with its overflow flag: `umul_ov`.
use foptim.Base.{
  ℕ, ◌+◌, ◌*◌, ◌/◌, ◌%◌, ◌^◌, ◌≤◌, ◌<◌, ◌≡◌, refl, sym, ap, ap₂, ◌∙◌, subst, not, leb, ◌==◌,
  Bool-cases, inl, inr, leb→le, arith,
}
use foptim.Base.Powers.{pow-pos, pow-add}
use foptim.Base.Modulus.{mod-mod_pow}
use foptim.Words.{value}
use foptim.ApInt.{ApInt, mul, zext, trunc, from_u64, val}
use foptim.ApInt.Cut.{IsValid, Is}
use foptim.ApInt.Make.{from_u64-Is}
use foptim.ApInt.Views.{val-value}
use foptim.ApInt.Ring.{mul-Is}
use foptim.ApInt.Resize.{zext-Is, trunc-Is}
use foptim.ApInt.Counts.{bits-active_bits}
use foptim.ApInt.ZeroCounts.{umul_ov}
use native.Mathlib.Nat.{mul-le-mul_left, mul-lt-mul_of_pos_right, mod-eq_of_lt, mod-lt}

-- The overflow flag of `umul_ov`.
module _ (x y : ApInt) (v : IsValid x) (u : IsValid y) (same : x.bits ≡ y.bits)
    (room : 2 * x.bits + 63 < 2 ^ 32) where
  product_fits : value x.words * value y.words < 2 ^ (2 * x.bits)
  product_fits =
      let count : 2 * x.bits ≡ x.bits + x.bits = omega arith in
      let right = subst (λ b. value y.words < 2 ^ b) (sym same) u.cut in
      let whole : 2 ^ (2 * x.bits) ≡ 2 ^ x.bits * 2 ^ x.bits =
        ap (λ n. 2 ^ n) count ∙ pow-add x.bits x.bits in
      let up : value x.words * value y.words ≤ value x.words * 2 ^ x.bits =
        mul-le-mul_left (value x.words) (omega (arith, right)) in
      let strict = mul-lt-mul_of_pos_right v.cut (pow-pos x.bits) in
      omega (arith, whole, up, strict)

  -- With both operands well formed (as many words as the width needs, every word below 2^64, unused
  -- high bits zero) and of the same width, and twice the width plus 63 in 32 bits, umul_ov returns a
  -- well formed integer of the width with the product modulo 2^bits, and the flag exactly when the
  -- product has a bit at the width or above.
  pub umul_ov-exact :
      Is (umul_ov x y).0 x.bits (value x.words * value y.words % 2 ^ x.bits)
      × ((umul_ov x y).1 ≡ not (value x.words * value y.words / 2 ^ x.bits == 0))
  unfolding umul_ov
  umul_ov-exact = elim (Bool-cases (leb x.bits 64)) [
    | inl narrow ↦
        let n = leb→le _ _ narrow in
        let product = value x.words * value y.words in
        let low : val x * val y ≡ product =
          ap₂ (λ (a b : ℕ). a * b) (val-value x v n) (val-value y u (omega (arith, same, n))) in
        let z =
          from_u64-Is x.bits (product % 2 ^ 64) v.shape.positive v.shape.fits
            (mod-lt product (omega arith)) in
        rw (narrow, low)
          (
            subst (Is (from_u64 x.bits (product % 2 ^ 64)) x.bits) (mod-mod_pow 64 x.bits product n)
                z,
            refl,
          )
    | inr wide ↦
        let above : 64 < x.bits = ground (arith, wide) in
        let zx = zext-Is x v (2 * x.bits) room (omega arith) in
        let zy = zext-Is y u (2 * x.bits) room (omega (arith, same)) in
        let p = mul-Is _ _ zx.valid zy.valid (zx.width ∙ sym zy.width) in
        let number : value (mul (zext x (2 * x.bits)) (zext y (2 * x.bits))).words
            ≡ value x.words * value y.words =
          p.number
          ∙ ap₂ (λ a b. a * b % 2 ^ (zext x (2 * x.bits)).bits) zx.number zy.number
          ∙ ap (λ b. value x.words * value y.words % 2 ^ b) zx.width
          ∙ mod-eq_of_lt product_fits in
        let t =
          trunc-Is (mul (zext x (2 * x.bits)) (zext y (2 * x.bits))) p.valid x.bits v.shape.fits
            v.shape.positive (omega (arith, p.width, zx.width)) in
        rw wide (
          subst
              (λ n.
                Is (trunc (mul (zext x (2 * x.bits)) (zext y (2 * x.bits))) x.bits) x.bits
                  (n % 2 ^ x.bits))
              number t,
          bits-active_bits (mul (zext x (2 * x.bits)) (zext y (2 * x.bits))) p.valid x.bits
              ∙ ap (λ n. not (n / 2 ^ x.bits == 0)) number,
        )
  ]
