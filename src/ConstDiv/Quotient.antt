-- ===== src/ConstDiv/Quotient.antt =====
-- Why a multiplier works: `x * m / 2 ^ N` is `x / d` when `m * d` is a little above `2 ^ N`.
use foptim.Base.{ℕ, ◌+◌, ◌*◌, ◌/◌, ◌^◌, ◌≤◌, ◌<◌, ◌≡◌, arith, ap}
use foptim.Base.Powers.{pow-add, pow-pos}
use native.Mathlib.Nat.{
  div-eq_of_lt-le, le_of_mul-le-mul_right, lt_of_mul-lt-mul_right, mul-le-mul_right,
  mul-le-mul_left, div-mul-le_self, lt-mul-div-succ,
}

pub magic_quotient : (P d m e x : ℕ) → 0 < d → m * d ≡ P + e → x * e < P → x * m / P ≡ x / d
magic_quotient P d m e x hd eq small =
    div-eq_of_lt-le P
      (le_of_mul-le-mul_right {k = d}
        (omega (arith, mul-le-mul_right P (div-mul-le_self x d), ap (λ (t : ℕ). x * t) eq)) hd)
      (lt_of_mul-lt-mul_right d (
        omega (arith, mul-le-mul_right P (lt-mul-div-succ x {b = d} hd), ap (λ (t : ℕ). x * t) eq)))

-- `mul` and `shift` divide by `d` every number below `2 ^ width`: `mul * d` is above
-- `2 ^ shift` by at most `2 ^ (shift - width)`.
pub record IsMagic (d width mul shift : ℕ) : Type 0 where
  pub extra : ℕ
  pub err : ℕ
  pub shift_eq : shift ≡ width + extra
  pub product : mul * d ≡ 2 ^ (width + extra) + err
  pub err_small : err ≤ 2 ^ extra

pub IsMagic-div :
    {d width mul shift : ℕ} (x : ℕ)
    → 0 < d
    → IsMagic d width mul shift
    → x < 2 ^ width
    → x * mul / 2 ^ shift ≡ x / d
IsMagic-div {d} {width} {mul} x hd g hx = rw (ap (λ n. 2 ^ n) g.shift_eq) (
    magic_quotient (2 ^ (width + g.extra)) d mul g.err x hd g.product (
      omega (
        arith,
        pow-add width g.extra,
        mul-le-mul_left x g.err_small,
        mul-le-mul_right (2 ^ g.extra) hx,
        pow-pos g.extra,
      )))
