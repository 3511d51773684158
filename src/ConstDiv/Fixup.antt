-- ===== src/ConstDiv/Fixup.antt =====
-- The fallback of `udiv_magic`: a multiplier of `width + 1` bits, whose highest bit is added back.
use foptim.Base.{
  ℕ, suc, ◌+◌, ◌-◌, ◌*◌, ◌/◌, ◌^◌, ◌≤◌, ◌<◌, ◌≡◌, refl, sym, ap, ◌∙◌, true, arith, u128,
}
use foptim.Base.Bits.{bit_width, bit_width_upper, bit_width_lower, bit_width-le}
use foptim.Base.Powers.{pow-add, pow-pos, pow_mono, pow-le_inv, pow_double}
use foptim.ConstDiv.{UDivMagic, udiv_add}
use foptim.ConstDiv.Quotient.{IsMagic, IsMagic-div}
use foptim.ConstDiv.Unsigned.{Accepted}
use native.Mathlib.Nat.{
  div-div-eq-div-mul, mod-eq_of_lt, mul-le-mul_left, div-mul-le_self, lt-mul-div-succ,
  add-mul-div_right, div-lt_iff_lt-mul, le-div_iff_mul-le, div-le_of_le-mul,
}

pub record Fixup (d width : ℕ) (g : UDivMagic) : Type 0 where
  pub has_add : g.add ≡ true
  pub mul_small : g.mul < 2 ^ width
  pub shift_pos : 0 < g.shift
  pub shift_small : g.shift < width
  pub magic : IsMagic d width (2 ^ width + g.mul) (width + g.shift)

module _ (d width : ℕ) (a : Accepted d width) where
  abbrev extra_bits : ℕ
  extra_bits = bit_width (d - 1)

  half_pow : 2 ^ width ≡ 2 * 2 ^ (width - 1)
  half_pow = ap (λ n. 2 ^ n) (shape width a.wide) ∙ pow_double (width - 1)
    where
      shape : (w : ℕ) → 2 ≤ w → w ≡ suc (w - 1)
      shape w h = omega arith

  extra-le : extra_bits ≤ width - 1
  extra-le = bit_width-le (d - 1) (width - 1) (omega (arith, a.half, a.large))

  d-le : d ≤ 2 ^ extra_bits
  d-le = omega (
    arith,
    bit_width_upper (d - 1)
        (omega (arith, a.half, pow_mono (width - 1) 127 (omega (arith, a.narrow)))),
    a.large,
  )

  extra_pos : 0 < extra_bits
  extra_pos = pow-le_inv 1 extra_bits (omega (arith, d-le, a.large))

  d_above : 2 ^ extra_bits + 2 ≤ 2 * d
  d_above = omega (arith, a.large, bit_width_lower (d - 1) (omega (arith, a.large)))

  no_wrap : u128 (2 ^ (width + extra_bits)) ≡ 2 ^ (width + extra_bits)
  no_wrap =
      mod-eq_of_lt
        (omega (arith, pow_mono (width + extra_bits) 127 (omega (arith, extra-le, a.narrow))))

  abbrev quotient : ℕ
  quotient = 2 ^ (width + extra_bits) / d

  quotient_lower : 2 ^ width ≤ quotient
  quotient_lower =
      (le-div_iff_mul-le (omega (arith, a.large))).1
        (omega (arith, pow-add width extra_bits, mul-le-mul_left (2 ^ width) d-le))

  quotient_upper : (k : ℕ) → k + 1 ≡ 2 * 2 ^ width → quotient < k
  quotient_upper k e = (div-lt_iff_lt-mul (omega (arith, a.large))).1 (
      omega (
        arith,
        ap (λ (t : ℕ). t * (2 * d)) e,
        mul-le-mul_left (2 * 2 ^ width) d_above,
        pow-add width extra_bits,
        half_pow,
        a.half,
        a.large,
      ))

  cast : (udiv_add d width).mul + 2 ^ width ≡ quotient + 1
  unfolding udiv_add
  cast =
      let upper = quotient_upper (2 * 2 ^ width - 1) (omega (arith, pow-pos width)) in
      let fits = pow_mono width 64 a.narrow in
      rw no_wrap (
        rw (mod-eq_of_lt {n = quotient + 1 - 2 ^ width} {m = 2 ^ 64} (omega (arith, upper, fits)))
          (omega (arith, quotient_lower)))

  shift_cast : (udiv_add d width).shift ≡ extra_bits
  unfolding udiv_add
  shift_cast = mod-eq_of_lt (omega (arith, extra-le, a.narrow))

  pub udiv_add-Fixup : Fixup d width (udiv_add d width)
  unfolding udiv_add
  udiv_add-Fixup =
      let below = lt-mul-div-succ (2 ^ (width + extra_bits)) {b = d} (omega (arith, a.large)) in
      let above = div-mul-le_self (2 ^ (width + extra_bits)) d in
      record {
        has_add = refl;
        mul_small =
            omega (arith, cast, quotient_upper (2 * 2 ^ width - 1) (omega (arith, pow-pos width)));
        shift_pos = omega (arith, shift_cast, extra_pos);
        shift_small = omega (arith, shift_cast, extra-le, a.wide);
        magic = record {
          extra = extra_bits;
          err = (quotient + 1) * d - 2 ^ (width + extra_bits);
          shift_eq = ap (λ n. width + n) shift_cast;
          product = omega (arith, ap (λ (t : ℕ). t * d) cast, below);
          err_small = omega (arith, above, d-le);
        };
      }

-- Halving the sum in two steps.
halve_sum : (x t s : ℕ) → t ≤ x → 0 < s → ((x - t) / 2 + t) / 2 ^ (s - 1) ≡ (x + t) / 2 ^ s
halve_sum x t s h pos =
    let half : (x - t) / 2 + t ≡ (x + t) / 2 = omega arith in
    rw half (div-div-eq-div-mul (x + t) 2 (2 ^ (s - 1)) ∙ ap (λ n. (x + t) / n) (double s pos))
  where
    double : (k : ℕ) → 0 < k → 2 * 2 ^ (k - 1) ≡ 2 ^ k
    double k p = sym (ap (λ n. 2 ^ n) (shape k p) ∙ pow_double (k - 1))
      where
        shape : (j : ℕ) → 0 < j → j ≡ suc (j - 1)
        shape j q = omega arith

-- The sequence that adds the highest bit back never leaves the width.
pub Fixup-div :
    {d width : ℕ} {g : UDivMagic} (x : ℕ)
    → 0 < d
    → Fixup d width g
    → x < 2 ^ width
    → let t = x * g.mul / 2 ^ width in (t ≤ x) × (((x - t) / 2 + t) / 2 ^ (g.shift - 1) ≡ x / d)
Fixup-div {d} {width} {g} x hd f hx =
    let t = x * g.mul / 2 ^ width in
    let small : t ≤ x =
      div-le_of_le-mul (2 ^ width) (omega (arith, mul-le-mul_left x f.mul_small)) in
    let sum : x * (2 ^ width + g.mul) / 2 ^ width ≡ x + t =
      ap (λ n. n / 2 ^ width) (omega arith)
      ∙ add-mul-div_right (x * g.mul) x (pow-pos width)
      ∙ omega arith in
    (
      small,
      halve_sum x t g.shift small f.shift_pos
          ∙ ap (λ n. n / 2 ^ g.shift) (sym sum)
          ∙ div-div-eq-div-mul (x * (2 ^ width + g.mul)) (2 ^ width) (2 ^ g.shift)
          ∙ ap (λ n. x * (2 ^ width + g.mul) / n) (sym (pow-add width g.shift))
          ∙ IsMagic-div x hd f.magic hx,
    )
