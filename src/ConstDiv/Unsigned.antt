-- ===== src/ConstDiv/Unsigned.antt =====
-- `udiv_magic` returns a multiplier that divides every number of the width.
use foptim.Base.{
  ℕ, ◌+◌, ◌-◌, ◌*◌, ◌/◌, ◌^◌, ◌≤◌, ◌<◌, ◌≡◌, ap, false, some, arith, ◌==◌, if◌then◌else◌,
  Bool-cases, inl, inr, dec_lt, ==_iff,
}
use foptim.Base.Bits.{bit_width, bit_width-le}
use foptim.Base.Powers.{pow-add, pow-pos, pow_mono, pow-le_inv}
use foptim.ConstDiv.{UDivMagic, udiv_refused, udiv_try, max_mul}
use foptim.ConstDiv.Quotient.{IsMagic}
use foptim.ConstDiv.Scan.{udiv_scan-IsRound}
use native.Mathlib.Nat.{mul-le-mul_left, le_of_mul-le-mul_left}

-- What the guard of `udiv_magic` lets through.
pub record Accepted (d width : ℕ) : Type 0 where
  pub narrow : width ≤ 64
  pub wide : 2 ≤ width
  pub large : 3 ≤ d
  pub half : d ≤ 2 ^ (width - 1)

pub accepted : (d width : ℕ) → udiv_refused d width ≡ false → Accepted d width
unfolding udiv_refused
accepted d width h = record {
  narrow = ground arith;
  wide = ground arith;
  large = ground arith;
  half = ground arith;
}

-- What the code that uses an entry relies on besides its value.
pub record Plain (d width : ℕ) (g : UDivMagic) : Type 0 where
  pub no_add : g.add ≡ false
  pub pre_small : g.pre_shift < width
  pub reduced : 0 < d / 2 ^ g.pre_shift
  pub splits : 2 ^ g.pre_shift * (d / 2 ^ g.pre_shift) ≡ d
  pub mul_small : g.mul < 2 ^ width
  pub magic : IsMagic (d / 2 ^ g.pre_shift) (width - g.pre_shift) g.mul g.shift
  pub shift_large : width ≡ 64 → 64 ≤ g.shift
  pub shift_small : g.shift < 2 * width

max_mul-lt : (width : ℕ) → width ≤ 64 → (max_mul width < 2 ^ width) × (max_mul width < 2 ^ 64)
max_mul-lt width h = elim (Bool-cases (width == 64)) [
  | inl e ↦ rw e (rw ((==_iff width 64).0 e) (omega arith))
  | inr e ↦ rw e (omega (arith, pow-pos width, pow_mono width 64 h))
]

rejoin : (a b : ℕ) → a ≤ b → b ≡ a + (b - a)
rejoin a b h = omega arith

module _ (d width pre : ℕ) (a : Accepted d width) (splits : 2 ^ pre * (d / 2 ^ pre) ≡ d) where
  reduced_pos : 0 < d / 2 ^ pre
  reduced_pos = elim (dec_lt 0 (d / 2 ^ pre)) [
    | yes p ↦ p
    | no p ↦
        let none_left : d / 2 ^ pre ≡ 0 = omega arith in
        absurd (omega (arith, a.large, splits, ap (λ t. 2 ^ pre * t) none_left))
  ]

  pre-lt : pre < width
  pre-lt =
      let bound : 2 ^ pre ≤ 2 ^ (width - 1) =
        omega (arith, splits, a.half, mul-le-mul_left (2 ^ pre) reduced_pos) in
      omega (arith, pow-le_inv pre (width - 1) bound, a.wide)

  reduced-le : d / 2 ^ pre ≤ 2 ^ (width - 1 - pre)
  reduced-le =
      le_of_mul-le-mul_left {k = 2 ^ pre}
        (omega (
          arith,
          splits,
          a.half,
          pow-add pre (width - 1 - pre),
          ap (λ n. 2 ^ n) (rejoin pre (width - 1) (omega (arith, pre-lt))),
        ))
        (pow-pos pre)

  reduced_width-le : bit_width (d / 2 ^ pre - 1) ≤ width - 1 - pre
  reduced_width-le = bit_width-le _ _ (omega (arith, reduced-le, reduced_pos))

  pub try-Plain : (g : UDivMagic) → udiv_try d width pre ≡ some g → Plain d width g
  unfolding udiv_try
  try-Plain g h =
      let l = bit_width (d / 2 ^ pre - 1) in
      let first : ℕ = if width == 64 then pre else 0 in
      let first-le : first ≤ pre = ground arith in
      let first_64 : (width ≡ 64 → first ≡ pre) = λ e. ground arith in
      let lim = pow_mono (width - 1 - pre) 127 (omega (arith, a.narrow)) in
      let top = max_mul-lt width a.narrow in
      let round =
        udiv_scan-IsRound (max_mul width) pre (d / 2 ^ pre) (width - pre) (l + 1 - first) first g
          reduced_pos (omega (arith, reduced-le, lim))
          (omega (arith, first-le, reduced_width-le, a.narrow, pre-lt)) top.1 h in
      let same : g.pre_shift ≡ pre = omega (arith, round.2, pre-lt, a.narrow) in
      record {
        no_add = round.1;
        pre_small = omega (arith, same, pre-lt);
        reduced = rw same reduced_pos;
        splits = rw same splits;
        mul_small = omega (arith, round.0.1, top.0);
        magic = rw same round.0.0;
        shift_large = λ e. omega (arith, round.0.2, first_64 e, pre-lt);
        shift_small = omega (arith, round.0.2, round.0.3, first-le, reduced_width-le, pre-lt);
      }
