-- ===== src/Base/Bits.antt =====
-- The functions of the C++ header <bit> that the sources call, on words of at most 128 bits.
use foptim.Base.{
  refl, ℕ, zero, suc, ◌-◌, ◌*◌, ◌/◌, ◌%◌, ◌^◌, ◌≤◌, ◌<◌, ◌≡◌, Bool, true, arith, ==_iff, ◌==◌,
  if◌then◌else◌, dec_lt, Bool-cases, inl, inr, ap,
}
use native.Mathlib.Nat.{div-div-eq-div-mul}
use foptim.Base.Powers.{pow_mono, pow_double}

-- The number of bits up to the highest one.
bit_width_fuel : ℕ → ℕ → ℕ
bit_width_fuel zero x = 0
bit_width_fuel (suc f) x = if x == 0 then 0 else suc (bit_width_fuel f (x / 2))

unfoldable pub bit_width : ℕ → ℕ
unfolding bit_width_fuel
bit_width x = bit_width_fuel 128 x

-- The number of zero bits below the lowest one.
countr_zero_fuel : ℕ → ℕ → ℕ
countr_zero_fuel zero x = 0
countr_zero_fuel (suc f) x = if x % 2 == 0 then suc (countr_zero_fuel f (x / 2)) else 0

unfoldable pub countr_zero : ℕ → ℕ
unfolding countr_zero_fuel
countr_zero x = countr_zero_fuel 64 x

-- What is left of the zero bits is 1.
unfoldable pub has_single_bit : ℕ → Bool
has_single_bit x = x / 2 ^ countr_zero x == 1

bit_width_fuel_step : (f x : ℕ) → 0 < x → bit_width_fuel (suc f) x ≡ suc (bit_width_fuel f (x / 2))
unfolding bit_width_fuel
bit_width_fuel_step f x h = ground arith

bit_width_fuel_upper : (f x : ℕ) → x < 2 ^ f → x < 2 ^ bit_width_fuel f x
unfolding bit_width_fuel
bit_width_fuel_upper zero x h = h
bit_width_fuel_upper (suc f) x h = elim (Bool-cases (x == 0)) [
  | inl e ↦ ground arith
  | inr e ↦ rw e (
      omega (
        arith,
        bit_width_fuel_upper f (x / 2) (omega (arith, pow_double f)),
        pow_double (bit_width_fuel f (x / 2)),
      ))
]

bit_width_fuel_lower : (f x : ℕ) → 0 < x → 0 < f → 2 ^ bit_width_fuel f x ≤ 2 * x
unfolding bit_width_fuel
bit_width_fuel_lower zero x h k = absurd (omega arith)
bit_width_fuel_lower (suc zero) x h k = ground arith
bit_width_fuel_lower (suc (suc f)) x h k = elim (Bool-cases (x / 2 == 0)) [
  | inl e ↦ ground arith
  | inr e ↦ omega (
    arith,
    ap (λ n. 2 ^ n) (bit_width_fuel_step (suc f) x h),
    bit_width_fuel_lower (suc f) (x / 2) (ground arith) (omega arith),
    pow_double (bit_width_fuel (suc f) (x / 2)),
  )
]

pub bit_width_upper : (x : ℕ) → x < 2 ^ 128 → x < 2 ^ bit_width x
unfolding bit_width
bit_width_upper x h = bit_width_fuel_upper 128 x h

pub bit_width_lower : (x : ℕ) → 0 < x → 2 ^ bit_width x ≤ 2 * x
unfolding bit_width
bit_width_lower x h = bit_width_fuel_lower 128 x h (omega arith)

-- The bit width is at most any width that holds the number.
pub bit_width-le : (x k : ℕ) → x < 2 ^ k → bit_width x ≤ k
unfolding bit_width bit_width_fuel
bit_width-le zero k h = omega arith
bit_width-le (suc x) k h =
    let small = bit_width_lower (suc x) (omega arith) in
    elim (dec_lt k (bit_width (suc x))) [
      | yes p ↦ absurd (omega (arith, small, pow_mono (suc k) (bit_width (suc x)) p, pow_double k))
      | no p ↦ omega arith
    ]

countr_zero_fuel_divides : (f x : ℕ) → 2 ^ countr_zero_fuel f x * (x / 2 ^ countr_zero_fuel f x) ≡ x
unfolding countr_zero_fuel
countr_zero_fuel_divides zero x = omega arith
countr_zero_fuel_divides (suc f) x = elim (Bool-cases (x % 2 == 0)) [
  | inl even ↦
      let k = countr_zero_fuel f (x / 2) in
      rw (even, pow_double k, ← div-div-eq-div-mul x 2 (2 ^ k))
        (omega (arith, (==_iff (x % 2) 0).0 even, countr_zero_fuel_divides f (x / 2)))
  | inr odd ↦ rw odd (omega arith)
]

pub countr_zero_divides : (x : ℕ) → 2 ^ countr_zero x * (x / 2 ^ countr_zero x) ≡ x
unfolding countr_zero
countr_zero_divides x = countr_zero_fuel_divides 64 x

-- A number with a single bit is a power of two.
pub has_single_bit-pow : (x : ℕ) → has_single_bit x ≡ true → x ≡ 2 ^ countr_zero x
unfolding has_single_bit
has_single_bit-pow x h =
    let one = (==_iff (x / 2 ^ countr_zero x) 1).0 h in
    omega (arith, countr_zero_divides x, ap (λ (t : ℕ). 2 ^ countr_zero x * t) one)

unfoldable pub countl_zero : ℕ → ℕ
unfolding bit_width
countl_zero x = 64 - bit_width x

pub countl_zero-bit_width : (x : ℕ) → countl_zero x ≡ 64 - bit_width x
unfolding countl_zero
countl_zero-bit_width x = refl

countr_zero_fuel-le : (f x : ℕ) → countr_zero_fuel f x ≤ f
unfolding countr_zero_fuel
countr_zero_fuel-le zero x = omega arith
countr_zero_fuel-le (suc f) x = ground (arith, countr_zero_fuel-le f (x / 2))

pub countr_zero-le : (x : ℕ) → countr_zero x ≤ 64
unfolding countr_zero
countr_zero-le x = countr_zero_fuel-le 64 x
