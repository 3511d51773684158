-- ===== src/Base/Powers.antt =====
-- Powers of two: sums of exponents, order, and quotients by them.
use Prim.Native.Nat.{ℕ, zero, suc, ◌+◌, ◌*◌, ◌^◌, ◌≤◌, ◌<◌}
use mathlib.Core.Path.{◌≡◌, refl}
use native.Mathlib.Nat.{
  pow-suc, one-le-pow, pow-le-pow_right, add-zero, mul-one, add-suc, mul_assoc,
}
use native.Mathlib.Decide.{dec_le}
use native.Mathlib.Omega.{arith}

pub pow-add : (a b : ℕ) → 2 ^ (a + b) ≡ 2 ^ a * 2 ^ b
pow-add a zero = rw (add-zero, mul-one) refl
pow-add a (suc b) =
    rw (add-suc, pow-suc) (rw (pow-add a b, pow-suc 2 b) (mul_assoc (2 ^ a) (2 ^ b) 2))

pub pow-pos : (a : ℕ) → 0 < 2 ^ a
pow-pos a = one-le-pow a 2 (omega arith)

pub pow_mono : (a b : ℕ) → a ≤ b → 2 ^ a ≤ 2 ^ b
pow_mono a b h = pow-le-pow_right (omega arith) h

pub pow_double : (a : ℕ) → 2 ^ suc a ≡ 2 * 2 ^ a
pow_double a = omega (arith, pow-suc 2 a)

pub pow-lt-pow_suc : (a : ℕ) → 2 ^ a < 2 ^ suc a
pow-lt-pow_suc a = omega (arith, pow_double a, pow-pos a)

pub pow-le_inv : (a b : ℕ) → 2 ^ a ≤ 2 ^ b → a ≤ b
pow-le_inv a b h = elim (dec_le a b) [
  | yes p ↦ p
  | no p ↦ absurd (omega (arith, pow_mono (suc b) a (omega arith), pow-lt-pow_suc b))
]
