-- ===== src/Base/Bitwise.antt =====
-- Operations that combine numbers bit by bit: fields, bounds, and the exclusive or.
use foptim.Base.{
  ℕ, zero, suc, ◌+◌, ◌*◌, ◌/◌, ◌%◌, ◌^◌, ◌≤◌, ◌<◌, ◌≡◌, refl, sym, ap, ap₂, ◌∙◌, arith, min, max,
}
use foptim.Base.Powers.{pow_double}
use foptim.Base.BitLaws.{bit_and_low, bit_or_low, digits_step}
use foptim.Base.Digits.{bit_of, higher}
use Prim.Native.Nat.{bit_and, bit_or, bit_xor, bit_xor-bitwise, differ}

-- `op` is `bit` on each digit.
pub record IsBitwise (op bit : ℕ → ℕ → ℕ) : Type 0 where
  pub step : (a b : ℕ) → op a b ≡ op (a / 2) (b / 2) * 2 + bit (a % 2) (b % 2)
  pub empty : op 0 0 ≡ 0
  pub digit : (a b : ℕ) → a ≤ 1 → b ≤ 1 → bit a b ≤ 1

module _ (op bit : ℕ → ℕ → ℕ) (h : IsBitwise op bit) where
  pub bit_of-op : (k a b : ℕ) → bit_of k (op a b) ≡ bit (bit_of k a) (bit_of k b)
  bit_of-op zero a b =
      let p : a / 1 % 2 ≡ a % 2 = omega arith in
      let q : b / 1 % 2 ≡ b % 2 = omega arith in
      omega (arith, h.step a b, h.digit (a % 2) (b % 2) (omega arith) (omega arith), ap₂ bit p q)
  bit_of-op (suc k) a b =
      let half : op a b / 2 ≡ op (a / 2) (b / 2) =
        omega (arith, h.step a b, h.digit (a % 2) (b % 2) (omega arith) (omega arith)) in
      higher k (op a b)
      ∙ ap (bit_of k) half
      ∙ bit_of-op k (a / 2) (b / 2)
      ∙ sym (ap₂ bit (higher k a) (higher k b))

  pub op-bound : (n a b : ℕ) → a < 2 ^ n → b < 2 ^ n → op a b < 2 ^ n
  op-bound zero a b p q =
      let u : a ≡ 0 = omega arith in let v : b ≡ 0 = omega arith in rw (u, v, h.empty) (omega arith)
  op-bound (suc n) a b p q = omega (
    arith,
    h.step a b,
    h.digit (a % 2) (b % 2) (omega arith) (omega arith),
    op-bound n (a / 2) (b / 2) (omega (arith, pow_double n)) (omega (arith, pow_double n)),
    pow_double n,
  )

  -- Low fields are combined with low fields, high ones with high ones.
  pub op_fields :
      (n a b v w : ℕ)
      → a < 2 ^ n
      → b < 2 ^ n
      → op (a + 2 ^ n * v) (b + 2 ^ n * w) ≡ op a b + 2 ^ n * op v w
  op_fields zero a b v w p q =
      let u : a ≡ 0 = omega arith in
      let t : b ≡ 0 = omega arith in
      let high_v : 0 + 1 * v ≡ v = omega arith in
      let high_w : 0 + 1 * w ≡ w = omega arith in
      let none = ap₂ op u t ∙ h.empty in
      ap₂ op (ap (λ n. n + 1 * v) u ∙ high_v) (ap (λ n. n + 1 * w) t ∙ high_w) ∙ omega (arith, none)
  op_fields (suc n) a b v w p q =
      let x = a + 2 ^ suc n * v in
      let y = b + 2 ^ suc n * w in
      let whole_x : x ≡ a + 2 * (2 ^ n * v) = omega (arith, ap (λ (t : ℕ). t * v) (pow_double n)) in
      let whole_y : y ≡ b + 2 * (2 ^ n * w) = omega (arith, ap (λ (t : ℕ). t * w) (pow_double n)) in
      let half_x : x / 2 ≡ a / 2 + 2 ^ n * v = omega (arith, whole_x) in
      let half_y : y / 2 ≡ b / 2 + 2 ^ n * w = omega (arith, whole_y) in
      let low_x : x % 2 ≡ a % 2 = omega (arith, whole_x) in
      let low_y : y % 2 ≡ b % 2 = omega (arith, whole_y) in
      let ih =
        op_fields n (a / 2) (b / 2) v w (omega (arith, pow_double n))
          (omega (arith, pow_double n)) in
      omega (
        arith,
        h.step x y,
        ap₂ op half_x half_y,
        ap₂ bit low_x low_y,
        ih,
        h.step a b,
        ap (λ (t : ℕ). t * op v w) (pow_double n),
      )

bit_xor_low : (a b : ℕ) → bit_xor a b ≡ bit_xor (a / 2) (b / 2) * 2 + differ (a % 2) (b % 2)
bit_xor_low zero b =
    let low : differ 0 (b % 2) ≡ b % 2 = ground arith in
    omega (arith, bit_xor-bitwise 0 b, bit_xor-bitwise 0 (b / 2), low)
bit_xor_low (suc a) b =
    let step = digits_step (λ n. n) differ a b in
    bit_xor-bitwise (suc a) b
    ∙ step
    ∙ ap (λ n. n * 2 + differ (suc a % 2) (b % 2)) (sym (bit_xor-bitwise (suc a / 2) (b / 2)))

differ-digit : (a b : ℕ) → a ≤ 1 → b ≤ 1 → differ a b ≤ 1
differ-digit zero b p q = q
differ-digit (suc a) zero p q = p
differ-digit (suc a) (suc b) p q = differ-digit a b (omega arith) (omega arith)

pub bit_and-IsBitwise : IsBitwise bit_and min
bit_and-IsBitwise = record { step = bit_and_low; empty = refl; digit = λ a b p q. omega arith }

pub bit_or-IsBitwise : IsBitwise bit_or max
bit_or-IsBitwise = record { step = bit_or_low; empty = refl; digit = λ a b p q. omega arith }

pub bit_xor-IsBitwise : IsBitwise bit_xor differ
bit_xor-IsBitwise = record { step = bit_xor_low; empty = refl; digit = differ-digit }

-- The digits of an exclusive or, for linear arithmetic.
pub differ-sum : (a b : ℕ) → a ≤ 1 → b ≤ 1 → differ a b + 2 * min a b ≡ a + b
differ-sum zero b p q = omega arith
differ-sum (suc a) zero p q = omega arith
differ-sum (suc zero) (suc zero) p q = refl
differ-sum (suc zero) (suc (suc b)) p q = absurd (omega arith)
differ-sum (suc (suc a)) (suc b) p q = absurd (omega arith)
