-- ===== src/Base/BitLaws.antt =====
-- A mask of low bits is a remainder; quotients and remainders of a number split at a power.
use Prim.Native.Nat.{
  ℕ, zero, suc, ◌+◌, ◌-◌, ◌*◌, ◌/◌, ◌%◌, ◌^◌, ◌≤◌, ◌<◌, min, max, bit_and, bit_or,
}
use Prim.Native.Nat.{digits, bit_and-bitwise, bit_or-bitwise}
use mathlib.Core.Path.{◌≡◌, refl, ap, sym, ◌∙◌}
use native.Mathlib.Nat.{
  mod-eq_of_lt, add-mul-mod_self_left, div-add-mod, mod-lt, mul-le-mul_left, div-eq_of_lt-le,
  suc-mul,
}
use native.Mathlib.Omega.{arith}
use foptim.Base.Powers.{pow_double, pow-pos, pow-add}

-- The digits of a bitwise operation: `keep` of the right number once the left one is used up.
module _ (keep : ℕ → ℕ) (op : ℕ → ℕ → ℕ) where
  digits-zero : (k b : ℕ) → digits keep op k 0 b ≡ keep b
  digits-zero zero b = refl
  digits-zero (suc k) b = refl

  digits_settle : (k a b : ℕ) → a ≤ k → digits keep op (suc k) a b ≡ digits keep op k a b
  digits_settle k zero b h = sym (digits-zero k b)
  digits_settle zero (suc a) b h = absurd (omega arith)
  digits_settle (suc k) (suc a) b h =
      let inner = digits_settle k (suc a / 2) (b / 2) (omega arith) in
      ap (λ n. n * 2 + op (suc a % 2) (b % 2)) inner

  pub digits_extra : (extra a b : ℕ) → digits keep op (extra + a) a b ≡ digits keep op a a b
  digits_extra zero a b = ap (λ k. digits keep op k a b) (omega arith)
  digits_extra (suc extra) a b =
      let out : suc extra + a ≡ suc (extra + a) = omega arith in
      ap (λ k. digits keep op k a b) out
      ∙ digits_settle (extra + a) a b (omega arith)
      ∙ digits_extra extra a b

  -- One digit of a positive left number.
  pub digits_step :
      (a b : ℕ)
      → digits keep op (suc a) (suc a) b
        ≡ digits keep op (suc a / 2) (suc a / 2) (b / 2) * 2 + op (suc a % 2) (b % 2)
  digits_step a b =
      let half : ℕ = suc a / 2 in
      ap (λ n. n * 2 + op (suc a % 2) (b % 2))
        (ap (λ k. digits keep op k half (b / 2)) (omega arith)
          ∙ digits_extra (a - half) half (b / 2))

pub bit_and_low : (a b : ℕ) → bit_and a b ≡ bit_and (a / 2) (b / 2) * 2 + min (a % 2) (b % 2)
bit_and_low zero b = omega (arith, bit_and-bitwise 0 b, bit_and-bitwise 0 (b / 2))
bit_and_low (suc a) b =
    let step = digits_step (λ n. zero) min a b in
    bit_and-bitwise (suc a) b
    ∙ step
    ∙ ap (λ n. n * 2 + min (suc a % 2) (b % 2)) (sym (bit_and-bitwise (suc a / 2) (b / 2)))

zero_mask : (f a : ℕ) → a ≤ f → bit_and a 0 ≡ 0
zero_mask f zero h = refl
zero_mask zero (suc a) h = absurd (omega arith)
zero_mask (suc f) (suc a) h =
    omega (arith, bit_and_low (suc a) 0, zero_mask f (suc a / 2) (omega arith))

-- A number cut at `b * k`: the low part below `b` stays, the rest is cut at `k`.
pub mod_split : (b k w v : ℕ) → w < b → 0 < k → (w + b * v) % (b * k) ≡ w + b * (v % k)
mod_split b k w v hw hk =
    let fits = mul-le-mul_left b (mod-lt v hk) in
    let split : w + b * v ≡ w + b * (v % k) + b * k * (v / k) =
      omega (arith, ap (λ (t : ℕ). b * t) (div-add-mod v k)) in
    ap (λ n. n % (b * k)) split
    ∙ add-mul-mod_self_left (w + b * (v % k)) (b * k) (v / k)
    ∙ mod-eq_of_lt (omega arith)

pub low_mask : (k a : ℕ) → bit_and a (2 ^ k - 1) ≡ a % 2 ^ k
low_mask zero a = zero_mask a a (omega arith) ∙ omega arith
low_mask (suc k) a =
    let half : (2 ^ suc k - 1) / 2 ≡ 2 ^ k - 1 = omega (arith, pow_double k, pow-pos k) in
    let odd : (2 ^ suc k - 1) % 2 ≡ 1 = omega (arith, pow_double k, pow-pos k) in
    let split = mod_split 2 (2 ^ k) (a % 2) (a / 2) (omega arith) (pow-pos k) in
    omega (
      arith,
      bit_and_low a (2 ^ suc k - 1),
      ap (λ n. bit_and (a / 2) n) half,
      odd,
      low_mask k (a / 2),
      split,
      pow_double k,
      ap (λ n. n % 2 ^ suc k) (whole a),
      ap (λ n. (a % 2 + 2 * (a / 2)) % n) (pow_double k),
    )
  where
    whole : (n : ℕ) → n ≡ n % 2 + 2 * (n / 2)
    whole n = omega arith

-- `~0 >> (64 - k)`.
pub ones_shifted : (w k : ℕ) → k ≤ w → (2 ^ w - 1) / 2 ^ (w - k) ≡ 2 ^ k - 1
ones_shifted w k h =
    let whole = ap (λ n. 2 ^ n) (rejoin w k h) ∙ pow-add k (w - k) in
    let low = pow-pos k in
    let high = pow-pos (w - k) in
    div-eq_of_lt-le (2 ^ (w - k))
      (omega (arith, whole, low, high, drop_one (2 ^ k) (2 ^ (w - k)) low))
      (omega (arith, whole, low, high, drop_one (2 ^ k) (2 ^ (w - k)) low))
  where
    rejoin : (a b : ℕ) → b ≤ a → a ≡ b + (a - b)
    rejoin a b p = omega arith

    drop_one : (a p : ℕ) → 0 < a → (a - 1) * p + p ≡ a * p
    drop_one (suc a) p q =
        let less : suc a - 1 ≡ a = omega arith in rw less (omega (arith, suc-mul a p))
    drop_one zero p q = absurd (omega arith)

pub bit_or_low : (a b : ℕ) → bit_or a b ≡ bit_or (a / 2) (b / 2) * 2 + max (a % 2) (b % 2)
bit_or_low zero b = omega (arith, bit_or-bitwise 0 b, bit_or-bitwise 0 (b / 2))
bit_or_low (suc a) b =
    let step = digits_step (λ n. n) max a b in
    bit_or-bitwise (suc a) b
    ∙ step
    ∙ ap (λ n. n * 2 + max (suc a % 2) (b % 2)) (sym (bit_or-bitwise (suc a / 2) (b / 2)))

-- `low | (high << k)` is a sum when `low` fits `k` bits.
pub bit_or_fields : (k low high : ℕ) → low < 2 ^ k → bit_or low (high * 2 ^ k) ≡ low + 2 ^ k * high
bit_or_fields zero low high h =
    let none : low ≡ 0 = omega arith in rw none (omega (arith, bit_or-bitwise 0 (high * 1)))
bit_or_fields (suc k) low high h =
    let even : high * 2 ^ suc k ≡ 2 * (high * 2 ^ k) =
      omega (arith, ap (λ (t : ℕ). high * t) (pow_double k)) in
    let half : high * 2 ^ suc k / 2 ≡ high * 2 ^ k = omega (arith, even) in
    omega (
      arith,
      bit_or_low low (high * 2 ^ suc k),
      ap (λ n. bit_or (low / 2) n) half,
      even,
      bit_or_fields k (low / 2) high (omega (arith, pow_double k)),
      ap (λ (t : ℕ). t * high) (pow_double k),
    )
