-- ===== src/Base/Digits.antt =====
-- Single bits of numbers: under the bitwise operations, shifts and cuts; numbers with equal bits.
use foptim.Base.{
  ℕ, zero, suc, ◌+◌, ◌-◌, ◌*◌, ◌/◌, ◌%◌, ◌^◌, ◌≤◌, ◌<◌, ◌≡◌, ◌≢◌, refl, sym, ap, ◌∙◌, arith, min,
  max,
}
use foptim.Base.Powers.{pow_double, pow-add, pow_mono}
use foptim.Base.BitLaws.{bit_and_low, bit_or_low, mod_split}
use foptim.Base.Powers.{pow-pos}
use Prim.Native.Nat.{bit_and, bit_or}
use native.Mathlib.Nat.{div-div-eq-div-mul, div-eq_of_lt}

abbrev pub bit_of : ℕ → ℕ → ℕ
bit_of k a = a / 2 ^ k % 2

pub higher : (k a : ℕ) → bit_of (suc k) a ≡ bit_of k (a / 2)
higher k a = ap (λ n. n % 2) (ap (λ n. a / n) (pow_double k) ∙ sym (div-div-eq-div-mul a 2 (2 ^ k)))

pub bit_of-and : (k a b : ℕ) → bit_of k (bit_and a b) ≡ min (bit_of k a) (bit_of k b)
bit_of-and zero a b = omega (arith, bit_and_low a b)
bit_of-and (suc k) a b =
    let half : bit_and a b / 2 ≡ bit_and (a / 2) (b / 2) = omega (arith, bit_and_low a b) in
    omega (
      arith,
      higher k (bit_and a b),
      ap (λ n. bit_of k n) half,
      bit_of-and k (a / 2) (b / 2),
      higher k a,
      higher k b,
    )

pub bit_of-or : (k a b : ℕ) → bit_of k (bit_or a b) ≡ max (bit_of k a) (bit_of k b)
bit_of-or zero a b = omega (arith, bit_or_low a b)
bit_of-or (suc k) a b =
    let half : bit_or a b / 2 ≡ bit_or (a / 2) (b / 2) = omega (arith, bit_or_low a b) in
    omega (
      arith,
      higher k (bit_or a b),
      ap (λ n. bit_of k n) half,
      bit_of-or k (a / 2) (b / 2),
      higher k a,
      higher k b,
    )

-- The complement in `w` bits.
pub bit_of-complement : (w k b : ℕ) → k < w → b < 2 ^ w → bit_of k (2 ^ w - 1 - b) ≡ 1 - bit_of k b
bit_of-complement zero k b hk hb = absurd (omega arith)
bit_of-complement (suc w) zero b hk hb = omega (arith, pow_double w)
bit_of-complement (suc w) (suc k) b hk hb =
    let half : (2 ^ suc w - 1 - b) / 2 ≡ 2 ^ w - 1 - b / 2 = omega (arith, pow_double w) in
    omega (
      arith,
      higher k (2 ^ suc w - 1 - b),
      ap (λ n. bit_of k n) half,
      bit_of-complement w k (b / 2) (omega arith) (omega (arith, pow_double w)),
      higher k b,
    )

pub bit_of_self : (n : ℕ) → bit_of n (2 ^ n) ≡ 1
bit_of_self zero = refl
bit_of_self (suc n) =
    let half : 2 ^ suc n / 2 ≡ 2 ^ n = omega (arith, pow_double n) in
    higher n (2 ^ suc n) ∙ ap (λ m. bit_of n m) half ∙ bit_of_self n

pub bit_of-zero : (k : ℕ) → bit_of k 0 ≡ 0
bit_of-zero zero = refl
bit_of-zero (suc k) = higher k 0 ∙ bit_of-zero k

pub bit_of-other : (n k : ℕ) → k ≢ n → bit_of k (2 ^ n) ≡ 0
bit_of-other zero zero h = absurd (h refl)
bit_of-other zero (suc k) h = higher k 1 ∙ bit_of-zero k
bit_of-other (suc n) zero h = omega (arith, pow_double n)
bit_of-other (suc n) (suc k) h =
    let half : 2 ^ suc n / 2 ≡ 2 ^ n = omega (arith, pow_double n) in
    higher k (2 ^ suc n) ∙ ap (λ m. bit_of k m) half ∙ bit_of-other n k (λ e. h (ap suc e))

-- A shift to the left: zeros come in below.
pub bit_of-mul : (m k a : ℕ) → bit_of (m + k) (a * 2 ^ m) ≡ bit_of k a
bit_of-mul zero k a = ap (λ n. bit_of n (a * 1)) (omega arith) ∙ ap (bit_of k) (omega arith)
bit_of-mul (suc m) k a =
    let half : a * 2 ^ suc m / 2 ≡ a * 2 ^ m =
      omega (arith, ap (λ (t : ℕ). a * t) (pow_double m)) in
    let out : suc m + k ≡ suc (m + k) = omega arith in
    ap (λ n. bit_of n (a * 2 ^ suc m)) out
    ∙ higher (m + k) (a * 2 ^ suc m)
    ∙ ap (bit_of (m + k)) half
    ∙ bit_of-mul m k a

pub bit_of-mul_low : (m k a : ℕ) → k < m → bit_of k (a * 2 ^ m) ≡ 0
bit_of-mul_low zero k a h = absurd (omega arith)
bit_of-mul_low (suc m) zero a h = omega (arith, ap (λ (t : ℕ). a * t) (pow_double m))
bit_of-mul_low (suc m) (suc k) a h =
    let half : a * 2 ^ suc m / 2 ≡ a * 2 ^ m =
      omega (arith, ap (λ (t : ℕ). a * t) (pow_double m)) in
    higher k (a * 2 ^ suc m) ∙ ap (bit_of k) half ∙ bit_of-mul_low m k a (omega arith)

-- A shift to the right.
pub bit_of-div : (m k a : ℕ) → bit_of k (a / 2 ^ m) ≡ bit_of (m + k) a
bit_of-div m k a =
    ap (λ n. n % 2) (div-div-eq-div-mul a (2 ^ m) (2 ^ k) ∙ ap (λ n. a / n) (sym (pow-add m k)))

-- A cut.
cut_double : (n a : ℕ) → a % 2 ^ suc n ≡ a % 2 + 2 * (a / 2 % 2 ^ n)
cut_double n a =
    let whole : a ≡ a % 2 + 2 * (a / 2) = omega arith in
    ap (λ t. a % t) (pow_double n)
    ∙ ap (λ t. t % (2 * 2 ^ n)) whole
    ∙ mod_split 2 (2 ^ n) (a % 2) (a / 2) (omega arith) (pow-pos n)

pub bit_of-mod : (n k a : ℕ) → k < n → bit_of k (a % 2 ^ n) ≡ bit_of k a
bit_of-mod zero k a h = absurd (omega arith)
bit_of-mod (suc n) zero a h = omega (arith, cut_double n a)
bit_of-mod (suc n) (suc k) a h =
    let half : a % 2 ^ suc n / 2 ≡ a / 2 % 2 ^ n = omega (arith, cut_double n a) in
    higher k (a % 2 ^ suc n)
    ∙ ap (bit_of k) half
    ∙ bit_of-mod n k (a / 2) (omega arith)
    ∙ sym (higher k a)

pub bit_of-above : (n k a : ℕ) → a < 2 ^ n → n ≤ k → bit_of k a ≡ 0
bit_of-above n k a h le = ap (λ t. t % 2) (div-eq_of_lt (omega (arith, h, pow_mono n k le)))

-- Numbers below a power of two with the same bits.
pub bits_ext :
    (n a b : ℕ) → a < 2 ^ n → b < 2 ^ n → ((k : ℕ) → k < n → bit_of k a ≡ bit_of k b) → a ≡ b
bits_ext zero a b ha hb h = omega arith
bits_ext (suc n) a b ha hb h =
    let ih =
      bits_ext n (a / 2) (b / 2) (omega (arith, pow_double n)) (omega (arith, pow_double n))
        (λ k lt. sym (higher k a) ∙ h (suc k) (omega arith) ∙ higher k b) in
    let low : a % 2 ≡ b % 2 = omega (arith, h 0 (omega arith)) in omega (arith, ih, low)
