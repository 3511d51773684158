-- ===== src/KnownBits/Products.antt =====
-- `computeMul`: a shift for a known power of two, and else the zeros at the bottom of a product.
use foptim.Base.{
  ℕ, ◌+◌, ◌-◌, ◌*◌, ◌/◌, ◌%◌, ◌^◌, ◌≤◌, ◌<◌, ◌≡◌, sym, ap, ◌∙◌, subst, true, ◌||◌, Bool-cases, inl,
  inr, ◌⊎◌, ==_iff, arith, dec_lt, min,
}
use foptim.Base.Options.{Option-cases}
use foptim.Base.Digits.{bit_of, bit_of-zero, bit_of-above}
use foptim.Base.Modulus.{mod-mod_pow}
use foptim.Base.Multiples.{IsMultiple, mul-IsMultiple, smaller-IsMultiple, mod-IsMultiple}
use foptim.Words.{value}
use foptim.ApInt.{all_ones, from_u64}
use foptim.ApInt.Make.{all_ones-Is}
use foptim.ApInt.Bitwise.{complement, is_zero}
use foptim.ApInt.Signs.{is_zero-exact}
use foptim.ApInt.ZeroCounts.{ctz}
use foptim.ApInt.Counts.{ctz-IsMultiple}
use foptim.KnownBits.{KnownBits, get_unsigned_max_value}
use foptim.KnownBits.Masks.{IsMask, Is-IsMask, Knows, Knows-IsMask, zero-IsMask, complement-IsMask}
use foptim.KnownBits.Carries.{below_bits}
use foptim.KnownBits.Values.{most-bound}
use foptim.KnownBits.Facts.{known_log2-exact}
use foptim.KnownBits.Shifts.{none-IsMask, shifted_left-Knows, zeros_below-Knows}
use foptim.KnownBits.Instructions.{known_log2, shifted_left, mul_at, compute_mul}
use native.Mathlib.Nat.{div-add-mod}

-- A number has at least the zeros at the bottom that all its possible bits have.
bits-IsMultiple :
    (t m u : ℕ) → ((k : ℕ) → bit_of k m ≤ bit_of k u) → IsMultiple t u → IsMultiple t m
bits-IsMultiple t m u h d = (
  m / 2 ^ t,
  omega (arith, div-add-mod m (2 ^ t), below_bits t m u (λ k lt. h k), mod-IsMultiple t u d),
)

module _ (a : KnownBits) (w m : ℕ) (lt : m < 2 ^ w) (h : Knows a w m) where
  possible : IsMask (complement a.known_zero) w (λ k. 1 - bit_of k (value a.known_zero.words))
  possible = complement-IsMask a.known_zero w _ (zero-IsMask a w m h)

  ctz_possible : IsMultiple (ctz (complement a.known_zero)) m
  ctz_possible =
      bits-IsMultiple (ctz (complement a.known_zero)) m (value (complement a.known_zero).words)
        (λ k. elim (dec_lt k w) [
          | yes p ↦ omega (arith, possible.bits k p, h.zeros k p)
          | no p ↦ omega (arith, bit_of-above w k m lt (omega (arith, p)))
        ])
        (ctz-IsMultiple (complement a.known_zero) possible.valid)

  none_possible : is_zero (complement a.known_zero) ≡ true → m ≡ 0
  none_possible e =
      let v = (==_iff _ 0).0 (sym (is_zero-exact (complement a.known_zero) possible.valid) ∙ e) in
      let bound : m ≤ value (complement a.known_zero).words =
        unfold get_unsigned_max_value in most-bound a w m lt h in
      omega (arith, v, bound)

all_zeros-Knows :
    (w r : ℕ)
    → 1 ≤ w
    → w + 63 < 2 ^ 32
    → r ≡ 0
    → Knows (record { known_zero = all_ones w; known_one = from_u64 w 0 }) w r
all_zeros-Knows w r pos fits e =
    Knows-IsMask _ w r _ _ (Is-IsMask _ w _ (all_ones-Is w pos fits)) (none-IsMask w pos fits)
      (λ k lt. omega (arith, ap (bit_of k) e, bit_of-zero k)) (λ k lt. omega arith)

module _ (a b : KnownBits) (w m n : ℕ) (lm : m < 2 ^ w) (ln : n < 2 ^ w) (h : Knows a w m)
    (i : Knows b w n) where
  pos : 1 ≤ w
  pos = subst (λ t. 1 ≤ t) h.one_width h.one_valid.shape.positive

  fits : w + 63 < 2 ^ 32
  fits = subst (λ t. t + 63 < 2 ^ 32) h.one_width h.one_valid.shape.fits

  trailing_zeros :
      (s t : ℕ) → IsMultiple s m → IsMultiple t n → m * n % 2 ^ w % 2 ^ min (s + t) w ≡ 0
  trailing_zeros s t p q =
      mod-mod_pow w (min (s + t) w) (m * n) (omega arith)
      ∙ mod-IsMultiple (min (s + t) w) (m * n) (
          smaller-IsMultiple (min (s + t) w) (s + t) (m * n) (omega arith)
            (mul-IsMultiple s t m n p q))

  -- A product with a factor of zero.
  product_zero : (m ≡ 0) ⊎ (n ≡ 0) → m * n % 2 ^ w ≡ 0
  product_zero (inl e) = rw e (omega arith)
  product_zero (inr e) = rw e (omega arith)

  mul_at-Knows : Knows (mul_at w a b) w (m * n % 2 ^ w)
  unfolding mul_at
  mul_at-Knows = elim (Option-cases (known_log2 b)) [
    | inr (k, e) ↦
        let p = known_log2-exact b w n ln i k e in
        rw (e, mul_at)
          (subst (λ t. Knows (shifted_left w a k) w (m * t % 2 ^ w)) (sym p.0)
            (shifted_left-Knows a w m lm h k (omega (arith, p.1))))
    | inl e ↦
        rw (e, mul_at)
          (elim (Bool-cases
            (is_zero (complement a.known_zero) || is_zero (complement b.known_zero))) [
              | inl z ↦ rw z (
                  all_zeros-Knows w _ pos fits (
                    product_zero (elim (Bool-cases (is_zero (complement a.known_zero))) [
                      | inl q ↦ inl (none_possible a w m lm h q)
                      | inr q ↦ inr (none_possible b w n ln i (ground (arith, q, z)))
                    ])))
              | inr z ↦ rw z (
                  zeros_below-Knows w _ (m * n % 2 ^ w) pos fits (omega arith)
                    (trailing_zeros _ _ (ctz_possible a w m lm h) (ctz_possible b w n ln i)))
            ])
  ]

  pub compute_mul-Knows : Knows (compute_mul a b) w (m * n % 2 ^ w)
  unfolding compute_mul
  compute_mul-Knows =
      subst (λ v. Knows (mul_at v a b) w (m * n % 2 ^ w)) (sym h.one_width) mul_at-Knows
