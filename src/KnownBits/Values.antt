-- ===== src/KnownBits/Values.antt =====
-- Constants, the unknown value and remainders: what the masks say of a whole number.
use foptim.Base.{
  true, ==_iff, ◌-◌, ℕ, ◌+◌, ◌%◌, ◌^◌, ◌≤◌, ◌<◌, ◌≡◌, sym, ap, ◌∙◌, subst, arith, inl, inr, ltb→lt,
  Bool-cases,
}
use foptim.Base.Digits.{bit_of, bit_of-zero, bit_of-mod, bit_of-complement, bits_ext}
use foptim.Base.Powers.{pow_mono}
use foptim.Words.{value}
use foptim.ApInt.{ApInt, from_u64, ult, zext_or_trunc}
use foptim.ApInt.Cut.{IsValid}
use foptim.ApInt.Make.{from_u64-Is}
use foptim.ApInt.Resize.{zext_or_trunc-Is}
use foptim.ApInt.Compare.{ult-value}
use foptim.ApInt.Bitwise.{or, complement}
use foptim.ApInt.SpecialValues.{is_all_ones-exact}
use foptim.KnownBits.{
  is_constant, KnownBits, unknown, known_int, known_trunc, known_urem, get_unsigned_max_value,
}
use foptim.KnownBits.Masks.{
  IsMask, Is-IsMask, Knows, Knows-IsMask, zero-IsMask, one-IsMask, or-IsMask, complement-IsMask,
}
use foptim.KnownBits.Carries.{below_bits}
use native.Mathlib.Nat.{mod-eq_of_lt}

-- Nothing is known.
pub unknown-Knows : (w n : ℕ) → 1 ≤ w → w + 63 < 2 ^ 32 → Knows (unknown w) w n
unfolding unknown
unknown-Knows w n pos fits =
    let z = Is-IsMask (from_u64 w 0) w (0 % 2 ^ w) (from_u64-Is w 0 pos fits (omega arith)) in
    Knows-IsMask (unknown w) w n _ _ z z (λ k lt. omega (arith, bit_of-zero k, none k))
      (λ k lt. omega (arith, bit_of-zero k, none k))
  where
    none : (k : ℕ) → bit_of k (0 % 2 ^ w) ≡ 0
    none k = ap (bit_of k) (mod-eq_of_lt (omega (arith, pow_mono 1 w pos))) ∙ bit_of-zero k

-- The greatest and the least value bound the number.
module _ (b : KnownBits) (w n : ℕ) (lt : n < 2 ^ w) (h : Knows b w n) where
  pub most-bound : n ≤ value (get_unsigned_max_value b).words
  unfolding get_unsigned_max_value
  most-bound =
      let m = complement-IsMask b.known_zero w _ (zero-IsMask b w n h) in
      let low =
        below_bits w n (value (complement b.known_zero).words)
          (λ j less. omega (arith, h.zeros j less, m.bits j less)) in
      omega (
        arith,
        low,
        mod-eq_of_lt lt,
        mod-eq_of_lt
            (subst (λ t. value (complement b.known_zero).words < 2 ^ t) m.width m.valid.cut),
      )

  pub least-bound : value b.known_one.words ≤ n
  least-bound = omega (
    arith,
    below_bits w (value b.known_one.words) n h.ones,
    mod-eq_of_lt lt,
    mod-eq_of_lt (subst (λ t. value b.known_one.words < 2 ^ t) h.one_width h.one_valid.cut),
  )

-- When the masks of both operands know their numbers at width w and both numbers are below 2^w, the
-- masks computed for the unsigned remainder know the remainder (that of a divisor 0 is taken to be
-- the dividend); a mask pair knows a number at width w when both masks are well formed integers of
-- width w, every bit set in known_one is one in the low w bits of the number and every bit set in
-- known_zero is zero there.
pub known_urem-Knows :
    (a b : KnownBits) (w m n : ℕ)
    → m < 2 ^ w
    → n < 2 ^ w
    → Knows a w m
    → Knows b w n
    → Knows (known_urem a b) w (m % n)
unfolding known_urem
known_urem-Knows a b w m n lm ln h i =
    let most = complement-IsMask a.known_zero w _ (zero-IsMask a w m h) in
    let test =
      ult-value (complement a.known_zero) b.known_one most.valid i.one_valid
        (most.width ∙ sym i.one_width) in
    let width = h.one_width in
    elim (Bool-cases (ult (complement a.known_zero) b.known_one)) [
      | inl less ↦
          let order = ltb→lt _ _ (sym test ∙ less) in
          rw less (
            subst (Knows a w)
              (sym (
                mod-eq_of_lt (omega (arith, order, most-bound a w m lm h, least-bound b w n ln i))))
              h)
      | inr other ↦
          let pos = subst (λ t. 1 ≤ t) width h.one_valid.shape.positive in
          let fits = subst (λ t. t + 63 < 2 ^ 32) width h.one_valid.shape.fits in
          rw (other, width) (unknown-Knows w (m % n) pos fits)
    ]

pub known_int-Knows :
    (x : ApInt) (w : ℕ)
    → IsValid x
    → 1 ≤ w
    → w + 63 < 2 ^ 32
    → Knows (known_int w x) w (value x.words % 2 ^ w)
unfolding known_int
known_int-Knows x w v pos fits =
    let n = value x.words % 2 ^ w in
    let one = Is-IsMask (zext_or_trunc x w) w n (zext_or_trunc-Is x w v pos fits) in
    Knows-IsMask (known_int w x) w n _ _ (complement-IsMask _ w _ one) one (λ k lt. omega arith)
      (λ k lt. omega arith)

-- The low bits of a mask.
trunc-IsMask :
    (x : ApInt) (v w : ℕ) (f : ℕ → ℕ)
    → 1 ≤ w
    → w ≤ v
    → IsMask x v f
    → IsMask (zext_or_trunc x w) w f
trunc-IsMask x v w f pos le h =
    let fits : v + 63 < 2 ^ 32 = subst (λ t. t + 63 < 2 ^ 32) h.width h.valid.shape.fits in
    let r = zext_or_trunc-Is x w h.valid pos (omega (arith, fits, le)) in
    record {
      width = r.width;
      valid = r.valid;
      bits = λ k lt.
          ap (bit_of k) r.number
          ∙ bit_of-mod w k (value x.words) lt
          ∙ h.bits k (omega (arith, lt, le));
    }

pub known_trunc-Knows :
    (a : KnownBits) (v w m : ℕ)
    → 1 ≤ w
    → w ≤ v
    → Knows a v m
    → Knows (known_trunc w a) w (m % 2 ^ w)
unfolding known_trunc
known_trunc-Knows a v w m pos le h =
    Knows-IsMask (known_trunc w a) w (m % 2 ^ w) _ _
      (trunc-IsMask _ v w _ pos le (zero-IsMask a v m h))
      (trunc-IsMask _ v w _ pos le (one-IsMask a v m h))
      (λ k lt. omega (arith, bit_of-mod w k m lt, h.zeros k (omega (arith, lt, le))))
      (λ k lt. omega (arith, bit_of-mod w k m lt, h.ones k (omega (arith, lt, le))))

-- When the masks know a number below 2^w at width w and is_constant holds of them, the number that
-- known_one stands for is that number; a mask pair knows a number at width w when both masks are
-- well formed integers of width w, every bit set in known_one is one in the low w bits of the number
-- and every bit set in known_zero is zero there.
pub is_constant-exact :
    (b : KnownBits) (w n : ℕ)
    → n < 2 ^ w
    → Knows b w n
    → is_constant b ≡ true
    → value b.known_one.words ≡ n
unfolding is_constant
is_constant-exact b w n lt h all =
    let m = or-IsMask _ _ w _ _ (zero-IsMask b w n h) (one-IsMask b w n h) in
    let union = or b.known_zero b.known_one in
    let full : value union.words ≡ 2 ^ w - 1 - 0 =
      (==_iff (value union.words) (2 ^ union.bits - 1)).0
        (sym (is_all_ones-exact union m.valid) ∙ all)
      ∙ ap (λ t. 2 ^ t - 1) m.width
      ∙ omega arith in
    bits_ext w (value b.known_one.words) n
      (subst (λ t. value b.known_one.words < 2 ^ t) h.one_width h.one_valid.cut) lt
      (λ k less. omega (
        arith,
        h.ones k less,
        h.zeros k less,
        m.bits k less,
        ap (bit_of k) full,
        bit_of-complement w k 0 less (omega (arith, lt)),
        bit_of-zero k,
      ))
