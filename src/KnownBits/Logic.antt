-- ===== src/KnownBits/Logic.antt =====
-- The bitwise operations keep what is known true.
use foptim.Base.{ℕ, ◌+◌, ◌-◌, ◌*◌, ◌^◌, ◌<◌, ◌≡◌, arith, min}
use foptim.Base.Digits.{bit_of, bit_of-and, bit_of-or, bit_of-complement}
use foptim.Base.Bitwise.{bit_of-op, bit_xor-IsBitwise, differ-sum}
use foptim.KnownBits.{KnownBits, known_and, known_or, known_xor, known_not, known_select}
use foptim.KnownBits.Masks.{Knows, Knows-IsMask, zero-IsMask, one-IsMask, and-IsMask, or-IsMask}
use Prim.Native.Nat.{bit_and, bit_or, bit_xor, differ}

module _ (a b : KnownBits) (w m n : ℕ) (h : Knows a w m) (i : Knows b w n) where
  pub known_and-Knows : Knows (known_and a b) w (bit_and m n)
  unfolding known_and
  known_and-Knows =
      Knows-IsMask (known_and a b) w (bit_and m n) _ _
        (or-IsMask _ _ w _ _ (zero-IsMask a w m h) (zero-IsMask b w n i))
        (and-IsMask _ _ w _ _ (one-IsMask a w m h) (one-IsMask b w n i))
        (λ k lt. omega (arith, bit_of-and k m n, h.zeros k lt, i.zeros k lt))
        (λ k lt. omega (arith, bit_of-and k m n, h.ones k lt, i.ones k lt))

  pub known_or-Knows : Knows (known_or a b) w (bit_or m n)
  unfolding known_or
  known_or-Knows =
      Knows-IsMask (known_or a b) w (bit_or m n) _ _
        (and-IsMask _ _ w _ _ (zero-IsMask a w m h) (zero-IsMask b w n i))
        (or-IsMask _ _ w _ _ (one-IsMask a w m h) (one-IsMask b w n i))
        (λ k lt. omega (arith, bit_of-or k m n, h.zeros k lt, i.zeros k lt))
        (λ k lt. omega (arith, bit_of-or k m n, h.ones k lt, i.ones k lt))

  -- The bit of an exclusive or, for linear arithmetic.
  xor_bit :
      (k : ℕ) → bit_of k (bit_xor m n) + 2 * min (bit_of k m) (bit_of k n) ≡ bit_of k m + bit_of k n
  xor_bit k = omega (
    arith,
    bit_of-op bit_xor differ bit_xor-IsBitwise k m n,
    differ-sum (bit_of k m) (bit_of k n) (omega arith) (omega arith),
  )

  -- When the masks of both operands know their numbers at width w, the masks computed for the
  -- exclusive or know the exclusive or; a mask pair knows a number at width w when both masks are
  -- well formed integers of width w, every bit set in known_one is one in the low w bits of the
  -- number and every bit set in known_zero is zero there.
  pub known_xor-Knows : Knows (known_xor a b) w (bit_xor m n)
  unfolding known_xor
  known_xor-Knows =
      let za = zero-IsMask a w m h in
      let zb = zero-IsMask b w n i in
      let oa = one-IsMask a w m h in
      let ob = one-IsMask b w n i in
      Knows-IsMask (known_xor a b) w (bit_xor m n) _ _
        (or-IsMask _ _ w _ _ (and-IsMask _ _ w _ _ za zb) (and-IsMask _ _ w _ _ oa ob))
        (or-IsMask _ _ w _ _ (and-IsMask _ _ w _ _ za ob) (and-IsMask _ _ w _ _ oa zb))
        (λ k lt. omega (arith, xor_bit k, h.zeros k lt, i.zeros k lt, h.ones k lt, i.ones k lt))
        (λ k lt. omega (arith, xor_bit k, h.zeros k lt, i.zeros k lt, h.ones k lt, i.ones k lt))

pub known_not-Knows :
    (a : KnownBits) (w m : ℕ) → m < 2 ^ w → Knows a w m → Knows (known_not a) w (2 ^ w - 1 - m)
known_not-Knows a w m lt h =
    Knows-IsMask (known_not a) w (2 ^ w - 1 - m) _ _ (one-IsMask a w m h) (zero-IsMask a w m h)
      (λ k small. omega (arith, bit_of-complement w k m small lt, h.ones k small))
      (λ k small. omega (arith, bit_of-complement w k m small lt, h.zeros k small))

-- What is known of both values is known of either one.
pub known_select-Knows :
    (a b : KnownBits) (w m n : ℕ)
    → Knows a w m
    → Knows b w n
    → Knows (known_select a b) w m × Knows (known_select a b) w n
unfolding known_select
known_select-Knows a b w m n h i =
    let z = and-IsMask _ _ w _ _ (zero-IsMask a w m h) (zero-IsMask b w n i) in
    let o = and-IsMask _ _ w _ _ (one-IsMask a w m h) (one-IsMask b w n i) in
    (
      Knows-IsMask (known_select a b) w m _ _ z o (λ k lt. omega (arith, h.zeros k lt))
          (λ k lt. omega (arith, h.ones k lt)),
      Knows-IsMask (known_select a b) w n _ _ z o (λ k lt. omega (arith, i.zeros k lt))
          (λ k lt. omega (arith, i.ones k lt)),
    )
