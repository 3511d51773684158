-- ===== src/KnownBits/Sums.antt =====
-- Sums and differences: where the least and the greatest operands carry alike, so do all others.
use foptim.Base.{
  ℕ, ◌+◌, ◌-◌, ◌%◌, ◌^◌, ◌≤◌, ◌<◌, ◌≡◌, sym, ap, ap₂, ◌∙◌, subst, arith, Bool, true, false,
  if◌then◌else◌,
}
use foptim.Base.Powers.{pow_mono}
use foptim.Base.Digits.{bit_of, bit_of-mod}
use foptim.Words.{value}
use foptim.ApInt.{ApInt, add, from_u64}
use foptim.ApInt.Make.{from_u64-Is}
use foptim.ApInt.Ring.{add-Is}
use foptim.ApInt.Bitwise.{complement}
use foptim.KnownBits.{
  KnownBits, add_at, compute_for_add_carry, get_unsigned_max_value, known_add, known_sub, known_not,
}
use foptim.KnownBits.Masks.{
  IsMask, Knows, Knows-IsMask, zero-IsMask, one-IsMask, and-IsMask, or-IsMask, xor-IsMask,
  complement-IsMask,
}
use foptim.KnownBits.Carries.{
  carry_in, bit_of-sum, below_bits, agree, carry_mono, carry_in-le, sum_at, bound_at,
}
use foptim.KnownBits.Logic.{known_not-Knows}
use native.Mathlib.Nat.{add-mod-mod, mod-eq_of_lt}

-- The bits of a sum of two integers and a carry.
sum-IsMask :
    (x y : ApInt) (w c : ℕ) (f g : ℕ → ℕ)
    → c ≤ 1
    → IsMask x w f
    → IsMask y w g
    → IsMask
        (add (add x y) (from_u64 w c))
        w
        (λ k. (f k + g k + carry_in k (value x.words) (value y.words) c) % 2)
sum-IsMask x y w c f g h hx hy =
    let pos : 1 ≤ w = subst (λ b. 1 ≤ b) hx.width hx.valid.shape.positive in
    let fits : w + 63 < 2 ^ 32 = subst (λ b. b + 63 < 2 ^ 32) hx.width hx.valid.shape.fits in
    let small : c < 2 ^ w = omega (arith, pow_mono 1 w pos) in
    let z = from_u64-Is w c pos fits (omega arith) in
    let s = add-Is x y hx.valid hy.valid (hx.width ∙ sym hy.width) in
    let t = add-Is (add x y) (from_u64 w c) s.valid z.valid (s.width ∙ hx.width ∙ sym z.width) in
    let total = value x.words + value y.words in
    let cut : ((total % 2 ^ w) + c) % 2 ^ w ≡ (total + c) % 2 ^ w =
      ap (λ n. n % 2 ^ w) (omega arith)
      ∙ add-mod-mod c total (2 ^ w)
      ∙ ap (λ n. n % 2 ^ w) (omega arith) in
    let number : value (add (add x y) (from_u64 w c)).words ≡ (total + c) % 2 ^ w =
      t.number
      ∙ ap₂ (λ p q. (p + q) % 2 ^ (add x y).bits) (s.number ∙ ap (λ b. total % 2 ^ b) hx.width)
          (z.number ∙ mod-eq_of_lt small)
      ∙ ap (λ b. ((total % 2 ^ w) + c) % 2 ^ b) (s.width ∙ hx.width)
      ∙ cut in
    record {
      width = t.width ∙ s.width ∙ hx.width;
      valid = t.valid;
      bits = λ k lt.
          ap (bit_of k) number
          ∙ bit_of-mod w k (total + c) lt
          ∙ bit_of-sum k (value x.words) (value y.words) c
          ∙ ap₂ (λ p q. (p + q + carry_in k (value x.words) (value y.words) c) % 2) (hx.bits k lt)
              (hy.bits k lt);
    }

module _ (lhs rhs : KnownBits) (w m n c : ℕ) (h : Knows lhs w m) (i : Knows rhs w n)
    (carry_zero carry_one : Bool) (above : (if carry_one then 1 else 0) ≤ c)
    (below : c ≤ (if carry_zero then 0 else 1)) where
  abbrev most : ℕ
  most = if carry_zero then 0 else 1

  abbrev least : ℕ
  least = if carry_one then 1 else 0

  most-le : (b : Bool) → (if b then 0 else 1) ≤ 1
  most-le true = omega arith
  most-le false = omega arith

  -- The greatest operands have every bit that an operand has, the least no other.
  below_most :
      (b : KnownBits) (v k : ℕ)
      → Knows b w v
      → k < w
      → v % 2 ^ k ≤ value (complement b.known_zero).words % 2 ^ k
  below_most b v k hb lt = below_bits k v (value (complement b.known_zero).words) (λ j less. omega (
    arith,
    hb.zeros j (omega arith),
    (complement-IsMask b.known_zero w _ (zero-IsMask b w v hb)).bits j (omega arith),
  ))

  above_least :
      (b : KnownBits) (v k : ℕ) → Knows b w v → k < w → value b.known_one.words % 2 ^ k ≤ v % 2 ^ k
  above_least b v k hb lt =
      below_bits k (value b.known_one.words) v (λ j less. hb.ones j (omega arith))

  add_at-Knows : Knows (add_at w lhs rhs carry_zero carry_one) w ((m + n + c) % 2 ^ w)
  unfolding add_at get_unsigned_max_value
  add_at-Knows =
      let z0 = zero-IsMask lhs w m h in
      let o0 = one-IsMask lhs w m h in
      let z1 = zero-IsMask rhs w n i in
      let o1 = one-IsMask rhs w n i in
      let psz =
        sum-IsMask (complement lhs.known_zero) (complement rhs.known_zero) w most _ _
          (most-le carry_zero) (complement-IsMask _ w _ z0) (complement-IsMask _ w _ z1) in
      let pso =
        sum-IsMask lhs.known_one rhs.known_one w least _ _
          (omega (arith, above, below, most-le carry_zero)) o0 o1 in
      let ckz = complement-IsMask _ w _ (xor-IsMask _ _ w _ _ (xor-IsMask _ _ w _ _ psz z0) z1) in
      let cko = xor-IsMask _ _ w _ _ (xor-IsMask _ _ w _ _ pso o0) o1 in
      let known =
        and-IsMask _ _ w _ _
          (and-IsMask _ _ w _ _ (or-IsMask _ _ w _ _ z0 o0) (or-IsMask _ _ w _ _ z1 o1))
          (or-IsMask _ _ w _ _ ckz cko) in
      let bit_agree = λ (k : ℕ) (lt : k < w).
        agree (bit_of k (value lhs.known_zero.words)) (bit_of k (value lhs.known_one.words))
          (bit_of k (value rhs.known_zero.words)) (bit_of k (value rhs.known_one.words))
          (bit_of k m) (bit_of k n)
          (carry_in k (value (complement lhs.known_zero).words)
            (value (complement rhs.known_zero).words) most)
          (carry_in k (value lhs.known_one.words) (value rhs.known_one.words) least)
          (carry_in k m n c) (h.ones k lt) (h.zeros k lt) (i.ones k lt) (i.zeros k lt)
          (carry_mono k _ _ least m n c (above_least lhs m k h lt) (above_least rhs n k i lt) above)
          (carry_mono k m n c _ _ most (below_most lhs m k h lt) (below_most rhs n k i lt) below)
          (carry_in-le k _ _ most (most-le carry_zero)) in
      let bit_sum = λ (k : ℕ) (lt : k < w). bit_of-mod w k (m + n + c) lt ∙ bit_of-sum k m n c in
      Knows-IsMask _ w ((m + n + c) % 2 ^ w) _ _
        (and-IsMask _ _ w _ _ (complement-IsMask _ w _ psz) known) (and-IsMask _ _ w _ _ pso known)
        (λ k lt. sum_at _ (bit_sum k lt) (bit_agree k lt).0)
        (λ k lt. bound_at _ (bit_sum k lt) (bit_agree k lt).1)

  pub compute_for_add_carry-Knows :
      Knows (compute_for_add_carry lhs rhs carry_zero carry_one) w ((m + n + c) % 2 ^ w)
  unfolding compute_for_add_carry
  compute_for_add_carry-Knows =
      subst (λ v. Knows (add_at v lhs rhs carry_zero carry_one) w ((m + n + c) % 2 ^ w))
        (sym h.one_width) add_at-Knows

-- When the masks of both operands know their numbers at width w, the masks computed for the sum know
-- the sum modulo 2^w; a mask pair knows a number at width w when both masks are well formed integers
-- of width w, every bit set in known_one is one in the low w bits of the number and every bit set in
-- known_zero is zero there.
pub known_add-Knows :
    (a b : KnownBits) (w m n : ℕ)
    → Knows a w m
    → Knows b w n
    → Knows (known_add a b) w ((m + n) % 2 ^ w)
unfolding known_add
known_add-Knows a b w m n h i =
    let plain : (m + n + 0) % 2 ^ w ≡ (m + n) % 2 ^ w = ap (λ t. t % 2 ^ w) (omega arith) in
    subst (Knows (compute_for_add_carry a b true false) w) plain
      (compute_for_add_carry-Knows a b w m n 0 h i true false (omega arith) (omega arith))

-- When the masks of both operands know their numbers at width w and the second number is below 2^w,
-- the masks computed for the difference know the difference modulo 2^w; a mask pair knows a number
-- at width w when both masks are well formed integers of width w, every bit set in known_one is one
-- in the low w bits of the number and every bit set in known_zero is zero there.
pub known_sub-Knows :
    (a b : KnownBits) (w m n : ℕ)
    → n < 2 ^ w
    → Knows a w m
    → Knows b w n
    → Knows (known_sub a b) w ((m + 2 ^ w - n) % 2 ^ w)
unfolding known_sub
known_sub-Knows a b w m n lt h i =
    let flipped : (m + (2 ^ w - 1 - n) + 1) % 2 ^ w ≡ (m + 2 ^ w - n) % 2 ^ w =
      ap (λ t. t % 2 ^ w) (omega arith) in
    subst (Knows (compute_for_add_carry a (known_not b) false true) w) flipped (
      compute_for_add_carry-Knows a (known_not b) w m (2 ^ w - 1 - n) 1 h
        (known_not-Knows b w n lt i) false true (omega arith) (omega arith))
