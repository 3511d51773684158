-- ===== src/ApInt/Compare.antt =====
-- The unsigned comparisons, equality, and the overflow flags of the unsigned operations.
use foptim.Base.{
  ℕ, ◌+◌, ◌-◌, ◌*◌, ◌%◌, ◌^◌, ◌<◌, ◌≡◌, sym, ap, ◌∙◌, subst, true, false, not, arith, ltb, leb,
  ◌==◌, Bool-cases, inl, inr, leb→le,
}
use foptim.Base.Modulus.{mod_unique}
use foptim.Words.{value, ucmp_n}
use foptim.Words.Order.{ucmp_n-value}
use foptim.ApInt.{
  ApInt, val, ucmp, ucmp_wide, is_lt, is_gt, is_eq, ult, ule, eq, add, uadd_ov, usub_ov,
}
use foptim.ApInt.Cut.{IsValid, Is}
use foptim.ApInt.Ring.{add-Is, sub-Is}
use foptim.ApInt.Views.{same_length, val-value, get128-value}
use native.Mathlib.Nat.{mod-eq_of_lt}
use Prim.Native.Nat.{compare}

pub is_lt-compare : (a b : ℕ) → is_lt (compare a b) ≡ ltb a b
is_lt-compare a b = ground arith

pub not_gt-compare : (a b : ℕ) → not (is_gt (compare a b)) ≡ leb a b
not_gt-compare a b = ground arith

is_eq-compare : (a b : ℕ) → is_eq (compare a b) ≡ (a == b)
is_eq-compare a b = ground arith

module _ (x y : ApInt) (v : IsValid x) (w : IsValid y) (same : x.bits ≡ y.bits) where
  words-value : ucmp_n x.words y.words ≡ compare (value x.words) (value y.words)
  words-value =
      ucmp_n-value x.words y.words v.shape.all_words w.shape.all_words (same_length x y v w same)

  pub ucmp_wide-value : 64 < x.bits → ucmp_wide x y ≡ compare (value x.words) (value y.words)
  unfolding ucmp_wide
  ucmp_wide-value above = elim (Bool-cases (leb x.bits 128)) [
    | inl middle ↦
        let n = leb→le _ _ middle in
        rw (
          middle,
          get128-value x v above n,
          get128-value y w (omega (arith, same)) (omega (arith, same)),
        )
    | inr long ↦ rw long words-value
  ]

  above_single : leb x.bits 64 ≡ false → 64 < x.bits
  above_single h = ground arith

  single : leb x.bits 64 ≡ true → (val x ≡ value x.words) × (val y ≡ value y.words)
  single h = (val-value x v (leb→le _ _ h), val-value y w (omega (arith, same, leb→le _ _ h)))

  -- With both operands well formed (as many words as the width needs, every word below 2^64, unused
  -- high bits zero) and of the same width, ucmp returns the comparison of the numbers that the
  -- operands stand for, on each of its three paths.
  pub ucmp-value : ucmp x y ≡ compare (value x.words) (value y.words)
  unfolding ucmp
  ucmp-value = elim (Bool-cases (leb x.bits 64)) [
    | inl h ↦ rw (h, (single h).0, (single h).1)
    | inr h ↦ rw (h, ucmp_wide-value (above_single h))
  ]

  pub ult-value : ult x y ≡ ltb (value x.words) (value y.words)
  unfolding ult
  ult-value = elim (Bool-cases (leb x.bits 64)) [
    | inl h ↦ rw (h, (single h).0, (single h).1)
    | inr h ↦
        rw (h, ucmp_wide-value (above_single h)) (is_lt-compare (value x.words) (value y.words))
  ]

  pub ule-value : ule x y ≡ leb (value x.words) (value y.words)
  unfolding ule
  ule-value = elim (Bool-cases (leb x.bits 64)) [
    | inl h ↦ rw (h, (single h).0, (single h).1)
    | inr h ↦
        rw (h, ucmp_wide-value (above_single h)) (not_gt-compare (value x.words) (value y.words))
  ]

  pub eq-value : eq x y ≡ (value x.words == value y.words)
  unfolding eq
  eq-value = elim (Bool-cases (leb x.bits 64)) [
    | inl h ↦ rw (h, (single h).0, (single h).1)
    | inr h ↦ rw (h, words-value) (is_eq-compare (value x.words) (value y.words))
  ]

-- A sum is below a summand exactly when it has wrapped.
wrapped_sum : (m a b : ℕ) → a < m → b < m → ltb ((a + b) % m) a ≡ leb m (a + b)
wrapped_sum m a b ha hb = elim (Bool-cases (leb m (a + b))) [
  | inl over ↦
      let h = leb→le _ _ over in
      let whole : a + b ≡ a + b - m + m * 1 = omega arith in
      let r : (a + b) % m ≡ a + b - m =
        ap (λ n. n % m) whole ∙ mod_unique m (a + b - m) 1 (omega arith) in
      rw (r, over) (ground arith)
  | inr under ↦ let h : a + b < m = ground arith in rw (mod-eq_of_lt h, under) (ground arith)
]

module _ (x y : ApInt) (v : IsValid x) (w : IsValid y) (same : x.bits ≡ y.bits) where
  -- With both operands well formed (as many words as the width needs, every word below 2^64, unused
  -- high bits zero) and of the same width, uadd_ov returns the sum modulo 2^bits, and its flag is
  -- set exactly when the sum of the numbers is at least 2^bits.
  pub uadd_ov-exact :
      Is (uadd_ov x y).result x.bits ((value x.words + value y.words) % 2 ^ x.bits)
      × ((uadd_ov x y).ov ≡ leb (2 ^ x.bits) (value x.words + value y.words))
  unfolding uadd_ov
  uadd_ov-exact =
      let s = add-Is x y v w same in
      (
        s,
        ult-value (add x y) x s.valid v s.width
            ∙ ap (λ n. ltb n (value x.words)) s.number
            ∙ wrapped_sum (2 ^ x.bits) (value x.words) (value y.words) v.cut
                (subst (λ b. value y.words < 2 ^ b) (sym same) w.cut),
      )

  -- With both operands well formed (as many words as the width needs, every word below 2^64, unused
  -- high bits zero) and of the same width, usub_ov returns x + 2^bits - y modulo 2^bits, and its
  -- flag is set exactly when x is less than y.
  pub usub_ov-exact :
      Is (usub_ov x y).result x.bits ((value x.words + 2 ^ x.bits - value y.words) % 2 ^ x.bits)
      × ((usub_ov x y).ov ≡ ltb (value x.words) (value y.words))
  unfolding usub_ov
  usub_ov-exact = (sub-Is x y v w same, ult-value x y v w same)
