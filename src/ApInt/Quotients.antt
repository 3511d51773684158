-- ===== src/ApInt/Quotients.antt =====
-- Division up to 128 bits: the paths on a word and on a double word.
use foptim.Base.{
  ℕ, ◌/◌, ◌%◌, ◌^◌, ◌≤◌, ◌<◌, ◌≡◌, subst, true, false, arith, leb, if◌then◌else◌, Bool-cases, inl,
  inr, leb→le, in_else,
}
use foptim.Base.Powers.{pow_mono}
use foptim.Words.{value}
use foptim.ApInt.{ApInt, val, get128, from_u64, from_u128}
use foptim.ApInt.Cut.{IsValid, Is}
use foptim.ApInt.Make.{from_u64-Is, from_u128-Is}
use foptim.ApInt.Views.{val-value, get128-value}
use foptim.ApInt.Bitwise.{is_zero}
use foptim.ApInt.Divide.{udivrem_wide, udiv, urem}
use native.Mathlib.Nat.{mod-eq_of_lt, div-le_self, mod-le}

-- Results of one word and of two words.
module _ (x : ApInt) (v : IsValid x) where
  pub word-Is : (n r : ℕ) → n < 2 ^ 64 → n % 2 ^ x.bits ≡ r → Is (from_u64 x.bits n) x.bits r
  word-Is n r lt e =
      subst (Is (from_u64 x.bits n) x.bits) e
        (from_u64-Is x.bits n v.shape.positive v.shape.fits lt)

  pub double-Is : (n r : ℕ) → n < 2 ^ 128 → n % 2 ^ x.bits ≡ r → Is (from_u128 x.bits n) x.bits r
  double-Is n r lt e =
      subst (Is (from_u128 x.bits n) x.bits) e
        (from_u128-Is x.bits n v.shape.positive v.shape.fits lt)

module _ (x y : ApInt) (v : IsValid x) (w : IsValid y) (same : x.bits ≡ y.bits) where
  abbrev vx : ℕ
  vx = value x.words

  abbrev vy : ℕ
  vy = value y.words

  -- Either path.
  module _ (single double : ApInt) (r : ℕ) where
    pub two_paths :
        x.bits ≤ 128
        → (x.bits ≤ 64 → Is single x.bits r)
        → (64 < x.bits → Is double x.bits r)
        → Is (if leb x.bits 64 then single else double) x.bits r
    two_paths h p q = elim (Bool-cases (leb x.bits 64)) [
      | inl narrow ↦ rw narrow (p (leb→le _ _ narrow))
      | inr wide ↦ in_else (λ a. Is a x.bits r) single double wide (q (ground arith))
    ]

  pub values : x.bits ≤ 64 → (val x ≡ vx) × (val y ≡ vy)
  values h = (val-value x v h, val-value y w (omega (arith, same)))

  values128 : 64 < x.bits → x.bits ≤ 128 → (get128 x ≡ vx) × (get128 y ≡ vy)
  values128 a h =
      (get128-value x v a h, get128-value y w (omega (arith, same)) (omega (arith, same)))

  pub quotient-lt : (k : ℕ) → x.bits ≤ k → vx / vy < 2 ^ k
  quotient-lt k h = omega (arith, div-le_self vx vy, v.cut, pow_mono x.bits k h)

  pub remainder-lt : (k : ℕ) → x.bits ≤ k → vx % vy < 2 ^ k
  remainder-lt k h = omega (arith, mod-le vx vy, v.cut, pow_mono x.bits k h)

  pub udiv-Is : x.bits ≤ 128 → is_zero y ≡ false → Is (udiv x y) x.bits (vx / vy)
  unfolding udiv udivrem_wide
  udiv-Is h some_left =
      let cut = mod-eq_of_lt (quotient-lt x.bits (omega arith)) in
      two_paths _ _ (vx / vy) h
        (λ n. rw ((values n).0, (values n).1) (word-Is x v (vx / vy) _ (quotient-lt 64 n) cut))
        (λ a.
          let middle : leb x.bits 128 ≡ true = ground arith in
          rw (middle, (values128 a h).0, (values128 a h).1)
            (double-Is x v (vx / vy) _ (quotient-lt 128 h) cut))

  pub urem-Is : x.bits ≤ 128 → is_zero y ≡ false → Is (urem x y) x.bits (vx % vy)
  unfolding urem udivrem_wide
  urem-Is h some_left =
      let cut = mod-eq_of_lt (remainder-lt x.bits (omega arith)) in
      two_paths _ _ (vx % vy) h
        (λ n. rw ((values n).0, (values n).1) (word-Is x v (vx % vy) _ (remainder-lt 64 n) cut))
        (λ a.
          let middle : leb x.bits 128 ≡ true = ground arith in
          rw (middle, (values128 a h).0, (values128 a h).1)
            (double-Is x v (vx % vy) _ (remainder-lt 128 h) cut))
