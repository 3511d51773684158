-- ===== src/ApInt/SignedOrder.antt =====
-- src/utils/APInt.hpp, src/utils/APInt.cpp: `scmp`, `scmp_wide`, `slt`, `sle`, and the overflow flags
-- of signed addition and subtraction. The `<` of two `i64` is the order of their biased patterns.
use foptim.Base.{
  ℕ, ◌+◌, ◌-◌, ◌^◌, ◌≤◌, ◌<◌, ◌≡◌, sym, ap, ◌∙◌, subst, Bool, true, false, not, ◌&&◌, arith, ltb,
  leb, if◌then◌else◌, Bool-cases, inl, inr, leb→le,
}
use foptim.Base.Signed.{is_negative, sign_extended, biased, half, biased-sign_extended}
use foptim.Words.{value}
use foptim.ApInt.{ApInt, Flagged, is_single, is_lt, is_gt, ucmp_wide, add, sub}
use foptim.ApInt.Cut.{IsValid}
use foptim.ApInt.Compare.{ucmp_wide-value, is_lt-compare, not_gt-compare}
use foptim.ApInt.Bitwise.{is_neg}
use foptim.ApInt.Signs.{is_neg-exact}
use foptim.ApInt.Extend.{sext64, sext64-value}
use Prim.Native.Nat.{compare, Ordering}

-- `!=` of two `bool`.
abbrev pub differs : Bool → Bool → Bool
differs true b = not b
differs false b = b

pub scmp_wide : ApInt → ApInt → Ordering
unfolding ucmp_wide is_neg
scmp_wide x y =
    let na = is_neg x in
    let nb = is_neg y in
    if differs na nb then (if na then Ordering.lt else Ordering.gt) else ucmp_wide x y

unfoldable pub scmp : ApInt → ApInt → Ordering
unfolding scmp_wide
scmp x y =
    if is_single x then compare (biased 64 (sext64 x)) (biased 64 (sext64 y)) else scmp_wide x y

unfoldable pub slt : ApInt → ApInt → Bool
unfolding scmp_wide
slt x y =
    if is_single x then ltb (biased 64 (sext64 x)) (biased 64 (sext64 y)) else is_lt (scmp_wide x y)

unfoldable pub sle : ApInt → ApInt → Bool
unfolding scmp_wide
sle x y =
    if is_single x
    then leb (biased 64 (sext64 x)) (biased 64 (sext64 y))
    else not (is_gt (scmp_wide x y))

unfoldable pub sadd_ov : ApInt → ApInt → Flagged
sadd_ov x y =
    let r = add x y in
    record { result = r; ov = not (differs (is_neg x) (is_neg y)) && differs (is_neg r) (is_neg x) }

unfoldable pub ssub_ov : ApInt → ApInt → Flagged
ssub_ov x y =
    let r = sub x y in
    record { result = r; ov = differs (is_neg x) (is_neg y) && differs (is_neg r) (is_neg x) }

-- Different signs order the integers, equal ones leave it to the patterns.
by_sign :
    (b a c : ℕ)
    → 1 ≤ b
    → a < 2 ^ b
    → c < 2 ^ b
    → let na = is_negative b a in
      let nb = is_negative b c in
      (if differs na nb then (if na then Ordering.lt else Ordering.gt) else compare a c)
      ≡ compare (biased b a) (biased b c)
unfolding biased
by_sign b a c pos la lc =
    let hb = half b pos in
    elim (Bool-cases (is_negative b a)) [
      | inl na ↦ elim (Bool-cases (is_negative b c)) [
        | inl nc ↦ rw (na, nc) (ground arith)
        | inr nc ↦ rw (na, nc) (ground arith)
      ]
      | inr na ↦ elim (Bool-cases (is_negative b c)) [
        | inl nc ↦ rw (na, nc) (ground arith)
        | inr nc ↦ rw (na, nc) (ground arith)
      ]
    ]

moved_up : (p q a b c d : ℕ) → a + p ≡ c + q → b + p ≡ d + q → compare a b ≡ compare c d
moved_up p q a b c d h k = ground arith

moved_up_lt : (p q a b c d : ℕ) → a + p ≡ c + q → b + p ≡ d + q → ltb a b ≡ ltb c d
moved_up_lt p q a b c d h k = ground arith

moved_up_le : (p q a b c d : ℕ) → a + p ≡ c + q → b + p ≡ d + q → leb a b ≡ leb c d
moved_up_le p q a b c d h k = ground arith

module _ (x y : ApInt) (v : IsValid x) (w : IsValid y) (same : x.bits ≡ y.bits) where
  pub y-lt : value y.words < 2 ^ x.bits
  y-lt = subst (λ b. value y.words < 2 ^ b) (sym same) w.cut

  -- A word, seen as an `i64`.
  single_x :
      x.bits ≤ 64 → biased 64 (sext64 x) + 2 ^ (x.bits - 1) ≡ biased x.bits (value x.words) + 2 ^ 63
  single_x h =
      ap (λ n. biased 64 n + 2 ^ (x.bits - 1)) (sext64-value x v h)
      ∙ biased-sign_extended x.bits 64 (value x.words) v.shape.positive h v.cut

  single_y :
      x.bits ≤ 64 → biased 64 (sext64 y) + 2 ^ (x.bits - 1) ≡ biased x.bits (value y.words) + 2 ^ 63
  single_y h =
      ap (λ n. biased 64 n + 2 ^ (x.bits - 1))
        (sext64-value y w (omega (arith, same))
          ∙ ap (λ b. sign_extended b 64 (value y.words)) (sym same))
      ∙ biased-sign_extended x.bits 64 (value y.words) v.shape.positive h y-lt

  pub sign_y : is_neg y ≡ is_negative x.bits (value y.words)
  sign_y = is_neg-exact y w ∙ ap (λ b. is_negative b (value y.words)) (sym same)

  scmp_wide-value :
      64 < x.bits
      → scmp_wide x y ≡ compare (biased x.bits (value x.words)) (biased x.bits (value y.words))
  unfolding scmp_wide
  scmp_wide-value above =
      rw (is_neg-exact x v, sign_y, ucmp_wide-value x y v w same above)
        (by_sign x.bits (value x.words) (value y.words) v.shape.positive v.cut y-lt)

  above_single : leb x.bits 64 ≡ false → 64 < x.bits
  above_single h = ground arith

  -- With both operands well formed (as many words as the width needs, every word below 2^64, unused
  -- high bits zero) and of the same width, scmp returns the comparison of the two's complement
  -- integers, on each of its paths.
  pub scmp-value :
      scmp x y ≡ compare (biased x.bits (value x.words)) (biased x.bits (value y.words))
  unfolding scmp
  scmp-value = elim (Bool-cases (leb x.bits 64)) [
    | inl h ↦ let n = leb→le _ _ h in rw h (moved_up _ _ _ _ _ _ (single_x n) (single_y n))
    | inr h ↦ rw h (scmp_wide-value (above_single h))
  ]

  pub slt-value : slt x y ≡ ltb (biased x.bits (value x.words)) (biased x.bits (value y.words))
  unfolding slt
  slt-value = elim (Bool-cases (leb x.bits 64)) [
    | inl h ↦ let n = leb→le _ _ h in rw h (moved_up_lt _ _ _ _ _ _ (single_x n) (single_y n))
    | inr h ↦ rw (h, scmp_wide-value (above_single h)) (is_lt-compare _ _)
  ]

  pub sle-value : sle x y ≡ leb (biased x.bits (value x.words)) (biased x.bits (value y.words))
  unfolding sle
  sle-value = elim (Bool-cases (leb x.bits 64)) [
    | inl h ↦ let n = leb→le _ _ h in rw h (moved_up_le _ _ _ _ _ _ (single_x n) (single_y n))
    | inr h ↦ rw (h, scmp_wide-value (above_single h)) (not_gt-compare _ _)
  ]
