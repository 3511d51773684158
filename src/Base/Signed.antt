-- ===== src/Base/Signed.antt =====
-- Signed integers of `w` bits as their two's complement patterns: the shift `>>`, the extension to
-- more bits, and the order, which is that of the numbers moved up by 2 ^ (w - 1).
use foptim.Base.{
  ℕ, zero, suc, ◌+◌, ◌-◌, ◌*◌, ◌/◌, ◌%◌, ◌^◌, ◌≤◌, ◌<◌, ◌≡◌, sym, ap, ◌∙◌, arith, Bool, true, false,
  leb, ltb, if◌then◌else◌, Bool-cases, inl, inr, leb→le,
}
use foptim.Base.Powers.{pow-pos, pow_double, pow_mono}
use foptim.Base.Modulus.{pow-split, mod_unique}
use foptim.Base.Digits.{bit_of, bit_of-div, bit_of-complement, bit_of-above}
use native.Mathlib.Nat.{
  mod-eq_of_lt, div-eq_of_lt, div-eq_of_lt-le, div-le_self, mul-div_left, mul-le-mul_right,
  mul-lt-mul_of_pos_right,
}

-- The sign bit.
abbrev pub is_negative : ℕ → ℕ → Bool
is_negative w a = leb (2 ^ (w - 1)) a

-- `>>`.
unfoldable pub sar : ℕ → ℕ → ℕ → ℕ
sar w a k = if is_negative w a then 2 ^ w - 1 - (2 ^ w - 1 - a) / 2 ^ k else a / 2 ^ k

-- The same integer in `n` bits.
unfoldable pub sign_extended : ℕ → ℕ → ℕ → ℕ
sign_extended w n a = if is_negative w a then a + 2 ^ n - 2 ^ w else a

-- The integer plus 2 ^ (w - 1).
unfoldable pub biased : ℕ → ℕ → ℕ
biased w a = if is_negative w a then a - 2 ^ (w - 1) else a + 2 ^ (w - 1)

pub half : (w : ℕ) → 1 ≤ w → 2 ^ w ≡ 2 * 2 ^ (w - 1)
half zero h = absurd (omega arith)
half (suc w) h = let e : suc w - 1 ≡ w = omega arith in rw e (pow_double w)

-- The flipped number, cut to fewer bits.
pub flip-cut :
    (k bits n : ℕ) → bits ≤ k → n < 2 ^ bits → (2 ^ k - 1 - n) % 2 ^ bits ≡ 2 ^ bits - 1 - n
flip-cut k bits n h lt =
    ap (λ t. t % 2 ^ bits) (above (2 ^ (k - bits)) (pow-pos (k - bits)) (pow-split k bits h))
    ∙ mod_unique (2 ^ bits) (2 ^ bits - 1 - n) (2 ^ (k - bits) - 1) (omega (arith, pow-pos bits))
  where
    above :
        (q : ℕ)
        → 0 < q
        → 2 ^ k ≡ 2 ^ bits * q
        → 2 ^ k - 1 - n ≡ 2 ^ bits - 1 - n + 2 ^ bits * (q - 1)
    above zero p e = absurd (omega arith)
    above (suc q) p e = let less : suc q - 1 ≡ q = omega arith in rw less (omega (arith, e))

-- What lies between a number moved up and the top.
flipped : (s v p : ℕ) → 0 < s → v < p → (p * s - 1 - v * s) / s ≡ p - 1 - v
flipped s v p pos lt =
    let q = p - 1 - v in
    let whole : p * s ≡ v * s + s + q * s = split v q s p (omega arith) in
    div-eq_of_lt-le s (omega (arith, whole, pos)) (omega (arith, whole, pos))
  where
    split : (v q s p : ℕ) → p ≡ v + 1 + q → p * s ≡ v * s + s + q * s
    split v q s p e = ap (λ (n : ℕ). n * s) e ∙ omega arith

half_split : (w b : ℕ) → 1 ≤ b → b ≤ w → 2 ^ (w - 1) ≡ 2 ^ (b - 1) * 2 ^ (w - b)
half_split w b pos h =
    let less : w - 1 - (b - 1) ≡ w - b = omega arith in
    pow-split (w - 1) (b - 1) (omega arith) ∙ ap (λ n. 2 ^ (b - 1) * 2 ^ n) less

-- Up to the top and back down again fills with the sign.
pub sar-sign_extended :
    (w b v : ℕ)
    → 1 ≤ b
    → b ≤ w
    → v < 2 ^ b
    → sar w (v * 2 ^ (w - b) % 2 ^ w) (w - b) ≡ sign_extended b w v
unfolding sar sign_extended
sar-sign_extended w b v pos h lt =
    let s = 2 ^ (w - b) in
    let s-pos = pow-pos (w - b) in
    let whole : 2 ^ w ≡ 2 ^ b * s = pow-split w b h in
    let fits : v * s < 2 ^ w = omega (arith, whole, mul-lt-mul_of_pos_right lt s-pos) in
    let middle = half_split w b pos h in
    rw (mod-eq_of_lt fits) (elim (Bool-cases (is_negative b v)) [
      | inl neg ↦
          let top : 2 ^ (b - 1) * s ≤ v * s = mul-le-mul_right s (leb→le _ _ neg) in
          let wide : is_negative w (v * s) ≡ true = ground (arith, middle) in
          let back : (2 ^ w - 1 - v * s) / s ≡ 2 ^ b - 1 - v =
            ap (λ n. (n - 1 - v * s) / s) whole ∙ flipped s v (2 ^ b) s-pos lt in
          rw (neg, wide) (omega (arith, back, lt, pow_mono b w h))
      | inr plus ↦
          let low : v * s < 2 ^ (b - 1) * s = mul-lt-mul_of_pos_right (ground arith) s-pos in
          let wide : is_negative w (v * s) ≡ false = ground (arith, middle) in
          rw (plus, wide) (mul-div_left v s-pos)
    ])

pub sign_extended-lt : (b w v : ℕ) → b ≤ w → v < 2 ^ b → sign_extended b w v < 2 ^ w
unfolding sign_extended
sign_extended-lt b w v h lt = ground (arith, pow_mono b w h)

-- A shift of the extended number, cut to the old width, is the shift in the old width.
pub sar-cut :
    (w b v k : ℕ) → 1 ≤ b → b ≤ w → v < 2 ^ b → sar w (sign_extended b w v) k % 2 ^ b ≡ sar b v k
unfolding sar sign_extended
sar-cut w b v k pos h lt =
    let up = pow_mono b w h in
    let mid = pow_mono (b - 1) (w - 1) (omega arith) in
    let hb = half b pos in
    let hw = half w (omega arith) in
    elim (Bool-cases (is_negative b v)) [
      | inl neg ↦
          let le = leb→le _ _ neg in
          let wide : is_negative w (v + 2 ^ w - 2 ^ b) ≡ true = ground (arith, hb, hw, mid) in
          let rest : 2 ^ w - 1 - (v + 2 ^ w - 2 ^ b) ≡ 2 ^ b - 1 - v = omega arith in
          let small = div-le_self (2 ^ b - 1 - v) (2 ^ k) in
          rw (neg, wide)
            (ap (λ n. (2 ^ w - 1 - n / 2 ^ k) % 2 ^ b) rest
              ∙ flip-cut w b ((2 ^ b - 1 - v) / 2 ^ k) h (omega arith))
      | inr plus ↦
          let wide : is_negative w v ≡ false = ground (arith, mid) in
          rw (plus, wide) (mod-eq_of_lt (omega (arith, div-le_self v (2 ^ k))))
    ]

-- From `b - 1` on, only the sign is left.
pub sar-far : (b v k : ℕ) → 1 ≤ b → v < 2 ^ b → b - 1 ≤ k → sar b v k ≡ sar b v (b - 1)
unfolding sar
sar-far b v k pos lt far =
    let hb = half b pos in
    elim (Bool-cases (is_negative b v)) [
      | inl neg ↦
          let rest : 2 ^ b - 1 - v < 2 ^ (b - 1) = ground (arith, hb) in
          rw neg (ap (λ n. 2 ^ b - 1 - n) (gone (2 ^ b - 1 - v) rest))
      | inr plus ↦ rw plus (gone v (ground arith))
    ]
  where
    gone : (n : ℕ) → n < 2 ^ (b - 1) → n / 2 ^ k ≡ n / 2 ^ (b - 1)
    gone n small =
        div-eq_of_lt (omega (arith, small, pow_mono (b - 1) k far)) ∙ sym (div-eq_of_lt small)

pub sar-lt : (b v k : ℕ) → v < 2 ^ b → sar b v k < 2 ^ b
unfolding sar
sar-lt b v k lt = ground (arith, div-le_self v (2 ^ k), pow-pos b)

-- Bit by bit: what comes in is the sign.
pub sar-bit :
    (b v k t : ℕ)
    → 1 ≤ b
    → v < 2 ^ b
    → t < b
    → bit_of t (sar b v k)
      ≡ (if ltb (t + k) b then bit_of (t + k) v else (if is_negative b v then 1 else 0))
unfolding sar
sar-bit b v k t pos lt small =
    let index : k + t ≡ t + k = omega arith in
    elim (Bool-cases (is_negative b v)) [
      | inl neg ↦
          let flip = 2 ^ b - 1 - v in
          let up =
            bit_of-complement b t (flip / 2 ^ k) small
              (omega (arith, div-le_self flip (2 ^ k), pow-pos b)) in
          let moved = bit_of-div k t flip ∙ ap (λ n. bit_of n flip) index in
          rw neg (elim (Bool-cases (ltb (t + k) b)) [
            | inl inside ↦
                let back = bit_of-complement b (t + k) v (ground arith) lt in
                rw inside (omega (arith, up, moved, back))
            | inr out ↦
                let none = bit_of-above b (t + k) flip (omega (arith, pow-pos b)) (ground arith) in
                rw out (omega (arith, up, moved, none))
          ])
      | inr plus ↦
          let moved = bit_of-div k t v ∙ ap (λ n. bit_of n v) index in
          rw plus (elim (Bool-cases (ltb (t + k) b)) [
            | inl inside ↦ rw inside moved
            | inr out ↦ rw out (moved ∙ bit_of-above b (t + k) v lt (ground arith))
          ])
    ]

-- The order does not depend on the width.
pub biased-sign_extended :
    (b w v : ℕ)
    → 1 ≤ b
    → b ≤ w
    → v < 2 ^ b
    → biased w (sign_extended b w v) + 2 ^ (b - 1) ≡ biased b v + 2 ^ (w - 1)
unfolding biased sign_extended
biased-sign_extended b w v pos h lt =
    let up = pow_mono b w h in
    let mid = pow_mono (b - 1) (w - 1) (omega arith) in
    let hb = half b pos in
    let hw = half w (omega arith) in
    elim (Bool-cases (is_negative b v)) [
      | inl neg ↦
          let le = leb→le _ _ neg in
          let wide : is_negative w (v + 2 ^ w - 2 ^ b) ≡ true = ground (arith, hb, hw, mid) in
          rw (neg, wide) (omega arith)
      | inr plus ↦
          let low : v < 2 ^ (b - 1) = ground arith in
          let wide : is_negative w v ≡ false = ground (arith, mid) in rw (plus, wide) (omega arith)
    ]

-- An extension cut to a width in between is the extension to that width.
pub ones-cut :
    (b n w v : ℕ) → b ≤ n → n ≤ w → v < 2 ^ b → (v + 2 ^ w - 2 ^ b) % 2 ^ n ≡ v + 2 ^ n - 2 ^ b
ones-cut b n w v h k lt =
    let up = pow_mono b n h in
    let top = pow_mono n w k in
    let wide : v + 2 ^ w - 2 ^ b ≡ 2 ^ w - 1 - (2 ^ b - 1 - v) = omega arith in
    ap (λ t. t % 2 ^ n) wide ∙ flip-cut w n (2 ^ b - 1 - v) k (omega arith) ∙ omega arith

pub sign_extended-cut :
    (b n w v : ℕ) → b ≤ n → n ≤ w → v < 2 ^ b → sign_extended b w v % 2 ^ n ≡ sign_extended b n v
unfolding sign_extended
sign_extended-cut b n w v h k lt = elim (Bool-cases (is_negative b v)) [
  | inl neg ↦ rw neg (ones-cut b n w v h k lt)
  | inr plus ↦ rw plus (mod-eq_of_lt (omega (arith, pow_mono b n h)))
]

-- The sign stays.
pub sign_extended-sign :
    (b w v : ℕ) → 1 ≤ b → b ≤ w → v < 2 ^ b → is_negative w (sign_extended b w v) ≡ is_negative b v
unfolding sign_extended
sign_extended-sign b w v pos h lt =
    let up = pow_mono b w h in
    let mid = pow_mono (b - 1) (w - 1) (omega arith) in
    let hb = half b pos in
    let hw = half w (omega arith) in
    elim (Bool-cases (is_negative b v)) [
      | inl neg ↦ rw neg (ground (arith, hb, hw, mid))
      | inr plus ↦ rw plus (ground (arith, mid))
    ]

pub sign_extended_self : (b v : ℕ) → sign_extended b b v ≡ v
unfolding sign_extended
sign_extended_self b v = ground arith
