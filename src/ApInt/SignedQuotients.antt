-- ===== src/ApInt/SignedQuotients.antt =====
-- Signed division up to 128 bits: the quotient of the integers, rounded towards zero, and the
-- remainder with the sign of the dividend, both wrapped to the width.
use foptim.Base.{
  ℕ, ◌-◌, ◌/◌, ◌%◌, ◌^◌, ◌≤◌, ◌<◌, ◌≡◌, refl, sym, ap, ◌∙◌, Bool, true, false, arith, leb, ◌==◌,
  if◌then◌else◌, Bool-cases, inl, inr, ==_iff,
}
use foptim.Base.Powers.{pow-pos, pow_mono}
use foptim.Base.Modulus.{sub-mod_pow}
use foptim.Base.Signed.{is_negative, sign_extended, sign_extended-sign, sign_extended-lt, half}
use foptim.Words.{value}
use foptim.ApInt.{ApInt}
use foptim.ApInt.Cut.{IsValid, Is}
use foptim.ApInt.Bitwise.{is_zero}
use foptim.ApInt.Extend.{sext64, sext64-value}
use foptim.ApInt.FromSigned.{to_i128, to_i128-value}
use foptim.ApInt.SignedOrder.{differs, y-lt}
use foptim.ApInt.Divide.{
  magnitude, with_sign, signed_div, signed_rem, sdiv_wide, srem_wide, sdiv, srem,
}
use foptim.ApInt.Quotients.{word-Is, double-Is, two_paths}
use native.Mathlib.Nat.{mod-eq_of_lt, mod-lt, div-le_self, mod-le, div-one, mod-one, mod_self}

extended_down :
    (b w v : ℕ)
    → v < 2 ^ b
    → 2 ^ b ≤ 2 ^ w
    → is_negative b v ≡ true
    → 2 ^ w - sign_extended b w v ≡ 2 ^ b - v
unfolding sign_extended
extended_down b w v lt up e = rw e (omega arith)

extended_same : (b w v : ℕ) → is_negative b v ≡ false → sign_extended b w v ≡ v
unfolding sign_extended
extended_same b w v e = rw e refl

magnitude-sign_extended :
    (b w v : ℕ) → 1 ≤ b → b ≤ w → v < 2 ^ b → magnitude w (sign_extended b w v) ≡ magnitude b v
unfolding magnitude
magnitude-sign_extended b w v pos h lt =
    rw (sign_extended-sign b w v pos h lt) (signed (is_negative b v) refl)
  where
    signed :
        (m : Bool)
        → is_negative b v ≡ m
        → (if m then 2 ^ w - sign_extended b w v else sign_extended b w v)
          ≡ (if m then 2 ^ b - v else v)
    signed true e = extended_down b w v lt (pow_mono b w h) e
    signed false e = extended_same b w v e

with_sign-cut :
    (w b q : ℕ) (m : Bool) → b ≤ w → q < 2 ^ b → with_sign w m q % 2 ^ b ≡ with_sign b m q
unfolding with_sign
with_sign-cut w b q true h lt =
    ap (λ n. (n - q) % 2 ^ w % 2 ^ b) (omega arith)
    ∙ sub-mod_pow w b 0 q h lt
    ∙ ap (λ n. (n - q) % 2 ^ b) (omega arith)
with_sign-cut w b q false h lt = mod-eq_of_lt lt

with_sign-lt : (w q : ℕ) (m : Bool) → q < 2 ^ w → with_sign w m q < 2 ^ w
unfolding with_sign
with_sign-lt w q true lt = mod-lt (2 ^ w - q) (pow-pos w)
with_sign-lt w q false lt = lt

magnitude-lt : (b v : ℕ) → 1 ≤ b → v < 2 ^ b → magnitude b v < 2 ^ b
unfolding magnitude
magnitude-lt b v pos lt = ground (arith, half b pos, pow-pos (b - 1))

-- A division in a wider type, cut to the width.
signed_div-cut :
    (b w a c : ℕ)
    → 1 ≤ b
    → b ≤ w
    → a < 2 ^ b
    → c < 2 ^ b
    → signed_div w (sign_extended b w a) (sign_extended b w c) % 2 ^ b ≡ signed_div b a c
unfolding signed_div
signed_div-cut b w a c pos h la lc =
    rw
      (
        sign_extended-sign b w a pos h la,
        sign_extended-sign b w c pos h lc,
        magnitude-sign_extended b w a pos h la,
        magnitude-sign_extended b w c pos h lc,
      )
      (with_sign-cut w b (magnitude b a / magnitude b c)
        (differs (is_negative b a) (is_negative b c)) h
        (omega (arith, div-le_self (magnitude b a) (magnitude b c), magnitude-lt b a pos la)))

signed_rem-cut :
    (b w a c : ℕ)
    → 1 ≤ b
    → b ≤ w
    → a < 2 ^ b
    → c < 2 ^ b
    → signed_rem w (sign_extended b w a) (sign_extended b w c) % 2 ^ b ≡ signed_rem b a c
unfolding signed_rem
signed_rem-cut b w a c pos h la lc =
    rw
      (
        sign_extended-sign b w a pos h la,
        magnitude-sign_extended b w a pos h la,
        magnitude-sign_extended b w c pos h lc,
      )
      (with_sign-cut w b (magnitude b a % magnitude b c) (is_negative b a) h
        (omega (arith, mod-le (magnitude b a) (magnitude b c), magnitude-lt b a pos la)))

signed_div-lt : (w a c : ℕ) → 1 ≤ w → a < 2 ^ w → signed_div w a c < 2 ^ w
unfolding signed_div
signed_div-lt w a c pos la =
    with_sign-lt w (magnitude w a / magnitude w c) (differs (is_negative w a) (is_negative w c))
      (omega (arith, div-le_self (magnitude w a) (magnitude w c), magnitude-lt w a pos la))

signed_rem-lt : (w a c : ℕ) → 1 ≤ w → a < 2 ^ w → signed_rem w a c < 2 ^ w
unfolding signed_rem
signed_rem-lt w a c pos la =
    with_sign-lt w (magnitude w a % magnitude w c) (is_negative w a)
      (omega (arith, mod-le (magnitude w a) (magnitude w c), magnitude-lt w a pos la))

-- The divisor -1, which the code tests for, since the quotient of the minimum has no pattern.
minus_one : (w : ℕ) → 1 ≤ w → (is_negative w (2 ^ w - 1) ≡ true) × (magnitude w (2 ^ w - 1) ≡ 1)
unfolding magnitude
minus_one w pos =
    let neg : is_negative w (2 ^ w - 1) ≡ true = ground (arith, half w pos, pow-pos (w - 1)) in
    (neg, rw neg (omega (arith, pow-pos w)))

signed_div-minus_one :
    (w a : ℕ) → 1 ≤ w → a < 2 ^ w → signed_div w a (2 ^ w - 1) ≡ (2 ^ w - a) % 2 ^ w
unfolding signed_div
signed_div-minus_one w a pos lt =
    rw ((minus_one w pos).0, (minus_one w pos).1, div-one (magnitude w a))
      (unfold magnitude with_sign in
        elim (Bool-cases (is_negative w a)) [
          | inl neg ↦
              let some_number : 0 < a = ground (arith, pow-pos (w - 1)) in
              rw neg (sym (mod-eq_of_lt (omega arith)))
          | inr plus ↦ rw plus refl
        ])

signed_rem-minus_one : (w a : ℕ) → 1 ≤ w → 0 ≡ signed_rem w a (2 ^ w - 1)
unfolding signed_rem
signed_rem-minus_one w a pos =
    rw ((minus_one w pos).1, mod-one (magnitude w a))
      (unfold with_sign in
        elim (Bool-cases (is_negative w a)) [
          | inl neg ↦
              let whole : 2 ^ w - 0 ≡ 2 ^ w = omega arith in
              rw neg (sym (ap (λ n. n % 2 ^ w) whole ∙ mod_self (2 ^ w)))
          | inr plus ↦ rw plus refl
        ])

-- What the code computes on patterns of `w` bits is the division in both cases.
guarded_div :
    (w a c : ℕ)
    → 1 ≤ w
    → a < 2 ^ w
    → (if c == 2 ^ w - 1 then (2 ^ w - a) % 2 ^ w else signed_div w a c) ≡ signed_div w a c
guarded_div w a c pos lt = elim (Bool-cases (c == 2 ^ w - 1)) [
  | inl e ↦
      let same = (==_iff c (2 ^ w - 1)).0 e in
      rw e (sym (ap (signed_div w a) same ∙ signed_div-minus_one w a pos lt))
  | inr e ↦ rw e refl
]

guarded_rem :
    (w a c : ℕ) → 1 ≤ w → (if c == 2 ^ w - 1 then 0 else signed_rem w a c) ≡ signed_rem w a c
guarded_rem w a c pos = elim (Bool-cases (c == 2 ^ w - 1)) [
  | inl e ↦
      let same = (==_iff c (2 ^ w - 1)).0 e in
      rw e (signed_rem-minus_one w a pos ∙ ap (signed_rem w a) (sym same))
  | inr e ↦ rw e refl
]

module _ (x y : ApInt) (v : IsValid x) (w : IsValid y) (same : x.bits ≡ y.bits) where
  abbrev vx : ℕ
  vx = value x.words

  abbrev vy : ℕ
  vy = value y.words

  words64 :
      x.bits ≤ 64
      → (sext64 x ≡ sign_extended x.bits 64 vx) × (sext64 y ≡ sign_extended x.bits 64 vy)
  words64 h = (
    sext64-value x v h,
    sext64-value y w (omega (arith, same)) ∙ ap (λ b. sign_extended b 64 vy) (sym same),
  )

  words128 :
      x.bits ≤ 128
      → (to_i128 x ≡ sign_extended x.bits 128 vx) × (to_i128 y ≡ sign_extended x.bits 128 vy)
  words128 h = (
    to_i128-value x v h,
    to_i128-value y w (omega (arith, same)) ∙ ap (λ b. sign_extended b 128 vy) (sym same),
  )

  -- With both operands well formed (as many words as the width needs, every word below 2^64, unused
  -- high bits zero) and of the same width of at most 128 bits, and a divisor that is not zero
  -- (is_zero, which the source asserts), sdiv returns a well formed integer of the width that is the
  -- quotient of the two's complement integers rounded towards zero, wrapped to the width for the
  -- minimum by -1; this covers the guard for the divisor -1.
  pub sdiv-Is : x.bits ≤ 128 → is_zero y ≡ false → Is (sdiv x y) x.bits (signed_div x.bits vx vy)
  unfolding sdiv sdiv_wide
  sdiv-Is h some_left =
      two_paths x y v w same _ _ (signed_div x.bits vx vy) h
        (λ n.
          let a = sign_extended x.bits 64 vx in
          let c = sign_extended x.bits 64 vy in
          let lt = sign_extended-lt x.bits 64 vx n v.cut in
          rw ((words64 n).0, (words64 n).1, guarded_div 64 a c (omega arith) lt)
            (word-Is x v (signed_div 64 a c) _ (signed_div-lt 64 a c (omega arith) lt)
              (signed_div-cut x.bits 64 vx vy v.shape.positive n v.cut (y-lt x y v w same))))
        (λ above.
          let a = sign_extended x.bits 128 vx in
          let c = sign_extended x.bits 128 vy in
          let lt = sign_extended-lt x.bits 128 vx h v.cut in
          let middle : leb x.bits 128 ≡ true = ground arith in
          rw ((words128 h).0, (words128 h).1, middle, guarded_div 128 a c (omega arith) lt)
            (double-Is x v (signed_div 128 a c) _ (signed_div-lt 128 a c (omega arith) lt)
              (signed_div-cut x.bits 128 vx vy v.shape.positive h v.cut (y-lt x y v w same))))

  pub srem-Is : x.bits ≤ 128 → is_zero y ≡ false → Is (srem x y) x.bits (signed_rem x.bits vx vy)
  unfolding srem srem_wide
  srem-Is h some_left =
      two_paths x y v w same _ _ (signed_rem x.bits vx vy) h
        (λ n.
          let a = sign_extended x.bits 64 vx in
          let c = sign_extended x.bits 64 vy in
          let lt = sign_extended-lt x.bits 64 vx n v.cut in
          rw ((words64 n).0, (words64 n).1, guarded_rem 64 a c (omega arith))
            (word-Is x v (signed_rem 64 a c) _ (signed_rem-lt 64 a c (omega arith) lt)
              (signed_rem-cut x.bits 64 vx vy v.shape.positive n v.cut (y-lt x y v w same))))
        (λ above.
          let a = sign_extended x.bits 128 vx in
          let c = sign_extended x.bits 128 vy in
          let lt = sign_extended-lt x.bits 128 vx h v.cut in
          let middle : leb x.bits 128 ≡ true = ground arith in
          rw ((words128 h).0, (words128 h).1, middle, guarded_rem 128 a c (omega arith))
            (double-Is x v (signed_rem 128 a c) _ (signed_rem-lt 128 a c (omega arith) lt)
              (signed_rem-cut x.bits 128 vx vy v.shape.positive h v.cut (y-lt x y v w same))))
