-- ===== src/KnownBits/Divisions.antt =====
-- Quotients by a known power of two, and signed remainders.
use foptim.Base.{
  ◌≢◌, ℕ, ◌+◌, ◌-◌, ◌*◌, ◌/◌, ◌%◌, ◌^◌, ◌≤◌, ◌<◌, ◌≡◌, refl, sym, ap, ap₂, ◌∙◌, subst, true, false,
  not, ◌&&◌, leb, if◌then◌else◌, Bool-cases, inl, inr, leb→le, arith, min,
}
use foptim.Base.Options.{Option-cases}
use foptim.Base.Powers.{pow-pos, pow_mono, pow-le_inv}
use foptim.Base.Modulus.{mod_unique}
use foptim.Base.Signed.{is_negative, half}
use foptim.Words.{value}
use foptim.ApInt.{from_u64, sub}
use foptim.ApInt.Make.{from_u64-Is}
use foptim.ApInt.Ring.{sub-Is}
use foptim.ApInt.Bitwise.{is_zero}
use foptim.ApInt.Divide.{signed_div, signed_rem, magnitude, with_sign}
use foptim.ApInt.ZeroCounts.{active_bits}
use foptim.ApInt.Counts.{Spans, Spans-le, active_bits-Spans}
use foptim.KnownBits.{KnownBits, unknown, is_constant}
use foptim.KnownBits.Masks.{Knows}
use foptim.KnownBits.Values.{is_constant-exact, unknown-Knows}
use foptim.KnownBits.Facts.{SignIs, msb_info-SignIs, known_log2-exact, and_true}
use foptim.KnownBits.Shifts.{shifted_right-Knows, zeros_above-Knows}
use foptim.KnownBits.Instructions.{
  BitInfo, msb_info, known_log2, known_udiv, known_sdiv, known_srem, shifted_right, zeros_above,
}
use native.Mathlib.Nat.{mod-eq_of_lt, div-eq_of_lt, mod-lt}

-- A number that is not negative, divided by a power of two, which may be the minimum.
signed_div-pow :
    (w m k : ℕ)
    → 1 ≤ w
    → m < 2 ^ w
    → is_negative w m ≡ false
    → k < w
    → signed_div w m (2 ^ k) ≡ m / 2 ^ k
unfolding signed_div magnitude with_sign
signed_div-pow w m k pos lt plus small = elim (Bool-cases (is_negative w (2 ^ k))) [
  | inr q ↦ rw (plus, q) refl
  | inl q ↦
      let le = pow-le_inv (w - 1) k (leb→le _ _ q) in
      let index : k ≡ w - 1 = omega (arith, le, small) in
      let p : 2 ^ k ≡ 2 ^ (w - 1) = ap (λ i. 2 ^ i) index in
      let back : 2 ^ w - 2 ^ k ≡ 2 ^ k = omega (arith, half w pos, p) in
      let none : m / 2 ^ k ≡ 0 = div-eq_of_lt (below m (2 ^ k) (2 ^ (w - 1)) p plus) in
      rw (plus, q, back, none) (full (2 ^ w) (pow-pos w))
]
  where
    below : (m p q : ℕ) → p ≡ q → leb q m ≡ false → m < p
    below m p q e h = ground arith

    full : (p : ℕ) → 0 < p → (p - 0) % p ≡ 0
    full p h = ap (λ n. n % p) (omega arith) ∙ mod_unique p 0 1 h

module _ (old a b : KnownBits) (w m n : ℕ) (lm : m < 2 ^ w) (ln : n < 2 ^ w) (h : Knows a w m)
    (i : Knows b w n) where
  pos : 1 ≤ w
  pos = subst (λ t. 1 ≤ t) h.one_width h.one_valid.shape.positive

  fits : w + 63 < 2 ^ 32
  fits = subst (λ t. t + 63 < 2 ^ 32) h.one_width h.one_valid.shape.fits

  pub known_udiv-Knows : Knows old w (m / n) → Knows (known_udiv w old a b) w (m / n)
  unfolding known_udiv
  known_udiv-Knows before = elim (Option-cases (known_log2 b)) [
    | inl e ↦ rw (e, known_udiv) before
    | inr (k, e) ↦
        let p = known_log2-exact b w n ln i k e in
        rw (e, known_udiv)
          (subst (λ t. Knows (shifted_right w a k) w (m / t)) (sym p.0)
            (shifted_right-Knows a w m lm h k))
  ]

  pub known_sdiv-Knows :
      Knows old w (signed_div w m n) → Knows (known_sdiv w old a b) w (signed_div w m n)
  unfolding known_sdiv
  known_sdiv-Knows before = elim (Option-cases (known_log2 b)) [
    | inl e ↦ rw (e, known_sdiv) before
    | inr (k, e) ↦
        let p = known_log2-exact b w n ln i k e in
        rw (e, known_sdiv)
          (elim (msb_info a)
              as (λ s.
                SignIs s w m
                → Knows (elim s [ BitInfo.zero_bit ↦ shifted_right w a k | _ ↦ old ]) w
                    (signed_div w m n)) [
                      | BitInfo.unknown_bit ↦ λ s. before
                      | BitInfo.one_bit ↦ λ s. before
                      | BitInfo.zero_bit ↦ λ s.
                          subst (Knows (shifted_right w a k) w)
                            (sym (ap (signed_div w m) p.0 ∙ signed_div-pow w m k pos lm s p.1))
                            (shifted_right-Knows a w m lm h k)
                    ]
            (msb_info-SignIs a w m lm h))
  ]

  remainder_below : (s : ℕ) → Spans s (n - 1) → s ≤ w → n ≢ 0 → m % n < 2 ^ (w - (w - min s w))
  remainder_below s spans le some_left =
      let width : w - (w - min s w) ≡ s = omega (arith, le) in
      subst (λ t. m % n < 2 ^ t) (sym width)
        (omega (arith, mod-lt m (positive some_left), spans.above))
    where
      positive : n ≢ 0 → 0 < n
      positive e = ground (arith, e)

  -- A remainder by a known divisor has no more bits than the divisor less one.
  constant_divisor :
      is_constant b ≡ true
      → n ≢ 0
      → Knows (zeros_above w (w - min (active_bits (sub b.known_one (from_u64 w 1))) w)) w (m % n)
  constant_divisor c some_left =
      let same = is_constant-exact b w n ln i c in
      let one = from_u64-Is w 1 pos fits (omega arith) in
      let unit : 1 % 2 ^ w ≡ 1 = mod-eq_of_lt (omega (arith, pow_mono 1 w pos)) in
      let d =
        sub-Is b.known_one (from_u64 w 1) i.one_valid one.valid (i.one_width ∙ sym one.width) in
      let number : value (sub b.known_one (from_u64 w 1)).words ≡ n - 1 =
        d.number
        ∙ ap (λ t. (value b.known_one.words + 2 ^ t - value (from_u64 w 1).words) % 2 ^ t)
            i.one_width
        ∙ ap₂ (λ s t. (s + 2 ^ w - t) % 2 ^ w) same (one.number ∙ unit)
        ∙ ap (λ t. t % 2 ^ w) (move n (2 ^ w) some_left)
        ∙ mod_unique (2 ^ w) (n - 1) 1 (omega (arith, ln)) in
      let spans =
        subst (Spans (active_bits (sub b.known_one (from_u64 w 1)))) number
          (active_bits-Spans (sub b.known_one (from_u64 w 1)) d.valid) in
      let le = Spans-le w spans (omega (arith, ln)) in
      zeros_above-Knows w (w - min (active_bits (sub b.known_one (from_u64 w 1))) w) (m % n) pos
        fits (omega arith) (remainder_below _ spans le some_left)
    where
      move : (n p : ℕ) → n ≢ 0 → n + p - 1 ≡ n - 1 + p * 1
      move n p e = ground (arith, e)

  pub known_srem-Knows : n ≢ 0 → Knows (known_srem w a b) w (signed_rem w m n)
  unfolding known_srem signed_rem magnitude with_sign
  known_srem-Knows some_left =
      let anything = λ (r : ℕ). unknown-Knows w r pos fits in
      elim (msb_info b)
          as (λ s.
            SignIs s w n
            → Knows
                (elim s [
                  | BitInfo.zero_bit ↦ elim (msb_info a) [
                    | BitInfo.zero_bit ↦
                        if is_constant b && not (is_zero b.known_one)
                        then zeros_above w
                            (w - min (active_bits (sub b.known_one (from_u64 w 1))) w)
                        else unknown w
                    | _ ↦ unknown w
                  ]
                  | _ ↦ unknown w
                ])
                w (signed_rem w m n)) [
                  | BitInfo.unknown_bit ↦ λ s. anything _
                  | BitInfo.one_bit ↦ λ s. anything _
                  | BitInfo.zero_bit ↦ λ s.
                      elim (msb_info a)
                          as (λ t.
                            SignIs t w m
                            → Knows
                                (elim t [
                                  | BitInfo.zero_bit ↦
                                      if is_constant b && not (is_zero b.known_one)
                                      then zeros_above w
                                          (w - min (active_bits (sub b.known_one (from_u64 w 1))) w)
                                      else unknown w
                                  | _ ↦ unknown w
                                ])
                                w (signed_rem w m n)) [
                                  | BitInfo.unknown_bit ↦ λ t. anything _
                                  | BitInfo.one_bit ↦ λ t. anything _
                                  | BitInfo.zero_bit ↦ λ t.
                                      rw (s, t)
                                        (elim (Bool-cases
                                          (is_constant b && not (is_zero b.known_one))) [
                                            | inl q ↦
                                                rw q (constant_divisor (and_true _ _ q).0 some_left)
                                            | inr q ↦ rw q (anything _)
                                          ])
                                ]
                        (msb_info-SignIs a w m lm h)
                ]
        (msb_info-SignIs b w n ln i)
