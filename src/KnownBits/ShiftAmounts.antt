-- ===== src/KnownBits/ShiftAmounts.antt =====
-- Shifts by an amount below the width, known or bounded from below.
use foptim.Base.{
  ℕ, ◌+◌, ◌-◌, ◌*◌, ◌/◌, ◌%◌, ◌^◌, ◌≤◌, ◌<◌, ◌≡◌, sym, ap, ◌∙◌, subst, true, false, ◌==◌, inl, inr,
  ==_iff, arith, min, max, dec_lt,
}
use foptim.Base.Options.{Option-cases}
use foptim.Base.Digits.{bit_of}
use foptim.Base.Powers.{pow-pos, pow_mono, pow-add}
use foptim.Base.Modulus.{mod-mod_pow}
use foptim.Base.Multiples.{smaller-IsMultiple, mod-IsMultiple}
use foptim.Base.Signed.{is_negative, sar}
use foptim.ApInt.{from_u64}
use foptim.ApInt.Signs.{top_bit}
use foptim.ApInt.Bitwise.{or}
use foptim.ApInt.SignedShift.{ashr}
use foptim.ApInt.Special.{high_bits}
use foptim.KnownBits.{KnownBits, unknown}
use foptim.KnownBits.Masks.{IsMask, Knows, Knows-IsMask, or-IsMask}
use foptim.KnownBits.Values.{unknown-Knows}
use foptim.KnownBits.Facts.{SignIs, msb_info-SignIs, known_shift-exact, min_shift-bounds}
use foptim.KnownBits.Fields.{high_bits-IsMask}
use foptim.KnownBits.Shifts.{
  none-IsMask, shifted_right-Knows, shifted_left-Knows, ashr-Knows, zeros_above-Knows,
  zeros_below-Knows, sar_top,
}
use foptim.KnownBits.Instructions.{
  BitInfo, msb_info, known_shift, min_shift, known_shr, known_shl, known_ashr, shifted_right,
  shifted_left,
}
use native.Mathlib.Nat.{div-lt_iff_lt-mul}

module _ (a b : KnownBits) (w m n : ℕ) (lm : m < 2 ^ w) (ln : n < 2 ^ w) (inside : n < w)
    (h : Knows a w m) (i : Knows b w n) where
  pos : 1 ≤ w
  pos = subst (λ t. 1 ≤ t) h.one_width h.one_valid.shape.positive

  fits : w + 63 < 2 ^ 32
  fits = subst (λ t. t + 63 < 2 ^ 32) h.one_width h.one_valid.shape.fits

  least : min_shift b w ≤ n
  least = (min_shift-bounds b w n ln i).1 inside

  pub known_shr-Knows : Knows (known_shr w a b) w (m / 2 ^ n)
  unfolding known_shr
  known_shr-Knows = elim (Option-cases (known_shift b w)) [
    | inr (k, e) ↦
        let p = known_shift-exact b w n ln i k e in
        rw (e, known_shr)
          (subst (λ t. Knows (shifted_right w a k) w (m / 2 ^ t)) (sym p.0)
            (shifted_right-Knows a w m lm h k))
    | inl e ↦
        rw (e, known_shr)
          (zeros_above-Knows w (min_shift b w) (m / 2 ^ n) pos fits (min_shift-bounds b w n ln i).0
            (quotient_below (min_shift b w) least))
  ]
    where
      quotient_below : (k : ℕ) → k ≤ n → m / 2 ^ n < 2 ^ (w - k)
      quotient_below k le =
          (div-lt_iff_lt-mul (pow-pos n)).1 (
            omega
              (arith, lm, pow-add (w - k) n, pow_mono w (w - k + n) (omega (arith, le, inside))))

  pub known_shl-Knows : Knows (known_shl w a b) w (m * 2 ^ n % 2 ^ w)
  unfolding known_shl
  known_shl-Knows = elim (Option-cases (known_shift b w)) [
    | inr (k, e) ↦
        let p = known_shift-exact b w n ln i k e in
        rw (e, known_shl)
          (subst (λ t. Knows (shifted_left w a k) w (m * 2 ^ t % 2 ^ w)) (sym p.0)
            (shifted_left-Knows a w m lm h k (omega (arith, p.1))))
    | inl e ↦
        rw (e, known_shl)
          (zeros_below-Knows w (min_shift b w) (m * 2 ^ n % 2 ^ w) pos fits
            (min_shift-bounds b w n ln i).0 (low_zeros (min_shift b w) least))
  ]
    where
      low_zeros : (k : ℕ) → k ≤ n → m * 2 ^ n % 2 ^ w % 2 ^ k ≡ 0
      low_zeros k le =
          mod-mod_pow w k (m * 2 ^ n) (omega (arith, le, inside))
          ∙ mod-IsMultiple k (m * 2 ^ n) (smaller-IsMultiple k n (m * 2 ^ n) le (m, omega arith))

  -- At the top of an arithmetic shift stands the sign.
  sign_above : (t : ℕ) → t < w → w - min_shift b w ≤ t → bit_of t (sar w m n) ≡ bit_of (w - 1) m
  sign_above t small above =
      let last : min (t + n) (w - 1) ≡ w - 1 =
        omega (arith, least, above, (min_shift-bounds b w n ln i).0) in
      sar_top w m n t pos lm small ∙ ap (λ k. bit_of k m) last

  sign_one : is_negative w m ≡ true → bit_of (w - 1) m ≡ 1
  sign_one s = (==_iff _ 1).0 (top_bit w m pos lm ∙ s)

  sign_zero : is_negative w m ≡ false → bit_of (w - 1) m ≡ 0
  sign_zero s = not_one (m / 2 ^ (w - 1)) (top_bit w m pos lm ∙ s)
    where
      not_one : (k : ℕ) → (k % 2 == 1) ≡ false → k % 2 ≡ 0
      not_one k e = ground (arith, e)

  above-IsMask :
      IsMask
        (or (from_u64 w 0) (high_bits w (min_shift b w)))
        w
        (λ k. max 0 (1 - (w - min_shift b w - k)))
  above-IsMask =
      or-IsMask _ _ w _ _ (none-IsMask w pos fits)
        (high_bits-IsMask w (min_shift b w) pos fits (min_shift-bounds b w n ln i).0)

  pub known_ashr-Knows : w + 126 < 2 ^ 32 → Knows (known_ashr w a b) w (sar w m n)
  unfolding known_ashr
  known_ashr-Knows room = elim (Option-cases (known_shift b w)) [
    | inr (k, e) ↦
        let p = known_shift-exact b w n ln i k e in
        rw (e, known_ashr)
          (subst
            (λ t.
              Knows (record { known_zero = ashr a.known_zero k; known_one = ashr a.known_one k }) w
                (sar w m t))
            (sym p.0) (ashr-Knows a w m lm h k room))
    | inl e ↦
        rw (e, known_ashr)
          (elim (msb_info a)
              as (λ s.
                SignIs s w m
                → Knows
                    (elim s [
                      | BitInfo.one_bit ↦ record {
                        known_zero = from_u64 w 0;
                        known_one = or (from_u64 w 0) (high_bits w (min_shift b w));
                      }
                      | BitInfo.zero_bit ↦ record {
                        known_zero = or (from_u64 w 0) (high_bits w (min_shift b w));
                        known_one = from_u64 w 0;
                      }
                      | BitInfo.unknown_bit ↦ unknown w
                    ])
                    w (sar w m n)) [
                      | BitInfo.unknown_bit ↦ λ s. unknown-Knows w (sar w m n) pos fits
                      | BitInfo.one_bit ↦ λ s.
                          Knows-IsMask _ w (sar w m n) _ _ (none-IsMask w pos fits) above-IsMask
                            (λ t small. omega arith)
                            (λ t small. elim (dec_lt t (w - min_shift b w)) [
                              | yes p ↦ omega (arith, p)
                              | no p ↦
                                  omega (arith, sign_above t small (omega (arith, p)), sign_one s)
                            ])
                      | BitInfo.zero_bit ↦ λ s.
                          Knows-IsMask _ w (sar w m n) _ _ above-IsMask (none-IsMask w pos fits)
                            (λ t small. elim (dec_lt t (w - min_shift b w)) [
                              | yes p ↦ omega (arith, p)
                              | no p ↦
                                  omega (arith, sign_above t small (omega (arith, p)), sign_zero s)
                            ])
                            (λ t small. omega arith)
                    ]
            (msb_info-SignIs a w m lm h))
  ]
