-- ===== src/KnownBits/Shifts.antt =====
-- Shifted masks, and masks that know only zeros at one end.
use foptim.Base.{
  refl, ℕ, ◌+◌, ◌-◌, ◌*◌, ◌/◌, ◌%◌, ◌^◌, ◌≤◌, ◌<◌, ◌≡◌, sym, ap, ◌∙◌, subst, false, ltb, lt→ltb,
  if◌then◌else◌, ◌==◌, arith, dec_lt, min,
}
use foptim.Base.Digits.{bit_of, bit_of-zero, bit_of-div, bit_of-above, bit_of-mod}
use foptim.Base.Powers.{pow-pos}
use foptim.Base.Signed.{is_negative, sar, sar-bit}
use foptim.Words.{value}
use foptim.ApInt.{ApInt, from_u64}
use foptim.ApInt.Make.{from_u64-Is}
use foptim.ApInt.Signs.{top_bit}
use foptim.ApInt.Shift.{shl, lshr, shl-Is, lshr-Is}
use foptim.ApInt.SignedShift.{ashr, ashr-Is}
use foptim.KnownBits.{KnownBits}
use foptim.KnownBits.Masks.{IsMask, Knows, Knows-IsMask, zero-IsMask, one-IsMask, or-IsMask}
use foptim.KnownBits.Fields.{high_bits-IsMask, low_bits-IsMask, bit_of-shifted}
use foptim.KnownBits.Facts.{ones_all, zeros_all}
use foptim.KnownBits.Instructions.{shifted_right, shifted_left, zeros_above, zeros_below}
use native.Mathlib.Nat.{mod-eq_of_lt}

pub none-IsMask : (w : ℕ) → 1 ≤ w → w + 63 < 2 ^ 32 → IsMask (from_u64 w 0) w (λ k. 0)
none-IsMask w pos fits =
    let z = from_u64-Is w 0 pos fits (omega arith) in
    record {
      width = z.width;
      valid = z.valid;
      bits = λ k lt. ap (bit_of k) (z.number ∙ mod-eq_of_lt (pow-pos w)) ∙ bit_of-zero k;
    }

pub lshr-IsMask :
    (x : ApInt) (w amt : ℕ) (f : ℕ → ℕ)
    → IsMask x w f
    → IsMask (lshr x amt) w (λ k. bit_of (amt + k) (value x.words))
lshr-IsMask x w amt f h =
    let r = lshr-Is x h.valid amt in
    record {
      width = r.width ∙ h.width;
      valid = r.valid;
      bits = λ k lt. ap (bit_of k) r.number ∙ bit_of-div amt k (value x.words);
    }

pub shl-IsMask :
    (x : ApInt) (w amt : ℕ) (f : ℕ → ℕ)
    → IsMask x w f
    → IsMask (shl x amt) w (λ k. if ltb k amt then 0 else bit_of (k - amt) (value x.words))
shl-IsMask x w amt f h =
    let r = shl-Is x h.valid amt in
    record {
      width = r.width ∙ h.width;
      valid = r.valid;
      bits = λ k lt.
          ap (bit_of k) (r.number ∙ ap (λ b. value x.words * 2 ^ amt % 2 ^ b) h.width)
          ∙ bit_of-shifted w amt k (value x.words) lt;
    }

sign_bit :
    (w v : ℕ)
    → (bit_of (w - 1) v == 1) ≡ is_negative w v
    → (if is_negative w v then 1 else 0) ≡ bit_of (w - 1) v
sign_bit w v e = rw (← e) (parity (v / 2 ^ (w - 1)))
  where
    parity : (n : ℕ) → (if n % 2 == 1 then 1 else 0) ≡ n % 2
    parity n = ground arith

-- The bit that comes in at the top is the sign, the highest bit.
pub sar_top :
    (w v amt t : ℕ)
    → 1 ≤ w
    → v < 2 ^ w
    → t < w
    → bit_of t (sar w v amt) ≡ bit_of (min (t + amt) (w - 1)) v
sar_top w v amt t pos lt small = elim (dec_lt (t + amt) w) [
  | yes p ↦
      let index : min (t + amt) (w - 1) ≡ t + amt = omega (arith, p) in
      rw index (sar-bit w v amt t pos lt small ∙ inside p)
  | no p ↦
      let index : min (t + amt) (w - 1) ≡ w - 1 = omega (arith, p) in
      rw index (sar-bit w v amt t pos lt small ∙ outside p)
]
  where
    inside :
        t + amt < w
        → (if ltb (t + amt) w then bit_of (t + amt) v else (if is_negative w v then 1 else 0))
          ≡ bit_of (t + amt) v
    inside p = rw (lt→ltb _ _ p) refl

    outside :
        ¬ (t + amt < w)
        → (if ltb (t + amt) w then bit_of (t + amt) v else (if is_negative w v then 1 else 0))
          ≡ bit_of (w - 1) v
    outside p =
        let far : ltb (t + amt) w ≡ false = ground (arith, p) in
        rw far (sign_bit w v (top_bit w v pos lt))

pub ashr-IsMask :
    (x : ApInt) (w amt : ℕ) (f : ℕ → ℕ)
    → w + 126 < 2 ^ 32
    → IsMask x w f
    → IsMask (ashr x amt) w (λ k. bit_of (min (k + amt) (w - 1)) (value x.words))
ashr-IsMask x w amt f room h =
    let r = ashr-Is x h.valid (subst (λ b. b + 126 < 2 ^ 32) (sym h.width) room) amt in
    let pos = subst (λ b. 1 ≤ b) h.width h.valid.shape.positive in
    let cut = subst (λ b. value x.words < 2 ^ b) h.width h.valid.cut in
    record {
      width = r.width ∙ h.width;
      valid = r.valid;
      bits = λ k lt.
          ap (bit_of k) (r.number ∙ ap (λ b. sar b (value x.words) amt) h.width)
          ∙ sar_top w (value x.words) amt k pos cut lt;
    }

module _ (a : KnownBits) (w m : ℕ) (lt : m < 2 ^ w) (h : Knows a w m) where
  pos : 1 ≤ w
  pos = subst (λ t. 1 ≤ t) h.one_width h.one_valid.shape.positive

  fits : w + 63 < 2 ^ 32
  fits = subst (λ t. t + 63 < 2 ^ 32) h.one_width h.one_valid.shape.fits

  pub shifted_right-Knows : (amt : ℕ) → Knows (shifted_right w a amt) w (m / 2 ^ amt)
  unfolding shifted_right
  shifted_right-Knows amt =
      Knows-IsMask (shifted_right w a amt) w (m / 2 ^ amt) _ _
        (or-IsMask _ _ w _ _ (lshr-IsMask _ w amt _ (zero-IsMask a w m h))
          (high_bits-IsMask w (min amt w) pos fits (omega arith)))
        (lshr-IsMask _ w amt _ (one-IsMask a w m h))
        (λ k small. elim (dec_lt (amt + k) w) [
          | yes p ↦ omega (arith, bit_of-div amt k m, zeros_all a w m lt h (amt + k), p)
          | no p ↦ omega (
            arith,
            bit_of-div amt k m,
            bit_of-above w (amt + k) m lt (omega (arith, p)),
            zeros_all a w m lt h (amt + k),
          )
        ])
        (λ k small. omega (arith, bit_of-div amt k m, ones_all a w m lt h (amt + k)))

  pub shifted_left-Knows :
      (amt : ℕ) → amt ≤ w → Knows (shifted_left w a amt) w (m * 2 ^ amt % 2 ^ w)
  unfolding shifted_left
  shifted_left-Knows amt le =
      Knows-IsMask (shifted_left w a amt) w (m * 2 ^ amt % 2 ^ w) _ _
        (or-IsMask _ _ w _ _ (shl-IsMask _ w amt _ (zero-IsMask a w m h))
          (low_bits-IsMask w amt pos fits le))
        (shl-IsMask _ w amt _ (one-IsMask a w m h))
        (λ k small. ground (arith, bit_of-shifted w amt k m small, zeros_all a w m lt h (k - amt)))
        (λ k small. ground (arith, bit_of-shifted w amt k m small, ones_all a w m lt h (k - amt)))

  pub ashr-Knows :
      (amt : ℕ)
      → w + 126 < 2 ^ 32
      → Knows
          (record { known_zero = ashr a.known_zero amt; known_one = ashr a.known_one amt })
          w
          (sar w m amt)
  ashr-Knows amt room =
      let top = λ (k : ℕ) (small : k < w). sar_top w m amt k pos lt small in
      Knows-IsMask _ w (sar w m amt) _ _ (ashr-IsMask _ w amt _ room (zero-IsMask a w m h))
        (ashr-IsMask _ w amt _ room (one-IsMask a w m h))
        (λ k small.
          omega (arith, top k small, h.zeros (min (k + amt) (w - 1)) (omega (arith, pos))))
        (λ k small. omega (arith, top k small, h.ones (min (k + amt) (w - 1)) (omega (arith, pos))))

module _ (w n r : ℕ) (pos : 1 ≤ w) (fits : w + 63 < 2 ^ 32) (le : n ≤ w) where
  pub zeros_above-Knows : r < 2 ^ (w - n) → Knows (zeros_above w n) w r
  unfolding zeros_above
  zeros_above-Knows small =
      Knows-IsMask (zeros_above w n) w r _ _ (high_bits-IsMask w n pos fits le)
        (none-IsMask w pos fits)
        (λ k lt. elim (dec_lt k (w - n)) [
          | yes p ↦ omega (arith, p)
          | no p ↦ omega (arith, bit_of-above (w - n) k r small (omega (arith, p)))
        ])
        (λ k lt. omega arith)

  pub zeros_below-Knows : r % 2 ^ n ≡ 0 → Knows (zeros_below w n) w r
  unfolding zeros_below
  zeros_below-Knows none =
      Knows-IsMask (zeros_below w n) w r _ _ (low_bits-IsMask w n pos fits le)
        (none-IsMask w pos fits)
        (λ k lt. elim (dec_lt k n) [
          | yes p ↦ omega (arith, sym (bit_of-mod n k r p) ∙ ap (bit_of k) none ∙ bit_of-zero k)
          | no p ↦ omega (arith, p)
        ])
        (λ k lt. omega arith)
