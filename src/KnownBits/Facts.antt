-- ===== src/KnownBits/Facts.antt =====
-- What the tests on the masks say of the number: its sign, a constant power of two or shift amount.
use foptim.Base.{
  ℕ, ◌+◌, ◌-◌, ◌^◌, ◌≤◌, ◌<◌, ◌≡◌, sym, ap, ◌∙◌, subst, Bool, true, false, not, ltb, ◌==◌, ◌&&◌,
  ◌||◌, Bool-cases, inl, inr, ==_iff, leb→le, ltb→lt, arith, some, dec_lt,
}
use foptim.Base.Digits.{bit_of, bit_of-above}
use foptim.Base.Powers.{pow_mono}
use foptim.Base.Signed.{is_negative}
use foptim.Words.{value}
use foptim.ApInt.{ApInt, val}
use foptim.ApInt.Cut.{IsValid}
use foptim.ApInt.Bitwise.{bit}
use foptim.ApInt.Signs.{bit-exact, top_bit}
use foptim.ApInt.Resize.{lowest_word}
use foptim.ApInt.ZeroCounts.{log2, is_pow2, fits_u64, active_bits}
use foptim.ApInt.Counts.{Spans-le, active_bits-Spans, is_pow2-exact}
use foptim.KnownBits.{KnownBits, is_constant}
use foptim.KnownBits.Masks.{Knows}
use foptim.KnownBits.Values.{is_constant-exact, least-bound}
use foptim.KnownBits.Instructions.{BitInfo, msb_info, known_log2, known_shift, min_shift}
use native.Mathlib.Nat.{mod-eq_of_lt}

not_one : (m : ℕ) → m ≡ 0 → (m == 1) ≡ false
not_one m e = ground arith

pub and_true : (p q : Bool) → (p && q) ≡ true → (p ≡ true) × (q ≡ true)
and_true p q h = ground arith

-- What the source's answer for the sign means.
abbrev pub SignIs : BitInfo → ℕ → ℕ → Type 0
SignIs BitInfo.unknown_bit w n = Unit {0}
SignIs BitInfo.zero_bit w n = is_negative w n ≡ false
SignIs BitInfo.one_bit w n = is_negative w n ≡ true

-- A number that fits a word is its lowest word.
val-fits : (x : ApInt) → IsValid x → fits_u64 x ≡ true → val x ≡ value x.words
val-fits x v h =
    let spans = active_bits-Spans x v in
    let small = pow_mono (active_bits x) 64 (leb→le _ _ h) in
    lowest_word x.words v.shape.all_words ∙ mod-eq_of_lt (omega (arith, spans.above, small))

module _ (b : KnownBits) (w n : ℕ) (lt : n < 2 ^ w) (h : Knows b w n) where
  -- The masks say nothing above the width.
  pub ones_all : (k : ℕ) → bit_of k (value b.known_one.words) ≤ bit_of k n
  ones_all k = elim (dec_lt k w) [
    | yes p ↦ h.ones k p
    | no p ↦ omega (
      arith,
      bit_of-above w k (value b.known_one.words)
          (subst (λ t. value b.known_one.words < 2 ^ t) h.one_width h.one_valid.cut)
          (omega (arith, p)),
    )
  ]

  pub zeros_all : (k : ℕ) → bit_of k (value b.known_zero.words) + bit_of k n ≤ 1
  zeros_all k = elim (dec_lt k w) [
    | yes p ↦ h.zeros k p
    | no p ↦ omega (
      arith,
      bit_of-above w k (value b.known_zero.words)
          (subst (λ t. value b.known_zero.words < 2 ^ t) h.zero_width h.zero_valid.cut)
          (omega (arith, p)),
    )
  ]

  pos : 1 ≤ w
  pos = subst (λ t. 1 ≤ t) h.one_width h.one_valid.shape.positive

  pub msb_info-SignIs : SignIs (msb_info b) w n
  unfolding msb_info
  msb_info-SignIs =
      let k = w - 1 in
      let one : bit b.known_one (b.known_one.bits - 1) ≡ (bit_of k (value b.known_one.words) == 1) =
        bit-exact b.known_one (b.known_one.bits - 1) h.one_valid
        ∙ ap (λ t. bit_of (t - 1) (value b.known_one.words) == 1) h.one_width in
      let zero : bit b.known_zero (b.known_one.bits - 1)
          ≡ (bit_of k (value b.known_zero.words) == 1) =
        bit-exact b.known_zero (b.known_one.bits - 1) h.zero_valid
        ∙ ap (λ t. bit_of (t - 1) (value b.known_zero.words) == 1) h.one_width in
      let top = top_bit w n pos lt in
      rw (one, zero)
        (elim (Bool-cases (bit_of k (value b.known_one.words) == 1)) [
          | inl p ↦ rw p (
              sym top
              ∙ (==_iff _ _).1 (omega (arith, h.ones k (omega (arith, pos)), (==_iff _ _).0 p)))
          | inr p ↦ rw p (elim (Bool-cases (bit_of k (value b.known_zero.words) == 1)) [
            | inl q ↦ rw q (
                sym top
                ∙ not_one _ (omega (arith, h.zeros k (omega (arith, pos)), (==_iff _ _).0 q)))
            | inr q ↦ rw q tt
          ])
        ])

  pub known_log2-exact : (k : ℕ) → known_log2 b ≡ some k → (n ≡ 2 ^ k) × (k < w)
  unfolding known_log2
  known_log2-exact k e = elim (Bool-cases (is_constant b && is_pow2 b.known_one)) [
    | inl t ↦
        let parts = and_true _ _ t in
        let same = is_constant-exact b w n lt h parts.0 in
        let p = is_pow2-exact b.known_one h.one_valid parts.1 in
        let index : log2 b.known_one ≡ k = ground (arith, e, t) in
        (sym same ∙ p.0 ∙ ap (λ i. 2 ^ i) index, omega (arith, p.1, index, h.one_width))
    | inr t ↦ absurd (ground (arith, e, t))
  ]

  pub known_shift-exact : (k : ℕ) → known_shift b w ≡ some k → (n ≡ k) × (k < w)
  unfolding known_shift
  known_shift-exact k e =
      elim (Bool-cases ((is_constant b && fits_u64 b.known_one) && ltb (val b.known_one) w)) [
        | inl t ↦
            let parts = and_true _ _ t in
            let first = and_true _ _ parts.0 in
            let same = is_constant-exact b w n lt h first.0 in
            let low = val-fits b.known_one h.one_valid first.1 in
            let index : val b.known_one ≡ k = ground (arith, e, t) in
            (omega (arith, same, low, index), omega (arith, ltb→lt _ _ parts.1, index))
        | inr t ↦ absurd (ground (arith, e, t))
      ]

  pub min_shift-bounds : (min_shift b w ≤ w) × (n < w → min_shift b w ≤ n)
  unfolding min_shift
  min_shift-bounds = elim (Bool-cases (not (fits_u64 b.known_one) || ltb w (val b.known_one))) [
    | inl t ↦ rw t (
      omega arith,
      λ small.
          let least = least-bound b w n lt h in
          let room : w + 63 < 2 ^ 32 =
            subst (λ t. t + 63 < 2 ^ 32) h.one_width h.one_valid.shape.fits in
          let spans =
            Spans-le 64 (active_bits-Spans b.known_one h.one_valid)
              (omega (arith, least, small, room)) in
          let fits : fits_u64 b.known_one ≡ true = ground (arith, spans) in
          let exact = val-fits b.known_one h.one_valid fits in
          absurd (ground (arith, t, fits, exact, least, small)),
    )
    | inr t ↦
        let fits : fits_u64 b.known_one ≡ true = ground (arith, t) in
        let inside : val b.known_one ≤ w = ground (arith, t) in
        rw t (
          inside,
          λ small. omega (arith, val-fits b.known_one h.one_valid fits, least-bound b w n lt h),
        )
  ]
