-- ===== src/ApInt/SignedShift.antt =====
-- src/utils/APInt.hpp, src/utils/APInt.cpp: `ashr` and `ashr_wide`.
use foptim.Base.{
  ℕ, ◌+◌, ◌-◌, ◌*◌, ◌%◌, ◌^◌, ◌≤◌, ◌<◌, ◌≡◌, refl, sym, ap, ◌∙◌, subst, List, arith, false, leb,
  ltb, if◌then◌else◌, Bool-cases, inl, inr, leb→le, min, dec_lt, in_else,
}
use foptim.Base.Digits.{bit_of, bit_of-zero, bit_of-complement}
use foptim.Base.Signed.{
  is_negative, sar, sign_extended, sar-cut, sar-far, sar-lt, sar-bit, sign_extended-lt,
  sign_extended-sign,
}
use foptim.Words.{value}
use foptim.Words.Value.{AreWords}
use foptim.Words.Shifts.{shr_n}
use foptim.Words.RightShifts.{IsFill, shr_n-value, shr_n-AreWords, length-shr_n}
use foptim.ApInt.{ApInt, is_single, num_words, from_u64, clear_unused, zext}
use foptim.ApInt.Cut.{IsValid, Is, clear_unused-Is, words_for-div}
use foptim.ApInt.Make.{from_u64-Is}
use foptim.ApInt.Views.{width-le}
use foptim.ApInt.Resize.{zext-Is}
use foptim.ApInt.Bitwise.{is_neg}
use foptim.ApInt.Signs.{is_neg-exact}
use foptim.ApInt.FromSigned.{from_i128, to_i128, from_i128-Is, to_i128-value}
use foptim.ApInt.Extend.{sext64, sext64-value, sext, sext-Is}

unfoldable pub ashr_wide : ApInt → ℕ → ApInt
unfolding from_i128 to_i128
ashr_wide x shift =
    let amt = min shift (x.bits - 1) in
    if leb x.bits 128
    then from_i128 x.bits (sar 128 (to_i128 x) amt)
    else (let ext = if is_neg x then sext x (num_words x * 64) else zext x (num_words x * 64) in
        clear_unused (record {
          bits = x.bits;
          words = shr_n ext.words (num_words x) amt (if is_neg x then 2 ^ 64 - 1 else 0);
        }))

unfoldable pub ashr : ApInt → ℕ → ApInt
unfolding ashr_wide
ashr x amt =
    if is_single x
    then from_u64 x.bits (sar 64 (sext64 x) (if leb 64 amt then 63 else amt))
    else ashr_wide x amt

nonnegative : (b n v : ℕ) → is_negative b v ≡ false → v ≡ sign_extended b n v
unfolding sign_extended
nonnegative b n v plus = rw plus refl

ones-IsFill : IsFill (2 ^ 64 - 1) 1
ones-IsFill = (
  omega arith,
  λ k lt.
      let e : 2 ^ 64 - 1 ≡ 2 ^ 64 - 1 - 0 = omega arith in
      ap (bit_of k) e ∙ bit_of-complement 64 k 0 lt (omega arith) ∙ omega (arith, bit_of-zero k),
)

zeros-IsFill : IsFill 0 0
zeros-IsFill = (omega arith, λ k lt. bit_of-zero k)

-- A shift of `n` words whose top bit is the sign.
words_sar :
    (a : List ℕ) (n k fill f : ℕ)
    → AreWords a
    → 1 ≤ n
    → value a < 2 ^ (64 * n)
    → IsFill fill f
    → f ≡ (if is_negative (64 * n) (value a) then 1 else 0)
    → value (shr_n a n k fill) ≡ sar (64 * n) (value a) k
words_sar a n k fill f h pos lt is_fill e =
    shr_n-value a h n fill f is_fill k (sar (64 * n) (value a) k) (sar-lt (64 * n) (value a) k lt)
      (λ t small.
        sar-bit (64 * n) (value a) k t (omega arith) lt small
        ∙ ap (λ s. if ltb (t + k) (64 * n) then bit_of (t + k) (value a) else s) (sym e))

module _ (x : ApInt) (v : IsValid x) (room : x.bits + 126 < 2 ^ 32) where
  abbrev vx : ℕ
  vx = value x.words

  -- The extended operand of the long path.
  module _ (ext : ApInt) (fill f amt : ℕ) where
    long_ashr :
        let n = num_words x in
        Is ext (64 * n) (sign_extended x.bits (64 * n) vx)
        → IsFill fill f
        → f ≡ (if is_negative x.bits vx then 1 else 0)
        → Is
            (clear_unused (record { bits = x.bits; words = shr_n ext.words n amt fill }))
            x.bits
            (sar x.bits vx amt)
    long_ashr e is_fill sign =
        let n = num_words x in
        let pos : 1 ≤ n = omega (arith, v.shape.positive, words_for-div x.bits v.shape.fits) in
        let covers : x.bits ≤ 64 * n = omega (arith, width-le x v, v.shape.count) in
        let r : ApInt = record { bits = x.bits; words = shr_n ext.words n amt fill } in
        let bound : value ext.words < 2 ^ (64 * n) =
          subst (λ b. value ext.words < 2 ^ b) e.width e.valid.cut in
        let same : is_negative (64 * n) (value ext.words) ≡ is_negative x.bits vx =
          ap (is_negative (64 * n)) e.number
          ∙ sign_extended-sign x.bits (64 * n) vx v.shape.positive covers v.cut in
        let number : value r.words % 2 ^ x.bits ≡ sar x.bits vx amt =
          ap (λ k. k % 2 ^ x.bits)
            (words_sar ext.words n amt fill f e.valid.shape.all_words pos bound is_fill
                (sign ∙ ap (λ b. if b then 1 else 0) (sym same))
              ∙ ap (λ k. sar (64 * n) k amt) e.number)
          ∙ sar-cut (64 * n) x.bits vx amt v.shape.positive covers v.cut in
        subst (Is (clear_unused r) x.bits) number (
          clear_unused-Is r (record {
            positive = v.shape.positive;
            fits = v.shape.fits;
            count = length-shr_n ext.words n amt fill;
            all_words = shr_n-AreWords ext.words e.valid.shape.all_words n fill f is_fill amt;
          }))

  -- The shift amount is cut to the last bit.
  clamped : (amt : ℕ) → sar x.bits vx (min amt (x.bits - 1)) ≡ sar x.bits vx amt
  clamped amt = elim (dec_lt amt (x.bits - 1)) [
    | yes p ↦ ap (sar x.bits vx) (omega arith)
    | no p ↦
        let last : min amt (x.bits - 1) ≡ x.bits - 1 = omega arith in
        ap (sar x.bits vx) last ∙ sym (sar-far x.bits vx amt v.shape.positive v.cut (omega arith))
  ]

  ashr_wide-Is : (amt : ℕ) → 64 < x.bits → Is (ashr_wide x amt) x.bits (sar x.bits vx amt)
  unfolding ashr_wide
  ashr_wide-Is amt above =
      let n = num_words x in
      let k = min amt (x.bits - 1) in
      let covers : x.bits ≤ 64 * n = omega (arith, width-le x v, v.shape.count) in
      let fits : 64 * n + 63 < 2 ^ 32 = omega (arith, words_for-div x.bits v.shape.fits) in
      let swap : n * 64 ≡ 64 * n = omega arith in
      subst (Is (ashr_wide x amt) x.bits) (clamped amt) (elim (Bool-cases (leb x.bits 128)) [
        | inl middle ↦
            let h = leb→le _ _ middle in
            let wide = sign_extended-lt x.bits 128 vx h v.cut in
            rw (middle, to_i128-value x v h)
              (subst (Is (from_i128 x.bits (sar 128 (sign_extended x.bits 128 vx) k)) x.bits)
                (sar-cut 128 x.bits vx k v.shape.positive h v.cut)
                (from_i128-Is x.bits (sar 128 (sign_extended x.bits 128 vx) k) v.shape.positive h
                  (sar-lt 128 (sign_extended x.bits 128 vx) k wide)))
        | inr long ↦ elim (Bool-cases (is_negative x.bits vx)) [
          | inl neg ↦
              rw (long, is_neg-exact x v, neg, swap)
                (long_ashr (sext x (64 * n)) (2 ^ 64 - 1) 1 k (sext-Is x (64 * n) v fits covers)
                  ones-IsFill (rw neg refl))
          | inr plus ↦
              rw (long, is_neg-exact x v, plus, swap)
                (long_ashr (zext x (64 * n)) 0 0 k
                  (subst (Is (zext x (64 * n)) (64 * n)) (kept (64 * n) plus)
                    (zext-Is x v (64 * n) fits covers))
                  zeros-IsFill (rw plus refl))
        ]
      ])
    where
      kept : (n : ℕ) → is_negative x.bits vx ≡ false → vx ≡ sign_extended x.bits n vx
      kept n plus = nonnegative x.bits n vx plus

  -- For a well formed integer whose width plus 126 fits 32 bits and any shift amount, ashr returns a
  -- well formed integer of the same width whose number is the arithmetic shift of the two's
  -- complement pattern in that width, on each of its three paths and for amounts beyond the width.
  pub ashr-Is : (amt : ℕ) → Is (ashr x amt) x.bits (sar x.bits vx amt)
  unfolding ashr
  ashr-Is amt = elim (Bool-cases (leb x.bits 64)) [
    | inl narrow ↦
        let n = leb→le _ _ narrow in
        let k : ℕ = if leb 64 amt then 63 else amt in
        let wide = sign_extended-lt x.bits 64 vx n v.cut in
        rw (narrow, sext64-value x v n)
          (subst (Is (from_u64 x.bits (sar 64 (sign_extended x.bits 64 vx) k)) x.bits)
            (sar-cut 64 x.bits vx k v.shape.positive n v.cut ∙ far n)
            (from_u64-Is x.bits (sar 64 (sign_extended x.bits 64 vx) k) v.shape.positive
              v.shape.fits (sar-lt 64 (sign_extended x.bits 64 vx) k wide)))
    | inr above ↦
        in_else (λ r. Is r x.bits (sar x.bits vx amt)) _ _ above (ashr_wide-Is amt (ground arith))
  ]
    where
      far : x.bits ≤ 64 → sar x.bits vx (if leb 64 amt then 63 else amt) ≡ sar x.bits vx amt
      far h = elim (Bool-cases (leb 64 amt)) [
        | inl out ↦
            let le = leb→le _ _ out in
            rw out (
              sar-far x.bits vx 63 v.shape.positive v.cut (omega arith)
              ∙ sym (sar-far x.bits vx amt v.shape.positive v.cut (omega arith)))
        | inr part ↦ rw part refl
      ]
