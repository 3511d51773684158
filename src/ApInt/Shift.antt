-- ===== src/ApInt/Shift.antt =====
-- src/utils/APInt.hpp, src/utils/APInt.cpp: `shl`, `lshr` and their `_wide` paths.
use foptim.Base.{
  ℕ, ◌+◌, ◌-◌, ◌*◌, ◌/◌, ◌%◌, ◌^◌, ◌≤◌, ◌<◌, ◌≡◌, refl, sym, ap, ◌∙◌, subst, arith, leb, ltb,
  if◌then◌else◌, Bool-cases, inl, inr, leb→le, u64, u128,
}
use foptim.Base.Powers.{pow-pos, pow_mono}
use foptim.Base.Modulus.{mod-mod_pow, pow-split}
use foptim.Base.Digits.{bit_of, bit_of-zero, bit_of-div, bit_of-above}
use foptim.Words.{value}
use foptim.Words.Shifts.{shl_n, shr_n, shl_n-value, shl_n-AreWords, length-shl_n}
use foptim.Words.RightShifts.{IsFill, shr_n-value, shr_n-AreWords, length-shr_n}
use foptim.ApInt.{ApInt, is_single, num_words, val, get128, from_u64, from_u128, clear_unused}
use foptim.ApInt.Cut.{IsValid, Is, clear_unused-Is}
use foptim.ApInt.Make.{from_u64-Is, from_u128-Is}
use foptim.ApInt.Views.{val-value, get128-value, width-le, value-lt_pow}
use native.Mathlib.Nat.{mod-eq_of_lt, div-eq_of_lt, div-le_self, mul-mod_right}

unfoldable pub shl_wide : ApInt → ℕ → ApInt
shl_wide x amt =
    if leb x.bits amt
    then from_u64 x.bits 0
    else if leb x.bits 128
    then from_u128 x.bits (u128 (get128 x * 2 ^ amt))
    else clear_unused (record { bits = x.bits; words = shl_n x.words (num_words x) amt })

unfoldable pub shl : ApInt → ℕ → ApInt
unfolding shl_wide
shl x amt =
    if is_single x
    then from_u64 x.bits (if leb 64 amt then 0 else u64 (val x * 2 ^ amt))
    else shl_wide x amt

unfoldable pub lshr_wide : ApInt → ℕ → ApInt
lshr_wide x amt =
    if leb x.bits amt
    then from_u64 x.bits 0
    else if leb x.bits 128
    then from_u128 x.bits (get128 x / 2 ^ amt)
    else record { bits = x.bits; words = shr_n x.words (num_words x) amt 0 }

unfoldable pub lshr : ApInt → ℕ → ApInt
unfolding lshr_wide
lshr x amt =
    if is_single x
    then from_u64 x.bits (if leb 64 amt then 0 else val x / 2 ^ amt)
    else lshr_wide x amt

-- Everything is shifted out.
shifted_out : (b k n : ℕ) → b ≤ k → n * 2 ^ k % 2 ^ b ≡ 0
shifted_out b k n h =
    let split : n * 2 ^ k ≡ 2 ^ b * (n * 2 ^ (k - b)) =
      ap (λ (t : ℕ). n * t) (pow-split k b h) ∙ omega arith in
    ap (λ t. t % 2 ^ b) split ∙ mul-mod_right (2 ^ b) (n * 2 ^ (k - b))

-- The three paths, each with the operand's value.
module _ (x : ApInt) (v : IsValid x) where
  abbrev vx : ℕ
  vx = value x.words

  zero-Is : (r : ℕ) → 0 ≡ r → Is (from_u64 x.bits 0) x.bits r
  zero-Is r e =
      subst (Is (from_u64 x.bits 0) x.bits) (mod-eq_of_lt (pow-pos x.bits) ∙ e)
        (from_u64-Is x.bits 0 v.shape.positive v.shape.fits (omega arith))

  word-Is : (n r : ℕ) → n < 2 ^ 64 → n % 2 ^ x.bits ≡ r → Is (from_u64 x.bits n) x.bits r
  word-Is n r lt e =
      subst (Is (from_u64 x.bits n) x.bits) e
        (from_u64-Is x.bits n v.shape.positive v.shape.fits lt)

  double-Is : (n r : ℕ) → n < 2 ^ 128 → n % 2 ^ x.bits ≡ r → Is (from_u128 x.bits n) x.bits r
  double-Is n r lt e =
      subst (Is (from_u128 x.bits n) x.bits) e
        (from_u128-Is x.bits n v.shape.positive v.shape.fits lt)

  -- For a well formed integer and any shift amount, shl returns a well formed integer of the same
  -- width whose number is the number times 2^amount, modulo 2^bits, on each of its three paths.
  pub shl-Is : (amt : ℕ) → Is (shl x amt) x.bits (vx * 2 ^ amt % 2 ^ x.bits)
  unfolding shl shl_wide
  shl-Is amt = elim (Bool-cases (leb x.bits 64)) [
    | inl narrow ↦
        let n = leb→le _ _ narrow in
        rw (narrow, val-value x v n)
          (elim (Bool-cases (leb 64 amt)) [
            | inl out ↦
                rw out (zero-Is _ (sym (shifted_out x.bits amt vx (omega (arith, leb→le _ _ out)))))
            | inr part ↦ rw part (
                word-Is (u64 (vx * 2 ^ amt)) _ (omega arith)
                  (mod-mod_pow 64 x.bits (vx * 2 ^ amt) n))
          ])
    | inr wide ↦ rw wide (elim (Bool-cases (leb x.bits amt)) [
      | inl out ↦ rw out (zero-Is _ (sym (shifted_out x.bits amt vx (leb→le _ _ out))))
      | inr part ↦ rw part (elim (Bool-cases (leb x.bits 128)) [
        | inl middle ↦
            let n = leb→le _ _ middle in
            rw (middle, get128-value x v (ground arith) n)
              (double-Is (u128 (vx * 2 ^ amt)) _ (omega arith)
                (mod-mod_pow 128 x.bits (vx * 2 ^ amt) n))
        | inr long ↦
            let k = num_words x in
            let r : ApInt = record { bits = x.bits; words = shl_n x.words k amt } in
            let covers : x.bits ≤ 64 * k = omega (arith, width-le x v, v.shape.count) in
            let number : value r.words % 2 ^ x.bits ≡ vx * 2 ^ amt % 2 ^ x.bits =
              ap (λ n. n % 2 ^ x.bits) (shl_n-value x.words k amt v.shape.all_words)
              ∙ mod-mod_pow (64 * k) x.bits (vx * 2 ^ amt) covers in
            rw long (
              subst (Is (clear_unused r) x.bits) number (
                clear_unused-Is r (record {
                  positive = v.shape.positive;
                  fits = v.shape.fits;
                  count = length-shl_n x.words k amt;
                  all_words = shl_n-AreWords x.words k amt v.shape.all_words;
                })))
      ])
    ])
  ]

  empty-IsFill : IsFill 0 0
  empty-IsFill = (omega arith, λ k lt. bit_of-zero k)

  long_lshr : (amt : ℕ) → value (shr_n x.words (num_words x) amt 0) ≡ vx / 2 ^ amt
  long_lshr amt =
      let k = num_words x in
      let covers : x.bits ≤ 64 * k = omega (arith, width-le x v, v.shape.count) in
      let bound = value-lt_pow x v (64 * k) covers in
      shr_n-value x.words v.shape.all_words k 0 0 empty-IsFill amt (vx / 2 ^ amt)
        (omega (arith, div-le_self vx (2 ^ amt), bound))
        (λ t lt.
          let index : amt + t ≡ t + amt = omega arith in
          let moved = bit_of-div amt t vx ∙ ap (λ n. bit_of n vx) index in
          elim (Bool-cases (ltb (t + amt) (64 * k))) [
            | inl inside ↦ rw inside moved
            | inr out ↦ rw out (moved ∙ bit_of-above (64 * k) (t + amt) vx bound (ground arith))
          ])

  pub lshr-Is : (amt : ℕ) → Is (lshr x amt) x.bits (vx / 2 ^ amt)
  unfolding lshr lshr_wide
  lshr-Is amt =
      let small : vx / 2 ^ amt < 2 ^ x.bits = omega (arith, div-le_self vx (2 ^ amt), v.cut) in
      let gone : x.bits ≤ amt → 0 ≡ vx / 2 ^ amt =
        λ h. sym (div-eq_of_lt (omega (arith, v.cut, pow_mono x.bits amt h))) in
      elim (Bool-cases (leb x.bits 64)) [
        | inl narrow ↦
            let n = leb→le _ _ narrow in
            rw (narrow, val-value x v n)
              (elim (Bool-cases (leb 64 amt)) [
                | inl out ↦ rw out (zero-Is _ (gone (omega (arith, leb→le _ _ out))))
                | inr part ↦ rw part (
                    word-Is (vx / 2 ^ amt) _ (omega (arith, small, pow_mono x.bits 64 n))
                      (mod-eq_of_lt small))
              ])
        | inr wide ↦ rw wide (elim (Bool-cases (leb x.bits amt)) [
          | inl out ↦ rw out (zero-Is _ (gone (leb→le _ _ out)))
          | inr part ↦ rw part (elim (Bool-cases (leb x.bits 128)) [
            | inl middle ↦
                let n = leb→le _ _ middle in
                rw (middle, get128-value x v (ground arith) n)
                  (double-Is (vx / 2 ^ amt) _ (omega (arith, small, pow_mono x.bits 128 n))
                    (mod-eq_of_lt small))
            | inr long ↦
                let k = num_words x in
                rw long record {
                  width = refl;
                  valid = record {
                    shape = record {
                      positive = v.shape.positive;
                      fits = v.shape.fits;
                      count = length-shr_n x.words k amt 0;
                      all_words = shr_n-AreWords x.words v.shape.all_words k 0 0 empty-IsFill amt;
                    };
                    cut = subst (λ n. n < 2 ^ x.bits) (sym (long_lshr amt)) small;
                  };
                  number = long_lshr amt;
                }
          ])
        ])
      ]
