-- ===== src/ApInt/Resize.antt =====
-- Zero extension and truncation.
use foptim.Base.{
  ltb, ltb→lt, ℕ, zero, suc, ◌+◌, ◌-◌, ◌*◌, ◌%◌, ◌^◌, ◌≤◌, ◌<◌, ◌≡◌, refl, sym, ap, ◌∙◌, subst,
  List, [], ◌∷◌, ◌++◌, false, arith, leb, Bool-cases, inl, inr, leb→le, length, replicate, take,
  drop, get_or, length-take, length-append, length-replicate,
}
use foptim.Base.Powers.{pow_mono}
use foptim.Base.BitLaws.{mod_split}
use foptim.Base.Modulus.{mod-mod_pow}
use foptim.Words.{value}
use foptim.Words.Value.{
  AreWords, capacity, capacity_pos, capacity-pow, value-replicate, replicate-AreWords,
}
use foptim.ApInt.{
  ApInt, words_for, zext_or_trunc, zext, zext_wide, trunc, trunc_wide, from_u64, clear_unused,
}
use foptim.ApInt.Cut.{IsValid, Is, clear_unused-Is, words_for-div}
use foptim.ApInt.Make.{from_u64-Is}
use foptim.ApInt.Views.{val-value, value-lt_pow}
use native.Mathlib.Nat.{mod-eq_of_lt}

pad-value : (ws : List ℕ) (k : ℕ) → value (ws ++ replicate k 0) ≡ value ws
unfolding value
pad-value [] k = value-replicate k
pad-value (w ∷ ws) k = omega (arith, pad-value ws k)

pad-AreWords : (ws : List ℕ) (k : ℕ) → AreWords ws → AreWords (ws ++ replicate k 0)
pad-AreWords [] k h = replicate-AreWords k
pad-AreWords (w ∷ ws) k h = (h.0, pad-AreWords ws k h.1)

drop-replicate : (n k : ℕ) → drop {A = ℕ} n (replicate k 0) ≡ replicate (k - n) 0
drop-replicate zero k = ap (λ (m : ℕ). replicate {A = ℕ} m 0) (omega arith)
drop-replicate (suc n) zero =
    let e : 0 ≡ zero - suc n = omega arith in ap (λ (m : ℕ). replicate {A = ℕ} m 0) e
drop-replicate (suc n) (suc k) =
    let e : k - n ≡ suc k - suc n = omega arith in
    drop-replicate n k ∙ ap (λ (m : ℕ). replicate {A = ℕ} m 0) e

take-value : (n : ℕ) (ws : List ℕ) → AreWords ws → value (take n ws) ≡ value ws % capacity n
unfolding value
take-value zero ws h = omega arith
take-value (suc n) [] h = sym (mod-eq_of_lt (capacity_pos (suc n)))
take-value (suc n) (w ∷ ws) h =
    ap (λ v. w + 2 ^ 64 * v) (take-value n ws h.1)
    ∙ sym (mod_split (2 ^ 64) (capacity n) w (value ws) h.0 (capacity_pos n))

take-AreWords : (n : ℕ) (ws : List ℕ) → AreWords ws → AreWords (take n ws)
take-AreWords zero ws h = tt
take-AreWords (suc n) [] h = tt
take-AreWords (suc n) (w ∷ ws) h = (h.0, take-AreWords n ws h.1)

pub lowest_word : (ws : List ℕ) → AreWords ws → get_or ws 0 0 ≡ value ws % 2 ^ 64
unfolding value
lowest_word [] h = omega arith
lowest_word (w ∷ ws) h = omega arith

module _ (x : ApInt) (v : IsValid x) (n : ℕ) (fits : n + 63 < 2 ^ 32) where
  pub zext_wide-Is : 64 < n → x.bits ≤ n → Is (zext_wide x n) n (value x.words)
  unfolding zext_wide
  zext_wide-Is above h =
      let wide : leb n 64 ≡ false = ground arith in
      let k = words_for n in
      let len = length x.words in
      let room : len ≤ k =
        omega (arith, v.shape.count, words_for-div x.bits v.shape.fits, words_for-div n fits) in
      let padded : List ℕ = x.words ++ replicate (k - len) 0 in
      let number = pad-value x.words (k - len) in
      rw (wide, drop-replicate len k)
        record {
          width = refl;
          valid = record {
            shape = record {
              positive = omega arith;
              fits = fits;
              count = omega (
                arith,
                length-append {0} x.words (replicate {A = ℕ} (k - len) 0),
                length-replicate {A = ℕ} (k - len) 0,
                room,
              );
              all_words = pad-AreWords x.words (k - len) v.shape.all_words;
            };
            cut = subst (λ m. m < 2 ^ n) (sym number) (value-lt_pow x v n h);
          };
          number = number;
        }

  -- For a well formed integer and a new width n that is at least its width and small enough that n +
  -- 63 fits 32 bits, zext returns a well formed integer of width n with the same number.
  pub zext-Is : x.bits ≤ n → Is (zext x n) n (value x.words)
  unfolding zext
  zext-Is h = elim (Bool-cases (leb n 64)) [
    | inl narrow ↦
        let small = leb→le n 64 narrow in
        let bound = value-lt_pow x v 64 (omega arith) in
        rw (narrow, val-value x v (omega arith))
          (subst (Is (from_u64 n (value x.words)) n) (mod-eq_of_lt (value-lt_pow x v n h))
            (from_u64-Is n (value x.words) (omega (arith, v.shape.positive)) fits bound))
    | inr wide ↦ let above : 64 < n = ground arith in rw wide (zext_wide-Is above h)
  ]

  -- For a well formed integer and a new width n from 1 to its width, with n + 63 in 32 bits, trunc
  -- returns a well formed integer of width n whose number is the old one modulo 2^n.
  pub trunc-Is : 1 ≤ n → n ≤ x.bits → Is (trunc x n) n (value x.words % 2 ^ n)
  unfolding trunc trunc_wide
  trunc-Is pos h = elim (Bool-cases (leb n 64)) [
    | inl narrow ↦
        let small = leb→le n 64 narrow in
        let low = lowest_word x.words v.shape.all_words in
        rw (narrow, low)
          (subst (Is (from_u64 n (value x.words % 2 ^ 64)) n)
            (mod-mod_pow 64 n (value x.words) small)
            (from_u64-Is n (value x.words % 2 ^ 64) pos fits (omega arith)))
    | inr wide ↦
        let k = words_for n in
        let count : length (take k x.words) ≡ k = omega (
          arith,
          length-take {0} k x.words,
          v.shape.count,
          words_for-div x.bits v.shape.fits,
          words_for-div n fits,
        ) in
        let number : value (take k x.words) % 2 ^ n ≡ value x.words % 2 ^ n =
          ap (λ m. m % 2 ^ n)
            (take-value k x.words v.shape.all_words ∙ ap (λ c. value x.words % c) (capacity-pow k))
          ∙ mod-mod_pow (64 * k) n (value x.words) (omega (arith, words_for-div n fits)) in
        let cut : ApInt = record { bits = n; words = take k x.words } in
        rw wide (
          subst (Is (clear_unused cut) n) number (
            clear_unused-Is cut (record {
              positive = pos;
              fits = fits;
              count = count;
              all_words = take-AreWords k x.words v.shape.all_words;
            })))
  ]

-- Either way the number is cut to the new width.
pub zext_or_trunc-Is :
    (x : ApInt) (n : ℕ)
    → IsValid x
    → 1 ≤ n
    → n + 63 < 2 ^ 32
    → Is (zext_or_trunc x n) n (value x.words % 2 ^ n)
unfolding zext_or_trunc
zext_or_trunc-Is x n v pos fits = elim (Bool-cases (ltb x.bits n)) [
  | inl h ↦
      let le = ltb→lt x.bits n h in
      let same : value x.words % 2 ^ n ≡ value x.words =
        mod-eq_of_lt (omega (arith, v.cut, pow_mono x.bits n (omega (arith, le)))) in
      rw h (subst (Is (zext x n) n) (sym same) (zext-Is x v n fits (omega (arith, le))))
  | inr h ↦ rw h (trunc-Is x v n fits pos (ground arith))
]
