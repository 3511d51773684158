-- ===== src/ApInt/FromSigned.antt =====
-- src/utils/APInt.hpp, src/utils/APInt.cpp: `from_i64`, `from_i128`, `to_u128` and
-- `to_i128`.
use foptim.Base.{
  ℕ, zero, suc, ◌+◌, ◌-◌, ◌*◌, ◌/◌, ◌%◌, ◌^◌, ◌≤◌, ◌<◌, ◌≡◌, sym, ap, ◌∙◌, subst, [], ◌∷◌, arith,
  leb, ltb, if◌then◌else◌, Bool-cases, inl, inr, leb→le, replicate, length-replicate, u64, u128,
}
use foptim.Base.Modulus.{mod-mod_pow}
use foptim.Base.Signed.{
  is_negative, sar, sign_extended, sar-sign_extended, sign_extended-cut, sign_extended_self,
}
use foptim.Words.{value}
use foptim.Words.Value.{
  AreWords, capacity, capacity_pos, capacity-pow, value-replicate, replicate-AreWords,
}
use foptim.ApInt.{ApInt, is_single, words_for, val, get128, clear_unused}
use foptim.ApInt.Cut.{IsValid, Is, clear_unused-Is, words_for-div}
use foptim.ApInt.Views.{val-value, get128-value}

unfoldable pub from_i64 : ℕ → ℕ → ApInt
from_i64 bits v = clear_unused (record {
  bits = bits;
  words = v ∷ replicate (words_for bits - 1) (if is_negative 64 v then 2 ^ 64 - 1 else 0);
})

unfoldable pub from_i128 : ℕ → ℕ → ApInt
from_i128 bits v = clear_unused (record {
  bits = bits;
  words =
      if ltb 1 (words_for bits)
      then u64 v
        ∷ u64 (v / 2 ^ 64)
        ∷ replicate (words_for bits - 2) (if is_negative 128 v then 2 ^ 64 - 1 else 0)
      else u64 v ∷ [];
})

unfoldable pub to_u128 : ApInt → ℕ
to_u128 x = if is_single x then val x else get128 x

unfoldable pub to_i128 : ApInt → ℕ
unfolding to_u128
to_i128 x =
    if leb 128 x.bits
    then to_u128 x
    else let sh = 128 - x.bits in sar 128 (u128 (to_u128 x * 2 ^ sh)) sh

ones-value :
    (k : ℕ)
    → (value (replicate k (2 ^ 64 - 1)) ≡ capacity k - 1) × AreWords (replicate k (2 ^ 64 - 1))
unfolding value
ones-value zero = (omega arith, tt)
ones-value (suc k) =
    let ih = ones-value k in (omega (arith, ih.0, capacity_pos k), (omega arith, ih.1))

-- A `i64`: sign extended to the words, and cut.
from_i64-words :
    (bits v : ℕ)
    → 1 ≤ bits
    → bits + 63 < 2 ^ 32
    → v < 2 ^ 64
    → Is (from_i64 bits v) bits (sign_extended 64 (64 * words_for bits) v % 2 ^ bits)
unfolding from_i64 value sign_extended
from_i64-words bits v pos fits lt =
    let k : ℕ = words_for bits - 1 in
    let count : words_for bits ≡ suc k = omega (arith, words_for-div bits fits) in
    let cap : capacity (suc k) ≡ 2 ^ (64 * words_for bits) =
      capacity-pow (suc k) ∙ ap (λ n. 2 ^ (64 * n)) (sym count) in
    elim (Bool-cases (is_negative 64 v)) [
      | inl neg ↦
          let o = ones-value k in
          let r : ApInt = record { bits = bits; words = v ∷ replicate k (2 ^ 64 - 1) } in
          let number : value r.words ≡ v + 2 ^ (64 * words_for bits) - 2 ^ 64 =
            omega (arith, o.0, cap, capacity_pos k) in
          rw neg (
            subst (Is (clear_unused r) bits) (ap (λ n. n % 2 ^ bits) number) (
              clear_unused-Is r (record {
                positive = pos;
                fits = fits;
                count = omega (arith, length-replicate k (2 ^ 64 - 1), count);
                all_words = (lt, o.1);
              })))
      | inr plus ↦
          let r : ApInt = record { bits = bits; words = v ∷ replicate k 0 } in
          let number : value r.words ≡ v = omega (arith, value-replicate k) in
          rw plus (
            subst (Is (clear_unused r) bits) (ap (λ n. n % 2 ^ bits) number) (
              clear_unused-Is r (record {
                positive = pos;
                fits = fits;
                count = omega (arith, length-replicate {A = ℕ} k 0, count);
                all_words = (lt, replicate-AreWords k);
              })))
    ]

pub from_i64-Is :
    (bits v : ℕ)
    → 1 ≤ bits
    → bits + 63 < 2 ^ 32
    → v < 2 ^ 64
    → Is (from_i64 bits v) bits (if leb bits 64 then v % 2 ^ bits else sign_extended 64 bits v)
from_i64-Is bits v pos fits lt =
    let all = from_i64-words bits v pos fits lt in
    let n = 64 * words_for bits in
    let covers : bits ≤ n = omega (arith, words_for-div bits fits) in
    let word : 64 ≤ n = omega (arith, words_for-div bits fits) in
    let number : sign_extended 64 n v % 2 ^ bits
        ≡ (if leb bits 64 then v % 2 ^ bits else sign_extended 64 bits v) =
      elim (Bool-cases (leb bits 64)) [
        | inl narrow ↦ rw narrow (
            sym (mod-mod_pow 64 bits (sign_extended 64 n v) (leb→le _ _ narrow))
            ∙ ap (λ t. t % 2 ^ bits)
                (sign_extended-cut 64 64 n v (omega arith) word lt ∙ sign_extended_self 64 v))
        | inr wide ↦ rw wide (sign_extended-cut 64 bits n v (ground arith) covers lt)
      ] in
    subst (Is (from_i64 bits v) bits) number all

-- Up to 128 bits, `from_i128` cuts the pattern.
pub from_i128-Is :
    (bits v : ℕ) → 1 ≤ bits → bits ≤ 128 → v < 2 ^ 128 → Is (from_i128 bits v) bits (v % 2 ^ bits)
unfolding from_i128 value
from_i128-Is bits v pos h lt =
    let count = words_for-div bits (omega arith) in
    let fill : ℕ = if is_negative 128 v then 2 ^ 64 - 1 else 0 in
    elim (Bool-cases (ltb 1 (words_for bits))) [
      | inl two ↦
          let none : words_for bits - 2 ≡ 0 = ground (arith, count) in
          let r : ApInt = record { bits = bits; words = u64 v ∷ u64 (v / 2 ^ 64) ∷ [] } in
          let number : value r.words ≡ v = omega arith in
          rw (two, none)
            (subst (Is (clear_unused r) bits) (ap (λ n. n % 2 ^ bits) number) (
              clear_unused-Is r (record {
                positive = pos;
                fits = omega arith;
                count = ground (arith, count);
                all_words = (omega arith, (omega arith, tt));
              })))
      | inr one ↦
          let narrow : bits ≤ 64 = ground (arith, count) in
          let r : ApInt = record { bits = bits; words = u64 v ∷ [] } in
          let number : value r.words ≡ v % 2 ^ 64 = omega arith in
          rw one (
            subst (Is (clear_unused r) bits)
              (ap (λ n. n % 2 ^ bits) number ∙ mod-mod_pow 64 bits v narrow)
              (clear_unused-Is r (record {
                positive = pos;
                fits = omega arith;
                count = ground (arith, count);
                all_words = (omega arith, tt);
              })))
    ]

module _ (x : ApInt) (v : IsValid x) (h : x.bits ≤ 128) where
  pub to_u128-value : to_u128 x ≡ value x.words
  unfolding to_u128
  to_u128-value = elim (Bool-cases (leb x.bits 64)) [
    | inl narrow ↦ rw narrow (val-value x v (leb→le _ _ narrow))
    | inr wide ↦ rw wide (get128-value x v (ground arith) h)
  ]

  pub to_i128-value : to_i128 x ≡ sign_extended x.bits 128 (value x.words)
  unfolding to_i128
  to_i128-value = rw to_u128-value (elim (Bool-cases (leb 128 x.bits)) [
    | inl full ↦
        let e : x.bits ≡ 128 = omega (arith, h, leb→le _ _ full) in
        rw full (
          sym (sign_extended_self 128 (value x.words))
          ∙ ap (λ b. sign_extended b 128 (value x.words)) (sym e))
    | inr part ↦ rw part (sar-sign_extended 128 x.bits (value x.words) v.shape.positive h v.cut)
  ])
