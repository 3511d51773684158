-- ===== src/ApInt/Extend.antt =====
-- src/utils/APInt.hpp, src/utils/APInt.cpp: `sext64`, `sext` and `sext_wide`. A `i64` is its two's
-- complement pattern.
use foptim.Base.{
  ℕ, ◌+◌, ◌-◌, ◌*◌, ◌/◌, ◌%◌, ◌^◌, ◌≤◌, ◌<◌, ◌≡◌, sym, ap, ◌∙◌, subst, List, arith, leb, ltb,
  if◌then◌else◌, Bool-cases, inl, inr, leb→le, length, u64,
}
use foptim.Base.BitLaws.{low_mask}
use foptim.Base.Signed.{
  is_negative, sar, sign_extended, sar-sign_extended, sign_extended-lt, sign_extended-cut, ones-cut,
}
use foptim.Words.{value}
use foptim.Words.Value.{capacity, capacity-pow}
use foptim.Words.Fills.{fill_above, fill_above-value}
use foptim.ApInt.{ApInt, words_for, val, from_u64, zext_wide, clear_unused, trunc}
use foptim.ApInt.Cut.{IsValid, Is, clear_unused-Is, words_for-div}
use foptim.ApInt.Make.{from_u64-Is}
use foptim.ApInt.Views.{val-value}
use foptim.ApInt.Resize.{zext_wide-Is}
use foptim.ApInt.Bitwise.{is_neg}
use foptim.ApInt.Signs.{is_neg-exact}
use Prim.Native.Nat.{bit_and}

unfoldable pub sext64 : ApInt → ℕ
sext64 x = let sh = 64 - x.bits in sar 64 (u64 (val x * 2 ^ sh)) sh

unfoldable pub sext_wide : ApInt → ℕ → ApInt
sext_wide x new_bits =
    let r = zext_wide x new_bits in
    let rem = bit_and x.bits 63 in
    let first = x.bits / 64 in
    if is_neg x then clear_unused (record r { words = fill_above first rem r.words }) else r

unfoldable pub sext : ApInt → ℕ → ApInt
unfolding sext64 sext_wide
sext x new_bits = if leb new_bits 64 then from_u64 new_bits (sext64 x) else sext_wide x new_bits

unfoldable pub sext_or_trunc : ApInt → ℕ → ApInt
unfolding sext
sext_or_trunc x new_bits = if ltb x.bits new_bits then sext x new_bits else trunc x new_bits

pub sext64-value :
    (x : ApInt) → IsValid x → x.bits ≤ 64 → sext64 x ≡ sign_extended x.bits 64 (value x.words)
unfolding sext64
sext64-value x v h =
    rw (val-value x v h) (sar-sign_extended 64 x.bits (value x.words) v.shape.positive h v.cut)

sext_wide-Is :
    (x : ApInt) (n : ℕ)
    → IsValid x
    → n + 63 < 2 ^ 32
    → 64 < n
    → x.bits ≤ n
    → Is (sext_wide x n) n (sign_extended x.bits n (value x.words))
unfolding sext_wide sign_extended
sext_wide-Is x n v fits above h =
    let z = zext_wide-Is x v n fits above h in
    let neg = is_neg-exact x v in
    elim (Bool-cases (is_negative x.bits (value x.words))) [
      | inl minus ↦
          let r = zext_wide x n in
          let covers : n ≤ 64 * length r.words =
            omega
              (arith, z.valid.shape.count, z.width, ap words_for z.width, words_for-div n fits) in
          let small : value r.words < 2 ^ x.bits =
            subst (λ k. k < 2 ^ x.bits) (sym z.number) v.cut in
          let f =
            fill_above-value r.words x.bits z.valid.shape.all_words (omega (arith, covers)) small in
          let filled : List ℕ = fill_above (x.bits / 64) (x.bits % 64) r.words in
          let full : ApInt = record r { words = filled } in
          let le = leb→le _ _ minus in
          let number : value filled % 2 ^ r.bits ≡ value x.words + 2 ^ n - 2 ^ x.bits =
            ap (λ k. value filled % 2 ^ k) z.width
            ∙ ap (λ k. k % 2 ^ n)
                (f.0
                  ∙ ap (λ k. k + capacity (length r.words) - 2 ^ x.bits) z.number
                  ∙ ap (λ k. value x.words + k - 2 ^ x.bits) (capacity-pow (length r.words)))
            ∙ ones-cut x.bits n (64 * length r.words) (value x.words) h covers v.cut in
          let low : bit_and x.bits 63 ≡ x.bits % 64 = low_mask 6 x.bits in
          rw (neg, minus, low)
            (subst (λ b. Is (clear_unused full) b (value x.words + 2 ^ n - 2 ^ x.bits)) z.width
              (subst (Is (clear_unused full) r.bits) number (
                clear_unused-Is full (record {
                  positive = z.valid.shape.positive;
                  fits = z.valid.shape.fits;
                  count = f.2 ∙ z.valid.shape.count;
                  all_words = f.1;
                }))))
      | inr plus ↦ rw (neg, plus) z
    ]

-- For a well formed integer and a new width n that is at least its width, with n + 63 in 32 bits,
-- sext returns a well formed integer of width n with the same two's complement integer.
pub sext-Is :
    (x : ApInt) (n : ℕ)
    → IsValid x
    → n + 63 < 2 ^ 32
    → x.bits ≤ n
    → Is (sext x n) n (sign_extended x.bits n (value x.words))
unfolding sext
sext-Is x n v fits h = elim (Bool-cases (leb n 64)) [
  | inl narrow ↦
      let small = leb→le _ _ narrow in
      let number = sext64-value x v (omega arith) in
      rw (narrow, number)
        (subst (Is (from_u64 n (sign_extended x.bits 64 (value x.words))) n)
          (sign_extended-cut x.bits n 64 (value x.words) h small v.cut)
          (from_u64-Is n (sign_extended x.bits 64 (value x.words)) (omega (arith, v.shape.positive))
            fits (sign_extended-lt x.bits 64 (value x.words) (omega arith) v.cut)))
  | inr wide ↦ rw wide (sext_wide-Is x n v fits (ground arith) h)
]
