-- ===== src/ApInt/Make.antt =====
-- The constructors from a `u64` and a `u128`: the number is cut to the width.
use foptim.Base.{
  ℕ, zero, suc, ◌+◌, ◌-◌, ◌*◌, ◌/◌, ◌%◌, ◌^◌, ◌≤◌, ◌<◌, ◌≡◌, refl, sym, ap, ◌∙◌, subst, List, [],
  ◌∷◌, true, false, arith, ltb, leb, if◌then◌else◌, Bool-cases, inl, inr, u64, replicate, set,
  length-replicate, length-set, leb→le, lt→ltb,
}
use foptim.Base.Powers.{pow-pos, pow_mono}
use foptim.Base.Modulus.{mod-mod_pow}
use foptim.Words.{value}
use foptim.Words.Value.{AreWords, capacity, capacity-pow, value-replicate, replicate-AreWords}
use foptim.Base.Signed.{flip-cut}
use foptim.ApInt.{ApInt, all_ones, words_for, zeroed, clear_unused, from_u64, from_u128}
use foptim.ApInt.Cut.{HasShape, Is, and-mask64, words_for-div, clear_unused-Is}
use native.Mathlib.Nat.{mod-eq_of_lt, mod-lt}

-- One word.
single-Is :
    (bits w : ℕ)
    → 1 ≤ bits
    → bits ≤ 64
    → w < 2 ^ bits
    → Is (record { bits = bits; words = w ∷ [] }) bits w
unfolding value
single-Is bits w pos narrow h = record {
  width = refl;
  valid = record {
    shape = record {
      positive = pos;
      fits = omega arith;
      count = omega arith;
      all_words = (omega (arith, pow_mono bits 64 narrow), tt);
    };
    cut = omega arith;
  };
  number = omega arith;
}

set_lowest-value : (n v : ℕ) → 0 < n → value (set (replicate n 0) 0 v) ≡ v
unfolding value
set_lowest-value zero v h = absurd (omega arith)
set_lowest-value (suc n) v h = omega (arith, value-replicate n)

set-AreWords : (ws : List ℕ) (i v : ℕ) → AreWords ws → v < 2 ^ 64 → AreWords (set ws i v)
set-AreWords [] i v h hv = tt
set-AreWords (w ∷ ws) zero v h hv = (hv, h.1)
set-AreWords (w ∷ ws) (suc i) v h hv = (h.0, set-AreWords ws i v h.1 hv)

-- A word cut to the width.
pub from_u64-Is :
    (bits v : ℕ)
    → 1 ≤ bits
    → bits + 63 < 2 ^ 32
    → v < 2 ^ 64
    → Is (from_u64 bits v) bits (v % 2 ^ bits)
unfolding from_u64
from_u64-Is bits v pos fits hv = elim (Bool-cases (leb bits 64)) [
  | inl narrow ↦
      let h = leb→le bits 64 narrow in
      rw (narrow, and-mask64 bits v h)
        (single-Is bits (v % 2 ^ bits) pos h (mod-lt v (pow-pos bits)))
  | inr wide ↦
      let h : 64 ≤ bits = ground arith in
      let n-pos : 0 < words_for bits = omega (arith, words_for-div bits fits) in
      let bound : v < 2 ^ bits = omega (arith, pow_mono 64 bits h) in
      let number = set_lowest-value (words_for bits) v n-pos in
      rw wide record {
        width = refl;
        valid = record {
          shape = record {
            positive = pos;
            fits = fits;
            count =
                length-set (replicate (words_for bits) 0) 0 v ∙ length-replicate (words_for bits) 0;
            all_words = set-AreWords _ 0 v (replicate-AreWords (words_for bits)) hv;
          };
          cut = subst (λ k. k < 2 ^ bits) (sym number) bound;
        };
        number = number ∙ sym (mod-eq_of_lt bound);
      }
]

set_two-value : (n a b : ℕ) → 1 < n → value (set (set (replicate n 0) 0 a) 1 b) ≡ a + 2 ^ 64 * b
unfolding value
set_two-value zero a b h = absurd (omega arith)
set_two-value (suc zero) a b h = absurd (omega arith)
set_two-value (suc (suc n)) a b h = omega (arith, value-replicate n)

-- The words that `from_u128` writes, before the cut.
u128_words : (bits v : ℕ) → List ℕ
u128_words bits v =
    let d = set (zeroed bits).words 0 (u64 v) in
    if ltb 1 (words_for bits) then set d 1 (u64 (v / 2 ^ 64)) else d

u128_words-shape :
    (bits v : ℕ)
    → 1 ≤ bits
    → bits + 63 < 2 ^ 32
    → v < 2 ^ 128
    → HasShape bits (u128_words bits v) × (value (u128_words bits v) % 2 ^ bits ≡ v % 2 ^ bits)
unfolding u128_words value
u128_words-shape bits v pos fits hv = elim (Bool-cases (leb bits 64)) [
  | inl narrow ↦
      let h = leb→le bits 64 narrow in
      let one : ltb 1 (words_for bits) ≡ false = ground (arith, words_for-div bits fits) in
      let plain : u64 v + 2 ^ 64 * 0 ≡ v % 2 ^ 64 = omega arith in
      rw (narrow, one)
        (
          record {
            positive = pos;
            fits = fits;
            count = omega (arith, words_for-div bits fits);
            all_words = (omega arith, tt);
          },
          ap (λ k. k % 2 ^ bits) plain ∙ mod-mod_pow 64 bits v h,
        )
  | inr wide ↦
      let h : 64 < bits = ground arith in
      let n = words_for bits in
      let n-large : 1 < n = omega (arith, words_for-div bits fits) in
      let two : ltb 1 n ≡ true = lt→ltb 1 n n-large in
      let zeros : List ℕ = replicate n 0 in
      let low : List ℕ = set zeros 0 (u64 v) in
      let whole : u64 v + 2 ^ 64 * u64 (v / 2 ^ 64) ≡ v = omega arith in
      rw (wide, two)
        (
          record {
            positive = pos;
            fits = fits;
            count =
                length-set low 1 (u64 (v / 2 ^ 64))
                ∙ length-set zeros 0 (u64 v)
                ∙ length-replicate n 0;
            all_words =
                set-AreWords low 1 (u64 (v / 2 ^ 64))
                  (set-AreWords zeros 0 (u64 v) (replicate-AreWords n) (omega arith)) (omega arith);
          },
          ap (λ k. k % 2 ^ bits) (set_two-value n (u64 v) (u64 (v / 2 ^ 64)) n-large ∙ whole),
        )
]

-- A double word cut to the width.
pub from_u128-Is :
    (bits v : ℕ)
    → 1 ≤ bits
    → bits + 63 < 2 ^ 32
    → v < 2 ^ 128
    → Is (from_u128 bits v) bits (v % 2 ^ bits)
unfolding from_u128 u128_words
from_u128-Is bits v pos fits hv =
    let s = u128_words-shape bits v pos fits hv in
    let x : ApInt = record { bits = bits; words = u128_words bits v } in
    subst (Is (clear_unused x) bits) s.1 (clear_unused-Is x s.0)

ones-value :
    (n : ℕ)
    → (value (replicate n (2 ^ 64 - 1)) + 1 ≡ capacity n) × AreWords (replicate n (2 ^ 64 - 1))
unfolding value
ones-value zero = (omega arith, tt)
ones-value (suc n) = (omega (arith, (ones-value n).0), (omega arith, (ones-value n).1))

pub all_ones-Is :
    (bits : ℕ) → 1 ≤ bits → bits + 63 < 2 ^ 32 → Is (all_ones bits) bits (2 ^ bits - 1)
unfolding all_ones
all_ones-Is bits pos fits =
    let n = words_for bits in
    let r : ApInt = record { bits = bits; words = replicate n (2 ^ 64 - 1) } in
    let covers : bits ≤ 64 * n = omega (arith, words_for-div bits fits) in
    let full : value r.words ≡ 2 ^ (64 * n) - 1 - 0 =
      omega (arith, (ones-value n).0, capacity-pow n) in
    let number : value r.words % 2 ^ bits ≡ 2 ^ bits - 1 =
      ap (λ v. v % 2 ^ bits) full ∙ flip-cut (64 * n) bits 0 covers (pow-pos bits) ∙ omega arith in
    subst (Is (clear_unused r) bits) number (
      clear_unused-Is r (record {
        positive = pos;
        fits = fits;
        count = length-replicate n (2 ^ 64 - 1);
        all_words = (ones-value n).1;
      }))
