-- ===== src/ApInt/Signs.antt =====
-- What `bit`, `is_neg`, `is_zero` and `is_one` say of the number.
use foptim.Base.{
  ℕ, ◌-◌, ◌/◌, ◌%◌, ◌^◌, ◌≤◌, ◌<◌, ◌≡◌, refl, ◌∙◌, List, [], ◌∷◌, false, not, ◌==◌, if◌then◌else◌,
  arith, leb, Bool-cases, inl, inr, leb→le, length, get_or, drop,
}
use foptim.Base.BitLaws.{low_mask}
use foptim.Base.Digits.{bit_of}
use foptim.Base.Signed.{is_negative, half}
use foptim.Words.{value}
use foptim.Words.Digits.{bit_of-value}
use foptim.ApInt.{ApInt}
use foptim.ApInt.Cut.{IsValid, words_for-div}
use foptim.ApInt.Views.{val-value}
use foptim.ApInt.Bitwise.{bit, is_neg, all_zero, is_zero, is_one}
use native.Mathlib.Nat.{div-eq_of_lt, div-eq_of_lt-le}
use Prim.Native.Nat.{bit_and}

pub bit-exact : (x : ApInt) (i : ℕ) → IsValid x → bit x i ≡ (bit_of i (value x.words) == 1)
unfolding bit
bit-exact x i v =
    let w : ℕ = get_or x.words (i / 64) 0 / 2 ^ (i % 64) in
    let low : bit_and w 1 ≡ w % 2 = low_mask 1 w in
    let same = bit_of-value x.words i v.shape.all_words in rw (low, same) (parity w)
  where
    parity : (w : ℕ) → not (w % 2 == 0) ≡ (w % 2 == 1)
    parity w = ground arith

pub top_bit : (b v : ℕ) → 1 ≤ b → v < 2 ^ b → (bit_of (b - 1) v == 1) ≡ is_negative b v
top_bit b v pos lt =
    let h = 2 ^ (b - 1) in
    elim (Bool-cases (leb h v)) [
      | inl neg ↦
          let one : v / h ≡ 1 =
            div-eq_of_lt-le h (omega (arith, leb→le _ _ neg)) (omega (arith, half b pos)) in
          rw (neg, one) refl
      | inr plus ↦ let none : v / h ≡ 0 = div-eq_of_lt (ground arith) in rw (plus, none) refl
    ]

pub is_neg-exact : (x : ApInt) → IsValid x → is_neg x ≡ is_negative x.bits (value x.words)
unfolding is_neg
is_neg-exact x v =
    bit-exact x (x.bits - 1) v ∙ top_bit x.bits (value x.words) v.shape.positive v.cut

all_zero-exact : (ws : List ℕ) → all_zero ws ≡ (value ws == 0)
unfolding all_zero value
all_zero-exact [] = ground arith
all_zero-exact (w ∷ ws) = elim (Bool-cases (w == 0)) [
  | inl e ↦ let none : w ≡ 0 = ground arith in rw (e, all_zero-exact ws) (ground arith)
  | inr e ↦ rw e (ground arith)
]

pub is_zero-exact : (x : ApInt) → IsValid x → is_zero x ≡ (value x.words == 0)
unfolding is_zero
is_zero-exact x v = elim (Bool-cases (leb x.bits 64)) [
  | inl narrow ↦ rw (narrow, val-value x v (leb→le _ _ narrow)) refl
  | inr wide ↦ rw wide (all_zero-exact x.words)
]

lowest_one :
    (ws : List ℕ)
    → 1 ≤ length ws
    → (if get_or ws 0 0 == 1 then all_zero (drop 1 ws) else false) ≡ (value ws == 1)
unfolding value
lowest_one [] h = absurd (omega arith)
lowest_one (w ∷ ws) h = elim (Bool-cases (w == 1)) [
  | inl e ↦ rw (e, all_zero-exact ws) (ground arith)
  | inr e ↦ rw e (ground arith)
]

pub is_one-exact : (x : ApInt) → IsValid x → is_one x ≡ (value x.words == 1)
unfolding is_one
is_one-exact x v =
    lowest_one x.words
      (omega (arith, v.shape.count, v.shape.positive, words_for-div x.bits v.shape.fits))
