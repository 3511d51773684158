-- ===== src/ApInt/Bitwise.antt =====
-- src/utils/APInt.hpp, src/utils/APInt.cpp: `bit`, `is_neg`, `is_zero`, `is_one` and the operators
-- `&`, `|`, `^` and `~` with their `_wide` loops over the words.
use foptim.Base.{
  ℕ, suc, ◌+◌, ◌-◌, ◌*◌, ◌/◌, ◌%◌, ◌^◌, ◌<◌, ◌≡◌, refl, sym, ap, ◌∙◌, subst, List, [], ◌∷◌, map,
  Bool, true, false, not, ◌==◌, if◌then◌else◌, arith, leb, Bool-cases, inl, inr, leb→le, length,
  get_or, drop, length-map, min, max,
}
use foptim.Base.Powers.{pow_mono}
use foptim.Base.Signed.{flip-cut}
use foptim.Base.Bitwise.{
  IsBitwise, op-bound, op_fields, bit_and-IsBitwise, bit_or-IsBitwise, bit_xor-IsBitwise,
}
use foptim.Words.{value}
use foptim.Words.Value.{AreWords, capacity, capacity_pos, capacity-pow, value-lt}
use foptim.ApInt.{ApInt, is_single, val, from_u64, clear_unused}
use foptim.ApInt.Cut.{IsValid, Is, clear_unused-Is}
use foptim.ApInt.Make.{from_u64-Is}
use foptim.ApInt.Views.{val-value, same_length, width-le}
use native.Mathlib.Nat.{mod-eq_of_lt}
use Prim.Native.Nat.{bit_and, bit_or, bit_xor, differ}

-- Bit `i` of the words.
unfoldable pub bit : ApInt → ℕ → Bool
bit x i = not (bit_and (get_or x.words (i / 64) 0 / 2 ^ (i % 64)) 1 == 0)

unfoldable pub is_neg : ApInt → Bool
unfolding bit
is_neg x = bit x (x.bits - 1)

unfoldable pub all_zero : List ℕ → Bool
all_zero [] = true
all_zero (w ∷ ws) = if w == 0 then all_zero ws else false

unfoldable pub is_zero : ApInt → Bool
unfolding all_zero
is_zero x = if is_single x then val x == 0 else all_zero x.words

unfoldable pub is_one : ApInt → Bool
unfolding all_zero
is_one x = if val x == 1 then all_zero (drop 1 x.words) else false

-- The loop of `and_wide`, `or_wide` and `xor_wide`, which differ in the operator.
pub zip_words : (ℕ → ℕ → ℕ) → List ℕ → List ℕ → List ℕ
zip_words op [] ys = []
zip_words op (x ∷ xs) [] = []
zip_words op (x ∷ xs) (y ∷ ys) = op x y ∷ zip_words op xs ys

pub and_wide : ApInt → ApInt → ApInt
unfolding zip_words
and_wide x y = record { bits = x.bits; words = zip_words bit_and x.words y.words }

pub or_wide : ApInt → ApInt → ApInt
unfolding zip_words
or_wide x y = record { bits = x.bits; words = zip_words bit_or x.words y.words }

pub xor_wide : ApInt → ApInt → ApInt
unfolding zip_words
xor_wide x y = record { bits = x.bits; words = zip_words bit_xor x.words y.words }

unfoldable pub and : ApInt → ApInt → ApInt
unfolding and_wide
and x y = if is_single x then from_u64 x.bits (bit_and (val x) (val y)) else and_wide x y

unfoldable pub or : ApInt → ApInt → ApInt
unfolding or_wide
or x y = if is_single x then from_u64 x.bits (bit_or (val x) (val y)) else or_wide x y

unfoldable pub xor : ApInt → ApInt → ApInt
unfolding xor_wide
xor x y = if is_single x then from_u64 x.bits (bit_xor (val x) (val y)) else xor_wide x y

pub not_wide : ApInt → ApInt
not_wide x =
    clear_unused (record { bits = x.bits; words = map (λ (w : ℕ). 2 ^ 64 - 1 - w) x.words })

unfoldable pub complement : ApInt → ApInt
unfolding not_wide
complement x = if is_single x then from_u64 x.bits (2 ^ 64 - 1 - val x) else not_wide x

-- The words of a bitwise operation are those of the operation on the numbers.
module _ (op digit : ℕ → ℕ → ℕ) (h : IsBitwise op digit) where
  zip_words-value :
      (xs ys : List ℕ)
      → AreWords xs
      → AreWords ys
      → length xs ≡ length ys
      → (value (zip_words op xs ys) ≡ op (value xs) (value ys))
        × AreWords (zip_words op xs ys)
        × (length (zip_words op xs ys) ≡ length xs)
  unfolding value zip_words
  zip_words-value [] [] hx hy e = (sym h.empty, tt, refl)
  zip_words-value [] (y ∷ ys) hx hy e = absurd (omega arith)
  zip_words-value (x ∷ xs) [] hx hy e = absurd (omega arith)
  zip_words-value (x ∷ xs) (y ∷ ys) hx hy e =
      let ih = zip_words-value xs ys hx.1 hy.1 (omega arith) in
      (
        ap (λ n. op x y + 2 ^ 64 * n) ih.0
            ∙ sym (op_fields op digit h 64 x y (value xs) (value ys) hx.0 hy.0),
        (op-bound op digit h 64 x y hx.0 hy.0, ih.1),
        ap suc ih.2,
      )

  -- Both paths of an operator.
  bitwise-Is :
      (x y : ApInt)
      → IsValid x
      → IsValid y
      → x.bits ≡ y.bits
      → Is
          (if leb x.bits 64
            then from_u64 x.bits (op (val x) (val y))
            else (record { bits = x.bits; words = zip_words op x.words y.words }))
          x.bits
          (op (value x.words) (value y.words))
  bitwise-Is x y v w same =
      let y-lt : value y.words < 2 ^ x.bits = subst (λ b. value y.words < 2 ^ b) (sym same) w.cut in
      let bound = op-bound op digit h x.bits (value x.words) (value y.words) v.cut y-lt in
      elim (Bool-cases (leb x.bits 64)) [
        | inl narrow ↦
            let n = leb→le _ _ narrow in
            let top = pow_mono x.bits 64 n in
            rw (narrow, val-value x v n, val-value y w (omega (arith, same)))
              (subst (Is (from_u64 x.bits (op (value x.words) (value y.words))) x.bits)
                (mod-eq_of_lt bound)
                (from_u64-Is x.bits (op (value x.words) (value y.words)) v.shape.positive
                  v.shape.fits (omega (arith, bound, top))))
        | inr wide ↦
            let z =
              zip_words-value x.words y.words v.shape.all_words w.shape.all_words
                (same_length x y v w same) in
            rw wide record {
              width = refl;
              valid = record {
                shape = record {
                  positive = v.shape.positive;
                  fits = v.shape.fits;
                  count = z.2 ∙ v.shape.count;
                  all_words = z.1;
                };
                cut = subst (λ n. n < 2 ^ x.bits) (sym z.0) bound;
              };
              number = z.0;
            }
      ]

module _ (x y : ApInt) (v : IsValid x) (w : IsValid y) (same : x.bits ≡ y.bits) where
  pub and-Is : Is (and x y) x.bits (bit_and (value x.words) (value y.words))
  unfolding and and_wide
  and-Is = bitwise-Is bit_and min bit_and-IsBitwise x y v w same

  pub or-Is : Is (or x y) x.bits (bit_or (value x.words) (value y.words))
  unfolding or or_wide
  or-Is = bitwise-Is bit_or max bit_or-IsBitwise x y v w same

  -- With both operands well formed (as many words as the width needs, every word below 2^64, unused
  -- high bits zero) and of the same width, operator^ returns a well formed integer of that width
  -- whose number is the exclusive or of the numbers.
  pub xor-Is : Is (xor x y) x.bits (bit_xor (value x.words) (value y.words))
  unfolding xor xor_wide
  xor-Is = bitwise-Is bit_xor differ bit_xor-IsBitwise x y v w same

flip_words-value :
    (ws : List ℕ)
    → AreWords ws
    → let r = map (λ (w : ℕ). 2 ^ 64 - 1 - w) ws in
      (value r ≡ capacity (length ws) - 1 - value ws) × AreWords r
unfolding value
flip_words-value [] h = (omega arith, tt)
flip_words-value (w ∷ ws) h =
    let ih = flip_words-value ws h.1 in
    (omega (arith, ih.0, value-lt ws h.1, h.0, capacity_pos (length ws)), (omega arith, ih.1))

pub complement-Is :
    (x : ApInt) → IsValid x → Is (complement x) x.bits (2 ^ x.bits - 1 - value x.words)
unfolding complement not_wide
complement-Is x v = elim (Bool-cases (leb x.bits 64)) [
  | inl narrow ↦
      let n = leb→le _ _ narrow in
      rw (narrow, val-value x v n)
        (subst (Is (from_u64 x.bits (2 ^ 64 - 1 - value x.words)) x.bits)
          (flip-cut 64 x.bits (value x.words) n v.cut)
          (from_u64-Is x.bits (2 ^ 64 - 1 - value x.words) v.shape.positive v.shape.fits
            (omega arith)))
  | inr wide ↦
      let f = flip_words-value x.words v.shape.all_words in
      let r : ApInt = record { bits = x.bits; words = map (λ (w : ℕ). 2 ^ 64 - 1 - w) x.words } in
      let number : value r.words % 2 ^ x.bits ≡ 2 ^ x.bits - 1 - value x.words =
        ap (λ n. n % 2 ^ x.bits)
          (f.0 ∙ ap (λ c. c - 1 - value x.words) (capacity-pow (length x.words)))
        ∙ flip-cut (64 * length x.words) x.bits (value x.words) (width-le x v) v.cut in
      rw wide (
        subst (Is (clear_unused r) x.bits) number (
          clear_unused-Is r (record {
            positive = v.shape.positive;
            fits = v.shape.fits;
            count = length-map x.words (λ (w : ℕ). 2 ^ 64 - 1 - w) ∙ v.shape.count;
            all_words = f.1;
          })))
]
