-- ===== src/ApInt/Views.antt =====
-- The inline word and the double word of a well formed `ApInt` are its value.
use foptim.Base.{
  ℕ, ◌*◌, ◌%◌, ◌^◌, ◌≤◌, ◌<◌, ◌≡◌, sym, ap, ◌∙◌, List, [], ◌∷◌, arith, length, get_or,
}
use foptim.Base.Powers.{pow_mono}
use foptim.Base.BitLaws.{bit_or_fields}
use foptim.Base.Modulus.{mod-mod_pow}
use foptim.Words.{value}
use foptim.Words.Value.{AreWords, capacity, capacity-pow}
use foptim.ApInt.{ApInt, words_for, val, get128}
use foptim.ApInt.Cut.{IsValid, words_for-div}
use Prim.Native.Nat.{bit_or}

one_word : (ws : List ℕ) → length ws ≡ 1 → get_or ws 0 0 ≡ value ws
unfolding value
one_word [] h = absurd (omega arith)
one_word (w ∷ []) h = omega arith
one_word (w ∷ v ∷ ws) h = absurd (omega arith)

two_words :
    (ws : List ℕ)
    → AreWords ws
    → length ws ≡ 2
    → bit_or (get_or ws 0 0) (get_or ws 1 0 * 2 ^ 64) ≡ value ws
unfolding value
two_words [] hw h = absurd (omega arith)
two_words (w ∷ []) hw h = absurd (omega arith)
two_words (w ∷ v ∷ []) hw h = omega (arith, bit_or_fields 64 w v hw.0)
two_words (w ∷ v ∷ u ∷ ws) hw h = absurd (omega arith)

module _ (x : ApInt) (v : IsValid x) where
  pub val-value : x.bits ≤ 64 → val x ≡ value x.words
  val-value h =
      one_word x.words
        (omega (arith, v.shape.count, v.shape.positive, words_for-div x.bits v.shape.fits))

  pub get128-value : 64 < x.bits → x.bits ≤ 128 → get128 x ≡ value x.words
  get128-value h k =
      two_words x.words v.shape.all_words
        (omega (arith, v.shape.count, words_for-div x.bits v.shape.fits))

  pub width-le : x.bits ≤ 64 * length x.words
  width-le = omega (arith, v.shape.count, words_for-div x.bits v.shape.fits)

  -- Cutting to the words first changes nothing below the width.
  pub capacity-cut : (n : ℕ) → n % capacity (length x.words) % 2 ^ x.bits ≡ n % 2 ^ x.bits
  capacity-cut n =
      ap (λ c. n % c % 2 ^ x.bits) (capacity-pow (length x.words))
      ∙ mod-mod_pow (64 * length x.words) x.bits n width-le

  pub value-lt_pow : (k : ℕ) → x.bits ≤ k → value x.words < 2 ^ k
  value-lt_pow k h = omega (arith, v.cut, pow_mono x.bits k h)

-- Operands of one width have as many words.
pub same_length :
    (x y : ApInt) → IsValid x → IsValid y → x.bits ≡ y.bits → length x.words ≡ length y.words
same_length x y v w same = v.shape.count ∙ ap words_for same ∙ sym w.shape.count
