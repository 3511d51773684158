-- ===== src/BitSet/Members.antt =====
-- `BitRef::set` changes one member.
use foptim.Base.{
  ℕ, zero, suc, ◌+◌, ◌-◌, ◌/◌, ◌%◌, ◌^◌, ◌<◌, ◌≡◌, ◌≢◌, refl, sym, ap, ◌∙◌, arith, List, [], ◌∷◌,
  Bool, true, false, ◌==◌, length, get_or, set, ℕ_discrete,
}
use foptim.Base.Powers.{pow_mono}
use foptim.BitSet.{BitSet, test, set_word, set_bit}
use foptim.Base.Digits.{bit_of, bit_of-and, bit_of-or, bit_of-complement, bit_of_self, bit_of-other}
use foptim.BitSet.Pointwise.{IsValid}

single_small : (k : ℕ) → k < 64 → 2 ^ k < 2 ^ 64
single_small k h = omega (arith, pow_mono (suc k) 64 (omega arith), double k)
  where
    double : (n : ℕ) → 2 ^ suc n ≡ 2 ^ n + 2 ^ n
    double n = omega arith

set_word_self : (w k : ℕ) (v : Bool) → k < 64 → (bit_of k (set_word w k v) == 1) ≡ v
unfolding set_word
set_word_self w k true h =
    let one = bit_of_self k in
    let r = bit_of-or k w (2 ^ k) in let bound : bit_of k w < 2 = omega arith in ground arith
set_word_self w k false h =
    let one = bit_of_self k in
    let r = bit_of-and k w (2 ^ 64 - 1 - 2 ^ k) in
    let c = bit_of-complement 64 k (2 ^ k) h (single_small k h) in ground arith

set_word-other :
    (w k j : ℕ) (v : Bool) → k < 64 → j < 64 → j ≢ k → bit_of j (set_word w k v) ≡ bit_of j w
unfolding set_word
set_word-other w k j true h hj ne =
    let zero_bit = bit_of-other k j ne in omega (arith, bit_of-or j w (2 ^ k), zero_bit)
set_word-other w k j false h hj ne =
    let zero_bit = bit_of-other k j ne in
    let c = bit_of-complement 64 j (2 ^ k) hj (single_small k h) in
    omega (arith, bit_of-and j w (2 ^ 64 - 1 - 2 ^ k), zero_bit, c)

get_or-set_here : (ws : List ℕ) (i v : ℕ) → i < length ws → get_or (set ws i v) i 0 ≡ v
get_or-set_here [] i v h = absurd (omega arith)
get_or-set_here (w ∷ ws) zero v h = refl
get_or-set_here (w ∷ ws) (suc i) v h = get_or-set_here ws i v (omega arith)

get_or-set_away : (ws : List ℕ) (i j v : ℕ) → j ≢ i → get_or (set ws i v) j 0 ≡ get_or ws j 0
get_or-set_away [] i j v h = refl
get_or-set_away (w ∷ ws) zero zero v h = absurd (h refl)
get_or-set_away (w ∷ ws) zero (suc j) v h = refl
get_or-set_away (w ∷ ws) (suc i) zero v h = refl
get_or-set_away (w ∷ ws) (suc i) (suc j) v h = get_or-set_away ws i j v (λ e. h (ap suc e))

module _ (s : BitSet) (valid : IsValid s) (i : ℕ) (h : i < s.size_bits) (v : Bool) where
  word : ℕ
  word = set_word (get_or s.data_words (i / 64) 0) (i % 64) v

  in_range : i / 64 < length s.data_words
  in_range = omega (arith, valid.count)

  -- For a well formed bit set and an index below its size, setting the bit at the index to a value
  -- makes it that value, and leaves every other index as it was.
  pub test-set_bit :
      (test (set_bit s i v) i ≡ v) × ((j : ℕ) → j ≢ i → test (set_bit s i v) j ≡ test s j)
  unfolding test set_bit word
  test-set_bit = (
    ap (λ n. n / 2 ^ (i % 64) % 2 == 1) (get_or-set_here s.data_words (i / 64) word in_range)
        ∙ set_word_self (get_or s.data_words (i / 64) 0) (i % 64) v (omega arith),
    λ j ne. elim (ℕ_discrete (j / 64) (i / 64)) [
      | no away ↦
          ap (λ n. n / 2 ^ (j % 64) % 2 == 1)
            (get_or-set_away s.data_words (i / 64) (j / 64) word away)
      | yes here ↦
          let bits_differ : j % 64 ≢ i % 64 = λ e. ne (omega arith) in
          ap (λ n. n / 2 ^ (j % 64) % 2 == 1)
            (ap (λ p. get_or (set s.data_words (i / 64) word) p 0) here
              ∙ get_or-set_here s.data_words (i / 64) word in_range)
          ∙ ap (λ n. n == 1)
              (set_word-other (get_or s.data_words (i / 64) 0) (i % 64) (j % 64) v (omega arith)
                (omega arith) bits_differ)
          ∙ ap (λ p. get_or s.data_words p 0 / 2 ^ (j % 64) % 2 == 1) (sym here)
    ],
  )
