-- ===== src/BitSet/Pointwise.antt =====
-- The operations of `BitSet` as operations on members.
use foptim.Base.{
  ℕ, zero, suc, ◌-◌, ◌/◌, ◌%◌, ◌^◌, ◌<◌, ◌≡◌, refl, sym, ap, ◌∙◌, arith, min, max, List, [], ◌∷◌,
  not, ◌&&◌, ◌||◌, ◌==◌, length, get_or,
}
use foptim.Words.Value.{AreWords}
use foptim.BitSet.{BitSet, n_elems, test, zip_words, mul_assign, add_assign, mul_not}
use foptim.Base.Digits.{bit_of, bit_of-and, bit_of-or, bit_of-complement}
use Prim.Native.Nat.{bit_and, bit_or}

pub record IsValid (s : BitSet) : Type 0 where
  pub count : length s.data_words ≡ n_elems s.size_bits
  pub all_words : AreWords s.data_words

word_at : BitSet → ℕ → ℕ
word_at s i = get_or s.data_words (i / 64) 0

test-bit_of : (s : BitSet) (i : ℕ) → test s i ≡ (bit_of (i % 64) (word_at s i) == 1)
unfolding test word_at
test-bit_of s i = refl

pub AreWords-get_or : (ws : List ℕ) (i : ℕ) → AreWords ws → get_or ws i 0 < 2 ^ 64
AreWords-get_or [] i h = omega arith
AreWords-get_or (w ∷ ws) zero h = h.0
AreWords-get_or (w ∷ ws) (suc i) h = AreWords-get_or ws i h.1

get_or-zip_words :
    (f : ℕ → ℕ → ℕ) (xs ys : List ℕ) (i : ℕ)
    → length xs ≡ length ys
    → i < length xs
    → get_or (zip_words f xs ys) i 0 ≡ f (get_or xs i 0) (get_or ys i 0)
get_or-zip_words f [] ys i e h = absurd (omega arith)
get_or-zip_words f (x ∷ xs) [] i e h = absurd (omega arith)
get_or-zip_words f (x ∷ xs) (y ∷ ys) zero e h = refl
get_or-zip_words f (x ∷ xs) (y ∷ ys) (suc i) e h =
    get_or-zip_words f xs ys i (omega arith) (omega arith)

module _ (s o : BitSet) (v : IsValid s) (w : IsValid o) (same : s.size_bits ≡ o.size_bits) (i : ℕ)
    (h : i < s.size_bits) where
  in_range : i / 64 < length s.data_words
  in_range = omega (arith, v.count)

  lengths : length s.data_words ≡ length o.data_words
  lengths = v.count ∙ ap n_elems same ∙ sym w.count

  zipped :
      (f : ℕ → ℕ → ℕ)
      → get_or (zip_words f s.data_words o.data_words) (i / 64) 0
        ≡ f (get_or s.data_words (i / 64) 0) (get_or o.data_words (i / 64) 0)
  zipped f = get_or-zip_words f s.data_words o.data_words (i / 64) lengths in_range

  -- For two well formed bit sets of the same size (as many words as the size needs, each below 2^64)
  -- and an index below the size: the index is a member after operator*= exactly when it is in both,
  -- after operator+= exactly when it is in one of them, and after mul_not exactly when it is in the
  -- first and not in the second.
  pub test-operations :
      (test (mul_assign s o) i ≡ (test s i && test o i))
      × (test (add_assign s o) i ≡ (test s i || test o i))
      × (test (mul_not s o) i ≡ (test s i && not (test o i)))
  unfolding test mul_assign add_assign mul_not
  test-operations =
      let k = i % 64 in
      let a = get_or s.data_words (i / 64) 0 in
      let b = get_or o.data_words (i / 64) 0 in
      let flipped =
        bit_of-complement 64 k b (omega arith)
          (AreWords-get_or o.data_words (i / 64) w.all_words) in
      let conj = ap (λ n. bit_of k n) (zipped (λ x y. bit_and x y)) ∙ bit_of-and k a b in
      let disj = ap (λ n. bit_of k n) (zipped (λ x y. bit_or x y)) ∙ bit_of-or k a b in
      let diff =
        ap (λ n. bit_of k n) (zipped (λ x y. bit_and x (2 ^ 64 - 1 - y)))
        ∙ bit_of-and k a (2 ^ 64 - 1 - b) in
      (
        ap (λ n. n == 1) conj ∙ both (bit_of k a) (bit_of k b) (omega arith) (omega arith),
        ap (λ n. n == 1) disj ∙ either (bit_of k a) (bit_of k b) (omega arith) (omega arith),
        ap (λ n. n == 1) (diff ∙ ap (λ n. min (bit_of k a) n) flipped)
            ∙ without (bit_of k a) (bit_of k b) (omega arith) (omega arith),
      )
    where
      both : (x y : ℕ) → x < 2 → y < 2 → (min x y == 1) ≡ ((x == 1) && (y == 1))
      both x y hx hy = ground arith

      either : (x y : ℕ) → x < 2 → y < 2 → (max x y == 1) ≡ ((x == 1) || (y == 1))
      either x y hx hy = ground arith

      without : (x y : ℕ) → x < 2 → y < 2 → (min x (1 - y) == 1) ≡ ((x == 1) && not (y == 1))
      without x y hx hy = ground arith
