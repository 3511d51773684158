-- ===== src/ApInt/SpecialValues.antt =====
-- The numbers that `signed_min` and `all_ones` hold, and the test for all ones.
use foptim.Base.{
  ℕ, zero, suc, ◌+◌, ◌-◌, ◌*◌, ◌/◌, ◌%◌, ◌^◌, ◌≤◌, ◌<◌, ◌≡◌, refl, sym, ap, ap₂, ◌∙◌, subst, List,
  [], ◌∷◌, true, false, ◌==◌, arith, leb, Bool-cases, inl, inr, leb→le, length, get_or, set,
  length-set, replicate, length-replicate,
}
use foptim.Base.Powers.{pow-pos, pow-add, pow_mono, pow_double, pow-lt-pow_suc}
use foptim.Words.{value}
use foptim.Words.Value.{AreWords, capacity, capacity-pow, value-replicate, replicate-AreWords}
use foptim.Words.Fills.{set-value}
use foptim.ApInt.{ApInt, zeroed, words_for}
use foptim.ApInt.Cut.{IsValid, Is, words_for-div}
use foptim.ApInt.Views.{width-le}
use foptim.ApInt.Special.{set_bit, signed_min, ones_below, ones_of_words, popcount, is_all_ones}
use Prim.Native.Nat.{bit_or, bit_or-bitwise}

-- The ones in `k` bits are at most `k`, and `k` of them are all.
ones_below-full :
    (k w : ℕ) → w < 2 ^ k → (ones_below k w ≤ k) × ((ones_below k w == k) ≡ (w == 2 ^ k - 1))
unfolding ones_below
ones_below-full zero w h = (omega arith, ground arith)
ones_below-full (suc k) w h =
    let ih = ones_below-full k (w / 2) (omega (arith, pow_double k)) in
    let pos = pow-pos k in
    let double = pow_double k in
    elim (Bool-cases (w / 2 == 2 ^ k - 1)) [
      | inl e ↦
          let full : (ones_below k (w / 2) == k) ≡ true = ih.1 ∙ e in
          (omega (arith, ih.0), ground (arith, full, e, double, pos))
      | inr e ↦
          let less : (ones_below k (w / 2) == k) ≡ false = ih.1 ∙ e in
          (omega (arith, ih.0), ground (arith, less, e, double, pos, ih.0))
    ]

pub ones_below-zero : (n : ℕ) → ones_below n 0 ≡ 0
unfolding ones_below
ones_below-zero zero = refl
ones_below-zero (suc n) =
    let half : 0 / 2 ≡ 0 = omega arith in omega (arith, ap (ones_below n) half, ones_below-zero n)

pub ones_below_fields :
    (k n w v : ℕ) → w < 2 ^ k → ones_below (k + n) (w + 2 ^ k * v) ≡ ones_below k w + ones_below n v
unfolding ones_below
ones_below_fields zero n w v h =
    let low : w + 1 * v ≡ v = omega arith in
    let count : 0 + n ≡ n = omega arith in ap₂ ones_below count low ∙ omega arith
ones_below_fields (suc k) n w v h =
    let count : suc k + n ≡ suc (k + n) = omega arith in
    let m = w + 2 ^ suc k * v in
    let whole : m ≡ w + 2 * (2 ^ k * v) = omega (arith, ap (λ (t : ℕ). t * v) (pow_double k)) in
    let half : m / 2 ≡ w / 2 + 2 ^ k * v = omega (arith, whole) in
    let low : m % 2 ≡ w % 2 = omega (arith, whole) in
    ap (λ c. ones_below c m) count
    ∙ omega (
      arith,
      low,
      ap (ones_below (k + n)) half,
      ones_below_fields k n (w / 2) v (omega (arith, pow_double k)),
    )

ones_of_words-value :
    (ws : List ℕ) → AreWords ws → ones_of_words ws ≡ ones_below (64 * length ws) (value ws)
unfolding ones_of_words value
ones_of_words-value [] h = sym (ones_below-zero 0)
ones_of_words-value (w ∷ ws) h =
    let count : 64 * length (w ∷ ws) ≡ 64 + 64 * length ws = omega arith in
    ap (λ n. ones_below 64 w + n) (ones_of_words-value ws h.1)
    ∙ sym (ones_below_fields 64 (64 * length ws) w (value ws) h.0)
    ∙ ap (λ c. ones_below c (w + 2 ^ 64 * value ws)) (sym count)

pub popcount-value : (x : ApInt) → IsValid x → popcount x ≡ ones_below x.bits (value x.words)
unfolding popcount
popcount-value x v =
    let n = 64 * length x.words - x.bits in
    let covers = width-le x v in
    let count : 64 * length x.words ≡ x.bits + n = omega arith in
    let plain : value x.words ≡ value x.words + 2 ^ x.bits * 0 = omega arith in
    ones_of_words-value x.words v.shape.all_words
    ∙ ap₂ ones_below count plain
    ∙ ones_below_fields x.bits n (value x.words) 0 v.cut
    ∙ omega (arith, ones_below-zero n)

pub is_all_ones-exact : (x : ApInt) → IsValid x → is_all_ones x ≡ (value x.words == 2 ^ x.bits - 1)
unfolding is_all_ones
is_all_ones-exact x v =
    ap (λ n. n == x.bits) (popcount-value x v) ∙ (ones_below-full x.bits (value x.words) v.cut).1

-- One bit set in zeroed words.
set_zeros :
    (n i m : ℕ)
    → i < n
    → m < 2 ^ 64
    → let r = set (replicate n 0) i (bit_or (get_or (replicate n 0) i 0) m) in
      (value r ≡ capacity i * m) × AreWords r × (length r ≡ n)
set_zeros n i m h lt =
    let zeros : List ℕ = replicate n 0 in
    let none : get_or zeros i 0 ≡ 0 = get_or-replicate n i in
    let or_none : bit_or (get_or zeros i 0) m ≡ m =
      ap (λ k. bit_or k m) none ∙ bit_or-bitwise 0 m in
    let s =
      set-value zeros i m (replicate-AreWords n) (omega (arith, length-replicate {A = ℕ} n 0)) lt in
    rw or_none (
      omega (arith, s.0, ap (λ (k : ℕ). capacity i * k) none, value-replicate n),
      s.1,
      length-set zeros i m ∙ length-replicate n 0,
    )
  where
    get_or-replicate : (n i : ℕ) → get_or {A = ℕ} (replicate n 0) i 0 ≡ 0
    get_or-replicate zero i = refl
    get_or-replicate (suc n) zero = refl
    get_or-replicate (suc n) (suc i) = get_or-replicate n i

zeroed-words :
    (bits : ℕ) → 1 ≤ bits → bits + 63 < 2 ^ 32 → (zeroed bits).words ≡ replicate (words_for bits) 0
zeroed-words bits pos fits = elim (Bool-cases (leb bits 64)) [
  | inl narrow ↦
      let one : words_for bits ≡ 1 = omega (arith, words_for-div bits fits, leb→le _ _ narrow) in
      rw (narrow, one) refl
  | inr wide ↦ rw wide refl
]

pub signed_min-Is :
    (bits : ℕ) → 1 ≤ bits → bits + 63 < 2 ^ 32 → Is (signed_min bits) bits (2 ^ (bits - 1))
unfolding signed_min set_bit
signed_min-Is bits pos fits =
    let i = (bits - 1) / 64 in
    let k = (bits - 1) % 64 in
    let parts : bits - 1 ≡ 64 * i + k = omega arith in
    let m = pow_mono k 63 (omega arith) in
    let z =
      set_zeros (words_for bits) i (2 ^ k) (omega (arith, words_for-div bits fits))
        (omega (arith, m)) in
    let number : capacity i * 2 ^ k ≡ 2 ^ (bits - 1) =
      ap (λ c. c * 2 ^ k) (capacity-pow i)
      ∙ sym (pow-add (64 * i) k)
      ∙ ap (λ n. 2 ^ n) (sym parts) in
    let less : suc (bits - 1) ≡ bits = omega arith in
    rw (zeroed-words bits pos fits) record {
      width = refl;
      valid = record {
        shape = record { positive = pos; fits = fits; count = z.2; all_words = z.1 };
        cut =
            subst (λ n. n < 2 ^ bits) (sym (z.0 ∙ number))
              (subst (λ n. 2 ^ (bits - 1) < 2 ^ n) less (pow-lt-pow_suc (bits - 1)));
      };
      number = z.0 ∙ number;
    }
