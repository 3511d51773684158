-- ===== src/Words/Digits.antt =====
-- The bits of a list of words are those of its number.
use foptim.Base.{
  ℕ, zero, suc, ◌+◌, ◌*◌, ◌/◌, ◌%◌, ◌^◌, ◌<◌, ◌≡◌, refl, sym, ap, ◌∙◌, subst, List, [], ◌∷◌, arith,
  length, get_or,
}
use foptim.Base.Digits.{bit_of, bit_of-zero, bit_of-mod, bit_of-div, bits_ext}
use foptim.Words.{value}
use foptim.Words.Value.{AreWords, capacity, capacity-pow, value-lt}

pub word_bit :
    (ws : List ℕ) (i k : ℕ)
    → AreWords ws
    → k < 64
    → bit_of (64 * i + k) (value ws) ≡ bit_of k (get_or ws i 0)
unfolding value
word_bit [] i k h lt = bit_of-zero (64 * i + k) ∙ sym (bit_of-zero k)
word_bit (w ∷ ws) zero k h lt =
    let low : (w + 2 ^ 64 * value ws) % 2 ^ 64 ≡ w = omega (arith, h.0) in
    let index : 64 * 0 + k ≡ k = omega arith in
    ap (λ n. bit_of n (w + 2 ^ 64 * value ws)) index
    ∙ sym (bit_of-mod 64 k (w + 2 ^ 64 * value ws) lt)
    ∙ ap (bit_of k) low
word_bit (w ∷ ws) (suc i) k h lt =
    let high : (w + 2 ^ 64 * value ws) / 2 ^ 64 ≡ value ws = omega (arith, h.0) in
    let index : 64 * suc i + k ≡ 64 + (64 * i + k) = omega arith in
    ap (λ n. bit_of n (w + 2 ^ 64 * value ws)) index
    ∙ sym (bit_of-div 64 (64 * i + k) (w + 2 ^ 64 * value ws))
    ∙ ap (bit_of (64 * i + k)) high
    ∙ word_bit ws i k h.1 lt

pub bit_of-value :
    (ws : List ℕ) (t : ℕ)
    → AreWords ws
    → bit_of t (value ws) ≡ bit_of (t % 64) (get_or ws (t / 64) 0)
bit_of-value ws t h =
    let index : t ≡ 64 * (t / 64) + t % 64 = omega arith in
    ap (λ n. bit_of n (value ws)) index ∙ word_bit ws (t / 64) (t % 64) h (omega arith)

-- The list `f 0, …, f (n - 1)`: what a loop writes at each index.
abbrev pub tabulate : ℕ → (ℕ → ℕ) → List ℕ
tabulate zero f = []
tabulate (suc n) f = f 0 ∷ tabulate n (λ i. f (suc i))

pub length-tabulate : (n : ℕ) (f : ℕ → ℕ) → length (tabulate n f) ≡ n
length-tabulate zero f = refl
length-tabulate (suc n) f = ap suc (length-tabulate n (λ i. f (suc i)))

get_or-tabulate : (n : ℕ) (f : ℕ → ℕ) (i : ℕ) → i < n → get_or (tabulate n f) i 0 ≡ f i
get_or-tabulate zero f i h = absurd (omega arith)
get_or-tabulate (suc n) f zero h = refl
get_or-tabulate (suc n) f (suc i) h = get_or-tabulate n (λ j. f (suc j)) i (omega arith)

pub tabulate-AreWords : (n : ℕ) (f : ℕ → ℕ) → ((i : ℕ) → f i < 2 ^ 64) → AreWords (tabulate n f)
tabulate-AreWords zero f h = tt
tabulate-AreWords (suc n) f h = (h 0, tabulate-AreWords n (λ i. f (suc i)) (λ i. h (suc i)))

-- Words whose bits are those of `m` make up `m`.
pub tabulate-value :
    (n : ℕ) (f : ℕ → ℕ) (m : ℕ)
    → ((i : ℕ) → f i < 2 ^ 64)
    → m < 2 ^ (64 * n)
    → ((i k : ℕ) → i < n → k < 64 → bit_of k (f i) ≡ bit_of (64 * i + k) m)
    → value (tabulate n f) ≡ m
tabulate-value n f m hf hm h =
    let ws = tabulate n f in
    let all = tabulate-AreWords n f hf in
    bits_ext (64 * n) (value ws) m
      (subst (λ c. value ws < c) (ap capacity (length-tabulate n f) ∙ capacity-pow n)
        (value-lt ws all))
      hm
      (λ t lt.
        let index : 64 * (t / 64) + t % 64 ≡ t = omega arith in
        bit_of-value ws t all
        ∙ ap (bit_of (t % 64)) (get_or-tabulate n f (t / 64) (omega arith))
        ∙ h (t / 64) (t % 64) (omega arith) (omega arith)
        ∙ ap (λ k. bit_of k m) index)
