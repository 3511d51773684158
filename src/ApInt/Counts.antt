-- ===== src/ApInt/Counts.antt =====
-- What `clz`, `ctz`, `active_bits` and `is_pow2` say of the number, and when a product overflows.
use foptim.Base.{
  ℕ, zero, suc, ◌+◌, ◌-◌, ◌*◌, ◌/◌, ◌^◌, ◌≤◌, ◌<◌, ◌≡◌, refl, sym, ap, ap₂, ◌∙◌, subst, List, [],
  ◌∷◌, true, not, ltb, ◌==◌, Bool-cases, inl, inr, ==_iff, arith, length, get_or, take, dec_lt,
}
use foptim.Base.Powers.{pow-pos, pow-add, pow_mono, pow_double}
use foptim.Base.Multiples.{IsMultiple, mul-IsMultiple, add-IsMultiple, smaller-IsMultiple}
use foptim.Base.Bits.{
  countl_zero, countl_zero-bit_width, countr_zero, bit_width, bit_width_upper, bit_width_lower,
  bit_width-le, countr_zero_divides, countr_zero-le,
}
use foptim.Words.{value}
use foptim.Words.Value.{AreWords}
use foptim.ApInt.{ApInt, num_words}
use foptim.ApInt.Cut.{IsValid}
use foptim.ApInt.Views.{width-le}
use foptim.ApInt.Special.{popcount, ones_below}
use foptim.ApInt.SpecialValues.{popcount-value, ones_below_fields, ones_below-zero}
use native.Mathlib.Nat.{mul-le-mul_left, div-eq_of_lt, le-div_iff_mul-le}
use foptim.ApInt.ZeroCounts.{clz_from, clz, ctz_from, ctz, active_bits, is_pow2, log2}

-- `s` is the number of bits of `v`.
pub record Spans (s v : ℕ) : Type 0 where
  pub above : v < 2 ^ s
  pub below : 2 ^ s ≤ 2 * v + 1

pub Spans-le : {s v : ℕ} (w : ℕ) → Spans s v → v < 2 ^ w → s ≤ w
Spans-le {s} {v} w h lt = elim (dec_lt w s) [
  | yes p ↦ absurd (omega (arith, h.below, pow_mono (suc w) s p, pow_double w))
  | no p ↦ omega arith
]

word_at : (ws : List ℕ) (i : ℕ) → AreWords ws → get_or ws i 0 < 2 ^ 64
word_at [] i h = omega arith
word_at (w ∷ ws) zero h = h.0
word_at (w ∷ ws) (suc i) h = word_at ws i h.1

take-AreWords : (i : ℕ) (ws : List ℕ) → AreWords ws → value (take i ws) < 2 ^ (64 * i)
unfolding value
take-AreWords zero ws h = omega arith
take-AreWords (suc i) [] h = omega (arith, pow-pos (64 * suc i))
take-AreWords (suc i) (w ∷ ws) h =
    let count : 64 * suc i ≡ 64 + 64 * i = omega arith in
    let p : 2 ^ (64 * suc i) ≡ 2 ^ 64 * 2 ^ (64 * i) =
      ap (λ n. 2 ^ n) count ∙ pow-add 64 (64 * i) in
    omega (arith, p, h.0, take-AreWords i ws h.1)

value_next :
    (i : ℕ) (ws : List ℕ)
    → value (take (suc i) ws) ≡ value (take i ws) + 2 ^ (64 * i) * get_or ws i 0
unfolding value
value_next zero [] = omega arith
value_next (suc i) [] = omega arith
value_next zero (w ∷ ws) = omega arith
value_next (suc i) (w ∷ ws) =
    let count : 64 * suc i ≡ 64 + 64 * i = omega arith in
    let p : 2 ^ (64 * suc i) ≡ 2 ^ 64 * 2 ^ (64 * i) =
      ap (λ n. 2 ^ n) count ∙ pow-add 64 (64 * i) in
    let g = get_or ws i 0 in omega (arith, value_next i ws, ap (λ (t : ℕ). t * g) p)

take_all : (ws : List ℕ) → take (length ws) ws ≡ ws
take_all [] = refl
take_all (w ∷ ws) = ap (λ l. w ∷ l) (take_all ws)

-- The highest word that is not zero.
word-Spans :
    (low d i : ℕ)
    → low < 2 ^ (64 * i)
    → 0 < d
    → d < 2 ^ 64
    → Spans (64 * i + bit_width d) (low + 2 ^ (64 * i) * d)
word-Spans low d i h pos lt =
    let p = 2 ^ (64 * i) in
    let b = 2 ^ bit_width d in
    let whole : 2 ^ (64 * i + bit_width d) ≡ p * b = pow-add (64 * i) (bit_width d) in
    let up : p * suc d ≤ p * b = mul-le-mul_left p (bit_width_upper d (omega (arith, lt))) in
    let down : p * b ≤ p * (2 * d) = mul-le-mul_left p (bit_width_lower d pos) in
    record { above = omega (arith, whole, up); below = omega (arith, whole, down) }

clz_from-Spans :
    (bits : ℕ) (ws : List ℕ) (n i c : ℕ)
    → AreWords ws
    → value ws < 2 ^ bits
    → bits ≤ 64 * n
    → c + 64 * i ≡ 64 * n
    → value (take i ws) ≡ value ws
    → (clz_from bits ws n i c ≤ bits) × Spans (bits - clz_from bits ws n i c) (value ws)
unfolding clz_from value
clz_from-Spans bits ws n zero c h lt le count top =
    let none : bits - bits ≡ 0 = omega arith in
    (omega arith, rw none (record { above = omega (arith, top); below = omega arith }))
clz_from-Spans bits ws n (suc i) c h lt le count top =
    let d = get_or ws i 0 in
    let split : value (take i ws) + 2 ^ (64 * i) * d ≡ value ws = sym (value_next i ws) ∙ top in
    elim (Bool-cases (d == 0)) [
      | inl e ↦
          let none : d ≡ 0 = (==_iff d 0).0 e in
          rw e (
            clz_from-Spans bits ws n i (c + 64) h lt le (omega arith)
              (omega (arith, split, ap (λ (t : ℕ). 2 ^ (64 * i) * t) none)))
      | inr e ↦
          let pos : 0 < d = ground (arith, e) in
          let s = 64 * i + bit_width d in
          let spans =
            subst (Spans s) split
              (word-Spans (value (take i ws)) d i (take-AreWords i ws h) pos (word_at ws i h)) in
          let fits = Spans-le bits spans lt in
          let narrow = bit_width-le d 64 (word_at ws i h) in
          let rest : bits - (c + countl_zero d - (n * 64 - bits)) ≡ s =
            omega (arith, fits, narrow, countl_zero-bit_width d) in
          rw e (omega (arith, fits, narrow, countl_zero-bit_width d), rw rest spans)
    ]

ones_below-none : (k w : ℕ) → w < 2 ^ k → ones_below k w ≡ 0 → w ≡ 0
unfolding ones_below
ones_below-none zero w h e = omega arith
ones_below-none (suc k) w h e =
    let ih = ones_below-none k (w / 2) (omega (arith, pow_double k)) (omega (arith, e)) in
    omega (arith, ih, e)

-- A number with one bit, the highest.
single :
    (s n bits : ℕ)
    → Spans s n
    → s ≤ bits
    → ones_below bits n ≡ 1
    → (n ≡ 2 ^ (s - 1)) × (s - 1 < bits)
unfolding ones_below
single zero n bits h le one =
    let none : n ≡ 0 = omega (arith, h.above) in
    absurd (omega (arith, ones_below-zero bits, ap (ones_below bits) none))
single (suc j) n bits h le one =
    let p = 2 ^ j in
    let less : suc j - 1 ≡ j = omega arith in
    let low : n - p < p = omega (arith, h.above, h.below, pow_double j) in
    let whole : n ≡ (n - p) + p * 1 = omega (arith, h.below, pow_double j) in
    let width : bits ≡ j + suc (bits - suc j) = omega arith in
    let high : ones_below (suc (bits - suc j)) 1 ≡ 1 =
      let half : 1 / 2 ≡ 0 = omega arith in
      omega (arith, ap (ones_below (bits - suc j)) half, ones_below-zero (bits - suc j)) in
    let sum = ap₂ ones_below width whole ∙ ones_below_fields j (suc (bits - suc j)) (n - p) 1 low in
    let rest = ones_below-none j (n - p) low (omega (arith, one, sum, high)) in
    rw less (omega (arith, rest, whole), omega arith)

ctz_from-IsMultiple :
    (bits i : ℕ) (ws : List ℕ) → IsMultiple (ctz_from bits i ws) (2 ^ (64 * i) * value ws)
unfolding ctz_from value
ctz_from-IsMultiple bits i [] = (0, omega arith)
ctz_from-IsMultiple bits i (w ∷ ws) = elim (Bool-cases (w == 0)) [
  | inl e ↦
      let none : w ≡ 0 = (==_iff w 0).0 e in
      let count : 64 * suc i ≡ 64 + 64 * i = omega arith in
      let p : 2 ^ (64 * suc i) ≡ 2 ^ 64 * 2 ^ (64 * i) =
        ap (λ n. 2 ^ n) count ∙ pow-add 64 (64 * i) in
      let n = value ws in
      let up : 2 ^ (64 * suc i) * n ≡ 2 ^ (64 * i) * (w + 2 ^ 64 * n) =
        ap (λ (t : ℕ). t * n) p ∙ omega (arith, ap (λ (t : ℕ). 2 ^ (64 * i) * t) none) in
      rw e (subst (IsMultiple (ctz_from bits (suc i) ws)) up (ctz_from-IsMultiple bits (suc i) ws))
  | inr e ↦
      let c = countr_zero w in
      let count : 64 * i + c ≡ i * 64 + c = omega arith in
      rw (e, ← count)
        (mul-IsMultiple (64 * i) c (2 ^ (64 * i)) (w + 2 ^ 64 * value ws) (1, omega arith)
          (add-IsMultiple c w (2 ^ 64 * value ws) (w / 2 ^ c, sym (countr_zero_divides w))
            (smaller-IsMultiple c 64 (2 ^ 64 * value ws) (countr_zero-le w) (value ws, refl))))
]

module _ (x : ApInt) (v : IsValid x) where
  clz-Spans : (clz x ≤ x.bits) × Spans (x.bits - clz x) (value x.words)
  unfolding clz
  clz-Spans =
      let count : length x.words ≡ num_words x = v.shape.count in
      clz_from-Spans x.bits x.words (num_words x) (num_words x) 0 v.shape.all_words v.cut
        (omega (arith, width-le x v, count)) (omega arith)
        (ap (λ n. value (take n x.words)) (sym count) ∙ ap value (take_all x.words))

  -- For a well formed integer that stands for n, with s = active_bits, n is below 2^s and 2^s is at
  -- most 2n + 1: s is the number of bits up to the highest one, and 0 for zero.
  pub active_bits-Spans : Spans (active_bits x) (value x.words)
  unfolding active_bits
  active_bits-Spans = clz-Spans.1

  pub active_bits-le : active_bits x ≤ x.bits
  active_bits-le = Spans-le x.bits active_bits-Spans v.cut

  -- Of a power of two only the highest bit is set.
  pub is_pow2-exact : is_pow2 x ≡ true → (value x.words ≡ 2 ^ log2 x) × (log2 x < x.bits)
  unfolding is_pow2
  is_pow2-exact h =
      let n = value x.words in
      let spans = active_bits-Spans in
      let one : ones_below x.bits n ≡ 1 = sym (popcount-value x v) ∙ (==_iff (popcount x) 1).0 h in
      single (active_bits x) n x.bits spans active_bits-le one

  pub ctz-IsMultiple : IsMultiple (ctz x) (value x.words)
  unfolding ctz
  ctz-IsMultiple = let (q, e) = ctz_from-IsMultiple x.bits 0 x.words in (q, omega (arith, e))

pub bits-active_bits :
    (x : ApInt) → IsValid x → (w : ℕ) → ltb w (active_bits x) ≡ not (value x.words / 2 ^ w == 0)
bits-active_bits x v w =
    let spans = active_bits-Spans x v in
    let n = value x.words in
    elim (dec_lt w (active_bits x)) [
      | yes p ↦
          let big : 2 ^ w ≤ n =
            omega
              (arith, spans.below, pow_mono (suc w) (active_bits x) p, pow_double w, pow-pos w) in
          let some_left : 1 ≤ n / 2 ^ w = (le-div_iff_mul-le (pow-pos w)).1 (omega (arith, big)) in
          ground (arith, p, some_left)
      | no p ↦
          let none : n / 2 ^ w ≡ 0 =
            div-eq_of_lt
              (omega (arith, spans.above, pow_mono (active_bits x) w (omega (arith, p)))) in
          ground (arith, p, none)
    ]
