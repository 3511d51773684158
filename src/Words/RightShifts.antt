-- ===== src/Words/RightShifts.antt =====
-- `shr_n` moves the bits down; what comes in from the top is the fill.
use foptim.Base.{
  ℕ, ◌+◌, ◌-◌, ◌*◌, ◌/◌, ◌%◌, ◌^◌, ◌<◌, ◌≡◌, sym, ap, ap₂, ◌∙◌, List, arith, ltb, ◌==◌,
  if◌then◌else◌, true, false, Bool-cases, inl, inr, u64, length, max,
}
use foptim.Base.Digits.{bit_of, bit_of-or, bit_of-div, bit_of-above}
use foptim.Base.Bitwise.{op-bound, bit_or-IsBitwise}
use foptim.Words.{value}
use foptim.Words.Value.{AreWords}
use foptim.Words.Digits.{tabulate-value, tabulate-AreWords, length-tabulate}
use foptim.Words.Shifts.{word_or_fill, shr_word, shr_n, left_bit, get_or-lt, at_word}
use native.Mathlib.Nat.{div-le_self}
use Prim.Native.Nat.{bit_or}

-- Bit `t` of `n` words, each bit above them `f`.
abbrev pub filled_bit : List ℕ → ℕ → ℕ → ℕ → ℕ
filled_bit a n f t = if ltb t (64 * n) then bit_of t (value a) else f

-- Every bit of the fill is `f`.
abbrev pub IsFill : ℕ → ℕ → Type 0
IsFill fill f = (fill < 2 ^ 64) × ((k : ℕ) → k < 64 → bit_of k fill ≡ f)

module _ (a : List ℕ) (h : AreWords a) (n fill f : ℕ) (is_fill : IsFill fill f) where
  word_or_fill-lt : (i : ℕ) → word_or_fill a n fill i < 2 ^ 64
  unfolding word_or_fill
  word_or_fill-lt i = elim (Bool-cases (ltb i n)) [
    | inl inside ↦ rw inside (get_or-lt a i h)
    | inr above ↦ rw above (is_fill.0)
  ]

  word_or_fill-bit :
      (i k t : ℕ)
      → k < 64
      → t ≡ 64 * i + k
      → bit_of k (word_or_fill a n fill i) ≡ filled_bit a n f t
  unfolding word_or_fill
  word_or_fill-bit i k t lt e = elim (Bool-cases (ltb i n)) [
    | inl inside ↦
        let below : ltb t (64 * n) ≡ true = ground arith in
        rw (inside, below) (at_word a h i k t lt e)
    | inr above ↦
        let out : ltb t (64 * n) ≡ false = ground arith in rw (above, out) (is_fill.1 k lt)
  ]

  shr_word-bit :
      (ws bs i k : ℕ)
      → bs < 64
      → k < 64
      → bit_of k (shr_word a n fill ws bs i) ≡ filled_bit a n f (64 * i + k + (64 * ws + bs))
  unfolding shr_word
  shr_word-bit ws bs i k hb lt =
      let t = 64 * i + k + (64 * ws + bs) in
      let lo = word_or_fill a n fill (i + ws) in
      let hi = word_or_fill a n fill (i + ws + 1) in
      elim (Bool-cases (bs == 0)) [
        | inl none ↦ rw none (word_or_fill-bit (i + ws) k t lt (ground arith))
        | inr some_bits ↦
            let split = bit_of-or k (lo / 2 ^ bs) (u64 (hi * 2 ^ (64 - bs))) in
            let right = bit_of-div bs k lo in
            let left = left_bit hi k (64 - bs) lt in
            rw some_bits (elim (Bool-cases (ltb k (64 - bs))) [
              | inl low ↦
                  let here = word_or_fill-bit (i + ws) (bs + k) t (ground arith) (ground arith) in
                  split ∙ ap₂ max (right ∙ here) left ∙ rw low (omega arith)
              | inr high ↦
                  let none =
                    bit_of-above 64 (bs + k) lo (word_or_fill-lt (i + ws)) (ground arith) in
                  let here =
                    word_or_fill-bit (i + ws + 1) (k - (64 - bs)) t (ground arith) (ground arith) in
                  split ∙ ap₂ max (right ∙ none) left ∙ rw high (omega (arith, here))
            ])
      ]

  shr_word-lt : (ws bs i : ℕ) → shr_word a n fill ws bs i < 2 ^ 64
  unfolding shr_word
  shr_word-lt ws bs i =
      let lo = word_or_fill a n fill (i + ws) in
      let hi = word_or_fill a n fill (i + ws + 1) in
      let small = word_or_fill-lt (i + ws) in
      let low = div-le_self lo (2 ^ bs) in
      let high : hi * 2 ^ (64 - bs) % 2 ^ 64 < 2 ^ 64 = omega arith in
      let both =
        op-bound bit_or max bit_or-IsBitwise 64 (lo / 2 ^ bs) (u64 (hi * 2 ^ (64 - bs)))
          (omega (arith, low, small)) high in
      ground arith

  -- Words whose bits are those of `m` above `amt`, the fill on top.
  pub shr_n-value :
      (amt m : ℕ)
      → m < 2 ^ (64 * n)
      → ((t : ℕ) → t < 64 * n → bit_of t m ≡ filled_bit a n f (t + amt))
      → value (shr_n a n amt fill) ≡ m
  unfolding shr_n
  shr_n-value amt m hm bits =
      tabulate-value n (shr_word a n fill (amt / 64) (amt % 64)) m
        (λ i. shr_word-lt (amt / 64) (amt % 64) i) hm
        (λ i k lt small.
          let split : 64 * (amt / 64) + amt % 64 ≡ amt = omega arith in
          shr_word-bit (amt / 64) (amt % 64) i k (omega arith) small
          ∙ ap (λ s. filled_bit a n f (64 * i + k + s)) split
          ∙ sym (bits (64 * i + k) (omega arith)))

  pub shr_n-AreWords : (amt : ℕ) → AreWords (shr_n a n amt fill)
  unfolding shr_n
  shr_n-AreWords amt =
      tabulate-AreWords n (shr_word a n fill (amt / 64) (amt % 64))
        (λ i. shr_word-lt (amt / 64) (amt % 64) i)

pub length-shr_n : (a : List ℕ) (n amt fill : ℕ) → length (shr_n a n amt fill) ≡ n
unfolding shr_n
length-shr_n a n amt fill = length-tabulate n (shr_word a n fill (amt / 64) (amt % 64))
