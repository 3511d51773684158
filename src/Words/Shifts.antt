-- ===== src/Words/Shifts.antt =====
-- src/utils/APInt.cpp, `shl_n` and `shr_n`: shifts of a list of words. Each word of the result is
-- made of two neighbours, and its bits are those of the number, moved.
use foptim.Base.{
  ℕ, zero, suc, ◌+◌, ◌-◌, ◌*◌, ◌/◌, ◌%◌, ◌^◌, ◌≤◌, ◌<◌, ◌≡◌, refl, sym, ap, ap₂, ◌∙◌, List, [], ◌∷◌,
  arith, ltb, ◌==◌, if◌then◌else◌, true, false, Bool-cases, inl, inr, u64, length, get_or, max,
}
use foptim.Base.Powers.{pow-pos}
use foptim.Base.Digits.{
  bit_of, bit_of-zero, bit_of-or, bit_of-mul, bit_of-mul_low, bit_of-div, bit_of-mod, bit_of-above,
}
use foptim.Base.Bitwise.{op-bound, bit_or-IsBitwise}
use foptim.Words.{value}
use foptim.Words.Value.{AreWords}
use foptim.Words.Digits.{tabulate, tabulate-value, tabulate-AreWords, length-tabulate, word_bit}
use native.Mathlib.Nat.{mod-lt, div-le_self}
use Prim.Native.Nat.{bit_or}

-- `r[i]` of `shl_n`.
unfoldable pub shl_word : List ℕ → ℕ → ℕ → ℕ → ℕ
shl_word a ws bs i =
    if ltb i ws
    then 0
    else if bs == 0
    then u64 (get_or a (i - ws) 0 * 2 ^ bs)
    else if ltb ws i
    then bit_or (u64 (get_or a (i - ws) 0 * 2 ^ bs)) (get_or a (i - ws - 1) 0 / 2 ^ (64 - bs))
    else u64 (get_or a (i - ws) 0 * 2 ^ bs)

unfoldable pub shl_n : List ℕ → ℕ → ℕ → List ℕ
unfolding shl_word
shl_n a n amt = tabulate n (shl_word a (amt / 64) (amt % 64))

-- A word, and the fill above the last one.
unfoldable pub word_or_fill : List ℕ → ℕ → ℕ → ℕ → ℕ
word_or_fill a n fill i = if ltb i n then get_or a i 0 else fill

-- `r[i]` of `shr_n`.
unfoldable pub shr_word : List ℕ → ℕ → ℕ → ℕ → ℕ → ℕ → ℕ
unfolding word_or_fill
shr_word a n fill ws bs i =
    let lo = word_or_fill a n fill (i + ws) in
    let hi = word_or_fill a n fill (i + ws + 1) in
    if bs == 0 then lo else bit_or (lo / 2 ^ bs) (u64 (hi * 2 ^ (64 - bs)))

unfoldable pub shr_n : List ℕ → ℕ → ℕ → ℕ → List ℕ
unfolding shr_word
shr_n a n amt fill = tabulate n (shr_word a n fill (amt / 64) (amt % 64))

-- Bit `k` of the low part of a word that gets its bits from two neighbours, `bs` bits up.
pub left_bit :
    (w k bs : ℕ)
    → k < 64
    → bit_of k (u64 (w * 2 ^ bs)) ≡ (if ltb k bs then 0 else bit_of (k - bs) w)
left_bit w k bs lt = elim (Bool-cases (ltb k bs)) [
  | inl low ↦ rw low (bit_of-mod 64 k (w * 2 ^ bs) lt ∙ bit_of-mul_low bs k w (ground arith))
  | inr high ↦
      let index : k ≡ bs + (k - bs) = ground arith in
      rw high (
        bit_of-mod 64 k (w * 2 ^ bs) lt
        ∙ ap (λ n. bit_of n (w * 2 ^ bs)) index
        ∙ bit_of-mul bs (k - bs) w)
]

-- Bit `k` of a word shifted down by `64 - bs`.
carried_bit :
    (w k bs : ℕ)
    → w < 2 ^ 64
    → bs ≤ 64
    → bit_of k (w / 2 ^ (64 - bs)) ≡ (if ltb k bs then bit_of (k + 64 - bs) w else 0)
carried_bit w k bs hw h = elim (Bool-cases (ltb k bs)) [
  | inl low ↦
      let index : 64 - bs + k ≡ k + 64 - bs = ground arith in
      rw low (bit_of-div (64 - bs) k w ∙ ap (λ n. bit_of n w) index)
  | inr high ↦
      rw high (bit_of-div (64 - bs) k w ∙ bit_of-above 64 (64 - bs + k) w hw (ground arith))
]

pub get_or-lt : (ws : List ℕ) (i : ℕ) → AreWords ws → get_or ws i 0 < 2 ^ 64
get_or-lt [] i h = omega arith
get_or-lt (w ∷ ws) zero h = h.0
get_or-lt (w ∷ ws) (suc i) h = get_or-lt ws i h.1

module _ (a : List ℕ) (h : AreWords a) where
  -- A word read at bit `k` is the number read there.
  pub at_word : (i k t : ℕ) → k < 64 → t ≡ 64 * i + k → bit_of k (get_or a i 0) ≡ bit_of t (value a)
  at_word i k t lt e = sym (word_bit a i k h lt) ∙ ap (λ n. bit_of n (value a)) (sym e)

  shl_word-bit :
      (ws bs i k : ℕ)
      → bs < 64
      → k < 64
      → bit_of k (shl_word a ws bs i) ≡ (
          if ltb (64 * i + k) (64 * ws + bs)
          then 0
          else bit_of (64 * i + k - (64 * ws + bs)) (value a))
  unfolding shl_word
  shl_word-bit ws bs i k hb lt =
      let amt = 64 * ws + bs in
      let left = left_bit (get_or a (i - ws) 0) k bs lt in
      elim (Bool-cases (ltb i ws)) [
        | inl before ↦
            let low : ltb (64 * i + k) amt ≡ true = ground arith in rw (before, low) (bit_of-zero k)
        | inr after ↦ elim (Bool-cases (ltb k bs)) [
          | inl below ↦ elim (Bool-cases (ltb ws i)) [
            | inl inside ↦
                let some_bits : (bs == 0) ≡ false = ground arith in
                let inner : ltb (64 * i + k) amt ≡ false = ground arith in
                let carried =
                  carried_bit (get_or a (i - ws - 1) 0) k bs (get_or-lt a (i - ws - 1) h)
                    (omega arith) in
                rw (after, some_bits, inside, inner)
                  (bit_of-or k (u64 (get_or a (i - ws) 0 * 2 ^ bs))
                      (get_or a (i - ws - 1) 0 / 2 ^ (64 - bs))
                    ∙ ap₂ max left carried
                    ∙ rw below (
                        omega (
                          arith,
                          at_word (i - ws - 1) (k + 64 - bs) (64 * i + k - amt) (ground arith)
                              (ground arith),
                        )))
            | inr edge ↦
                let some_bits : (bs == 0) ≡ false = ground arith in
                let low : ltb (64 * i + k) amt ≡ true = ground arith in
                rw (after, some_bits, edge, low) (left ∙ rw below refl)
          ]
          | inr above ↦
              let inner : ltb (64 * i + k) amt ≡ false = ground arith in
              let here =
                at_word (i - ws) (k - bs) (64 * i + k - amt) (ground arith) (ground arith) in
              rw (after, inner)
                (elim (Bool-cases (bs == 0)) [
                  | inl none ↦ rw none (left ∙ rw above here)
                  | inr some_bits ↦ elim (Bool-cases (ltb ws i)) [
                    | inl inside ↦
                        let carried =
                          carried_bit (get_or a (i - ws - 1) 0) k bs (get_or-lt a (i - ws - 1) h)
                            (omega arith) in
                        rw (some_bits, inside)
                          (bit_of-or k (u64 (get_or a (i - ws) 0 * 2 ^ bs))
                              (get_or a (i - ws - 1) 0 / 2 ^ (64 - bs))
                            ∙ ap₂ max left carried
                            ∙ rw above (omega (arith, here)))
                    | inr edge ↦ rw (some_bits, edge) (left ∙ rw above here)
                  ]
                ])
        ]
      ]

shl_word-lt : (a : List ℕ) (ws bs i : ℕ) → AreWords a → shl_word a ws bs i < 2 ^ 64
unfolding shl_word
shl_word-lt a ws bs i h =
    let high : get_or a (i - ws) 0 * 2 ^ bs % 2 ^ 64 < 2 ^ 64 = omega arith in
    let low = div-le_self (get_or a (i - ws - 1) 0) (2 ^ (64 - bs)) in
    let both =
      op-bound bit_or max bit_or-IsBitwise 64 (u64 (get_or a (i - ws) 0 * 2 ^ bs))
        (get_or a (i - ws - 1) 0 / 2 ^ (64 - bs)) high
        (omega (arith, low, get_or-lt a (i - ws - 1) h)) in
    ground arith

-- A number shifted to the left.
bit_of-shifted : (m t a : ℕ) → bit_of t (a * 2 ^ m) ≡ (if ltb t m then 0 else bit_of (t - m) a)
bit_of-shifted m t a = elim (Bool-cases (ltb t m)) [
  | inl low ↦ rw low (bit_of-mul_low m t a (ground arith))
  | inr high ↦
      let index : t ≡ m + (t - m) = ground arith in
      rw high (ap (λ n. bit_of n (a * 2 ^ m)) index ∙ bit_of-mul m (t - m) a)
]

pub shl_n-value :
    (a : List ℕ) (n amt : ℕ) → AreWords a → value (shl_n a n amt) ≡ value a * 2 ^ amt % 2 ^ (64 * n)
unfolding shl_n
shl_n-value a n amt h =
    tabulate-value n (shl_word a (amt / 64) (amt % 64)) (value a * 2 ^ amt % 2 ^ (64 * n))
      (λ i. shl_word-lt a (amt / 64) (amt % 64) i h) (mod-lt (value a * 2 ^ amt) (pow-pos (64 * n)))
      (λ i k lt small.
        let split : 64 * (amt / 64) + amt % 64 ≡ amt = omega arith in
        shl_word-bit a h (amt / 64) (amt % 64) i k (omega arith) small
        ∙ ap (λ m. if ltb (64 * i + k) m then 0 else bit_of (64 * i + k - m) (value a)) split
        ∙ sym (bit_of-shifted amt (64 * i + k) (value a))
        ∙ sym (bit_of-mod (64 * n) (64 * i + k) (value a * 2 ^ amt) (omega arith)))

pub shl_n-AreWords : (a : List ℕ) (n amt : ℕ) → AreWords a → AreWords (shl_n a n amt)
unfolding shl_n
shl_n-AreWords a n amt h =
    tabulate-AreWords n (shl_word a (amt / 64) (amt % 64))
      (λ i. shl_word-lt a (amt / 64) (amt % 64) i h)

pub length-shl_n : (a : List ℕ) (n amt : ℕ) → length (shl_n a n amt) ≡ n
unfolding shl_n
length-shl_n a n amt = length-tabulate n (shl_word a (amt / 64) (amt % 64))
