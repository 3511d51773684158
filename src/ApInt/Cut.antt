-- ===== src/ApInt/Cut.antt =====
-- What keeps an `ApInt` well formed: unused high bits are zero. `clear_unused` and the
-- constructors cut a number to the width.
use foptim.Base.{
  ℕ, zero, suc, ◌+◌, ◌-◌, ◌*◌, ◌/◌, ◌%◌, ◌^◌, ◌≤◌, ◌<◌, ◌≡◌, ◌≢◌, refl, sym, ap, ap₂, ◌∙◌, subst,
  List, [], ◌∷◌, false, arith, ◌==◌, Bool-cases, inl, inr, length, get_or, set, length-set, ==_iff,
}
use foptim.Base.Powers.{pow-add, pow-pos, pow_mono}
use foptim.Base.BitLaws.{low_mask, mod_split, ones_shifted}
use foptim.Words.{value}
use foptim.Words.Value.{AreWords, capacity, capacity_pos, capacity-pow, value-lt}
use foptim.ApInt.{ApInt, words_for, mask64, clear_unused}
use native.Mathlib.Nat.{mod-eq_of_lt, mod-lt, mul-pos}
use Prim.Native.Nat.{bit_and}

-- Room for the words: the width, rounded up to words, fits a `u32`.
pub record HasShape (bits : ℕ) (words : List ℕ) : Type 0 where
  pub positive : 1 ≤ bits
  pub fits : bits + 63 < 2 ^ 32
  pub count : length words ≡ words_for bits
  pub all_words : AreWords words

pub record IsValid (x : ApInt) : Type 0 where
  pub shape : HasShape x.bits x.words
  pub cut : value x.words < 2 ^ x.bits

-- The value of `x` after an operation: well formed, of the width, and the number `v`.
pub record Is (x : ApInt) (bits v : ℕ) : Type 0 where
  pub width : x.bits ≡ bits
  pub valid : IsValid x
  pub number : value x.words ≡ v

pub and-mask64 : (k a : ℕ) → k ≤ 64 → bit_and a (mask64 k) ≡ a % 2 ^ k
and-mask64 k a h = ap (λ m. bit_and a m) (ones_shifted 64 k h) ∙ low_mask k a

-- Masking the last of `n + 1` words cuts the number.
mask_last-value :
    (n k : ℕ) (ws : List ℕ)
    → AreWords ws
    → length ws ≡ suc n
    → k ≤ 64
    → let r = set ws n (bit_and (get_or ws n 0) (mask64 k)) in
      (value r ≡ value ws % (capacity n * 2 ^ k)) × AreWords r
unfolding value
mask_last-value n k [] hw e hk = absurd (omega arith)
mask_last-value zero k (w ∷ []) hw e hk =
    let low = and-mask64 k w hk in
    let bound = mod-lt w (pow-pos k) in
    let whole : w % 2 ^ k ≡ (w + 2 ^ 64 * 0) % (1 * 2 ^ k) =
      ap₂ (λ a b. a % b) (omega arith) (omega arith) in
    let top = pow_mono k 64 hk in (omega (arith, low, whole), (omega (arith, low, bound, top), tt))
mask_last-value zero k (w ∷ v ∷ ws) hw e hk = absurd (omega arith)
mask_last-value (suc n) k (w ∷ ws) hw e hk =
    let ih = mask_last-value n k ws hw.1 (omega arith) hk in
    let m = capacity n * 2 ^ k in
    let assoc : 2 ^ 64 * capacity n * 2 ^ k ≡ 2 ^ 64 * m = omega arith in
    (
      ap (λ v. w + 2 ^ 64 * v) ih.0
          ∙ sym (mod_split (2 ^ 64) m w (value ws) hw.0 (mul-pos (capacity_pos n) (pow-pos k)))
          ∙ ap (λ t. (w + 2 ^ 64 * value ws) % t) (sym assoc),
      (hw.0, ih.1),
    )

-- `bits & 63`.
rem_bits : (bits : ℕ) → bit_and bits 63 ≡ bits % 64
rem_bits bits = low_mask 6 bits

-- The width is that of the full words and the bits of the last one.
full_words : (n bits : ℕ) → bits ≡ 64 * n + bits % 64 → capacity n * 2 ^ (bits % 64) ≡ 2 ^ bits
full_words n bits h =
    ap (λ t. t * 2 ^ (bits % 64)) (capacity-pow n)
    ∙ sym (pow-add (64 * n) (bits % 64))
    ∙ ap (λ t. 2 ^ t) (sym h)

pub words_for-div : (bits : ℕ) → bits + 63 < 2 ^ 32 → words_for bits ≡ (bits + 63) / 64
words_for-div bits h = omega arith

-- The two ways in which the words cover the width.
whole_words-Is :
    (x : ApInt)
    → HasShape x.bits x.words
    → x.bits % 64 ≡ 0
    → Is x x.bits (value x.words % 2 ^ x.bits)
whole_words-Is x h none =
    let n : ℕ = x.bits / 64 in
    let count : length x.words ≡ n = omega (arith, h.count, words_for-div x.bits h.fits) in
    let full = full_words n x.bits (omega arith) in
    let bound : value x.words < 2 ^ x.bits = omega (
      arith,
      subst (λ k. value x.words < capacity k) count (value-lt x.words h.all_words),
      full,
      ap (λ k. capacity n * 2 ^ k) none,
    ) in
    record {
      width = refl;
      valid = record { shape = h; cut = bound };
      number = sym (mod-eq_of_lt bound);
    }

last_word-Is :
    (x : ApInt)
    → HasShape x.bits x.words
    → x.bits % 64 ≢ 0
    → (k last : ℕ) → k ≡ x.bits % 64
    → last ≡ words_for x.bits - 1
    → Is
        (record x { words = set x.words last (bit_and (get_or x.words last 0) (mask64 k)) })
        x.bits
        (value x.words % 2 ^ x.bits)
last_word-Is x h some_bits k last ek el =
    let count : length x.words ≡ suc last =
      omega (arith, h.count, h.positive, words_for-div x.bits h.fits) in
    let full = full_words last x.bits (omega (arith, h.positive, words_for-div x.bits h.fits)) in
    let m = mask_last-value last k x.words h.all_words count (omega arith) in
    let number = m.0 ∙ ap (λ t. value x.words % t) (ap (λ t. capacity last * 2 ^ t) ek ∙ full) in
    record {
      width = refl;
      valid = record {
        shape = record {
          positive = h.positive;
          fits = h.fits;
          count = length-set x.words last _ ∙ h.count;
          all_words = m.1;
        };
        cut = subst (λ v. v < 2 ^ x.bits) (sym number) (mod-lt (value x.words) (pow-pos x.bits));
      };
      number = number;
    }

-- The cut to the width: the number modulo `2 ^ bits`, with the unused bits zero.
pub clear_unused-Is :
    (x : ApInt) → HasShape x.bits x.words → Is (clear_unused x) x.bits (value x.words % 2 ^ x.bits)
unfolding clear_unused
clear_unused-Is x h = elim (Bool-cases (bit_and x.bits 63 == 0)) [
  | inl whole ↦
      rw whole (whole_words-Is x h (sym (rem_bits x.bits) ∙ (==_iff (bit_and x.bits 63) 0).0 whole))
  | inr part ↦ rw part (
      last_word-Is x h (λ e. ne_of_test part (rem_bits x.bits ∙ e)) (bit_and x.bits 63)
        (words_for x.bits - 1) (rem_bits x.bits) refl)
]
  where
    ne_of_test : {a : ℕ} → (a == 0) ≡ false → a ≢ 0
    ne_of_test h e = ground arith
