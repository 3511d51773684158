-- ===== src/BitSet/Fields.antt =====
-- `BitSet::set` and `BitSet::get` of a field of `width` bits.
use foptim.Base.{
  ℕ, zero, suc, ◌+◌, ◌-◌, ◌*◌, ◌/◌, ◌%◌, ◌^◌, ◌≤◌, ◌<◌, ◌≡◌, ◌≢◌, ◌⊎◌, inl, inr, refl, sym, ap, ◌∙◌,
  arith, List, [], ◌∷◌, Bool, true, false, ◌==◌, if◌then◌else◌, get_or, set, length-set, ℕ_discrete,
  u64,
}
use foptim.Base.Powers.{pow_mono, pow_double, pow-pos}
use foptim.Base.BitLaws.{bit_or_low, bit_or_fields}
use foptim.Base.Bitwise.{op-bound, bit_or-IsBitwise, bit_and-IsBitwise}
use foptim.Base.Digits.{bit_of, bit_of-mod}
use foptim.Words.Value.{AreWords}
use foptim.BitSet.{BitSet, test, set_word, set_bit, set_field, get_field}
use foptim.BitSet.Pointwise.{IsValid, AreWords-get_or}
use foptim.BitSet.Members.{test-set_bit}
use Prim.Native.Nat.{bit_or}
use native.Mathlib.Nat.{div-div-eq-div-mul, div-eq_of_lt, div-le_self, mod-eq_of_lt, mod-lt}

set_word-lt : (w k : ℕ) (v : Bool) → w < 2 ^ 64 → k < 64 → set_word w k v < 2 ^ 64
unfolding set_word
set_word-lt w k true h lt =
    op-bound _ _ bit_or-IsBitwise 64 w (2 ^ k) h
      (omega (arith, pow_mono (suc k) 64 (omega arith), pow_double k, pow-pos k))
set_word-lt w k false h lt =
    op-bound _ _ bit_and-IsBitwise 64 w (2 ^ 64 - 1 - 2 ^ k) h (omega (arith))

set-AreWords : (ws : List ℕ) (i w : ℕ) → AreWords ws → w < 2 ^ 64 → AreWords (set ws i w)
set-AreWords [] i w h lt = tt
set-AreWords (x ∷ ws) zero w h lt = (lt, h.1)
set-AreWords (x ∷ ws) (suc i) w h lt = (h.0, set-AreWords ws i w h.1 lt)

set_bit-IsValid : (s : BitSet) (i : ℕ) (v : Bool) → IsValid s → IsValid (set_bit s i v)
unfolding set_bit
set_bit-IsValid s i v h =
    let old = get_or s.data_words (i / 64) 0 in
    record {
      count = length-set s.data_words (i / 64) (set_word old (i % 64) v) ∙ h.count;
      all_words = set-AreWords s.data_words (i / 64) (set_word old (i % 64) v) h.all_words (
          set_word-lt old (i % 64) v (AreWords-get_or s.data_words (i / 64) h.all_words)
            (omega arith));
    }

set_bit-size : (s : BitSet) (i : ℕ) (v : Bool) → (set_bit s i v).size_bits ≡ s.size_bits
unfolding set_bit
set_bit-size s i v = refl

-- The bits from the `i`th to the last one of the field are those of the value; no other changed.
record Wrote (s t : BitSet) (indx i rest value : ℕ) : Type 0 where
  valid : IsValid t
  size : t.size_bits ≡ s.size_bits
  inside : (j : ℕ) → i ≤ j → j < i + rest → test t (indx + j) ≡ (bit_of j value == 1)
  outside : (p : ℕ) → (p < indx + i) ⊎ (indx + i + rest ≤ p) → test t p ≡ test s p

-- One bit, and then the later ones.
Wrote-suc :
    (s t : BitSet) (indx i rest value : ℕ)
    → IsValid s
    → indx + i < s.size_bits
    → Wrote (set_bit s (indx + i) (bit_of i value == 1)) t indx (suc i) rest value
    → Wrote s t indx i (suc rest) value
Wrote-suc s t indx i rest value v h later =
    let bit = bit_of i value == 1 in
    let one = test-set_bit s v (indx + i) h bit in
    record {
      valid = later.valid;
      size = later.size ∙ set_bit-size s (indx + i) bit;
      inside = λ j a b. elim (ℕ_discrete j i) [
        | yes here ↦
            ap (λ k. test t (indx + k)) here
            ∙ later.outside (indx + i) (inl (omega arith))
            ∙ one.0
            ∙ ap (λ k. bit_of k value == 1) (sym here)
        | no away ↦ later.inside j (omega arith) (omega arith)
      ];
      outside = λ p q. later.outside p (further p q) ∙ one.1 p (other p q);
    }
  where
    further :
        (p : ℕ)
        → (p < indx + i) ⊎ (indx + i + suc rest ≤ p)
        → (p < indx + suc i) ⊎ (indx + suc i + rest ≤ p)
    further p (inl below) = inl (omega arith)
    further p (inr above) = inr (omega arith)

    other : (p : ℕ) → (p < indx + i) ⊎ (indx + i + suc rest ≤ p) → p ≢ indx + i
    other p (inl below) e = omega arith
    other p (inr above) e = omega arith

set_field-Wrote :
    (rest i : ℕ) (s : BitSet) (indx value : ℕ)
    → IsValid s
    → indx + i + rest ≤ s.size_bits
    → Wrote s (set_field i rest s indx value) indx i rest value
unfolding set_field
set_field-Wrote zero i s indx value v h = record {
  valid = v;
  size = refl;
  inside = λ j a b. absurd (omega arith);
  outside = λ p q. refl;
}
set_field-Wrote (suc rest) i s indx value v h =
    let bit = bit_of i value == 1 in
    let next = set_bit s (indx + i) bit in
    Wrote-suc s (set_field (suc i) rest next indx value) indx i rest value v (omega arith) (
      set_field-Wrote rest (suc i) next indx value (set_bit-IsValid s (indx + i) bit v)
        (omega (arith, set_bit-size s (indx + i) bit)))

-- A bit below the others.
shift_in : (a b : ℕ) → a < 2 ^ 63 → b < 2 → bit_or (u64 (a * 2)) b ≡ a * 2 + b
shift_in a b h lt =
    let cut : u64 (a * 2) ≡ a * 2 = mod-eq_of_lt (omega arith) in
    let half_a : a * 2 / 2 ≡ a = omega arith in
    let half_b : b / 2 ≡ 0 = omega arith in
    let none : bit_or a 0 ≡ a = omega (arith, bit_or_fields 63 a 0 h) in
    ap (λ n. bit_or n b) cut
    ∙ omega (
      arith,
      bit_or_low (a * 2) b,
      ap (λ n. bit_or n (b / 2)) half_a,
      ap (λ n. bit_or a n) half_b,
      none,
    )

-- The bits of a value, read from the highest down.
get_field-value :
    (n : ℕ) (s : BitSet) (indx value : ℕ)
    → value < 2 ^ 64
    → ((j : ℕ) → j < n → test s (indx + j) ≡ (bit_of j value == 1))
    → get_field n s indx (value / 2 ^ n) ≡ value
unfolding get_field
get_field-value zero s indx value h same = omega arith
get_field-value (suc n) s indx value h same =
    let high = value / 2 ^ suc n in
    let half : high ≡ value / 2 ^ n / 2 =
      ap (λ k. value / k) (pow_double n ∙ omega arith) ∙ sym (div-div-eq-div-mul value (2 ^ n) 2) in
    let small : value / 2 ^ n < 2 ^ 64 = omega (arith, div-le_self value (2 ^ n)) in
    let step : bit_or (u64 (high * 2)) (if bit_of n value == 1 then 1 else 0) ≡ value / 2 ^ n =
      ap (λ b. bit_or (u64 (high * 2)) b) (digit (bit_of n value) (omega arith))
      ∙ shift_in high (bit_of n value) (omega (arith, half, small)) (omega arith)
      ∙ omega (arith, half) in
    rw (same n (omega arith), step)
      (get_field-value n s indx value h (λ j lt. same j (omega arith)))
  where
    digit : (b : ℕ) → b < 2 → (if b == 1 then 1 else 0) ≡ b
    digit zero lt = refl
    digit (suc zero) lt = refl
    digit (suc (suc b)) lt = absurd (omega arith)

-- For a well formed bit set, a width of at most 64, and a field of that width that ends within the
-- size: get of the field after set of it to a value gives the value modulo 2^width, and every index
-- before or after the field is a member exactly when it was, also where the field crosses the end of
-- a word.
pub get_field-set_field :
    (s : BitSet) (indx width value : ℕ)
    → IsValid s
    → width ≤ 64
    → indx + width ≤ s.size_bits
    → (get_field width (set_field 0 width s indx value) indx 0 ≡ value % 2 ^ width)
      × ((p : ℕ)
          → (p < indx) ⊎ (indx + width ≤ p)
          → test (set_field 0 width s indx value) p ≡ test s p)
get_field-set_field s indx width value v narrow h =
    let t = set_field 0 width s indx value in
    let cut = value % 2 ^ width in
    let lt : cut < 2 ^ width = mod-lt value (pow-pos width) in
    let wrote = set_field-Wrote width 0 s indx value v (omega arith) in
    let read =
      get_field-value width t indx cut (omega (arith, lt, pow_mono width 64 narrow)) (λ j below.
        wrote.inside j (omega arith) (omega arith)
        ∙ ap (λ b. b == 1) (sym (bit_of-mod width j value below))) in
    (
      ap (get_field width t indx) (sym (div-eq_of_lt lt)) ∙ read,
      λ p q. wrote.outside p (around p q),
    )
  where
    around : (p : ℕ) → (p < indx) ⊎ (indx + width ≤ p) → (p < indx + 0) ⊎ (indx + 0 + width ≤ p)
    around p (inl below) = inl (omega arith)
    around p (inr above) = inr (omega arith)
