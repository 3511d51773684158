-- ===== src/KnownBits/Fields.antt =====
-- Masks of the highest and of the lowest bits, and shifted masks.
use foptim.Base.{
  false, ap₂, ℕ, ◌+◌, ◌-◌, ◌*◌, ◌/◌, ◌%◌, ◌^◌, ◌≤◌, ◌<◌, ◌≡◌, ap, ◌∙◌, ◌==◌, if◌then◌else◌,
  Bool-cases, inl, inr, ==_iff, arith, dec_lt, ltb, lt→ltb,
}
use foptim.Base.Digits.{
  bit_of, bit_of-zero, bit_of-mod, bit_of-mul, bit_of-mul_low, bit_of-div, bit_of-above,
  bit_of-complement,
}
use foptim.Base.Powers.{pow-pos}
use foptim.ApInt.{all_ones}
use foptim.ApInt.Make.{all_ones-Is, from_u64-Is}
use foptim.ApInt.Shift.{shl-Is, lshr-Is}
use foptim.ApInt.Special.{high_bits, low_bits}
use native.Mathlib.Nat.{mod-eq_of_lt}
use foptim.KnownBits.Masks.{IsMask}

-- All bits of the greatest number are ones.
pub bit_of-ones : (w k : ℕ) → k < w → bit_of k (2 ^ w - 1) ≡ 1
bit_of-ones w k lt =
    let plain : 2 ^ w - 1 ≡ 2 ^ w - 1 - 0 = omega arith in
    ap (bit_of k) plain ∙ omega (arith, bit_of-complement w k 0 lt (pow-pos w), bit_of-zero k)

-- A product by a power of two, bit by bit.
pub bit_of-shifted :
    (w amt k v : ℕ)
    → k < w
    → bit_of k (v * 2 ^ amt % 2 ^ w) ≡ (if ltb k amt then 0 else bit_of (k - amt) v)
bit_of-shifted w amt k v lt = elim (dec_lt k amt) [
  | yes p ↦ rw (lt→ltb k amt p) (bit_of-mod w k (v * 2 ^ amt) lt ∙ bit_of-mul_low amt k v p)
  | no p ↦
      let split : k ≡ amt + (k - amt) = omega (arith, p) in
      let outside : ltb k amt ≡ false = ground (arith, p) in
      rw outside (
        bit_of-mod w k (v * 2 ^ amt) lt
        ∙ ap (λ i. bit_of i (v * 2 ^ amt)) split
        ∙ bit_of-mul amt (k - amt) v)
]

module _ (w n : ℕ) (pos : 1 ≤ w) (fits : w + 63 < 2 ^ 32) (le : n ≤ w) where
  pub high_bits-IsMask : IsMask (high_bits w n) w (λ k. 1 - (w - n - k))
  unfolding high_bits
  high_bits-IsMask =
      let ones = all_ones-Is w pos fits in
      let amt : ℕ = if n == 0 then w else w - n in
      let far : amt ≡ w - n = ground (arith) in
      let r = shl-Is (all_ones w) ones.valid amt in
      record {
        width = r.width ∙ ones.width;
        valid = r.valid;
        bits = λ k lt.
            ap (bit_of k) (
              r.number
              ∙ ap₂ (λ v b. v * 2 ^ amt % 2 ^ b) ones.number ones.width
              ∙ ap (λ m. (2 ^ w - 1) * 2 ^ m % 2 ^ w) far)
            ∙ bit_of-shifted w (w - n) k (2 ^ w - 1) lt
            ∙ high_bit k lt;
      }
    where
      high_bit :
          (k : ℕ)
          → k < w
          → (if ltb k (w - n) then 0 else bit_of (k - (w - n)) (2 ^ w - 1)) ≡ 1 - (w - n - k)
      high_bit k lt = elim (dec_lt k (w - n)) [
        | yes p ↦ rw (lt→ltb k (w - n) p) (omega arith)
        | no p ↦
            let outside : ltb k (w - n) ≡ false = ground (arith, p) in
            rw outside (omega (arith, bit_of-ones w (k - (w - n)) (omega arith)))
      ]

  pub low_bits-IsMask : IsMask (low_bits w n) w (λ k. 1 - (k + 1 - n))
  unfolding low_bits
  low_bits-IsMask = elim (Bool-cases (n == 0)) [
    | inl e ↦
        let none : n ≡ 0 = (==_iff n 0).0 e in
        let z = from_u64-Is w 0 pos fits (omega arith) in
        rw e (record {
          width = z.width;
          valid = z.valid;
          bits = λ k lt.
              ap (bit_of k) (z.number ∙ mod-eq_of_lt (pow-pos w))
              ∙ bit_of-zero k
              ∙ omega (arith, none);
        })
    | inr e ↦
        let ones = all_ones-Is w pos fits in
        let r = lshr-Is (all_ones w) ones.valid (w - n) in
        rw e (record {
          width = r.width ∙ ones.width;
          valid = r.valid;
          bits = λ k lt.
              ap (bit_of k) (r.number ∙ ap (λ v. v / 2 ^ (w - n)) ones.number)
              ∙ bit_of-div (w - n) k (2 ^ w - 1)
              ∙ low_bit k;
        })
  ]
    where
      low_bit : (k : ℕ) → bit_of (w - n + k) (2 ^ w - 1) ≡ 1 - (k + 1 - n)
      low_bit k = elim (dec_lt (w - n + k) w) [
        | yes p ↦ omega (arith, bit_of-ones w (w - n + k) p)
        | no p ↦ omega (
          arith,
          bit_of-above w (w - n + k) (2 ^ w - 1) (omega (arith, pow-pos w)) (omega (arith, p)),
        )
      ]
