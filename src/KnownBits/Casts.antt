-- ===== src/KnownBits/Casts.antt =====
-- Extensions and truncations, against the casts of the interpreter.
use foptim.Base.{
  ℕ, zero, suc, ◌+◌, ◌-◌, ◌*◌, ◌/◌, ◌^◌, ◌≤◌, ◌<◌, ◌≡◌, refl, sym, ap, ◌∙◌, subst, Bool, true,
  false, ltb, ltb→lt, if◌then◌else◌, Bool-cases, inl, inr, arith, dec_lt,
}
use foptim.Base.Digits.{bit_of, bit_of-mod, bit_of-div, bit_of-above}
use foptim.Base.Powers.{pow-pos}
use foptim.Base.Modulus.{pow-split, mod_unique}
use foptim.Base.Signed.{is_negative, sign_extended}
use foptim.Words.{value}
use foptim.ApInt.{ApInt, zext_or_trunc, from_u64}
use foptim.ApInt.Cut.{IsValid}
use foptim.ApInt.Make.{from_u64-Is}
use foptim.KnownBits.Shifts.{zeros_above-Knows}
use foptim.ApInt.Resize.{zext-Is, trunc-Is, zext_or_trunc-Is}
use foptim.ApInt.Bitwise.{or}
use foptim.ApInt.Extend.{sext-Is}
use foptim.ApInt.Special.{high_bits}
use foptim.Ir.{InstrType}
use foptim.Ir.Interpreter.Step.{cast}
use foptim.KnownBits.{KnownBits, width, known_trunc}
use foptim.KnownBits.Masks.{IsMask, Knows, Knows-IsMask, or-IsMask}
use foptim.KnownBits.Values.{known_trunc-Knows}
use foptim.KnownBits.Facts.{SignIs, msb_info-SignIs, ones_all, zeros_all}
use foptim.KnownBits.Fields.{high_bits-IsMask, bit_of-ones}
use foptim.KnownBits.Instructions.{
  BitInfo, msb_info, known_zext, known_sext, known_icmp, update_cast,
}
use native.Mathlib.Nat.{add-mul-div_left, div-eq_of_lt, mod-le}

pub extended-IsMask :
    (x : ApInt) (w : ℕ)
    → IsValid x
    → 1 ≤ w
    → w + 63 < 2 ^ 32
    → IsMask (zext_or_trunc x w) w (λ k. bit_of k (value x.words))
extended-IsMask x w v pos fits =
    let r = zext_or_trunc-Is x w v pos fits in
    record {
      width = r.width;
      valid = r.valid;
      bits = λ k lt. ap (bit_of k) r.number ∙ bit_of-mod w k (value x.words) lt;
    }

-- The bits of a sign extension: above the old width they are the sign.
sign_extended_bits :
    (v w m k : ℕ)
    → v ≤ w
    → m < 2 ^ v
    → k < w
    → bit_of k (sign_extended v w m)
      ≡ (if ltb k v then bit_of k m else (if is_negative v m then 1 else 0))
unfolding sign_extended
sign_extended_bits v w m k le lt small = elim (Bool-cases (is_negative v m)) [
  | inr e ↦ rw e (elim (Bool-cases (ltb k v)) [
    | inl p ↦ rw p refl
    | inr p ↦ rw p (bit_of-above v k m lt (ground (arith, p)))
  ])
  | inl e ↦
      let q = 2 ^ (w - v) - 1 in
      let whole : m + 2 ^ w - 2 ^ v ≡ m + 2 ^ v * q =
        moved (2 ^ v) (2 ^ (w - v)) (pow-pos (w - v)) (pow-split w v le) in
      rw (e, whole)
        (elim (Bool-cases (ltb k v)) [
          | inl p ↦ rw p (
              sym (bit_of-mod v k (m + 2 ^ v * q) (ltb→lt _ _ p))
              ∙ ap (bit_of k) (mod_unique (2 ^ v) m q lt))
          | inr p ↦
              let far : v ≤ k = ground (arith, p) in
              let index : v + (k - v) ≡ k = omega (arith, far) in
              let high : (m + 2 ^ v * q) / 2 ^ v ≡ q =
                add-mul-div_left m q (pow-pos v)
                ∙ ap (λ t. t + q) (div-eq_of_lt lt)
                ∙ omega arith in
              rw p (
                ap (λ i. bit_of i (m + 2 ^ v * q)) (sym index)
                ∙ sym (bit_of-div v (k - v) (m + 2 ^ v * q))
                ∙ ap (bit_of (k - v)) high
                ∙ bit_of-ones (w - v) (k - v) (omega (arith, small, far)))
        ])
]
  where
    moved : (p q : ℕ) → 0 < q → 2 ^ w ≡ p * q → m + 2 ^ w - p ≡ m + p * (q - 1)
    moved p zero pos e = absurd (omega arith)
    moved p (suc q) pos e = let less : suc q - 1 ≡ q = omega arith in rw less (omega (arith, e))

module _ (a : KnownBits) (w m : ℕ) (le : width a ≤ w) (fits : w + 63 < 2 ^ 32)
    (lt : m < 2 ^ width a) (h : Knows a (width a) m) where
  pos : 1 ≤ w
  pos = omega (arith, le, h.one_valid.shape.positive)

  zero_extended : IsMask (zext_or_trunc a.known_zero w) w (λ k. bit_of k (value a.known_zero.words))
  zero_extended = extended-IsMask a.known_zero w h.zero_valid pos fits

  one_extended : IsMask (zext_or_trunc a.known_one w) w (λ k. bit_of k (value a.known_one.words))
  one_extended = extended-IsMask a.known_one w h.one_valid pos fits

  above : IsMask (high_bits w (w - width a)) w (λ k. 1 - (w - (w - width a) - k))
  above = high_bits-IsMask w (w - width a) pos fits (omega arith)

  pub known_zext-Knows : Knows (known_zext w a) w m
  unfolding known_zext
  known_zext-Knows = elim (Bool-cases (ltb (width a) w)) [
    | inl e ↦ rw e (
        Knows-IsMask _ w m _ _ (or-IsMask _ _ w _ _ zero_extended above) one_extended
          (λ k small. elim (dec_lt k (width a)) [
            | yes p ↦ omega (arith, zeros_all a (width a) m lt h k, p)
            | no p ↦ omega (
              arith,
              zeros_all a (width a) m lt h k,
              bit_of-above (width a) k m lt (omega (arith, p)),
            )
          ])
          (λ k small. ones_all a (width a) m lt h k))
    | inr e ↦ rw e (
        Knows-IsMask _ w m _ _ zero_extended one_extended
          (λ k small. zeros_all a (width a) m lt h k) (λ k small. ones_all a (width a) m lt h k))
  ]

  -- The number, extended by its sign.
  extended : ℕ
  extended = sign_extended (width a) w m

  extended_bit :
      (k : ℕ)
      → k < w
      → bit_of k extended
        ≡ (if ltb k (width a) then bit_of k m else (if is_negative (width a) m then 1 else 0))
  unfolding extended
  extended_bit k small = sign_extended_bits (width a) w m k le lt small

  -- What is known below the old width stays known.
  zeros_kept : (k : ℕ) → k < w → bit_of k (value a.known_zero.words) + bit_of k extended ≤ 1
  zeros_kept k small =
      ground (arith, extended_bit k small, zeros_all a (width a) m lt h k, mask_above k)
    where
      mask_above : (k : ℕ) → width a ≤ k → bit_of k (value a.known_zero.words) ≡ 0
      mask_above k far =
          bit_of-above (width a) k (value a.known_zero.words)
            (subst (λ t. value a.known_zero.words < 2 ^ t) h.zero_width h.zero_valid.cut) far

  ones_kept : (k : ℕ) → k < w → bit_of k (value a.known_one.words) ≤ bit_of k extended
  ones_kept k small =
      ground
        (arith, extended_bit k small, ones_all a (width a) m lt h k, bit_of-above (width a) k m lt)

  sign_zero :
      (k : ℕ) → k < w → width a ≤ k → is_negative (width a) m ≡ false → bit_of k extended ≡ 0
  sign_zero k small far s = ground (arith, extended_bit k small, far, s)

  sign_one : (k : ℕ) → k < w → width a ≤ k → is_negative (width a) m ≡ true → bit_of k extended ≡ 1
  sign_one k small far s = ground (arith, extended_bit k small, far, s)

  pub known_sext-Knows : Knows (known_sext w a) w (sign_extended (width a) w m)
  unfolding known_sext extended
  known_sext-Knows = elim (Bool-cases (ltb (width a) w)) [
    | inr e ↦
        rw (e, known_sext)
          (Knows-IsMask _ w extended _ _ zero_extended one_extended zeros_kept ones_kept)
    | inl e ↦
        rw (e, known_sext)
          (elim (msb_info a)
              as (λ s.
                SignIs s (width a) m
                → Knows
                    (elim s [
                      | BitInfo.one_bit ↦ record {
                        known_zero = zext_or_trunc a.known_zero w;
                        known_one = or (zext_or_trunc a.known_one w) (high_bits w (w - width a));
                      }
                      | BitInfo.zero_bit ↦ record {
                        known_zero = or (zext_or_trunc a.known_zero w) (high_bits w (w - width a));
                        known_one = zext_or_trunc a.known_one w;
                      }
                      | BitInfo.unknown_bit ↦ record {
                        known_zero = zext_or_trunc a.known_zero w;
                        known_one = zext_or_trunc a.known_one w;
                      }
                    ])
                    w extended) [
                      | BitInfo.unknown_bit ↦ λ s.
                          Knows-IsMask _ w extended _ _ zero_extended one_extended zeros_kept
                            ones_kept
                      | BitInfo.one_bit ↦ λ s.
                          Knows-IsMask _ w extended _ _ zero_extended
                            (or-IsMask _ _ w _ _ one_extended above) zeros_kept
                            (λ k small. elim (dec_lt k (width a)) [
                              | yes p ↦ omega (arith, ones_kept k small, p)
                              | no p ↦
                                  omega (
                                    arith,
                                    sign_one k small (omega (arith, p)) s,
                                    ones_kept k small,
                                  )
                            ])
                      | BitInfo.zero_bit ↦ λ s.
                          Knows-IsMask _ w extended _ _ (or-IsMask _ _ w _ _ zero_extended above)
                            one_extended
                            (λ k small. elim (dec_lt k (width a)) [
                              | yes p ↦ omega (arith, zeros_kept k small, p)
                              | no p ↦ omega (
                                arith,
                                sign_zero k small (omega (arith, p)) s,
                                zeros_kept k small,
                              )
                            ])
                            ones_kept
                    ]
            (msb_info-SignIs a (width a) m lt h))
  ]

-- A cast of the interpreter from `from` to `to` bits.
abbrev pub IsCast : InstrType → ℕ → ℕ → Type 0
IsCast InstrType.zext from to = from ≤ to
IsCast InstrType.sext from to = from ≤ to
IsCast InstrType.itrunc from to = to ≤ from
IsCast _ from to = ⊥

module _ (x : ApInt) (v : IsValid x) (a : KnownBits) (to : ℕ) (pos : 1 ≤ to)
    (fits : to + 63 < 2 ^ 32) (h : Knows a x.bits (value x.words)) where
  own : Knows a (width a) (value x.words)
  own = subst (λ t. Knows a t (value x.words)) (sym h.one_width) h

  cut : value x.words < 2 ^ width a
  cut = subst (λ t. value x.words < 2 ^ t) (sym h.one_width) v.cut

  wider : x.bits ≤ to → width a ≤ to
  wider c = omega (arith, h.one_width)

  -- For a well formed integer, a zero or sign extension to no fewer bits or a truncation to no more,
  -- and a new width w of at least 1 with w + 63 in 32 bits: when the masks know the integer, the
  -- masks after the update know what the cast of the interpreter gives; a mask pair knows a number
  -- at width w when both masks are well formed integers of width w, every bit set in known_one is
  -- one in the low w bits of the number and every bit set in known_zero is zero there.
  pub update_cast-Knows :
      (op : InstrType)
      → IsCast op x.bits to
      → Knows (update_cast op to a) to (value (cast op x to).words)
  unfolding update_cast cast
  update_cast-Knows InstrType.zext c =
      subst (Knows (known_zext to a) to) (sym (zext-Is x v to fits c).number)
        (known_zext-Knows a to (value x.words) (wider c) fits cut own)
  update_cast-Knows InstrType.sext c =
      subst (Knows (known_sext to a) to)
        (ap (λ t. sign_extended t to (value x.words)) h.one_width
          ∙ sym (sext-Is x to v fits c).number)
        (known_sext-Knows a to (value x.words) (wider c) fits cut own)
  update_cast-Knows InstrType.itrunc c =
      subst (Knows (known_trunc to a) to) (sym (trunc-Is x v to fits pos c).number)
        (known_trunc-Knows a x.bits to (value x.words) pos c h)
  update_cast-Knows _ c = absurd c

-- A comparison gives 0 or 1.
pub known_icmp-Knows :
    (w : ℕ) (c : Bool)
    → 1 ≤ w
    → w + 63 < 2 ^ 32
    → Knows (known_icmp w) w (value (from_u64 w (if c then 1 else 0)).words)
unfolding known_icmp
known_icmp-Knows w c pos fits =
    let bit : (if c then 1 else 0) ≤ 1 = at_most_one c in
    let z = from_u64-Is w (if c then 1 else 0) pos fits (omega (arith, bit)) in
    let one : w - (w - 1) ≡ 1 = omega arith in
    let small : value (from_u64 w (if c then 1 else 0)).words ≤ 1 =
      omega (arith, z.number, mod-le (if c then 1 else 0) (2 ^ w), bit) in
    zeros_above-Knows w (w - 1) _ pos fits (omega arith) (
      subst (λ n. value (from_u64 w (if c then 1 else 0)).words < 2 ^ n) (sym one)
        (omega (arith, small)))
  where
    at_most_one : (c : Bool) → (if c then 1 else 0) ≤ 1
    at_most_one true = omega arith
    at_most_one false = omega arith
