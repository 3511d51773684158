-- ===== src/Ir/Interpreter/Arithmetic.antt =====
-- The integer operations of the interpreter against their meaning on numbers, with the cases in
-- which they are refused.
use foptim.Base.{
  ℕ, zero, suc, ◌+◌, ◌-◌, ◌*◌, ◌/◌, ◌%◌, ◌^◌, ◌≤◌, ◌<◌, ◌≡◌, refl, sym, ap, ap₂, ◌∙◌, Bool, false,
  not, ◌&&◌, ◌==◌, arith, if◌then◌else◌, ltb, leb, Bool-cases, inl, inr, Option, none, some,
}
use foptim.Base.Powers.{pow_double}
use foptim.Base.Signed.{sar, biased}
use foptim.Words.{value}
use foptim.ApInt.{ApInt, ule, eq, val, from_u64}
use foptim.ApInt.Cut.{IsValid, Is}
use foptim.ApInt.Make.{from_u64-Is}
use foptim.ApInt.Ring.{add-Is, sub-Is, mul-Is}
use foptim.ApInt.Bitwise.{is_zero, and-Is, or-Is, xor-Is}
use foptim.ApInt.Signs.{is_zero-exact}
use foptim.ApInt.Compare.{ult-value, ule-value, eq-value}
use foptim.ApInt.SignedOrder.{slt-value, sle-value}
use foptim.ApInt.Resize.{lowest_word}
use foptim.ApInt.Shift.{shl, lshr, shl-Is, lshr-Is}
use foptim.ApInt.SignedShift.{ashr, ashr-Is}
use foptim.ApInt.Divide.{udiv, urem, sdiv, srem, signed_div, signed_rem}
use foptim.ApInt.Quotients.{udiv-Is, urem-Is}
use foptim.ApInt.SignedQuotients.{sdiv-Is, srem-Is}
use foptim.ApInt.SpecialValues.{signed_min-Is, is_all_ones-exact}
use foptim.ApInt.Special.{signed_min, is_all_ones}
use foptim.Ir.{BinaryInstrSubType, ICmpInstrSubType}
use foptim.Ir.Interpreter.{int_binary, shift_amount, shifted, signed_overflow}
use foptim.Ir.Interpreter.Step.{int_compare}
use native.Mathlib.Nat.{mod-eq_of_lt}
use Prim.Native.Nat.{bit_and, bit_or, bit_xor}

-- The meaning of an operation on numbers of `w` bits; `none` where it is not defined.
abbrev pub meaning : BinaryInstrSubType → ℕ → ℕ → ℕ → Option ℕ
meaning BinaryInstrSubType.ptr_add w a b = some ((a + b) % 2 ^ w)
meaning BinaryInstrSubType.int_add w a b = some ((a + b) % 2 ^ w)
meaning BinaryInstrSubType.int_sub w a b = some ((a + 2 ^ w - b) % 2 ^ w)
meaning BinaryInstrSubType.int_mul w a b = some ((a * b) % 2 ^ w)
meaning BinaryInstrSubType.and w a b = some (bit_and a b)
meaning BinaryInstrSubType.or w a b = some (bit_or a b)
meaning BinaryInstrSubType.xor w a b = some (bit_xor a b)
meaning BinaryInstrSubType.shl w a b = if leb w b then none else some (a * 2 ^ b % 2 ^ w)
meaning BinaryInstrSubType.shr w a b = if leb w b then none else some (a / 2 ^ b)
meaning BinaryInstrSubType.ashr w a b = if leb w b then none else some (sar w a b)
meaning BinaryInstrSubType.int_udiv w a b = if b == 0 then none else some (a / b)
meaning BinaryInstrSubType.int_urem w a b = if b == 0 then none else some (a % b)
meaning BinaryInstrSubType.int_sdiv w a b =
    if b == 0
    then none
    else if (a == 2 ^ (w - 1)) && (b == 2 ^ w - 1)
    then none
    else some (signed_div w a b)
meaning BinaryInstrSubType.int_srem w a b =
    if b == 0
    then none
    else if (a == 2 ^ (w - 1)) && (b == 2 ^ w - 1)
    then none
    else some (signed_rem w a b)
meaning _ w a b = none

-- The result is refused where the meaning is not defined, and else is a well formed integer with
-- that number.
abbrev pub Agrees : Option ApInt → ℕ → Option ℕ → Type 0
Agrees none w none = Unit {0}
Agrees none w (some n) = ⊥
Agrees (some x) w none = ⊥
Agrees (some x) w (some n) = Is x w n

below_pow : (n : ℕ) → n < 2 ^ n
below_pow zero = omega arith
below_pow (suc n) = omega (arith, below_pow n, pow_double n)

-- Operands of one width, at most 128 bits.
module _ (a b : ApInt) (va : IsValid a) (vb : IsValid b) (same : a.bits ≡ b.bits)
    (narrow : a.bits ≤ 128) where
  abbrev w : ℕ
  w = a.bits

  abbrev na : ℕ
  na = value a.words

  abbrev nb : ℕ
  nb = value b.words

  -- The amount is compared with the width, which has room in the width.
  shift_amount-exact : shift_amount w b ≡ (if leb w nb then none else some nb)
  unfolding shift_amount
  shift_amount-exact =
      let c = from_u64-Is w w va.shape.positive va.shape.fits (omega arith) in
      let number = c.number ∙ mod-eq_of_lt (below_pow w) in
      let test : ule (from_u64 w w) b ≡ leb w nb =
        ule-value (from_u64 w w) b c.valid vb (c.width ∙ same) ∙ ap (λ n. leb n nb) number in
      rw test (elim (Bool-cases (leb w nb)) [
        | inl out ↦ rw out refl
        | inr inside ↦
            let low : val b ≡ nb =
              omega (arith, lowest_word b.words vb.shape.all_words, below nb w inside) in
            rw (inside, low) refl
      ])
    where
      below : (n k : ℕ) → leb k n ≡ false → n < k
      below n k h = ground arith

  -- A shift, refused where the amount is too large.
  shifted-Agrees :
      (f : ℕ → ApInt) (g : ℕ → ℕ)
      → ((n : ℕ) → Is (f n) w (g n))
      → Agrees (shifted f (shift_amount w b)) w (if leb w nb then none else some (g nb))
  shifted-Agrees f g h =
      rw shift_amount-exact
        (elim (Bool-cases (leb w nb)) [ inl out ↦ rw out tt | inr inside ↦ rw inside (h nb) ])

  zero-exact : is_zero b ≡ (nb == 0)
  zero-exact = is_zero-exact b vb

  -- A division, refused where the divisor is zero.
  divided-Agrees :
      (q : ApInt) (n : ℕ)
      → (is_zero b ≡ false → Is q w n)
      → Agrees (if is_zero b then none else some q) w (if nb == 0 then none else some n)
  divided-Agrees q n h = rw zero-exact (elim (Bool-cases (nb == 0)) [
    | inl none_left ↦ rw none_left tt
    | inr some_left ↦ rw some_left (h (zero-exact ∙ some_left))
  ])

  signed_overflow-exact : signed_overflow w a b ≡ ((na == 2 ^ (w - 1)) && (nb == 2 ^ w - 1))
  signed_overflow-exact =
      let m = signed_min-Is w va.shape.positive va.shape.fits in
      let left : eq a (signed_min w) ≡ (na == 2 ^ (w - 1)) =
        eq-value a (signed_min w) va m.valid (sym m.width) ∙ ap (λ n. na == n) m.number in
      let right : is_all_ones b ≡ (nb == 2 ^ w - 1) =
        is_all_ones-exact b vb ∙ ap (λ k. nb == 2 ^ k - 1) (sym same) in
      ap₂ (λ s t. s && t) left right

  -- A signed division, refused also where the quotient has no pattern.
  signed-Agrees :
      (q : ApInt) (n : ℕ)
      → (is_zero b ≡ false → Is q w n)
      → Agrees (if is_zero b then none else if signed_overflow w a b then none else some q) w (
          if nb == 0
          then none
          else if (na == 2 ^ (w - 1)) && (nb == 2 ^ w - 1)
          then none
          else some n)
  signed-Agrees q n h =
      rw (zero-exact, signed_overflow-exact)
        (elim (Bool-cases (nb == 0)) [
          | inl none_left ↦ rw none_left tt
          | inr some_left ↦
              rw some_left (elim (Bool-cases ((na == 2 ^ (w - 1)) && (nb == 2 ^ w - 1))) [
                | inl over ↦ rw over tt
                | inr fits ↦ rw fits (h (zero-exact ∙ some_left))
              ])
        ])

  -- For two well formed operands of one width of at most 128 bits and every binary operation, the
  -- interpreter evaluates it exactly when it has a meaning: a shift by the width or more, a division
  -- by zero, the signed division of the minimum by -1, and the float operations give no result;
  -- every other case gives a well formed integer of the width with the number that the operation
  -- means (sums, differences and products modulo 2^bits, and, or, exclusive or, shifts, and unsigned
  -- and signed quotients and remainders).
  pub int_binary-Agrees :
      (op : BinaryInstrSubType) → Agrees (int_binary op w a b) w (meaning op w na nb)
  unfolding int_binary
  int_binary-Agrees BinaryInstrSubType.ptr_add = add-Is a b va vb same
  int_binary-Agrees BinaryInstrSubType.int_add = add-Is a b va vb same
  int_binary-Agrees BinaryInstrSubType.int_sub = sub-Is a b va vb same
  int_binary-Agrees BinaryInstrSubType.int_mul = mul-Is a b va vb same
  int_binary-Agrees BinaryInstrSubType.and = and-Is a b va vb same
  int_binary-Agrees BinaryInstrSubType.or = or-Is a b va vb same
  int_binary-Agrees BinaryInstrSubType.xor = xor-Is a b va vb same
  int_binary-Agrees BinaryInstrSubType.shl =
      shifted-Agrees (shl a) (λ n. na * 2 ^ n % 2 ^ w) (shl-Is a va)
  int_binary-Agrees BinaryInstrSubType.shr =
      shifted-Agrees (lshr a) (λ n. na / 2 ^ n) (lshr-Is a va)
  int_binary-Agrees BinaryInstrSubType.ashr =
      shifted-Agrees (ashr a) (sar w na) (ashr-Is a va (omega arith))
  int_binary-Agrees BinaryInstrSubType.int_udiv =
      divided-Agrees (udiv a b) (na / nb) (udiv-Is a b va vb same narrow)
  int_binary-Agrees BinaryInstrSubType.int_urem =
      divided-Agrees (urem a b) (na % nb) (urem-Is a b va vb same narrow)
  int_binary-Agrees BinaryInstrSubType.int_sdiv =
      signed-Agrees (sdiv a b) (signed_div w na nb) (sdiv-Is a b va vb same narrow)
  int_binary-Agrees BinaryInstrSubType.int_srem =
      signed-Agrees (srem a b) (signed_rem w na nb) (srem-Is a b va vb same narrow)
  int_binary-Agrees BinaryInstrSubType.float_add = tt
  int_binary-Agrees BinaryInstrSubType.float_sub = tt
  int_binary-Agrees BinaryInstrSubType.float_mul = tt
  int_binary-Agrees BinaryInstrSubType.float_div = tt

-- The meaning of a comparison; signed numbers are compared moved up by half the range.
abbrev pub comparison : ICmpInstrSubType → ℕ → ℕ → ℕ → Bool
comparison ICmpInstrSubType.eq w a b = a == b
comparison ICmpInstrSubType.ne w a b = not (a == b)
comparison ICmpInstrSubType.ult w a b = ltb a b
comparison ICmpInstrSubType.ule w a b = leb a b
comparison ICmpInstrSubType.ugt w a b = ltb b a
comparison ICmpInstrSubType.uge w a b = leb b a
comparison ICmpInstrSubType.slt w a b = ltb (biased w a) (biased w b)
comparison ICmpInstrSubType.sle w a b = leb (biased w a) (biased w b)
comparison ICmpInstrSubType.sgt w a b = ltb (biased w b) (biased w a)
comparison ICmpInstrSubType.sge w a b = leb (biased w b) (biased w a)

module _ (a b : ApInt) (va : IsValid a) (vb : IsValid b) (same : a.bits ≡ b.bits) where
  -- The signed tests with the operands exchanged, in the width of the first one.
  swapped :
      (test : ℕ → ℕ → Bool)
      → test (biased b.bits (value b.words)) (biased b.bits (value a.words))
        ≡ test (biased a.bits (value b.words)) (biased a.bits (value a.words))
  swapped test = ap (λ k. test (biased k (value b.words)) (biased k (value a.words))) (sym same)

  -- With both operands well formed (as many words as the width needs, every word below 2^64, unused
  -- high bits zero) and of the same width, every integer comparison of the interpreter answers what
  -- it means for the numbers: the unsigned ones compare the numbers, the signed ones the numbers
  -- read as two's complement.
  pub int_compare-exact :
      (op : ICmpInstrSubType)
      → int_compare op a b ≡ comparison op a.bits (value a.words) (value b.words)
  unfolding int_compare
  int_compare-exact ICmpInstrSubType.eq = eq-value a b va vb same
  int_compare-exact ICmpInstrSubType.ne = ap not (eq-value a b va vb same)
  int_compare-exact ICmpInstrSubType.ult = ult-value a b va vb same
  int_compare-exact ICmpInstrSubType.ule = ule-value a b va vb same
  int_compare-exact ICmpInstrSubType.ugt = ult-value b a vb va (sym same)
  int_compare-exact ICmpInstrSubType.uge = ule-value b a vb va (sym same)
  int_compare-exact ICmpInstrSubType.slt = slt-value a b va vb same
  int_compare-exact ICmpInstrSubType.sle = sle-value a b va vb same
  int_compare-exact ICmpInstrSubType.sgt = slt-value b a vb va (sym same) ∙ swapped ltb
  int_compare-exact ICmpInstrSubType.sge = sle-value b a vb va (sym same) ∙ swapped leb
