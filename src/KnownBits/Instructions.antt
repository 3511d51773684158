-- ===== src/KnownBits/Instructions.antt =====
-- src/optim/analysis/attributer/KnownBits.hpp: the other cases of `update_impl_instr` on integers,
-- `computeMul`, and the choice of the case for a binary operation.
use foptim.Base.{ℕ, ◌-◌, ◌+◌, not, ltb, ◌==◌, ◌&&◌, ◌||◌, if◌then◌else◌, Option, none, some, min}
use foptim.ApInt.{from_u64, zext_or_trunc, val, sub, all_ones}
use foptim.ApInt.Bitwise.{or, complement, bit, is_zero}
use foptim.ApInt.Shift.{shl, lshr}
use foptim.ApInt.SignedShift.{ashr}
use foptim.ApInt.Special.{high_bits, low_bits}
use foptim.ApInt.ZeroCounts.{log2, is_pow2, fits_u64, active_bits, ctz}
use foptim.Ir.{BinaryInstrSubType, InstrType}
use foptim.KnownBits.{
  KnownBits, width, unknown, is_constant, get_unsigned_min_value, known_add, known_sub, known_urem,
  known_and, known_or, known_xor, known_trunc,
}

pub data BitInfo : Type 0 where
  unknown_bit zero_bit one_bit : BitInfo

unfoldable pub msb_info : KnownBits → BitInfo
msb_info b =
    if bit b.known_one (width b - 1)
    then BitInfo.one_bit
    else if bit b.known_zero (width b - 1)
    then BitInfo.zero_bit
    else BitInfo.unknown_bit

-- The exponent of a known power of two.
unfoldable pub known_log2 : KnownBits → Option ℕ
known_log2 b = if is_constant b && is_pow2 b.known_one then some (log2 b.known_one) else none

-- A known shift amount below the width.
unfoldable pub known_shift : KnownBits → ℕ → Option ℕ
known_shift b w =
    if (is_constant b && fits_u64 b.known_one) && ltb (val b.known_one) w
    then some (val b.known_one)
    else none

-- The least shift amount, at most the width.
unfoldable pub min_shift : KnownBits → ℕ → ℕ
min_shift b w =
    let mn = get_unsigned_min_value b in if not (fits_u64 mn) || ltb w (val mn) then w else val mn

-- The masks shifted by `amt`, and what comes in.
unfoldable pub shifted_right : ℕ → KnownBits → ℕ → KnownBits
shifted_right w a amt = record {
  known_zero = or (lshr a.known_zero amt) (high_bits w (min amt w));
  known_one = lshr a.known_one amt;
}

unfoldable pub shifted_left : ℕ → KnownBits → ℕ → KnownBits
shifted_left w a amt = record {
  known_zero = or (shl a.known_zero amt) (low_bits w amt);
  known_one = shl a.known_one amt;
}

-- Only the highest, or the lowest, `n` bits are known, as zeros.
unfoldable pub zeros_above : ℕ → ℕ → KnownBits
zeros_above w n = record { known_zero = high_bits w n; known_one = from_u64 w 0 }

unfoldable pub zeros_below : ℕ → ℕ → KnownBits
zeros_below w n = record { known_zero = low_bits w n; known_one = from_u64 w 0 }

-- `computeMul`.
unfoldable pub mul_at : ℕ → KnownBits → KnownBits → KnownBits
mul_at w lhs rhs =
    let maybe_l = complement lhs.known_zero in
    let maybe_r = complement rhs.known_zero in
    elim (known_log2 rhs) [
      | some n ↦ shifted_left w lhs n
      | none ↦
          if is_zero maybe_l || is_zero maybe_r
          then record { known_zero = all_ones w; known_one = from_u64 w 0 }
          else zeros_below w (min (ctz maybe_l + ctz maybe_r) w)
    ]

unfoldable pub compute_mul : KnownBits → KnownBits → KnownBits
unfolding mul_at
compute_mul lhs rhs = mul_at (width lhs) lhs rhs

-- The divisions by a known power of two; `old` are the masks before the update.
unfoldable pub known_udiv : ℕ → KnownBits → KnownBits → KnownBits → KnownBits
known_udiv w old a b = elim (known_log2 b) [ some n ↦ shifted_right w a n | none ↦ old ]

-- Only a dividend that is not negative rounds like a shift.
unfoldable pub known_sdiv : ℕ → KnownBits → KnownBits → KnownBits → KnownBits
known_sdiv w old a b = elim (known_log2 b) [
  | some n ↦ elim (msb_info a) [ BitInfo.zero_bit ↦ shifted_right w a n | _ ↦ old ]
  | none ↦ old
]

unfoldable pub known_srem : ℕ → KnownBits → KnownBits → KnownBits
known_srem w a b = elim (msb_info b) [
  | BitInfo.zero_bit ↦ elim (msb_info a) [
    | BitInfo.zero_bit ↦
        if is_constant b && not (is_zero b.known_one)
        then zeros_above w (w - min (active_bits (sub b.known_one (from_u64 w 1))) w)
        else unknown w
    | _ ↦ unknown w
  ]
  | _ ↦ unknown w
]

unfoldable pub known_shr : ℕ → KnownBits → KnownBits → KnownBits
known_shr w a b = elim (known_shift b w) [
  | some n ↦ shifted_right w a n
  | none ↦ zeros_above w (min_shift b w)
]

unfoldable pub known_shl : ℕ → KnownBits → KnownBits → KnownBits
known_shl w a b = elim (known_shift b w) [
  | some n ↦ shifted_left w a n
  | none ↦ zeros_below w (min_shift b w)
]

-- The sign of the masks comes in, or is all that is known.
unfoldable pub known_ashr : ℕ → KnownBits → KnownBits → KnownBits
known_ashr w a b = elim (known_shift b w) [
  | some n ↦ record { known_zero = ashr a.known_zero n; known_one = ashr a.known_one n }
  | none ↦ elim (msb_info a) [
    | BitInfo.one_bit ↦ record {
      known_zero = from_u64 w 0;
      known_one = or (from_u64 w 0) (high_bits w (min_shift b w));
    }
    | BitInfo.zero_bit ↦ record {
      known_zero = or (from_u64 w 0) (high_bits w (min_shift b w));
      known_one = from_u64 w 0;
    }
    | BitInfo.unknown_bit ↦ unknown w
  ]
]

-- The cases of a binary operation.
abbrev pub by_case : ℕ → BinaryInstrSubType → KnownBits → KnownBits → KnownBits → KnownBits
by_case w BinaryInstrSubType.int_add old a b = known_add a b
by_case w BinaryInstrSubType.ptr_add old a b = known_add a b
by_case w BinaryInstrSubType.int_mul old a b = compute_mul a b
by_case w BinaryInstrSubType.int_sub old a b = known_sub a b
by_case w BinaryInstrSubType.int_urem old a b = known_urem a b
by_case w BinaryInstrSubType.int_udiv old a b = known_udiv w old a b
by_case w BinaryInstrSubType.int_sdiv old a b = known_sdiv w old a b
by_case w BinaryInstrSubType.xor old a b = known_xor a b
by_case w BinaryInstrSubType.and old a b = known_and a b
by_case w BinaryInstrSubType.or old a b = known_or a b
by_case w BinaryInstrSubType.shr old a b = known_shr w a b
by_case w BinaryInstrSubType.shl old a b = known_shl w a b
by_case w BinaryInstrSubType.int_srem old a b = known_srem w a b
by_case w BinaryInstrSubType.ashr old a b = known_ashr w a b
by_case w _ old a b = old

-- Operands of another width say nothing.
unfoldable pub binary_at : ℕ → BinaryInstrSubType → KnownBits → KnownBits → KnownBits → KnownBits
binary_at w op old a b =
    if not (width a == w) || not (width b == w) then old else by_case w op old a b

unfoldable pub update_binary : BinaryInstrSubType → KnownBits → KnownBits → KnownBits → KnownBits
unfolding binary_at
update_binary op old a b = binary_at (width old) op old a b

-- The extensions and the comparisons.
unfoldable pub known_zext : ℕ → KnownBits → KnownBits
known_zext w a = record {
  known_zero =
      if ltb (width a) w
      then or (zext_or_trunc a.known_zero w) (high_bits w (w - width a))
      else zext_or_trunc a.known_zero w;
  known_one = zext_or_trunc a.known_one w;
}

unfoldable pub known_sext : ℕ → KnownBits → KnownBits
known_sext w a =
    let one = zext_or_trunc a.known_one w in
    let zero = zext_or_trunc a.known_zero w in
    let above = high_bits w (w - width a) in
    if ltb (width a) w
    then elim (msb_info a) [
      | BitInfo.one_bit ↦ record { known_zero = zero; known_one = or one above }
      | BitInfo.zero_bit ↦ record { known_zero = or zero above; known_one = one }
      | BitInfo.unknown_bit ↦ record { known_zero = zero; known_one = one }
    ]
    else record { known_zero = zero; known_one = one }

unfoldable pub known_icmp : ℕ → KnownBits
known_icmp w = zeros_above w (w - 1)

-- The choice among the cases of the casts, known_zext, known_sext and known_trunc.
unfoldable pub update_cast : InstrType → ℕ → KnownBits → KnownBits
update_cast InstrType.zext w a = known_zext w a
update_cast InstrType.sext w a = known_sext w a
update_cast _ w a = known_trunc w a
