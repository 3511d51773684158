-- ===== src/KnownBits.antt =====
-- src/optim/analysis/attributer/KnownBits.hpp: which bits of a value are known, and how the
-- operations of the IR carry them on. The operands have the width of the result, as the code tests
-- before it uses them.
pub mod Masks
pub mod Logic
pub mod Carries
pub mod Sums
pub mod Values
pub mod Fields
pub mod Instructions
pub mod Facts
pub mod Shifts
pub mod Products
pub mod Divisions
pub mod ShiftAmounts
pub mod Update
pub mod Casts
use foptim.Base.{ℕ, Bool, true, false, if◌then◌else◌}
use foptim.ApInt.{ApInt, add, from_u64, ult, zext_or_trunc}
use foptim.ApInt.Special.{is_all_ones}
use foptim.ApInt.Bitwise.{and, or, xor, complement}

pub record KnownBits : Type 0 where
  pub known_zero : ApInt
  pub known_one : ApInt

abbrev pub width : KnownBits → ℕ
width b = b.known_one.bits

unfoldable pub unknown : ℕ → KnownBits
unknown bits = record { known_zero = from_u64 bits 0; known_one = from_u64 bits 0 }

-- A constant integer: its ones, and the complement.
unfoldable pub known_int : ℕ → ApInt → KnownBits
known_int w v =
    let one = zext_or_trunc v w in record { known_zero = complement one; known_one = one }

unfoldable pub is_constant : KnownBits → Bool
is_constant b = is_all_ones (or b.known_zero b.known_one)

unfoldable pub get_unsigned_max_value : KnownBits → ApInt
get_unsigned_max_value b = complement b.known_zero

abbrev pub get_unsigned_min_value : KnownBits → ApInt
get_unsigned_min_value b = b.known_one

-- `computeForAddCarry`: the least and the greatest sum, and the carries on which they agree.
unfoldable pub add_at : ℕ → KnownBits → KnownBits → Bool → Bool → KnownBits
unfolding get_unsigned_max_value
add_at w lhs rhs carry_zero carry_one =
    let possible_sum_zero =
      add (add (get_unsigned_max_value lhs) (get_unsigned_max_value rhs))
        (from_u64 w (if carry_zero then 0 else 1)) in
    let possible_sum_one =
      add (add (get_unsigned_min_value lhs) (get_unsigned_min_value rhs))
        (from_u64 w (if carry_one then 1 else 0)) in
    let carry_known_zero = complement (xor (xor possible_sum_zero lhs.known_zero) rhs.known_zero) in
    let carry_known_one = xor (xor possible_sum_one lhs.known_one) rhs.known_one in
    let lhs_known_union = or lhs.known_zero lhs.known_one in
    let rhs_known_union = or rhs.known_zero rhs.known_one in
    let carry_known_union = or carry_known_zero carry_known_one in
    let known = and (and lhs_known_union rhs_known_union) carry_known_union in
    record {
      known_zero = and (complement possible_sum_zero) known;
      known_one = and possible_sum_one known;
    }

unfoldable pub compute_for_add_carry : KnownBits → KnownBits → Bool → Bool → KnownBits
unfolding add_at
compute_for_add_carry lhs rhs carry_zero carry_one = add_at (width lhs) lhs rhs carry_zero carry_one

-- The cases of `update_impl_instr` for these operations.
unfoldable pub known_and : KnownBits → KnownBits → KnownBits
known_and a b = record {
  known_zero = or a.known_zero b.known_zero;
  known_one = and a.known_one b.known_one;
}

unfoldable pub known_or : KnownBits → KnownBits → KnownBits
known_or a b = record {
  known_zero = and a.known_zero b.known_zero;
  known_one = or a.known_one b.known_one;
}

unfoldable pub known_xor : KnownBits → KnownBits → KnownBits
known_xor a b = record {
  known_zero = or (and a.known_zero b.known_zero) (and a.known_one b.known_one);
  known_one = or (and a.known_zero b.known_one) (and a.known_one b.known_zero);
}

abbrev pub known_not : KnownBits → KnownBits
known_not a = record { known_zero = a.known_one; known_one = a.known_zero }

-- The result of a select is one of two values.
unfoldable pub known_select : KnownBits → KnownBits → KnownBits
known_select a b = record {
  known_zero = and a.known_zero b.known_zero;
  known_one = and a.known_one b.known_one;
}

unfoldable pub known_add : KnownBits → KnownBits → KnownBits
unfolding compute_for_add_carry
known_add a b = compute_for_add_carry a b true false

-- The difference is the sum with the flipped operand and a carry.
unfoldable pub known_sub : KnownBits → KnownBits → KnownBits
unfolding compute_for_add_carry
known_sub a b = compute_for_add_carry a (known_not b) false true

-- A remainder by a divisor that is always greater is the dividend.
unfoldable pub known_urem : KnownBits → KnownBits → KnownBits
unfolding get_unsigned_max_value
known_urem a b =
    if ult (get_unsigned_max_value a) (get_unsigned_min_value b) then a else unknown (width a)

-- A truncation to `w` bits.
unfoldable pub known_trunc : ℕ → KnownBits → KnownBits
known_trunc w a = record {
  known_zero = zext_or_trunc a.known_zero w;
  known_one = zext_or_trunc a.known_one w;
}
