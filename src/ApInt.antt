-- ===== src/ApInt.antt =====
-- src/utils/APInt.hpp, src/utils/APInt.cpp: integers of arbitrary width. The union of the inline
-- word and the heap array is one little endian list of `num_words` words, `data()`; `is_single`
-- still selects the path. Operands of a binary operation have the same width, as the assertions of
-- the source demand.
pub mod Cut
pub mod Make
pub mod Views
pub mod Ring
pub mod Compare
pub mod Resize
pub mod Bitwise
pub mod Signs
pub mod Shift
pub mod Extend
pub mod FromSigned
pub mod SignedShift
pub mod Special
pub mod Divide
pub mod Quotients
pub mod SignedQuotients
pub mod SpecialValues
pub mod ZeroCounts
pub mod Counts
pub mod MulOverflow
pub mod RoundTrips
pub mod SignedOrder
pub mod SignedOverflow
use foptim.Base.{
  ℕ, zero, suc, ◌+◌, ◌-◌, ◌*◌, ◌/◌, ◌%◌, ◌^◌, List, [], ◌∷◌, map, Bool, true, false, not, ltb, leb,
  ◌==◌, ◌&&◌, if◌then◌else◌, u32, u64, u128, replicate, length, get_or, set, take, ◌++◌, drop,
}
use foptim.Words.{add_n, sub_n, mul_n, ucmp_n}
use Prim.Native.Nat.{bit_and, bit_or, compare, Ordering}

pub record ApInt : Type 0 where
  pub bits : ℕ
  pub words : List ℕ

abbrev pub words_for : ℕ → ℕ
words_for bits = u32 (bits + 63) / 64

-- The low bits of a word, 1 to 64.
abbrev pub mask64 : ℕ → ℕ
mask64 bits = (2 ^ 64 - 1) / 2 ^ (64 - bits)

abbrev pub is_single : ApInt → Bool
is_single x = leb x.bits 64

abbrev pub num_words : ApInt → ℕ
num_words x = words_for x.bits

-- `val_`, and the low word of `big_`.
abbrev pub val : ApInt → ℕ
val x = get_or x.words 0 0

abbrev pub get128 : ApInt → ℕ
get128 x = bit_or (get_or x.words 0 0) (get_or x.words 1 0 * 2 ^ 64)

-- `ZeroTag`: storage of the right size, zeroed.
abbrev pub zeroed : ℕ → ApInt
zeroed bits = record {
  bits = bits;
  words = if leb bits 64 then 0 ∷ [] else replicate (words_for bits) 0;
}

unfoldable pub clear_unused : ApInt → ApInt
clear_unused x =
    let rem = bit_and x.bits 63 in
    let last = num_words x - 1 in
    if rem == 0
    then x
    else record x { words = set x.words last (bit_and (get_or x.words last 0) (mask64 rem)) }

-- The constructor from a `u64`.
unfoldable pub from_u64 : ℕ → ℕ → ApInt
from_u64 bits v =
    if leb bits 64
    then record { bits = bits; words = bit_and v (mask64 bits) ∷ [] }
    else record { bits = bits; words = set (replicate (words_for bits) 0) 0 v }

unfoldable pub from_u128 : ℕ → ℕ → ApInt
from_u128 bits v =
    let r = zeroed bits in
    let d = set r.words 0 (u64 v) in
    clear_unused
      (record r { words = if ltb 1 (num_words r) then set d 1 (u64 (v / 2 ^ 64)) else d })

unfoldable pub all_ones : ℕ → ApInt
unfolding clear_unused
all_ones bits =
    clear_unused (record { bits = bits; words = replicate (words_for bits) (2 ^ 64 - 1) })

pub add_wide : ApInt → ApInt → ApInt
add_wide x y =
    if leb x.bits 128
    then from_u128 x.bits (u128 (get128 x + get128 y))
    else clear_unused (record x { words = (add_n x.words y.words).words })

unfoldable pub add : ApInt → ApInt → ApInt
add x y = if is_single x then from_u64 x.bits (u64 (val x + val y)) else add_wide x y

pub sub_wide : ApInt → ApInt → ApInt
sub_wide x y =
    if leb x.bits 128
    then from_u128 x.bits (u128 (get128 x + 2 ^ 128 - get128 y))
    else clear_unused (record x { words = (sub_n x.words y.words).words })

unfoldable pub sub : ApInt → ApInt → ApInt
sub x y = if is_single x then from_u64 x.bits (u64 (val x + 2 ^ 64 - val y)) else sub_wide x y

pub mul_wide : ApInt → ApInt → ApInt
mul_wide x y =
    if leb x.bits 128
    then from_u128 x.bits (u128 (get128 x * get128 y))
    else clear_unused (record x { words = mul_n x.words y.words })

unfoldable pub mul : ApInt → ApInt → ApInt
mul x y = if is_single x then from_u64 x.bits (u64 (val x * val y)) else mul_wide x y

unfoldable pub neg : ApInt → ApInt
neg x = sub (from_u64 x.bits 0) x

pub ucmp_wide : ApInt → ApInt → Ordering
ucmp_wide x y = if leb x.bits 128 then compare (get128 x) (get128 y) else ucmp_n x.words y.words

unfoldable pub ucmp : ApInt → ApInt → Ordering
unfolding ucmp_wide
ucmp x y = if is_single x then compare (val x) (val y) else ucmp_wide x y

abbrev pub is_lt : Ordering → Bool
is_lt o = elim o [ Ordering.lt ↦ true | _ ↦ false ]

abbrev pub is_gt : Ordering → Bool
is_gt o = elim o [ Ordering.gt ↦ true | _ ↦ false ]

abbrev pub is_eq : Ordering → Bool
is_eq o = elim o [ Ordering.eq ↦ true | _ ↦ false ]

unfoldable pub ult : ApInt → ApInt → Bool
unfolding ucmp_wide
ult x y = if is_single x then ltb (val x) (val y) else is_lt (ucmp_wide x y)

unfoldable pub ule : ApInt → ApInt → Bool
unfolding ucmp_wide
ule x y = if is_single x then leb (val x) (val y) else not (is_gt (ucmp_wide x y))

-- `operator==`: the wide path compares the words.
unfoldable pub eq : ApInt → ApInt → Bool
eq x y = if is_single x then val x == val y else is_eq (ucmp_n x.words y.words)

pub record Flagged : Type 0 where
  pub result : ApInt
  pub ov : Bool

unfoldable pub uadd_ov : ApInt → ApInt → Flagged
uadd_ov x y = let r = add x y in record { result = r; ov = ult r x }

unfoldable pub usub_ov : ApInt → ApInt → Flagged
usub_ov x y = record { result = sub x y; ov = ult x y }

-- `std::copy` of the words over zeroed storage.
pub zext_wide : ApInt → ℕ → ApInt
zext_wide x new_bits =
    let r = zeroed new_bits in record r { words = x.words ++ drop (length x.words) r.words }

unfoldable pub zext : ApInt → ℕ → ApInt
zext x new_bits = if leb new_bits 64 then from_u64 new_bits (val x) else zext_wide x new_bits

pub trunc_wide : ApInt → ℕ → ApInt
unfolding clear_unused
trunc_wide x new_bits =
    clear_unused (record { bits = new_bits; words = take (words_for new_bits) x.words })

unfoldable pub trunc : ApInt → ℕ → ApInt
trunc x new_bits = if leb new_bits 64 then from_u64 new_bits (val x) else trunc_wide x new_bits

unfoldable pub zext_or_trunc : ApInt → ℕ → ApInt
zext_or_trunc x new_bits = if ltb x.bits new_bits then zext x new_bits else trunc x new_bits
