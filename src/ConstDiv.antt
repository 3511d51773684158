-- ===== src/ConstDiv.antt =====
-- src/mir/const_div.hpp: the magic multipliers for a division by a constant, `udiv_magic` and
-- `sdiv_magic`. A `u64` or `u128` is a number with its casts written out; a loop over the extra
-- shift recurs on the rounds that are left.
pub mod Quotient
pub mod Scan
pub mod Unsigned
pub mod Fixup
pub mod Entries
use foptim.Base.{
  ℕ, zero, suc, ◌+◌, ◌-◌, ◌*◌, ◌/◌, ◌^◌, Bool, true, false, not, ◌&&◌, ◌||◌, Option, none, some,
  ltb, leb, ◌==◌, if◌then◌else◌, u8, u64, u128,
}
use foptim.Base.Options.{or_else}
use foptim.Base.Bits.{bit_width, countr_zero, has_single_bit}

pub record UDivMagic : Type 0 where
  pub mul : ℕ
  pub pre_shift : ℕ
  pub shift : ℕ
  pub add : Bool

-- The largest multiplier of the width.
abbrev pub max_mul : ℕ → ℕ
max_mul width = if width == 64 then 2 ^ 64 - 1 else 2 ^ width - 1

-- `m`, the quotient of 2 ^ (wp + s) rounded up, and `e`, by how much `m * dd` is above that power.
abbrev pub round_up : ℕ → ℕ → ℕ
round_up num dd = u128 (num + dd - 1) / dd

abbrev pub excess : ℕ → ℕ → ℕ → ℕ
excess num dd m = u128 (m * dd + 2 ^ 128 - num)

-- The loop over `s`, for one `pre`.
pub udiv_scan : ℕ → ℕ → ℕ → ℕ → ℕ → ℕ → Option UDivMagic
udiv_scan top pre dd wp zero s = none
udiv_scan top pre dd wp (suc rounds) s =
    let rest = udiv_scan top pre dd wp rounds (suc s) in
    let num = u128 (2 ^ (wp + s)) in
    let m = round_up num dd in
    let e = excess num dd m in
    if leb e (2 ^ s) && leb m top
    then some (record { mul = u64 m; pre_shift = u8 pre; shift = u8 (wp + s); add = false })
    else rest

-- One round of the loop over `try_pre`.
pub udiv_try : ℕ → ℕ → ℕ → Option UDivMagic
udiv_try d width pre =
    let dd = d / 2 ^ pre in
    let l = bit_width (dd - 1) in
    let first = if width == 64 then pre else 0 in
    udiv_scan (max_mul width) pre dd (width - pre) (l + 1 - first) first

-- No multiplier of the width serves: the one of `width + 1` bits, less its highest bit.
pub udiv_add : ℕ → ℕ → UDivMagic
udiv_add d width =
    let l = bit_width (d - 1) in
    let m = u128 (2 ^ (width + l)) / d + 1 in
    record { mul = u64 (m - 2 ^ width); pre_shift = 0; shift = u8 l; add = true }

-- The guard of `udiv_magic`: no entry.
pub udiv_refused : ℕ → ℕ → Bool
udiv_refused d width =
    ltb 64 width
    || ltb width 2
    || ltb d 3
    || has_single_bit d
    || (ltb width 64 && leb (2 ^ (width - 1)) d)
    || (width == 64 && ltb (2 ^ 63) d)

unfoldable pub udiv_magic : ℕ → ℕ → Option UDivMagic
unfolding udiv_refused udiv_try udiv_scan udiv_add
udiv_magic d width =
    let tz = countr_zero d in
    if udiv_refused d width
    then none
    else or_else (udiv_try d width 0)
        (or_else (if tz == 0 then none else udiv_try d width tz) (some (udiv_add d width)))

pub record SDivMagic : Type 0 where
  pub mul : ℕ
  pub shift : ℕ

pub sdiv_scan : ℕ → ℕ → ℕ → ℕ → ℕ → Option SDivMagic
sdiv_scan top d width zero s = none
sdiv_scan top d width (suc rounds) s =
    let rest = sdiv_scan top d width rounds (suc s) in
    let num = u128 (2 ^ (width - 1 + s)) in
    let m = round_up num d in
    let e = excess num d m in
    if leb e (2 ^ s) && leb m top
    then some (record { mul = u64 m; shift = u8 (width - 1 + s) })
    else rest

pub sdiv_refused : ℕ → ℕ → Bool
sdiv_refused d width =
    ltb 64 width || ltb width 3 || ltb d 3 || has_single_bit d || ltb (2 ^ (width - 1)) d

unfoldable pub sdiv_magic : ℕ → ℕ → Option SDivMagic
unfolding sdiv_refused sdiv_scan
sdiv_magic d width =
    let l = bit_width (d - 1) in
    let first = if width == 64 then 1 else 0 in
    if sdiv_refused d width then none else sdiv_scan (max_mul width) d width (l + 1 - first) first
