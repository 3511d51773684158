-- ===== src/ConstDiv/Scan.antt =====
-- The loops of `udiv_magic` and `sdiv_magic` return only multipliers that divide.
use foptim.Base.{
  ℕ, zero, suc, ◌+◌, ◌-◌, ◌*◌, ◌^◌, ◌≤◌, ◌<◌, ◌≡◌, false, ◌&&◌, some, arith, u8, u64, u128, leb,
  inl, inr, Bool-cases, refl, &&-eq-true, some_eq, leb→le,
}
use foptim.Base.Powers.{pow_mono}
use foptim.ConstDiv.{UDivMagic, SDivMagic, round_up, excess, udiv_scan, sdiv_scan}
use foptim.ConstDiv.Quotient.{IsMagic}
use native.Mathlib.Nat.{div-mul-le_self, lt-mul-div-succ, mod-eq_of_lt}

-- The rounded quotient times the divisor, with the excess that the loop computes.
pub round_up-excess :
    (num dd : ℕ)
    → 0 < dd
    → num + dd ≤ 2 ^ 128
    → (round_up num dd * dd ≡ num + excess num dd (round_up num dd))
      × (excess num dd (round_up num dd) < dd)
round_up-excess num dd hd h =
    let e = mod-eq_of_lt {n = num + dd - 1} {m = 2 ^ 128} (omega arith) in
    rw e
      (omega (arith, div-mul-le_self (num + dd - 1) dd, lt-mul-div-succ (num + dd - 1) {b = dd} hd))

-- What a successful round of either loop has found, for the divisor `dd` and `wp` bits.
abbrev pub IsRound : ℕ → ℕ → ℕ → ℕ → ℕ → ℕ → ℕ → Type 0
IsRound top dd wp s rounds mul shift =
    IsMagic dd wp mul shift × (mul ≤ top) × (wp + s ≤ shift) × (shift < wp + s + rounds)

new-IsRound :
    (top dd wp s rounds : ℕ)
    → 0 < dd
    → dd ≤ 2 ^ 127
    → wp + s + suc rounds ≤ 128
    → top < 2 ^ 64
    → let num = u128 (2 ^ (wp + s)) in
      let m = round_up num dd in
      excess num dd m ≤ 2 ^ s → m ≤ top → IsRound top dd wp s (suc rounds) (u64 m) (u8 (wp + s))
new-IsRound top dd wp s rounds hd hle hs ht he hm =
    let num : ℕ = 2 ^ (wp + s) in
    let bound : num ≤ 2 ^ 127 = pow_mono (wp + s) 127 (omega arith) in
    let same : u128 num ≡ num = mod-eq_of_lt (omega arith) in
    let m = round_up (u128 num) dd in
    let exact = round_up-excess (u128 num) dd hd (omega arith) in
    let cast : u64 m ≡ m = mod-eq_of_lt (omega arith) in
    let cast_shift : u8 (wp + s) ≡ wp + s = mod-eq_of_lt (omega arith) in
    rw (cast, cast_shift)
      (
        record {
          extra = s;
          err = excess (u128 num) dd m;
          shift_eq = omega arith;
          product = omega (arith, exact.0, same);
          err_small = he;
        },
        hm,
        omega arith,
        omega arith,
      )

IsRound-later :
    (top dd wp s rounds mul shift : ℕ)
    → IsRound top dd wp (suc s) rounds mul shift
    → IsRound top dd wp s (suc rounds) mul shift
IsRound-later top dd wp s rounds mul shift h = (h.0, h.1, omega arith, omega arith)

pub udiv_scan-IsRound :
    (top pre dd wp rounds s : ℕ) (g : UDivMagic)
    → 0 < dd
    → dd ≤ 2 ^ 127
    → wp + s + rounds ≤ 128
    → top < 2 ^ 64
    → udiv_scan top pre dd wp rounds s ≡ some g
    → IsRound top dd wp s rounds g.mul g.shift × (g.add ≡ false) × (g.pre_shift ≡ u8 pre)
unfolding udiv_scan
udiv_scan-IsRound top pre dd wp zero s g hd hle hs ht h = cc
udiv_scan-IsRound top pre dd wp (suc rounds) s g hd hle hs ht h =
    let m = round_up (u128 (2 ^ (wp + s))) dd in
    let test = leb (excess (u128 (2 ^ (wp + s))) dd m) (2 ^ s) && leb m top in
    elim (Bool-cases test) [
      | inl found ↦
          let both = &&-eq-true _ _ found in
          let same = some_eq _ _ (rw found at h) in
          rw (← same) (
            new-IsRound top dd wp s rounds hd hle hs ht (leb→le _ _ both.0) (leb→le _ _ both.1),
            refl,
            refl,
          )
      | inr missed ↦
          let rest =
            udiv_scan-IsRound top pre dd wp rounds (suc s) g hd hle (omega arith) ht
              (rw missed at h) in
          (IsRound-later top dd wp s rounds g.mul g.shift rest.0, rest.1, rest.2)
    ]

pub sdiv_scan-IsRound :
    (top d width rounds s : ℕ) (g : SDivMagic)
    → 0 < d
    → d ≤ 2 ^ 127
    → width - 1 + s + rounds ≤ 128
    → top < 2 ^ 64
    → sdiv_scan top d width rounds s ≡ some g
    → IsRound top d (width - 1) s rounds g.mul g.shift
unfolding sdiv_scan
sdiv_scan-IsRound top d width zero s g hd hle hs ht h = cc
sdiv_scan-IsRound top d width (suc rounds) s g hd hle hs ht h =
    let m = round_up (u128 (2 ^ (width - 1 + s))) d in
    let test = leb (excess (u128 (2 ^ (width - 1 + s))) d m) (2 ^ s) && leb m top in
    elim (Bool-cases test) [
      | inl found ↦
          let both = &&-eq-true _ _ found in
          let same = some_eq _ _ (rw found at h) in
          rw (← same) (
            new-IsRound top d (width - 1) s rounds hd hle hs ht (leb→le _ _ both.0)
              (leb→le _ _ both.1))
      | inr missed ↦
          IsRound-later top d (width - 1) s rounds g.mul g.shift (
            sdiv_scan-IsRound top d width rounds (suc s) g hd hle (omega arith) ht (rw missed at h))
    ]
