-- ===== src/Base/Modulus.antt =====
-- Remainders by powers of two: a wrap at a wider power changes nothing below.
use Prim.Native.Nat.{ℕ, zero, suc, ◌+◌, ◌-◌, ◌*◌, ◌/◌, ◌%◌, ◌^◌, ◌≤◌, ◌<◌}
use mathlib.Core.Path.{◌≡◌, ap, ◌∙◌, sym}
use native.Mathlib.Nat.{mod-eq_of_lt, add-mul-mod_self_left, div-add-mod}
use native.Mathlib.Omega.{arith}
use foptim.Base.Powers.{pow-pos, pow-add}

rejoin : (w k : ℕ) → k ≤ w → w ≡ k + (w - k)
rejoin w k h = omega arith

pub pow-split : (w k : ℕ) → k ≤ w → 2 ^ w ≡ 2 ^ k * 2 ^ (w - k)
pow-split w k h = ap (λ n. 2 ^ n) (rejoin w k h) ∙ pow-add k (w - k)

pub mod-mod_pow : (w k n : ℕ) → k ≤ w → n % 2 ^ w % 2 ^ k ≡ n % 2 ^ k
mod-mod_pow w k n h =
    let q = n / 2 ^ w in
    let whole : n ≡ n % 2 ^ w + 2 ^ k * (2 ^ (w - k) * q) =
      omega (arith, div-add-mod n (2 ^ w), ap (λ (t : ℕ). t * q) (pow-split w k h)) in
    sym (ap (λ t. t % 2 ^ k) whole ∙ add-mul-mod_self_left (n % 2 ^ w) (2 ^ k) (2 ^ (w - k) * q))

-- Subtraction of words: the wrap that is added first may be any wider one.
pub sub-mod_pow :
    (w k x y : ℕ) → k ≤ w → y < 2 ^ k → (x + 2 ^ w - y) % 2 ^ w % 2 ^ k ≡ (x + 2 ^ k - y) % 2 ^ k
sub-mod_pow w k x y h hy =
    mod-mod_pow w k (x + 2 ^ w - y) h
    ∙ ap (λ t. t % 2 ^ k) (shift (2 ^ (w - k)) (pow-pos (w - k)) (pow-split w k h))
    ∙ add-mul-mod_self_left (x + 2 ^ k - y) (2 ^ k) (2 ^ (w - k) - 1)
  where
    shift : (j : ℕ) → 0 < j → 2 ^ w ≡ 2 ^ k * j → x + 2 ^ w - y ≡ x + 2 ^ k - y + 2 ^ k * (j - 1)
    shift zero p e = absurd (omega arith)
    shift (suc j) p e = let less : suc j - 1 ≡ j = omega arith in rw less (omega (arith, e))

-- A remainder is found from any decomposition.
pub mod_unique : (m r q : ℕ) → r < m → (r + m * q) % m ≡ r
mod_unique m r q h = add-mul-mod_self_left r m q ∙ mod-eq_of_lt h
