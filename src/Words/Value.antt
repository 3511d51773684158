-- ===== src/Words/Value.antt =====
-- Lists of words as numbers: bounds, and words read back as digits.
use foptim.Base.{ℕ, zero, suc, ◌+◌, ◌*◌, ◌^◌, ◌<◌, ◌≡◌, List, [], ◌∷◌, length, arith, ap, replicate}
use foptim.Base.Powers.{pow-add}
use foptim.Words.{value}

-- Every word is below 2 ^ 64.
abbrev pub AreWords : List ℕ → Type 0
AreWords [] = Unit {0}
AreWords (w ∷ ws) = (w < 2 ^ 64) × AreWords ws

-- The number of values of `n` words.
abbrev pub capacity : ℕ → ℕ
capacity zero = 1
capacity (suc n) = 2 ^ 64 * capacity n

pub capacity_pos : (n : ℕ) → 0 < capacity n
capacity_pos zero = omega arith
capacity_pos (suc n) = omega (arith, capacity_pos n)

pub capacity-pow : (n : ℕ) → capacity n ≡ 2 ^ (64 * n)
capacity-pow zero = omega arith
capacity-pow (suc n) =
    let split : 2 ^ (64 * suc n) ≡ 2 ^ (64 + 64 * n) = ap (λ k. 2 ^ k) (omega arith) in
    omega (arith, capacity-pow n, split, pow-add 64 (64 * n))

pub value-lt : (ws : List ℕ) → AreWords ws → value ws < capacity (length ws)
unfolding value
value-lt [] h = omega arith
value-lt (w ∷ ws) h = omega (arith, value-lt ws h.1)

pub value-replicate : (n : ℕ) → value (replicate n 0) ≡ 0
unfolding value
value-replicate zero = omega arith
value-replicate (suc n) = omega (arith, value-replicate n)

pub replicate-AreWords : (n : ℕ) → AreWords (replicate n 0)
replicate-AreWords zero = tt
replicate-AreWords (suc n) = (omega arith, replicate-AreWords n)
