-- ===== src/Words/LongDivision.antt =====
-- src/utils/APInt.cpp, `divmnu`: division of lists of 32-bit limbs, lowest first. A `u64` is cut to
-- 64 bits, a `i64` is its two's complement pattern. `m` and `n` are the lengths of `u` and `v`.
use foptim.Base.{
  ℕ, zero, suc, ◌+◌, ◌-◌, ◌*◌, ◌/◌, ◌%◌, ◌^◌, List, [], ◌∷◌, ◌||◌, ◌==◌, leb, ltb, if◌then◌else◌,
  u32, u64, length, get_or, set,
}
use foptim.Base.Bits.{bit_width}
use foptim.Base.Signed.{is_negative, sar}
use Prim.Native.Nat.{bit_or}

pub record Division : Type 0 where
  pub quotient : List ℕ
  pub remainder : List ℕ

-- The loop for a divisor of one limb: the quotient's limbs and the last `k`.
pub record ShortDivision : Type 0 where
  pub limbs : List ℕ
  pub rest : ℕ

unfoldable pub divide_short : List ℕ → ℕ → ShortDivision
divide_short [] d = record { limbs = []; rest = 0 }
divide_short (u ∷ us) d =
    let above = divide_short us d in
    let cur = bit_or (u64 (above.rest * 2 ^ 32)) u in
    record { limbs = u32 (cur / d) ∷ above.limbs; rest = cur % d }

-- `vn`, and `un` but for its top limb; `below` is the limb below the list.
pub normalize : ℕ → ℕ → List ℕ → List ℕ
normalize s below [] = []
normalize s below (l ∷ ls) =
    u32 (bit_or (u64 (l * 2 ^ s)) (below / 2 ^ (32 - s))) ∷ normalize s l ls

-- `un`, with the top limb.
pub normalize_wide : ℕ → ℕ → List ℕ → List ℕ
normalize_wide s below [] = u32 (below / 2 ^ (32 - s)) ∷ []
normalize_wide s below (l ∷ ls) =
    u32 (bit_or (u64 (l * 2 ^ s)) (below / 2 ^ (32 - s))) ∷ normalize_wide s l ls

pub record Estimate : Type 0 where
  pub qhat : ℕ
  pub rhat : ℕ

-- The `while` loop. `rhat` grows by at least 2 ^ 31 in each turn, and the loop ends at 2 ^ 32.
pub correct : ℕ → ℕ → ℕ → ℕ → Estimate → ℕ
correct zero top second third e = e.qhat
correct (suc fuel) top second third e =
    let next : Estimate = record { qhat = u64 (e.qhat + 2 ^ 64 - 1); rhat = u64 (e.rhat + top) } in
    let rest = correct fuel top second third next in
    if leb (2 ^ 32) e.qhat || ltb (bit_or (u64 (e.rhat * 2 ^ 32)) third) (u64 (e.qhat * second))
    then (if leb (2 ^ 32) next.rhat then next.qhat else rest)
    else e.qhat

pub estimate : List ℕ → List ℕ → ℕ → ℕ → ℕ
unfolding correct
estimate un vn n j =
    let num = bit_or (u64 (get_or un (j + n) 0 * 2 ^ 32)) (get_or un (j + n - 1) 0) in
    let top = get_or vn (n - 1) 0 in
    let qhat = num / top in
    correct 3 top (get_or vn (n - 2) 0) (get_or un (j + n - 2) 0)
      (record { qhat = qhat; rhat = u64 (num + 2 ^ 64 - u64 (qhat * top)) })

pub record Subtracted : Type 0 where
  pub un : List ℕ
  pub borrow : ℕ

-- The inner loop that subtracts `qhat * vn`, from limb `i` on.
pub subtract : ℕ → List ℕ → ℕ → Subtracted → Subtracted
subtract qhat [] k s = s
subtract qhat (b ∷ vn) k s =
    let p = u64 (qhat * b) in
    let t = u64 (u64 (get_or s.un k 0 + 2 ^ 64 - s.borrow) + 2 ^ 64 - p % 2 ^ 32) in
    subtract qhat vn (suc k)
      (record { un = set s.un k (u32 t); borrow = u64 (p / 2 ^ 32 + 2 ^ 64 - sar 64 t 32) })

-- The inner loop that adds `vn` back.
pub add_back : List ℕ → ℕ → Subtracted → Subtracted
add_back [] k s = s
add_back (b ∷ vn) k s =
    let t2 = u64 (get_or s.un k 0 + b + s.borrow) in
    add_back vn (suc k) (record { un = set s.un k (u32 t2); borrow = t2 / 2 ^ 32 })

pub record Digit : Type 0 where
  pub un : List ℕ
  pub limb : ℕ

-- One turn of the outer loop.
unfoldable pub divide_digit : List ℕ → List ℕ → ℕ → ℕ → Digit
unfolding estimate subtract add_back
divide_digit un vn n j =
    let qhat = estimate un vn n j in
    let less = subtract qhat vn j (record { un = un; borrow = 0 }) in
    let t = u64 (get_or less.un (j + n) 0 + 2 ^ 64 - less.borrow) in
    let cut = set less.un (j + n) (u32 t) in
    if is_negative 64 t
    then (let back = add_back vn j (record { un = cut; borrow = 0 }) in
        record {
          un = set back.un (j + n) (u32 (get_or back.un (j + n) 0 + u32 back.borrow));
          limb = u32 (u32 qhat + 2 ^ 32 - 1);
        })
    else (record { un = cut; limb = u32 qhat })

-- The outer loop, from `count - 1` down; the limbs of the quotient that are found go before `q`.
pub divide_loop : ℕ → ℕ → List ℕ → List ℕ → List ℕ → Division
unfolding divide_digit
divide_loop zero n un vn q = record { quotient = q; remainder = un }
divide_loop (suc j) n un vn q =
    let d = divide_digit un vn n j in divide_loop j n d.un vn (d.limb ∷ q)

-- The remainder is moved back down.
pub denormalize : ℕ → ℕ → List ℕ → List ℕ
denormalize s zero un = []
denormalize s (suc n) [] = []
denormalize s (suc n) (l ∷ ls) =
    u32 (bit_or (l / 2 ^ s) (u64 (get_or ls 0 0 * 2 ^ (32 - s)))) ∷ denormalize s n ls

unfoldable pub divmnu : List ℕ → List ℕ → Division
unfolding divide_short normalize normalize_wide divide_loop denormalize
divmnu u v =
    let m = length u in
    let n = length v in
    let one = divide_short u (get_or v 0 0) in
    let s = 32 - bit_width (get_or v (n - 1) 0) in
    let d = divide_loop (m - n + 1) n (normalize_wide s 0 u) (normalize s 0 v) [] in
    if n == 1
    then (record { quotient = one.limbs; remainder = one.rest ∷ [] })
    else (record { quotient = d.quotient; remainder = denormalize s n d.remainder })
