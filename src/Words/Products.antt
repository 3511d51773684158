-- ===== src/Words/Products.antt =====
-- `mul_n` computes the product, cut to the length of the result.
use foptim.Base.{
  ℕ, suc, ◌+◌, ◌-◌, ◌*◌, ◌/◌, ◌%◌, ◌^◌, ◌≤◌, ◌<◌, ◌≡◌, List, [], ◌∷◌, length, arith, ap, ap₂, ◌∙◌,
  sym, refl, subst, u64, u128, replicate, length-replicate,
}
use foptim.Base.BitLaws.{mod_split}
use foptim.Words.{value, mul_row, mul_rows, mul_n, above_lowest}
use foptim.Words.Value.{
  AreWords, capacity, capacity_pos, value-lt, value-replicate, replicate-AreWords,
}
use native.Mathlib.Nat.{mod-eq_of_lt, mul-le-mul, add-mod-mod, add-zero}

digit_mul :
    (a b r c : ℕ)
    → a < 2 ^ 64
    → b < 2 ^ 64
    → r < 2 ^ 64
    → c < 2 ^ 64
    → let t = u128 (a * b + r + c) in u64 t + 2 ^ 64 * u64 (t / 2 ^ 64) ≡ a * b + r + c
digit_mul a b r c ha hb hr hc =
    let small_a : a ≤ 2 ^ 64 - 1 = omega arith in
    let small_b : b ≤ 2 ^ 64 - 1 = omega arith in
    let top = mul-le-mul small_a small_b in omega arith

mul_row-value :
    (a : ℕ) (ys rs : List ℕ) (c : ℕ)
    → a < 2 ^ 64
    → AreWords ys
    → AreWords rs
    → c < 2 ^ 64
    → length rs ≤ length ys
    → let w = mul_row a ys rs c in
      (value w ≡ (a * value ys + value rs + c) % capacity (length rs))
      × AreWords w
      × (length w ≡ length rs)
unfolding value mul_row
mul_row-value a ys [] c ha hy hr hc e = (omega arith, tt, refl)
mul_row-value a [] (r ∷ rs) c ha hy hr hc e = absurd (omega arith)
mul_row-value a (y ∷ ys) (r ∷ rs) c ha hy hr hc e =
    let t = u128 (a * y + r + c) in
    let d = digit_mul a y r c ha hy.0 hr.0 hc in
    let ih = mul_row-value a ys rs (u64 (t / 2 ^ 64)) ha hy.1 hr.1 (omega arith) (omega arith) in
    let split =
      mod_split (2 ^ 64) (capacity (length rs)) (u64 t) (a * value ys + value rs + u64 (t / 2 ^ 64))
        (omega arith) (capacity_pos (length rs)) in
    let whole : u64 t + 2 ^ 64 * (a * value ys + value rs + u64 (t / 2 ^ 64))
        ≡ a * (y + 2 ^ 64 * value ys) + (r + 2 ^ 64 * value rs) + c =
      omega (arith, d) in
    (
      ap (λ v. u64 t + 2 ^ 64 * v) ih.0
          ∙ sym split
          ∙ ap (λ n. n % capacity (length (r ∷ rs))) whole,
      (omega arith, ih.1),
      omega (arith, ih.2),
    )

-- What the rows above the lowest word contribute.
above_lowest-value :
    (f : List ℕ → List ℕ) (k n : ℕ)
    → ((ws : List ℕ)
        → AreWords ws
        → length ws ≡ n
        → (value (f ws) ≡ (k + value ws) % capacity n) × AreWords (f ws) × (length (f ws) ≡ n))
    → (w : List ℕ) → AreWords w
    → length w ≡ suc n
    → let r = above_lowest f w in
      (value r ≡ (2 ^ 64 * k + value w) % capacity (suc n)) × AreWords r × (length r ≡ suc n)
unfolding value above_lowest
above_lowest-value f k n h [] hw e = absurd (omega arith)
above_lowest-value f k n h (w ∷ ws) hw e =
    let rest = h ws hw.1 (omega arith) in
    let whole : w + 2 ^ 64 * (k + value ws) ≡ 2 ^ 64 * k + (w + 2 ^ 64 * value ws) = omega arith in
    (
      ap (λ v. w + 2 ^ 64 * v) rest.0
          ∙ sym (mod_split (2 ^ 64) (capacity n) w (k + value ws) hw.0 (capacity_pos n))
          ∙ ap (λ v. v % capacity (suc n)) whole,
      (hw.0, rest.1),
      omega (arith, rest.2),
    )

mul_rows-value :
    (xs ys rs : List ℕ)
    → AreWords xs
    → AreWords ys
    → AreWords rs
    → length rs ≤ length ys
    → let w = mul_rows xs ys rs in
      (value w ≡ (value xs * value ys + value rs) % capacity (length rs))
      × AreWords w
      × (length w ≡ length rs)
unfolding value mul_rows
mul_rows-value [] ys rs hx hy hr e =
    let sum : value rs ≡ 0 * value ys + value rs = omega arith in
    (sym (mod-eq_of_lt (value-lt rs hr)) ∙ ap (λ n. n % capacity (length rs)) sum, hr, refl)
mul_rows-value (x ∷ xs) ys [] hx hy hr e = unfold mul_row above_lowest in (omega arith, tt, refl)
mul_rows-value (x ∷ xs) ys (r ∷ rs) hx hy hr e =
    let row = mul_row-value x ys (r ∷ rs) 0 hx.0 hy hr (omega arith) e in
    let k = value xs * value ys in
    let all =
      above_lowest-value (mul_rows xs ys) k (length rs)
        (λ ws hw same.
          let ih = mul_rows-value xs ys ws hx.1 hy hw (omega arith) in
          (
            subst (λ n. value (mul_rows xs ys ws) ≡ (k + value ws) % capacity n) same ih.0,
            ih.1,
            ih.2 ∙ same,
          ))
        (mul_row x ys (r ∷ rs) 0) row.1 row.2 in
    let cap = capacity (length (r ∷ rs)) in
    let whole : 2 ^ 64 * k + (x * value ys + value (r ∷ rs) + 0)
        ≡ value (x ∷ xs) * value ys + value (r ∷ rs) =
      omega arith in
    (
      all.0
          ∙ ap (λ n. (2 ^ 64 * k + n) % cap) row.0
          ∙ add-mod-mod (2 ^ 64 * k) (x * value ys + value (r ∷ rs) + 0) cap
          ∙ ap (λ n. n % cap) whole,
      all.1,
      all.2,
    )

-- The words of the product, cut to as many words as the factors have.
pub mul_n-value :
    (xs ys : List ℕ)
    → AreWords xs
    → AreWords ys
    → length xs ≡ length ys
    → (value (mul_n xs ys) ≡ (value xs * value ys) % capacity (length xs))
      × AreWords (mul_n xs ys)
      × (length (mul_n xs ys) ≡ length xs)
unfolding mul_n
mul_n-value xs ys hx hy e =
    let zeros = replicate (length xs) 0 in
    let same : length zeros ≡ length xs = length-replicate (length xs) 0 in
    let m =
      mul_rows-value xs ys zeros hx hy (replicate-AreWords (length xs)) (omega (arith, same)) in
    (
      m.0
          ∙ ap₂ (λ v n. (value xs * value ys + v) % capacity n) (value-replicate (length xs)) same
          ∙ ap (λ n. n % capacity (length xs)) (add-zero (value xs * value ys)),
      m.1,
      m.2 ∙ same,
    )
