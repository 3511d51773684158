-- ===== src/Words/Sums.antt =====
-- `add_n` and `sub_n` add and subtract, and their carry says what is lost.
use foptim.Base.{
  ℕ, zero, suc, ◌+◌, ◌-◌, ◌*◌, ◌/◌, ◌^◌, ◌≤◌, ◌<◌, ◌≡◌, List, [], ◌∷◌, length, arith, sym, refl,
  subst, u64, u128, ltb, if◌then◌else◌,
}
use foptim.Base.BitLaws.{low_mask}
use foptim.Words.{value, add_from, add_n, sub_from, sub_n}
use foptim.Words.Value.{AreWords, capacity, value-lt}
use Prim.Native.Nat.{bit_and}

digit_add :
    (x y c : ℕ)
    → x < 2 ^ 64
    → y < 2 ^ 64
    → c ≤ 1
    → let t = u128 (x + y + c) in
      (u64 t + 2 ^ 64 * u64 (t / 2 ^ 64) ≡ x + y + c) × (u64 (t / 2 ^ 64) ≤ 1)
digit_add x y c hx hy hc = omega arith

digit_sub :
    (x y c : ℕ)
    → x < 2 ^ 64
    → y < 2 ^ 64
    → c ≤ 1
    → let t = u128 (x + 2 ^ 128 - y - c) in
      let b = bit_and (u64 (t / 2 ^ 64)) 1 in (u64 t + y + c ≡ x + 2 ^ 64 * b) × (b ≤ 1)
digit_sub x y c hx hy hc = omega (arith, low_mask 1 (u64 (u128 (x + 2 ^ 128 - y - c) / 2 ^ 64)))

add_from-value :
    (c : ℕ) (xs ys : List ℕ)
    → c ≤ 1
    → AreWords xs
    → AreWords ys
    → length xs ≡ length ys
    → let s = add_from c xs ys in
      (value s.words + capacity (length xs) * s.carry ≡ value xs + value ys + c)
      × AreWords s.words
      × (length s.words ≡ length xs)
      × (s.carry ≤ 1)
unfolding value add_from
add_from-value c [] [] hc hx hy e = (omega arith, tt, refl, hc)
add_from-value c [] (y ∷ ys) hc hx hy e = absurd (omega arith)
add_from-value c (x ∷ xs) [] hc hx hy e = absurd (omega arith)
add_from-value c (x ∷ xs) (y ∷ ys) hc hx hy e =
    let d = digit_add x y c hx.0 hy.0 hc in
    let ih = add_from-value (u64 (u128 (x + y + c) / 2 ^ 64)) xs ys d.1 hx.1 hy.1 (omega arith) in
    (omega (arith, d.0, ih.0), (omega arith, ih.1), omega (arith, ih.2), ih.3)

sub_from-value :
    (c : ℕ) (xs ys : List ℕ)
    → c ≤ 1
    → AreWords xs
    → AreWords ys
    → length xs ≡ length ys
    → let s = sub_from c xs ys in
      (value s.words + value ys + c ≡ value xs + capacity (length xs) * s.carry)
      × AreWords s.words
      × (length s.words ≡ length xs)
      × (s.carry ≤ 1)
unfolding value sub_from
sub_from-value c [] [] hc hx hy e = (omega arith, tt, refl, hc)
sub_from-value c [] (y ∷ ys) hc hx hy e = absurd (omega arith)
sub_from-value c (x ∷ xs) [] hc hx hy e = absurd (omega arith)
sub_from-value c (x ∷ xs) (y ∷ ys) hc hx hy e =
    let d = digit_sub x y c hx.0 hy.0 hc in
    let b = bit_and (u64 (u128 (x + 2 ^ 128 - y - c) / 2 ^ 64)) 1 in
    let ih = sub_from-value b xs ys d.1 hx.1 hy.1 (omega arith) in
    (omega (arith, d.0, ih.0), (omega arith, ih.1), omega (arith, ih.2), ih.3)

-- The words of the sum and the carry out of it make up the whole sum.
pub add_n-value :
    (xs ys : List ℕ)
    → AreWords xs
    → AreWords ys
    → length xs ≡ length ys
    → let s = add_n xs ys in
      (value s.words + capacity (length xs) * s.carry ≡ value xs + value ys)
      × AreWords s.words
      × (length s.words ≡ length xs)
unfolding add_n
add_n-value xs ys hx hy e =
    let s = add_from-value 0 xs ys (omega arith) hx hy e in (omega (arith, s.0), s.1, s.2)

-- The words of the difference, with the borrow out of it counted at the top. The borrow is 1
-- exactly when the difference is negative.
pub sub_n-value :
    (xs ys : List ℕ)
    → AreWords xs
    → AreWords ys
    → length xs ≡ length ys
    → let s = sub_n xs ys in
      (value s.words + value ys ≡ value xs + capacity (length xs) * s.carry)
      × AreWords s.words
      × (length s.words ≡ length xs)
      × (s.carry ≡ (if ltb (value xs) (value ys) then 1 else 0))
unfolding sub_n
sub_n-value xs ys hx hy e =
    let s = sub_from-value 0 xs ys (omega arith) hx hy e in
    (
      omega (arith, s.0),
      s.1,
      s.2,
      borrow_bit (sub_from 0 xs ys).carry (value (sub_from 0 xs ys).words) (value xs) (value ys)
          (capacity (length xs)) s.3 (omega (arith, s.0)) (value-lt xs hx)
          (subst (λ n. value ys < capacity n) (sym e) (value-lt ys hy))
          (subst (λ n. value (sub_from 0 xs ys).words < capacity n) s.2 (value-lt _ s.1)),
    )
  where
    borrow_bit :
        (b v x y k : ℕ)
        → b ≤ 1
        → v + y ≡ x + k * b
        → x < k
        → y < k
        → v < k
        → b ≡ (if ltb x y then 1 else 0)
    borrow_bit zero v x y k hb h hx hy hv = ground arith
    borrow_bit (suc zero) v x y k hb h hx hy hv = ground arith
    borrow_bit (suc (suc b)) v x y k hb h hx hy hv = absurd (omega arith)
