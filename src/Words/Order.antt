-- ===== src/Words/Order.antt =====
-- `ucmp_n` compares the numbers.
use foptim.Base.{ℕ, ◌+◌, ◌*◌, ◌^◌, ◌<◌, ◌≡◌, List, [], ◌∷◌, length, arith, refl}
use foptim.Words.{value, ucmp_n}
use foptim.Words.Value.{AreWords}
use Prim.Native.Nat.{compare, Ordering}

compare_words :
    (x y v w : ℕ)
    → x < 2 ^ 64
    → y < 2 ^ 64
    → (elim (compare v w) [
      | Ordering.lt ↦ Ordering.lt
      | Ordering.eq ↦ compare x y
      | Ordering.gt ↦ Ordering.gt
    ])
      ≡ compare (x + 2 ^ 64 * v) (y + 2 ^ 64 * w)
compare_words x y v w hx hy = ground arith

pub ucmp_n-value :
    (xs ys : List ℕ)
    → AreWords xs
    → AreWords ys
    → length xs ≡ length ys
    → ucmp_n xs ys ≡ compare (value xs) (value ys)
unfolding value ucmp_n
ucmp_n-value [] [] hx hy e = refl
ucmp_n-value [] (y ∷ ys) hx hy e = absurd (omega arith)
ucmp_n-value (x ∷ xs) [] hx hy e = absurd (omega arith)
ucmp_n-value (x ∷ xs) (y ∷ ys) hx hy e =
    rw (ucmp_n-value xs ys hx.1 hy.1 (omega arith))
      (compare_words x y (value xs) (value ys) hx.0 hy.0)
