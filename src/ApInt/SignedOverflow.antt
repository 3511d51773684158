-- ===== src/ApInt/SignedOverflow.antt =====
-- The flags of `sadd_ov` and `ssub_ov`: the sum or difference of the integers leaves the range.
use foptim.Base.{
  ℕ, ◌+◌, ◌-◌, ◌*◌, ◌%◌, ◌^◌, ◌<◌, ◌≡◌, ap, ap₂, ◌∙◌, true, false, not, ◌&&◌, ◌||◌, arith, ltb, leb,
  if◌then◌else◌, Bool-cases, inl, inr, leb→le,
}
use foptim.Base.Powers.{pow-pos}
use foptim.Base.Modulus.{mod_unique}
use foptim.Base.Signed.{is_negative, biased, half}
use foptim.Words.{value}
use foptim.ApInt.{ApInt, add, sub}
use foptim.ApInt.Cut.{IsValid, Is}
use foptim.ApInt.Ring.{add-Is, sub-Is}
use foptim.ApInt.Bitwise.{is_neg}
use foptim.ApInt.Signs.{is_neg-exact}
use foptim.ApInt.SignedOrder.{differs, sadd_ov, ssub_ov, sign_y, y-lt}
use native.Mathlib.Nat.{mod-eq_of_lt}

-- A number below two moduli, cut.
once : (m n : ℕ) → n < 2 * m → n % m ≡ (if leb m n then n - m else n)
once m n h = elim (Bool-cases (leb m n)) [
  | inl over ↦
      let le = leb→le _ _ over in
      let whole : n ≡ n - m + m * 1 = omega arith in
      rw over (ap (λ t. t % m) whole ∙ mod_unique m (n - m) 1 (omega arith))
  | inr under ↦ rw under (mod-eq_of_lt (ground arith))
]

-- The sum of two integers, both moved up by half the range `h + h`.
sum_flag :
    (h m a c : ℕ)
    → m ≡ 2 * h
    → 0 < h
    → a < m
    → c < m
    → let up : ℕ → ℕ = λ n. if leb h n then n - h else n + h in
      (not (differs (leb h a) (leb h c)) && differs (leb h ((a + c) % m)) (leb h a))
      ≡ (ltb (up a + up c) h || leb (m + h) (up a + up c))
sum_flag h m a c e pos la lc = rw (once m (a + c) (omega arith)) (elim (Bool-cases (leb h a)) [
  | inl na ↦ elim (Bool-cases (leb h c)) [
    | inl nc ↦ let over : leb m (a + c) ≡ true = ground arith in rw (na, nc, over) (ground arith)
    | inr nc ↦ rw (na, nc) (ground arith)
  ]
  | inr na ↦ elim (Bool-cases (leb h c)) [
    | inl nc ↦ rw (na, nc) (ground arith)
    | inr nc ↦ let under : leb m (a + c) ≡ false = ground arith in rw (na, nc, under) (ground arith)
  ]
])

difference_flag :
    (h m a c : ℕ)
    → m ≡ 2 * h
    → 0 < h
    → a < m
    → c < m
    → let up : ℕ → ℕ = λ n. if leb h n then n - h else n + h in
      (differs (leb h a) (leb h c) && differs (leb h ((a + m - c) % m)) (leb h a))
      ≡ (ltb (up a + h) (up c) || leb (m + up c) (up a + h))
difference_flag h m a c e pos la lc = elim (Bool-cases (leb h a)) [
  | inl na ↦ elim (Bool-cases (leb h c)) [
    | inl nc ↦ rw (na, nc) (ground arith)
    | inr nc ↦
        let over : leb m (a + m - c) ≡ true = ground arith in
        rw (once m (a + m - c) (ground arith), na, nc, over) (ground arith)
  ]
  | inr na ↦ elim (Bool-cases (leb h c)) [
    | inl nc ↦
        let under : leb m (a + m - c) ≡ false = ground arith in
        rw (once m (a + m - c) (ground arith), na, nc, under) (ground arith)
    | inr nc ↦ rw (na, nc) (ground arith)
  ]
]

module _ (x y : ApInt) (v : IsValid x) (w : IsValid y) (same : x.bits ≡ y.bits) where
  -- With both operands well formed (as many words as the width needs, every word below 2^64, unused
  -- high bits zero) and of the same width, sadd_ov returns the sum modulo 2^bits, and its flag is
  -- set exactly when the sum of the two's complement integers is below the least or above the
  -- greatest integer of the width.
  pub sadd_ov-exact :
      let sum = biased x.bits (value x.words) + biased x.bits (value y.words) in
      Is (sadd_ov x y).result x.bits ((value x.words + value y.words) % 2 ^ x.bits)
      × ((sadd_ov x y).ov ≡ (ltb sum (2 ^ (x.bits - 1)) || leb (2 ^ x.bits + 2 ^ (x.bits - 1)) sum))
  unfolding sadd_ov biased
  sadd_ov-exact =
      let s = add-Is x y v w same in
      let sign : is_neg (add x y)
          ≡ is_negative x.bits ((value x.words + value y.words) % 2 ^ x.bits) =
        is_neg-exact (add x y) s.valid ∙ ap₂ is_negative s.width s.number in
      (
        s,
        rw (is_neg-exact x v, sign_y x y v w same, sign)
            (sum_flag (2 ^ (x.bits - 1)) (2 ^ x.bits) (value x.words) (value y.words)
              (half x.bits v.shape.positive) (pow-pos (x.bits - 1)) v.cut (y-lt x y v w same)),
      )

  pub ssub_ov-exact :
      let a = biased x.bits (value x.words) in
      let c = biased x.bits (value y.words) in
      Is (ssub_ov x y).result x.bits ((value x.words + 2 ^ x.bits - value y.words) % 2 ^ x.bits)
      × ((ssub_ov x y).ov
          ≡ (ltb (a + 2 ^ (x.bits - 1)) c || leb (2 ^ x.bits + c) (a + 2 ^ (x.bits - 1))))
  unfolding ssub_ov biased
  ssub_ov-exact =
      let s = sub-Is x y v w same in
      let sign : is_neg (sub x y)
          ≡ is_negative x.bits ((value x.words + 2 ^ x.bits - value y.words) % 2 ^ x.bits) =
        is_neg-exact (sub x y) s.valid ∙ ap₂ is_negative s.width s.number in
      (
        s,
        rw (is_neg-exact x v, sign_y x y v w same, sign)
            (difference_flag (2 ^ (x.bits - 1)) (2 ^ x.bits) (value x.words) (value y.words)
              (half x.bits v.shape.positive) (pow-pos (x.bits - 1)) v.cut (y-lt x y v w same)),
      )
