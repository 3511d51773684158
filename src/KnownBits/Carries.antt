-- ===== src/KnownBits/Carries.antt =====
-- Carries of a sum between two bounds, bit by bit.
use foptim.Base.{
  ℕ, zero, suc, ◌+◌, ◌-◌, ◌*◌, ◌/◌, ◌%◌, ◌^◌, ◌≤◌, ◌<◌, ◌≡◌, ap, ap₂, ◌∙◌, subst, arith, min, max,
  ◌⊎◌, inl, inr,
}
use foptim.Base.Powers.{pow-pos, pow_double}
use foptim.Base.Digits.{bit_of}
use foptim.Base.Bitwise.{differ-sum}
use foptim.Base.BitLaws.{mod_split}
use native.Mathlib.Nat.{
  mul-le-mul_left, div-add-mod, mod-lt, add-mul-div_left, le-div_iff_mul-le, div-lt_iff_lt-mul,
  div-mul-le_self,
}
use Prim.Native.Nat.{differ}

-- The carry into bit `k` of `a + b + c`.
abbrev pub carry_in : ℕ → ℕ → ℕ → ℕ → ℕ
carry_in k a b c = (a % 2 ^ k + b % 2 ^ k + c) / 2 ^ k

pub bit_of-sum :
    (k a b c : ℕ) → bit_of k (a + b + c) ≡ (bit_of k a + bit_of k b + carry_in k a b c) % 2
bit_of-sum k a b c =
    let p = 2 ^ k in
    let whole : a + b + c ≡ a % p + b % p + c + p * (a / p + b / p) =
      omega (arith, div-add-mod a p, div-add-mod b p) in
    let high : (a + b + c) / p ≡ carry_in k a b c + (a / p + b / p) =
      ap (λ n. n / p) whole ∙ add-mul-div_left (a % p + b % p + c) (a / p + b / p) (pow-pos k) in
    omega (arith, high)

one_more : (n a : ℕ) → a % 2 ^ suc n ≡ a % 2 ^ n + 2 ^ n * bit_of n a
one_more n a =
    let p = 2 ^ n in
    let pos = pow-pos n in
    let whole : a ≡ a % p + p * (a / p) = omega (arith, div-add-mod a p) in
    ap (λ t. a % t) (pow_double n ∙ omega arith)
    ∙ ap (λ t. t % (p * 2)) whole
    ∙ mod_split p 2 (a % p) (a / p) (mod-lt a pos) (omega arith)

-- Fewer bits, a smaller number.
pub below_bits : (n a b : ℕ) → ((k : ℕ) → k < n → bit_of k a ≤ bit_of k b) → a % 2 ^ n ≤ b % 2 ^ n
below_bits zero a b h = omega arith
below_bits (suc n) a b h =
    let ih = below_bits n a b (λ k lt. h k (omega arith)) in
    let top = h n (omega arith) in
    omega (arith, ih, one_more n a, one_more n b, scaled (2 ^ n) (bit_of n a) (bit_of n b) top)
  where
    scaled : (p x y : ℕ) → x ≤ y → p * x ≤ p * y
    scaled p x y le = mul-le-mul_left p le

-- A known bit is the bit of the least and of the greatest operand.
settled : (z o a : ℕ) → o ≤ a → z + a ≤ 1 → 1 ≤ max z o → (1 - z ≡ a) × (o ≡ a)
settled z o a h k known = (omega arith, omega arith)

-- A known carry: the least and the greatest one agree.
agree_zero :
    (a b cx z0 z1 d e : ℕ)
    → 1 - z0 ≡ a
    → 1 - z1 ≡ b
    → z0 ≤ 1
    → z1 ≤ 1
    → cx ≤ 1
    → d + 2 * min ((a + b + cx) % 2) z0 ≡ (a + b + cx) % 2 + z0
    → e + 2 * min d z1 ≡ d + z1
    → 1 ≤ 1 - e
    → cx ≡ 0
agree_zero a b cx z0 z1 d e h k p q r s t u = omega (arith, s, t)

agree_one :
    (a b cn d e : ℕ)
    → cn ≤ 1
    → d + 2 * min ((a + b + cn) % 2) a ≡ (a + b + cn) % 2 + a
    → e + 2 * min d b ≡ d + b
    → 1 ≤ e
    → e ≤ 1
    → cn ≡ 1
agree_one a b cn d e h k p q r = omega (arith, k, p)

-- Where the result is known, the bits of the extreme sums and of the sum agree.
from_known :
    (psz pso s known : ℕ)
    → psz ≤ 1
    → pso ≤ 1
    → s ≤ 1
    → (1 ≤ known → (psz ≡ s) × (pso ≡ s))
    → (min (1 - psz) known + s ≤ 1) × (min pso known ≤ s)
from_known psz pso s zero p q r h = (omega arith, omega arith)
from_known psz pso s (suc known) p q r h =
    let e = h (omega arith) in (omega (arith, e.0), omega (arith, e.1))

same_carry :
    (a b cx cn c : ℕ)
    → cn ≤ c
    → c ≤ cx
    → cx ≤ 1
    → (cx ≡ 0) ⊎ (cn ≡ 1)
    → ((a + b + cx) % 2 ≡ (a + b + c) % 2) × ((a + b + cn) % 2 ≡ (a + b + c) % 2)
same_carry a b cx cn c h k p (inl e) = (omega arith, omega arith)
same_carry a b cx cn c h k p (inr e) = (omega arith, omega arith)

some_max : (p q : ℕ) → 1 ≤ max p q → (1 ≤ p) ⊎ (1 ≤ q)
some_max zero q h = inr (omega arith)
some_max (suc p) q h = inl (omega arith)

-- One bit: the carry `c` lies between that of the least and that of the greatest sum.
pub agree :
    (z0 o0 z1 o1 a b cx cn c : ℕ)
    → o0 ≤ a
    → z0 + a ≤ 1
    → o1 ≤ b
    → z1 + b ≤ 1
    → cn ≤ c
    → c ≤ cx
    → cx ≤ 1
    → let psz = (1 - z0 + (1 - z1) + cx) % 2 in
      let pso = (o0 + o1 + cn) % 2 in
      let s = (a + b + c) % 2 in
      let ckz = 1 - differ (differ psz z0) z1 in
      let cko = differ (differ pso o0) o1 in
      let known = min (min (max z0 o0) (max z1 o1)) (max ckz cko) in
      (min (1 - psz) known + s ≤ 1) × (min pso known ≤ s)
agree z0 o0 z1 o1 a b cx cn c h0 h1 h2 h3 h4 h5 h6 =
    let psz = (1 - z0 + (1 - z1) + cx) % 2 in
    let pso = (o0 + o1 + cn) % 2 in
    let d = differ psz z0 in
    let e = differ d z1 in
    let f = differ pso o0 in
    let g = differ f o1 in
    let d-sum = differ-sum psz z0 (omega arith) (omega arith) in
    let d-le : d ≤ 1 = omega (arith, d-sum) in
    let e-sum = differ-sum d z1 d-le (omega arith) in
    let f-sum = differ-sum pso o0 (omega arith) (omega arith) in
    let f-le : f ≤ 1 = omega (arith, f-sum) in
    let g-sum = differ-sum f o1 f-le (omega arith) in
    let g-le : g ≤ 1 = omega (arith, g-sum) in
    from_known psz pso ((a + b + c) % 2) (min (min (max z0 o0) (max z1 o1)) (max (1 - e) g))
      (omega arith) (omega arith) (omega arith)
      (λ known.
        let left = settled z0 o0 a h0 h1 (low_left _ _ _ known) in
        let right = settled z1 o1 b h2 h3 (low_right _ _ _ known) in
        let high : psz ≡ (a + b + cx) % 2 = ap₂ (λ p q. (p + q + cx) % 2) left.0 right.0 in
        let low : pso ≡ (a + b + cn) % 2 = ap₂ (λ p q. (p + q + cn) % 2) left.1 right.1 in
        let carry =
          same_carry a b cx cn c h4 h5 h6 (elim (some_max (1 - e) g (low_carry _ _ _ known)) [
            | inl p ↦ inl (
                agree_zero a b cx z0 z1 d e left.0 right.0 (omega arith) (omega arith) h6
                  (subst (λ t. d + 2 * min t z0 ≡ t + z0) high d-sum) e-sum p)
            | inr p ↦ inr (
                agree_one a b cn f g (omega arith)
                  (subst (λ t. f + 2 * min ((a + b + cn) % 2) t ≡ (a + b + cn) % 2 + t) left.1
                    (subst (λ t. f + 2 * min t o0 ≡ t + o0) low f-sum))
                  (subst (λ t. g + 2 * min f t ≡ f + t) right.1 g-sum) p g-le)
          ]) in
        (high ∙ carry.0, low ∙ carry.1))
  where
    low_left : (x y z : ℕ) → 1 ≤ min (min x y) z → 1 ≤ x
    low_left x y z h = omega arith

    low_right : (x y z : ℕ) → 1 ≤ min (min x y) z → 1 ≤ y
    low_right x y z h = omega arith

    low_carry : (x y z : ℕ) → 1 ≤ min (min x y) z → 1 ≤ z
    low_carry x y z h = omega arith

-- The carries are ordered as the operands are.
pub carry_mono :
    (k a b c a' b' c' : ℕ)
    → a % 2 ^ k ≤ a' % 2 ^ k
    → b % 2 ^ k ≤ b' % 2 ^ k
    → c ≤ c'
    → carry_in k a b c ≤ carry_in k a' b' c'
carry_mono k a b c a' b' c' h i j =
    (le-div_iff_mul-le (pow-pos k)).1
      (omega (arith, div-mul-le_self (a % 2 ^ k + b % 2 ^ k + c) (2 ^ k)))

pub carry_in-le : (k a b c : ℕ) → c ≤ 1 → carry_in k a b c ≤ 1
carry_in-le k a b c h =
    let low = mod-lt a (pow-pos k) in
    let low' = mod-lt b (pow-pos k) in
    let small : carry_in k a b c < 2 = (div-lt_iff_lt-mul (pow-pos k)).1 (omega arith) in
    omega (arith, small)

-- A bound on a number, on what it equals.
pub sum_at : {s t : ℕ} (z : ℕ) → s ≡ t → z + t ≤ 1 → z + s ≤ 1
sum_at z e le = omega (arith, e, le)

pub bound_at : {s t : ℕ} (z : ℕ) → s ≡ t → z ≤ t → z ≤ s
bound_at z e le = omega (arith, e, le)
