-- ===== src/Base/Multiples.antt =====
-- Multiples of powers of two, with the quotient at hand.
use foptim.Base.{ℕ, ◌+◌, ◌-◌, ◌*◌, ◌%◌, ◌^◌, ◌≤◌, ◌≡◌, ap, ap₂, sym, ◌∙◌, arith}
use foptim.Base.Powers.{pow-add, pow-pos}
use foptim.Base.Modulus.{pow-split, mod_unique}

abbrev pub IsMultiple : ℕ → ℕ → Type 0
IsMultiple t v = (q : ℕ) × (v ≡ 2 ^ t * q)

pub zero-IsMultiple : (t : ℕ) → IsMultiple t 0
zero-IsMultiple t = (0, omega arith)

pub mul-IsMultiple : (t s a b : ℕ) → IsMultiple t a → IsMultiple s b → IsMultiple (t + s) (a * b)
mul-IsMultiple t s a b (p, h) (q, k) = (
  p * q,
  ap₂ (λ (x y : ℕ). x * y) h k
      ∙ regroup (2 ^ t) (2 ^ s)
      ∙ ap (λ (n : ℕ). n * (p * q)) (sym (pow-add t s)),
)
  where
    regroup : (x y : ℕ) → x * p * (y * q) ≡ x * y * (p * q)
    regroup x y = grind arith

pub add-IsMultiple : (t a b : ℕ) → IsMultiple t a → IsMultiple t b → IsMultiple t (a + b)
add-IsMultiple t a b (p, h) (q, k) = (p + q, omega (arith, h, k))

pub smaller-IsMultiple : (s t v : ℕ) → s ≤ t → IsMultiple t v → IsMultiple s v
smaller-IsMultiple s t v le (q, h) =
    (2 ^ (t - s) * q, h ∙ ap (λ (n : ℕ). n * q) (pow-split t s le) ∙ assoc (2 ^ s) (2 ^ (t - s)))
  where
    assoc : (x y : ℕ) → x * y * q ≡ x * (y * q)
    assoc x y = grind arith

pub mod-IsMultiple : (t v : ℕ) → IsMultiple t v → v % 2 ^ t ≡ 0
mod-IsMultiple t v (q, h) =
    ap (λ n. n % 2 ^ t) (h ∙ omega arith) ∙ mod_unique (2 ^ t) 0 q (pow-pos t)
