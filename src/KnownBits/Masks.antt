-- ===== src/KnownBits/Masks.antt =====
-- Integers described bit by bit, and the meaning of `KnownBits` for a number.
use foptim.Base.{ℕ, ◌+◌, ◌-◌, ◌≤◌, ◌<◌, ◌≡◌, refl, sym, ap, ap₂, ◌∙◌, subst, arith, min, max}
use foptim.Base.Digits.{bit_of, bit_of-and, bit_of-or, bit_of-complement}
use foptim.Base.Bitwise.{bit_of-op, bit_xor-IsBitwise}
use foptim.Words.{value}
use foptim.ApInt.{ApInt}
use foptim.ApInt.Cut.{IsValid, Is}
use foptim.ApInt.Bitwise.{and, or, xor, complement, and-Is, or-Is, xor-Is, complement-Is}
use foptim.KnownBits.{KnownBits}
use Prim.Native.Nat.{bit_xor, differ}

-- A well formed integer of `w` bits, bit `k` being `f k`.
pub record IsMask (x : ApInt) (w : ℕ) (f : ℕ → ℕ) : Type 0 where
  pub width : x.bits ≡ w
  pub valid : IsValid x
  pub bits : (k : ℕ) → k < w → bit_of k (value x.words) ≡ f k

pub valid-IsMask : (x : ApInt) → IsValid x → IsMask x x.bits (λ k. bit_of k (value x.words))
valid-IsMask x v = record { width = refl; valid = v; bits = λ k lt. refl }

pub Is-IsMask : (x : ApInt) (w n : ℕ) → Is x w n → IsMask x w (λ k. bit_of k n)
Is-IsMask x w n h = record {
  width = h.width;
  valid = h.valid;
  bits = λ k lt. ap (bit_of k) h.number;
}

module _ (x y : ApInt) (w : ℕ) (f g : ℕ → ℕ) (h : IsMask x w f) (i : IsMask y w g) where
  same : x.bits ≡ y.bits
  same = h.width ∙ sym i.width

  pub and-IsMask : IsMask (and x y) w (λ k. min (f k) (g k))
  and-IsMask =
      let r = and-Is x y h.valid i.valid same in
      record {
        width = r.width ∙ h.width;
        valid = r.valid;
        bits = λ k lt.
            ap (bit_of k) r.number
            ∙ bit_of-and k (value x.words) (value y.words)
            ∙ ap₂ min (h.bits k lt) (i.bits k lt);
      }

  pub or-IsMask : IsMask (or x y) w (λ k. max (f k) (g k))
  or-IsMask =
      let r = or-Is x y h.valid i.valid same in
      record {
        width = r.width ∙ h.width;
        valid = r.valid;
        bits = λ k lt.
            ap (bit_of k) r.number
            ∙ bit_of-or k (value x.words) (value y.words)
            ∙ ap₂ max (h.bits k lt) (i.bits k lt);
      }

  pub xor-IsMask : IsMask (xor x y) w (λ k. differ (f k) (g k))
  xor-IsMask =
      let r = xor-Is x y h.valid i.valid same in
      record {
        width = r.width ∙ h.width;
        valid = r.valid;
        bits = λ k lt.
            ap (bit_of k) r.number
            ∙ bit_of-op bit_xor differ bit_xor-IsBitwise k (value x.words) (value y.words)
            ∙ ap₂ differ (h.bits k lt) (i.bits k lt);
      }

pub complement-IsMask :
    (x : ApInt) (w : ℕ) (f : ℕ → ℕ) → IsMask x w f → IsMask (complement x) w (λ k. 1 - f k)
complement-IsMask x w f h =
    let r = complement-Is x h.valid in
    record {
      width = r.width ∙ h.width;
      valid = r.valid;
      bits = λ k lt.
          ap (bit_of k) r.number
          ∙ bit_of-complement x.bits k (value x.words) (subst (λ b. k < b) (sym h.width) lt)
              h.valid.cut
          ∙ ap (λ n. 1 - n) (h.bits k lt);
    }

-- The known bits are bits of the number `n` of `w` bits.
pub record Knows (b : KnownBits) (w n : ℕ) : Type 0 where
  pub zero_width : b.known_zero.bits ≡ w
  pub one_width : b.known_one.bits ≡ w
  pub zero_valid : IsValid b.known_zero
  pub one_valid : IsValid b.known_one
  pub ones : (k : ℕ) → k < w → bit_of k (value b.known_one.words) ≤ bit_of k n
  pub zeros : (k : ℕ) → k < w → bit_of k (value b.known_zero.words) + bit_of k n ≤ 1

-- From the bits of the two masks.
pub Knows-IsMask :
    (b : KnownBits) (w n : ℕ) (f g : ℕ → ℕ)
    → IsMask b.known_zero w f
    → IsMask b.known_one w g
    → ((k : ℕ) → k < w → f k + bit_of k n ≤ 1)
    → ((k : ℕ) → k < w → g k ≤ bit_of k n)
    → Knows b w n
Knows-IsMask b w n f g hf hg z o = record {
  zero_width = hf.width;
  one_width = hg.width;
  zero_valid = hf.valid;
  one_valid = hg.valid;
  ones = λ k lt. omega (arith, hg.bits k lt, o k lt);
  zeros = λ k lt. omega (arith, hf.bits k lt, z k lt);
}

-- The masks of what is known.
module _ (b : KnownBits) (w n : ℕ) (h : Knows b w n) where
  pub zero-IsMask : IsMask b.known_zero w (λ k. bit_of k (value b.known_zero.words))
  zero-IsMask =
      subst (λ v. IsMask b.known_zero v (λ k. bit_of k (value b.known_zero.words))) h.zero_width
        (valid-IsMask b.known_zero h.zero_valid)

  pub one-IsMask : IsMask b.known_one w (λ k. bit_of k (value b.known_one.words))
  one-IsMask =
      subst (λ v. IsMask b.known_one v (λ k. bit_of k (value b.known_one.words))) h.one_width
        (valid-IsMask b.known_one h.one_valid)
