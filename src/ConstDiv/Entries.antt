-- ===== src/ConstDiv/Entries.antt =====
-- What `udiv_magic` returns, for every divisor and width.
use foptim.Base.{
  ℕ, ◌+◌, ◌-◌, ◌*◌, ◌/◌, ◌^◌, ◌≤◌, ◌<◌, ◌≡◌, ◌≢◌, refl, ap, ◌∙◌, false, Option, none, some, subst,
  arith, ◌==◌, if◌then◌else◌, Bool-cases, inl, inr, some_eq, ◌⊎◌,
}
use foptim.Base.Bits.{countr_zero, countr_zero_divides, has_single_bit, has_single_bit-pow}
use foptim.Base.Options.{or_else}
use foptim.Base.Powers.{pow-add, pow-pos, pow_mono}
use foptim.ConstDiv.{UDivMagic, udiv_magic, udiv_refused, udiv_try, udiv_add}
use foptim.ConstDiv.Quotient.{IsMagic-div}
use foptim.ConstDiv.Unsigned.{Accepted, accepted, Plain, try-Plain}
use foptim.ConstDiv.Fixup.{Fixup, udiv_add-Fixup, Fixup-div}
use native.Mathlib.Nat.{div-div-eq-div-mul, div-lt_iff_lt-mul}

rejoin : (a b : ℕ) → b ≤ a → a ≡ a - b + b
rejoin a b h = omega arith

not_refused :
    (d width : ℕ)
    → 2 ≤ width
    → width ≤ 64
    → 3 ≤ d
    → d < 2 ^ (width - 1)
    → has_single_bit d ≡ false
    → udiv_refused d width ≡ false
unfolding udiv_refused
not_refused d width wide narrow large half several =
    let top = pow_mono (width - 1) 63 (omega arith) in ground arith

udiv_magic_step :
    (d width : ℕ)
    → udiv_refused d width ≡ false
    → udiv_magic d width
      ≡ or_else (udiv_try d width 0) (
          or_else
            (if countr_zero d == 0 then none else udiv_try d width (countr_zero d))
            (some (udiv_add d width)))
unfolding udiv_magic
udiv_magic_step d width h = rw h

or_else-some {ℓ} :
    {A : Type ℓ} (a b : Option A) (x : A) → or_else a b ≡ some x → (a ≡ some x) ⊎ (b ≡ some x)
or_else-some none b x h = inr h
or_else-some (some a) b x h = inl h

pub udiv_magic-entry :
    (d width : ℕ) (g : UDivMagic)
    → udiv_magic d width ≡ some g
    → Accepted d width × (Plain d width g ⊎ Fixup d width g)
unfolding udiv_magic
udiv_magic-entry d width g h = elim (Bool-cases (udiv_refused d width)) [
  | inl bad ↦ absurd (cc (rw bad at h))
  | inr good ↦ let a = accepted d width good in (a, tries a (or_else-some _ _ g (rw good at h)))
]
  where
    second :
        Accepted d width
        → ((if countr_zero d == 0 then none else udiv_try d width (countr_zero d)) ≡ some g)
          ⊎ (some (udiv_add d width) ≡ some g)
        → Plain d width g ⊎ Fixup d width g
    second a (inl t) = elim (Bool-cases (countr_zero d == 0)) [
      | inl z ↦ absurd (cc (rw z at t))
      | inr z ↦ inl (try-Plain d width (countr_zero d) a (countr_zero_divides d) g (rw z at t))
    ]
    second a (inr t) = inr (subst (Fixup d width) (some_eq _ _ t) (udiv_add-Fixup d width a))

    tries :
        Accepted d width
        → (udiv_try d width 0 ≡ some g)
          ⊎ (or_else
                (if countr_zero d == 0 then none else udiv_try d width (countr_zero d))
                (some (udiv_add d width))
              ≡ some g)
        → Plain d width g ⊎ Fixup d width g
    tries a (inl t) = inl (try-Plain d width 0 a (omega arith) g t)
    tries a (inr t) = second a (or_else-some _ _ g t)

-- The formula that the comment above `UDivMagic` gives, on unbounded products.
pub apply_udiv : UDivMagic → ℕ → ℕ → ℕ
apply_udiv g width x =
    let t = x * g.mul / 2 ^ width in
    if g.add
    then ((x - t) / 2 + t) / 2 ^ (g.shift - 1)
    else x / 2 ^ g.pre_shift * g.mul / 2 ^ g.shift

pub Plain-div :
    {d width : ℕ} {g : UDivMagic} (x : ℕ)
    → Accepted d width
    → Plain d width g
    → x < 2 ^ width
    → (x / 2 ^ g.pre_shift < 2 ^ (width - g.pre_shift))
      × (x / 2 ^ g.pre_shift * g.mul / 2 ^ g.shift ≡ x / d)
Plain-div {d} {width} {g} x a p hx =
    let fits : x / 2 ^ g.pre_shift < 2 ^ (width - g.pre_shift) =
      (div-lt_iff_lt-mul (pow-pos g.pre_shift)).1 (
        omega (
          arith,
          pow-add (width - g.pre_shift) g.pre_shift,
          ap (λ n. 2 ^ n) (rejoin width g.pre_shift (omega (arith, p.pre_small))),
        )) in
    (
      fits,
      IsMagic-div (x / 2 ^ g.pre_shift) p.reduced p.magic fits
          ∙ div-div-eq-div-mul x (2 ^ g.pre_shift) (d / 2 ^ g.pre_shift)
          ∙ ap (λ n. x / n) p.splits,
    )

-- Whatever entry `udiv_magic` returns, its formula is the division by `d` on every number of the
-- width.
pub udiv_magic-div :
    (d width x : ℕ) (g : UDivMagic)
    → udiv_magic d width ≡ some g
    → x < 2 ^ width
    → apply_udiv g width x ≡ x / d
unfolding apply_udiv
udiv_magic-div d width x g h hx =
    go (udiv_magic-entry d width g h).0 (udiv_magic-entry d width g h).1
  where
    go : Accepted d width → Plain d width g ⊎ Fixup d width g → apply_udiv g width x ≡ x / d
    go a (inl p) = rw p.no_add (Plain-div x a p hx).1
    go a (inr f) = rw f.has_add (Fixup-div x (omega (arith, a.large)) f hx).1

some-or_else {ℓ} :
    {A : Type ℓ} (a b : Option A) (x : A) → (y : A) × (or_else a (or_else b (some x)) ≡ some y)
some-or_else none none x = (x, refl)
some-or_else none (some b) x = (b, refl)
some-or_else (some a) b x = (a, refl)

-- A divisor from 3 up to half the range with several bits set has an entry.
pub udiv_magic-some :
    (d width : ℕ)
    → 2 ≤ width
    → width ≤ 64
    → 3 ≤ d
    → d < 2 ^ (width - 1)
    → has_single_bit d ≡ false
    → (g : UDivMagic) × (udiv_magic d width ≡ some g)
udiv_magic-some d width wide narrow large half several =
    let (g, e) =
      some-or_else (udiv_try d width 0)
        (if countr_zero d == 0 then none else udiv_try d width (countr_zero d))
        (udiv_add d width) in
    (g, udiv_magic_step d width (not_refused d width wide narrow large half several) ∙ e)

-- For a width from 2 to 64 and a divisor d with 3 <= d < 2^(width-1) that is no power of two,
-- udiv_magic returns an entry, and the formula that its comment documents for that entry gives x / d
-- for every x below 2^width.
pub udiv_magic-total :
    (d width : ℕ)
    → 2 ≤ width
    → width ≤ 64
    → 3 ≤ d
    → d < 2 ^ (width - 1)
    → ((k : ℕ) → d ≢ 2 ^ k)
    → (g : UDivMagic) × (udiv_magic d width ≡ some g)
      × ((x : ℕ) → x < 2 ^ width → apply_udiv g width x ≡ x / d)
udiv_magic-total d width wide narrow large half no_power =
    let (g, e) = udiv_magic-some d width wide narrow large half several in
    (g, e, λ x hx. udiv_magic-div d width x g e hx)
  where
    several : has_single_bit d ≡ false
    several = elim (Bool-cases (has_single_bit d)) [
      | inl one ↦ absurd (no_power (countr_zero d) (has_single_bit-pow d one))
      | inr many ↦ many
    ]
