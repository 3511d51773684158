-- ===== src/Mir/ConstDivEmitter/Unsigned.antt =====
-- The code that `udiv` emits divides.
use foptim.Base.{
  ℕ, zero, suc, ◌+◌, ◌-◌, ◌*◌, ◌/◌, ◌^◌, ◌≤◌, ◌<◌, ◌≡◌, refl, sym, ap, ◌∙◌, false, Option, none,
  some, arith, ◌==◌, if◌then◌else◌, Bool-cases, inl, inr, some_eq, ◌⊎◌, ==_iff, subst, u64, dec_lt,
}
use foptim.Base.Bits.{countr_zero, has_single_bit, has_single_bit-pow}
use foptim.Base.Powers.{pow-add, pow_mono}
use foptim.ConstDiv.{UDivMagic, udiv_magic}
use foptim.ConstDiv.Unsigned.{Accepted, Plain}
use foptim.ConstDiv.Fixup.{Fixup, Fixup-div}
use foptim.ConstDiv.Entries.{udiv_magic-entry, udiv_magic-some, Plain-div}
use foptim.Mir.Machine.{MArgument, Regs}
use foptim.Mir.ConstDivEmitter.{
  Emitter, M, ◌>>=◌, return, shr, add, sub, mul_const, mulh, udiv, udiv_plain, udiv_fixup,
  udiv_entry, done,
}
use foptim.Mir.ConstDivEmitter.Track.{
  Sees, Keeps, Returns, Sees-Keeps, bind-Returns, return-Returns, shr-Returns, add-Returns,
  sub-Returns, mul_const-Returns, umulh-Returns, if-Returns, Returns-cast,
}
use native.Mathlib.Nat.{div-div-eq-div-mul, mod-eq_of_lt, mul-le-mul, div-le_self}

-- The widths of the matcher: a product of two narrow numbers fits a register.
abbrev pub IsWidth : ℕ → Type 0
IsWidth width = (width ≡ 64) ⊎ (width ≤ 32)

product-lt : (width a b : ℕ) → width ≤ 32 → a < 2 ^ width → b < 2 ^ width → a * b < 2 ^ 64
product-lt width a b h ha hb =
    let top = pow_mono width 32 h in
    let small_a : a ≤ 2 ^ 32 - 1 = omega arith in
    let small_b : b ≤ 2 ^ 32 - 1 = omega arith in omega (arith, mul-le-mul small_a small_b)

narrow : (width : ℕ) → (width == 64) ≡ false → IsWidth width → width ≤ 32
narrow width part (inl full) = ground arith
narrow width part (inr h) = h

module _ (r : Regs) (e : Emitter) (a : MArgument) (v : ℕ) (s : Sees r e a v) where
  -- The shift of the operand, left out when it is by 0.
  pre-Returns :
      (pre : ℕ)
      → pre < 64
      → Returns r e (v / 2 ^ pre) ((if pre == 0 then return a else shr a pre) e)
  pre-Returns pre h =
      if-Returns r e (pre == 0) (return a) (shr a pre) (v / 2 ^ pre)
        (λ z. return-Returns r e a (v / 2 ^ pre) (s.0, s.1 ∙ unshifted pre ((==_iff pre 0).0 z)))
        (λ z. shr-Returns r e a v s pre h)
    where
      unshifted : (n : ℕ) → n ≡ 0 → v ≡ v / 2 ^ n
      unshifted n z = rw z (omega arith)

  -- The product with the multiplier, shifted: by the high half on 64 bits.
  scaled-Returns :
      (width mul shift : ℕ)
      → IsWidth width
      → v < 2 ^ width
      → mul < 2 ^ width
      → (width ≡ 64 → 64 ≤ shift)
      → shift < 2 * width
      → Returns r e (v * mul / 2 ^ shift) (
          (if width == 64
              then (do p ← mulh a mul false; shr p (shift - 64))
              else (do p ← mul_const a mul; shr p shift))
            e)
  scaled-Returns width mul shift w hv hm big small =
      if-Returns r e (width == 64) _ _ (v * mul / 2 ^ shift)
        (λ full.
          let is_64 = (==_iff width 64).0 full in
          bind-Returns r e (mulh a mul false) (λ p. shr p (shift - 64)) (v * mul / 2 ^ 64)
            (v * mul / 2 ^ shift) (umulh-Returns r e a v mul s)
            (λ p e' seen kept.
              Returns-cast r e' _ _ _ (high_shift (v * mul) shift (big is_64))
                (shr-Returns r e' p _ seen (shift - 64) (omega (arith, is_64, small)))))
        (λ part.
          let exact : u64 (v * mul) ≡ v * mul =
            mod-eq_of_lt (product-lt width v mul (narrow width part w) hv hm) in
          bind-Returns r e (mul_const a mul) (λ p. shr p shift) (v * mul) (v * mul / 2 ^ shift)
            (Returns-cast r e _ _ _ exact (mul_const-Returns r e a v s mul))
            (λ p e' seen kept.
              shr-Returns r e' p _ seen shift (omega (arith, narrow width part w, small))))
    where
      high_shift : (n k : ℕ) → 64 ≤ k → n / 2 ^ 64 / 2 ^ (k - 64) ≡ n / 2 ^ k
      high_shift n k h =
          div-div-eq-div-mul n (2 ^ 64) (2 ^ (k - 64))
          ∙ ap (λ t. n / t) (sym (pow-add 64 (k - 64)))
          ∙ ap (λ t. n / 2 ^ t) (omega arith)

udiv_plain-Returns :
    (r : Regs) (e : Emitter) (a : MArgument) (v d width : ℕ) (g : UDivMagic)
    → Sees r e a v
    → IsWidth width
    → v < 2 ^ width
    → Accepted d width
    → Plain d width g
    → Returns r e (v / d) (udiv_plain a g width e)
unfolding udiv_plain
udiv_plain-Returns r e a v d width g s w hv acc p =
    let value = Plain-div v acc p hv in
    bind-Returns r e (if g.pre_shift == 0 then return a else shr a g.pre_shift) _
      (v / 2 ^ g.pre_shift) (v / d)
      (pre-Returns r e a v s g.pre_shift (omega (arith, p.pre_small, acc.narrow)))
      (λ y e' seen kept. Returns-cast r e' _ _ _ value.1 (
        scaled-Returns r e' y (v / 2 ^ g.pre_shift) seen width g.mul g.shift w
          (omega (arith, div-le_self v (2 ^ g.pre_shift))) p.mul_small p.shift_large p.shift_small))

-- The high part of the product, by the high half on 64 bits.
high_part-Returns :
    (r : Regs) (e : Emitter) (a : MArgument) (v mul width : ℕ)
    → Sees r e a v
    → IsWidth width
    → v < 2 ^ width
    → mul < 2 ^ width
    → Returns r e
        (v * mul / 2 ^ width)
        ((if width == 64 then mulh a mul false else (do p ← mul_const a mul; shr p width)) e)
high_part-Returns r e a v mul width s w hv hm =
    if-Returns r e (width == 64) _ _ (v * mul / 2 ^ width)
      (λ full.
        Returns-cast r e _ _ _ (ap (λ n. v * mul / 2 ^ n) (sym ((==_iff width 64).0 full)))
          (umulh-Returns r e a v mul s))
      (λ part.
        let exact : u64 (v * mul) ≡ v * mul =
          mod-eq_of_lt (product-lt width v mul (narrow width part w) hv hm) in
        bind-Returns r e (mul_const a mul) (λ p. shr p width) (v * mul) (v * mul / 2 ^ width)
          (Returns-cast r e _ _ _ exact (mul_const-Returns r e a v s mul))
          (λ p e' seen kept. shr-Returns r e' p _ seen width (omega (arith, narrow width part w))))

udiv_fixup-Returns :
    (r : Regs) (e : Emitter) (a : MArgument) (v d width : ℕ) (g : UDivMagic)
    → Sees r e a v
    → IsWidth width
    → v < 2 ^ width
    → Accepted d width
    → Fixup d width g
    → Returns r e (v / d) (udiv_fixup a g width e)
unfolding udiv_fixup
udiv_fixup-Returns r e a v d width g s w hv acc f =
    let value = Fixup-div v (omega (arith, acc.large)) f hv in
    let t = v * g.mul / 2 ^ width in
    let v-lt : v < 2 ^ 64 = omega (arith, pow_mono width 64 acc.narrow) in
    bind-Returns r e
      (if width == 64 then mulh a g.mul false else (do p ← mul_const a g.mul; shr p width))
      (λ y. do diff ← sub a y; u ← shr diff 1; total ← add u y; shr total (g.shift - 1)) t (v / d)
      (high_part-Returns r e a v g.mul width s w hv f.mul_small)
      λ y e₁ sees_t k₁.
        bind-Returns r e₁ (sub a y)
          (λ diff. do u ← shr diff 1; total ← add u y; shr total (g.shift - 1)) (v - t) (v / d)
          (Returns-cast r e₁ _ _ (sub a y e₁) (omega (arith, value.0))
            (sub-Returns r e₁ a v (Sees-Keeps r e e₁ a v k₁ s) y t sees_t))
          λ diff e₂ sees_diff k₂.
            bind-Returns r e₂ (shr diff 1) (λ u. do total ← add u y; shr total (g.shift - 1))
              ((v - t) / 2) (v / d) (shr-Returns r e₂ diff (v - t) sees_diff 1 (omega arith))
              λ u e₃ sees_u k₃.
                bind-Returns r e₃ (add u y) (λ total. shr total (g.shift - 1)) ((v - t) / 2 + t)
                  (v / d)
                  (Returns-cast r e₃ _ _ (add u y e₃) (mod-eq_of_lt (omega (arith, value.0))) (
                    add-Returns r e₃ u ((v - t) / 2) sees_u y t
                      (Sees-Keeps r e₂ e₃ y t k₃ (Sees-Keeps r e₁ e₂ y t k₂ sees_t))))
                  λ total e₄ sees_total k₄.
                    Returns-cast r e₄ _ _ (shr total (g.shift - 1) e₄) value.1 (
                      shr-Returns r e₄ total ((v - t) / 2 + t) sees_total (g.shift - 1)
                        (omega (arith, f.shift_small, acc.narrow)))

-- `done` succeeds with what it runs.
done-Returns :
    (r : Regs) (e : Emitter) (m : M MArgument) (v : ℕ) (q : MArgument)
    → Returns r e v (m e)
    → (done m e).0 ≡ some q
    → Returns r e v (q, (done m e).1)
done-Returns r e m v q h eq = subst (λ x. Returns r e v (x, (m e).1)) (some_eq _ _ eq) h

single_bit-Returns :
    (r : Regs) (e : Emitter) (a : MArgument) (v d : ℕ)
    → Sees r e a v
    → d < 2 ^ 64
    → d ≡ 2 ^ countr_zero d
    → Returns r e (v / d) ((if d == 1 then return a else shr a (countr_zero d)) e)
single_bit-Returns r e a v d s hd power =
    if-Returns r e (d == 1) (return a) (shr a (countr_zero d)) (v / d)
      (λ one. return-Returns r e a (v / d) (s.0, s.1 ∙ rw ((==_iff d 1).0 one) (omega arith)))
      (λ more.
        Returns-cast r e _ _ _ (ap (λ n. v / n) (sym power))
          (shr-Returns r e a v s (countr_zero d) (bits_small (countr_zero d) (rw power at hd))))
  where
    bits_small : (k : ℕ) → 2 ^ k < 2 ^ 64 → k < 64
    bits_small k h = elim (dec_lt k 64) [
      | yes p ↦ p
      | no p ↦ absurd (omega (arith, pow_mono 64 k (omega arith)))
    ]

-- Whenever `udiv` accepts the divisor, the code that it emits leaves the quotient in the register
-- that it returns, and keeps the registers that were handed out before.
pub udiv-Returns :
    (r : Regs) (e : Emitter) (a : MArgument) (v d width : ℕ) (q : MArgument)
    → Sees r e a v
    → IsWidth width
    → v < 2 ^ width
    → d < 2 ^ 64
    → (udiv a d width e).0 ≡ some q
    → Sees r (udiv a d width e).1 q (v / d) × Keeps r e (udiv a d width e).1
unfolding udiv
udiv-Returns r e a v d width q s w hv hd h = elim (Bool-cases (has_single_bit d)) [
  | inl one ↦ rw one (
      done-Returns r e (if d == 1 then return a else shr a (countr_zero d)) (v / d) q
        (single_bit-Returns r e a v d s hd (has_single_bit-pow d one)) (rw one at h))
  | inr many ↦ rw many (magic_code (udiv_magic d width) refl (rw many at h))
]
  where
    entry_code :
        (g : UDivMagic)
        → Accepted d width
        → Plain d width g ⊎ Fixup d width g
        → Returns r e (v / d) ((if g.add then udiv_fixup a g width else udiv_plain a g width) e)
    entry_code g acc (inl p) = rw p.no_add (udiv_plain-Returns r e a v d width g s w hv acc p)
    entry_code g acc (inr f) = rw f.has_add (udiv_fixup-Returns r e a v d width g s w hv acc f)

    magic_code :
        (o : Option UDivMagic)
        → udiv_magic d width ≡ o
        → (udiv_entry a o width e).0 ≡ some q
        → Returns r e (v / d) (q, (udiv_entry a o width e).1)
    magic_code none found eq = absurd (cc)
    magic_code (some g) found eq =
        let known = udiv_magic-entry d width g found in
        done-Returns r e (if g.add then udiv_fixup a g width else udiv_plain a g width) (v / d) q
          (entry_code g known.0 known.1) eq

single_below_three : (d : ℕ) → 0 < d → has_single_bit d ≡ false → 3 ≤ d
unfolding has_single_bit countr_zero
single_below_three zero h k = absurd (omega arith)
single_below_three (suc zero) h k = cc
single_below_three (suc (suc zero)) h k = cc
single_below_three (suc (suc (suc d))) h k = omega arith

udiv-some :
    (a : MArgument) (e : Emitter) (d width : ℕ)
    → IsWidth width
    → 2 ≤ width
    → 0 < d
    → d < 2 ^ (width - 1)
    → (q : MArgument) × ((udiv a d width e).0 ≡ some q)
unfolding udiv udiv_entry
udiv-some a e d width w wide pos half = elim (Bool-cases (has_single_bit d)) [
  | inl one ↦ ((((if d == 1 then return a else shr a (countr_zero d)) e).0), rw one)
  | inr many ↦
      let (g, found) =
        udiv_magic-some d width wide (width_le w) (single_below_three d pos many) half many in
      (((if g.add then udiv_fixup a g width else udiv_plain a g width) e).0, rw (many, found))
]
  where
    width_le : IsWidth width → width ≤ 64
    width_le (inl h) = omega arith
    width_le (inr h) = omega arith

-- For an operand register handed out before that holds v < 2^width, a width that is 64 or at least 2
-- and at most 32, and a divisor d with 0 < d < 2^(width-1), udiv succeeds; the instructions that it
-- has appended, run on any registers, leave v / d in the register that it returns, and every virtual
-- register handed out before keeps its value.
pub udiv-divides :
    (r : Regs) (e : Emitter) (a : MArgument) (v d width : ℕ)
    → Sees r e a v
    → IsWidth width
    → 2 ≤ width
    → v < 2 ^ width
    → 0 < d
    → d < 2 ^ (width - 1)
    → (q : MArgument) × ((udiv a d width e).0 ≡ some q)
      × Sees r (udiv a d width e).1 q (v / d)
      × Keeps r e (udiv a d width e).1
udiv-divides r e a v d width s w wide hv pos half =
    let (q, found) = udiv-some a e d width w wide pos half in
    let (sees, keeps) = udiv-Returns r e a v d width q s w hv (d-lt w) found in
    (q, found, sees, keeps)
  where
    d-lt : IsWidth width → d < 2 ^ 64
    d-lt (inl h) = omega (arith, pow_mono (width - 1) 64 (omega arith))
    d-lt (inr h) = omega (arith, pow_mono (width - 1) 64 (omega arith))
