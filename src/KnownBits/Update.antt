-- ===== src/KnownBits/Update.antt =====
-- The case of a binary operation against what the operation means and what the interpreter computes.
use foptim.Base.{
  ℕ, ◌≢◌, ◌+◌, ◌*◌, ◌/◌, ◌%◌, ◌^◌, ◌≤◌, ◌<◌, ◌≡◌, refl, sym, ap₂, ◌∙◌, subst, Bool, true, false,
  not, ◌==◌, ◌||◌, leb, if◌then◌else◌, ==_iff, arith, Option, none, some,
}
use foptim.Base.Signed.{sar}
use foptim.Words.{value}
use foptim.ApInt.{ApInt}
use foptim.ApInt.Cut.{IsValid}
use foptim.ApInt.Divide.{signed_div, signed_rem}
use foptim.Ir.{BinaryInstrSubType}
use foptim.Ir.Interpreter.{int_binary}
use foptim.Ir.Interpreter.Arithmetic.{meaning, Agrees, int_binary-Agrees}
use mathlib.Core.Option.{some_inj}
use foptim.KnownBits.{KnownBits}
use foptim.KnownBits.Masks.{Knows}
use foptim.KnownBits.Logic.{known_and-Knows, known_or-Knows, known_xor-Knows}
use foptim.KnownBits.Sums.{known_add-Knows, known_sub-Knows}
use foptim.KnownBits.Values.{known_urem-Knows}
use foptim.KnownBits.Products.{compute_mul-Knows}
use foptim.KnownBits.Divisions.{known_udiv-Knows, known_sdiv-Knows, known_srem-Knows}
use foptim.KnownBits.ShiftAmounts.{known_shr-Knows, known_shl-Knows, known_ashr-Knows}
use foptim.KnownBits.Instructions.{by_case, binary_at, update_binary}

-- The masks know the result, if there is one.
abbrev KnowsResult : KnownBits → ℕ → Option ℕ → Type 0
KnowsResult b w none = Unit {0}
KnowsResult b w (some r) = Knows b w r

-- The result of a test that refuses.
guarded :
    (c : Bool) (b : KnownBits) (w r : ℕ)
    → (c ≡ false → Knows b w r)
    → KnowsResult b w (if c then none else some r)
guarded true b w r h = tt
guarded false b w r h = h refl

guarded_twice :
    (c d : Bool) (b : KnownBits) (w r : ℕ)
    → (c ≡ false → d ≡ false → Knows b w r)
    → KnowsResult b w (if c then none else if d then none else some r)
guarded_twice true d b w r h = tt
guarded_twice false true b w r h = tt
guarded_twice false false b w r h = h refl refl

-- What the masks before the update know, under the same tests.
kept :
    (c : Bool) (o b : KnownBits) (w r : ℕ)
    → (Knows o w r → Knows b w r)
    → KnowsResult o w (if c then none else some r)
    → KnowsResult b w (if c then none else some r)
kept true o b w r f h = tt
kept false o b w r f h = f h

kept_twice :
    (c d : Bool) (o b : KnownBits) (w r : ℕ)
    → (Knows o w r → Knows b w r)
    → KnowsResult o w (if c then none else if d then none else some r)
    → KnowsResult b w (if c then none else if d then none else some r)
kept_twice true d o b w r f h = tt
kept_twice false true o b w r f h = tt
kept_twice false false o b w r f h = f h

not_zero : (n : ℕ) → (n == 0) ≡ false → n ≢ 0
not_zero n e z = ground arith

below : (w n : ℕ) → leb w n ≡ false → n < w
below w n e = ground arith

module _ (old a b : KnownBits) (w m n : ℕ) (lm : m < 2 ^ w) (ln : n < 2 ^ w)
    (room : w + 126 < 2 ^ 32) (h : Knows a w m) (i : Knows b w n) where
  -- The masks before the update know the result as well.
  binary_at-Knows :
      (op : BinaryInstrSubType)
      → KnowsResult old w (meaning op w m n)
      → KnowsResult (binary_at w op old a b) w (meaning op w m n)
  unfolding binary_at
  binary_at-Knows op before = rw (matching, binary_at) (cases op before)
    where
      matching : (not (a.known_one.bits == w) || not (b.known_one.bits == w)) ≡ false
      matching =
          ap₂ (λ p q. not p || not q) ((==_iff _ w).1 h.one_width) ((==_iff _ w).1 i.one_width)

      cases :
          (op : BinaryInstrSubType)
          → KnowsResult old w (meaning op w m n)
          → KnowsResult (by_case w op old a b) w (meaning op w m n)
      cases BinaryInstrSubType.ptr_add k = known_add-Knows a b w m n h i
      cases BinaryInstrSubType.int_add k = known_add-Knows a b w m n h i
      cases BinaryInstrSubType.int_sub k = known_sub-Knows a b w m n ln h i
      cases BinaryInstrSubType.int_mul k = compute_mul-Knows a b w m n lm ln h i
      cases BinaryInstrSubType.and k = known_and-Knows a b w m n h i
      cases BinaryInstrSubType.or k = known_or-Knows a b w m n h i
      cases BinaryInstrSubType.xor k = known_xor-Knows a b w m n h i
      cases BinaryInstrSubType.shl k =
          guarded (leb w n) _ w (m * 2 ^ n % 2 ^ w)
            (λ e. known_shl-Knows a b w m n lm ln (below w n e) h i)
      cases BinaryInstrSubType.shr k =
          guarded (leb w n) _ w (m / 2 ^ n) (λ e. known_shr-Knows a b w m n lm ln (below w n e) h i)
      cases BinaryInstrSubType.ashr k =
          guarded (leb w n) _ w (sar w m n)
            (λ e. known_ashr-Knows a b w m n lm ln (below w n e) h i room)
      cases BinaryInstrSubType.int_urem k =
          guarded (n == 0) _ w (m % n) (λ e. known_urem-Knows a b w m n lm ln h i)
      cases BinaryInstrSubType.int_udiv k =
          kept (n == 0) old _ w (m / n) (known_udiv-Knows old a b w m n lm ln h i) k
      cases BinaryInstrSubType.int_sdiv k =
          kept_twice (n == 0) _ old _ w (signed_div w m n)
            (known_sdiv-Knows old a b w m n lm ln h i) k
      cases BinaryInstrSubType.int_srem k =
          guarded_twice (n == 0) _ _ w (signed_rem w m n)
            (λ e f. known_srem-Knows old a b w m n lm ln h i (not_zero n e))
      cases BinaryInstrSubType.float_add k = tt
      cases BinaryInstrSubType.float_sub k = tt
      cases BinaryInstrSubType.float_mul k = tt
      cases BinaryInstrSubType.float_div k = tt

-- What the interpreter computes is what the masks know.
from_agreement :
    (o : Option ApInt) (w : ℕ) (r : Option ℕ) (b : KnownBits)
    → Agrees o w r
    → (z : ApInt) → o ≡ some z
    → KnowsResult b w r
    → Knows b w (value z.words)
from_agreement none w r b g z e k = absurd (cc)
from_agreement (some x) w none b g z e k = absurd g
from_agreement (some x) w (some n) b g z e k =
    subst (λ t. Knows b w (value t.words)) (some_inj.0 e) (subst (Knows b w) (sym g.number) k)

to_agreement :
    (o : Option ApInt) (w : ℕ) (r : Option ℕ) (b : KnownBits)
    → Agrees o w r
    → ((z : ApInt) → o ≡ some z → Knows b w (value z.words))
    → KnowsResult b w r
to_agreement o w none b g f = tt
to_agreement none w (some n) b g f = absurd g
to_agreement (some x) w (some n) b g f = subst (Knows b w) g.number (f x refl)

module _ (x y z : ApInt) (vx : IsValid x) (vy : IsValid y) (same : x.bits ≡ y.bits)
    (narrow : x.bits ≤ 128) (old a b : KnownBits) (op : BinaryInstrSubType) where
  -- For two well formed operands of one width w of at most 128 bits and every binary operation that
  -- the interpreter evaluates on them: when the masks of the operands know the operands and the old
  -- masks of the result know the value that the interpreter computes, the masks after the update
  -- know that value; a mask pair knows a number at width w when both masks are well formed integers
  -- of width w, every bit set in known_one is one in the low w bits of the number and every bit set
  -- in known_zero is zero there.
  pub update_binary-Knows :
      Knows a x.bits (value x.words)
      → Knows b x.bits (value y.words)
      → int_binary op x.bits x y ≡ some z
      → Knows old x.bits (value z.words)
      → Knows (update_binary op old a b) x.bits (value z.words)
  unfolding update_binary
  update_binary-Knows h i e before =
      let w = x.bits in
      let g = int_binary-Agrees x y vx vy same narrow op in
      let r = meaning op w (value x.words) (value y.words) in
      let k =
        to_agreement (int_binary op w x y) w r old g
          (λ z' e'. subst (λ t. Knows old w (value t.words)) (some_inj.0 (sym e ∙ e')) before) in
      let after =
        binary_at-Knows old a b w (value x.words) (value y.words) vx.cut
          (subst (λ t. value y.words < 2 ^ t) (sym same) vy.cut) (omega arith) h i op k in
      subst (λ v. Knows (binary_at v op old a b) w (value z.words)) (sym before.one_width)
        (from_agreement (int_binary op w x y) w r (binary_at w op old a b) g z e after)
