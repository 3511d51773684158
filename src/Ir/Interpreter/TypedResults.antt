-- ===== src/Ir/Interpreter/TypedResults.antt =====
-- The values that a branch passes and that an operation computes are typed.
use foptim.Base.{
  ℕ, ◌^◌, ◌≤◌, ◌<◌, ◌≡◌, refl, List, [], ◌∷◌, Bool, true, false, if◌then◌else◌, arith,
}
use foptim.ApInt.{ApInt}
use foptim.ApInt.Make.{from_u64-Is}
use foptim.ApInt.Resize.{zext-Is, trunc-Is}
use foptim.ApInt.Extend.{sext-Is}
use foptim.Ir.{
  AnyType, get_bitwidth, is_int, is_int_or_ptr, Constant, ValueR, BinaryInstrSubType, InstrType,
}
use foptim.Ir.Interpreter.{
  or_refuse, Values, set_value, get_constant_value, int_of, bool_value, pass_args, int_binary,
  accepts,
}
use foptim.Ir.Interpreter.Step.{
  FloatOps, binary_result, int_binary_result, float_binary, float_bits, as_float, cast, guard,
}
use foptim.Ir.Interpreter.Typing.{
  Holds, Holds-bind, Holds-any, IsWidth, All, CastFits, IsOfType, IsTyped, OperandIsTyped,
  ValuesAreTyped, HasWidth, set_value-AreTyped, get_constant_value-IsTyped, int_of-HasWidth,
  int_binary-HasWidth,
}

-- The arguments of a branch.
pub pass_args-AreTyped :
    (args params : List ValueR) (st : Values)
    → All OperandIsTyped args
    → ValuesAreTyped st
    → Holds ValuesAreTyped (pass_args args params st)
unfolding pass_args
pass_args-AreTyped [] params st t h = h
pass_args-AreTyped (a ∷ args) [] st t h = tt
pass_args-AreTyped (a ∷ args) (p ∷ params) st t h =
    Holds-bind IsTyped ValuesAreTyped (or_refuse (get_constant_value a st)) _
      (get_constant_value-IsTyped a st t.0 h)
      (λ v typed.
        pass_args-AreTyped args params (set_value st p v) t.1 (set_value-AreTyped st p v h typed))

guard-Holds : (b : Bool) → Holds (λ (u : Unit {0}). b ≡ true) (guard b)
guard-Holds true = refl
guard-Holds false = tt

-- A type that an integer operation accepts.
is_int-is_int_or_ptr : (ty : AnyType) → is_int ty ≡ true → is_int_or_ptr ty ≡ true
is_int-is_int_or_ptr (AnyType.integer w) e = refl
is_int-is_int_or_ptr AnyType.void e = e
is_int-is_int_or_ptr (AnyType.float w) e = e
is_int-is_int_or_ptr AnyType.ptr e = refl
is_int-is_int_or_ptr AnyType.function e = e
is_int-is_int_or_ptr (AnyType.vector w) e = e

accepts-is_int_or_ptr :
    (op : BinaryInstrSubType) (ty : AnyType) → accepts op ty ≡ true → is_int_or_ptr ty ≡ true
accepts-is_int_or_ptr BinaryInstrSubType.int_srem ty e = is_int-is_int_or_ptr ty e
accepts-is_int_or_ptr BinaryInstrSubType.int_urem ty e = is_int-is_int_or_ptr ty e
accepts-is_int_or_ptr BinaryInstrSubType.int_sdiv ty e = is_int-is_int_or_ptr ty e
accepts-is_int_or_ptr BinaryInstrSubType.int_udiv ty e = is_int-is_int_or_ptr ty e
accepts-is_int_or_ptr BinaryInstrSubType.shl ty e = is_int-is_int_or_ptr ty e
accepts-is_int_or_ptr BinaryInstrSubType.shr ty e = is_int-is_int_or_ptr ty e
accepts-is_int_or_ptr BinaryInstrSubType.ashr ty e = is_int-is_int_or_ptr ty e
accepts-is_int_or_ptr _ ty e = e

module _ (ty ty1 ty2 : AnyType) (c1 c2 : Constant) (t1 : IsOfType c1 ty1) (t2 : IsOfType c2 ty2)
    (fit : is_int_or_ptr ty ≡ true → IsWidth (get_bitwidth ty)) where
  int_binary_result-IsOfType :
      (op : BinaryInstrSubType) → Holds (λ c. IsOfType c ty) (int_binary_result op ty c1 c2)
  unfolding int_binary_result
  int_binary_result-IsOfType op =
      let w = get_bitwidth ty in
      Holds-bind _ (λ c. IsOfType c ty) (guard (accepts op ty)) _ (guard-Holds (accepts op ty))
        (λ u e.
          let width = fit (accepts-is_int_or_ptr op ty e) in
          Holds-bind (HasWidth w) (λ c. IsOfType c ty) (int_of c1 w) _
            (int_of-HasWidth c1 ty1 w t1 width.0 width.1)
            (λ a ha.
              Holds-bind (HasWidth w) (λ c. IsOfType c ty) (int_of c2 w) _
                (int_of-HasWidth c2 ty2 w t2 width.0 width.1)
                (λ b hb.
                  Holds-bind (HasWidth w) (λ c. IsOfType c ty) (or_refuse (int_binary op w a b)) _
                    (int_binary-HasWidth op w a b width.1 ha hb) (λ r hr. hr))))

  float_binary-IsOfType : (f g : ℕ → ℕ → ℕ) → Holds (λ c. IsOfType c ty) (float_binary f g ty c1 c2)
  unfolding float_binary
  float_binary-IsOfType f g =
      Holds-bind _ (λ c. IsOfType c ty) (as_float ty) _ (Holds-any (as_float ty))
        (λ w u.
          Holds-bind _ (λ c. IsOfType c ty) (float_bits c1) _ (Holds-any (float_bits c1))
            (λ a u.
              Holds-bind _ (λ c. IsOfType c ty) (float_bits c2) _ (Holds-any (float_bits c2))
                (λ b u. tt)))

  pub binary_result-IsOfType :
      (ops : FloatOps) (op : BinaryInstrSubType)
      → Holds (λ c. IsOfType c ty) (binary_result ops op ty c1 c2)
  unfolding binary_result
  binary_result-IsOfType ops BinaryInstrSubType.float_add =
      float_binary-IsOfType ops.add32 ops.add64
  binary_result-IsOfType ops BinaryInstrSubType.float_mul =
      float_binary-IsOfType ops.mul32 ops.mul64
  binary_result-IsOfType ops BinaryInstrSubType.float_sub = tt
  binary_result-IsOfType ops BinaryInstrSubType.float_div = tt
  binary_result-IsOfType ops op = int_binary_result-IsOfType op

-- The results of a comparison and of a cast.
pub bool_value-IsTyped :
    (b : Bool) (ty : AnyType) → IsWidth (get_bitwidth ty) → IsTyped (bool_value b ty)
unfolding bool_value
bool_value-IsTyped b ty w =
    let z = from_u64-Is (get_bitwidth ty) (if b then 1 else 0) w.0 (omega (arith, w.1)) (small b) in
    (z.valid, z.width)
  where
    small : (b : Bool) → (if b then 1 else 0) < 2 ^ 64
    small true = omega arith
    small false = omega arith

pub cast-HasWidth :
    (k : InstrType) (a : ApInt) (from to : ℕ)
    → CastFits k from to
    → HasWidth from a
    → HasWidth to (cast k a to)
unfolding cast
cast-HasWidth InstrType.sext a from to fit h =
    let z = sext-Is a to h.0 (omega (arith, fit)) (omega (arith, fit, h.1)) in (z.valid, z.width)
cast-HasWidth InstrType.zext a from to fit h =
    let z = zext-Is a h.0 to (omega (arith, fit)) (omega (arith, fit, h.1)) in (z.valid, z.width)
cast-HasWidth _ a from to fit h =
    let z = trunc-Is a h.0 to (omega (arith, fit)) fit.0 (omega (arith, fit, h.1)) in
    (z.valid, z.width)

pub CastFits-width : (k : InstrType) (from to : ℕ) → CastFits k from to → (1 ≤ from) × (from ≤ 128)
CastFits-width InstrType.sext from to fit = omega (arith, fit)
CastFits-width InstrType.zext from to fit = omega (arith, fit)
CastFits-width _ from to fit = omega (arith, fit)
