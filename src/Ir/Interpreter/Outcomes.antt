-- ===== src/Ir/Interpreter/Outcomes.antt =====
-- The single operations of the interpreter end: none of them is `unfinished`.
use foptim.Base.{◌≡◌, refl, ◌⊎◌, inl, inr, ℕ, List, [], ◌∷◌, Option, none, some, Bool, true, false}
use foptim.Ir.{AnyType, get_bitwidth, Constant, ValueR, BinaryInstrSubType}
use foptim.Ir.Interpreter.{
  Outcome, ◌>>=◌, or_refuse, or_abort, Values, set_value, get_constant_value, int_of, pass_args,
  int_binary, accepts,
}
use foptim.Ir.Interpreter.Step.{
  FloatOps, binary_result, int_binary_result, float_binary, float_bits, as_float, all_values,
  insert_value, set_params, guard, check,
}

-- It ends, and what it returns satisfies the predicate.
abbrev pub Ends {ℓ} : {A : Type ℓ} → (A → Type 0) → Outcome A → Type 0
Ends P (Outcome.done a) = P a
Ends P Outcome.refused = Unit
Ends P Outcome.aborted = Unit
Ends P Outcome.unfinished = ⊥

abbrev pub Any {ℓ} : {A : Type ℓ} → A → Type 0
Any a = Unit {0}

pub Ends-bind {ℓ} :
    {A B : Type ℓ} (P : A → Type 0) (Q : B → Type 0) (m : Outcome A) (f : A → Outcome B)
    → Ends P m
    → ((a : A) → P a → Ends Q (f a))
    → Ends Q (m >>= f)
Ends-bind P Q (Outcome.done a) f h g = g a h
Ends-bind P Q Outcome.refused f h g = tt
Ends-bind P Q Outcome.aborted f h g = tt
Ends-bind P Q Outcome.unfinished f h g = absurd h

pub Ends-cases :
    {A : Type 0} (P : A → Type 0) (o : Outcome A)
    → Ends P o
    → (o ≡ Outcome.refused) ⊎ (o ≡ Outcome.aborted) ⊎ ((a : A) × (o ≡ Outcome.done a) × P a)
Ends-cases P (Outcome.done a) h = inr (inr (a, refl, h))
Ends-cases P Outcome.refused h = inl refl
Ends-cases P Outcome.aborted h = inr (inl refl)
Ends-cases P Outcome.unfinished h = absurd h

pub or_refuse-Ends {ℓ} : {A : Type ℓ} (o : Option A) → Ends Any (or_refuse o)
or_refuse-Ends none = tt
or_refuse-Ends (some a) = tt

pub or_abort-Ends {ℓ} : {A : Type ℓ} (o : Option A) → Ends Any (or_abort o)
or_abort-Ends none = tt
or_abort-Ends (some a) = tt

pub check-Ends : (b : Bool) → Ends Any (check b)
check-Ends true = tt
check-Ends false = tt

guard-Ends : (b : Bool) → Ends Any (guard b)
guard-Ends true = tt
guard-Ends false = tt

pub int_of-Ends : (c : Constant) (bits : ℕ) → Ends Any (int_of c bits)
unfolding int_of
int_of-Ends Constant.null_ptr bits = tt
int_of-Ends (Constant.int_value d) bits = tt
int_of-Ends _ bits = tt

pub pass_args-Ends : (args params : List ValueR) (st : Values) → Ends Any (pass_args args params st)
unfolding pass_args
pass_args-Ends [] params st = tt
pass_args-Ends (a ∷ args) [] st = tt
pass_args-Ends (a ∷ args) (p ∷ params) st =
    Ends-bind Any Any (or_refuse (get_constant_value a st)) _
      (or_refuse-Ends (get_constant_value a st))
      (λ v u. pass_args-Ends args params (set_value st p v))

pub set_params-Ends :
    (params args : List ValueR) (st sub : Values) → Ends Any (set_params params args st sub)
unfolding set_params
set_params-Ends [] args st sub = tt
set_params-Ends (p ∷ params) [] st sub = tt
set_params-Ends (p ∷ params) (a ∷ args) st sub =
    Ends-bind Any Any (or_refuse (get_constant_value a st)) _
      (or_refuse-Ends (get_constant_value a st))
      (λ v u. set_params-Ends params args st (insert_value sub p v))

pub all_values-Ends : (args : List ValueR) (st : Values) → Ends Any (all_values args st)
unfolding all_values
all_values-Ends [] st = tt
all_values-Ends (a ∷ args) st =
    Ends-bind Any Any (or_refuse (get_constant_value a st)) _
      (or_refuse-Ends (get_constant_value a st))
      (λ v u. Ends-bind Any Any (all_values args st) _ (all_values-Ends args st) (λ vs u. tt))

module _ (ty : AnyType) (c1 c2 : Constant) where
  int_binary_result-Ends : (op : BinaryInstrSubType) → Ends Any (int_binary_result op ty c1 c2)
  unfolding int_binary_result
  int_binary_result-Ends op =
      let w = get_bitwidth ty in
      Ends-bind Any Any (guard (accepts op ty)) _ (guard-Ends (accepts op ty)) (λ u v.
        Ends-bind Any Any (int_of c1 w) _ (int_of-Ends c1 w) (λ a u.
          Ends-bind Any Any (int_of c2 w) _ (int_of-Ends c2 w) (λ b u.
            Ends-bind Any Any (or_refuse (int_binary op w a b)) _
              (or_refuse-Ends (int_binary op w a b)) (λ r u. tt))))

  as_float-Ends : (ty : AnyType) → Ends Any (as_float ty)
  as_float-Ends (AnyType.float w) = tt
  as_float-Ends _ = tt

  float_bits-Ends : (c : Constant) → Ends Any (float_bits c)
  float_bits-Ends (Constant.float_value b) = tt
  float_bits-Ends _ = tt

  float_binary-Ends : (f g : ℕ → ℕ → ℕ) → Ends Any (float_binary f g ty c1 c2)
  unfolding float_binary
  float_binary-Ends f g = Ends-bind Any Any (as_float ty) _ (as_float-Ends ty) (λ w u.
      Ends-bind Any Any (float_bits c1) _ (float_bits-Ends c1)
        (λ a u. Ends-bind Any Any (float_bits c2) _ (float_bits-Ends c2) (λ b u. tt)))

  pub binary_result-Ends :
      (ops : FloatOps) (op : BinaryInstrSubType) → Ends Any (binary_result ops op ty c1 c2)
  unfolding binary_result
  binary_result-Ends ops BinaryInstrSubType.float_add = float_binary-Ends ops.add32 ops.add64
  binary_result-Ends ops BinaryInstrSubType.float_mul = float_binary-Ends ops.mul32 ops.mul64
  binary_result-Ends ops BinaryInstrSubType.float_sub = tt
  binary_result-Ends ops BinaryInstrSubType.float_div = tt
  binary_result-Ends ops op = int_binary_result-Ends op
