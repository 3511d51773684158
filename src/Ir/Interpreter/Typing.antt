-- ===== src/Ir/Interpreter/Typing.antt =====
-- Every integer that the interpreter holds is well formed and has the width of its type.
use foptim.Base.{
  ℕ, zero, suc, ◌≤◌, ◌≡◌, sym, ◌∙◌, subst, List, [], ◌∷◌, true, Option, none, some, Bool-cases, inl,
  inr, arith, get_elem?,
}
use foptim.Words.{value}
use foptim.ApInt.{ApInt}
use foptim.ApInt.Cut.{IsValid}
use foptim.ApInt.Make.{from_u64-Is}
use foptim.ApInt.Resize.{zext_or_trunc-Is}
use foptim.Ir.{
  AnyType, get_bitwidth, is_int_or_ptr, Constant, ConstantValue, ValueR, get_type, same_value,
  BinaryInstrSubType, InstrType, BbRefWithArgs, Instr, BasicBlock, Function,
}
use foptim.Ir.Interpreter.{
  Outcome, ◌>>=◌, or_refuse, or_abort, Values, try_get, set_value, get_constant_value, int_of,
  Interpreter, int_binary,
}
use foptim.Ir.Interpreter.Arithmetic.{meaning, Agrees, int_binary-Agrees}

-- What a successful outcome satisfies.
abbrev pub Holds {ℓ κ} : {A : Type ℓ} → (A → Type κ) → Outcome A → Type κ
Holds P (Outcome.done a) = P a
Holds P _ = Unit

pub Holds-bind {ℓ κ} :
    {A B : Type ℓ} (P : A → Type κ) (Q : B → Type κ) (m : Outcome A) (f : A → Outcome B)
    → Holds P m
    → ((a : A) → P a → Holds Q (f a))
    → Holds Q (m >>= f)
Holds-bind P Q (Outcome.done a) f h g = g a h
Holds-bind P Q Outcome.refused f h g = tt
Holds-bind P Q Outcome.aborted f h g = tt
Holds-bind P Q Outcome.unfinished f h g = tt

pub Holds-any {ℓ} : {A : Type ℓ} (o : Outcome A) → Holds (λ a. Unit {0}) o
Holds-any (Outcome.done a) = tt
Holds-any Outcome.refused = tt
Holds-any Outcome.aborted = tt
Holds-any Outcome.unfinished = tt

abbrev pub All {ℓ κ} : {A : Type ℓ} → (A → Type κ) → List A → Type κ
All P [] = Unit
All P (x ∷ xs) = P x × All P xs

pub get_elem?-All {ℓ κ} :
    {A : Type ℓ} (P : A → Type κ) (xs : List A) (i : ℕ)
    → All P xs
    → Holds P (or_abort (get_elem? xs i))
get_elem?-All P [] i h = tt
get_elem?-All P (x ∷ xs) zero h = h.0
get_elem?-All P (x ∷ xs) (suc i) h = get_elem?-All P xs i h.1

pub All-both {ℓ κ} :
    {A : Type ℓ} (P Q : A → Type κ) (xs : List A) → All P xs → All Q xs → All (λ x. P x × Q x) xs
All-both P Q [] h k = tt
All-both P Q (x ∷ xs) h k = ((h.0, k.0), All-both P Q xs h.1 k.1)

-- An integer constant is well formed and has the width of the type.
abbrev pub IsOfType : Constant → AnyType → Type 0
IsOfType (Constant.int_value x) ty = IsValid x × (x.bits ≡ get_bitwidth ty)
IsOfType _ ty = Unit {0}

abbrev pub IsTyped : ConstantValue → Type 0
IsTyped c = IsOfType c.constant c.type

abbrev pub OperandIsTyped : ValueR → Type 0
OperandIsTyped (ValueR.constant c) = IsTyped c
OperandIsTyped _ = Unit {0}

abbrev pub IsWidth : ℕ → Type 0
IsWidth w = (1 ≤ w) × (w ≤ 128)

-- Extensions go to no fewer bits, truncations to no more.
abbrev pub CastFits : InstrType → ℕ → ℕ → Type 0
CastFits InstrType.sext from to = (1 ≤ from) × (from ≤ to) × (to ≤ 128)
CastFits InstrType.zext from to = (1 ≤ from) × (from ≤ to) × (to ≤ 128)
CastFits _ from to = (1 ≤ to) × (to ≤ from) × (from ≤ 128)

-- The types of an instruction, as far as it computes with integers.
abbrev pub TypesFit : InstrType → Instr → Type 0
TypesFit (InstrType.binary_instr op) i =
    is_int_or_ptr i.result_type ≡ true → IsWidth (get_bitwidth i.result_type)
TypesFit (InstrType.icmp op) i = IsWidth (get_bitwidth i.result_type)
TypesFit InstrType.sext i =
    All (λ x. CastFits InstrType.sext (get_bitwidth (get_type x)) (get_bitwidth i.result_type))
      i.args
TypesFit InstrType.zext i =
    All (λ x. CastFits InstrType.zext (get_bitwidth (get_type x)) (get_bitwidth i.result_type))
      i.args
TypesFit InstrType.itrunc i =
    All (λ x. CastFits InstrType.itrunc (get_bitwidth (get_type x)) (get_bitwidth i.result_type))
      i.args
TypesFit _ i = Unit {0}

pub record InstrIsTyped (i : Instr) : Type 0 where
  pub args : All OperandIsTyped i.args
  pub branches : All (λ (b : BbRefWithArgs). All OperandIsTyped b.args) i.bbs
  pub types : TypesFit i.instr_type i

abbrev pub FunctionIsTyped : Function → Type 0
FunctionIsTyped f = All (λ (b : BasicBlock). All InstrIsTyped b.instructions) f.basic_blocks

abbrev pub ValuesAreTyped : Values → Type 0
ValuesAreTyped st = All (λ (e : ValueR × ConstantValue). IsTyped e.1) st

pub record StateIsTyped (m : Interpreter) : Type 0 where
  pub state : ValuesAreTyped m.state
  pub func : FunctionIsTyped m.ip.func
  pub ret_vals : All IsTyped m.ret_vals

pub set_value-AreTyped :
    (st : Values) (v : ValueR) (c : ConstantValue)
    → ValuesAreTyped st
    → IsTyped c
    → ValuesAreTyped (set_value st v c)
unfolding set_value
set_value-AreTyped [] v c h t = (t, tt)
set_value-AreTyped (e ∷ st) v c h t = elim (Bool-cases (same_value e.0 v)) [
  | inl same ↦ rw same (t, h.1)
  | inr other ↦ rw other (h.0, set_value-AreTyped st v c h.1 t)
]

try_get-IsTyped :
    (st : Values) (v : ValueR) → ValuesAreTyped st → Holds IsTyped (or_refuse (try_get st v))
unfolding try_get
try_get-IsTyped [] v h = tt
try_get-IsTyped (e ∷ st) v h = elim (Bool-cases (same_value e.0 v)) [
  | inl same ↦ rw same h.0
  | inr other ↦ rw other (try_get-IsTyped st v h.1)
]

pub get_constant_value-IsTyped :
    (v : ValueR) (st : Values)
    → OperandIsTyped v
    → ValuesAreTyped st
    → Holds IsTyped (or_refuse (get_constant_value v st))
unfolding get_constant_value
get_constant_value-IsTyped (ValueR.constant c) st t h = t
get_constant_value-IsTyped (ValueR.result i k ty) st t h =
    try_get-IsTyped st (ValueR.result i k ty) h
get_constant_value-IsTyped (ValueR.bb_arg i ty) st t h = try_get-IsTyped st (ValueR.bb_arg i ty) h

abbrev pub HasWidth : ℕ → ApInt → Type 0
HasWidth w x = IsValid x × (x.bits ≡ w)

pub int_of-HasWidth :
    (c : Constant) (ty : AnyType) (w : ℕ)
    → IsOfType c ty
    → 1 ≤ w
    → w ≤ 128
    → Holds (HasWidth w) (int_of c w)
unfolding int_of
int_of-HasWidth Constant.null_ptr ty w t pos le =
    let z = from_u64-Is w 0 pos (omega arith) (omega arith) in (z.valid, z.width)
int_of-HasWidth (Constant.int_value d) ty w t pos le =
    let z = zext_or_trunc-Is d w t.0 pos (omega arith) in (z.valid, z.width)
int_of-HasWidth Constant.poison ty w t pos le = tt
int_of-HasWidth (Constant.float_value n) ty w t pos le = tt
int_of-HasWidth Constant.vector_value ty w t pos le = tt
int_of-HasWidth (Constant.global_ptr n) ty w t pos le = tt
int_of-HasWidth (Constant.func_ptr n) ty w t pos le = tt

of_agreement :
    (o : Option ApInt) (w : ℕ) (r : Option ℕ) → Agrees o w r → Holds (HasWidth w) (or_refuse o)
of_agreement none w r g = tt
of_agreement (some x) w none g = absurd g
of_agreement (some x) w (some n) g = (g.valid, g.width)

-- The result of an operation that the interpreter evaluates has the width of its operands.
pub int_binary-HasWidth :
    (op : BinaryInstrSubType) (w : ℕ) (a b : ApInt)
    → w ≤ 128
    → HasWidth w a
    → HasWidth w b
    → Holds (HasWidth w) (or_refuse (int_binary op w a b))
int_binary-HasWidth op w a b le h i =
    let g = int_binary-Agrees a b h.0 i.0 (h.1 ∙ sym i.1) (omega (arith, h.1)) op in
    of_agreement (int_binary op w a b) w (meaning op w (value a.words) (value b.words)) (
      subst (λ v. Agrees (int_binary op v a b) v (meaning op v (value a.words) (value b.words))) h.1
        g)
