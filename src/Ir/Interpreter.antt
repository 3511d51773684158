-- ===== src/Ir/Interpreter.antt =====
-- src/ir/interpreter: the interpreter of the intermediate representation. A failed step returns
-- `false`, here `refused`; the state that it leaves is used by no caller and is not kept. A failed
-- assertion, a `TODO` and an index out of range are `aborted`.
pub mod Step
pub mod Branches
pub mod Arithmetic
pub mod Typing
pub mod TypedResults
pub mod Preservation
pub mod TypedRuns
pub mod Outcomes
pub mod Forward
pub mod Advance
pub mod Halting
use foptim.Base.{
  ℕ, zero, suc, ◌+◌, ◌-◌, ◌*◌, ◌^◌, ◌≡◌, List, [], ◌∷◌, ◌++◌, Bool, true, false, not, ◌&&◌, ◌==◌,
  if◌then◌else◌, Option, none, some, length, get_elem?, get_or,
}
use foptim.ApInt.{ApInt, add, sub, mul, eq, ult, ule, zext, trunc, zext_or_trunc, from_u64, val}
use foptim.ApInt.Bitwise
use foptim.ApInt.Bitwise.{is_zero}
use foptim.ApInt.Shift
use foptim.ApInt.SignedShift
use foptim.ApInt.SignedOrder.{slt, sle}
use foptim.ApInt.Extend.{sext}
use foptim.ApInt.Divide.{udiv, urem, sdiv, srem}
use foptim.ApInt.Special.{signed_min, is_all_ones}
use foptim.Ir.{
  AnyType, get_bitwidth, is_int, is_int_or_ptr, Constant, ConstantValue, ValueR, get_type,
  same_value, BinaryInstrSubType, ICmpInstrSubType, InstrType, BbRefWithArgs, Instr, BasicBlock,
  Function,
}

pub data Outcome {ℓ} (A : Type ℓ) : Type ℓ where
  done : A → Outcome A
  refused aborted unfinished : Outcome A

infixl 5 ◌>>=◌
abbrev pub ◌>>=◌ {ℓ κ} : {A : Type ℓ} {B : Type κ} → Outcome A → (A → Outcome B) → Outcome B
Outcome.done a >>= f = f a
Outcome.refused >>= f = Outcome.refused
Outcome.aborted >>= f = Outcome.aborted
Outcome.unfinished >>= f = Outcome.unfinished

-- What an empty `std::optional` makes of a step, and an index out of range.
abbrev pub or_refuse {ℓ} : {A : Type ℓ} → Option A → Outcome A
or_refuse none = Outcome.refused
or_refuse (some a) = Outcome.done a

abbrev pub or_abort {ℓ} : {A : Type ℓ} → Option A → Outcome A
or_abort none = Outcome.aborted
or_abort (some a) = Outcome.done a

-- `TMap<ValueR, ConstantValue>`.
abbrev pub Values : Type 0
Values = List (ValueR × ConstantValue)

unfoldable pub try_get : Values → ValueR → Option ConstantValue
unfolding same_value
try_get [] v = none
try_get (entry ∷ vals) v = if same_value entry.0 v then some entry.1 else try_get vals v

-- `insert_or_assign`.
unfoldable pub set_value : Values → ValueR → ConstantValue → Values
unfolding same_value
set_value [] v c = (v, c) ∷ []
set_value (entry ∷ vals) v c =
    if same_value entry.0 v then (v, c) ∷ vals else entry ∷ set_value vals v c

unfoldable pub get_constant_value : ValueR → Values → Option ConstantValue
get_constant_value (ValueR.constant c) st = some c
get_constant_value (ValueR.result i k ty) st = try_get st (ValueR.result i k ty)
get_constant_value (ValueR.bb_arg i ty) st = try_get st (ValueR.bb_arg i ty)

-- `int_of`; `as_apint` asserts an integer.
unfoldable pub int_of : Constant → ℕ → Outcome ApInt
int_of Constant.null_ptr bits = Outcome.done (from_u64 bits 0)
int_of (Constant.int_value d) bits = Outcome.done (zext_or_trunc d bits)
int_of _ bits = Outcome.aborted

unfoldable pub bool_value : Bool → AnyType → ConstantValue
bool_value b ty = record {
  type = ty;
  constant = Constant.int_value (from_u64 (get_bitwidth ty) (if b then 1 else 0));
}

pub record InstrPointer : Type 0 where
  pub func : Function
  pub bb_id : ℕ
  pub instr_id : ℕ

pub record Interpreter : Type 0 where
  pub state : Values
  pub ip : InstrPointer
  pub ret_vals : List ConstantValue
  pub returned : Bool

-- The loop that passes the arguments of a branch, one after the other.
unfoldable pub pass_args : List ValueR → List ValueR → Values → Outcome Values
unfolding set_value get_constant_value
pass_args [] params st = Outcome.done st
pass_args (a ∷ args) [] st = Outcome.aborted
pass_args (a ∷ args) (p ∷ params) st =
    or_refuse (get_constant_value a st) >>= (λ v. pass_args args params (set_value st p v))

unfoldable pub jump : BbRefWithArgs → Interpreter → Outcome Interpreter
unfolding pass_args
jump target m = do
  bb ← or_abort (get_elem? m.ip.func.basic_blocks target.bb)
  st ← pass_args target.args bb.args m.state
  Outcome.done
      (record m { state = st; ip = record { func = m.ip.func; bb_id = target.bb; instr_id = 0 } })

unfoldable pub interpret_branch : Instr → Interpreter → Outcome Interpreter
unfolding jump
interpret_branch instr m = or_abort (get_elem? instr.bbs 0) >>= (λ target. jump target m)

unfoldable pub interpret_cbranch : Instr → Interpreter → Outcome Interpreter
unfolding jump int_of
interpret_cbranch instr m = do
  condition ← or_abort (get_elem? instr.args 0)
  input_val ← or_refuse (get_constant_value condition m.state)
  bit ← int_of input_val.constant 1
  target ← or_abort (get_elem? instr.bbs (if is_zero bit then 1 else 0))
  jump target m

-- `set_value` of the result, and the next instruction.
unfoldable pub finish : Instr → ConstantValue → Interpreter → Interpreter
unfolding set_value
finish instr c m = record m {
  state = set_value m.state (ValueR.result instr.id 0 instr.result_type) c;
  ip = record m.ip { instr_id = suc m.ip.instr_id };
}

-- The cases of `interpret_binary_expr` on integers, after the test of the type; `none` where it
-- returns `false`. `bw` is the width of the result.
unfoldable pub shift_amount : ℕ → ApInt → Option ℕ
shift_amount bw amt = if ule (from_u64 bw bw) amt then none else some (val amt)

abbrev pub shifted : (ℕ → ApInt) → Option ℕ → Option ApInt
shifted f none = none
shifted f (some n) = some (f n)

abbrev pub signed_overflow : ℕ → ApInt → ApInt → Bool
signed_overflow bw a b = eq a (signed_min bw) && is_all_ones b

-- `binary_result` sends the float operations to `float_binary`, so the last clause is not reached.
unfoldable pub int_binary : BinaryInstrSubType → ℕ → ApInt → ApInt → Option ApInt
unfolding shift_amount
int_binary BinaryInstrSubType.ptr_add bw a b = some (add a b)
int_binary BinaryInstrSubType.int_add bw a b = some (add a b)
int_binary BinaryInstrSubType.int_sub bw a b = some (sub a b)
int_binary BinaryInstrSubType.int_mul bw a b = some (mul a b)
int_binary BinaryInstrSubType.and bw a b = some (Bitwise.and a b)
int_binary BinaryInstrSubType.or bw a b = some (Bitwise.or a b)
int_binary BinaryInstrSubType.xor bw a b = some (Bitwise.xor a b)
int_binary BinaryInstrSubType.shl bw a b = shifted (Shift.shl a) (shift_amount bw b)
int_binary BinaryInstrSubType.shr bw a b = shifted (Shift.lshr a) (shift_amount bw b)
int_binary BinaryInstrSubType.ashr bw a b = shifted (SignedShift.ashr a) (shift_amount bw b)
int_binary BinaryInstrSubType.int_udiv bw a b = if is_zero b then none else some (udiv a b)
int_binary BinaryInstrSubType.int_urem bw a b = if is_zero b then none else some (urem a b)
int_binary BinaryInstrSubType.int_sdiv bw a b =
    if is_zero b then none else if signed_overflow bw a b then none else some (sdiv a b)
int_binary BinaryInstrSubType.int_srem bw a b =
    if is_zero b then none else if signed_overflow bw a b then none else some (srem a b)
int_binary _ bw a b = none

-- The test of the result's type in each case.
abbrev pub accepts : BinaryInstrSubType → AnyType → Bool
accepts BinaryInstrSubType.int_srem ty = is_int ty
accepts BinaryInstrSubType.int_urem ty = is_int ty
accepts BinaryInstrSubType.int_sdiv ty = is_int ty
accepts BinaryInstrSubType.int_udiv ty = is_int ty
accepts BinaryInstrSubType.shl ty = is_int ty
accepts BinaryInstrSubType.shr ty = is_int ty
accepts BinaryInstrSubType.ashr ty = is_int ty
accepts _ ty = is_int_or_ptr ty
