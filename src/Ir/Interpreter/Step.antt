-- ===== src/Ir/Interpreter/Step.antt =====
-- src/ir/interpreter/interpreter.cpp: the instructions, calls, and the loop over them. The sums and
-- products of floats are the host's.
use foptim.Base.{
  ℕ, zero, suc, ◌-◌, List, [], ◌∷◌, Bool, true, false, not, ◌==◌, if◌then◌else◌, Option, none, some,
  length, get_elem?, u32,
}
use foptim.ApInt.{ApInt, eq, ult, ule, zext, trunc}
use foptim.ApInt.SignedOrder.{slt, sle}
use foptim.ApInt.Extend.{sext}
use foptim.Ir.{
  AnyType, get_bitwidth, Constant, ConstantValue, ValueR, get_type, BinaryInstrSubType,
  ICmpInstrSubType, InstrType, Instr, Function, is_decl,
}
use foptim.Ir.Interpreter.{
  Outcome, ◌>>=◌, or_refuse, or_abort, Values, try_get, set_value, get_constant_value, int_of,
  bool_value, Interpreter, interpret_branch, interpret_cbranch, finish, int_binary, accepts,
}

-- The host's operations on the bits of floats.
pub record FloatOps : Type 0 where
  pub add32 : ℕ → ℕ → ℕ
  pub mul32 : ℕ → ℕ → ℕ
  pub add64 : ℕ → ℕ → ℕ
  pub mul64 : ℕ → ℕ → ℕ

-- The bits of an operand, and `as_float` of a type: both assert a float.
abbrev pub float_bits : Constant → Outcome ℕ
float_bits (Constant.float_value b) = Outcome.done b
float_bits _ = Outcome.aborted

abbrev pub as_float : AnyType → Outcome ℕ
as_float (AnyType.float w) = Outcome.done w
as_float _ = Outcome.aborted

-- `as_f32` cuts to the low word, and the constructor extends it again.
unfoldable pub float_binary :
    (ℕ → ℕ → ℕ) → (ℕ → ℕ → ℕ) → AnyType → Constant → Constant → Outcome Constant
float_binary op32 op64 ty c1 c2 = do
  w ← as_float ty
  a ← float_bits c1
  b ← float_bits c2
  Outcome.done (Constant.float_value (if w == 32 then u32 (op32 (u32 a) (u32 b)) else op64 a b))

abbrev pub guard : Bool → Outcome (Unit {0})
guard true = Outcome.done tt
guard false = Outcome.refused

unfoldable pub int_binary_result :
    BinaryInstrSubType → AnyType → Constant → Constant → Outcome Constant
unfolding int_of int_binary
int_binary_result op ty c1 c2 = do
  accepted ← guard (accepts op ty)
  a ← int_of c1 (get_bitwidth ty)
  b ← int_of c2 (get_bitwidth ty)
  r ← or_refuse (int_binary op (get_bitwidth ty) a b)
  Outcome.done (Constant.int_value r)

unfoldable pub binary_result :
    FloatOps → BinaryInstrSubType → AnyType → Constant → Constant → Outcome Constant
unfolding float_binary int_binary_result
binary_result ops BinaryInstrSubType.float_add ty a b = float_binary ops.add32 ops.add64 ty a b
binary_result ops BinaryInstrSubType.float_mul ty a b = float_binary ops.mul32 ops.mul64 ty a b
binary_result ops BinaryInstrSubType.float_sub ty a b = Outcome.refused
binary_result ops BinaryInstrSubType.float_div ty a b = Outcome.refused
binary_result ops op ty a b = int_binary_result op ty a b

unfoldable pub interpret_binary_expr :
    FloatOps → BinaryInstrSubType → Instr → Interpreter → Outcome Interpreter
unfolding finish binary_result get_constant_value
interpret_binary_expr ops op instr m = do
  x ← or_abort (get_elem? instr.args 0)
  y ← or_abort (get_elem? instr.args 1)
  v1 ← or_refuse (get_constant_value x m.state)
  v2 ← or_refuse (get_constant_value y m.state)
  c ← binary_result ops op instr.result_type v1.constant v2.constant
  Outcome.done (finish instr (record { type = instr.result_type; constant = c }) m)

unfoldable pub int_compare : ICmpInstrSubType → ApInt → ApInt → Bool
int_compare ICmpInstrSubType.sge a b = sle b a
int_compare ICmpInstrSubType.sgt a b = slt b a
int_compare ICmpInstrSubType.slt a b = slt a b
int_compare ICmpInstrSubType.sle a b = sle a b
int_compare ICmpInstrSubType.ult a b = ult a b
int_compare ICmpInstrSubType.ule a b = ule a b
int_compare ICmpInstrSubType.ugt a b = ult b a
int_compare ICmpInstrSubType.uge a b = ule b a
int_compare ICmpInstrSubType.eq a b = eq a b
int_compare ICmpInstrSubType.ne a b = not (eq a b)

unfoldable pub interpret_icmp : ICmpInstrSubType → Instr → Interpreter → Outcome Interpreter
unfolding finish int_compare int_of bool_value get_constant_value
interpret_icmp op instr m = do
  x ← or_abort (get_elem? instr.args 0)
  y ← or_abort (get_elem? instr.args 1)
  v1 ← or_refuse (get_constant_value x m.state)
  v2 ← or_refuse (get_constant_value y m.state)
  a ← int_of v1.constant (get_bitwidth (get_type x))
  b ← int_of v2.constant (get_bitwidth (get_type x))
  Outcome.done (finish instr (bool_value (int_compare op a b) instr.result_type) m)

unfoldable pub cast : InstrType → ApInt → ℕ → ApInt
cast InstrType.sext a to = sext a to
cast InstrType.zext a to = zext a to
cast _ a to = trunc a to

unfoldable pub interpret_int_cast : Instr → Interpreter → Outcome Interpreter
unfolding finish cast int_of get_constant_value
interpret_int_cast instr m = do
  x ← or_abort (get_elem? instr.args 0)
  v1 ← or_refuse (get_constant_value x m.state)
  a ← int_of v1.constant (get_bitwidth (get_type x))
  Outcome.done (
      finish instr
        (record {
          type = instr.result_type;
          constant = Constant.int_value (cast instr.instr_type a (get_bitwidth instr.result_type));
        })
        m)

unfoldable pub all_values : List ValueR → Values → Outcome (List ConstantValue)
unfolding get_constant_value
all_values [] st = Outcome.done []
all_values (a ∷ args) st =
    or_refuse (get_constant_value a st)
    >>= (λ v. all_values args st >>= (λ vs. Outcome.done (v ∷ vs)))

unfoldable pub interpret_ret : Instr → Interpreter → Outcome Interpreter
unfolding all_values
interpret_ret instr m = do
  vs ← all_values instr.args m.state
  Outcome.done (record m { ret_vals = vs; returned = true })

-- `set`: `insert` keeps a value that is there.
unfoldable pub insert_value : Values → ValueR → ConstantValue → Values
unfolding try_get
insert_value st v c = keep (try_get st v)
  where
    keep : Option ConstantValue → Values
    keep none = (v, c) ∷ st
    keep (some old) = st

-- The arguments of a call, read in the caller, for the parameters of the callee.
unfoldable pub set_params : List ValueR → List ValueR → Values → Values → Outcome Values
unfolding get_constant_value insert_value
set_params [] args st sub = Outcome.done sub
set_params (p ∷ params) [] st sub = Outcome.aborted
set_params (p ∷ params) (a ∷ args) st sub =
    or_refuse (get_constant_value a st) >>= (λ v. set_params params args st (insert_value sub p v))

-- The results of a call, from index `i` on.
unfoldable pub set_results : Instr → ℕ → List ConstantValue → Values → Values
unfolding set_value
set_results call i [] st = st
set_results call i (v ∷ vs) st =
    set_results call (suc i) vs (set_value st (ValueR.result call.id i call.result_type) v)

-- The callee, an index in the program.
abbrev pub constant_func : ValueR → Option ℕ
constant_func (ValueR.constant c) = elim c.constant [ Constant.func_ptr f ↦ some f | _ ↦ none ]
constant_func _ = none

abbrev pub check : Bool → Outcome (Unit {0})
check true = Outcome.done tt
check false = Outcome.aborted

abbrev pub start : Function → Values → Interpreter
start f st = record {
  state = st;
  ip = record { func = f; bb_id = 0; instr_id = 0 };
  ret_vals = [];
  returned = false;
}

abbrev pub tail : List ValueR → List ValueR
tail [] = []
tail (a ∷ args) = args

abbrev pub not_decl : Function → Option Function
not_decl f = if is_decl f then none else some f

-- The new interpreter of `interpret_call`, with the parameters set.
unfoldable pub call_frame : List Function → Instr → Interpreter → Outcome Interpreter
unfolding set_params
call_frame program call m = do
  callee ← or_abort (get_elem? call.args 0)
  index ← or_refuse (constant_func callee)
  found ← or_abort (get_elem? program index)
  func ← or_refuse (not_decl found)
  entry ← or_abort (get_elem? func.basic_blocks 0)
  same ← check (length entry.args == length call.args - 1)
  params ← set_params entry.args (tail call.args) m.state []
  Outcome.done (start func params)

-- What `interpret_call` does after the callee has returned.
unfoldable pub take_results : Instr → Interpreter → Interpreter → Outcome Interpreter
unfolding set_results
take_results call m sub = do
  count ← check (length sub.ret_vals == call.n_results)
  Outcome.done (record m {
    state = set_results call 0 sub.ret_vals m.state;
    ip = record m.ip { instr_id = suc m.ip.instr_id };
  })

-- `run` is the interpreter of the callee.
unfoldable pub interpret_call :
    List Function → (Interpreter → Outcome Interpreter) → Instr → Interpreter → Outcome Interpreter
unfolding call_frame take_results
interpret_call program run call m =
    call_frame program call m >>= (λ entry. run entry >>= (λ sub. take_results call m sub))

abbrev pub current : Interpreter → Option Instr
current m = elim (get_elem? m.ip.func.basic_blocks m.ip.bb_id) [
  | none ↦ none
  | some bb ↦ get_elem? bb.instructions m.ip.instr_id
]

module _ (ops : FloatOps) (program : List Function) where
  -- The cases of `step_instr`.
  unfoldable pub dispatch :
      (Interpreter → Outcome Interpreter) → InstrType → Instr → Interpreter → Outcome Interpreter
  unfolding interpret_branch interpret_cbranch interpret_binary_expr interpret_icmp
      interpret_int_cast interpret_call interpret_ret
  dispatch run InstrType.branch_instr instr m = interpret_branch instr m
  dispatch run (InstrType.binary_instr op) instr m = interpret_binary_expr ops op instr m
  dispatch run (InstrType.icmp op) instr m = interpret_icmp op instr m
  dispatch run InstrType.cond_branch_instr instr m = interpret_cbranch instr m
  dispatch run InstrType.sext instr m = interpret_int_cast instr m
  dispatch run InstrType.zext instr m = interpret_int_cast instr m
  dispatch run InstrType.itrunc instr m = interpret_int_cast instr m
  dispatch run InstrType.call_instr instr m = interpret_call program run instr m
  dispatch run InstrType.return_instr instr m = interpret_ret instr m
  dispatch run InstrType.other instr m = Outcome.aborted

  unfoldable pub step_instr :
      (Interpreter → Outcome Interpreter) → Interpreter → Outcome Interpreter
  unfolding dispatch
  step_instr run m = or_abort (current m) >>= (λ instr. dispatch run instr.instr_type instr m)

  -- `run`, for at most `fuel` turns of the loop, those of the callees nested in them.
  unfoldable pub run : ℕ → Interpreter → Outcome Interpreter
  unfolding step_instr
  run zero m = if m.returned then Outcome.done m else Outcome.unfinished
  run (suc fuel) m =
      if m.returned then Outcome.done m else step_instr (run fuel) m >>= (λ n. run fuel n)

  abbrev pub is_terminator : InstrType → Bool
  is_terminator InstrType.branch_instr = true
  is_terminator InstrType.cond_branch_instr = true
  is_terminator InstrType.return_instr = true
  is_terminator _ = false

  -- `step_till_end_of_bb`, for at most `fuel` instructions.
  unfoldable pub step_till_end_of_bb :
      (Interpreter → Outcome Interpreter) → ℕ → Interpreter → Outcome Interpreter
  unfolding step_instr
  step_till_end_of_bb callee zero m = Outcome.unfinished
  step_till_end_of_bb callee (suc fuel) m = do
    curr ← or_abort (current m)
    n ← step_instr callee m
    if is_terminator curr.instr_type then Outcome.done n else step_till_end_of_bb callee fuel n
