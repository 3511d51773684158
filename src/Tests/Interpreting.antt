-- ===== src/Tests/Interpreting.antt =====
-- src/test/test_multi_result.hpp, src/test/test_region_extractor.hpp: functions that the interpreter
-- runs, and a branch that exchanges the arguments of its block.
use foptim.Base.{ℕ, ◌≡◌, refl, arith, [], ◌∷◌, true, false}
use foptim.Words.{value}
use foptim.Ir.{
  AnyType, Constant, ConstantValue, ValueR, same_value, BinaryInstrSubType, ICmpInstrSubType,
  InstrType, BbRefWithArgs, Instr, BasicBlock, Function,
}
use foptim.Ir.Interpreter.{
  Outcome, Values, pass_args, interpret_branch, Interpreter, int_binary, get_constant_value,
  try_get, set_value, jump, finish, int_of,
}
use foptim.ApInt.{add, from_u64, zext_or_trunc, trunc}
use foptim.Ir.Interpreter.Step.{
  FloatOps, run, start, int_compare, all_values, step_instr, dispatch, interpret_ret,
  interpret_binary_expr, binary_result, int_binary_result,
}
use foptim.Ir.Interpreter.Branches.{interpret_branch-set_all, set_all, AreApart}
use foptim.Ir.Interpreter.Arithmetic.{
  int_binary-Agrees, Agrees, meaning, int_compare-exact, comparison,
}
use foptim.Tests.Bits.{minus, three, minus-IsValid, three-IsValid}

int_binary-Agrees_example :
    Agrees
      (int_binary BinaryInstrSubType.int_sdiv 100 minus three)
      100
      (meaning BinaryInstrSubType.int_sdiv 100 (value minus.words) (value three.words))
int_binary-Agrees_example =
    int_binary-Agrees minus three minus-IsValid three-IsValid refl (omega arith)
      BinaryInstrSubType.int_sdiv

int_compare-exact_example :
    int_compare ICmpInstrSubType.slt minus three
    ≡ comparison ICmpInstrSubType.slt 100 (value minus.words) (value three.words)
int_compare-exact_example =
    int_compare-exact minus three minus-IsValid three-IsValid refl ICmpInstrSubType.slt

abbrev pub word : AnyType
word = AnyType.integer 32

abbrev pub number : ℕ → ConstantValue
number n = record {
  type = word;
  constant = Constant.int_value (record { bits = 32; words = n ∷ [] });
}

abbrev pub param : ℕ → ValueR
param i = ValueR.bb_arg i word

-- Blocks with two parameters; the first one branches to the second with values of its own.
abbrev go : BbRefWithArgs
go = record { bb = 1; args = param 0 ∷ ValueR.constant (number 5) ∷ [] }

abbrev pub branch : Instr
branch = record {
  id = 0;
  instr_type = InstrType.branch_instr;
  args = [];
  bbs = go ∷ [];
  result_type = AnyType.void;
  n_results = 0;
}

-- The sum of the parameters, and its return.
abbrev pub sum : Instr
sum = record {
  id = 1;
  instr_type = InstrType.binary_instr BinaryInstrSubType.int_add;
  args = param 2 ∷ param 3 ∷ [];
  bbs = [];
  result_type = word;
  n_results = 1;
}

abbrev pub return_sum : Instr
return_sum = record {
  id = 2;
  instr_type = InstrType.return_instr;
  args = ValueR.result 1 0 word ∷ [];
  bbs = [];
  result_type = AnyType.void;
  n_results = 0;
}

abbrev second : BasicBlock
second = record { args = param 2 ∷ param 3 ∷ []; instructions = sum ∷ return_sum ∷ [] }

abbrev pub adder : Function
adder = record {
  basic_blocks = record { args = param 0 ∷ param 1 ∷ []; instructions = branch ∷ [] } ∷ second ∷ [];
}

abbrev entered : Values
entered = (param 0, number 1) ∷ (param 1, number 2) ∷ []

interpret_branch-set_all_example :
    interpret_branch branch (start adder entered)
    ≡ Outcome.done (record {
      state = set_all (param 2 ∷ param 3 ∷ []) (number 1 ∷ number 5 ∷ []) entered;
      ip = record { func = adder; bb_id = 1; instr_id = 0 };
      ret_vals = [];
      returned = false;
    })
interpret_branch-set_all_example =
    interpret_branch-set_all branch (start adder entered) go second (number 1 ∷ number 5 ∷ []) refl
      refl (omega arith) apart read
  where
    apart : AreApart second.args go.args
    apart = unfold same_value in ((refl, (refl, tt)), ((refl, (refl, tt)), tt))

    read :
        all_values (param 0 ∷ ValueR.constant (number 5) ∷ []) entered
        ≡ Outcome.done (number 1 ∷ number 5 ∷ [])
    read = unfold all_values get_constant_value try_get same_value in refl

-- A loop block whose branch exchanges its two parameters: both end with the old second value.
exchange_test :
    pass_args (param 1 ∷ param 0 ∷ []) (param 0 ∷ param 1 ∷ []) entered
    ≡ Outcome.done ((param 0, number 2) ∷ (param 1, number 2) ∷ [])
unfolding pass_args get_constant_value try_get set_value same_value
exchange_test = refl

abbrev pub no_floats : FloatOps
no_floats = record { add32 = λ a b. a; mul32 = λ a b. a; add64 = λ a b. a; mul64 = λ a b. a }

-- The state when the function has returned.
abbrev finished : Interpreter
finished = record {
  state =
      (param 0, number 1)
      ∷ (param 1, number 2)
      ∷ (param 2, number 1)
      ∷ (param 3, number 5)
      ∷ (ValueR.result 1 0 word, number 6)
      ∷ [];
  ip = record { func = adder; bb_id = 1; instr_id = 1 };
  ret_vals = number 6 ∷ [];
  returned = true;
}

adder_test : run no_floats [] 3 (start adder entered) ≡ Outcome.done finished
unfolding run step_instr dispatch interpret_branch jump pass_args get_constant_value try_get
    set_value same_value interpret_binary_expr binary_result int_binary_result int_of int_binary
    finish interpret_ret all_values add from_u64 zext_or_trunc trunc
adder_test = refl
