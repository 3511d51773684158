-- ===== src/Tests/Calls.antt =====
-- A function that calls another one of its program: its values are typed, and it returns.
use foptim.Base.{ℕ, ◌^◌, ◌<◌, ◌≡◌, refl, arith, ◌⊎◌, List, [], ◌∷◌, true}
use foptim.Words.{value}
use foptim.ApInt.{add, from_u64, zext_or_trunc, trunc}
use foptim.Ir.{AnyType, Constant, ValueR, same_value, InstrType, Instr, Function}
use foptim.Ir.Interpreter.{
  Outcome, Interpreter, pass_args, interpret_branch, int_binary, get_constant_value, try_get,
  set_value, jump, finish, int_of,
}
use foptim.Ir.Interpreter.Step.{
  run, start, all_values, step_instr, dispatch, interpret_ret, interpret_binary_expr, binary_result,
  int_binary_result, interpret_call, call_frame, take_results, set_params, set_results,
  insert_value,
}
use foptim.Ir.Interpreter.Typing.{Holds, IsTyped, InstrIsTyped, FunctionIsTyped, StateIsTyped}
use foptim.Ir.Interpreter.TypedRuns.{run-IsTyped}
use foptim.Ir.Interpreter.Forward.{GoesForward, FunctionGoesForward, ProgramGoesForward}
use foptim.Ir.Interpreter.Halting.{run-returns}
use foptim.Tests.Interpreting.{word, number, adder, branch, sum, return_sum, no_floats}

-- The sum of 1, which is passed on, and 5, from the function with the index 0; its return.
abbrev callee : ValueR
callee = ValueR.constant (record { type = AnyType.function; constant = Constant.func_ptr 0 })

abbrev call : Instr
call = record {
  id = 0;
  instr_type = InstrType.call_instr;
  args = callee ∷ ValueR.constant (number 1) ∷ ValueR.constant (number 2) ∷ [];
  bbs = [];
  result_type = word;
  n_results = 1;
}

abbrev return_call : Instr
return_call = record {
  id = 1;
  instr_type = InstrType.return_instr;
  args = ValueR.result 0 0 word ∷ [];
  bbs = [];
  result_type = AnyType.void;
  n_results = 0;
}

abbrev caller : Function
caller = record { basic_blocks = record { args = []; instructions = call ∷ return_call ∷ [] } ∷ [] }

abbrev program : List Function
program = adder ∷ []

-- The state of the caller when it has returned.
abbrev answered : Interpreter
answered = record {
  state = (ValueR.result 0 0 word, number 6) ∷ [];
  ip = record { func = caller; bb_id = 0; instr_id = 1 };
  ret_vals = number 6 ∷ [];
  returned = true;
}

caller_test : run no_floats program 7 (start caller []) ≡ Outcome.done answered
unfolding run step_instr dispatch interpret_branch jump pass_args get_constant_value try_get
    set_value same_value interpret_binary_expr binary_result int_binary_result int_of int_binary
    finish interpret_ret all_values add from_u64 zext_or_trunc trunc interpret_call call_frame
    take_results set_params set_results insert_value
caller_test = refl

number-IsTyped : (n : ℕ) → n < 2 ^ 32 → IsTyped (number n)
unfolding value
number-IsTyped n lt = (
  record {
    shape = record {
      positive = omega arith;
      fits = omega arith;
      count = refl;
      all_words = omega arith;
    };
    cut = omega arith;
  },
  refl,
)

adder-IsTyped : FunctionIsTyped adder
adder-IsTyped = ((branch-IsTyped, tt), ((sum-IsTyped, (return_sum-IsTyped, tt)), tt))
  where
    branch-IsTyped : InstrIsTyped branch
    branch-IsTyped = record {
      args = tt;
      branches = ((tt, (number-IsTyped 5 (omega arith), tt)), tt);
      types = tt;
    }

    sum-IsTyped : InstrIsTyped sum
    sum-IsTyped = record {
      args = (tt, (tt, tt));
      branches = tt;
      types = λ e. (omega arith, omega arith);
    }

    return_sum-IsTyped : InstrIsTyped return_sum
    return_sum-IsTyped = record { args = (tt, tt); branches = tt; types = tt }

caller-IsTyped : FunctionIsTyped caller
caller-IsTyped = ((call-IsTyped, (return_call-IsTyped, tt)), tt)
  where
    call-IsTyped : InstrIsTyped call
    call-IsTyped = record {
      args = (tt, (number-IsTyped 1 (omega arith), (number-IsTyped 2 (omega arith), tt)));
      branches = tt;
      types = tt;
    }

    return_call-IsTyped : InstrIsTyped return_call
    return_call-IsTyped = record { args = (tt, tt); branches = tt; types = tt }

run-IsTyped_example : Holds StateIsTyped (run no_floats program 7 (start caller []))
run-IsTyped_example =
    run-IsTyped no_floats program (adder-IsTyped, tt) 7 (start caller [])
      (record { state = tt; func = caller-IsTyped; ret_vals = tt })

adder-GoesForward : ProgramGoesForward 0 program
adder-GoesForward =
    (((branch-GoesForward, tt), ((sum-GoesForward, (return_sum-GoesForward, tt)), tt)), tt)
  where
    branch-GoesForward : GoesForward 0 0 branch
    branch-GoesForward = record { targets = (omega arith, tt); calls = tt }

    sum-GoesForward : GoesForward 0 1 sum
    sum-GoesForward = record { targets = tt; calls = tt }

    return_sum-GoesForward : GoesForward 0 1 return_sum
    return_sum-GoesForward = record { targets = tt; calls = tt }

caller-GoesForward : FunctionGoesForward 1 caller
caller-GoesForward = ((call-GoesForward, (return_call-GoesForward, tt)), tt)
  where
    call-GoesForward : GoesForward 1 0 call
    call-GoesForward = record { targets = tt; calls = omega arith }

    return_call-GoesForward : GoesForward 1 0 return_call
    return_call-GoesForward = record { targets = tt; calls = tt }

run-returns_example :
    (run no_floats program 7 (start caller []) ≡ Outcome.refused)
    ⊎ (run no_floats program 7 (start caller []) ≡ Outcome.aborted)
    ⊎ ((n : Interpreter) × (run no_floats program 7 (start caller []) ≡ Outcome.done n)
        × (n.returned ≡ true))
run-returns_example =
    run-returns program adder-GoesForward no_floats 7 1 (start caller []) caller-GoesForward
      (omega arith)
