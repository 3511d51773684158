-- ===== src/Ir/Interpreter/TypedRuns.antt =====
-- A run of a typed program, calls included, keeps every value typed.
use foptim.Base.{
  ℕ, zero, suc, ◌-◌, ◌≡◌, refl, sym, subst, List, [], ◌∷◌, true, false, ◌==◌, if◌then◌else◌, Option,
  none, some, Bool-cases, inl, inr, get_elem?, length,
}
use foptim.Base.Options.{Option-cases}
use foptim.Ir.{
  get_bitwidth, ConstantValue, ValueR, get_type, InstrType, Instr, BasicBlock, Function, is_decl,
}
use foptim.Ir.Interpreter.{
  Outcome, ◌>>=◌, or_refuse, or_abort, Values, try_get, set_value, get_constant_value, Interpreter,
}
use foptim.Ir.Interpreter.Step.{
  FloatOps, insert_value, set_params, set_results, call_frame, take_results, interpret_call,
  current, dispatch, step_instr, run, check, constant_func, not_decl, tail,
}
use foptim.Ir.Interpreter.Typing.{
  Holds, Holds-bind, Holds-any, All, CastFits, get_elem?-All, IsTyped, OperandIsTyped, TypesFit,
  InstrIsTyped, FunctionIsTyped, StateIsTyped, ValuesAreTyped, set_value-AreTyped,
  get_constant_value-IsTyped,
}
use foptim.Ir.Interpreter.Preservation.{
  interpret_branch-IsTyped, interpret_cbranch-IsTyped, interpret_binary_expr-IsTyped,
  interpret_icmp-IsTyped, interpret_ret-IsTyped, interpret_int_cast-IsTyped,
}

insert_value-AreTyped :
    (st : Values) (v : ValueR) (c : ConstantValue)
    → ValuesAreTyped st
    → IsTyped c
    → ValuesAreTyped (insert_value st v c)
unfolding insert_value
insert_value-AreTyped st v c h t = elim (Option-cases (try_get st v)) [
  | inl e ↦ rw (e, insert_value) (t, h)
  | inr (old, e) ↦ rw (e, insert_value) h
]

set_params-AreTyped :
    (params args : List ValueR) (st sub : Values)
    → All OperandIsTyped args
    → ValuesAreTyped st
    → ValuesAreTyped sub
    → Holds ValuesAreTyped (set_params params args st sub)
unfolding set_params
set_params-AreTyped [] args st sub t h k = k
set_params-AreTyped (p ∷ params) [] st sub t h k = tt
set_params-AreTyped (p ∷ params) (a ∷ args) st sub t h k =
    Holds-bind IsTyped ValuesAreTyped (or_refuse (get_constant_value a st)) _
      (get_constant_value-IsTyped a st t.0 h)
      (λ v tv.
        set_params-AreTyped params args st (insert_value sub p v) t.1 h
          (insert_value-AreTyped sub p v k tv))

set_results-AreTyped :
    (call : Instr) (i : ℕ) (vs : List ConstantValue) (st : Values)
    → All IsTyped vs
    → ValuesAreTyped st
    → ValuesAreTyped (set_results call i vs st)
unfolding set_results
set_results-AreTyped call i [] st t h = h
set_results-AreTyped call i (v ∷ vs) st t h =
    set_results-AreTyped call (suc i) vs (set_value st (ValueR.result call.id i call.result_type) v)
      t.1 (set_value-AreTyped st (ValueR.result call.id i call.result_type) v h t.0)

tail-All : (args : List ValueR) → All OperandIsTyped args → All OperandIsTyped (tail args)
tail-All [] h = tt
tail-All (a ∷ args) h = h.1

not_decl-IsTyped :
    (f : Function) → FunctionIsTyped f → Holds FunctionIsTyped (or_refuse (not_decl f))
not_decl-IsTyped f t = elim (Bool-cases (is_decl f)) [ inl e ↦ rw e tt | inr e ↦ rw e t ]

cast_types :
    (i : Instr) (k : InstrType)
    → i.instr_type ≡ k
    → All (λ x. CastFits k (get_bitwidth (get_type x)) (get_bitwidth i.result_type)) i.args
    → All
        (λ x. CastFits i.instr_type (get_bitwidth (get_type x)) (get_bitwidth i.result_type))
        i.args
cast_types i k e fit =
    subst
      (λ t. All (λ x. CastFits t (get_bitwidth (get_type x)) (get_bitwidth i.result_type)) i.args)
      (sym e) fit

-- The current instruction, in the block that is found.
in_block :
    (o : Option BasicBlock) (n : ℕ)
    → Holds (λ (b : BasicBlock). All InstrIsTyped b.instructions) (or_abort o)
    → Holds InstrIsTyped (or_abort (elim o [ none ↦ none | some bb ↦ get_elem? bb.instructions n ]))
in_block none n h = tt
in_block (some bb) n h = get_elem?-All InstrIsTyped bb.instructions n h

module _ (ops : FloatOps) (program : List Function) (typed : All FunctionIsTyped program) where
  call_frame-IsTyped :
      (call : Instr) (m : Interpreter)
      → InstrIsTyped call
      → StateIsTyped m
      → Holds StateIsTyped (call_frame program call m)
  unfolding call_frame
  call_frame-IsTyped call m t s =
      Holds-bind _ StateIsTyped (or_abort (get_elem? call.args 0)) _
        (Holds-any (or_abort (get_elem? call.args 0)))
        (λ callee u.
          Holds-bind _ StateIsTyped (or_refuse (constant_func callee)) _
            (Holds-any (or_refuse (constant_func callee)))
            (λ index u.
              Holds-bind FunctionIsTyped StateIsTyped (or_abort (get_elem? program index)) _
                (get_elem?-All _ program index typed)
                (λ found tf.
                  Holds-bind FunctionIsTyped StateIsTyped (or_refuse (not_decl found)) _
                    (not_decl-IsTyped found tf)
                    (λ func tg.
                      Holds-bind _ StateIsTyped (or_abort (get_elem? func.basic_blocks 0)) _
                        (Holds-any (or_abort (get_elem? func.basic_blocks 0)))
                        (λ entry u.
                          Holds-bind _ StateIsTyped
                            (check (length entry.args == length call.args - 1)) _
                            (Holds-any (check (length entry.args == length call.args - 1)))
                            (λ same u.
                              Holds-bind ValuesAreTyped StateIsTyped
                                (set_params entry.args (tail call.args) m.state []) _
                                (set_params-AreTyped entry.args (tail call.args) m.state []
                                  (tail-All call.args t.args) s.state tt)
                                (λ params h. record { state = h; func = tg; ret_vals = tt })))))))

  take_results-IsTyped :
      (call : Instr) (m sub : Interpreter)
      → StateIsTyped m
      → StateIsTyped sub
      → Holds StateIsTyped (take_results call m sub)
  unfolding take_results
  take_results-IsTyped call m sub s r =
      Holds-bind _ StateIsTyped (check (length sub.ret_vals == call.n_results)) _
        (Holds-any (check (length sub.ret_vals == call.n_results)))
        (λ count u. record {
          state = set_results-AreTyped call 0 sub.ret_vals m.state r.ret_vals s.state;
          func = s.func;
          ret_vals = s.ret_vals;
        })

  -- With the interpreter of the callees typed, a step is.
  module _ (callee : Interpreter → Outcome Interpreter)
      (calls : (m : Interpreter) → StateIsTyped m → Holds StateIsTyped (callee m)) where
    dispatch-IsTyped :
        (k : InstrType) (i : Instr) (m : Interpreter)
        → i.instr_type ≡ k
        → InstrIsTyped i
        → TypesFit k i
        → StateIsTyped m
        → Holds StateIsTyped (dispatch ops program callee k i m)
    unfolding dispatch
    dispatch-IsTyped InstrType.branch_instr i m e t fit s = interpret_branch-IsTyped m s i t
    dispatch-IsTyped InstrType.cond_branch_instr i m e t fit s = interpret_cbranch-IsTyped m s i t
    dispatch-IsTyped (InstrType.binary_instr op) i m e t fit s =
        interpret_binary_expr-IsTyped m s ops op i t fit
    dispatch-IsTyped (InstrType.icmp op) i m e t fit s = interpret_icmp-IsTyped m s op i t fit
    dispatch-IsTyped InstrType.sext i m e t fit s =
        interpret_int_cast-IsTyped m s i t (cast_types i _ e fit)
    dispatch-IsTyped InstrType.zext i m e t fit s =
        interpret_int_cast-IsTyped m s i t (cast_types i _ e fit)
    dispatch-IsTyped InstrType.itrunc i m e t fit s =
        interpret_int_cast-IsTyped m s i t (cast_types i _ e fit)
    dispatch-IsTyped InstrType.return_instr i m e t fit s = interpret_ret-IsTyped m s i t
    dispatch-IsTyped InstrType.other i m e t fit s = tt
    dispatch-IsTyped InstrType.call_instr i m e t fit s =
        unfold interpret_call in
        Holds-bind StateIsTyped StateIsTyped (call_frame program i m) _ (call_frame-IsTyped i m t s)
          (λ entry te.
            Holds-bind StateIsTyped StateIsTyped (callee entry) _ (calls entry te)
              (λ sub ts. take_results-IsTyped i m sub s ts))

    pub step_instr-IsTyped :
        (m : Interpreter) → StateIsTyped m → Holds StateIsTyped (step_instr ops program callee m)
    unfolding step_instr
    step_instr-IsTyped m s =
        Holds-bind InstrIsTyped StateIsTyped (or_abort (current m)) _ (current-IsTyped)
          (λ i t. dispatch-IsTyped i.instr_type i m refl t t.types s)
      where
        current-IsTyped : Holds InstrIsTyped (or_abort (current m))
        current-IsTyped =
            in_block (get_elem? m.ip.func.basic_blocks m.ip.bb_id) m.ip.instr_id
              (get_elem?-All _ m.ip.func.basic_blocks m.ip.bb_id s.func)

  -- For a program and a state in which every integer constant is well formed with the width of its
  -- type, integer operations have result types of 1 to 128 bits, extensions go to no fewer bits and
  -- at most 128, and truncations to no more bits from at most 128: when run returns with whatever
  -- fuel, nested calls included, every integer in its values and among the returned values is well
  -- formed and has the width of its type, and the function of its frame is still typed.
  pub run-IsTyped :
      (fuel : ℕ) (m : Interpreter) → StateIsTyped m → Holds StateIsTyped (run ops program fuel m)
  unfolding run
  run-IsTyped zero m s =
      elim m.returned
        as (λ b. Holds StateIsTyped (if b then Outcome.done m else Outcome.unfinished)) [
          | true ↦ s
          | false ↦ tt
        ]
  run-IsTyped (suc fuel) m s =
      elim m.returned
        as (λ b. Holds StateIsTyped (
          if b
          then Outcome.done m
          else step_instr ops program (run ops program fuel) m >>= (λ n. run ops program fuel n))) [
            | true ↦ s
            | false ↦
                Holds-bind StateIsTyped StateIsTyped
                  (step_instr ops program (run ops program fuel) m) _
                  (step_instr-IsTyped (run ops program fuel) (run-IsTyped fuel) m s)
                  (run-IsTyped fuel)
          ]
