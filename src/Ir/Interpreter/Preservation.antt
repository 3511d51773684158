-- ===== src/Ir/Interpreter/Preservation.antt =====
-- Each step of the interpreter keeps its values typed, and so does a run with the calls in it.
use foptim.Base.{ℕ, List, [], ◌∷◌, if◌then◌else◌, get_elem?}
use foptim.ApInt.Bitwise.{is_zero}
use foptim.Ir.{
  get_bitwidth, Constant, ConstantValue, ValueR, get_type, BinaryInstrSubType, ICmpInstrSubType,
  InstrType, BbRefWithArgs, Instr, BasicBlock,
}
use foptim.Ir.Interpreter.{
  or_refuse, or_abort, get_constant_value, int_of, bool_value, Interpreter, pass_args, jump,
  interpret_branch, interpret_cbranch, finish,
}
use foptim.Ir.Interpreter.Step.{
  FloatOps, binary_result, interpret_binary_expr, interpret_icmp, int_compare, cast,
  interpret_int_cast, all_values, interpret_ret,
}
use foptim.Ir.Interpreter.Typing.{
  Holds, Holds-bind, Holds-any, All, All-both, CastFits, get_elem?-All, IsOfType, IsTyped,
  OperandIsTyped, TypesFit, InstrIsTyped, StateIsTyped, ValuesAreTyped, HasWidth,
  set_value-AreTyped, get_constant_value-IsTyped, int_of-HasWidth,
}
use foptim.Ir.Interpreter.TypedResults.{
  pass_args-AreTyped, binary_result-IsOfType, bool_value-IsTyped, cast-HasWidth, CastFits-width,
}

module _ (m : Interpreter) (s : StateIsTyped m) where
  jump-IsTyped : (b : BbRefWithArgs) → All OperandIsTyped b.args → Holds StateIsTyped (jump b m)
  unfolding jump
  jump-IsTyped b t =
      Holds-bind (λ (bb : BasicBlock). Unit {0}) StateIsTyped
        (or_abort (get_elem? m.ip.func.basic_blocks b.bb)) _
        (Holds-any (or_abort (get_elem? m.ip.func.basic_blocks b.bb)))
        (λ bb u.
          Holds-bind ValuesAreTyped StateIsTyped (pass_args b.args bb.args m.state) _
            (pass_args-AreTyped b.args bb.args m.state t s.state)
            (λ st h. record { state = h; func = s.func; ret_vals = s.ret_vals }))

  finish-IsTyped : (i : Instr) (c : ConstantValue) → IsTyped c → StateIsTyped (finish i c m)
  unfolding finish
  finish-IsTyped i c t = record {
    state = set_value-AreTyped m.state (ValueR.result i.id 0 i.result_type) c s.state t;
    func = s.func;
    ret_vals = s.ret_vals;
  }

  pub interpret_branch-IsTyped :
      (i : Instr) → InstrIsTyped i → Holds StateIsTyped (interpret_branch i m)
  unfolding interpret_branch
  interpret_branch-IsTyped i t =
      Holds-bind (λ (b : BbRefWithArgs). All OperandIsTyped b.args) StateIsTyped
        (or_abort (get_elem? i.bbs 0)) _ (get_elem?-All _ i.bbs 0 t.branches) jump-IsTyped

  pub interpret_cbranch-IsTyped :
      (i : Instr) → InstrIsTyped i → Holds StateIsTyped (interpret_cbranch i m)
  unfolding interpret_cbranch
  interpret_cbranch-IsTyped i t =
      Holds-bind OperandIsTyped StateIsTyped (or_abort (get_elem? i.args 0)) _
        (get_elem?-All _ i.args 0 t.args)
        (λ c tc.
          Holds-bind IsTyped StateIsTyped (or_refuse (get_constant_value c m.state)) _
            (get_constant_value-IsTyped c m.state tc s.state)
            (λ v tv.
              Holds-bind _ StateIsTyped (int_of v.constant 1) _ (Holds-any (int_of v.constant 1))
                (λ bit u.
                  Holds-bind (λ (b : BbRefWithArgs). All OperandIsTyped b.args) StateIsTyped
                    (or_abort (get_elem? i.bbs (if is_zero bit then 1 else 0))) _
                    (get_elem?-All _ i.bbs (if is_zero bit then 1 else 0) t.branches)
                    jump-IsTyped)))

  -- An operand of an instruction.
  operand :
      (i : Instr) (k : ℕ) → InstrIsTyped i → Holds OperandIsTyped (or_abort (get_elem? i.args k))
  operand i k t = get_elem?-All OperandIsTyped i.args k t.args

  read : (x : ValueR) → OperandIsTyped x → Holds IsTyped (or_refuse (get_constant_value x m.state))
  read x t = get_constant_value-IsTyped x m.state t s.state

  pub interpret_binary_expr-IsTyped :
      (ops : FloatOps) (op : BinaryInstrSubType) (i : Instr)
      → InstrIsTyped i
      → TypesFit (InstrType.binary_instr op) i
      → Holds StateIsTyped (interpret_binary_expr ops op i m)
  unfolding interpret_binary_expr
  interpret_binary_expr-IsTyped ops op i t fit =
      Holds-bind OperandIsTyped StateIsTyped (or_abort (get_elem? i.args 0)) _ (operand i 0 t)
        (λ x tx.
          Holds-bind OperandIsTyped StateIsTyped (or_abort (get_elem? i.args 1)) _ (operand i 1 t)
            (λ y ty.
              Holds-bind IsTyped StateIsTyped (or_refuse (get_constant_value x m.state)) _
                (read x tx)
                (λ v1 t1.
                  Holds-bind IsTyped StateIsTyped (or_refuse (get_constant_value y m.state)) _
                    (read y ty)
                    (λ v2 t2.
                      Holds-bind (λ c. IsOfType c i.result_type) StateIsTyped
                        (binary_result ops op i.result_type v1.constant v2.constant) _
                        (binary_result-IsOfType i.result_type v1.type v2.type v1.constant
                          v2.constant t1 t2 fit ops op)
                        (λ c tc.
                          finish-IsTyped i (record { type = i.result_type; constant = c }) tc)))))

  pub interpret_icmp-IsTyped :
      (op : ICmpInstrSubType) (i : Instr)
      → InstrIsTyped i
      → TypesFit (InstrType.icmp op) i
      → Holds StateIsTyped (interpret_icmp op i m)
  unfolding interpret_icmp
  interpret_icmp-IsTyped op i t fit =
      Holds-bind OperandIsTyped StateIsTyped (or_abort (get_elem? i.args 0)) _ (operand i 0 t)
        (λ x tx.
          Holds-bind OperandIsTyped StateIsTyped (or_abort (get_elem? i.args 1)) _ (operand i 1 t)
            (λ y ty.
              Holds-bind IsTyped StateIsTyped (or_refuse (get_constant_value x m.state)) _
                (read x tx)
                (λ v1 t1.
                  Holds-bind IsTyped StateIsTyped (or_refuse (get_constant_value y m.state)) _
                    (read y ty)
                    (λ v2 t2.
                      let w = get_bitwidth (get_type x) in
                      Holds-bind _ StateIsTyped (int_of v1.constant w) _
                        (Holds-any (int_of v1.constant w))
                        (λ a u.
                          Holds-bind _ StateIsTyped (int_of v2.constant w) _
                            (Holds-any (int_of v2.constant w))
                            (λ b u.
                              finish-IsTyped i (bool_value (int_compare op a b) i.result_type)
                                (bool_value-IsTyped (int_compare op a b) i.result_type fit)))))))

  pub interpret_ret-IsTyped : (i : Instr) → InstrIsTyped i → Holds StateIsTyped (interpret_ret i m)
  unfolding interpret_ret
  interpret_ret-IsTyped i t =
      Holds-bind (All IsTyped) StateIsTyped (all_values i.args m.state) _
        (all_values-AreTyped i.args t.args)
        (λ vs h. record { state = s.state; func = s.func; ret_vals = h })
    where
      all_values-AreTyped :
          (args : List ValueR)
          → All OperandIsTyped args
          → Holds (All IsTyped) (all_values args m.state)
      all_values-AreTyped [] h = tt
      all_values-AreTyped (a ∷ args) h =
          Holds-bind IsTyped (All IsTyped) (or_refuse (get_constant_value a m.state)) _ (read a h.0)
            (λ v tv.
              Holds-bind (All IsTyped) (All IsTyped) (all_values args m.state) _
                (all_values-AreTyped args h.1) (λ vs tvs. (tv, tvs)))

  pub interpret_int_cast-IsTyped :
      (i : Instr)
      → InstrIsTyped i
      → All
          (λ x. CastFits i.instr_type (get_bitwidth (get_type x)) (get_bitwidth i.result_type))
          i.args
      → Holds StateIsTyped (interpret_int_cast i m)
  unfolding interpret_int_cast
  interpret_int_cast-IsTyped i t fits =
      let to = get_bitwidth i.result_type in
      Holds-bind (λ x. OperandIsTyped x × CastFits i.instr_type (get_bitwidth (get_type x)) to)
        StateIsTyped (or_abort (get_elem? i.args 0)) _
        (get_elem?-All _ i.args 0 (All-both OperandIsTyped _ i.args t.args fits))
        (λ x tx.
          Holds-bind IsTyped StateIsTyped (or_refuse (get_constant_value x m.state)) _ (read x tx.0)
            (λ v tv.
              let from = get_bitwidth (get_type x) in
              let width = CastFits-width i.instr_type from to tx.1 in
              Holds-bind (HasWidth from) StateIsTyped (int_of v.constant from) _
                (int_of-HasWidth v.constant v.type from tv width.0 width.1)
                (λ a ha.
                  finish-IsTyped i
                    (record {
                      type = i.result_type;
                      constant = Constant.int_value (cast i.instr_type a to);
                    })
                    (cast-HasWidth i.instr_type a from to tx.1 ha))))
