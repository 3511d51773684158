-- ===== src/Ir/Interpreter/Advance.antt =====
-- An instruction that goes forward returns, or it leaves fewer instructions to its frame.
use foptim.Base.{
  ℕ, suc, ◌+◌, ◌<◌, ◌≡◌, refl, ◌⊎◌, inl, inr, true, if◌then◌else◌, ◌==◌, Option, none, some,
  get_elem?, length, arith,
}
use foptim.ApInt.Bitwise.{is_zero}
use foptim.Ir.{
  get_bitwidth, ValueR, get_type, BinaryInstrSubType, ICmpInstrSubType, BbRefWithArgs, Instr,
  BasicBlock,
}
use foptim.Ir.Interpreter.{
  Outcome, ◌>>=◌, or_refuse, or_abort, get_constant_value, int_of, Interpreter, pass_args, jump,
  interpret_cbranch, finish,
}
use foptim.Ir.Interpreter.Step.{
  FloatOps, binary_result, interpret_binary_expr, interpret_icmp, interpret_int_cast, all_values,
  interpret_ret, take_results, current, check,
}
use foptim.Ir.Interpreter.Typing.{All}
use foptim.Ir.Interpreter.Outcomes.{
  Ends, Any, Ends-bind, or_refuse-Ends, or_abort-Ends, check-Ends, int_of-Ends, pass_args-Ends,
  all_values-Ends, binary_result-Ends,
}
use foptim.Ir.Interpreter.Forward.{
  size_from, GoesForward, FunctionGoesForward, left, get_elem?-All, size_from-le, block-GoesForward,
}

-- What a step makes of a frame: it has returned, or it has fewer instructions left.
abbrev pub Advances : Interpreter → Interpreter → Type 0
Advances m n = (n.ip.func ≡ m.ip.func) × ((n.returned ≡ true) ⊎ (left n < left m))

-- The current instruction: one is left, with those of the later blocks.
pub current-GoesForward :
    (r : ℕ) (m : Interpreter)
    → FunctionGoesForward r m.ip.func
    → Ends
        (λ i.
          GoesForward r m.ip.bb_id i × (size_from m.ip.func.basic_blocks (suc m.ip.bb_id) < left m))
        (or_abort (current m))
current-GoesForward r m h =
    in_block (get_elem? m.ip.func.basic_blocks m.ip.bb_id)
      (block-GoesForward r 0 m.ip.bb_id m.ip.bb_id m.ip.func.basic_blocks (omega arith) h)
  where
    in_block :
        (o : Option BasicBlock)
        → Ends
            (λ b.
              All (GoesForward r m.ip.bb_id) b.instructions
              × (size_from m.ip.func.basic_blocks m.ip.bb_id
                  ≡ length b.instructions + size_from m.ip.func.basic_blocks (suc m.ip.bb_id)))
            (or_abort o)
        → Ends
            (λ i.
              GoesForward r m.ip.bb_id i
              × (size_from m.ip.func.basic_blocks (suc m.ip.bb_id) < left m))
            (or_abort (elim o [ none ↦ none | some b ↦ get_elem? b.instructions m.ip.instr_id ]))
    in_block none h = tt
    in_block (some b) h =
        in_list (get_elem? b.instructions m.ip.instr_id)
          (get_elem?-All (GoesForward r m.ip.bb_id) b.instructions m.ip.instr_id h.0)
      where
        in_list :
            (o : Option Instr)
            → Ends
                (λ i. GoesForward r m.ip.bb_id i × (m.ip.instr_id < length b.instructions))
                (or_abort o)
            → Ends
                (λ i.
                  GoesForward r m.ip.bb_id i
                  × (size_from m.ip.func.basic_blocks (suc m.ip.bb_id) < left m))
                (or_abort o)
        in_list none k = tt
        in_list (some i) k = (k.0, omega (arith, k.1, h.1))

module _ (m : Interpreter) (here : size_from m.ip.func.basic_blocks (suc m.ip.bb_id) < left m) where
  jump-Advances : (b : BbRefWithArgs) → m.ip.bb_id < b.bb → Ends (Advances m) (jump b m)
  unfolding jump
  jump-Advances b lt =
      Ends-bind Any (Advances m) (or_abort (get_elem? m.ip.func.basic_blocks b.bb)) _
        (or_abort-Ends (get_elem? m.ip.func.basic_blocks b.bb))
        (λ bb u.
          Ends-bind Any (Advances m) (pass_args b.args bb.args m.state) _
            (pass_args-Ends b.args bb.args m.state)
            (λ st u. (
              refl,
              inr (
                  omega (
                    arith,
                    here,
                    size_from-le m.ip.func.basic_blocks (suc m.ip.bb_id) b.bb (omega arith),
                  )),
            )))

  pub target-Ends :
      (i : Instr) (k : ℕ)
      → All (λ (b : BbRefWithArgs). m.ip.bb_id < b.bb) i.bbs
      → Ends (Advances m) (or_abort (get_elem? i.bbs k) >>= (λ target. jump target m))
  target-Ends i k h =
      Ends-bind _ (Advances m) (or_abort (get_elem? i.bbs k)) _ (get_elem?-All _ i.bbs k h)
        (λ b lt. jump-Advances b lt.0)

  pub interpret_cbranch-Ends :
      (i : Instr)
      → All (λ (b : BbRefWithArgs). m.ip.bb_id < b.bb) i.bbs
      → Ends (Advances m) (interpret_cbranch i m)
  unfolding interpret_cbranch
  interpret_cbranch-Ends i h =
      Ends-bind Any (Advances m) (or_abort (get_elem? i.args 0)) _
        (or_abort-Ends (get_elem? i.args 0))
        (λ c u.
          Ends-bind Any (Advances m) (or_refuse (get_constant_value c m.state)) _
            (or_refuse-Ends (get_constant_value c m.state))
            (λ v u.
              Ends-bind Any (Advances m) (int_of v.constant 1) _ (int_of-Ends v.constant 1)
                (λ bit u. target-Ends i (if is_zero bit then 1 else 0) h)))

  -- The first operands of an instruction, and their values.
  operand-Ends :
      {A : Type 0} (P : A → Type 0) (i : Instr) (k : ℕ) (f : ValueR → Outcome A)
      → ((x : ValueR) → Ends P (f x))
      → Ends P (or_abort (get_elem? i.args k) >>= f)
  operand-Ends P i k f h =
      Ends-bind Any P (or_abort (get_elem? i.args k)) f (or_abort-Ends (get_elem? i.args k))
        (λ x u. h x)

  value-Ends :
      {A : Type 0} (P : A → Type 0) (x : ValueR) (f : _ → Outcome A)
      → ((c : _) → Ends P (f c))
      → Ends P (or_refuse (get_constant_value x m.state) >>= f)
  value-Ends P x f h =
      Ends-bind Any P (or_refuse (get_constant_value x m.state)) f
        (or_refuse-Ends (get_constant_value x m.state)) (λ v u. h v)

  pub interpret_binary_expr-Ends :
      (ops : FloatOps) (op : BinaryInstrSubType) (i : Instr)
      → Ends (Advances m) (interpret_binary_expr ops op i m)
  unfolding interpret_binary_expr finish
  interpret_binary_expr-Ends ops op i = operand-Ends (Advances m) i 0 _ (λ x.
      operand-Ends (Advances m) i 1 _ (λ y. value-Ends (Advances m) x _ (λ v1.
        value-Ends (Advances m) y _ (λ v2.
          Ends-bind Any (Advances m) (binary_result ops op i.result_type v1.constant v2.constant) _
            (binary_result-Ends i.result_type v1.constant v2.constant ops op)
            (λ c u. (refl, inr (omega (arith, here))))))))

  pub interpret_icmp-Ends :
      (op : ICmpInstrSubType) (i : Instr) → Ends (Advances m) (interpret_icmp op i m)
  unfolding interpret_icmp finish
  interpret_icmp-Ends op i = operand-Ends (Advances m) i 0 _ (λ x.
      operand-Ends (Advances m) i 1 _ (λ y. value-Ends (Advances m) x _ (λ v1.
        value-Ends (Advances m) y _ (λ v2.
          let w = get_bitwidth (get_type x) in
          Ends-bind Any (Advances m) (int_of v1.constant w) _ (int_of-Ends v1.constant w) (λ a u.
            Ends-bind Any (Advances m) (int_of v2.constant w) _ (int_of-Ends v2.constant w)
              (λ b u. (refl, inr (omega (arith, here)))))))))

  pub interpret_int_cast-Ends : (i : Instr) → Ends (Advances m) (interpret_int_cast i m)
  unfolding interpret_int_cast finish
  interpret_int_cast-Ends i = operand-Ends (Advances m) i 0 _ (λ x.
      value-Ends (Advances m) x _ (λ v.
        let w = get_bitwidth (get_type x) in
        Ends-bind Any (Advances m) (int_of v.constant w) _ (int_of-Ends v.constant w)
          (λ a u. (refl, inr (omega (arith, here))))))

  pub interpret_ret-Ends : (i : Instr) → Ends (Advances m) (interpret_ret i m)
  unfolding interpret_ret
  interpret_ret-Ends i =
      Ends-bind Any (Advances m) (all_values i.args m.state) _ (all_values-Ends i.args m.state)
        (λ vs u. (refl, inl refl))

  pub take_results-Ends : (i : Instr) (sub : Interpreter) → Ends (Advances m) (take_results i m sub)
  unfolding take_results
  take_results-Ends i sub =
      Ends-bind Any (Advances m) (check (length sub.ret_vals == i.n_results)) _
        (check-Ends (length sub.ret_vals == i.n_results)) (λ u v. (refl, inr (omega (arith, here))))
