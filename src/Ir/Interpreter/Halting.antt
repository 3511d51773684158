-- ===== src/Ir/Interpreter/Halting.antt =====
-- Functions whose branches go to later blocks, and whose calls go to earlier functions of the
-- program, return or fail: no run of them is without end.
use foptim.Base.{
  ℕ, zero, suc, ◌+◌, ◌-◌, ◌*◌, ◌<◌, ◌≤◌, ◌≡◌, refl, sym, subst, ◌⊎◌, inl, inr, List, [], ◌∷◌, Bool,
  true, false, if◌then◌else◌, ◌==◌, Option, none, some, get_elem?, length, arith,
}
use native.Mathlib.Nat.{mul-le-mul_left}
use foptim.Ir.{ValueR, InstrType, BbRefWithArgs, Instr, Function, is_decl}
use foptim.Ir.Interpreter.{Outcome, ◌>>=◌, or_refuse, or_abort, Interpreter, interpret_branch}
use foptim.Ir.Interpreter.Step.{
  FloatOps, set_params, call_frame, interpret_call, current, dispatch, step_instr, run, check,
  constant_func, not_decl, tail,
}
use foptim.Ir.Interpreter.Typing.{All}
use foptim.Ir.Interpreter.Outcomes.{
  Ends, Any, Ends-bind, Ends-cases, or_abort-Ends, check-Ends, set_params-Ends,
}
use foptim.Ir.Interpreter.Forward.{
  size_from, program_size, IsBelow, CalleeIsBelow, CallsBelow, FunctionGoesForward,
  ProgramGoesForward, left, function-GoesForward,
}
use foptim.Ir.Interpreter.Advance.{
  Advances, current-GoesForward, target-Ends, interpret_cbranch-Ends, interpret_binary_expr-Ends,
  interpret_icmp-Ends, interpret_int_cast-Ends, interpret_ret-Ends, take_results-Ends,
}

mul_below : (s r n : ℕ) → s < r → s * n + n ≤ r * n
mul_below s r n lt = let le : suc s ≤ r = omega (arith, lt) in omega (arith, mul-le-mul_left n le)

abbrev HasReturned : Interpreter → Type 0
HasReturned m = m.returned ≡ true

stop :
    (m : Interpreter) (b : Bool) (o : Outcome Interpreter)
    → b ≡ true
    → m.returned ≡ true
    → Ends HasReturned (if b then Outcome.done m else o)
stop m b o e returned = rw e returned

module _ (program : List Function) (forward : ProgramGoesForward 0 program) where
  -- The frame of a callee, a function with a smaller index.
  abbrev IsCallee : ℕ → Interpreter → Type 0
  IsCallee r n =
      (s : ℕ) × (s < r) × FunctionGoesForward s n.ip.func × (left n ≤ program_size program)

  abbrev IsSmaller : ℕ → Function → Type 0
  IsSmaller j f = FunctionGoesForward j f × (size_from f.basic_blocks 0 ≤ program_size program)

  call_frame-Ends :
      (r : ℕ) (i : Instr) (m : Interpreter)
      → CalleeIsBelow r i.args
      → Ends (IsCallee r) (call_frame program i m)
  unfolding call_frame
  call_frame-Ends r i m below =
      Ends-bind (λ x. IsBelow r (constant_func x)) (IsCallee r) (or_abort (get_elem? i.args 0)) _
        (first i.args below)
        (λ x lt.
          Ends-bind (λ j. j < r) (IsCallee r) (or_refuse (constant_func x)) _
            (index (constant_func x) lt)
            (λ j lt.
              Ends-bind (IsSmaller j) (IsCallee r) (or_abort (get_elem? program j)) _
                (function-GoesForward 0 j j program (omega arith) forward)
                (λ found h.
                  Ends-bind (IsSmaller j) (IsCallee r) (or_refuse (not_decl found)) _
                    (defined (IsSmaller j) found h)
                    (λ f h.
                      Ends-bind Any (IsCallee r) (or_abort (get_elem? f.basic_blocks 0)) _
                        (or_abort-Ends (get_elem? f.basic_blocks 0))
                        (λ entry u.
                          Ends-bind Any (IsCallee r)
                            (check (length entry.args == length i.args - 1)) _
                            (check-Ends (length entry.args == length i.args - 1))
                            (λ u v.
                              Ends-bind Any (IsCallee r)
                                (set_params entry.args (tail i.args) m.state []) _
                                (set_params-Ends entry.args (tail i.args) m.state [])
                                (λ params u. (j, lt, h.0, omega (arith, h.1)))))))))
    where
      first :
          (args : List ValueR)
          → CalleeIsBelow r args
          → Ends (λ x. IsBelow r (constant_func x)) (or_abort (get_elem? args 0))
      first [] h = tt
      first (a ∷ args) h = h

      index : (o : Option ℕ) → IsBelow r o → Ends (λ j. j < r) (or_refuse o)
      index none h = tt
      index (some j) h = h

      defined : (P : Function → Type 0) (f : Function) → P f → Ends P (or_refuse (not_decl f))
      defined P f h = either (is_decl f)
        where
          either : (b : Bool) → Ends P (or_refuse (if b then none else some f))
          either true = tt
          either false = h

  module _ (ops : FloatOps) where
    module _ (callee : Interpreter → Outcome Interpreter) (r : ℕ) where
      dispatch-Ends :
          (k : InstrType) (i : Instr) (m : Interpreter)
          → ((n : Interpreter) → IsCallee r n → Ends HasReturned (callee n))
          → All (λ (b : BbRefWithArgs). m.ip.bb_id < b.bb) i.bbs
          → CallsBelow r k i
          → size_from m.ip.func.basic_blocks (suc m.ip.bb_id) < left m
          → Ends (Advances m) (dispatch ops program callee k i m)
      unfolding dispatch interpret_branch interpret_call
      dispatch-Ends InstrType.branch_instr i m calls h c here = target-Ends m here i 0 h
      dispatch-Ends (InstrType.binary_instr op) i m calls h c here =
          interpret_binary_expr-Ends m here ops op i
      dispatch-Ends (InstrType.icmp op) i m calls h c here = interpret_icmp-Ends m here op i
      dispatch-Ends InstrType.cond_branch_instr i m calls h c here =
          interpret_cbranch-Ends m here i h
      dispatch-Ends InstrType.sext i m calls h c here = interpret_int_cast-Ends m here i
      dispatch-Ends InstrType.zext i m calls h c here = interpret_int_cast-Ends m here i
      dispatch-Ends InstrType.itrunc i m calls h c here = interpret_int_cast-Ends m here i
      dispatch-Ends InstrType.return_instr i m calls h c here = interpret_ret-Ends m here i
      dispatch-Ends InstrType.other i m calls h c here = tt
      dispatch-Ends InstrType.call_instr i m calls h c here =
          Ends-bind (IsCallee r) (Advances m) (call_frame program i m) _ (call_frame-Ends r i m c)
            (λ entry e.
              Ends-bind HasReturned (Advances m) (callee entry) _ (calls entry e)
                (λ sub u. take_results-Ends m here i sub))

      step_instr-Ends :
          (m : Interpreter)
          → FunctionGoesForward r m.ip.func
          → (0 < left m → (n : Interpreter) → IsCallee r n → Ends HasReturned (callee n))
          → Ends (Advances m) (step_instr ops program callee m)
      unfolding step_instr
      step_instr-Ends m h calls =
          Ends-bind _ (Advances m) (or_abort (current m)) _ (current-GoesForward r m h) (λ i t.
            dispatch-Ends i.instr_type i m (calls (omega (arith, t.1))) t.0.targets t.0.calls t.1)

    -- Enough fuel for the frame, and for the callees nested in it, which have smaller indices.
    abbrev pub bound : ℕ → Interpreter → ℕ
    bound r m = left m + r * suc (program_size program)

    callee_bound :
        (fuel r : ℕ) (m n : Interpreter)
        → 0 < left m
        → bound r m < suc fuel
        → (c : IsCallee r n) → bound c.0 n < fuel
    callee_bound fuel r m n here enough (s, lt, f, small) =
        omega (arith, here, enough, small, mul_below s r (suc (program_size program)) lt)

    at_end :
        (fuel r : ℕ) (m : Interpreter)
        → m.returned ≡ true
        → Ends HasReturned (run ops program fuel m)
    unfolding run
    at_end zero r m e = stop m m.returned Outcome.unfinished e e
    at_end (suc fuel) r m e =
        stop m m.returned
          (step_instr ops program (run ops program fuel) m >>= (λ n. run ops program fuel n)) e e

    run-Ends :
        (fuel r : ℕ) (m : Interpreter)
        → FunctionGoesForward r m.ip.func
        → ((m.returned ≡ true) ⊎ (bound r m < fuel))
        → Ends HasReturned (run ops program fuel m)
    unfolding run
    run-Ends zero r m h (inl e) = at_end zero r m e
    run-Ends zero r m h (inr lt) = absurd (omega (arith, lt))
    run-Ends (suc fuel) r m h (inl e) = at_end (suc fuel) r m e
    run-Ends (suc fuel) r m h (inr lt) =
        elim m.returned
            as (λ b.
              m.returned ≡ b
              → Ends HasReturned (
                  if b
                  then Outcome.done m
                  else step_instr ops program (run ops program fuel) m
                    >>= (λ n. run ops program fuel n))) [
                      | true ↦ λ e. e
                      | false ↦ λ e.
                          Ends-bind (Advances m) HasReturned
                            (step_instr ops program (run ops program fuel) m) _
                            (step_instr-Ends (run ops program fuel) r m h (λ here n c.
                              run-Ends fuel c.0 n c.2 (inr (callee_bound fuel r m n here lt c))))
                            (λ n a.
                              run-Ends fuel r n (subst (FunctionGoesForward r) (sym a.0) h)
                                (still n a.0 a.1))
                    ]
          refl
      where
        still :
            (n : Interpreter)
            → n.ip.func ≡ m.ip.func
            → (n.returned ≡ true) ⊎ (left n < left m)
            → (n.returned ≡ true) ⊎ (bound r n < fuel)
        still n same (inl e) = inl e
        still n same (inr less) = inr (omega (arith, less, lt))

    -- For a program in which every branch goes to a block with a larger index than its own, and
    -- every call of a function that a constant names goes to a function with a smaller index (an
    -- index below r in the frame's function, which branches the same way), and fuel above the
    -- instructions left in the frame plus r times one more than the instructions of the program: run
    -- is never cut off, it returns false, fails an assertion, or returns an interpreter whose
    -- function has returned.
    pub run-returns :
        (fuel r : ℕ) (m : Interpreter)
        → FunctionGoesForward r m.ip.func
        → bound r m < fuel
        → (run ops program fuel m ≡ Outcome.refused)
          ⊎ (run ops program fuel m ≡ Outcome.aborted)
          ⊎ ((n : Interpreter) × (run ops program fuel m ≡ Outcome.done n) × (n.returned ≡ true))
    run-returns fuel r m h enough =
        Ends-cases HasReturned (run ops program fuel m) (run-Ends fuel r m h (inr enough))
