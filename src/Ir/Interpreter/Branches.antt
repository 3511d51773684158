-- ===== src/Ir/Interpreter/Branches.antt =====
-- Passing the arguments of a branch: one after the other, as the code does, or all at once.
use foptim.Base.{
  ◌≤◌, ◌≡◌, refl, sym, ◌∙◌, List, [], ◌∷◌, true, false, arith, Bool-cases, inl, inr, some, length,
  get_elem?,
}
use foptim.Ir.{ConstantValue, ValueR, same_value, BbRefWithArgs, Instr, BasicBlock}
use foptim.Ir.Interpreter.{
  Outcome, ◌>>=◌, or_refuse, Values, try_get, set_value, get_constant_value, pass_args, jump,
  interpret_branch, Interpreter,
}
use foptim.Ir.Interpreter.Step.{all_values}

-- The assignment at once, of values that are read before.
abbrev pub set_all : List ValueR → List ConstantValue → Values → Values
set_all params [] st = st
set_all [] (v ∷ vs) st = st
set_all (p ∷ params) (v ∷ vs) st = set_all params vs (set_value st p v)

-- No argument is one of the parameters.
abbrev pub IsApart : ValueR → List ValueR → Type 0
IsApart p [] = Unit {0}
IsApart p (a ∷ args) = (same_value p a ≡ false) × IsApart p args

abbrev pub AreApart : List ValueR → List ValueR → Type 0
AreApart [] args = Unit {0}
AreApart (p ∷ params) args = IsApart p args × AreApart params args

-- Keys that are the same are the same as the same keys.
same_value-congr :
    (x y z : ValueR) → same_value x y ≡ true → same_value x z ≡ true → same_value y z ≡ true
unfolding same_value
same_value-congr (ValueR.result i k t) (ValueR.result j l u) (ValueR.result n m r) h q =
    ground arith
same_value-congr (ValueR.bb_arg i t) (ValueR.bb_arg j u) (ValueR.bb_arg n r) h q = ground arith
same_value-congr (ValueR.constant c) y z h q = absurd (cc)
same_value-congr (ValueR.result i k t) (ValueR.constant c) z h q = absurd (cc)
same_value-congr (ValueR.result i k t) (ValueR.bb_arg j u) z h q = absurd (cc)
same_value-congr (ValueR.result i k t) (ValueR.result j l u) (ValueR.constant c) h q = absurd (cc)
same_value-congr (ValueR.result i k t) (ValueR.result j l u) (ValueR.bb_arg n r) h q = absurd (cc)
same_value-congr (ValueR.bb_arg i t) (ValueR.constant c) z h q = absurd (cc)
same_value-congr (ValueR.bb_arg i t) (ValueR.result j l u) z h q = absurd (cc)
same_value-congr (ValueR.bb_arg i t) (ValueR.bb_arg j u) (ValueR.constant c) h q = absurd (cc)
same_value-congr (ValueR.bb_arg i t) (ValueR.bb_arg j u) (ValueR.result n m r) h q = absurd (cc)

-- Setting one value leaves the others.
try_get-set_other :
    (st : Values) (k v : ValueR) (c : ConstantValue)
    → same_value k v ≡ false
    → try_get (set_value st k c) v ≡ try_get st v
unfolding try_get set_value
try_get-set_other [] k v c h = rw h refl
try_get-set_other (entry ∷ st) k v c h = elim (Bool-cases (same_value entry.0 k)) [
  | inl same ↦ elim (Bool-cases (same_value entry.0 v)) [
    | inl both ↦ let found = same_value-congr entry.0 k v same both in absurd (cc)
    | inr other ↦ rw (same, h, other) refl
  ]
  | inr apart ↦ elim (Bool-cases (same_value entry.0 v)) [
    | inl here ↦ rw (apart, here) refl
    | inr other ↦ rw (apart, other) (try_get-set_other st k v c h)
  ]
]

get_constant_value-set_other :
    (st : Values) (k v : ValueR) (c : ConstantValue)
    → same_value k v ≡ false
    → get_constant_value v (set_value st k c) ≡ get_constant_value v st
unfolding get_constant_value
get_constant_value-set_other st k (ValueR.constant d) c h = refl
get_constant_value-set_other st k (ValueR.result i j ty) c h =
    try_get-set_other st k (ValueR.result i j ty) c h
get_constant_value-set_other st k (ValueR.bb_arg i ty) c h =
    try_get-set_other st k (ValueR.bb_arg i ty) c h

all_values-set_other :
    (args : List ValueR) (st : Values) (p : ValueR) (c : ConstantValue)
    → IsApart p args
    → all_values args (set_value st p c) ≡ all_values args st
unfolding all_values
all_values-set_other [] st p c h = refl
all_values-set_other (a ∷ args) st p c h =
    rw (get_constant_value-set_other st p a c h.0, all_values-set_other args st p c h.1) refl

AreApart-tail :
    (params args : List ValueR) (a : ValueR) → AreApart params (a ∷ args) → AreApart params args
AreApart-tail [] args a h = tt
AreApart-tail (p ∷ params) args a h = (h.0.1, AreApart-tail params args a h.1)

bind-done {ℓ κ} :
    {A : Type ℓ} {B : Type κ} (m : Outcome A) (f : A → Outcome B) (b : B)
    → (m >>= f) ≡ Outcome.done b
    → (a : A) × (m ≡ Outcome.done a) × (f a ≡ Outcome.done b)
bind-done (Outcome.done a) f b h = (a, refl, h)
bind-done Outcome.refused f b h = absurd (cc)
bind-done Outcome.aborted f b h = absurd (cc)
bind-done Outcome.unfinished f b h = absurd (cc)

done_eq {ℓ} : {A : Type ℓ} (a b : A) → Outcome.done a ≡ Outcome.done b → a ≡ b
done_eq a b h = cc

pub pass_args-set_all :
    (args params : List ValueR) (st : Values) (vs : List ConstantValue)
    → length args ≤ length params
    → AreApart params args
    → all_values args st ≡ Outcome.done vs
    → pass_args args params st ≡ Outcome.done (set_all params vs st)
unfolding pass_args all_values
pass_args-set_all [] params st vs h apart known =
    let none_read = done_eq [] vs known in rw (sym none_read) refl
pass_args-set_all (a ∷ args) [] st vs h apart known = absurd (omega arith)
pass_args-set_all (a ∷ args) (p ∷ params) st vs h apart known =
    let first = bind-done (or_refuse (get_constant_value a st)) _ vs known in
    let rest = bind-done (all_values args st) _ vs first.2 in
    let split : vs ≡ first.0 ∷ rest.0 = sym (done_eq _ _ rest.2) in
    let later =
      pass_args-set_all args params (set_value st p first.0) rest.0 (omega arith)
        (AreApart-tail params args a apart.1)
        (all_values-set_other args st p first.0 apart.0.1 ∙ rest.1) in
    rw (first.1, split) later

-- When the first target of a branch names a block of the function with at least as many parameters
-- as there are arguments, no argument is a parameter of that block, and the interpreter knows the
-- value of every argument, interpret_branch succeeds, goes to the first instruction of the block,
-- and its assignments one after the other have the effect of reading all arguments first and
-- assigning then.
pub interpret_branch-set_all :
    (instr : Instr) (m : Interpreter) (target : BbRefWithArgs) (bb : BasicBlock)
    (vs : List ConstantValue)
    → get_elem? instr.bbs 0 ≡ some target
    → get_elem? m.ip.func.basic_blocks target.bb ≡ some bb
    → length target.args ≤ length bb.args
    → AreApart bb.args target.args
    → all_values target.args m.state ≡ Outcome.done vs
    → interpret_branch instr m
      ≡ Outcome.done (record m {
        state = set_all bb.args vs m.state;
        ip = record { func = m.ip.func; bb_id = target.bb; instr_id = 0 };
      })
unfolding interpret_branch jump
interpret_branch-set_all instr m target bb vs ht hb len apart known =
    rw (ht, hb, pass_args-set_all target.args bb.args m.state vs len apart known) refl
