-- ===== src/Ir/Interpreter/Forward.antt =====
-- Functions whose branches go to later blocks, and whose calls go to earlier functions of the
-- program.
use foptim.Base.{
  ℕ, zero, suc, ◌+◌, ◌-◌, ◌<◌, ◌≤◌, ◌≡◌, refl, subst, List, [], ◌∷◌, Option, none, some, get_elem?,
  length, arith,
}
use foptim.Ir.{ValueR, InstrType, BbRefWithArgs, Instr, BasicBlock, Function}
use foptim.Ir.Interpreter.{or_abort, Interpreter}
use foptim.Ir.Interpreter.Step.{constant_func}
use foptim.Ir.Interpreter.Typing.{All}
use foptim.Ir.Interpreter.Outcomes.{Ends}

-- The instructions of the blocks from index `k` on.
abbrev pub size_from : List BasicBlock → ℕ → ℕ
size_from [] k = 0
size_from (b ∷ bs) zero = length b.instructions + size_from bs zero
size_from (b ∷ bs) (suc k) = size_from bs k

abbrev pub program_size : List Function → ℕ
program_size [] = 0
program_size (f ∷ fs) = size_from f.basic_blocks 0 + program_size fs

-- The callee, when it is given by a constant, has an index below `r`.
abbrev pub IsBelow : ℕ → Option ℕ → Type 0
IsBelow r none = Unit {0}
IsBelow r (some j) = j < r

abbrev pub CalleeIsBelow : ℕ → List ValueR → Type 0
CalleeIsBelow r [] = Unit {0}
CalleeIsBelow r (a ∷ args) = IsBelow r (constant_func a)

abbrev pub CallsBelow : ℕ → InstrType → Instr → Type 0
CallsBelow r InstrType.call_instr i = CalleeIsBelow r i.args
CallsBelow r _ i = Unit {0}

-- An instruction of block `k` whose targets are later blocks.
pub record GoesForward (r k : ℕ) (i : Instr) : Type 0 where
  pub targets : All (λ (b : BbRefWithArgs). k < b.bb) i.bbs
  pub calls : CallsBelow r i.instr_type i

abbrev pub BlocksGoForward : ℕ → ℕ → List BasicBlock → Type 0
BlocksGoForward r k [] = Unit {0}
BlocksGoForward r k (b ∷ bs) = All (GoesForward r k) b.instructions × BlocksGoForward r (suc k) bs

abbrev pub FunctionGoesForward : ℕ → Function → Type 0
FunctionGoesForward r f = BlocksGoForward r 0 f.basic_blocks

-- The functions from index `j` on.
abbrev pub ProgramGoesForward : ℕ → List Function → Type 0
ProgramGoesForward j [] = Unit {0}
ProgramGoesForward j (f ∷ fs) = FunctionGoesForward j f × ProgramGoesForward (suc j) fs

-- The instructions that a run may still execute in this frame.
abbrev pub left : Interpreter → ℕ
left m = size_from m.ip.func.basic_blocks m.ip.bb_id - m.ip.instr_id

pub get_elem?-All :
    {A : Type 0} (P : A → Type 0) (xs : List A) (i : ℕ)
    → All P xs
    → Ends (λ x. P x × (i < length xs)) (or_abort (get_elem? xs i))
get_elem?-All P [] i h = tt
get_elem?-All P (x ∷ xs) zero h = (h.0, omega arith)
get_elem?-All P (x ∷ xs) (suc i) h = next (get_elem? xs i) (get_elem?-All P xs i h.1)
  where
    next :
        (o : Option _)
        → Ends (λ x. P x × (i < length xs)) (or_abort o)
        → Ends (λ x. P x × (suc i < suc (length xs))) (or_abort o)
    next none h = tt
    next (some x) h = (h.0, omega (arith, h))

pub size_from-le : (bs : List BasicBlock) (k l : ℕ) → k ≤ l → size_from bs l ≤ size_from bs k
size_from-le [] k l h = omega arith
size_from-le (b ∷ bs) zero zero h = omega arith
size_from-le (b ∷ bs) zero (suc l) h = omega (arith, size_from-le bs zero l (omega arith))
size_from-le (b ∷ bs) (suc k) zero h = absurd (omega arith)
size_from-le (b ∷ bs) (suc k) (suc l) h = size_from-le bs k l (omega arith)

-- A block at an index, with what follows it.
pub block-GoesForward :
    (r k n t : ℕ) (bs : List BasicBlock)
    → k + n ≡ t
    → BlocksGoForward r k bs
    → Ends
        (λ b.
          All (GoesForward r t) b.instructions
          × (size_from bs n ≡ length b.instructions + size_from bs (suc n)))
        (or_abort (get_elem? bs n))
block-GoesForward r k n t [] e h = tt
block-GoesForward r k zero t (b ∷ bs) e h =
    let same : k ≡ t = omega (arith, e) in
    (subst (λ j. All (GoesForward r j) b.instructions) same h.0, refl)
block-GoesForward r k (suc n) t (b ∷ bs) e h =
    block-GoesForward r (suc k) n t bs (omega (arith, e)) h.1

-- A function of the program.
pub function-GoesForward :
    (j n t : ℕ) (fs : List Function)
    → j + n ≡ t
    → ProgramGoesForward j fs
    → Ends
        (λ f. FunctionGoesForward t f × (size_from f.basic_blocks 0 ≤ program_size fs))
        (or_abort (get_elem? fs n))
function-GoesForward j n t [] e h = tt
function-GoesForward j zero t (f ∷ fs) e h =
    let same : j ≡ t = omega (arith, e) in
    (subst (λ i. FunctionGoesForward i f) same h.0, omega arith)
function-GoesForward j (suc n) t (f ∷ fs) e h =
    next (get_elem? fs n) (function-GoesForward (suc j) n t fs (omega (arith, e)) h.1)
  where
    next :
        (o : Option Function)
        → Ends
            (λ g. FunctionGoesForward t g × (size_from g.basic_blocks 0 ≤ program_size fs))
            (or_abort o)
        → Ends
            (λ g.
              FunctionGoesForward t g
              × (size_from g.basic_blocks 0 ≤ size_from f.basic_blocks 0 + program_size fs))
            (or_abort o)
    next none h = tt
    next (some g) h = (h.0, omega (arith, h.1))
