-- ===== src/Ir.antt =====
-- src/ir: the instructions, types and constants of the intermediate representation, as far as the
-- interpreter reads them.
pub mod Interpreter
use foptim.Base.{ℕ, List, [], ◌∷◌, Bool, true, false, ◌==◌, ◌&&◌}
use foptim.ApInt.{ApInt}

-- `AnyType`; a function type and a vector keep their width only.
pub data AnyType : Type 0 where
  void : AnyType
  integer : ℕ → AnyType
  float : ℕ → AnyType
  ptr : AnyType
  function : AnyType
  vector : ℕ → AnyType

abbrev pub get_bitwidth : AnyType → ℕ
get_bitwidth AnyType.void = 0
get_bitwidth (AnyType.integer w) = w
get_bitwidth (AnyType.float w) = w
get_bitwidth AnyType.ptr = 64
get_bitwidth AnyType.function = 64
get_bitwidth (AnyType.vector w) = w

abbrev pub is_int : AnyType → Bool
is_int (AnyType.integer w) = true
is_int _ = false

abbrev pub is_int_or_ptr : AnyType → Bool
is_int_or_ptr (AnyType.integer w) = true
is_int_or_ptr AnyType.ptr = true
is_int_or_ptr _ = false

-- The union of `ConstantValue`: a float is its bits, a function its index in the program.
pub data Constant : Type 0 where
  poison : Constant
  int_value : ApInt → Constant
  float_value : ℕ → Constant
  vector_value : Constant
  global_ptr : ℕ → Constant
  func_ptr : ℕ → Constant
  null_ptr : Constant

pub record ConstantValue : Type 0 where
  pub type : AnyType
  pub constant : Constant

-- An operand: a constant, a result of an instruction, or an argument of a block, each with its type.
pub data ValueR : Type 0 where
  constant : ConstantValue → ValueR
  result : ℕ → ℕ → AnyType → ValueR
  bb_arg : ℕ → AnyType → ValueR

pub get_type : ValueR → AnyType
get_type (ValueR.constant c) = c.type
get_type (ValueR.result i k ty) = ty
get_type (ValueR.bb_arg i ty) = ty

-- The equality of map keys: the same instruction and index, or the same argument.
unfoldable pub same_value : ValueR → ValueR → Bool
same_value (ValueR.result i k ty) (ValueR.result j l ty') = (i == j) && (k == l)
same_value (ValueR.bb_arg i ty) (ValueR.bb_arg j ty') = i == j
same_value _ _ = false

pub data BinaryInstrSubType : Type 0 where
  ptr_add int_add int_sub int_mul int_srem int_urem int_sdiv int_udiv shl shr ashr and or xor :
      BinaryInstrSubType
  float_add float_sub float_mul float_div : BinaryInstrSubType

pub data ICmpInstrSubType : Type 0 where
  slt ult ne eq sgt ugt uge ule sge sle : ICmpInstrSubType

pub data InstrType : Type 0 where
  branch_instr cond_branch_instr sext zext itrunc call_instr return_instr other : InstrType
  binary_instr : BinaryInstrSubType → InstrType
  icmp : ICmpInstrSubType → InstrType

-- `BBRefWithArgs`, the block by its index in the function.
pub record BbRefWithArgs : Type 0 where
  pub bb : ℕ
  pub args : List ValueR

pub record Instr : Type 0 where
  pub id : ℕ
  pub instr_type : InstrType
  pub args : List ValueR
  pub bbs : List BbRefWithArgs
  pub result_type : AnyType
  pub n_results : ℕ

pub record BasicBlock : Type 0 where
  pub args : List ValueR
  pub instructions : List Instr

pub record Function : Type 0 where
  pub basic_blocks : List BasicBlock

-- A declaration has no blocks.
abbrev pub is_decl : Function → Bool
is_decl f = elim f.basic_blocks [ [] ↦ true | bb ∷ bbs ↦ false ]
