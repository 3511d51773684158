-- ===== src/Lib.antt =====
-- foptim, an optimizing compiler back end for LLVM IR: the parts of it that compute, as functions
-- with the theorems that make them correct.
--
-- The source is C++ under src/. The optimizer holds constants of any width as ApInt (src/utils).
-- Instruction selection lowers the IR to MIR, generic instructions on virtual registers, and
-- replaces a division by a constant by a multiplication (src/mir/const_div.hpp finds the
-- multiplier, src/mir/matcher_const_div.cpp emits the code).
--
-- Base holds what the components share: machine words (u8, u32, u64 and u128 are remainders),
-- lists, powers of two, and the bit operations of <bit> and of C++ as arithmetic.
--
-- ConstDiv is src/mir/const_div.hpp. The loops over the extra shift recur on the number of rounds
-- that the bounds of the source leave, so they need no fuel. ConstDiv.Quotient says what a
-- multiplier that divides is; Scan, Unsigned, Fixup and Entries follow the source down to
-- udiv_magic.
--
-- Mir.Machine gives the MIR instructions that the division uses a meaning on 64-bit registers.
-- Mir.ConstDivEmitter is ConstDivEmitter of src/mir/matcher_const_div.cpp, a state monad on the
-- emitted code and the counter of virtual registers; `none` stands for `ok = false`.
-- Mir.ConstDivEmitter.Track is a small program logic for it: a method returns a register that holds
-- a value and keeps all registers handed out before.
--
-- Words are the word loops at the top of src/utils/APInt.cpp, on little endian lists of 64-bit
-- words. ApInt is the class of src/utils/APInt.hpp with the wide paths of APInt.cpp; the union of
-- an inline word and a heap array is one list of words, and `is_single` still selects the path. A
-- signed word is its two's complement pattern. Base.Digits and Base.Bitwise reason bit by bit.
-- Words.LongDivision is Knuth's algorithm D; a correction of the estimate takes at most three
-- turns.
--
-- MemAccess is src/optim/analysis/mem/mem_access.cpp: the values of the IR are numbers, and a table
-- says what the analysis reads of each. linearize recurs on the depth that is left, and the loop of
-- decompose_ptr on fuel: the rank of the address, one more, is enough, because the base operand of
-- a pointer addition comes before it.
--
--
-- Mir.BlockOrder is src/mir/optim/bb_reordering.cpp: the chains of blocks, the new numbers and the
-- inversion of branches, for any loop depths and coldness. A chain runs on fuel, the number of
-- blocks, which is enough. Mir.BlockOrder.Branches gives the blocks a meaning for any state.
--
-- BitSet is src/utils/bitset.hpp on 64-bit words: the words as a list, with the size in bits.
--
-- FlowGraph is src/optim/analysis/cfg.hpp: the nodes as a list, a failed assertion as `none`.
--
-- Ir holds the instructions, types and constants of src/ir, and Ir.Interpreter is
-- src/ir/interpreter/interpreter.cpp: a step that returns `false` is `refused`, a failed assertion
-- is `aborted`. A block is named by its index in the function, a function by its index in the
-- program. `run` has fuel, which bounds the turns of its loop and the depth of the calls;
-- `unfinished` says that it was too little. The sums and products of floats are those of the host,
-- a parameter. Typing says which functions and states are typed, TypedResults is about the values
-- of an operation, Preservation about one operation on a typed state, TypedRuns about steps and
-- runs. Forward says which programs have no loops and no recursion, Outcomes and Advance are about
-- their single operations, Halting about their runs.
--
-- KnownBits is src/optim/analysis/attributer/KnownBits.hpp: the two masks of a value, and one
-- function for each case of update_impl_instr that is modelled. The operands of a binary operation
-- have one width, which the source tests. KnownBits.Masks says what it is for masks to know a
-- number, KnownBits.Instructions has the cases, and KnownBits.Update and KnownBits.Casts compare
-- them with what the interpreter computes.
--
-- Not modelled: the IR object graph and the passes that rewrite it, instruction selection other
-- than the division, the x86 encoder, the loader of LLVM IR, configuration, arenas and threads, and
-- vendored code. Of the known bits: intrinsics, signed ranges, commit and materialize. Of ApInt:
-- smul_ov, hash and printing.
--
-- Tests holds concrete runs, and an instance of each theorem with hypotheses.
pub mod Base
pub mod ConstDiv
pub mod Mir
pub mod Words
pub mod ApInt
pub mod MemAccess
pub mod BitSet
pub mod FlowGraph
pub mod Ir
pub mod KnownBits
pub mod Tests
