-- ===== src/Mir/Machine.antt =====
-- src/mir/instr.hpp, src/mir/analysis/live_variables.hpp: the generic MIR instructions that the
-- division emitter uses, and what they do to 64-bit registers. A register is its uid
-- (`reg_to_uid`): the concrete ones come first, and virtual register `id` is `n_regs + id`.
-- A signed word is its bit pattern.
pub mod Registers
use foptim.Base.{
  ℕ, suc, ◌+◌, ◌-◌, ◌*◌, ◌/◌, ◌%◌, ◌^◌, List, [], ◌∷◌, Bool, ltb, leb, ◌==◌, if◌then◌else◌, u64,
  ◌||◌,
}
use Prim.Native.Nat.{bit_and}

abbrev pub n_regs : ℕ
n_regs = 33

abbrev pub rax : ℕ
rax = 0

abbrev pub rdx : ℕ
rdx = 3

pub data MArgument : Type 0 where
  reg : ℕ → MArgument
  imm : ℕ → MArgument

-- The opcodes: `mov` of GBaseSubtype, those of GArithSubtype with their operands, and the
-- conversions of GConvSubtype with the width of the narrow side.
pub data MInstr : Type 0 where
  mov shl2 shr2 sar2 add2 sub2 mul2 land2 : MArgument → MArgument → MInstr
  neg1 : MArgument → MInstr
  umulh smulh : MArgument → MArgument → MArgument → MArgument → MInstr
  mov_zx mov_sx itrunc : ℕ → MArgument → MArgument → MInstr

-- The sign bit, and the magnitude of the signed value.
abbrev pub is_neg64 : ℕ → Bool
is_neg64 x = leb (2 ^ 63) x

unfoldable pub abs64 : ℕ → ℕ
abs64 x = if is_neg64 x then 2 ^ 64 - x else x

unfoldable pub neg64 : ℕ → ℕ
neg64 x = u64 (2 ^ 64 - x)

-- An arithmetic shift fills with the sign: of a negative word the complement is shifted.
unfoldable pub sar64 : ℕ → ℕ → ℕ
sar64 x n = if is_neg64 x then 2 ^ 64 - 1 - (2 ^ 64 - 1 - x) / 2 ^ n else x / 2 ^ n

-- The high half of the signed double width product, rounded down.
unfoldable pub smulh64 : ℕ → ℕ → ℕ
unfolding abs64
smulh64 a b =
    let p = abs64 a * abs64 b in
    if is_neg64 a
    then if is_neg64 b then u64 (p / 2 ^ 64) else u64 (2 ^ 64 - (p + 2 ^ 64 - 1) / 2 ^ 64)
    else if is_neg64 b
    then u64 (2 ^ 64 - (p + 2 ^ 64 - 1) / 2 ^ 64)
    else u64 (p / 2 ^ 64)

unfoldable pub sext64 : ℕ → ℕ → ℕ
sext64 w x = if leb (2 ^ (w - 1)) (x % 2 ^ w) then x % 2 ^ w + (2 ^ 64 - 2 ^ w) else x % 2 ^ w

abbrev pub Regs : Type 0
Regs = ℕ → ℕ

abbrev pub read : Regs → MArgument → ℕ
read r (reg n) = r n
read r (imm c) = c

abbrev pub update : Regs → ℕ → ℕ → Regs
update r k v = λ j. if j == k then v else r j

-- A write goes to a register only.
abbrev pub write : MArgument → ℕ → Regs → Regs
write (reg n) v r = update r n v
write (imm c) v r = r

-- A shift takes its count modulo 64.
unfoldable pub step : MInstr → Regs → Regs
unfolding sar64 neg64 smulh64 sext64
step (mov d s) r = write d (read r s) r
step (shl2 d n) r = write d (u64 (read r d * 2 ^ (read r n % 64))) r
step (shr2 d n) r = write d (read r d / 2 ^ (read r n % 64)) r
step (sar2 d n) r = write d (sar64 (read r d) (read r n % 64)) r
step (add2 d s) r = write d (u64 (read r d + read r s)) r
step (sub2 d s) r = write d (u64 (read r d + 2 ^ 64 - read r s)) r
step (mul2 d s) r = write d (u64 (read r d * read r s)) r
step (land2 d s) r = write d (bit_and (read r d) (read r s)) r
step (neg1 d) r = write d (neg64 (read r d)) r
step (umulh lo hi a b) r = let p = read r a * read r b in write hi (p / 2 ^ 64) (write lo (u64 p) r)
step (smulh lo hi a b) r =
    let p = smulh64 (read r a) (read r b) in write hi p (write lo (u64 (read r a * read r b)) r)
step (mov_zx w d s) r = write d (read r s % 2 ^ w) r
step (mov_sx w d s) r = write d (sext64 w (read r s)) r
step (itrunc w d s) r = write d (read r s % 2 ^ w) r

unfoldable pub exec : List MInstr → Regs → Regs
exec [] r = r
exec (i ∷ is) r = exec is (step i r)
