-- ===== src/Mir/ConstDivEmitter.antt =====
-- src/mir/matcher_const_div.cpp: `ConstDivEmitter`, which emits the instructions for one division
-- by a constant. A method takes the emitter and returns its result with the emitter after it:
-- `out` grows at its end, and `vreg_num` is the counter of src/mir/reg_alloc.hpp. `none` stands
-- for `ok = false`.
pub mod Track
pub mod Unsigned
use foptim.Base.{
  ℕ, suc, ◌+◌, ◌-◌, ◌*◌, ◌/◌, ◌%◌, ◌^◌, List, [], ◌∷◌, ◌++◌, Bool, true, false, ltb, leb, ◌==◌,
  if◌then◌else◌, u64, u8, Option, none, some,
}
use foptim.Base.Bits.{countr_zero, has_single_bit}
use foptim.ConstDiv.{UDivMagic, udiv_magic, SDivMagic, sdiv_magic}
use foptim.Mir.Machine.{
  MInstr, MArgument, reg, imm, mov, shl2, shr2, sar2, add2, sub2, mul2, neg1, umulh, smulh, rax,
  rdx, n_regs,
}

pub record Emitter : Type 0 where
  pub out : List MInstr
  pub vreg_num : ℕ

abbrev pub M : Type 0 → Type 0
M A = Emitter → A × Emitter

infixl 5 ◌>>=◌ ◌>>◌
abbrev pub ◌>>=◌ : {A B : Type 0} → M A → (A → M B) → M B
◌>>=◌ m f e = let (a, e') = m e in f a e'

abbrev pub ◌>>◌ : {B : Type 0} → M (Unit {0}) → M B → M B
m >> k = m >>= λ _. k

abbrev pub return : {A : Type 0} → A → M A
return a e = (a, e)

abbrev pub emit : MInstr → M (Unit {0})
emit i e = (tt, record e { out = e.out ++ i ∷ [] })

unfoldable pub fresh : M MArgument
fresh e = (reg (n_regs + (e.vreg_num + 1)), record e { vreg_num = e.vreg_num + 1 })

unfoldable pub copy : MArgument → M MArgument
unfolding fresh
copy src = do dst ← fresh; emit (mov dst src); return dst

-- `copy`, then one instruction on the copy.
abbrev on_copy : (MArgument → MInstr) → MArgument → M MArgument
on_copy op src = do dst ← copy src; emit (op dst); return dst

abbrev pub imm8 : ℕ → MArgument
imm8 v = imm (u8 v)

pub shr : MArgument → ℕ → M MArgument
unfolding copy
shr src n = on_copy (λ dst. shr2 dst (imm8 n)) src

pub sar : MArgument → ℕ → M MArgument
unfolding copy
sar src n = on_copy (λ dst. sar2 dst (imm8 n)) src

pub shl : MArgument → ℕ → M MArgument
unfolding copy
shl src n = on_copy (λ dst. shl2 dst (imm8 n)) src

pub add : MArgument → MArgument → M MArgument
unfolding copy
add a b = on_copy (λ dst. add2 dst b) a

pub sub : MArgument → MArgument → M MArgument
unfolding copy
sub a b = on_copy (λ dst. sub2 dst b) a

pub neg : MArgument → M MArgument
unfolding copy
neg a = on_copy (λ dst. neg1 dst) a

pub mul_const : MArgument → ℕ → M MArgument
unfolding copy
mul_const a c = on_copy (λ dst. mul2 dst (imm c)) a

pub const_reg : ℕ → M MArgument
unfolding fresh
const_reg c = do dst ← fresh; emit (mov dst (imm c)); return dst

pub mulh : MArgument → ℕ → Bool → M MArgument
unfolding const_reg copy
mulh x c is_signed = do
  creg ← const_reg c
  emit (mov (reg rax) x)
  emit ((if is_signed then smulh else umulh) (reg rax) (reg rdx) (reg rax) creg)
  copy (reg rdx)

-- The two sequences of `udiv` for a magic multiplier.
pub udiv_plain : MArgument → UDivMagic → ℕ → M MArgument
unfolding shr mulh mul_const
udiv_plain x magic width = do
  y ← if magic.pre_shift == 0 then return x else shr x magic.pre_shift
  if width == 64
      then (do p ← mulh y magic.mul false; shr p (magic.shift - 64))
      else (do p ← mul_const y magic.mul; shr p magic.shift)

pub udiv_fixup : MArgument → UDivMagic → ℕ → M MArgument
unfolding shr mulh mul_const sub add
udiv_fixup x magic width = do
  t ← if width == 64 then mulh x magic.mul false else (do p ← mul_const x magic.mul; shr p width)
  diff ← sub x t
  u ← shr diff 1
  total ← add u t
  shr total (magic.shift - 1)

abbrev pub fail : M (Option MArgument)
fail e = (none, e)

abbrev pub done : M MArgument → M (Option MArgument)
done m = do a ← m; return (some a)

-- `none`: the divisor has no entry.
pub udiv_entry : MArgument → Option UDivMagic → ℕ → M (Option MArgument)
unfolding udiv_plain udiv_fixup
udiv_entry x none width = fail
udiv_entry x (some magic) width =
    done (if magic.add then udiv_fixup x magic width else udiv_plain x magic width)

unfoldable pub udiv : MArgument → ℕ → ℕ → M (Option MArgument)
unfolding udiv_entry shr
udiv x d width =
    if has_single_bit d
    then done (if d == 1 then return x else shr x (countr_zero d))
    else udiv_entry x (udiv_magic d width) width

-- The sequence of `sdiv` for a magic multiplier.
pub sdiv_magic_code : MArgument → SDivMagic → ℕ → M MArgument
unfolding shr sar mulh mul_const add
sdiv_magic_code x magic width = do
  q0 ←
      if width == 64
      then (do
        t ← mulh x magic.mul true
        t' ← if ltb (2 ^ 63 - 1) magic.mul then add t x else return t
        sar t' (magic.shift - 64))
      else (do p ← mul_const x magic.mul; sar p magic.shift)
  sign ← shr q0 63
  add q0 sign

pub sdiv_entry : MArgument → Option SDivMagic → ℕ → M (Option MArgument)
unfolding sdiv_magic_code
sdiv_entry x none width = fail
sdiv_entry x (some magic) width = done (sdiv_magic_code x magic width)

-- A power of two: the bias `2 ^ k - 1` of a negative operand rounds towards zero.
pub sdiv_pow : MArgument → ℕ → M MArgument
unfolding shr sar add
sdiv_pow x k = do sign ← sar x 63; bias ← shr sign (64 - k); sum ← add x bias; sar sum k

pub negated : Option MArgument → M (Option MArgument)
unfolding neg
negated none = fail
negated (some q) = done (neg q)

-- The quotient by the magnitude, negated for a negative divisor.
abbrev pub with_sign : Bool → M (Option MArgument) → M (Option MArgument)
with_sign negative m = m >>= λ q. if negative then negated q else return q

-- `d` is the 64 bits of the signed divisor.
unfoldable pub sdiv : MArgument → ℕ → ℕ → M (Option MArgument)
unfolding sdiv_pow sdiv_entry negated
sdiv x d width =
    let negative = leb (2 ^ 63) d in
    let ad = if negative then u64 (2 ^ 64 - d) else d in
    with_sign negative (
      if ad == 1
      then done (return x)
      else if has_single_bit ad
      then done (sdiv_pow x (countr_zero ad))
      else sdiv_entry x (sdiv_magic ad width) width)
