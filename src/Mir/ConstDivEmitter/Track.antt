-- ===== src/Mir/ConstDivEmitter/Track.antt =====
-- What an emitter's methods promise: the value that the emitted code leaves in the register that
-- they return, and that the registers handed out before keep theirs.
use foptim.Base.{
  ℕ, ◌+◌, ◌-◌, ◌*◌, ◌/◌, ◌%◌, ◌^◌, ◌≤◌, ◌<◌, ◌≡◌, refl, ◌∙◌, ap, Bool, true, false, arith,
  if◌then◌else◌, u64, u8,
}
use foptim.Mir.Machine.{
  MInstr, MArgument, reg, imm, shl2, shr2, sar2, add2, sub2, mul2, neg1, n_regs, Regs, read, update,
  step, exec, sar64, neg64, smulh64,
}
use foptim.Mir.Machine.Registers.{exec-snoc, update_self, update_ne}
use foptim.Mir.ConstDivEmitter.{
  Emitter, M, copy, shr, sar, shl, add, sub, neg, mul_const, const_reg, mulh, on_copy, ◌>>=◌,
  return,
}

-- A virtual register that the emitter has handed out.
abbrev pub Avail : Emitter → MArgument → Type 0
Avail e (reg n) = (n_regs ≤ n) × (n ≤ n_regs + e.vreg_num)
Avail e (imm c) = ⊥

-- The value of a register after the code so far has run from the registers `r`.
abbrev pub Sees : Regs → Emitter → MArgument → ℕ → Type 0
Sees r e a v = Avail e a × (read (exec e.out r) a ≡ v)

abbrev pub Keeps : Regs → Emitter → Emitter → Type 0
Keeps r e e' =
    (e.vreg_num ≤ e'.vreg_num)
    × ((n : ℕ) → n_regs ≤ n → n ≤ n_regs + e.vreg_num → exec e'.out r n ≡ exec e.out r n)

abbrev pub Returns : Regs → Emitter → ℕ → MArgument × Emitter → Type 0
Returns r e v res = Sees r res.1 res.0 v × Keeps r e res.1

pub Sees-Keeps :
    (r : Regs) (e e' : Emitter) (a : MArgument) (v : ℕ)
    → Keeps r e e'
    → Sees r e a v
    → Sees r e' a v
Sees-Keeps r e e' (reg n) v k s = ((s.0.0, omega arith), k.1 n s.0.0 s.0.1 ∙ s.1)
Sees-Keeps r e e' (imm c) v k s = absurd s.0

pub Keeps-trans : (r : Regs) (e e' e'' : Emitter) → Keeps r e e' → Keeps r e' e'' → Keeps r e e''
Keeps-trans r e e' e'' k l = (omega arith, λ n h h'. l.1 n h (omega arith) ∙ k.1 n h h')

-- One method after another.
pub bind-Returns :
    (r : Regs) (e : Emitter) (m : M MArgument) (f : MArgument → M MArgument) (v w : ℕ)
    → Returns r e v (m e)
    → ((a : MArgument) (e' : Emitter) → Sees r e' a v → Keeps r e e' → Returns r e' w (f a e'))
    → Returns r e w ((m >>= f) e)
bind-Returns r e m f v w h k =
    let next = k (m e).0 (m e).1 h.0 h.1 in (next.0, Keeps-trans r e (m e).1 _ h.1 next.1)

pub return-Returns :
    (r : Regs) (e : Emitter) (a : MArgument) (v : ℕ) → Sees r e a v → Returns r e v (return a e)
return-Returns r e a v s = (s, (omega arith, λ n h h'. refl))

-- The register that `fresh` gives.
abbrev new_reg : Emitter → ℕ
new_reg e = n_regs + (e.vreg_num + 1)

copy-Returns :
    (r : Regs) (e : Emitter) (a : MArgument) (v : ℕ)
    → read (exec e.out r) a ≡ v
    → Returns r e v (copy a e)
unfolding copy step
copy-Returns r e a v h = (
  ((omega arith, omega arith), rw exec-snoc (ground arith)),
  (omega arith, λ n lo hi. rw exec-snoc (ground arith)),
)

-- `copy`, then an instruction that computes `w` from the copied value `v`.
on_copy-Returns :
    (r : Regs) (e : Emitter) (op : MArgument → MInstr) (a : MArgument) (v w : ℕ)
    → ((q : Regs)
        → q (new_reg e) ≡ v
        → ((b : MArgument) (x : ℕ) → Sees r e b x → read q b ≡ x)
        → step (op (reg (new_reg e))) q ≡ update q (new_reg e) w)
    → Sees r e a v
    → Returns r e w (on_copy op a e)
unfolding copy
on_copy-Returns r e op a v w meaning h =
    let mid = (copy a e).1 in
    let c = copy-Returns r e a v h.1 in
    let after =
      exec-snoc mid.out (op (reg (new_reg e))) r
      ∙ meaning (exec mid.out r) c.0.1 (λ b x s. (Sees-Keeps r e mid b x c.1 s).1) in
    (
      (c.0.0, ap (λ q. q (new_reg e)) after ∙ update_self (exec mid.out r) (new_reg e) w),
      (
        omega arith,
        λ n lo hi.
            ap (λ q. q n) after
            ∙ update_ne (exec mid.out r) (new_reg e) n w (omega arith)
            ∙ c.1.1 n lo hi,
      ),
    )

module _ (r : Regs) (e : Emitter) (a : MArgument) (v : ℕ) (h : Sees r e a v) where
  pub shr-Returns : (n : ℕ) → n < 64 → Returns r e (v / 2 ^ n) (shr a n e)
  unfolding shr step
  shr-Returns n small =
      on_copy-Returns r e (λ dst. shr2 dst (imm (u8 n))) a v (v / 2 ^ n)
        (λ q eq other. let count : u8 n % 64 ≡ n = omega arith in rw (eq, count)) h

  pub sar-Returns : (n : ℕ) → n < 64 → Returns r e (sar64 v n) (sar a n e)
  unfolding sar step
  sar-Returns n small =
      on_copy-Returns r e (λ dst. sar2 dst (imm (u8 n))) a v (sar64 v n)
        (λ q eq other. let count : u8 n % 64 ≡ n = omega arith in rw (eq, count)) h

  pub shl-Returns : (n : ℕ) → n < 64 → Returns r e (u64 (v * 2 ^ n)) (shl a n e)
  unfolding shl step
  shl-Returns n small =
      on_copy-Returns r e (λ dst. shl2 dst (imm (u8 n))) a v (u64 (v * 2 ^ n))
        (λ q eq other. let count : u8 n % 64 ≡ n = omega arith in rw (eq, count)) h

  pub add-Returns : (b : MArgument) (x : ℕ) → Sees r e b x → Returns r e (u64 (v + x)) (add a b e)
  unfolding add step
  add-Returns b x s =
      on_copy-Returns r e (λ dst. add2 dst b) a v (u64 (v + x)) (λ q eq other. rw (eq, other b x s))
        h

  pub sub-Returns :
      (b : MArgument) (x : ℕ) → Sees r e b x → Returns r e (u64 (v + 2 ^ 64 - x)) (sub a b e)
  unfolding sub step
  sub-Returns b x s =
      on_copy-Returns r e (λ dst. sub2 dst b) a v (u64 (v + 2 ^ 64 - x))
        (λ q eq other. rw (eq, other b x s)) h

  pub neg-Returns : Returns r e (neg64 v) (neg a e)
  unfolding neg step
  neg-Returns = on_copy-Returns r e (λ dst. neg1 dst) a v (neg64 v) (λ q eq other. rw eq) h

  pub mul_const-Returns : (c : ℕ) → Returns r e (u64 (v * c)) (mul_const a c e)
  unfolding mul_const step
  mul_const-Returns c =
      on_copy-Returns r e (λ dst. mul2 dst (imm c)) a v (u64 (v * c)) (λ q eq other. rw eq) h

-- The high half of the product, through RAX and RDX.
pub umulh-Returns :
    (r : Regs) (e : Emitter) (a : MArgument) (v c : ℕ)
    → Sees r e a v
    → Returns r e (v * c / 2 ^ 64) (mulh a c false e)
unfolding mulh const_reg copy step
umulh-Returns r e (reg m) v c h = (
  (
    (omega arith, omega arith),
    rw (exec-snoc, exec-snoc, exec-snoc, exec-snoc) (ground (arith, h.1)),
  ),
  (omega arith, λ n lo hi. rw (exec-snoc, exec-snoc, exec-snoc, exec-snoc) (ground arith)),
)
umulh-Returns r e (imm m) v c h = absurd h.0

pub smulh-Returns :
    (r : Regs) (e : Emitter) (a : MArgument) (v c : ℕ)
    → Sees r e a v
    → Returns r e (smulh64 v c) (mulh a c true e)
unfolding mulh const_reg copy step
smulh-Returns r e (reg m) v c h = (
  (
    (omega arith, omega arith),
    rw (exec-snoc, exec-snoc, exec-snoc, exec-snoc) (ground (arith, h.1)),
  ),
  (omega arith, λ n lo hi. rw (exec-snoc, exec-snoc, exec-snoc, exec-snoc) (ground arith)),
)
smulh-Returns r e (imm m) v c h = absurd h.0

pub if-Returns :
    (r : Regs) (e : Emitter) (b : Bool) (m n : M MArgument) (v : ℕ)
    → (b ≡ true → Returns r e v (m e))
    → (b ≡ false → Returns r e v (n e))
    → Returns r e v ((if b then m else n) e)
if-Returns r e true m n v h k = h refl
if-Returns r e false m n v h k = k refl

pub Returns-cast :
    (r : Regs) (e : Emitter) (v w : ℕ) (res : MArgument × Emitter)
    → v ≡ w
    → Returns r e v res
    → Returns r e w res
Returns-cast r e v w res eq h = ((h.0.0, h.0.1 ∙ eq), h.1)
