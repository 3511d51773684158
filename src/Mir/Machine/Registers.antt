-- ===== src/Mir/Machine/Registers.antt =====
-- What a block of instructions leaves alone.
use foptim.Base.{ℕ, List, [], ◌∷◌, ◌++◌, ◌≡◌, refl, ◌∙◌, ◌≢◌, arith}
use foptim.Mir.Machine.{MInstr, Regs, update, step, exec}

pub exec-append : (is js : List MInstr) (r : Regs) → exec (is ++ js) r ≡ exec js (exec is r)
unfolding exec
exec-append [] js r = refl
exec-append (i ∷ is) js r = exec-append is js (step i r)

exec_single : (i : MInstr) (r : Regs) → exec (i ∷ []) r ≡ step i r
unfolding exec
exec_single i r = refl

pub exec-snoc :
    (is : List MInstr) (i : MInstr) (r : Regs) → exec (is ++ i ∷ []) r ≡ step i (exec is r)
exec-snoc is i r = exec-append is (i ∷ []) r ∙ exec_single i (exec is r)

pub update_self : (r : Regs) (k v : ℕ) → update r k v k ≡ v
update_self r k v = ground arith

pub update_ne : (r : Regs) (k j v : ℕ) → j ≢ k → update r k v j ≡ r j
update_ne r k j v h = ground arith
