-- ===== src/Words/Limbs.antt =====
-- src/utils/APInt.cpp, `to_limbs`, `trim` and the packing of limbs in `udivrem_wide`: words as
-- halves of 32 bits.
use foptim.Base.{ℕ, zero, suc, ◌*◌, ◌/◌, ◌^◌, List, [], ◌∷◌, ◌==◌, if◌then◌else◌, u32}
use Prim.Native.Nat.{bit_or}

unfoldable pub to_limbs : List ℕ → List ℕ
to_limbs [] = []
to_limbs (w ∷ ws) = u32 w ∷ u32 (w / 2 ^ 32) ∷ to_limbs ws

-- One limb more, unless all above are zero and it is zero too.
pub trim_step : ℕ → ℕ → ℕ
trim_step l zero = if l == 0 then 0 else 1
trim_step l (suc n) = suc (suc n)

-- The number of limbs up to the highest that is not zero.
unfoldable pub trim : List ℕ → ℕ
unfolding trim_step
trim [] = 0
trim (l ∷ ls) = trim_step l (trim ls)

-- `count` words, with limb `i` in word `i / 2`.
unfoldable pub pack : ℕ → List ℕ → List ℕ
pack zero ls = []
pack (suc count) [] = 0 ∷ pack count []
pack (suc count) (l ∷ []) = l ∷ pack count []
pack (suc count) (l ∷ k ∷ ls) = bit_or l (k * 2 ^ 32) ∷ pack count ls
