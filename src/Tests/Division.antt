-- ===== src/Tests/Division.antt =====
-- src/test/test_const_div.hpp and the division emitter: concrete divisors.
use foptim.Base.{
  ◌-◌, Option, none, ℕ, zero, suc, ◌/◌, ◌^◌, ◌<◌, ◌≡◌, ◌≢◌, refl, true, false, some, inr, arith, [],
}
use foptim.Base.Bits.{has_single_bit, countr_zero, bit_width}
use foptim.Base.Powers.{pow_mono}
use foptim.ConstDiv.{UDivMagic, udiv_magic, sdiv_magic}
use foptim.ConstDiv.Entries.{apply_udiv, udiv_magic-total}
use foptim.Mir.Machine.{read, exec, step, sar64, neg64, MArgument, reg, Regs}
use foptim.Mir.ConstDivEmitter.{Emitter, udiv, sdiv, copy, fresh}
use foptim.Mir.ConstDivEmitter.Track.{Sees, Keeps}
use foptim.Mir.ConstDivEmitter.Unsigned.{udiv-divides}

udiv_by_seven :
    udiv_magic 7 32 ≡ some (record { mul = 613566757; pre_shift = 0; shift = 3; add = true })
unfolding udiv_magic has_single_bit countr_zero bit_width
udiv_by_seven = refl

udiv_by_ten :
    udiv_magic 10 32 ≡ some (record { mul = 3435973837; pre_shift = 0; shift = 35; add = false })
unfolding udiv_magic has_single_bit countr_zero bit_width
udiv_by_ten = refl

sdiv_by_seven : sdiv_magic 7 32 ≡ some (record { mul = 2454267027; shift = 34 })
unfolding sdiv_magic has_single_bit countr_zero bit_width
sdiv_by_seven = refl

seven_ne_pow : (k : ℕ) → 7 ≢ 2 ^ k
seven_ne_pow zero e = absurd (omega arith)
seven_ne_pow (suc zero) e = absurd (omega arith)
seven_ne_pow (suc (suc zero)) e = absurd (omega arith)
seven_ne_pow (suc (suc (suc k))) e =
    absurd (omega (arith, pow_mono 3 (suc (suc (suc k))) (omega arith)))

udiv_magic-total_example :
    (g : UDivMagic) × (udiv_magic 7 32 ≡ some g)
    × ((x : ℕ) → x < 2 ^ 32 → apply_udiv g 32 x ≡ x / 7)
udiv_magic-total_example =
    udiv_magic-total 7 32 (omega arith) (omega arith) (omega arith) (omega arith) seven_ne_pow

abbrev hundreds : Regs
hundreds = λ n. 100

abbrev start : Emitter
start = record { out = []; vreg_num = 1 }

seen : Sees hundreds start (reg 34) 100
unfolding exec
seen = ((omega arith, omega arith), refl)

udiv-divides_example :
    (q : MArgument) × ((udiv (reg 34) 7 32 start).0 ≡ some q)
    × Sees hundreds (udiv (reg 34) 7 32 start).1 q 14
    × Keeps hundreds start (udiv (reg 34) 7 32 start).1
udiv-divides_example =
    udiv-divides hundreds start (reg 34) 100 7 32 seen (inr (omega arith)) (omega arith)
      (omega arith) (omega arith) (omega arith)

abbrev minus_hundred : Regs
minus_hundred n = 2 ^ 64 - 100

abbrev result : Option MArgument × Emitter → ℕ
result (none, e) = 0
result (some a, e) = read (exec e.out minus_hundred) a

-- -100 divided by -7.
sdiv_runs : result (sdiv (reg 34) (2 ^ 64 - 7) 32 start) ≡ 14
unfolding sdiv exec sdiv_magic has_single_bit countr_zero bit_width step copy fresh sar64 neg64
sdiv_runs = refl
