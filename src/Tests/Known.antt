-- ===== src/Tests/Known.antt =====
-- The known bits of small and of wide values.
use foptim.Base.{some, ◌<◌, ℕ, ◌≡◌, refl, arith, [], ◌∷◌}
use foptim.Words.{value}
use foptim.ApInt.{ApInt, all_ones, add, from_u64}
use foptim.ApInt.Bitwise.{and, or, xor, complement}
use foptim.ApInt.Cut.{IsValid}
use foptim.ApInt.Special.{is_all_ones}
use foptim.KnownBits.{KnownBits, is_constant, unknown, known_int, known_and, known_add}
use foptim.KnownBits.Masks.{Knows}
use foptim.KnownBits.Logic.{known_and-Knows}
use foptim.Ir.{BinaryInstrSubType, InstrType}
use foptim.Ir.Interpreter.{int_binary}
use foptim.Ir.Interpreter.Step.{cast}
use foptim.ApInt.Divide.{udiv}
use foptim.ApInt.Bitwise.{is_zero}
use foptim.KnownBits.Instructions.{
  update_binary, update_cast, known_udiv, known_log2, shifted_right,
}
use foptim.Base.Bits.{countl_zero}
use foptim.ApInt.ZeroCounts.{is_pow2, active_bits, clz}
use foptim.ApInt.Shift.{shl, lshr}
use foptim.ApInt.Special.{high_bits}
use foptim.KnownBits.Update.{update_binary-Knows}
use foptim.KnownBits.Casts.{update_cast-Knows}
use foptim.KnownBits.Values.{unknown-Knows, known_int-Knows}
use foptim.Tests.Bits.{three, three-IsValid}
use Prim.Native.Nat.{bit_and}

-- Of an unknown value and 12, in 100 bits, all bits but two are known.
abbrev twelve : ApInt
twelve = record { bits = 100; words = 12 ∷ 0 ∷ [] }

twelve-IsValid : IsValid twelve
unfolding value
twelve-IsValid = record {
  shape = record {
    positive = omega arith;
    fits = omega arith;
    count = refl;
    all_words = omega arith;
  };
  cut = omega arith;
}

abbrev masked : KnownBits
masked = known_and (known_int 100 twelve) (unknown 100)

masked-Knows : Knows masked 100 (bit_and 12 9)
unfolding value
masked-Knows =
    known_and-Knows (known_int 100 twelve) (unknown 100) 100 12 9
      (known_int-Knows twelve 100 twelve-IsValid (omega arith) (omega arith))
      (unknown-Knows 100 9 (omega arith) (omega arith))

abbrev step : KnownBits
step = known_int 100 three

step-Knows : Knows step 100 3
unfolding value
step-Knows = known_int-Knows three 100 three-IsValid (omega arith) (omega arith)

-- In 8 bits: a multiple of 4 below 16, and 3. Their sum has two ones, and four zeros above.
abbrev byte : ℕ → ApInt
byte n = record { bits = 8; words = n ∷ [] }

add_test :
    known_add
      (record { known_zero = byte 243; known_one = byte 0 })
      (record { known_zero = byte 252; known_one = byte 3 })
    ≡ record { known_zero = byte 240; known_one = byte 3 }
unfolding known_add and complement add from_u64 or xor
add_test = refl

byte-IsValid : (n : ℕ) → n < 256 → IsValid (byte n)
unfolding value
byte-IsValid n lt = record {
  shape = record {
    positive = omega arith;
    fits = omega arith;
    count = refl;
    all_words = omega arith;
  };
  cut = omega arith;
}

-- A quotient by the constant 4: the bits of the dividend, moved down, with zeros at the top.
divide_test :
    update_binary BinaryInstrSubType.int_udiv
      (unknown 8)
      (record { known_zero = byte 243; known_one = byte 0 })
      (record { known_zero = byte 251; known_one = byte 4 })
    ≡ record { known_zero = byte 252; known_one = byte 0 }
unfolding update_binary unknown from_u64 known_udiv known_log2 is_constant is_all_ones or is_pow2
    active_bits clz countl_zero shifted_right lshr high_bits shl all_ones
divide_test = refl

-- Of an unknown byte and 12.
abbrev masked_byte : KnownBits
masked_byte = known_and (known_int 8 (byte 12)) (unknown 8)

masked_byte-Knows : Knows masked_byte 8 8
unfolding value
masked_byte-Knows =
    known_and-Knows (known_int 8 (byte 12)) (unknown 8) 8 12 9
      (known_int-Knows (byte 12) 8 (byte-IsValid 12 (omega arith)) (omega arith) (omega arith))
      (unknown-Knows 8 9 (omega arith) (omega arith))

quotient : int_binary BinaryInstrSubType.int_udiv 8 (byte 8) (byte 4) ≡ some (byte 2)
unfolding int_binary udiv is_zero from_u64
quotient = refl

update_binary-Knows_example :
    Knows
      (update_binary BinaryInstrSubType.int_udiv (unknown 8) masked_byte (known_int 8 (byte 4)))
      8
      (value (byte 2).words)
unfolding value
update_binary-Knows_example =
    update_binary-Knows (byte 8) (byte 4) (byte 2) (byte-IsValid 8 (omega arith))
      (byte-IsValid 4 (omega arith)) refl (omega arith) (unknown 8) masked_byte
      (known_int 8 (byte 4)) BinaryInstrSubType.int_udiv masked_byte-Knows
      (known_int-Knows (byte 4) 8 (byte-IsValid 4 (omega arith)) (omega arith) (omega arith))
      quotient (unknown-Knows 8 2 (omega arith) (omega arith))

update_cast-Knows_example :
    Knows
      (update_cast InstrType.sext 100 (known_int 8 (byte 200)))
      100
      (value (cast InstrType.sext (byte 200) 100).words)
unfolding value
update_cast-Knows_example =
    update_cast-Knows (byte 200) (byte-IsValid 200 (omega arith)) (known_int 8 (byte 200)) 100
      (omega arith) (omega arith)
      (known_int-Knows (byte 200) 8 (byte-IsValid 200 (omega arith)) (omega arith) (omega arith))
      InstrType.sext (omega arith)
