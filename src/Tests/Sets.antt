-- ===== src/Tests/Sets.antt =====
-- src/test/test_bitset.hpp: sets of 70 members, two words.
use foptim.Base.{ℕ, ◌≡◌, ◌≢◌, ◌⊎◌, ◌<◌, ◌≤◌, refl, arith, [], ◌∷◌, true, not, ◌&&◌, ◌||◌}
use foptim.BitSet.{BitSet, test, set_bit, set_field, get_field, mul_assign, add_assign, mul_not}
use foptim.BitSet.Pointwise.{IsValid, test-operations}
use foptim.BitSet.Members.{test-set_bit}
use foptim.BitSet.Fields.{get_field-set_field}

abbrev odd_ones : BitSet
odd_ones = record { data_words = 42 ∷ 2 ∷ []; size_bits = 70 }

abbrev low_ones : BitSet
low_ones = record { data_words = 15 ∷ 3 ∷ []; size_bits = 70 }

odd_ones-IsValid : IsValid odd_ones
odd_ones-IsValid = record { count = refl; all_words = omega arith }

low_ones-IsValid : IsValid low_ones
low_ones-IsValid = record { count = refl; all_words = omega arith }

test-operations_example :
    (test (mul_assign odd_ones low_ones) 65 ≡ (test odd_ones 65 && test low_ones 65))
    × (test (add_assign odd_ones low_ones) 65 ≡ (test odd_ones 65 || test low_ones 65))
    × (test (mul_not odd_ones low_ones) 65 ≡ (test odd_ones 65 && not (test low_ones 65)))
test-operations_example =
    test-operations odd_ones low_ones odd_ones-IsValid low_ones-IsValid refl 65 (omega arith)

test-set_bit_example :
    (test (set_bit odd_ones 66 true) 66 ≡ true)
    × ((j : ℕ) → j ≢ 66 → test (set_bit odd_ones 66 true) j ≡ test odd_ones j)
test-set_bit_example = test-set_bit odd_ones odd_ones-IsValid 66 (omega arith) true

-- A field of 5 bits over the end of the first word.
get_field-set_field_example :
    (get_field 5 (set_field 0 5 odd_ones 62 19) 62 0 ≡ 19)
    × ((p : ℕ) → (p < 62) ⊎ (67 ≤ p) → test (set_field 0 5 odd_ones 62 19) p ≡ test odd_ones p)
get_field-set_field_example =
    get_field-set_field odd_ones 62 5 19 odd_ones-IsValid (omega arith) (omega arith)
