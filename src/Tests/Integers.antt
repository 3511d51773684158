-- ===== src/Tests/Integers.antt =====
-- src/test/test_apint.hpp: integers of several widths.
use foptim.Base.{◌+◌, ◌-◌, ◌*◌, ◌%◌, ◌^◌, ◌≡◌, refl, arith, [], ◌∷◌, ltb, leb}
use foptim.Words.{value}
use foptim.ApInt.{ApInt, add, sub, mul, ucmp, uadd_ov, usub_ov, zext, trunc}
use foptim.ApInt.Cut.{IsValid, Is}
use foptim.ApInt.Ring.{add-Is, sub-Is, mul-Is}
use foptim.ApInt.Compare.{ucmp-value, uadd_ov-exact, usub_ov-exact}
use foptim.ApInt.Resize.{zext-Is, trunc-Is}
use Prim.Native.Nat.{compare}

-- 200 bits, four words.
abbrev pub wide : ApInt
wide = record { bits = 200; words = (2 ^ 64 - 1) ∷ (2 ^ 64 - 1) ∷ 5 ∷ 200 ∷ [] }

abbrev pub other : ApInt
other = record { bits = 200; words = 3 ∷ 0 ∷ (2 ^ 64 - 2) ∷ 100 ∷ [] }

pub wide-IsValid : IsValid wide
unfolding value
wide-IsValid = record {
  shape = record {
    positive = omega arith;
    fits = omega arith;
    count = refl;
    all_words = omega arith;
  };
  cut = omega arith;
}

pub other-IsValid : IsValid other
unfolding value
other-IsValid = record {
  shape = record {
    positive = omega arith;
    fits = omega arith;
    count = refl;
    all_words = omega arith;
  };
  cut = omega arith;
}

add-Is_example : Is (add wide other) 200 ((value wide.words + value other.words) % 2 ^ 200)
add-Is_example = add-Is wide other wide-IsValid other-IsValid refl

sub-Is_example :
    Is (sub wide other) 200 ((value wide.words + 2 ^ 200 - value other.words) % 2 ^ 200)
sub-Is_example = sub-Is wide other wide-IsValid other-IsValid refl

mul-Is_example : Is (mul wide other) 200 ((value wide.words * value other.words) % 2 ^ 200)
mul-Is_example = mul-Is wide other wide-IsValid other-IsValid refl

ucmp-value_example : ucmp wide other ≡ compare (value wide.words) (value other.words)
ucmp-value_example = ucmp-value wide other wide-IsValid other-IsValid refl

uadd_ov-exact_example :
    Is (uadd_ov wide other).result 200 ((value wide.words + value other.words) % 2 ^ 200)
    × ((uadd_ov wide other).ov ≡ leb (2 ^ 200) (value wide.words + value other.words))
uadd_ov-exact_example = uadd_ov-exact wide other wide-IsValid other-IsValid refl

usub_ov-exact_example :
    Is (usub_ov wide other).result 200 ((value wide.words + 2 ^ 200 - value other.words) % 2 ^ 200)
    × ((usub_ov wide other).ov ≡ ltb (value wide.words) (value other.words))
usub_ov-exact_example = usub_ov-exact wide other wide-IsValid other-IsValid refl

zext-Is_example : Is (zext wide 300) 300 (value wide.words)
zext-Is_example = zext-Is wide wide-IsValid 300 (omega arith) (omega arith)

trunc-Is_example : Is (trunc wide 130) 130 (value wide.words % 2 ^ 130)
trunc-Is_example = trunc-Is wide wide-IsValid 130 (omega arith) (omega arith) (omega arith)
