-- ===== src/BitSet.antt =====
-- src/utils/bitset.hpp: `BitSet<u64>`, a set of small numbers in 64-bit words.
pub mod Pointwise
pub mod Members
pub mod Fields
use foptim.Base.{
  ℕ, zero, suc, ◌+◌, ◌-◌, ◌*◌, ◌/◌, ◌%◌, ◌^◌, List, [], ◌∷◌, map, Bool, true, false, not, ◌&&◌,
  ◌||◌, ◌==◌, leb, ltb, if◌then◌else◌, length, get_or, set, replicate, take, u64,
}
use Prim.Native.Nat.{bit_and, bit_or, bit_xor}

pub record BitSet : Type 0 where
  pub data_words : List ℕ
  pub size_bits : ℕ

abbrev pub n_elems : ℕ → ℕ
n_elems size = (size + 64) / 64

-- `memset` with all ones or with zeros.
abbrev pub fill : Bool → ℕ
fill val = if val then 2 ^ 64 - 1 else 0

unfoldable pub reset : BitSet → Bool → BitSet
reset s val = record s { data_words = replicate (n_elems s.size_bits) (fill val) }

-- The constructor.
unfoldable pub make : ℕ → Bool → BitSet
unfolding reset
make size val = reset (record { data_words = []; size_bits = size }) val

abbrev pub empty : ℕ → BitSet
empty size = make size false

-- `operator bool` of the BitRef at `indx`.
unfoldable pub test : BitSet → ℕ → Bool
test s indx = get_or s.data_words (indx / 64) 0 / 2 ^ (indx % 64) % 2 == 1

-- `BitRef::set`.
unfoldable pub set_word : ℕ → ℕ → Bool → ℕ
set_word w offset value =
    if value then bit_or w (2 ^ offset) else bit_and w (2 ^ 64 - 1 - 2 ^ offset)

unfoldable pub set_bit : BitSet → ℕ → Bool → BitSet
unfolding set_word
set_bit s indx value = record s {
  data_words =
      set s.data_words (indx / 64) (set_word (get_or s.data_words (indx / 64) 0) (indx % 64) value);
}

-- `set` of `width` bits, from the `i`th of them on.
pub set_field : ℕ → ℕ → BitSet → ℕ → ℕ → BitSet
unfolding set_bit
set_field i zero s indx value = s
set_field i (suc rest) s indx value =
    set_field (suc i) rest (set_bit s (indx + i) (value / 2 ^ i % 2 == 1)) indx value

-- `get` of `width` bits, the highest first.
pub get_field : ℕ → BitSet → ℕ → ℕ → ℕ
unfolding test
get_field zero s indx out = out
get_field (suc i) s indx out =
    get_field i s indx (bit_or (u64 (out * 2)) (if test s (indx + i) then 1 else 0))

abbrev pub zip_words : (ℕ → ℕ → ℕ) → List ℕ → List ℕ → List ℕ
zip_words f [] ys = []
zip_words f (x ∷ xs) [] = []
zip_words f (x ∷ xs) (y ∷ ys) = f x y ∷ zip_words f xs ys

unfoldable pub negate : BitSet → BitSet
negate s = record s { data_words = map (λ w. 2 ^ 64 - 1 - w) s.data_words }

-- `operator*=`.
unfoldable pub mul_assign : BitSet → BitSet → BitSet
mul_assign s o = record s { data_words = zip_words (λ a b. bit_and a b) s.data_words o.data_words }

-- `operator+=`.
unfoldable pub add_assign : BitSet → BitSet → BitSet
add_assign s o = record s { data_words = zip_words (λ a b. bit_or a b) s.data_words o.data_words }

unfoldable pub mul_not : BitSet → BitSet → BitSet
mul_not s o = record s {
  data_words = zip_words (λ a b. bit_and a (2 ^ 64 - 1 - b)) s.data_words o.data_words;
}

unfoldable pub xor_assign : BitSet → BitSet → BitSet
xor_assign s o = record s { data_words = zip_words (λ a b. bit_xor a b) s.data_words o.data_words }

-- The members in the last word.
abbrev pub last_mask : BitSet → ℕ
last_mask s =
    let n_dead_bits = n_elems s.size_bits * 64 - s.size_bits in
    let n_alive_bits = 64 - n_dead_bits in 2 ^ n_alive_bits - 1

abbrev pub last_word : BitSet → ℕ
last_word s = get_or s.data_words (n_elems s.size_bits - 1) 0

pub any_word : List ℕ → Bool
any_word [] = false
any_word (w ∷ ws) = not (w == 0) || any_word ws

unfoldable pub any : BitSet → Bool
unfolding any_word
any s =
    any_word (take (n_elems s.size_bits - 1) s.data_words)
    || not (bit_and (last_word s) (last_mask s) == 0)

-- `operator==`.
pub equal_words : List ℕ → List ℕ → Bool
equal_words [] ys = true
equal_words (x ∷ xs) [] = true
equal_words (x ∷ xs) (y ∷ ys) = (x == y) && equal_words xs ys

unfoldable pub equal : BitSet → BitSet → Bool
unfolding equal_words
equal s o =
    let n = n_elems s.size_bits in
    if not (s.size_bits == o.size_bits)
    then false
    else equal_words (take (n - 1) s.data_words) (take (n - 1) o.data_words)
      && (bit_and (last_word s) (last_mask s) == bit_and (last_word o) (last_mask s))
