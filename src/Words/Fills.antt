-- ===== src/Words/Fills.antt =====
-- src/utils/APInt.cpp, the loop of `sext_wide`: the words above a width are filled with ones.
use foptim.Base.{
  ℕ, zero, suc, ◌+◌, ◌-◌, ◌*◌, ◌/◌, ◌%◌, ◌^◌, ◌≤◌, ◌<◌, ◌≡◌, refl, sym, ap, ◌∙◌, List, [], ◌∷◌,
  arith, ◌==◌, if◌then◌else◌, Bool-cases, inl, inr, length, get_or, set, length-set, u64, dec_lt,
}
use foptim.Base.Powers.{pow-pos, pow-add, pow_mono}
use foptim.Base.BitLaws.{bit_or_fields}
use foptim.Base.Modulus.{pow-split, mod_unique}
use foptim.Words.{value}
use foptim.Words.Value.{AreWords, capacity, capacity_pos, capacity-pow}
use native.Mathlib.Nat.{mul-le-mul_left}
use Prim.Native.Nat.{bit_or}

-- The loop that sets every word from an index on.
unfoldable pub fill_ones : ℕ → List ℕ → List ℕ
fill_ones start [] = []
fill_ones zero (w ∷ ws) = (2 ^ 64 - 1) ∷ fill_ones zero ws
fill_ones (suc start) (w ∷ ws) = w ∷ fill_ones start ws

-- `d[first] |= ~u64{0} << rem`, when there are such bits.
unfoldable pub fill_word : ℕ → ℕ → List ℕ → List ℕ
fill_word first rem d =
    if rem == 0 then d else set d first (bit_or (get_or d first 0) (u64 ((2 ^ 64 - 1) * 2 ^ rem)))

capacity_mono : (m n : ℕ) → m ≤ n → capacity m ≤ capacity n
capacity_mono m n h =
    omega (arith, capacity-pow m, capacity-pow n, pow_mono (64 * m) (64 * n) (omega arith))

fill_ones-value :
    (s : ℕ) (ws : List ℕ)
    → AreWords ws
    → s ≤ length ws
    → value ws < capacity s
    → (value (fill_ones s ws) ≡ value ws + capacity (length ws) - capacity s)
      × AreWords (fill_ones s ws)
      × (length (fill_ones s ws) ≡ length ws)
unfolding value fill_ones
fill_ones-value zero [] h le lt = (omega arith, tt, refl)
fill_ones-value (suc s) [] h le lt = absurd (omega arith)
fill_ones-value zero (w ∷ ws) h le lt =
    let ih = fill_ones-value zero ws h.1 (omega arith) (omega arith) in
    (omega (arith, ih.0, capacity_pos (length ws)), (omega arith, ih.1), ap suc ih.2)
fill_ones-value (suc s) (w ∷ ws) h le lt =
    let ih = fill_ones-value s ws h.1 (omega arith) (omega (arith, h.0)) in
    (omega (arith, ih.0, capacity_mono s (length ws) (omega arith)), (h.0, ih.1), ap suc ih.2)

pub set-value :
    (ws : List ℕ) (i u : ℕ)
    → AreWords ws
    → i < length ws
    → u < 2 ^ 64
    → (value (set ws i u) + capacity i * get_or ws i 0 ≡ value ws + capacity i * u)
      × AreWords (set ws i u)
unfolding value
set-value [] i u h lt hu = absurd (omega arith)
set-value (w ∷ ws) zero u h lt hu = (omega arith, (hu, h.1))
set-value (w ∷ ws) (suc i) u h lt hu =
    let ih = set-value ws i u h.1 (omega arith) hu in (omega (arith, ih.0), (h.0, ih.1))

word-le : (ws : List ℕ) (i : ℕ) → capacity i * get_or ws i 0 ≤ value ws
unfolding value
word-le [] i = omega arith
word-le (w ∷ ws) zero = omega arith
word-le (w ∷ ws) (suc i) = omega (arith, word-le ws i)

-- The ones above `rem` bits of a word.
high_ones :
    (rem w : ℕ)
    → 0 < rem
    → rem < 64
    → w < 2 ^ rem
    → bit_or w (u64 ((2 ^ 64 - 1) * 2 ^ rem)) ≡ w + 2 ^ 64 - 2 ^ rem
high_ones rem w pos h lt =
    let whole : 2 ^ 64 ≡ 2 ^ rem * 2 ^ (64 - rem) = pow-split 64 rem (omega arith) in
    let up = pow_mono rem 64 (omega arith) in
    let ones : (2 ^ 64 - 1) * 2 ^ rem ≡ 2 ^ 64 - 2 ^ rem + 2 ^ 64 * (2 ^ rem - 1) =
      top (2 ^ rem) (pow-pos rem) up in
    let cut : u64 ((2 ^ 64 - 1) * 2 ^ rem) ≡ 2 ^ 64 - 2 ^ rem =
      ap (λ t. t % 2 ^ 64) ones
      ∙ mod_unique (2 ^ 64) (2 ^ 64 - 2 ^ rem) (2 ^ rem - 1) (omega (arith, pow-pos rem)) in
    let field : 2 ^ 64 - 2 ^ rem ≡ (2 ^ (64 - rem) - 1) * 2 ^ rem =
      less (2 ^ (64 - rem)) (2 ^ rem) (pow-pos (64 - rem)) whole in
    ap (bit_or w) (cut ∙ field)
    ∙ bit_or_fields rem w (2 ^ (64 - rem) - 1) lt
    ∙ omega (arith, field, up)
  where
    top : (p : ℕ) → 0 < p → p ≤ 2 ^ 64 → (2 ^ 64 - 1) * p ≡ 2 ^ 64 - p + 2 ^ 64 * (p - 1)
    top p q r = omega arith

    less : (a p : ℕ) → 0 < a → 2 ^ 64 ≡ p * a → 2 ^ 64 - p ≡ (a - 1) * p
    less zero p q e = absurd (omega arith)
    less (suc a) p q e =
        let drop_one : suc a - 1 ≡ a = omega arith in rw drop_one (omega (arith, e))

-- The words from a width on.
unfoldable pub fill_above : ℕ → ℕ → List ℕ → List ℕ
unfolding fill_ones fill_word
fill_above first rem d = fill_ones (first + (if rem == 0 then 0 else 1)) (fill_word first rem d)

-- The part of a number in one word is below what the number is below.
pub word-lt : (ws : List ℕ) (i q : ℕ) → value ws < capacity i * q → get_or ws i 0 < q
word-lt ws i q h = elim (dec_lt (get_or ws i 0) q) [
  | yes p ↦ p
  | no p ↦
      let up : capacity i * q ≤ capacity i * get_or ws i 0 =
        mul-le-mul_left (capacity i) (omega arith) in
      absurd (omega (arith, up, word-le ws i))
]

pub fill_above-value :
    (ws : List ℕ) (bits : ℕ)
    → AreWords ws
    → bits ≤ 64 * length ws
    → value ws < 2 ^ bits
    → let r = fill_above (bits / 64) (bits % 64) ws in
      (value r ≡ value ws + capacity (length ws) - 2 ^ bits) × AreWords r × (length r ≡ length ws)
unfolding fill_above fill_word
fill_above-value ws bits h le lt =
    let first : ℕ = bits / 64 in
    let rem : ℕ = bits % 64 in
    let split : 2 ^ bits ≡ capacity first * 2 ^ rem =
      ap (λ n. 2 ^ n) (parts bits)
      ∙ pow-add (64 * first) rem
      ∙ ap (λ n. n * 2 ^ rem) (sym (capacity-pow first)) in
    elim (Bool-cases (rem == 0)) [
      | inl none ↦
          let no_rest : rem ≡ 0 = ground arith in
          let all : 2 ^ rem ≡ 1 = ap (λ n. 2 ^ n) no_rest in
          let whole : 2 ^ bits ≡ capacity first =
            split ∙ ap (λ n. capacity first * n) all ∙ omega arith in
          let start : first + 0 ≡ first = omega arith in
          let f = fill_ones-value first ws h (omega arith) (omega (arith, whole)) in
          rw (none, start) (omega (arith, f.0, whole), f.1, f.2)
      | inr part ↦
          let inside : first < length ws = ground arith in
          let low = word-lt ws first (2 ^ rem) (omega (arith, split)) in
          let up = pow_mono rem 64 (omega arith) in
          let ones = high_ones rem (get_or ws first 0) (ground arith) (omega arith) low in
          let u : ℕ = get_or ws first 0 + 2 ^ 64 - 2 ^ rem in
          let written = set-value ws first u h inside (omega (arith, low, up)) in
          let d : List ℕ = set ws first u in
          let count : length d ≡ length ws = length-set ws first u in
          let next : first + 1 ≡ suc first = omega arith in
          let grown : capacity first * u + capacity first * 2 ^ rem
              ≡ capacity first * get_or ws first 0 + capacity (suc first) =
            spread (capacity first) u (get_or ws first 0) (2 ^ rem) (omega (arith, up)) in
          let number : value d + 2 ^ bits ≡ value ws + capacity (suc first) =
            omega (arith, written.0, grown, split) in
          let room = capacity_mono (suc first) (length ws) inside in
          let f =
            fill_ones-value (suc first) d written.1 (omega (arith, count, inside))
              (omega (arith, number, lt)) in
          rw (part, ones, next)
            (omega (arith, f.0, ap capacity count, number, room, lt), f.1, f.2 ∙ count)
    ]
  where
    parts : (n : ℕ) → n ≡ 64 * (n / 64) + n % 64
    parts n = omega arith

    spread : (c u w p : ℕ) → u + p ≡ w + 2 ^ 64 → c * u + c * p ≡ c * w + 2 ^ 64 * c
    spread c u w p e = let both = ap (λ (n : ℕ). c * n) e in omega (arith, both)
