-- ===== src/ApInt/Ring.antt =====
-- `operator+`, `operator-`, `operator*` and the negation, on every width and so on every path.
use foptim.Base.{
  ℕ, ◌+◌, ◌-◌, ◌*◌, ◌%◌, ◌^◌, ◌≤◌, ◌<◌, ◌≡◌, sym, ap, ◌∙◌, subst, List, arith, ltb, leb,
  if◌then◌else◌, Bool-cases, inl, inr, u64, u128, length, leb→le,
}
use foptim.Base.Powers.{pow-pos}
use foptim.Base.Modulus.{mod-mod_pow, sub-mod_pow, mod_unique}
use foptim.Words.{value, add_n, sub_n, mul_n}
use foptim.Words.Value.{AreWords, capacity, capacity-pow, value-lt}
use foptim.Words.Sums.{add_n-value, sub_n-value}
use foptim.Words.Products.{mul_n-value}
use foptim.ApInt.{
  ApInt, val, get128, clear_unused, from_u64, from_u128, add, add_wide, sub, sub_wide, mul,
  mul_wide, neg,
}
use foptim.ApInt.Cut.{IsValid, Is, clear_unused-Is}
use foptim.ApInt.Make.{from_u64-Is, from_u128-Is}
use foptim.ApInt.Views.{same_length, val-value, get128-value, capacity-cut, width-le}
use native.Mathlib.Nat.{mod-eq_of_lt, zero-add}

-- The three paths of an operation: its result is a value modulo a power of two that is at least
-- the width.
module _ (x : ApInt) (v : IsValid x) where
  on_word : (n r : ℕ) → n % 2 ^ 64 % 2 ^ x.bits ≡ r → Is (from_u64 x.bits (u64 n)) x.bits r
  on_word n r h =
      subst (Is (from_u64 x.bits (u64 n)) x.bits) h
        (from_u64-Is x.bits (u64 n) v.shape.positive v.shape.fits (omega arith))

  on_double : (n r : ℕ) → n % 2 ^ 128 % 2 ^ x.bits ≡ r → Is (from_u128 x.bits (u128 n)) x.bits r
  on_double n r h =
      subst (Is (from_u128 x.bits (u128 n)) x.bits) h
        (from_u128-Is x.bits (u128 n) v.shape.positive v.shape.fits (omega arith))

  on_words :
      (ws : List ℕ) (r : ℕ)
      → AreWords ws
      → length ws ≡ length x.words
      → value ws % 2 ^ x.bits ≡ r
      → Is (clear_unused (record x { words = ws })) x.bits r
  on_words ws r hw e h = subst (Is (clear_unused (record x { words = ws })) x.bits) h (
      clear_unused-Is (record x { words = ws })
        (record {
          positive = v.shape.positive;
          fits = v.shape.fits;
          count = e ∙ v.shape.count;
          all_words = hw;
        }))

-- A borrow out of the top word is the wrap of the difference.
borrow-mod :
    (cap v x y b : ℕ)
    → b ≡ (if ltb x y then 1 else 0)
    → v + y ≡ x + cap * b
    → v < cap
    → y < cap
    → v ≡ (x + cap - y) % cap
borrow-mod cap v x y b e h hv hy = elim (Bool-cases (ltb x y)) [
  | inl less ↦
      let one : b ≡ 1 = ground arith in
      let top : x + cap - y ≡ v = omega (arith, ap (λ (t : ℕ). cap * t) one) in
      sym (ap (λ n. n % cap) top ∙ mod-eq_of_lt hv)
  | inr more ↦
      let none : b ≡ 0 = ground arith in
      let top : x + cap - y ≡ v + cap * 1 = omega (arith, ap (λ (t : ℕ). cap * t) none) in
      sym (ap (λ n. n % cap) top ∙ mod_unique cap v 1 hv)
]

module _ (x y : ApInt) (v : IsValid x) (w : IsValid y) (same : x.bits ≡ y.bits) where
  abbrev vx : ℕ
  vx = value x.words

  abbrev vy : ℕ
  vy = value y.words

  lift_words :
      (ws : List ℕ) (r : ℕ)
      → AreWords ws
      → length ws ≡ length x.words
      → value ws ≡ r % capacity (length x.words)
      → value ws % 2 ^ x.bits ≡ r % 2 ^ x.bits
  lift_words ws r hw e h = ap (λ n. n % 2 ^ x.bits) h ∙ capacity-cut x v r

  -- A choice between the three paths, each with the operands' values.
  paths :
      (single double long : ApInt) (r : ℕ)
      → (x.bits ≤ 64 → val x ≡ vx → val y ≡ vy → Is single x.bits r)
      → (x.bits ≤ 128 → get128 x ≡ vx → get128 y ≡ vy → Is double x.bits r)
      → Is long x.bits r
      → Is (if leb x.bits 64 then single else if leb x.bits 128 then double else long) x.bits r
  paths single double long r h k l = elim (Bool-cases (leb x.bits 64)) [
    | inl narrow ↦
        let n = leb→le _ _ narrow in
        rw narrow (h n (val-value x v n) (val-value y w (omega (arith, same))))
    | inr wide ↦
        let above : 64 < x.bits = ground arith in
        rw wide (elim (Bool-cases (leb x.bits 128)) [
          | inl middle ↦
              let n = leb→le _ _ middle in
              rw middle (
                k n (get128-value x v above n)
                  (get128-value y w (omega (arith, same)) (omega (arith, same))))
          | inr long_words ↦ rw long_words l
        ])
  ]

  -- With both operands well formed (as many words as the width needs, every word below 2^64, unused
  -- high bits zero) and of the same width, operator+ returns a well formed integer of that width
  -- whose number is the sum of the operands modulo 2^bits, on each of its three paths.
  pub add-Is : Is (add x y) x.bits ((vx + vy) % 2 ^ x.bits)
  unfolding add add_wide
  add-Is =
      let s =
        add_n-value x.words y.words v.shape.all_words w.shape.all_words
          (same_length x y v w same) in
      let total = add_n x.words y.words in
      let cap = capacity (length x.words) in
      let bound = subst (λ n. value total.words < capacity n) s.2 (value-lt total.words s.1) in
      let number : value total.words ≡ (vx + vy) % cap =
        sym (mod_unique cap (value total.words) total.carry bound) ∙ ap (λ n. n % cap) s.0 in
      paths _ _ _ ((vx + vy) % 2 ^ x.bits)
        (λ h p q. rw (p, q) (on_word x v (vx + vy) _ (mod-mod_pow 64 x.bits (vx + vy) h)))
        (λ h p q. rw (p, q) (on_double x v (vx + vy) _ (mod-mod_pow 128 x.bits (vx + vy) h)))
        (on_words x v total.words _ s.1 s.2 (lift_words total.words (vx + vy) s.1 s.2 number))

  -- With both operands well formed (as many words as the width needs, every word below 2^64, unused
  -- high bits zero) and of the same width, operator* returns a well formed integer of that width
  -- whose number is the product of the operands modulo 2^bits; this covers the one word, the 128 bit
  -- and the many word path.
  pub mul-Is : Is (mul x y) x.bits ((vx * vy) % 2 ^ x.bits)
  unfolding mul mul_wide
  mul-Is =
      let m =
        mul_n-value x.words y.words v.shape.all_words w.shape.all_words
          (same_length x y v w same) in
      let product = mul_n x.words y.words in
      paths _ _ _ ((vx * vy) % 2 ^ x.bits)
        (λ h p q. rw (p, q) (on_word x v (vx * vy) _ (mod-mod_pow 64 x.bits (vx * vy) h)))
        (λ h p q. rw (p, q) (on_double x v (vx * vy) _ (mod-mod_pow 128 x.bits (vx * vy) h)))
        (on_words x v product _ m.1 m.2 (lift_words product (vx * vy) m.1 m.2 m.0))

  -- With both operands well formed (as many words as the width needs, every word below 2^64, unused
  -- high bits zero) and of the same width, operator- returns a well formed integer of that width
  -- whose number is x + 2^bits - y modulo 2^bits, on each of its three paths.
  pub sub-Is : Is (sub x y) x.bits ((vx + 2 ^ x.bits - vy) % 2 ^ x.bits)
  unfolding sub sub_wide
  sub-Is =
      let s =
        sub_n-value x.words y.words v.shape.all_words w.shape.all_words
          (same_length x y v w same) in
      let rest = sub_n x.words y.words in
      let n = length x.words in
      let y-lt : vy < 2 ^ x.bits = subst (λ b. vy < 2 ^ b) (sym same) w.cut in
      let bound = subst (λ k. value rest.words < capacity k) s.2 (value-lt rest.words s.1) in
      let number : value rest.words ≡ (vx + capacity n - vy) % capacity n =
        borrow-mod (capacity n) (value rest.words) vx vy rest.carry s.3 s.0 bound (
          omega (
            arith,
            subst (λ k. vy < capacity k) (sym (same_length x y v w same))
                (value-lt y.words w.shape.all_words),
          )) in
      let cut : value rest.words % 2 ^ x.bits ≡ (vx + 2 ^ x.bits - vy) % 2 ^ x.bits =
        ap (λ k. k % 2 ^ x.bits) (number ∙ ap (λ c. (vx + c - vy) % c) (capacity-pow n))
        ∙ sub-mod_pow (64 * n) x.bits vx vy (width-le x v) y-lt in
      paths _ _ _ ((vx + 2 ^ x.bits - vy) % 2 ^ x.bits)
        (λ h p q. rw (p, q) (on_word x v (vx + 2 ^ 64 - vy) _ (sub-mod_pow 64 x.bits vx vy h y-lt)))
        (λ h p q.
          rw (p, q) (on_double x v (vx + 2 ^ 128 - vy) _ (sub-mod_pow 128 x.bits vx vy h y-lt)))
        (on_words x v rest.words _ s.1 s.2 cut)

-- For a well formed integer, the unary operator- returns a well formed integer of the same width
-- whose number is 2^bits minus the number, modulo 2^bits.
pub neg-Is : (x : ApInt) → IsValid x → Is (neg x) x.bits ((2 ^ x.bits - value x.words) % 2 ^ x.bits)
unfolding neg
neg-Is x v =
    let z = from_u64 x.bits 0 in
    let zero-Is = from_u64-Is x.bits 0 v.shape.positive v.shape.fits (omega arith) in
    let none : value z.words ≡ 0 = zero-Is.number ∙ mod-eq_of_lt (pow-pos x.bits) in
    let diff = sub-Is z x zero-Is.valid v zero-Is.width in
    subst (λ b. Is (sub z x) b ((2 ^ b - value x.words) % 2 ^ b)) zero-Is.width
      (subst (λ n. Is (sub z x) z.bits ((n - value x.words) % 2 ^ z.bits))
        (ap (λ n. n + 2 ^ z.bits) none ∙ zero-add (2 ^ z.bits)) diff)
