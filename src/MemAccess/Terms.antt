-- ===== src/MemAccess/Terms.antt =====
-- The terms of an address: what they add up to, and that `add_term` keeps one term per index.
use foptim.Base.{
  ℕ, zero, suc, ◌+◌, ◌-◌, ◌*◌, ◌/◌, ◌%◌, ◌^◌, ◌<◌, ◌≡◌, inl, inr, refl, ap, List, [], ◌∷◌, some,
  arith, ◌==◌, Bool-cases, Option-cases, some_eq, length, get_or, set, take, ==_iff, length-set,
}
use foptim.MemAccess.{
  IndexTerm, add_i64, mul_i64, is_neg, find_index, swap_remove, merge_term, add_term, push_back,
  no_term, max_terms,
}

-- Equal modulo 2 ^ 64.
abbrev pub Congruent : ℕ → ℕ → Type 0
Congruent a b = a % 2 ^ 64 ≡ b % 2 ^ 64

pub Congruent-mul : (a b c : ℕ) → Congruent a b → Congruent (a * c) (b * c)
Congruent-mul a b c h =
    let left : a ≡ 2 ^ 64 * (a / 2 ^ 64) + a % 2 ^ 64 = omega arith in
    let right : b ≡ 2 ^ 64 * (b / 2 ^ 64) + a % 2 ^ 64 = omega (arith, h) in
    omega (arith, ap (λ (t : ℕ). t * c) left, ap (λ (t : ℕ). t * c) right)

pub add_i64-sum : (a b s : ℕ) → add_i64 a b ≡ some s → Congruent s (a + b) × (s < 2 ^ 64)
unfolding add_i64
add_i64-sum a b s h = ground arith

wrapped : (a m b : ℕ) → a + m ≡ 2 ^ 64 → a * b + m * b ≡ 2 ^ 64 * b
wrapped a m b h = omega (arith, ap (λ (t : ℕ). t * b) h)

both_wrapped :
    (a b m n : ℕ) → a + m ≡ 2 ^ 64 → b + n ≡ 2 ^ 64 → a * b + 2 ^ 64 * m ≡ m * n + 2 ^ 64 * b
both_wrapped a b m n h k = omega (arith, ap (λ (t : ℕ). t * b) h, ap (λ (t : ℕ). m * t) k)

pub mul_i64-product :
    (a b m : ℕ)
    → a < 2 ^ 64
    → b < 2 ^ 64
    → mul_i64 a b ≡ some m
    → Congruent m (a * b) × (m < 2 ^ 64)
unfolding mul_i64
mul_i64-product a b m ha hb h =
    let q = both_wrapped a b (2 ^ 64 - a) (2 ^ 64 - b) (omega arith) (omega arith) in
    let qa = wrapped a (2 ^ 64 - a) b (omega arith) in
    let qb = wrapped b (2 ^ 64 - b) a (omega arith) in
    elim (Bool-cases (is_neg a)) [
      | inl na ↦ elim (Bool-cases (is_neg b)) [
        | inl nb ↦ let k = rw (na, nb) at h in ground arith
        | inr nb ↦ let k = rw (na, nb) at h in ground arith
      ]
      | inr na ↦ elim (Bool-cases (is_neg b)) [
        | inl nb ↦ let k = rw (na, nb) at h in ground arith
        | inr nb ↦ let k = rw (na, nb) at h in ground arith
      ]
    ]

module _ (env : ℕ → ℕ) where
  abbrev pub term_value : IndexTerm → ℕ
  term_value t = env t.index * t.scale

  unfoldable pub sum : List IndexTerm → ℕ
  sum [] = 0
  sum (t ∷ ts) = term_value t + sum ts

  set-sum :
      (ts : List IndexTerm) (i : ℕ) (t : IndexTerm)
      → i < length ts
      → sum (set ts i t) + term_value (get_or ts i no_term) ≡ sum ts + term_value t
  unfolding sum
  set-sum [] i t h = absurd (omega arith)
  set-sum (x ∷ xs) zero t h = omega arith
  set-sum (x ∷ xs) (suc i) t h = omega (arith, set-sum xs i t (omega arith))

  last-sum :
      (x : IndexTerm) (xs : List IndexTerm)
      → sum (take (length xs) (x ∷ xs)) + term_value (get_or (x ∷ xs) (length xs) no_term)
        ≡ sum (x ∷ xs)
  unfolding sum
  last-sum x [] = omega arith
  last-sum x (y ∷ ys) = omega (arith, last-sum y ys)

  pub push_back-sum :
      (ts : List IndexTerm) (t : IndexTerm) → sum (push_back ts t) ≡ sum ts + term_value t
  unfolding sum
  push_back-sum [] t = omega arith
  push_back-sum (x ∷ xs) t = omega (arith, push_back-sum xs t)

get_or-set_same :
    (ts : List IndexTerm) (i j : ℕ)
    → get_or (set ts i (get_or ts j no_term)) j no_term ≡ get_or ts j no_term
get_or-set_same [] i j = refl
get_or-set_same (x ∷ xs) zero zero = refl
get_or-set_same (x ∷ xs) zero (suc j) = refl
get_or-set_same (x ∷ xs) (suc i) zero = refl
get_or-set_same (x ∷ xs) (suc i) (suc j) = get_or-set_same xs i j

pub find_index-some :
    (ts : List IndexTerm) (v i : ℕ)
    → find_index ts v ≡ some i
    → ((get_or ts i no_term).index ≡ v) × (i < length ts)
unfolding find_index
find_index-some [] v i h = absurd (cc)
find_index-some (t ∷ ts) v i h = elim (Bool-cases (t.index == v)) [
  | inl here ↦
      let e = some_eq _ _ (rw here at h) in rw (← e) ((==_iff t.index v).0 here, omega arith)
  | inr later ↦ elim (Option-cases (find_index ts v)) [
    | inl none_left ↦ absurd (cc (rw (later, none_left) at h))
    | inr (j, found) ↦
        let e = some_eq _ _ (rw (later, found) at h) in
        let ih = find_index-some ts v j found in rw (← e) (ih.0, omega (arith, ih.1))
  ]
]

swap_remove-sum :
    (env : ℕ → ℕ) (ts : List IndexTerm) (i : ℕ)
    → i < length ts
    → sum env (swap_remove ts i) + term_value env (get_or ts i no_term) ≡ sum env ts
unfolding swap_remove
swap_remove-sum env [] i h = absurd (omega arith)
swap_remove-sum env (x ∷ xs) i h =
    let less : suc (length xs) - 1 ≡ length xs = omega arith in
    rw less (
      shorter (set (x ∷ xs) i top) (length-set (x ∷ xs) i top)
        (get_or-set_same (x ∷ xs) i (length xs)) (set-sum env (x ∷ xs) i top h))
  where
    top : IndexTerm
    top = get_or (x ∷ xs) (length xs) no_term

    shorter :
        (ys : List IndexTerm)
        → length ys ≡ suc (length xs)
        → get_or ys (length xs) no_term ≡ top
        → sum env ys + term_value env (get_or (x ∷ xs) i no_term)
          ≡ sum env (x ∷ xs) + term_value env top
        → sum env (take (length xs) ys) + term_value env (get_or (x ∷ xs) i no_term)
          ≡ sum env (x ∷ xs)
    shorter [] e f g = absurd (omega arith)
    shorter (y ∷ ys) e f g =
        let n : length ys ≡ length xs = omega arith in
        let l = last-sum env y ys in
        let l' = rw n at l in let l'' = rw f at l' in omega (arith, l'', g)

merge_term-sum :
    (env : ℕ → ℕ) (ts : List IndexTerm) (i v s : ℕ) (us : List IndexTerm)
    → (get_or ts i no_term).index ≡ v
    → i < length ts
    → merge_term ts i (add_i64 (get_or ts i no_term).scale s) ≡ some us
    → Congruent (sum env us) (sum env ts + env v * s)
unfolding merge_term
merge_term-sum env ts i v s us same h k =
    let old = get_or ts i no_term in
    let was = ap (λ m. env m * old.scale) same in
    elim (Option-cases (add_i64 old.scale s)) [
      | inl over ↦ absurd (cc (rw over at k))
      | inr (n, e) ↦
          let r = add_i64-sum old.scale s n e in
          let grown = Congruent-mul n (old.scale + s) (env v) r.0 in
          elim (Bool-cases (n == 0)) [
            | inl z ↦
                let u = some_eq _ _ (rw (e, z) at k) in
                let n0 = (==_iff n 0).0 z in
                let t = swap_remove-sum env ts i h in
                rw (← u) (omega (arith, t, was, grown, ap (λ (m : ℕ). m * env v) n0))
            | inr nz ↦
                let u = some_eq _ _ (rw (e, nz) at k) in
                let t = set-sum env ts i (record { index = old.index; scale = n }) h in
                rw (← u) (omega (arith, t, was, grown, ap (λ m. env m * n) same))
          ]
    ]

pub add_term-sum :
    (env : ℕ → ℕ) (ts : List IndexTerm) (v s : ℕ) (us : List IndexTerm)
    → add_term ts v s ≡ some us
    → Congruent (sum env us) (sum env ts + env v * s)
unfolding add_term
add_term-sum env ts v s us h = elim (Option-cases (find_index ts v)) [
  | inr (i, found) ↦
      let at_i = find_index-some ts v i found in
      merge_term-sum env ts i v s us at_i.0 at_i.1 (rw found at h)
  | inl absent ↦ elim (Bool-cases (s == 0)) [
    | inl z ↦
        let e = some_eq _ _ (rw (absent, z) at h) in
        let s0 = (==_iff s 0).0 z in rw (← e, s0) (omega arith)
    | inr nz ↦ elim (Bool-cases (length ts == max_terms)) [
      | inl full ↦ absurd (cc (rw (absent, nz, full) at h))
      | inr room ↦
          let e = some_eq _ _ (rw (absent, nz, room) at h) in
          rw (← e) (ap (λ n. n % 2 ^ 64) (push_back-sum env ts (record { index = v; scale = s })))
    ]
  ]
]
