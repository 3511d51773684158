-- ===== src/MemAccess/SameTerms.antt =====
-- `same_terms` finds terms with the same sum.
use foptim.Base.{
  ℕ, suc, ◌+◌, ◌<◌, ◌≡◌, ◌≢◌, refl, sym, ap, ◌∙◌, List, [], ◌∷◌, length, true, arith, if◌then◌else◌,
  Bool-cases, inl, inr, ==_iff, &&-eq-true,
}
use foptim.MemAccess.{IndexTerm, same_term, has_term, all_found}
use foptim.MemAccess.Terms.{sum, term_value}
use foptim.MemAccess.OneTerm.{IsDistinct, index_at}

erase : List IndexTerm → IndexTerm → List IndexTerm
erase [] t = []
erase (x ∷ xs) t = if same_term t x then xs else x ∷ erase xs t

same_term-parts :
    (t x : IndexTerm) → same_term t x ≡ true → (t.index ≡ x.index) × (t.scale ≡ x.scale)
unfolding same_term
same_term-parts t x h =
    let both = &&-eq-true _ _ h in
    ((==_iff t.index x.index).0 both.0, (==_iff t.scale x.scale).0 both.1)

erase-sum :
    (env : ℕ → ℕ) (ys : List IndexTerm) (t : IndexTerm)
    → has_term ys t ≡ true
    → (sum env ys ≡ term_value env t + sum env (erase ys t))
      × (length ys ≡ suc (length (erase ys t)))
unfolding has_term sum erase
erase-sum env [] t h = absurd (cc)
erase-sum env (y ∷ ys) t h = elim (Bool-cases (same_term t y)) [
  | inl here ↦
      let same = same_term-parts t y here in
      let value : term_value env y ≡ term_value env t = rw (same.0, same.1) in
      rw here (omega (arith, value), refl)
  | inr there ↦
      let ih = erase-sum env ys t (rw there at h) in rw there (omega (arith, ih.0), ap suc ih.1)
]

same_index : (t x : IndexTerm) → same_term t x ≡ true → t.index ≡ x.index
same_index t x h = (same_term-parts t x h).0

-- Another term is still found when `t` is gone.
erase-has_term :
    (ys : List IndexTerm) (t x : IndexTerm)
    → x.index ≢ t.index
    → has_term ys x ≡ true
    → has_term (erase ys t) x ≡ true
unfolding has_term erase
erase-has_term [] t x ne h = h
erase-has_term (y ∷ ys) t x ne h = elim (Bool-cases (same_term t y)) [
  | inl here ↦ elim (Bool-cases (same_term x y)) [
    | inl both ↦ absurd (ne (same_index x y both ∙ sym (same_index t y here)))
    | inr apart ↦ rw here (rw apart at h)
  ]
  | inr there ↦ elim (Bool-cases (same_term x y)) [
    | inl found ↦ rw (there, found) refl
    | inr apart ↦ rw (there, apart) (erase-has_term ys t x ne (rw apart at h))
  ]
]

erase-all_found :
    (xs ys : List IndexTerm) (t : IndexTerm)
    → ((k : ℕ) → k < length xs → index_at xs k ≢ t.index)
    → all_found xs ys ≡ true
    → all_found xs (erase ys t) ≡ true
unfolding all_found
erase-all_found [] ys t ne h = refl
erase-all_found (x ∷ xs) ys t ne h =
    let both = &&-eq-true (has_term ys x) _ h in
    rw
      (
        erase-has_term ys t x (ne 0 (omega arith)) both.0,
        erase-all_found xs ys t (λ k hk. ne (suc k) (omega arith)) both.1,
      )
      refl

-- Distinct terms that are all found in a list as long have its sum.
pub all_found-sum :
    (env : ℕ → ℕ) (xs ys : List IndexTerm)
    → IsDistinct xs
    → length xs ≡ length ys
    → all_found xs ys ≡ true
    → sum env xs ≡ sum env ys
unfolding all_found sum IsDistinct
all_found-sum env [] [] d e h = refl
all_found-sum env [] (y ∷ ys) d e h = absurd (omega arith)
all_found-sum env (x ∷ xs) ys d e h =
    let both = &&-eq-true (has_term ys x) _ h in
    let gone = erase-sum env ys x both.0 in
    let apart : (k : ℕ) → k < length xs → index_at xs k ≢ x.index =
      λ k hk q. absurd (let z = d (suc k) 0 (omega arith) (omega arith) q in omega arith) in
    let rest : sum env xs ≡ sum env (erase ys x) =
      all_found-sum env xs (erase ys x)
        (λ i j hi hj q. let z = d (suc i) (suc j) (omega arith) (omega arith) q in omega arith)
        (omega (arith, gone.1, e)) (erase-all_found xs ys x apart both.1) in
    omega (arith, gone.0, rest)
