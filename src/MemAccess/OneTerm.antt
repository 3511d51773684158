-- ===== src/MemAccess/OneTerm.antt =====
-- An address has one term per index, which makes `same_terms` exact.
use foptim.Base.{
  ℕ, zero, suc, ◌-◌, ◌<◌, ◌≡◌, ◌≢◌, refl, sym, ap, ◌∙◌, subst, List, [], ◌∷◌, length, get_or, set,
  take, false, none, some, arith, ◌==◌, if◌then◌else◌, Bool-cases, Option-cases, some_eq, inl, inr,
  ==_iff, length-set, length-take, ℕ_discrete, dec_lt,
}
use foptim.Base.Options.{bind-some}
use foptim.MemAccess.{
  IndexTerm, no_term, max_terms, push_back, find_index, swap_remove, merge_term, place_term,
  add_term, add_terms, add_i64,
}
use foptim.MemAccess.Terms.{find_index-some}

abbrev pub index_at : List IndexTerm → ℕ → ℕ
index_at ts i = (get_or ts i no_term).index

unfoldable pub IsDistinct : List IndexTerm → Type 0
IsDistinct ts = (i j : ℕ) → i < length ts → j < length ts → index_at ts i ≡ index_at ts j → i ≡ j

-- The list `us` has the indices that `ts` has at the distinct places `place k`.
from_places :
    (ts us : List IndexTerm) (place : ℕ → ℕ)
    → ((k : ℕ) → k < length us → (place k < length ts) × (index_at us k ≡ index_at ts (place k)))
    → ((i j : ℕ) → i < length us → j < length us → place i ≡ place j → i ≡ j)
    → IsDistinct ts
    → IsDistinct us
unfolding IsDistinct
from_places ts us place h inj d i j hi hj e =
    inj i j hi hj (d (place i) (place j) (h i hi).0 (h j hj).0 (sym (h i hi).1 ∙ e ∙ (h j hj).1))

index_at-set_self :
    (ts : List IndexTerm) (i : ℕ) (t : IndexTerm)
    → i < length ts
    → index_at (set ts i t) i ≡ t.index
index_at-set_self [] i t h = absurd (omega arith)
index_at-set_self (x ∷ xs) zero t h = refl
index_at-set_self (x ∷ xs) (suc i) t h = index_at-set_self xs i t (omega arith)

index_at-set_ne :
    (ts : List IndexTerm) (i k : ℕ) (t : IndexTerm)
    → k ≢ i
    → index_at (set ts i t) k ≡ index_at ts k
index_at-set_ne [] i k t h = refl
index_at-set_ne (x ∷ xs) zero zero t h = absurd (h refl)
index_at-set_ne (x ∷ xs) zero (suc k) t h = refl
index_at-set_ne (x ∷ xs) (suc i) zero t h = refl
index_at-set_ne (x ∷ xs) (suc i) (suc k) t h = index_at-set_ne xs i k t (λ e. h (ap suc e))

index_at-take : (n k : ℕ) (ts : List IndexTerm) → k < n → index_at (take n ts) k ≡ index_at ts k
index_at-take zero k ts h = absurd (omega arith)
index_at-take (suc n) k [] h = refl
index_at-take (suc n) zero (x ∷ xs) h = refl
index_at-take (suc n) (suc k) (x ∷ xs) h = index_at-take n k xs (omega arith)

index_at-push_back :
    (ts : List IndexTerm) (t : IndexTerm) (k : ℕ)
    → k < length ts
    → index_at (push_back ts t) k ≡ index_at ts k
index_at-push_back [] t k h = absurd (omega arith)
index_at-push_back (x ∷ xs) t zero h = refl
index_at-push_back (x ∷ xs) t (suc k) h = index_at-push_back xs t k (omega arith)

index_at-pushed :
    (ts : List IndexTerm) (t : IndexTerm) → index_at (push_back ts t) (length ts) ≡ t.index
index_at-pushed [] t = refl
index_at-pushed (x ∷ xs) t = index_at-pushed xs t

length-push_back : (ts : List IndexTerm) (t : IndexTerm) → length (push_back ts t) ≡ suc (length ts)
length-push_back [] t = refl
length-push_back (x ∷ xs) t = ap suc (length-push_back xs t)

find_index-none :
    (ts : List IndexTerm) (v k : ℕ) → find_index ts v ≡ none → k < length ts → index_at ts k ≢ v
unfolding find_index
find_index-none [] v k h hk e = absurd (omega arith)
find_index-none (t ∷ ts) v k h hk e = elim (Bool-cases (t.index == v)) [
  | inl here ↦ absurd (cc (rw here at h))
  | inr later ↦ elim (Option-cases (find_index ts v)) [
    | inr (j, found) ↦ absurd (cc (rw (later, found) at h))
    | inl missing ↦ behind (λ n hn q. find_index-none ts v n missing hn q) later k hk e
  ]
]
  where
    behind :
        ((n : ℕ) → n < length ts → index_at ts n ≢ v)
        → (t.index == v) ≡ false
        → (n : ℕ) → n < suc (length ts)
        → index_at (t ∷ ts) n ≢ v
    behind rec l zero hn q = absurd (cc (l, (==_iff t.index v).1 q))
    behind rec l (suc n) hn q = rec n (omega arith) q

same_indices-IsDistinct :
    (ts : List IndexTerm) (i s : ℕ)
    → i < length ts
    → IsDistinct ts
    → IsDistinct (set ts i (record { index = index_at ts i; scale = s }))
same_indices-IsDistinct ts i s h d =
    let t : IndexTerm = record { index = index_at ts i; scale = s } in
    from_places ts (set ts i t) (λ k. k)
      (λ k hk. (
        omega (arith, hk, length-set ts i t),
        elim (ℕ_discrete k i) [
          | yes e ↦
              ap (λ n. index_at (set ts i t) n) e
              ∙ index_at-set_self ts i t h
              ∙ ap (index_at ts) (sym e)
          | no ne ↦ index_at-set_ne ts i k t ne
        ],
      ))
      (λ a b ha hb e. e) d

swap_remove-IsDistinct :
    (ts : List IndexTerm) (i : ℕ) → i < length ts → IsDistinct ts → IsDistinct (swap_remove ts i)
unfolding swap_remove
swap_remove-IsDistinct ts i h d =
    from_places ts (take last moved) place
      (λ k hk. (in_range k (small k hk), index_at-take last k moved (small k hk) ∙ from k))
      (λ a b ha hb e. injective a b (small a ha) (small b hb) e) d
  where
    last : ℕ
    last = length ts - 1

    moved : List IndexTerm
    moved = set ts i (get_or ts last no_term)

    place : ℕ → ℕ
    place k = if k == i then last else k

    small : (k : ℕ) → k < length (take last moved) → k < last
    small k hk = omega (arith, hk, length-take last moved)

    in_range : (k : ℕ) → k < last → place k < length ts
    in_range k hk = ground arith

    injective : (a b : ℕ) → a < last → b < last → place a ≡ place b → a ≡ b
    injective a b ha hb e = ground arith

    from : (k : ℕ) → index_at moved k ≡ index_at ts (place k)
    from k = elim (Bool-cases (k == i)) [
      | inl same ↦
          let e = (==_iff k i).0 same in
          rw same (ap (index_at moved) e ∙ index_at-set_self ts i (get_or ts last no_term) h)
      | inr other ↦
          rw other
            (index_at-set_ne ts i k (get_or ts last no_term) (λ e. cc (other, (==_iff k i).1 e)))
    ]

push_back-IsDistinct :
    (ts : List IndexTerm) (t : IndexTerm)
    → find_index ts t.index ≡ none
    → IsDistinct ts
    → IsDistinct (push_back ts t)
unfolding IsDistinct
push_back-IsDistinct ts t h d i j hi hj e = elim (dec_lt i (length ts)) [
  | yes p ↦ elim (dec_lt j (length ts)) [
    | yes q ↦ d i j p q (sym (index_at-push_back ts t i p) ∙ e ∙ index_at-push_back ts t j q)
    | no q ↦ absurd (clash i j p (omega (arith, q, hj, n)) e)
  ]
  | no p ↦ elim (dec_lt j (length ts)) [
    | yes q ↦ absurd (clash j i q (omega (arith, p, hi, n)) (sym e))
    | no q ↦ omega (arith, p, q, hi, hj, n)
  ]
]
  where
    n : length (push_back ts t) ≡ suc (length ts)
    n = length-push_back ts t

    clash :
        (k l : ℕ)
        → k < length ts
        → l ≡ length ts
        → index_at (push_back ts t) k ≢ index_at (push_back ts t) l
    clash k l hk hl q = find_index-none ts t.index k h hk (
        sym (index_at-push_back ts t k hk)
        ∙ q
        ∙ ap (index_at (push_back ts t)) hl
        ∙ index_at-pushed ts t)

add_term-IsDistinct :
    (ts : List IndexTerm) (v s : ℕ) (us : List IndexTerm)
    → IsDistinct ts
    → add_term ts v s ≡ some us
    → IsDistinct us
unfolding add_term place_term merge_term
add_term-IsDistinct ts v s us d h = elim (Option-cases (find_index ts v)) [
  | inr (i, found) ↦ merged i (find_index-some ts v i found).1 (rw found at h)
  | inl absent ↦ elim (Bool-cases (s == 0)) [
    | inl z ↦ subst IsDistinct (some_eq _ _ (rw (absent, z) at h)) d
    | inr nz ↦ elim (Bool-cases (length ts == max_terms)) [
      | inl full ↦ absurd (cc (rw (absent, nz, full) at h))
      | inr room ↦
          subst IsDistinct (some_eq _ _ (rw (absent, nz, room) at h))
            (push_back-IsDistinct ts (record { index = v; scale = s }) absent d)
    ]
  ]
]
  where
    merged :
        (i : ℕ)
        → i < length ts
        → merge_term ts i (add_i64 (get_or ts i no_term).scale s) ≡ some us
        → IsDistinct us
    merged i hi k = elim (Option-cases (add_i64 (get_or ts i no_term).scale s)) [
      | inl over ↦ absurd (cc (rw over at k))
      | inr (n, e) ↦ elim (Bool-cases (n == 0)) [
        | inl z ↦ subst IsDistinct (some_eq _ _ (rw (e, z) at k)) (swap_remove-IsDistinct ts i hi d)
        | inr nz ↦
            subst IsDistinct (some_eq _ _ (rw (e, nz) at k)) (same_indices-IsDistinct ts i n hi d)
      ]
    ]

pub add_terms-IsDistinct :
    (ts xs us : List IndexTerm) → IsDistinct ts → add_terms ts xs ≡ some us → IsDistinct us
unfolding add_terms
add_terms-IsDistinct ts [] us d h = subst IsDistinct (some_eq _ _ h) d
add_terms-IsDistinct ts (x ∷ xs) us d h =
    let (mid, em, h') = bind-some (add_term ts x.index x.scale) _ us h in
    add_terms-IsDistinct mid xs us (add_term-IsDistinct ts x.index x.scale mid d em) h'

pub empty-IsDistinct : IsDistinct []
unfolding IsDistinct
empty-IsDistinct i j hi hj e = absurd (omega arith)
