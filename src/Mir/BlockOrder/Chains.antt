-- ===== src/Mir/BlockOrder/Chains.antt =====
-- The chains place every block once.
use foptim.Base.{
  ℕ, zero, suc, ◌+◌, ◌<◌, ◌≡◌, ◌≢◌, ◌⊎◌, refl, sym, ap, ◌∙◌, List, [], ◌∷◌, ◌++◌, true, false,
  arith, inl, inr, length, get_or, set, length-set, length-append, ℕ_discrete, dec_lt,
}
use foptim.Mir.BlockOrder.{Layout, is_placed, place}

module _ {A : Type 0} where
  pub get_or-pushed : (xs : List A) (x d : A) → get_or (xs ++ x ∷ []) (length xs) d ≡ x
  get_or-pushed [] x d = refl
  get_or-pushed (y ∷ ys) x d = get_or-pushed ys x d

  pub get_or-before :
      (xs : List A) (x d : A) (i : ℕ) → i < length xs → get_or (xs ++ x ∷ []) i d ≡ get_or xs i d
  get_or-before [] x d i h = absurd (omega arith)
  get_or-before (y ∷ ys) x d zero h = refl
  get_or-before (y ∷ ys) x d (suc i) h = get_or-before ys x d i (omega arith)

  pub get_or-set_self :
      (xs : List A) (i : ℕ) (v d : A) → i < length xs → get_or (set xs i v) i d ≡ v
  get_or-set_self [] i v d h = absurd (omega arith)
  get_or-set_self (x ∷ xs) zero v d h = refl
  get_or-set_self (x ∷ xs) (suc i) v d h = get_or-set_self xs i v d (omega arith)

  pub get_or-set_ne :
      (xs : List A) (i j : ℕ) (v d : A) → j ≢ i → get_or (set xs i v) j d ≡ get_or xs j d
  get_or-set_ne [] i j v d h = refl
  get_or-set_ne (x ∷ xs) zero zero v d h = absurd (h refl)
  get_or-set_ne (x ∷ xs) zero (suc j) v d h = refl
  get_or-set_ne (x ∷ xs) (suc i) zero v d h = refl
  get_or-set_ne (x ∷ xs) (suc i) (suc j) v d h = get_or-set_ne xs i j v d (λ e. h (ap suc e))

abbrev pub at_order : List ℕ → ℕ → ℕ
at_order order i = get_or order i 0

-- No block twice.
abbrev pub IsInjective : List ℕ → Type 0
IsInjective order =
    (i j : ℕ) → i < length order → j < length order → at_order order i ≡ at_order order j → i ≡ j

-- The order holds the placed blocks, each once.
pub record IsLayout (n : ℕ) (st : Layout) : Type 0 where
  pub count : length st.placed ≡ n
  pub inside :
      (i : ℕ)
      → i < length st.order
      → (at_order st.order i < n) × (is_placed st (at_order st.order i) ≡ true)
  pub once : IsInjective st.order
  pub found :
      (b : ℕ) → is_placed st b ≡ true → (i : ℕ) × (i < length st.order) × (at_order st.order i ≡ b)

pub place-IsLayout :
    (n b : ℕ) (st : Layout)
    → IsLayout n st
    → b < n
    → is_placed st b ≡ false
    → IsLayout n (place st b)
place-IsLayout n b st h hb free = record {
  count = length-set st.placed b true ∙ h.count;
  inside = inside;
  once = once;
  found = found;
}
  where
    now : List ℕ
    now = st.order ++ b ∷ []

    size : length now ≡ length st.order + 1
    size = length-append {0} st.order (b ∷ [])

    old : (i : ℕ) → i < length st.order → at_order now i ≡ at_order st.order i
    old i hi = get_or-before st.order b 0 i hi

    newest :
        (i : ℕ)
        → i < length now
        → (i < length st.order) ⊎ ((i ≡ length st.order) × (at_order now i ≡ b))
    newest i hi = elim (dec_lt i (length st.order)) [
      | yes p ↦ inl p
      | no p ↦
          let e : i ≡ length st.order = omega (arith, hi, size) in
          inr (e, ap (at_order now) e ∙ get_or-pushed st.order b 0)
    ]

    kept : (c : ℕ) → is_placed st c ≡ true → is_placed (place st b) c ≡ true
    kept c hc =
        get_or-set_ne st.placed b c true false (λ e. cc (free, hc, ap (is_placed st) e)) ∙ hc

    marked : is_placed (place st b) b ≡ true
    marked = get_or-set_self st.placed b true false (omega (arith, hb, h.count))

    inside :
        (i : ℕ)
        → i < length now
        → (at_order now i < n) × (is_placed (place st b) (at_order now i) ≡ true)
    inside i hi = elim (newest i hi) [
      | inl p ↦ rw (old i p) ((h.inside i p).0, kept (at_order st.order i) (h.inside i p).1)
      | inr p ↦ rw p.1 (hb, marked)
    ]

    apart : (i : ℕ) → i < length st.order → at_order now i ≢ b
    apart i hi e = cc (free, (h.inside i hi).1, ap (is_placed st) (sym (old i hi) ∙ e))

    once : IsInjective now
    once i j hi hj e = elim (newest i hi) [
      | inl p ↦ elim (newest j hj) [
        | inl q ↦ h.once i j p q (sym (old i p) ∙ e ∙ old j q)
        | inr q ↦ absurd (apart i p (e ∙ q.1))
      ]
      | inr p ↦ elim (newest j hj) [
        | inl q ↦ absurd (apart j q (sym e ∙ p.1))
        | inr q ↦ p.0 ∙ sym q.0
      ]
    ]

    found :
        (c : ℕ)
        → is_placed (place st b) c ≡ true
        → (i : ℕ) × (i < length now) × (at_order now i ≡ c)
    found c hc = elim (ℕ_discrete c b) [
      | yes e ↦ (length st.order, omega (arith, size), get_or-pushed st.order b 0 ∙ sym e)
      | no ne ↦
          let (i, hi, ei) = h.found c (sym (get_or-set_ne st.placed b c true false ne) ∙ hc) in
          (i, omega (arith, hi, size), old i hi ∙ ei)
    ]
