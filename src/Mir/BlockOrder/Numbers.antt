-- ===== src/Mir/BlockOrder/Numbers.antt =====
-- `new_id` is the position of a block in the order.
use foptim.Base.{
  ℕ, zero, suc, ◌+◌, ◌<◌, ◌≡◌, ◌≢◌, refl, sym, ◌∙◌, List, [], ◌∷◌, false, arith, length, get_or,
  set, replicate, length-set, length-replicate, map,
}
use foptim.Mir.BlockOrder.{number_from, new_ids, is_changed}
use foptim.Mir.BlockOrder.Chains.{IsInjective, at_order, get_or-set_self, get_or-set_ne}

number_from-other :
    (i : ℕ) (bs ids : List ℕ) (c : ℕ)
    → ((k : ℕ) → k < length bs → at_order bs k ≢ c)
    → get_or (number_from i bs ids) c 0 ≡ get_or ids c 0
unfolding number_from
number_from-other i [] ids c h = refl
number_from-other i (b ∷ bs) ids c h =
    number_from-other (suc i) bs (set ids b i) c (λ k hk. h (suc k) (omega arith))
    ∙ get_or-set_ne ids b c i 0 (λ e. h 0 (omega arith) (sym e))

number_from-position :
    (i : ℕ) (bs ids : List ℕ) (k : ℕ)
    → IsInjective bs
    → ((j : ℕ) → j < length bs → at_order bs j < length ids)
    → k < length bs
    → get_or (number_from i bs ids) (at_order bs k) 0 ≡ i + k
unfolding number_from
number_from-position i [] ids k inj inside h = absurd (omega arith)
number_from-position i (b ∷ bs) ids zero inj inside h =
    let alone : (j : ℕ) → j < length bs → at_order bs j ≢ b =
      λ j hj e. absurd (let z = inj (suc j) 0 (omega arith) (omega arith) e in omega arith) in
    let here = get_or-set_self ids b i 0 (inside 0 (omega arith)) in
    number_from-other (suc i) bs (set ids b i) b alone ∙ here ∙ omega arith
number_from-position i (b ∷ bs) ids (suc k) inj inside h =
    let ih =
      number_from-position (suc i) bs (set ids b i) k
        (λ j l hj hl e. let z = inj (suc j) (suc l) (omega arith) (omega arith) e in omega arith)
        (λ j hj. omega (arith, inside (suc j) (omega arith), length-set ids b i)) (omega arith) in
    omega (arith, ih)

-- The number of the block at position `k` is `k`.
pub new_ids-position :
    (n : ℕ) (order : List ℕ) (k : ℕ)
    → IsInjective order
    → ((j : ℕ) → j < length order → at_order order j < n)
    → k < length order
    → get_or (new_ids n order) (at_order order k) 0 ≡ k
unfolding new_ids
new_ids-position n order k inj inside h =
    let r =
      number_from-position 0 order (replicate n 0) k inj
        (λ j hj. omega (arith, inside j hj, length-replicate {A = ℕ} n 0)) h in
    omega (arith, r)

-- Without a change every block is at its own position.
pub unchanged-position :
    (i : ℕ) (bs : List ℕ) (k : ℕ) → is_changed i bs ≡ false → k < length bs → at_order bs k ≡ i + k
unfolding is_changed
unchanged-position i [] k h hk = absurd (omega arith)
unchanged-position i (b ∷ bs) zero h hk = ground arith
unchanged-position i (b ∷ bs) (suc k) h hk =
    let rest : is_changed (suc i) bs ≡ false = ground arith in
    omega (arith, unchanged-position (suc i) bs k rest (omega arith))

pub get_or-map :
    {A B : Type 0} (f : A → B) (xs : List A) (k : ℕ) (a : A) (b : B)
    → k < length xs
    → get_or (map f xs) k b ≡ f (get_or xs k a)
get_or-map f [] k a b h = absurd (omega arith)
get_or-map f (x ∷ xs) zero a b h = refl
get_or-map f (x ∷ xs) (suc k) a b h = get_or-map f xs k a b (omega arith)
