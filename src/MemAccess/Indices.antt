-- ===== src/MemAccess/Indices.antt =====
-- `linearize` keeps the value of the index, modulo 2 ^ 64.
use foptim.Base.{
  ℕ, zero, suc, ◌+◌, ◌-◌, ◌*◌, ◌%◌, ◌^◌, ◌<◌, ◌≡◌, refl, Bool, true, false, Option, some, arith,
  ltb, ◌==◌, Bool-cases, Option-cases, some_eq, inl, inr, u64,
}
use foptim.Base.Options.{bind-some}
use foptim.Base.Powers.{pow_mono}
use foptim.MemAccess.{
  Op, int_add, int_sub, int_mul, shl, ptr_add, other_op, Node, constant, instr, leaf, Values,
  Linear, add_i64, mul_i64, const_i64, fits_i64, add_constant, add_opaque, add_term, scaled,
  shifted, look_through, at_instr, linearize, index_linear, empty_linear, max_linear_depth,
}
use foptim.MemAccess.Terms.{
  Congruent, Congruent-mul, add_i64-sum, mul_i64-product, sum, add_term-sum,
}

-- What the instructions compute: `env` is the 64 bits that each value has. Nothing is said of
-- other instructions, nor of arithmetic on narrower types.
pub record Computes (g : Values) (env : ℕ → ℕ) : Type 0 where
  pub constants : (v c : ℕ) → g v ≡ constant c → fits_i64 c ≡ true → Congruent (env v) c
  pub adds : (v a b : ℕ) → g v ≡ instr int_add true a b → Congruent (env v) (env a + env b)
  pub subs : (v a b : ℕ) → g v ≡ instr int_sub true a b → Congruent (env v + env b) (env a)
  pub muls : (v a b : ℕ) → g v ≡ instr int_mul true a b → Congruent (env v) (env a * env b)
  pub shifts :
      (v a b : ℕ)
      → g v ≡ instr shl true a b
      → env b % 2 ^ 64 < 64
      → Congruent (env v) (env a * 2 ^ (env b % 2 ^ 64))
  pub ptr_adds :
      (v a b : ℕ) (is_i64 : Bool)
      → g v ≡ instr ptr_add is_i64 a b
      → Congruent (env v) (env a + env b)

module _ (g : Values) (env : ℕ → ℕ) (computes : Computes g env) where
  abbrev pub linear_value : Linear → ℕ
  linear_value lin = lin.offset + sum env lin.terms

  -- `go` adds `mult * v` to what it has collected.
  abbrev Collects : (ℕ → ℕ → Linear → Option Linear) → Type 0
  Collects go =
      (v mult : ℕ) (lin out : Linear)
      → mult < 2 ^ 64
      → go v mult lin ≡ some out
      → Congruent (linear_value out) (linear_value lin + env v * mult)

  const_i64-value : (v c : ℕ) → const_i64 (g v) ≡ some c → Congruent (env v) c × (c < 2 ^ 64)
  unfolding const_i64
  const_i64-value v c h = elim_node (g v) refl h
    where
      elim_node : (n : Node) → g v ≡ n → const_i64 n ≡ some c → Congruent (env v) c × (c < 2 ^ 64)
      elim_node (constant k) e q = elim (Bool-cases (fits_i64 k)) [
        | inl fits ↦
            let same = some_eq _ _ (rw fits at q) in
            let is_k = computes.constants v k e fits in omega (arith, same, is_k)
        | inr wide ↦ absurd (cc (rw wide at q))
      ]
      elim_node (instr op w a b) e q = absurd (cc)
      elim_node leaf e q = absurd (cc)

  add_constant-Collects :
      (v c mult : ℕ) (lin out : Linear)
      → Congruent (env v) c
      → c < 2 ^ 64
      → mult < 2 ^ 64
      → add_constant c mult lin ≡ some out
      → Congruent (linear_value out) (linear_value lin + env v * mult)
  unfolding add_constant
  add_constant-Collects v c mult lin out hv hc hm h =
      let (m, em, h') = bind-some (mul_i64 c mult) _ out h in
      let (o, eo, h'') = bind-some (add_i64 lin.offset m) _ out h' in
      let p = mul_i64-product c mult m hc hm em in
      let s = add_i64-sum lin.offset m o eo in
      let same = Congruent-mul (env v) c mult hv in
      rw (← some_eq _ _ h'') (omega (arith, p.0, s.0, same))

  add_opaque-Collects : Collects add_opaque
  unfolding add_opaque
  add_opaque-Collects v mult lin out hm h =
      let (ts, et, h') = bind-some (add_term lin.terms v mult) _ out h in
      let t = add_term-sum env lin.terms v mult ts et in rw (← some_eq _ _ h') (omega (arith, t))

  scaled-value :
      (a mult m : ℕ)
      → mult < 2 ^ 64
      → scaled (const_i64 (g a)) mult ≡ some m
      → Congruent m (env a * mult) × (m < 2 ^ 64)
  unfolding scaled
  scaled-value a mult m hm h = elim (Option-cases (const_i64 (g a))) [
    | inl missing ↦ absurd (cc (rw missing at h))
    | inr (c, e) ↦
        let k = const_i64-value a c e in
        let p = mul_i64-product c mult m k.1 hm (rw e at h) in
        (omega (arith, p.0, Congruent-mul (env a) c mult k.0), p.1)
  ]

  shifted-value :
      (b mult m : ℕ)
      → mult < 2 ^ 64
      → shifted (const_i64 (g b)) mult ≡ some m
      → Congruent m (2 ^ (env b % 2 ^ 64) * mult) × (m < 2 ^ 64) × (env b % 2 ^ 64 < 64)
  unfolding shifted
  shifted-value b mult m hm h = elim (Option-cases (const_i64 (g b))) [
    | inl missing ↦ absurd (cc (rw missing at h))
    | inr (c, e) ↦
        let k = const_i64-value b c e in
        let same : env b % 2 ^ 64 ≡ c = omega (arith, k) in
        elim (Bool-cases (ltb c 62)) [
          | inl small ↦
              let less : c < 62 = ground arith in
              let bound = pow_mono c 62 (omega arith) in
              let p =
                mul_i64-product (2 ^ c) mult m (omega (arith, bound)) hm (rw (e, small) at h) in
              rw same (p.0, p.1, omega arith)
          | inr large ↦ absurd (cc (rw (e, large) at h))
        ]
  ]

  -- The cases of `look_through`, each with what its instruction computes.
  look_through-Collects :
      (go : ℕ → ℕ → Linear → Option Linear)
      → Collects go
      → (v : ℕ) (op : Op) (a b mult : ℕ) (lin out : Linear) → g v ≡ instr op true a b
      → mult < 2 ^ 64
      → look_through g go v op a b mult lin ≡ some out
      → Congruent (linear_value out) (linear_value lin + env v * mult)
  unfolding look_through
  look_through-Collects go ih v int_add a b mult lin out e hm h =
      let (mid, em, h') = bind-some (go a mult lin) _ out h in
      let l = ih a mult lin mid hm em in
      let r = ih b mult mid out hm h' in
      omega (arith, l, r, Congruent-mul (env v) (env a + env b) mult (computes.adds v a b e))
  look_through-Collects go ih v int_sub a b mult lin out e hm h =
      elim (Bool-cases (mult == 2 ^ 63)) [
        | inl low ↦ add_opaque-Collects v mult lin out hm (rw low at h)
        | inr ok ↦
            let (mid, em, h') = bind-some (go a mult lin) _ out (rw ok at h) in
            let l = ih a mult lin mid hm em in
            let minus = u64 (2 ^ 64 - mult) in
            let r = ih b minus mid out (omega arith) h' in
            let cancel = Congruent-mul (minus + mult) 0 (env b) (omega arith) in
            omega (
              arith,
              l,
              r,
              cancel,
              Congruent-mul (env v + env b) (env a) mult (computes.subs v a b e),
            )
      ]
  look_through-Collects go ih v int_mul a b mult lin out e hm h =
      elim (Option-cases (scaled (const_i64 (g a)) mult)) [
        | inr (m, em) ↦
            let s = scaled-value a mult m hm em in
            let r = ih b m lin out s.1 (rw em at h) in
            omega (
              arith,
              r,
              Congruent-mul m (env a * mult) (env b) s.0,
              Congruent-mul (env v) (env a * env b) mult (computes.muls v a b e),
            )
        | inl first ↦ elim (Option-cases (scaled (const_i64 (g b)) mult)) [
          | inr (m, em) ↦
              let s = scaled-value b mult m hm em in
              let r = ih a m lin out s.1 (rw (first, em) at h) in
              omega (
                arith,
                r,
                Congruent-mul m (env b * mult) (env a) s.0,
                Congruent-mul (env v) (env a * env b) mult (computes.muls v a b e),
              )
          | inl second ↦ add_opaque-Collects v mult lin out hm (rw (first, second) at h)
        ]
      ]
  look_through-Collects go ih v shl a b mult lin out e hm h =
      elim (Option-cases (shifted (const_i64 (g b)) mult)) [
        | inr (m, em) ↦
            let s = shifted-value b mult m hm em in
            let r = ih a m lin out s.1 (rw em at h) in
            let k : ℕ = 2 ^ (env b % 2 ^ 64) in
            let v-eq = computes.shifts v a b e s.2 in
            omega (
              arith,
              r,
              Congruent-mul m (k * mult) (env a) s.0,
              Congruent-mul (env v) (env a * k) mult v-eq,
            )
        | inl missing ↦ add_opaque-Collects v mult lin out hm (rw missing at h)
      ]
  look_through-Collects go ih v ptr_add a b mult lin out e hm h =
      add_opaque-Collects v mult lin out hm h
  look_through-Collects go ih v other_op a b mult lin out e hm h =
      add_opaque-Collects v mult lin out hm h

  at_instr-Collects :
      (go : ℕ → ℕ → Linear → Option Linear)
      → Collects go
      → (v : ℕ) (n : Node) (mult : ℕ) (lin out : Linear) → g v ≡ n
      → mult < 2 ^ 64
      → at_instr g go v n mult lin ≡ some out
      → Congruent (linear_value out) (linear_value lin + env v * mult)
  at_instr-Collects go ih v (constant c) mult lin out e hm h =
      add_opaque-Collects v mult lin out hm h
  at_instr-Collects go ih v (instr op true a b) mult lin out e hm h =
      look_through-Collects go ih v op a b mult lin out e hm h
  at_instr-Collects go ih v (instr op false a b) mult lin out e hm h =
      add_opaque-Collects v mult lin out hm h
  at_instr-Collects go ih v leaf mult lin out e hm h = add_opaque-Collects v mult lin out hm h

  pub linearize-Collects : (depth : ℕ) → Collects (linearize g depth)
  unfolding linearize
  linearize-Collects zero v mult lin out hm h = elim (Option-cases (const_i64 (g v))) [
    | inr (c, e) ↦
        let k = const_i64-value v c e in
        add_constant-Collects v c mult lin out k.0 k.1 hm (rw e at h)
    | inl missing ↦ add_opaque-Collects v mult lin out hm (rw missing at h)
  ]
  linearize-Collects (suc depth) v mult lin out hm h = elim (Option-cases (const_i64 (g v))) [
    | inr (c, e) ↦
        let k = const_i64-value v c e in
        add_constant-Collects v c mult lin out k.0 k.1 hm (rw e at h)
    | inl missing ↦
        at_instr-Collects (linearize g depth) (linearize-Collects depth) v (g v) mult lin out refl
          hm (rw missing at h)
  ]

  -- Whatever the index operand linearizes to is its value.
  pub index_linear-value :
      (v : ℕ) (lin : Linear) → index_linear g v ≡ some lin → Congruent (linear_value lin) (env v)
  unfolding index_linear sum
  index_linear-value v lin h = elim (Option-cases (linearize g max_linear_depth v 1 empty_linear)) [
    | inr (found, e) ↦
        let r = linearize-Collects max_linear_depth v 1 empty_linear found (omega arith) e in
        let same = some_eq _ _ (rw e at h) in rw (← same) (omega (arith, r))
    | inl missing ↦
        let r = add_opaque-Collects v 1 empty_linear lin (omega arith) (rw missing at h) in
        omega (arith, r)
  ]
