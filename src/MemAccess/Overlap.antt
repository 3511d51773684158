-- ===== src/MemAccess/Overlap.antt =====
-- `overlaps` is exact on what `decompose_ptr` finds.
use foptim.Base.{
  ℕ, ◌+◌, ◌-◌, ◌^◌, ◌≤◌, ◌<◌, ◌≡◌, ◌↔◌, ap, length, Bool, true, ◌&&◌, some, arith, ◌==◌, ltb, leb,
  Bool-cases, inl, inr, ==_iff, &&-eq-true, some_eq,
}
use foptim.MemAccess.{
  Values, PtrShape, MemLoc, same_terms, same_base, overlaps, decompose_ptr, biased,
}
use foptim.MemAccess.Terms.{Congruent, sum}
use foptim.MemAccess.Indices.{Computes}
use foptim.MemAccess.SameTerms.{all_found-sum}
use foptim.MemAccess.Shape.{Describes, decompose_ptr-Describes}

same_base-parts :
    (env : ℕ → ℕ) (a b : ℕ) (s o : PtrShape)
    → Describes env a s
    → Describes env b o
    → same_base s o ≡ true
    → (s.base ≡ o.base) × (sum env s.terms ≡ sum env o.terms)
unfolding same_base same_terms
same_base-parts env a b s o hs ho h =
    let both = &&-eq-true (s.base == o.base) _ h in
    let terms = &&-eq-true (length s.terms == length o.terms) _ both.1 in
    (
      (==_iff s.base o.base).0 both.0,
      all_found-sum env s.terms o.terms hs.one_term ((==_iff _ _).0 terms.0) terms.1,
    )

-- A shared byte of the ranges of `m` bytes at `a` and `n` bytes at `b`.
abbrev pub Share : ℕ → ℕ → ℕ → ℕ → Type 0
Share a m b n = (i : ℕ) × (j : ℕ) × (i < m) × (j < n) × Congruent (a + i) (b + j)

-- Ranges whose biased starts leave room below 2 ^ 64 do not wrap.
shared :
    (a b x y k m n : ℕ)
    → Congruent a (k + x)
    → Congruent b (k + y)
    → x < 2 ^ 64
    → y < 2 ^ 64
    → biased x + m ≤ 2 ^ 64
    → biased y + n ≤ 2 ^ 64
    → 0 < m
    → 0 < n
    → ((ltb (biased x) (biased y + n) && ltb (biased y) (biased x + m)) ≡ true) ↔ Share a m b n
shared a b x y k m n ha hb hx hy rx ry hm hn = (
  λ h.
      let both = &&-eq-true (ltb (biased x) (biased y + n)) _ h in
      elim (Bool-cases (leb (biased x) (biased y))) [
        | inl le ↦ (biased y - biased x, 0, ground arith, hn, ground arith)
        | inr gt ↦ (0, biased x - biased y, hm, ground arith, ground arith)
      ],
  λ (i, j, hi, hj, e). let meet : biased x + i ≡ biased y + j = omega arith in ground arith,
)

module _ (g : Values) (env : ℕ → ℕ) (computes : Computes g env) where
  -- Where env gives every value the 64 bits that integer constants, the i64 additions, subtractions,
  -- multiplications and shifts, and pointer additions compute, the shapes that decompose_ptr finds
  -- for two addresses with the same fuel, with the sizes m and n, and neither signed offset plus its
  -- size above 2^63: if overlaps answers, then it answers true exactly when some byte below m of the
  -- first range and some byte below n of the second have the same address modulo 2^64.
  pub overlaps-exact :
      (fuel a b m n : ℕ) (answer : Bool)
      → let l : MemLoc = record { ptr = decompose_ptr g fuel a; size = m } in
        let o : MemLoc = record { ptr = decompose_ptr g fuel b; size = n } in
        biased l.ptr.offset + m ≤ 2 ^ 64
        → biased o.ptr.offset + n ≤ 2 ^ 64
        → overlaps l o ≡ some answer
        → (answer ≡ true) ↔ Share (env a) m (env b) n
  unfolding overlaps
  overlaps-exact fuel a b m n answer rm rn h =
      let s = decompose_ptr g fuel a in
      let o = decompose_ptr g fuel b in
      let hs = decompose_ptr-Describes g env computes a fuel in
      let ho = decompose_ptr-Describes g env computes b fuel in
      elim (Bool-cases (same_base s o)) [
        | inr apart ↦ absurd (cc (rw apart at h))
        | inl same ↦ elim (Bool-cases (m == 0)) [
          | inl z ↦ absurd (cc (rw (same, z) at h))
          | inr m-known ↦ elim (Bool-cases (n == 0)) [
            | inl z ↦ absurd (cc (rw (same, m-known, z) at h))
            | inr n-known ↦
                let e = some_eq _ _ (rw (same, m-known, n-known) at h) in
                let parts = same_base-parts env a b s o hs ho same in
                let at_base = ap env parts.0 in
                rw (← e) (
                  shared (env a) (env b) s.offset o.offset (env s.base + sum env s.terms) m n
                    (omega (arith, hs.from_base)) (omega (arith, ho.from_base, at_base, parts.1))
                    hs.offset_word ho.offset_word rm rn (ground arith) (ground arith))
          ]
        ]
      ]
