-- ===== src/Tests/Addresses.antt =====
-- src/test/test_mem_access.hpp: an element of an array of `i64` at a variable index.
use foptim.Base.{
  ℕ, zero, suc, ◌+◌, ◌*◌, ◌^◌, ◌%◌, ◌<◌, ◌≡◌, ◌↔◌, refl, true, false, none, arith, List, [], ◌∷◌,
  get_or, subst, Bool,
}
use foptim.MemAccess.{
  Values, Node, constant, instr, leaf, int_add, int_sub, int_mul, shl, ptr_add, other_op,
  decompose_ptr, overlaps, Walk, walk_step, fits_i64, walk_add, index_linear, const_i64,
  add_constant, mul_i64, add_i64, add_terms, scaled, add_opaque, add_term, same_base, same_terms,
}
use foptim.MemAccess.Terms.{Congruent}
use foptim.MemAccess.Indices.{Computes}
use foptim.MemAccess.Shape.{Describes, decompose_ptr-Describes, decompose_ptr-settles}
use foptim.MemAccess.Overlap.{overlaps-exact, Share}

-- 0: the array. 1: the index. 2: 8. 3: index * 8. 4: array + index * 8. 5: that address + 2.
abbrev nodes : List Node
nodes =
    leaf
    ∷ leaf
    ∷ constant 8
    ∷ instr int_mul true 1 2
    ∷ instr ptr_add false 0 3
    ∷ instr ptr_add false 4 2
    ∷ []

abbrev array : Values
array v = get_or nodes v leaf

abbrev held : ℕ → ℕ
held v = get_or (4096 ∷ 10 ∷ 8 ∷ 80 ∷ 4176 ∷ 4184 ∷ []) v 0

shape_of_five : decompose_ptr array 6 5 ≡ record {
  addr = 5;
  base = 0;
  offset = 8;
  terms = record { index = 1; scale = 8 } ∷ [];
  anchor = 4;
  anchor_offset = 8;
}
unfolding decompose_ptr walk_step walk_add index_linear const_i64 fits_i64 add_constant mul_i64
    add_i64 add_terms scaled add_opaque add_term
shape_of_five = refl

-- What one value computes.
Holds : (ℕ → ℕ) → ℕ → Node → Type 0
Holds env v (constant c) = Congruent (env v) c
Holds env v leaf = Unit {0}
Holds env v (instr int_add w a b) = Congruent (env v) (env a + env b)
Holds env v (instr int_sub w a b) = Congruent (env v + env b) (env a)
Holds env v (instr int_mul w a b) = Congruent (env v) (env a * env b)
Holds env v (instr shl w a b) = Congruent (env v) (env a * 2 ^ (env b % 2 ^ 64))
Holds env v (instr ptr_add w a b) = Congruent (env v) (env a + env b)
Holds env v (instr other_op w a b) = Unit {0}

Holds-Computes : (g : Values) (env : ℕ → ℕ) → ((v : ℕ) → Holds env v (g v)) → Computes g env
unfolding Holds
Holds-Computes g env h = record {
  constants = λ v c e fits. subst (Holds env v) e (h v);
  adds = λ v a b e. subst (Holds env v) e (h v);
  subs = λ v a b e. subst (Holds env v) e (h v);
  muls = λ v a b e. subst (Holds env v) e (h v);
  shifts = λ v a b e small. subst (Holds env v) e (h v);
  ptr_adds = λ v a b is_i64 e. subst (Holds env v) e (h v);
}

array-Holds : (v : ℕ) → Holds held v (array v)
unfolding Holds
array-Holds zero = tt
array-Holds (suc zero) = tt
array-Holds (suc (suc zero)) = refl
array-Holds (suc (suc (suc zero))) = refl
array-Holds (suc (suc (suc (suc zero)))) = refl
array-Holds (suc (suc (suc (suc (suc zero))))) = refl
array-Holds (suc (suc (suc (suc (suc (suc v)))))) = tt

array-Computes : Computes array held
array-Computes = Holds-Computes array held array-Holds

BaseBelow : ℕ → Node → Type 0
BaseBelow v (constant c) = Unit {0}
BaseBelow v leaf = Unit {0}
BaseBelow v (instr int_add w a b) = Unit {0}
BaseBelow v (instr int_sub w a b) = Unit {0}
BaseBelow v (instr int_mul w a b) = Unit {0}
BaseBelow v (instr shl w a b) = Unit {0}
BaseBelow v (instr ptr_add w a b) = a < v
BaseBelow v (instr other_op w a b) = Unit {0}

array-BaseBelow : (v : ℕ) → BaseBelow v (array v)
unfolding BaseBelow
array-BaseBelow zero = tt
array-BaseBelow (suc zero) = tt
array-BaseBelow (suc (suc zero)) = tt
array-BaseBelow (suc (suc (suc zero))) = tt
array-BaseBelow (suc (suc (suc (suc zero)))) = omega arith
array-BaseBelow (suc (suc (suc (suc (suc zero))))) = omega arith
array-BaseBelow (suc (suc (suc (suc (suc (suc v)))))) = tt

array_acyclic : (v a b : ℕ) (w : Bool) → array v ≡ instr ptr_add w a b → a < v
unfolding BaseBelow
array_acyclic v a b w e = subst (BaseBelow v) e (array-BaseBelow v)

decompose_ptr-Describes_example : Describes held 5 (decompose_ptr array 6 5)
decompose_ptr-Describes_example = decompose_ptr-Describes array held array-Computes 5 6

decompose_ptr-settles_example :
    (w : Walk) × (w.shape ≡ decompose_ptr array 6 5)
    × (walk_step array w (array w.shape.base) ≡ none)
decompose_ptr-settles_example = decompose_ptr-settles array (λ v. v) array_acyclic 6 5 (omega arith)

overlaps-exact_example : (true ≡ true) ↔ Share (held 5) 8 (held 4) 16
unfolding decompose_ptr walk_step walk_add index_linear const_i64 fits_i64 add_constant mul_i64
    add_i64 add_terms scaled add_opaque add_term overlaps same_base same_terms
overlaps-exact_example =
    overlaps-exact array held array-Computes 6 5 4 8 16 true (omega arith) (omega arith) refl
