-- ===== src/Exhaustiveness/Fuel.antt =====
-- More fuel does not change what `is_useful` returns.
use starstream.Prelude.{
  ℕ, zero, suc, ◌+◌, Bool, true, false, ◌&&◌, ◌==◌, ◌≡◌, refl, arith, List, [], ◌∷◌, ◌++◌, length,
  replicate, ok, err, panic, Bool-cases, inl, inr, Option-cases,
}
use starstream.Types.{Ty}
use starstream.Matching.Pattern.{Compiled}
use starstream.Exhaustiveness.Pattern.{
  boolean, SimplePat, wildcard, ctor, literal, pats, CtorSet, for_type, get_info,
}
use starstream.Exhaustiveness.Useful.{
  Matrix, specialize, default_matrix, specialize_literal, any_useful, either, useful_constructors,
  useful_wildcard, useful_head, useful_column, is_useful, is_bool, has_literals, both_booleans,
  collect_literals, collect_ctors,
}

-- What one of them returns, the other returns too.
abbrev pub Extends : (rec rec' : Matrix → List SimplePat → Compiled Bool) → Type 0
Extends rec rec' =
    (m : Matrix) (ps : List SimplePat) (b : Bool) → rec m ps ≡ ok b → rec' m ps ≡ ok b

module _ (rec rec' : Matrix → List SimplePat → Compiled Bool) (extends : Extends rec rec') where
  either-extends :
      (a a' c c' : Compiled Bool) (b : Bool)
      → ((x : Bool) → a ≡ ok x → a' ≡ ok x)
      → ((x : Bool) → c ≡ ok x → c' ≡ ok x)
      → either a c ≡ ok b
      → either a' c' ≡ ok b
  either-extends (ok true) a' c c' b h h' e = rw (h true refl) e
  either-extends (ok false) a' c c' b h h' e = rw (h false refl) (h' b e)
  either-extends (err x) a' c c' b h h' e = cc
  either-extends panic a' c c' b h h' e = cc

  pub any_useful-extends :
      (m : Matrix) (ps : List SimplePat) (infos : CtorSet) (b : Bool)
      → any_useful rec m ps infos ≡ ok b
      → any_useful rec' m ps infos ≡ ok b
  unfolding any_useful
  any_useful-extends m ps [] b e = e
  any_useful-extends m ps (info ∷ infos) b e =
      either-extends _ _ _ _ b
        (extends (specialize m info.ctor info) (replicate info.arity wildcard ++ ps))
        (any_useful-extends m ps infos) e

  constructors-extends :
      (m : Matrix) (ps : List SimplePat) (ctors : CtorSet) (b : Bool)
      → useful_constructors rec m ps ctors ≡ ok b
      → useful_constructors rec' m ps ctors ≡ ok b
  unfolding useful_constructors
  constructors-extends m ps [] b e = extends (default_matrix m) ps b e
  constructors-extends m ps (c ∷ cs) b e =
      elim (Bool-cases (length (collect_ctors m.rows []) == length (c ∷ cs))) [
        | inl q ↦
            rw (q, useful_constructors)
              (any_useful-extends m ps (c ∷ cs) b (rw (q, useful_constructors) at e))
        | inr q ↦
            rw (q, useful_constructors)
              (extends (default_matrix m) ps b (rw (q, useful_constructors) at e))
      ]

  wildcard-extends :
      (m : Matrix) (ty : Ty) (ps : List SimplePat) (ctors : CtorSet) (b : Bool)
      → useful_wildcard rec m ty ps ctors ≡ ok b
      → useful_wildcard rec' m ty ps ctors ≡ ok b
  unfolding useful_wildcard
  wildcard-extends m ty ps ctors b e = elim (Bool-cases (has_literals m.rows)) [
    | inl q ↦ elim (Bool-cases (is_bool ty && both_booleans (collect_literals m.rows []))) [
      | inl r ↦
          rw (q, useful_wildcard, r)
            (either-extends _ _ _ _ b (extends (specialize_literal m (boolean true)) ps)
              (extends (specialize_literal m (boolean false)) ps) (rw (q, useful_wildcard, r) at e))
      | inr r ↦
          rw (q, useful_wildcard, r)
            (extends (default_matrix m) ps b (rw (q, useful_wildcard, r) at e))
    ]
    | inr q ↦
        rw (q, useful_wildcard) (constructors-extends m ps ctors b (rw (q, useful_wildcard) at e))
  ]

  head-extends :
      (m : Matrix) (ty : Ty) (p : SimplePat) (ps : List SimplePat) (ctors : CtorSet) (b : Bool)
      → useful_head rec m ty p ps ctors ≡ ok b
      → useful_head rec' m ty p ps ctors ≡ ok b
  unfolding useful_head
  head-extends m ty wildcard ps ctors b e = wildcard-extends m ty ps ctors b e
  head-extends m ty (literal l) ps ctors b e = extends (specialize_literal m l) ps b e
  head-extends m ty (ctor c args) ps ctors b e = elim (Option-cases (get_info ctors c)) [
    | inl q ↦ rw (q, useful_head) (rw (q, useful_head) at e)
    | inr (info, q) ↦
        rw (q, useful_head)
          (extends (specialize m c info) (pats args ++ ps) b (rw (q, useful_head) at e))
  ]

  column-extends :
      (m : Matrix) (cols : List Ty) (p : SimplePat) (ps : List SimplePat) (b : Bool)
      → useful_column rec m cols p ps ≡ ok b
      → useful_column rec' m cols p ps ≡ ok b
  unfolding useful_column useful_head
  column-extends m [] p ps b e = e
  column-extends m (ty ∷ tys) p ps b e = elim (Option-cases (for_type ty)) [
    | inl q ↦ rw (q, useful_column) (rw (q, useful_column) at e)
    | inr (ctors, q) ↦
        rw (q, useful_column) (head-extends m ty p ps ctors b (rw (q, useful_column) at e))
  ]

is_useful-suc : (fuel : ℕ) → Extends (is_useful fuel) (is_useful (suc fuel))
unfolding is_useful
is_useful-suc zero m ps b e = cc
is_useful-suc (suc fuel) m [] b e = e
is_useful-suc (suc fuel) m (p ∷ ps) b e =
    column-extends (is_useful fuel) (is_useful (suc fuel)) (is_useful-suc fuel) m m.col_types p ps b
      e

-- More fuel changes no result.
pub is_useful-more : (more fuel : ℕ) → Extends (is_useful fuel) (is_useful (more + fuel))
is_useful-more zero fuel m ps b e = let q : 0 + fuel ≡ fuel = omega arith in rw q e
is_useful-more (suc more) fuel m ps b e =
    let q : suc more + fuel ≡ suc (more + fuel) = omega arith in
    rw q (is_useful-suc (more + fuel) m ps b (is_useful-more more fuel m ps b e))
