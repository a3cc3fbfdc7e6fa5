-- ===== src/Exhaustiveness/Ends.antt =====
-- `is_useful` ends on every matrix and pattern vector.
use starstream.Prelude.{
  ℕ, zero, suc, ◌+◌, ◌<◌, ◌≤◌, Bool, true, false, ◌&&◌, ◌==◌, ◌≡◌, refl, arith, List, [], ◌∷◌, ◌++◌,
  length, filter_map, replicate, ok, Bool-cases, inl, inr, Option-cases, ==_iff,
}
use starstream.Types.{Ty}
use starstream.Matching.Pattern.{Compiled}
use starstream.Exhaustiveness.Pattern.{
  SimpleLiteral, boolean, SimplePat, wildcard, ctor, literal, pats, CtorSet, for_type, get_info,
}
use starstream.Exhaustiveness.Useful.{
  PatternRow, Matrix, specialize_row, default_row, literal_row, specialize, default_matrix,
  specialize_literal, any_useful, either, useful_constructors, useful_wildcard, useful_head,
  useful_column, is_useful, is_bool, has_literals, both_booleans, collect_literals, collect_ctors,
  is_empty,
}
use starstream.Exhaustiveness.Meaning.{size, size_row, size_rows}
use starstream.Exhaustiveness.Parts.{matrix}
use starstream.Exhaustiveness.Fuel.{Extends, is_useful-more, any_useful-extends}
use starstream.Exhaustiveness.Size.{
  some_head, heads, size_row-append, size_row-pats, size_row-wildcards, default_row-size,
  literal_row-size, filter_map-size, specialize-size,
}

-- With some fuel there is a result.
abbrev Ends : Matrix → List SimplePat → Type 0
Ends m ps = (fuel : ℕ) × (b : Bool) × (is_useful fuel m ps ≡ ok b)

either-returns :
    (a c : Compiled Bool) (x y : Bool) → a ≡ ok x → c ≡ ok y → (b : Bool) × (either a c ≡ ok b)
either-returns a c true y e f = (true, rw e)
either-returns a c false y e f = (y, rw e f)

-- The fuel that came second.
later : (g f : ℕ) → Extends (is_useful g) (is_useful (g + f))
later g f m ps b e = let q : g + f ≡ f + g = omega arith in rw q (is_useful-more f g m ps b e)

module _ (rows : List PatternRow) (ty : Ty) (tys : List Ty) (p : SimplePat) (ps : List SimplePat)
    (smaller : (rows' : List PatternRow) (cols' : List Ty) (ps' : List SimplePat)
      → size_rows rows' + size_row ps' < size_rows rows + size_row (p ∷ ps)
      → Ends (matrix rows' cols') ps')
    (narrower : (rows' : List PatternRow) (cols' : List Ty)
      → size_rows rows' ≤ size_rows rows
      → Ends (matrix rows' cols') ps) where
  -- The matrix whose first column is looked at.
  abbrev this : Matrix
  this = matrix rows (ty ∷ tys)

  default-ends : Ends (default_matrix this) ps
  unfolding default_matrix
  default-ends =
      narrower (filter_map default_row rows) tys (filter_map-size default_row rows default_row-size)

  literal-ends : (l : SimpleLiteral) → Ends (specialize_literal this l) ps
  unfolding specialize_literal
  literal-ends l =
      narrower (filter_map (literal_row l) rows) tys
        (filter_map-size (literal_row l) rows (literal_row-size l))

  any_useful-ends :
      0 < heads rows
      → (infos : CtorSet)
      → (fuel : ℕ) × (b : Bool) × (any_useful (is_useful fuel) this ps infos ≡ ok b)
  unfolding any_useful specialize size_row
  any_useful-ends h [] = (0, false, refl)
  any_useful-ends h (info ∷ infos) =
      let (f, x, e) =
        smaller (filter_map (specialize_row info.ctor info.arity) rows) (info.field_types ++ tys)
          (replicate info.arity wildcard ++ ps)
          (omega (
            arith,
            specialize-size info.ctor info.arity rows,
            size_row-append (replicate info.arity wildcard) ps,
            size_row-wildcards info.arity,
          )) in
      let (g, y, e') = any_useful-ends h infos in
      let (b, r) =
        either-returns _ _ x y (is_useful-more g f _ _ x e)
          (any_useful-extends (is_useful g) (is_useful (g + f)) (later g f) this ps infos y e') in
      (g + f, b, r)

  constructors-ends :
      (ctors : CtorSet)
      → (fuel : ℕ) × (b : Bool) × (useful_constructors (is_useful fuel) this ps ctors ≡ ok b)
  unfolding useful_constructors
  constructors-ends [] = default-ends
  constructors-ends (c ∷ cs) =
      elim (Bool-cases (length (collect_ctors rows []) == length (c ∷ cs))) [
        | inl q ↦
            let (f, b, e) =
              any_useful-ends (some_head rows (λ z. let e = (==_iff _ _).0 q in omega arith))
                (c ∷ cs) in
            (f, b, rw (q, useful_constructors) e)
        | inr q ↦ let (f, b, e) = default-ends in (f, b, rw (q, useful_constructors) e)
      ]

  wildcard-ends :
      (ctors : CtorSet)
      → (fuel : ℕ) × (b : Bool) × (useful_wildcard (is_useful fuel) this ty ps ctors ≡ ok b)
  unfolding useful_wildcard
  wildcard-ends ctors = elim (Bool-cases (has_literals rows)) [
    | inl q ↦ elim (Bool-cases (is_bool ty && both_booleans (collect_literals rows []))) [
      | inl r ↦
          let (f, x, e) = literal-ends (boolean true) in
          let (g, y, e') = literal-ends (boolean false) in
          let (b, o) = either-returns _ _ x y (is_useful-more g f _ _ x e) (later g f _ _ y e') in
          (g + f, b, rw (q, useful_wildcard, r) o)
      | inr r ↦ let (f, b, e) = default-ends in (f, b, rw (q, useful_wildcard, r) e)
    ]
    | inr q ↦ let (f, b, e) = constructors-ends ctors in (f, b, rw (q, useful_wildcard) e)
  ]

-- The head of the pattern is looked at, with the constructors of the column's type.
head-ends :
    (rows : List PatternRow) (ty : Ty) (tys : List Ty) (p : SimplePat) (ps : List SimplePat)
    → ((rows' : List PatternRow) (cols' : List Ty) (ps' : List SimplePat)
        → size_rows rows' + size_row ps' < size_rows rows + size_row (p ∷ ps)
        → Ends (matrix rows' cols') ps')
    → ((rows' : List PatternRow) (cols' : List Ty)
        → size_rows rows' ≤ size_rows rows
        → Ends (matrix rows' cols') ps)
    → (ctors : CtorSet)
    → (fuel : ℕ) × (b : Bool) × (useful_head (is_useful fuel) (matrix rows (ty ∷ tys)) ty p ps ctors
        ≡ ok b)
unfolding useful_head specialize size_row size
head-ends rows ty tys wildcard ps smaller narrower ctors =
    wildcard-ends rows ty tys wildcard ps smaller narrower ctors
head-ends rows ty tys (literal l) ps smaller narrower ctors =
    literal-ends rows ty tys (literal l) ps smaller narrower l
head-ends rows ty tys (ctor c args) ps smaller narrower ctors =
    elim (Option-cases (get_info ctors c)) [
      | inl q ↦ (0, true, rw (q, useful_head))
      | inr (info, q) ↦
          let (f, b, e) =
            smaller (filter_map (specialize_row c info.arity) rows) (info.field_types ++ tys)
              (pats args ++ ps)
              (omega (
                arith,
                specialize-size c info.arity rows,
                size_row-append (pats args) ps,
                size_row-pats args,
              )) in
          (f, b, rw (q, useful_head) e)
    ]

column-ends :
    (rows : List PatternRow) (cols : List Ty) (p : SimplePat) (ps : List SimplePat)
    → ((rows' : List PatternRow) (cols' : List Ty) (ps' : List SimplePat)
        → size_rows rows' + size_row ps' < size_rows rows + size_row (p ∷ ps)
        → Ends (matrix rows' cols') ps')
    → ((rows' : List PatternRow) (cols' : List Ty)
        → size_rows rows' ≤ size_rows rows
        → Ends (matrix rows' cols') ps)
    → Ends (matrix rows cols) (p ∷ ps)
unfolding is_useful useful_column
column-ends rows [] p ps smaller narrower = (1, is_empty (matrix rows []), refl)
column-ends rows (ty ∷ tys) p ps smaller narrower = elim (Option-cases (for_type ty)) [
  | inl q ↦ (1, true, rw (q, useful_column))
  | inr (ctors, q) ↦
      let (f, b, e) = head-ends rows ty tys p ps smaller narrower ctors in
      (suc f, b, rw (q, useful_column) e)
]

returns :
    (n : ℕ) (ps : List SimplePat) (rows : List PatternRow) (cols : List Ty)
    → size_rows rows + size_row ps < n
    → Ends (matrix rows cols) ps
unfolding is_useful size_row
returns zero ps rows cols l = elim l [ ]
returns (suc n) [] rows cols l = (1, is_empty (matrix rows cols), refl)
returns (suc n) (p ∷ ps) rows cols l =
    column-ends rows cols p ps (λ rows' cols' ps' l'. returns n ps' rows' cols' (omega arith))
      (λ rows' cols' l'. returns (suc n) ps rows' cols' (omega arith))

-- In a build without debug assertions is_useful ends, whatever the matrix and the pattern vector:
-- some fuel gives a result, and it does not panic.
pub is_useful-ends :
    (m : Matrix) (pattern : List SimplePat)
    → (fuel : ℕ) × (b : Bool) × (is_useful fuel m pattern ≡ ok b)
is_useful-ends m pattern =
    returns (suc (size_rows m.rows + size_row pattern)) pattern m.rows m.col_types (omega arith)
