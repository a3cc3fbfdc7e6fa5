-- ===== src/Exhaustiveness/Asserting.antt =====
-- typecheck/exhaustiveness.rs: `is_useful` in a build with debug assertions. `Matrix::push` asserts there
-- that a row has one pattern for each column.
use starstream.Prelude.{
  ℕ, zero, suc, ◌==◌, Bool, true, false, ◌&&◌, ◌≡◌, refl, arith, if◌then◌else◌, some, List, [], ◌∷◌,
  ◌++◌, length, All, filter_map, replicate, ok, err, panic, Bool-cases, inl, inr, Option-cases,
  Forall2-append,
}
use starstream.Types.{Ty}
use starstream.Matching.Pattern.{Compiled, out_of_fuel, field_types}
use starstream.Matching.Columns.{length-Forall2}
use starstream.Exhaustiveness.Pattern.{
  SimpleLiteral, boolean, Ctor, SimplePat, wildcard, ctor, literal, pats, CtorInfo, CtorSet,
  for_type, get_info,
}
use starstream.Exhaustiveness.Useful.{
  PatternRow, Matrix, is_empty, specialize_row, default_row, literal_row, specialize,
  default_matrix, specialize_literal, any_useful, either, useful_constructors, useful_wildcard,
  useful_head, useful_column, is_useful, is_bool, has_literals, both_booleans, collect_literals,
  collect_ctors,
}
use starstream.Exhaustiveness.Meaning.{tag, SimpleFits, RowFits, RowsFit}
use starstream.Exhaustiveness.Parts.{matrix}
use starstream.Exhaustiveness.Constructors.{InfoFits, for_type-InfoFits, get_info-All}
use starstream.Exhaustiveness.Booleans.{collect_ctors-bool, tag_not_boolean}
use starstream.Exhaustiveness.Rows.{
  filter_map-RowsFit, specialize_row-KeptFits, default_row-KeptFits, literal_row-KeptFits,
  wildcards-RowFits, AllSimpleFit-pats,
}
use starstream.Exhaustiveness.Ends.{is_useful-ends}

-- The assertions that were made when the rows of the matrix were pushed hold.
unfoldable pub rows_asserted : List PatternRow → (columns : ℕ) → Bool
rows_asserted [] columns = true
rows_asserted (row ∷ rows) columns = length row == columns && rows_asserted rows columns

-- A matrix is built, and then looked at.
abbrev pub built :
    (Matrix → List SimplePat → Compiled Bool) → Matrix → List SimplePat → Compiled Bool
built rec m ps = if rows_asserted m.rows (length m.col_types) then rec m ps else panic

unfoldable pub is_useful_asserting : ℕ → Matrix → List SimplePat → Compiled Bool
is_useful_asserting zero m pattern = err out_of_fuel
is_useful_asserting (suc fuel) m [] = ok (is_empty m)
is_useful_asserting (suc fuel) m (p ∷ ps) =
    useful_column (built (is_useful_asserting fuel)) m m.col_types p ps

-- What one of them returns on a matrix and a pattern vector that fit, the other returns too.
abbrev Agrees : (rec rec' : Matrix → List SimplePat → Compiled Bool) → Type 0
Agrees rec rec' =
    (rows : List PatternRow) (cols : List Ty) (ps : List SimplePat) (b : Bool)
    → RowsFit rows cols
    → RowFits cols ps
    → rec (matrix rows cols) ps ≡ ok b
    → rec' (matrix rows cols) ps ≡ ok b

RowsFit-rows_asserted :
    (rows : List PatternRow) (cols : List Ty)
    → RowsFit rows cols
    → rows_asserted rows (length cols) ≡ true
unfolding rows_asserted
RowsFit-rows_asserted [] cols h = refl
RowsFit-rows_asserted (row ∷ rows) cols h =
    ground (arith, length-Forall2 SimpleFits row cols h.0, RowsFit-rows_asserted rows cols h.1)

Agrees-built :
    (rec rec' : Matrix → List SimplePat → Compiled Bool) → Agrees rec rec' → Agrees rec (built rec')
Agrees-built rec rec' agrees rows cols ps b fit fits e =
    rw (RowsFit-rows_asserted rows cols fit) (agrees rows cols ps b fit fits e)

either-same :
    (a a' c c' : Compiled Bool) (b : Bool)
    → ((x : Bool) → a ≡ ok x → a' ≡ ok x)
    → ((x : Bool) → c ≡ ok x → c' ≡ ok x)
    → either a c ≡ ok b
    → either a' c' ≡ ok b
either-same (ok true) a' c c' b h h' e = rw (h true refl) e
either-same (ok false) a' c c' b h h' e = rw (h false refl) (h' b e)
either-same (err x) a' c c' b h h' e = cc
either-same panic a' c c' b h h' e = cc

module _ (rec rec' : Matrix → List SimplePat → Compiled Bool) (agrees : Agrees rec rec')
    (rows : List PatternRow) (ty : Ty) (tys : List Ty) (fit : RowsFit rows (ty ∷ tys))
    (ps : List SimplePat) (fits : RowFits tys ps) where
  abbrev this : Matrix
  this = matrix rows (ty ∷ tys)

  default-agrees :
      (b : Bool) → rec (default_matrix this) ps ≡ ok b → rec' (default_matrix this) ps ≡ ok b
  unfolding default_matrix
  default-agrees b =
      agrees (filter_map default_row rows) tys ps b
        (filter_map-RowsFit default_row (ty ∷ tys) tys rows (default_row-KeptFits ty tys) fit) fits

  literal-agrees :
      (l : SimpleLiteral) (b : Bool)
      → rec (specialize_literal this l) ps ≡ ok b
      → rec' (specialize_literal this l) ps ≡ ok b
  unfolding specialize_literal
  literal-agrees l b =
      agrees (filter_map (literal_row l) rows) tys ps b
        (filter_map-RowsFit (literal_row l) (ty ∷ tys) tys rows (literal_row-KeptFits ty tys l) fit)
        fits

  constructor-agrees :
      (c : Ctor) (info : CtorInfo) (qs : PatternRow) (b : Bool)
      → info.arity ≡ length info.field_types
      → field_types (tag c) ty ≡ ok info.field_types
      → RowFits info.field_types qs
      → rec (specialize this c info) (qs ++ ps) ≡ ok b
      → rec' (specialize this c info) (qs ++ ps) ≡ ok b
  unfolding specialize
  constructor-agrees c info qs b arity fields q =
      agrees (filter_map (specialize_row c info.arity) rows) (info.field_types ++ tys) (qs ++ ps) b
        (rw arity (
          filter_map-RowsFit (specialize_row c (length info.field_types)) (ty ∷ tys)
            (info.field_types ++ tys) rows
            (specialize_row-KeptFits ty tys info.field_types c fields) fit))
        (Forall2-append SimpleFits qs ps info.field_types tys q fits)

  any_useful-agrees :
      (infos : CtorSet) (b : Bool)
      → All (InfoFits ty) infos
      → any_useful rec this ps infos ≡ ok b
      → any_useful rec' this ps infos ≡ ok b
  unfolding any_useful
  any_useful-agrees [] b f e = e
  any_useful-agrees (info ∷ infos) b f e =
      either-same _ _ _ _ b
        (λ x.
          constructor-agrees info.ctor info (replicate info.arity wildcard) x f.0.0 f.0.1
            (rw f.0.0 (wildcards-RowFits info.field_types)))
        (λ x. any_useful-agrees infos x f.1) e

  constructors-agree :
      (infos : CtorSet) (b : Bool)
      → for_type ty ≡ some infos
      → useful_constructors rec this ps infos ≡ ok b
      → useful_constructors rec' this ps infos ≡ ok b
  unfolding useful_constructors
  constructors-agree [] b t e = default-agrees b e
  constructors-agree (c ∷ cs) b t e =
      elim (Bool-cases (length (collect_ctors rows []) == length (c ∷ cs))) [
        | inl q ↦ elim (Bool-cases (is_bool ty)) [
          | inl o ↦
              let none_seen = collect_ctors-bool rows ty tys o fit [] in
              absurd (let q' = (rw none_seen at q) in ground arith)
          | inr o ↦
              rw (q, useful_constructors)
                (any_useful-agrees (c ∷ cs) b (for_type-InfoFits ty (c ∷ cs) o t)
                  (rw (q, useful_constructors) at e))
        ]
        | inr q ↦ rw (q, useful_constructors) (default-agrees b (rw (q, useful_constructors) at e))
      ]

  wildcard-agrees :
      (infos : CtorSet) (b : Bool)
      → for_type ty ≡ some infos
      → useful_wildcard rec this ty ps infos ≡ ok b
      → useful_wildcard rec' this ty ps infos ≡ ok b
  unfolding useful_wildcard
  wildcard-agrees infos b t e = elim (Bool-cases (has_literals rows)) [
    | inl q ↦ elim (Bool-cases (is_bool ty && both_booleans (collect_literals rows []))) [
      | inl r ↦
          rw (q, useful_wildcard, r)
            (either-same _ _ _ _ b (literal-agrees (boolean true)) (literal-agrees (boolean false))
              (rw (q, useful_wildcard, r) at e))
      | inr r ↦ rw (q, useful_wildcard, r) (default-agrees b (rw (q, useful_wildcard, r) at e))
    ]
    | inr q ↦ rw (q, useful_wildcard) (constructors-agree infos b t (rw (q, useful_wildcard) at e))
  ]

  head-agrees :
      (p : SimplePat) (infos : CtorSet) (b : Bool)
      → SimpleFits p ty
      → for_type ty ≡ some infos
      → useful_head rec this ty p ps infos ≡ ok b
      → useful_head rec' this ty p ps infos ≡ ok b
  unfolding useful_head SimpleFits
  head-agrees wildcard infos b f t e = wildcard-agrees infos b t e
  head-agrees (literal l) infos b f t e = literal-agrees l b e
  head-agrees (ctor c args) infos b (o, (us, k, fs)) t e = elim (Option-cases (get_info infos c)) [
    | inl q ↦ rw (q, useful_head) (rw (q, useful_head) at e)
    | inr (info, q) ↦ elim (Bool-cases (is_bool ty)) [
      | inl is ↦ absurd (tag_not_boolean ty c is o)
      | inr is ↦
          let ((arity, fields), same) =
            get_info-All (InfoFits ty) infos c info (for_type-InfoFits ty infos is t) q in
          let fields' : field_types (tag c) ty ≡ ok info.field_types = rw (← same) fields in
          let u : us ≡ info.field_types = cc in
          rw (q, useful_head)
            (constructor-agrees c info (pats args) b arity fields'
              (rw (← u) (AllSimpleFit-pats args us fs)) (rw (q, useful_head) at e))
    ]
  ]

  column-agrees :
      (p : SimplePat) (b : Bool)
      → SimpleFits p ty
      → useful_column rec this (ty ∷ tys) p ps ≡ ok b
      → useful_column rec' this (ty ∷ tys) p ps ≡ ok b
  unfolding useful_column
  column-agrees p b f e = elim (Option-cases (for_type ty)) [
    | inl q ↦ rw (q, useful_column) (rw (q, useful_column) at e)
    | inr (infos, q) ↦
        rw (q, useful_column) (head-agrees p infos b f q (rw (q, useful_column) at e))
  ]

is_useful-Agrees : (fuel : ℕ) → Agrees (is_useful fuel) (is_useful_asserting fuel)
unfolding is_useful is_useful_asserting
is_useful-Agrees zero rows cols ps b fit fits e = cc
is_useful-Agrees (suc fuel) rows cols [] b fit fits e = e
is_useful-Agrees (suc fuel) rows [] (p ∷ ps) b fit fits e = elim fits [ ]
is_useful-Agrees (suc fuel) rows (ty ∷ tys) (p ∷ ps) b fit fits e =
    column-agrees (is_useful fuel) (built (is_useful_asserting fuel))
      (Agrees-built (is_useful fuel) (is_useful_asserting fuel) (is_useful-Agrees fuel)) rows ty tys
      fit ps fits.1 p b fits.0 e

-- On a matrix and a pattern vector that fit the types of the columns, is_useful ends with a result in a
-- build with debug assertions too: none of them fails, and the result is that of a build without them.
pub is_useful_asserting-ends :
    (rows : List PatternRow) (cols : List Ty) (pattern : List SimplePat)
    → RowsFit rows cols
    → RowFits cols pattern
    → (fuel : ℕ) × (b : Bool) × (is_useful_asserting fuel (matrix rows cols) pattern ≡ ok b)
      × (is_useful fuel (matrix rows cols) pattern ≡ ok b)
is_useful_asserting-ends rows cols pattern fit fits =
    let (fuel, b, e) = is_useful-ends (matrix rows cols) pattern in
    (fuel, b, is_useful-Agrees fuel rows cols pattern b fit fits e, e)
