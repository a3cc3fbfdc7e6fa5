-- ===== src/Exhaustiveness/Examples.antt =====
-- The rows of `collect_missing_patterns`, case by case.
use starstream.Prelude.{
  ℕ, zero, suc, ◌+◌, ◌==◌, ltb, Bool, true, false, ◌&&◌, ◌≡◌, refl, arith, and-true, if◌then◌else◌,
  Option-cases, List, [], ◌∷◌, ◌++◌, length, All, filter_map, map, ok, >>=-returns, Bool-cases, inl,
  inr, ==_iff, some, length-append,
}
use starstream.Types.{Ty}
use starstream.Matching.Pattern.{Compiled}
use starstream.Exhaustiveness.Pattern.{boolean, wildcard, literal, CtorSet, for_type}
use starstream.Exhaustiveness.Useful.{
  PatternRow, Matrix, specialize_row, literal_row, default_row, specialize, default_matrix,
  specialize_literal, contains_literal, collect_ctors, collect_literals, is_bool, both_booleans,
  has_literals,
}
use starstream.Exhaustiveness.Missing.{
  rebuild, missing_ctors, missing_booleans, each_ctor, missing_in_set, missing_column,
  collect_missing_patterns,
}
use starstream.Exhaustiveness.Meaning.{covers_any}
use starstream.Exhaustiveness.Parts.{matrix}
use starstream.Exhaustiveness.Constructors.{InfoFits, for_type-InfoFits}
use starstream.Exhaustiveness.Listed.{RowsListed, IsNamed, for_type-IsNamed}
use starstream.Exhaustiveness.Heads.{
  NoLiteral, has_literals-NoLiteral, collect_ctors-NoCtor, collect_literals-AvoidsLiteral,
}
use starstream.Exhaustiveness.Narrow.{default-RowsListed, literal-RowsListed, specialize-RowsListed}
use starstream.Exhaustiveness.Rebuilt.{
  All-append, All-map, All-unless, rebuild-Uncovered, missing_ctors-Uncovered,
}
use starstream.Exhaustiveness.Uncovered.{
  Uncovered, wildcard-Uncovered, boolean_default-Uncovered, boolean_literal-Uncovered,
}
use starstream.Exhaustiveness.FirstColumn.{for_type-some, seen_not_bool, no_literals}

-- What `rec` finds is not covered.
abbrev pub Misses : (Matrix → ℕ → Compiled (List PatternRow)) → Type 0
Misses rec =
    (rows : List PatternRow) (cols : List Ty) (found : List PatternRow)
    → RowsListed rows cols
    → rec (matrix rows cols) (length cols) ≡ ok found
    → All (Uncovered rows) found

module _ (rec : Matrix → ℕ → Compiled (List PatternRow)) (misses : Misses rec)
    (rows : List PatternRow) (ty : Ty) (tys : List Ty) (listed : RowsListed rows (ty ∷ tys)) where
  abbrev this : Matrix
  this = matrix rows (ty ∷ tys)

  default-misses :
      (tails : List PatternRow)
      → rec (default_matrix this) (length tys) ≡ ok tails
      → All (Uncovered (filter_map default_row rows)) tails
  unfolding default_matrix
  default-misses tails e =
      misses (filter_map default_row rows) tys tails (default-RowsListed ty tys rows listed) e

  literal-misses :
      (b : Bool) (tails : List PatternRow)
      → is_bool ty ≡ true
      → rec (specialize_literal this (boolean b)) (length tys) ≡ ok tails
      → All (Uncovered rows) (map (λ row. literal (boolean b) ∷ row) tails)
  unfolding specialize_literal
  literal-misses b tails o e =
      All-map (Uncovered (filter_map (literal_row (boolean b)) rows)) (Uncovered rows) _ tails
        (λ tail. boolean_literal-Uncovered rows ty tys listed b tail o)
        (misses (filter_map (literal_row (boolean b)) rows) tys tails
          (literal-RowsListed ty tys rows listed (boolean b)) e)

  unseen-misses :
      (b : Bool) (tails : List PatternRow)
      → is_bool ty ≡ true
      → rec (default_matrix this) (length tys) ≡ ok tails
      → All (Uncovered rows) (
          if contains_literal (collect_literals rows []) (boolean b)
          then []
          else map (λ row. literal (boolean b) ∷ row) tails)
  unseen-misses b tails o e =
      All-unless (Uncovered rows) (contains_literal (collect_literals rows []) (boolean b)) _ (λ a.
        All-map (Uncovered (filter_map default_row rows)) (Uncovered rows) _ tails
          (λ tail.
            boolean_default-Uncovered rows ty tys listed b tail o
              (collect_literals-AvoidsLiteral (boolean b) rows [] a))
          (default-misses tails e))

  missing_booleans-Uncovered :
      (found : List PatternRow)
      → is_bool ty ≡ true
      → missing_booleans rec this (length tys) ≡ ok found
      → All (Uncovered rows) found
  unfolding missing_booleans
  missing_booleans-Uncovered found o h =
      elim (Bool-cases (both_booleans (collect_literals rows []))) [
        | inl q ↦
            let h₁ = (rw (q, missing_booleans) at h) in
            let (yes_rows, e, h₂) =
              >>=-returns (rec (specialize_literal this (boolean true)) (length tys)) _ h₁ in
            let (no_rows, e', h₃) =
              >>=-returns (rec (specialize_literal this (boolean false)) (length tys)) _ h₂ in
            let same : map (λ row. literal (boolean true) ∷ row) yes_rows
                  ++ map (λ row. literal (boolean false) ∷ row) no_rows
                ≡ found =
              cc in
            rw (← same) (
              All-append (Uncovered rows) _ _ (literal-misses true yes_rows o e)
                (literal-misses false no_rows o e'))
        | inr q ↦
            let h₁ = (rw (q, missing_booleans) at h) in
            let (tails, e, h₂) = >>=-returns (rec (default_matrix this) (length tys)) _ h₁ in
            let same : (if contains_literal (collect_literals rows []) (boolean false)
                    then []
                    else map (λ row. literal (boolean false) ∷ row) tails)
                  ++ (if contains_literal (collect_literals rows []) (boolean true)
                      then []
                      else map (λ row. literal (boolean true) ∷ row) tails)
                ≡ found =
              cc in
            rw (← same) (
              All-append (Uncovered rows) _ _ (unseen-misses false tails o e)
                (unseen-misses true tails o e))
      ]

  each_ctor-Uncovered :
      (infos : CtorSet) (found : List PatternRow)
      → All (λ info. IsNamed info.ctor ty) infos
      → All (InfoFits ty) infos
      → each_ctor rec this (length tys) infos ≡ ok found
      → All (Uncovered rows) found
  unfolding each_ctor specialize
  each_ctor-Uncovered [] found o f h = let same : [] ≡ found = cc in rw (← same) tt
  each_ctor-Uncovered (info ∷ infos) found o f h =
      let (missing, e, h₁) =
        >>=-returns (rec (specialize this info.ctor info) (info.arity + length tys)) _ h in
      let (built, e₁, h₂) = >>=-returns (rebuild info missing) _ h₁ in
      let (rest, e₂, h₃) = >>=-returns (each_ctor rec this (length tys) infos) _ h₂ in
      let same : built ++ rest ≡ found = cc in
      let arity = f.0.0 in
      let len : info.arity + length tys ≡ length (info.field_types ++ tys) =
        omega (arith, length-append info.field_types tys) in
      let u =
        misses (filter_map (specialize_row info.ctor (length info.field_types)) rows)
          (info.field_types ++ tys) missing
          (specialize-RowsListed ty tys rows listed info.field_types info.ctor f.0.1)
          (rw (← len, ← arity) e) in
      rw (← same) (
        All-append (Uncovered rows) built rest
          (rebuild-Uncovered rows ty tys listed info missing built o.0 (rw arity u) e₁)
          (each_ctor-Uncovered infos rest o.1 f.1 e₂))

  missing_in_set-Uncovered :
      (ctors : CtorSet) (found : List PatternRow)
      → All NoLiteral rows
      → for_type ty ≡ some ctors
      → missing_in_set rec this (length tys) ctors ≡ ok found
      → All (Uncovered rows) found
  unfolding missing_in_set
  missing_in_set-Uncovered ctors found l t h =
      elim (Bool-cases (length (collect_ctors rows []) == 0)) [
        | inl q ↦
            let h₁ = (rw (q, missing_in_set) at h) in
            let (tails, e, h₂) = >>=-returns (rec (default_matrix this) (length tys)) _ h₁ in
            let same : map (λ row. wildcard ∷ row) tails ≡ found = cc in
            rw (← same) (
              All-map (Uncovered (filter_map default_row rows)) (Uncovered rows) _ tails
                (λ tail.
                  wildcard-Uncovered rows tail (collect_ctors-NoCtor rows ((==_iff _ _).0 q)) l)
                (default-misses tails e))
        | inr q ↦
            let b = seen_not_bool rows ty tys listed q in
            let named = for_type-IsNamed ty ctors b t in
            elim (Bool-cases (ltb (length (collect_ctors rows [])) (length ctors))) [
              | inl r ↦
                  let h₁ = (rw (q, missing_in_set, r) at h) in
                  let (tails, e, h₂) = >>=-returns (rec (default_matrix this) (length tys)) _ h₁ in
                  let same : missing_ctors (collect_ctors rows []) tails ctors ≡ found = cc in
                  rw (← same) (
                    missing_ctors-Uncovered rows ty tys listed tails ctors named
                      (default-misses tails e))
              | inr r ↦
                  each_ctor-Uncovered ctors found named (for_type-InfoFits ty ctors b t)
                    (rw (q, missing_in_set, r) at h)
            ]
      ]

  missing_column-Uncovered :
      (found : List PatternRow)
      → missing_column rec this (ty ∷ tys) (length tys) ≡ ok found
      → All (Uncovered rows) found
  unfolding missing_column
  missing_column-Uncovered found h = elim (Bool-cases (has_literals rows && is_bool ty)) [
    | inl q ↦
        missing_booleans-Uncovered found (and-true _ (is_bool ty) q).1 (rw (q, missing_column) at h)
    | inr q ↦ elim (Option-cases (for_type ty)) [
      | inl e ↦ absurd (for_type-some ty e)
      | inr (ctors, e) ↦
          missing_in_set-Uncovered ctors found
            (has_literals-NoLiteral rows (no_literals rows ty tys listed q)) e
            (rw (q, missing_column, e) at h)
    ]
  ]

pub Misses-collect : (fuel : ℕ) → Misses (collect_missing_patterns fuel)
unfolding collect_missing_patterns missing_column covers_any
Misses-collect zero rows cols found l h = cc
Misses-collect (suc fuel) [] [] found l h =
    let same : [] ∷ [] ≡ found = cc in rw (← same) ((λ vs _. refl), tt)
Misses-collect (suc fuel) (row ∷ rows) [] found l h =
    let same : [] ≡ found = ground arith in rw (← same) tt
Misses-collect (suc fuel) rows (ty ∷ tys) found l h =
    missing_column-Uncovered (collect_missing_patterns fuel) (Misses-collect fuel) rows ty tys l
      found h
