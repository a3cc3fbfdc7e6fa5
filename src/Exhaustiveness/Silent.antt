-- ===== src/Exhaustiveness/Silent.antt =====
-- `collect_missing_patterns` and `is_useful` on wildcards, side by side.
use starstream.Prelude.{
  ℕ, zero, suc, ◌+◌, ◌<◌, ◌==◌, ltb, Bool, true, false, ◌&&◌, ◌≡◌, refl, arith, and-true,
  if◌then◌else◌, Option-cases, some, List, [], ◌∷◌, ◌++◌, length, All, filter_map, map, replicate,
  ok, >>=-returns, Bool-cases, inl, inr, ==_iff, length-append, ltb→lt,
}
use starstream.Types.{Ty}
use starstream.Matching.Pattern.{Compiled}
use starstream.Exhaustiveness.Pattern.{boolean, SimplePat, wildcard, literal, CtorSet, for_type}
use starstream.Exhaustiveness.Useful.{
  PatternRow, Matrix, specialize_row, literal_row, default_row, specialize, default_matrix,
  specialize_literal, contains_literal, collect_ctors, collect_literals, is_bool, both_booleans,
  has_literals, is_useful, useful_column, useful_head, useful_wildcard, useful_constructors,
  any_useful,
}
use starstream.Exhaustiveness.Missing.{
  rebuild, missing_ctors, missing_booleans, each_ctor, missing_in_set, missing_column,
  collect_missing_patterns,
}
use starstream.Exhaustiveness.Parts.{matrix}
use starstream.Exhaustiveness.Constructors.{InfoFits, for_type-InfoFits}
use starstream.Exhaustiveness.Listed.{RowsListed}
use starstream.Exhaustiveness.Narrow.{default-RowsListed, literal-RowsListed, specialize-RowsListed}
use starstream.Exhaustiveness.FirstColumn.{for_type-some, no_literals, seen_not_bool}
use starstream.Exhaustiveness.Counts.{collect_ctors-le, fully_covered_le}
use starstream.Exhaustiveness.Empty.{
  map-empty, append-empty, unless-empty, rebuild-empty, missing_ctors-empty, either-false,
  replicate-append, unequal, full,
}

-- Where `rec` finds no row, `found` finds no use for wildcards.
abbrev pub Silent :
    (Matrix → ℕ → Compiled (List PatternRow)) → (Matrix → List SimplePat → Compiled Bool) → Type 0
Silent rec found =
    (rows : List PatternRow) (cols : List Ty) (b : Bool)
    → RowsListed rows cols
    → rec (matrix rows cols) (length cols) ≡ ok []
    → found (matrix rows cols) (replicate (length cols) wildcard) ≡ ok b
    → b ≡ false

module _ (rec : Matrix → ℕ → Compiled (List PatternRow))
    (found : Matrix → List SimplePat → Compiled Bool) (silent : Silent rec found)
    (rows : List PatternRow) (ty : Ty) (tys : List Ty) (listed : RowsListed rows (ty ∷ tys)) where
  abbrev this : Matrix
  this = matrix rows (ty ∷ tys)

  abbrev wildcards : List SimplePat
  wildcards = replicate (length tys) wildcard

  default-silent :
      (b : Bool)
      → rec (default_matrix this) (length tys) ≡ ok []
      → found (default_matrix this) wildcards ≡ ok b
      → b ≡ false
  unfolding default_matrix
  default-silent b =
      silent (filter_map default_row rows) tys b (default-RowsListed ty tys rows listed)

  literal-silent :
      (x b : Bool)
      → rec (specialize_literal this (boolean x)) (length tys) ≡ ok []
      → found (specialize_literal this (boolean x)) wildcards ≡ ok b
      → b ≡ false
  unfolding specialize_literal
  literal-silent x b =
      silent (filter_map (literal_row (boolean x)) rows) tys b
        (literal-RowsListed ty tys rows listed (boolean x))

  booleans-silent :
      (ctors : CtorSet) (b : Bool)
      → has_literals rows ≡ true
      → is_bool ty ≡ true
      → missing_booleans rec this (length tys) ≡ ok []
      → useful_wildcard found this ty wildcards ctors ≡ ok b
      → b ≡ false
  unfolding missing_booleans useful_wildcard
  booleans-silent ctors b l o h u = elim (Bool-cases (both_booleans (collect_literals rows []))) [
    | inl q ↦
        let h₁ = (rw (q, missing_booleans) at h) in
        let (xs, e, h₂) =
          >>=-returns (rec (specialize_literal this (boolean true)) (length tys)) _ h₁ in
        let (ys, e', h₃) =
          >>=-returns (rec (specialize_literal this (boolean false)) (length tys)) _ h₂ in
        let all : map (λ row. literal (boolean true) ∷ row) xs
              ++ map (λ row. literal (boolean false) ∷ row) ys
            ≡ [] =
          cc in
        let (first, second) = append-empty _ _ all in
        let none_true = map-empty (λ row. literal (boolean true) ∷ row) xs first in
        let none_false = map-empty (λ row. literal (boolean false) ∷ row) ys second in
        either-false _ _ b (λ x. literal-silent true x (rw none_true at e))
          (λ x. literal-silent false x (rw none_false at e')) (rw (l, useful_wildcard, o, q) at u)
    | inr q ↦
        let h₁ = (rw (q, missing_booleans) at h) in
        let (tails, e, h₂) = >>=-returns (rec (default_matrix this) (length tys)) _ h₁ in
        let all : (if contains_literal (collect_literals rows []) (boolean false)
                then []
                else map (λ row. literal (boolean false) ∷ row) tails)
              ++ (if contains_literal (collect_literals rows []) (boolean true)
                  then []
                  else map (λ row. literal (boolean true) ∷ row) tails)
            ≡ [] =
          cc in
        let (first, second) = append-empty _ _ all in
        let none_found : tails ≡ [] =
          elim (Bool-cases (contains_literal (collect_literals rows []) (boolean false))) [
            | inl k ↦
                unless-empty (contains_literal (collect_literals rows []) (boolean true))
                  (λ row. literal (boolean true) ∷ row) tails (ground arith) second
            | inr k ↦
                unless-empty (contains_literal (collect_literals rows []) (boolean false))
                  (λ row. literal (boolean false) ∷ row) tails k first
          ] in
        default-silent b (rw none_found at e) (rw (l, useful_wildcard, o, q) at u)
  ]

  each_ctor-silent :
      (infos : CtorSet) (b : Bool)
      → All (InfoFits ty) infos
      → each_ctor rec this (length tys) infos ≡ ok []
      → any_useful found this wildcards infos ≡ ok b
      → b ≡ false
  unfolding each_ctor any_useful specialize
  each_ctor-silent [] b f h u = cc
  each_ctor-silent (info ∷ infos) b f h u =
      let (missing, e, h₁) =
        >>=-returns (rec (specialize this info.ctor info) (info.arity + length tys)) _ h in
      let (built, e₁, h₂) = >>=-returns (rebuild info missing) _ h₁ in
      let (rest, e₂, h₃) = >>=-returns (each_ctor rec this (length tys) infos) _ h₂ in
      let all : built ++ rest ≡ [] = cc in
      let (first, second) = append-empty built rest all in
      let nothing = rebuild-empty info missing (rw first at e₁) in
      let arity = f.0.0 in
      let len : info.arity + length tys ≡ length (info.field_types ++ tys) =
        omega (arith, length-append info.field_types tys) in
      either-false _ _ b
        (λ x u'.
          silent (filter_map (specialize_row info.ctor info.arity) rows) (info.field_types ++ tys) x
            (rw arity (specialize-RowsListed ty tys rows listed info.field_types info.ctor f.0.1))
            (rw (← len, ← nothing) e)
            (rw (← len, ← replicate-append info.arity (length tys) wildcard) u'))
        (λ x. each_ctor-silent infos x f.1 (rw second at e₂)) u

  -- Not all constructors are there, so the default matrix is looked at.
  few-silent :
      (infos : CtorSet) (b : Bool)
      → (length (collect_ctors rows []) == length infos) ≡ false
      → rec (default_matrix this) (length tys) ≡ ok []
      → useful_constructors found this wildcards infos ≡ ok b
      → b ≡ false
  unfolding useful_constructors
  few-silent [] b q e u = default-silent b e u
  few-silent (info ∷ infos) b q e u = default-silent b e (rw (q, useful_constructors) at u)

  none_seen-silent :
      (infos : CtorSet) (b : Bool)
      → length (collect_ctors rows []) ≡ 0
      → rec (default_matrix this) (length tys) ≡ ok []
      → useful_constructors found this wildcards infos ≡ ok b
      → b ≡ false
  unfolding useful_constructors
  none_seen-silent [] b z e u = default-silent b e u
  none_seen-silent (info ∷ infos) b z e u =
      few-silent (info ∷ infos) b (unequal _ _ (omega arith)) e u

  every-silent :
      (infos : CtorSet) (b : Bool)
      → (length (collect_ctors rows []) == 0) ≡ false
      → (length (collect_ctors rows []) == length infos) ≡ true
      → All (InfoFits ty) infos
      → each_ctor rec this (length tys) infos ≡ ok []
      → useful_constructors found this wildcards infos ≡ ok b
      → b ≡ false
  unfolding useful_constructors
  every-silent [] b q e f h u = cc
  every-silent (info ∷ infos) b q e f h u =
      each_ctor-silent (info ∷ infos) b f h (rw (e, useful_constructors) at u)

  no_tails :
      (infos : CtorSet) (tails : List PatternRow)
      → is_bool ty ≡ false
      → for_type ty ≡ some infos
      → length (collect_ctors rows []) < length infos
      → missing_ctors (collect_ctors rows []) tails infos ≡ []
      → tails ≡ []
  no_tails infos [] o t less h = refl
  no_tails infos (tail ∷ tails) o t less h = absurd (
      let all =
        fully_covered_le rows ty tys listed infos o t
          (missing_ctors-empty (collect_ctors rows []) tail tails infos h) in
      omega arith)

  set-silent :
      (infos : CtorSet) (b : Bool)
      → for_type ty ≡ some infos
      → missing_in_set rec this (length tys) infos ≡ ok []
      → useful_constructors found this wildcards infos ≡ ok b
      → b ≡ false
  unfolding missing_in_set
  set-silent infos b t h u = elim (Bool-cases (length (collect_ctors rows []) == 0)) [
    | inl q ↦
        let h₁ = (rw (q, missing_in_set) at h) in
        let (tails, e, h₂) = >>=-returns (rec (default_matrix this) (length tys)) _ h₁ in
        let all : map (λ row. wildcard ∷ row) tails ≡ [] = cc in
        none_seen-silent infos b ((==_iff _ _).0 q)
          (rw (map-empty (λ row. wildcard ∷ row) tails all) at e) u
    | inr q ↦
        let o = seen_not_bool rows ty tys listed q in
        let most = collect_ctors-le rows ty tys listed infos o t in
        elim (Bool-cases (ltb (length (collect_ctors rows [])) (length infos))) [
          | inl r ↦
              let h₁ = (rw (q, missing_in_set, r) at h) in
              let (tails, e, h₂) = >>=-returns (rec (default_matrix this) (length tys)) _ h₁ in
              let all : missing_ctors (collect_ctors rows []) tails infos ≡ [] = cc in
              let less = ltb→lt _ _ r in
              few-silent infos b (unequal _ _ less) (rw (no_tails infos tails o t less all) at e) u
          | inr r ↦
              every-silent infos b q (full _ _ most r) (for_type-InfoFits ty infos o t)
                (rw (q, missing_in_set, r) at h) u
        ]
  ]

  column-silent :
      (b : Bool)
      → missing_column rec this (ty ∷ tys) (length tys) ≡ ok []
      → useful_column found this (ty ∷ tys) wildcard wildcards ≡ ok b
      → b ≡ false
  unfolding missing_column useful_column useful_head useful_wildcard
  column-silent b h u = elim (Option-cases (for_type ty)) [
    | inl e ↦ absurd (for_type-some ty e)
    | inr (infos, e) ↦ elim (Bool-cases (has_literals rows && is_bool ty)) [
      | inl q ↦
          let (l, o) = and-true (has_literals rows) (is_bool ty) q in
          booleans-silent infos b l o (rw (q, missing_column) at h) (rw (e, useful_column) at u)
      | inr q ↦
          let l = no_literals rows ty tys listed q in
          set-silent infos b e (rw (q, missing_column, e) at h)
            (rw (e, useful_column, l, useful_wildcard) at u)
    ]
  ]

pub Silent-collect : (fuel more : ℕ) → Silent (collect_missing_patterns fuel) (is_useful more)
unfolding collect_missing_patterns missing_column is_useful useful_column
Silent-collect zero more rows cols b l h u = cc
Silent-collect (suc fuel) zero rows cols b l h u = cc
Silent-collect (suc fuel) (suc more) rows [] b l h u = elim (Bool-cases (length rows == 0)) [
  | inl e ↦ absurd (let h' = (rw e at h) in cc)
  | inr e ↦ cc
]
Silent-collect (suc fuel) (suc more) rows (ty ∷ tys) b l h u =
    column-silent (collect_missing_patterns fuel) (is_useful more) (Silent-collect fuel more) rows
      ty tys l b h u
