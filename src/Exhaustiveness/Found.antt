-- ===== src/Exhaustiveness/Found.antt =====
-- `collect_missing_patterns`: its recursion, and the lengths of its rows.
use starstream.Prelude.{
  ℕ, zero, suc, ◌+◌, ◌<◌, ◌≤◌, ◌==◌, ltb, Bool, true, false, ◌&&◌, ◌≡◌, refl, arith, if◌then◌else◌,
  Option-cases, List, [], ◌∷◌, ◌++◌, length, All, filter_map, replicate, length-replicate, ok,
  Bool-cases, inl, inr,
}
use starstream.Types.{Ty}
use starstream.Exhaustiveness.Pattern.{boolean, wildcard, literal, CtorSet, for_type}
use starstream.Exhaustiveness.Useful.{
  PatternRow, Matrix, specialize_row, literal_row, default_row, specialize, default_matrix,
  specialize_literal, contains_literal, collect_ctors, collect_literals, is_bool, both_booleans,
  has_literals, is_empty,
}
use starstream.Exhaustiveness.Missing.{
  missing_booleans, each_ctor, missing_in_set, missing_column, collect_missing_patterns,
}
use starstream.Exhaustiveness.Meaning.{size_rows}
use starstream.Exhaustiveness.Size.{
  some_head, heads, default_row-size, literal_row-size, filter_map-size, specialize-size,
}
use starstream.Exhaustiveness.Parts.{matrix}
use starstream.Exhaustiveness.Rebuilt.{All-append}
use starstream.Exhaustiveness.Lengths.{
  From-first, From-second, HasLength, Finds, Ends, map-HasLength, unless-HasLength, rebuild-returns,
  missing_ctors-HasLength,
}

module _ (rows : List PatternRow) (ty : Ty) (tys : List Ty) (n : ℕ)
    (smaller : (rows' : List PatternRow) (cols' : List Ty) (n' : ℕ)
      → size_rows rows' < size_rows rows
      → Ends (matrix rows' cols') n')
    (narrower : (rows' : List PatternRow) (cols' : List Ty)
      → size_rows rows' ≤ size_rows rows
      → Ends (matrix rows' cols') n) where
  abbrev this : Matrix
  this = matrix rows (ty ∷ tys)

  default-ends : Ends (default_matrix this) n
  unfolding default_matrix
  default-ends =
      narrower (filter_map default_row rows) tys (filter_map-size default_row rows default_row-size)

  literal-ends : (b : Bool) → Ends (specialize_literal this (boolean b)) n
  unfolding specialize_literal
  literal-ends b =
      narrower (filter_map (literal_row (boolean b)) rows) tys
        (filter_map-size (literal_row (boolean b)) rows (literal_row-size (boolean b)))

  booleans-ends : Finds (suc n) (λ fuel. missing_booleans (collect_missing_patterns fuel) this n)
  unfolding missing_booleans
  booleans-ends = elim (Bool-cases (both_booleans (collect_literals rows []))) [
    | inl q ↦
        let (f, xs, ls, e) = literal-ends true in
        let (g, ys, ls', e') = literal-ends false in
        (
          f + g,
          _,
          All-append (HasLength (suc n)) _ _ (map-HasLength n (literal (boolean true)) xs ls)
              (map-HasLength n (literal (boolean false)) ys ls'),
          λ k.
              let a =
                From-first
                  (λ fuel.
                    collect_missing_patterns fuel (specialize_literal this (boolean true)) n
                    ≡ ok xs)
                  f g e k in
              let b =
                From-second
                  (λ fuel.
                    collect_missing_patterns fuel (specialize_literal this (boolean false)) n
                    ≡ ok ys)
                  f g e' k in
              rw (q, missing_booleans, a, b) refl,
        )
    | inr q ↦
        let (f, xs, ls, e) = default-ends in
        (
          f,
          _,
          All-append (HasLength (suc n)) _ _
              (unless-HasLength n (contains_literal (collect_literals rows []) (boolean false))
                (literal (boolean false)) xs ls)
              (unless-HasLength n (contains_literal (collect_literals rows []) (boolean true))
                (literal (boolean true)) xs ls),
          λ k. let a = e k in rw (q, missing_booleans, a) refl,
        )
  ]

  each_ctor-ends :
      0 < heads rows
      → (infos : CtorSet)
      → Finds (suc n) (λ fuel. each_ctor (collect_missing_patterns fuel) this n infos)
  unfolding each_ctor specialize
  each_ctor-ends h [] = (0, [], tt, λ k. refl)
  each_ctor-ends h (info ∷ infos) =
      let (f, xs, ls, e) =
        smaller (filter_map (specialize_row info.ctor info.arity) rows) (info.field_types ++ tys)
          (info.arity + n) (omega (arith, specialize-size info.ctor info.arity rows)) in
      let (built, e₁, ls₁) = rebuild-returns info n xs ls in
      let (g, rest, ls₂, e₂) = each_ctor-ends h infos in
      (
        f + g,
        built ++ rest,
        All-append (HasLength (suc n)) built rest ls₁ ls₂,
        λ k.
            let a =
              From-first
                (λ fuel.
                  collect_missing_patterns fuel (specialize this info.ctor info) (info.arity + n)
                  ≡ ok xs)
                f g e k in
            let b =
              From-second (λ fuel. each_ctor (collect_missing_patterns fuel) this n infos ≡ ok rest)
                f g e₂ k in
            rw (a, e₁, b) refl,
      )

  set-ends :
      (ctors : CtorSet)
      → Finds (suc n) (λ fuel. missing_in_set (collect_missing_patterns fuel) this n ctors)
  unfolding missing_in_set
  set-ends ctors = elim (Bool-cases (length (collect_ctors rows []) == 0)) [
    | inl q ↦
        let (f, xs, ls, e) = default-ends in
        (f, _, map-HasLength n wildcard xs ls, λ k. let a = e k in rw (q, missing_in_set, a) refl)
    | inr q ↦ elim (Bool-cases (ltb (length (collect_ctors rows [])) (length ctors))) [
      | inl r ↦
          let (f, xs, ls, e) = default-ends in
          (
            f,
            _,
            missing_ctors-HasLength n xs (collect_ctors rows []) ctors ls,
            λ k. let a = e k in rw (q, missing_in_set, r, a) refl,
          )
      | inr r ↦
          let (f, xs, ls, e) =
            each_ctor-ends (some_head rows (λ z. absurd (let q' = (rw z at q) in cc))) ctors in
          (f, xs, ls, λ k. rw (q, missing_in_set, r) (e k))
    ]
  ]

  later :
      Finds (suc n) (λ fuel. missing_column (collect_missing_patterns fuel) this (ty ∷ tys) n)
      → Ends this (suc n)
  unfolding collect_missing_patterns
  later (f, xs, ls, e) =
      (suc f, xs, ls, λ k. let q : k + suc f ≡ suc (k + f) = omega arith in rw q (e k))

  column-ends : Ends this (suc n)
  unfolding collect_missing_patterns missing_column
  column-ends = later (elim (Bool-cases (has_literals rows && is_bool ty)) [
    | inl q ↦ let (f, xs, ls, e) = booleans-ends in (f, xs, ls, λ k. rw (q, missing_column) (e k))
    | inr q ↦ elim (Option-cases (for_type ty)) [
      | inl t ↦ (
        0,
        replicate (suc n) wildcard ∷ [],
        (length-replicate (suc n) wildcard, tt),
        λ k. rw (q, missing_column, t) refl,
      )
      | inr (ctors, t) ↦
          let (f, xs, ls, e) = set-ends ctors in (f, xs, ls, λ k. rw (q, missing_column, t) (e k))
    ]
  ])

empty-HasLength :
    (rows : List PatternRow) → All (HasLength 0) (if length rows == 0 then [] ∷ [] else [])
empty-HasLength rows = elim (Bool-cases (length rows == 0)) [
  | inl e ↦ rw e (refl, tt)
  | inr e ↦ rw e tt
]

returns :
    (s n : ℕ) (rows : List PatternRow) (cols : List Ty)
    → size_rows rows < s
    → Ends (matrix rows cols) n
unfolding collect_missing_patterns missing_column
returns zero n rows cols l = elim l [ ]
returns (suc s) zero rows cols l = (
  1,
  (if is_empty (matrix rows cols) then [] ∷ [] else []),
  empty-HasLength rows,
  λ k. let q : k + 1 ≡ suc k = omega arith in rw q refl,
)
returns (suc s) (suc n) rows [] l = (
  1,
  replicate (suc n) wildcard ∷ [],
  (length-replicate (suc n) wildcard, tt),
  λ k. let q : k + 1 ≡ suc k = omega arith in rw q refl,
)
returns (suc s) (suc n) rows (ty ∷ tys) l =
    column-ends rows ty tys n (λ rows' cols' n' l'. returns s n' rows' cols' (omega arith))
      (λ rows' cols' l'. returns (suc s) n rows' cols' (omega arith))

-- Whatever the matrix, collect_missing_patterns ends in a build without debug assertions: some fuel
-- gives a result, in which every row has as many patterns as there are columns.
pub collect_missing_patterns-ends :
    (m : Matrix) (n : ℕ)
    → (fuel : ℕ) × (found : List PatternRow) × (collect_missing_patterns fuel m n ≡ ok found)
      × All (HasLength n) found
collect_missing_patterns-ends m n =
    let (f, found, ls, e) = returns (suc (size_rows m.rows)) n m.rows m.col_types (omega arith) in
    let q : 0 + f ≡ f = omega arith in (f, found, rw q at (e 0), ls)
