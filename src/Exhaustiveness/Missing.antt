-- ===== src/Exhaustiveness/Missing.antt =====
-- typecheck/exhaustiveness.rs: `collect_missing_patterns`, the patterns that an error message shows.
use starstream.Prelude.{
  ℕ, zero, suc, ◌+◌, ◌==◌, ltb, true, false, ◌&&◌, if◌then◌else◌, none, some, List, [], ◌∷◌, ◌++◌,
  length, replicate, map, Outcome, ok, err, panic, ◌>>=◌,
}
use starstream.Types.{Ty}
use starstream.Matching.Pattern.{Compiled, Fuel, out_of_fuel}
use starstream.Exhaustiveness.Pattern.{
  boolean, Ctor, wildcard, ctor, literal, simple_pats, CtorInfo, CtorSet, for_type,
}
use starstream.Exhaustiveness.Useful.{
  PatternRow, Matrix, is_empty, contains_ctor, contains_literal, collect_first_column_ctors,
  collect_first_column_literals, has_literals_in_first_column, specialize, default_matrix,
  specialize_literal, is_bool, both_booleans,
}

-- `xs.split_at(n)`, which panics past the end.
unfoldable pub split_at {ℓ} : {A : Type ℓ} → ℕ → List A → Outcome Fuel (List A × List A)
split_at zero xs = ok ([], xs)
split_at (suc n) [] = panic
split_at (suc n) (x ∷ xs) = do (before, after) ← split_at n xs; ok (x ∷ before, after)

-- The rows of a specialized matrix, with the constructor put back.
unfoldable pub rebuild : CtorInfo → List PatternRow → Compiled (List PatternRow)
rebuild info [] = ok []
rebuild info (row ∷ rows) = do
  (args, after) ← split_at info.arity row
  rest ← rebuild info rows
  ok ((ctor info.ctor (simple_pats args) ∷ after) ∷ rest)

-- The constructors that no row has, each with every tail.
unfoldable pub missing_ctors : List Ctor → List PatternRow → CtorSet → List PatternRow
missing_ctors seen tails [] = []
missing_ctors seen tails (info ∷ infos) =
    (if contains_ctor seen info.ctor
      then []
      else map (λ tail. ctor info.ctor (simple_pats (replicate info.arity wildcard)) ∷ tail) tails)
    ++ missing_ctors seen tails infos

-- `collect_missing_patterns`, which passes the smaller matrices to `rec`; `n` columns are left after
-- the first.
module _ (rec : Matrix → ℕ → Compiled (List PatternRow)) where
  unfoldable pub missing_booleans : Matrix → (n : ℕ) → Compiled (List PatternRow)
  missing_booleans m n =
      let literals = collect_first_column_literals m in
      elim (both_booleans literals) [
        | true ↦ do
          when_true ← rec (specialize_literal m (boolean true)) n
          when_false ← rec (specialize_literal m (boolean false)) n
          ok (
              map (λ row. literal (boolean true) ∷ row) when_true
              ++ map (λ row. literal (boolean false) ∷ row) when_false)
        | false ↦ do
          tails ← rec (default_matrix m) n
          ok (
              (if contains_literal literals (boolean false)
                then []
                else map (λ row. literal (boolean false) ∷ row) tails)
              ++ (if contains_literal literals (boolean true)
                  then []
                  else map (λ row. literal (boolean true) ∷ row) tails))
      ]

  unfoldable pub each_ctor : Matrix → (n : ℕ) → CtorSet → Compiled (List PatternRow)
  each_ctor m n [] = ok []
  each_ctor m n (info ∷ infos) = do
    missing ← rec (specialize m info.ctor info) (info.arity + n)
    rows ← rebuild info missing
    rest ← each_ctor m n infos
    ok (rows ++ rest)

  unfoldable pub missing_in_set : Matrix → (n : ℕ) → CtorSet → Compiled (List PatternRow)
  missing_in_set m n ctors =
      let seen = collect_first_column_ctors m in
      elim (length seen == 0) [
        | true ↦ do tails ← rec (default_matrix m) n; ok (map (λ row. wildcard ∷ row) tails)
        | false ↦ elim (ltb (length seen) (length ctors)) [
          | true ↦ do tails ← rec (default_matrix m) n; ok (missing_ctors seen tails ctors)
          | false ↦ each_ctor m n ctors
        ]
      ]

  unfoldable pub missing_column : Matrix → List Ty → (n : ℕ) → Compiled (List PatternRow)
  missing_column m [] n = ok (replicate (suc n) wildcard ∷ [])
  missing_column m (ty ∷ tys) n = elim (has_literals_in_first_column m && is_bool ty) [
    | true ↦ missing_booleans m n
    | false ↦ elim (for_type ty) [
      | none ↦ ok (replicate (suc n) wildcard ∷ [])
      | some ctors ↦ missing_in_set m n ctors
    ]
  ]

unfoldable pub collect_missing_patterns : (fuel : ℕ) → Matrix → (n : ℕ) → Compiled (List PatternRow)
unfolding missing_column missing_in_set each_ctor missing_booleans missing_ctors rebuild split_at
collect_missing_patterns zero m n = err out_of_fuel
collect_missing_patterns (suc fuel) m zero = ok (if is_empty m then [] ∷ [] else [])
collect_missing_patterns (suc fuel) m (suc n) =
    missing_column (collect_missing_patterns fuel) m m.col_types n
