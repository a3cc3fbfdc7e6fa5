-- ===== src/Exhaustiveness/Check.antt =====
-- typecheck/exhaustiveness.rs: `check_match`, and `missing_patterns` for a `let .. else`.
use starstream.Prelude.{
  ℕ, zero, suc, true, false, if◌then◌else◌, Option, none, some, List, [], ◌∷◌, ◌++◌, filter_map, ok,
  ◌>>=◌,
}
use starstream.Types.{Ty}
use starstream.Matching.Pattern.{Compiled}
use starstream.TypedPattern.{TypedPattern}
use starstream.Exhaustiveness.Pattern.{SimplePat, wildcard}
use starstream.Exhaustiveness.Useful.{PatternRow, Matrix, is_useful}
use starstream.Exhaustiveness.Missing.{collect_missing_patterns}
use starstream.Exhaustiveness.Lower.{lower_pattern}

-- `TypeErrorKind::UnreachablePattern` at an arm and `TypeErrorKind::NonExhaustiveMatch`.
pub data MatchError : Type 0 where
  unreachable_pattern : (arm : ℕ) → MatchError
  non_exhaustive_match : (missing_patterns : List SimplePat) → MatchError

abbrev pub take {ℓ} : {A : Type ℓ} → ℕ → List A → List A
take zero xs = []
take (suc n) [] = []
take (suc n) (x ∷ xs) = x ∷ take n xs

abbrev pub first_pattern : PatternRow → Option SimplePat
first_pattern [] = none
first_pattern (p ∷ ps) = some p

-- The examples in an error message, five at most.
unfoldable pub examples : (fuel : ℕ) → Matrix → Compiled (List SimplePat)
examples fuel m = do
  missing ← collect_missing_patterns fuel m 1
  ok (take 5 (filter_map first_pattern missing))

-- `Matrix::push`
abbrev pub push : Matrix → PatternRow → Matrix
push m row = record m { rows = m.rows ++ row ∷ [] }

-- The loop over the arms, from the arm `arm` on: the matrix of all of them and the errors.
unfoldable pub check_arms :
    (fuel : ℕ)
    → Ty
    → List TypedPattern
    → (arm : ℕ) → Matrix
    → List MatchError
    → Compiled (Matrix × List MatchError)
check_arms fuel ty [] arm m errors = ok (m, errors)
check_arms fuel ty (pattern ∷ arms) arm m errors = do
  p ← lower_pattern pattern ty
  useful ← is_useful fuel m (p ∷ [])
  check_arms fuel ty arms (suc arm) (push m (p ∷ []))
      (if useful then errors else errors ++ unreachable_pattern arm ∷ [])

-- No error is `Ok(())`.
unfoldable pub check_match : (fuel : ℕ) → Ty → List TypedPattern → Compiled (List MatchError)
unfolding examples
check_match fuel scrutinee_type arms = do
  (m, errors) ←
      check_arms fuel scrutinee_type arms 0 (record { rows = []; col_types = scrutinee_type ∷ [] })
        []
  open_ended ← is_useful fuel m (wildcard ∷ [])
  elim open_ended [
    | true ↦ do missing ← examples fuel m; ok (errors ++ non_exhaustive_match missing ∷ [])
    | false ↦ ok errors
  ]

-- No pattern means that `pattern` is irrefutable.
unfoldable pub missing_patterns : (fuel : ℕ) → Ty → TypedPattern → Compiled (List SimplePat)
unfolding examples
missing_patterns fuel scrutinee_type pattern = do
  p ← lower_pattern pattern scrutinee_type
  let m : Matrix = record { rows = (p ∷ []) ∷ []; col_types = scrutinee_type ∷ [] }
  useful ← is_useful fuel m (wildcard ∷ [])
  elim useful [ true ↦ examples fuel m | false ↦ ok [] ]
