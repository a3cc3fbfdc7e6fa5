-- ===== src/Exhaustiveness/UnitLiteral.antt =====
-- The literal `()` in the exhaustiveness check.
use starstream.Prelude.{
  ℕ, zero, suc, true, ◌≡◌, refl, arith, List, [], ◌∷◌, ok, filter_map, replicate,
}
use starstream.Types.{Ty}
use starstream.Matching.Meaning.{Val, Vals, con, HasTy}
use starstream.Matching.Pattern.{unit_ctor, field_types}
use starstream.Exhaustiveness.Pattern.{unit_value, wildcard, literal, for_type}
use starstream.Exhaustiveness.Useful.{
  PatternRow, default_row, is_useful, useful_column, useful_head, useful_wildcard, has_literals,
  default_matrix,
}
use starstream.Exhaustiveness.Meaning.{covers_any, covers_row, covers}
use starstream.Exhaustiveness.Parts.{matrix}

-- The rows of `n` arms with the pattern `()`.
abbrev pub unit_rows : ℕ → List PatternRow
unit_rows n = replicate n (literal unit_value ∷ [])

default-unit_rows : (n : ℕ) → filter_map default_row (unit_rows n) ≡ []
default-unit_rows zero = refl
default-unit_rows (suc n) = default-unit_rows n

-- After any number of patterns `()`, one at least, on the type `()`, is_useful finds a wildcard
-- useful, whatever the fuel, although the patterns cover every value of the type.
pub is_useful-unit_rows :
    (fuel n : ℕ) (v : Val)
    → HasTy v Ty.unit
    → (is_useful (suc (suc fuel)) (matrix (unit_rows (suc n)) (Ty.unit ∷ [])) (wildcard ∷ [])
        ≡ ok true)
      × (covers_any (unit_rows (suc n)) (v ∷ []) ≡ true)
unfolding is_useful useful_column useful_head useful_wildcard has_literals default_matrix for_type
    covers_any covers_row covers HasTy field_types
is_useful-unit_rows fuel n (con unit_ctor Vals.nil) h = (rw (default-unit_rows n) refl, refl)
is_useful-unit_rows fuel n (con unit_ctor (Vals.cons w ws)) (_, (us, e, h)) =
    let q : us ≡ [] = cc in absurd (rw q at h)
is_useful-unit_rows fuel n v h = absurd (ground arith)
