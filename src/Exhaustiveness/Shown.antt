-- ===== src/Exhaustiveness/Shown.antt =====
-- The examples of the error message `NonExhaustiveMatch`.
use starstream.Prelude.{
  ◌≢◌, ℕ, zero, suc, ◌≤◌, true, false, ◌≡◌, refl, arith, List, [], ◌∷◌, length, All, filter_map, ok,
}
use starstream.Types.{Ty}
use starstream.Matching.Meaning.{Val}
use starstream.Exhaustiveness.Pattern.{SimplePat, wildcard}
use starstream.Exhaustiveness.Useful.{PatternRow, is_useful}
use starstream.Exhaustiveness.Check.{take, first_pattern, examples}
use starstream.Exhaustiveness.Meaning.{covers, covers_row, covers_any}
use starstream.Exhaustiveness.Parts.{matrix}
use starstream.Exhaustiveness.Listed.{RowsListed}
use starstream.Exhaustiveness.Uncovered.{Uncovered}
use starstream.Exhaustiveness.Examples.{Misses-collect}
use starstream.Exhaustiveness.Silent.{Silent-collect}
use starstream.Exhaustiveness.Lengths.{HasLength}
use starstream.Exhaustiveness.Found.{collect_missing_patterns-ends}

-- No row covers a value that the pattern covers.
abbrev pub PatternUncovered : List PatternRow → SimplePat → Type 0
PatternUncovered rows p = (v : Val) → covers p v ≡ true → covers_any rows (v ∷ []) ≡ false

first_pattern-Uncovered :
    (rows found : List PatternRow)
    → All (HasLength 1) found
    → All (Uncovered rows) found
    → All (PatternUncovered rows) (filter_map first_pattern found)
unfolding covers_row
first_pattern-Uncovered rows [] l u = tt
first_pattern-Uncovered rows ([] ∷ found) l u = absurd (omega arith)
first_pattern-Uncovered rows ((p ∷ []) ∷ found) l u =
    ((λ v c. u.0 (v ∷ []) (ground arith)), first_pattern-Uncovered rows found l.1 u.1)
first_pattern-Uncovered rows ((p ∷ q ∷ ps) ∷ found) l u = absurd (omega arith)

module _ {ℓ} {A : Type ℓ} where
  take-All : (P : A → Type 0) (n : ℕ) (xs : List A) → All P xs → All P (take n xs)
  take-All P zero xs h = tt
  take-All P (suc n) [] h = tt
  take-All P (suc n) (x ∷ xs) h = (h.0, take-All P n xs h.1)

  length-take : (n : ℕ) (xs : List A) → length (take n xs) ≤ n
  length-take zero xs = omega arith
  length-take (suc n) [] = omega arith
  length-take (suc n) (x ∷ xs) = omega (arith, length-take n xs)

-- Some row is found, and its pattern is the first example.
first_shown :
    (found : List PatternRow)
    → found ≢ []
    → All (HasLength 1) found
    → (p : SimplePat) × (shown : List SimplePat) × (take 5 (filter_map first_pattern found)
        ≡ p ∷ shown)
first_shown [] n l = absurd (n refl)
first_shown ([] ∷ found) n l = absurd (omega arith)
first_shown ((p ∷ ps) ∷ found) n l = (p, take 4 (filter_map first_pattern found), refl)

carried :
    (rows : List PatternRow) (ps : List SimplePat) (p : SimplePat) (shown : List SimplePat)
    → ps ≡ p ∷ shown
    → length ps ≤ 5
    → All (PatternUncovered rows) ps
    → (length (p ∷ shown) ≤ 5) × All (PatternUncovered rows) (p ∷ shown)
carried rows ps p shown q l u = (rw q at l, rw q at u)

-- Where the constructors of the rows are those that the type lists, their literals are Booleans and
-- is_useful says that the match is not exhaustive, the examples of the error message are found: some
-- fuel gives them, one at least and five at most, and no row covers a value that one of them covers.
pub examples-Uncovered :
    (rows : List PatternRow) (ty : Ty) (more : ℕ)
    → RowsListed rows (ty ∷ [])
    → is_useful more (matrix rows (ty ∷ [])) (wildcard ∷ []) ≡ ok true
    → (fuel : ℕ) × (p : SimplePat) × (shown : List SimplePat) × (examples fuel
          (matrix rows (ty ∷ []))
        ≡ ok (p ∷ shown))
      × (length (p ∷ shown) ≤ 5)
      × All (PatternUncovered rows) (p ∷ shown)
unfolding examples
examples-Uncovered rows ty more listed useful =
    let (fuel, found, e, ls) = collect_missing_patterns-ends (matrix rows (ty ∷ [])) 1 in
    let u = Misses-collect fuel rows (ty ∷ []) found listed e in
    let some_found : found ≢ [] =
      λ z. let f = Silent-collect fuel more rows (ty ∷ []) true listed (rw z at e) useful in cc in
    let (p, shown, q) = first_shown found some_found ls in
    let (l, a) = carried rows _ p shown q (length-take 5 (filter_map first_pattern found)) (
      take-All (PatternUncovered rows) 5 (filter_map first_pattern found)
        (first_pattern-Uncovered rows found ls u)) in
    (fuel, p, shown, rw (e, q) refl, l, a)
