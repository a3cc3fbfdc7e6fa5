-- ===== src/Exhaustiveness/Total.antt =====
-- A match that the exhaustiveness check accepts takes an arm on every value.
use starstream.Prelude.{
  ℕ, suc, ◌<◌, true, ◌≡◌, ◌≢◌, refl, arith, ap, sym, ◌∙◌, some, List, [], ◌∷◌, ◌++◌, All, ok, err,
  panic, ◌>>=◌, >>=-returns, Bool-cases, inl, inr,
}
use mathlib.Core.List.{append-nil, append_assoc}
use starstream.Types.{Ty}
use starstream.Matching.Pattern.{Compiled, Row, DecisionTree, Pat}
use starstream.Matching.Compile.{compile}
use starstream.Matching.Meaning.{Val, HasTy, WellTyped, first, match_row, matches, run, matrix_size}
use starstream.Matching.Lower.{lower_arms}
use starstream.Matching.Correct.{run-compile}
use starstream.TypedPattern.{TypedPattern, PatternFits}
use starstream.Exhaustiveness.Pattern.{SimplePat, wildcard}
use starstream.Exhaustiveness.Useful.{PatternRow, Matrix, is_useful}
use starstream.Exhaustiveness.Lower.{lower_pattern}
use starstream.Exhaustiveness.Meaning.{covers, covers_row, covers_any, RowsFit}
use starstream.Exhaustiveness.Agree.{lower_pattern-Agreed}
use starstream.Exhaustiveness.Parts.{matrix}
use starstream.Exhaustiveness.Sound.{is_useful-covers_any}
use starstream.Exhaustiveness.Check.{
  MatchError, non_exhaustive_match, check_arms, check_match, push,
}

-- The rows that the check makes of the arms.
simple_rows : List TypedPattern → Ty → Compiled (List PatternRow)
simple_rows [] ty = ok []
simple_rows (arm ∷ arms) ty = do
  p ← lower_pattern arm ty
  rows ← simple_rows arms ty
  ok ((p ∷ []) ∷ rows)

check_arms-simple_rows :
    (fuel : ℕ) (ty : Ty) (arms : List TypedPattern) (k : ℕ) (m : Matrix) (errors : List MatchError)
    (m' : Matrix) (errors' : List MatchError)
    → check_arms fuel ty arms k m errors ≡ ok (m', errors')
    → (rows : List PatternRow) × (simple_rows arms ty ≡ ok rows)
      × (m' ≡ matrix (m.rows ++ rows) m.col_types)
unfolding check_arms simple_rows
check_arms-simple_rows fuel ty [] k m errors m' errors' h =
    let q : m' ≡ m = cc in ([], refl, q ∙ ap (λ r. matrix r m.col_types) (sym (append-nil m.rows)))
check_arms-simple_rows fuel ty (arm ∷ arms) k m errors m' errors' h =
    let (p, e, h₁) = >>=-returns (lower_pattern arm ty) _ h in
    let (useful, e', h₂) = >>=-returns (is_useful fuel m (p ∷ [])) _ h₁ in
    let (rows, e₃, r) =
      check_arms-simple_rows fuel ty arms (suc k) (push m (p ∷ [])) _ m' errors' h₂ in
    (
      (p ∷ []) ∷ rows,
      rw (e, ◌>>=◌) (rw e₃),
      r ∙ ap (λ x. matrix x m.col_types) (append_assoc m.rows ((p ∷ []) ∷ []) rows),
    )

-- An error of the check is not lost.
no_error :
    (missing : Compiled (List SimplePat)) (errors : List MatchError)
    → (do examples ← missing; ok (errors ++ non_exhaustive_match examples ∷ [])) ≢ ok []
no_error panic errors h = cc
no_error (err e) errors h = cc
no_error (ok x) [] h = cc
no_error (ok x) (e ∷ errors) h = cc

-- The first arm is taken, or one of the rest.
arm-taken :
    (s : SimplePat) (q : Pat) (sr : List PatternRow) (rows : List Row) (k : ℕ) (v : Val)
    → matches q v ≡ covers s v
    → (covers_any sr (v ∷ []) ≡ true → (a : ℕ) × (first rows (v ∷ []) ≡ some a))
    → covers_any ((s ∷ []) ∷ sr) (v ∷ []) ≡ true
    → (a : ℕ) × (first (record { row = q ∷ []; action = k } ∷ rows) (v ∷ []) ≡ some a)
unfolding covers_any covers_row match_row first
arm-taken s q sr rows k v m t c = elim (Bool-cases (covers s v)) [
  | inl e ↦ (k, ground arith)
  | inr e ↦ let (a, f) = t (ground arith) in (a, ground arith)
]

-- What both lowerings make of the arms.
lower_arms-simple_rows :
    (arms : List TypedPattern) (k : ℕ) (ty : Ty)
    → All (λ p. PatternFits p ty) arms
    → (sr : List PatternRow) × (rows : List Row) × (simple_rows arms ty ≡ ok sr)
      × (lower_arms k arms ty ≡ ok rows)
      × RowsFit sr (ty ∷ [])
      × WellTyped rows (ty ∷ [])
      × ((v : Val) → covers_any sr (v ∷ []) ≡ true → (a : ℕ) × (first rows (v ∷ []) ≡ some a))
unfolding simple_rows lower_arms covers_any first
lower_arms-simple_rows [] k ty h = ([], [], refl, refl, tt, tt, λ v c. absurd (ground arith))
lower_arms-simple_rows (arm ∷ arms) k ty h =
    let (s, q, es, eq, fs, fq, m) = lower_pattern-Agreed k arm ty h.0 in
    let (sr, rows, e, e', f, w, t) = lower_arms-simple_rows arms (suc k) ty h.1 in
    (
      (s ∷ []) ∷ sr,
      record { row = q ∷ []; action = k } ∷ rows,
      rw (es, ◌>>=◌) (rw e),
      rw (eq, ◌>>=◌) (rw e'),
      ((fs, tt), f),
      ((fq, tt), w),
      λ v c. arm-taken s q sr rows k v (m v) (t v) c,
    )

-- A match that the check accepts leaves no value: the arms are the rows of an exhaustive matrix.
accepted :
    (fuel : ℕ) (ty : Ty) (arms : List TypedPattern) (sr : List PatternRow)
    → simple_rows arms ty ≡ ok sr
    → RowsFit sr (ty ∷ [])
    → check_match fuel ty arms ≡ ok []
    → (v : Val) → HasTy v ty
    → covers_any sr (v ∷ []) ≡ true
unfolding check_match covers_row covers
accepted fuel ty arms sr e fit h v hv =
    let ((m, errors), e₁, h₁) =
      >>=-returns (check_arms fuel ty arms 0 (matrix [] (ty ∷ [])) []) _ h in
    let (rows, e₂, r) =
      check_arms-simple_rows fuel ty arms 0 (matrix [] (ty ∷ [])) [] m errors e₁ in
    let (useful, e₃, h₂) = >>=-returns (is_useful fuel m (wildcard ∷ [])) _ h₁ in
    let same : rows ≡ sr = cc in
    elim (Bool-cases useful) [
      | inl u ↦ absurd (no_error _ errors (rw u at h₂))
      | inr u ↦
          is_useful-covers_any fuel (matrix sr (ty ∷ [])) (wildcard ∷ []) (v ∷ []) fit (hv, tt)
            (rw (← same) (rw (← r) (e₃ ∙ ap ok u))) refl
    ]

-- A match that check_match accepts takes an arm on every value of its type: the decision tree that
-- code generation makes of the arms chooses an action and does not trap.
pub check_match-run :
    (fuel depth : ℕ) (ty : Ty) (arms : List TypedPattern) (rows : List Row) (t : DecisionTree)
    (v : Val)
    → All (λ p. PatternFits p ty) arms
    → check_match fuel ty arms ≡ ok []
    → lower_arms 0 arms ty ≡ ok rows
    → matrix_size rows < depth
    → compile depth rows (ty ∷ []) ≡ ok t
    → HasTy v ty
    → (action : ℕ) × (run t (v ∷ []) ≡ some action)
check_match-run fuel depth ty arms rows t v h checked lowered l compiled hv =
    let (sr, rows', e, e', f, w, takes) = lower_arms-simple_rows arms 0 ty h in
    let same : rows' ≡ rows = cc in
    let (a, q) = takes v (accepted fuel ty arms sr e f checked v hv) in
    (
      a,
      run-compile depth rows (ty ∷ []) t (v ∷ []) (rw (← same) w) l compiled (hv, tt)
          ∙ rw (← same) q,
    )

-- The rows that code generation makes of arms that fit the type are well typed.
pub lower_arms-WellTyped :
    (arms : List TypedPattern) (k : ℕ) (ty : Ty) (rows : List Row)
    → All (λ p. PatternFits p ty) arms
    → lower_arms k arms ty ≡ ok rows
    → WellTyped rows (ty ∷ [])
lower_arms-WellTyped arms k ty rows h e =
    let (sr, rows', _, e', _, w, _) = lower_arms-simple_rows arms k ty h in
    let same : rows' ≡ rows = cc in rw (← same) w
