-- ===== src/Exhaustiveness/Unreachable.antt =====
-- An arm that the exhaustiveness check reports as unreachable is never taken.
use starstream.Prelude.{
  ℕ, suc, ◌<◌, ◌≤◌, ◌≡◌, ◌≢◌, ◌⊎◌, Bool, true, false, refl, ap, sym, ◌∙◌, arith, if◌then◌else◌,
  some, List, [], ◌∷◌, ◌++◌, All, ok, ◌>>=◌, >>=-returns, Bool-cases, inl, inr,
}
use starstream.Types.{Ty}
use starstream.Matching.Pattern.{Compiled, Row, DecisionTree, Pat}
use starstream.Matching.Compile.{compile}
use starstream.Matching.Meaning.{Val, HasTy, first, match_row, matches, run, matrix_size}
use starstream.Matching.Lower as Tree
use starstream.Matching.Lower.{lower_arms}
use starstream.Matching.Correct.{run-compile}
use starstream.TypedPattern.{TypedPattern, PatternFits}
use starstream.Exhaustiveness.Pattern.{SimplePat, wildcard}
use starstream.Exhaustiveness.Useful.{PatternRow, Matrix, is_useful}
use starstream.Exhaustiveness.Lower.{lower_pattern}
use starstream.Exhaustiveness.Meaning.{covers, covers_row, covers_any, RowsFit, SimpleFits}
use starstream.Exhaustiveness.Agree.{lower_pattern-Agreed}
use starstream.Exhaustiveness.Parts.{matrix}
use starstream.Exhaustiveness.Sound.{is_useful-covers_any}
use starstream.Exhaustiveness.Check.{
  MatchError, unreachable_pattern, non_exhaustive_match, check_arms, check_match, push, examples,
}
use starstream.Exhaustiveness.Total.{lower_arms-WellTyped}

-- The arm `j` is reported.
abbrev pub Reports : ℕ → List MatchError → Type 0
Reports j [] = ⊥
Reports j (e ∷ es) = (e ≡ unreachable_pattern j) ⊎ Reports j es

Reports-append :
    (j k : ℕ) (es : List MatchError)
    → Reports j (es ++ unreachable_pattern k ∷ [])
    → Reports j es ⊎ (k ≡ j)
Reports-append j k [] (inl q) = inr (ground arith)
Reports-append j k [] (inr h) = absurd h
Reports-append j k (e ∷ es) (inl q) = inl (inl q)
Reports-append j k (e ∷ es) (inr h) = elim (Reports-append j k es h) [
  | inl r ↦ inl (inr r)
  | inr q ↦ inr q
]

-- The errors after an arm.
abbrev errors_after : Bool → ℕ → List MatchError → List MatchError
errors_after useful k errors = if useful then errors else errors ++ unreachable_pattern k ∷ []

Reports-errors_after :
    (useful : Bool) (j k : ℕ) (es : List MatchError)
    → Reports j (errors_after useful k es)
    → Reports j es ⊎ ((k ≡ j) × (useful ≡ false))
Reports-errors_after true j k es h = inl h
Reports-errors_after false j k es h = elim (Reports-append j k es h) [
  | inl r ↦ inl r
  | inr q ↦ inr (q, refl)
]

-- From the arm `k` on, no arm before it is reported.
Reports-check_arms :
    (fuel : ℕ) (ty : Ty) (arms : List TypedPattern) (k : ℕ) (m : Matrix) (errors : List MatchError)
    (m' : Matrix) (errors' : List MatchError) (j : ℕ)
    → check_arms fuel ty arms k m errors ≡ ok (m', errors')
    → j < k
    → Reports j errors'
    → Reports j errors
unfolding check_arms
Reports-check_arms fuel ty [] k m errors m' errors' j h l r =
    let q : errors' ≡ errors = cc in rw (← q) r
Reports-check_arms fuel ty (arm ∷ arms) k m errors m' errors' j h l r =
    let (p, e, h₁) = >>=-returns (lower_pattern arm ty) _ h in
    let (useful, e', h₂) = >>=-returns (is_useful fuel m (p ∷ [])) _ h₁ in
    elim (Reports-errors_after useful j k errors (
      Reports-check_arms fuel ty arms (suc k) (push m (p ∷ [])) (errors_after useful k errors) m'
        errors' j h₂ (omega arith) r)) [ inl s ↦ s | inr s ↦ absurd (let q = s.0 in omega arith) ]

first-lower_arms :
    (arms : List TypedPattern) (k : ℕ) (ty : Ty) (rows : List Row) (vs : List Val) (a : ℕ)
    → lower_arms k arms ty ≡ ok rows
    → first rows vs ≡ some a
    → k ≤ a
unfolding lower_arms first
first-lower_arms [] k ty rows vs a h f = let q : [] ≡ rows = cc in absurd (ground arith)
first-lower_arms (arm ∷ arms) k ty rows vs a h f =
    let (q, e, h₁) = >>=-returns (Tree.lower_pattern k arm ty) _ h in
    let (rest, e', h₂) = >>=-returns (lower_arms (suc k) arms ty) _ h₁ in
    let same : record { row = q ∷ []; action = k } ∷ rest ≡ rows = cc in
    elim (Bool-cases (match_row (q ∷ []) vs)) [
      | inl t ↦ ground arith
      | inr t ↦ ground (arith, first-lower_arms arms (suc k) ty rest vs a e')
    ]

covers_any-push :
    (sr : List PatternRow) (s : SimplePat) (v : Val)
    → covers_any sr (v ∷ []) ≡ false
    → covers s v ≡ false
    → covers_any (sr ++ (s ∷ []) ∷ []) (v ∷ []) ≡ false
unfolding covers_any covers_row
covers_any-push [] s v h c = ground arith
covers_any-push (row ∷ sr) s v h c = elim (Bool-cases (covers_row row (v ∷ []))) [
  | inl t ↦ ground arith
  | inr t ↦ rw t (covers_any-push sr s v (ground arith) c)
]

RowsFit-push :
    (sr : List PatternRow) (s : SimplePat) (ty : Ty)
    → RowsFit sr (ty ∷ [])
    → SimpleFits s ty
    → RowsFit (sr ++ (s ∷ []) ∷ []) (ty ∷ [])
RowsFit-push [] s ty h f = ((f, tt), tt)
RowsFit-push (row ∷ sr) s ty h f = (h.0, RowsFit-push sr s ty h.1 f)

-- A value that an arm takes and that no arm before it takes: the arm is useful.
not-reported :
    (fuel : ℕ) (ty : Ty) (sr : List PatternRow) (s : SimplePat) (v : Val) (useful : Bool)
    → RowsFit sr (ty ∷ [])
    → is_useful fuel (matrix sr (ty ∷ [])) (s ∷ []) ≡ ok useful
    → HasTy v ty
    → covers_any sr (v ∷ []) ≡ false
    → covers s v ≡ true
    → useful ≢ false
unfolding covers_row
not-reported fuel ty sr s v useful fit e hv none_before c u =
    let covered : covers_any sr (v ∷ []) ≡ true =
      is_useful-covers_any fuel (matrix sr (ty ∷ [])) (s ∷ []) (v ∷ []) fit (hv, tt) (e ∙ ap ok u)
        (rw c refl) in
    cc

taken-first :
    (q : Pat) (rest : List Row) (k : ℕ) (v : Val) (j : ℕ)
    → matches q v ≡ true
    → first (record { row = q ∷ []; action = k } ∷ rest) (v ∷ []) ≡ some j
    → k ≡ j
unfolding match_row first
taken-first q rest k v j c f = ground arith

left-first :
    (q : Pat) (rest : List Row) (k : ℕ) (v : Val) (j : ℕ)
    → matches q v ≡ false
    → first (record { row = q ∷ []; action = k } ∷ rest) (v ∷ []) ≡ some j
    → first rest (v ∷ []) ≡ some j
unfolding match_row first
left-first q rest k v j c f = ground arith

Reports-last :
    (j : ℕ) (e : MatchError) (es : List MatchError)
    → e ≢ unreachable_pattern j
    → Reports j (es ++ e ∷ [])
    → Reports j es
Reports-last j e [] n (inl q) = n q
Reports-last j e [] n (inr h) = h
Reports-last j e (x ∷ es) n (inl q) = inl q
Reports-last j e (x ∷ es) n (inr h) = inr (Reports-last j e es n h)

-- The verdict on the whole match reports no arm.
Reports-verdict :
    (j : ℕ) (open_ended : Bool) (missing : Compiled (List SimplePat))
    (seen errors : List MatchError)
    → (elim open_ended [
      | true ↦ do ms ← missing; ok (seen ++ non_exhaustive_match ms ∷ [])
      | false ↦ ok seen
    ])
      ≡ ok errors
    → Reports j errors
    → Reports j seen
Reports-verdict j false missing seen errors h r = let q : errors ≡ seen = cc in rw (← q) r
Reports-verdict j true missing seen errors h r =
    let (ms, e, h₁) = >>=-returns missing _ h in
    let q : errors ≡ seen ++ non_exhaustive_match ms ∷ [] = cc in
    Reports-last j (non_exhaustive_match ms) seen (λ x. cc) (rw (← q) r)

arms-unreachable :
    (fuel : ℕ) (ty : Ty) (arms : List TypedPattern) (k : ℕ) (sr : List PatternRow)
    (errors : List MatchError) (m' : Matrix) (errors' : List MatchError) (rows : List Row) (j : ℕ)
    (v : Val)
    → All (λ p. PatternFits p ty) arms
    → RowsFit sr (ty ∷ [])
    → check_arms fuel ty arms k (matrix sr (ty ∷ [])) errors ≡ ok (m', errors')
    → lower_arms k arms ty ≡ ok rows
    → HasTy v ty
    → covers_any sr (v ∷ []) ≡ false
    → ¬ Reports j errors
    → Reports j errors'
    → first rows (v ∷ []) ≢ some j
unfolding check_arms lower_arms match_row first
arms-unreachable fuel ty [] k sr errors m' errors' rows j v fits fit h low hv none_before n r f =
    let q : [] ≡ rows = cc in absurd (ground arith)
arms-unreachable fuel ty (arm ∷ arms) k sr errors m' errors' rows j v fits fit h low hv none_before
      n r f =
    let (s, q, es, eq, fs, fq, m) = lower_pattern-Agreed k arm ty fits.0 in
    let (p, e, h₁) = >>=-returns (lower_pattern arm ty) _ h in
    let (useful, e', h₂) = >>=-returns (is_useful fuel (matrix sr (ty ∷ [])) (p ∷ [])) _ h₁ in
    let (q', eq', low₁) = >>=-returns (Tree.lower_pattern k arm ty) _ low in
    let (rest, er, low₂) = >>=-returns (lower_arms (suc k) arms ty) _ low₁ in
    let same : p ≡ s = cc in
    let same' : q' ≡ q = cc in
    let mv = m v in
    let agrees : matches q' v ≡ covers p v = cc in
    let fp : SimpleFits p ty = rw same fs in
    let f' : first (record { row = q' ∷ []; action = k } ∷ rest) (v ∷ []) ≡ some j = cc in
    elim (Bool-cases (covers p v)) [
      | inl c ↦
          let same_arm = taken-first q' rest k v j (agrees ∙ c) f' in
          elim (Reports-errors_after useful j k errors (
            Reports-check_arms fuel ty arms (suc k) (push (matrix sr (ty ∷ [])) (p ∷ []))
              (errors_after useful k errors) m' errors' j h₂ (omega arith) r)) [
                | inl s ↦ n s
                | inr u ↦ not-reported fuel ty sr p v useful fit e' hv none_before c u.1
              ]
      | inr c ↦
          let later = left-first q' rest k v j (agrees ∙ c) f' in
          arms-unreachable fuel ty arms (suc k) (sr ++ (p ∷ []) ∷ []) (errors_after useful k errors)
            m' errors' rest j v fits.1 (RowsFit-push sr p ty fit fp) h₂ er hv
            (covers_any-push sr p v none_before c)
            (λ s. elim (Reports-errors_after useful j k errors s) [
              | inl t ↦ n t
              | inr u ↦
                  let bound = first-lower_arms arms (suc k) ty rest (v ∷ []) j er later in
                  let t = u.0 in omega arith
            ])
            r later
    ]

-- An arm that check_match reports as unreachable is never taken: whatever the value of the matched
-- type, the decision tree that code generation makes of the arms chooses another action or traps.
pub run-unreachable_pattern :
    (fuel depth : ℕ) (ty : Ty) (arms : List TypedPattern) (errors : List MatchError)
    (rows : List Row) (t : DecisionTree) (v : Val) (j : ℕ)
    → All (λ p. PatternFits p ty) arms
    → check_match fuel ty arms ≡ ok errors
    → Reports j errors
    → lower_arms 0 arms ty ≡ ok rows
    → matrix_size rows < depth
    → compile depth rows (ty ∷ []) ≡ ok t
    → HasTy v ty
    → run t (v ∷ []) ≢ some j
unfolding check_match covers_any
run-unreachable_pattern fuel depth ty arms errors rows t v j fits checked r lowered l compiled hv
      q =
    let ((m, seen), e₁, h₁) =
      >>=-returns (check_arms fuel ty arms 0 (matrix [] (ty ∷ [])) []) _ checked in
    let (useful, e₂, h₂) = >>=-returns (is_useful fuel m (wildcard ∷ [])) _ h₁ in
    let chosen =
      run-compile depth rows (ty ∷ []) t (v ∷ []) (lower_arms-WellTyped arms 0 ty rows fits lowered)
        l compiled (hv, tt) in
    arms-unreachable fuel ty arms 0 [] [] m seen rows j v fits tt e₁ lowered hv refl (λ x. x)
      (Reports-verdict j useful (examples fuel m) seen errors h₂ r) (sym chosen ∙ q)
