-- ===== src/Matching/Correct.antt =====
-- `compile` returns a tree, and the tree chooses the first clause that matches.
use starstream.Prelude.{
  ℕ, zero, suc, ◌<◌, ◌≡◌, refl, arith, true, false, List, [], ◌∷◌, ok, Bool-cases, inl, inr,
}
use starstream.Types.{Ty}
use starstream.Matching.Pattern.{Pat, wildcard, ctor, Row, Compiled, DecisionTree, leaf, fail}
use starstream.Matching.Compile.{all_wildcards, compile_switch, compile, extract_leaf_bindings}
use starstream.Matching.Meaning.{
  RowFits, WellTyped, Val, HaveTypes, run, first, match_row, matches, matrix_size,
}
use starstream.Matching.Columns.{focus-lt}
use starstream.Matching.Slices.{head_constructors-Slices}
use starstream.Matching.Selection.{select_column-CtorAt}
use starstream.Matching.Chosen.{Correct, Compiles, head-ctor}
use starstream.Matching.Switch.{switch-returns}

all_wildcards-match_row :
    (ps : List Pat) (vs : List Val) (ts : List Ty)
    → all_wildcards ps ≡ true
    → RowFits ps ts
    → HaveTypes vs ts
    → match_row ps vs ≡ true
unfolding all_wildcards match_row matches
all_wildcards-match_row [] [] [] k h hv = refl
all_wildcards-match_row (wildcard b ∷ ps) (v ∷ vs) (t ∷ ts) k h hv =
    all_wildcards-match_row ps vs ts k h.1 hv.1
all_wildcards-match_row (ctor c args ∷ ps) vs ts k h hv = cc
all_wildcards-match_row ps vs [] k h hv = ground arith
all_wildcards-match_row ps [] ts k h hv = ground arith
all_wildcards-match_row [] vs ts k h hv = ground arith

-- A matrix whose first row tests a column becomes a switch on it.
compile_switch-Correct :
    (rec : List Row → List Ty → Compiled DecisionTree) (r : Row) (rs : List Row) (ts : List Ty)
    → Compiles rec (matrix_size (r ∷ rs))
    → WellTyped (r ∷ rs) ts
    → all_wildcards r.row ≡ false
    → (t : DecisionTree) × (compile_switch rec (r ∷ rs) ts ≡ ok t) × Correct (r ∷ rs) ts t
compile_switch-Correct rec r rs ts compiles h w =
    let (i, e, l, at_row) = select_column-CtorAt r rs ts h w in
    let ((tb, ty, ta), at) = focus-lt ts i l in
    let (sigma, heads, sl, a) = head_constructors-Slices tb ty ta i ts at (r ∷ rs) h in
    let ((c, cs, q), some_ctor) = head-ctor tb ty ta i sigma r rs sl at_row in
    switch-returns rec (r ∷ rs) ts compiles tb ty ta i at sigma sl some_ctor e heads a c cs q

-- A matrix is compiled to a correct tree, with fuel for the constructors in it.
compile-returns :
    (fuel : ℕ) (rows : List Row) (ts : List Ty)
    → WellTyped rows ts
    → matrix_size rows < fuel
    → (t : DecisionTree) × (compile fuel rows ts ≡ ok t) × Correct rows ts t
unfolding compile run first
compile-returns zero rows ts h l = elim l [ ]
compile-returns (suc fuel) [] ts h l = (fail, refl, λ vs hv. refl)
compile-returns (suc fuel) (r ∷ rs) ts h l = elim (Bool-cases (all_wildcards r.row)) [
  | inl k ↦ (
    leaf r.action (extract_leaf_bindings r),
    rw (k, compile),
    λ vs hv. rw (all_wildcards-match_row r.row vs ts k h.0 hv, first),
  )
  | inr k ↦
      let (t, e, c) =
        compile_switch-Correct (compile fuel) r rs ts
          (λ rows' ts' h' l'. compile-returns fuel rows' ts' h' (omega arith)) h k in
      (t, rw (k, compile) e, c)
]

-- The compilation of a well-typed clause matrix returns a tree: it does not index out of range, and
-- it ends when the fuel exceeds the number of constructors in the matrix.
pub compile-ends :
    (fuel : ℕ) (rows : List Row) (ts : List Ty)
    → WellTyped rows ts
    → matrix_size rows < fuel
    → (t : DecisionTree) × (compile fuel rows ts ≡ ok t)
compile-ends fuel rows ts h l = let (t, e, _) = compile-returns fuel rows ts h l in (t, e)

-- On values of the matched types, the compiled tree chooses the action of the first row that matches
-- them, and traps exactly when no row does.
pub run-compile :
    (fuel : ℕ) (rows : List Row) (ts : List Ty) (t : DecisionTree) (vs : List Val)
    → WellTyped rows ts
    → matrix_size rows < fuel
    → compile fuel rows ts ≡ ok t
    → HaveTypes vs ts
    → run t vs ≡ first rows vs
run-compile fuel rows ts t vs h l e hv =
    let (t', e', c) = compile-returns fuel rows ts h l in
    let same : t' ≡ t = cc in rw (← same) (c vs hv)
