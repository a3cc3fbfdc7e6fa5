-- ===== src/Matching/Selection.antt =====
-- The column that `select_column` chooses: the first row has a constructor there.
use starstream.Prelude.{
  ℕ, zero, suc, ◌+◌, ◌<◌, ◌≤◌, ◌≡◌, refl, arith, true, false, List, [], ◌∷◌, length, ok, ◌>>=◌,
  >>=-returns, Bool-cases, inl, inr, ◌⊎◌, ltb, if◌then◌else◌, ℕ_discrete,
}
use native.Mathlib.Nat.{le_trans}
use starstream.Types.{Ty}
use starstream.Matching.Pattern.{Pat, wildcard, ctor, Row}
use starstream.Matching.Compile.{focus, is_ctor, all_wildcards, score, best_column, select_column}
use starstream.Matching.Meaning.{Fits, WellTyped}
use starstream.Matching.Columns.{length-Forall2, focus-lt}

-- The column of a row that has this pattern.
abbrev pub CtorAt : List Pat → ℕ → Type 0
CtorAt ps i =
    (b : List Pat) × (p : Pat) × (a : List Pat) × (focus ps i ≡ ok (b, p, a)) × (is_ctor p ≡ true)

all_wildcards-CtorAt :
    (ps : List Pat) → all_wildcards ps ≡ false → (i : ℕ) × (i < length ps) × CtorAt ps i
unfolding all_wildcards focus
all_wildcards-CtorAt [] h = cc
all_wildcards-CtorAt (wildcard binding ∷ ps) h =
    let (i, l, (b, p, a, e, c)) = all_wildcards-CtorAt ps h in
    (suc i, omega arith, (wildcard binding ∷ b, p, a, rw e, c))
all_wildcards-CtorAt (ctor c args ∷ ps) h = (0, omega arith, ([], ctor c args, ps, refl, refl))

score-returns :
    (rows : List Row) (ts : List Ty) (col : ℕ)
    → WellTyped rows ts
    → col < length ts
    → (n : ℕ) × (score rows col ≡ ok n)
unfolding score
score-returns [] ts col h l = (0, refl)
score-returns (r ∷ rs) ts col h l =
    let ((b, p, a), e) = focus-lt r.row col (omega (arith, length-Forall2 Fits r.row ts h.0)) in
    let (n, f) = score-returns rs ts col h.1 l in
    elim (Bool-cases (is_ctor p)) [
      | inl k ↦ (suc n, rw (e, ◌>>=◌) (rw (k, f)))
      | inr k ↦ (0, rw (e, ◌>>=◌) (rw k))
    ]

-- A column has a score as soon as the first row has a constructor there.
score-pos :
    (r : Row) (rs : List Row) (col : ℕ) {n : ℕ}
    → CtorAt r.row col
    → score (r ∷ rs) col ≡ ok n
    → 0 < n
unfolding score
score-pos r rs col (b, p, a, e, c) h = ground arith

score-CtorAt :
    (r : Row) (rs : List Row) (col : ℕ) {n : ℕ} → score (r ∷ rs) col ≡ ok (suc n) → CtorAt r.row col
unfolding score
score-CtorAt r rs col h =
    let ((b, p, a), e, f) = >>=-returns (focus r.row col) _ h in
    elim (Bool-cases (is_ctor p)) [ inl k ↦ (b, p, a, e, k) | inr k ↦ absurd (ground arith) ]

-- A column with this score, if the score is not 0.
abbrev Scored : List Row → List Ty → ℕ → ℕ → Type 0
Scored rows ts col n = (n ≡ 0) ⊎ ((score rows col ≡ ok n) × (col < length ts))

Scored-step :
    (rows : List Row) (ts : List Ty) (col n best_col best_score : ℕ)
    → col < length ts
    → score rows col ≡ ok n
    → Scored rows ts best_col best_score
    → Scored rows ts
        (if ltb best_score n then col else best_col)
        (if ltb best_score n then n else best_score)
Scored-step rows ts col n best_col best_score l e s = elim (Bool-cases (ltb best_score n)) [
  | inl k ↦ rw k (inr (e, l))
  | inr k ↦ rw k s
]

best_column-returns :
    (rows : List Row) (ts : List Ty) (k col best_col best_score : ℕ)
    → WellTyped rows ts
    → col + k ≤ length ts
    → Scored rows ts best_col best_score
    → (c : ℕ) × (n : ℕ) × (best_column rows k col best_col best_score ≡ ok (c, n))
      × Scored rows ts c n
      × (best_score ≤ n)
      × ((j m : ℕ) → col ≤ j → j < col + k → score rows j ≡ ok m → m ≤ n)
unfolding best_column
best_column-returns rows ts zero col best_col best_score h l s =
    (best_col, best_score, refl, s, omega arith, λ j m p q e. absurd (omega arith))
best_column-returns rows ts (suc k) col best_col best_score h l s =
    let (m, e) = score-returns rows ts col h (omega arith) in
    let (c, n, f, s', le, all) =
      best_column-returns rows ts k (suc col) (if ltb best_score m then col else best_col)
        (if ltb best_score m then m else best_score) h (omega arith)
        (Scored-step rows ts col m best_col best_score (omega arith) e s) in
    (
      c,
      n,
      rw e f,
      s',
      ground arith,
      λ j m' p q e'. elim (ℕ_discrete col j) [
        | yes same ↦ let e'' = (rw (← same) at e') in ground arith
        | no other ↦ all j m' (omega arith) (omega arith) e'
      ],
    )

chosen :
    (r : Row) (rs : List Row) (ts : List Ty) (c n : ℕ)
    → best_column (r ∷ rs) (length r.row) 0 0 0 ≡ ok (c, n)
    → Scored (r ∷ rs) ts c n
    → 0 < n
    → (i : ℕ) × (select_column (r ∷ rs) ≡ ok i) × (i < length ts) × CtorAt r.row i
unfolding select_column
chosen r rs ts c n e (inl z) p = absurd (omega arith)
chosen r rs ts c zero e (inr s) p = elim p [ ]
chosen r rs ts c (suc n) e (inr s) p = (c, rw (e, ◌>>=◌), s.1, score-CtorAt r rs c s.0)

-- The chosen column is there, and the first row has a constructor in it.
pub select_column-CtorAt :
    (r : Row) (rs : List Row) (ts : List Ty)
    → WellTyped (r ∷ rs) ts
    → all_wildcards r.row ≡ false
    → (i : ℕ) × (select_column (r ∷ rs) ≡ ok i) × (i < length ts) × CtorAt r.row i
unfolding select_column
select_column-CtorAt r rs ts h w =
    let len = length-Forall2 Fits r.row ts h.0 in
    let (j, l, at) = all_wildcards-CtorAt r.row w in
    let (m, e) = score-returns (r ∷ rs) ts j h (omega arith) in
    let (c, n, f, s, _, all) =
      best_column-returns (r ∷ rs) ts (length r.row) 0 0 0 h (omega arith) (inl refl) in
    chosen r rs ts c n f s
      (le_trans (score-pos r rs j at e) (all j m (omega arith) (omega arith) e))
