-- ===== src/Matching/Chosen.antt =====
-- The cases of a switch, and the constructors that its rows have in a column.
use starstream.Prelude.{
  ◌≢◌, ℕ, ◌<◌, ◌≡◌, refl, arith, true, Option, List, [], ◌∷◌, ◌++◌, ok, if◌then◌else◌, All,
}
use starstream.Types.{Ty}
use starstream.Matching.Pattern.{
  Ctor, Pat, wildcard, ctor, Row, Compiled, DecisionTree, switch, Cases, Default,
}
use starstream.Matching.Compile.{focus, is_ctor, contains, is_complete_signature}
use starstream.Matching.Meaning.{
  WellTyped, Val, con, opaque, HasTy, HaveTypes, run, run_cases, run_default, first, matrix_size,
  IsCtorOf, IsOpaque,
}
use starstream.Matching.Slices.{HeadIn, Slices, CtorFits}
use starstream.Matching.Decompose.{column_ctors}
use starstream.Matching.Branches.{NotAmong, complete-contains}
use starstream.Matching.Selection.{CtorAt}

-- The tree chooses, for values of these types, the first row that matches.
abbrev pub Correct : List Row → List Ty → DecisionTree → Type 0
Correct rows ts t = (vs : List Val) → HaveTypes vs ts → run t vs ≡ first rows vs

-- The recursive calls return correct trees for smaller matrices.
abbrev pub Compiles : (List Row → List Ty → Compiled DecisionTree) → ℕ → Type 0
Compiles rec n =
    (rows : List Row) (ts : List Ty)
    → WellTyped rows ts
    → matrix_size rows < n
    → (t : DecisionTree) × (rec rows ts ≡ ok t) × Correct rows ts t

-- What the cases of a switch choose.
abbrev pub chosen : List Ctor → Val → Option ℕ → Option ℕ → Option ℕ
chosen cs (con d args) found otherwise = if contains cs d then found else otherwise
chosen cs (opaque id) found otherwise = otherwise

pub no_head : (p : Pat) → HeadIn [] p → is_ctor p ≢ true
unfolding contains
no_head (wildcard b) h k = cc
no_head (ctor c args) h k = cc

pub run-switch :
    (i : ℕ) (cases : Cases) (other : Default) (vs vb : List Val) (v : Val) (va : List Val)
    → focus vs i ≡ ok (vb, v, va)
    → run (switch i cases other) vs ≡ run_cases cases (run_default other (vb ++ va)) vb v va
unfolding run
run-switch i cases other vs vb v va e = ground arith

-- The first row has a constructor in the column, so there is one in the column's list.
pub head-ctor :
    (tb : List Ty) (ty : Ty) (ta : List Ty) (i : ℕ) (sigma : List Ctor) (r : Row) (rs : List Row)
    (sl : Slices tb ty ta i sigma (r ∷ rs))
    → CtorAt r.row i
    → ((c : Ctor) × (cs : List Ctor) × (sigma ≡ c ∷ cs))
      × (0 < column_ctors tb ty ta i sigma (r ∷ rs) sl)
unfolding Slices column_ctors contains
head-ctor tb ty ta i [] r rs ((s, hd), sl) (b, p, a, f, k) =
    let same : s.pat ≡ p = (let e = s.taken in ground arith) in
    absurd (no_head s.pat hd (rw same k))
head-ctor tb ty ta i (c ∷ cs) r rs ((s, hd), sl) (b, p, a, f, k) =
    let same : s.pat ≡ p = (let e = s.taken in ground arith) in
    ((c, cs, refl), rw (same, k) (omega arith))

pub no_opaque : (ty : Ty) (c : Ctor) → IsOpaque ty → IsCtorOf c ty → ⊥
no_opaque ty c h k = ground arith

-- Every value of the type is made by a constructor of a complete signature.
pub complete-among :
    (sigma : List Ctor) (ty : Ty) (c : Ctor) (cs : List Ctor) (v : Val)
    → All (CtorFits ty) sigma
    → sigma ≡ c ∷ cs
    → is_complete_signature sigma ty ≡ true
    → HasTy v ty
    → ¬ NotAmong sigma v
unfolding HasTy
complete-among [] ty c cs v a q k h n = cc
complete-among (d ∷ ds) ty c cs (opaque id) a q k h n = no_opaque ty d h a.0.0
complete-among (d ∷ ds) ty c cs (con e args) a q k h n =
    ground (arith, complete-contains ds ty d e a h.0 k)
