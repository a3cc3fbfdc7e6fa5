-- ===== src/Matching/Slices.antt =====
-- The column that a matrix is decomposed at, row by row, and the constructors that head it.
use starstream.Prelude.{
  ℕ, ◌≡◌, refl, arith, true, List, [], ◌∷◌, ◌++◌, ok, ◌>>=◌, All, Bool-cases, inl, inr,
}
use starstream.Types.{Ty}
use starstream.Matching.Pattern.{Ctor, ctor_eq, Pat, wildcard, ctor, field_types, Row}
use starstream.Matching.Compile.{focus, contains, push_head, collect_heads, head_constructors}
use starstream.Matching.Meaning.{Fits, RowFits, WellTyped, IsCtorOf}
use starstream.Matching.Columns.{Forall2-focus}

-- A constructor of the type, with the types of its fields.
abbrev pub CtorFits : Ty → Ctor → Type 0
CtorFits ty c = IsCtorOf c ty × ((ts : List Ty) × (field_types c ty ≡ ok ts))

abbrev pub HeadIn : List Ctor → Pat → Type 0
HeadIn sigma (wildcard binding) = Unit
HeadIn sigma (ctor c args) = contains sigma c ≡ true

pub contains-append_left :
    (cs : List Ctor) (d c : Ctor) → contains cs c ≡ true → contains (cs ++ d ∷ []) c ≡ true
unfolding contains
contains-append_left [] d c h = ground arith
contains-append_left (x ∷ cs) d c h = ground (arith, contains-append_left cs d c)

pub contains-append_self :
    (cs : List Ctor) (c : Ctor) → ctor_eq c c ≡ true → contains (cs ++ c ∷ []) c ≡ true
unfolding contains
contains-append_self [] c h = ground arith
contains-append_self (x ∷ cs) c h = ground (arith, contains-append_self cs c h)

pub ctor_eq_refl : (c : Ctor) → ctor_eq c c ≡ true
ctor_eq_refl c = ground arith

push_head-contains :
    (p : Pat) (cs : List Ctor) (c : Ctor)
    → contains cs c ≡ true
    → contains (push_head p cs) c ≡ true
push_head-contains (wildcard b) cs c h = h
push_head-contains (ctor d args) cs c h = ground (arith, contains-append_left cs d c h)

push_head-HeadIn : (p : Pat) (cs : List Ctor) → HeadIn (push_head p cs) p
push_head-HeadIn (wildcard b) cs = tt
push_head-HeadIn (ctor d args) cs = ground (arith, contains-append_self cs d (ctor_eq_refl d))

HeadIn-mono :
    (p : Pat) (cs ds : List Ctor)
    → ((c : Ctor) → contains cs c ≡ true → contains ds c ≡ true)
    → HeadIn cs p
    → HeadIn ds p
HeadIn-mono (wildcard b) cs ds sub h = tt
HeadIn-mono (ctor c args) cs ds sub h = sub c h

All-append_one {ℓ} :
    {A : Type ℓ} (P : A → Type 0) (xs : List A) (x : A) → All P xs → P x → All P (xs ++ x ∷ [])
All-append_one P [] x h p = (p, tt)
All-append_one P (y ∷ xs) x h p = (h.0, All-append_one P xs x h.1 p)

push_head-CtorFits :
    (ty : Ty) (p : Pat) (cs : List Ctor)
    → Fits p ty
    → All (CtorFits ty) cs
    → All (CtorFits ty) (push_head p cs)
unfolding Fits
push_head-CtorFits ty (wildcard b) cs h a = a
push_head-CtorFits ty (ctor d args) cs (h₁, (ts, h₂, _)) a = elim (Bool-cases (contains cs d)) [
  | inl e ↦ rw e a
  | inr e ↦ rw e (All-append_one (CtorFits ty) cs d a (h₁, (ts, h₂)))
]

module _ (tb : List Ty) (ty : Ty) (ta : List Ty) (i : ℕ) where
  -- The column `i` of a row, and the columns on both sides of it.
  pub record Slice (r : Row) : Type 0 where
    pub before : List Pat
    pub pat : Pat
    pub after : List Pat
    pub taken : focus r.row i ≡ ok (before, pat, after)
    pub before_fits : RowFits before tb
    pub pat_fits : Fits pat ty
    pub after_fits : RowFits after ta

  -- Every row has a slice, whose constructor is one of `sigma`.
  unfoldable pub Slices : List Ctor → List Row → Type 0
  Slices sigma [] = Unit
  Slices sigma (r ∷ rs) = ((s : Slice r) × HeadIn sigma s.pat) × Slices sigma rs

  module _ (ts : List Ty) (e : focus ts i ≡ ok (tb, ty, ta)) where
    slice : (r : Row) → RowFits r.row ts → Slice r
    slice r h =
        let (b, p, a, f, hb, hp, ha) = Forall2-focus Fits r.row ts i h e in
        record {
          before = b;
          pat = p;
          after = a;
          taken = f;
          before_fits = hb;
          pat_fits = hp;
          after_fits = ha;
        }

    collect_heads-Slices :
        (rows : List Row) (cs : List Ctor)
        → WellTyped rows ts
        → All (CtorFits ty) cs
        → (sigma : List Ctor) × (collect_heads rows i cs ≡ ok sigma)
          × Slices sigma rows
          × All (CtorFits ty) sigma
          × ((c : Ctor) → contains cs c ≡ true → contains sigma c ≡ true)
    unfolding collect_heads Slices
    collect_heads-Slices [] cs h a = (cs, refl, tt, a, λ c k. k)
    collect_heads-Slices (r ∷ rs) cs h a =
        let s = slice r h.0 in
        let (sigma, e₁, sl, a', sub) =
          collect_heads-Slices rs (push_head s.pat cs) h.1
            (push_head-CtorFits ty s.pat cs s.pat_fits a) in
        (
          sigma,
          rw (s.taken, ◌>>=◌) e₁,
          ((s, HeadIn-mono s.pat (push_head s.pat cs) sigma sub (push_head-HeadIn s.pat cs)), sl),
          a',
          λ c k. sub c (push_head-contains s.pat cs c k),
        )

    -- The constructors of a column are constructors of its type, and every row's is among them.
    pub head_constructors-Slices :
        (rows : List Row)
        → WellTyped rows ts
        → (sigma : List Ctor) × (head_constructors rows i ≡ ok sigma)
          × Slices sigma rows
          × All (CtorFits ty) sigma
    unfolding head_constructors
    head_constructors-Slices rows h =
        let (sigma, e₁, sl, a, _) = collect_heads-Slices rows [] h tt in (sigma, e₁, sl, a)
