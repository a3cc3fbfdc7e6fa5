-- ===== src/Matching/Decompose.antt =====
-- What `specialize` and `default_matrix` keep of a matrix: its types, its size and its meaning.
use starstream.Prelude.{
  ℕ, ◌+◌, ◌≤◌, ◌≡◌, refl, arith, true, false, Option, none, some, List, [], ◌∷◌, ◌++◌, length, ok,
  ◌>>=◌, Forall2-append, if◌then◌else◌, sym, ◌∙◌,
}
use starstream.Types.{Ty}
use starstream.Matching.Pattern.{Ctor, Pat, wildcard, ctor, Row}
use starstream.Matching.Compile.{focus, decompose, keep_row, is_ctor}
use starstream.Matching.Meaning.{
  Fits, RowFits, WellTyped, Val, matches, match_row, first, size, size_row, matrix_size,
}
use starstream.Matching.Columns.{
  length-Forall2, length-focus, match_row-append, match_row-focus, size_row-append, size_row-focus,
}
use starstream.Matching.Slices.{Slice, Slices, HeadIn}

abbrev pub ctor_count : Pat → ℕ
ctor_count p = if is_ctor p then 1 else 0

ctor_count-le-size : (p : Pat) → ctor_count p ≤ size p
unfolding size
ctor_count-le-size (wildcard b) = omega arith
ctor_count-le-size (ctor c args) = omega arith

-- What stands for a pattern is of the types `us`; a constructor is taken off.
abbrev pub Taken : List Ty → Pat → Option (List Pat) → Type 0
Taken us p none = is_ctor p ≡ true
Taken us p (some qs) = RowFits qs us × (size_row qs + ctor_count p ≤ size p)

-- `args` are to what is taken as `v` is to the pattern.
abbrev pub Alike : Val → List Val → Pat → Option (List Pat) → Type 0
Alike v args p none = matches p v ≡ false
Alike v args p (some qs) = match_row qs args ≡ matches p v

-- The patterns of a column of type `ty` are all taken so.
abbrev pub AlwaysTaken :
    (ty : Ty) (sigma : List Ctor) (us : List Ty) → (Pat → Option (List Pat)) → Type 0
AlwaysTaken ty sigma us take = (p : Pat) → Fits p ty → HeadIn sigma p → Taken us p (take p)

module _ (tb : List Ty) (ty : Ty) (ta : List Ty) (i : ℕ) (sigma : List Ctor) where
  -- The number of rows with a constructor in the column.
  unfoldable pub column_ctors : (rows : List Row) → Slices tb ty ta i sigma rows → ℕ
  unfolding Slices
  column_ctors [] sl = 0
  column_ctors (r ∷ rs) ((s, _), sl) = ctor_count s.pat + column_ctors rs sl

module _ (tb : List Ty) (ty : Ty) (ta : List Ty) (i : ℕ) (sigma : List Ctor) (us : List Ty)
    (take : Pat → Option (List Pat)) where
  -- The rows that are kept, read off the slices.
  pub kept : (rows : List Row) → Slices tb ty ta i sigma rows → List Row
  unfolding Slices
  kept [] sl = []
  kept (r ∷ rs) ((s, _), sl) = keep_row (take s.pat) s.before s.after r.action (kept rs sl)

  pub decompose-eq-kept :
      (rows : List Row) (sl : Slices tb ty ta i sigma rows)
      → decompose take rows i ≡ ok (kept rows sl)
  unfolding decompose Slices kept
  decompose-eq-kept [] sl = refl
  decompose-eq-kept (r ∷ rs) ((s, _), sl) = rw (s.taken, ◌>>=◌) (rw (decompose-eq-kept rs sl))

  keep_row-WellTyped :
      (r : Row) (s : Slice tb ty ta i r) (o : Option (List Pat)) (rest : List Row)
      → Taken us s.pat o
      → WellTyped rest (tb ++ (us ++ ta))
      → WellTyped (keep_row o s.before s.after r.action rest) (tb ++ (us ++ ta))
  keep_row-WellTyped r s none rest t h = h
  keep_row-WellTyped r s (some qs) rest t h = (
    Forall2-append Fits s.before (qs ++ s.after) tb (us ++ ta) s.before_fits
        (Forall2-append Fits qs s.after us ta t.0 s.after_fits),
    h,
  )

  pub kept-WellTyped :
      (rows : List Row) (sl : Slices tb ty ta i sigma rows)
      → AlwaysTaken ty sigma us take
      → WellTyped (kept rows sl) (tb ++ (us ++ ta))
  unfolding Slices kept
  kept-WellTyped [] sl t = tt
  kept-WellTyped (r ∷ rs) ((s, hd), sl) t =
      keep_row-WellTyped r s (take s.pat) (kept rs sl) (t s.pat s.pat_fits hd)
        (kept-WellTyped rs sl t)

  keep_row-size :
      (r : Row) (s : Slice tb ty ta i r) (o : Option (List Pat)) (rest : List Row)
      → Taken us s.pat o
      → matrix_size (keep_row o s.before s.after r.action rest) + ctor_count s.pat
        ≤ size_row r.row + matrix_size rest
  unfolding matrix_size size
  keep_row-size r s none rest t =
      omega (arith, size_row-focus r.row i s.taken, ctor_count-le-size s.pat)
  keep_row-size r s (some qs) rest t = omega (
    arith,
    size_row-focus r.row i s.taken,
    size_row-append s.before (qs ++ s.after),
    size_row-append qs s.after,
    t.1,
  )

  -- The matrix loses a constructor for each row that has one in the column.
  pub kept-size :
      (rows : List Row) (sl : Slices tb ty ta i sigma rows)
      → AlwaysTaken ty sigma us take
      → matrix_size (kept rows sl) + column_ctors tb ty ta i sigma rows sl ≤ matrix_size rows
  unfolding Slices kept column_ctors matrix_size
  kept-size [] sl t = omega arith
  kept-size (r ∷ rs) ((s, hd), sl) t = omega (
    arith,
    keep_row-size r s (take s.pat) (kept rs sl) (t s.pat s.pat_fits hd),
    kept-size rs sl t,
  )

  module _ (vs vb : List Val) (v : Val) (va args : List Val) (at : focus vs i ≡ ok (vb, v, va))
      (same_length : length args ≡ length us) where
    keep_row-first :
        (r : Row) (s : Slice tb ty ta i r) (o : Option (List Pat)) (rest rs : List Row)
        → Taken us s.pat o
        → Alike v args s.pat o
        → first rest (vb ++ (args ++ va)) ≡ first rs vs
        → first (keep_row o s.before s.after r.action rest) (vb ++ (args ++ va)) ≡ first (r ∷ rs) vs
    unfolding first
    keep_row-first r s none rest rs t k h = ground (arith, match_row-focus r.row vs i s.taken at)
    keep_row-first r s (some qs) rest rs t k h = ground (
      arith,
      match_row-focus r.row vs i s.taken at,
      match_row-append s.before (qs ++ s.after) vb (args ++ va)
          (length-focus r.row i s.taken ∙ sym (length-focus vs i at)),
      match_row-append qs s.after args va (length-Forall2 Fits qs us t.0 ∙ sym same_length),
    )

    -- The first row that matches is the same.
    pub kept-first :
        (rows : List Row) (sl : Slices tb ty ta i sigma rows)
        → AlwaysTaken ty sigma us take
        → ((p : Pat) → Fits p ty → HeadIn sigma p → Alike v args p (take p))
        → first (kept rows sl) (vb ++ (args ++ va)) ≡ first rows vs
    unfolding Slices kept first
    kept-first [] sl t k = refl
    kept-first (r ∷ rs) ((s, hd), sl) t k =
        keep_row-first r s (take s.pat) (kept rs sl) rs (t s.pat s.pat_fits hd)
          (k s.pat s.pat_fits hd) (kept-first rs sl t k)
