-- ===== src/Exhaustiveness/Size.antt =====
-- The smaller matrices of the exhaustiveness check have no more constructors than the matrix.
use starstream.Prelude.{
  ℕ_discrete, ◌<◌, ◌≢◌, length, ℕ, zero, suc, ◌+◌, ◌≤◌, ◌≡◌, refl, arith, Option, none, some, List,
  [], ◌∷◌, ◌++◌, filter_map, push_some, replicate, Bool-cases, inl, inr,
}
use starstream.Exhaustiveness.Pattern.{
  SimpleLiteral, literal_eq, Ctor, ctor_eq, wildcard, ctor, literal, SimplePats, pats,
}
use starstream.Exhaustiveness.Useful.{
  PatternRow, specialize_row, default_row, literal_row, collect_ctors,
}
use starstream.Exhaustiveness.Meaning.{size, size_all, size_row, size_rows}

abbrev head_ctor : PatternRow → ℕ
head_ctor (ctor c args ∷ ps) = 1
head_ctor _ = 0

-- The number of rows that start with a constructor.
pub heads : List PatternRow → ℕ
heads [] = 0
heads (row ∷ rows) = head_ctor row + heads rows

pub size_kept : Option PatternRow → ℕ
size_kept none = 0
size_kept (some row) = size_row row

pub size_row-append : (ps qs : PatternRow) → size_row (ps ++ qs) ≡ size_row ps + size_row qs
unfolding size_row
size_row-append [] qs = omega arith
size_row-append (p ∷ ps) qs = omega (arith, size_row-append ps qs)

pub size_row-pats : (ps : SimplePats) → size_row (pats ps) ≡ size_all ps
unfolding size_row size
size_row-pats SimplePats.nil = refl
size_row-pats (SimplePats.cons p ps) = omega (arith, size_row-pats ps)

pub size_row-wildcards : (n : ℕ) → size_row (replicate n wildcard) ≡ 0
unfolding size_row size
size_row-wildcards zero = refl
size_row-wildcards (suc n) = omega (arith, size_row-wildcards n)

specialize_row-size :
    (c : Ctor) (n : ℕ) (row : PatternRow)
    → size_kept (specialize_row c n row) + head_ctor row ≤ size_row row
unfolding size_kept size_row size
specialize_row-size c n [] = omega arith
specialize_row-size c n (wildcard ∷ ps) =
    omega (arith, size_row-append (replicate n wildcard) ps, size_row-wildcards n)
specialize_row-size c n (literal l ∷ ps) = omega arith
specialize_row-size c n (ctor d args ∷ ps) = elim (Bool-cases (ctor_eq d c)) [
  | inl e ↦ rw e (omega (arith, size_row-append (pats args) ps, size_row-pats args))
  | inr e ↦ rw e (omega arith)
]

pub default_row-size : (row : PatternRow) → size_kept (default_row row) ≤ size_row row
unfolding size_kept size_row size
default_row-size [] = omega arith
default_row-size (wildcard ∷ ps) = omega arith
default_row-size (literal l ∷ ps) = omega arith
default_row-size (ctor d args ∷ ps) = omega arith

pub literal_row-size :
    (l : SimpleLiteral) (row : PatternRow) → size_kept (literal_row l row) ≤ size_row row
unfolding size_kept size_row size
literal_row-size l [] = omega arith
literal_row-size l (wildcard ∷ ps) = omega arith
literal_row-size l (literal k ∷ ps) = elim (Bool-cases (literal_eq k l)) [
  | inl e ↦ rw e (omega arith)
  | inr e ↦ rw e (omega arith)
]
literal_row-size l (ctor d args ∷ ps) = omega arith

push_some-size :
    (o : Option PatternRow) (rows : List PatternRow)
    → size_rows (push_some o rows) ≡ size_kept o + size_rows rows
unfolding size_rows size_kept
push_some-size none rows = omega arith
push_some-size (some row) rows = omega arith

pub filter_map-size :
    (f : PatternRow → Option PatternRow) (rows : List PatternRow)
    → ((row : PatternRow) → size_kept (f row) ≤ size_row row)
    → size_rows (filter_map f rows) ≤ size_rows rows
unfolding size_rows
filter_map-size f [] h = omega arith
filter_map-size f (row ∷ rows) h =
    omega (arith, push_some-size (f row) (filter_map f rows), h row, filter_map-size f rows h)

pub specialize-size :
    (c : Ctor) (n : ℕ) (rows : List PatternRow)
    → size_rows (filter_map (specialize_row c n) rows) + heads rows ≤ size_rows rows
unfolding size_rows heads
specialize-size c n [] = omega arith
specialize-size c n (row ∷ rows) = omega (
  arith,
  push_some-size (specialize_row c n row) (filter_map (specialize_row c n) rows),
  specialize_row-size c n row,
  specialize-size c n rows,
)

pub collect_ctors-none :
    (rows : List PatternRow) (cs : List Ctor) → heads rows ≡ 0 → collect_ctors rows cs ≡ cs
unfolding heads collect_ctors
collect_ctors-none [] cs h = refl
collect_ctors-none ([] ∷ rows) cs h = collect_ctors-none rows cs (omega arith)
collect_ctors-none ((wildcard ∷ ps) ∷ rows) cs h = collect_ctors-none rows cs (omega arith)
collect_ctors-none ((literal l ∷ ps) ∷ rows) cs h = collect_ctors-none rows cs (omega arith)
collect_ctors-none ((ctor c args ∷ ps) ∷ rows) cs h = absurd (omega arith)

pub some_head : (rows : List PatternRow) → length (collect_ctors rows []) ≢ 0 → 0 < heads rows
some_head rows h = elim (ℕ_discrete (heads rows) 0) [
  | yes z ↦ absurd (h (let q = collect_ctors-none rows [] z in rw q refl))
  | no z ↦ omega arith
]
