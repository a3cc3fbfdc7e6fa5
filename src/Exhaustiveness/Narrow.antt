-- ===== src/Exhaustiveness/Narrow.antt =====
-- The types of the rows of the smaller matrices.
use starstream.Prelude.{
  ◌≡◌, Option, none, some, List, [], ◌∷◌, ◌++◌, length, filter_map, push_some, replicate,
  Bool-cases, inl, inr, ok, Forall2-append,
}
use starstream.Types.{Ty}
use starstream.Matching.Pattern.{field_types}
use starstream.Exhaustiveness.Pattern.{
  SimpleLiteral, literal_eq, Ctor, ctor_eq, wildcard, ctor, literal, SimplePats, pats,
}
use starstream.Exhaustiveness.Useful.{PatternRow, specialize_row, default_row, literal_row}
use starstream.Exhaustiveness.Meaning.{tag}
use starstream.Exhaustiveness.Listed.{Listed, AllListed, RowListed, RowsListed}
use starstream.Exhaustiveness.Constructors.{ctor_eq→eq}

abbrev KeptListed : List Ty → Option PatternRow → Type 0
KeptListed tys none = Unit
KeptListed tys (some row) = RowListed tys row

module _ (f : PatternRow → Option PatternRow) (tys tys' : List Ty)
    (kept : (row : PatternRow) → RowListed tys row → KeptListed tys' (f row)) where
  push_some-RowsListed :
      (o : Option PatternRow) (rows : List PatternRow)
      → KeptListed tys' o
      → RowsListed rows tys'
      → RowsListed (push_some o rows) tys'
  push_some-RowsListed none rows k h = h
  push_some-RowsListed (some row) rows k h = (k, h)

  filter_map-RowsListed :
      (rows : List PatternRow) → RowsListed rows tys → RowsListed (filter_map f rows) tys'
  filter_map-RowsListed [] h = tt
  filter_map-RowsListed (row ∷ rows) h =
      push_some-RowsListed (f row) (filter_map f rows) (kept row h.0)
        (filter_map-RowsListed rows h.1)

AllListed-pats : (ps : SimplePats) (ts : List Ty) → AllListed ps ts → RowListed ts (pats ps)
unfolding Listed
AllListed-pats SimplePats.nil [] h = tt
AllListed-pats SimplePats.nil (t ∷ ts) h = elim h [ ]
AllListed-pats (SimplePats.cons p ps) [] h = elim h [ ]
AllListed-pats (SimplePats.cons p ps) (t ∷ ts) h = (h.0, AllListed-pats ps ts h.1)

wildcards-RowListed : (ts : List Ty) → RowListed ts (replicate (length ts) wildcard)
unfolding Listed
wildcards-RowListed [] = tt
wildcards-RowListed (t ∷ ts) = (tt, wildcards-RowListed ts)

module _ (ty : Ty) (tys : List Ty) where
  specialize_row-KeptListed :
      (us : List Ty) (c : Ctor)
      → field_types (tag c) ty ≡ ok us
      → (row : PatternRow) → RowListed (ty ∷ tys) row
      → KeptListed (us ++ tys) (specialize_row c (length us) row)
  unfolding Listed
  specialize_row-KeptListed us c e [] h = elim h [ ]
  specialize_row-KeptListed us c e (wildcard ∷ ps) h =
      Forall2-append Listed (replicate (length us) wildcard) ps us tys (wildcards-RowListed us) h.1
  specialize_row-KeptListed us c e (literal l ∷ ps) h = tt
  specialize_row-KeptListed us c e (ctor d args ∷ ps) ((_, (ts, e', fs)), h) =
      elim (Bool-cases (ctor_eq d c)) [
        | inl k ↦
            let same = ctor_eq→eq d c k in
            let q : ts ≡ us = cc in
            rw k
              (Forall2-append Listed (pats args) ps us tys (rw (← q) (AllListed-pats args ts fs)) h)
        | inr k ↦ rw k tt
      ]

  default_row-KeptListed :
      (row : PatternRow) → RowListed (ty ∷ tys) row → KeptListed tys (default_row row)
  default_row-KeptListed [] h = elim h [ ]
  default_row-KeptListed (wildcard ∷ ps) h = h.1
  default_row-KeptListed (literal l ∷ ps) h = tt
  default_row-KeptListed (ctor d args ∷ ps) h = tt

  literal_row-KeptListed :
      (l : SimpleLiteral) (row : PatternRow)
      → RowListed (ty ∷ tys) row
      → KeptListed tys (literal_row l row)
  literal_row-KeptListed l [] h = elim h [ ]
  literal_row-KeptListed l (wildcard ∷ ps) h = h.1
  literal_row-KeptListed l (ctor d args ∷ ps) h = tt
  literal_row-KeptListed l (literal k ∷ ps) h = elim (Bool-cases (literal_eq k l)) [
    | inl e ↦ rw e h.1
    | inr e ↦ rw e tt
  ]

  module _ (rows : List PatternRow) (listed : RowsListed rows (ty ∷ tys)) where
    pub default-RowsListed : RowsListed (filter_map default_row rows) tys
    default-RowsListed =
        filter_map-RowsListed default_row (ty ∷ tys) tys default_row-KeptListed rows listed

    pub literal-RowsListed : (l : SimpleLiteral) → RowsListed (filter_map (literal_row l) rows) tys
    literal-RowsListed l =
        filter_map-RowsListed (literal_row l) (ty ∷ tys) tys (literal_row-KeptListed l) rows listed

    pub specialize-RowsListed :
        (us : List Ty) (c : Ctor)
        → field_types (tag c) ty ≡ ok us
        → RowsListed (filter_map (specialize_row c (length us)) rows) (us ++ tys)
    specialize-RowsListed us c e =
        filter_map-RowsListed (specialize_row c (length us)) (ty ∷ tys) (us ++ tys)
          (specialize_row-KeptListed us c e) rows listed
