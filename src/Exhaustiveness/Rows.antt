-- ===== src/Exhaustiveness/Rows.antt =====
-- What the smaller matrices keep of the rows: their types and the values that they cover.
use starstream.Prelude.{
  true, ◌&&◌, ◌≡◌, refl, arith, Option, none, some, List, [], ◌∷◌, ◌++◌, length, Forall2-append,
  filter_map, push_some, ok, replicate, length-replicate, Bool-cases, inl, inr, ap, sym, ◌∙◌,
}
use starstream.Types.{Ty}
use starstream.Matching.Pattern.{Ctor as Tag, field_types}
use starstream.Matching.Meaning.{Val, con, Vals, vals}
use starstream.Matching.Columns.{length-Forall2}
use starstream.Exhaustiveness.Pattern.{
  SimpleLiteral, literal_eq, Ctor, ctor_eq, wildcard, ctor, literal, SimplePats, pats,
}
use starstream.Exhaustiveness.Useful.{PatternRow, specialize_row, default_row, literal_row}
use starstream.Exhaustiveness.Meaning.{
  tag, literal_tag, covers, covers_all, covers_row, covers_any, SimpleFits, AllSimpleFit, RowFits,
  RowsFit,
}
use starstream.Matching.Slices.{ctor_eq_refl as tag_eq_refl}
use starstream.Exhaustiveness.Constructors.{ctor_eq→eq}

pub literal_eq→eq : (k l : SimpleLiteral) → literal_eq k l ≡ true → k ≡ l
literal_eq→eq k l h = ground arith

-- A row that is kept has patterns of these types.
abbrev pub KeptFits : List Ty → Option PatternRow → Type 0
KeptFits tys none = Unit
KeptFits tys (some row) = RowFits tys row

-- A row that is kept covers no more: what it covers of `ws`, the row covers of `vs`.
abbrev pub KeptCovers : List Val → List Val → PatternRow → Option PatternRow → Type 0
KeptCovers vs ws row none = Unit
KeptCovers vs ws row (some row') = covers_row row' ws ≡ true → covers_row row vs ≡ true

module _ (f : PatternRow → Option PatternRow) (tys : List Ty) where
  push_some-RowsFit :
      (tys' : List Ty) (o : Option PatternRow) (rows : List PatternRow)
      → KeptFits tys' o
      → RowsFit rows tys'
      → RowsFit (push_some o rows) tys'
  push_some-RowsFit tys' none rows k h = h
  push_some-RowsFit tys' (some row) rows k h = (k, h)

  pub filter_map-RowsFit :
      (tys' : List Ty) (rows : List PatternRow)
      → ((row : PatternRow) → RowFits tys row → KeptFits tys' (f row))
      → RowsFit rows tys
      → RowsFit (filter_map f rows) tys'
  filter_map-RowsFit tys' [] k h = tt
  filter_map-RowsFit tys' (row ∷ rows) k h =
      push_some-RowsFit tys' (f row) (filter_map f rows) (k row h.0)
        (filter_map-RowsFit tys' rows k h.1)

  push_some-covers_any :
      (vs ws : List Val) (row : PatternRow) (o : Option PatternRow) (rows rest : List PatternRow)
      → KeptCovers vs ws row o
      → (covers_any rest ws ≡ true → covers_any rows vs ≡ true)
      → covers_any (push_some o rest) ws ≡ true
      → covers_any (row ∷ rows) vs ≡ true
  unfolding covers_any
  push_some-covers_any vs ws row none rows rest k h c = ground (arith, h c)
  push_some-covers_any vs ws row (some row') rows rest k h c =
      elim (Bool-cases (covers_row row' ws)) [
        | inl e ↦ ground (arith, k e)
        | inr e ↦ ground (arith, h (rw e at c))
      ]

  pub filter_map-covers_any :
      (vs ws : List Val) (rows : List PatternRow)
      → ((row : PatternRow) → RowFits tys row → KeptCovers vs ws row (f row))
      → RowsFit rows tys
      → covers_any (filter_map f rows) ws ≡ true
      → covers_any rows vs ≡ true
  unfolding covers_any
  filter_map-covers_any vs ws [] k h c = c
  filter_map-covers_any vs ws (row ∷ rows) k h c =
      push_some-covers_any vs ws row (f row) rows (filter_map f rows) (k row h.0)
        (filter_map-covers_any vs ws rows k h.1) c

pub covers_row-append :
    (ps qs : PatternRow) (vs ws : List Val)
    → length ps ≡ length vs
    → covers_row (ps ++ qs) (vs ++ ws) ≡ (covers_row ps vs && covers_row qs ws)
unfolding covers_row
covers_row-append [] qs [] ws h = refl
covers_row-append [] qs (v ∷ vs) ws h = absurd (omega arith)
covers_row-append (p ∷ ps) qs [] ws h = absurd (omega arith)
covers_row-append (p ∷ ps) qs (v ∷ vs) ws h =
    ground (arith, covers_row-append ps qs vs ws (omega arith))

pub covers_row-pats :
    (ps : SimplePats) (vs : Vals) → covers_row (pats ps) (vals vs) ≡ covers_all ps vs
unfolding covers_row covers
covers_row-pats SimplePats.nil Vals.nil = refl
covers_row-pats SimplePats.nil (Vals.cons v vs) = refl
covers_row-pats (SimplePats.cons p ps) Vals.nil = refl
covers_row-pats (SimplePats.cons p ps) (Vals.cons v vs) = ground (arith, covers_row-pats ps vs)

pub covers_row-wildcards : (vs : List Val) → covers_row (replicate (length vs) wildcard) vs ≡ true
unfolding covers_row covers
covers_row-wildcards [] = refl
covers_row-wildcards (v ∷ vs) = covers_row-wildcards vs

pub AllSimpleFit-pats : (ps : SimplePats) (ts : List Ty) → AllSimpleFit ps ts → RowFits ts (pats ps)
unfolding SimpleFits
AllSimpleFit-pats SimplePats.nil [] h = tt
AllSimpleFit-pats SimplePats.nil (t ∷ ts) h = elim h [ ]
AllSimpleFit-pats (SimplePats.cons p ps) [] h = elim h [ ]
AllSimpleFit-pats (SimplePats.cons p ps) (t ∷ ts) h = (h.0, AllSimpleFit-pats ps ts h.1)

pub wildcards-RowFits : (ts : List Ty) → RowFits ts (replicate (length ts) wildcard)
unfolding SimpleFits
wildcards-RowFits [] = tt
wildcards-RowFits (t ∷ ts) = (tt, wildcards-RowFits ts)

module _ (ty : Ty) (tys us : List Ty) where
  pub specialize_row-KeptFits :
      (c : Ctor)
      → field_types (tag c) ty ≡ ok us
      → (row : PatternRow) → RowFits (ty ∷ tys) row
      → KeptFits (us ++ tys) (specialize_row c (length us) row)
  unfolding SimpleFits
  specialize_row-KeptFits c e [] h = elim h [ ]
  specialize_row-KeptFits c e (wildcard ∷ ps) h =
      Forall2-append SimpleFits (replicate (length us) wildcard) ps us tys (wildcards-RowFits us)
        h.1
  specialize_row-KeptFits c e (literal l ∷ ps) h = tt
  specialize_row-KeptFits c e (ctor d args ∷ ps) ((_, (ts, e', fs)), h) =
      elim (Bool-cases (ctor_eq d c)) [
        | inl k ↦
            let same = ctor_eq→eq d c k in
            let q : ts ≡ us = cc in
            rw k (
              Forall2-append SimpleFits (pats args) ps us tys
                (rw (← q) (AllSimpleFit-pats args ts fs)) h)
        | inr k ↦ rw k tt
      ]

  pub specialize_row-KeptCovers :
      (c : Ctor) (t : Tag) (args : Vals) (vs : List Val)
      → field_types (tag c) ty ≡ ok us
      → tag c ≡ t
      → length (vals args) ≡ length us
      → (row : PatternRow) → RowFits (ty ∷ tys) row
      → KeptCovers (con t args ∷ vs) (vals args ++ vs) row (specialize_row c (length us) row)
  unfolding SimpleFits covers_row covers
  specialize_row-KeptCovers c t args vs e same l [] h = elim h [ ]
  specialize_row-KeptCovers c t args vs e same l (wildcard ∷ ps) h = λ k.
      let k' = (rw (← l) at k) in
      ground (
        arith,
        covers_row-append (replicate (length (vals args)) wildcard) ps (vals args) vs
            (length-replicate (length (vals args)) wildcard),
        covers_row-wildcards (vals args),
      )
  specialize_row-KeptCovers c t args vs e same l (literal x ∷ ps) h = tt
  specialize_row-KeptCovers c t args vs e same l (ctor d ps ∷ qs) ((_, (ts, e', fs)), h) =
      elim (Bool-cases (ctor_eq d c)) [
        | inl k ↦
            let q : ts ≡ us = (let same_ctor = ctor_eq→eq d c k in cc) in
            let at : tag d ≡ t = (let same_ctor = ctor_eq→eq d c k in cc) in
            let len = length-Forall2 SimpleFits (pats ps) ts (AllSimpleFit-pats ps ts fs) in
            rw k (λ m. ground (
              arith,
              tag_eq_refl t,
              covers_row-append (pats ps) qs (vals args) vs (len ∙ ap length q ∙ sym l),
              covers_row-pats ps args,
            ))
        | inr k ↦ rw k tt
      ]

module _ (ty : Ty) (tys : List Ty) where
  pub default_row-KeptFits :
      (row : PatternRow) → RowFits (ty ∷ tys) row → KeptFits tys (default_row row)
  default_row-KeptFits [] h = elim h [ ]
  default_row-KeptFits (wildcard ∷ ps) h = h.1
  default_row-KeptFits (literal l ∷ ps) h = tt
  default_row-KeptFits (ctor d args ∷ ps) h = tt

  pub default_row-KeptCovers :
      (v : Val) (vs : List Val) (row : PatternRow)
      → RowFits (ty ∷ tys) row
      → KeptCovers (v ∷ vs) vs row (default_row row)
  unfolding covers_row covers
  default_row-KeptCovers v vs [] h = tt
  default_row-KeptCovers v vs (wildcard ∷ ps) h = λ k. k
  default_row-KeptCovers v vs (literal l ∷ ps) h = tt
  default_row-KeptCovers v vs (ctor d args ∷ ps) h = tt

  pub literal_row-KeptFits :
      (l : SimpleLiteral) (row : PatternRow)
      → RowFits (ty ∷ tys) row
      → KeptFits tys (literal_row l row)
  literal_row-KeptFits l [] h = elim h [ ]
  literal_row-KeptFits l (wildcard ∷ ps) h = h.1
  literal_row-KeptFits l (ctor d args ∷ ps) h = tt
  literal_row-KeptFits l (literal k ∷ ps) h = elim (Bool-cases (literal_eq k l)) [
    | inl e ↦ rw e h.1
    | inr e ↦ rw e tt
  ]

  pub literal_row-KeptCovers :
      (l : SimpleLiteral) (args : Vals) (t : Tag) (vs : List Val)
      → literal_tag l ≡ t
      → covers_all SimplePats.nil args ≡ true
      → (row : PatternRow) → RowFits (ty ∷ tys) row
      → KeptCovers (con t args ∷ vs) vs row (literal_row l row)
  unfolding covers_row covers
  literal_row-KeptCovers l args t vs same no_args [] h = tt
  literal_row-KeptCovers l args t vs same no_args (wildcard ∷ ps) h = λ k. k
  literal_row-KeptCovers l args t vs same no_args (ctor d qs ∷ ps) h = tt
  literal_row-KeptCovers l args t vs same no_args (literal k ∷ ps) h =
      elim (Bool-cases (literal_eq k l)) [
        | inl e ↦
            let q : literal_tag k ≡ t = (let q' = literal_eq→eq k l e in cc) in
            rw e (λ m. ground (arith, tag_eq_refl t))
        | inr e ↦ rw e tt
      ]
