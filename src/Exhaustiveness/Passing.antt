-- ===== src/Exhaustiveness/Passing.antt =====
-- Values that a row covers, and what the smaller matrices keep of the row.
use starstream.Prelude.{
  Bool, true, false, ◌≡◌, refl, arith, Option, none, some, List, [], ◌∷◌, ◌++◌, length, All,
  filter_map, push_some, replicate, length-replicate, Bool-cases, inl, inr, and-true,
}
use starstream.Types.{Ty}
use starstream.Matching.Meaning.{Val, con, Vals, vals}
use starstream.Exhaustiveness.Pattern.{
  boolean, Ctor, ctor_eq, wildcard, ctor, literal, SimplePats, pats,
}
use starstream.Exhaustiveness.Useful.{PatternRow, specialize_row, default_row, literal_row, is_bool}
use starstream.Exhaustiveness.Meaning.{tag, literal_tag, covers, covers_all, covers_row, covers_any}
use starstream.Exhaustiveness.Listed.{Listed, RowListed, IsNamed, IsNamed-unique}
use starstream.Exhaustiveness.Heads.{NoCtor, NoLiteral, Avoids, AvoidsLiteral, ctor_eq_refl}
use starstream.Exhaustiveness.Rows.{covers_row-append, covers_row-pats, covers_row-wildcards}

abbrev pub Covering : List Val → Option PatternRow → Type 0
Covering ws none = ⊥
Covering ws (some row) = covers_row row ws ≡ true

-- A row that covers `vs` is kept, and what is kept of it covers `ws`.
abbrev pub Passes : (PatternRow → Option PatternRow) → List Val → List Val → PatternRow → Type 0
Passes f vs ws row = covers_row row vs ≡ true → Covering ws (f row)

module _ (f : PatternRow → Option PatternRow) (vs ws : List Val) where
  push_some-uncovered :
      (o : Option PatternRow) (rest : List PatternRow)
      → Covering ws o
      → covers_any (push_some o rest) ws ≡ true
  unfolding covers_any
  push_some-uncovered none rest h = elim h [ ]
  push_some-uncovered (some row) rest h = ground arith

  push_some-rest :
      (o : Option PatternRow) (rest : List PatternRow)
      → covers_any (push_some o rest) ws ≡ false
      → covers_any rest ws ≡ false
  unfolding covers_any
  push_some-rest none rest h = h
  push_some-rest (some row) rest h = ground arith

  pub filter_map-uncovered :
      (rows : List PatternRow)
      → All (Passes f vs ws) rows
      → covers_any (filter_map f rows) ws ≡ false
      → covers_any rows vs ≡ false
  unfolding covers_any
  filter_map-uncovered [] k h = refl
  filter_map-uncovered (row ∷ rows) (k, ks) h = elim (Bool-cases (covers_row row vs)) [
    | inl e ↦ let c = push_some-uncovered (f row) (filter_map f rows) (k e) in cc
    | inr e ↦ rw e (filter_map-uncovered rows ks (push_some-rest (f row) (filter_map f rows) h))
  ]

-- A column of wildcards.
pub default_row-Passes :
    (v : Val) (vs : List Val) (row : PatternRow)
    → NoCtor row
    → NoLiteral row
    → Passes default_row (v ∷ vs) vs row
unfolding covers_row covers
default_row-Passes v vs [] c l = λ h. cc
default_row-Passes v vs (wildcard ∷ ps) c l = λ h. h
default_row-Passes v vs (literal k ∷ ps) c l = elim l [ ]
default_row-Passes v vs (ctor d args ∷ ps) c l = elim c [ ]

module _ (ty : Ty) (tys : List Ty) (args : Vals) (vs : List Val) where
  -- A constructor that no row starts with.
  pub default_row-ctor-Passes :
      (c : Ctor)
      → IsNamed c ty
      → (row : PatternRow) → RowListed (ty ∷ tys) row
      → Avoids c row
      → Passes default_row (con (tag c) args ∷ vs) vs row
  unfolding covers_row covers Listed IsNamed
  default_row-ctor-Passes c o [] h a = elim h [ ]
  default_row-ctor-Passes c o (wildcard ∷ ps) h a = λ k. k
  default_row-ctor-Passes c o (literal (boolean b) ∷ ps) h a = absurd (ground arith)
  default_row-ctor-Passes c o (ctor d qs ∷ ps) h a = λ k.
      let same = IsNamed-unique d c ty h.0.0 o (ground arith) in
      let eq = ctor_eq_refl c in absurd (let a' = (rw same at a) in cc)
  default_row-ctor-Passes c o (literal l ∷ ps) h a = absurd (ground arith)

  pub default_row-boolean-Passes :
      (b : Bool)
      → is_bool ty ≡ true
      → (row : PatternRow) → RowListed (ty ∷ tys) row
      → AvoidsLiteral (boolean b) row
      → Passes default_row (con (literal_tag (boolean b)) args ∷ vs) vs row
  unfolding covers_row covers Listed IsNamed
  default_row-boolean-Passes b o [] h a = elim h [ ]
  default_row-boolean-Passes b o (wildcard ∷ ps) h a = λ k. k
  default_row-boolean-Passes b o (literal (boolean x) ∷ ps) h a = ground arith
  default_row-boolean-Passes b o (literal l ∷ ps) h a = absurd (ground arith)
  default_row-boolean-Passes b o (ctor d qs ∷ ps) h a = absurd (ground arith)

  pub literal_row-Passes :
      (b : Bool)
      → is_bool ty ≡ true
      → (row : PatternRow) → RowListed (ty ∷ tys) row
      → Passes (literal_row (boolean b)) (con (literal_tag (boolean b)) args ∷ vs) vs row
  unfolding covers_row covers Listed IsNamed
  literal_row-Passes b o [] h = elim h [ ]
  literal_row-Passes b o (wildcard ∷ ps) h = λ k. k
  literal_row-Passes b o (literal (boolean x) ∷ ps) h = ground arith
  literal_row-Passes b o (literal l ∷ ps) h = absurd (ground arith)
  literal_row-Passes b o (ctor d qs ∷ ps) h = absurd (ground arith)

pub covers_all-length :
    (ps : SimplePats) (args : Vals)
    → covers_all ps args ≡ true
    → length (pats ps) ≡ length (vals args)
unfolding covers
covers_all-length SimplePats.nil Vals.nil h = refl
covers_all-length SimplePats.nil (Vals.cons v vs) h = cc
covers_all-length (SimplePats.cons p ps) Vals.nil h = cc
covers_all-length (SimplePats.cons p ps) (Vals.cons v vs) h =
    let e = covers_all-length ps vs (and-true (covers p v) (covers_all ps vs) h).1 in omega arith

module _ (ty : Ty) (tys : List Ty) (args : Vals) (vs : List Val) where
  pub specialize_row-Passes :
      (c : Ctor)
      → IsNamed c ty
      → (row : PatternRow) → RowListed (ty ∷ tys) row
      → Passes (specialize_row c (length (vals args))) (con (tag c) args ∷ vs) (vals args ++ vs) row
  unfolding covers_row covers Listed IsNamed
  specialize_row-Passes c o [] h = elim h [ ]
  specialize_row-Passes c o (wildcard ∷ ps) h = λ k. ground (
    arith,
    covers_row-append (replicate (length (vals args)) wildcard) ps (vals args) vs
        (length-replicate (length (vals args)) wildcard),
    covers_row-wildcards (vals args),
  )
  specialize_row-Passes c o (literal (boolean b) ∷ ps) h = absurd (ground arith)
  specialize_row-Passes c o (literal l ∷ ps) h = absurd (ground arith)
  specialize_row-Passes c o (ctor d qs ∷ ps) h = λ k.
      let same = IsNamed-unique d c ty h.0.0 o (ground arith) in
      let eq : ctor_eq d c ≡ true = rw same (ctor_eq_refl c) in
      let (head, rest) = and-true _ (covers_row ps vs) k in
      let all = (and-true _ (covers_all qs args) head).1 in
      let l = covers_all-length qs args all in
      rw (eq, covers_row-append (pats qs) ps (vals args) vs l, covers_row-pats qs args, all) rest
