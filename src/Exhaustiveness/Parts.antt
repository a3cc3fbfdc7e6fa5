-- ===== src/Exhaustiveness/Parts.antt =====
-- What the smaller matrices of the exhaustiveness check leave uncovered, case by case.
use starstream.Prelude.{
  Bool, true, false, ◌≡◌, refl, arith, List, [], ◌∷◌, ◌++◌, length, All, Forall2-append, filter_map,
  ok, err, panic, replicate, length-replicate, sym, ◌∙◌,
}
use starstream.Types.{Ty}
use starstream.Matching.Pattern.{Ctor as Tag, field_types, Compiled}
use starstream.Matching.Meaning.{Val, con, Vals, vals, HaveTypes, HasTy}
use starstream.Matching.Columns.{length-Forall2}
use starstream.Matching.Branches.{AllHaveTy-vals}
use starstream.Exhaustiveness.Pattern.{
  SimpleLiteral, Ctor, SimplePat, wildcard, SimplePats, CtorInfo, CtorSet,
}
use starstream.Exhaustiveness.Useful.{
  PatternRow, Matrix, specialize_row, default_row, literal_row, specialize, default_matrix,
  specialize_literal, any_useful, either,
}
use starstream.Exhaustiveness.Meaning.{
  tag, literal_tag, covers_all, covers_row, covers_any, RowsFit,
}
use starstream.Exhaustiveness.Constructors.{InfoFits}
use starstream.Exhaustiveness.Rows.{
  filter_map-RowsFit, filter_map-covers_any, covers_row-append, covers_row-wildcards,
  specialize_row-KeptFits, specialize_row-KeptCovers, default_row-KeptFits, default_row-KeptCovers,
  literal_row-KeptFits, literal_row-KeptCovers,
}

abbrev pub matrix : List PatternRow → List Ty → Matrix
matrix rows cols = record { rows = rows; col_types = cols }

-- What `rec` does not find useful covers no more than the rows.
abbrev pub Sound : (Matrix → List SimplePat → Compiled Bool) → Type 0
Sound rec =
    (rows : List PatternRow) (cols : List Ty) (ps : List SimplePat) (vs : List Val)
    → RowsFit rows cols
    → HaveTypes vs cols
    → rec (matrix rows cols) ps ≡ ok false
    → covers_row ps vs ≡ true
    → covers_any rows vs ≡ true

pub either-false : (a b : Compiled Bool) → either a b ≡ ok false → (a ≡ ok false) × (b ≡ ok false)
either-false (ok true) b h = cc
either-false (ok false) b h = (refl, h)
either-false (err e) b h = cc
either-false panic b h = cc

module _ (rec : Matrix → List SimplePat → Compiled Bool) (sound : Sound rec)
    (rows : List PatternRow) (ty : Ty) (tys : List Ty) (fit : RowsFit rows (ty ∷ tys)) where
  -- The constructor with wildcards for its fields is not useful.
  abbrev pub NotUseful : List SimplePat → CtorInfo → Type 0
  NotUseful ps info =
      rec (specialize (matrix rows (ty ∷ tys)) info.ctor info) (replicate info.arity wildcard ++ ps)
      ≡ ok false

  pub any_useful-false :
      (ps : List SimplePat) (infos : CtorSet)
      → any_useful rec (matrix rows (ty ∷ tys)) ps infos ≡ ok false
      → All (NotUseful ps) infos
  unfolding any_useful
  any_useful-false ps [] h = tt
  any_useful-false ps (info ∷ infos) h =
      let (first, rest) = either-false _ _ h in (first, any_useful-false ps infos rest)

  pub default_sound :
      (ps : List SimplePat) (v : Val) (vs : List Val)
      → HaveTypes vs tys
      → rec (default_matrix (matrix rows (ty ∷ tys))) ps ≡ ok false
      → covers_row ps vs ≡ true
      → covers_any rows (v ∷ vs) ≡ true
  unfolding default_matrix
  default_sound ps v vs hvs e c =
      filter_map-covers_any default_row (ty ∷ tys) (v ∷ vs) vs rows
        (default_row-KeptCovers ty tys v vs) fit
        (sound (filter_map default_row rows) tys ps vs
          (filter_map-RowsFit default_row (ty ∷ tys) tys rows (default_row-KeptFits ty tys) fit) hvs
          e c)

  pub literal_sound :
      (l : SimpleLiteral) (ps : List SimplePat) (t : Tag) (args : Vals) (vs : List Val)
      → literal_tag l ≡ t
      → covers_all SimplePats.nil args ≡ true
      → HaveTypes vs tys
      → rec (specialize_literal (matrix rows (ty ∷ tys)) l) ps ≡ ok false
      → covers_row ps vs ≡ true
      → covers_any rows (con t args ∷ vs) ≡ true
  unfolding specialize_literal
  literal_sound l ps t args vs same no_args hvs e c =
      filter_map-covers_any (literal_row l) (ty ∷ tys) (con t args ∷ vs) vs rows
        (literal_row-KeptCovers ty tys l args t vs same no_args) fit
        (sound (filter_map (literal_row l) rows) tys ps vs
          (filter_map-RowsFit (literal_row l) (ty ∷ tys) tys rows (literal_row-KeptFits ty tys l)
            fit)
          hvs e c)

  pub constructor_sound :
      (c : Ctor) (info : CtorInfo) (qs : List SimplePat) (t : Tag) (args : Vals) (vs : List Val)
      → info.arity ≡ length info.field_types
      → field_types (tag c) ty ≡ ok info.field_types
      → tag c ≡ t
      → HasTy (con t args) ty
      → HaveTypes vs tys
      → rec (specialize (matrix rows (ty ∷ tys)) c info) qs ≡ ok false
      → covers_row qs (vals args ++ vs) ≡ true
      → covers_any rows (con t args ∷ vs) ≡ true
  unfolding specialize HasTy
  constructor_sound c info qs t args vs arity fields same (_, (us, e', h)) hvs e k =
      let q : us ≡ info.field_types = cc in
      let typed = AllHaveTy-vals args info.field_types (rw (← q) h) in
      let len = length-Forall2 HasTy (vals args) info.field_types typed in
      let e₂ = (rw arity at e) in
      filter_map-covers_any (specialize_row c (length info.field_types)) (ty ∷ tys)
        (con t args ∷ vs) (vals args ++ vs) rows
        (specialize_row-KeptCovers ty tys info.field_types c t args vs fields same len) fit
        (sound (filter_map (specialize_row c (length info.field_types)) rows)
          (info.field_types ++ tys) qs (vals args ++ vs)
          (filter_map-RowsFit (specialize_row c (length info.field_types)) (ty ∷ tys)
            (info.field_types ++ tys) rows
            (specialize_row-KeptFits ty tys info.field_types c fields) fit)
          (Forall2-append HasTy (vals args) vs info.field_types tys typed hvs) e₂ k)

  pub wildcards-cover :
      (info : CtorInfo) (t : Tag) (args : Vals) (ps : List SimplePat) (vs : List Val)
      → InfoFits ty info
      → tag info.ctor ≡ t
      → HasTy (con t args) ty
      → covers_row ps vs ≡ true
      → covers_row (replicate info.arity wildcard ++ ps) (vals args ++ vs) ≡ true
  unfolding HasTy
  wildcards-cover info t args ps vs (arity, fields) same (_, (us, e, h)) c =
      let q : us ≡ info.field_types = cc in
      let typed = AllHaveTy-vals args info.field_types (rw (← q) h) in
      let len : length (vals args) ≡ info.arity =
        length-Forall2 HasTy (vals args) info.field_types typed ∙ sym arity in
      rw (← len) (
        ground (
          arith,
          covers_row-append (replicate (length (vals args)) wildcard) ps (vals args) vs
              (length-replicate (length (vals args)) wildcard),
          covers_row-wildcards (vals args),
        ))
