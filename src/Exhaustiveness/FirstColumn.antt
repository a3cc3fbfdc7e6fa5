-- ===== src/Exhaustiveness/FirstColumn.antt =====
-- What the first column of listed rows says of its type.
use starstream.Prelude.{
  none, ◌≢◌, ◌==◌, true, false, ◌&&◌, ◌≡◌, arith, List, [], ◌∷◌, length, Bool-cases, inl, inr,
}
use starstream.Types.{Ty}
use starstream.Exhaustiveness.Pattern.{for_type, boolean, wildcard, ctor, literal}
use starstream.Exhaustiveness.Useful.{PatternRow, collect_ctors, is_bool, has_literals}
use starstream.Exhaustiveness.Booleans.{collect_ctors-bool}
use starstream.Exhaustiveness.Listed.{Listed, RowsListed, RowsListed-RowsFit}

module _ (rows : List PatternRow) (ty : Ty) (tys : List Ty)
    (listed : RowsListed rows (ty ∷ tys)) where
  -- No constructor is collected in a column of Booleans.
  pub seen_not_bool : (length (collect_ctors rows []) == 0) ≡ false → is_bool ty ≡ false
  seen_not_bool q = elim (Bool-cases (is_bool ty)) [
    | inl b ↦
        let none_seen =
          collect_ctors-bool rows ty tys b (RowsListed-RowsFit rows (ty ∷ tys) listed) [] in
        let q' = (rw none_seen at q) in cc
    | inr b ↦ b
  ]

  pub literals_are_bool :
      (rows : List PatternRow)
      → RowsListed rows (ty ∷ tys)
      → has_literals rows ≡ true
      → is_bool ty ≡ true
  unfolding has_literals Listed
  literals_are_bool [] l h = cc
  literals_are_bool ([] ∷ rows) l h = elim (l.0) [ ]
  literals_are_bool ((wildcard ∷ ps) ∷ rows) l h = literals_are_bool rows l.1 h
  literals_are_bool ((ctor c args ∷ ps) ∷ rows) l h = literals_are_bool rows l.1 h
  literals_are_bool ((literal (boolean b) ∷ ps) ∷ rows) l h = l.0.0
  literals_are_bool ((literal k ∷ ps) ∷ rows) l h = absurd (ground arith)

  pub no_literals : (has_literals rows && is_bool ty) ≡ false → has_literals rows ≡ false
  no_literals q = elim (Bool-cases (has_literals rows)) [
    | inl h ↦ let b = literals_are_bool rows listed h in absurd (let q' = (rw (h, b) at q) in cc)
    | inr h ↦ h
  ]

pub for_type-some : (ty : Ty) → for_type ty ≢ none
unfolding for_type
for_type-some ty h = ground arith
