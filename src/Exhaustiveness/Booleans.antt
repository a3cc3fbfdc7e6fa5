-- ===== src/Exhaustiveness/Booleans.antt =====
-- The Boolean columns of the exhaustiveness check.
use starstream.Prelude.{true, false, ◌≡◌, refl, arith, List, [], ◌∷◌, ok, Bool-cases, inl, inr}
use starstream.Types.{Ty}
use starstream.Matching.Pattern.{Ctor as Tag, field_types}
use starstream.Matching.Meaning.{con, Vals, IsCtorOf, HasTy, IsOpaque}
use starstream.Exhaustiveness.Pattern.{Ctor, wildcard, ctor, literal, SimplePats}
use starstream.Exhaustiveness.Useful.{PatternRow, is_bool, collect_ctors}
use starstream.Exhaustiveness.Meaning.{tag, covers, covers_all, SimpleFits, RowsFit}

pub tag_not_boolean : (ty : Ty) (c : Ctor) → is_bool ty ≡ true → ¬ IsCtorOf (tag c) ty
tag_not_boolean ty c b o = ground arith

pub not-IsOpaque : (ty : Ty) → is_bool ty ≡ true → ¬ IsOpaque ty
not-IsOpaque ty b o = ground arith

pub not_bool : (ty : Ty) (c : Ctor) (t : Tag) → tag c ≡ t → IsCtorOf t ty → is_bool ty ≡ false
not_bool ty c t at o = elim (Bool-cases (is_bool ty)) [
  | inl b ↦ absurd (tag_not_boolean ty c b (rw at o))
  | inr b ↦ b
]

bool_fields : (ty : Ty) (t : Tag) → is_bool ty ≡ true → field_types t ty ≡ ok []
unfolding field_types
bool_fields ty t b = ground arith

-- A Boolean has no fields.
pub no_fields :
    (ty : Ty) (t : Tag) (args : Vals)
    → is_bool ty ≡ true
    → HasTy (con t args) ty
    → covers_all SimplePats.nil args ≡ true
unfolding HasTy covers field_types
no_fields ty t Vals.nil b h = refl
no_fields ty t (Vals.cons v vs) b (o, (us, e, h)) =
    let q : us ≡ [] = (let e' = bool_fields ty t b in cc) in absurd (rw q at h)

-- No constructor pattern has type `bool`.
pub collect_ctors-bool :
    (rows : List PatternRow) (ty : Ty) (tys : List Ty)
    → is_bool ty ≡ true
    → RowsFit rows (ty ∷ tys)
    → (cs : List Ctor) → collect_ctors rows cs ≡ cs
unfolding collect_ctors SimpleFits
collect_ctors-bool [] ty tys b fit cs = refl
collect_ctors-bool ([] ∷ rows) ty tys b fit cs = elim (fit.0) [ ]
collect_ctors-bool ((wildcard ∷ ps) ∷ rows) ty tys b fit cs =
    collect_ctors-bool rows ty tys b fit.1 cs
collect_ctors-bool ((literal l ∷ ps) ∷ rows) ty tys b fit cs =
    collect_ctors-bool rows ty tys b fit.1 cs
collect_ctors-bool ((ctor c args ∷ ps) ∷ rows) ty tys b fit cs =
    absurd (tag_not_boolean ty c b fit.0.0.0)
