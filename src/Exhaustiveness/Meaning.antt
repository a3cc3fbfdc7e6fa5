-- ===== src/Exhaustiveness/Meaning.antt =====
-- The values that simplified patterns cover, apart from the code. They are the values of Matching.
use starstream.Prelude.{
  ℕ, suc, Bool, true, false, ◌&&◌, ◌||◌, ◌≡◌, List, [], ◌∷◌, All, Forall2, ok, ◌+◌,
}
use starstream.Types.{Ty}
use starstream.Matching.Pattern.{
  Ctor as Tag, enum_variant as variant_tag, bool_true, bool_false, int_literal, struct, unit_ctor,
  ctor_eq as tag_eq, field_types,
}
use starstream.Matching.Meaning.{Val, con, opaque, Vals, IsCtorOf}
use starstream.Exhaustiveness.Pattern.{
  SimpleLiteral, integer, boolean, unit_value, Ctor, enum_variant, record_ctor, tuple_ctor,
  SimplePat, wildcard, ctor, literal, SimplePats,
}
use starstream.Exhaustiveness.Useful.{PatternRow}

-- The constructor of the values that a constructor or a literal covers.
abbrev pub tag : Ctor → Tag
tag (enum_variant enum_name i variant_name) = variant_tag i
tag (record_ctor name) = struct
tag (tuple_ctor n) = struct

abbrev pub literal_tag : SimpleLiteral → Tag
literal_tag (integer n) = int_literal n
literal_tag (boolean true) = bool_true
literal_tag (boolean false) = bool_false
literal_tag unit_value = unit_ctor

unfoldable mutual
  pub covers : SimplePat → Val → Bool
  covers wildcard v = true
  covers (ctor c ps) (con t vs) = tag_eq (tag c) t && covers_all ps vs
  covers (literal l) (con t vs) = tag_eq (literal_tag l) t && covers_all SimplePats.nil vs
  covers _ (opaque id) = false

  pub covers_all : SimplePats → Vals → Bool
  covers_all SimplePats.nil Vals.nil = true
  covers_all (SimplePats.cons p ps) (Vals.cons v vs) = covers p v && covers_all ps vs
  covers_all _ _ = false

unfoldable pub covers_row : PatternRow → List Val → Bool
covers_row [] [] = true
covers_row (p ∷ ps) (v ∷ vs) = covers p v && covers_row ps vs
covers_row _ _ = false

-- A row covers the values.
unfoldable pub covers_any : List PatternRow → List Val → Bool
covers_any [] vs = false
covers_any (row ∷ rows) vs = covers_row row vs || covers_any rows vs

abbrev pub IsLiteralOf : SimpleLiteral → Ty → Type 0
IsLiteralOf l ty = IsCtorOf (literal_tag l) ty

unfoldable mutual
  pub SimpleFits : SimplePat → Ty → Type 0
  SimpleFits wildcard ty = Unit
  SimpleFits (literal l) ty = IsLiteralOf l ty
  SimpleFits (ctor c ps) ty =
      IsCtorOf (tag c) ty × ((us : List Ty) × (field_types (tag c) ty ≡ ok us) × AllSimpleFit ps us)

  pub AllSimpleFit : SimplePats → List Ty → Type 0
  AllSimpleFit SimplePats.nil [] = Unit
  AllSimpleFit (SimplePats.cons p ps) (ty ∷ tys) = SimpleFits p ty × AllSimpleFit ps tys
  AllSimpleFit _ _ = ⊥

abbrev pub RowFits : List Ty → PatternRow → Type 0
RowFits tys row = Forall2 SimpleFits row tys

-- Every row has a pattern of each column's type.
abbrev pub RowsFit : List PatternRow → List Ty → Type 0
RowsFit rows tys = All (RowFits tys) rows

-- The number of constructors in patterns.
unfoldable mutual
  pub size : SimplePat → ℕ
  size wildcard = 0
  size (literal l) = 0
  size (ctor c ps) = suc (size_all ps)

  pub size_all : SimplePats → ℕ
  size_all SimplePats.nil = 0
  size_all (SimplePats.cons p ps) = size p + size_all ps

unfoldable pub size_row : PatternRow → ℕ
size_row [] = 0
size_row (p ∷ ps) = size p + size_row ps

unfoldable pub size_rows : List PatternRow → ℕ
size_rows [] = 0
size_rows (row ∷ rows) = size_row row + size_rows rows
