-- ===== src/Exhaustiveness/Listed.antt =====
-- Patterns whose constructors are those that `CtorSet::for_type` lists, and whose literals are Booleans.
use starstream.Prelude.{
  get_elem?-lt_length, ℕ, suc, ◌+◌, true, false, ◌≡◌, refl, arith, some, List, [], ◌∷◌, length, All,
  Forall2, get_elem?, ok, String,
}
use starstream.Types.{Ty, Variants, variants_of, EnumVariantType, items, VariantKind}
use starstream.Matching.Pattern.{field_types}
use starstream.Exhaustiveness.Pattern.{
  boolean, Ctor, enum_variant, record_ctor, tuple_ctor, SimplePat, wildcard, ctor, literal,
  SimplePats, CtorSet, for_enum, for_record, for_tuple, for_type,
}
use starstream.Exhaustiveness.Useful.{PatternRow, is_bool}
use starstream.Matching.Meaning.{IsCtorOf}
use starstream.Exhaustiveness.Meaning.{tag, SimpleFits, AllSimpleFit, RowFits, RowsFit}

-- The constructor is the type's, under its names.
unfoldable pub IsNamed : Ctor → Ty → Type 0
IsNamed (enum_variant e i n) (Ty.enum name vs) =
    (e ≡ name) × ((kind : VariantKind) × (get_elem? (variants_of vs) i ≡ some (n, kind)))
IsNamed (record_ctor r) (Ty.record_type name fs) = r ≡ name
IsNamed (tuple_ctor n) (Ty.tuple ts) = n ≡ length (items ts)
IsNamed _ _ = ⊥

pub IsNamed-unique : (c d : Ctor) (ty : Ty) → IsNamed c ty → IsNamed d ty → tag c ≡ tag d → c ≡ d
unfolding IsNamed
IsNamed-unique (enum_variant e i n) (enum_variant e' i' n') (Ty.enum name vs) h h' q = ground arith
IsNamed-unique (record_ctor r) (record_ctor r') (Ty.record_type name fs) h h' q = ground arith
IsNamed-unique (tuple_ctor n) (tuple_ctor n') (Ty.tuple ts) h h' q = ground arith
IsNamed-unique c d ty h h' q = absurd (ground arith)

for_enum-IsNamed :
    (name : String) (variants : Variants) (k : ℕ) (vs : List EnumVariantType)
    → ((j : ℕ) → get_elem? (variants_of variants) (k + j) ≡ get_elem? vs j)
    → All (λ info. IsNamed info.ctor (Ty.enum name variants)) (for_enum name k vs)
unfolding for_enum IsNamed
for_enum-IsNamed name variants k [] h = tt
for_enum-IsNamed name variants k ((n, kind) ∷ vs) h =
    let q : k + 0 ≡ k = omega arith in
    (
      (refl, (kind, rw q at (h 0))),
      for_enum-IsNamed name variants (suc k) vs
          (λ j. let q' : suc k + j ≡ k + suc j = omega arith in rw q' (h (suc j))),
    )

pub for_type-IsNamed :
    (ty : Ty) (ctors : CtorSet)
    → is_bool ty ≡ false
    → for_type ty ≡ some ctors
    → All (λ info. IsNamed info.ctor ty) ctors
unfolding for_type IsNamed
for_type-IsNamed (Ty.enum name vs) ctors b h =
    let e : for_enum name 0 (variants_of vs) ≡ ctors = cc in
    rw (← e)
      (for_enum-IsNamed name vs 0 (variants_of vs) (λ j. let q : 0 + j ≡ j = omega arith in rw q))
for_type-IsNamed Ty.bool ctors b h = cc
for_type-IsNamed (Ty.record_type name fs) ctors b h =
    let e : for_record name fs ≡ ctors = cc in rw (← e) (refl, tt)
for_type-IsNamed (Ty.tuple ts) ctors b h = let e : for_tuple ts ≡ ctors = cc in rw (← e) (refl, tt)
for_type-IsNamed ty [] b h = tt
for_type-IsNamed ty (info ∷ infos) b h = cc

unfoldable mutual
  pub Listed : SimplePat → Ty → Type 0
  Listed wildcard ty = Unit
  Listed (literal (boolean b)) ty = is_bool ty ≡ true
  Listed (literal l) ty = ⊥
  Listed (ctor c ps) ty =
      IsNamed c ty × ((us : List Ty) × (field_types (tag c) ty ≡ ok us) × AllListed ps us)

  pub AllListed : SimplePats → List Ty → Type 0
  AllListed SimplePats.nil [] = Unit
  AllListed (SimplePats.cons p ps) (ty ∷ tys) = Listed p ty × AllListed ps tys
  AllListed _ _ = ⊥

abbrev pub RowListed : List Ty → PatternRow → Type 0
RowListed tys row = Forall2 Listed row tys

abbrev pub RowsListed : List PatternRow → List Ty → Type 0
RowsListed rows tys = All (RowListed tys) rows

IsNamed-IsCtorOf : (c : Ctor) (ty : Ty) → IsNamed c ty → IsCtorOf (tag c) ty
unfolding IsNamed
IsNamed-IsCtorOf (enum_variant e i n) (Ty.enum name vs) (same, (kind, h)) =
    get_elem?-lt_length (variants_of vs) i h
IsNamed-IsCtorOf (record_ctor r) (Ty.record_type name fs) h = tt
IsNamed-IsCtorOf (tuple_ctor n) (Ty.tuple ts) h = tt
IsNamed-IsCtorOf c ty h = absurd (ground arith)

mutual
  unfolding Listed SimpleFits

  pub Listed-SimpleFits : (p : SimplePat) (ty : Ty) → Listed p ty → SimpleFits p ty
  Listed-SimpleFits wildcard ty h = tt
  Listed-SimpleFits (literal (boolean b)) ty h = ground arith
  Listed-SimpleFits (literal l) ty h = absurd (ground arith)
  Listed-SimpleFits (ctor c ps) ty (o, (us, e, h)) =
      (IsNamed-IsCtorOf c ty o, (us, e, AllListed-AllSimpleFit ps us h))

  AllListed-AllSimpleFit :
      (ps : SimplePats) (tys : List Ty) → AllListed ps tys → AllSimpleFit ps tys
  AllListed-AllSimpleFit SimplePats.nil [] h = tt
  AllListed-AllSimpleFit (SimplePats.cons p ps) (ty ∷ tys) h =
      (Listed-SimpleFits p ty h.0, AllListed-AllSimpleFit ps tys h.1)
  AllListed-AllSimpleFit SimplePats.nil (ty ∷ tys) h = elim h [ ]
  AllListed-AllSimpleFit (SimplePats.cons p ps) [] h = elim h [ ]

pub RowsListed-RowsFit :
    (rows : List PatternRow) (tys : List Ty) → RowsListed rows tys → RowsFit rows tys
RowsListed-RowsFit [] tys h = tt
RowsListed-RowsFit (row ∷ rows) tys h = (row_fits row tys h.0, RowsListed-RowsFit rows tys h.1)
  where
    row_fits : (row : PatternRow) (tys : List Ty) → RowListed tys row → RowFits tys row
    row_fits [] [] h = tt
    row_fits [] (ty ∷ tys) h = elim h [ ]
    row_fits (p ∷ ps) [] h = elim h [ ]
    row_fits (p ∷ ps) (ty ∷ tys) h = (Listed-SimpleFits p ty h.0, row_fits ps tys h.1)
