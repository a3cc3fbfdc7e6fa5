-- ===== src/Exhaustiveness/Counts.antt =====
-- How many constructors a column has, and how many its type lists.
use starstream.Prelude.{
  ℕ, zero, suc, ◌+◌, ◌<◌, ◌≤◌, true, false, ◌≡◌, refl, arith, some, List, [], ◌∷◌, ◌++◌, length,
  All, map, Bool-cases, inl, inr, String, get_elem?, ap,
}
use starstream.Types.{Ty, VariantKind, EnumVariantType, variants_of}
use starstream.Exhaustiveness.Pattern.{
  Ctor, enum_variant, record_ctor, tuple_ctor, wildcard, ctor, literal, CtorSet, for_enum, for_type,
  for_record, for_tuple,
}
use starstream.Exhaustiveness.Useful.{PatternRow, contains_ctor, collect_ctors, is_bool}
use starstream.Exhaustiveness.Listed.{Listed, IsNamed, RowsListed}
use starstream.Exhaustiveness.Heads.{ctor_eq_refl}
use starstream.Exhaustiveness.Signature.{Distinct, Distinct-le, collect_ctors-Distinct}

abbrev ctors_of : CtorSet → List Ctor
ctors_of infos = map (λ info. info.ctor) infos

length-ctors_of : (infos : CtorSet) → length (ctors_of infos) ≡ length infos
length-ctors_of [] = refl
length-ctors_of (info ∷ infos) = ap suc (length-ctors_of infos)

for_enum-later :
    (name e n : String) (j k : ℕ) (vs : List EnumVariantType)
    → k < j
    → contains_ctor (ctors_of (for_enum name j vs)) (enum_variant e k n) ≡ false
unfolding for_enum contains_ctor
for_enum-later name e n j k [] l = refl
for_enum-later name e n j k ((m, kind) ∷ vs) l =
    ground (arith, for_enum-later name e n (suc j) k vs (omega arith))

for_enum-Distinct :
    (name : String) (k : ℕ) (vs : List EnumVariantType) → Distinct (ctors_of (for_enum name k vs))
unfolding for_enum Distinct
for_enum-Distinct name k [] = tt
for_enum-Distinct name k ((m, kind) ∷ vs) =
    (for_enum-later name name m (suc k) k vs (omega arith), for_enum-Distinct name (suc k) vs)

for_type-Distinct :
    (ty : Ty) (infos : CtorSet)
    → is_bool ty ≡ false
    → for_type ty ≡ some infos
    → Distinct (ctors_of infos)
unfolding for_type Distinct contains_ctor
for_type-Distinct (Ty.enum name vs) infos b h =
    let e : for_enum name 0 (variants_of vs) ≡ infos = cc in
    rw (← e) (for_enum-Distinct name 0 (variants_of vs))
for_type-Distinct Ty.bool infos b h = cc
for_type-Distinct (Ty.record_type name fs) infos b h =
    let e : for_record name fs ≡ infos = cc in rw (← e) (refl, tt)
for_type-Distinct (Ty.tuple ts) infos b h = let e : for_tuple ts ≡ infos = cc in rw (← e) (refl, tt)
for_type-Distinct ty [] b h = tt
for_type-Distinct ty (info ∷ infos) b h = cc

for_enum-contains :
    (name : String) (k : ℕ) (vs : List EnumVariantType) (i : ℕ) (n : String) (kind : VariantKind)
    → get_elem? vs i ≡ some (n, kind)
    → contains_ctor (ctors_of (for_enum name k vs)) (enum_variant name (k + i) n) ≡ true
unfolding for_enum contains_ctor
for_enum-contains name k [] i n kind h = cc
for_enum-contains name k ((m, _) ∷ vs) zero n kind h =
    let q : k + 0 ≡ k = omega arith in
    let same : m ≡ n = cc in
    rw (q, same) (let r = ctor_eq_refl (enum_variant name k n) in ground arith)
for_enum-contains name k (v ∷ vs) (suc i) n kind h =
    let q : k + suc i ≡ suc k + i = omega arith in
    let r = for_enum-contains name (suc k) vs i n kind h in rw q (ground arith)

-- The constructors of a type are listed.
for_type-contains :
    (c : Ctor) (ty : Ty) (infos : CtorSet)
    → IsNamed c ty
    → for_type ty ≡ some infos
    → contains_ctor (ctors_of infos) c ≡ true
unfolding for_type IsNamed contains_ctor
for_type-contains (enum_variant e i n) (Ty.enum name vs) infos (same, (kind, h)) t =
    let q : for_enum name 0 (variants_of vs) ≡ infos = cc in
    let z : 0 + i ≡ i = omega arith in
    rw (← q, same) (rw z at (for_enum-contains name 0 (variants_of vs) i n kind h))
for_type-contains (record_ctor r) (Ty.record_type name fs) infos h t =
    let q : for_record name fs ≡ infos = cc in
    let k = ctor_eq_refl (record_ctor name) in rw (← q, h) (ground arith)
for_type-contains (tuple_ctor n) (Ty.tuple ts) infos h t =
    let q : for_tuple ts ≡ infos = cc in
    let k = ctor_eq_refl (tuple_ctor n) in rw (← q) (ground arith)
for_type-contains c ty infos h t = absurd (ground arith)

module _ (P : Ctor → Type 0) where
  All-snoc : (cs : List Ctor) (d : Ctor) → All P cs → P d → All P (cs ++ d ∷ [])
  All-snoc [] d h k = (k, tt)
  All-snoc (c ∷ cs) d h k = (h.0, All-snoc cs d h.1 k)

collect_ctors-IsNamed :
    (rows : List PatternRow) (ty : Ty) (tys : List Ty) (cs : List Ctor)
    → RowsListed rows (ty ∷ tys)
    → All (λ c. IsNamed c ty) cs
    → All (λ c. IsNamed c ty) (collect_ctors rows cs)
unfolding collect_ctors Listed
collect_ctors-IsNamed [] ty tys cs l h = h
collect_ctors-IsNamed ([] ∷ rows) ty tys cs l h = elim (l.0) [ ]
collect_ctors-IsNamed ((wildcard ∷ ps) ∷ rows) ty tys cs l h =
    collect_ctors-IsNamed rows ty tys cs l.1 h
collect_ctors-IsNamed ((literal k ∷ ps) ∷ rows) ty tys cs l h =
    collect_ctors-IsNamed rows ty tys cs l.1 h
collect_ctors-IsNamed ((ctor c args ∷ ps) ∷ rows) ty tys cs l h =
    elim (Bool-cases (contains_ctor cs c)) [
      | inl e ↦ rw e (collect_ctors-IsNamed rows ty tys cs l.1 h)
      | inr e ↦ rw e (
          collect_ctors-IsNamed rows ty tys (cs ++ c ∷ []) l.1
            (All-snoc (λ c. IsNamed c ty) cs c h l.0.0.0))
    ]

module _ (rows : List PatternRow) (ty : Ty) (tys : List Ty) (listed : RowsListed rows (ty ∷ tys))
    (infos : CtorSet) (not_bool : is_bool ty ≡ false) (lists : for_type ty ≡ some infos) where
  abbrev seen : List Ctor
  seen = collect_ctors rows []

  All-contained :
      (cs : List Ctor)
      → All (λ c. IsNamed c ty) cs
      → All (λ c. contains_ctor (ctors_of infos) c ≡ true) cs
  All-contained [] h = tt
  All-contained (c ∷ cs) h = (for_type-contains c ty infos h.0 lists, All-contained cs h.1)

  All-ctors_of :
      (infos : CtorSet)
      → All (λ info. contains_ctor seen info.ctor ≡ true) infos
      → All (λ c. contains_ctor seen c ≡ true) (ctors_of infos)
  All-ctors_of [] h = tt
  All-ctors_of (info ∷ infos) h = (h.0, All-ctors_of infos h.1)

  pub collect_ctors-le : length (collect_ctors rows []) ≤ length infos
  unfolding Distinct
  collect_ctors-le = omega (
    arith,
    length-ctors_of infos,
    Distinct-le seen (ctors_of infos) (collect_ctors-Distinct rows [] tt)
        (All-contained seen (collect_ctors-IsNamed rows ty tys [] listed tt)),
  )

  pub fully_covered_le :
      All (λ info. contains_ctor (collect_ctors rows []) info.ctor ≡ true) infos
      → length infos ≤ length (collect_ctors rows [])
  fully_covered_le h = omega (
    arith,
    length-ctors_of infos,
    Distinct-le (ctors_of infos) seen (for_type-Distinct ty infos not_bool lists)
        (All-ctors_of infos h),
  )
