-- ===== src/Exhaustiveness/Constructors.antt =====
-- The constructors that `CtorSet::for_type` lists are those of the type, with their fields.
use starstream.Prelude.{
  ℕ, zero, suc, ◌+◌, ◌<◌, true, false, ◌≡◌, refl, ap, arith, some, List, [], ◌∷◌, length, All, ok,
  str_eq_iff, get_elem?, Bool-cases, inl, inr, String,
}
use starstream.Types.{Ty, bool, enum, record_type, tuple, variants_of, EnumVariantType, Variants}
use starstream.Matching.Pattern.{Ctor as Tag, enum_variant as variant_tag, struct, field_types}
use starstream.Matching.Meaning.{IsCtorOf}
use starstream.Exhaustiveness.Pattern.{
  Ctor, enum_variant, record_ctor, tuple_ctor, ctor_eq, CtorInfo, CtorSet, for_enum, for_type,
  get_info, for_record, for_tuple,
}
use starstream.Exhaustiveness.Useful.{is_bool}
use starstream.Exhaustiveness.Meaning.{tag}

pub ctor_eq→eq : (c d : Ctor) → ctor_eq c d ≡ true → c ≡ d
ctor_eq→eq (enum_variant e i n) (enum_variant e' i' n') h =
    ground (arith, str_eq_iff e e', str_eq_iff n n')
ctor_eq→eq (record_ctor r) (record_ctor r') h = ground (arith, str_eq_iff r r')
ctor_eq→eq (tuple_ctor a) (tuple_ctor a') h = ground arith
ctor_eq→eq c d h = ground arith

-- What a listed constructor says of itself.
abbrev pub InfoFits : Ty → CtorInfo → Type 0
InfoFits ty info =
    (info.arity ≡ length info.field_types) × (field_types (tag info.ctor) ty ≡ ok info.field_types)

pub get_info-All :
    (P : CtorInfo → Type 0) (infos : CtorSet) (c : Ctor) (info : CtorInfo)
    → All P infos
    → get_info infos c ≡ some info
    → P info × (info.ctor ≡ c)
unfolding get_info
get_info-All P [] c info a h = cc
get_info-All P (i ∷ infos) c info a h = elim (Bool-cases (ctor_eq i.ctor c)) [
  | inl k ↦
      let same : i ≡ info = (let h' = (rw k at h) in cc) in rw (← same) (a.0, ctor_eq→eq i.ctor c k)
  | inr k ↦ get_info-All P infos c info a.1 (rw k at h)
]

-- From the variant number `k` on, `vs` are the variants of `all`.
abbrev Rest : List EnumVariantType → ℕ → List EnumVariantType → Type 0
Rest all k vs = (j : ℕ) → get_elem? all (k + j) ≡ get_elem? vs j

for_enum-InfoFits :
    (name : String) (variants : Variants) (k : ℕ) (vs : List EnumVariantType)
    → Rest (variants_of variants) k vs
    → All (InfoFits (enum name variants)) (for_enum name k vs)
unfolding for_enum field_types
for_enum-InfoFits name variants k [] h = tt
for_enum-InfoFits name variants k ((variant_name, kind) ∷ vs) h =
    let q : k + 0 ≡ k = omega arith in
    let e = (rw q at (h 0)) in
    (
      (refl, ground arith),
      for_enum-InfoFits name variants (suc k) vs
          (λ j. let q' : suc k + j ≡ k + suc j = omega arith in rw q' (h (suc j))),
    )

-- The listed constructors have the fields of the type's.
pub for_type-InfoFits :
    (ty : Ty) (ctors : CtorSet)
    → is_bool ty ≡ false
    → for_type ty ≡ some ctors
    → All (InfoFits ty) ctors
unfolding for_type field_types
for_type-InfoFits (enum name vs) ctors b h =
    let e : for_enum name 0 (variants_of vs) ≡ ctors = cc in
    rw (← e)
      (for_enum-InfoFits name vs 0 (variants_of vs) (λ j. let q : 0 + j ≡ j = omega arith in rw q))
for_type-InfoFits bool ctors b h = cc
for_type-InfoFits (record_type name fs) ctors b h =
    let e : for_record name fs ≡ ctors = cc in rw (← e) ((refl, refl), tt)
for_type-InfoFits (tuple ts) ctors b h =
    let e : for_tuple ts ≡ ctors = cc in rw (← e) ((refl, refl), tt)
for_type-InfoFits ty [] b h = tt
for_type-InfoFits ty (info ∷ infos) b h = cc

-- One of the constructors, with what holds of all of them, is the value's.
abbrev Picked : (CtorInfo → Type 0) → Tag → Type 0
Picked P t = (info : CtorInfo) × P info × (tag info.ctor ≡ t)

for_enum-Picked :
    (P : CtorInfo → Type 0) (name : String) (k : ℕ) (vs : List EnumVariantType) (j : ℕ)
    → All P (for_enum name k vs)
    → j < length vs
    → Picked P (variant_tag (k + j))
unfolding for_enum
for_enum-Picked P name k [] j a l = elim l [ ]
for_enum-Picked P name k ((variant_name, kind) ∷ vs) zero a l =
    (_, a.0, ap variant_tag (omega arith))
for_enum-Picked P name k ((variant_name, kind) ∷ vs) (suc j) a l =
    let q : suc k + j ≡ k + suc j = omega arith in
    rw (← q) (for_enum-Picked P name (suc k) vs j a.1 (omega arith))

pub for_type-Picked :
    (P : CtorInfo → Type 0) (ty : Ty) (c : CtorInfo) (cs : CtorSet) (t : Tag)
    → for_type ty ≡ some (c ∷ cs)
    → is_bool ty ≡ false
    → IsCtorOf t ty
    → All P (c ∷ cs)
    → Picked P t
unfolding for_type
for_type-Picked P (enum name vs) c cs (variant_tag i) h b o a =
    let e : c ∷ cs ≡ for_enum name 0 (variants_of vs) = cc in
    let q : 0 + i ≡ i = omega arith in
    rw (← q) (for_enum-Picked P name 0 (variants_of vs) i (rw (← e) a) o)
for_type-Picked P (record_type name fs) c cs struct h b o a = (c, a.0, ground arith)
for_type-Picked P (tuple ts) c cs struct h b o a = (c, a.0, ground arith)
for_type-Picked P bool c cs t h b o a = cc
for_type-Picked P ty c cs t h b o a = absurd (ground arith)
