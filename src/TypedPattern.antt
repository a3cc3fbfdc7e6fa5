-- ===== src/TypedPattern.antt =====
-- starstream-types: the typed patterns of a match arm (typed_ast.rs), and what type inference says of
-- them.
use starstream.Prelude.{
  ℕ, suc, String, str_eq, Bool, true, false, if◌then◌else◌, ◌≡◌, Option, none, some, List, [], ◌∷◌,
  get_elem?,
}
use starstream.Types.{
  Tys, ℤ, Ty, items, variants_of, EnumVariantType, VariantKind, unit_kind, tuple_kind, struct_kind,
  Fields, field, end,
}

-- The value of an integer literal is missing where its digits overflow.
pub data Literal : Type 0 where
  integer : (value : Option ℤ) → Literal
  boolean : Bool → Literal
  unit_literal : Literal

-- The parts of a path such as `Enum::Variant`.
abbrev pub ScopedName : Type 0
ScopedName = List String

mutual
  pub data TypedPattern : Type 0 where
    binding : (name : String) → TypedPattern
    wildcard : TypedPattern
    literal : Literal → TypedPattern
    struct : ScopedName → StructFields → TypedPattern
    tuple : ScopedName → TypedPatterns → TypedPattern
    anon_tuple : TypedPatterns → TypedPattern
    constant : ScopedName → (variant : ℕ) → TypedPattern

  pub data TypedPatterns : Type 0 where
    nil : TypedPatterns
    cons : TypedPattern → TypedPatterns → TypedPatterns

  -- `TypedStructPatternField`s
  pub data StructFields : Type 0 where
    no_field : StructFields
    struct_field : (name : String) → TypedPattern → StructFields → StructFields

-- `name.last()`
abbrev pub last : ScopedName → Option String
last [] = none
last (part ∷ []) = some part
last (part ∷ (next ∷ rest)) = last (next ∷ rest)

-- `variants.iter().position(|v| v.name == name)`, from the variant number `index` on, and its kind.
unfoldable pub find_variant : List EnumVariantType → String → (index : ℕ) → Option (ℕ × VariantKind)
find_variant [] name index = none
find_variant ((variant, kind) ∷ vs) name index =
    if str_eq variant name then some (index, kind) else find_variant vs name (suc index)

abbrev pub IsLiteral : Literal → Ty → Type 0
IsLiteral (integer (some n)) (Ty.int w) = Unit
IsLiteral (boolean b) Ty.bool = Unit
IsLiteral unit_literal Ty.unit = Unit
IsLiteral _ _ = ⊥

-- Every field of the type, with what the pattern has for it.
abbrev pub EachField : (String → Ty → Type 0) → Fields → Type 0
EachField P end = Unit
EachField P (field name t fs) = P name t × EachField P fs

-- The first field of the name counts.
abbrev pub FieldOr : Bool → Type 0 → Type 0 → Type 0
FieldOr true here later = here
FieldOr false here later = later

-- What type inference guarantees of a pattern of the type.
unfoldable mutual
  pub PatternFits : TypedPattern → Ty → Type 0
  PatternFits (TypedPattern.binding name) ty = Unit
  PatternFits TypedPattern.wildcard ty = Unit
  PatternFits (TypedPattern.literal l) ty = IsLiteral l ty
  PatternFits (TypedPattern.struct name fields) (Ty.record_type record_name fs) =
      ((n : String) × (last name ≡ some n)) × EachField (OptionalField fields) fs
  PatternFits (TypedPattern.struct name fields) (Ty.enum enum_name vs) =
      (n : String) × (i : ℕ) × (fs : Fields) × (last name ≡ some n)
      × (find_variant (variants_of vs) n 0 ≡ some (i, struct_kind fs))
      × EachField (RequiredField fields) fs
  PatternFits (TypedPattern.struct name fields) _ = ⊥
  PatternFits (TypedPattern.tuple name ps) (Ty.enum enum_name vs) =
      (n : String) × (i : ℕ) × (ts : Tys) × (last name ≡ some n)
      × (find_variant (variants_of vs) n 0 ≡ some (i, tuple_kind ts))
      × PatternsFit ps (items ts)
  PatternFits (TypedPattern.tuple name ps) _ = ⊥
  PatternFits (TypedPattern.anon_tuple ps) (Ty.tuple ts) = PatternsFit ps (items ts)
  PatternFits (TypedPattern.anon_tuple ps) _ = ⊥
  PatternFits (TypedPattern.constant name variant) (Ty.enum enum_name vs) =
      (n : String) × (variant_name : String) × (last name ≡ some n)
      × (get_elem? (variants_of vs) variant ≡ some (variant_name, unit_kind))
  PatternFits (TypedPattern.constant name variant) _ = ⊥

  pub PatternsFit : TypedPatterns → List Ty → Type 0
  PatternsFit TypedPatterns.nil [] = Unit
  PatternsFit (TypedPatterns.cons p ps) (t ∷ ts) = PatternFits p t × PatternsFit ps ts
  PatternsFit _ _ = ⊥

  -- The pattern for a field of a record, if there is one.
  pub OptionalField : StructFields → String → Ty → Type 0
  OptionalField no_field name t = Unit
  OptionalField (struct_field n p fields) name t =
      FieldOr (str_eq n name) (PatternFits p t) (OptionalField fields name t)

  -- The pattern for a field of a variant.
  pub RequiredField : StructFields → String → Ty → Type 0
  RequiredField no_field name t = ⊥
  RequiredField (struct_field n p fields) name t =
      FieldOr (str_eq n name) (PatternFits p t) (RequiredField fields name t)
