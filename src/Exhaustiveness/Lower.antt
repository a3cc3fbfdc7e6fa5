-- ===== src/Exhaustiveness/Lower.antt =====
-- typecheck/exhaustiveness.rs: `lower_pattern`, from typed patterns to simplified ones.
use starstream.Prelude.{
  ℕ, suc, String, str_eq, if◌then◌else◌, Option, none, some, List, ◌∷◌, replicate, ok, panic, ◌>>=◌,
  unwrap,
}
use starstream.Types.{
  pos, Ty, items, variants_of, VariantKind, unit_kind, tuple_kind, struct_kind, Fields, field, end,
}
use starstream.Matching.Pattern.{Compiled}
use starstream.TypedPattern.{
  Literal, TypedPattern, TypedPatterns, StructFields, no_field, struct_field, last, find_variant,
}
use starstream.Exhaustiveness.Pattern.{
  SimpleLiteral, enum_variant, record_ctor, tuple_ctor, SimplePat, SimplePats,
}

unfoldable pub unwrap_or {ℓ} : {A : Type ℓ} → Option A → A → A
unwrap_or none a = a
unwrap_or (some b) a = b

unfoldable pub lower_literal : Literal → SimpleLiteral
lower_literal (Literal.integer value) = SimpleLiteral.integer (unwrap_or value (pos 0))
lower_literal (Literal.boolean b) = SimpleLiteral.boolean b
lower_literal Literal.unit_literal = SimpleLiteral.unit_value

-- The arguments in the order of the type's fields.
unfoldable pub each_field : (String → Ty → Compiled SimplePat) → Fields → Compiled SimplePats
each_field lower end = ok SimplePats.nil
each_field lower (field name t fs) = do
  arg ← lower name t
  args ← each_field lower fs
  ok (SimplePats.cons arg args)

abbrev struct_fields : VariantKind → Fields
struct_fields (struct_kind fs) = fs
struct_fields _ = end

abbrev pub length_patterns : TypedPatterns → ℕ
length_patterns TypedPatterns.nil = 0
length_patterns (TypedPatterns.cons p ps) = suc (length_patterns ps)

-- The types of a tuple payload; the fields of any other variant have type `()`.
abbrev tuple_types : VariantKind → TypedPatterns → List Ty
tuple_types (tuple_kind ts) ps = items ts
tuple_types _ ps = replicate (length_patterns ps) Ty.unit

unfoldable mutual
  pub lower_pattern : TypedPattern → Ty → Compiled SimplePat
  lower_pattern (TypedPattern.binding name) ty = ok SimplePat.wildcard
  lower_pattern TypedPattern.wildcard ty = ok SimplePat.wildcard
  lower_pattern (TypedPattern.literal l) ty = ok (SimplePat.literal (lower_literal l))
  lower_pattern (TypedPattern.struct name fields) (Ty.record_type record_name fs) = do
    last_name ← unwrap (last name)
    args ← each_field (lower_field fields) fs
    ok (SimplePat.ctor (record_ctor last_name) args)
  lower_pattern (TypedPattern.struct name fields) (Ty.enum enum_name vs) = do
    last_name ← unwrap (last name)
    let (variant_index, kind) = unwrap_or (find_variant (variants_of vs) last_name 0) (0, unit_kind)
    args ← each_field (lower_field fields) (struct_fields kind)
    ok (SimplePat.ctor (enum_variant enum_name variant_index last_name) args)
  lower_pattern (TypedPattern.struct name fields) _ = panic
  lower_pattern (TypedPattern.tuple name ps) (Ty.enum enum_name vs) = do
    last_name ← unwrap (last name)
    let (variant_index, kind) = unwrap_or (find_variant (variants_of vs) last_name 0) (0, unit_kind)
    args ← lower_zip ps (tuple_types kind ps)
    ok (SimplePat.ctor (enum_variant enum_name variant_index last_name) args)
  lower_pattern (TypedPattern.tuple name ps) _ = panic
  lower_pattern (TypedPattern.anon_tuple ps) (Ty.tuple ts) = do
    args ← lower_zip ps (items ts)
    ok (SimplePat.ctor (tuple_ctor (length_patterns ps)) args)
  lower_pattern (TypedPattern.anon_tuple ps) _ = panic
  lower_pattern (TypedPattern.constant name variant) (Ty.enum enum_name vs) = do
    last_name ← unwrap (last name)
    ok (SimplePat.ctor (enum_variant enum_name variant last_name) SimplePats.nil)
  lower_pattern (TypedPattern.constant name variant) _ = panic

  -- `fields.iter().zip(types).map(|(p, t)| lower_pattern(p, t))`
  pub lower_zip : TypedPatterns → List Ty → Compiled SimplePats
  lower_zip (TypedPatterns.cons p ps) (t ∷ ts) = do
    arg ← lower_pattern p t
    args ← lower_zip ps ts
    ok (SimplePats.cons arg args)
  lower_zip _ _ = ok SimplePats.nil

  -- The first field of the name, or a wildcard.
  pub lower_field : StructFields → String → Ty → Compiled SimplePat
  lower_field no_field name t = ok SimplePat.wildcard
  lower_field (struct_field n p fields) name t =
      if str_eq n name then lower_pattern p t else lower_field fields name t
