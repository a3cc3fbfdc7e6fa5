-- ===== src/Matching/Lower.antt =====
-- starstream-to-wasm/src/lib.rs: `lower_pattern`, from typed patterns to those of the clause matrix.
use starstream.Prelude.{
  ℕ, suc, String, str_eq, none, some, List, [], ◌∷◌, ok, panic, ◌>>=◌, unwrap, if◌then◌else◌,
}
use starstream.Types.{
  pos, Ty, items, variants_of, VariantKind, tuple_kind, struct_kind, Fields, field, end,
}
use starstream.Matching.Pattern.{
  Compiled, Ctor, enum_variant, bool_true, bool_false, int_literal, struct, unit_ctor, Pat, Pats,
  Row,
}
use starstream.TypedPattern.{
  Literal, TypedPattern, TypedPatterns, StructFields, no_field, struct_field, last, find_variant,
}

unfoldable pub lower_literal : Literal → Ctor
lower_literal (Literal.integer (some n)) = int_literal n
lower_literal (Literal.integer none) = int_literal (pos 0)
lower_literal (Literal.boolean b) = if b then bool_true else bool_false
lower_literal Literal.unit_literal = unit_ctor

-- The arguments in the order of the type's fields.
unfoldable pub each_field : (String → Ty → Compiled Pat) → Fields → Compiled Pats
each_field lower end = ok Pats.nil
each_field lower (field name t fs) = do
  arg ← lower name t
  args ← each_field lower fs
  ok (Pats.cons arg args)

-- The pattern of a struct variant: `args` are made of its fields.
abbrev struct_variant : ℕ × VariantKind → (Fields → Compiled Pats) → Compiled Pat
struct_variant (variant_index, struct_kind fs) args_of = do
  args ← args_of fs
  ok (Pat.ctor (enum_variant variant_index) args)
struct_variant (variant_index, kind) args_of = ok (Pat.wildcard none)

abbrev tuple_variant : ℕ × VariantKind → (List Ty → Compiled Pats) → Compiled Pat
tuple_variant (variant_index, tuple_kind ts) args_of = do
  args ← args_of (items ts)
  ok (Pat.ctor (enum_variant variant_index) args)
tuple_variant (variant_index, kind) args_of = panic

-- `arm_idx` is the arm that a variable of the pattern is bound in.
unfoldable mutual
  pub lower_pattern : (arm_idx : ℕ) → TypedPattern → Ty → Compiled Pat
  lower_pattern arm_idx TypedPattern.wildcard ty = ok (Pat.wildcard none)
  lower_pattern arm_idx (TypedPattern.binding name) ty = ok (Pat.wildcard (some (arm_idx, name)))
  lower_pattern arm_idx (TypedPattern.literal l) ty = ok (Pat.ctor (lower_literal l) Pats.nil)
  lower_pattern arm_idx (TypedPattern.struct name fields) (Ty.record_type record_name fs) = do
    args ← each_field (lower_field arm_idx fields) fs
    ok (Pat.ctor struct args)
  lower_pattern arm_idx (TypedPattern.struct name fields) (Ty.enum enum_name vs) = do
    last_name ← unwrap (last name)
    variant ← unwrap (find_variant (variants_of vs) last_name 0)
    struct_variant variant (each_field (required_field arm_idx fields))
  lower_pattern arm_idx (TypedPattern.struct name fields) _ = panic
  lower_pattern arm_idx (TypedPattern.tuple name ps) (Ty.enum enum_name vs) = do
    last_name ← unwrap (last name)
    variant ← unwrap (find_variant (variants_of vs) last_name 0)
    tuple_variant variant (lower_zip arm_idx ps)
  lower_pattern arm_idx (TypedPattern.tuple name ps) _ = panic
  lower_pattern arm_idx (TypedPattern.anon_tuple ps) (Ty.tuple ts) = do
    args ← lower_zip arm_idx ps (items ts)
    ok (Pat.ctor struct args)
  lower_pattern arm_idx (TypedPattern.anon_tuple ps) _ = panic
  lower_pattern arm_idx (TypedPattern.constant name variant) ty =
      ok (Pat.ctor (enum_variant variant) Pats.nil)

  pub lower_zip : (arm_idx : ℕ) → TypedPatterns → List Ty → Compiled Pats
  lower_zip arm_idx (TypedPatterns.cons p ps) (t ∷ ts) = do
    arg ← lower_pattern arm_idx p t
    args ← lower_zip arm_idx ps ts
    ok (Pats.cons arg args)
  lower_zip arm_idx _ _ = ok Pats.nil

  -- The first field of the name, or a wildcard.
  pub lower_field : (arm_idx : ℕ) → StructFields → String → Ty → Compiled Pat
  lower_field arm_idx no_field name t = ok (Pat.wildcard none)
  lower_field arm_idx (struct_field n p fields) name t =
      if str_eq n name then lower_pattern arm_idx p t else lower_field arm_idx fields name t

  -- The first field of the name, which has to be there.
  pub required_field : (arm_idx : ℕ) → StructFields → String → Ty → Compiled Pat
  required_field arm_idx no_field name t = panic
  required_field arm_idx (struct_field n p fields) name t =
      if str_eq n name then lower_pattern arm_idx p t else required_field arm_idx fields name t

-- The rows of the matrix of a match, one for each arm.
unfoldable pub lower_arms : (arm_idx : ℕ) → List TypedPattern → Ty → Compiled (List Row)
lower_arms arm_idx [] ty = ok []
lower_arms arm_idx (arm ∷ arms) ty = do
  pat ← lower_pattern arm_idx arm ty
  rows ← lower_arms (suc arm_idx) arms ty
  ok (record { row = pat ∷ []; action = arm_idx } ∷ rows)
