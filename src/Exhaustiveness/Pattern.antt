-- ===== src/Exhaustiveness/Pattern.antt =====
-- typecheck/exhaustiveness.rs: simplified patterns, constructors and the constructors of a type.
use starstream.Prelude.{
  ℕ, suc, String, str_eq, Bool, true, false, ◌&&◌, ◌==◌, if◌then◌else◌, Option, none, some, List,
  [], ◌∷◌, length,
}
use starstream.Types.{
  Fields, Tys, ℤ, int_eq, Ty, bool, tuple, record_type, enum, items, types_of, payload, variants_of,
  EnumVariantType,
}

pub data SimpleLiteral : Type 0 where
  integer : ℤ → SimpleLiteral
  boolean : Bool → SimpleLiteral
  unit_value : SimpleLiteral

abbrev bool_eq : Bool → Bool → Bool
bool_eq true b = b
bool_eq false true = false
bool_eq false false = true

abbrev pub literal_eq : SimpleLiteral → SimpleLiteral → Bool
literal_eq (integer m) (integer n) = int_eq m n
literal_eq (boolean a) (boolean b) = bool_eq a b
literal_eq unit_value unit_value = true
literal_eq _ _ = false

pub data Ctor : Type 0 where
  enum_variant : (enum_name : String) (variant_index : ℕ) (variant_name : String) → Ctor
  record_ctor : (record_name : String) → Ctor
  tuple_ctor : (arity : ℕ) → Ctor

abbrev pub ctor_eq : Ctor → Ctor → Bool
ctor_eq (enum_variant e i n) (enum_variant e' i' n') = str_eq e e' && (i == i' && str_eq n n')
ctor_eq (record_ctor r) (record_ctor r') = str_eq r r'
ctor_eq (tuple_ctor a) (tuple_ctor a') = a == a'
ctor_eq _ _ = false

mutual
  pub data SimplePat : Type 0 where
    wildcard : SimplePat
    ctor : Ctor → SimplePats → SimplePat
    literal : SimpleLiteral → SimplePat

  pub data SimplePats : Type 0 where
    nil : SimplePats
    cons : SimplePat → SimplePats → SimplePats

abbrev pub pats : SimplePats → List SimplePat
pats nil = []
pats (cons p ps) = p ∷ pats ps

abbrev pub simple_pats : List SimplePat → SimplePats
simple_pats [] = nil
simple_pats (p ∷ ps) = cons p (simple_pats ps)

pub record CtorInfo : Type 0 where
  pub ctor : Ctor
  pub arity : ℕ
  pub field_types : List Ty

-- `CtorSet`: the constructors of a type, none of them where no pattern but a wildcard can cover it.
abbrev pub CtorSet : Type 0
CtorSet = List CtorInfo

-- `CtorSet::for_enum`, from the variant number `index` on.
unfoldable pub for_enum : String → (index : ℕ) → List EnumVariantType → CtorSet
for_enum name index [] = []
for_enum name index ((variant_name, kind) ∷ vs) =
    record {
      ctor = enum_variant name index variant_name;
      arity = length (payload kind);
      field_types = payload kind;
    }
    ∷ for_enum name (suc index) vs

for_bool : CtorSet
for_bool =
    record { ctor = enum_variant "bool" 0 "false"; arity = 0; field_types = [] }
    ∷ record { ctor = enum_variant "bool" 1 "true"; arity = 0; field_types = [] }
    ∷ []

abbrev pub for_record : String → Fields → CtorSet
for_record name fs =
    record { ctor = record_ctor name; arity = length (types_of fs); field_types = types_of fs } ∷ []

-- The constructor of an anonymous tuple.
abbrev pub for_tuple : Tys → CtorSet
for_tuple ts =
    record {
      ctor = tuple_ctor (length (items ts));
      arity = length (items ts);
      field_types = items ts;
    }
    ∷ []

-- `CtorSet::for_type`
unfoldable pub for_type : Ty → Option CtorSet
unfolding for_bool
for_type (enum name vs) = some (for_enum name 0 (variants_of vs))
for_type (record_type name fs) = some (for_record name fs)
for_type bool = some for_bool
for_type (tuple ts) = some (for_tuple ts)
for_type _ = some []

-- `CtorSet::get_info`
unfoldable pub get_info : CtorSet → Ctor → Option CtorInfo
get_info [] c = none
get_info (info ∷ infos) c = if ctor_eq info.ctor c then some info else get_info infos c
