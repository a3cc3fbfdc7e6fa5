-- ===== src/Matching/Pattern.antt =====
-- decision_tree.rs: constructors, patterns, the clause matrix and decision trees.
use starstream.Prelude.{
  ℕ, String, Bool, true, false, ◌==◌, Option, none, some, List, [], ◌∷◌, length, get_elem?, Outcome,
  ok, panic, ◌>>=◌,
}
use starstream.Types.{
  ℤ, int_eq, Ty, tuple, record_type, enum, items, types_of, payload, variants_of, VariantKind,
  EnumVariantType,
}

pub data Ctor : Type 0 where
  enum_variant : (variant_index : ℕ) → Ctor
  bool_true bool_false : Ctor
  int_literal : ℤ → Ctor
  struct : Ctor
  unit_ctor : Ctor

abbrev pub ctor_eq : Ctor → Ctor → Bool
ctor_eq (enum_variant i) (enum_variant j) = i == j
ctor_eq bool_true bool_true = true
ctor_eq bool_false bool_false = true
ctor_eq (int_literal m) (int_literal n) = int_eq m n
ctor_eq struct struct = true
ctor_eq unit_ctor unit_ctor = true
ctor_eq _ _ = false

mutual
  -- A wildcard may bind a variable in an arm.
  pub data Pat : Type 0 where
    wildcard : (binding : Option (ℕ × String)) → Pat
    ctor : Ctor → Pats → Pat

  pub data Pats : Type 0 where
    nil : Pats
    cons : Pat → Pats → Pats

abbrev pub pats : Pats → List Pat
pats nil = []
pats (cons p ps) = p ∷ pats ps

-- The fuel of a recursion is used up.
pub data Fuel : Type 0 where
  out_of_fuel : Fuel

abbrev pub Compiled : Type 0 → Type 0
Compiled A = Outcome Fuel A

-- `e.variants[i].kind`
abbrev pub variant_kind : List EnumVariantType → ℕ → Compiled VariantKind
variant_kind vs i = elim (get_elem? vs i) [ none ↦ panic | some (name, kind) ↦ ok kind ]

-- `Ctor::arity`
unfoldable pub arity : Ctor → Ty → Compiled ℕ
arity (enum_variant i) (enum name vs) = do
  kind ← variant_kind (variants_of vs) i
  ok (length (payload kind))
arity struct (record_type name fs) = ok (length (types_of fs))
arity struct (tuple ts) = ok (length (items ts))
arity _ _ = ok 0

-- `Ctor::field_types`
unfoldable pub field_types : Ctor → Ty → Compiled (List Ty)
field_types (enum_variant i) (enum name vs) = do
  kind ← variant_kind (variants_of vs) i
  ok (payload kind)
field_types struct (record_type name fs) = ok (types_of fs)
field_types struct (tuple ts) = ok (items ts)
field_types _ _ = ok []

pub record Row : Type 0 where
  pub row : List Pat
  pub action : ℕ

pub record LeafBinding : Type 0 where
  pub action : ℕ
  pub name : String
  pub column : ℕ

mutual
  pub data DecisionTree : Type 0 where
    leaf : (action : ℕ) (bindings : List LeafBinding) → DecisionTree
    fail : DecisionTree
    switch : (column : ℕ) → Cases → Default → DecisionTree

  pub data Cases : Type 0 where
    no_case : Cases
    case : Ctor → DecisionTree → Cases → Cases

  pub data Default : Type 0 where
    no_default : Default
    default : DecisionTree → Default
