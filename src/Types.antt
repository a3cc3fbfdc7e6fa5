-- ===== src/Types.antt =====
-- starstream-types/src/types.rs: the types of the language, as far as pattern matching looks at them.
use starstream.Prelude.{ℕ, String, Bool, true, false, List, [], ◌∷◌, ◌==◌}

pub data IntWidth : Type 0 where
  i8 i16 i32 i64 u8 u16 u32 u64 : IntWidth

-- `IntWidth::is_signed`
abbrev pub is_signed : IntWidth → Bool
is_signed i8 = true
is_signed i16 = true
is_signed i32 = true
is_signed i64 = true
is_signed _ = false

-- `i128` literals; `negsuc n` is -(n + 1).
pub data ℤ : Type 0 where
  pos : ℕ → ℤ
  negsuc : ℕ → ℤ

abbrev pub int_eq : ℤ → ℤ → Bool
int_eq (pos a) (pos b) = a == b
int_eq (negsuc a) (negsuc b) = a == b
int_eq _ _ = false

-- Of functions, UTXOs, tokens and interfaces only the name is kept: no pattern takes them apart.
mutual
  pub data Ty : Type 0 where
    var : (id : ℕ) → Ty
    int : IntWidth → Ty
    bool : Ty
    unit : Ty
    function : (name : String) → Ty
    tuple : Tys → Ty
    record_type : (name : String) → Fields → Ty
    enum : (name : String) → Variants → Ty
    utxo_any : Ty
    utxo : (name : String) → Ty
    token_any : Ty
    token : (name : String) → Ty
    abi : (name : String) → Ty

  pub data Tys : Type 0 where
    nil : Tys
    cons : Ty → Tys → Tys

  pub data Fields : Type 0 where
    end : Fields
    field : (name : String) → Ty → Fields → Fields

  pub data VariantKind : Type 0 where
    unit_kind : VariantKind
    tuple_kind : Tys → VariantKind
    struct_kind : Fields → VariantKind

  pub data Variants : Type 0 where
    done : Variants
    variant : (name : String) → VariantKind → Variants → Variants

-- The items of a tuple, and the types of the fields of a record.
abbrev pub items : Tys → List Ty
items nil = []
items (cons t ts) = t ∷ items ts

abbrev pub types_of : Fields → List Ty
types_of end = []
types_of (field name t fs) = t ∷ types_of fs

abbrev pub payload : VariantKind → List Ty
payload unit_kind = []
payload (tuple_kind ts) = items ts
payload (struct_kind fs) = types_of fs

abbrev pub EnumVariantType : Type 0
EnumVariantType = String × VariantKind

abbrev pub variants_of : Variants → List EnumVariantType
variants_of done = []
variants_of (variant name kind vs) = (name, kind) ∷ variants_of vs
