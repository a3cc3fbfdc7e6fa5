-- ===== src/Exhaustiveness/Useful.antt =====
-- typecheck/exhaustiveness.rs: the pattern matrix, and whether a pattern is useful after it. The debug
-- assertion of `Matrix::push` is in Asserting.
use starstream.Prelude.{
  ℕ, zero, suc, ◌==◌, Bool, true, false, ◌&&◌, ◌||◌, if◌then◌else◌, Option, none, some, List, [],
  ◌∷◌, ◌++◌, length, replicate, filter_map, ok, err, ◌>>=◌,
}
use starstream.Types.{Ty, bool}
use starstream.Matching.Pattern.{Compiled, out_of_fuel}
use starstream.Exhaustiveness.Pattern.{
  SimpleLiteral, boolean, literal_eq, Ctor, ctor_eq, SimplePat, wildcard, ctor, literal, pats,
  CtorInfo, CtorSet, for_type, get_info,
}

abbrev pub PatternRow : Type 0
PatternRow = List SimplePat

pub record Matrix : Type 0 where
  pub rows : List PatternRow
  pub col_types : List Ty

abbrev pub is_empty : Matrix → Bool
is_empty m = length m.rows == 0

-- `Vec::contains`
unfoldable pub contains_ctor : List Ctor → Ctor → Bool
contains_ctor [] c = false
contains_ctor (d ∷ ds) c = ctor_eq d c || contains_ctor ds c

unfoldable pub contains_literal : List SimpleLiteral → SimpleLiteral → Bool
contains_literal [] l = false
contains_literal (k ∷ ks) l = literal_eq k l || contains_literal ks l

abbrev pub push_ctor : PatternRow → List Ctor → List Ctor
push_ctor (ctor c args ∷ ps) ctors = if contains_ctor ctors c then ctors else ctors ++ c ∷ []
push_ctor _ ctors = ctors

unfoldable pub collect_ctors : List PatternRow → List Ctor → List Ctor
collect_ctors [] ctors = ctors
collect_ctors (row ∷ rows) ctors = collect_ctors rows (push_ctor row ctors)

abbrev pub collect_first_column_ctors : Matrix → List Ctor
collect_first_column_ctors m = collect_ctors m.rows []

abbrev pub push_literal : PatternRow → List SimpleLiteral → List SimpleLiteral
push_literal (literal l ∷ ps) literals =
    if contains_literal literals l then literals else literals ++ l ∷ []
push_literal _ literals = literals

unfoldable pub collect_literals : List PatternRow → List SimpleLiteral → List SimpleLiteral
collect_literals [] literals = literals
collect_literals (row ∷ rows) literals = collect_literals rows (push_literal row literals)

abbrev pub collect_first_column_literals : Matrix → List SimpleLiteral
collect_first_column_literals m = collect_literals m.rows []

abbrev pub starts_with_literal : PatternRow → Bool
starts_with_literal (literal l ∷ ps) = true
starts_with_literal _ = false

unfoldable pub has_literals : List PatternRow → Bool
has_literals [] = false
has_literals (row ∷ rows) = starts_with_literal row || has_literals rows

abbrev pub has_literals_in_first_column : Matrix → Bool
has_literals_in_first_column m = has_literals m.rows

-- `iter().skip(1)`
abbrev pub skip_one {ℓ} : {A : Type ℓ} → List A → List A
skip_one [] = []
skip_one (x ∷ xs) = xs

abbrev pub specialize_row : Ctor → ℕ → PatternRow → Option PatternRow
specialize_row c arity [] = none
specialize_row c arity (wildcard ∷ ps) = some (replicate arity wildcard ++ ps)
specialize_row c arity (ctor d args ∷ ps) = if ctor_eq d c then some (pats args ++ ps) else none
specialize_row c arity (literal l ∷ ps) = none

unfoldable pub specialize : Matrix → Ctor → CtorInfo → Matrix
specialize m c info = record {
  rows = filter_map (specialize_row c info.arity) m.rows;
  col_types = info.field_types ++ skip_one m.col_types;
}

abbrev pub default_row : PatternRow → Option PatternRow
default_row (wildcard ∷ ps) = some ps
default_row _ = none

unfoldable pub default_matrix : Matrix → Matrix
default_matrix m = record { rows = filter_map default_row m.rows; col_types = skip_one m.col_types }

abbrev pub literal_row : SimpleLiteral → PatternRow → Option PatternRow
literal_row l [] = none
literal_row l (wildcard ∷ ps) = some ps
literal_row l (ctor d args ∷ ps) = none
literal_row l (literal k ∷ ps) = if literal_eq k l then some ps else none

unfoldable pub specialize_literal : Matrix → SimpleLiteral → Matrix
specialize_literal m l = record {
  rows = filter_map (literal_row l) m.rows;
  col_types = skip_one m.col_types;
}

abbrev pub is_bool : Ty → Bool
is_bool bool = true
is_bool _ = false

-- `a || b`, where `b` runs only if `a` is false.
abbrev pub either : Compiled Bool → Compiled Bool → Compiled Bool
either a b = do found ← a; elim found [ true ↦ ok true | false ↦ b ]

abbrev pub both_booleans : List SimpleLiteral → Bool
both_booleans ls = contains_literal ls (boolean true) && contains_literal ls (boolean false)

-- `is_useful`, which passes the smaller matrices to `rec`.
module _ (rec : Matrix → List SimplePat → Compiled Bool) where
  unfoldable pub any_useful : Matrix → List SimplePat → CtorSet → Compiled Bool
  any_useful m ps [] = ok false
  any_useful m ps (info ∷ infos) =
      either (rec (specialize m info.ctor info) (replicate info.arity wildcard ++ ps))
        (any_useful m ps infos)

  unfoldable pub useful_constructors : Matrix → List SimplePat → CtorSet → Compiled Bool
  useful_constructors m ps [] = rec (default_matrix m) ps
  useful_constructors m ps (info ∷ infos) =
      elim (length (collect_first_column_ctors m) == length (info ∷ infos)) [
        | true ↦ any_useful m ps (info ∷ infos)
        | false ↦ rec (default_matrix m) ps
      ]

  unfoldable pub useful_wildcard : Matrix → Ty → List SimplePat → CtorSet → Compiled Bool
  useful_wildcard m ty ps ctors = elim (has_literals_in_first_column m) [
    | true ↦ elim (is_bool ty && both_booleans (collect_first_column_literals m)) [
      | true ↦
          either (rec (specialize_literal m (boolean true)) ps)
            (rec (specialize_literal m (boolean false)) ps)
      | false ↦ rec (default_matrix m) ps
    ]
    | false ↦ useful_constructors m ps ctors
  ]

  unfoldable pub useful_head : Matrix → Ty → SimplePat → List SimplePat → CtorSet → Compiled Bool
  useful_head m ty (ctor c args) ps ctors = elim (get_info ctors c) [
    | none ↦ ok true
    | some info ↦ rec (specialize m c info) (pats args ++ ps)
  ]
  useful_head m ty wildcard ps ctors = useful_wildcard m ty ps ctors
  useful_head m ty (literal l) ps ctors = rec (specialize_literal m l) ps

  unfoldable pub useful_column : Matrix → List Ty → SimplePat → List SimplePat → Compiled Bool
  useful_column m [] p ps = ok (is_empty m)
  useful_column m (ty ∷ tys) p ps = elim (for_type ty) [
    | none ↦ ok true
    | some ctors ↦ useful_head m ty p ps ctors
  ]

-- `fuel` bounds the depth of the calls.
unfoldable pub is_useful : ℕ → Matrix → List SimplePat → Compiled Bool
is_useful zero m pattern = err out_of_fuel
is_useful (suc fuel) m [] = ok (is_empty m)
is_useful (suc fuel) m (p ∷ ps) = useful_column (is_useful fuel) m m.col_types p ps
