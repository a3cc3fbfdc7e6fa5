-- ===== src/Matching/Compile.antt =====
-- decision_tree.rs: `compile` and the functions that it decomposes the clause matrix with.
use starstream.Prelude.{
  ℕ, zero, suc, Bool, true, false, ◌&&◌, ◌||◌, ltb, if◌then◌else◌, Option, none, some, List, [],
  ◌∷◌, ◌++◌, length, replicate, Outcome, ok, err, panic, ◌>>=◌,
}
use starstream.Types.{Ty, bool, unit, tuple, record_type, enum, variants_of}
use starstream.Matching.Pattern.{
  Fuel, Ctor, enum_variant, bool_true, bool_false, ctor_eq, Pat, wildcard, ctor, pats, Compiled,
  out_of_fuel, arity, field_types, Row, LeafBinding, DecisionTree, leaf, fail, switch, Cases,
  no_case, case, Default, no_default, default,
}

-- `xs[..i]`, `xs[i]` and `xs[i + 1..]`; an index out of range panics.
unfoldable pub focus {ℓ} : {A : Type ℓ} → List A → ℕ → Outcome Fuel (List A × A × List A)
focus [] i = panic
focus (x ∷ xs) zero = ok ([], x, xs)
focus (x ∷ xs) (suc i) = do (before, y, after) ← focus xs i; ok (x ∷ before, y, after)

abbrev pub is_ctor : Pat → Bool
is_ctor (wildcard b) = false
is_ctor (ctor c args) = true

-- `pats.iter().all(|p| matches!(p, Pat::Wildcard { .. }))`
unfoldable pub all_wildcards : List Pat → Bool
all_wildcards [] = true
all_wildcards (wildcard b ∷ ps) = all_wildcards ps
all_wildcards (ctor c args ∷ ps) = false

leaf_bindings : List Pat → ℕ → List LeafBinding
leaf_bindings [] col = []
leaf_bindings (wildcard (some (action, name)) ∷ ps) col =
    record { action = action; name = name; column = col } ∷ leaf_bindings ps (suc col)
leaf_bindings (wildcard none ∷ ps) col = leaf_bindings ps (suc col)
leaf_bindings (ctor c args ∷ ps) col = leaf_bindings ps (suc col)

unfoldable pub extract_leaf_bindings : Row → List LeafBinding
unfolding leaf_bindings
extract_leaf_bindings r = leaf_bindings r.row 0

-- The longest prefix of the rows with a constructor in column `col`.
unfoldable pub score : List Row → ℕ → Compiled ℕ
score [] col = ok 0
score (r ∷ rs) col = do
  (before, p, after) ← focus r.row col
  elim (is_ctor p) [ true ↦ do n ← score rs col; ok (suc n) | false ↦ ok 0 ]

-- `for col in col..col + k`, with the best column and its score so far.
unfoldable pub best_column : List Row → (k col best_col best_score : ℕ) → Compiled (ℕ × ℕ)
best_column rows zero col best_col best_score = ok (best_col, best_score)
best_column rows (suc k) col best_col best_score = do
  n ← score rows col
  best_column rows k (suc col) (if ltb best_score n then col else best_col)
      (if ltb best_score n then n else best_score)

any_ctor : List Row → ℕ → Compiled Bool
any_ctor [] col = ok false
any_ctor (r ∷ rs) col = do
  (before, p, after) ← focus r.row col
  elim (is_ctor p) [ true ↦ ok true | false ↦ any_ctor rs col ]

-- The fallback: the first column with a constructor in any row.
first_column : List Row → (k col best_col : ℕ) → Compiled ℕ
first_column rows zero col best_col = ok best_col
first_column rows (suc k) col best_col = do
  found ← any_ctor rows col
  elim found [ true ↦ ok col | false ↦ first_column rows k (suc col) best_col ]

unfoldable pub select_column : List Row → Compiled ℕ
unfolding first_column any_ctor
select_column [] = panic
select_column (r ∷ rs) = do
  (best_col, best_score) ← best_column (r ∷ rs) (length r.row) 0 0 0
  elim best_score [ zero ↦ first_column (r ∷ rs) (length r.row) 0 best_col | suc n ↦ ok best_col ]

unfoldable pub contains : List Ctor → Ctor → Bool
contains [] c = false
contains (d ∷ ds) c = ctor_eq d c || contains ds c

abbrev pub push_head : Pat → List Ctor → List Ctor
push_head (wildcard b) ctors = ctors
push_head (ctor c args) ctors = if contains ctors c then ctors else ctors ++ c ∷ []

unfoldable pub collect_heads : List Row → ℕ → List Ctor → Compiled (List Ctor)
collect_heads [] col ctors = ok ctors
collect_heads (r ∷ rs) col ctors = do
  (before, p, after) ← focus r.row col
  collect_heads rs col (push_head p ctors)

unfoldable pub head_constructors : List Row → ℕ → Compiled (List Ctor)
head_constructors rows col = collect_heads rows col []

-- `(0..k).all(|i| ctors.contains(&Ctor::EnumVariant { variant_index: i }))`
unfoldable pub has_variants : ℕ → List Ctor → Bool
has_variants zero ctors = true
has_variants (suc k) ctors = has_variants k ctors && contains ctors (enum_variant k)

unfoldable pub is_complete_signature : List Ctor → Ty → Bool
unfolding has_variants
is_complete_signature ctors bool = contains ctors bool_true && contains ctors bool_false
is_complete_signature ctors (enum name vs) =
    ltb 0 (length (variants_of vs)) && has_variants (length (variants_of vs)) ctors
is_complete_signature ctors (record_type name fs) = true
is_complete_signature ctors (tuple ts) = true
is_complete_signature ctors unit = true
is_complete_signature ctors _ = false

-- A row is left out, or `qs` stands for its pattern in the column.
abbrev pub keep_row : Option (List Pat) → (before after : List Pat) → ℕ → List Row → List Row
keep_row none before after action rest = rest
keep_row (some qs) before after action rest =
    record { row = before ++ (qs ++ after); action = action } ∷ rest

-- The loop of `specialize` and of `default_matrix`, which take the pattern of the column apart.
unfoldable pub decompose : (Pat → Option (List Pat)) → List Row → ℕ → Compiled (List Row)
decompose take [] col = ok []
decompose take (r ∷ rs) col = do
  (before, p, after) ← focus r.row col
  rest ← decompose take rs col
  ok (keep_row (take p) before after r.action rest)

-- A wildcard becomes `n` wildcards that bind nothing.
abbrev pub specialize_pat : Ctor → ℕ → Pat → Option (List Pat)
specialize_pat c n (wildcard binding) = some (replicate n (wildcard none))
specialize_pat c n (ctor d args) = if ctor_eq d c then some (pats args) else none

unfoldable pub specialize : List Row → ℕ → Ctor → Ty → Compiled (List Row)
specialize rows col c ty = do n ← arity c ty; decompose (specialize_pat c n) rows col

abbrev pub default_pat : Pat → Option (List Pat)
default_pat (wildcard binding) = some []
default_pat (ctor c args) = none

unfoldable pub default_matrix : List Row → ℕ → Compiled (List Row)
default_matrix rows col = decompose default_pat rows col

unfoldable pub specialize_col_types : List Ty → ℕ → Ctor → Ty → Compiled (List Ty)
specialize_col_types col_types col c ty = do
  tys ← field_types c ty
  (before, old, after) ← focus col_types col
  ok (before ++ (tys ++ after))

unfoldable pub default_col_types : List Ty → ℕ → Compiled (List Ty)
default_col_types col_types col = do
  (before, old, after) ← focus col_types col
  ok (before ++ after)

-- The recursive calls of `compile`, which pass the smaller matrices to `rec`.
module _ (rec : List Row → List Ty → Compiled DecisionTree) where
  unfoldable pub compile_cases : List Row → List Ty → ℕ → Ty → List Ctor → Compiled Cases
  compile_cases rows col_types i ty [] = ok no_case
  compile_cases rows col_types i ty (c ∷ cs) = do
    specialized ← specialize rows i c ty
    new_col_types ← specialize_col_types col_types i c ty
    subtree ← rec specialized new_col_types
    rest ← compile_cases rows col_types i ty cs
    ok (case c subtree rest)

  unfoldable pub compile_default : List Row → List Ty → ℕ → Bool → Compiled Default
  compile_default rows col_types i true = ok no_default
  compile_default rows col_types i false = do
    def_matrix ← default_matrix rows i
    def_col_types ← default_col_types col_types i
    subtree ← rec def_matrix def_col_types
    ok (default subtree)

  unfoldable pub compile_switch : List Row → List Ty → Compiled DecisionTree
  compile_switch rows col_types = do
    i ← select_column rows
    sigma ← head_constructors rows i
    (before, ty, after) ← focus col_types i
    cases ← compile_cases rows col_types i ty sigma
    other ← compile_default rows col_types i (is_complete_signature sigma ty)
    ok (switch i cases other)

-- `fuel` bounds the depth of the tree.
unfoldable pub compile : ℕ → List Row → List Ty → Compiled DecisionTree
compile zero rows col_types = err out_of_fuel
compile (suc fuel) [] col_types = ok fail
compile (suc fuel) (r ∷ rs) col_types = elim (all_wildcards r.row) [
  | true ↦ ok (leaf r.action (extract_leaf_bindings r))
  | false ↦ compile_switch (compile fuel) (r ∷ rs) col_types
]
