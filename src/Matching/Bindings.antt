-- ===== src/Matching/Bindings.antt =====
-- The variables that a leaf of the decision tree binds.
use starstream.Prelude.{ℕ, suc, String, false, ◌≡◌, some, List, [], ◌∷◌, ok}
use starstream.Types.{Ty}
use starstream.Matching.Pattern.{
  Ctor, wildcard, ctor, Pats, field_types, Row, leaf, switch, no_case, case, default,
}
use starstream.Matching.Compile.{
  focus, compile, compile_switch, compile_cases, compile_default, select_column, best_column, score,
  head_constructors, collect_heads, contains, specialize, specialize_col_types, default_matrix,
  default_col_types, decompose, is_complete_signature, all_wildcards, extract_leaf_bindings,
}
use starstream.Matching.Slices.{ctor_eq_refl}
use starstream.Matching.Branches.{arity-field_types}

-- `match scrutinee { C => .., x => .. }`, as the rows of two arms.
abbrev pub constructor_or_variable : Ctor → (arm other : ℕ) → String → List Row
constructor_or_variable c arm other x =
    record { row = ctor c Pats.nil ∷ []; action = arm }
    ∷ record { row = wildcard (some (other, x)) ∷ []; action = other }
    ∷ []

-- In a match on a constructor without fields and then on a variable, where the constructor is not the
-- whole signature, the leaf of the second arm has no binding for the arm's variable.
pub compile-lost_binding :
    (fuel : ℕ) (c : Ctor) (ty : Ty) (arm other : ℕ) (x : String)
    → field_types c ty ≡ ok []
    → is_complete_signature (c ∷ []) ty ≡ false
    → compile (suc (suc fuel)) (constructor_or_variable c arm other x) (ty ∷ [])
      ≡ ok (switch 0 (case c (leaf arm []) no_case) (default (leaf other [])))
unfolding compile compile_switch compile_cases compile_default select_column best_column score
    head_constructors collect_heads contains specialize specialize_col_types default_matrix
    default_col_types decompose all_wildcards extract_leaf_bindings focus
compile-lost_binding fuel c ty arm other x e k =
    rw (k, e, arity-field_types c ty e) (rw (ctor_eq_refl c))
