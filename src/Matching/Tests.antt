-- ===== src/Matching/Tests.antt =====
-- The theorems on matching at concrete matches, and the trees of some matches.
use starstream.Prelude.{false, ◌≡◌, ◌<◌, refl, arith, none, some, List, [], ◌∷◌, ok}
use starstream.Types.{Ty, bool, enum, int, i64, variant, done, unit_kind, tuple_kind, Tys, pos}
use starstream.Matching.Pattern.{
  arity, enum_variant, bool_true, bool_false, int_literal, wildcard, ctor, Pats, Row, DecisionTree,
  leaf, switch, no_case, case, default, no_default, field_types,
}
use starstream.Matching.Compile.{
  all_wildcards, compile_switch, select_column, best_column, score, focus, head_constructors,
  collect_heads, compile_cases, specialize, decompose, specialize_col_types, compile_default,
  default_col_types, default_matrix, extract_leaf_bindings, compile, is_complete_signature,
  contains, has_variants,
}
use starstream.Matching.Meaning.{
  Val, Vals, con, WellTyped, HaveTypes, HasTy, Fits, run, first, matrix_size, size, size_row,
  matches, match_row,
}
use starstream.Matching.Correct.{compile-ends, run-compile}
use starstream.Matching.Bindings.{constructor_or_variable, compile-lost_binding}

-- `enum Option { None, Some(i64) }`
abbrev option : Ty
option =
    enum "Option"
      (variant "None" unit_kind (variant "Some" (tuple_kind (Tys.cons (int i64) Tys.nil)) done))

-- `match (o, b) { (None, true) => .., (Some(3), _) => .., (_, _) => .. }` on two columns.
abbrev arms : List Row
arms =
    record { row = ctor (enum_variant 0) Pats.nil ∷ ctor bool_true Pats.nil ∷ []; action = 0 }
    ∷ record {
      row =
          ctor (enum_variant 1) (Pats.cons (ctor (int_literal (pos 3)) Pats.nil) Pats.nil)
          ∷ wildcard none
          ∷ [];
      action = 1;
    }
    ∷ record { row = wildcard none ∷ wildcard none ∷ []; action = 2 }
    ∷ []

abbrev columns : List Ty
columns = option ∷ bool ∷ []

abbrev some_3_false : List Val
some_3_false =
    con (enum_variant 1) (Vals.cons (con (int_literal (pos 3)) Vals.nil) Vals.nil)
    ∷ con bool_false Vals.nil
    ∷ []

arms-WellTyped : WellTyped arms columns
unfolding Fits field_types
arms-WellTyped = (
  ((omega arith, ([], refl, tt)), ((tt, ([], refl, tt)), tt)),
  (
    ((omega arith, (int i64 ∷ [], refl, ((tt, ([], refl, tt)), tt))), (tt, tt)),
    ((tt, (tt, tt)), tt),
  ),
)

arms_size : matrix_size arms < 5
unfolding matrix_size size size_row
arms_size = omega arith

some_3_false-HaveTypes : HaveTypes some_3_false columns
unfolding HasTy field_types
some_3_false-HaveTypes =
    ((omega arith, (int i64 ∷ [], refl, ((tt, ([], refl, tt)), tt))), ((tt, ([], refl, tt)), tt))

none_fields : field_types (enum_variant 0) option ≡ ok []
unfolding field_types
none_fields = refl

none_incomplete : is_complete_signature (enum_variant 0 ∷ []) option ≡ false
unfolding is_complete_signature has_variants contains
none_incomplete = refl

-- The tree of the match.
abbrev tree : DecisionTree
tree =
    switch 0
      (case (enum_variant 0) (switch 0 (case bool_true (leaf 0 []) no_case) (default (leaf 2 []))) (
        case (enum_variant 1)
          (switch 0 (case (int_literal (pos 3)) (leaf 1 []) no_case) (default (leaf 2 [])))
          no_case))
      no_default

arms_compiled : compile 5 arms columns ≡ ok tree
unfolding compile all_wildcards compile_switch select_column best_column score focus
    head_constructors collect_heads compile_cases contains specialize arity decompose
    specialize_col_types field_types compile_default is_complete_signature default_col_types
    default_matrix extract_leaf_bindings
arms_compiled = refl

compile-ends_example : (t : DecisionTree) × (compile 5 arms columns ≡ ok t)
compile-ends_example = compile-ends 5 arms columns arms-WellTyped arms_size

run-compile_example : run tree some_3_false ≡ first arms some_3_false
run-compile_example =
    run-compile 5 arms columns tree some_3_false arms-WellTyped arms_size arms_compiled
      some_3_false-HaveTypes

some_3_false-first : first arms some_3_false ≡ some 1
unfolding first match_row matches
some_3_false-first = refl

compile-lost_binding_example :
    compile 2 (constructor_or_variable (enum_variant 0) 0 1 "other") (option ∷ [])
    ≡ ok (switch 0 (case (enum_variant 0) (leaf 0 []) no_case) (default (leaf 1 [])))
compile-lost_binding_example =
    compile-lost_binding 0 (enum_variant 0) option 0 1 "other" none_fields none_incomplete
