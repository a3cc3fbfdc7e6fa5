-- ===== src/Exhaustiveness/Tests.antt =====
-- The theorems on exhaustiveness at concrete matches, and the verdicts of the check on some.
use starstream.Prelude.{
  ℕ, ◌<◌, ◌≤◌, length, All, Bool, true, false, ◌≡◌, ◌≢◌, refl, inl, arith, some, List, [], ◌∷◌, ok,
}
use starstream.Types.{Ty, Tys, variant, done, unit_kind, tuple_kind, i64, pos}
use starstream.Matching.Pattern.{
  arity, Pat, Pats, Row, DecisionTree, leaf, switch, case, no_case, no_default, default, fail,
  enum_variant as variant_tag, int_literal, field_types, unit_ctor,
}
use starstream.Matching.Meaning.{
  Val, Vals, con, HasTy, Fits, run, matrix_size, size, size_row, matches,
}
use starstream.Matching.Lower.{lower_arms}
use starstream.Matching.Lower as Tree
use starstream.Matching.Compile as Compile
use starstream.TypedPattern.{TypedPattern, TypedPatterns, Literal, PatternFits, find_variant}
use starstream.Exhaustiveness.Pattern.{
  SimplePat, SimplePats, wildcard, ctor, literal, enum_variant, for_type, for_enum, get_info,
  integer,
}
use starstream.Exhaustiveness.Useful.{
  PatternRow, Matrix, is_useful, useful_column, useful_head, useful_wildcard, useful_constructors,
  any_useful, specialize, specialize_literal, default_matrix, has_literals, collect_ctors,
  contains_ctor, collect_literals, contains_literal,
}
use starstream.Exhaustiveness.Lower.{lower_pattern, lower_literal, unwrap_or, each_field}
use starstream.Exhaustiveness.Meaning.{RowFits, RowsFit, covers, covers_row, covers_any, SimpleFits}
use starstream.Exhaustiveness.Check.{
  MatchError, examples, check_match, check_arms, unreachable_pattern, non_exhaustive_match,
}
use starstream.Exhaustiveness.Missing.{collect_missing_patterns}
use starstream.Exhaustiveness.Parts.{matrix}
use starstream.Exhaustiveness.Sound.{is_useful-covers_any}
use starstream.Exhaustiveness.Asserting.{is_useful_asserting, is_useful_asserting-ends}
use starstream.Exhaustiveness.Agree.{lower_pattern-Fits, matches-covers}
use starstream.Exhaustiveness.Total.{check_match-run}
use starstream.Exhaustiveness.Unreachable.{run-unreachable_pattern}
use starstream.Exhaustiveness.Listed.{Listed, IsNamed, RowsListed}
use starstream.Exhaustiveness.Shown.{PatternUncovered, examples-Uncovered}
use starstream.Exhaustiveness.UnitLiteral.{unit_rows, is_useful-unit_rows}

-- `enum Option { None, Some(i64) }`
abbrev option : Ty
option =
    Ty.enum "Option"
      (variant "None" unit_kind (variant "Some" (tuple_kind (Tys.cons (Ty.int i64) Tys.nil)) done))

-- `Option::None`, `Option::Some(3)` and `Option::Some(x)`
abbrev none_pattern : TypedPattern
none_pattern = TypedPattern.constant ("Option" ∷ "None" ∷ []) 0

abbrev some_3_pattern : TypedPattern
some_3_pattern =
    TypedPattern.tuple ("Option" ∷ "Some" ∷ [])
      (TypedPatterns.cons (TypedPattern.literal (Literal.integer (some (pos 3)))) TypedPatterns.nil)

abbrev some_x_pattern : TypedPattern
some_x_pattern =
    TypedPattern.tuple ("Option" ∷ "Some" ∷ [])
      (TypedPatterns.cons (TypedPattern.binding "x") TypedPatterns.nil)

abbrev some_3 : Val
some_3 = con (variant_tag 1) (Vals.cons (con (int_literal (pos 3)) Vals.nil) Vals.nil)

some_3-HasTy : HasTy some_3 option
unfolding HasTy field_types
some_3-HasTy = (omega arith, (Ty.int i64 ∷ [], refl, ((tt, ([], refl, tt)), tt)))

some_3-PatternFits : PatternFits some_3_pattern option
unfolding PatternFits find_variant
some_3-PatternFits = ("Some", 1, Tys.cons (Ty.int i64) Tys.nil, refl, refl, (tt, tt))

some_x-PatternFits : PatternFits some_x_pattern option
unfolding PatternFits find_variant
some_x-PatternFits = ("Some", 1, Tys.cons (Ty.int i64) Tys.nil, refl, refl, (tt, tt))

none-PatternFits : PatternFits none_pattern option
unfolding PatternFits
none-PatternFits = ("None", "None", refl, refl)

-- The check accepts the constants and the variables, and misses values in `None, Some(3)`.
accepted : check_match 9 option (none_pattern ∷ some_x_pattern ∷ []) ≡ ok []
unfolding check_match check_arms lower_pattern is_useful useful_column for_type useful_head get_info
    for_enum unwrap_or find_variant specialize useful_wildcard has_literals useful_constructors
    collect_ctors contains_ctor any_useful default_matrix each_field lower_literal
    collect_missing_patterns collect_literals contains_literal specialize_literal
accepted = refl

refused :
    check_match 9 option (none_pattern ∷ some_3_pattern ∷ none_pattern ∷ [])
    ≡ ok (
        unreachable_pattern 2
        ∷ non_exhaustive_match
            (ctor (enum_variant "Option" 1 "Some") (SimplePats.cons wildcard SimplePats.nil) ∷ [])
        ∷ [])
unfolding check_match check_arms lower_pattern is_useful useful_column for_type useful_head get_info
    for_enum unwrap_or find_variant specialize useful_wildcard has_literals useful_constructors
    collect_ctors contains_ctor any_useful default_matrix each_field lower_literal
    collect_missing_patterns collect_literals contains_literal specialize_literal
refused = refl

abbrev arms : List TypedPattern
arms = none_pattern ∷ some_x_pattern ∷ []

abbrev rows : List Row
rows =
    record { row = Pat.ctor (variant_tag 0) Pats.nil ∷ []; action = 0 }
    ∷ record {
      row = Pat.ctor (variant_tag 1) (Pats.cons (Pat.wildcard (some (1, "x"))) Pats.nil) ∷ [];
      action = 1;
    }
    ∷ []

lowered : lower_arms 0 arms option ≡ ok rows
unfolding lower_arms Tree.lower_pattern find_variant
lowered = refl

abbrev tree : DecisionTree
tree =
    switch 0
      (case (variant_tag 0) (leaf 0 []) (
        case (variant_tag 1) (leaf 1 (record { action = 1; name = "x"; column = 0 } ∷ [])) no_case))
      no_default

compiled : Compile.compile 3 rows (option ∷ []) ≡ ok tree
unfolding Compile.compile Compile.all_wildcards Compile.compile_switch Compile.select_column
    Compile.best_column Compile.score Compile.focus Compile.head_constructors Compile.collect_heads
    Compile.compile_cases Compile.contains Compile.specialize arity Compile.decompose
    Compile.specialize_col_types field_types Compile.compile_default Compile.is_complete_signature
    Compile.default_col_types Compile.default_matrix Compile.extract_leaf_bindings
compiled = refl

rows_size : matrix_size rows < 3
unfolding matrix_size size size_row
rows_size = omega arith

check_match-run_example : (action : ℕ) × (run tree (some_3 ∷ []) ≡ some action)
check_match-run_example =
    check_match-run 9 3 option arms rows tree some_3 (none-PatternFits, (some_x-PatternFits, tt))
      accepted lowered rows_size compiled some_3-HasTy

-- The simplified forms of `None` and `Some(3)`.
abbrev simple_none : SimplePat
simple_none = ctor (enum_variant "Option" 0 "None") SimplePats.nil

abbrev simple_some_3 : SimplePat
simple_some_3 =
    ctor (enum_variant "Option" 1 "Some")
      (SimplePats.cons (literal (integer (pos 3))) SimplePats.nil)

abbrev simple_some : SimplePat
simple_some = ctor (enum_variant "Option" 1 "Some") (SimplePats.cons wildcard SimplePats.nil)

abbrev matrix_of_some : Matrix
matrix_of_some = record { rows = (simple_some ∷ []) ∷ []; col_types = option ∷ [] }

not_useful : is_useful 5 matrix_of_some (simple_some_3 ∷ []) ≡ ok false
unfolding is_useful useful_column for_type useful_head get_info for_enum unwrap_or find_variant
    specialize useful_wildcard has_literals useful_constructors collect_ctors contains_ctor
    any_useful default_matrix each_field lower_literal collect_missing_patterns collect_literals
    contains_literal specialize_literal
not_useful = refl

matrix_of_some-fits : RowsFit matrix_of_some.rows matrix_of_some.col_types
unfolding SimpleFits field_types
matrix_of_some-fits = (((omega arith, (Ty.int i64 ∷ [], refl, (tt, tt))), tt), tt)

some_3-covered : covers_row (simple_some_3 ∷ []) (some_3 ∷ []) ≡ true
unfolding covers_row covers
some_3-covered = refl

is_useful-covers_any_example : covers_any matrix_of_some.rows (some_3 ∷ []) ≡ true
is_useful-covers_any_example =
    is_useful-covers_any 5 matrix_of_some (simple_some_3 ∷ []) (some_3 ∷ []) matrix_of_some-fits
      (some_3-HasTy, tt) not_useful some_3-covered

wildcard-fits : RowFits (option ∷ []) (wildcard ∷ [])
unfolding SimpleFits
wildcard-fits = (tt, tt)

is_useful_asserting-ends_example :
    (fuel : ℕ) × (b : Bool) × (is_useful_asserting fuel matrix_of_some (wildcard ∷ []) ≡ ok b)
    × (is_useful fuel matrix_of_some (wildcard ∷ []) ≡ ok b)
is_useful_asserting-ends_example =
    is_useful_asserting-ends matrix_of_some.rows (option ∷ []) (wildcard ∷ []) matrix_of_some-fits
      wildcard-fits

-- `Option::None` alone.
abbrev none_row : List PatternRow
none_row = (ctor (enum_variant "Option" 0 "None") SimplePats.nil ∷ []) ∷ []

none_row-RowsListed : RowsListed none_row (option ∷ [])
unfolding Listed IsNamed field_types
none_row-RowsListed = ((((refl, (unit_kind, refl)), ([], refl, tt)), tt), tt)

none_row-useful : is_useful 3 (matrix none_row (option ∷ [])) (wildcard ∷ []) ≡ ok true
unfolding is_useful useful_column for_type for_enum useful_head useful_wildcard has_literals
    useful_constructors collect_ctors contains_ctor default_matrix
none_row-useful = refl

examples-Uncovered_example :
    (fuel : ℕ) × (p : SimplePat) × (shown : List SimplePat) × (examples fuel
        (matrix none_row (option ∷ []))
      ≡ ok (p ∷ shown))
    × (length (p ∷ shown) ≤ 5)
    × All (PatternUncovered none_row) (p ∷ shown)
examples-Uncovered_example =
    examples-Uncovered none_row option 3 none_row-RowsListed none_row-useful

abbrev tree_some_3 : Pat
tree_some_3 =
    Pat.ctor (variant_tag 1) (Pats.cons (Pat.ctor (int_literal (pos 3)) Pats.nil) Pats.nil)

lower_pattern-Fits_example :
    (s : SimplePat) × (q : Pat) × (lower_pattern some_3_pattern option ≡ ok s)
    × (Tree.lower_pattern 0 some_3_pattern option ≡ ok q)
    × SimpleFits s option
    × Fits q option
lower_pattern-Fits_example = lower_pattern-Fits 0 some_3_pattern option some_3-PatternFits

some_3-simple : lower_pattern some_3_pattern option ≡ ok simple_some_3
unfolding lower_pattern unwrap_or find_variant lower_literal
some_3-simple = refl

some_3-tree : Tree.lower_pattern 0 some_3_pattern option ≡ ok tree_some_3
unfolding Tree.lower_pattern find_variant Tree.lower_literal
some_3-tree = refl

matches-covers_example : matches tree_some_3 some_3 ≡ covers simple_some_3 some_3
matches-covers_example =
    matches-covers 0 some_3_pattern option simple_some_3 tree_some_3 some_3 some_3-PatternFits
      some_3-simple some_3-tree

unit-HasTy : HasTy (con unit_ctor Vals.nil) Ty.unit
unfolding HasTy field_types
unit-HasTy = (tt, ([], refl, tt))

is_useful-unit_rows_example :
    (is_useful 2 (matrix (unit_rows 1) (Ty.unit ∷ [])) (wildcard ∷ []) ≡ ok true)
    × (covers_any (unit_rows 1) (con unit_ctor Vals.nil ∷ []) ≡ true)
is_useful-unit_rows_example = is_useful-unit_rows 0 0 (con unit_ctor Vals.nil) unit-HasTy

-- `None`, `Some(3)` and `None` again.
abbrev repeated : List TypedPattern
repeated = none_pattern ∷ some_3_pattern ∷ none_pattern ∷ []

abbrev repeated_errors : List MatchError
repeated_errors =
    unreachable_pattern 2
    ∷ non_exhaustive_match
        (ctor (enum_variant "Option" 1 "Some") (SimplePats.cons wildcard SimplePats.nil) ∷ [])
    ∷ []

abbrev repeated_rows : List Row
repeated_rows =
    record { row = Pat.ctor (variant_tag 0) Pats.nil ∷ []; action = 0 }
    ∷ record { row = tree_some_3 ∷ []; action = 1 }
    ∷ record { row = Pat.ctor (variant_tag 0) Pats.nil ∷ []; action = 2 }
    ∷ []

repeated_lowered : lower_arms 0 repeated option ≡ ok repeated_rows
unfolding lower_arms Tree.lower_pattern find_variant Tree.lower_literal
repeated_lowered = refl

abbrev repeated_tree : DecisionTree
repeated_tree =
    switch 0
      (case (variant_tag 0) (leaf 0 []) (
        case (variant_tag 1)
          (switch 0 (case (int_literal (pos 3)) (leaf 1 []) no_case) (default fail)) no_case))
      no_default

repeated_compiled : Compile.compile 5 repeated_rows (option ∷ []) ≡ ok repeated_tree
unfolding Compile.compile Compile.all_wildcards Compile.compile_switch Compile.select_column
    Compile.best_column Compile.score Compile.focus Compile.head_constructors Compile.collect_heads
    Compile.compile_cases Compile.contains Compile.specialize arity Compile.decompose
    Compile.specialize_col_types field_types Compile.compile_default Compile.is_complete_signature
    Compile.default_col_types Compile.default_matrix Compile.extract_leaf_bindings
repeated_compiled = refl

repeated-size : matrix_size repeated_rows < 5
unfolding matrix_size size size_row
repeated-size = omega arith

run-unreachable_pattern_example : run repeated_tree (some_3 ∷ []) ≢ some 2
run-unreachable_pattern_example =
    run-unreachable_pattern 9 5 option repeated repeated_errors repeated_rows repeated_tree some_3 2
      (none-PatternFits, (some_3-PatternFits, (none-PatternFits, tt))) refused (inl refl)
      repeated_lowered repeated-size repeated_compiled some_3-HasTy
