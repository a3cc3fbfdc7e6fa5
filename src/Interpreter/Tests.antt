-- ===== src/Interpreter/Tests.antt =====
-- The interpreter on the programs of its own tests, and its theorems at concrete programs.
use starstream.Prelude.{
  arith, err, ℕ, String, true, false, ◌≡◌, refl, none, some, [], ◌∷◌, ◌^◌, ◌-◌, ok,
}
use starstream.Types.{ℤ, Ty, i64, pos, negsuc}
use starstream.TypedPattern.{Literal, TypedPattern}
use starstream.Interpreter.Integer.{
  overflow, as_i64, truncated_div, truncated_rem, div_floor, in_i64,
}
use starstream.Interpreter.Value.{unit_value, number, add, mul, div, rem}
use starstream.Interpreter.Syntax.{
  divide, add as plus, multiply, TypedExpr, OptionalBlock, OptionalExpr, TypedBlock, block,
  TypedStatement, TypedStatements,
}
use starstream.Interpreter.Typing.{Scope}
use starstream.Interpreter.Sound.{Safe}
use starstream.Interpreter.Floor.{IsQuotient}
use starstream.Interpreter.Division.{div-rem_floor}
use starstream.Interpreter.Eval.{
  eval, eval_block, cell_of, get, set, insert_all, match_pattern, eval_literal, eval_name,
  apply_operator, eval_binary, declare,
}

abbrev num : ℕ → TypedExpr
num n = TypedExpr.literal (Literal.integer (some (pos n)))

abbrev name : String → TypedExpr
name x = TypedExpr.scoped_name (x ∷ []) none

-- `eval_math`
eval_math : eval true 0 (TypedExpr.binary plus (num 17) (num 33)) [] [] ≡ ok (number (pos 50), [])
unfolding eval eval_binary eval_literal as_i64 apply_operator add in_i64
eval_math = refl

-- `eval_locals`
abbrev locals_block : TypedBlock
locals_block =
    block
      (TypedStatements.statement
        (TypedStatement.variable_declaration false true (TypedPattern.binding "foo") (num 6)
          OptionalBlock.no_block)
        (TypedStatements.statement
          (TypedStatement.assignment "foo" (TypedExpr.binary multiply (name "foo") (num 3)))
          (TypedStatements.statement (TypedStatement.assignment "bar" (name "foo"))
            TypedStatements.no_statement)))
      OptionalExpr.nothing

eval_locals :
    eval_block true 0 locals_block (("bar", 0) ∷ []) (unit_value ∷ [])
    ≡ ok (unit_value, number (pos 18) ∷ number (pos 18) ∷ [])
unfolding eval eval_binary eval_literal as_i64 apply_operator mul in_i64 declare insert_all
    match_pattern eval_name get set cell_of
eval_locals = refl

-- `divmod`
divmod :
    (div true (number (pos 3)) (number (pos 16)) ≡ ok (number (pos 0)))
    × (div true (number (negsuc 2)) (number (pos 16)) ≡ ok (number (negsuc 0)))
    × (rem true (number (negsuc 2)) (number (pos 16)) ≡ ok (number (pos 13)))
    × (rem true (number (pos 3)) (number (negsuc 15)) ≡ ok (number (negsuc 12)))
    × (rem true (number (negsuc 2)) (number (negsuc 15)) ≡ ok (number (negsuc 2)))
unfolding div rem div_floor truncated_div truncated_rem in_i64 as_i64
divmod = (refl, refl, refl, refl, refl)

-- `i64::MIN % 3` is 1, which an overflow on the way hides where overflow is checked.
min_rem :
    (rem true (number (negsuc (2 ^ 63 - 1))) (number (pos 3)) ≡ err overflow)
    × (rem false (number (negsuc (2 ^ 63 - 1))) (number (pos 3)) ≡ ok (number (pos 1)))
unfolding rem div_floor truncated_div truncated_rem in_i64 as_i64
min_rem = (refl, refl)

-- `bar` is an integer here, as type inference wants it.
abbrev bar_scope : Scope
bar_scope = ("bar", Ty.int i64) ∷ []

abbrev foo_scope : Scope
foo_scope = ("foo", Ty.int i64) ∷ bar_scope

-- `let mut foo = 6; let 0 = bar else { return; }; foo = foo / 3; bar = foo;`
abbrev tested_block : TypedBlock
tested_block =
    block
      (TypedStatements.statement
        (TypedStatement.variable_declaration false true (TypedPattern.binding "foo") (num 6)
          OptionalBlock.no_block)
        (TypedStatements.statement
          (TypedStatement.variable_declaration false false
            (TypedPattern.literal (Literal.integer (some (pos 0)))) (name "bar")
            (OptionalBlock.some_block (
              block
                (TypedStatements.statement (TypedStatement.returns OptionalExpr.nothing)
                  TypedStatements.no_statement)
                OptionalExpr.nothing)))
          (TypedStatements.statement
            (TypedStatement.assignment "foo" (TypedExpr.binary divide (name "foo") (num 3)))
            (TypedStatements.statement (TypedStatement.assignment "bar" (name "foo"))
              TypedStatements.no_statement))))
      OptionalExpr.nothing

-- `-3 / 16` and `-3 % 16`
div-rem_floor_example :
    (q : ℤ) × (r : ℤ) × IsQuotient (negsuc 2) (pos 16) q r
    × (div true (number (negsuc 2)) (number (pos 16)) ≡ ok (number q))
    × (rem false (number (negsuc 2)) (number (pos 16)) ≡ ok (number r))
div-rem_floor_example =
    div-rem_floor true (negsuc 2) (pos 16) refl refl (λ e. ground arith) (λ e. ground arith)
