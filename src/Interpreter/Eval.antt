-- ===== src/Interpreter/Eval.antt =====
-- starstream-interpreter/src/lib.rs: the tree walker. Locals share their cells with the scopes they are
-- cloned from, so the cells are a store, and a scope maps names to cells. `Stop` is what `?` passes
-- on. Only `while` loops take fuel.
use starstream.Prelude.{
  ℕ, zero, suc, String, str_eq, Bool, true, false, ◌||◌, not as bool_not, if◌then◌else◌, Option,
  none, some, List, [], ◌∷◌, ◌++◌, length, get_elem?, Outcome, ok, err, panic, ◌>>=◌,
}
use starstream.Types.{pos}
use starstream.TypedPattern.{Literal, TypedPattern, last}
use starstream.Interpreter.Integer.{ArithmeticPanic, OverflowChecks, as_i64}
use starstream.Interpreter.Value.{
  Value, unit_value, number, boolean, Ordering, less_than, greater_than, equal_to, value_eq,
  to_bool, add as add_values, sub, mul, div, rem, neg, complement, partial_cmp,
}
use starstream.Interpreter.Syntax.{
  UnaryOp, negate, not, BinaryOp, multiply, divide, remainder, add, subtract, less, less_equal,
  greater, greater_equal, equal, not_equal, and, or, TypedExpr, IfBranches, OptionalBlock,
  OptionalExpr, TypedBlock, block, TypedStatement, TypedStatements, TypedDefinition, function,
  other_definition,
}

abbrev pub Store : Type 0
Store = List Value

abbrev pub Locals : Type 0
Locals = List (String × ℕ)

-- `ControlFlow::Break`, with the cells at that point, a panic of arithmetic, or a loop that runs longer
-- than its fuel.
pub data Stop : Type 0 where
  breaks : Value → Store → Stop
  arithmetic : ArithmeticPanic → Stop
  out_of_fuel : Stop

abbrev pub Run : Type 0 → Type 0
Run A = Outcome Stop (A × Store)

-- The outcome of an operator.
abbrev pub computed {ℓ} : {A : Type ℓ} → Outcome ArithmeticPanic A → Outcome Stop A
computed (ok a) = ok a
computed (err e) = err (arithmetic e)
computed panic = panic

-- `self.vars.get(name)`, which panics on an unknown name.
unfoldable pub cell_of : Locals → String → Outcome Stop ℕ
cell_of [] name = panic
cell_of ((x, cell) ∷ locals) name = if str_eq x name then ok cell else cell_of locals name

abbrev pub read_cell : Option Value → Outcome Stop Value
read_cell none = panic
read_cell (some value) = ok value

abbrev pub write_cell : Store → ℕ → Value → Store
write_cell [] cell value = []
write_cell (_ ∷ store) zero value = value ∷ store
write_cell (old ∷ store) (suc cell) value = old ∷ write_cell store cell value

unfoldable pub get : Locals → Store → String → Outcome Stop Value
unfolding cell_of
get locals store name = do cell ← cell_of locals name; read_cell (get_elem? store cell)

-- `name.last().unwrap()`, and its value.
unfoldable pub eval_name : Option String → Locals → Store → Run Value
unfolding get
eval_name none locals store = panic
eval_name (some name) locals store = do value ← get locals store name; ok (value, store)

unfoldable pub set : Locals → Store → String → Value → Outcome Stop Store
unfolding cell_of
set locals store name value = do cell ← cell_of locals name; ok (write_cell store cell value)

-- A new cell for every binding of a pattern.
unfoldable pub insert_all : List (String × Value) → Locals → Store → Locals × Store
insert_all [] locals store = (locals, store)
insert_all ((name, value) ∷ bindings) locals store =
    insert_all bindings ((name, length store) ∷ locals) (store ++ value ∷ [])

abbrev pub when : Bool → Option (List (String × Value))
when true = some []
when false = none

unfoldable pub match_pattern : TypedPattern → Value → Outcome Stop (Option (List (String × Value)))
unfolding as_i64
match_pattern (TypedPattern.binding name) value = ok (some ((name, value) ∷ []))
match_pattern TypedPattern.wildcard value = ok (some [])
match_pattern (TypedPattern.literal (Literal.integer none)) value = ok none
match_pattern (TypedPattern.literal (Literal.integer (some n))) value =
    ok (when (value_eq value (number (as_i64 n))))
match_pattern (TypedPattern.literal (Literal.boolean b)) value =
    ok (when (value_eq value (boolean b)))
match_pattern (TypedPattern.literal Literal.unit_literal) value =
    ok (when (value_eq value unit_value))
match_pattern _ value = panic

unfoldable pub eval_literal : Literal → Value
unfolding as_i64
eval_literal (Literal.integer none) = number (as_i64 (pos 0))
eval_literal (Literal.integer (some n)) = number (as_i64 n)
eval_literal (Literal.boolean b) = boolean b
eval_literal Literal.unit_literal = unit_value

abbrev is_less : Option Ordering → Bool
is_less (some less_than) = true
is_less _ = false

abbrev is_greater : Option Ordering → Bool
is_greater (some greater_than) = true
is_greater _ = false

abbrev is_equal : Option Ordering → Bool
is_equal (some equal_to) = true
is_equal _ = false

-- The operators that evaluate both operands; `and` and `or` are not among them.
unfoldable pub apply_operator : OverflowChecks → BinaryOp → Value → Value → Outcome Stop Value
unfolding add_values sub mul div rem partial_cmp
apply_operator checks add a b = computed (add_values checks a b)
apply_operator checks subtract a b = computed (sub checks a b)
apply_operator checks multiply a b = computed (mul checks a b)
apply_operator checks divide a b = computed (div checks a b)
apply_operator checks remainder a b = computed (rem checks a b)
apply_operator checks equal a b = ok (boolean (value_eq a b))
apply_operator checks not_equal a b = ok (boolean (bool_not (value_eq a b)))
apply_operator checks less a b = ok (boolean (is_less (partial_cmp a b)))
apply_operator checks greater a b = ok (boolean (is_greater (partial_cmp a b)))
apply_operator checks less_equal a b =
    ok (boolean (is_less (partial_cmp a b) || is_equal (partial_cmp a b)))
apply_operator checks greater_equal a b =
    ok (boolean (is_greater (partial_cmp a b) || is_equal (partial_cmp a b)))
apply_operator checks _ a b = panic

unfoldable pub eval_binary :
    OverflowChecks → BinaryOp → (left right : Store → Run Value) → Store → Run Value
unfolding to_bool apply_operator
eval_binary checks and left right store = do
  (a, store₁) ← left store
  holds ← to_bool a
  if holds then right store₁ else ok (a, store₁)
eval_binary checks or left right store = do
  (a, store₁) ← left store
  holds ← to_bool a
  if holds then ok (a, store₁) else right store₁
eval_binary checks op left right store = do
  (a, store₁) ← left store
  (b, store₂) ← right store₁
  c ← apply_operator checks op a b
  ok (c, store₂)

unfoldable pub eval_unary : OverflowChecks → UnaryOp → Value → Outcome Stop Value
unfolding neg complement
eval_unary checks negate a = computed (neg checks a)
eval_unary checks not a = computed (complement a)

-- `while condition { body }`, for at most `fuel - 1` turns.
unfoldable pub while_loop : (fuel : ℕ) → (condition body : Store → Run Value) → Store → Run Value
unfolding to_bool
while_loop zero condition body store = err out_of_fuel
while_loop (suc fuel) condition body store = do
  (c, store₁) ← condition store
  holds ← to_bool c
  let again : Run Value = body store₁ >>= λ turn. while_loop fuel condition body turn.1
  if holds then again else ok (unit_value, store₁)

-- The bindings of a refutable or irrefutable pattern, and what stands for a value it does not match.
unfoldable pub declare :
    Option (List (String × Value)) → Locals → (otherwise : Store → Run Value) → Store → Run Locals
unfolding insert_all
declare (some bindings) locals otherwise store = ok (insert_all bindings locals store)
declare none locals otherwise store = do _ ← otherwise store; panic

module _ (checks : OverflowChecks) (fuel : ℕ) where
  unfoldable mutual
    pub eval : TypedExpr → Locals → Store → Run Value
    eval (TypedExpr.scoped_name path constant) locals store = eval_name (last path) locals store
    eval (TypedExpr.literal l) locals store = ok (eval_literal l, store)
    eval (TypedExpr.binary op left right) locals store =
        eval_binary checks op (eval left locals) (eval right locals) store
    eval (TypedExpr.unary op operand) locals store = do
      (a, store₁) ← eval operand locals store
      b ← eval_unary checks op a
      ok (b, store₁)
    eval (TypedExpr.grouping inner) locals store = eval inner locals store
    eval (TypedExpr.disclose inner) locals store = eval inner locals store
    eval (TypedExpr.block_expr b) locals store = eval_block b locals store
    eval (TypedExpr.if_expr branches else_branch) locals store =
        eval_if branches (eval_else else_branch locals) locals store
    eval _ locals store = panic

    pub eval_else : OptionalBlock → Locals → Store → Run Value
    eval_else OptionalBlock.no_block locals store = ok (unit_value, store)
    eval_else (OptionalBlock.some_block b) locals store = eval_block b locals store

    pub eval_if : IfBranches → (otherwise : Store → Run Value) → Locals → Store → Run Value
    eval_if IfBranches.no_branch otherwise locals store = otherwise store
    eval_if (IfBranches.bool_branch condition b rest) otherwise locals store = do
      (c, store₁) ← eval condition locals store
      holds ← to_bool c
      if holds then eval_block b locals store₁ else eval_if rest otherwise locals store₁
    eval_if (IfBranches.is_branch name abi b rest) otherwise locals store = panic

    pub eval_optional : OptionalExpr → Locals → Store → Run Value
    eval_optional OptionalExpr.nothing locals store = ok (unit_value, store)
    eval_optional (OptionalExpr.just e) locals store = eval e locals store

    pub eval_block : TypedBlock → Locals → Store → Run Value
    eval_block (block statements tail) locals store =
        eval_statements statements (eval_optional tail) locals store

    pub eval_statements :
        TypedStatements → (tail : Locals → Store → Run Value) → Locals → Store → Run Value
    eval_statements TypedStatements.no_statement tail locals store = tail locals store
    eval_statements (TypedStatements.statement s rest) tail locals store = do
      (locals₁, store₁) ← exec s locals store
      eval_statements rest tail locals₁ store₁

    pub exec : TypedStatement → Locals → Store → Run Locals
    exec (TypedStatement.variable_declaration public mutable pattern value otherwise) locals store =
        do
          (a, store₁) ← eval value locals store
          bindings ← match_pattern pattern a
          declare bindings locals (eval_else otherwise locals) store₁
    exec (TypedStatement.assignment target value) locals store = do
      (a, store₁) ← eval value locals store
      store₂ ← set locals store₁ target a
      ok (locals, store₂)
    exec (TypedStatement.expression e) locals store = do
      (_, store₁) ← eval e locals store
      ok (locals, store₁)
    exec (TypedStatement.while_do condition body) locals store = do
      (_, store₁) ← while_loop fuel (eval condition locals) (eval_block body locals) store
      ok (locals, store₁)
    exec (TypedStatement.returns operand) locals store = do
      (a, store₁) ← eval_optional operand locals store
      err (breaks a store₁)
    exec TypedStatement.resume locals store = err (breaks unit_value store)
    exec (TypedStatement.try_with subject effects) locals store = panic

  -- The first function is run; `Break` and `Continue` are both dropped.
  pub exec_program : List TypedDefinition → Outcome Stop (Unit {0})
  unfolding eval_block
  exec_program [] = ok tt
  exec_program (other_definition ∷ rest) = exec_program rest
  exec_program (function body ∷ rest) = elim (eval_block body [] []) [
    | ok _ ↦ ok tt
    | err (breaks _ _) ↦ ok tt
    | err out_of_fuel ↦ err out_of_fuel
    | err (arithmetic e) ↦ err (arithmetic e)
    | panic ↦ panic
  ]
