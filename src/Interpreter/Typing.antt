-- ===== src/Interpreter/Typing.antt =====
-- The blocks that the interpreter can run: what type inference guarantees of them, for the types of the
-- interpreter's values. The constructs that the interpreter does not implement are left out.
use starstream.Prelude.{
  Bool, true, ◌⊎◌, String, str_eq, ◌≡◌, Option, none, some, List, [], ◌∷◌, Forall2, get_elem?,
  if◌then◌else◌,
}
use starstream.Types.{Ty, is_signed}
use starstream.TypedPattern.{TypedPattern, last, IsLiteral}
use starstream.Interpreter.Value.{Value, unit_value, number, boolean}
use starstream.Interpreter.Syntax.{
  UnaryOp, BinaryOp, TypedExpr, IfBranches, OptionalBlock, OptionalExpr, TypedBlock, block,
  TypedStatement, TypedStatements,
}
use starstream.Interpreter.Eval.{Store, Locals}

abbrev pub Scope : Type 0
Scope = List (String × Ty)

unfoldable pub type_of : Scope → String → Option Ty
type_of [] name = none
type_of ((x, ty) ∷ scope) name = if str_eq x name then some ty else type_of scope name

-- The kind of value that the interpreter keeps for a type. It keeps a number of 64 bits for each integer
-- type and does not look at the width, so a `u8` may hold 300.
unfoldable pub HasKind : Value → Ty → Type 0
HasKind (number n) (Ty.int w) = Unit
HasKind (boolean b) Ty.bool = Unit
HasKind unit_value Ty.unit = Unit
HasKind _ _ = ⊥

unfoldable pub UnaryTyped : UnaryOp → Ty → Ty → Type 0
UnaryTyped UnaryOp.negate (Ty.int w) (Ty.int w') = (w ≡ w') × (is_signed w ≡ true)
UnaryTyped UnaryOp.not Ty.bool Ty.bool = Unit
UnaryTyped _ _ _ = ⊥

-- The types whose values are compared.
abbrev pub IsCompared : Ty → Type 0
IsCompared (Ty.int w) = Unit
IsCompared Ty.bool = Unit
IsCompared _ = ⊥

-- A pattern that every value matches, and the scope with what it binds.
unfoldable pub Binds : TypedPattern → Ty → Scope → Scope → Type 0
Binds (TypedPattern.binding x) ty scope after = after ≡ (x, ty) ∷ scope
Binds TypedPattern.wildcard ty scope after = after ≡ scope
Binds _ ty scope after = ⊥

-- A pattern that tests a value and binds nothing.
abbrev pub IsTest : TypedPattern → Type 0
IsTest (TypedPattern.literal l) = Unit
IsTest _ = ⊥

-- A `return` or a `resume` is among the statements.
unfoldable pub Leaves : TypedStatements → Type 0
Leaves TypedStatements.no_statement = ⊥
Leaves (TypedStatements.statement (TypedStatement.returns operand) rest) = Unit
Leaves (TypedStatements.statement TypedStatement.resume rest) = Unit
Leaves (TypedStatements.statement s rest) = Leaves rest

-- The block of a `let .. else` leaves the function.
abbrev pub Diverges : OptionalBlock → Type 0
Diverges OptionalBlock.no_block = ⊥
Diverges (OptionalBlock.some_block (block statements tail)) = Leaves statements

-- Blocks with division and with loops, or without them.
module _ (division loops : Bool) where
  -- The operands' type and the result's.
  unfoldable pub OperatorTyped : BinaryOp → Ty → Ty → Type 0
  OperatorTyped BinaryOp.add (Ty.int w) (Ty.int w') = w ≡ w'
  OperatorTyped BinaryOp.subtract (Ty.int w) (Ty.int w') = w ≡ w'
  OperatorTyped BinaryOp.multiply (Ty.int w) (Ty.int w') = w ≡ w'
  OperatorTyped BinaryOp.divide (Ty.int w) (Ty.int w') = (division ≡ true) × (w ≡ w')
  OperatorTyped BinaryOp.remainder (Ty.int w) (Ty.int w') = (division ≡ true) × (w ≡ w')
  OperatorTyped BinaryOp.less u Ty.bool = IsCompared u
  OperatorTyped BinaryOp.less_equal u Ty.bool = IsCompared u
  OperatorTyped BinaryOp.greater u Ty.bool = IsCompared u
  OperatorTyped BinaryOp.greater_equal u Ty.bool = IsCompared u
  OperatorTyped BinaryOp.equal u Ty.bool = IsCompared u
  OperatorTyped BinaryOp.not_equal u Ty.bool = IsCompared u
  OperatorTyped BinaryOp.and Ty.bool Ty.bool = Unit
  OperatorTyped BinaryOp.or Ty.bool Ty.bool = Unit
  OperatorTyped _ _ _ = ⊥

  unfoldable mutual
    pub Typed : Scope → TypedExpr → Ty → Type 0
    Typed scope (TypedExpr.scoped_name path constant) ty =
        (x : String) × (last path ≡ some x) × (type_of scope x ≡ some ty)
    Typed scope (TypedExpr.literal l) ty = IsLiteral l ty
    Typed scope (TypedExpr.binary op left right) ty =
        (u : Ty) × OperatorTyped op u ty × Typed scope left u × Typed scope right u
    Typed scope (TypedExpr.unary op operand) ty =
        (u : Ty) × UnaryTyped op u ty × Typed scope operand u
    Typed scope (TypedExpr.grouping inner) ty = Typed scope inner ty
    Typed scope (TypedExpr.disclose inner) ty = Typed scope inner ty
    Typed scope (TypedExpr.block_expr b) ty = BlockTyped scope b ty
    Typed scope (TypedExpr.if_expr branches else_branch) ty =
        IfTyped scope branches ty × ElseTyped scope else_branch ty
    Typed scope _ ty = ⊥

    pub ElseTyped : Scope → OptionalBlock → Ty → Type 0
    ElseTyped scope OptionalBlock.no_block ty = ty ≡ Ty.unit
    ElseTyped scope (OptionalBlock.some_block b) ty = BlockTyped scope b ty

    pub IfTyped : Scope → IfBranches → Ty → Type 0
    IfTyped scope IfBranches.no_branch ty = Unit
    IfTyped scope (IfBranches.bool_branch condition b rest) ty =
        Typed scope condition Ty.bool × BlockTyped scope b ty × IfTyped scope rest ty
    IfTyped scope (IfBranches.is_branch name abi b rest) ty = ⊥

    pub OptionalTyped : Scope → OptionalExpr → Ty → Type 0
    OptionalTyped scope OptionalExpr.nothing ty = ty ≡ Ty.unit
    OptionalTyped scope (OptionalExpr.just e) ty = Typed scope e ty

    pub BlockTyped : Scope → TypedBlock → Ty → Type 0
    BlockTyped scope (block statements tail) ty =
        (after : Scope) × StatementsTyped scope statements after × OptionalTyped after tail ty

    pub StatementsTyped : Scope → TypedStatements → Scope → Type 0
    StatementsTyped scope TypedStatements.no_statement after = after ≡ scope
    StatementsTyped scope (TypedStatements.statement s rest) after =
        (next : Scope) × StatementTyped scope s next × StatementsTyped next rest after

    pub StatementTyped : Scope → TypedStatement → Scope → Type 0
    StatementTyped scope (TypedStatement.variable_declaration public mutable p value otherwise)
          after =
        (ty : Ty) × Typed scope value ty
        × (Binds p ty scope after
            ⊎ (IsTest p
                × (after ≡ scope)
                × Diverges otherwise
                × ((u : Ty) × ElseTyped scope otherwise u)))
    StatementTyped scope (TypedStatement.assignment target value) after =
        (after ≡ scope) × ((ty : Ty) × (type_of scope target ≡ some ty) × Typed scope value ty)
    StatementTyped scope (TypedStatement.expression e) after =
        (after ≡ scope) × ((ty : Ty) × Typed scope e ty)
    StatementTyped scope (TypedStatement.while_do condition body) after =
        (loops ≡ true)
        × (after ≡ scope)
        × Typed scope condition Ty.bool
        × ((ty : Ty) × BlockTyped scope body ty)
    StatementTyped scope (TypedStatement.returns operand) after =
        (after ≡ scope) × ((ty : Ty) × OptionalTyped scope operand ty)
    StatementTyped scope TypedStatement.resume after = after ≡ scope
    StatementTyped scope (TypedStatement.try_with subject effects) after = ⊥

-- The types of the cells.
abbrev pub StoreFits : Store → List Ty → Type 0
StoreFits store tys = Forall2 HasKind store tys

-- Each name of the scope has a cell of its type.
unfoldable pub LocalsFit : Scope → Locals → List Ty → Type 0
LocalsFit [] [] tys = Unit
LocalsFit ((x, ty) ∷ scope) ((y, cell) ∷ locals) tys =
    (x ≡ y) × (get_elem? tys cell ≡ some ty) × LocalsFit scope locals tys
LocalsFit _ _ tys = ⊥
