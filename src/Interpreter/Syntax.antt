-- ===== src/Interpreter/Syntax.antt =====
-- starstream-types/src/typed_ast.rs: typed blocks, statements and expressions. Types and spans, which
-- the interpreter does not read, are left out.
use starstream.Prelude.{ℕ, String, Bool, Option, List}
use starstream.TypedPattern.{Literal, TypedPattern, ScopedName}

pub data UnaryOp : Type 0 where
  negate not : UnaryOp

pub data BinaryOp : Type 0 where
  multiply divide remainder add subtract : BinaryOp
  less less_equal greater greater_equal equal not_equal : BinaryOp
  and or : BinaryOp

mutual
  pub data TypedExpr : Type 0 where
    grouping : TypedExpr → TypedExpr
    scoped_name : ScopedName → (constant : Option ℕ) → TypedExpr
    literal : Literal → TypedExpr
    tuple : TypedExprs → TypedExpr
    struct_constructor : ScopedName → Initializers → (enum_variant : ℕ) → TypedExpr
    disclose : TypedExpr → TypedExpr
    emit raise runtime call : (callee : TypedExpr) → (args : TypedExprs) → TypedExpr
    yields : (abis : List String) → TypedExpr
    block_expr : TypedBlock → TypedExpr
    if_expr : IfBranches → (else_branch : OptionalBlock) → TypedExpr
    match_expr : (scrutinee : TypedExpr) → MatchArms → TypedExpr
    field_access : (target : TypedExpr) → (field : String) → TypedExpr
    unary : UnaryOp → TypedExpr → TypedExpr
    binary : BinaryOp → (left right : TypedExpr) → TypedExpr

  pub data TypedExprs : Type 0 where
    no_expr : TypedExprs
    expr : TypedExpr → TypedExprs → TypedExprs

  -- `TypedStructFieldInitializer`s
  pub data Initializers : Type 0 where
    no_initializer : Initializers
    initializer : (name : String) → (value : TypedExpr) → Initializers → Initializers

  -- The branches of an `if`, each with a Boolean condition or a test `name is Abi`.
  pub data IfBranches : Type 0 where
    no_branch : IfBranches
    bool_branch : (condition : TypedExpr) → TypedBlock → IfBranches → IfBranches
    is_branch : (name : String) → (abi : String) → TypedBlock → IfBranches → IfBranches

  pub data MatchArms : Type 0 where
    no_arm : MatchArms
    arm : TypedPattern → TypedBlock → MatchArms → MatchArms

  pub data OptionalBlock : Type 0 where
    no_block : OptionalBlock
    some_block : TypedBlock → OptionalBlock

  -- The tail of a block, or the operand of a `return`.
  pub data OptionalExpr : Type 0 where
    nothing : OptionalExpr
    just : TypedExpr → OptionalExpr

  pub data TypedBlock : Type 0 where
    block : TypedStatements → (tail_expression : OptionalExpr) → TypedBlock

  pub data TypedStatement : Type 0 where
    variable_declaration :
        (public mutable : Bool)
        → TypedPattern
        → (value : TypedExpr) → (else_branch : OptionalBlock) → TypedStatement
    assignment : (target : String) → (value : TypedExpr) → TypedStatement
    while_do : (condition : TypedExpr) → (body : TypedBlock) → TypedStatement
    expression : TypedExpr → TypedStatement
    returns : OptionalExpr → TypedStatement
    resume : TypedStatement
    try_with : (subject : TypedBlock) → Effects → TypedStatement

  pub data TypedStatements : Type 0 where
    no_statement : TypedStatements
    statement : TypedStatement → TypedStatements → TypedStatements

  pub data Effects : Type 0 where
    no_effect : Effects
    effect : ScopedName → List TypedPattern → TypedBlock → Effects → Effects

-- Of the definitions of a program the interpreter reads functions only.
pub data TypedDefinition : Type 0 where
  function : (body : TypedBlock) → TypedDefinition
  other_definition : TypedDefinition
