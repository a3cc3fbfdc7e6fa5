-- ===== src/Interpreter/Safe.antt =====
-- The evaluation of well-typed blocks.
use starstream.Prelude.{ℕ, Bool, true, ◌≡◌, ◌⊎◌, inl, inr, List, ok}
use starstream.Types.{Ty}
use starstream.Interpreter.Value.{Value, unit_value}
use starstream.Interpreter.Syntax.{
  TypedExpr, IfBranches, OptionalBlock, OptionalExpr, TypedBlock, block, TypedStatement,
  TypedStatements,
}
use starstream.Interpreter.Eval.{
  eval_unary, Run, Store, Locals, while_loop, eval, eval_else, eval_if, eval_optional, eval_block,
  eval_statements, exec,
}
use starstream.Interpreter.Typing.{
  Scope, HasKind, Typed, ElseTyped, IfTyped, OptionalTyped, BlockTyped, StatementsTyped,
  StatementTyped, StoreFits, LocalsFit,
}
use starstream.Interpreter.Sound.{Safe, Sound, >>=-Safe, Given-Safe}
use starstream.Interpreter.Faults.{eval_unary-Given}
use starstream.Interpreter.Operators.{OfKind, eval_binary-Sound}
use starstream.Interpreter.Leaving.{else-Leaving}
use starstream.Interpreter.Cells.{
  test-Safe, LocalsFit-Extends, Extends-trans, eval_name-Sound, set-Safe, declare-Safe,
  eval_literal-HasKind, condition-Safe, while_loop-Sound,
}

-- Where arithmetic may panic.
abbrev pub MayFault : (checks division : Bool) → Type 0
MayFault checks division = (checks ≡ true) ⊎ (division ≡ true)

unit-Fits : (ty : Ty) → ty ≡ Ty.unit → HasKind unit_value ty
unfolding HasKind
unit-Fits ty h = rw h tt

module _ (checks division loops : Bool) (fuel : ℕ) where
  -- Arithmetic panics only where overflow is checked, or in a division.
  abbrev M : Type 0
  M = MayFault checks division

  -- A loop may lack fuel only where there are loops.
  abbrev N : Type 0
  N = loops ≡ true

  mutual
    unfolding eval Typed

    eval-Sound :
        (scope : Scope) (e : TypedExpr) (ty : Ty) (locals : Locals) (tys : List Ty)
        → Typed division loops scope e ty
        → LocalsFit scope locals tys
        → Sound M N ty tys (eval checks fuel e locals)
    eval-Sound scope (TypedExpr.scoped_name path constant) ty locals tys (x, e, h) l tys' store y
          f =
        rw e (eval_name-Sound M N scope locals tys x ty l h tys' store y f)
    eval-Sound scope (TypedExpr.literal lit) ty locals tys h l tys' store y f =
        (tys', (λ _ _ i. i), f, eval_literal-HasKind lit ty h)
    eval-Sound scope (TypedExpr.binary op left right) ty locals tys (u, t, h, h') l tys' store y f =
        eval_binary-Sound M N checks inl division loops inr op u ty tys
          (eval checks fuel left locals) (eval checks fuel right locals) t
          (eval-Sound scope left u locals tys h l) (eval-Sound scope right u locals tys h' l) tys'
          store y f
    eval-Sound scope (TypedExpr.unary op operand) ty locals tys (u, t, h) l tys' store y f =
        >>=-Safe M N (OfKind u) (OfKind ty) tys' (eval checks fuel operand locals store) _
          (eval-Sound scope operand u locals tys h l tys' store y f)
          λ a s t₁ z g p.
            Given-Safe M N ty (OfKind ty) t₁ (eval_unary checks op a) (λ c. ok (c, s))
              (eval_unary-Given M N checks inl op u ty a t p) (λ c k. (t₁, (λ _ _ i. i), g, k))
    eval-Sound scope (TypedExpr.grouping inner) ty locals tys h l tys' store y f =
        eval-Sound scope inner ty locals tys h l tys' store y f
    eval-Sound scope (TypedExpr.disclose inner) ty locals tys h l tys' store y f =
        eval-Sound scope inner ty locals tys h l tys' store y f
    eval-Sound scope (TypedExpr.block_expr b) ty locals tys h l tys' store y f =
        eval_block-Sound scope b ty locals tys h l tys' store y f
    eval-Sound scope (TypedExpr.if_expr branches else_branch) ty locals tys h l tys' store y f =
        eval_if-Sound scope branches ty (eval_else checks fuel else_branch locals) locals tys h.0 l
          (eval_else-Sound scope else_branch ty locals tys h.1 l) tys' store y f
    eval-Sound scope (TypedExpr.tuple es) ty locals tys h l tys' store y f = absurd h
    eval-Sound scope (TypedExpr.struct_constructor n is v) ty locals tys h l tys' store y f =
        absurd h
    eval-Sound scope (TypedExpr.emit e es) ty locals tys h l tys' store y f = absurd h
    eval-Sound scope (TypedExpr.raise e es) ty locals tys h l tys' store y f = absurd h
    eval-Sound scope (TypedExpr.runtime e es) ty locals tys h l tys' store y f = absurd h
    eval-Sound scope (TypedExpr.call e es) ty locals tys h l tys' store y f = absurd h
    eval-Sound scope (TypedExpr.yields abis) ty locals tys h l tys' store y f = absurd h
    eval-Sound scope (TypedExpr.match_expr e arms) ty locals tys h l tys' store y f = absurd h
    eval-Sound scope (TypedExpr.field_access e field) ty locals tys h l tys' store y f = absurd h

    eval_else-Sound :
        (scope : Scope) (b : OptionalBlock) (ty : Ty) (locals : Locals) (tys : List Ty)
        → ElseTyped division loops scope b ty
        → LocalsFit scope locals tys
        → Sound M N ty tys (eval_else checks fuel b locals)
    eval_else-Sound scope OptionalBlock.no_block ty locals tys h l tys' store y f =
        (tys', (λ _ _ i. i), f, unit-Fits ty h)
    eval_else-Sound scope (OptionalBlock.some_block b) ty locals tys h l tys' store y f =
        eval_block-Sound scope b ty locals tys h l tys' store y f

    eval_if-Sound :
        (scope : Scope) (bs : IfBranches) (ty : Ty) (otherwise : Store → Run Value)
        (locals : Locals) (tys : List Ty)
        → IfTyped division loops scope bs ty
        → LocalsFit scope locals tys
        → Sound M N ty tys otherwise
        → Sound M N ty tys (eval_if checks fuel bs otherwise locals)
    eval_if-Sound scope IfBranches.no_branch ty otherwise locals tys h l o tys' store y f =
        o tys' store y f
    eval_if-Sound scope (IfBranches.bool_branch condition b rest) ty otherwise locals tys
          (c, hb, hr) l o tys' store y f =
        condition-Safe M N (OfKind ty) tys' (eval checks fuel condition locals) store
          (λ s. eval_block checks fuel b locals s)
          (λ s. eval_if checks fuel rest otherwise locals s)
          (λ t s z g.
            eval-Sound scope condition Ty.bool locals tys c l t s (Extends-trans tys tys' t y z) g)
          f
          (λ t s z g.
            eval_block-Sound scope b ty locals tys hb l t s (Extends-trans tys tys' t y z) g)
          (λ t s z g.
            eval_if-Sound scope rest ty otherwise locals tys hr l o t s
              (Extends-trans tys tys' t y z) g)
    eval_if-Sound scope (IfBranches.is_branch name abi b rest) ty otherwise locals tys h l o tys'
          store y f =
        absurd h

    eval_optional-Sound :
        (scope : Scope) (o : OptionalExpr) (ty : Ty) (locals : Locals) (tys : List Ty)
        → OptionalTyped division loops scope o ty
        → LocalsFit scope locals tys
        → Sound M N ty tys (eval_optional checks fuel o locals)
    eval_optional-Sound scope OptionalExpr.nothing ty locals tys h l tys' store y f =
        (tys', (λ _ _ i. i), f, unit-Fits ty h)
    eval_optional-Sound scope (OptionalExpr.just e) ty locals tys h l tys' store y f =
        eval-Sound scope e ty locals tys h l tys' store y f

    eval_block-Sound :
        (scope : Scope) (b : TypedBlock) (ty : Ty) (locals : Locals) (tys : List Ty)
        → BlockTyped division loops scope b ty
        → LocalsFit scope locals tys
        → Sound M N ty tys (eval_block checks fuel b locals)
    eval_block-Sound scope (block statements tail) ty locals tys (after, h, t) l tys' store y f =
        eval_statements-Sound scope statements after ty (eval_optional checks fuel tail) locals tys'
          h (LocalsFit-Extends scope locals tys tys' y l)
          (λ locals' tys'' l'. eval_optional-Sound after tail ty locals' tys'' t l') store f

    eval_statements-Sound :
        (scope : Scope) (ss : TypedStatements) (after : Scope) (ty : Ty)
        (tail : Locals → Store → Run Value) (locals : Locals) (tys : List Ty)
        → StatementsTyped division loops scope ss after
        → LocalsFit scope locals tys
        → ((locals' : Locals) (tys' : List Ty)
            → LocalsFit after locals' tys'
            → Sound M N ty tys' (tail locals'))
        → (store : Store) → StoreFits store tys
        → Safe M N (OfKind ty) tys (eval_statements checks fuel ss tail locals store)
    eval_statements-Sound scope TypedStatements.no_statement after ty tail locals tys h l t store
          f =
        t locals tys (rw h l) tys store (λ _ _ i. i) f
    eval_statements-Sound scope (TypedStatements.statement s rest) after ty tail locals tys
          (next, h, r) l t store f =
        >>=-Safe M N (λ tys' l'. LocalsFit next l' tys') (OfKind ty) tys
          (exec checks fuel s locals store) _ (exec-Safe scope s next locals tys h l store f)
          λ locals' store' tys' _ g l'.
            eval_statements-Sound next rest after ty tail locals' tys' r l' t store' g

    exec-Safe :
        (scope : Scope) (s : TypedStatement) (after : Scope) (locals : Locals) (tys : List Ty)
        → StatementTyped division loops scope s after
        → LocalsFit scope locals tys
        → (store : Store) → StoreFits store tys
        → Safe M N (λ tys' l'. LocalsFit after l' tys') tys (exec checks fuel s locals store)
    exec-Safe scope (TypedStatement.variable_declaration public mutable p value otherwise) after
          locals tys (ty, h, b) l store f =
        >>=-Safe M N (OfKind ty) (λ tys' l'. LocalsFit after l' tys') tys
          (eval checks fuel value locals store) _
          (eval-Sound scope value ty locals tys h l tys store (λ _ _ i. i) f)
          λ v s t y g q. elim b [
            | inl binds ↦
                declare-Safe M N scope after locals t p ty s v
                  (eval_else checks fuel otherwise locals)
                  (LocalsFit-Extends scope locals tys t y l) binds g q
            | inr (test, same, diverges, (u, typed)) ↦ rw same (
                test-Safe M N scope locals t p s v (eval_else checks fuel otherwise locals) u test
                  (LocalsFit-Extends scope locals tys t y l) g
                  (eval_else-Sound scope otherwise u locals tys typed l t s y g)
                  (else-Leaving checks fuel otherwise locals s diverges))
          ]
    exec-Safe scope (TypedStatement.assignment target value) after locals tys (e, (ty, k, h)) l
          store f =
        rw e (
          >>=-Safe M N (OfKind ty) (λ tys' l'. LocalsFit scope l' tys') tys
            (eval checks fuel value locals store) _
            (eval-Sound scope value ty locals tys h l tys store (λ _ _ i. i) f)
            λ v s t y g q.
              set-Safe M N scope locals t target ty s v (LocalsFit-Extends scope locals tys t y l) k
                g q)
    exec-Safe scope (TypedStatement.expression e) after locals tys (q, (ty, h)) l store f = rw q (
        >>=-Safe M N (OfKind ty) (λ tys' l'. LocalsFit scope l' tys') tys
          (eval checks fuel e locals store) _
          (eval-Sound scope e ty locals tys h l tys store (λ _ _ i. i) f)
          λ v s t y g _. (t, (λ _ _ i. i), g, LocalsFit-Extends scope locals tys t y l))
    exec-Safe scope (TypedStatement.while_do condition body) after locals tys (n, q, c, (ty, h)) l
          store f =
        rw q (
          >>=-Safe M N (OfKind Ty.unit) (λ tys' l'. LocalsFit scope l' tys') tys
            (while_loop fuel (eval checks fuel condition locals)
              (eval_block checks fuel body locals) store)
            _
            (while_loop-Sound M N fuel n tys ty (eval checks fuel condition locals)
              (eval_block checks fuel body locals)
              (eval-Sound scope condition Ty.bool locals tys c l)
              (eval_block-Sound scope body ty locals tys h l) tys store (λ _ _ i. i) f)
            λ v s t y g _. (t, (λ _ _ i. i), g, LocalsFit-Extends scope locals tys t y l))
    exec-Safe scope (TypedStatement.returns operand) after locals tys (q, (ty, h)) l store f =
        >>=-Safe M N (OfKind ty) (λ tys' l'. LocalsFit after l' tys') tys
          (eval_optional checks fuel operand locals store) _
          (eval_optional-Sound scope operand ty locals tys h l tys store (λ _ _ i. i) f)
          (λ _ _ _ _ _ _. tt)
    exec-Safe scope TypedStatement.resume after locals tys q l store f = tt
    exec-Safe scope (TypedStatement.try_with subject effects) after locals tys h l store f =
        absurd h
