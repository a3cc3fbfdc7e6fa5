-- ===== src/Interpreter/Leaving.antt =====
-- The blocks that leave the function, for a `let .. else`.
use starstream.Prelude.{ℕ, Bool, Outcome, err, panic, ok, ◌>>=◌}
use starstream.Interpreter.Value.{Value}
use starstream.Interpreter.Syntax.{OptionalBlock, block, TypedStatement, TypedStatements}
use starstream.Interpreter.Eval.{
  Stop, Run, Store, Locals, eval, eval_else, eval_optional, eval_statements, exec,
}
use starstream.Interpreter.Typing.{Leaves, Diverges}

-- An outcome other than a value.
abbrev pub Leaving : {A : Type 0} → Outcome Stop A → Type 0
Leaving (ok a) = ⊥
Leaving (err e) = Unit
Leaving panic = Unit

module _ (checks : Bool) (fuel : ℕ) where
  >>=-Leaving :
      {A B : Type 0} (r : Outcome Stop A) (f : A → Outcome Stop B)
      → ((a : A) → Leaving (f a))
      → Leaving (r >>= f)
  >>=-Leaving (ok a) f h = h a
  >>=-Leaving (err e) f h = tt
  >>=-Leaving panic f h = tt

  Leaving->>= :
      {A B : Type 0} (r : Outcome Stop A) (f : A → Outcome Stop B) → Leaving r → Leaving (r >>= f)
  Leaving->>= (ok a) f h = absurd h
  Leaving->>= (err e) f h = tt
  Leaving->>= panic f h = tt

  statements-Leaving :
      (ss : TypedStatements) (tail : Locals → Store → Run Value) (locals : Locals) (store : Store)
      → Leaves ss
      → Leaving (eval_statements checks fuel ss tail locals store)
  unfolding eval Leaves
  statements-Leaving TypedStatements.no_statement tail locals store h = absurd h
  statements-Leaving (TypedStatements.statement (TypedStatement.returns operand) rest) tail locals
        store h =
      Leaving->>= (exec checks fuel (TypedStatement.returns operand) locals store) _
        (>>=-Leaving (eval_optional checks fuel operand locals store) _ (λ a. tt))
  statements-Leaving (TypedStatements.statement TypedStatement.resume rest) tail locals store h = tt
  statements-Leaving (TypedStatements.statement s rest) tail locals store h =
      >>=-Leaving (exec checks fuel s locals store) _ (λ a. statements-Leaving rest tail a.0 a.1 h)

  -- A block that leaves the function has no value.
  pub else-Leaving :
      (b : OptionalBlock) (locals : Locals) (store : Store)
      → Diverges b
      → Leaving (eval_else checks fuel b locals store)
  unfolding eval
  else-Leaving OptionalBlock.no_block locals store h = absurd h
  else-Leaving (OptionalBlock.some_block (block statements tail)) locals store h =
      statements-Leaving statements (eval_optional checks fuel tail) locals store h
