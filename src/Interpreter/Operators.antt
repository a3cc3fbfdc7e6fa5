-- ===== src/Interpreter/Operators.antt =====
-- The binary operators of the interpreter on well-typed operands.
use starstream.Prelude.{Bool, true, ◌≡◌, ◌≢◌, arith, List, ok, ◌>>=◌, if◌then◌else◌}
use starstream.Types.{Ty}
use starstream.Interpreter.Value.{Value, to_bool}
use starstream.Interpreter.Syntax.{BinaryOp}
use starstream.Interpreter.Eval.{Run, Store, apply_operator, eval_binary}
use starstream.Interpreter.Typing.{HasKind, OperatorTyped, StoreFits}
use starstream.Interpreter.Sound.{Extends, Safe, Sound, >>=-Safe, to_bool-ok, if-Safe, Given-Safe}
use starstream.Interpreter.Faults.{apply_operator-Given}
use starstream.Interpreter.Cells.{Extends-trans}

-- Values of a type, whatever the cells.
abbrev pub OfKind : Ty → List Ty → Value → Type 0
OfKind ty tys v = HasKind v ty

module _ (M N : Type 0) (checks : Bool) (overflows : checks ≡ true → M) (division loops : Bool)
    (divides : division ≡ true → M) where
  operator-Sound :
      (op : BinaryOp) (u ty : Ty) (tys : List Ty) (left right : Store → Run Value)
      → op ≢ BinaryOp.and
      → op ≢ BinaryOp.or
      → OperatorTyped division loops op u ty
      → Sound M N u tys left
      → Sound M N u tys right
      → (tys' : List Ty) (store : Store) → Extends tys tys'
      → StoreFits store tys'
      → Safe M N (OfKind ty) tys' (do
        (a, store₁) ← left store
        (b, store₂) ← right store₁
        c ← apply_operator checks op a b
        ok (c, store₂))
  operator-Sound op u ty tys left right n n' t l r tys' store x f =
      >>=-Safe M N (OfKind u) (OfKind ty) tys' (left store) _ (l tys' store x f) λ a s t₁ y g p.
        >>=-Safe M N (OfKind u) (OfKind ty) t₁ (right s) _
          (r t₁ s (Extends-trans tys tys' t₁ x y) g)
          λ b s' t₂ z g' q.
            Given-Safe M N ty (OfKind ty) t₂ (apply_operator checks op a b) (λ c. ok (c, s'))
              (apply_operator-Given M N checks overflows division loops divides op u ty a b n n' t p
                q)
              (λ c k. (t₂, (λ _ _ i. i), g', k))

  -- The value of `and` and `or` where the first operand settles it, or the second operand's.
  settled-Safe :
      (tys' : List Ty) (a : Value) (rest : Bool → Run Value)
      → ((b : Bool) → Safe M N (OfKind Ty.bool) tys' (rest b))
      → HasKind a Ty.bool
      → Safe M N (OfKind Ty.bool) tys' (to_bool a >>= rest)
  settled-Safe tys' a rest h p = let (b, e) = to_bool-ok a p in rw (e, ◌>>=◌) (h b)

  and-Sound :
      (u ty : Ty) (tys : List Ty) (left right : Store → Run Value)
      → OperatorTyped division loops BinaryOp.and u ty
      → Sound M N u tys left
      → Sound M N u tys right
      → Sound M N ty tys (eval_binary checks BinaryOp.and left right)
  unfolding eval_binary OperatorTyped
  and-Sound Ty.bool Ty.bool tys left right t l r tys' store x f =
      >>=-Safe M N (OfKind Ty.bool) (OfKind Ty.bool) tys' (left store) _ (l tys' store x f)
        λ a s t₁ y g p.
          settled-Safe t₁ a (λ b. if b then right s else ok (a, s))
            (λ b.
              if-Safe M N (OfKind Ty.bool) t₁ b (right s) (ok (a, s))
                (r t₁ s (Extends-trans tys tys' t₁ x y) g) (t₁, (λ _ _ i. i), g, p))
            p
  and-Sound u ty tys left right t l r tys' store x f = absurd (ground arith)

  or-Sound :
      (u ty : Ty) (tys : List Ty) (left right : Store → Run Value)
      → OperatorTyped division loops BinaryOp.or u ty
      → Sound M N u tys left
      → Sound M N u tys right
      → Sound M N ty tys (eval_binary checks BinaryOp.or left right)
  unfolding eval_binary OperatorTyped
  or-Sound Ty.bool Ty.bool tys left right t l r tys' store x f =
      >>=-Safe M N (OfKind Ty.bool) (OfKind Ty.bool) tys' (left store) _ (l tys' store x f)
        λ a s t₁ y g p.
          settled-Safe t₁ a (λ b. if b then ok (a, s) else right s)
            (λ b.
              if-Safe M N (OfKind Ty.bool) t₁ b (ok (a, s)) (right s) (t₁, (λ _ _ i. i), g, p)
                (r t₁ s (Extends-trans tys tys' t₁ x y) g))
            p
  or-Sound u ty tys left right t l r tys' store x f = absurd (ground arith)

  pub eval_binary-Sound :
      (op : BinaryOp) (u ty : Ty) (tys : List Ty) (left right : Store → Run Value)
      → OperatorTyped division loops op u ty
      → Sound M N u tys left
      → Sound M N u tys right
      → Sound M N ty tys (eval_binary checks op left right)
  unfolding eval_binary OperatorTyped
  eval_binary-Sound BinaryOp.and u ty tys left right t l r = and-Sound u ty tys left right t l r
  eval_binary-Sound BinaryOp.or u ty tys left right t l r = or-Sound u ty tys left right t l r
  eval_binary-Sound op u ty tys left right t l r =
      operator-Sound op u ty tys left right (λ e. ground arith) (λ e. ground arith) t l r
