-- ===== src/Interpreter/Faults.antt =====
-- The operators of the interpreter, on values of the right types, panic in arithmetic only.
use starstream.Prelude.{
  ◌/◌, ◌==◌, Bool, true, false, ◌≡◌, ◌≢◌, arith, Outcome, ok, err, panic, ◌>>=◌, if◌then◌else◌,
  Bool-cases, inl, inr,
}
use starstream.Types.{ℤ, Ty, IntWidth}
use starstream.Interpreter.Integer.{
  ArithmeticPanic, OverflowChecks, in_i64, is_i64, truncated_div, truncated_rem, div_floor,
  differ_in_sign, with_sign, magnitude, ◌+ℤ◌, ◌*ℤ◌, int_negate,
}
use starstream.Interpreter.Value.{Value, number, boolean, add, sub, mul, div, rem, neg, complement}
use starstream.Interpreter.Syntax.{UnaryOp, BinaryOp}
use starstream.Interpreter.Eval.{Stop, computed, apply_operator, eval_unary}
use starstream.Interpreter.Typing.{HasKind, OperatorTyped, UnaryTyped}
use starstream.Interpreter.Sound as Sound

module _ (M N : Type 0) where
  abbrev Given : Ty → Outcome Stop Value → Type 0
  Given = Sound.Given M N

  -- Arithmetic has a result, or faults.
  abbrev Faults : {A : Type 0} → Outcome ArithmeticPanic A → Type 0
  Faults (ok a) = Unit
  Faults (err e) = M
  Faults panic = ⊥

  >>=-Faults :
      {A B : Type 0} (r : Outcome ArithmeticPanic A) (f : A → Outcome ArithmeticPanic B)
      → Faults r
      → ((a : A) → Faults (f a))
      → Faults (r >>= f)
  >>=-Faults (ok a) f h k = k a
  >>=-Faults (err e) f h k = h
  >>=-Faults panic f h k = absurd h

  -- The same, with a result of type `int w`.
  abbrev Counts : IntWidth → Outcome ArithmeticPanic Value → Type 0
  Counts w (ok a) = HasKind a (Ty.int w)
  Counts w (err e) = M
  Counts w panic = ⊥

  >>=-Counts :
      {A : Type 0} (w : IntWidth) (r : Outcome ArithmeticPanic A)
      (f : A → Outcome ArithmeticPanic Value)
      → Faults r
      → ((a : A) → Counts w (f a))
      → Counts w (r >>= f)
  >>=-Counts w (ok a) f h k = k a
  >>=-Counts w (err e) f h k = h
  >>=-Counts w panic f h k = absurd h

  Counts-Given :
      (w : IntWidth) (r : Outcome ArithmeticPanic Value)
      → Counts w r
      → Given (Ty.int w) (computed r)
  Counts-Given w (ok a) h = h
  Counts-Given w (err e) h = h
  Counts-Given w panic h = h

  number-Counts :
      (w : IntWidth) (r : Outcome ArithmeticPanic ℤ) → Faults r → Counts w (do n ← r; ok (number n))
  unfolding HasKind
  number-Counts w r h = >>=-Counts w r (λ n. ok (number n)) h (λ n. tt)

  number-Given :
      (w : IntWidth) (r : Outcome ArithmeticPanic ℤ)
      → Faults r
      → Given (Ty.int w) (computed (do n ← r; ok (number n)))
  number-Given w r h = Counts-Given w _ (number-Counts w r h)

  if-Faults :
      {A : Type 0} (b : Bool) (r s : Outcome ArithmeticPanic A)
      → Faults r
      → Faults s
      → Faults (if b then r else s)
  if-Faults true r s h k = h
  if-Faults false r s h k = k

  truncated_div-Faults : M → (a b : ℤ) → Faults (truncated_div a b)
  unfolding truncated_div
  truncated_div-Faults m a b =
      if-Faults (magnitude b == 0) _ _ m
        (if-Faults (is_i64 (with_sign (differ_in_sign a b) (magnitude a / magnitude b))) _ _ tt m)

  truncated_rem-Faults : M → (a b : ℤ) → Faults (truncated_rem a b)
  unfolding truncated_rem
  truncated_rem-Faults m a b =
      >>=-Faults (truncated_div a b) _ (truncated_div-Faults m a b) (λ q. tt)

  module _ (checks : OverflowChecks) (overflows : checks ≡ true → M) where
    in_i64-Faults : (n : ℤ) → Faults (in_i64 checks n)
    unfolding in_i64
    in_i64-Faults n = elim (Bool-cases checks) [
      | inl c ↦ rw (c, in_i64) (if-Faults (is_i64 n) _ _ tt (overflows c))
      | inr c ↦ rw (c, in_i64) tt
    ]

    div_floor-Faults : M → (a b : ℤ) → Faults (div_floor checks a b)
    unfolding div_floor
    div_floor-Faults m a b = >>=-Faults (truncated_div a b) _ (truncated_div-Faults m a b) λ d.
        >>=-Faults (truncated_rem a b) _ (truncated_rem-Faults m a b)
          λ r. if-Faults (magnitude r == 0) _ _ tt (in_i64-Faults _)

    rem-Given :
        (w : IntWidth) (a b : ℤ)
        → M
        → Given (Ty.int w) (computed (rem checks (number a) (number b)))
    unfolding rem
    rem-Given w a b m = Counts-Given w (rem checks (number a) (number b)) (
        >>=-Counts w (div_floor checks a b) _ (div_floor-Faults m a b) λ d.
          >>=-Counts w (in_i64 checks (d *ℤ b)) _ (in_i64-Faults _)
            λ p. number-Counts w _ (in_i64-Faults _))

    pub apply_operator-Given :
        (division loops : Bool)
        → (division ≡ true → M)
        → (op : BinaryOp) (u ty : Ty) (a b : Value) → op ≢ BinaryOp.and
        → op ≢ BinaryOp.or
        → OperatorTyped division loops op u ty
        → HasKind a u
        → HasKind b u
        → Given ty (apply_operator checks op a b)
    unfolding apply_operator add sub mul div OperatorTyped HasKind
    apply_operator-Given d o m BinaryOp.add (Ty.int w) (Ty.int w') (number a) (number b) n n' h p
          q =
        number-Given w' (in_i64 checks (a +ℤ b)) (in_i64-Faults _)
    apply_operator-Given d o m BinaryOp.subtract (Ty.int w) (Ty.int w') (number a) (number b) n n' h
          p q =
        number-Given w' (in_i64 checks (a +ℤ int_negate b)) (in_i64-Faults _)
    apply_operator-Given d o m BinaryOp.multiply (Ty.int w) (Ty.int w') (number a) (number b) n n' h
          p q =
        number-Given w' (in_i64 checks (a *ℤ b)) (in_i64-Faults _)
    apply_operator-Given d o m BinaryOp.divide (Ty.int w) (Ty.int w') (number a) (number b) n n' h p
          q =
        number-Given w' (div_floor checks a b) (div_floor-Faults (m h.0) a b)
    apply_operator-Given d o m BinaryOp.remainder (Ty.int w) (Ty.int w') (number a) (number b) n n'
          h p q =
        rem-Given w' a b (m h.0)
    apply_operator-Given d o m BinaryOp.less u Ty.bool a b n n' h p q = tt
    apply_operator-Given d o m BinaryOp.less_equal u Ty.bool a b n n' h p q = tt
    apply_operator-Given d o m BinaryOp.greater u Ty.bool a b n n' h p q = tt
    apply_operator-Given d o m BinaryOp.greater_equal u Ty.bool a b n n' h p q = tt
    apply_operator-Given d o m BinaryOp.equal u Ty.bool a b n n' h p q = tt
    apply_operator-Given d o m BinaryOp.not_equal u Ty.bool a b n n' h p q = tt
    apply_operator-Given d o m op u ty a b n n' h p q = absurd (ground arith)

    pub eval_unary-Given :
        (op : UnaryOp) (u ty : Ty) (a : Value)
        → UnaryTyped op u ty
        → HasKind a u
        → Given ty (eval_unary checks op a)
    unfolding eval_unary neg complement UnaryTyped HasKind
    eval_unary-Given UnaryOp.negate (Ty.int w) (Ty.int w') (number a) h p =
        number-Given w' (in_i64 checks (int_negate a)) (in_i64-Faults _)
    eval_unary-Given UnaryOp.not Ty.bool Ty.bool (boolean a) h p = tt
    eval_unary-Given op u ty a h p = absurd (ground arith)
