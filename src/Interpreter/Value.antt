-- ===== src/Interpreter/Value.antt =====
-- starstream-interpreter/src/lib.rs: the values and their operators.
use starstream.Prelude.{Bool, true, false, not, Option, none, some, Outcome, ok, panic, ◌>>=◌}
use starstream.Types.{ℤ, int_eq}
use starstream.Interpreter.Integer.{
  ArithmeticPanic, OverflowChecks, ◌+ℤ◌, ◌*ℤ◌, int_negate, int_less, in_i64, div_floor,
}

pub data Value : Type 0 where
  unit_value : Value
  number : ℤ → Value
  boolean : Bool → Value

pub data Ordering : Type 0 where
  less_than equal_to greater_than : Ordering

abbrev pub bool_eq : Bool → Bool → Bool
bool_eq true b = b
bool_eq false b = not b

unfoldable pub to_bool {ℓ} : {E : Type ℓ} → Value → Outcome E Bool
to_bool (boolean b) = ok b
to_bool _ = panic

module _ (checks : OverflowChecks) where
  unfoldable pub add : Value → Value → Outcome ArithmeticPanic Value
  unfolding in_i64
  add (number lhs) (number rhs) = do n ← in_i64 checks (lhs +ℤ rhs); ok (number n)
  add _ _ = panic

  unfoldable pub sub : Value → Value → Outcome ArithmeticPanic Value
  unfolding in_i64
  sub (number lhs) (number rhs) = do n ← in_i64 checks (lhs +ℤ int_negate rhs); ok (number n)
  sub _ _ = panic

  unfoldable pub mul : Value → Value → Outcome ArithmeticPanic Value
  unfolding in_i64
  mul (number lhs) (number rhs) = do n ← in_i64 checks (lhs *ℤ rhs); ok (number n)
  mul _ _ = panic

  unfoldable pub div : Value → Value → Outcome ArithmeticPanic Value
  unfolding div_floor
  div (number lhs) (number rhs) = do n ← div_floor checks lhs rhs; ok (number n)
  div _ _ = panic

  -- `lhs - div_floor(lhs, rhs) * rhs`
  unfoldable pub rem : Value → Value → Outcome ArithmeticPanic Value
  unfolding in_i64 div_floor
  rem (number lhs) (number rhs) = do
    d ← div_floor checks lhs rhs
    product ← in_i64 checks (d *ℤ rhs)
    n ← in_i64 checks (lhs +ℤ int_negate product)
    ok (number n)
  rem _ _ = panic

  unfoldable pub neg : Value → Outcome ArithmeticPanic Value
  unfolding in_i64
  neg (number lhs) = do n ← in_i64 checks (int_negate lhs); ok (number n)
  neg _ = panic

unfoldable pub complement : Value → Outcome ArithmeticPanic Value
complement (boolean b) = ok (boolean (not b))
complement _ = panic

abbrev pub value_eq : Value → Value → Bool
value_eq unit_value unit_value = true
value_eq (number lhs) (number rhs) = int_eq lhs rhs
value_eq (boolean lhs) (boolean rhs) = bool_eq lhs rhs
value_eq _ _ = false

abbrev compare_numbers : ℤ → ℤ → Ordering
compare_numbers a b = elim (int_less a b) [
  | true ↦ less_than
  | false ↦ elim (int_eq a b) [ true ↦ equal_to | false ↦ greater_than ]
]

abbrev compare_booleans : Bool → Bool → Ordering
compare_booleans false true = less_than
compare_booleans true false = greater_than
compare_booleans _ _ = equal_to

-- `()` is not ordered, not even with itself.
unfoldable pub partial_cmp : Value → Value → Option Ordering
partial_cmp (number lhs) (number rhs) = some (compare_numbers lhs rhs)
partial_cmp (boolean lhs) (boolean rhs) = some (compare_booleans lhs rhs)
partial_cmp _ _ = none
