-- ===== src/Interpreter/Integer.antt =====
-- The integers of the interpreter: `i64` arithmetic, with or without overflow checks.
use starstream.Prelude.{
  ℕ, zero, suc, ◌+◌, ◌-◌, ◌*◌, ◌/◌, ◌%◌, ◌^◌, ◌==◌, Bool, true, false, ltb, leb, if◌then◌else◌,
  Outcome, ok, err, ◌>>=◌,
}
use starstream.Types.{ℤ, pos, negsuc}

-- The panics of arithmetic, told apart from those that the source writes out.
pub data ArithmeticPanic : Type 0 where
  overflow division_by_zero : ArithmeticPanic

-- Whether the build checks for overflow (`overflow-checks`, on in debug builds): it panics, or the
-- result wraps around.
abbrev pub OverflowChecks : Type 0
OverflowChecks = Bool

-- The difference of two naturals.
abbrev pub difference : ℕ → ℕ → ℤ
difference a b = if leb b a then pos (a - b) else negsuc (b - a - 1)

abbrev pub int_negate : ℤ → ℤ
int_negate (pos zero) = pos zero
int_negate (pos (suc n)) = negsuc n
int_negate (negsuc n) = pos (suc n)

infixl 65 ◌+ℤ◌
abbrev pub ◌+ℤ◌ : ℤ → ℤ → ℤ
pos a +ℤ pos b = pos (a + b)
pos a +ℤ negsuc b = difference a (suc b)
negsuc a +ℤ pos b = difference b (suc a)
negsuc a +ℤ negsuc b = negsuc (suc (a + b))

abbrev pub magnitude : ℤ → ℕ
magnitude (pos n) = n
magnitude (negsuc n) = suc n

abbrev pub differ_in_sign : ℤ → ℤ → Bool
differ_in_sign (pos a) (negsuc b) = true
differ_in_sign (negsuc a) (pos b) = true
differ_in_sign _ _ = false

abbrev pub with_sign : (negative : Bool) → ℕ → ℤ
with_sign true n = int_negate (pos n)
with_sign false n = pos n

infixl 70 ◌*ℤ◌
abbrev pub ◌*ℤ◌ : ℤ → ℤ → ℤ
a *ℤ b = with_sign (differ_in_sign a b) (magnitude a * magnitude b)

abbrev pub int_less : ℤ → ℤ → Bool
int_less (pos a) (pos b) = ltb a b
int_less (pos a) (negsuc b) = false
int_less (negsuc a) (pos b) = true
int_less (negsuc a) (negsuc b) = ltb b a

-- `value as i64`: the low 64 bits in two's complement. The bits of -(n + 1) are those of n, inverted.
unfoldable pub as_i64 : ℤ → ℤ
as_i64 (pos n) =
    let bits = n % 2 ^ 64 in if ltb bits (2 ^ 63) then pos bits else negsuc (2 ^ 64 - 1 - bits)
as_i64 (negsuc n) =
    let bits = n % 2 ^ 64 in if ltb bits (2 ^ 63) then negsuc bits else pos (2 ^ 64 - 1 - bits)

abbrev pub is_i64 : ℤ → Bool
is_i64 (pos n) = ltb n (2 ^ 63)
is_i64 (negsuc n) = ltb n (2 ^ 63)

-- The result of `+`, `-` or `*` on `i64`.
unfoldable pub in_i64 : OverflowChecks → ℤ → Outcome ArithmeticPanic ℤ
in_i64 true n = if is_i64 n then ok n else err overflow
in_i64 false n = ok (as_i64 n)

-- `/` on `i64` truncates. It panics on a division by zero and on `i64::MIN / -1`.
unfoldable pub truncated_div : ℤ → ℤ → Outcome ArithmeticPanic ℤ
truncated_div lhs rhs =
    if magnitude rhs == 0
    then err division_by_zero
    else let quotient = with_sign (differ_in_sign lhs rhs) (magnitude lhs / magnitude rhs) in
      if is_i64 quotient then ok quotient else err overflow

abbrev is_negative : ℤ → Bool
is_negative (pos n) = false
is_negative (negsuc n) = true

-- `%` on `i64` has the sign of `lhs`, and panics where `/` does.
unfoldable pub truncated_rem : ℤ → ℤ → Outcome ArithmeticPanic ℤ
unfolding truncated_div
truncated_rem lhs rhs = do
  quotient ← truncated_div lhs rhs
  ok (with_sign (is_negative lhs) (magnitude lhs % magnitude rhs))

-- `(lhs ^ rhs) >> 63` is -1 where the signs differ, and 0 elsewhere.
unfoldable pub div_floor : OverflowChecks → ℤ → ℤ → Outcome ArithmeticPanic ℤ
unfolding truncated_div truncated_rem in_i64
div_floor checks lhs rhs = do
  d ← truncated_div lhs rhs
  r ← truncated_rem lhs rhs
  let correction = if differ_in_sign lhs rhs then negsuc 0 else pos 0
  if magnitude r == 0 then ok d else in_i64 checks (d +ℤ correction)
