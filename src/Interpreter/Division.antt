-- ===== src/Interpreter/Division.antt =====
-- `/` and `%` of the interpreter are floor division and its remainder.
use native.Mathlib.Nat.{mod-lt, div-le_self, div-zero, div-one}
use starstream.Prelude.{
  ℕ, zero, suc, ◌+◌, ◌-◌, ◌*◌, ◌/◌, ◌%◌, ◌^◌, ◌<◌, ◌≤◌, ◌==◌, Bool, true, false, ◌≡◌, ◌≢◌, inl, inr,
  refl, ap, arith, ok, ◌>>=◌, Bool-cases, if◌then◌else◌,
}
use starstream.Types.{ℤ, pos, negsuc}
use starstream.Interpreter.Integer.{
  OverflowChecks, is_i64, in_i64, truncated_div, truncated_rem, div_floor, differ_in_sign,
  with_sign, magnitude, ◌+ℤ◌,
}
use starstream.Interpreter.Value.{number, div, rem}
use starstream.Interpreter.Wrapping.{as_i64_id, wrapped_difference}
use starstream.Interpreter.Floor.{
  IsQuotient, floor_quotient, floor_remainder, below_zero, floor-IsQuotient,
}

split : (m n : ℕ) → 0 < n → (m ≡ m / n * n + m % n) × (m % n < n)
split m n h = (grind arith, mod-lt m h)

small_quotient : (m n : ℕ) → 2 ≤ n → m / n * 2 ≤ m
small_quotient m n h = grind arith

in_i64-ok : (checks : OverflowChecks) (z : ℤ) → is_i64 z ≡ true → in_i64 checks z ≡ ok z
unfolding in_i64
in_i64-ok true z h = rw h refl
in_i64-ok false z h = ap ok (as_i64_id z h)

magnitude-with_sign : (negative : Bool) (n : ℕ) → magnitude (with_sign negative n) ≡ n
magnitude-with_sign true zero = refl
magnitude-with_sign true (suc n) = refl
magnitude-with_sign false n = refl

corrected :
    (differ : Bool) (q : ℕ)
    → with_sign differ q +ℤ (if differ then negsuc 0 else pos 0)
      ≡ (if differ then negsuc q else pos q)
corrected true zero = refl
corrected true (suc q) = ground arith
corrected false q = ground arith

is_i64-magnitude : (z : ℤ) → is_i64 z ≡ true → magnitude z ≤ 2 ^ 63
is_i64-magnitude (pos n) h = ground arith
is_i64-magnitude (negsuc n) h = ground arith

small-is_i64 : (z : ℤ) → magnitude z < 2 ^ 63 → is_i64 z ≡ true
small-is_i64 (pos n) h = ground arith
small-is_i64 (negsuc n) h = ground arith

half-is_i64 :
    (differ : Bool) (q : ℕ) → q < 2 ^ 63 → is_i64 (if differ then negsuc q else pos q) ≡ true
half-is_i64 true q h = ground arith
half-is_i64 false q h = ground arith

floor_quotient-is_i64 :
    (differ : Bool) (m n : ℕ)
    → m ≤ 2 ^ 63
    → 0 < n
    → is_i64 (with_sign differ (m / n)) ≡ true
    → is_i64 (floor_quotient differ (m / n) (m % n)) ≡ true
floor_quotient-is_i64 differ m n l h k = elim (Bool-cases (m % n == 0)) [
  | inl z ↦ rw z k
  | inr z ↦
      let left = mod-lt m h in
      let two : 2 ≤ n = ground arith in
      let half = small_quotient m n two in rw z (half-is_i64 differ (m / n) (omega arith))
]

truncated_div-ok :
    (a b : ℤ)
    → 0 < magnitude b
    → is_i64 (with_sign (differ_in_sign a b) (magnitude a / magnitude b)) ≡ true
    → truncated_div a b ≡ ok (with_sign (differ_in_sign a b) (magnitude a / magnitude b))
unfolding truncated_div
truncated_div-ok a b h k =
    let nonzero : (magnitude b == 0) ≡ false = ground arith in rw (nonzero, k) refl

div_floor-ok :
    (checks : OverflowChecks) (a b : ℤ)
    → 0 < magnitude b
    → is_i64 a ≡ true
    → is_i64 (with_sign (differ_in_sign a b) (magnitude a / magnitude b)) ≡ true
    → div_floor checks a b
      ≡ ok (
          floor_quotient
            (differ_in_sign a b)
            (magnitude a / magnitude b)
            (magnitude a % magnitude b))
unfolding div_floor truncated_rem
div_floor-ok checks a b h i k =
    rw (truncated_div-ok a b h k, ◌>>=◌, magnitude-with_sign _ (magnitude a % magnitude b))
      (elim (Bool-cases (magnitude a % magnitude b == 0)) [
        | inl z ↦ rw z refl
        | inr z ↦
            let fits =
              floor_quotient-is_i64 (differ_in_sign a b) (magnitude a) (magnitude b)
                (is_i64-magnitude a i) h k in
            rw (z, corrected (differ_in_sign a b) (magnitude a / magnitude b))
              (in_i64-ok checks _ (rw z at fits))
      ])

signed-is_i64 : (negative : Bool) (n : ℕ) → n < 2 ^ 63 → is_i64 (with_sign negative n) ≡ true
signed-is_i64 negative n h =
    small-is_i64 (with_sign negative n) (rw (magnitude-with_sign negative n) h)

quotient-is_i64 :
    (a b : ℤ)
    → is_i64 a ≡ true
    → (b ≡ negsuc 0 → a ≢ negsuc (2 ^ 63 - 1))
    → is_i64 (with_sign (differ_in_sign a b) (magnitude a / magnitude b)) ≡ true
quotient-is_i64 (pos a) b h x =
    let le = div-le_self a (magnitude b) in
    signed-is_i64 (differ_in_sign (pos a) b) (a / magnitude b) (ground arith)
quotient-is_i64 (negsuc a) (pos zero) h x =
    let none = div-zero (suc a) in signed-is_i64 true (suc a / 0) (omega arith)
quotient-is_i64 (negsuc a) (pos (suc zero)) h x = let same = div-one (suc a) in ground arith
quotient-is_i64 (negsuc a) (pos (suc (suc b))) h x =
    let half = small_quotient (suc a) (suc (suc b)) (omega arith) in
    signed-is_i64 true (suc a / suc (suc b)) (ground arith)
quotient-is_i64 (negsuc a) (negsuc zero) h x =
    let same = div-one (suc a) in
    let differs : a ≢ 2 ^ 63 - 1 = λ q. x refl (ap negsuc q) in ground arith
quotient-is_i64 (negsuc a) (negsuc (suc b)) h x =
    let half = small_quotient (suc a) (suc (suc b)) (omega arith) in
    signed-is_i64 false (suc a / suc (suc b)) (ground arith)

floor_remainder-is_i64 :
    (differ negative : Bool) (n r : ℕ)
    → n ≤ 2 ^ 63
    → r < n
    → is_i64 (floor_remainder differ negative n r) ≡ true
floor_remainder-is_i64 true true n r h l = ground arith
floor_remainder-is_i64 true false n r h l = ground arith
floor_remainder-is_i64 false true n r h l = ground arith
floor_remainder-is_i64 false false n r h l = ground arith

-- Floor division: for integers within `i64` the operator `/` gives the quotient rounded down, with
-- and without overflow checks, and `%` the remainder with the sign of the divisor, without them,
-- except for a division by zero and for `i64::MIN / -1`.
pub div-rem_floor :
    (checks : OverflowChecks) (a b : ℤ)
    → is_i64 a ≡ true
    → is_i64 b ≡ true
    → b ≢ pos 0
    → (b ≡ negsuc 0 → a ≢ negsuc (2 ^ 63 - 1))
    → (q : ℤ) × (r : ℤ) × IsQuotient a b q r
      × (div checks (number a) (number b) ≡ ok (number q))
      × (rem false (number a) (number b) ≡ ok (number r))
unfolding div rem
div-rem_floor checks a b h k nonzero x =
    let positive : 0 < magnitude b = ground arith in
    let fits = quotient-is_i64 a b h x in
    let (e, l) = split (magnitude a) (magnitude b) positive in
    let floor = floor-IsQuotient (magnitude a / magnitude b) (magnitude a % magnitude b) a b e l in
    let fits' =
      floor_remainder-is_i64 (differ_in_sign a b) (below_zero b) (magnitude b)
        (magnitude a % magnitude b) (is_i64-magnitude b k) l in
    (
      floor_quotient (differ_in_sign a b) (magnitude a / magnitude b) (magnitude a % magnitude b),
      floor_remainder (differ_in_sign a b) (below_zero b) (magnitude b) (magnitude a % magnitude b),
      floor,
      rw (div_floor-ok checks a b positive h fits, ◌>>=◌) refl,
      rw (div_floor-ok false a b positive h fits, ◌>>=◌, in_i64)
          (ap (λ n. ok (number n)) (wrapped_difference a _ _ fits' floor.0 h)),
    )
