-- ===== src/Interpreter/Floor.antt =====
-- Integer division rounded down, apart from the code.
use starstream.Prelude.{
  ℕ, zero, suc, ◌+◌, ◌-◌, ◌*◌, ◌<◌, ◌==◌, Bool, true, false, ◌≡◌, ◌⊎◌, inl, inr, refl, arith,
  Bool-cases, if◌then◌else◌,
}
use starstream.Types.{ℤ, pos, negsuc}
use starstream.Interpreter.Integer.{differ_in_sign, with_sign, magnitude, ◌+ℤ◌, ◌*ℤ◌, int_negate}

-- The quotient rounded down, and a remainder with the sign of the divisor.
abbrev pub IsQuotient : ℤ → ℤ → ℤ → ℤ → Type 0
IsQuotient a b q r =
    (a ≡ q *ℤ b +ℤ r) × (magnitude r < magnitude b) × ((r ≡ pos 0) ⊎ (differ_in_sign r b ≡ false))

-- The quotient and the remainder, for magnitudes `m` and `n` with quotient `q` and remainder `r`.
abbrev pub floor_quotient : (differ : Bool) → (q r : ℕ) → ℤ
floor_quotient differ q r =
    if r == 0 then with_sign differ q else (if differ then negsuc q else pos q)

suc_mul : (q n : ℕ) → suc q * n ≡ q * n + n
suc_mul q n = grind arith

add_negative : (k r : ℕ) → 0 < r → int_negate (pos k) +ℤ negsuc (r - 1) ≡ negsuc (k + r - 1)
add_negative zero r h = ground arith
add_negative (suc k) r h = ground arith

exact_product : (q a b : ℕ) → suc a ≡ q * b → negsuc a ≡ int_negate (pos q) *ℤ pos b +ℤ pos 0
exact_product zero a b e = absurd (ground arith)
exact_product (suc q) a b e = ground arith

abbrev pub floor_remainder : (differ negative : Bool) → (n r : ℕ) → ℤ
floor_remainder differ negative n r =
    let rest = if differ then n - r else r in
    if r == 0 then pos 0 else (if negative then negsuc (rest - 1) else pos rest)

abbrev pub below_zero : ℤ → Bool
below_zero (pos n) = false
below_zero (negsuc n) = true

module _ (q r : ℕ) where
  pub floor-IsQuotient :
      (a b : ℤ)
      → magnitude a ≡ q * magnitude b + r
      → r < magnitude b
      → IsQuotient a b
          (floor_quotient (differ_in_sign a b) q r)
          (floor_remainder (differ_in_sign a b) (below_zero b) (magnitude b) r)
  floor-IsQuotient (pos a) (pos b) e l = elim (Bool-cases (r == 0)) [
    | inl z ↦ rw z (ground arith, ground arith, inl refl)
    | inr z ↦ rw z (ground arith, ground arith, inr refl)
  ]
  floor-IsQuotient (pos a) (negsuc b) e l = elim (Bool-cases (r == 0)) [
    | inl z ↦ rw z (ground arith, ground arith, inl refl)
    | inr z ↦ rw z (ground (arith, suc_mul q (suc b)), ground arith, inr refl)
  ]
  floor-IsQuotient (negsuc a) (pos b) e l = elim (Bool-cases (r == 0)) [
    | inl z ↦ rw z (exact_product q a b (ground arith), ground arith, inl refl)
    | inr z ↦ rw z (ground (arith, suc_mul q b), ground arith, inr refl)
  ]
  floor-IsQuotient (negsuc a) (negsuc b) e l = elim (Bool-cases (r == 0)) [
    | inl z ↦ rw z (ground arith, ground arith, inl refl)
    | inr z ↦
        rw z (ground (arith, add_negative (q * suc b) r (ground arith)), ground arith, inr refl)
  ]
