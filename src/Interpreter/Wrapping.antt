-- ===== src/Interpreter/Wrapping.antt =====
-- Wrapping around does not matter to a difference that fits an `i64`.
use starstream.Prelude.{
  ℕ, ◌-◌, ◌^◌, ◌<◌, ◌≤◌, true, ltb, ◌≡◌, ◌⊎◌, inl, inr, refl, arith, Bool-cases,
}
use starstream.Types.{ℤ, pos, negsuc}
use starstream.Interpreter.Integer.{as_i64, is_i64, ◌+ℤ◌, int_negate}

pub as_i64_id : (z : ℤ) → is_i64 z ≡ true → as_i64 z ≡ z
unfolding as_i64
as_i64_id (pos n) h = ground arith
as_i64_id (negsuc n) h = ground arith

-- Within 64 bits and a sign, wrapping takes 2 ^ 64 off or not.
as_i64_pos :
    (n : ℕ)
    → n < 2 ^ 64
    → ((n < 2 ^ 63) × (as_i64 (pos n) ≡ pos n))
      ⊎ ((2 ^ 63 ≤ n) × (as_i64 (pos n) ≡ negsuc (2 ^ 64 - 1 - n)))
unfolding as_i64
as_i64_pos n h = elim (Bool-cases (ltb n (2 ^ 63))) [
  | inl l ↦ inl (ground arith, ground arith)
  | inr l ↦ inr (ground arith, ground arith)
]

as_i64_negsuc :
    (n : ℕ)
    → n < 2 ^ 64
    → ((n < 2 ^ 63) × (as_i64 (negsuc n) ≡ negsuc n))
      ⊎ ((2 ^ 63 ≤ n) × (as_i64 (negsuc n) ≡ pos (2 ^ 64 - 1 - n)))
unfolding as_i64
as_i64_negsuc n h = elim (Bool-cases (ltb n (2 ^ 63))) [
  | inl l ↦ inl (ground arith, ground arith)
  | inr l ↦ inr (ground arith, ground arith)
]

difference_of_sum : (a p r : ℤ) → a ≡ p +ℤ r → a +ℤ int_negate p ≡ r
difference_of_sum (pos a) (pos p) (pos r) e = ground arith
difference_of_sum (pos a) (pos p) (negsuc r) e = ground arith
difference_of_sum (pos a) (negsuc p) (pos r) e = ground arith
difference_of_sum (pos a) (negsuc p) (negsuc r) e = ground arith
difference_of_sum (negsuc a) (pos p) (pos r) e = ground arith
difference_of_sum (negsuc a) (pos p) (negsuc r) e = ground arith
difference_of_sum (negsuc a) (negsuc p) (pos r) e = ground arith
difference_of_sum (negsuc a) (negsuc p) (negsuc r) e = ground arith

-- The difference of a sum of which the first part is off by 2 ^ 64.
high_difference :
    (a r : ℤ) (p : ℕ)
    → is_i64 r ≡ true
    → is_i64 a ≡ true
    → a ≡ pos p +ℤ r
    → 2 ^ 63 ≤ p
    → (s : ℕ) × (r ≡ negsuc s) × (a +ℤ int_negate (negsuc (2 ^ 64 - 1 - p)) ≡ pos (2 ^ 64 - 1 - s))
high_difference (pos a) (pos r) p h k e l = absurd (ground arith)
high_difference (negsuc a) (pos r) p h k e l = absurd (ground arith)
high_difference (pos a) (negsuc r) p h k e l = (r, refl, ground arith)
high_difference (negsuc a) (negsuc r) p h k e l = (r, refl, ground arith)

low_difference :
    (a r : ℤ) (p : ℕ)
    → is_i64 r ≡ true
    → is_i64 a ≡ true
    → a ≡ negsuc p +ℤ r
    → 2 ^ 63 ≤ p
    → (s : ℕ) × (r ≡ pos s) × (a +ℤ int_negate (pos (2 ^ 64 - 1 - p)) ≡ negsuc (2 ^ 64 - 1 - s))
low_difference (pos a) (negsuc r) p h k e l = absurd (ground arith)
low_difference (negsuc a) (negsuc r) p h k e l = absurd (ground arith)
low_difference (pos a) (pos r) p h k e l = (r, refl, ground arith)
low_difference (negsuc a) (pos r) p h k e l = (r, refl, ground arith)

high_wraps : (s : ℕ) → is_i64 (negsuc s) ≡ true → as_i64 (pos (2 ^ 64 - 1 - s)) ≡ negsuc s
unfolding as_i64
high_wraps s h = ground arith

low_wraps : (s : ℕ) → is_i64 (pos s) ≡ true → as_i64 (negsuc (2 ^ 64 - 1 - s)) ≡ pos s
unfolding as_i64
low_wraps s h = ground arith

-- A product that wraps around does not matter to the difference.
pub wrapped_difference :
    (a p r : ℤ)
    → is_i64 r ≡ true
    → a ≡ p +ℤ r
    → is_i64 a ≡ true
    → as_i64 (a +ℤ int_negate (as_i64 p)) ≡ r
unfolding as_i64
wrapped_difference a (pos p) r h e k = elim (as_i64_pos p (ground arith)) [
  | inl (l, q) ↦ rw (q, difference_of_sum a (pos p) r e) (as_i64_id r h)
  | inr (l, q) ↦
      let (s, same, d) = high_difference a r p h k e l in
      rw (q, d, same) (high_wraps s (rw same at h))
]
wrapped_difference a (negsuc p) r h e k = elim (as_i64_negsuc p (ground arith)) [
  | inl (l, q) ↦ rw (q, difference_of_sum a (negsuc p) r e) (as_i64_id r h)
  | inr (l, q) ↦
      let (s, same, d) = low_difference a r p h k e l in
      rw (q, d, same) (low_wraps s (rw same at h))
]
