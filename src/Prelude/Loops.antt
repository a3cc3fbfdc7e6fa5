-- ===== src/Prelude/Loops.antt =====
-- Loops over a range of numbers that stop at the first error, and over a list.
use Prim.Native.Nat.{ℕ, zero, suc, ◌+◌, ◌≤◌, ◌<◌}
use mathlib.Core.Path.{◌≡◌, refl}
use mathlib.Core.Logic.{◌≢◌, inl, inr}
use mathlib.Core.Bool.{Bool, true, false}
use mathlib.Core.List.{List, [], ◌∷◌}
use native.Mathlib.Omega.{arith}
use native.Mathlib.Decide.{ℕ_discrete}
use starstream.Prelude.Results.{Outcome, ok, panic, ◌>>=◌, ◌>>◌, >>=-returns, Outcome-cases}

-- `for i in start..start + k`
unfoldable pub for_each {ℓ} :
    {E : Type ℓ} → (k start : ℕ) → (ℕ → Outcome E (Unit {0})) → Outcome E (Unit {0})
for_each zero start body = ok tt
for_each (suc k) start body = body start >> for_each k (suc start) body

-- `if b { body }`
abbrev pub when {ℓ} : {E : Type ℓ} → Bool → Outcome E (Unit {0}) → Outcome E (Unit {0})
when true body = body
when false body = ok tt

-- `xs.iter().map(f).collect()`, where `f` can fail.
abbrev pub traverse {ℓ κ μ} :
    {E : Type ℓ} {A : Type κ} {B : Type μ} → (A → Outcome E B) → List A → Outcome E (List B)
traverse f [] = ok []
traverse f (x ∷ xs) = do y ← f x; ys ← traverse f xs; ok (y ∷ ys)

-- `(start..start + k).map(f).collect()`
abbrev pub tabulate {ℓ} : {A : Type ℓ} → (k start : ℕ) → (ℕ → A) → List A
tabulate zero start f = []
tabulate (suc k) start f = f start ∷ tabulate k (suc start) f

pub for_each-ok {ℓ} :
    {E : Type ℓ} (k start : ℕ) (body : ℕ → Outcome E (Unit {0}))
    → for_each k start body ≡ ok tt
    → (i : ℕ) → start ≤ i
    → i < start + k
    → body i ≡ ok tt
unfolding for_each
for_each-ok zero start body h i le lt = absurd (omega arith)
for_each-ok (suc k) start body h i le lt =
    let (_, first, later) = >>=-returns (body start) (λ _. for_each k (suc start) body) h in
    elim (ℕ_discrete start i) [
      | yes e ↦ rw (← e) first
      | no ne ↦ for_each-ok k (suc start) body later i (omega arith) (omega arith)
    ]

pub ok-for_each {ℓ} :
    {E : Type ℓ} (k start : ℕ) (body : ℕ → Outcome E (Unit {0}))
    → ((i : ℕ) → start ≤ i → i < start + k → body i ≡ ok tt)
    → for_each k start body ≡ ok tt
unfolding for_each
ok-for_each zero start body h = refl
ok-for_each (suc k) start body h =
    rw (h start (omega arith) (omega arith))
      (ok-for_each k (suc start) body (λ i le lt. h i (omega arith) (omega arith)))

pub for_each-ne-panic {ℓ} :
    {E : Type ℓ} (k start : ℕ) (body : ℕ → Outcome E (Unit {0}))
    → ((i : ℕ) → start ≤ i → i < start + k → body i ≢ panic)
    → for_each k start body ≢ panic
unfolding for_each
for_each-ne-panic zero start body h e = cc
for_each-ne-panic (suc k) start body h e = elim (Outcome-cases (body start)) [
  | inl (tt, f) ↦
      for_each-ne-panic k (suc start) body (λ i le lt. h i (omega arith) (omega arith))
        (ground arith)
  | inr (inl (x, f)) ↦ ground arith
  | inr (inr f) ↦ h start (omega arith) (omega arith) f
]
