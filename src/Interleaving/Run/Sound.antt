-- ===== src/Interleaving/Run/Sound.antt =====
-- What the run returns is where a sequence of rounds ends.
use mathlib.Core.Path.{subst}
use starstream.Prelude.{ℕ, zero, suc, ◌≡◌, none, some, ok, arith, Outcome-cases, inl, inr}
use starstream.Interleaving.State.{Rom}
use starstream.Interleaving.Machine.{state_transition}
use starstream.Interleaving.Transition.{state_transition-Transition, Moves, stop, go, Finished}
use starstream.Interleaving.Verify.{Position, next_op, run}

next_op-none : (rom : Rom) (p : Position) → next_op rom p ≡ ok none → Finished rom p
unfolding next_op
next_op-none rom (s, next) e = ground arith

pub run_sound :
    (fuel : ℕ) (rom : Rom) (p q : Position)
    → run fuel rom p ≡ some (ok q)
    → Moves rom p q × Finished rom q
unfolding run
run_sound zero rom p q h = cc
run_sound (suc fuel) rom (s, next) q h = elim (Outcome-cases (next_op rom (s, next))) [
  | inl (none, e) ↦
      let d : (s, next) ≡ q = ground arith in
      let done : Finished rom (s, next) = next_op-none rom (s, next) e in
      subst (λ x. Moves rom (s, next) x × Finished rom x) d (stop, done)
  | inl (some op, e) ↦ elim (Outcome-cases (state_transition rom s next op)) [
    | inl ((s', next'), f) ↦
        let t = state_transition-Transition rom s next op s' next' f in
        let (m, d) = run_sound fuel rom (s', next') q (ground arith) in (go op t m, d)
    | inr (inl (x, f)) ↦ absurd (ground arith)
    | inr (inr f) ↦ absurd (ground arith)
  ]
  | inr (inl (x, e)) ↦ absurd (ground arith)
  | inr (inr e) ↦ absurd (ground arith)
]
