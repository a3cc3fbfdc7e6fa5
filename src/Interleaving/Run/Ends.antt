-- ===== src/Interleaving/Run/Ends.antt =====
-- Each round uses up one host call of one trace, so the fuel lasts.
use starstream.Prelude.{
  get_elem?-lt_length, ℕ, zero, suc, ◌+◌, ◌-◌, ◌≤◌, ◌<◌, ◌≡◌, refl, none, some, List, [], ◌∷◌,
  length, ok, err, panic, Array, from_list, filled, arith, Option, Outcome-cases, inl, inr,
}
use starstream.Interleaving.Effects.{WitLedgerEffect}
use starstream.Interleaving.State.{Rom, InterleavingState}
use starstream.Interleaving.Machine.{state_transition}
use starstream.Interleaving.Transition.{Transition, state_transition-Transition, bumped}
use starstream.Interleaving.Verify.{
  Position, next_op, run, total_ops, rom_of, start, finish, final_checks, processes,
  verify_interleaving_semantics,
}
use starstream.Interleaving.Instance.{Checked, InterleavingInstance}

-- What is left of the first `n` traces.
left : ℕ → (ℕ → List WitLedgerEffect) → (ℕ → ℕ) → ℕ
left zero traces next = 0
left (suc n) traces next = (length (traces n) - next n) + left n traces next

module _ (traces : ℕ → List WitLedgerEffect) (next : Array ℕ) (i : ℕ) where
  left_above : (n : ℕ) → n ≤ i → left n traces (bumped next i).at ≡ left n traces next.at
  unfolding left
  left_above zero h = refl
  left_above (suc n) h = ground (arith, left_above n)

  left-bumped :
      (n : ℕ)
      → i < n
      → next.at i < length (traces i)
      → suc (left n traces (bumped next i).at) ≡ left n traces next.at
  unfolding left
  left-bumped zero h lt = elim h [ ]
  left-bumped (suc n) h lt = ground (arith, left-bumped n, left_above n)

-- What is left for a position.
pub rest : Rom → Position → ℕ
rest rom (s, next) = left rom.traces.len rom.traces.at next.at

pub rest-Transition :
    (rom : Rom) (s : InterleavingState) (next : Array ℕ) (op : WitLedgerEffect)
    (s' : InterleavingState) (next' : Array ℕ)
    → Transition rom s next op s' next'
    → suc (rest rom (s', next')) ≡ rest rom (s, next)
unfolding rest
rest-Transition rom s next op s' next' h = rw h.bumps (
    left-bumped rom.traces.at next s.id_curr rom.traces.len h.traced
      (get_elem?-lt_length _ _ h.found))

pub run_total :
    (fuel : ℕ) (rom : Rom) (p : Position)
    → rest rom p < fuel
    → (r : Checked Position) × (run fuel rom p ≡ some r)
unfolding run
run_total zero rom p h = elim h [ ]
run_total (suc fuel) rom (s, next) h = elim (Outcome-cases (next_op rom (s, next))) [
  | inl (none, e) ↦ (ok (s, next), rw (e, run))
  | inl (some op, e) ↦ elim (Outcome-cases (state_transition rom s next op)) [
    | inl ((s', next'), f) ↦
        let t = state_transition-Transition rom s next op s' next' f in
        let (r, g) =
          run_total fuel rom (s', next')
            (omega (arith, rest-Transition rom s next op s' next' t)) in
        (r, rw (e, f) g)
    | inr (inl (x, f)) ↦ (err x, rw (e, f))
    | inr (inr f) ↦ (panic, rw (e, f))
  ]
  | inr (inl (x, e)) ↦ (err x, rw e)
  | inr (inr e) ↦ (panic, rw e)
]

left_front :
    (n : ℕ) (traces : ℕ → List WitLedgerEffect)
    → left (suc n) traces (λ _. 0) ≡ length (traces 0) + left n (λ i. traces (suc i)) (λ _. 0)
unfolding left
left_front zero traces = omega arith
left_front (suc n) traces = omega (arith, left_front n traces)

left_total :
    (ts : List (List WitLedgerEffect))
    → left (length ts) (from_list [] ts).at (λ _. 0) ≡ total_ops ts
unfolding total_ops
left_total [] = unfold left in refl
left_total (t ∷ ts) =
    omega (arith, left_front (length ts) (from_list [] (t ∷ ts)).at, left_total ts)

pub rest_start :
    (inst : InterleavingInstance) (ts : List (List WitLedgerEffect)) (s : InterleavingState) (n : ℕ)
    → rest (rom_of inst ts) (s, filled n 0) ≡ total_ops ts
unfolding rest
rest_start inst ts s n = left_total ts

finish_total :
    (inst : InterleavingInstance) (rom : Rom) (o : Option (Checked Position))
    → (p : Checked Position) × (o ≡ some p)
    → (r : Checked (Unit {0})) × (finish inst rom o ≡ some r)
finish_total inst rom none (p, e) = cc
finish_total inst rom (some panic) h = (panic, refl)
finish_total inst rom (some (err e)) h = (err e, refl)
finish_total inst rom (some (ok (s, next))) h = (final_checks inst rom s, refl)

-- The checker ends on every instance and every witness: the fuel never runs out.
pub verify_total :
    (inst : InterleavingInstance) (traces : List (List WitLedgerEffect))
    → (r : Checked (Unit {0})) × (verify_interleaving_semantics inst traces ≡ some r)
unfolding verify_interleaving_semantics
verify_total inst traces = elim (Outcome-cases (start inst traces)) [
  | inl (s, e) ↦ rw e (
      finish_total inst (rom_of inst traces) _ (
        run_total (suc (total_ops traces)) (rom_of inst traces) (s, filled (processes inst) 0)
          (omega (arith, rest_start inst traces s (processes inst)))))
  | inr (inl (x, e)) ↦ (err x, rw e)
  | inr (inr e) ↦ (panic, rw e)
]
