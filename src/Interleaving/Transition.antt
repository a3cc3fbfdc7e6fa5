-- ===== src/Interleaving/Transition.antt =====
-- One round of the loop of `verify_interleaving_semantics`, as a relation.
use starstream.Prelude.{
  ℕ, ◌+◌, ◌<◌, ◌≡◌, ◌⊎◌, true, none, some, get_elem?, ok, inl, inr, Option-cases, Array, put, arith,
}
use starstream.Interleaving.Effects.{WitLedgerEffect, effect_eq-eq, effect_eq_refl}
use starstream.Interleaving.State.{Rom, InterleavingState}
use starstream.Interleaving.Machine.{dispatch, state_transition, is_enter, is_ref_push}
use starstream.Interleaving.Rules.{Step, dispatch-Step}
use starstream.Interleaving.Verify.{Position}

abbrev pub bumped : Array ℕ → ℕ → Array ℕ
bumped next i = put next i (next.at i + 1)

pub record Transition (rom : Rom) (s : InterleavingState) (next : Array ℕ) (op : WitLedgerEffect)
    (s' : InterleavingState) (next' : Array ℕ) : Type 0 where
  pub counted : s.id_curr < next.len
  pub traced : s.id_curr < rom.traces.len
  pub found : get_elem? (rom.traces.at s.id_curr) (next.at s.id_curr) ≡ some op
  pub allowed : (s.must_enter.at s.id_curr ≡ none) ⊎ (is_enter op ≡ true)
  pub building : (s.ref_building s.id_curr ≡ none) ⊎ (is_ref_push op ≡ true)
  pub bumps : next' ≡ bumped next s.id_curr
  pub steps : Step rom s op s'

pub state_transition-Transition :
    (rom : Rom) (s : InterleavingState) (next : Array ℕ) (op : WitLedgerEffect)
    (s' : InterleavingState) (next' : Array ℕ)
    → state_transition rom s next op ≡ ok (s', next')
    → Transition rom s next op s' next'
unfolding state_transition
state_transition-Transition rom s next op s' next' h =
    elim (Option-cases (get_elem? (rom.traces.at s.id_curr) (next.at s.id_curr))) [
      | inl e ↦ absurd (ground arith)
      | inr (got, e) ↦ record {
        counted = ground arith;
        traced = ground arith;
        found = ground (arith, effect_eq-eq got op);
        allowed = ground arith;
        building = ground arith;
        bumps = ground arith;
        steps = dispatch-Step rom s op s' (ground arith);
      }
    ]

-- The other way, where the machine accepts the step.
pub Transition-state_transition :
    (rom : Rom) (s : InterleavingState) (next : Array ℕ) (op : WitLedgerEffect)
    (s' : InterleavingState) (next' : Array ℕ)
    → Transition rom s next op s' next'
    → s.id_curr < s.must_enter.len
    → dispatch rom s op ≡ ok s'
    → state_transition rom s next op ≡ ok (s', next')
unfolding state_transition
Transition-state_transition rom s next op s' next' h lt e = ground (arith, effect_eq_refl op)

-- A sequence of rounds.
pub data Moves (rom : Rom) : Position → Position → Type 0 where
  stop : {p : Position} → Moves rom p p
  go :
      {s s' : InterleavingState} {next next' : Array ℕ} {q : Position} (op : WitLedgerEffect)
      → Transition rom s next op s' next'
      → Moves rom (s', next') q
      → Moves rom (s, next) q

-- The trace of the current process is used up.
abbrev pub Finished : Rom → Position → Type 0
Finished rom (s, next) = get_elem? (rom.traces.at s.id_curr) (next.at s.id_curr) ≡ none
