-- ===== src/Interleaving/Run/Final.antt =====
-- The conditions at the end of a run, as a predicate.
use starstream.Prelude.{
  for_each, for_each-ok, ok-for_each, for_each-ne-panic, ℕ, ◌+◌, ◌<◌, ◌≡◌, ◌≢◌, refl, true, false,
  none, Option, some, length, any, ok, panic, from_list, arith, >>=-returns, read, refuse,
}
use starstream.Interleaving.Effects.{ProcessId, option_eq}
use starstream.Interleaving.Instance.{InterleavingInstance}
use starstream.Interleaving.State.{Rom, InterleavingState}
use starstream.Interleaving.Machine.Control.{is_some}
use starstream.Interleaving.Invariant.Sizes.{Lengths, RomSizes}
use starstream.Interleaving.Verify.{
  is_burn, burned_input, finalizes, burns_if_it_must, owner_matches, live_token_is_bound,
  is_constructed, final_checks, processes,
}

-- The state after the last round, as EFFECTS_REFERENCE.md asks for it.
pub record Accepted (inst : InterleavingInstance) (rom : Rom) (s : InterleavingState) : Type 0 where
  pub burned_inputs :
      (i : ProcessId)
      → i < inst.n_inputs
      → rom.must_burn.at i ≡ true
      → any is_burn (rom.traces.at i) ≡ true
  pub finalized : (p : ProcessId) → p < inst.n_inputs + inst.n_new → s.finalized.at p ≡ true
  pub burned :
      (i : ProcessId) → i < inst.n_inputs → rom.must_burn.at i ≡ true → s.did_burn.at i ≡ true
  pub in_coord : rom.is_utxo.at s.id_curr ≡ false
  pub owned :
      (p : ProcessId)
      → p < inst.n_inputs + inst.n_new
      → s.ownership.at p ≡ (from_list none inst.ownership_out).at p
  pub bound :
      (p : ProcessId)
      → p < inst.n_inputs + inst.n_new
      → rom.is_token.at p ≡ true
      → s.did_burn.at p ≡ false
      → is_some (s.ownership.at p) ≡ true
  pub constructed : (p : ProcessId) → p < processes inst → s.initialized.at p ≡ true

option_eq-eq : (a b : Option ℕ) → option_eq a b ≡ true → b ≡ a
option_eq-eq none none h = refl
option_eq-eq (some a) (some b) h = ground arith
option_eq-eq _ _ h = cc

option_eq_refl : (a : Option ℕ) → option_eq a a ≡ true
option_eq_refl none = refl
option_eq_refl (some a) = ground arith

-- The checks in the order of the source.
record Passes (inst : InterleavingInstance) (rom : Rom) (s : InterleavingState) : Type 0 where
  c1 : for_each inst.n_inputs 0 (burned_input rom) ≡ ok tt
  c2 : for_each (inst.n_inputs + inst.n_new) 0 (finalizes s) ≡ ok tt
  c3 : for_each inst.n_inputs 0 (burns_if_it_must rom s) ≡ ok tt
  c4 : rom.is_utxo.at s.id_curr ≡ false
  c5 :
      for_each (inst.n_inputs + inst.n_new) 0 (owner_matches (from_list none inst.ownership_out) s)
      ≡ ok tt
  c6 : for_each (inst.n_inputs + inst.n_new) 0 (live_token_is_bound rom s) ≡ ok tt
  c7 : for_each (processes inst) 0 (is_constructed s) ≡ ok tt

module _ (inst : InterleavingInstance) (rom : Rom) (s : InterleavingState) where
  final_checks-Passes : final_checks inst rom s ≡ ok tt → Passes inst rom s
  unfolding final_checks
  final_checks-Passes h =
      let (_, c1, h₁) = >>=-returns (for_each inst.n_inputs 0 (burned_input rom)) _ h in
      let (_, c2, h₂) = >>=-returns (for_each (inst.n_inputs + inst.n_new) 0 (finalizes s)) _ h₁ in
      let (_, c3, h₃) = >>=-returns (for_each inst.n_inputs 0 (burns_if_it_must rom s)) _ h₂ in
      let (utxo, r, h₄) = >>=-returns (read rom.is_utxo s.id_curr) _ h₃ in
      let (_, r', h₅) = >>=-returns (refuse utxo _) _ h₄ in
      let (_, c5, h₆) =
        >>=-returns
          (for_each (inst.n_inputs + inst.n_new) 0
            (owner_matches (from_list none inst.ownership_out) s))
          _ h₅ in
      let (_, c6, c7) =
        >>=-returns (for_each (inst.n_inputs + inst.n_new) 0 (live_token_is_bound rom s)) _ h₆ in
      record { c1 = c1; c2 = c2; c3 = c3; c4 = ground arith; c5 = c5; c6 = c6; c7 = c7 }

  pub final_checks-Accepted : final_checks inst rom s ≡ ok tt → Accepted inst rom s
  unfolding burned_input finalizes burns_if_it_must owner_matches live_token_is_bound is_constructed
  final_checks-Accepted h =
      let c = final_checks-Passes h in
      record {
        burned_inputs = λ i lt must. ground (arith, for_each-ok _ 0 _ c.c1 i);
        finalized = λ p lt. ground (arith, for_each-ok _ 0 _ c.c2 p);
        burned = λ i lt must. ground (arith, for_each-ok _ 0 _ c.c3 i);
        in_coord = c.c4;
        owned = λ p lt. ground (
          arith,
          for_each-ok _ 0 _ c.c5 p,
          option_eq-eq ((from_list none inst.ownership_out).at p) (s.ownership.at p),
        );
        bound = λ p lt token alive. ground (arith, for_each-ok _ 0 _ c.c6 p);
        constructed = λ p lt. ground (arith, for_each-ok _ 0 _ c.c7 p);
      }

-- Where the tables have the lengths of the transaction, nothing else is asked.
module _ (inst : InterleavingInstance) (rom : Rom) (s : InterleavingState)
    (v : Lengths (processes inst) (inst.n_inputs + inst.n_new) s)
    (t : RomSizes (processes inst) (inst.n_inputs + inst.n_new) rom)
    (burned : rom.must_burn.len ≡ inst.n_inputs)
    (owned : length inst.ownership_out ≡ inst.n_inputs + inst.n_new)
    (running : s.id_curr < processes inst) where
  pub Accepted-final_checks : Accepted inst rom s → final_checks inst rom s ≡ ok tt
  unfolding final_checks
  Accepted-final_checks a =
      rw
        (
          ok-for_each inst.n_inputs 0 (burned_input rom)
              (λ i _ lt. unfold burned_input in ground (arith, a.burned_inputs i)),
          ok-for_each (inst.n_inputs + inst.n_new) 0 (finalizes s)
              (λ p _ lt. unfold finalizes in ground (arith, a.finalized p, v)),
          ok-for_each inst.n_inputs 0 (burns_if_it_must rom s)
              (λ i _ lt. unfold burns_if_it_must in ground (arith, a.burned i, v)),
          ok-for_each (inst.n_inputs + inst.n_new) 0
              (owner_matches (from_list none inst.ownership_out) s)
              (λ p _ lt.
                unfold owner_matches in
                ground (arith, a.owned p, v, option_eq_refl (s.ownership.at p))),
          ok-for_each (inst.n_inputs + inst.n_new) 0 (live_token_is_bound rom s)
              (λ p _ lt. unfold live_token_is_bound in ground (arith, a.bound p, v)),
          ok-for_each (processes inst) 0 (is_constructed s)
              (λ p _ lt. unfold is_constructed in ground (arith, a.constructed p, v)),
        )
        (ground (arith, a.in_coord))

  pub final_checks-ne-panic : final_checks inst rom s ≢ panic
  unfolding final_checks
  final_checks-ne-panic h = ground (
    arith,
    for_each-ne-panic inst.n_inputs 0 (burned_input rom)
        (λ i _ lt e. unfold burned_input in ground arith),
    for_each-ne-panic (inst.n_inputs + inst.n_new) 0 (finalizes s)
        (λ p _ lt e. unfold finalizes in ground (arith, v)),
    for_each-ne-panic inst.n_inputs 0 (burns_if_it_must rom s)
        (λ i _ lt e. unfold burns_if_it_must in ground (arith, v)),
    for_each-ne-panic (inst.n_inputs + inst.n_new) 0
        (owner_matches (from_list none inst.ownership_out) s)
        (λ p _ lt e. unfold owner_matches in ground (arith, v)),
    for_each-ne-panic (inst.n_inputs + inst.n_new) 0 (live_token_is_bound rom s)
        (λ p _ lt e. unfold live_token_is_bound in ground (arith, v)),
    for_each-ne-panic (processes inst) 0 (is_constructed s)
        (λ p _ lt e. unfold is_constructed in ground (arith, v)),
  )
