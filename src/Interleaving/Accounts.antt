-- ===== src/Interleaving/Accounts.antt =====
-- What an accepted transaction has burned, and who owns its tokens.
use starstream.Prelude.{
  ℕ, ◌+◌, ◌<◌, ◌≤◌, suc, zero, length, [], ◌∷◌, ◌≡◌, refl, true, false, Bool, Bool-cases, inl, inr,
  none, some, List, ok, from_list, arith,
}
use starstream.Interleaving.Effects.{ProcessId, WitLedgerEffect}
use starstream.Interleaving.Instance.{InterleavingInstance}
use starstream.Interleaving.State.{InterleavingState}
use starstream.Interleaving.Verify.{Position, verify_interleaving_semantics}
use starstream.Interleaving.Machine.Control.{is_some}
use starstream.Interleaving.Run.Keeps.{WellFormed, Moves-Inv, start-Started, start-Inv}
use starstream.Interleaving.Run.Verdict.{CompleteRun, verify_sound}

-- The state after the run of an accepted transaction.
pub record Settled (inst : InterleavingInstance) (q : InterleavingState) : Type 0 where
  -- The inputs without a continuation are those that burned.
  pub burned :
      (i : ProcessId) → i < inst.n_inputs → q.did_burn.at i ≡ (from_list false inst.must_burn).at i
  -- No new output and no coordination script burned.
  pub kept : (p : ProcessId) → inst.n_inputs ≤ p → q.did_burn.at p ≡ false
  -- The announced owners are the owners, and each is a UTXO that was constructed.
  pub owned :
      (token owner : ProcessId)
      → token < inst.n_inputs + inst.n_new
      → (from_list none inst.ownership_out).at token ≡ some owner
      → ((from_list false inst.is_utxo).at owner ≡ true) × (q.initialized.at owner ≡ true)
  -- A token that lives has an owner.
  pub bound :
      (token : ProcessId)
      → token < inst.n_inputs + inst.n_new
      → (from_list false inst.is_token).at token ≡ true
      → (from_list false inst.must_burn).at token ≡ false
      → is_some ((from_list none inst.ownership_out).at token) ≡ true

from_list-beyond : (xs : List Bool) (i : ℕ) → length xs ≤ i → (from_list false xs).at i ≡ false
from_list-beyond [] i h = refl
from_list-beyond (x ∷ xs) zero h = absurd (omega arith)
from_list-beyond (x ∷ xs) (suc i) h = from_list-beyond xs i (omega arith)

-- An accepted well-formed transaction has a complete run whose last state is settled: exactly the
-- inputs without a continuation burned, no other process did, the announced owners are constructed
-- UTXOs, and each token that lives has one.
pub verify-Settled :
    (inst : InterleavingInstance) (traces : List (List WitLedgerEffect))
    → WellFormed inst
    → verify_interleaving_semantics inst traces ≡ some (ok tt)
    → (s : InterleavingState) × (q : Position) × CompleteRun inst traces s q × Settled inst q.0
verify-Settled inst traces w h =
    let (s, (q, next), r) = verify_sound inst traces h in
    let started = start-Started inst traces s r.starts in
    let a = r.accepted in
    let v = Moves-Inv _ _ _ r.moves (start-Inv inst traces w s started) in
    (
      s,
      (q, next),
      r,
      record {
        burned = λ i lt. elim (Bool-cases ((from_list false inst.must_burn).at i)) [
          | inl must ↦ ground (arith, a.burned i lt must, must)
          | inr may ↦ ground (arith, v.roles.burned i, may)
        ];
        kept = λ p le.
            ground (arith, v.roles.burned p, from_list-beyond inst.must_burn p, started.burned);
        owned = λ token owner lt e. ground (arith, a.owned token lt, v.owners.owners token owner);
        bound = λ token lt is_token lives.
            ground (arith, a.owned token lt, a.bound token lt is_token, v.roles.burned token);
      },
    )
