-- ===== src/Ledger/Proofs.antt =====
-- lib.rs: the verification of the proofs of a transaction.
use starstream.Prelude.{
  ◌+◌, String, Bool, false, not, ◌&&◌, Option, none, some, List, ok, err, panic, ◌>>=◌, ◌>>◌,
  refuse, from_list, read, get?, for_each, when,
}
use starstream.Interleaving.Effects.{ProcessId, Hash, WitLedgerEffect}
use starstream.Interleaving.Instance.{InterleavingInstance, Checked}
use starstream.Interleaving.Machine.Control.{is_some}
use starstream.Interleaving.Verify.{verify_interleaving_semantics}
use starstream.Ledger.State.{
  CoroutineState, ZkWasmProof, ZkTransactionProof, neo, dummy, Verified, interleaving_proof_error,
  fold_verification, live_token_must_be_bound_in_instance,
}

-- `ZkWasmProof::verify` accepts each proof.
abbrev pub verify_wasm :
    ZkWasmProof → Option CoroutineState → Hash → Option CoroutineState → Verified (Unit {0})
verify_wasm proof input key output = ok tt

-- `must_burn.get(pid).copied().unwrap_or(false)`
abbrev pub burned_input_at : InterleavingInstance → ProcessId → Bool
burned_input_at inst pid = or_false (get? (from_list false inst.must_burn) pid)
  where
    or_false : Option Bool → Bool
    or_false none = false
    or_false (some b) = b

unfoldable pub token_is_bound : InterleavingInstance → ProcessId → Verified (Unit {0})
token_is_bound inst pid = do
  is_token ← read (from_list false inst.is_token) pid
  let bound = do
    owner ← read (from_list none inst.ownership_out) pid
    refuse (not (is_some owner)) (live_token_must_be_bound_in_instance pid)
  when (is_token && not (burned_input_at inst pid)) bound

unfoldable pub verify_live_tokens_bound_in_instance : InterleavingInstance → Verified (Unit {0})
verify_live_tokens_bound_in_instance inst =
    for_each (inst.n_inputs + inst.n_new) 0 (token_is_bound inst)

-- The fold of the proof, for the variant that has one.
abbrev pub verify_fold : ZkTransactionProof → InterleavingInstance → Verified (Unit {0})
verify_fold dummy inst = ok tt
verify_fold (neo fold) inst = said (fold inst)
  where
    said : Option String → Verified (Unit {0})
    said none = ok tt
    said (some reason) = err (fold_verification reason)

-- The checker's verdict among the errors of the ledger; it always has one.
abbrev pub verdict : Option (Checked (Unit {0})) → Verified (Unit {0})
verdict none = panic
verdict (some panic) = panic
verdict (some (err e)) = err (interleaving_proof_error e)
verdict (some (ok _)) = ok tt

unfoldable pub verify_proof :
    ZkTransactionProof → InterleavingInstance → List (List WitLedgerEffect) → Verified (Unit {0})
verify_proof proof inst traces = do
  verify_fold proof inst
  verify_live_tokens_bound_in_instance inst
  verdict (verify_interleaving_semantics inst traces)
