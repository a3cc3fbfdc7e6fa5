-- ===== src/Ledger/Artifacts.antt =====
-- lib.rs, `interleaving_artifacts` and what it calls: the instance and the witness that the ledger
-- makes of a transaction.
use starstream.Prelude.{
  assert, unwrap, ℕ, suc, ◌+◌, Bool, true, false, not, ltb, ◌==◌, Option, none, some, List, [], ◌∷◌,
  ◌++◌, map, length, ok, panic, ◌>>=◌, ◌>>◌, refuse, ok_or, replicate, traverse, tabulate,
}
use starstream.Interleaving.Effects.{ProcessId, Hash, WitLedgerEffect}
use starstream.Interleaving.Instance.{InterleavingInstance}
use starstream.Interleaving.Machine.Control.{is_some}
use starstream.Ledger.State.{
  CoroutineState, utxo, token, state_kind, UtxoId, CoroutineId, coroutine_id_eq, NewOutput,
  TransactionBody, ZkWasmProof, TransactionWitness, UtxoEntry, Ledger, Verified,
  input_continuation_size_mismatch, input_not_found, invalid_shape_token_storage,
  invalid_state_kind_transition, insert_at,
}
use starstream.Ledger.Proofs.{verify_wasm, verify_proof}

abbrev pub token_storage_size : ℕ
token_storage_size = 3

unfoldable pub validate_token_state : CoroutineState → Verified (Unit {0})
validate_token_state (token storage) =
    refuse (not (length storage == token_storage_size))
      (invalid_shape_token_storage (length storage) token_storage_size)
validate_token_state (utxo storage) = ok tt

abbrev pub is_token : CoroutineState → Bool
is_token (token _) = true
is_token (utxo _) = false

-- Whether two states are of one variant.
abbrev pub same_kind : CoroutineState → CoroutineState → Bool
same_kind (utxo _) (utxo _) = true
same_kind (token _) (token _) = true
same_kind _ _ = false

-- The first loop of `input_ownership_for_inputs`, from the input `pid` on.
abbrev pub coroutine_to_pid :
    Ledger
    → ProcessId
    → List UtxoId
    → (CoroutineId → Option ProcessId)
    → CoroutineId
    → Option ProcessId
coroutine_to_pid l pid [] m = m
coroutine_to_pid l pid (id ∷ ids) m =
    coroutine_to_pid l (suc pid) ids (note (l.utxo_to_coroutine id))
  where
    note : Option CoroutineId → CoroutineId → Option ProcessId
    note none = m
    note (some cid) = insert_at coroutine_id_eq m cid pid

-- The body of the second loop: the owner of one input among the inputs.
abbrev pub owner_of : Ledger → (CoroutineId → Option ProcessId) → UtxoId → Option ProcessId
owner_of l pids id = by_token (l.utxo_to_coroutine id)
  where
    by_owner : Option CoroutineId → Option ProcessId
    by_owner none = none
    by_owner (some owner_cid) = pids owner_cid

    by_token : Option CoroutineId → Option ProcessId
    by_token none = none
    by_token (some token_cid) = by_owner (l.ownership_registry token_cid)

abbrev pub input_ownership_for_inputs : Ledger → List UtxoId → List (Option ProcessId)
input_ownership_for_inputs l inputs =
    map (owner_of l (coroutine_to_pid l 0 inputs (λ _. none))) inputs

-- The continuation of an input with the state `before`.
unfoldable pub check_continuation : CoroutineState → Option CoroutineState → Verified (Unit {0})
check_continuation before none = ok tt
check_continuation before (some cont) = do
  validate_token_state cont
  refuse (not (same_kind before cont))
      (invalid_state_kind_transition (state_kind before) (state_kind cont))

-- The body of the loop over the inputs.
unfoldable pub check_input :
    Ledger → UtxoId → ZkWasmProof → Option CoroutineState → Verified (Unit {0})
check_input l id proof cont = do
  entry ← ok_or (l.utxos id) input_not_found
  validate_token_state entry.state
  check_continuation entry.state cont
  verify_wasm proof (some entry.state) entry.contract_hash cont

-- The loop over the inputs with their proofs and continuations.
unfoldable pub check_inputs :
    Ledger → List UtxoId → List ZkWasmProof → List (Option CoroutineState) → Verified (Unit {0})
check_inputs l (id ∷ ids) (proof ∷ proofs) (cont ∷ conts) =
    check_input l id proof cont >> check_inputs l ids proofs conts
check_inputs l (id ∷ ids) (proof ∷ proofs) [] = panic
check_inputs l _ _ conts = ok tt

unfoldable pub check_outputs : List ZkWasmProof → List NewOutput → Verified (Unit {0})
check_outputs (proof ∷ proofs) (entry ∷ entries) = do
  validate_token_state entry.state
  verify_wasm proof none entry.contract_hash (some entry.state)
  check_outputs proofs entries
check_outputs _ _ = ok tt

unfoldable pub check_scripts : List ZkWasmProof → List Hash → Verified (Unit {0})
check_scripts (proof ∷ proofs) (key ∷ keys) =
    verify_wasm proof none key none >> check_scripts proofs keys
check_scripts _ _ = ok tt

-- `self.utxos[input]`
abbrev pub entry_of : Ledger → UtxoId → Verified UtxoEntry
entry_of l id = unwrap (l.utxos id)

abbrev pub no_continuation : Option CoroutineState → Bool
no_continuation cont = not (is_some cont)

-- The instance, from the entries of the inputs.
abbrev pub instance_of :
    Ledger → TransactionBody → TransactionWitness → List UtxoEntry → InterleavingInstance
instance_of l body witness entries = record {
  process_table =
      map (λ e. e.contract_hash) entries
      ++ (map (λ o. o.contract_hash) body.new_outputs ++ body.coordination_scripts_keys);
  is_utxo = tabulate (n_inputs + n_new + n_coords) 0 (λ pid. ltb pid (n_inputs + n_new));
  is_token =
      map (λ e. is_token e.state) entries
      ++ (map (λ o. is_token o.state) body.new_outputs ++ replicate n_coords false);
  must_burn = map no_continuation body.continuations;
  n_inputs = n_inputs;
  n_new = n_new;
  n_coords = n_coords;
  ownership_in = input_ownership_for_inputs l body.inputs ++ replicate n_new none;
  ownership_out =
      tabulate (length witness.spending_proofs + length witness.new_output_proofs) 0
        body.ownership_out;
  entrypoint = body.entrypoint;
}
  where
    n_inputs : ℕ
    n_inputs = length body.inputs

    n_new : ℕ
    n_new = length body.new_outputs

    n_coords : ℕ
    n_coords = length body.coordination_scripts_keys

abbrev pub traces_of : TransactionWitness → List (List WitLedgerEffect)
traces_of witness =
    map (λ p. p.trace) witness.spending_proofs
    ++ (map (λ p. p.trace) witness.new_output_proofs
        ++ map (λ p. p.trace) witness.coordination_scripts)

unfoldable pub interleaving_artifacts :
    Ledger
    → TransactionBody
    → TransactionWitness
    → Verified (InterleavingInstance × List (List WitLedgerEffect))
interleaving_artifacts l body witness = do
  assert (length witness.spending_proofs == length body.inputs)
  refuse (not (length body.continuations == length body.inputs)) input_continuation_size_mismatch
  check_inputs l body.inputs witness.spending_proofs body.continuations
  check_outputs witness.new_output_proofs body.new_outputs
  check_scripts witness.coordination_scripts body.coordination_scripts_keys
  entries ← traverse (entry_of l) body.inputs
  ok (instance_of l body witness entries, traces_of witness)

unfoldable pub verify_witness : Ledger → TransactionBody → TransactionWitness → Verified (Unit {0})
verify_witness l body witness = do
  (inst, traces) ← interleaving_artifacts l body witness
  verify_proof witness.interleaving_proof inst traces
