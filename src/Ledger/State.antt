-- ===== src/Ledger/State.antt =====
-- lib.rs: the states of coroutines, transactions, and the ledger.
use starstream.Prelude.{
  ℕ, String, Bool, false, ◌&&◌, ◌==◌, Option, none, some, List, Outcome, if◌then◌else◌,
}
use starstream.Interleaving.Effects.{ProcessId, Hash, Value, WitLedgerEffect, values_eq}
use starstream.Interleaving.Instance.{InterleavingInstance, InterleavingError}

pub data CoroutineState : Type 0 where
  utxo : (storage : List Value) → CoroutineState
  token : (storage : List Value) → CoroutineState

abbrev pub storage : CoroutineState → List Value
storage (utxo vals) = vals
storage (token vals) = vals

abbrev pub state_kind : CoroutineState → String
state_kind (utxo _) = "utxo"
state_kind (token _) = "token"

abbrev pub state_eq : CoroutineState → CoroutineState → Bool
state_eq (utxo a) (utxo b) = values_eq a b
state_eq (token a) (token b) = values_eq a b
state_eq _ _ = false

-- The identity of an output: its contract, and its number among the outputs of the contract.
pub record UtxoId : Type 0 where
  pub contract_hash : Hash
  pub nonce : ℕ

abbrev pub utxo_id_eq : UtxoId → UtxoId → Bool
utxo_id_eq a b = a.contract_hash == b.contract_hash && a.nonce == b.nonce

-- The identity of a chain of states, by the transaction and the output that started it.
pub record CoroutineId : Type 0 where
  pub creation_tx_hash : Hash
  pub creation_output_index : ℕ

abbrev pub coroutine_id_eq : CoroutineId → CoroutineId → Bool
coroutine_id_eq a b =
    a.creation_tx_hash == b.creation_tx_hash && a.creation_output_index == b.creation_output_index

pub record NewOutput : Type 0 where
  pub state : CoroutineState
  pub contract_hash : Hash

-- `ownership_out` is a map from the number of an output to the number of another.
pub record TransactionBody : Type 0 where
  pub inputs : List UtxoId
  pub continuations : List (Option CoroutineState)
  pub new_outputs : List NewOutput
  pub ownership_out : ℕ → Option ℕ
  pub coordination_scripts_keys : List Hash
  pub entrypoint : ℕ

-- The proof of one process. The commitment to the trace is not read by the checker.
pub record ZkWasmProof : Type 0 where
  pub trace : List WitLedgerEffect

-- A folded proof is what the third-party verifier says of it for an instance: an error, or none.
pub data ZkTransactionProof : Type 0 where
  neo : (fold : InterleavingInstance → Option String) → ZkTransactionProof
  dummy : ZkTransactionProof

pub record TransactionWitness : Type 0 where
  pub spending_proofs : List ZkWasmProof
  pub new_output_proofs : List ZkWasmProof
  pub interleaving_proof : ZkTransactionProof
  pub coordination_scripts : List ZkWasmProof

pub record ProvenTransaction : Type 0 where
  pub body : TransactionBody
  pub witness : TransactionWitness

pub record UtxoEntry : Type 0 where
  pub state : CoroutineState
  pub contract_hash : Hash

pub record Ledger : Type 0 where
  pub utxos : UtxoId → Option UtxoEntry
  pub contract_counters : Hash → Option ℕ
  pub utxo_to_coroutine : UtxoId → Option CoroutineId
  pub ownership_registry : CoroutineId → Option CoroutineId

-- `Ledger::new`
abbrev pub empty : Ledger
empty = record {
  utxos = λ _. none;
  contract_counters = λ _. none;
  utxo_to_coroutine = λ _. none;
  ownership_registry = λ _. none;
}

pub data VerificationError : Type 0 where
  input_continuation_size_mismatch ownership_size_mismatch owner_has_no_stable_identity
        input_not_found :
      VerificationError
  interleaving_proof_error : InterleavingError → VerificationError
  fold_verification : String → VerificationError
  invalid_shape_token_storage : (actual expected : ℕ) → VerificationError
  live_token_must_be_bound_in_instance : (pid : ProcessId) → VerificationError
  invalid_state_kind_transition : (input_kind output_kind : String) → VerificationError

abbrev pub Verified : Type 0 → Type 0
Verified A = Outcome VerificationError A

-- `map.insert(k, v)` and `map.remove(k)`, for keys compared by `eq`.
module _ {ℓ κ} {K : Type ℓ} {V : Type κ} (eq : K → K → Bool) where
  abbrev pub insert_at : (K → Option V) → K → V → K → Option V
  insert_at m k v j = if eq k j then some v else m j

  abbrev pub remove_at : (K → Option V) → K → K → Option V
  remove_at m k j = if eq k j then none else m j
