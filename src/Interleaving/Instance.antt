-- ===== src/Interleaving/Instance.antt =====
-- transaction_effects/instance.rs, and the errors of mocked_verifier.rs: the public instance of a
-- transaction and the check of its shape.
use starstream.Prelude.{
  ℕ, ◌+◌, String, Bool, false, not, ◌&&◌, ◌||◌, leb, ◌==◌, Option, List, ◌∷◌, length, Outcome, ok,
  ◌>>◌, refuse,
}
use starstream.Interleaving.Effects.{ProcessId, Hash, InterfaceId, FunctionId, Value, Ref}

-- The fields of the source's variants, in their order.
pub data InterleavingError : Type 0 where
  shape : String → InterleavingError
  bad_pid : ProcessId → InterleavingError
  self_resume : ProcessId → InterleavingError
  utxo_resumes_utxo : (caller target : ProcessId) → InterleavingError
  target_not_initialized : ProcessId → InterleavingError
  resume_claim_mismatch : (target : ProcessId) (expected got : Ref) → InterleavingError
  yield_claim_mismatch :
      (id_prev : Option ProcessId) (expected got : List Value) → InterleavingError
  resumer_mismatch : (target expected got : ProcessId) → InterleavingError
  program_hash_mismatch : (target : ProcessId) (expected got : Hash) → InterleavingError
  coord_only : ProcessId → InterleavingError
  utxo_only : ProcessId → InterleavingError
  installed_handler_is_not_current :
      (interface_id : InterfaceId) (pid : ProcessId) → InterleavingError
  handler_not_found : (interface_id : InterfaceId) (pid : ProcessId) → InterleavingError
  handler_get_mismatch :
      (interface_id : InterfaceId) (expected : Option ProcessId) (got : ProcessId)
      → InterleavingError
  token_already_owned : (token : ProcessId) (owner : Option ProcessId) → InterleavingError
  owner_not_utxo : ProcessId → InterleavingError
  unbind_not_owner :
      (token : ProcessId) (owner : Option ProcessId) (caller : ProcessId) → InterleavingError
  yield_with_no_parent : (pid : ProcessId) → InterleavingError
  utxo_not_finalized : ProcessId → InterleavingError
  utxo_should_burn : ProcessId → InterleavingError
  utxo_should_not_burn : ProcessId → InterleavingError
  finished_in_utxo : ProcessId → InterleavingError
  burned_input_no_burn : (pid : ProcessId) → InterleavingError
  ownership_out_mismatch : (pid : ProcessId) (expected got : Option ProcessId) → InterleavingError
  live_token_must_be_bound : (pid : ProcessId) → InterleavingError
  process_not_initialized : (pid : ProcessId) → InterleavingError
  reentrant_resume : ProcessId → InterleavingError
  ref_not_found : Ref → InterleavingError
  ref_push_not_building : ProcessId → InterleavingError
  building_ref_but_called_other : ProcessId → InterleavingError
  ref_push_out_of_bounds : (pid : ProcessId) (size : ℕ) → InterleavingError
  ref_initialization_mismatch : (got expected : Ref) → InterleavingError
  must_enter_pending : (pid : ProcessId) (expected : FunctionId) → InterleavingError
  enter_mismatch : (pid : ProcessId) (expected got : FunctionId) → InterleavingError

abbrev pub Checked : Type 0 → Type 0
Checked A = Outcome InterleavingError A

-- The commitments and the input states, which the checker does not read, are left out.
pub record InterleavingInstance : Type 0 where
  pub process_table : List Hash
  pub is_utxo : List Bool
  pub is_token : List Bool
  pub must_burn : List Bool
  pub n_inputs : ℕ
  pub n_new : ℕ
  pub n_coords : ℕ
  pub ownership_in : List (Option ProcessId)
  pub ownership_out : List (Option ProcessId)
  pub entrypoint : ProcessId

-- `is_token.iter().zip(is_utxo.iter()).any(|(is_token, is_utxo)| *is_token && !*is_utxo)`
unfoldable pub token_without_utxo : List Bool → List Bool → Bool
token_without_utxo (t ∷ ts) (u ∷ us) = t && not u || token_without_utxo ts us
token_without_utxo _ _ = false

unfoldable pub check_shape : InterleavingInstance → Checked (Unit {0})
check_shape inst = do
  let n = length inst.process_table
  refuse (not (length inst.is_utxo == n)) (shape "is_utxo len != process_table len")
  refuse (not (length inst.is_token == n)) (shape "is_token len != process_table len")
  refuse (token_without_utxo inst.is_token inst.is_utxo)
      (shape "is_token implies is_utxo for every process")
  refuse
      (not (length inst.ownership_in == inst.n_inputs + inst.n_new)
        || not (length inst.ownership_out == inst.n_inputs + inst.n_new))
      (shape "ownership_* len != self.n_inputs len + self.n_new len")
  refuse (leb n inst.entrypoint) (bad_pid inst.entrypoint)
  refuse (not (length inst.must_burn == inst.n_inputs)) (shape "burned len != n_inputs")
  ok tt
