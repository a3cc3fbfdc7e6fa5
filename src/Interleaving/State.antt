-- ===== src/Interleaving/State.antt =====
-- mocked_verifier.rs: the read-only tables and the state of the machine.
use starstream.Prelude.{ℕ, Bool, Option, List, Array}
use starstream.Interleaving.Effects.{
  ProcessId, Hash, InterfaceId, FunctionId, Value, Ref, WitLedgerEffect,
}

pub record Rom : Type 0 where
  pub process_table : Array Hash
  pub must_burn : Array Bool
  pub is_utxo : Array Bool
  pub is_token : Array Bool
  pub traces : Array (List WitLedgerEffect)

-- A `HashMap` is what it gives at each key. A handler stack has its top first; the code reads a
-- stack only through `entry(i).or_default()`, so a missing stack is an empty one.
pub record InterleavingState : Type 0 where
  pub id_curr : ProcessId
  pub id_prev : Option ProcessId
  pub entrypoint : ProcessId
  pub expected_input : Array (Option Ref)
  pub expected_resumer : Array (Option ProcessId)
  pub on_yield : Array Bool
  pub yield_to : Array (Option ProcessId)
  pub activations : Array (Option (Ref × ProcessId))
  pub inits : Array (Option (Ref × ProcessId))
  pub ref_counter : ℕ
  pub ref_store : Ref → Option (List Value)
  pub ref_sizes : Ref → Option ℕ
  pub ref_building : ProcessId → Option (Ref × ℕ × ℕ)
  pub initialized : Array Bool
  pub finalized : Array Bool
  pub did_burn : Array Bool
  pub must_enter : Array (Option FunctionId)
  pub must_exit : Array Bool
  pub ownership : Array (Option ProcessId)
  pub handler_stack : InterfaceId → List ProcessId
