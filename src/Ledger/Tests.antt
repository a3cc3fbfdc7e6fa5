-- ===== src/Ledger/Tests.antt =====
-- Two transactions that create a UTXO each, and one that spends the first.
mod Witnesses
use starstream.Prelude.{
  ℕ, zero, suc, ◌≡◌, refl, true, false, none, some, Option, List, [], ◌∷◌, ok, for_each,
}
use starstream.Interleaving.Effects.{
  Word, WitLedgerEffect, resume, yield, return, enter, new_ref, ref_push, new_utxo, effect_eq,
}
use starstream.Interleaving.Instance.{check_shape, token_without_utxo}
use starstream.Interleaving.Machine.{dispatch, state_transition}
use starstream.Interleaving.Machine.Control
use starstream.Interleaving.Machine.Spawn
use starstream.Interleaving.Machine.Refs
use starstream.Interleaving.Verify
use starstream.Ledger.State.{
  CoroutineState, utxo, UtxoId, NewOutput, TransactionBody, ZkWasmProof, dummy, TransactionWitness,
  ProvenTransaction, Ledger, Verified, empty,
}
use starstream.Ledger.Proofs
use starstream.Ledger.Artifacts
use starstream.Ledger.Apply

abbrev word : Word
word = record { w0 = 5; w1 = 6; w2 = 7; w3 = 8 }

abbrev proof : List WitLedgerEffect → ZkWasmProof
proof calls = record { trace = calls }

-- A script creates a UTXO of the contract 100 and runs it to its first yield.
abbrev pub output : NewOutput
output = record { state = utxo (1 ∷ []); contract_hash = 100 }

abbrev pub mint : ProvenTransaction
mint = record {
  body = record {
    inputs = [];
    continuations = [];
    new_outputs = output ∷ [];
    ownership_out = λ _. none;
    coordination_scripts_keys = 200 ∷ [];
    entrypoint = 1;
  };
  witness = record {
    spending_proofs = [];
    new_output_proofs = proof (enter 9 ∷ new_ref 1 1 ∷ ref_push word ∷ yield 1 ∷ []) ∷ [];
    interleaving_proof = dummy;
    coordination_scripts =
        proof
          (new_ref 1 0 ∷ ref_push word ∷ new_utxo 100 0 0 ∷ resume 0 9 0 1 (some 0) ∷ return ∷ [])
        ∷ [];
  };
}

abbrev pub first : UtxoId
first = record { contract_hash = 100; nonce = 0 }

abbrev pub second : UtxoId
second = record { contract_hash = 100; nonce = 1 }

-- The first UTXO goes on with another state.
abbrev pub pay : ProvenTransaction
pay = record {
  body = record {
    inputs = first ∷ [];
    continuations = some (utxo (2 ∷ [])) ∷ [];
    new_outputs = [];
    ownership_out = λ _. none;
    coordination_scripts_keys = 200 ∷ [];
    entrypoint = 1;
  };
  witness = record {
    spending_proofs = proof (enter 9 ∷ new_ref 1 1 ∷ ref_push word ∷ yield 1 ∷ []) ∷ [];
    new_output_proofs = [];
    interleaving_proof = dummy;
    coordination_scripts =
        proof (new_ref 1 0 ∷ ref_push word ∷ resume 0 9 0 1 (some 0) ∷ return ∷ []) ∷ [];
  };
}

-- Both UTXOs go on with another state.
abbrev pub pay_both : ProvenTransaction
pay_both = record {
  body = record {
    inputs = first ∷ second ∷ [];
    continuations = some (utxo (2 ∷ [])) ∷ some (utxo (3 ∷ [])) ∷ [];
    new_outputs = [];
    ownership_out = λ _. none;
    coordination_scripts_keys = 200 ∷ [];
    entrypoint = 2;
  };
  witness = record {
    spending_proofs =
        proof (enter 9 ∷ new_ref 1 1 ∷ ref_push word ∷ yield 1 ∷ [])
        ∷ proof (enter 9 ∷ new_ref 1 2 ∷ ref_push word ∷ yield 2 ∷ [])
        ∷ [];
    new_output_proofs = [];
    interleaving_proof = dummy;
    coordination_scripts =
        proof (
          new_ref 1 0
          ∷ ref_push word
          ∷ resume 0 9 0 1 (some 0)
          ∷ resume 1 9 0 2 (some 1)
          ∷ return
          ∷ [])
        ∷ [];
  };
}

abbrev pub after : Ledger → ProvenTransaction → Ledger
after l tx = applied (Apply.apply_transaction l tx)
  where
    applied : Verified Ledger → Ledger
    applied (ok l') = l'
    applied _ = l

abbrev pub minted : Ledger
minted = after empty mint

abbrev pub minted_twice : Ledger
minted_twice = after minted mint

abbrev pub paid : Ledger
paid = after minted_twice pay

abbrev pub paid_both : Ledger
paid_both = after minted_twice pay_both

-- Opens the ledger for the tests.
unfoldable pub opened : Unit {0}
unfolding Verify.verify_interleaving_semantics Verify.start check_shape token_without_utxo
    Verify.run Verify.next_op Verify.initial Verify.total_ops Verify.burned_input
    Verify.burns_if_it_must Verify.final_checks Verify.finalizes for_each Verify.is_constructed
    Verify.live_token_is_bound Verify.owner_matches state_transition effect_eq dispatch Refs.new_ref
    Refs.ref_push Refs.push_vals Control.resume Control.enter Control.yield Control.return
    Spawn.new_utxo Proofs.token_is_bound Proofs.verify_live_tokens_bound_in_instance
    Proofs.verify_proof Artifacts.validate_token_state Artifacts.check_continuation
    Artifacts.check_input Artifacts.check_inputs Artifacts.check_outputs Artifacts.check_scripts
    Artifacts.interleaving_artifacts Artifacts.verify_witness Apply.allocate Apply.input_coroutines
    Apply.continue_input Apply.continue_inputs Apply.create_outputs Apply.set_owner Apply.set_owners
    Apply.spend Apply.spend_inputs Apply.apply_transaction
opened = tt

pub mint_applied : Apply.apply_transaction empty mint ≡ ok minted
unfolding opened
mint_applied = refl

pub mint_applied_twice : Apply.apply_transaction minted mint ≡ ok minted_twice
unfolding opened
mint_applied_twice = refl

pub pay_applied : Apply.apply_transaction minted_twice pay ≡ ok paid
unfolding opened
pay_applied = refl

pub pay_both_applied : Apply.apply_transaction minted_twice pay_both ≡ ok paid_both
unfolding opened
pay_both_applied = refl
