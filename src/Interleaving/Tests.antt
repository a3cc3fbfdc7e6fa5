-- ===== src/Interleaving/Tests.antt =====
-- A transaction that spends one UTXO, and one that creates one.
mod Witnesses
use starstream.Prelude.{
  for_each, ℕ, zero, suc, ◌+◌, ◌<◌, ◌≡◌, refl, true, false, none, some, List, [], ◌∷◌, ok, arith,
  from_list, put,
}
use starstream.Interleaving.Effects.{
  ProcessId, Word, WitLedgerEffect, resume, yield, return, enter, new_ref, ref_push, effect_eq,
}
use starstream.Interleaving.Instance.{InterleavingInstance, check_shape, token_without_utxo}
use starstream.Interleaving.State.{Rom, InterleavingState}
use starstream.Interleaving.Machine.{dispatch, state_transition}
use starstream.Interleaving.Machine.Control
use starstream.Interleaving.Machine.Spawn
use starstream.Interleaving.Machine.Refs
use starstream.Interleaving.Machine.Ownership
use starstream.Interleaving.Verify
use starstream.Interleaving.Run.Keeps.{WellFormed, Started, start-Started}

abbrev pub word : Word
word = record { w0 = 5; w1 = 6; w2 = 7; w3 = 8 }

-- Process 0 is the UTXO spent, process 1 the coordination script.
abbrev pub payment : InterleavingInstance
payment = record {
  process_table = 100 ∷ 200 ∷ [];
  is_utxo = true ∷ false ∷ [];
  is_token = false ∷ false ∷ [];
  must_burn = false ∷ [];
  n_inputs = 1;
  n_new = 0;
  n_coords = 1;
  ownership_in = none ∷ [];
  ownership_out = none ∷ [];
  entrypoint = 1;
}

-- The script passes the reference 0, and expects the reference 1 from the UTXO.
abbrev pub script_calls : List WitLedgerEffect
script_calls = new_ref 1 0 ∷ ref_push word ∷ resume 0 9 0 1 (some 0) ∷ return ∷ []

abbrev pub utxo_calls : List WitLedgerEffect
utxo_calls = enter 9 ∷ new_ref 1 1 ∷ ref_push word ∷ yield 1 ∷ []

abbrev pub calls : List (List WitLedgerEffect)
calls = utxo_calls ∷ script_calls ∷ []

-- Opens the checker for the tests.
unfoldable pub checker : Unit {0}
unfolding Verify.verify_interleaving_semantics Verify.start check_shape token_without_utxo
    Verify.run Verify.next_op Verify.initial Verify.total_ops Verify.burned_input
    Verify.burns_if_it_must Verify.final_checks Verify.finalizes for_each Verify.is_constructed
    Verify.live_token_is_bound Verify.owner_matches state_transition effect_eq dispatch Refs.new_ref
    Refs.ref_push Refs.push_vals Refs.ref_get Refs.get_word Refs.get_slot Refs.ref_write
    Refs.write_vals Control.resume Control.enter Control.yield Control.return Control.activation
    Control.call_effect_handler Control.init Ownership.bind Ownership.burn Ownership.unbind
    Spawn.get_handler_for Spawn.install_handler Spawn.new_coord Spawn.new_token Spawn.new_utxo
    Spawn.program_hash Spawn.uninstall_handler
checker = tt

pub payment_accepted : Verify.verify_interleaving_semantics payment calls ≡ some (ok tt)
unfolding checker
payment_accepted = refl

abbrev pub payment_rom : Rom
payment_rom = Verify.rom_of payment calls

-- The UTXO flag of a process that is none is false.
utxos_first : (p : ProcessId) → payment_rom.is_utxo.at p ≡ true → p < 1
utxos_first zero h = omega arith
utxos_first (suc zero) h = cc
utxos_first (suc (suc p)) h = cc

no_owner :
    (token owner : ProcessId) → (from_list none payment.ownership_in).at token ≡ some owner → ⊥
no_owner zero owner h = cc
no_owner (suc token) owner h = cc

pub payment-WellFormed : WellFormed payment
payment-WellFormed = record {
  table = refl;
  utxos_first = utxos_first;
  owners = λ token owner h. absurd (no_owner token owner h);
}

-- The state in which the script starts.
abbrev pub payment_start : InterleavingState
payment_start =
    Verify.initial payment (Verify.processes payment) (put (Verify.inputs_only payment) 1 true)

pub payment_starts : Verify.start payment calls ≡ ok payment_start
unfolding checker
payment_starts = refl

pub payment-Started : Started payment calls payment_start
payment-Started = start-Started payment calls payment_start payment_starts

-- A transaction of a new UTXO, process 0, and a script, process 1.
abbrev pub minting : InterleavingInstance
minting = record payment { must_burn = []; n_inputs = 0; n_new = 1 }

abbrev pub minting_rom : Rom
minting_rom = Verify.rom_of minting calls

minting_utxos_first : (p : ProcessId) → minting_rom.is_utxo.at p ≡ true → p < 1
minting_utxos_first zero h = omega arith
minting_utxos_first (suc zero) h = cc
minting_utxos_first (suc (suc p)) h = cc

pub minting-WellFormed : WellFormed minting
minting-WellFormed = record {
  table = refl;
  utxos_first = minting_utxos_first;
  owners = λ token owner h. absurd (no_owner token owner h);
}

abbrev pub minting_start : InterleavingState
minting_start =
    Verify.initial minting (Verify.processes minting) (put (Verify.inputs_only minting) 1 true)

minting_starts : Verify.start minting calls ≡ ok minting_start
unfolding checker
minting_starts = refl

pub minting-Started : Started minting calls minting_start
minting-Started = start-Started minting calls minting_start minting_starts
