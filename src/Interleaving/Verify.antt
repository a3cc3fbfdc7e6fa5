-- ===== src/Interleaving/Verify.antt =====
-- mocked_verifier.rs, `verify_interleaving_semantics`: the run over the traces, and the conditions
-- on the state where it ends.
use starstream.Prelude.{
  for_each, when, ℕ, zero, suc, ◌+◌, Bool, true, false, not, ◌&&◌, ltb, ◌==◌, Option, none, some,
  List, [], ◌∷◌, length, get_elem?, any, ok, err, panic, ◌>>=◌, ◌>>◌, refuse, Array, filled,
  from_list, read, write,
}
use starstream.Interleaving.Effects.{ProcessId, WitLedgerEffect, option_eq}
use starstream.Interleaving.Instance.{
  InterleavingInstance, Checked, check_shape, shape, utxo_not_finalized, utxo_should_burn,
  finished_in_utxo, burned_input_no_burn, ownership_out_mismatch, live_token_must_be_bound,
  process_not_initialized,
}
use starstream.Interleaving.State.{Rom, InterleavingState}
use starstream.Interleaving.Machine.{state_transition}
use starstream.Interleaving.Machine.Control.{is_some, and_read}

-- The state of the machine and the counters of the traces.
abbrev pub Position : Type 0
Position = InterleavingState × Array ℕ

-- What one round of the loop finds: the next host call of the current process, if there is one.
unfoldable pub next_op : Rom → Position → Checked (Option WitLedgerEffect)
next_op rom (s, next) = do
  c ← read next s.id_curr
  trace ← read rom.traces s.id_curr
  ok (get_elem? trace c)

-- The rest of the loop, `again`, after an accepted host call.
abbrev pub advance :
    (Position → Option (Checked Position)) → Checked Position → Option (Checked Position)
advance again (ok p) = again p
advance again (err e) = some (err e)
advance again panic = some panic

-- The body of the loop on what it found.
abbrev pub round :
    (Position → Option (Checked Position))
    → Rom
    → Position
    → Checked (Option WitLedgerEffect)
    → Option (Checked Position)
round again rom (s, next) panic = some panic
round again rom (s, next) (err e) = some (err e)
round again rom (s, next) (ok none) = some (ok (s, next))
round again rom (s, next) (ok (some op)) = advance again (state_transition rom s next op)

-- `none`: the fuel ran out.
unfoldable pub run : ℕ → Rom → Position → Option (Checked Position)
run zero rom p = none
run (suc fuel) rom p = let again = run fuel rom in round again rom p (next_op rom p)

abbrev pub is_burn : WitLedgerEffect → Bool
is_burn WitLedgerEffect.burn = true
is_burn _ = false

-- The conditions, for one process each, in the source's order.
unfoldable pub burned_input : Rom → ProcessId → Checked (Unit {0})
burned_input rom i = do
  must ← read rom.must_burn i
  let burns = do
    trace ← read rom.traces i
    refuse (not (any is_burn trace)) (burned_input_no_burn i)
  when must burns

unfoldable pub finalizes : InterleavingState → ProcessId → Checked (Unit {0})
finalizes s pid = do done ← read s.finalized pid; refuse (not done) (utxo_not_finalized pid)

unfoldable pub burns_if_it_must : Rom → InterleavingState → ProcessId → Checked (Unit {0})
burns_if_it_must rom s pid = do
  must ← read rom.must_burn pid
  burned ← and_read must s.did_burn pid
  refuse (must && not burned) (utxo_should_burn pid)

unfoldable pub owner_matches :
    Array (Option ProcessId) → InterleavingState → ProcessId → Checked (Unit {0})
owner_matches ownership_out s pid = do
  expected ← read ownership_out pid
  got ← read s.ownership pid
  refuse (not (option_eq expected got)) (ownership_out_mismatch pid expected got)

unfoldable pub live_token_is_bound : Rom → InterleavingState → ProcessId → Checked (Unit {0})
live_token_is_bound rom s pid = do
  token ← read rom.is_token pid
  burned ← and_read token s.did_burn pid
  let bound = do
    owner ← read s.ownership pid
    refuse (not (is_some owner)) (live_token_must_be_bound pid)
  when (token && not burned) bound

unfoldable pub is_constructed : InterleavingState → ProcessId → Checked (Unit {0})
is_constructed s pid = do
  ready ← read s.initialized pid
  refuse (not ready) (process_not_initialized pid)

unfoldable pub final_checks : InterleavingInstance → Rom → InterleavingState → Checked (Unit {0})
final_checks inst rom s = do
  let utxos = inst.n_inputs + inst.n_new
  for_each inst.n_inputs 0 (burned_input rom)
  for_each utxos 0 (finalizes s)
  for_each inst.n_inputs 0 (burns_if_it_must rom s)
  utxo ← read rom.is_utxo s.id_curr
  refuse utxo (finished_in_utxo s.id_curr)
  for_each utxos 0 (owner_matches (from_list none inst.ownership_out) s)
  for_each utxos 0 (live_token_is_bound rom s)
  for_each (utxos + inst.n_coords) 0 (is_constructed s)

abbrev pub rom_of : InterleavingInstance → List (List WitLedgerEffect) → Rom
rom_of inst traces = record {
  process_table = from_list 0 inst.process_table;
  must_burn = from_list false inst.must_burn;
  is_utxo = from_list false inst.is_utxo;
  is_token = from_list false inst.is_token;
  traces = from_list [] traces;
}

abbrev pub processes : InterleavingInstance → ℕ
processes inst = inst.n_inputs + inst.n_new + inst.n_coords

-- Inputs exist already, so they start initialized.
abbrev pub inputs_only : InterleavingInstance → Array Bool
inputs_only inst = record { len = processes inst; at = λ pid. ltb pid inst.n_inputs }

unfoldable pub initial : InterleavingInstance → (n : ℕ) → Array Bool → InterleavingState
initial inst n initialized = record {
  id_curr = inst.entrypoint;
  id_prev = none;
  entrypoint = inst.entrypoint;
  expected_input = filled n none;
  expected_resumer = filled n none;
  on_yield = filled n true;
  yield_to = filled n none;
  activations = filled n none;
  inits = filled n none;
  ref_counter = 0;
  ref_store = λ _. none;
  ref_sizes = λ _. none;
  ref_building = λ _. none;
  initialized = initialized;
  finalized = filled n false;
  did_burn = filled n false;
  must_enter = filled n none;
  must_exit = filled n false;
  ownership = from_list none inst.ownership_in;
  handler_stack = λ _. [];
}

-- The length of all the traces.
unfoldable pub total_ops : List (List WitLedgerEffect) → ℕ
total_ops [] = 0
total_ops (t ∷ ts) = length t + total_ops ts

-- What follows the run.
abbrev pub finish :
    InterleavingInstance → Rom → Option (Checked Position) → Option (Checked (Unit {0}))
finish inst rom none = none
finish inst rom (some panic) = some panic
finish inst rom (some (err e)) = some (err e)
finish inst rom (some (ok (s, next))) = some (final_checks inst rom s)

-- The checks that come before the run: the shape, the number of traces, and the entrypoint.
unfoldable pub start :
    InterleavingInstance → List (List WitLedgerEffect) → Checked InterleavingState
start inst traces = do
  check_shape inst
  let n = processes inst
  refuse (not (length traces == n)) (shape "witness traces len != process_table len")
  initialized ← write (inputs_only inst) inst.entrypoint true
  ok (initial inst n initialized)

abbrev pub verify_from :
    InterleavingInstance
    → List (List WitLedgerEffect)
    → Checked InterleavingState
    → Option (Checked (Unit {0}))
verify_from inst traces panic = some panic
verify_from inst traces (err e) = some (err e)
verify_from inst traces (ok s) =
    let rom = rom_of inst traces in
    finish inst rom (run (suc (total_ops traces)) rom (s, filled (processes inst) 0))

-- `none` would say that the fuel ran out; one unit more than all the host calls is enough.
unfoldable pub verify_interleaving_semantics :
    InterleavingInstance → List (List WitLedgerEffect) → Option (Checked (Unit {0}))
verify_interleaving_semantics inst traces = verify_from inst traces (start inst traces)
