-- ===== src/Interleaving/Rules.antt =====
-- The interleaving semantics as a step relation, after EFFECTS_REFERENCE.md where the
-- code follows it, and the machine of
-- mocked_verifier.rs against it.
pub mod Control
pub mod Spawn
pub mod Words
pub mod Refs
pub mod Ownership
use starstream.Prelude.{ℕ, ◌≡◌, List, ok}
use starstream.Interleaving.Effects.{ProcessId, Value, Ref, WitLedgerEffect}
use starstream.Interleaving.State.{Rom, InterleavingState}
use starstream.Interleaving.Machine.{dispatch}

-- `Step rom s op s'`: the rule of `op` applies in the state `s`, and `s'` is the state after it.
abbrev pub Step : Rom → InterleavingState → WitLedgerEffect → InterleavingState → Type 0
Step rom s (WitLedgerEffect.resume target f_id val ret caller) s' =
    Control.Resumes rom s target f_id val ret caller s'
Step rom s (WitLedgerEffect.yield val) s' = Control.Yields rom s val s'
Step rom s WitLedgerEffect.return s' = Control.Ends rom s s'
Step rom s (WitLedgerEffect.program_hash target hash) s' = Spawn.Attests rom s s' target hash
Step rom s (WitLedgerEffect.new_utxo hash val id) s' =
    Spawn.Constructs rom s s' Spawn.Role.utxo_role hash val id
Step rom s (WitLedgerEffect.new_token hash val id) s' =
    Spawn.Constructs rom s s' Spawn.Role.token_role hash val id
Step rom s (WitLedgerEffect.new_coord hash val id) s' =
    Spawn.Constructs rom s s' Spawn.Role.coord_role hash val id
Step rom s (WitLedgerEffect.install_handler i) s' = Spawn.Installs rom s s' i
Step rom s (WitLedgerEffect.uninstall_handler i) s' =
    (rest : List ProcessId) × Spawn.Uninstalls rom s s' i rest
Step rom s (WitLedgerEffect.get_handler_for i handler) s' = Spawn.Looks s s' i handler
Step rom s (WitLedgerEffect.call_effect_handler i f_id val ret) s' =
    (target : ProcessId) × Control.CallsHandler s i f_id val ret s' target
Step rom s (WitLedgerEffect.enter f_id) s' = Control.Enters s s' f_id
Step rom s WitLedgerEffect.burn s' = Ownership.Burns rom s s'
Step rom s (WitLedgerEffect.activation val caller) s' = Control.Activates s s' val caller
Step rom s (WitLedgerEffect.init val caller) s' = Control.Inits s s' val caller
Step rom s (WitLedgerEffect.new_ref size r) s' = Refs.NewRef s s' size r
Step rom s (WitLedgerEffect.ref_push vals) s' =
    (r : Ref) × (offset : ℕ) × (size : ℕ) × (old : List Value) × (new : List Value) × Refs.Pushes s
      s' vals r offset size old new
Step rom s (WitLedgerEffect.ref_get r offset ret) s' =
    (size : ℕ) × (contents : List Value) × Refs.Gets s s' r offset ret size contents
Step rom s (WitLedgerEffect.ref_write r offset vals) s' =
    (size : ℕ) × (old : List Value) × (new : List Value) × Refs.Writes s s' r offset vals size old
      new
Step rom s (WitLedgerEffect.bind owner) s' = Ownership.Binds rom s s' owner
Step rom s (WitLedgerEffect.unbind token) s' = Ownership.Unbinds rom s s' token

-- A host call that the machine accepts is a step of the semantics, for each of the operations.
pub dispatch-Step :
    (rom : Rom) (s : InterleavingState) (op : WitLedgerEffect) (s' : InterleavingState)
    → dispatch rom s op ≡ ok s'
    → Step rom s op s'
unfolding dispatch
dispatch-Step rom s (WitLedgerEffect.resume target f_id val ret caller) s' h =
    Control.resume-Resumes rom s target f_id val ret caller s' h
dispatch-Step rom s (WitLedgerEffect.yield val) s' h = Control.yield-Yields rom s val s' h
dispatch-Step rom s WitLedgerEffect.return s' h = Control.return-Ends rom s s' h
dispatch-Step rom s (WitLedgerEffect.program_hash target hash) s' h =
    Spawn.program_hash-Attests rom s s' target hash h
dispatch-Step rom s (WitLedgerEffect.new_utxo hash val id) s' h =
    Spawn.new_utxo-Constructs rom s s' hash val id h
dispatch-Step rom s (WitLedgerEffect.new_token hash val id) s' h =
    Spawn.new_token-Constructs rom s s' hash val id h
dispatch-Step rom s (WitLedgerEffect.new_coord hash val id) s' h =
    Spawn.new_coord-Constructs rom s s' hash val id h
dispatch-Step rom s (WitLedgerEffect.install_handler i) s' h =
    Spawn.install_handler-Installs rom s s' i h
dispatch-Step rom s (WitLedgerEffect.uninstall_handler i) s' h =
    Spawn.uninstall_handler-Uninstalls rom s s' i h
dispatch-Step rom s (WitLedgerEffect.get_handler_for i handler) s' h =
    Spawn.get_handler_for-Looks s s' i handler h
dispatch-Step rom s (WitLedgerEffect.call_effect_handler i f_id val ret) s' h =
    Control.call_effect_handler-CallsHandler s i f_id val ret s' h
dispatch-Step rom s (WitLedgerEffect.enter f_id) s' h = Control.enter-Enters s s' f_id h
dispatch-Step rom s WitLedgerEffect.burn s' h = Ownership.burn-Burns rom s s' h
dispatch-Step rom s (WitLedgerEffect.activation val caller) s' h =
    Control.activation-Activates s s' val caller h
dispatch-Step rom s (WitLedgerEffect.init val caller) s' h = Control.init-Inits s s' val caller h
dispatch-Step rom s (WitLedgerEffect.new_ref size r) s' h = Refs.new_ref-NewRef s s' size r h
dispatch-Step rom s (WitLedgerEffect.ref_push vals) s' h = Refs.ref_push-Pushes s s' vals h
dispatch-Step rom s (WitLedgerEffect.ref_get r offset ret) s' h =
    Refs.ref_get-Gets s s' r offset ret h
dispatch-Step rom s (WitLedgerEffect.ref_write r offset vals) s' h =
    Refs.ref_write-Writes s s' r offset vals h
dispatch-Step rom s (WitLedgerEffect.bind owner) s' h = Ownership.bind-Binds rom s s' owner h
dispatch-Step rom s (WitLedgerEffect.unbind token) s' h = Ownership.unbind-Unbinds rom s s' token h
