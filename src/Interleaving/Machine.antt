-- ===== src/Interleaving/Machine.antt =====
-- mocked_verifier.rs, `state_transition`: one host call of the machine. The rules stand in the
-- modules below, by family.
pub mod Control
pub mod Spawn
pub mod Refs
pub mod Ownership
use starstream.Prelude.{
  ℕ, suc, ◌+◌, Bool, true, false, not, ◌&&◌, ◌==◌, Option, none, some, List, [], ◌∷◌, get_elem?, ok,
  ◌>>=◌, ◌>>◌, refuse, ok_or, Array, read, write, if◌then◌else◌,
}
use starstream.Interleaving.Effects.{WitLedgerEffect, FunctionId, effect_eq}
use starstream.Interleaving.Instance.{
  Checked, shape, building_ref_but_called_other, must_enter_pending,
}
use starstream.Interleaving.State.{Rom, InterleavingState}
use Control.{is_some}

-- `matches!(op, WitLedgerEffect::RefPush { .. })` and `matches!(op, WitLedgerEffect::Enter { .. })`
abbrev pub is_ref_push : WitLedgerEffect → Bool
is_ref_push (WitLedgerEffect.ref_push _) = true
is_ref_push _ = false

abbrev pub is_enter : WitLedgerEffect → Bool
is_enter (WitLedgerEffect.enter _) = true
is_enter _ = false

-- The `match op` of the source.
unfoldable pub dispatch : Rom → InterleavingState → WitLedgerEffect → Checked InterleavingState
dispatch rom s (WitLedgerEffect.resume target f_id val ret caller) =
    Control.resume rom s target f_id val ret caller
dispatch rom s (WitLedgerEffect.yield val) = Control.yield rom s val
dispatch rom s WitLedgerEffect.return = Control.return rom s
dispatch rom s (WitLedgerEffect.program_hash target hash) = Spawn.program_hash rom s target hash
dispatch rom s (WitLedgerEffect.new_utxo hash val id) = Spawn.new_utxo rom s hash val id
dispatch rom s (WitLedgerEffect.new_token hash val id) = Spawn.new_token rom s hash val id
dispatch rom s (WitLedgerEffect.new_coord hash val id) = Spawn.new_coord rom s hash val id
dispatch rom s (WitLedgerEffect.install_handler i) = Spawn.install_handler rom s i
dispatch rom s (WitLedgerEffect.uninstall_handler i) = Spawn.uninstall_handler rom s i
dispatch rom s (WitLedgerEffect.get_handler_for i handler_id) = Spawn.get_handler_for s i handler_id
dispatch rom s (WitLedgerEffect.call_effect_handler i f_id val ret) =
    Control.call_effect_handler s i f_id val ret
dispatch rom s (WitLedgerEffect.enter f_id) = Control.enter s f_id
dispatch rom s WitLedgerEffect.burn = Ownership.burn rom s
dispatch rom s (WitLedgerEffect.activation val caller) = Control.activation s val caller
dispatch rom s (WitLedgerEffect.init val caller) = Control.init s val caller
dispatch rom s (WitLedgerEffect.new_ref size ret) = Refs.new_ref s size ret
dispatch rom s (WitLedgerEffect.ref_push vals) = Refs.ref_push s vals
dispatch rom s (WitLedgerEffect.ref_get reff offset ret) = Refs.ref_get s reff offset ret
dispatch rom s (WitLedgerEffect.ref_write reff offset vals) = Refs.ref_write s reff offset vals
dispatch rom s (WitLedgerEffect.bind owner_id) = Ownership.bind rom s owner_id
dispatch rom s (WitLedgerEffect.unbind token_id) = Ownership.unbind rom s token_id

-- While a function has yet to be entered, only `Enter` is accepted.
abbrev pub refuse_pending : Option FunctionId → WitLedgerEffect → ℕ → Checked (Unit {0})
refuse_pending none op pid = ok tt
refuse_pending (some expected) op pid = refuse (not (is_enter op)) (must_enter_pending pid expected)

-- The counters of the source are an array that the call changes in place; here they are returned.
unfoldable pub state_transition :
    Rom
    → InterleavingState
    → (next_op_idx : Array ℕ) → WitLedgerEffect
    → Checked (InterleavingState × Array ℕ)
state_transition rom s next_op_idx op = do
  let curr = s.id_curr
  c ← read next_op_idx curr
  trace ← read rom.traces curr
  got ← ok_or (get_elem? trace c) (shape "host call index out of bounds")
  refuse (not (effect_eq got op)) (shape "host call mismatch")
  refuse (is_some (s.ref_building curr) && not (is_ref_push op))
      (building_ref_but_called_other curr)
  next ← write next_op_idx curr (c + 1)
  pending ← read s.must_enter curr
  refuse_pending pending op curr
  s' ← dispatch rom s op
  ok (s', next)
