-- ===== src/Interleaving/Safety/Complete.antt =====
-- The machine accepts each step of the semantics.
use starstream.Prelude.{◌*◌, ℕ, ◌<◌, ◌≡◌, ◌↔◌, Option, none, some, List, ok, arith, refl}
use starstream.Interleaving.Effects.{
  ref_width, values, ProcessId, InterfaceId, FunctionId, Value, Ref, WitLedgerEffect,
}
use starstream.Interleaving.State.{Rom, InterleavingState}
use starstream.Interleaving.Machine.{dispatch}
use starstream.Interleaving.Machine.Control.{
  resume, yield, return, call_effect_handler, enter, activation, init,
}
use starstream.Interleaving.Machine.Spawn.{
  program_hash, new_utxo, new_token, new_coord, install_handler, uninstall_handler, get_handler_for,
}
use starstream.Interleaving.Rules.Words.{
  overwritten-push_vals, overwritten-write_vals, get_word-at, word_eq_refl,
}
use starstream.Interleaving.Machine.Refs.{new_ref, ref_push, ref_get, ref_write}
use starstream.Interleaving.Machine.Ownership.{burn, bind, unbind}
use starstream.Interleaving.Rules.{Step, dispatch-Step}
use starstream.Interleaving.Rules.Control.{Resumes, YieldsTo, Promised, Ends, CallsHandler}
use starstream.Interleaving.Invariant.Sizes.{RomSizes, Sizes, top_in_range}
use starstream.Interleaving.Safety.Calls.{Names}

module _ (n m : ℕ) (rom : Rom) (s : InterleavingState) (t : RomSizes n m rom) (v : Sizes n m s)
    (s' : InterleavingState) where
  Resumes-resume :
      (target : ProcessId) (f_id : FunctionId) (val ret : Ref) (caller : Option ProcessId)
      → target < n
      → Resumes rom s target f_id val ret caller s'
      → resume rom s target f_id val ret caller ≡ ok s'
  unfolding resume
  Resumes-resume target f_id val ret caller lt h = ground (arith, v.lengths, v.running)

  Yields-yield :
      (val : Ref) (parent : ProcessId) (got : List Value)
      → YieldsTo rom s val s' parent got
      → yield rom s val ≡ ok s'
  unfolding yield
  Yields-yield val parent got h = by_claim (s.expected_input.at parent) refl h.promised
    where
      by_claim :
          (o : Option Ref)
          → s.expected_input.at parent ≡ o
          → Promised rom s val s' o got
          → yield rom s val ≡ ok s'
      by_claim none e q = ground (arith, v.lengths, v.running, v.parents s.id_curr parent)
      by_claim (some r) e q = ground (arith, v.lengths, v.running, v.parents s.id_curr parent)

  Ends-return : Ends rom s s' → return rom s ≡ ok s'
  unfolding return
  Ends-return h = ground (arith, v.lengths, v.running)

  CallsHandler-call_effect_handler :
      (i : InterfaceId) (f_id : FunctionId) (val ret : Ref) (target : ProcessId)
      → CallsHandler s i f_id val ret s' target
      → call_effect_handler s i f_id val ret ≡ ok s'
  unfolding call_effect_handler
  CallsHandler-call_effect_handler i f_id val ret target h =
      ground (
        arith,
        v.lengths,
        v.running,
        top_in_range {n = n} target (s.handler_stack i) (v.handlers i),
      )

  -- The machine accepts each step of the semantics.
  pub Step-dispatch :
      (op : WitLedgerEffect) → Names n op → Step rom s op s' → dispatch rom s op ≡ ok s'
  unfolding dispatch
  Step-dispatch (WitLedgerEffect.resume target f_id val ret caller) a h =
      Resumes-resume target f_id val ret caller a h
  Step-dispatch (WitLedgerEffect.yield val) a (parent, got, h) = Yields-yield val parent got h
  Step-dispatch WitLedgerEffect.return a h = Ends-return h
  Step-dispatch (WitLedgerEffect.program_hash target hash) a h = unfold program_hash in ground arith
  Step-dispatch (WitLedgerEffect.new_utxo hash val id) a h =
      unfold new_utxo in ground (arith, v.lengths, v.running)
  Step-dispatch (WitLedgerEffect.new_token hash val id) a h =
      unfold new_token in ground (arith, v.lengths, v.running)
  Step-dispatch (WitLedgerEffect.new_coord hash val id) a h =
      unfold new_coord in ground (arith, v.lengths, v.running)
  Step-dispatch (WitLedgerEffect.install_handler i) a h =
      unfold install_handler in ground (arith, v.lengths, v.running)
  Step-dispatch (WitLedgerEffect.uninstall_handler i) a (rest, h) =
      unfold uninstall_handler in ground (arith, v.lengths, v.running)
  Step-dispatch (WitLedgerEffect.get_handler_for i handler) a h =
      unfold get_handler_for in ground arith
  Step-dispatch (WitLedgerEffect.call_effect_handler i f_id val ret) a (target, h) =
      CallsHandler-call_effect_handler i f_id val ret target h
  Step-dispatch (WitLedgerEffect.enter f_id) a h =
      unfold enter in ground (arith, v.lengths, v.running)
  Step-dispatch WitLedgerEffect.burn a h = unfold burn in ground (arith, v.lengths, v.running)
  Step-dispatch (WitLedgerEffect.activation val caller) a h =
      unfold activation in ground (arith, v.lengths, v.running)
  Step-dispatch (WitLedgerEffect.init val caller) a h =
      unfold init in ground (arith, v.lengths, v.running)
  Step-dispatch (WitLedgerEffect.new_ref size r) a h = unfold new_ref in ground arith
  Step-dispatch (WitLedgerEffect.ref_push vals) a (r, offset, size, old, new, h) =
      unfold ref_push in
      ground (
        arith,
        h,
        overwritten-push_vals s.id_curr size (offset * ref_width) (values vals) old h.beyond,
      )
  Step-dispatch (WitLedgerEffect.ref_get r offset ret) a (size, contents, h) =
      unfold ref_get in
      ground (
        arith,
        h,
        get_word-at contents size (offset * ref_width) ret h.read_back (ground (arith, h.within)),
        word_eq_refl ret,
      )
  Step-dispatch (WitLedgerEffect.ref_write r offset vals) a (size, old, new, h) =
      unfold ref_write in
      ground (
        arith,
        h,
        overwritten-write_vals (offset * ref_width) (values vals) old (omega (arith, h.room)),
      )
  Step-dispatch (WitLedgerEffect.bind owner) a h =
      unfold bind in ground (arith, v.lengths, v.running)
  Step-dispatch (WitLedgerEffect.unbind token) a h =
      unfold unbind in ground (arith, v.lengths, v.running)

  -- In a state whose tables fit the transaction, a host call that names processes of the transaction,
  -- and asks for no reference that is too large to allocate, is accepted, with `s'` as the next state, exactly when its rule leads to `s'`.
  pub dispatch_iff :
      (op : WitLedgerEffect) → Names n op → (dispatch rom s op ≡ ok s') ↔ Step rom s op s'
  dispatch_iff op a = (dispatch-Step rom s op s', Step-dispatch op a)
