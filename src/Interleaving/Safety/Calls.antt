-- ===== src/Interleaving/Safety/Calls.antt =====
-- A host call that names processes of the transaction does not panic.
use starstream.Prelude.{
  ℕ, ◌*◌, ◌<◌, ◌≡◌, ◌≢◌, inl, inr, Option, List, [], ◌∷◌, panic, arith, Option-cases, refl,
}
use starstream.Interleaving.Effects.{
  ProcessId, InterfaceId, FunctionId, Hash, Ref, ref_width, Word, values, WitLedgerEffect,
}
use starstream.Interleaving.State.{Rom, InterleavingState}
use starstream.Interleaving.Machine.{dispatch}
use starstream.Interleaving.Machine.Control.{
  resume, top, yield, return, call_effect_handler, enter, activation, init,
}
use starstream.Interleaving.Machine.Spawn.{
  program_hash, new_utxo, new_token, new_coord, install_handler, uninstall_handler, get_handler_for,
}
use starstream.Interleaving.Rules.Words.{Allocatable}
use starstream.Interleaving.Machine.Refs.{new_ref, ref_push, ref_get, ref_write}
use starstream.Interleaving.Machine.Ownership.{burn, bind, unbind}
use starstream.Interleaving.Invariant.Sizes.{RomSizes, Sizes, top_in_range}
use starstream.Interleaving.Invariant.References.{References}
use starstream.Interleaving.Safety.Reads.{
  push_vals-ne-panic, write_vals-ne-panic, get_word-ne-panic,
}

-- The processes that a host call names are among the `n` of the transaction, and the reference that it
-- asks for is not too large to allocate.
abbrev pub Names : ℕ → WitLedgerEffect → Type 0
Names n (WitLedgerEffect.resume target _ _ _ _) = target < n
Names n (WitLedgerEffect.program_hash target _) = target < n
Names n (WitLedgerEffect.new_utxo _ _ id) = id < n
Names n (WitLedgerEffect.new_token _ _ id) = id < n
Names n (WitLedgerEffect.new_coord _ _ id) = id < n
Names n (WitLedgerEffect.bind owner) = owner < n
Names n (WitLedgerEffect.unbind token) = token < n
Names n (WitLedgerEffect.new_ref size _) = Allocatable size
Names n _ = Unit

-- `Burn` looks the caller up in a table of the inputs only.
abbrev pub BurnsInput : Rom → ProcessId → WitLedgerEffect → Type 0
BurnsInput rom pid WitLedgerEffect.burn = pid < rom.must_burn.len
BurnsInput rom pid _ = Unit

module _ (n m : ℕ) (rom : Rom) (s : InterleavingState) (t : RomSizes n m rom)
    (v : Sizes n m s) where
  resume-ne-panic :
      (target : ProcessId) (f_id : FunctionId) (val ret : Ref) (caller : Option ProcessId)
      → target < n
      → resume rom s target f_id val ret caller ≢ panic
  unfolding resume
  resume-ne-panic target f_id val ret caller lt h = ground (arith, v.lengths, v.running)

  yield-ne-panic : (val : Ref) → yield rom s val ≢ panic
  unfolding yield
  yield-ne-panic val h = elim (Option-cases (s.yield_to.at s.id_curr)) [
    | inl e ↦ ground (arith, v.lengths, v.running)
    | inr (parent, e) ↦ ground (arith, v.lengths, v.running, v.parents s.id_curr parent)
  ]

  return-ne-panic : return rom s ≢ panic
  unfolding return
  return-ne-panic h = ground (arith, v.lengths, v.running)

  call_effect_handler-ne-panic :
      (i : InterfaceId) (f_id : FunctionId) (val ret : Ref)
      → call_effect_handler s i f_id val ret ≢ panic
  unfolding call_effect_handler
  call_effect_handler-ne-panic i f_id val ret h = elim (Option-cases (top (s.handler_stack i))) [
    | inl e ↦ ground arith
    | inr (target, e) ↦ ground (
      arith,
      v.lengths,
      v.running,
      top_in_range {n = n} target (s.handler_stack i) (v.handlers i),
    )
  ]

  enter-ne-panic : (f_id : FunctionId) → enter s f_id ≢ panic
  unfolding enter
  enter-ne-panic f_id h = ground (arith, v.lengths, v.running)

  activation-ne-panic : (val : Ref) (caller : ProcessId) → activation s val caller ≢ panic
  unfolding activation
  activation-ne-panic val caller h = ground (arith, v.lengths, v.running)

  init-ne-panic : (val : Ref) (caller : ProcessId) → init s val caller ≢ panic
  unfolding init
  init-ne-panic val caller h = ground (arith, v.lengths, v.running)

  bind-ne-panic : (owner : ProcessId) → owner < n → bind rom s owner ≢ panic
  unfolding bind
  bind-ne-panic owner lt h = ground (arith, v.lengths, v.running, t.utxos_first s.id_curr)

  unbind-ne-panic : (token : ProcessId) → token < n → unbind rom s token ≢ panic
  unfolding unbind
  unbind-ne-panic token lt h = ground (arith, v.lengths, v.running, t.utxos_first token)

  burn-ne-panic : s.id_curr < rom.must_burn.len → burn rom s ≢ panic
  unfolding burn
  burn-ne-panic lt h = ground (arith, v.lengths, v.running)

  program_hash-ne-panic :
      (target : ProcessId) (hash : Hash) → target < n → program_hash rom s target hash ≢ panic
  unfolding program_hash
  program_hash-ne-panic target hash lt h = ground arith

  module _ (hash : Hash) (val : Ref) (id : ProcessId) (lt : id < n) where
    new_utxo-ne-panic : new_utxo rom s hash val id ≢ panic
    unfolding new_utxo
    new_utxo-ne-panic h = ground (arith, v.lengths, v.running)

    new_token-ne-panic : new_token rom s hash val id ≢ panic
    unfolding new_token
    new_token-ne-panic h = ground (arith, v.lengths, v.running)

    new_coord-ne-panic : new_coord rom s hash val id ≢ panic
    unfolding new_coord
    new_coord-ne-panic h = ground (arith, v.lengths, v.running)

  module _ (i : InterfaceId) where
    install_handler-ne-panic : install_handler rom s i ≢ panic
    unfolding install_handler
    install_handler-ne-panic h = ground (arith, v.lengths, v.running)

    uninstall_handler-ne-panic : uninstall_handler rom s i ≢ panic
    unfolding uninstall_handler
    uninstall_handler-ne-panic h = by_stack (s.handler_stack i) refl
      where
        by_stack : (stack : List ProcessId) → s.handler_stack i ≡ stack → ⊥
        by_stack [] e = ground (arith, v.lengths, v.running)
        by_stack (p ∷ ps) e = ground (arith, v.lengths, v.running)

    get_handler_for-ne-panic : (handler : ProcessId) → get_handler_for s i handler ≢ panic
    unfolding get_handler_for
    get_handler_for-ne-panic handler h = ground arith

module _ (s : InterleavingState) (v : References s) where
  new_ref-ne-panic : (size : ℕ) (r : Ref) → Allocatable size → new_ref s size r ≢ panic
  unfolding new_ref
  new_ref-ne-panic size r a h = ground arith

  ref_push-ne-panic : (vals : Word) → ref_push s vals ≢ panic
  unfolding ref_push
  ref_push-ne-panic vals h = elim (Option-cases (s.ref_building s.id_curr)) [
    | inl e ↦ ground arith
    | inr ((r, offset, size), e) ↦ elim (Option-cases (s.ref_store r)) [
      | inl f ↦ ground arith
      | inr (old, f) ↦
          ground (arith, push_vals-ne-panic s.id_curr size (offset * ref_width) (values vals) old)
    ]
  ]

  module _ (r : Ref) (offset : ℕ) where
    ref_get-ne-panic : (ret : Word) → ref_get s r offset ret ≢ panic
    unfolding ref_get
    ref_get-ne-panic ret h = elim (Option-cases (s.ref_store r)) [
      | inl e ↦ ground arith
      | inr (contents, e) ↦ elim (Option-cases (s.ref_sizes r)) [
        | inl f ↦ ground arith
        | inr (size, f) ↦
            ground (
              arith,
              v.filled r contents size,
              get_word-ne-panic contents size (offset * ref_width),
            )
      ]
    ]

    ref_write-ne-panic : (vals : Word) → ref_write s r offset vals ≢ panic
    unfolding ref_write
    ref_write-ne-panic vals h = elim (Option-cases (s.ref_store r)) [
      | inl e ↦ ground arith
      | inr (old, e) ↦ elim (Option-cases (s.ref_sizes r)) [
        | inl f ↦ ground arith
        | inr (size, f) ↦
            ground (
              arith,
              v.filled r old size,
              write_vals-ne-panic (offset * ref_width) (values vals) old,
            )
      ]
    ]

module _ (n m : ℕ) (rom : Rom) (s : InterleavingState) (t : RomSizes n m rom) (v : Sizes n m s)
    (w : References s) where
  -- In a state whose tables fit the transaction and whose references are in order, a host call that
  -- names processes of the transaction, is no `Burn` of a new output and asks for no reference that
  -- is too large to allocate, is accepted or refused with an error: it does not panic.
  pub dispatch-ne-panic :
      (op : WitLedgerEffect) → Names n op → BurnsInput rom s.id_curr op → dispatch rom s op ≢ panic
  unfolding dispatch
  dispatch-ne-panic (WitLedgerEffect.resume target f_id val ret caller) a b =
      resume-ne-panic n m rom s t v target f_id val ret caller a
  dispatch-ne-panic (WitLedgerEffect.yield val) a b = yield-ne-panic n m rom s t v val
  dispatch-ne-panic WitLedgerEffect.return a b = return-ne-panic n m rom s t v
  dispatch-ne-panic (WitLedgerEffect.program_hash target hash) a b =
      program_hash-ne-panic n m rom s t v target hash a
  dispatch-ne-panic (WitLedgerEffect.new_utxo hash val id) a b =
      new_utxo-ne-panic n m rom s t v hash val id a
  dispatch-ne-panic (WitLedgerEffect.new_token hash val id) a b =
      new_token-ne-panic n m rom s t v hash val id a
  dispatch-ne-panic (WitLedgerEffect.new_coord hash val id) a b =
      new_coord-ne-panic n m rom s t v hash val id a
  dispatch-ne-panic (WitLedgerEffect.install_handler i) a b =
      install_handler-ne-panic n m rom s t v i
  dispatch-ne-panic (WitLedgerEffect.uninstall_handler i) a b =
      uninstall_handler-ne-panic n m rom s t v i
  dispatch-ne-panic (WitLedgerEffect.get_handler_for i handler) a b =
      get_handler_for-ne-panic n m rom s t v i handler
  dispatch-ne-panic (WitLedgerEffect.call_effect_handler i f_id val ret) a b =
      call_effect_handler-ne-panic n m rom s t v i f_id val ret
  dispatch-ne-panic (WitLedgerEffect.enter f_id) a b = enter-ne-panic n m rom s t v f_id
  dispatch-ne-panic WitLedgerEffect.burn a b = burn-ne-panic n m rom s t v b
  dispatch-ne-panic (WitLedgerEffect.activation val caller) a b =
      activation-ne-panic n m rom s t v val caller
  dispatch-ne-panic (WitLedgerEffect.init val caller) a b = init-ne-panic n m rom s t v val caller
  dispatch-ne-panic (WitLedgerEffect.new_ref size r) a b = new_ref-ne-panic s w size r a
  dispatch-ne-panic (WitLedgerEffect.ref_push vals) a b = ref_push-ne-panic s w vals
  dispatch-ne-panic (WitLedgerEffect.ref_get r offset ret) a b = ref_get-ne-panic s w r offset ret
  dispatch-ne-panic (WitLedgerEffect.ref_write r offset vals) a b =
      ref_write-ne-panic s w r offset vals
  dispatch-ne-panic (WitLedgerEffect.bind owner) a b = bind-ne-panic n m rom s t v owner a
  dispatch-ne-panic (WitLedgerEffect.unbind token) a b = unbind-ne-panic n m rom s t v token a
