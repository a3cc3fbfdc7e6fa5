-- ===== src/Interleaving/Machine/Spawn.antt =====
-- mocked_verifier.rs, `state_transition`: the rules that construct processes, attest their code and
-- install effect handlers.
use starstream.Prelude.{
  true, not, ◌==◌, if◌then◌else◌, none, some, List, [], ◌∷◌, String, ok, err, ◌>>=◌, ◌>>◌, refuse,
  read, write,
}
use starstream.Interleaving.Effects.{ProcessId, InterfaceId, Hash, Ref, option_eq}
use starstream.Interleaving.Instance.{
  Checked, shape, coord_only, program_hash_mismatch, handler_not_found,
  installed_handler_is_not_current, handler_get_mismatch,
}
use starstream.Interleaving.State.{Rom, InterleavingState}
use starstream.Interleaving.Machine.Control.{top}

unfoldable pub program_hash :
    Rom → InterleavingState → (target : ProcessId) (hash : Hash) → Checked InterleavingState
program_hash rom s target hash = do
  expected ← read rom.process_table target
  refuse (not (expected == hash)) (program_hash_mismatch target expected hash)
  ok s

-- The part that the three constructors share: the code must be the declared one, and the process
-- new; it starts with no expectation and no parent.
construct :
    Rom
    → InterleavingState
    → (hash : Hash) (val : Ref) (id : ProcessId) (twice : String) → Checked InterleavingState
construct rom s hash val id twice = do
  expected ← read rom.process_table id
  refuse (not (expected == hash)) (program_hash_mismatch id expected hash)
  old ← read s.initialized id
  refuse old (shape twice)
  initialized ← write s.initialized id true
  inits ← write s.inits id (some (val, s.id_curr))
  inputs ← write s.expected_input id none
  resumers ← write s.expected_resumer id none
  on_yield ← write s.on_yield id true
  yield_to ← write s.yield_to id none
  ok (record s {
    initialized = initialized;
    inits = inits;
    expected_input = inputs;
    expected_resumer = resumers;
    on_yield = on_yield;
    yield_to = yield_to;
  })

unfoldable pub new_utxo :
    Rom → InterleavingState → (hash : Hash) (val : Ref) (id : ProcessId) → Checked InterleavingState
unfolding construct
new_utxo rom s hash val id = do
  curr_utxo ← read rom.is_utxo s.id_curr
  refuse curr_utxo (coord_only s.id_curr)
  utxo ← read rom.is_utxo id
  refuse (not utxo) (shape "NewUtxo id must be utxo")
  token ← read rom.is_token id
  refuse token (shape "NewUtxo id must not be token")
  construct rom s hash val id "NewUtxo requires initialized[id]==false"

unfoldable pub new_token :
    Rom → InterleavingState → (hash : Hash) (val : Ref) (id : ProcessId) → Checked InterleavingState
unfolding construct
new_token rom s hash val id = do
  curr_utxo ← read rom.is_utxo s.id_curr
  refuse curr_utxo (coord_only s.id_curr)
  utxo ← read rom.is_utxo id
  refuse (not utxo) (shape "NewToken id must be utxo")
  token ← read rom.is_token id
  refuse (not token) (shape "NewToken id must be token")
  construct rom s hash val id "NewToken requires initialized[id]==false"

unfoldable pub new_coord :
    Rom → InterleavingState → (hash : Hash) (val : Ref) (id : ProcessId) → Checked InterleavingState
unfolding construct
new_coord rom s hash val id = do
  curr_utxo ← read rom.is_utxo s.id_curr
  refuse curr_utxo (coord_only s.id_curr)
  utxo ← read rom.is_utxo id
  refuse utxo (shape "NewCoord id must be coord")
  construct rom s hash val id "NewCoord requires initialized[id]==false"

-- `handler_stack[i] = stack`
abbrev pub with_stack : InterleavingState → InterfaceId → List ProcessId → InterleavingState
with_stack s i stack = record s { handler_stack = λ j. if i == j then stack else s.handler_stack j }

unfoldable pub install_handler :
    Rom → InterleavingState → (interface_id : InterfaceId) → Checked InterleavingState
install_handler rom s interface_id = do
  curr_utxo ← read rom.is_utxo s.id_curr
  refuse curr_utxo (coord_only s.id_curr)
  ok (with_stack s interface_id (s.id_curr ∷ s.handler_stack interface_id))

-- The last handler of an interface goes, if it is the caller.
pop_handler : InterleavingState → InterfaceId → List ProcessId → Checked InterleavingState
pop_handler s interface_id [] = err (handler_not_found interface_id s.id_curr)
pop_handler s interface_id (handler ∷ rest) = do
  refuse (not (handler == s.id_curr)) (installed_handler_is_not_current interface_id s.id_curr)
  ok (with_stack s interface_id rest)

unfoldable pub uninstall_handler :
    Rom → InterleavingState → (interface_id : InterfaceId) → Checked InterleavingState
unfolding pop_handler
uninstall_handler rom s interface_id = do
  curr_utxo ← read rom.is_utxo s.id_curr
  refuse curr_utxo (coord_only s.id_curr)
  pop_handler s interface_id (s.handler_stack interface_id)

unfoldable pub get_handler_for :
    InterleavingState
    → (interface_id : InterfaceId) (handler_id : ProcessId) → Checked InterleavingState
get_handler_for s interface_id handler_id = do
  let expected = top (s.handler_stack interface_id)
  refuse (not (option_eq expected (some handler_id)))
      (handler_get_mismatch interface_id expected handler_id)
  ok s
