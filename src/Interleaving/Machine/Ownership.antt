-- ===== src/Interleaving/Machine/Ownership.antt =====
-- mocked_verifier.rs, `state_transition`: the rules of UTXOs and tokens.
use starstream.Prelude.{true, not, some, none, ok, ◌>>=◌, ◌>>◌, refuse, read, write}
use starstream.Interleaving.Effects.{ProcessId, option_eq}
use starstream.Interleaving.Instance.{
  Checked, shape, utxo_only, utxo_should_not_burn, owner_not_utxo, token_already_owned,
  unbind_not_owner,
}
use starstream.Interleaving.State.{Rom, InterleavingState}
use starstream.Interleaving.Machine.Control.{is_some, and_read}

unfoldable pub burn : Rom → InterleavingState → Checked InterleavingState
burn rom s = do
  utxo ← read rom.is_utxo s.id_curr
  refuse (not utxo) (utxo_only s.id_curr)
  expected ← read rom.must_burn s.id_curr
  refuse (not expected) (utxo_should_not_burn s.id_curr)
  did_burn ← write s.did_burn s.id_curr true
  ok (record s { did_burn = did_burn })

unfoldable pub bind : Rom → InterleavingState → (owner_id : ProcessId) → Checked InterleavingState
bind rom s owner_id = do
  let token_id = s.id_curr
  token_utxo ← read rom.is_utxo token_id
  refuse (not token_utxo) (shape "Bind: token_id must be utxo")
  owner_utxo ← read rom.is_utxo owner_id
  refuse (not owner_utxo) (owner_not_utxo owner_id)
  token_ready ← read s.initialized token_id
  both_ready ← and_read token_ready s.initialized owner_id
  refuse (not both_ready) (shape "Bind: both must be initialized")
  owner ← read s.ownership token_id
  refuse (is_some owner) (token_already_owned token_id owner)
  ownership ← write s.ownership token_id (some owner_id)
  ok (record s { ownership = ownership })

unfoldable pub unbind : Rom → InterleavingState → (token_id : ProcessId) → Checked InterleavingState
unbind rom s token_id = do
  let owner_id = s.id_curr
  owner_utxo ← read rom.is_utxo owner_id
  refuse (not owner_utxo) (shape "Unbind: caller must be utxo")
  token_utxo ← read rom.is_utxo token_id
  exists ← and_read token_utxo s.initialized token_id
  refuse (not exists) (shape "Unbind: token must exist and be utxo")
  owner ← read s.ownership token_id
  refuse (not (option_eq owner (some owner_id))) (unbind_not_owner token_id owner owner_id)
  ownership ← write s.ownership token_id none
  ok (record s { ownership = ownership })
