-- ===== src/Ledger/Apply.antt =====
-- lib.rs, `Ledger::apply_transaction`.
use starstream.Prelude.{
  ℕ, zero, suc, ◌+◌, ◌^◌, Bool, true, false, ltb, ◌==◌, Option, none, some, List, [], ◌∷◌, length,
  get_elem?, ok, err, panic, ◌>>=◌, ◌>>◌, unwrap, Array, filled, read, write, insert, if◌then◌else◌,
}
use starstream.Interleaving.Effects.{ProcessId, Hash}
use starstream.Ledger.State.{
  CoroutineState, state_eq, UtxoId, utxo_id_eq, CoroutineId, coroutine_id_eq, NewOutput,
  TransactionBody, ProvenTransaction, UtxoEntry, Ledger, Verified, input_not_found, insert_at,
  remove_at,
}
use starstream.Ledger.Artifacts.{entry_of, verify_witness}

-- `TransactionBody::hash`
abbrev pub hash : TransactionBody → Hash
hash body = 0

-- `entry(contract_hash).or_insert(0)`, read as a number.
abbrev pub counter : Ledger → Hash → ℕ
counter l h = or_zero (l.contract_counters h)
  where
    or_zero : Option ℕ → ℕ
    or_zero none = 0
    or_zero (some n) = n

-- A new identity for an output of a contract. The counter is a u64; as in a build with overflow
-- checks, the last number panics.
unfoldable pub allocate : Ledger → Hash → Verified (UtxoId × Ledger)
allocate l h = do
  let next = counter l h
  if ltb (next + 1) (2 ^ 64)
      then ok (
        record { contract_hash = h; nonce = next },
        record l { contract_counters = insert l.contract_counters h (next + 1) },
      )
      else panic

-- The index and the entry of an output.
abbrev pub place : Ledger → UtxoId → CoroutineId → UtxoEntry → Ledger
place l id cid entry = record l {
  utxo_to_coroutine = insert_at utxo_id_eq l.utxo_to_coroutine id cid;
  utxos = insert_at utxo_id_eq l.utxos id entry;
}

-- `self.utxo_to_coroutine[utxo_id]` for each input.
unfoldable pub input_coroutines :
    Ledger → ℕ → List UtxoId → Array (Option CoroutineId) → Verified (Array (Option CoroutineId))
input_coroutines self i [] cids = ok cids
input_coroutines self i (id ∷ ids) cids = do
  cid ← unwrap (self.utxo_to_coroutine id)
  cids ← write cids i (some cid)
  input_coroutines self (suc i) ids cids

-- The ledger under construction, and which inputs keep their identity.
abbrev pub Progress : Type 0
Progress = Ledger × (ℕ → Bool)

-- The body of the loop over the continuations, for the input `i`.
unfoldable pub continue_input :
    Ledger
    → TransactionBody
    → Array (Option CoroutineId)
    → ℕ
    → CoroutineState
    → Progress
    → Verified Progress
continue_input self body cids i cont (l, kept) = do
  parent ← unwrap (get_elem? body.inputs i)
  before ← entry_of self parent
  let h = before.contract_hash
  let same = state_eq cont before.state
  (id, l) ← if same then ok (parent, l) else allocate l h
  slot ← read cids i
  cid ← unwrap slot
  let kept = if same then (λ j. if i == j then true else kept j) else kept
  ok (place l id cid (record { state = cont; contract_hash = h }), kept)

unfoldable pub continue_inputs :
    Ledger
    → TransactionBody
    → Array (Option CoroutineId)
    → ℕ
    → List (Option CoroutineState)
    → Progress
    → Verified Progress
continue_inputs self body cids i [] p = ok p
continue_inputs self body cids i (none ∷ conts) p = continue_inputs self body cids (suc i) conts p
continue_inputs self body cids i (some cont ∷ conts) p = do
  p ← continue_input self body cids i cont p
  continue_inputs self body cids (suc i) conts p

-- The loop over the new outputs; the output `j` is the process `n_inputs + j`.
unfoldable pub create_outputs :
    Hash
    → (n_inputs j : ℕ) → List NewOutput
    → Ledger × Array (Option CoroutineId)
    → Verified (Ledger × Array (Option CoroutineId))
create_outputs tx_hash n_inputs j [] p = ok p
create_outputs tx_hash n_inputs j (out ∷ outs) (l, cids) = do
  (id, l) ← allocate l out.contract_hash
  let cid : CoroutineId = record { creation_tx_hash = tx_hash; creation_output_index = j }
  cids ← write cids (n_inputs + j) (some cid)
  let l = place l id cid (record { state = out.state; contract_hash = out.contract_hash })
  create_outputs tx_hash n_inputs (suc j) outs (l, cids)

-- The owner of one token, or that it has none.
unfoldable pub set_owner :
    TransactionBody → Array (Option CoroutineId) → ProcessId → Ledger → Verified Ledger
set_owner body cids token_pid l = do
  slot ← read cids token_pid
  token_cid ← unwrap slot
  by_owner token_cid (body.ownership_out token_pid)
  where
    by_owner : CoroutineId → Option ℕ → Verified Ledger
    by_owner token_cid none =
        ok (record l {
          ownership_registry = remove_at coroutine_id_eq l.ownership_registry token_cid;
        })
    by_owner token_cid (some owner_pid) = do
      slot ← read cids owner_pid
      owner_cid ← unwrap slot
      ok (record l {
        ownership_registry = insert_at coroutine_id_eq l.ownership_registry token_cid owner_cid;
      })

-- `for token_pid in start..start + k`
unfoldable pub set_owners :
    TransactionBody → Array (Option CoroutineId) → (k start : ℕ) → Ledger → Verified Ledger
set_owners body cids zero start l = ok l
set_owners body cids (suc k) start l = do
  l ← set_owner body cids start l
  set_owners body cids k (suc start) l

-- The input leaves the ledger, and must be there.
unfoldable pub spend : UtxoId → Ledger → Verified Ledger
spend id l = by_entry (l.utxos id)
  where
    by_entry : Option UtxoEntry → Verified Ledger
    by_entry none = err input_not_found
    by_entry (some _) = ok (record l {
      utxos = remove_at utxo_id_eq l.utxos id;
      utxo_to_coroutine = remove_at utxo_id_eq l.utxo_to_coroutine id;
    })

unfoldable pub spend_inputs : (ℕ → Bool) → ℕ → List UtxoId → Ledger → Verified Ledger
spend_inputs kept i [] l = ok l
spend_inputs kept i (id ∷ ids) l = do
  l ← if kept i then ok l else spend id l
  spend_inputs kept (suc i) ids l

unfoldable pub apply_transaction : Ledger → ProvenTransaction → Verified Ledger
apply_transaction self tx = do
  verify_witness self tx.body tx.witness
  let n_inputs = length tx.body.inputs
  let n = n_inputs + length tx.body.new_outputs
  cids ← input_coroutines self 0 tx.body.inputs (filled n none)
  (l, kept) ← continue_inputs self tx.body cids 0 tx.body.continuations (self, λ _. false)
  (l, cids) ← create_outputs (hash tx.body) n_inputs 0 tx.body.new_outputs (l, cids)
  l ← set_owners tx.body cids n 0 l
  spend_inputs kept 0 tx.body.inputs l
