-- ===== src/Ledger/Shared.antt =====
-- The hash of a transaction does not depend on the transaction, so coroutines are not told apart.
use starstream.Prelude.{ℕ, ◌≡◌, ◌≢◌, ◌∙◌, sym, some, [], get_elem?, ok, arith, ap}
use starstream.Ledger.State.{UtxoId, NewOutput, ProvenTransaction, Ledger}
use starstream.Ledger.Apply.{apply_transaction}
use starstream.Ledger.Valid.{Valid}
use starstream.Ledger.Valid.Loops.{apply_transaction-Valid}
use starstream.Ledger.Spending.{apply_transaction-untouched}
use starstream.Ledger.Created.{entry_for, apply_transaction-creates}

-- If two transactions, of which the second has no inputs, are applied one after the other, and both
-- have an output at the place `j` among their new ones, then the ledger ends with two outputs that
-- have the same coroutine.
pub apply_transaction-shared :
    (self l l' : Ledger) (tx tx' : ProvenTransaction) (j : ℕ) (out out' : NewOutput)
    → Valid self
    → apply_transaction self tx ≡ ok l
    → apply_transaction l tx' ≡ ok l'
    → get_elem? tx.body.new_outputs j ≡ some out
    → get_elem? tx'.body.new_outputs j ≡ some out'
    → tx'.body.inputs ≡ []
    → (id : UtxoId) × (id' : UtxoId) × (id ≢ id')
      × (l'.utxos id ≡ some (entry_for out))
      × (l'.utxos id' ≡ some (entry_for out'))
      × (l'.utxo_to_coroutine id ≡ l'.utxo_to_coroutine id')
apply_transaction-shared self l l' tx tx' j out out' v e e' f f' nothing =
    let (id, fresh, c) = apply_transaction-creates self tx l j out v e f in
    let v' = (apply_transaction-Valid self tx l v e).0 in
    let (id', fresh', c') = apply_transaction-creates l tx' l' j out' v' e' f' in
    let (there, kept) =
      apply_transaction-untouched l tx' l' id (entry_for out) v' e' c.entry
        (λ i h. ground (arith, nothing, h)) in
    (
      id,
      id',
      (λ same. ground (arith, fresh', c.entry, ap l.utxos same)),
      there,
      c'.entry,
      kept ∙ (c.coroutine ∙ sym c'.coroutine),
    )
