-- ===== src/Ledger/Created.antt =====
-- The new outputs that `apply_transaction` enters into the ledger.
use starstream.Prelude.{
  ℕ, zero, suc, ◌+◌, ◌≤◌, ◌≡◌, ◌≢◌, ◌∙◌, refl, true, Option, none, some, List, [], ◌∷◌, get_elem?,
  ok, unwrap, Array, write, arith, inl, inr, Option-cases, >>=-returns,
}
use starstream.Interleaving.Effects.{Hash}
use starstream.Interleaving.Machine.Control.{is_some}
use starstream.Ledger.State.{UtxoId, CoroutineId, NewOutput, ProvenTransaction, Ledger, UtxoEntry}
use starstream.Ledger.Apply.{
  counter, allocate, place, input_coroutines, create_outputs, apply_transaction, hash,
}
use starstream.Ledger.Valid.{
  Valid, Grown, Allocates, allocate-Allocates, place-Grown, Allocates-Grown,
}
use starstream.Ledger.Valid.Loops.{
  Applies, apply_transaction-Applies, set_owners-same, continue_inputs-Grown, create_outputs-Grown,
}
use starstream.Ledger.Spending.{create_outputs-Same, spend_inputs-Same}

abbrev pub entry_for : NewOutput → UtxoEntry
entry_for out = record { state = out.state; contract_hash = out.contract_hash }

-- The output `out` stands in `l` under a new identity `id`, for the coroutine `index` of the
-- transaction.
pub record Created (self l : Ledger) (tx_hash : Hash) (index : ℕ) (out : NewOutput) (id : UtxoId)
    : Type 0 where
  pub contract : id.contract_hash ≡ out.contract_hash
  pub numbered : counter self out.contract_hash ≤ id.nonce
  pub entry : l.utxos id ≡ some (entry_for out)
  pub coroutine :
      l.utxo_to_coroutine id
      ≡ some (record { creation_tx_hash = tx_hash; creation_output_index = index })

module _ (self : Ledger) (v : Valid self) where
  placed-Grown :
      (l : Ledger) (out : NewOutput) (id : UtxoId) (mid : Ledger) (cid : CoroutineId)
      → Allocates l out.contract_hash id mid
      → Grown self l
      → Grown self (place mid id cid (entry_for out))
  placed-Grown l out id mid cid a g =
      place-Grown self v mid id cid (entry_for out) (Allocates-Grown self v l _ id mid a g)
        (ground (arith, a.hash)) (ground (arith, a.hash, a.nonce, a.bumped))

  create_outputs-Created :
      (tx_hash n j c : ℕ) (outs : List NewOutput) (out : NewOutput)
      (p p' : Ledger × Array (Option CoroutineId))
      → create_outputs tx_hash n j outs p ≡ ok p'
      → Grown self p.0
      → get_elem? outs c ≡ some out
      → (id : UtxoId) × Created self p'.0 tx_hash (j + c) out id
  unfolding create_outputs
  create_outputs-Created tx_hash n j c [] out p p' e g f = cc
  create_outputs-Created tx_hash n j zero (x ∷ xs) out (l, cids) p' e g f =
      let ((id, mid), new, e₁) = >>=-returns (allocate l x.contract_hash) _ e in
      let (cids', there, e₂) = >>=-returns (write cids (n + j) _) _ e₁ in
      let a = allocate-Allocates l x.contract_hash id mid new in
      let cid : CoroutineId = record { creation_tx_hash = tx_hash; creation_output_index = j } in
      let placed = place mid id cid (entry_for x) in
      let g' = placed-Grown l x id mid cid a g in
      let start : Grown placed placed = record { valid = g'.valid; counters = λ h. omega arith } in
      let s =
        create_outputs-Same placed g'.valid id (entry_for x) (ground arith) tx_hash n (suc j) xs
          (placed, cids') p' e₂ start (record { entry = refl; coroutine = refl }) in
      let same : x ≡ out = cc in
      let here : j + 0 ≡ j = omega arith in
      rw (here, ← same)
        (
          id,
          record {
            contract = a.hash;
            numbered = ground (arith, a.nonce, g.counters x.contract_hash);
            entry = s.entry ∙ ground arith;
            coroutine = s.coroutine ∙ ground arith;
          },
        )
  create_outputs-Created tx_hash n j (suc c) (x ∷ xs) out (l, cids) p' e g f =
      let ((id, mid), new, e₁) = >>=-returns (allocate l x.contract_hash) _ e in
      let (cids', there, e₂) = >>=-returns (write cids (n + j) _) _ e₁ in
      let a = allocate-Allocates l x.contract_hash id mid new in
      let next : j + suc c ≡ suc j + c = omega arith in
      rw next (
        create_outputs-Created tx_hash n (suc j) c xs out _ p' e₂ (placed-Grown l x id mid _ a g) f)

  -- The inputs are known to the ledger before the transaction.
  input_coroutines-known :
      (i c : ℕ) (ids : List UtxoId) (cids cids' : Array (Option CoroutineId)) (id : UtxoId)
      → input_coroutines self i ids cids ≡ ok cids'
      → get_elem? ids c ≡ some id
      → is_some (self.utxo_to_coroutine id) ≡ true
  unfolding input_coroutines
  input_coroutines-known i c [] cids cids' id e f = cc
  input_coroutines-known i zero (x ∷ xs) cids cids' id e f =
      let (cid, known, _) = >>=-returns (unwrap (self.utxo_to_coroutine x)) _ e in
      let same : x ≡ id = cc in rw (← same) (ground (arith, known))
  input_coroutines-known i (suc c) (x ∷ xs) cids cids' id e f =
      let (cid, _, e₁) = >>=-returns (unwrap (self.utxo_to_coroutine x)) _ e in
      let (next, _, e₂) = >>=-returns (write cids i (some cid)) _ e₁ in
      input_coroutines-known (suc i) c xs next cids' id e₂ f

  Created-ne-input :
      (tx : ProvenTransaction) (l l' : Ledger) (a : Applies self tx l) (j : ℕ) (out : NewOutput)
      (id : UtxoId)
      → Created self l' (hash tx.body) j out id
      → (i : ℕ) → get_elem? tx.body.inputs i ≢ some id
  Created-ne-input tx l l' a j out id c i f =
      let known = input_coroutines-known 0 i tx.body.inputs _ a.inputs id a.known f in
      elim (Option-cases (self.utxos id)) [
        | inl missing ↦ ground (arith, known, missing, v.indexed id)
        | inr (entry, there) ↦ ground (arith, c.contract, c.numbered, v.numbered id entry there)
      ]

-- Each new output of an applied transaction is in the ledger, with its state, under an identity that
-- the ledger did not have, and the index has the coroutine of the transaction's hash and the number
-- of the output.
pub apply_transaction-creates :
    (self : Ledger) (tx : ProvenTransaction) (l : Ledger) (j : ℕ) (out : NewOutput)
    → Valid self
    → apply_transaction self tx ≡ ok l
    → get_elem? tx.body.new_outputs j ≡ some out
    → (id : UtxoId) × (self.utxos id ≡ none) × Created self l (hash tx.body) j out id
apply_transaction-creates self tx l j out v e f =
    let a = apply_transaction-Applies self tx l e in
    let start : Grown self self = record { valid = v; counters = λ h. omega arith } in
    let g₁ =
      continue_inputs-Grown self v tx.body a.inputs 0 tx.body.continuations _ a.continued
        a.continues start in
    let g₂ =
      create_outputs-Grown self v _ _ 0 tx.body.new_outputs _ (a.created, a.cids) a.creates g₁ in
    let (id, c) =
      create_outputs-Created self v _ _ 0 j tx.body.new_outputs out _ (a.created, a.cids) a.creates
        g₁ f in
    let (b, d, _) = set_owners-same self v tx.body a.cids _ 0 _ _ a.owns in
    let here : 0 + j ≡ j = omega arith in
    let c' = rw here at c in
    let s =
      spend_inputs-Same a.created g₂.valid id (entry_for out) c'.entry a.continued.1 0
        tx.body.inputs a.owned l (Created-ne-input self v tx l a.created a j out id c') a.spends
        (record { entry = rw b refl; coroutine = rw d refl }) in
    (
      id,
      elim (Option-cases (self.utxos id)) [
        | inl missing ↦ missing
        | inr (entry, there) ↦
            absurd (ground (arith, c'.contract, c'.numbered, v.numbered id entry there))
      ],
      record {
        contract = c'.contract;
        numbered = c'.numbered;
        entry = s.entry ∙ c'.entry;
        coroutine = s.coroutine ∙ c'.coroutine;
      },
    )
