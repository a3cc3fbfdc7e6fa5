-- ===== src/Ledger/Spending.antt =====
-- Which outputs `apply_transaction` takes from the ledger, and which it leaves.
use starstream.Prelude.{
  ℕ, zero, suc, ◌+◌, ◌≡◌, ◌≢◌, ◌∙◌, refl, sym, Bool, Option, none, some, List, [], ◌∷◌, get_elem?,
  ok, Array, write, arith, inl, inr, Bool-cases, >>=-returns, ap,
}
use starstream.Interleaving.Effects.{Hash}
use starstream.Ledger.State.{
  CoroutineState, UtxoId, CoroutineId, NewOutput, TransactionBody, ProvenTransaction, Ledger,
  UtxoEntry,
}
use starstream.Ledger.Apply.{
  allocate, place, Progress, continue_input, continue_inputs, create_outputs, spend, spend_inputs,
  apply_transaction,
}
use starstream.Ledger.Valid.{
  Valid, Grown, Allocates, allocate-Allocates, place-Grown, Allocates-Grown, Continues,
  Continues-Grown, continue_input-Continues,
}
use starstream.Ledger.Valid.Loops.{
  Applies, apply_transaction-Applies, set_owners-same, continue_inputs-Grown,
}

-- `l` has at `id` what `self` has.
pub record Same (self l : Ledger) (id : UtxoId) : Type 0 where
  pub entry : l.utxos id ≡ self.utxos id
  pub coroutine : l.utxo_to_coroutine id ≡ self.utxo_to_coroutine id

-- An output that is no input of the transaction.
abbrev pub IsUntouched : TransactionBody → UtxoId → Type 0
IsUntouched body id = (i : ℕ) → get_elem? body.inputs i ≢ some id

module _ (self : Ledger) (v : Valid self) (id : UtxoId) (entry : UtxoEntry)
    (present : self.utxos id ≡ some entry) where
  place-Same :
      (l : Ledger) (id' : UtxoId) (cid : CoroutineId) (entry' : UtxoEntry)
      → id' ≢ id
      → Same self l id
      → Same self (place l id' cid entry') id
  place-Same l id' cid entry' ne s =
      let differ : (id'.contract_hash ≡ id.contract_hash) → (id'.nonce ≡ id.nonce) → ⊥ =
        λ a b. ne (cc) in
      record {
        entry = ground (arith, s.entry, differ);
        coroutine = ground (arith, s.coroutine, differ);
      }

  Allocates-ne :
      (l : Ledger) (h : Hash) (id' : UtxoId) (l' : Ledger)
      → Allocates l h id' l'
      → Grown self l
      → id' ≢ id
  Allocates-ne l h id' l' a g e =
      let old = v.numbered id entry present in
      ground (
        arith,
        a.hash,
        a.nonce,
        g.counters h,
        old,
        ap (λ x. x.nonce) e,
        ap (λ x. x.contract_hash) e,
      )

  Continues-Same :
      (body : TransactionBody) (i : ℕ) (cont : CoroutineState) (p p' : Progress)
      → IsUntouched body id
      → Continues self body i cont p p'
      → Grown self p.0
      → Same self p.0 id
      → Same self p'.0 id
  Continues-Same body i cont p p' out c g s = elim c.chosen [
    | inl (_, same, there, _) ↦
        rw c.after (
          place-Same c.mid c.id c.cid _ (λ e. out i (c.found ∙ ap some (sym same ∙ e)))
            (rw there s))
    | inr (_, a, _) ↦ rw c.after (
        place-Same c.mid c.id c.cid _ (Allocates-ne p.0 _ c.id c.mid a g)
          (record { entry = rw a.utxos s.entry; coroutine = rw a.index s.coroutine }))
  ]

  continue_inputs-Same :
      (body : TransactionBody) (cids : Array (Option CoroutineId)) (i : ℕ)
      (conts : List (Option CoroutineState)) (p p' : Progress)
      → IsUntouched body id
      → continue_inputs self body cids i conts p ≡ ok p'
      → Grown self p.0
      → Same self p.0 id
      → Same self p'.0 id
  unfolding continue_inputs
  continue_inputs-Same body cids i [] p p' out e g s =
      let same : p ≡ p' = ground (arith, e) in rw (← same) s
  continue_inputs-Same body cids i (none ∷ conts) p p' out e g s =
      continue_inputs-Same body cids (suc i) conts p p' out e g s
  continue_inputs-Same body cids i (some cont ∷ conts) p p' out e g s =
      let (mid, first, later) = >>=-returns (continue_input self body cids i cont p) _ e in
      let c = continue_input-Continues self body cids i cont p mid first in
      continue_inputs-Same body cids (suc i) conts mid p' out later
        (Continues-Grown self v body i cont p mid c g) (Continues-Same body i cont p mid out c g s)

  pub create_outputs-Same :
      (tx_hash n j : ℕ) (outs : List NewOutput) (p p' : Ledger × Array (Option CoroutineId))
      → create_outputs tx_hash n j outs p ≡ ok p'
      → Grown self p.0
      → Same self p.0 id
      → Same self p'.0 id
  unfolding create_outputs
  create_outputs-Same tx_hash n j [] p p' e g s =
      let same : p ≡ p' = ground (arith, e) in rw (← same) s
  create_outputs-Same tx_hash n j (out ∷ outs) (l, cids) p' e g s =
      let ((new_id, mid), new, e₁) = >>=-returns (allocate l out.contract_hash) _ e in
      let (cids', there, e₂) = >>=-returns (write cids (n + j) _) _ e₁ in
      let a = allocate-Allocates l out.contract_hash new_id mid new in
      create_outputs-Same tx_hash n (suc j) outs _ p' e₂
        (place-Grown self v mid new_id _ _ (Allocates-Grown self v l _ new_id mid a g)
          (ground (arith, a.hash)) (ground (arith, a.hash, a.nonce, a.bumped)))
        (place-Same mid new_id _ _ (Allocates-ne l _ new_id mid a g)
          (record { entry = rw a.utxos s.entry; coroutine = rw a.index s.coroutine }))

  spend-Same :
      (id' : UtxoId) (l l' : Ledger)
      → id' ≢ id
      → spend id' l ≡ ok l'
      → Same self l id
      → Same self l' id
  unfolding spend
  spend-Same id' l l' ne e s =
      let differ : (id'.contract_hash ≡ id.contract_hash) → (id'.nonce ≡ id.nonce) → ⊥ =
        λ a b. ne (cc) in
      record {
        entry = ground (arith, e, s.entry, differ);
        coroutine = ground (arith, e, s.coroutine, differ);
      }

  pub spend_inputs-Same :
      (kept : ℕ → Bool) (i : ℕ) (ids : List UtxoId) (l l' : Ledger)
      → ((c : ℕ) → get_elem? ids c ≢ some id)
      → spend_inputs kept i ids l ≡ ok l'
      → Same self l id
      → Same self l' id
  unfolding spend_inputs
  spend_inputs-Same kept i [] l l' out e s = let same : l ≡ l' = ground (arith, e) in rw (← same) s
  spend_inputs-Same kept i (x ∷ xs) l l' out e s = elim (Bool-cases (kept i)) [
    | inl keeps ↦ spend_inputs-Same kept (suc i) xs l l' (λ c. out (suc c)) (rw keeps at e) s
    | inr spends ↦
        let (mid, first, later) = >>=-returns (spend x l) _ (rw spends at e) in
        spend_inputs-Same kept (suc i) xs mid l' (λ c. out (suc c)) later
          (spend-Same x l mid (λ f. out zero (ap some f)) first s)
  ]

  Applies-Same :
      (tx : ProvenTransaction) (l : Ledger)
      → Applies self tx l
      → IsUntouched tx.body id
      → Same self l id
  Applies-Same tx l a out =
      let start : Grown self self = record { valid = v; counters = λ h. omega arith } in
      let s₀ : Same self self id = record { entry = refl; coroutine = refl } in
      let g₁ =
        continue_inputs-Grown self v tx.body a.inputs 0 tx.body.continuations _ a.continued
          a.continues start in
      let s₁ =
        continue_inputs-Same tx.body a.inputs 0 tx.body.continuations _ a.continued out a.continues
          start s₀ in
      let s₂ =
        create_outputs-Same _ _ 0 tx.body.new_outputs _ (a.created, a.cids) a.creates g₁ s₁ in
      let (b, c, _) = set_owners-same self v tx.body a.cids _ 0 _ _ a.owns in
      spend_inputs-Same a.continued.1 0 tx.body.inputs a.owned l out a.spends
        (record { entry = rw b s₂.entry; coroutine = rw c s₂.coroutine })

-- An applied transaction leaves each output that is not among its inputs where it is, with its state
-- and its coroutine.
pub apply_transaction-untouched :
    (self : Ledger) (tx : ProvenTransaction) (l : Ledger) (id : UtxoId) (entry : UtxoEntry)
    → Valid self
    → apply_transaction self tx ≡ ok l
    → self.utxos id ≡ some entry
    → IsUntouched tx.body id
    → (l.utxos id ≡ some entry) × (l.utxo_to_coroutine id ≡ self.utxo_to_coroutine id)
apply_transaction-untouched self tx l id entry v e present out =
    let s = Applies-Same self v id entry present tx l (apply_transaction-Applies self tx l e) out in
    (s.entry ∙ present, s.coroutine)
