-- ===== src/Ledger/Valid/Loops.antt =====
-- Each loop of `apply_transaction` keeps the ledger valid.
use starstream.Prelude.{
  ◌∙◌, ℕ, zero, suc, ◌+◌, ◌≤◌, ◌≡◌, Bool, false, Option, none, some, List, [], ◌∷◌, length, ok,
  Array, write, arith, inl, inr, Bool-cases, >>=-returns, filled,
}
use starstream.Interleaving.Effects.{ProcessId, Hash}
use starstream.Ledger.State.{
  CoroutineState, UtxoId, CoroutineId, NewOutput, TransactionBody, ProvenTransaction, Ledger,
}
use starstream.Ledger.Artifacts.{verify_witness}
use starstream.Ledger.Apply.{
  counter, allocate, input_coroutines, Progress, continue_input, continue_inputs, create_outputs,
  set_owner, set_owners, spend, spend_inputs, apply_transaction, hash,
}
use starstream.Ledger.Valid.{
  Valid, Grown, allocate-Allocates, place-Grown, Allocates-Grown, Continues-Grown,
  continue_input-Continues,
}

-- The parts of a successful `apply_transaction`.
pub record Applies (self : Ledger) (tx : ProvenTransaction) (l : Ledger) : Type 0 where
  pub inputs : Array (Option CoroutineId)
  pub cids : Array (Option CoroutineId)
  pub continued : Progress
  pub created : Ledger
  pub owned : Ledger
  pub verified : verify_witness self tx.body tx.witness ≡ ok tt
  pub known :
      input_coroutines self 0 tx.body.inputs
        (filled (length tx.body.inputs + length tx.body.new_outputs) none)
      ≡ ok inputs
  pub continues :
      continue_inputs self tx.body inputs 0 tx.body.continuations (self, λ _. false) ≡ ok continued
  pub creates :
      create_outputs
        (hash tx.body)
        (length tx.body.inputs)
        0
        tx.body.new_outputs
        (continued.0, inputs)
      ≡ ok (created, cids)
  pub owns :
      set_owners tx.body cids (length tx.body.inputs + length tx.body.new_outputs) 0 created
      ≡ ok owned
  pub spends : spend_inputs continued.1 0 tx.body.inputs owned ≡ ok l

pub apply_transaction-Applies :
    (self : Ledger) (tx : ProvenTransaction) (l : Ledger)
    → apply_transaction self tx ≡ ok l
    → Applies self tx l
unfolding apply_transaction
apply_transaction-Applies self tx l e =
    let (tt, verified, e₁) = >>=-returns (verify_witness self tx.body tx.witness) _ e in
    let (inputs, known, e₂) = >>=-returns (input_coroutines self 0 tx.body.inputs _) _ e₁ in
    let ((mid, kept), continues, e₃) =
      >>=-returns (continue_inputs self tx.body inputs 0 tx.body.continuations _) _ e₂ in
    let ((created, cids), creates, e₄) =
      >>=-returns (create_outputs _ _ 0 tx.body.new_outputs (mid, inputs)) _ e₃ in
    let (owned, owns, spends) = >>=-returns (set_owners tx.body cids _ 0 created) _ e₄ in
    record {
      inputs = inputs;
      cids = cids;
      continued = (mid, kept);
      created = created;
      owned = owned;
      verified = verified;
      known = known;
      continues = continues;
      creates = creates;
      owns = owns;
      spends = spends;
    }

module _ (self : Ledger) (v : Valid self) where
  pub continue_inputs-Grown :
      (body : TransactionBody) (cids : Array (Option CoroutineId)) (i : ℕ)
      (conts : List (Option CoroutineState)) (p p' : Progress)
      → continue_inputs self body cids i conts p ≡ ok p'
      → Grown self p.0
      → Grown self p'.0
  unfolding continue_inputs
  continue_inputs-Grown body cids i [] p p' e g =
      let same : p ≡ p' = ground (arith, e) in rw (← same) g
  continue_inputs-Grown body cids i (none ∷ conts) p p' e g =
      continue_inputs-Grown body cids (suc i) conts p p' e g
  continue_inputs-Grown body cids i (some cont ∷ conts) p p' e g =
      let (mid, first, later) = >>=-returns (continue_input self body cids i cont p) _ e in
      continue_inputs-Grown body cids (suc i) conts mid p' later (
        Continues-Grown self v body i cont p mid
          (continue_input-Continues self body cids i cont p mid first) g)

  pub create_outputs-Grown :
      (tx_hash n j : ℕ) (outs : List NewOutput) (p p' : Ledger × Array (Option CoroutineId))
      → create_outputs tx_hash n j outs p ≡ ok p'
      → Grown self p.0
      → Grown self p'.0
  unfolding create_outputs
  create_outputs-Grown tx_hash n j [] p p' e g =
      let same : p ≡ p' = ground (arith, e) in rw (← same) g
  create_outputs-Grown tx_hash n j (out ∷ outs) (l, cids) p' e g =
      let ((id, mid), new, e₁) = >>=-returns (allocate l out.contract_hash) _ e in
      let (cids', there, e₂) = >>=-returns (write cids (n + j) _) _ e₁ in
      let a = allocate-Allocates l out.contract_hash id mid new in
      create_outputs-Grown tx_hash n (suc j) outs _ p' e₂ (
        place-Grown self v mid id _ _ (Allocates-Grown self v l _ id mid a g)
          (ground (arith, a.hash)) (ground (arith, a.hash, a.nonce, a.bumped)))

  -- Owners do not touch outputs.
  set_owner-same :
      (body : TransactionBody) (cids : Array (Option CoroutineId)) (pid : ProcessId) (l l' : Ledger)
      → set_owner body cids pid l ≡ ok l'
      → (l'.utxos ≡ l.utxos)
        × (l'.utxo_to_coroutine ≡ l.utxo_to_coroutine)
        × (l'.contract_counters ≡ l.contract_counters)
  unfolding set_owner
  set_owner-same body cids pid l l' e = ground (arith, e)

  pub set_owners-same :
      (body : TransactionBody) (cids : Array (Option CoroutineId)) (k start : ℕ) (l l' : Ledger)
      → set_owners body cids k start l ≡ ok l'
      → (l'.utxos ≡ l.utxos)
        × (l'.utxo_to_coroutine ≡ l.utxo_to_coroutine)
        × (l'.contract_counters ≡ l.contract_counters)
  unfolding set_owners
  set_owners-same body cids zero start l l' e = ground (arith, e)
  set_owners-same body cids (suc k) start l l' e =
      let (mid, first, later) = >>=-returns (set_owner body cids start l) _ e in
      let (a, b, c) = set_owner-same body cids start l mid first in
      let (a', b', c') = set_owners-same body cids k (suc start) mid l' later in
      (a' ∙ a, b' ∙ b, c' ∙ c)

  same-Grown :
      (l l' : Ledger)
      → (l'.utxos ≡ l.utxos)
        × (l'.utxo_to_coroutine ≡ l.utxo_to_coroutine)
        × (l'.contract_counters ≡ l.contract_counters)
      → Grown self l
      → Grown self l'
  same-Grown l l' (a, b, c) g = record {
    valid = record {
      numbered = λ j entry e. ground (arith, a, c, g.valid.numbered j entry);
      indexed = λ j. ground (arith, a, b, g.valid.indexed j);
    };
    counters = λ h. ground (arith, c, g.counters h);
  }

  spend-Grown : (id : UtxoId) (l l' : Ledger) → spend id l ≡ ok l' → Grown self l → Grown self l'
  unfolding spend
  spend-Grown id l l' e g = record {
    valid = record {
      numbered = λ j entry f. ground (arith, e, g.valid.numbered j entry);
      indexed = λ j. ground (arith, e, g.valid.indexed j);
    };
    counters = λ h. ground (arith, e, g.counters h);
  }

  spend_inputs-Grown :
      (kept : ℕ → Bool) (i : ℕ) (ids : List UtxoId) (l l' : Ledger)
      → spend_inputs kept i ids l ≡ ok l'
      → Grown self l
      → Grown self l'
  unfolding spend_inputs
  spend_inputs-Grown kept i [] l l' e g = let same : l ≡ l' = ground (arith, e) in rw (← same) g
  spend_inputs-Grown kept i (id ∷ ids) l l' e g = elim (Bool-cases (kept i)) [
    | inl keeps ↦ spend_inputs-Grown kept (suc i) ids l l' (rw keeps at e) g
    | inr spends ↦
        let (mid, first, later) = >>=-returns (spend id l) _ (rw spends at e) in
        spend_inputs-Grown kept (suc i) ids mid l' later (spend-Grown id l mid first g)
  ]

  pub Applies-Grown : (tx : ProvenTransaction) (l : Ledger) → Applies self tx l → Grown self l
  Applies-Grown tx l a =
      let start : Grown self self = record { valid = v; counters = λ h. omega arith } in
      let g₁ =
        continue_inputs-Grown tx.body a.inputs 0 tx.body.continuations _ a.continued a.continues
          start in
      let g₂ = create_outputs-Grown _ _ 0 tx.body.new_outputs _ (a.created, a.cids) a.creates g₁ in
      let g₃ = same-Grown a.created a.owned (set_owners-same tx.body a.cids _ 0 _ _ a.owns) g₂ in
      spend_inputs-Grown a.continued.1 0 tx.body.inputs a.owned l a.spends g₃

-- The numbering and the index of a ledger stay valid through an applied transaction, and no
-- contract's counter goes back.
pub apply_transaction-Valid :
    (self : Ledger) (tx : ProvenTransaction) (l : Ledger)
    → Valid self
    → apply_transaction self tx ≡ ok l
    → Valid l × ((h : Hash) → counter self h ≤ counter l h)
apply_transaction-Valid self tx l v e =
    let g = Applies-Grown self v tx l (apply_transaction-Applies self tx l e) in
    (g.valid, g.counters)
