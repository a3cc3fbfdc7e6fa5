-- ===== src/Ledger/Valid.antt =====
-- The numbering of outputs and the index of the ledger, through `apply_transaction`.
pub mod Loops
use starstream.Prelude.{
  ◌⊎◌, ◌==◌, ℕ, zero, suc, ◌+◌, ◌^◌, ◌≤◌, ◌<◌, ◌≡◌, refl, Bool, true, false, Option, none, some,
  List, [], ◌∷◌, length, get_elem?, ok, err, panic, ◌>>=◌, unwrap, Array, read, write, arith, inl,
  inr, Bool-cases, >>=-returns, filled, if◌then◌else◌, Option-cases, ltb,
}
use starstream.Interleaving.Effects.{ProcessId, Hash}
use starstream.Interleaving.Machine.Control.{is_some}
use starstream.Ledger.State.{
  CoroutineState, state_eq, UtxoId, utxo_id_eq, CoroutineId, NewOutput, TransactionBody,
  ProvenTransaction, UtxoEntry, Ledger, Verified, empty,
}
use starstream.Ledger.Artifacts.{entry_of, verify_witness}
use starstream.Ledger.Apply.{
  counter, allocate, place, input_coroutines, Progress, continue_input, continue_inputs,
  create_outputs, set_owner, set_owners, spend, spend_inputs, apply_transaction, hash,
}

pub record Valid (l : Ledger) : Type 0 where
  -- An output has its contract's hash, and a number that the contract's counter has passed.
  pub numbered :
      (id : UtxoId) (entry : UtxoEntry)
      → l.utxos id ≡ some entry
      → (entry.contract_hash ≡ id.contract_hash) × (id.nonce < counter l id.contract_hash)
  -- The index has the coroutine of each output, and no more.
  pub indexed : (id : UtxoId) → is_some (l.utxos id) ≡ is_some (l.utxo_to_coroutine id)

-- `l` comes from the valid ledger `self`, and is valid.
pub record Grown (self l : Ledger) : Type 0 where
  pub valid : Valid l
  pub counters : (h : Hash) → counter self h ≤ counter l h

pub empty-Valid : Valid empty
empty-Valid = record { numbered = λ id entry e. cc; indexed = λ id. refl }

-- A new identity.
pub record Allocates (l : Ledger) (h : Hash) (id : UtxoId) (l' : Ledger) : Type 0 where
  pub hash : id.contract_hash ≡ h
  pub nonce : id.nonce ≡ counter l h
  pub bumped : counter l' h ≡ counter l h + 1
  pub others : (h' : Hash) → counter l h' ≤ counter l' h'
  pub utxos : l'.utxos ≡ l.utxos
  pub index : l'.utxo_to_coroutine ≡ l.utxo_to_coroutine
  pub registry : l'.ownership_registry ≡ l.ownership_registry

pub allocate-Allocates :
    (l : Ledger) (h : Hash) (id : UtxoId) (l' : Ledger)
    → allocate l h ≡ ok (id, l')
    → Allocates l h id l'
unfolding allocate
allocate-Allocates l h id l' e = record {
  hash = ground arith;
  nonce = ground arith;
  bumped = ground arith;
  others = λ h'. ground arith;
  utxos = ground arith;
  index = ground arith;
  registry = ground arith;
}

-- An output that goes on: the same one, if its state is the same, or a new one.
pub record Continues (self : Ledger) (body : TransactionBody) (i : ℕ) (cont : CoroutineState)
    (p p' : Progress) : Type 0 where
  pub parent : UtxoId
  pub before : UtxoEntry
  pub cid : CoroutineId
  pub id : UtxoId
  pub mid : Ledger
  pub found : get_elem? body.inputs i ≡ some parent
  pub known : self.utxos parent ≡ some before
  pub chosen :
      ((state_eq cont before.state ≡ true)
        × (id ≡ parent)
        × (mid ≡ p.0)
        × (p'.1 ≡ (λ j. if i == j then true else p.1 j)))
      ⊎ ((state_eq cont before.state ≡ false)
          × Allocates p.0 before.contract_hash id mid
          × (p'.1 ≡ p.1))
  pub after :
      p'.0 ≡ place mid id cid (record { state = cont; contract_hash = before.contract_hash })

pub continue_input-Continues :
    (self : Ledger) (body : TransactionBody) (cids : Array (Option CoroutineId)) (i : ℕ)
    (cont : CoroutineState) (p p' : Progress)
    → continue_input self body cids i cont p ≡ ok p'
    → Continues self body i cont p p'
unfolding continue_input
continue_input-Continues self body cids i cont (l, kept) (l', kept') e =
    let (parent, found, e₁) = >>=-returns (unwrap (get_elem? body.inputs i)) _ e in
    let (before, known, e₂) = >>=-returns (entry_of self parent) _ e₁ in
    elim (Bool-cases (state_eq cont before.state)) [
      | inl same ↦
          let (slot, at_slot, e₃) = >>=-returns (read cids i) _ (rw same at e₂) in
          let (cid, there, e₄) = >>=-returns (unwrap slot) _ e₃ in
          record {
            parent = parent;
            before = before;
            cid = cid;
            id = parent;
            mid = l;
            found = ground (arith, found);
            known = ground (arith, known);
            chosen = inl (same, refl, refl, ground (arith, e₄));
            after = ground (arith, e₄);
          }
      | inr other ↦
          let ((id, mid), new, e₃) =
            >>=-returns (allocate l before.contract_hash) _ (rw other at e₂) in
          let (slot, at_slot, e₄) = >>=-returns (read cids i) _ e₃ in
          let (cid, there, e₅) = >>=-returns (unwrap slot) _ e₄ in
          record {
            parent = parent;
            before = before;
            cid = cid;
            id = id;
            mid = mid;
            found = ground (arith, found);
            known = ground (arith, known);
            chosen =
                inr
                  (other, allocate-Allocates l before.contract_hash id mid new, ground (arith, e₅));
            after = ground (arith, e₅);
          }
    ]

module _ (self : Ledger) (v : Valid self) where
  pub place-Grown :
      (l : Ledger) (id : UtxoId) (cid : CoroutineId) (entry : UtxoEntry)
      → Grown self l
      → entry.contract_hash ≡ id.contract_hash
      → id.nonce < counter l id.contract_hash
      → Grown self (place l id cid entry)
  place-Grown l id cid entry g same lt = record {
    valid = record {
      numbered = λ j found e. ground (arith, g.valid.numbered j found);
      indexed = λ j. ground (arith, g.valid.indexed j);
    };
    counters = g.counters;
  }

  pub Allocates-Grown :
      (l : Ledger) (h : Hash) (id : UtxoId) (l' : Ledger)
      → Allocates l h id l'
      → Grown self l
      → Grown self l'
  Allocates-Grown l h id l' a g = record {
    valid = record {
      numbered =
          λ j entry e. ground (arith, a.utxos, a.others j.contract_hash, g.valid.numbered j entry);
      indexed = λ j. ground (arith, a.utxos, a.index, g.valid.indexed j);
    };
    counters = λ h'. ground (arith, a.others h', g.counters h');
  }

  pub Continues-Grown :
      (body : TransactionBody) (i : ℕ) (cont : CoroutineState) (p p' : Progress)
      → Continues self body i cont p p'
      → Grown self p.0
      → Grown self p'.0
  Continues-Grown body i cont p p' c g = elim c.chosen [
    | inl (_, same, there, _) ↦
        let n = v.numbered c.parent c.before c.known in
        rw c.after (
          place-Grown c.mid c.id c.cid _ (rw there g) (ground (arith, n, same))
            (ground (arith, n, same, there, g.counters c.id.contract_hash)))
    | inr (_, a, _) ↦ rw c.after (
        place-Grown c.mid c.id c.cid _ (Allocates-Grown p.0 _ c.id c.mid a g)
          (ground (arith, a.hash)) (ground (arith, a.hash, a.nonce, a.bumped)))
  ]
