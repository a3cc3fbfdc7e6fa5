-- ===== src/Ledger/Spent.antt =====
-- The inputs that `apply_transaction` spends: those that burn, and those that go on with another
-- state.
use starstream.Prelude.{
  ℕ, zero, suc, ◌+◌, ◌<◌, ◌≡◌, ◌≢◌, refl, Bool, false, Option, none, some, List, [], ◌∷◌, get_elem?,
  ok, Array, arith, inl, inr, Bool-cases, >>=-returns,
}
use starstream.Ledger.State.{
  CoroutineState, state_eq, UtxoId, CoroutineId, TransactionBody, ProvenTransaction, Ledger,
  UtxoEntry,
}
use starstream.Ledger.Apply.{
  Progress, continue_input, continue_inputs, spend, spend_inputs, apply_transaction,
}
use starstream.Ledger.Valid.{Continues, continue_input-Continues}
use starstream.Ledger.Valid.Loops.{Applies, apply_transaction-Applies}

-- The input `i` has no continuation, or one of another state than it has in the ledger.
abbrev pub IsConsumed : Ledger → TransactionBody → ℕ → Type 0
IsConsumed self body i =
    (cont : CoroutineState) (parent : UtxoId) (before : UtxoEntry)
    → get_elem? body.continuations i ≡ some (some cont)
    → get_elem? body.inputs i ≡ some parent
    → self.utxos parent ≡ some before
    → state_eq cont before.state ≡ false

module _ (self : Ledger) (body : TransactionBody) (j : ℕ) where
  Continues-kept :
      (i : ℕ) (cont : CoroutineState) (p p' : Progress)
      → Continues self body i cont p p'
      → ((parent : UtxoId) (before : UtxoEntry)
          → i ≡ j
          → get_elem? body.inputs i ≡ some parent
          → self.utxos parent ≡ some before
          → state_eq cont before.state ≡ false)
      → p.1 j ≡ false
      → p'.1 j ≡ false
  Continues-kept i cont p p' c consumed h = elim c.chosen [
    | inl (same, _, _, e) ↦ ground (arith, h, e, same, consumed c.parent c.before, c.found, c.known)
    | inr (_, _, e) ↦ ground (arith, h, e)
  ]

  continue_inputs-kept :
      (cids : Array (Option CoroutineId)) (i : ℕ) (conts : List (Option CoroutineState))
      (p p' : Progress)
      → continue_inputs self body cids i conts p ≡ ok p'
      → ((c : ℕ) (cont : CoroutineState) (parent : UtxoId) (before : UtxoEntry)
          → i + c ≡ j
          → get_elem? conts c ≡ some (some cont)
          → get_elem? body.inputs j ≡ some parent
          → self.utxos parent ≡ some before
          → state_eq cont before.state ≡ false)
      → p.1 j ≡ false
      → p'.1 j ≡ false
  unfolding continue_inputs
  continue_inputs-kept cids i [] p p' e consumed h =
      let same : p ≡ p' = ground (arith, e) in rw (← same) h
  continue_inputs-kept cids i (none ∷ conts) p p' e consumed h =
      continue_inputs-kept cids (suc i) conts p p' e
        (λ c cont parent before f. consumed (suc c) cont parent before (omega (arith, f))) h
  continue_inputs-kept cids i (some cont ∷ conts) p p' e consumed h =
      let (mid, first, later) = >>=-returns (continue_input self body cids i cont p) _ e in
      let c = continue_input-Continues self body cids i cont p mid first in
      continue_inputs-kept cids (suc i) conts mid p' later
        (λ c cont parent before f. consumed (suc c) cont parent before (omega (arith, f)))
        (Continues-kept i cont p mid c
          (λ parent before f found.
            consumed 0 cont parent before (omega (arith, f)) refl (rw f at found))
          h)

spend-gone : (id : UtxoId) (l l' : Ledger) → spend id l ≡ ok l' → l'.utxos id ≡ none
unfolding spend
spend-gone id l l' e = ground (arith, e)

spend-keeps_gone :
    (id id' : UtxoId) (l l' : Ledger) → spend id' l ≡ ok l' → l.utxos id ≡ none → l'.utxos id ≡ none
unfolding spend
spend-keeps_gone id id' l l' e gone = ground (arith, e, gone)

module _ (kept : ℕ → Bool) (id : UtxoId) where
  spend_inputs-keeps_gone :
      (i : ℕ) (ids : List UtxoId) (l l' : Ledger)
      → spend_inputs kept i ids l ≡ ok l'
      → l.utxos id ≡ none
      → l'.utxos id ≡ none
  unfolding spend_inputs
  spend_inputs-keeps_gone i [] l l' e gone =
      let same : l ≡ l' = ground (arith, e) in rw (← same) gone
  spend_inputs-keeps_gone i (x ∷ xs) l l' e gone = elim (Bool-cases (kept i)) [
    | inl keeps ↦ spend_inputs-keeps_gone (suc i) xs l l' (rw keeps at e) gone
    | inr spends ↦
        let (mid, first, later) = >>=-returns (spend x l) _ (rw spends at e) in
        spend_inputs-keeps_gone (suc i) xs mid l' later (spend-keeps_gone id x l mid first gone)
  ]

  spend_inputs-gone :
      (i c : ℕ) (ids : List UtxoId) (l l' : Ledger)
      → spend_inputs kept i ids l ≡ ok l'
      → get_elem? ids c ≡ some id
      → kept (i + c) ≡ false
      → l'.utxos id ≡ none
  unfolding spend_inputs
  spend_inputs-gone i c [] l l' e f h = cc
  spend_inputs-gone i zero (x ∷ xs) l l' e f h =
      let start : i + 0 ≡ i = omega arith in
      let spends : kept i ≡ false = rw start at h in
      let (mid, first, later) = >>=-returns (spend x l) _ (rw spends at e) in
      let same : x ≡ id = cc in
      spend_inputs-keeps_gone (suc i) xs mid l' later (rw (← same) (spend-gone x l mid first))
  spend_inputs-gone i (suc c) (x ∷ xs) l l' e f g =
      let next : i + suc c ≡ suc i + c = omega arith in
      let h = rw next at g in
      elim (Bool-cases (kept i)) [
        | inl keeps ↦ spend_inputs-gone (suc i) c xs l l' (rw keeps at e) f h
        | inr spends ↦
            let (mid, first, later) = >>=-returns (spend x l) _ (rw spends at e) in
            spend_inputs-gone (suc i) c xs mid l' later f h
      ]

  -- An output that is gone cannot be spent.
  spend_inputs-twice :
      (i c : ℕ) (ids : List UtxoId) (l l' : Ledger)
      → spend_inputs kept i ids l ≡ ok l'
      → l.utxos id ≡ none
      → get_elem? ids c ≡ some id
      → kept (i + c) ≢ false
  unfolding spend_inputs
  spend_inputs-twice i c [] l l' e gone f h = cc
  spend_inputs-twice i zero (x ∷ xs) l l' e gone f h =
      let start : i + 0 ≡ i = omega arith in
      let spends : kept i ≡ false = rw start at h in
      let same : x ≡ id = cc in
      let (mid, first, _) = >>=-returns (spend x l) _ (rw spends at e) in
      absurd (nothing_there mid (rw same at first) gone)
    where
      nothing_there : (mid : Ledger) → spend id l ≡ ok mid → l.utxos id ≡ none → ⊥
      nothing_there mid e gone = unfold spend in ground (arith, e, gone)
  spend_inputs-twice i (suc c) (x ∷ xs) l l' e gone f g =
      let next : i + suc c ≡ suc i + c = omega arith in
      let h = rw next at g in
      elim (Bool-cases (kept i)) [
        | inl keeps ↦ spend_inputs-twice (suc i) c xs l l' (rw keeps at e) gone f h
        | inr spends ↦
            let (mid, first, later) = >>=-returns (spend x l) _ (rw spends at e) in
            spend_inputs-twice (suc i) c xs mid l' later (spend-keeps_gone id x l mid first gone) f
              h
      ]

  -- An output that stands twice among the inputs cannot be spent at both places.
  spend_inputs-once :
      (i c d : ℕ) (ids : List UtxoId) (l l' : Ledger)
      → spend_inputs kept i ids l ≡ ok l'
      → c < d
      → get_elem? ids c ≡ some id
      → get_elem? ids d ≡ some id
      → kept (i + c) ≡ false
      → kept (i + d) ≢ false
  unfolding spend_inputs
  spend_inputs-once i c zero ids l l' e lt f g h k = elim lt [ ]
  spend_inputs-once i c (suc d) [] l l' e lt f g h k = cc
  spend_inputs-once i zero (suc d) (x ∷ xs) l l' e lt f g h k =
      let start : i + 0 ≡ i = omega arith in
      let next : i + suc d ≡ suc i + d = omega arith in
      let spends : kept i ≡ false = rw start at h in
      let (mid, first, later) = >>=-returns (spend x l) _ (rw spends at e) in
      let same : x ≡ id = cc in
      spend_inputs-twice (suc i) d xs mid l' later (rw (← same) (spend-gone x l mid first)) g
        (rw next at k)
  spend_inputs-once i (suc c) (suc d) (x ∷ xs) l l' e lt f g h k =
      let here : i + suc c ≡ suc i + c = omega arith in
      let next : i + suc d ≡ suc i + d = omega arith in
      let h' = rw here at h in
      let k' = rw next at k in
      elim (Bool-cases (kept i)) [
        | inl keeps ↦ spend_inputs-once (suc i) c d xs l l' (rw keeps at e) (omega arith) f g h' k'
        | inr spends ↦
            let (mid, first, later) = >>=-returns (spend x l) _ (rw spends at e) in
            spend_inputs-once (suc i) c d xs mid l' later (omega arith) f g h' k'
      ]

module _ (self : Ledger) (tx : ProvenTransaction) (l : Ledger)
    (e : apply_transaction self tx ≡ ok l) where
  IsConsumed-kept :
      (a : Applies self tx l) (i : ℕ) → IsConsumed self tx.body i → a.continued.1 i ≡ false
  IsConsumed-kept a i consumed =
      continue_inputs-kept self tx.body i a.inputs 0 tx.body.continuations _ a.continued a.continues
        (λ c cont parent before f at_c. consumed cont parent before (rw (rw_start c f) at at_c))
        refl
    where
      rw_start : (c : ℕ) → 0 + c ≡ i → c ≡ i
      rw_start c f = omega (arith, f)

  -- An input of an applied transaction that has no continuation, or one of another state, is no
  -- longer in the ledger.
  pub apply_transaction-consumed :
      (i : ℕ) (id : UtxoId)
      → get_elem? tx.body.inputs i ≡ some id
      → IsConsumed self tx.body i
      → l.utxos id ≡ none
  apply_transaction-consumed i id f consumed =
      let a = apply_transaction-Applies self tx l e in
      let start : 0 + i ≡ i = omega arith in
      spend_inputs-gone a.continued.1 id 0 i tx.body.inputs a.owned l a.spends f
        (rw start (IsConsumed-kept a i consumed))

  -- No output is consumed twice by an applied transaction: two inputs that have no continuation, or
  -- one of another state, are different outputs.
  pub apply_transaction-once :
      (i j : ℕ) (id : UtxoId)
      → i < j
      → get_elem? tx.body.inputs i ≡ some id
      → IsConsumed self tx.body i
      → IsConsumed self tx.body j
      → get_elem? tx.body.inputs j ≢ some id
  apply_transaction-once i j id lt f ci cj g =
      let a = apply_transaction-Applies self tx l e in
      let start : 0 + i ≡ i = omega arith in
      let start_j : 0 + j ≡ j = omega arith in
      spend_inputs-once a.continued.1 id 0 i j tx.body.inputs a.owned l a.spends lt f g
        (rw start (IsConsumed-kept a i ci)) (rw start_j (IsConsumed-kept a j cj))
