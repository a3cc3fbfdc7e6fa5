-- ===== src/Ledger/Instances.antt =====
-- The instance that the ledger makes of a transaction is well-formed.
use starstream.Prelude.{
  ◌∙◌, ℕ, zero, suc, ◌+◌, ◌<◌, ◌≡◌, refl, Bool, true, false, Option, none, some, List, [], ◌∷◌,
  ◌++◌, map, length, get_elem?, ok, refuse, assert, arith, inl, inr, Option-cases, Outcome,
  replicate, traverse, tabulate, ap, >>=-returns, from_list, ◌==◌, ltb, length-append, not,
}
use starstream.Interleaving.Effects.{ProcessId, WitLedgerEffect}
use starstream.Interleaving.Instance.{InterleavingInstance}
use starstream.Interleaving.Run.Keeps.{WellFormed}
use starstream.Ledger.State.{
  UtxoId, CoroutineId, coroutine_id_eq, TransactionBody, TransactionWitness, UtxoEntry, Ledger,
  input_continuation_size_mismatch, insert_at,
}
use starstream.Ledger.Artifacts.{
  coroutine_to_pid, owner_of, input_ownership_for_inputs, check_inputs, check_outputs,
  check_scripts, entry_of, instance_of, interleaving_artifacts,
}

length-map {ℓ κ} :
    {A : Type ℓ} {B : Type κ} (f : A → B) (xs : List A) → length (map f xs) ≡ length xs
length-map f [] = refl
length-map f (x ∷ xs) = ap suc (length-map f xs)

length-traverse {ℓ κ μ} :
    {E : Type ℓ} {A : Type κ} {B : Type μ} (f : A → Outcome E B) (xs : List A) (ys : List B)
    → traverse f xs ≡ ok ys
    → length ys ≡ length xs
length-traverse f [] ys h = ground (arith, h)
length-traverse f (x ∷ xs) ys h =
    let (y, first, rest) = >>=-returns (f x) _ h in
    let (zs, later, same) = >>=-returns (traverse f xs) _ rest in
    ground (arith, same, length-traverse f xs zs later)

-- The flags of a tabulated list.
at-tabulate :
    (k start : ℕ) (f : ℕ → Bool) (p : ℕ)
    → (from_list false (tabulate k start f)).at p ≡ true
    → f (start + p) ≡ true
at-tabulate zero start f p h = cc
at-tabulate (suc k) start f zero h = let e : start + 0 ≡ start = omega arith in rw e h
at-tabulate (suc k) start f (suc p) h =
    let e : start + suc p ≡ suc start + p = omega arith in rw e (at-tabulate k (suc start) f p h)

at-tabulate_lt :
    (k start : ℕ) (f : ℕ → Bool) (p : ℕ)
    → p < k
    → (from_list false (tabulate k start f)).at p ≡ f (start + p)
at-tabulate_lt zero start f p lt = elim lt [ ]
at-tabulate_lt (suc k) start f zero lt = let e : start + 0 ≡ start = omega arith in rw e refl
at-tabulate_lt (suc k) start f (suc p) lt =
    let e : start + suc p ≡ suc start + p = omega arith in
    rw e (at-tabulate_lt k (suc start) f p (omega arith))

-- A coroutine is that of one of the inputs.
coroutine_to_pid-lt :
    (l : Ledger) (pid : ProcessId) (ids : List UtxoId) (m : CoroutineId → Option ProcessId)
    → ((cid : CoroutineId) (p : ProcessId) → m cid ≡ some p → p < pid)
    → (cid : CoroutineId) (p : ProcessId) → coroutine_to_pid l pid ids m cid ≡ some p
    → p < pid + length ids
coroutine_to_pid-lt l pid [] m h cid p e = omega (arith, h cid p e)
coroutine_to_pid-lt l pid (id ∷ ids) m h cid p e = elim (Option-cases (l.utxo_to_coroutine id)) [
  | inl missing ↦ omega (
    arith,
    coroutine_to_pid-lt l (suc pid) ids m (λ c q f. omega (arith, h c q f)) cid p (rw missing at e),
  )
  | inr (there, found) ↦
      let m' = insert_at coroutine_id_eq m there pid in
      omega (
        arith,
        coroutine_to_pid-lt l (suc pid) ids m' (λ c q f. ground (arith, h c q)) cid p
            (rw found at e),
      )
]

owner_of-lt :
    (l : Ledger) (pids : CoroutineId → Option ProcessId) (n : ℕ) (id : UtxoId) (owner : ProcessId)
    → ((cid : CoroutineId) (p : ProcessId) → pids cid ≡ some p → p < n)
    → owner_of l pids id ≡ some owner
    → owner < n
owner_of-lt l pids n id owner h e = elim (Option-cases (l.utxo_to_coroutine id)) [
  | inl missing ↦ ground (arith, missing, e)
  | inr (token_cid, found) ↦ elim (Option-cases (l.ownership_registry token_cid)) [
    | inl free ↦ ground (arith, found, free, e)
    | inr (owner_cid, owned) ↦ ground (arith, found, owned, e, h owner_cid owner)
  ]
]

-- What a list of owners, followed by those of the outputs that have none, gives.
at-owners :
    (n k : ℕ) (owners : List (Option ProcessId)) (token owner : ProcessId)
    → ((i : ℕ) → get_elem? owners i ≡ some (some owner) → owner < n)
    → (from_list none (owners ++ replicate k none)).at token ≡ some owner
    → owner < n
at-owners n zero [] token owner h e = cc
at-owners n (suc k) [] zero owner h e = cc
at-owners n (suc k) [] (suc token) owner h e = at-owners n k [] token owner h e
at-owners n k (x ∷ xs) zero owner h e = h 0 (ap some e)
at-owners n k (x ∷ xs) (suc token) owner h e = at-owners n k xs token owner (λ i. h (suc i)) e

get_elem?-map {ℓ κ} :
    {A : Type ℓ} {B : Type κ} (f : A → B) (xs : List A) (i : ℕ) (b : B)
    → get_elem? (map f xs) i ≡ some b
    → (a : A) × (f a ≡ b)
get_elem?-map f [] i b h = cc
get_elem?-map f (x ∷ xs) zero b h = (x, cc)
get_elem?-map f (x ∷ xs) (suc i) b h = get_elem?-map f xs i b h

module _ (l : Ledger) (body : TransactionBody) (witness : TransactionWitness)
    (entries : List UtxoEntry) (covered : length entries ≡ length body.inputs) where
  abbrev made : InterleavingInstance
  made = instance_of l body witness entries

  made_table : length made.process_table ≡ made.n_inputs + made.n_new + made.n_coords
  made_table = omega (
    arith,
    covered,
    length-append (map (λ e. e.contract_hash) entries)
        (map (λ o. o.contract_hash) body.new_outputs ++ body.coordination_scripts_keys),
    length-append (map (λ o. o.contract_hash) body.new_outputs) body.coordination_scripts_keys,
    length-map (λ e. e.contract_hash) entries,
    length-map (λ o. o.contract_hash) body.new_outputs,
  )

  made_utxos :
      (p : ProcessId) → (from_list false made.is_utxo).at p ≡ true → p < made.n_inputs + made.n_new
  made_utxos p h =
      let f =
        at-tabulate (made.n_inputs + made.n_new + made.n_coords) 0
          (λ pid. ltb pid (made.n_inputs + made.n_new)) p h in
      ground (arith, f)

  made_owners :
      (token owner : ProcessId)
      → (from_list none made.ownership_in).at token ≡ some owner
      → (owner < made.n_inputs) × ((from_list false made.is_utxo).at owner ≡ true)
  made_owners token owner h =
      let pids = coroutine_to_pid l 0 body.inputs (λ _. none) in
      let lt : owner < made.n_inputs =
        at-owners made.n_inputs made.n_new (input_ownership_for_inputs l body.inputs) token owner
          (λ i e.
            let (id, f) = get_elem?-map (owner_of l pids) body.inputs i (some owner) e in
            owner_of-lt l pids made.n_inputs id owner
              (λ cid p g. omega (
                arith,
                coroutine_to_pid-lt l 0 body.inputs (λ _. none) (λ c q k. absurd cc) cid p g,
              ))
              f)
          h in
      (
        lt,
        let start : 0 + owner ≡ owner = omega arith in
            at-tabulate_lt (made.n_inputs + made.n_new + made.n_coords) 0
              (λ pid. ltb pid (made.n_inputs + made.n_new)) owner (omega (arith, lt))
            ∙ ground (arith, start, lt),
      )

-- The instance that the ledger makes of a transaction is well-formed, whatever the transaction.
pub interleaving_artifacts-WellFormed :
    (l : Ledger) (body : TransactionBody) (witness : TransactionWitness)
    (inst : InterleavingInstance) (traces : List (List WitLedgerEffect))
    → interleaving_artifacts l body witness ≡ ok (inst, traces)
    → WellFormed inst
unfolding interleaving_artifacts
interleaving_artifacts-WellFormed l body witness inst traces e =
    let (_, _, e₁) =
      >>=-returns (assert (length witness.spending_proofs == length body.inputs)) _ e in
    let (_, _, e₂) =
      >>=-returns
        (refuse (not (length body.continuations == length body.inputs))
          input_continuation_size_mismatch)
        _ e₁ in
    let (_, _, e₃) =
      >>=-returns (check_inputs l body.inputs witness.spending_proofs body.continuations) _ e₂ in
    let (_, _, e₄) = >>=-returns (check_outputs witness.new_output_proofs body.new_outputs) _ e₃ in
    let (_, _, e₅) =
      >>=-returns (check_scripts witness.coordination_scripts body.coordination_scripts_keys) _
        e₄ in
    let (entries, found, made) = >>=-returns (traverse (entry_of l) body.inputs) _ e₅ in
    let covered = length-traverse (entry_of l) body.inputs entries found in
    let same : instance_of l body witness entries ≡ inst = ground (arith, made) in
    rw (← same) (record {
      table = made_table l body witness entries covered;
      utxos_first = made_utxos l body witness entries covered;
      owners = made_owners l body witness entries covered;
    })
