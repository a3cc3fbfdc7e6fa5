-- ===== src/Ledger/Tests/Witnesses.antt =====
-- The theorems on the ledger applied to the transactions of the tests.
use starstream.Prelude.{
  panic, zero, suc, ◌≤◌, ◌≡◌, ◌≢◌, refl, none, some, List, [], ◌∷◌, ok, get_elem?, arith,
}
use starstream.Interleaving.Effects.{Hash, WitLedgerEffect}
use starstream.Interleaving.Instance.{InterleavingInstance}
use starstream.Interleaving.State.{InterleavingState}
use starstream.Interleaving.Verify.{Position}
use starstream.Interleaving.Run.Verdict.{CompleteRun}
use starstream.Interleaving.Run.Keeps.{WellFormed}
use starstream.Interleaving.Accounts.{Settled}
use starstream.Ledger.State.{token, utxo, UtxoId, empty}
use starstream.Ledger.Artifacts.{verify_witness, interleaving_artifacts, instance_of, traces_of}
use starstream.Ledger.Apply.{counter, hash}
use starstream.Ledger.Valid.{Valid, empty-Valid}
use starstream.Ledger.Valid.Loops.{apply_transaction-Valid}
use starstream.Ledger.Spending.{IsUntouched, apply_transaction-untouched}
use starstream.Ledger.Spent.{IsConsumed, apply_transaction-consumed, apply_transaction-once}
use starstream.Ledger.Created.{Created, entry_for, apply_transaction-creates}
use starstream.Ledger.Instances.{interleaving_artifacts-WellFormed}
use starstream.Ledger.Accepts.{apply_transaction-Settled}
use starstream.Ledger.Unproven.{minting_body, unproven, verify_witness-panic}
use starstream.Ledger.Shared.{apply_transaction-shared}
use starstream.Ledger.Tests.{
  output, mint, pay, first, second, minted, minted_twice, paid, pay_both, paid_both,
  pay_both_applied, opened, mint_applied, mint_applied_twice, pay_applied,
}

minted-Valid : Valid minted
minted-Valid = (apply_transaction-Valid empty mint minted empty-Valid mint_applied).0

minted_twice-Valid : Valid minted_twice
minted_twice-Valid =
    (apply_transaction-Valid minted mint minted_twice minted-Valid mint_applied_twice).0

apply_transaction-Valid_example :
    Valid paid × ((h : Hash) → counter minted_twice h ≤ counter paid h)
apply_transaction-Valid_example =
    apply_transaction-Valid minted_twice pay paid minted_twice-Valid pay_applied

second-IsUntouched : IsUntouched pay.body second
second-IsUntouched zero h = cc
second-IsUntouched (suc i) h = cc

second_there : minted_twice.utxos second ≡ some (entry_for output)
unfolding opened
second_there = refl

apply_transaction-untouched_example :
    (paid.utxos second ≡ some (entry_for output))
    × (paid.utxo_to_coroutine second ≡ minted_twice.utxo_to_coroutine second)
apply_transaction-untouched_example =
    apply_transaction-untouched minted_twice pay paid second (entry_for output) minted_twice-Valid
      pay_applied second_there second-IsUntouched

first_there : minted_twice.utxos first ≡ some (entry_for output)
unfolding opened
first_there = refl

first-IsConsumed : IsConsumed minted_twice pay.body 0
first-IsConsumed cont parent before c f k =
    let same : first ≡ parent = cc in
    let now : utxo (2 ∷ []) ≡ cont = cc in
    let kept : minted_twice.utxos first ≡ some before = rw (← same) at k in
    let was : entry_for output ≡ before = ground (arith, first_there, kept) in
    rw (← now, ← was) refl

apply_transaction-consumed_example : paid.utxos first ≡ none
apply_transaction-consumed_example =
    apply_transaction-consumed minted_twice pay paid pay_applied 0 first refl first-IsConsumed

first-IsConsumed_both : IsConsumed minted_twice pay_both.body 0
first-IsConsumed_both cont parent before c f k =
    let same : first ≡ parent = cc in
    let now : utxo (2 ∷ []) ≡ cont = cc in
    let kept : minted_twice.utxos first ≡ some before = rw (← same) at k in
    let was : entry_for output ≡ before = ground (arith, first_there, kept) in
    rw (← now, ← was) refl

second-IsConsumed_both : IsConsumed minted_twice pay_both.body 1
second-IsConsumed_both cont parent before c f k =
    let same : second ≡ parent = cc in
    let now : utxo (3 ∷ []) ≡ cont = cc in
    let kept : minted_twice.utxos second ≡ some before = rw (← same) at k in
    let was : entry_for output ≡ before = ground (arith, second_there, kept) in
    rw (← now, ← was) refl

apply_transaction-once_example : get_elem? pay_both.body.inputs 1 ≢ some first
apply_transaction-once_example =
    apply_transaction-once minted_twice pay_both paid_both pay_both_applied 0 1 first (omega arith)
      refl first-IsConsumed_both second-IsConsumed_both

apply_transaction-creates_example :
    (id : UtxoId) × (empty.utxos id ≡ none) × Created empty minted (hash mint.body) 0 output id
apply_transaction-creates_example =
    apply_transaction-creates empty mint minted 0 output empty-Valid mint_applied refl

apply_transaction-Settled_example :
    (inst : InterleavingInstance) × (traces : List (List WitLedgerEffect)) × (s : InterleavingState)
    × (q : Position) × (interleaving_artifacts minted_twice pay.body pay.witness
        ≡ ok (inst, traces))
    × CompleteRun inst traces s q
    × Settled inst q.0
apply_transaction-Settled_example = apply_transaction-Settled minted_twice pay paid pay_applied

pay_made :
    interleaving_artifacts minted_twice pay.body pay.witness
    ≡ ok (
      instance_of minted_twice pay.body pay.witness (entry_for output ∷ []),
      traces_of pay.witness,
    )
unfolding opened
pay_made = refl

interleaving_artifacts-WellFormed_example :
    WellFormed (instance_of minted_twice pay.body pay.witness (entry_for output ∷ []))
interleaving_artifacts-WellFormed_example =
    interleaving_artifacts-WellFormed minted_twice pay.body pay.witness _ _ pay_made

apply_transaction-shared_example :
    (id : UtxoId) × (id' : UtxoId) × (id ≢ id')
    × (minted_twice.utxos id ≡ some (entry_for output))
    × (minted_twice.utxos id' ≡ some (entry_for output))
    × (minted_twice.utxo_to_coroutine id ≡ minted_twice.utxo_to_coroutine id')
apply_transaction-shared_example =
    apply_transaction-shared empty minted minted_twice mint mint 0 output output empty-Valid
      mint_applied mint_applied_twice refl refl refl

verify_witness-panic_example :
    verify_witness minted
      (minting_body
        (record { state = token (1 ∷ 2 ∷ 3 ∷ []); contract_hash = 100 })
        []
        (λ _. none)
        (200 ∷ [])
        1)
      (unproven (record { trace = [] } ∷ []))
    ≡ panic
verify_witness-panic_example =
    verify_witness-panic minted (1 ∷ 2 ∷ 3 ∷ []) 100 [] (λ _. none) (200 ∷ []) 1
      (record { trace = [] } ∷ [])
