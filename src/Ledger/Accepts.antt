-- ===== src/Ledger/Accepts.antt =====
-- What the ledger has checked when it applies a transaction.
use starstream.Prelude.{◌≡◌, refl, none, some, Option, List, ok, err, panic, >>=-returns}
use starstream.Interleaving.Effects.{WitLedgerEffect}
use starstream.Interleaving.Instance.{InterleavingInstance, Checked}
use starstream.Interleaving.State.{InterleavingState}
use starstream.Interleaving.Verify.{Position, verify_interleaving_semantics}
use starstream.Interleaving.Run.Verdict.{CompleteRun}
use starstream.Interleaving.Accounts.{Settled, verify-Settled}
use starstream.Ledger.State.{ZkTransactionProof, ProvenTransaction, Ledger}
use starstream.Ledger.Proofs.{
  verify_fold, verify_live_tokens_bound_in_instance, verdict, verify_proof,
}
use starstream.Ledger.Artifacts.{interleaving_artifacts, verify_witness}
use starstream.Ledger.Apply.{apply_transaction}
use starstream.Ledger.Valid.Loops.{apply_transaction-Applies}
use starstream.Ledger.Instances.{interleaving_artifacts-WellFormed}

verdict-ok : (o : Option (Checked (Unit {0}))) → verdict o ≡ ok tt → o ≡ some (ok tt)
verdict-ok none h = cc
verdict-ok (some panic) h = cc
verdict-ok (some (err e)) h = cc
verdict-ok (some (ok tt)) h = refl

verify_proof-accepts :
    (proof : ZkTransactionProof) (inst : InterleavingInstance)
    (traces : List (List WitLedgerEffect))
    → verify_proof proof inst traces ≡ ok tt
    → verify_interleaving_semantics inst traces ≡ some (ok tt)
unfolding verify_proof
verify_proof-accepts proof inst traces h =
    let (_, _, h₁) = >>=-returns (verify_fold proof inst) _ h in
    let (_, _, h₂) = >>=-returns (verify_live_tokens_bound_in_instance inst) _ h₁ in
    verdict-ok (verify_interleaving_semantics inst traces) h₂

-- The ledger applies a transaction only if the instance and the traces that it makes of it have a
-- complete run that is settled: the run burned exactly the inputs without a continuation, and the
-- announced owners are constructed UTXOs.
pub apply_transaction-Settled :
    (self : Ledger) (tx : ProvenTransaction) (l : Ledger)
    → apply_transaction self tx ≡ ok l
    → (inst : InterleavingInstance) × (traces : List (List WitLedgerEffect))
      × (s : InterleavingState) × (q : Position) × (interleaving_artifacts self tx.body tx.witness
          ≡ ok (inst, traces))
      × CompleteRun inst traces s q
      × Settled inst q.0
unfolding verify_witness
apply_transaction-Settled self tx l e =
    let a = apply_transaction-Applies self tx l e in
    let ((inst, traces), made, h) =
      >>=-returns (interleaving_artifacts self tx.body tx.witness) _ a.verified in
    let accepted = verify_proof-accepts tx.witness.interleaving_proof inst traces h in
    let w = interleaving_artifacts-WellFormed self tx.body tx.witness inst traces made in
    let (s, q, run, settled) = verify-Settled inst traces w accepted in
    (inst, traces, s, q, made, run, settled)
