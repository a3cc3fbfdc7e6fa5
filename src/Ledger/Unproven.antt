-- ===== src/Ledger/Unproven.antt =====
-- A new output without a proof: the lists of outputs and of their proofs are walked together, and
-- their lengths are compared only later, by the checker.
use starstream.Prelude.{
  length, arith, ℕ, suc, ◌+◌, ◌≡◌, refl, Option, List, [], ◌∷◌, ok, panic, for_each,
}
use starstream.Interleaving.Effects.{Hash, Value}
use starstream.Ledger.State.{
  token, NewOutput, TransactionBody, ZkWasmProof, dummy, TransactionWitness, Ledger,
}
use starstream.Ledger.Proofs.{verify_proof, verify_live_tokens_bound_in_instance, token_is_bound}
use starstream.Ledger.Artifacts.{
  check_inputs, check_outputs, check_scripts, interleaving_artifacts, verify_witness,
}

-- A transaction that spends nothing and creates the token `created` before other outputs.
abbrev pub minting_body :
    NewOutput → List NewOutput → (ℕ → Option ℕ) → List Hash → ℕ → TransactionBody
minting_body created outs owners keys entry = record {
  inputs = [];
  continuations = [];
  new_outputs = created ∷ outs;
  ownership_out = owners;
  coordination_scripts_keys = keys;
  entrypoint = entry;
}

-- A witness that has no proof of a new output, with the dummy for the interleaving proof.
abbrev pub unproven : List ZkWasmProof → TransactionWitness
unproven scripts = record {
  spending_proofs = [];
  new_output_proofs = [];
  interleaving_proof = dummy;
  coordination_scripts = scripts;
}

check_scripts-ok :
    (proofs : List ZkWasmProof) (keys : List Hash) → check_scripts proofs keys ≡ ok tt
unfolding check_scripts
check_scripts-ok [] keys = refl
check_scripts-ok (p ∷ ps) [] = refl
check_scripts-ok (p ∷ ps) (k ∷ ks) = check_scripts-ok ps ks

-- If a transaction spends nothing, its first new output is a token, no proof of a new output is given
-- and the interleaving proof is the dummy, then verifying its witness panics, in each ledger: it is not refused with an error.
pub verify_witness-panic :
    (l : Ledger) (vals : List Value) (h : Hash) (outs : List NewOutput) (owners : ℕ → Option ℕ)
    (keys : List Hash) (entry : ℕ) (scripts : List ZkWasmProof)
    → verify_witness l
        (minting_body (record { state = token vals; contract_hash = h }) outs owners keys entry)
        (unproven scripts)
      ≡ panic
unfolding verify_witness interleaving_artifacts check_inputs check_outputs verify_proof
    verify_live_tokens_bound_in_instance token_is_bound for_each
verify_witness-panic l vals h outs owners keys entry scripts =
    let count : 0 + suc (length outs) ≡ suc (length outs) = omega arith in
    rw (check_scripts-ok scripts keys, count) (ground arith)
