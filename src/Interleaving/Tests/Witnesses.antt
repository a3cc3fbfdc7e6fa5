-- ===== src/Interleaving/Tests/Witnesses.antt =====
-- The theorems applied to the transactions of the tests.
use mathlib.Core.Path.{subst}
use starstream.Prelude.{
  ℕ, zero, suc, ◌≡◌, ◌≢◌, ◌↔◌, refl, true, false, none, some, List, [], ◌∷◌, ok, panic, arith,
  get_elem?, filled,
}
use starstream.Interleaving.Effects.{
  ProcessId, WitLedgerEffect, resume, yield, enter, new_ref, ref_push, burn,
}
use starstream.Interleaving.Instance.{Checked}
use starstream.Interleaving.State.{InterleavingState}
use starstream.Interleaving.Machine.{dispatch, state_transition}
use starstream.Interleaving.Machine.Refs
use starstream.Interleaving.Verify
use starstream.Interleaving.Transition.{Moves, stop, go, bumped, state_transition-Transition}
use starstream.Interleaving.Safety.Calls.{Names, BurnsInput, dispatch-ne-panic}
use starstream.Interleaving.Run.Keeps.{Inv, start-Inv, start-RomSizes}
use starstream.Interleaving.Run.Verdict.{
  WellNamed, CompleteRun, verify_sound, verify_iff, verify-ne-panic,
}
use starstream.Interleaving.Run.Keeps.{
  reached-Roles, reached-Entries, reached-Owners, reached-References,
}
use starstream.Interleaving.Run.Ends.{verify_total}
use starstream.Interleaving.Rules.{Step}
use starstream.Interleaving.Rules.Control.{Allows}
use starstream.Interleaving.Invariant.Roles.{Roles}
use starstream.Interleaving.Invariant.Entries.{Entries}
use starstream.Interleaving.Invariant.Tokens.{Owners}
use starstream.Interleaving.Invariant.References.{References}
use starstream.Interleaving.Invariant.Sizes.{RomSizes, Sizes}
use starstream.Interleaving.Accounts.{Settled, verify-Settled}
use starstream.Interleaving.Safety.Complete.{dispatch_iff}
use starstream.Interleaving.Protocol.{resume-yield, Locals, done, then_call}
use starstream.Interleaving.Build.{build_read, push_all}
use starstream.Interleaving.Unread.{unread_accepted, append_at}
use starstream.Interleaving.Divergence.{resume_unknown-panic, burn_by_new_output-panic}
use starstream.Interleaving.Tests.{
  word, payment, script_calls, utxo_calls, calls, checker, payment_accepted, payment_rom,
  payment-WellFormed, payment_start, payment_starts, payment-Started, minting, minting_rom,
  minting-WellFormed, minting_start, minting-Started,
}

-- A predicate holds of each host call of a trace.
abbrev Each : (WitLedgerEffect → Type 0) → List WitLedgerEffect → Type 0
Each P [] = Unit
Each P (op ∷ ops) = P op × Each P ops

get_elem?-Each :
    (P : WitLedgerEffect → Type 0) (ops : List WitLedgerEffect)
    → Each P ops
    → (c : ℕ) (op : WitLedgerEffect) → get_elem? ops c ≡ some op
    → P op
get_elem?-Each P [] e c op h = cc
get_elem?-Each P (x ∷ xs) e zero op h = let same : x ≡ op = cc in subst P same e.0
get_elem?-Each P (x ∷ xs) e (suc c) op h = get_elem?-Each P xs e.1 c op h

-- A host call of the transaction `payment` names its processes, and only its input burns.
abbrev Fits : ProcessId → WitLedgerEffect → Type 0
Fits i op = Names 2 op × BurnsInput payment_rom i op

payment-WellNamed : WellNamed 2 payment_rom
payment-WellNamed zero =
    get_elem?-Each (Fits 0) utxo_calls ((tt, tt), ((omega arith, tt), ((tt, tt), ((tt, tt), tt))))
payment-WellNamed (suc zero) =
    get_elem?-Each (Fits 1) script_calls
      ((omega arith, tt), ((tt, tt), ((omega arith, tt), ((tt, tt), tt))))
payment-WellNamed (suc (suc i)) = get_elem?-Each (Fits (suc (suc i))) [] tt

payment-CompleteRun :
    (s : InterleavingState) × (q : Verify.Position) × CompleteRun payment calls s q
payment-CompleteRun = verify_sound payment calls payment_accepted

verify_iff_example :
    (Verify.verify_interleaving_semantics payment calls ≡ some (ok tt))
    ↔ ((s : InterleavingState) × (q : Verify.Position) × CompleteRun payment calls s q)
verify_iff_example = verify_iff payment calls payment-WellFormed payment-WellNamed

verify-ne-panic_example : Verify.verify_interleaving_semantics payment calls ≢ some panic
verify-ne-panic_example = verify-ne-panic payment calls payment-WellFormed payment-WellNamed

verify_total_example :
    (r : Checked (Unit {0})) × (Verify.verify_interleaving_semantics payment calls ≡ some r)
verify_total_example = verify_total payment calls

verify-Settled_example :
    (s : InterleavingState) × (q : Verify.Position) × CompleteRun payment calls s q
    × Settled payment q.0
verify-Settled_example = verify-Settled payment calls payment-WellFormed payment_accepted

-- The last state of the run, which is in the script.
abbrev last : Verify.Position
last = payment-CompleteRun.1

last-ne-utxo : last.0.id_curr ≢ 0
last-ne-utxo e =
    let coord = payment-CompleteRun.2.accepted.in_coord in ground (arith, rw e at coord)

-- A yield that is never read.
abbrev more_calls : List (List WitLedgerEffect)
more_calls = append_at calls 0 (yield 7 ∷ [])

more-WellNamed : WellNamed 2 (Verify.rom_of payment more_calls)
unfolding append_at
more-WellNamed zero =
    get_elem?-Each (Fits 0) (enter 9 ∷ new_ref 1 1 ∷ ref_push word ∷ yield 1 ∷ yield 7 ∷ [])
      ((tt, tt), ((omega arith, tt), ((tt, tt), ((tt, tt), ((tt, tt), tt)))))
more-WellNamed (suc zero) =
    get_elem?-Each (Fits 1) script_calls
      ((omega arith, tt), ((tt, tt), ((omega arith, tt), ((tt, tt), tt))))
more-WellNamed (suc (suc i)) = get_elem?-Each (Fits (suc (suc i))) [] tt

unread_accepted_example : Verify.verify_interleaving_semantics payment more_calls ≡ some (ok tt)
unread_accepted_example =
    unread_accepted payment calls payment-CompleteRun.0 last 0 (yield 7 ∷ []) payment-WellFormed
      payment-CompleteRun.2 last-ne-utxo more-WellNamed

payment_sizes : RomSizes 2 1 payment_rom
payment_sizes = start-RomSizes payment calls payment-WellFormed payment_start payment-Started

payment-Inv : Inv 2 1 payment_rom payment_start
payment-Inv = start-Inv payment calls payment-WellFormed payment_start payment-Started

-- The state after a host call of the script or of the UTXO.
abbrev after : InterleavingState → WitLedgerEffect → InterleavingState
after s op = if_ok (dispatch payment_rom s op)
  where
    if_ok : Checked InterleavingState → InterleavingState
    if_ok (ok s') = s'
    if_ok _ = s

abbrev resumed : WitLedgerEffect
resumed = resume 0 9 0 1 (some 0)

abbrev at_resume : InterleavingState
at_resume = after (after payment_start (new_ref 1 0)) (ref_push word)

abbrev entered : InterleavingState
entered = after (after at_resume resumed) (enter 9)

abbrev answered : InterleavingState
answered = after (after entered (new_ref 1 1)) (ref_push word)

dispatch_iff_example :
    (dispatch payment_rom payment_start (new_ref 1 0) ≡ ok (after payment_start (new_ref 1 0)))
    ↔ Step payment_rom payment_start (new_ref 1 0) (after payment_start (new_ref 1 0))
dispatch_iff_example =
    dispatch_iff 2 1 payment_rom payment_start payment_sizes payment-Inv.sizes
      (after payment_start (new_ref 1 0)) (new_ref 1 0) (omega arith)

resume_accepted : dispatch payment_rom at_resume resumed ≡ ok (after at_resume resumed)
unfolding checker
resume_accepted = refl

enter_accepted : dispatch payment_rom (after at_resume resumed) (enter 9) ≡ ok entered
unfolding checker
enter_accepted = refl

new_ref_accepted : dispatch payment_rom entered (new_ref 1 1) ≡ ok (after entered (new_ref 1 1))
unfolding checker
new_ref_accepted = refl

ref_push_accepted : dispatch payment_rom (after entered (new_ref 1 1)) (ref_push word) ≡ ok answered
unfolding checker
ref_push_accepted = refl

yield_accepted : dispatch payment_rom answered (yield 1) ≡ ok (after answered (yield 1))
unfolding checker
yield_accepted = refl

at_yield : at_resume.on_yield.at 0 ≡ true
unfolding checker
at_yield = refl

by_script : payment_rom.is_utxo.at at_resume.id_curr ≡ false
unfolding checker
by_script = refl

work : Locals payment_rom (after at_resume resumed) answered
work = then_call (enter 9) refl enter_accepted (
    then_call (new_ref 1 1) refl new_ref_accepted
      (then_call (ref_push word) refl ref_push_accepted done))

resume-yield_example :
    ((after answered (yield 1)).id_curr ≡ at_resume.id_curr)
    × (answered.ref_store 1 ≡ answered.ref_store 1)
    × Allows {A = ℕ} (some 0) 0
resume-yield_example =
    resume-yield payment_rom at_resume (after at_resume resumed) answered (after answered (yield 1))
      0 9 0 1 (some 0) 1 by_script refl at_yield resume_accepted work yield_accepted

build_read_example :
    (s₁ : InterleavingState) × (s₂ : InterleavingState) × (Refs.new_ref payment_start 2 0 ≡ ok s₁)
    × (push_all s₁ (word ∷ word ∷ []) ≡ ok s₂)
    × (s₂.ref_building 1 ≡ none)
    × (Refs.ref_get s₂ 0 1 word ≡ ok s₂)
unfolding Verify.initial
build_read_example = build_read payment_start word (word ∷ []) 1 word (omega arith) refl refl

dispatch-ne-panic_example : dispatch payment_rom payment_start resumed ≢ panic
dispatch-ne-panic_example =
    dispatch-ne-panic 2 1 payment_rom payment_start payment_sizes payment-Inv.sizes
      payment-Inv.references resumed (omega arith) tt

resume_unknown-panic_example : dispatch payment_rom payment_start (resume 5 9 0 1 none) ≡ panic
resume_unknown-panic_example =
    resume_unknown-panic 2 1 payment_rom payment_start payment_sizes payment-Inv.sizes 5 9 0 1 none
      (omega arith)

-- The UTXO runs, and the script has not been called.
abbrev in_utxo : InterleavingState
in_utxo = record payment_start { id_curr = 0 }

in_utxo-Sizes : Sizes 2 1 in_utxo
in_utxo-Sizes = record {
  lengths = ground (arith, payment-Inv.sizes.lengths);
  running = omega arith;
  parents = payment-Inv.sizes.parents;
  handlers = payment-Inv.sizes.handlers;
}

minting_sizes : RomSizes 2 1 minting_rom
minting_sizes = start-RomSizes minting calls minting-WellFormed minting_start minting-Started

minting-Inv : Inv 2 1 minting_rom minting_start
minting-Inv = start-Inv minting calls minting-WellFormed minting_start minting-Started

-- The new output runs.
abbrev in_output : InterleavingState
in_output = record minting_start { id_curr = 0 }

in_output-Sizes : Sizes 2 1 in_output
in_output-Sizes = record {
  lengths = ground (arith, minting-Inv.sizes.lengths);
  running = omega arith;
  parents = minting-Inv.sizes.parents;
  handlers = minting-Inv.sizes.handlers;
}

burn_by_new_output-panic_example : dispatch minting_rom in_output burn ≡ panic
burn_by_new_output-panic_example =
    burn_by_new_output-panic 2 1 minting_rom in_output minting_sizes in_output-Sizes refl
      (omega arith)

-- The first host call of the script, as a round of the run.
abbrev one_round : Verify.Position
one_round = (after payment_start (new_ref 1 0), bumped (filled 2 0) 1)

round_accepted :
    state_transition payment_rom payment_start (filled 2 0) (new_ref 1 0) ≡ ok one_round
unfolding checker
round_accepted = refl

first_round : Moves payment_rom (payment_start, filled 2 0) one_round
first_round = go (new_ref 1 0) (state_transition-Transition _ _ _ _ _ _ round_accepted) stop

reached-Roles_example : Roles payment_rom (after payment_start (new_ref 1 0))
reached-Roles_example =
    reached-Roles payment calls payment-WellFormed payment_start one_round payment_starts
      first_round

reached-Entries_example : Entries (after payment_start (new_ref 1 0))
reached-Entries_example =
    reached-Entries payment calls payment-WellFormed payment_start one_round payment_starts
      first_round

reached-Owners_example : Owners payment_rom (after payment_start (new_ref 1 0))
reached-Owners_example =
    reached-Owners payment calls payment-WellFormed payment_start one_round payment_starts
      first_round

reached-References_example : References (after payment_start (new_ref 1 0))
reached-References_example =
    reached-References payment calls payment-WellFormed payment_start one_round payment_starts
      first_round
