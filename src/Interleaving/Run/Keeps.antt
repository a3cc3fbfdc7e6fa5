-- ===== src/Interleaving/Run/Keeps.antt =====
-- The invariants hold at the start of a run and after each of its rounds.
use starstream.Prelude.{
  ℕ, ◌+◌, ◌<◌, ◌≡◌, ◌≢◌, panic, true, false, some, none, List, length, ok, Array, put, from_list,
  filled, arith,
}
use starstream.Interleaving.Effects.{ProcessId, WitLedgerEffect}
use starstream.Interleaving.Instance.{InterleavingInstance, check_shape}
use starstream.Interleaving.State.{Rom, InterleavingState}
use starstream.Interleaving.Verify.{Position, rom_of, initial, processes, inputs_only, start}
use starstream.Interleaving.Transition.{Transition, Moves, stop, go}
use starstream.Interleaving.Invariant.Roles.{Roles, Step-Roles}
use starstream.Interleaving.Invariant.Entries.{Entries, Step-Entries}
use starstream.Interleaving.Invariant.Tokens.{Owners, Step-Owners}
use starstream.Interleaving.Invariant.References.{References, Step-References}
use starstream.Interleaving.Invariant.Sizes.{RomSizes, Sizes, Step-Sizes}

pub record Inv (n m : ℕ) (rom : Rom) (s : InterleavingState) : Type 0 where
  pub roles : Roles rom s
  pub entries : Entries s
  pub owners : Owners rom s
  pub references : References s
  pub sizes : Sizes n m s

module _ (n m : ℕ) (rom : Rom) where
  pub Transition-Inv :
      {s : InterleavingState} {next : Array ℕ} (op : WitLedgerEffect) {s' : InterleavingState}
      {next' : Array ℕ}
      → Transition rom s next op s' next'
      → Inv n m rom s
      → Inv n m rom s'
  Transition-Inv {s} op {s'} t v = record {
    roles = Step-Roles rom s s' v.roles op t.steps;
    entries = Step-Entries rom s s' v.entries op t.steps t.allowed;
    owners = Step-Owners rom s s' v.owners op t.steps;
    references = Step-References rom s s' v.references op t.steps;
    sizes = Step-Sizes n m rom s s' v.sizes op t.steps;
  }

  pub Moves-Inv : {p q : Position} → Moves rom p q → Inv n m rom p.0 → Inv n m rom q.0
  Moves-Inv stop v = v
  Moves-Inv (go op t r) v = Moves-Inv r (Transition-Inv op t v)

-- What the ledger makes of an instance, beyond what `check_shape` looks at: the table covers the
-- processes, the UTXOs come first, and the owners at the start are inputs.
pub record WellFormed (inst : InterleavingInstance) : Type 0 where
  pub table : length inst.process_table ≡ processes inst
  pub utxos_first :
      (p : ProcessId) → (from_list false inst.is_utxo).at p ≡ true → p < inst.n_inputs + inst.n_new
  pub owners :
      (token owner : ProcessId)
      → (from_list none inst.ownership_in).at token ≡ some owner
      → (owner < inst.n_inputs) × ((from_list false inst.is_utxo).at owner ≡ true)

-- What the checks before the run have found.
pub record Started (inst : InterleavingInstance) (traces : List (List WitLedgerEffect))
    (s : InterleavingState) : Type 0 where
  pub utxo : length inst.is_utxo ≡ length inst.process_table
  pub token : length inst.is_token ≡ length inst.process_table
  pub owned : length inst.ownership_in ≡ inst.n_inputs + inst.n_new
  pub owned_out : length inst.ownership_out ≡ inst.n_inputs + inst.n_new
  pub burned : length inst.must_burn ≡ inst.n_inputs
  pub traced : length traces ≡ processes inst
  pub entry : inst.entrypoint < processes inst
  pub after : s ≡ initial inst (processes inst) (put (inputs_only inst) inst.entrypoint true)

pub start-Started :
    (inst : InterleavingInstance) (traces : List (List WitLedgerEffect)) (s : InterleavingState)
    → start inst traces ≡ ok s
    → Started inst traces s
unfolding start check_shape
start-Started inst traces s h = record {
  utxo = ground arith;
  token = ground arith;
  owned = ground arith;
  owned_out = ground arith;
  burned = ground arith;
  traced = ground arith;
  entry = ground arith;
  after = ground arith;
}

module _ (inst : InterleavingInstance) (traces : List (List WitLedgerEffect)) (w : WellFormed inst)
    (s : InterleavingState) (h : Started inst traces s) where
  pub start-RomSizes : RomSizes (processes inst) (inst.n_inputs + inst.n_new) (rom_of inst traces)
  start-RomSizes = record {
    table = w.table;
    utxo = ground (arith, w.table, h.utxo);
    token = ground (arith, w.table, h.token);
    traced = h.traced;
    utxos_first = w.utxos_first;
  }

  pub start-Inv : Inv (processes inst) (inst.n_inputs + inst.n_new) (rom_of inst traces) s
  unfolding initial
  start-Inv = record {
    roles = record {
      running = ground (arith, h.after);
      parents = λ p q e. ground (arith, h.after);
      handlers = λ i p e. ground (arith, h.after);
      burned = λ p e. ground (arith, h.after);
    };
    entries = record {
      pending = λ p e. ground (arith, h.after);
      framed = λ p e. ground (arith, h.after);
      parented = λ p e. ground (arith, h.after);
    };
    owners = record { owners = λ token owner e. ground (arith, h.after, w.owners token owner) };
    references = record {
      fresh = λ r e. ground (arith, h.after);
      sized = λ r c e. ground (arith, h.after);
      filled = λ r c k e f. ground (arith, h.after);
      opened = λ p r i k e. ground (arith, h.after);
      own = λ p q r i j k l e f. ground (arith, h.after);
    };
    sizes = record {
      lengths = ground (arith, h.after, h.owned);
      running = ground (arith, h.after, h.entry);
      parents = λ p q e. ground (arith, h.after);
      handlers = λ i p e. ground (arith, h.after);
    };
  }

pub start-ne-panic :
    (inst : InterleavingInstance) (traces : List (List WitLedgerEffect))
    → WellFormed inst
    → start inst traces ≢ panic
unfolding start check_shape
start-ne-panic inst traces w h = ground (arith, w.table)

module _ (inst : InterleavingInstance) (traces : List (List WitLedgerEffect)) (w : WellFormed inst)
    (s : InterleavingState) (q : Position) (e : start inst traces ≡ ok s)
    (ms : Moves (rom_of inst traces) (s, filled (processes inst) 0) q) where
  reached-Inv : Inv (processes inst) (inst.n_inputs + inst.n_new) (rom_of inst traces) q.0
  reached-Inv = Moves-Inv _ _ _ ms (start-Inv inst traces w s (start-Started inst traces s e))

  -- After any number of rounds of a well-formed transaction, the process that runs is constructed,
  -- each parent and each handler is a constructed coordination script, and the processes that burned
  -- are UTXOs that have no continuation.
  pub reached-Roles : Roles (rom_of inst traces) q.0
  reached-Roles = reached-Inv.roles

  -- After any number of rounds of a well-formed transaction, a process that has yet to enter a
  -- function or is in one has an activation, and a process that is not at a yield has a parent.
  pub reached-Entries : Entries q.0
  reached-Entries = reached-Inv.entries

  -- After any number of rounds of a well-formed transaction, each owner of a token is a constructed
  -- UTXO.
  pub reached-Owners : Owners (rom_of inst traces) q.0
  reached-Owners = reached-Inv.owners

  -- After any number of rounds of a well-formed transaction, in a build with overflow checks, the
  -- reference numbers not given out are free, each reference has as many values as its size asks
  -- for, and a reference that is being built has words left to push and belongs to one process.
  pub reached-References : References q.0
  reached-References = reached-Inv.references
