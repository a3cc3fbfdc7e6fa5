-- ===== src/Interleaving/Invariant/Sizes.antt =====
-- The arrays keep their lengths, and what they hold indexes them.
use starstream.Prelude.{ℕ, ◌<◌, ◌≡◌, inl, inr, true, some, List, [], ◌∷◌, arith}
use starstream.Interleaving.Effects.{ProcessId, InterfaceId, WitLedgerEffect}
use starstream.Interleaving.State.{Rom, InterleavingState}
use starstream.Interleaving.Machine.Control.{top}
use starstream.Interleaving.Rules.{Step}
use starstream.Interleaving.Invariant.Roles.{elem}

-- The tables of a transaction of `n` processes, of which the first `m` are UTXOs.
pub record RomSizes (n m : ℕ) (rom : Rom) : Type 0 where
  pub table : rom.process_table.len ≡ n
  pub utxo : rom.is_utxo.len ≡ n
  pub token : rom.is_token.len ≡ n
  pub traced : rom.traces.len ≡ n
  pub utxos_first : (p : ProcessId) → rom.is_utxo.at p ≡ true → p < m

pub record Lengths (n m : ℕ) (s : InterleavingState) : Type 0 where
  pub inputs : s.expected_input.len ≡ n
  pub resumers : s.expected_resumer.len ≡ n
  pub yielded : s.on_yield.len ≡ n
  pub yield_to : s.yield_to.len ≡ n
  pub active : s.activations.len ≡ n
  pub inited : s.inits.len ≡ n
  pub ready : s.initialized.len ≡ n
  pub done : s.finalized.len ≡ n
  pub burned : s.did_burn.len ≡ n
  pub pending : s.must_enter.len ≡ n
  pub framed : s.must_exit.len ≡ n
  pub owned : s.ownership.len ≡ m

pub record Sizes (n m : ℕ) (s : InterleavingState) : Type 0 where
  pub lengths : Lengths n m s
  pub running : s.id_curr < n
  pub parents : (p q : ProcessId) → s.yield_to.at p ≡ some q → q < n
  pub handlers : (i : InterfaceId) (p : ProcessId) → elem p (s.handler_stack i) ≡ true → p < n

pub top_in_range :
    {n : ℕ} (p : ProcessId) (stack : List ProcessId)
    → ((q : ProcessId) → elem q stack ≡ true → q < n)
    → top stack ≡ some p
    → p < n
top_in_range p [] h e = cc
top_in_range p (q ∷ qs) h e = ground (arith, h q)

module _ (n m : ℕ) (rom : Rom) (s s' : InterleavingState) (v : Sizes n m s) where
  after-Lengths : (op : WitLedgerEffect) → Step rom s op s' → Lengths n m s'
  after-Lengths WitLedgerEffect.return h = ground (arith, v.lengths)
  after-Lengths _ h = ground (arith, v.lengths)

  after_running : (op : WitLedgerEffect) → Step rom s op s' → s'.id_curr < n
  after_running (WitLedgerEffect.call_effect_handler i _ _ _) (target, h) =
      ground (arith, top_in_range {n = n} target (s.handler_stack i) (v.handlers i))
  after_running (WitLedgerEffect.yield val) (parent, _, h) =
      ground (arith, v.parents s.id_curr parent)
  after_running WitLedgerEffect.return h = elim h.leaves [
    | inl (parent, there, e) ↦ ground (arith, v.parents s.id_curr parent, v.running)
    | inr (alone, at_entry, e) ↦ ground (arith, v.running)
  ]
  after_running _ h = ground (arith, v.running, v.lengths)

  after_parents :
      (op : WitLedgerEffect)
      → Step rom s op s'
      → (p q : ProcessId) → s'.yield_to.at p ≡ some q
      → q < n
  after_parents WitLedgerEffect.return h p q e = ground (arith, v.parents p q)
  after_parents _ h p q e = ground (arith, v.parents p q, v.running)

  after_handlers :
      (op : WitLedgerEffect)
      → Step rom s op s'
      → (i : InterfaceId) (p : ProcessId) → elem p (s'.handler_stack i) ≡ true
      → p < n
  after_handlers WitLedgerEffect.return h i p e = ground (arith, v.handlers i p)
  after_handlers _ h i p e = ground (arith, v.handlers i p, v.running)

  pub Step-Sizes : (op : WitLedgerEffect) → Step rom s op s' → Sizes n m s'
  Step-Sizes op h = record {
    lengths = after-Lengths op h;
    running = after_running op h;
    parents = after_parents op h;
    handlers = after_handlers op h;
  }
