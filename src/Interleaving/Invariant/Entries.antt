-- ===== src/Interleaving/Invariant/Entries.antt =====
-- Function entries, activations and parents.
use starstream.Prelude.{◌≡◌, ◌⊎◌, true, false, none, arith}
use starstream.Interleaving.Effects.{ProcessId, WitLedgerEffect}
use starstream.Interleaving.State.{Rom, InterleavingState}
use starstream.Interleaving.Machine.{is_enter}
use starstream.Interleaving.Machine.Control.{is_some}
use starstream.Interleaving.Rules.{Step}

pub record Entries (s : InterleavingState) : Type 0 where
  -- A function is entered only on an activation.
  pub pending :
      (p : ProcessId) → is_some (s.must_enter.at p) ≡ true → is_some (s.activations.at p) ≡ true
  -- A frame is open only on an activation.
  pub framed : (p : ProcessId) → s.must_exit.at p ≡ true → is_some (s.activations.at p) ≡ true
  -- A process that was resumed by a coordination script since it last yielded has a parent.
  pub parented : (p : ProcessId) → s.on_yield.at p ≡ false → is_some (s.yield_to.at p) ≡ true

-- What `state_transition` lets through while a function has yet to be entered.
abbrev pub Allowed : InterleavingState → WitLedgerEffect → Type 0
Allowed s op = (s.must_enter.at s.id_curr ≡ none) ⊎ (is_enter op ≡ true)

module _ (rom : Rom) (s s' : InterleavingState) (v : Entries s) where
  after_pending :
      (op : WitLedgerEffect)
      → Step rom s op s'
      → Allowed s op
      → (p : ProcessId) → is_some (s'.must_enter.at p) ≡ true
      → is_some (s'.activations.at p) ≡ true
  after_pending WitLedgerEffect.return h a p e = ground (arith, v.pending p)
  after_pending _ h a p e = ground (arith, v.pending p)

  after_framed :
      (op : WitLedgerEffect)
      → Step rom s op s'
      → (p : ProcessId) → s'.must_exit.at p ≡ true
      → is_some (s'.activations.at p) ≡ true
  after_framed WitLedgerEffect.return h p e = ground (arith, v.framed p)
  after_framed (WitLedgerEffect.enter f_id) h p e = ground (arith, v.framed p, v.pending s.id_curr)
  after_framed _ h p e = ground (arith, v.framed p)

  after_parented :
      (op : WitLedgerEffect)
      → Step rom s op s'
      → (p : ProcessId) → s'.on_yield.at p ≡ false
      → is_some (s'.yield_to.at p) ≡ true
  after_parented WitLedgerEffect.return h p e = ground (arith, v.parented p)
  after_parented _ h p e = ground (arith, v.parented p)

  pub Step-Entries : (op : WitLedgerEffect) → Step rom s op s' → Allowed s op → Entries s'
  Step-Entries op h a = record {
    pending = after_pending op h a;
    framed = after_framed op h;
    parented = after_parented op h;
  }
