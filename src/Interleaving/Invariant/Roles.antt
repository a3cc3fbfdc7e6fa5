-- ===== src/Interleaving/Invariant/Roles.antt =====
-- Which processes may run, and be parents, handlers and burned processes.
use starstream.Prelude.{◌≡◌, Bool, true, false, some, List, [], ◌∷◌, arith, inl, inr, ◌==◌, ◌||◌}
use starstream.Interleaving.Effects.{ProcessId, InterfaceId, WitLedgerEffect}
use starstream.Interleaving.State.{Rom, InterleavingState}
use starstream.Interleaving.Rules.{Step}
use starstream.Interleaving.Machine.Control.{top}

-- Constructed, and a coordination script.
abbrev pub IsCoord : Rom → InterleavingState → ProcessId → Type 0
IsCoord rom s p = (rom.is_utxo.at p ≡ false) × (s.initialized.at p ≡ true)

abbrev pub elem : ProcessId → List ProcessId → Bool
elem p [] = false
elem p (q ∷ qs) = p == q || elem p qs

pub record Roles (rom : Rom) (s : InterleavingState) : Type 0 where
  pub running : s.initialized.at s.id_curr ≡ true
  pub parents : (p q : ProcessId) → s.yield_to.at p ≡ some q → IsCoord rom s q
  pub handlers :
      (i : InterfaceId) (p : ProcessId) → elem p (s.handler_stack i) ≡ true → IsCoord rom s p
  pub burned :
      (p : ProcessId)
      → s.did_burn.at p ≡ true
      → (rom.is_utxo.at p ≡ true) × (rom.must_burn.at p ≡ true)

top-IsCoord :
    (rom : Rom) (s : InterleavingState) (i : InterfaceId) (p : ProcessId) (stack : List ProcessId)
    → ((q : ProcessId) → elem q stack ≡ true → IsCoord rom s q)
    → top stack ≡ some p
    → IsCoord rom s p
top-IsCoord rom s i p [] h e = cc
top-IsCoord rom s i p (q ∷ qs) h e = ground (arith, h q)

module _ (rom : Rom) (s s' : InterleavingState) (v : Roles rom s) where
  after_running : (op : WitLedgerEffect) → Step rom s op s' → s'.initialized.at s'.id_curr ≡ true
  after_running (WitLedgerEffect.call_effect_handler i _ _ _) (target, h) =
      ground (arith, top-IsCoord rom s i target (s.handler_stack i) (v.handlers i))
  after_running (WitLedgerEffect.yield val) (parent, _, h) =
      ground (arith, v.parents s.id_curr parent)
  after_running WitLedgerEffect.return h = elim h.leaves [
    | inl (parent, there, e) ↦ ground (arith, v.parents s.id_curr parent, v.running)
    | inr (alone, at_entry, e) ↦ ground (arith, v.running)
  ]
  after_running _ h = ground (arith, v.running)

  after_parents :
      (op : WitLedgerEffect)
      → Step rom s op s'
      → (p q : ProcessId) → s'.yield_to.at p ≡ some q
      → IsCoord rom s' q
  after_parents WitLedgerEffect.return h p q e = ground (arith, v.parents p q)
  after_parents _ h p q e = ground (arith, v.parents p q, v.running)

  after_handlers :
      (op : WitLedgerEffect)
      → Step rom s op s'
      → (i : InterfaceId) (p : ProcessId) → elem p (s'.handler_stack i) ≡ true
      → IsCoord rom s' p
  after_handlers WitLedgerEffect.return h i p e = ground (arith, v.handlers i p)
  after_handlers _ h i p e = ground (arith, v.handlers i p, v.running)

  after_burned :
      (op : WitLedgerEffect)
      → Step rom s op s'
      → (p : ProcessId) → s'.did_burn.at p ≡ true
      → (rom.is_utxo.at p ≡ true) × (rom.must_burn.at p ≡ true)
  after_burned WitLedgerEffect.return h p e = ground (arith, v.burned p)
  after_burned _ h p e = ground (arith, v.burned p)

  pub Step-Roles : (op : WitLedgerEffect) → Step rom s op s' → Roles rom s'
  Step-Roles op h = record {
    running = after_running op h;
    parents = after_parents op h;
    handlers = after_handlers op h;
    burned = after_burned op h;
  }
