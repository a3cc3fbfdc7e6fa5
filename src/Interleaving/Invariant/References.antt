-- ===== src/Interleaving/Invariant/References.antt =====
-- The references: fresh numbers, sizes that fit the contents, and one builder for each.
use starstream.Prelude.{
  ℕ, ◌*◌, ◌≤◌, ◌<◌, ◌≡◌, none, some, List, true, length, arith, length-replicate,
}
use starstream.Interleaving.Effects.{ProcessId, Value, Ref, WitLedgerEffect, nil, ref_width, values}
use starstream.Interleaving.State.{Rom, InterleavingState}
use starstream.Interleaving.Machine.Control.{is_some}
use starstream.Interleaving.Rules.{Step}
use starstream.Interleaving.Rules.Words.{length-overwritten}

pub record References (s : InterleavingState) : Type 0 where
  -- A number that was not given out has no contents.
  pub fresh : (r : Ref) → s.ref_counter ≤ r → (s.ref_store r ≡ none) × (s.ref_sizes r ≡ none)
  pub sized :
      (r : Ref) (contents : List Value)
      → s.ref_store r ≡ some contents
      → is_some (s.ref_sizes r) ≡ true
  pub filled :
      (r : Ref) (contents : List Value) (size : ℕ)
      → s.ref_store r ≡ some contents
      → s.ref_sizes r ≡ some size
      → length contents ≡ size * ref_width
  -- A reference under construction has words left, and the size it was announced with.
  pub opened :
      (p : ProcessId) (r : Ref) (offset size : ℕ)
      → s.ref_building p ≡ some (r, offset, size)
      → (offset < size) × (s.ref_sizes r ≡ some size) × (is_some (s.ref_store r) ≡ true)
  pub own :
      (p q : ProcessId) (r : Ref) (i j k l : ℕ)
      → s.ref_building p ≡ some (r, i, k)
      → s.ref_building q ≡ some (r, j, l)
      → p ≡ q

module _ (rom : Rom) (s s' : InterleavingState) (v : References s) where
  after_fresh :
      (op : WitLedgerEffect)
      → Step rom s op s'
      → (r : Ref) → s'.ref_counter ≤ r
      → (s'.ref_store r ≡ none) × (s'.ref_sizes r ≡ none)
  after_fresh WitLedgerEffect.return h r e = ground (arith, v.fresh r)
  after_fresh (WitLedgerEffect.ref_push vals) (t, _, _, _, _, h) r e =
      ground (arith, v.fresh r, v.fresh t)
  after_fresh (WitLedgerEffect.ref_write t _ vals) (_, _, _, h) r e =
      ground (arith, v.fresh r, v.fresh t)
  after_fresh _ h r e = ground (arith, v.fresh r)

  after_sized :
      (op : WitLedgerEffect)
      → Step rom s op s'
      → (r : Ref) (contents : List Value) → s'.ref_store r ≡ some contents
      → is_some (s'.ref_sizes r) ≡ true
  after_sized WitLedgerEffect.return h r c e = ground (arith, v.sized r c)
  after_sized (WitLedgerEffect.ref_push vals) (t, _, _, old, new, h) r c e =
      ground (arith, v.sized r c, v.sized t old)
  after_sized (WitLedgerEffect.ref_write t _ vals) (_, old, new, h) r c e =
      ground (arith, v.sized r c, v.sized t old)
  after_sized _ h r c e = ground (arith, v.sized r c)

  after_filled :
      (op : WitLedgerEffect)
      → Step rom s op s'
      → (r : Ref) (contents : List Value) (size : ℕ) → s'.ref_store r ≡ some contents
      → s'.ref_sizes r ≡ some size
      → length contents ≡ size * ref_width
  after_filled WitLedgerEffect.return h r c k e f = ground (arith, v.filled r c k)
  after_filled (WitLedgerEffect.ref_push vals) (t, offset, size, old, new, h) r c k e f = ground (
    arith,
    v.filled r c k,
    v.filled t old k,
    length-overwritten (offset * ref_width) (values vals) old,
  )
  after_filled (WitLedgerEffect.ref_write t offset vals) (_, old, new, h) r c k e f = ground (
    arith,
    v.filled r c k,
    v.filled t old k,
    length-overwritten (offset * ref_width) (values vals) old,
  )
  after_filled (WitLedgerEffect.new_ref size t) h r c k e f =
      ground (arith, v.filled r c k, length-replicate (size * ref_width) nil)
  after_filled _ h r c k e f = ground (arith, v.filled r c k)

  after_opened :
      (op : WitLedgerEffect)
      → Step rom s op s'
      → (p : ProcessId) (r : Ref) (offset size : ℕ) → s'.ref_building p ≡ some (r, offset, size)
      → (offset < size) × (s'.ref_sizes r ≡ some size) × (is_some (s'.ref_store r) ≡ true)
  after_opened WitLedgerEffect.return h p r i k e = ground (arith, v.opened p r i k)
  after_opened (WitLedgerEffect.ref_push vals) (t, offset, size, old, new, h) p r i k e =
      ground (arith, v.opened p r i k, v.opened s.id_curr t offset size)
  after_opened (WitLedgerEffect.new_ref size t) h p r i k e =
      ground (arith, v.opened p r i k, v.fresh s.ref_counter)
  after_opened _ h p r i k e = ground (arith, v.opened p r i k)

  after_own :
      (op : WitLedgerEffect)
      → Step rom s op s'
      → (p q : ProcessId) (r : Ref) (i j k l : ℕ) → s'.ref_building p ≡ some (r, i, k)
      → s'.ref_building q ≡ some (r, j, l)
      → p ≡ q
  after_own WitLedgerEffect.return h p q r i j k l e f = ground (arith, v.own p q r i j k l)
  after_own (WitLedgerEffect.ref_push vals) (t, offset, size, old, new, h) p q r i j k l e f =
      ground (
        arith,
        v.own p q r i j k l,
        v.own s.id_curr q r offset j size l,
        v.own p s.id_curr r i offset k size,
      )
  after_own (WitLedgerEffect.new_ref size t) h p q r i j k l e f =
      ground (arith, v.own p q r i j k l, v.opened p r i k, v.opened q r j l, v.fresh s.ref_counter)
  after_own _ h p q r i j k l e f = ground (arith, v.own p q r i j k l)

  pub Step-References : (op : WitLedgerEffect) → Step rom s op s' → References s'
  Step-References op h = record {
    fresh = after_fresh op h;
    sized = after_sized op h;
    filled = after_filled op h;
    opened = after_opened op h;
    own = after_own op h;
  }
