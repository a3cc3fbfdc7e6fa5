-- ===== src/Interleaving/Unread.antt =====
-- The checker does not ask that a trace is read to its end.
use starstream.Prelude.{
  ℕ, zero, suc, ◌≡◌, ◌≢◌, refl, ap, ◌∙◌, true, Bool, some, List, [], ◌∷◌, ◌++◌, length, get_elem?,
  any, ok, Array, from_list, arith,
}
use starstream.Interleaving.Effects.{ProcessId, WitLedgerEffect}
use starstream.Interleaving.Instance.{InterleavingInstance}
use starstream.Interleaving.State.{Rom, InterleavingState}
use starstream.Interleaving.Verify.{
  Position, rom_of, start, processes, is_burn, verify_interleaving_semantics,
}
use starstream.Interleaving.Rules.{Step}
use starstream.Interleaving.Transition.{Transition, Moves, stop, go}
use starstream.Interleaving.Run.Final.{Accepted}
use starstream.Interleaving.Run.Keeps.{WellFormed}
use starstream.Interleaving.Run.Verdict.{WellNamed, CompleteRun, verify_iff}

-- More host calls at the end of one process's trace.
unfoldable pub append_at :
    List (List WitLedgerEffect) → ProcessId → List WitLedgerEffect → List (List WitLedgerEffect)
append_at [] p extra = []
append_at (t ∷ ts) zero extra = (t ++ extra) ∷ ts
append_at (t ∷ ts) (suc p) extra = t ∷ append_at ts p extra

length-append_at :
    (ts : List (List WitLedgerEffect)) (p : ProcessId) (extra : List WitLedgerEffect)
    → length (append_at ts p extra) ≡ length ts
unfolding append_at
length-append_at [] p extra = refl
length-append_at (t ∷ ts) zero extra = refl
length-append_at (t ∷ ts) (suc p) extra = ap suc (length-append_at ts p extra)

abbrev trace_at : List (List WitLedgerEffect) → ProcessId → List WitLedgerEffect
trace_at ts = (from_list [] ts).at

trace_at-append_at :
    (ts : List (List WitLedgerEffect)) (p i : ProcessId) (extra : List WitLedgerEffect)
    → i ≢ p
    → trace_at (append_at ts p extra) i ≡ trace_at ts i
unfolding append_at
trace_at-append_at [] p i extra ne = refl
trace_at-append_at (t ∷ ts) zero zero extra ne = absurd (ne refl)
trace_at-append_at (t ∷ ts) zero (suc i) extra ne = refl
trace_at-append_at (t ∷ ts) (suc p) zero extra ne = refl
trace_at-append_at (t ∷ ts) (suc p) (suc i) extra ne =
    trace_at-append_at ts p i extra (λ e. ne (ap suc e))

get_elem?-append :
    (xs ys : List WitLedgerEffect) (c : ℕ) (op : WitLedgerEffect)
    → get_elem? xs c ≡ some op
    → get_elem? (xs ++ ys) c ≡ some op
get_elem?-append [] ys c op h = cc
get_elem?-append (x ∷ xs) ys zero op h = h
get_elem?-append (x ∷ xs) ys (suc c) op h = get_elem?-append xs ys c op h

found-append_at :
    (ts : List (List WitLedgerEffect)) (p i : ProcessId) (extra : List WitLedgerEffect) (c : ℕ)
    (op : WitLedgerEffect)
    → get_elem? (trace_at ts i) c ≡ some op
    → get_elem? (trace_at (append_at ts p extra) i) c ≡ some op
unfolding append_at
found-append_at [] p i extra c op h = h
found-append_at (t ∷ ts) zero zero extra c op h = get_elem?-append t extra c op h
found-append_at (t ∷ ts) zero (suc i) extra c op h = h
found-append_at (t ∷ ts) (suc p) zero extra c op h = h
found-append_at (t ∷ ts) (suc p) (suc i) extra c op h = found-append_at ts p i extra c op h

any-append :
    (q : WitLedgerEffect → Bool) (xs ys : List WitLedgerEffect)
    → any q xs ≡ true
    → any q (xs ++ ys) ≡ true
any-append q [] ys h = cc
any-append q (x ∷ xs) ys h = ground (arith, any-append q xs ys)

any-append_at :
    (ts : List (List WitLedgerEffect)) (p i : ProcessId) (extra : List WitLedgerEffect)
    → any is_burn (trace_at ts i) ≡ true
    → any is_burn (trace_at (append_at ts p extra) i) ≡ true
unfolding append_at
any-append_at [] p i extra h = h
any-append_at (t ∷ ts) zero zero extra h = any-append is_burn t extra h
any-append_at (t ∷ ts) zero (suc i) extra h = h
any-append_at (t ∷ ts) (suc p) zero extra h = h
any-append_at (t ∷ ts) (suc p) (suc i) extra h = any-append_at ts p i extra h

module _ (rom : Rom) (traces : Array (List WitLedgerEffect)) where
  abbrev other : Rom
  other = record rom { traces = traces }

  -- The rules do not look at the traces.
  Step-traces :
      (s : InterleavingState) (op : WitLedgerEffect) (s' : InterleavingState)
      → Step rom s op s'
      → Step other s op s'
  Step-traces s (WitLedgerEffect.yield v) s' (parent, got, h) = (parent, got, ground (arith, h))
  Step-traces s (WitLedgerEffect.uninstall_handler i) s' (rest, h) = (rest, ground (arith, h))
  Step-traces s (WitLedgerEffect.call_effect_handler i f v r) s' h = h
  Step-traces s (WitLedgerEffect.ref_push vals) s' h = h
  Step-traces s (WitLedgerEffect.ref_get r i ret) s' h = h
  Step-traces s (WitLedgerEffect.ref_write r i vals) s' h = h
  Step-traces s _ s' h = ground (arith, h)

module _ (inst : InterleavingInstance) (ts : List (List WitLedgerEffect)) (p : ProcessId)
    (extra : List WitLedgerEffect) where
  abbrev longer : List (List WitLedgerEffect)
  longer = append_at ts p extra

  Transition-append_at :
      (s : InterleavingState) (next : Array ℕ) (op : WitLedgerEffect) (s' : InterleavingState)
      (next' : Array ℕ)
      → Transition (rom_of inst ts) s next op s' next'
      → Transition (rom_of inst longer) s next op s' next'
  Transition-append_at s next op s' next' h = record {
    counted = h.counted;
    traced = ground (arith, h.traced, length-append_at ts p extra);
    found = found-append_at ts p s.id_curr extra (next.at s.id_curr) op h.found;
    allowed = h.allowed;
    building = h.building;
    bumps = h.bumps;
    steps = Step-traces (rom_of inst ts) (from_list [] longer) s op s' h.steps;
  }

  Moves-append_at : {q r : Position} → Moves (rom_of inst ts) q r → Moves (rom_of inst longer) q r
  Moves-append_at stop = stop
  Moves-append_at (go op t ms) = go op (Transition-append_at _ _ op _ _ t) (Moves-append_at ms)

  Accepted-append_at :
      (s : InterleavingState)
      → Accepted inst (rom_of inst ts) s
      → Accepted inst (rom_of inst longer) s
  Accepted-append_at s a = record {
    burned_inputs = λ i lt must. any-append_at ts p i extra (a.burned_inputs i lt must);
    finalized = a.finalized;
    burned = a.burned;
    in_coord = a.in_coord;
    owned = a.owned;
    bound = a.bound;
    constructed = a.constructed;
  }

  start-append_at : start inst longer ≡ start inst ts
  unfolding start
  start-append_at = rw (length-append_at ts p extra)

  CompleteRun-append_at :
      (s : InterleavingState) (q : Position)
      → q.0.id_curr ≢ p
      → CompleteRun inst ts s q
      → CompleteRun inst longer s q
  CompleteRun-append_at s q ne r = record {
    starts = start-append_at ∙ r.starts;
    moves = Moves-append_at r.moves;
    finished = rw (trace_at-append_at ts p q.0.id_curr extra ne) r.finished;
    accepted = Accepted-append_at q.0 r.accepted;
  }

-- A well-formed transaction with a complete run is accepted too with any further host calls at the
-- end of the trace of a process other than the one that runs last, so long as all host calls name processes
-- of the transaction, only inputs burn and no reference is asked for that is too large to allocate:
-- the checker does not read them.
pub unread_accepted :
    (inst : InterleavingInstance) (ts : List (List WitLedgerEffect)) (s : InterleavingState)
    (q : Position) (p : ProcessId) (extra : List WitLedgerEffect)
    → WellFormed inst
    → CompleteRun inst ts s q
    → q.0.id_curr ≢ p
    → WellNamed (processes inst) (rom_of inst (append_at ts p extra))
    → verify_interleaving_semantics inst (append_at ts p extra) ≡ some (ok tt)
unread_accepted inst ts s q p extra w r ne names =
    (verify_iff inst (append_at ts p extra) w names).1
      (s, q, CompleteRun-append_at inst ts p extra s q ne r)
