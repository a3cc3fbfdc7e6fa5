-- ===== src/Interleaving/Run/Verdict.antt =====
-- What the verdict of the checker means.
use starstream.Prelude.{
  ℕ, zero, suc, ◌+◌, ◌<◌, ◌≡◌, ◌≢◌, ◌↔◌, ◌⊎◌, refl, ap, inl, inr, Option, none, some, List,
  get_elem?, ok, err, panic, Array, filled, arith, Outcome-cases, Option-cases,
}
use starstream.Interleaving.Effects.{WitLedgerEffect}
use starstream.Interleaving.Instance.{InterleavingInstance, Checked}
use starstream.Interleaving.State.{Rom, InterleavingState}
use starstream.Interleaving.Machine.{state_transition}
use starstream.Interleaving.Verify.{
  Position, next_op, run, start, rom_of, processes, total_ops, finish, final_checks,
  verify_interleaving_semantics,
}
use starstream.Interleaving.Transition.{
  Transition, Transition-state_transition, state_transition-Transition, Moves, stop, go, Finished,
}
use starstream.Interleaving.Safety.Calls.{Names, BurnsInput, dispatch-ne-panic}
use starstream.Interleaving.Safety.Complete.{Step-dispatch}
use starstream.Interleaving.Invariant.Sizes.{RomSizes}
use starstream.Interleaving.Run.Ends.{rest, rest_start, rest-Transition}
use starstream.Interleaving.Run.Sound.{run_sound}
use starstream.Interleaving.Run.Keeps.{
  Inv, Transition-Inv, Moves-Inv, WellFormed, Started, start-Started, start-RomSizes, start-Inv,
  start-ne-panic,
}
use starstream.Interleaving.Run.Final.{
  Accepted, final_checks-Accepted, Accepted-final_checks, final_checks-ne-panic,
}

-- The host calls of the traces name processes of the transaction and ask for no reference that is too
-- large to allocate, and only inputs burn.
abbrev pub WellNamed : ℕ → Rom → Type 0
WellNamed n rom =
    (i c : ℕ) (op : WitLedgerEffect)
    → get_elem? (rom.traces.at i) c ≡ some op
    → Names n op × BurnsInput rom i op

module _ (n m : ℕ) (rom : Rom) (t : RomSizes n m rom) (names : WellNamed n rom) where
  next_op-found :
      (s : InterleavingState) (next : Array ℕ)
      → Inv n m rom s
      → next.len ≡ n
      → next_op rom (s, next) ≡ ok (get_elem? (rom.traces.at s.id_curr) (next.at s.id_curr))
  unfolding next_op
  next_op-found s next v e = ground (arith, v.sizes.running)

  module _ (s : InterleavingState) (next : Array ℕ) (op : WitLedgerEffect) (v : Inv n m rom s)
      (e : next.len ≡ n) where
    Transition-accepted :
        (s' : InterleavingState) (next' : Array ℕ)
        → Transition rom s next op s' next'
        → state_transition rom s next op ≡ ok (s', next')
    Transition-accepted s' next' h =
        Transition-state_transition rom s next op s' next' h
          (ground (arith, v.sizes.running, v.sizes.lengths))
          (Step-dispatch n m rom s t v.sizes s' op (names _ _ _ h.found).0 h.steps)

    state_transition-ne-panic :
        get_elem? (rom.traces.at s.id_curr) (next.at s.id_curr) ≡ some op
        → state_transition rom s next op ≢ panic
    unfolding state_transition
    state_transition-ne-panic found h = ground (
      arith,
      v.sizes.running,
      v.sizes.lengths,
      dispatch-ne-panic n m rom s t v.sizes v.references op (names _ _ _ found).0
          (names _ _ _ found).1,
    )

  -- Every finished sequence of rounds is found by the run.
  run_complete :
      (fuel : ℕ) {p q : Position}
      → Moves rom p q
      → Finished rom q
      → Inv n m rom p.0
      → p.1.len ≡ n
      → rest rom p < fuel
      → run fuel rom p ≡ some (ok q)
  unfolding run
  run_complete zero ms d v e lt = elim lt [ ]
  run_complete (suc fuel) {p = (s, next)} stop d v e lt = rw (next_op-found s next v e, d)
  run_complete (suc fuel) (go {s} {s'} {next} {next'} op h ms) d v e lt =
      rw (next_op-found s next v e, h.found, Transition-accepted s next op v e s' next' h)
        (run_complete fuel ms d (Transition-Inv n m rom op h v) (ground (arith, h.bumps))
          (omega (arith, rest-Transition rom s next op s' next' h)))

  run-ne-panic :
      (fuel : ℕ) (s : InterleavingState) (next : Array ℕ)
      → Inv n m rom s
      → next.len ≡ n
      → run fuel rom (s, next) ≢ some panic
  unfolding run
  run-ne-panic zero s next v e h = cc
  run-ne-panic (suc fuel) s next v e h =
      elim (Option-cases (get_elem? (rom.traces.at s.id_curr) (next.at s.id_curr))) [
        | inl f ↦ ground (arith, next_op-found s next v e)
        | inr (op, f) ↦ elim (Outcome-cases (state_transition rom s next op)) [
          | inl ((s', next'), g) ↦
              let h' = state_transition-Transition rom s next op s' next' g in
              run-ne-panic fuel s' next' (Transition-Inv n m rom op h' v) (ground (arith, h'.bumps))
                (ground (arith, next_op-found s next v e))
          | inr (inl (x, g)) ↦ ground (arith, next_op-found s next v e)
          | inr (inr g) ↦ state_transition-ne-panic s next op v e f g
        ]
      ]

-- A complete run of the transaction: the checks before it pass, its rounds use up the trace of the
-- process that runs last, and the state there is accepted.
pub record CompleteRun (inst : InterleavingInstance) (traces : List (List WitLedgerEffect))
    (s : InterleavingState) (q : Position) : Type 0 where
  pub starts : start inst traces ≡ ok s
  pub moves : Moves (rom_of inst traces) (s, filled (processes inst) 0) q
  pub finished : Finished (rom_of inst traces) q
  pub accepted : Accepted inst (rom_of inst traces) q.0

finish-ok :
    (inst : InterleavingInstance) (rom : Rom) (o : Option (Checked Position))
    → finish inst rom o ≡ some (ok tt)
    → (q : Position) × (o ≡ some (ok q)) × (final_checks inst rom q.0 ≡ ok tt)
finish-ok inst rom none h = cc
finish-ok inst rom (some panic) h = cc
finish-ok inst rom (some (err e)) h = cc
finish-ok inst rom (some (ok q)) h = (q, refl, ground arith)

finish-panic :
    (inst : InterleavingInstance) (rom : Rom) (o : Option (Checked Position))
    → finish inst rom o ≡ some panic
    → (o ≡ some panic) ⊎ ((q : Position) × (o ≡ some (ok q)) × (final_checks inst rom q.0 ≡ panic))
finish-panic inst rom none h = cc
finish-panic inst rom (some panic) h = inl refl
finish-panic inst rom (some (err e)) h = cc
finish-panic inst rom (some (ok q)) h = inr (q, refl, ground arith)

module _ (inst : InterleavingInstance) (traces : List (List WitLedgerEffect)) where
  -- A transaction that the checker accepts has a complete run.
  pub verify_sound :
      verify_interleaving_semantics inst traces ≡ some (ok tt)
      → (s : InterleavingState) × (q : Position) × CompleteRun inst traces s q
  unfolding verify_interleaving_semantics
  verify_sound h = elim (Outcome-cases (start inst traces)) [
    | inl (s, e) ↦
        let (q, ran, final) =
          finish-ok inst (rom_of inst traces)
            (run (suc (total_ops traces)) (rom_of inst traces) (s, filled (processes inst) 0))
            (rw e at h) in
        let (ms, d) = run_sound _ (rom_of inst traces) _ q ran in
        (
          s,
          q,
          record {
            starts = e;
            moves = ms;
            finished = d;
            accepted = final_checks-Accepted inst _ q.0 final;
          },
        )
    | inr (inl (x, e)) ↦ absurd (ground arith)
    | inr (inr e) ↦ absurd (ground arith)
  ]

  module _ (w : WellFormed inst) (names : WellNamed (processes inst) (rom_of inst traces)) where
    module _ (s : InterleavingState) (h : Started inst traces s) where
      abbrev table : RomSizes (processes inst) (inst.n_inputs + inst.n_new) (rom_of inst traces)
      table = start-RomSizes inst traces w s h

      abbrev holds : Inv (processes inst) (inst.n_inputs + inst.n_new) (rom_of inst traces) s
      holds = start-Inv inst traces w s h

      started_run-ne-panic :
          finish inst
            (rom_of inst traces)
            (run (suc (total_ops traces)) (rom_of inst traces) (s, filled (processes inst) 0))
          ≢ some panic
      started_run-ne-panic e = elim (finish-panic inst (rom_of inst traces) _ e) [
        | inl f ↦ run-ne-panic _ _ _ table names _ s (filled (processes inst) 0) holds refl f
        | inr (q, f, final) ↦
            let v = Moves-Inv _ _ _ (run_sound _ (rom_of inst traces) _ q f).0 holds in
            final_checks-ne-panic inst (rom_of inst traces) q.0 v.sizes.lengths table h.burned
              h.owned_out v.sizes.running final
      ]

      started_run-accepts :
          (q : Position)
          → Moves (rom_of inst traces) (s, filled (processes inst) 0) q
          → Finished (rom_of inst traces) q
          → Accepted inst (rom_of inst traces) q.0
          → finish inst
              (rom_of inst traces)
              (run (suc (total_ops traces)) (rom_of inst traces) (s, filled (processes inst) 0))
            ≡ some (ok tt)
      started_run-accepts q ms d a =
          let v = Moves-Inv _ _ _ ms holds in
          rw
            (run_complete _ _ _ table names (suc (total_ops traces)) ms d holds refl
              (omega (arith, rest_start inst traces s (processes inst))))
            (ap some (
              Accepted-final_checks inst (rom_of inst traces) q.0 v.sizes.lengths table h.burned
                h.owned_out v.sizes.running a))

    -- A well-formed transaction whose host calls name its processes, in which only inputs burn and no
    -- reference is asked for that is too large to allocate, is accepted by the checker exactly when it
    -- has a complete run.
    pub verify_iff :
        (verify_interleaving_semantics inst traces ≡ some (ok tt))
        ↔ ((s : InterleavingState) × (q : Position) × CompleteRun inst traces s q)
    unfolding verify_interleaving_semantics
    verify_iff = (
      verify_sound,
      λ (s, q, r). rw r.starts (
          started_run-accepts s (start-Started inst traces s r.starts) q r.moves r.finished
            r.accepted),
    )

    -- The checker does not panic on a well-formed transaction whose host calls name its processes, and
    -- in which only inputs burn and no reference is asked for that is too large to allocate.
    pub verify-ne-panic : verify_interleaving_semantics inst traces ≢ some panic
    unfolding verify_interleaving_semantics
    verify-ne-panic e = elim (Outcome-cases (start inst traces)) [
      | inl (s, f) ↦ started_run-ne-panic s (start-Started inst traces s f) (rw f at e)
      | inr (inl (x, f)) ↦ ground arith
      | inr (inr f) ↦ start-ne-panic inst traces w f
    ]
