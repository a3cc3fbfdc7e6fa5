-- ===== src/Interleaving/Rules/Control.antt =====
-- The rules that pass control, after EFFECTS_REFERENCE.md: what each requires and the state after it.
-- A handler may call itself, which the reference forbids and the code accepts.
use starstream.Prelude.{
  ◌<◌, ◌≡◌, ◌≢◌, ◌⊎◌, Bool, true, false, not, ◌&&◌, if◌then◌else◌, Option, none, some, List, ok,
  put, arith, refl, inl, inr, Option-cases,
}
use starstream.Interleaving.Effects.{ProcessId, InterfaceId, FunctionId, Value, Ref, values_eq}
use starstream.Interleaving.State.{Rom, InterleavingState}
use starstream.Interleaving.Machine.Control.{
  top, resume, yield, return, call_effect_handler, enter, activation, init,
}

-- An expectation that was recorded, or none, allows this value.
abbrev pub Allows {ℓ} : {A : Type ℓ} → Option A → A → Type ℓ
Allows o a = (o ≡ none) ⊎ (o ≡ some a)

-- The part that `Resume` and `CallEffectHandler` share: the current process leaves its claims and
-- the target, whose claims are consumed, is activated and has a function to enter.
abbrev pub transferred :
    InterleavingState
    → (target : ProcessId) (f_id : FunctionId) (val ret : Ref) (caller : Option ProcessId)
    → InterleavingState
transferred s target f_id val ret caller = record s {
  id_prev = some s.id_curr;
  id_curr = target;
  activations = put (put s.activations s.id_curr none) target (some (val, s.id_curr));
  expected_input = put (put s.expected_input target none) s.id_curr (some ret);
  expected_resumer = put (put s.expected_resumer target none) s.id_curr caller;
  must_exit = put s.must_exit s.id_curr false;
  must_enter = put s.must_enter target (some f_id);
  finalized = put s.finalized target false;
}

-- Whether a resumed process gets the current one as its parent.
abbrev pub adopts : Rom → InterleavingState → ProcessId → Bool
adopts rom s target = s.on_yield.at target && not (rom.is_utxo.at s.id_curr)

abbrev pub with_parent : Rom → InterleavingState → ProcessId → InterleavingState → InterleavingState
with_parent rom s target s' = record s' {
  yield_to = if adopts rom s target then put s.yield_to target (some s.id_curr) else s.yield_to;
  on_yield = if adopts rom s target then put s.on_yield target false else s.on_yield;
}

module _ (rom : Rom) (s : InterleavingState) (target : ProcessId) (f_id : FunctionId)
    (val ret : Ref) (caller : Option ProcessId) (s' : InterleavingState) where
  pub record Resumes : Type 0 where
    pub other : s.id_curr ≢ target
    pub across : (rom.is_utxo.at s.id_curr && rom.is_utxo.at target) ≡ false
    pub ready : s.initialized.at target ≡ true
    pub idle : s.activations.at target ≡ none
    pub in_range : target < s.initialized.len
    pub claim : Allows (s.expected_input.at target) val
    pub resumer : Allows (s.expected_resumer.at target) s.id_curr
    pub after : s' ≡ with_parent rom s target (transferred s target f_id val ret caller)

  pub resume-Resumes : resume rom s target f_id val ret caller ≡ ok s' → Resumes
  unfolding resume
  resume-Resumes h = record {
    other = ground arith;
    across = ground arith;
    ready = ground arith;
    idle = ground arith;
    in_range = ground arith;
    claim = ground arith;
    resumer = ground arith;
    after = ground arith;
  }

module _ (rom : Rom) (s : InterleavingState) (val : Ref) (s' : InterleavingState) where
  -- The contents that the parent expects, if it expects any, are the contents yielded.
  abbrev pub Promised : Option Ref → List Value → Type 0
  Promised none got = Unit
  Promised (some r) got =
      (expected : List Value) × (s.ref_store r ≡ some expected) × (values_eq expected got ≡ true)

  pub record YieldsTo (parent : ProcessId) (got : List Value) : Type 0 where
    pub utxo : rom.is_utxo.at s.id_curr ≡ true
    pub has_parent : s.yield_to.at s.id_curr ≡ some parent
    pub stored : s.ref_store val ≡ some got
    pub resumer : Allows (s.expected_resumer.at parent) s.id_curr
    pub promised : Promised (s.expected_input.at parent) got
    pub after : s' ≡ record s {
      finalized = put s.finalized s.id_curr true;
      on_yield = put s.on_yield s.id_curr true;
      id_prev = some s.id_curr;
      activations = put s.activations s.id_curr none;
      must_exit = put s.must_exit s.id_curr false;
      id_curr = parent;
    }

  abbrev pub Yields : Type 0
  Yields = (parent : ProcessId) × (got : List Value) × YieldsTo parent got

  module _ (h : yield rom s val ≡ ok s') where
    yield-YieldsTo :
        (parent : ProcessId) (got : List Value)
        → s.yield_to.at s.id_curr ≡ some parent
        → s.ref_store val ≡ some got
        → YieldsTo parent got
    unfolding yield
    yield-YieldsTo parent got p q = record {
      utxo = ground arith;
      has_parent = p;
      stored = q;
      resumer = ground arith;
      promised = promised (s.expected_input.at parent) refl;
      after = ground arith;
    }
      where
        promised : (o : Option Ref) → s.expected_input.at parent ≡ o → Promised o got
        promised none e = tt
        promised (some r) e = elim (Option-cases (s.ref_store r)) [
          | inl missing ↦ absurd (ground arith)
          | inr (expected, there) ↦ (expected, there, ground arith)
        ]

    pub yield-Yields : Yields
    unfolding yield
    yield-Yields = elim (Option-cases (s.yield_to.at s.id_curr)) [
      | inl e ↦ absurd (ground arith)
      | inr (parent, p) ↦ elim (Option-cases (s.ref_store val)) [
        | inl e ↦ absurd (ground arith)
        | inr (got, q) ↦ (parent, got, yield-YieldsTo parent got p q)
      ]
    ]

module _ (rom : Rom) (s : InterleavingState) (s' : InterleavingState) where
  abbrev pub ended : InterleavingState
  ended = record s {
    finalized = put s.finalized s.id_curr true;
    activations = put s.activations s.id_curr none;
    must_exit = put s.must_exit s.id_curr false;
  }

  -- A coordination script returns to its parent; without one it must be the entrypoint, and stays.
  pub record Ends : Type 0 where
    pub coord : rom.is_utxo.at s.id_curr ≡ false
    pub leaves :
        ((parent : ProcessId) × (s.yield_to.at s.id_curr ≡ some parent)
          × (s' ≡ record ended { id_prev = some s.id_curr; id_curr = parent }))
        ⊎ ((s.yield_to.at s.id_curr ≡ none) × (s.id_curr ≡ s.entrypoint) × (s' ≡ ended))

  pub return-Ends : return rom s ≡ ok s' → Ends
  unfolding return
  return-Ends h = record {
    coord = ground arith;
    leaves = elim (Option-cases (s.yield_to.at s.id_curr)) [
      | inl e ↦ inr (e, ground arith, ground arith)
      | inr (parent, e) ↦ inl (parent, e, ground arith)
    ];
  }

module _ (s : InterleavingState) (interface_id : InterfaceId) (f_id : FunctionId) (val ret : Ref)
    (s' : InterleavingState) where
  pub record CallsHandler (target : ProcessId) : Type 0 where
    pub handled : top (s.handler_stack interface_id) ≡ some target
    pub idle : s.activations.at target ≡ none
    pub in_range : target < s.activations.len
    pub claim : Allows (s.expected_input.at target) val
    pub resumer : Allows (s.expected_resumer.at target) s.id_curr
    pub after : s' ≡ transferred s target f_id val ret (some target)

  pub call_effect_handler-CallsHandler :
      call_effect_handler s interface_id f_id val ret ≡ ok s'
      → (target : ProcessId) × CallsHandler target
  unfolding call_effect_handler
  call_effect_handler-CallsHandler h = elim (Option-cases (top (s.handler_stack interface_id))) [
    | inl e ↦ absurd (ground arith)
    | inr (target, e) ↦ (
      target,
      record {
        handled = e;
        idle = ground arith;
        in_range = ground arith;
        claim = ground arith;
        resumer = ground arith;
        after = ground arith;
      },
    )
  ]

module _ (s : InterleavingState) (s' : InterleavingState) where
  pub record Enters (f_id : FunctionId) : Type 0 where
    pub pending : s.must_enter.at s.id_curr ≡ some f_id
    pub outside : s.must_exit.at s.id_curr ≡ false
    pub after : s' ≡ record s {
      must_enter = put s.must_enter s.id_curr none;
      must_exit = put s.must_exit s.id_curr true;
    }

  pub enter-Enters : (f_id : FunctionId) → enter s f_id ≡ ok s' → Enters f_id
  unfolding enter
  enter-Enters f_id h = record {
    pending = ground arith;
    outside = ground arith;
    after = ground arith;
  }

  pub record Activates (val : Ref) (caller : ProcessId) : Type 0 where
    pub recorded : s.activations.at s.id_curr ≡ some (val, caller)
    pub after : s' ≡ s

  pub activation-Activates :
      (val : Ref) (caller : ProcessId) → activation s val caller ≡ ok s' → Activates val caller
  unfolding activation
  activation-Activates val caller h = record { recorded = ground arith; after = ground arith }

  -- Unlike the rule of the reference, `Init` consumes the recorded argument.
  pub record Inits (val : Ref) (caller : ProcessId) : Type 0 where
    pub recorded : s.inits.at s.id_curr ≡ some (val, caller)
    pub after : s' ≡ record s { inits = put s.inits s.id_curr none }

  pub init-Inits : (val : Ref) (caller : ProcessId) → init s val caller ≡ ok s' → Inits val caller
  unfolding init
  init-Inits val caller h = record { recorded = ground arith; after = ground arith }
