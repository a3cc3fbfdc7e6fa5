-- ===== src/Interleaving/Rules/Spawn.antt =====
-- The rules of EFFECTS_REFERENCE.md that construct processes, attest code and install handlers.
use starstream.Prelude.{
  ◌<◌, ◌≡◌, true, false, none, some, List, [], ◌∷◌, ok, put, arith, refl, inl, inr, Option-cases,
}
use starstream.Interleaving.Effects.{ProcessId, InterfaceId, Hash, Ref}
use starstream.Interleaving.State.{Rom, InterleavingState}
use starstream.Interleaving.Machine.Control.{top}
use starstream.Interleaving.Machine.Spawn.{
  program_hash, new_utxo, new_token, new_coord, with_stack, install_handler, uninstall_handler,
  get_handler_for,
}

-- What a process is declared to be, and what a constructor asks for.
pub data Role : Type 0 where
  utxo_role token_role coord_role : Role

abbrev pub HasRole : Rom → ProcessId → Role → Type 0
HasRole rom id Role.utxo_role = (rom.is_utxo.at id ≡ true) × (rom.is_token.at id ≡ false)
HasRole rom id Role.token_role = (rom.is_utxo.at id ≡ true) × (rom.is_token.at id ≡ true)
HasRole rom id Role.coord_role = (rom.is_utxo.at id ≡ false) × Unit {0}

module _ (rom : Rom) (s s' : InterleavingState) where
  pub record Attests (target : ProcessId) (hash : Hash) : Type 0 where
    pub attested : rom.process_table.at target ≡ hash
    pub in_range : target < rom.process_table.len
    pub after : s' ≡ s

  pub program_hash-Attests :
      (target : ProcessId) (hash : Hash)
      → program_hash rom s target hash ≡ ok s'
      → Attests target hash
  unfolding program_hash
  program_hash-Attests target hash h = record {
    attested = ground arith;
    in_range = ground arith;
    after = ground arith;
  }

  -- A coordination script constructs a process of its declared code and role, once.
  pub record Constructs (role : Role) (hash : Hash) (val : Ref) (id : ProcessId) : Type 0 where
    pub by_coord : rom.is_utxo.at s.id_curr ≡ false
    pub declared : rom.process_table.at id ≡ hash
    pub has_role : HasRole rom id role
    pub fresh : s.initialized.at id ≡ false
    pub in_range : id < s.initialized.len
    pub after : s' ≡ record s {
      initialized = put s.initialized id true;
      inits = put s.inits id (some (val, s.id_curr));
      expected_input = put s.expected_input id none;
      expected_resumer = put s.expected_resumer id none;
      on_yield = put s.on_yield id true;
      yield_to = put s.yield_to id none;
    }

  module _ (hash : Hash) (val : Ref) (id : ProcessId) where
    pub new_utxo-Constructs :
        new_utxo rom s hash val id ≡ ok s' → Constructs Role.utxo_role hash val id
    unfolding new_utxo
    new_utxo-Constructs h = record {
      by_coord = ground arith;
      declared = ground arith;
      has_role = (ground arith, ground arith);
      fresh = ground arith;
      in_range = ground arith;
      after = ground arith;
    }

    pub new_token-Constructs :
        new_token rom s hash val id ≡ ok s' → Constructs Role.token_role hash val id
    unfolding new_token
    new_token-Constructs h = record {
      by_coord = ground arith;
      declared = ground arith;
      has_role = (ground arith, ground arith);
      fresh = ground arith;
      in_range = ground arith;
      after = ground arith;
    }

    pub new_coord-Constructs :
        new_coord rom s hash val id ≡ ok s' → Constructs Role.coord_role hash val id
    unfolding new_coord
    new_coord-Constructs h = record {
      by_coord = ground arith;
      declared = ground arith;
      has_role = (ground arith, tt);
      fresh = ground arith;
      in_range = ground arith;
      after = ground arith;
    }

  pub record Installs (i : InterfaceId) : Type 0 where
    pub by_coord : rom.is_utxo.at s.id_curr ≡ false
    pub after : s' ≡ with_stack s i (s.id_curr ∷ s.handler_stack i)

  pub install_handler-Installs : (i : InterfaceId) → install_handler rom s i ≡ ok s' → Installs i
  unfolding install_handler
  install_handler-Installs i h = record { by_coord = ground arith; after = ground arith }

  pub record Uninstalls (i : InterfaceId) (rest : List ProcessId) : Type 0 where
    pub by_coord : rom.is_utxo.at s.id_curr ≡ false
    pub own : s.handler_stack i ≡ s.id_curr ∷ rest
    pub after : s' ≡ with_stack s i rest

  pub uninstall_handler-Uninstalls :
      (i : InterfaceId)
      → uninstall_handler rom s i ≡ ok s'
      → (rest : List ProcessId) × Uninstalls i rest
  unfolding uninstall_handler
  uninstall_handler-Uninstalls i h = by_stack (s.handler_stack i) refl
    where
      by_stack :
          (stack : List ProcessId)
          → s.handler_stack i ≡ stack
          → (rest : List ProcessId) × Uninstalls i rest
      by_stack [] e = absurd (ground arith)
      by_stack (handler ∷ rest) e =
          (rest, record { by_coord = ground arith; own = ground arith; after = ground arith })

module _ (s s' : InterleavingState) where
  pub record Looks (i : InterfaceId) (handler : ProcessId) : Type 0 where
    pub handled : top (s.handler_stack i) ≡ some handler
    pub after : s' ≡ s

  pub get_handler_for-Looks :
      (i : InterfaceId) (handler : ProcessId)
      → get_handler_for s i handler ≡ ok s'
      → Looks i handler
  unfolding get_handler_for
  get_handler_for-Looks i handler h = elim (Option-cases (top (s.handler_stack i))) [
    | inl e ↦ absurd (ground arith)
    | inr (p, e) ↦ record { handled = ground arith; after = ground arith }
  ]
