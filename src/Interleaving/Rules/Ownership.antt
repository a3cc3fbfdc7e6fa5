-- ===== src/Interleaving/Rules/Ownership.antt =====
-- The rules of EFFECTS_REFERENCE.md of UTXOs and tokens.
use starstream.Prelude.{◌<◌, ◌≡◌, true, none, some, ok, put, arith, inl, inr, Option-cases}
use starstream.Interleaving.Effects.{ProcessId}
use starstream.Interleaving.State.{Rom, InterleavingState}
use starstream.Interleaving.Machine.Ownership.{burn, bind, unbind}

module _ (rom : Rom) (s s' : InterleavingState) where
  pub record Burns : Type 0 where
    pub utxo : rom.is_utxo.at s.id_curr ≡ true
    pub must : rom.must_burn.at s.id_curr ≡ true
    pub in_range : s.id_curr < rom.must_burn.len
    pub after : s' ≡ record s { did_burn = put s.did_burn s.id_curr true }

  pub burn-Burns : burn rom s ≡ ok s' → Burns
  unfolding burn
  burn-Burns h = record {
    utxo = ground arith;
    must = ground arith;
    in_range = ground arith;
    after = ground arith;
  }

  pub record Binds (owner : ProcessId) : Type 0 where
    pub token_utxo : rom.is_utxo.at s.id_curr ≡ true
    pub owner_utxo : rom.is_utxo.at owner ≡ true
    pub token_ready : s.initialized.at s.id_curr ≡ true
    pub owner_ready : s.initialized.at owner ≡ true
    pub owner_in_range : owner < s.initialized.len
    pub token_in_range : s.id_curr < s.ownership.len
    pub unowned : s.ownership.at s.id_curr ≡ none
    pub after : s' ≡ record s { ownership = put s.ownership s.id_curr (some owner) }

  pub bind-Binds : (owner : ProcessId) → bind rom s owner ≡ ok s' → Binds owner
  unfolding bind
  bind-Binds owner h = record {
    token_utxo = ground arith;
    owner_utxo = ground arith;
    token_ready = ground arith;
    owner_ready = ground arith;
    owner_in_range = ground arith;
    token_in_range = ground arith;
    unowned = ground arith;
    after = ground arith;
  }

  pub record Unbinds (token : ProcessId) : Type 0 where
    pub owner_utxo : rom.is_utxo.at s.id_curr ≡ true
    pub token_utxo : rom.is_utxo.at token ≡ true
    pub token_ready : s.initialized.at token ≡ true
    pub in_range : token < s.ownership.len
    pub owned : s.ownership.at token ≡ some s.id_curr
    pub after : s' ≡ record s { ownership = put s.ownership token none }

  pub unbind-Unbinds : (token : ProcessId) → unbind rom s token ≡ ok s' → Unbinds token
  unfolding unbind
  unbind-Unbinds token h = record {
    owner_utxo = ground arith;
    token_utxo = ground arith;
    token_ready = ground arith;
    in_range = ground arith;
    owned = elim (Option-cases (s.ownership.at token)) [
      | inl e ↦ absurd (ground arith)
      | inr (p, e) ↦ ground arith
    ];
    after = ground arith;
  }
