-- ===== src/Interleaving/Invariant/Tokens.antt =====
-- Who can own a token.
use starstream.Prelude.{◌≡◌, true, some, arith}
use starstream.Interleaving.Effects.{ProcessId, WitLedgerEffect}
use starstream.Interleaving.State.{Rom, InterleavingState}
use starstream.Interleaving.Rules.{Step}

-- An owner is a UTXO that exists.
pub record Owners (rom : Rom) (s : InterleavingState) : Type 0 where
  pub owners :
      (token owner : ProcessId)
      → s.ownership.at token ≡ some owner
      → (rom.is_utxo.at owner ≡ true) × (s.initialized.at owner ≡ true)

module _ (rom : Rom) (s s' : InterleavingState) (v : Owners rom s) where
  after_owners :
      (op : WitLedgerEffect)
      → Step rom s op s'
      → (token owner : ProcessId) → s'.ownership.at token ≡ some owner
      → (rom.is_utxo.at owner ≡ true) × (s'.initialized.at owner ≡ true)
  after_owners WitLedgerEffect.return h token owner e = ground (arith, v.owners token owner)
  after_owners _ h token owner e = ground (arith, v.owners token owner)

  pub Step-Owners : (op : WitLedgerEffect) → Step rom s op s' → Owners rom s'
  Step-Owners op h = record { owners = after_owners op h }
