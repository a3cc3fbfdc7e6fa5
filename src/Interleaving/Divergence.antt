-- ===== src/Interleaving/Divergence.antt =====
-- Where a host call is an index out of range, not a refusal.
use starstream.Prelude.{ℕ, ◌≤◌, ◌≡◌, true, Option, panic, arith}
use starstream.Interleaving.Effects.{ProcessId, FunctionId, Ref, WitLedgerEffect}
use starstream.Interleaving.State.{Rom, InterleavingState}
use starstream.Interleaving.Machine.{dispatch}
use starstream.Interleaving.Machine.Control.{resume}
use starstream.Interleaving.Machine.Ownership.{burn}
use starstream.Interleaving.Invariant.Sizes.{RomSizes, Sizes}

-- A host call that resumes a process which is not in the table panics; it is not refused with
-- `BadPid`.
pub resume_unknown-panic :
    (n m : ℕ) (rom : Rom) (s : InterleavingState)
    → RomSizes n m rom
    → Sizes n m s
    → (target : ProcessId) (f_id : FunctionId) (val ret : Ref) (caller : Option ProcessId)
    → n ≤ target
    → dispatch rom s (WitLedgerEffect.resume target f_id val ret caller) ≡ panic
unfolding dispatch resume
resume_unknown-panic n m rom s t v target f_id val ret caller le =
    ground (arith, v.lengths, v.running)

-- `Burn` by a UTXO that is no input panics: the table that it is looked up in covers inputs only.
pub burn_by_new_output-panic :
    (n m : ℕ) (rom : Rom) (s : InterleavingState)
    → RomSizes n m rom
    → Sizes n m s
    → rom.is_utxo.at s.id_curr ≡ true
    → rom.must_burn.len ≤ s.id_curr
    → dispatch rom s WitLedgerEffect.burn ≡ panic
unfolding dispatch burn
burn_by_new_output-panic n m rom s t v utxo le = ground (arith, v.running)
