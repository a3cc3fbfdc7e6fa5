-- ===== src/Interleaving/Protocol.antt =====
-- The call protocol: a coordination script resumes a UTXO that yielded, the UTXO works, and yields.
use starstream.Prelude.{◌≡◌, refl, Bool, true, false, Option, none, some, List, [], ◌∷◌, ok, arith}
use starstream.Interleaving.Effects.{ProcessId, FunctionId, Value, Ref, WitLedgerEffect, values_eq}
use starstream.Interleaving.State.{Rom, InterleavingState}
use starstream.Interleaving.Machine.{dispatch}
use starstream.Interleaving.Rules.{Step, dispatch-Step}
use starstream.Interleaving.Rules.Control.{Allows, Promised}

-- A host call that keeps control where it is.
abbrev pub is_local : WitLedgerEffect → Bool
is_local (WitLedgerEffect.resume _ _ _ _ _) = false
is_local (WitLedgerEffect.yield _) = false
is_local WitLedgerEffect.return = false
is_local (WitLedgerEffect.call_effect_handler _ _ _ _) = false
is_local _ = true

-- A sequence of host calls that all keep control.
pub data Locals (rom : Rom) : InterleavingState → InterleavingState → Type 0 where
  done : {s : InterleavingState} → Locals rom s s
  then_call :
      {s s' s'' : InterleavingState} (op : WitLedgerEffect)
      → is_local op ≡ true
      → dispatch rom s op ≡ ok s'
      → Locals rom s' s''
      → Locals rom s s''

-- `target`, a UTXO, runs on behalf of `parent`, which waits for `ret` from `claim`.
record Awaiting (rom : Rom) (parent target : ProcessId) (ret : Ref) (claim : Option ProcessId)
    (s : InterleavingState) : Type 0 where
  running : s.id_curr ≡ target
  utxo : rom.is_utxo.at target ≡ true
  returns : s.yield_to.at target ≡ some parent
  promised : s.expected_input.at parent ≡ some ret
  claimed : s.expected_resumer.at parent ≡ claim

module _ (rom : Rom) (parent target : ProcessId) (ret : Ref) (claim : Option ProcessId) where
  Step-Awaiting :
      (s : InterleavingState) (op : WitLedgerEffect) (s' : InterleavingState)
      → is_local op ≡ true
      → Step rom s op s'
      → Awaiting rom parent target ret claim s
      → Awaiting rom parent target ret claim s'
  Step-Awaiting s WitLedgerEffect.return s' l h a = cc
  Step-Awaiting s _ s' l h a = ground arith

  Locals-Awaiting :
      {s s' : InterleavingState}
      → Locals rom s s'
      → Awaiting rom parent target ret claim s
      → Awaiting rom parent target ret claim s'
  Locals-Awaiting done a = a
  Locals-Awaiting (then_call op l e ls) a =
      Locals-Awaiting ls (Step-Awaiting _ op _ l (dispatch-Step rom _ op _ e) a)

values_eq-eq : (xs ys : List Value) → values_eq xs ys ≡ true → xs ≡ ys
values_eq-eq [] [] h = refl
values_eq-eq (x ∷ xs) (y ∷ ys) h = ground (arith, values_eq-eq xs ys)
values_eq-eq _ _ h = cc

Promised-eq :
    (rom : Rom) (s : InterleavingState) (val : Ref) (s' : InterleavingState) (ret : Ref)
    (got : List Value) (o : Option Ref)
    → o ≡ some ret
    → Promised rom s val s' o got
    → s.ref_store ret ≡ some got
Promised-eq rom s val s' ret got none e q = cc
Promised-eq rom s val s' ret got (some r) e (expected, there, same) =
    ground (arith, values_eq-eq expected got same)

-- If a coordination script resumes a UTXO that is at a yield, and the UTXO makes only local host
-- calls until it yields, then control is back at the script, what was yielded has the contents that
-- the script recorded as its result, and the UTXO is the resumer that the script recorded, if any.
pub resume-yield :
    (rom : Rom) (s s₁ s₂ s₃ : InterleavingState) (target : ProcessId) (f_id : FunctionId)
    (val ret : Ref) (claim : Option ProcessId) (v : Ref)
    → rom.is_utxo.at s.id_curr ≡ false
    → rom.is_utxo.at target ≡ true
    → s.on_yield.at target ≡ true
    → dispatch rom s (WitLedgerEffect.resume target f_id val ret claim) ≡ ok s₁
    → Locals rom s₁ s₂
    → dispatch rom s₂ (WitLedgerEffect.yield v) ≡ ok s₃
    → (s₃.id_curr ≡ s.id_curr) × (s₂.ref_store ret ≡ s₂.ref_store v) × Allows claim target
resume-yield rom s s₁ s₂ s₃ target f_id val ret claim v coord utxo yielded e₁ ls e₃ =
    let h = dispatch-Step rom s (WitLedgerEffect.resume target f_id val ret claim) s₁ e₁ in
    let first : Awaiting rom s.id_curr target ret claim s₁ = ground (arith, h) in
    let a = Locals-Awaiting rom s.id_curr target ret claim ls first in
    let (parent, got, y) = dispatch-Step rom s₂ (WitLedgerEffect.yield v) s₃ e₃ in
    let back : parent ≡ s.id_curr = ground (arith, a, y) in
    (
      ground (arith, y.after, back),
      ground (
        arith,
        y.stored,
        back,
        a.promised,
        Promised-eq rom s₂ v s₃ ret got (s₂.expected_input.at parent)
            (ground (arith, a.promised, back)) y.promised,
      ),
      ground (arith, a.claimed, a.running, back, y.resumer),
    )
