-- ===== src/Interleaving/Effects.antt =====
-- transaction_effects/mod.rs and witness.rs: the identifiers, and the host calls of a trace.
use starstream.Prelude.{
  arith, ◌≡◌, ℕ, Bool, true, false, ◌&&◌, ◌==◌, Option, none, some, List, [], ◌∷◌,
}

-- An index into the process table.
abbrev pub ProcessId : Type 0
ProcessId = ℕ

-- A 256-bit digest, as the number that its four words spell. It is only compared.
abbrev pub Hash : Type 0
Hash = ℕ

abbrev pub InterfaceId : Type 0
InterfaceId = Hash

-- The canonical representative of a field element. It is only compared.
abbrev pub FunctionId : Type 0
FunctionId = ℕ

abbrev pub Value : Type 0
Value = ℕ

abbrev pub Ref : Type 0
Ref = ℕ

abbrev pub nil : Value
nil = 0

-- `REF_PUSH_WIDTH`, `REF_GET_WIDTH` and `REF_WRITE_WIDTH` are one number.
abbrev pub ref_width : ℕ
ref_width = 4

-- `[Value; 4]`
pub record Word : Type 0 where
  pub w0 : Value
  pub w1 : Value
  pub w2 : Value
  pub w3 : Value

abbrev pub values : Word → List Value
values w = w.w0 ∷ w.w1 ∷ w.w2 ∷ w.w3 ∷ []

-- `WitEffectOutput` has one constructor, so an output field holds the value itself, and its
-- `unwrap` and `to_option` are the value and `some` of it.
pub data WitLedgerEffect : Type 0 where
  resume :
      (target : ProcessId) (f_id : FunctionId) (val : Ref) (ret : Ref) (caller : Option ProcessId)
      → WitLedgerEffect
  yield : (val : Ref) → WitLedgerEffect
  return : WitLedgerEffect
  program_hash : (target : ProcessId) (hash : Hash) → WitLedgerEffect
  new_utxo : (hash : Hash) (val : Ref) (id : ProcessId) → WitLedgerEffect
  new_token : (hash : Hash) (val : Ref) (id : ProcessId) → WitLedgerEffect
  new_coord : (hash : Hash) (val : Ref) (id : ProcessId) → WitLedgerEffect
  install_handler : (interface_id : InterfaceId) → WitLedgerEffect
  uninstall_handler : (interface_id : InterfaceId) → WitLedgerEffect
  get_handler_for : (interface_id : InterfaceId) (handler_id : ProcessId) → WitLedgerEffect
  call_effect_handler :
      (interface_id : InterfaceId) (f_id : FunctionId) (val : Ref) (ret : Ref) → WitLedgerEffect
  enter : (f_id : FunctionId) → WitLedgerEffect
  burn : WitLedgerEffect
  activation : (val : Ref) (caller : ProcessId) → WitLedgerEffect
  init : (val : Ref) (caller : ProcessId) → WitLedgerEffect
  new_ref : (size : ℕ) (ret : Ref) → WitLedgerEffect
  ref_push : (vals : Word) → WitLedgerEffect
  ref_get : (reff : Ref) (offset : ℕ) (ret : Word) → WitLedgerEffect
  ref_write : (reff : Ref) (offset : ℕ) (vals : Word) → WitLedgerEffect
  bind : (owner_id : ProcessId) → WitLedgerEffect
  unbind : (token_id : ProcessId) → WitLedgerEffect

-- `==` of `Option<ProcessId>`, of `[Value; 4]` and of `Vec<Value>`.
abbrev pub option_eq : Option ℕ → Option ℕ → Bool
option_eq none none = true
option_eq (some a) (some b) = a == b
option_eq _ _ = false

abbrev pub word_eq : Word → Word → Bool
word_eq v w = v.w0 == w.w0 && v.w1 == w.w1 && v.w2 == w.w2 && v.w3 == w.w3

abbrev pub values_eq : List Value → List Value → Bool
values_eq [] [] = true
values_eq (x ∷ xs) (y ∷ ys) = x == y && values_eq xs ys
values_eq _ _ = false

-- `==` of the host calls, field by field.
unfoldable pub effect_eq : WitLedgerEffect → WitLedgerEffect → Bool
effect_eq (resume a0 a1 a2 a3 a4) (resume b0 b1 b2 b3 b4) =
    a0 == b0 && a1 == b1 && a2 == b2 && a3 == b3 && option_eq a4 b4
effect_eq (yield a0) (yield b0) = a0 == b0
effect_eq return return = true
effect_eq (program_hash a0 a1) (program_hash b0 b1) = a0 == b0 && a1 == b1
effect_eq (new_utxo a0 a1 a2) (new_utxo b0 b1 b2) = a0 == b0 && a1 == b1 && a2 == b2
effect_eq (new_token a0 a1 a2) (new_token b0 b1 b2) = a0 == b0 && a1 == b1 && a2 == b2
effect_eq (new_coord a0 a1 a2) (new_coord b0 b1 b2) = a0 == b0 && a1 == b1 && a2 == b2
effect_eq (install_handler a0) (install_handler b0) = a0 == b0
effect_eq (uninstall_handler a0) (uninstall_handler b0) = a0 == b0
effect_eq (get_handler_for a0 a1) (get_handler_for b0 b1) = a0 == b0 && a1 == b1
effect_eq (call_effect_handler a0 a1 a2 a3) (call_effect_handler b0 b1 b2 b3) =
    a0 == b0 && a1 == b1 && a2 == b2 && a3 == b3
effect_eq (enter a0) (enter b0) = a0 == b0
effect_eq burn burn = true
effect_eq (activation a0 a1) (activation b0 b1) = a0 == b0 && a1 == b1
effect_eq (init a0 a1) (init b0 b1) = a0 == b0 && a1 == b1
effect_eq (new_ref a0 a1) (new_ref b0 b1) = a0 == b0 && a1 == b1
effect_eq (ref_push a0) (ref_push b0) = word_eq a0 b0
effect_eq (ref_get a0 a1 a2) (ref_get b0 b1 b2) = a0 == b0 && a1 == b1 && word_eq a2 b2
effect_eq (ref_write a0 a1 a2) (ref_write b0 b1 b2) = a0 == b0 && a1 == b1 && word_eq a2 b2
effect_eq (bind a0) (bind b0) = a0 == b0
effect_eq (unbind a0) (unbind b0) = a0 == b0
effect_eq _ _ = false

pub effect_eq-eq : (a b : WitLedgerEffect) → effect_eq a b ≡ true → a ≡ b
unfolding effect_eq
effect_eq-eq (resume a0 a1 a2 a3 a4) (resume b0 b1 b2 b3 b4) h = ground arith
effect_eq-eq (yield a0) (yield b0) h = ground arith
effect_eq-eq return return h = ground arith
effect_eq-eq (program_hash a0 a1) (program_hash b0 b1) h = ground arith
effect_eq-eq (new_utxo a0 a1 a2) (new_utxo b0 b1 b2) h = ground arith
effect_eq-eq (new_token a0 a1 a2) (new_token b0 b1 b2) h = ground arith
effect_eq-eq (new_coord a0 a1 a2) (new_coord b0 b1 b2) h = ground arith
effect_eq-eq (install_handler a0) (install_handler b0) h = ground arith
effect_eq-eq (uninstall_handler a0) (uninstall_handler b0) h = ground arith
effect_eq-eq (get_handler_for a0 a1) (get_handler_for b0 b1) h = ground arith
effect_eq-eq (call_effect_handler a0 a1 a2 a3) (call_effect_handler b0 b1 b2 b3) h = ground arith
effect_eq-eq (enter a0) (enter b0) h = ground arith
effect_eq-eq burn burn h = ground arith
effect_eq-eq (activation a0 a1) (activation b0 b1) h = ground arith
effect_eq-eq (init a0 a1) (init b0 b1) h = ground arith
effect_eq-eq (new_ref a0 a1) (new_ref b0 b1) h = ground arith
effect_eq-eq (ref_push a0) (ref_push b0) h = ground arith
effect_eq-eq (ref_get a0 a1 a2) (ref_get b0 b1 b2) h = ground arith
effect_eq-eq (ref_write a0 a1 a2) (ref_write b0 b1 b2) h = ground arith
effect_eq-eq (bind a0) (bind b0) h = ground arith
effect_eq-eq (unbind a0) (unbind b0) h = ground arith
effect_eq-eq _ _ h = cc

pub effect_eq_refl : (a : WitLedgerEffect) → effect_eq a a ≡ true
unfolding effect_eq
effect_eq_refl (resume a0 a1 a2 a3 a4) = ground arith
effect_eq_refl (yield a0) = ground arith
effect_eq_refl return = ground arith
effect_eq_refl (program_hash a0 a1) = ground arith
effect_eq_refl (new_utxo a0 a1 a2) = ground arith
effect_eq_refl (new_token a0 a1 a2) = ground arith
effect_eq_refl (new_coord a0 a1 a2) = ground arith
effect_eq_refl (install_handler a0) = ground arith
effect_eq_refl (uninstall_handler a0) = ground arith
effect_eq_refl (get_handler_for a0 a1) = ground arith
effect_eq_refl (call_effect_handler a0 a1 a2 a3) = ground arith
effect_eq_refl (enter a0) = ground arith
effect_eq_refl burn = ground arith
effect_eq_refl (activation a0 a1) = ground arith
effect_eq_refl (init a0 a1) = ground arith
effect_eq_refl (new_ref a0 a1) = ground arith
effect_eq_refl (ref_push a0) = ground arith
effect_eq_refl (ref_get a0 a1 a2) = ground arith
effect_eq_refl (ref_write a0 a1 a2) = ground arith
effect_eq_refl (bind a0) = ground arith
effect_eq_refl (unbind a0) = ground arith
