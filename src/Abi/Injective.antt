-- ===== src/Abi/Injective.antt =====
-- Two operations that are written alike are the same.
use starstream.Prelude.{ℕ, ◌<◌, ◌≡◌, ◌≢◌, ◌∙◌, sym, refl, arith}
use starstream.Abi.Discriminant.{EffectDiscriminant, as_u64}
use starstream.Abi.Operation.{
  LedgerOperation, resume, call_effect_handler, enter, yield, return, program_hash, new_utxo,
  new_token, new_coord, burn, activation, init, bind, unbind, new_ref, ref_push, ref_get, ref_write,
  install_handler, uninstall_handler, get_handler_for, nop,
}
use starstream.Abi.Args.{opcode_discriminant, opcode_args}

as_u64-lt : (d : EffectDiscriminant) → as_u64 d < 21
as_u64-lt EffectDiscriminant.resume = omega arith
as_u64-lt EffectDiscriminant.yield = omega arith
as_u64-lt EffectDiscriminant.new_utxo = omega arith
as_u64-lt EffectDiscriminant.new_coord = omega arith
as_u64-lt EffectDiscriminant.install_handler = omega arith
as_u64-lt EffectDiscriminant.uninstall_handler = omega arith
as_u64-lt EffectDiscriminant.get_handler_for = omega arith
as_u64-lt EffectDiscriminant.burn = omega arith
as_u64-lt EffectDiscriminant.activation = omega arith
as_u64-lt EffectDiscriminant.init = omega arith
as_u64-lt EffectDiscriminant.new_ref = omega arith
as_u64-lt EffectDiscriminant.ref_push = omega arith
as_u64-lt EffectDiscriminant.ref_get = omega arith
as_u64-lt EffectDiscriminant.bind = omega arith
as_u64-lt EffectDiscriminant.unbind = omega arith
as_u64-lt EffectDiscriminant.program_hash = omega arith
as_u64-lt EffectDiscriminant.ref_write = omega arith
as_u64-lt EffectDiscriminant.return = omega arith
as_u64-lt EffectDiscriminant.call_effect_handler = omega arith
as_u64-lt EffectDiscriminant.new_token = omega arith
as_u64-lt EffectDiscriminant.enter = omega arith

-- The number of an operation that is no `Nop`.
abbrev kind : {F : Type 0} → LedgerOperation F → EffectDiscriminant
kind nop = EffectDiscriminant.resume
kind (resume _ _ _ _ _) = EffectDiscriminant.resume
kind (call_effect_handler _ _ _ _) = EffectDiscriminant.call_effect_handler
kind (enter _) = EffectDiscriminant.enter
kind (yield _) = EffectDiscriminant.yield
kind return = EffectDiscriminant.return
kind (program_hash _ _) = EffectDiscriminant.program_hash
kind (new_utxo _ _ _) = EffectDiscriminant.new_utxo
kind (new_token _ _ _) = EffectDiscriminant.new_token
kind (new_coord _ _ _) = EffectDiscriminant.new_coord
kind burn = EffectDiscriminant.burn
kind (activation _ _) = EffectDiscriminant.activation
kind (init _ _) = EffectDiscriminant.init
kind (bind _) = EffectDiscriminant.bind
kind (unbind _) = EffectDiscriminant.unbind
kind (new_ref _ _) = EffectDiscriminant.new_ref
kind (ref_push _) = EffectDiscriminant.ref_push
kind (ref_get _ _ _) = EffectDiscriminant.ref_get
kind (ref_write _ _ _) = EffectDiscriminant.ref_write
kind (install_handler _) = EffectDiscriminant.install_handler
kind (uninstall_handler _) = EffectDiscriminant.uninstall_handler
kind (get_handler_for _ _) = EffectDiscriminant.get_handler_for

module _ {F : Type 0} (zero_f : F) (from : ℕ → F)
    (small : (a b : ℕ) → a < 21 → b < 21 → from a ≡ from b → a ≡ b) where
  opcode_discriminant-kind :
      (op : LedgerOperation F)
      → op ≢ nop
      → opcode_discriminant zero_f from op ≡ from (as_u64 (kind op))
  unfolding opcode_discriminant
  opcode_discriminant-kind nop h = absurd (h refl)
  opcode_discriminant-kind (resume _ _ _ _ _) h = refl
  opcode_discriminant-kind (call_effect_handler _ _ _ _) h = refl
  opcode_discriminant-kind (enter _) h = refl
  opcode_discriminant-kind (yield _) h = refl
  opcode_discriminant-kind return h = refl
  opcode_discriminant-kind (program_hash _ _) h = refl
  opcode_discriminant-kind (new_utxo _ _ _) h = refl
  opcode_discriminant-kind (new_token _ _ _) h = refl
  opcode_discriminant-kind (new_coord _ _ _) h = refl
  opcode_discriminant-kind burn h = refl
  opcode_discriminant-kind (activation _ _) h = refl
  opcode_discriminant-kind (init _ _) h = refl
  opcode_discriminant-kind (bind _) h = refl
  opcode_discriminant-kind (unbind _) h = refl
  opcode_discriminant-kind (new_ref _ _) h = refl
  opcode_discriminant-kind (ref_push _) h = refl
  opcode_discriminant-kind (ref_get _ _ _) h = refl
  opcode_discriminant-kind (ref_write _ _ _) h = refl
  opcode_discriminant-kind (install_handler _) h = refl
  opcode_discriminant-kind (uninstall_handler _) h = refl
  opcode_discriminant-kind (get_handler_for _ _) h = refl

  -- Operations of one kind with the same arguments are the same.
  same_kind :
      (a b : LedgerOperation F)
      → a ≢ nop
      → b ≢ nop
      → as_u64 (kind a) ≡ as_u64 (kind b)
      → opcode_args zero_f from a ≡ opcode_args zero_f from b
      → a ≡ b
  unfolding opcode_args
  same_kind nop _ na nb k e = absurd (na refl)
  same_kind _ nop na nb k e = absurd (nb refl)
  same_kind (resume a0 a1 a2 a3 a4) (resume b0 b1 b2 b3 b4) na nb k e = cc
  same_kind (call_effect_handler a0 a1 a2 a3) (call_effect_handler b0 b1 b2 b3) na nb k e = cc
  same_kind (enter a0) (enter b0) na nb k e = cc
  same_kind (yield a0) (yield b0) na nb k e = cc
  same_kind return return na nb k e = cc
  same_kind (program_hash a0 a1) (program_hash b0 b1) na nb k e = cc
  same_kind (new_utxo a0 a1 a2) (new_utxo b0 b1 b2) na nb k e = cc
  same_kind (new_token a0 a1 a2) (new_token b0 b1 b2) na nb k e = cc
  same_kind (new_coord a0 a1 a2) (new_coord b0 b1 b2) na nb k e = cc
  same_kind burn burn na nb k e = cc
  same_kind (activation a0 a1) (activation b0 b1) na nb k e = cc
  same_kind (init a0 a1) (init b0 b1) na nb k e = cc
  same_kind (bind a0) (bind b0) na nb k e = cc
  same_kind (unbind a0) (unbind b0) na nb k e = cc
  same_kind (new_ref a0 a1) (new_ref b0 b1) na nb k e = cc
  same_kind (ref_push a0) (ref_push b0) na nb k e = cc
  same_kind (ref_get a0 a1 a2) (ref_get b0 b1 b2) na nb k e = cc
  same_kind (ref_write a0 a1 a2) (ref_write b0 b1 b2) na nb k e = cc
  same_kind (install_handler a0) (install_handler b0) na nb k e = cc
  same_kind (uninstall_handler a0) (uninstall_handler b0) na nb k e = cc
  same_kind (get_handler_for a0 a1) (get_handler_for b0 b1) na nb k e = cc
  same_kind _ _ na nb k e = absurd (omega (arith, k))

  -- Two operations, neither of them a `Nop`, that have the same number and the same arguments are the
  -- same, in a field where the numbers below 21 are different elements.
  pub encoding-injective :
      (a b : LedgerOperation F)
      → a ≢ nop
      → b ≢ nop
      → opcode_discriminant zero_f from a ≡ opcode_discriminant zero_f from b
      → opcode_args zero_f from a ≡ opcode_args zero_f from b
      → a ≡ b
  encoding-injective a b na nb d e =
      same_kind a b na nb
        (small _ _ (as_u64-lt (kind a)) (as_u64-lt (kind b))
          (sym (opcode_discriminant-kind a na) ∙ (d ∙ opcode_discriminant-kind b nb)))
        e
