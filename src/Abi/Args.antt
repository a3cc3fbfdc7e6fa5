-- ===== src/Abi/Args.antt =====
-- transaction_effects/abi.rs and the proof crate's abi.rs: the number and the arguments of an
-- operation, as field elements. The field is a parameter: its zero, and `F::from` on numbers.
use starstream.Prelude.{ℕ, List, [], ◌∷◌, replicate, set}
use starstream.Abi.Discriminant.{EffectDiscriminant, as_u64}
use starstream.Abi.Operation.{
  Quad, LedgerOperation, resume, call_effect_handler, enter, yield, return, program_hash, new_utxo,
  new_token, new_coord, burn, activation, init, bind, unbind, new_ref, ref_push, ref_get, ref_write,
  install_handler, uninstall_handler, get_handler_for, nop,
}

abbrev pub opcode_arg_count : ℕ
opcode_arg_count = 7

pub data ArgName : Type 0 where
  target val ret caller offset size program_hash0 program_hash1 program_hash2 program_hash3
        activation_caller owner_id token_id interface_id0 interface_id1 interface_id2 interface_id3
        function_id0 function_id1 packed_ref0 packed_ref1 packed_ref2 packed_ref3 packed_ref4
        packed_ref5 :
      ArgName

abbrev pub idx : ArgName → ℕ
idx target = 0
idx owner_id = 0
idx token_id = 0
idx val = 1
idx ret = 2
idx caller = 3
idx offset = 3
idx size = 3
idx activation_caller = 3
idx interface_id0 = 3
idx interface_id1 = 4
idx interface_id2 = 5
idx interface_id3 = 6
idx program_hash0 = 3
idx program_hash1 = 4
idx program_hash2 = 5
idx program_hash3 = 6
idx function_id0 = 0
idx function_id1 = 4
idx packed_ref0 = 0
idx packed_ref1 = 1
idx packed_ref2 = 2
idx packed_ref3 = 3
idx packed_ref4 = 4
idx packed_ref5 = 5

module _ {F : Type 0} (zero_f : F) (from : ℕ → F) where
  unfoldable pub opcode_discriminant : LedgerOperation F → F
  opcode_discriminant nop = zero_f
  opcode_discriminant (resume _ _ _ _ _) = from (as_u64 EffectDiscriminant.resume)
  opcode_discriminant (call_effect_handler _ _ _ _) =
      from (as_u64 EffectDiscriminant.call_effect_handler)
  opcode_discriminant (enter _) = from (as_u64 EffectDiscriminant.enter)
  opcode_discriminant (yield _) = from (as_u64 EffectDiscriminant.yield)
  opcode_discriminant return = from (as_u64 EffectDiscriminant.return)
  opcode_discriminant burn = from (as_u64 EffectDiscriminant.burn)
  opcode_discriminant (program_hash _ _) = from (as_u64 EffectDiscriminant.program_hash)
  opcode_discriminant (new_utxo _ _ _) = from (as_u64 EffectDiscriminant.new_utxo)
  opcode_discriminant (new_token _ _ _) = from (as_u64 EffectDiscriminant.new_token)
  opcode_discriminant (new_coord _ _ _) = from (as_u64 EffectDiscriminant.new_coord)
  opcode_discriminant (activation _ _) = from (as_u64 EffectDiscriminant.activation)
  opcode_discriminant (init _ _) = from (as_u64 EffectDiscriminant.init)
  opcode_discriminant (bind _) = from (as_u64 EffectDiscriminant.bind)
  opcode_discriminant (unbind _) = from (as_u64 EffectDiscriminant.unbind)
  opcode_discriminant (new_ref _ _) = from (as_u64 EffectDiscriminant.new_ref)
  opcode_discriminant (ref_push _) = from (as_u64 EffectDiscriminant.ref_push)
  opcode_discriminant (ref_get _ _ _) = from (as_u64 EffectDiscriminant.ref_get)
  opcode_discriminant (ref_write _ _ _) = from (as_u64 EffectDiscriminant.ref_write)
  opcode_discriminant (install_handler _) = from (as_u64 EffectDiscriminant.install_handler)
  opcode_discriminant (uninstall_handler _) = from (as_u64 EffectDiscriminant.uninstall_handler)
  opcode_discriminant (get_handler_for _ _) = from (as_u64 EffectDiscriminant.get_handler_for)

  -- `args[name.idx()] = value`, one after another.
  abbrev pub fill : List F → List (ArgName × F) → List F
  fill args [] = args
  fill args ((name, value) ∷ rest) = fill (set args (idx name) value) rest

  -- The four slots of an interface, and those of a program.
  abbrev interface_slots : Quad F → List (ArgName × F)
  interface_slots q =
      (interface_id0, q.x0)
      ∷ (interface_id1, q.x1)
      ∷ (interface_id2, q.x2)
      ∷ (interface_id3, q.x3)
      ∷ []

  abbrev spawn_slots : Quad F → F → F → List (ArgName × F)
  spawn_slots q v t =
      (target, t)
      ∷ (val, v)
      ∷ (program_hash0, q.x0)
      ∷ (program_hash1, q.x1)
      ∷ (program_hash2, q.x2)
      ∷ (program_hash3, q.x3)
      ∷ []

  abbrev pub slots : LedgerOperation F → List (ArgName × F)
  slots nop = []
  slots (resume t f v r c) =
      (target, t) ∷ (val, v) ∷ (ret, r) ∷ (caller, c.encoded) ∷ (function_id1, f) ∷ []
  slots (call_effect_handler q f v r) = (function_id0, f) ∷ (val, v) ∷ (ret, r) ∷ interface_slots q
  slots (enter f) = (function_id0, f) ∷ []
  slots (yield v) = (val, v) ∷ []
  slots return = []
  slots burn = []
  slots (program_hash t q) =
      (target, t)
      ∷ (program_hash0, q.x0)
      ∷ (program_hash1, q.x1)
      ∷ (program_hash2, q.x2)
      ∷ (program_hash3, q.x3)
      ∷ []
  slots (new_utxo q v t) = spawn_slots q v t
  slots (new_token q v t) = spawn_slots q v t
  slots (new_coord q v t) = spawn_slots q v t
  slots (activation v c) = (val, v) ∷ (activation_caller, c) ∷ []
  slots (init v c) = (val, v) ∷ (activation_caller, c) ∷ []
  slots (bind o) = (owner_id, o) ∷ []
  slots (unbind t) = (token_id, t) ∷ []
  slots (new_ref n r) = (size, n) ∷ (ret, r) ∷ []
  slots (ref_push q) =
      (packed_ref0, q.x0) ∷ (packed_ref1, q.x1) ∷ (packed_ref2, q.x2) ∷ (packed_ref3, q.x3) ∷ []
  slots (ref_get r o q) =
      (val, r)
      ∷ (offset, o)
      ∷ (packed_ref0, q.x0)
      ∷ (packed_ref2, q.x1)
      ∷ (packed_ref4, q.x2)
      ∷ (packed_ref5, q.x3)
      ∷ []
  slots (ref_write r o q) =
      (val, r)
      ∷ (offset, o)
      ∷ (packed_ref0, q.x0)
      ∷ (packed_ref2, q.x1)
      ∷ (packed_ref4, q.x2)
      ∷ (packed_ref5, q.x3)
      ∷ []
  slots (install_handler q) = interface_slots q
  slots (uninstall_handler q) = interface_slots q
  slots (get_handler_for q h) =
      (interface_id0, q.x0)
      ∷ (interface_id1, q.x1)
      ∷ (interface_id2, q.x2)
      ∷ (interface_id3, q.x3)
      ∷ (ret, h)
      ∷ []

  unfoldable pub opcode_args : LedgerOperation F → List F
  opcode_args op = fill (replicate opcode_arg_count zero_f) (slots op)
