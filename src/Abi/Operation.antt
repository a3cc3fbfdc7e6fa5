-- ===== src/Abi/Operation.antt =====
-- ledger_operation.rs and optional.rs of interleaving/starstream-interleaving-proof-legacy: host
-- calls over a field.

-- An optional field element, written as zero or as one more than the element.
pub record OptionalF (F : Type 0) : Type 0 where
  pub encoded : F

-- Four field elements.
pub record Quad (F : Type 0) : Type 0 where
  pub x0 : F
  pub x1 : F
  pub x2 : F
  pub x3 : F

pub data LedgerOperation (F : Type 0) : Type 0 where
  resume : (target f_id val ret : F) (caller : OptionalF F) → LedgerOperation F
  call_effect_handler : (interface_id : Quad F) (f_id val ret : F) → LedgerOperation F
  enter : (f_id : F) → LedgerOperation F
  yield : (val : F) → LedgerOperation F
  return : LedgerOperation F
  program_hash : (target : F) (hash : Quad F) → LedgerOperation F
  new_utxo : (hash : Quad F) (val target : F) → LedgerOperation F
  new_token : (hash : Quad F) (val target : F) → LedgerOperation F
  new_coord : (hash : Quad F) (val target : F) → LedgerOperation F
  burn : LedgerOperation F
  activation : (val caller : F) → LedgerOperation F
  init : (val caller : F) → LedgerOperation F
  bind : (owner_id : F) → LedgerOperation F
  unbind : (token_id : F) → LedgerOperation F
  new_ref : (size ret : F) → LedgerOperation F
  ref_push : (vals : Quad F) → LedgerOperation F
  ref_get : (reff offset : F) (ret : Quad F) → LedgerOperation F
  ref_write : (reff offset : F) (vals : Quad F) → LedgerOperation F
  install_handler : (interface_id : Quad F) → LedgerOperation F
  uninstall_handler : (interface_id : Quad F) → LedgerOperation F
  get_handler_for : (interface_id : Quad F) (handler_id : F) → LedgerOperation F
  nop : LedgerOperation F
