-- ===== src/Interleaving/Machine/Control.antt =====
-- mocked_verifier.rs, `state_transition`: the rules that pass control between processes.
use starstream.Prelude.{
  ℕ, Bool, true, false, not, ◌&&◌, ◌==◌, if◌then◌else◌, Option, none, some, List, [], ◌∷◌, ok,
  ◌>>=◌, ◌>>◌, refuse, ok_or, Array, read, get?, write,
}
use starstream.Interleaving.Effects.{ProcessId, InterfaceId, FunctionId, Value, Ref, values_eq}
use starstream.Interleaving.Instance.{
  InterleavingError, Checked, shape, self_resume, utxo_resumes_utxo, target_not_initialized,
  resume_claim_mismatch, yield_claim_mismatch, resumer_mismatch, coord_only, utxo_only,
  handler_not_found, yield_with_no_parent, reentrant_resume, ref_not_found, must_enter_pending,
  enter_mismatch,
}
use starstream.Interleaving.State.{Rom, InterleavingState}

-- `if let Some(expected) = claim && expected != got { return Err(..); }`
abbrev pub refuse_claim : Option ℕ → ℕ → (ℕ → InterleavingError) → Checked (Unit {0})
refuse_claim none got e = ok tt
refuse_claim (some expected) got e = refuse (not (expected == got)) (e expected)

-- `o.is_some()`
abbrev pub is_some {ℓ} : {A : Type ℓ} → Option A → Bool
is_some none = false
is_some (some _) = true

-- `o.and_then(|p| p)`
abbrev flat {ℓ} : {A : Type ℓ} → Option (Option A) → Option A
flat none = none
flat (some o) = o

-- `a && v[i]`: the index is looked at only where `a` holds.
abbrev pub and_read : Bool → Array Bool → ℕ → Checked Bool
and_read false v i = ok false
and_read true v i = read v i

-- `if on_yield[target] && !is_utxo[id_curr] { .. }`
note_parent : Rom → InterleavingState → (curr target : ProcessId) → Checked InterleavingState
note_parent rom s curr target = do
  yielded ← read s.on_yield target
  utxo ← and_read yielded rom.is_utxo curr
  let parent = do
    yield_to ← write s.yield_to target (some curr)
    on_yield ← write s.on_yield target false
    ok (record s { yield_to = yield_to; on_yield = on_yield })
  if yielded && not utxo then parent else ok s

unfoldable pub resume :
    Rom
    → InterleavingState
    → (target : ProcessId) (f_id : FunctionId) (val ret : Ref) (caller : Option ProcessId)
    → Checked InterleavingState
unfolding note_parent
resume rom s target f_id val ret caller = do
  let curr = s.id_curr
  refuse (curr == target) (self_resume curr)
  curr_utxo ← read rom.is_utxo curr
  both_utxo ← and_read curr_utxo rom.is_utxo target
  refuse both_utxo (utxo_resumes_utxo curr target)
  ready ← read s.initialized target
  refuse (not ready) (target_not_initialized target)
  active ← read s.activations target
  refuse (is_some active) (reentrant_resume target)
  activations ← write s.activations curr none
  claim ← read s.expected_input target
  refuse_claim claim val (λ expected. resume_claim_mismatch target expected val)
  resumer ← read s.expected_resumer target
  refuse_claim resumer curr (λ expected. resumer_mismatch target expected curr)
  inputs ← write s.expected_input target none
  resumers ← write s.expected_resumer target none
  activations ← write activations target (some (val, curr))
  inputs ← write inputs curr (some ret)
  resumers ← write resumers curr caller
  must_exit ← write s.must_exit curr false
  must_enter ← write s.must_enter target (some f_id)
  t ← note_parent rom s curr target
  finalized ← write s.finalized target false
  ok (record t {
    id_prev = some curr;
    id_curr = target;
    activations = activations;
    expected_input = inputs;
    expected_resumer = resumers;
    must_exit = must_exit;
    must_enter = must_enter;
    finalized = finalized;
  })

-- The contents of the reference that a parent expects must be the contents yielded.
check_yielded : InterleavingState → Option Ref → List Value → Checked (Unit {0})
check_yielded s none got = ok tt
check_yielded s (some r) got = do
  expected ← ok_or (s.ref_store r) (ref_not_found r)
  refuse (not (values_eq expected got)) (yield_claim_mismatch s.id_prev expected got)

unfoldable pub yield : Rom → InterleavingState → (val : Ref) → Checked InterleavingState
unfolding check_yielded
yield rom s val = do
  let curr = s.id_curr
  utxo ← read rom.is_utxo curr
  refuse (not utxo) (utxo_only curr)
  parent ← ok_or (flat (get? s.yield_to curr)) (yield_with_no_parent curr)
  got ← ok_or (s.ref_store val) (ref_not_found val)
  resumer ← read s.expected_resumer parent
  refuse_claim resumer curr (λ expected. resumer_mismatch parent expected curr)
  finalized ← write s.finalized curr true
  claim ← read s.expected_input parent
  check_yielded s claim got
  on_yield ← write s.on_yield curr true
  activations ← write s.activations curr none
  must_exit ← write s.must_exit curr false
  ok (record s {
    finalized = finalized;
    on_yield = on_yield;
    id_prev = some curr;
    activations = activations;
    must_exit = must_exit;
    id_curr = parent;
  })

-- Where a coordination script goes when it is done; the entrypoint stays where it is.
return_to : InterleavingState → Option ProcessId → Checked InterleavingState
return_to s (some parent) = ok (record s { id_prev = some s.id_curr; id_curr = parent })
return_to s none = do
  refuse (not (s.id_curr == s.entrypoint))
      (shape "Return requires parent unless current process is entrypoint")
  ok s

unfoldable pub return : Rom → InterleavingState → Checked InterleavingState
unfolding return_to
return rom s = do
  let curr = s.id_curr
  utxo ← read rom.is_utxo curr
  refuse utxo (coord_only curr)
  finalized ← write s.finalized curr true
  activations ← write s.activations curr none
  must_exit ← write s.must_exit curr false
  parent ← read s.yield_to curr
  return_to (record s { finalized = finalized; activations = activations; must_exit = must_exit })
      parent

-- The top of a handler stack.
abbrev pub top : List ProcessId → Option ProcessId
top [] = none
top (p ∷ ps) = some p

unfoldable pub call_effect_handler :
    InterleavingState
    → (interface_id : InterfaceId) (f_id : FunctionId) (val ret : Ref) → Checked InterleavingState
call_effect_handler s interface_id f_id val ret = do
  let curr = s.id_curr
  target ← ok_or (top (s.handler_stack interface_id)) (handler_not_found interface_id curr)
  active ← read s.activations target
  refuse (is_some active) (reentrant_resume target)
  activations ← write s.activations curr none
  claim ← read s.expected_input target
  refuse_claim claim val (λ expected. resume_claim_mismatch target expected val)
  resumer ← read s.expected_resumer target
  refuse_claim resumer curr (λ expected. resumer_mismatch target expected curr)
  inputs ← write s.expected_input target none
  resumers ← write s.expected_resumer target none
  activations ← write activations target (some (val, curr))
  inputs ← write inputs curr (some ret)
  resumers ← write resumers curr (some target)
  must_exit ← write s.must_exit curr false
  must_enter ← write s.must_enter target (some f_id)
  finalized ← write s.finalized target false
  ok (record s {
    activations = activations;
    expected_input = inputs;
    expected_resumer = resumers;
    must_exit = must_exit;
    must_enter = must_enter;
    id_prev = some curr;
    id_curr = target;
    finalized = finalized;
  })

unfoldable pub enter : InterleavingState → (f_id : FunctionId) → Checked InterleavingState
enter s f_id = do
  let curr = s.id_curr
  pending ← read s.must_enter curr
  expected ← ok_or pending (must_enter_pending curr f_id)
  refuse (not (expected == f_id)) (enter_mismatch curr expected f_id)
  active ← read s.must_exit curr
  refuse active (shape "Enter called while function frame already active")
  must_enter ← write s.must_enter curr none
  must_exit ← write s.must_exit curr true
  ok (record s { must_enter = must_enter; must_exit = must_exit })

-- `v != val || c != caller` of a recorded argument.
abbrev same_argument : Ref × ProcessId → Ref → ProcessId → Bool
same_argument (v, c) val caller = v == val && c == caller

unfoldable pub activation :
    InterleavingState → (val : Ref) (caller : ProcessId) → Checked InterleavingState
activation s val caller = do
  recorded ← read s.activations s.id_curr
  arg ← ok_or recorded (shape "Activation called with no arg set")
  refuse (not (same_argument arg val caller)) (shape "Activation result mismatch")
  ok s

unfoldable pub init :
    InterleavingState → (val : Ref) (caller : ProcessId) → Checked InterleavingState
init s val caller = do
  recorded ← read s.inits s.id_curr
  inits ← write s.inits s.id_curr none
  arg ← ok_or recorded (shape "Init called with no arg set")
  refuse (not (same_argument arg val caller)) (shape "Init result mismatch")
  ok (record s { inits = inits })
