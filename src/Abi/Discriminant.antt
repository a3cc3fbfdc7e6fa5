-- ===== src/Abi/Discriminant.antt =====
-- transaction_effects/witness.rs: the numbers of the host calls.
use starstream.Prelude.{if◌then◌else◌, ◌==◌, ℕ, ◌≡◌, ◌↔◌, refl, Outcome, ok, err, arith}

pub data EffectDiscriminant : Type 0 where
  resume yield new_utxo new_coord install_handler uninstall_handler get_handler_for burn activation
        init new_ref ref_push ref_get bind unbind program_hash ref_write return call_effect_handler
        new_token enter :
      EffectDiscriminant

-- `d as u64`
abbrev pub as_u64 : EffectDiscriminant → ℕ
as_u64 resume = 0
as_u64 yield = 1
as_u64 new_utxo = 2
as_u64 new_coord = 3
as_u64 install_handler = 4
as_u64 uninstall_handler = 5
as_u64 get_handler_for = 6
as_u64 burn = 7
as_u64 activation = 8
as_u64 init = 9
as_u64 new_ref = 10
as_u64 ref_push = 11
as_u64 ref_get = 12
as_u64 bind = 13
as_u64 unbind = 14
as_u64 program_hash = 15
as_u64 ref_write = 16
as_u64 return = 17
as_u64 call_effect_handler = 18
as_u64 new_token = 19
as_u64 enter = 20

-- `EffectDiscriminantError { value }`
pub record EffectDiscriminantError : Type 0 where
  pub value : ℕ

unfoldable pub try_from : ℕ → Outcome EffectDiscriminantError EffectDiscriminant
try_from value =
    if value == 0
    then ok resume
    else if value == 1
    then ok yield
    else if value == 2
    then ok new_utxo
    else if value == 3
    then ok new_coord
    else if value == 4
    then ok install_handler
    else if value == 5
    then ok uninstall_handler
    else if value == 6
    then ok get_handler_for
    else if value == 7
    then ok burn
    else if value == 8
    then ok activation
    else if value == 9
    then ok init
    else if value == 10
    then ok new_ref
    else if value == 11
    then ok ref_push
    else if value == 12
    then ok ref_get
    else if value == 13
    then ok bind
    else if value == 14
    then ok unbind
    else if value == 15
    then ok program_hash
    else if value == 16
    then ok ref_write
    else if value == 17
    then ok return
    else if value == 18
    then ok call_effect_handler
    else if value == 19
    then ok new_token
    else if value == 20
    then ok enter
    else err (record { value = value })

try_from-as_u64 : (d : EffectDiscriminant) → try_from (as_u64 d) ≡ ok d
unfolding try_from
try_from-as_u64 resume = refl
try_from-as_u64 yield = refl
try_from-as_u64 new_utxo = refl
try_from-as_u64 new_coord = refl
try_from-as_u64 install_handler = refl
try_from-as_u64 uninstall_handler = refl
try_from-as_u64 get_handler_for = refl
try_from-as_u64 burn = refl
try_from-as_u64 activation = refl
try_from-as_u64 init = refl
try_from-as_u64 new_ref = refl
try_from-as_u64 ref_push = refl
try_from-as_u64 ref_get = refl
try_from-as_u64 bind = refl
try_from-as_u64 unbind = refl
try_from-as_u64 program_hash = refl
try_from-as_u64 ref_write = refl
try_from-as_u64 return = refl
try_from-as_u64 call_effect_handler = refl
try_from-as_u64 new_token = refl
try_from-as_u64 enter = refl

as_u64-try_from : (value : ℕ) (d : EffectDiscriminant) → try_from value ≡ ok d → as_u64 d ≡ value
unfolding try_from
as_u64-try_from value d h = ground arith

-- A number stands for a host call exactly when it is the number of it.
try_from_iff : (value : ℕ) (d : EffectDiscriminant) → (try_from value ≡ ok d) ↔ (as_u64 d ≡ value)
try_from_iff value d = (as_u64-try_from value d, λ e. rw (← e) (try_from-as_u64 d))
