-- ===== src/Interleaving.antt =====
-- interleaving/starstream-interleaving-spec-legacy: the transaction semantics of interleaved
-- processes, and the checker that runs it over the processes' traces.
pub mod Effects
pub mod Instance
pub mod State
pub mod Machine
pub mod Verify
pub mod Rules
pub mod Invariant
pub mod Safety
pub mod Run
pub mod Build
pub mod Protocol
pub mod Divergence
pub mod Unread
pub mod Accounts
mod Tests
pub mod Transition
