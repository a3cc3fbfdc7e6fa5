-- ===== src/Ledger.antt =====
-- The ledger of interleaving/starstream-interleaving-spec-legacy/src/lib.rs.
pub mod State
pub mod Proofs
pub mod Artifacts
pub mod Apply
pub mod Valid
pub mod Spending
pub mod Spent
pub mod Instances
pub mod Accepts
pub mod Created
pub mod Shared
pub mod Unproven
mod Tests
