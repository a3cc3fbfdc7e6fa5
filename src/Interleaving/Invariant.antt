-- ===== src/Interleaving/Invariant.antt =====
-- What holds in every state that the machine reaches.
pub mod Roles
pub mod Sizes
pub mod Entries
pub mod Tokens
pub mod References
