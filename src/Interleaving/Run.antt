-- ===== src/Interleaving/Run.antt =====
-- The run of the checker: it ends, and it computes the sequences of rounds.
pub mod Ends
pub mod Sound
pub mod Keeps
pub mod Final
pub mod Verdict
