-- ===== src/Interleaving/Safety.antt =====
-- No panic: on a well-formed state an index is never out of range.
pub mod Reads
pub mod Calls
pub mod Complete
