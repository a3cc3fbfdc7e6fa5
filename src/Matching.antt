-- ===== src/Matching.antt =====
-- The compilation of pattern matching to decision trees, starstream-to-wasm/src/decision_tree.rs.
pub mod Pattern
pub mod Compile
pub mod Meaning
pub mod Columns
pub mod Slices
pub mod Decompose
pub mod Branches
pub mod Selection
pub mod Chosen
pub mod Switch
pub mod Correct
pub mod Bindings
pub mod Lower
mod Tests
