-- ===== src/Exhaustiveness.antt =====
-- The exhaustiveness check of matches, starstream-compiler/src/typecheck/exhaustiveness.rs.
pub mod Pattern
pub mod Useful
pub mod Meaning
pub mod Constructors
pub mod Rows
pub mod Booleans
pub mod Parts
pub mod Sound
pub mod Lower
pub mod Agreed
pub mod Agree
pub mod Missing
pub mod Check
pub mod Total
pub mod Unreachable
pub mod Listed
pub mod Heads
pub mod Passing
pub mod Narrow
pub mod Uncovered
pub mod Rebuilt
pub mod FirstColumn
pub mod Examples
pub mod UnitLiteral
pub mod Fuel
pub mod Size
pub mod Ends
pub mod Asserting
pub mod Signature
pub mod Counts
pub mod Empty
pub mod Silent
pub mod Lengths
pub mod Found
pub mod Shown
mod Tests
