-- ===== src/Interpreter.antt =====
-- The tree-walking interpreter, starstream-interpreter/src/lib.rs.
pub mod Integer
pub mod Value
pub mod Syntax
pub mod Eval
pub mod Typing
pub mod Sound
pub mod Faults
pub mod Wrapping
pub mod Floor
pub mod Division
pub mod Leaving
pub mod Cells
pub mod Operators
pub mod Safe
mod Tests
