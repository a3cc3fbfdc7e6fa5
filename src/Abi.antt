-- ===== src/Abi.antt =====
-- How host calls are written as field elements, for the commitment to a trace.
pub mod Discriminant
pub mod Operation
pub mod Args
pub mod Injective
mod Tests
