-- ===== src/Hashing.antt =====
-- hashing/*.go: values to bytes, and the hashes of parameter lists.
pub mod Value
pub mod Convert
pub mod Generate
pub mod Integers
pub mod Maps
pub mod Dispatch
pub mod Collisions
mod Tests
