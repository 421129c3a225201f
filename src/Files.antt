-- ===== src/Files.antt =====
-- The package files: the scan of a directory tree, and operations on files.
pub mod Walk
pub mod Scanner
pub mod Operations
mod Tests
