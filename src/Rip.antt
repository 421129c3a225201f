-- ===== src/Rip.antt =====
-- The package rip: what an HTTP server needs around its handlers.
pub mod Respond
pub mod Router
pub mod Gzip
pub mod LogWriter
pub mod LogMiddleware
pub mod Stack
mod Tests
