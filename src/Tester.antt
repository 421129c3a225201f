-- ===== src/Tester.antt =====
-- The package tester/httpserver: an HTTP server that gives configured responses to a test.
pub mod Uri
pub mod Server
pub mod Client
pub mod Wait
mod Tests
