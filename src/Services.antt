-- ===== src/Services.antt =====
-- The packages cassandra, cockroach, compress and loader.
pub mod Cassandra
pub mod Cockroach
pub mod Compress
pub mod Loader
mod Tests
