-- ===== src/Snitch.antt =====
-- snitch/*.go: statistics that are collected in points, each of which a cron job sends.
pub mod Point
pub mod Registry
pub mod Service
pub mod Client
mod SendTests
mod Tests
