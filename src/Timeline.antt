-- ===== src/Timeline.antt =====
-- timeline/*.go: points are sent through a transport, and may be flattened first.
pub mod Point
pub mod Channel
pub mod Flattener
pub mod Config
pub mod Http
pub mod OpenTsdb
pub mod Core
pub mod Manager
mod Tests
mod TransportTests
