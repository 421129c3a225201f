-- ===== src/Timeline/Http.antt =====
-- timeline/http.go: the transport that posts JSON.
pub mod Convert
pub mod Scan
pub mod Parameters
pub mod Transfer
