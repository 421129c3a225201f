-- ===== src/Timeline/OpenTsdb.antt =====
-- timeline/opentsdb.go: the transport that writes to a TCP connection.
pub mod Convert
pub mod Connection
pub mod Recovery
