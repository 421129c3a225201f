-- ===== src/NetHttp.antt =====
-- What the code uses of net/http of Go's standard library: the headers, the response writer and the
-- handlers, for rip and for tester/httpserver.
pub mod Header
pub mod Writer
pub mod Handler
pub mod Morphism
pub mod Bounded
