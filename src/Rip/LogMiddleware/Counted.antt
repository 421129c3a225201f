-- ===== src/Rip/LogMiddleware/Counted.antt =====
-- What the log middleware counts.
use gobol.NetHttp.Handler.{Handler}
