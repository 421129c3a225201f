-- ===== src/Rip/LogWriter.antt =====
-- LogResponseWriter of rip/log_middleware.go, over any response writer.
pub mod Recorded
use gobol.Base.{ℕ, ◌+◌, ◌==◌, Option, if◌then◌else◌}
use gobol.Base.Text.{GoString, Bytes}
use gobol.NetHttp.Writer.{ResponseWriter, count}

pub record LogResponseWriter (W : Type 0) : Type 0 where
  pub inner : W
  pub status : ℕ
  pub size : ℕ

module _ {W : Type 0} (o : ResponseWriter W) where
  -- (w *LogResponseWriter) Write
  unfoldable pub log_write : Bytes → LogResponseWriter W → Option GoString × LogResponseWriter W
  log_write b l =
      let (e, w) = o.write b l.inner in
      (
        e,
        record {
          inner = w;
          status = if l.status == 0 then 200 else l.status;
          size = l.size + count b e;
        },
      )

  -- The writer that the next handler gets.
  abbrev pub logging : ResponseWriter (LogResponseWriter W)
  logging = record {
    header = λ l. o.header l.inner;
    set_header = λ h l. record l { inner = o.set_header h l.inner };
    write = log_write;
    write_header = λ s l. record l { inner = o.write_header s l.inner; status = s };
  }

abbrev pub logged : {W : Type 0} → W → LogResponseWriter W
logged w = record { inner = w; status = 0; size = 0 }
