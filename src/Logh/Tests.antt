-- ===== src/Logh/Tests.antt =====
-- The theorems on the logger at concrete values.
use gobol.Base.{◌≡◌, ◌⊎◌, refl, Bool, false, ◌&&◌, Option, some, [], ◌∷◌, leb, arith}
use gobol.Base.Text.{codes, str_eq}
use gobol.Base.Outcome.{ok, panicked}
use gobol.Logh.{
  ZeroLevel, info_level, debug_level, Event, Logger, configure_global_logger, global_level,
  ContextualLogger, create_contextual_logger, add_context,
}
use gobol.Logh.Context.{
  pairs, with_fields, severity, IsGraded, add_context-create, configure_global_logger-graded,
}

abbrev written : Option Event
written =
    some (record { level = info_level; to_stderr = false; fields = (codes "time", codes "0") ∷ [] })

add_context-create_example :
    (create_contextual_logger (codes "pkg" ∷ codes "logh" ∷ []) ≡ panicked)
    ⊎ ((el : ContextualLogger) × (create_contextual_logger (codes "pkg" ∷ codes "logh" ∷ [])
          ≡ ok el)
        × (add_context el written
            ≡ ok (with_fields (pairs (codes "pkg" ∷ codes "logh" ∷ [])) written)))
add_context-create_example = add_context-create (codes "pkg" ∷ codes "logh" ∷ []) written

one_missing : create_contextual_logger (codes "pkg" ∷ []) ≡ panicked
unfolding create_contextual_logger
one_missing = refl

-- The rule of zerolog for the levels below `disabled`.
abbrev by_severity : ZeroLevel → ZeroLevel → Bool
by_severity global level = leb (severity global) (severity level)

by_severity-IsGraded : IsGraded by_severity
by_severity-IsGraded global a b h e = ground arith

abbrev old : Logger
old = record {
  global = debug_level;
  console = false;
  info_enabled = false;
  debug_enabled = false;
  warn_enabled = false;
  error_enabled = false;
  panic_enabled = false;
  fatal_enabled = false;
}

abbrev configured : Logger
configured = configure_global_logger by_severity (codes "warn") (codes "json") old

graded_log :
    (configured.debug_enabled && configured.info_enabled ≡ configured.debug_enabled)
    × (configured.info_enabled && configured.warn_enabled ≡ configured.info_enabled)
    × (configured.warn_enabled && configured.error_enabled ≡ configured.warn_enabled)
    × (configured.error_enabled && configured.fatal_enabled ≡ configured.error_enabled)
    × (configured.fatal_enabled && configured.panic_enabled ≡ configured.fatal_enabled)
graded_log =
    configure_global_logger-graded by_severity by_severity-IsGraded (codes "warn") (codes "json")
      old

-- An unknown level keeps the one that is set.
unknown : global_level (codes "trace") debug_level ≡ debug_level
unfolding global_level str_eq
unknown = refl
