-- ===== src/Election/Settings.antt =====
-- New of election/election.go: the durations of the configuration, which time.ParseDuration reads, a
-- parameter.
use gobol.Base.{Option, none, some}
use gobol.Base.Text.{GoString}
use gobol.Base.Int.{ℤ}
use gobol.Base.Outcome.{Outcome as GoOutcome, ok, err, ◌>>=◌}

-- The durations of Config, as they are written.
pub record Durations : Type 0 where
  pub session_timeout : GoString
  pub reconnection_timeout : GoString
  pub cluster_change_check_time : GoString
  pub cluster_change_wait_time : GoString

pub data Error : Type 0 where
  bad_session_timeout : GoString → Error
  bad_reconnection_timeout : GoString → Error
  bad_check_time : GoString → Error
  bad_wait_time : GoString → Error

-- The durations of a Manager.
pub record Parsed : Type 0 where
  pub session_timeout : ℤ
  pub reconnection_timeout : ℤ
  pub cluster_change_check_time : ℤ
  pub cluster_change_wait_time : ℤ

module _ (parse_duration : GoString → Option ℤ) where
  parsed : (GoString → Error) → GoString → GoOutcome Error ℤ
  parsed problem text = elim (parse_duration text) [ some d ↦ ok d | none ↦ err (problem text) ]

  -- New, for the durations
  unfoldable pub new : Durations → GoOutcome Error Parsed
  unfolding parsed
  new d = parsed bad_session_timeout d.session_timeout >>= λ s.
      parsed bad_reconnection_timeout d.reconnection_timeout >>= λ r.
      parsed bad_check_time d.cluster_change_check_time >>= λ k.
      parsed bad_wait_time d.cluster_change_wait_time >>= λ w. ok (record {
        session_timeout = s;
        reconnection_timeout = r;
        cluster_change_check_time = k;
        cluster_change_wait_time = w;
      })
