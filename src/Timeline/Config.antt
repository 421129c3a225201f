-- ===== src/Timeline/Config.antt =====
-- The configurations of the transports and their validation (timeline/transport.go, http.go,
-- opentsdb.go). Durations are nanoseconds: `Seconds() <= 0` holds exactly when they are at most 0.
use gobol.Base.{
  ap, inl, inr, Option-cases, ◌≡◌, ◌≢◌, ◌↔◌, refl, Bool, true, false, not, [], ◌∷◌, Option, none,
  some, if◌then◌else◌, arith,
}
use gobol.Base.Text.{GoString}
use gobol.Base.Int.{ℤ, pos, int_lt}
use gobol.Timeline.Point.{
  Error, null_configuration, invalid_buffer_size, invalid_serializer_buffer_size, invalid_interval,
  invalid_timeout, invalid_read_timeout, invalid_reconnection_timeout, no_timestamp_property,
  no_value_property,
}

-- DefaultTransportConfiguration
pub record DefaultConfig : Type 0 where
  pub transport_buffer_size : ℤ
  pub batch_send_interval : ℤ
  pub request_timeout : ℤ
  pub serializer_buffer_size : ℤ

pub record HttpConfig : Type 0 where
  pub default : DefaultConfig
  pub service_endpoint : GoString
  pub method : GoString
  pub expected_response_status : ℤ
  pub timestamp_property : GoString
  pub value_property : GoString

pub record OpenTsdbConfig : Type 0 where
  pub default : DefaultConfig
  pub max_read_timeout : ℤ
  pub reconnection_timeout : ℤ

-- i <= 0
abbrev pub not_positive : ℤ → Bool
not_positive i = not (int_lt (pos 0) i)

-- (c *DefaultTransportConfiguration) Validate
unfoldable pub validate : DefaultConfig → Option Error
validate c =
    if not_positive c.transport_buffer_size
    then some (invalid_buffer_size c.transport_buffer_size)
    else if not_positive c.serializer_buffer_size
    then some (invalid_serializer_buffer_size c.serializer_buffer_size)
    else if not_positive c.batch_send_interval
    then some (invalid_interval c.batch_send_interval)
    else if not_positive c.request_timeout
    then some (invalid_timeout c.request_timeout)
    else none

is_empty : GoString → Bool
is_empty [] = true
is_empty (_ ∷ _) = false

-- The checks of NewHTTPTransport; without an error the transport is made.
unfoldable pub check_http : Option HttpConfig → Option Error
unfolding is_empty
check_http none = some null_configuration
check_http (some c) = elim (validate c.default) [
  | some e ↦ some e
  | none ↦
      if is_empty c.timestamp_property
      then some no_timestamp_property
      else if is_empty c.value_property
      then some no_value_property
      else none
]

-- The checks of NewOpenTSDBTransport.
unfoldable pub check_opentsdb : Option OpenTsdbConfig → Option Error
check_opentsdb none = some null_configuration
check_opentsdb (some c) = elim (validate c.default) [
  | some e ↦ some e
  | none ↦
      if not_positive c.max_read_timeout
      then some (invalid_read_timeout c.max_read_timeout)
      else if not_positive c.reconnection_timeout
      then some (invalid_reconnection_timeout c.reconnection_timeout)
      else none
]

abbrev pub IsPositive : ℤ → Type 0
IsPositive i = int_lt (pos 0) i ≡ true

pub record IsValid (c : DefaultConfig) : Type 0 where
  pub transport_buffer : IsPositive c.transport_buffer_size
  pub serializer_buffer : IsPositive c.serializer_buffer_size
  pub interval : IsPositive c.batch_send_interval
  pub timeout : IsPositive c.request_timeout

validate-none : (c : DefaultConfig) → (validate c ≡ none) ↔ IsValid c
unfolding validate
validate-none c = (λ h. ground arith, λ v. ground arith)

is_empty-false : (s : GoString) → s ≢ [] → is_empty s ≡ false
unfolding is_empty
is_empty-false [] h = absurd (h refl)
is_empty-false (c ∷ s) h = refl

-- NewHTTPTransport accepts a configuration exactly when the two sizes and the two durations are
-- positive and both property names are not empty.
pub check_http-none :
    (c : HttpConfig)
    → (check_http (some c) ≡ none)
      ↔ (IsValid c.default × (c.timestamp_property ≢ []) × (c.value_property ≢ []))
unfolding check_http is_empty
check_http-none c = (
  λ h. elim (Option-cases (validate c.default)) [
    | inl e ↦ (
      (validate-none c.default).0 e,
      λ q. ground (arith, ap is_empty q),
      λ q. ground (arith, ap is_empty q),
    )
    | inr (x, e) ↦ absurd (ground arith)
  ],
  λ v. rw ((validate-none c.default).1 v.0, check_http, is_empty-false _ v.1, is_empty-false _ v.2),
)

-- NewOpenTSDBTransport accepts a configuration exactly when the two sizes and the four durations are
-- positive.
check_opentsdb-none :
    (c : OpenTsdbConfig)
    → (check_opentsdb (some c) ≡ none)
      ↔ (IsValid c.default × IsPositive c.max_read_timeout × IsPositive c.reconnection_timeout)
unfolding check_opentsdb
check_opentsdb-none c = (
  λ h. elim (Option-cases (validate c.default)) [
    | inl e ↦ ((validate-none c.default).0 e, ground arith, ground arith)
    | inr (x, e) ↦ absurd (ground arith)
  ],
  λ v. rw ((validate-none c.default).1 v.0, check_opentsdb, v.1, v.2),
)
