-- ===== src/Timeline/OpenTsdb/Recovery.antt =====
-- OpenTSDBTransport: the address and the connection as state, ConfigureBackend, and what a batch comes to on
-- a transport without a connection. A Dial is the answer of the network to an attempt at the address.
use gobol.Base.{
  ap, ◌≡◌, refl, ℕ, Bool, true, false, List, ◌∷◌, ◌++◌, map, Option, none, some, if◌then◌else◌,
  arith, All, length,
}
use gobol.Base.Text.{GoString}
use gobol.Base.Int.{int_itoa}
use gobol.Timeline.Point.{TsdbItem, Item, tsdb, no_backend, resolve_error, Outcome, ok, err, ◌>>=◌}
use gobol.Timeline.Http.Transfer.{Backend}
use gobol.Timeline.OpenTsdb.Connection.{
  Dial, Turn, Reconnects, write_payload, retry_connect, write_loop, write_loop-count, cast_items,
  cast_items-map,
}

-- The fields of OpenTSDBTransport that change; `connected` is t.connection != nil.
pub record TsdbTransport (Address : Type 0) : Type 0 where
  pub address : Option Address
  pub connected : Bool

-- What NewOpenTSDBTransport leaves in them.
abbrev pub fresh : {Address : Type 0} → TsdbTransport Address
fresh = record { address = none; connected = false }

-- fmt.Sprintf("%s:%d", backend.Host, backend.Port)
unfoldable pub host_port : Backend → GoString
host_port b = b.host ++ b':' ∷ int_itoa b.port

-- What ends a call of TransferData without an error: the payload is written after some new connections,
-- or a panic is recovered. The result of TransferData has no name, so that a recovered call returns nil.
pub data Transferred : Type 0 where
  written : ℕ → Transferred
  recovered : Transferred

module _ {Address : Type 0} (resolve : GoString → Option Address) where
  after_resolve :
      Option Address
      → List Dial
      → TsdbTransport Address
      → Outcome (Option (Unit {0})) × TsdbTransport Address
  unfolding retry_connect
  after_resolve none dials t = (err resolve_error, record t { address = none })
  after_resolve (some a) dials t =
      if retry_connect dials
      then (ok (some tt), record { address = some a; connected = true })
      else (ok none, record t { address = some a })

  -- (t *OpenTSDBTransport) ConfigureBackend; `none` while retryConnect goes on.
  unfoldable pub configure_backend :
      Option Backend
      → List Dial
      → TsdbTransport Address
      → Outcome (Option (Unit {0})) × TsdbTransport Address
  unfolding after_resolve host_port
  configure_backend none dials t = (err no_backend, t)
  configure_backend (some b) dials t = after_resolve (resolve (host_port b)) dials t

-- The loop of TransferData with its recovery: the first call on a connection that is nil panics.
unfoldable pub write_or_recover : Bool → List Turn → Option Transferred
unfolding write_loop
write_or_recover false turns = some recovered
write_or_recover true turns = elim (write_loop turns 0) [ none ↦ none | some n ↦ some (written n) ]

-- (t *OpenTSDBTransport) TransferData on the transport's state; `none` while the loop goes on.
unfoldable pub transfer :
    {Address : Type 0}
    → (List TsdbItem → Outcome GoString)
    → List Turn
    → TsdbTransport Address
    → List Item
    → Outcome (Option Transferred)
unfolding cast_items write_or_recover
transfer serialize_array turns t items = do
  points ← cast_items items
  payload ← serialize_array points
  ok (write_or_recover t.connected turns)

write_or_recover-count :
    (ts : List Turn) (last : Turn) (rest : List Turn)
    → All Reconnects ts
    → write_payload last.exchange ≡ true
    → write_or_recover true (ts ++ last ∷ rest) ≡ some (written (length ts))
unfolding write_or_recover
write_or_recover-count ts last rest h w =
    rw (write_or_recover, write_loop-count ts last rest 0 h w)
      (ap (λ n. some (written n)) (omega arith))

-- On a transport that has just been made and has no backend, a batch of the transport's own type that
-- the serializer takes is lost without an error. After a call of ConfigureBackend with a backend whose
-- address is found, and whose attempts to connect come to one that succeeds, the address is kept, and
-- the batch is written by the first exchange that takes it, after one new connection for each exchange
-- before it that failed.
pub configure_backend-transfer :
    {Address : Type 0} (resolve : GoString → Option Address)
    (serialize_array : List TsdbItem → Outcome GoString) (points : List TsdbItem)
    {payload : GoString} (b : Backend) {a : Address} (dials : List Dial) (t : TsdbTransport Address)
    (ts : List Turn) (last : Turn) (rest : List Turn)
    → serialize_array points ≡ ok payload
    → resolve (host_port b) ≡ some a
    → retry_connect dials ≡ true
    → All Reconnects ts
    → write_payload last.exchange ≡ true
    → let turns = ts ++ last ∷ rest in
      let (result, t') = configure_backend resolve (some b) dials t in
      (transfer {Address = Address} serialize_array turns fresh (map tsdb points)
        ≡ ok (some recovered))
      × (result ≡ ok (some tt))
      × (t'.address ≡ some a)
      × (transfer serialize_array turns t' (map tsdb points) ≡ ok (some (written (length ts))))
unfolding configure_backend after_resolve transfer
configure_backend-transfer resolve serialize_array points b dials t ts last rest s r d h w =
    rw (cast_items-map points, s, r, d)
      (refl, refl, refl, ap (λ o. ok o) (write_or_recover-count ts last rest h w))
