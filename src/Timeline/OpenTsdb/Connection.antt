-- ===== src/Timeline/OpenTsdb/Connection.antt =====
-- OpenTSDBTransport: writing a payload, with new connections until it is written.
use gobol.Base.{
  ap, ◌≡◌, refl, ℕ, ◌+◌, Bool, true, false, not, List, [], ◌∷◌, ◌++◌, map, Option, none, some,
  if◌then◌else◌, arith, All, length,
}
use gobol.Base.Text.{GoString}
use gobol.Timeline.Point.{
  JsonItem, json, TsdbItem, Item, tsdb, casting_item, Outcome, ok, err, ◌>>=◌,
}

-- What reading from the connection gives: bytes, io.EOF or another error that is no net.Error, or a
-- net.Error with its Timeout().
pub data ReadResult : Type 0 where
  read_bytes end_of_file other_error : ReadResult
  net_error : Bool → ReadResult

-- The answers of the connection to the calls of writePayload; `true` is no error.
pub record Exchange : Type 0 where
  pub set_read_deadline : Bool
  pub read : ReadResult
  pub set_write_deadline : Bool
  pub write : Bool

-- castedErr, ok := err.(net.Error); ok && !castedErr.Timeout()
read_fails : ReadResult → Bool
read_fails (net_error timeout) = not timeout
read_fails _ = false

-- (t *OpenTSDBTransport) writePayload
unfoldable pub write_payload : Exchange → Bool
unfolding read_fails
write_payload x =
    if not x.set_read_deadline
    then false
    else if read_fails x.read
    then false
    else if not x.set_write_deadline
    then false
    else x.write

-- The answers to an attempt to connect.
pub record Dial : Type 0 where
  pub dial_tcp : Bool
  pub set_deadline : Bool

-- (t *OpenTSDBTransport) connect
unfoldable pub connect : Dial → Bool
connect d = if not d.dial_tcp then false else d.set_deadline

-- (t *OpenTSDBTransport) retryConnect: whether it returns within the attempts that are given.
unfoldable pub retry_connect : List Dial → Bool
unfolding connect
retry_connect [] = false
retry_connect (d ∷ ds) = let rest = retry_connect ds in if connect d then true else rest

-- A turn of the loop of TransferData: the exchange, and the attempts to connect that follow its failure.
pub record Turn : Type 0 where
  pub exchange : Exchange
  pub dials : List Dial

-- The loop of TransferData: how many times the connection was replaced before the payload was written,
-- or `none` if it has not been written within the given turns.
unfoldable pub write_loop : List Turn → ℕ → Option ℕ
unfolding write_payload retry_connect
write_loop [] n = none
write_loop (t ∷ ts) n =
    let again = write_loop ts (n + 1) in
    if not (write_payload t.exchange)
    then (if retry_connect t.dials then again else none)
    else some n

-- The loop of casts of TransferData.
unfoldable pub cast_items : List Item → Outcome (List TsdbItem)
cast_items [] = ok []
cast_items (tsdb i ∷ items) = do rest ← cast_items items; ok (i ∷ rest)
cast_items (_ ∷ items) = err casting_item

-- (t *OpenTSDBTransport) TransferData; `none` while the loop goes on.
unfoldable pub transfer_data :
    (List TsdbItem → Outcome GoString) → List Turn → List Item → Outcome (Option ℕ)
unfolding cast_items write_loop
transfer_data serialize_array turns items = do
  points ← cast_items items
  payload ← serialize_array points
  ok (write_loop turns 0)

-- A turn whose write fails and after which a connection is made.
abbrev pub Reconnects : Turn → Type 0
Reconnects t = (write_payload t.exchange ≡ false) × (retry_connect t.dials ≡ true)

pub write_loop-count :
    (ts : List Turn) (t : Turn) (rest : List Turn) (n : ℕ)
    → All Reconnects ts
    → write_payload t.exchange ≡ true
    → write_loop (ts ++ t ∷ rest) n ≡ some (n + length ts)
unfolding write_loop
write_loop-count [] t rest n h w = ground arith
write_loop-count (s ∷ ts) t rest n (h, hs) w =
    ground (arith, write_loop-count ts t rest (n + 1) hs w)

pub cast_items-map : (points : List TsdbItem) → cast_items (map tsdb points) ≡ ok points
unfolding cast_items
cast_items-map [] = refl
cast_items-map (p ∷ points) = rw (cast_items-map points)

cast_items-foreign :
    (points : List TsdbItem) (i : JsonItem) (rest : List Item)
    → cast_items (map tsdb points ++ json i ∷ rest) ≡ err casting_item
unfolding cast_items
cast_items-foreign [] i rest = refl
cast_items-foreign (p ∷ points) i rest = rw (cast_items-foreign points i rest)

-- For items of the transport's own type that the serializer takes, the loop ends with the first
-- exchange that writes the payload, after one new connection for each exchange before it that
-- failed, whatever would come later.
transfer_data-retries :
    (serialize_array : List TsdbItem → Outcome GoString) (points : List TsdbItem)
    {payload : GoString} (ts : List Turn) (t : Turn) (rest : List Turn)
    → serialize_array points ≡ ok payload
    → All Reconnects ts
    → write_payload t.exchange ≡ true
    → transfer_data serialize_array (ts ++ t ∷ rest) (map tsdb points) ≡ ok (some (length ts))
unfolding transfer_data
transfer_data-retries serialize_array points ts t rest s h w =
    rw (cast_items-map points, s, write_loop-count ts t rest 0 h w)
      (ap (λ n. ok (some n)) (omega arith))

-- One item of another type in a batch makes TransferData fail, and nothing of the batch is written.
pub transfer_data-foreign :
    (serialize_array : List TsdbItem → Outcome GoString) (turns : List Turn)
    (points : List TsdbItem) (i : JsonItem) (rest : List Item)
    → transfer_data serialize_array turns (map tsdb points ++ json i ∷ rest) ≡ err casting_item
unfolding transfer_data
transfer_data-foreign serialize_array turns points i rest = rw (cast_items-foreign points i rest)
