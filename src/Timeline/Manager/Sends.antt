-- ===== src/Timeline/Manager/Sends.antt =====
-- What the manager accepts, and what becomes of it.
use gobol.Base.{
  ap, ◌∙◌, ◌≡◌, ◌≢◌, inl, inr, refl, ◌<◌, true, false, List, [], ◌∷◌, ◌++◌, map, some, arith,
  length,
}
use gobol.Base.Text.{GoString}
use gobol.Hashing.Value.{Value}
use gobol.Timeline.Point.{TsdbItem, Item, json, tsdb, casting_item, Outcome, ok, err, panicked}
use gobol.Timeline.Channel.{Chan, sent, send_panics, send}
use gobol.Timeline.Flattener as Flat
use gobol.Timeline.Core.{close, batch, turn, turn-open}
use gobol.Timeline.OpenTsdb.Connection as Connection
use gobol.Timeline.Manager.{
  http, opentsdb, Manager, plain, flattening, channel_of, set_channel, after_send, send_http,
  shutdown,
}

abbrev pub item : GoString → List Value → Item
item name parameters = json (record { name = name; parameters = parameters })

abbrev pub put : Chan → Item → Chan
put c x = record c { buffer = c.buffer ++ x ∷ [] }

send_open :
    (c : Chan) (x : Item)
    → c.closed ≡ false
    → length c.buffer < c.capacity
    → send c x ≡ sent (put c x)
unfolding send
send_open c x o r = ground arith

send_closed : (c : Chan) (x : Item) → c.closed ≡ true → send c x ≡ send_panics
unfolding send
send_closed c x h = rw h

append-ne-nil : (l : List Item) (x : Item) → l ++ x ∷ [] ≢ []
append-ne-nil [] x h = cc
append-ne-nil (y ∷ l) x h = cc

-- The two transport types are one number, so that the guard of SendHTTP lets every manager pass.
send_http-send :
    (m : Manager) (name : GoString) (parameters : List Value)
    → send_http m name parameters ≡ after_send m (send (channel_of m) (item name parameters))
unfolding send_http
send_http-send (plain (http c) ch) name parameters = refl
send_http-send (plain opentsdb ch) name parameters = refl
send_http-send (flattening (http c) f) name parameters = refl
send_http-send (flattening opentsdb f) name parameters = refl

-- SendHTTP refuses no manager, one of an OpenTSDB transport included: the JSON item enters the open
-- channel of any transport that has room, and nothing else changes.
pub send_http-accepts :
    (m : Manager) (name : GoString) (parameters : List Value)
    → (channel_of m).closed ≡ false
    → length (channel_of m).buffer < (channel_of m).capacity
    → send_http m name parameters
      ≡ ok (some (set_channel m (put (channel_of m) (item name parameters))))
unfolding after_send
send_http-accepts m name parameters o r =
    send_http-send m name parameters
    ∙ ap (after_send m) (send_open (channel_of m) (item name parameters) o r)

-- SendHTTP on a manager of an OpenTSDB transport, whose open channel has room and holds points of
-- that transport, spoils a batch: after it the next turn of the transfer loop takes all the points
-- that wait with the item, and TransferData fails on them.
pub send_http-spoils :
    (c : Chan) (name : GoString) (parameters : List Value) (points : List TsdbItem)
    (serialize_array : List TsdbItem → Outcome GoString) (turns : List Connection.Turn)
    → c.closed ≡ false
    → length c.buffer < c.capacity
    → c.buffer ≡ map tsdb points
    → (m : Manager) × (send_http (plain opentsdb c) name parameters ≡ ok (some m))
      × ((turn (channel_of m)).0 ≡ batch (map tsdb points ++ item name parameters ∷ []))
      × (Connection.transfer_data serialize_array turns
            (map tsdb points ++ item name parameters ∷ [])
          ≡ err casting_item)
send_http-spoils c name parameters points serialize_array turns o r b = (
  plain opentsdb (put c (item name parameters)),
  send_http-accepts (plain opentsdb c) name parameters o r,
  elim (turn-open (put c (item name parameters)) o).0 [
    | inl e ↦ absurd (append-ne-nil c.buffer (item name parameters) e.0)
    | inr e ↦ e.1
  ]
      ∙ ap (λ l. batch (l ++ item name parameters ∷ [])) b,
  Connection.transfer_data-foreign serialize_array turns points _ [],
)

-- A call of SendHTTP after Shutdown panics, for either kind of manager whose channel was open.
pub shutdown-send_panics :
    (m : Manager) (name : GoString) (parameters : List Value)
    → (channel_of m).closed ≡ false
    → (m' : Manager) × (shutdown m ≡ ok m') × (send_http m' name parameters ≡ panicked)
unfolding shutdown after_send close Flat.close Flat.close_transport
shutdown-send_panics (plain k c) name parameters o =
    let c' : Chan = record c { closed = true } in
    (
      plain k c',
      ground arith,
      send_http-send (plain k c') name parameters
          ∙ ap (after_send (plain k c')) (send_closed c' (item name parameters) refl),
    )
shutdown-send_panics (flattening k f) name parameters o =
    let f' : Flat.Flattener = record f {
      channel = record f.channel { closed = true };
      terminated = true;
    } in
    (
      flattening k f',
      ground arith,
      send_http-send (flattening k f') name parameters
          ∙ ap (after_send (flattening k f')) (send_closed f'.channel (item name parameters) refl),
    )
