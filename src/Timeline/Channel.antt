-- ===== src/Timeline/Channel.antt =====
-- The buffered channel of a transport (`pointChannel`).
use gobol.Base.{ℕ, Bool, List, [], ◌∷◌, ◌++◌, length, ltb, if◌then◌else◌}
use gobol.Timeline.Point.{Item}

pub record Chan : Type 0 where
  pub capacity : ℕ
  pub buffer : List Item
  pub closed : Bool

-- A send goes through, or waits for room, or panics on a closed channel.
pub data Sent : Type 0 where
  sent : Chan → Sent
  waits : Sent
  send_panics : Sent

unfoldable pub send : Chan → Item → Sent
send c x =
    if c.closed
    then send_panics
    else if ltb (length c.buffer) c.capacity
    then sent (record c { buffer = c.buffer ++ x ∷ [] })
    else waits
