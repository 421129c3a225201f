-- ===== src/Timeline/Core.antt =====
-- transportCore of timeline/transport.go: the loop that empties the channel in batches. time.After and
-- the logging have no part in the state.
use gobol.Base.{
  ◌≡◌, ◌≢◌, ◌⊎◌, inl, inr, refl, Bool, true, false, Option, none, some, List, [], ◌∷◌, ◌++◌,
  append_assoc, append-nil, if◌then◌else◌,
}
use gobol.Timeline.Point.{Item}
use gobol.Timeline.Channel.{Chan}

-- What one turn of the loop does after its wait.
pub data Turn : Type 0 where
  -- the channel is closed: the loop ends
  broken : Turn
  -- nothing was buffered
  idle : Turn
  -- TransferData is called
  batch : List Item → Turn

-- innerLoop: the buffered points are received; a closed channel that is empty ends the outer loop.
-- The result is `none` in that case, and else the points.
receive_all : List Item → Bool → List Item → Option (List Item)
receive_all [] true points = none
receive_all [] false points = some points
receive_all (x ∷ buffer) closed points = receive_all buffer closed (points ++ x ∷ [])

turn_of : Option (List Item) → Turn
turn_of none = broken
turn_of (some []) = idle
turn_of (some (x ∷ points)) = batch (x ∷ points)

-- One turn of transferDataLoop, with no send in between.
unfoldable pub turn : Chan → Turn × Chan
unfolding receive_all turn_of
turn c = (turn_of (receive_all c.buffer c.closed []), record c { buffer = [] })

-- (t *transportCore) Close; closing a closed channel panics.
unfoldable pub close : Chan → Option Chan
close c = if c.closed then none else some (record c { closed = true })

receive_open :
    (buffer points : List Item) → receive_all buffer false points ≡ some (points ++ buffer)
unfolding receive_all
receive_open [] points = rw append-nil
receive_open (x ∷ buffer) points = simp (receive_open buffer, append_assoc)

receive_closed : (buffer points : List Item) → receive_all buffer true points ≡ none
unfolding receive_all
receive_closed [] points = refl
receive_closed (x ∷ buffer) points = receive_closed buffer (points ++ x ∷ [])

turn_of-cases :
    (l : List Item)
    → ((l ≡ []) × (turn_of (some l) ≡ idle)) ⊎ ((l ≢ []) × (turn_of (some l) ≡ batch l))
unfolding turn_of
turn_of-cases [] = inl (refl, refl)
turn_of-cases (x ∷ l) = inr ((λ e. cc), refl)

-- On an open channel a turn transfers the buffered points, all of them and in their order, as one
-- batch, is idle if there is none, and leaves the buffer empty.
pub turn-open :
    (c : Chan)
    → c.closed ≡ false
    → (((c.buffer ≡ []) × ((turn c).0 ≡ idle)) ⊎ ((c.buffer ≢ []) × ((turn c).0 ≡ batch c.buffer)))
      × ((turn c).1 ≡ record c { buffer = [] })
unfolding turn
turn-open c o = (rw (o, receive_open c.buffer []) (turn_of-cases c.buffer), refl)

-- After Close the next turn ends the loop, and the points that were buffered are not transferred.
pub close_loses_buffer :
    (c : Chan)
    → c.closed ≡ false
    → (c' : Chan) × (close c ≡ some c')
      × (c'.buffer ≡ c.buffer)
      × (turn c' ≡ (broken, record c' { buffer = [] }))
unfolding close turn
close_loses_buffer c o = (record c { closed = true }, rw o, refl, rw (receive_closed c.buffer []))
