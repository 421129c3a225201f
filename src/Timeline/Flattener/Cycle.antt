-- ===== src/Timeline/Flattener/Cycle.antt =====
-- A round of the flattening cycle: what it sends, and what goes wrong around it.
use mathlib.Core.Path.{subst}
use gobol.Base.{
  ap, sym, ◌∙◌, suc, ◌+◌, ◌≤◌, ◌<◌, ◌≡◌, ◌≢◌, refl, true, false, Option, none, some, List, [], ◌∷◌,
  ◌++◌, append-nil, append_assoc, arith, All, length, length-append, if◌then◌else◌,
}
use gobol.Base.Text.{GoString, str_eq_iff}
use gobol.Base.Float.{FloatOps}
use gobol.Base.SyncMap.{SyncMap, load, store, delete, delete_each, delete_each_self}
use gobol.Hashing.Generate.{Digests}
use gobol.Timeline.Point.{Item, FlattenerPoint, MapEntry, Error, Outcome, ok, err, panicked}
use gobol.Timeline.Core as Core
use gobol.Timeline.Channel.{Chan, sent, send_panics, send}
use gobol.Timeline.Flattener.{
  Flattener, key_of, add_at, add, deliverable, process_entry, finished, crashed, flush, cycle,
  close_transport, close,
}

module _ (ops : FloatOps) (to_item : FlattenerPoint → Outcome Item) where
  -- An entry whose processing does not panic.
  abbrev pub IsSound : GoString × MapEntry → Type 0
  IsSound (k, e) = deliverable ops to_item e ≢ panicked

  -- The items that the entries of a map are sent as, in turn; an entry with an error has none.
  abbrev pub items_of : SyncMap MapEntry → List Item
  items_of [] = []
  items_of ((k, e) ∷ es) = elim (deliverable ops to_item e) [
    | ok x ↦ x ∷ items_of es
    | _ ↦ items_of es
  ]

  abbrev deliver : SyncMap MapEntry → Flattener → Flattener
  deliver es f = record f {
    channel = record f.channel { buffer = f.channel.buffer ++ items_of es };
    point_map = delete_each es f.point_map;
  }

  send_open :
      (c : Chan) (x : Item)
      → c.closed ≡ false
      → length c.buffer < c.capacity
      → send c x ≡ sent (record c { buffer = c.buffer ++ x ∷ [] })
  unfolding send
  send_open c x o h = ground arith

  process_entry-ok :
      (e : MapEntry) (c : Chan) {x : Item}
      → deliverable ops to_item e ≡ ok x
      → process_entry ops to_item e c ≡ send c x
  unfolding process_entry
  process_entry-ok e c q = rw (q, process_entry)

  process_entry-err :
      (e : MapEntry) (c : Chan) {x : Error}
      → deliverable ops to_item e ≡ err x
      → process_entry ops to_item e c ≡ sent c
  unfolding process_entry
  process_entry-err e c q = rw (q, process_entry)

  abbrev visited : GoString → Chan → Flattener → Flattener
  visited k c f = record f { channel = c; point_map = delete f.point_map k }

  flush-sent :
      (k : GoString) (e : MapEntry) (es : SyncMap MapEntry) (f : Flattener) {c : Chan}
      → process_entry ops to_item e f.channel ≡ sent c
      → flush ops to_item ((k, e) ∷ es) f ≡ flush ops to_item es (visited k c f)
  unfolding flush
  flush-sent k e es f q = rw (q, flush)

  flush-deliver :
      (es : SyncMap MapEntry) (f : Flattener)
      → f.channel.closed ≡ false
      → All IsSound es
      → length f.channel.buffer + length (items_of es) ≤ f.channel.capacity
      → flush ops to_item es f ≡ finished (deliver es f)
  flush-deliver [] f o s h = unfold flush in rw append-nil
  flush-deliver ((k, e) ∷ es) f o (s, ss) h = go (flush-deliver es) (deliverable ops to_item e) refl
    where
      go :
          ((g : Flattener)
            → g.channel.closed ≡ false
            → All IsSound es
            → length g.channel.buffer + length (items_of es) ≤ g.channel.capacity
            → flush ops to_item es g ≡ finished (deliver es g))
          → (r : Outcome Item) → deliverable ops to_item e ≡ r
          → flush ops to_item ((k, e) ∷ es) f ≡ finished (deliver ((k, e) ∷ es) f)
      go ih (ok x) q =
          let c : Chan = record f.channel { buffer = f.channel.buffer ++ x ∷ [] } in
          let more : items_of ((k, e) ∷ es) ≡ x ∷ items_of es = rw (q, items_of) in
          let room : suc (length f.channel.buffer + length (items_of es)) ≤ f.channel.capacity =
            omega (arith, h, ap length more) in
          flush-sent k e es f
            (process_entry-ok e f.channel q ∙ send_open f.channel x o (omega (arith, room)))
          ∙ ih (visited k c f) o ss (omega (arith, room, length-append f.channel.buffer (x ∷ [])))
          ∙ ap
              (λ b. finished (record f {
                channel = record f.channel { buffer = b };
                point_map = delete_each es (delete f.point_map k);
              }))
              (append_assoc f.channel.buffer (x ∷ []) (items_of es)
                ∙ ap (λ l. f.channel.buffer ++ l) (sym more))
      go ih (err x) q =
          let same : items_of ((k, e) ∷ es) ≡ items_of es = rw (q, items_of) in
          flush-sent k e es f (process_entry-err e f.channel q)
          ∙ ih (visited k f.channel f) o ss (omega (arith, h, ap length same))
          ∙ ap
              (λ l. finished (record f {
                channel = record f.channel { buffer = f.channel.buffer ++ l };
                point_map = delete_each es (delete f.point_map k);
              }))
              (sym same)
      go ih panicked q = absurd (s q)

  -- A cycle that is not told to end, on an open channel with room for the items and with entries whose
  -- processing does not panic, is finished: it has sent the item of each entry, in the order of the
  -- visit, and the map holds no key.
  pub cycle-delivers :
      (f : Flattener)
      → f.terminated ≡ false
      → f.channel.closed ≡ false
      → All IsSound f.point_map
      → length f.channel.buffer + length (items_of f.point_map) ≤ f.channel.capacity
      → (g : Flattener) × (cycle ops to_item f ≡ some (finished g))
        × (g.channel.buffer ≡ f.channel.buffer ++ items_of f.point_map)
        × ((k : GoString) → load g.point_map k ≡ none)
  unfolding cycle
  cycle-delivers f t o s h = (
    deliver f.point_map f,
    ap (λ b. if b then none else some (flush ops to_item f.point_map f)) t
        ∙ ap some (flush-deliver f.point_map f o s h),
    refl,
    delete_each_self f.point_map,
  )

  send_closed : (c : Chan) (x : Item) → c.closed ≡ true → send c x ≡ send_panics
  unfolding send
  send_closed c x h = rw h

  flush_closed :
      (f : Flattener) (k : GoString) (e : MapEntry) (es : SyncMap MapEntry) {x : Item}
      → f.channel.closed ≡ true
      → deliverable ops to_item e ≡ ok x
      → flush ops to_item ((k, e) ∷ es) f ≡ crashed
  unfolding flush
  flush_closed f k e es {x} c q =
      rw (process_entry-ok e f.channel q, flush, send_closed f.channel x c)

  -- A flattener with an open channel that has not been told to end, and whose map begins with an entry
  -- that gives an item, falls into Close. Where the transport is closed while a cycle visits the map, and
  -- the next entry that it visits gives an item, the cycle panics; one that begins between the two halves
  -- of Close panics too; and one after them ends the loop, with the map and the items in the channel as
  -- they were. A second call of Close panics.
  pub close-cycle :
      (f : Flattener) (k : GoString) (e : MapEntry) (es : SyncMap MapEntry) {x : Item}
      (next : GoString) (d : MapEntry) (left : SyncMap MapEntry) {y : Item}
      → f.channel.closed ≡ false
      → f.terminated ≡ false
      → f.point_map ≡ (k, e) ∷ es
      → deliverable ops to_item e ≡ ok x
      → deliverable ops to_item d ≡ ok y
      → (g : Flattener) × (h : Flattener) × (close_transport f ≡ some g)
        × (flush ops to_item ((next, d) ∷ left) g ≡ crashed)
        × (cycle ops to_item g ≡ some crashed)
        × (close f ≡ some h)
        × (cycle ops to_item h ≡ none)
        × (h.point_map ≡ (k, e) ∷ es)
        × (h.channel.buffer ≡ f.channel.buffer)
        × (close h ≡ none)
  unfolding cycle close_transport close Core.close
  close-cycle f k e es next d left o t m q r =
      let g : Flattener = record f { channel = record f.channel { closed = true } } in
      (
        g,
        record g { terminated = true },
        rw o,
        flush_closed g next d left refl r,
        ap (λ b. if b then none else some (flush ops to_item f.point_map g)) t
            ∙ ap some (ap (λ l. flush ops to_item l g) m ∙ flush_closed g k e es refl q),
        rw o,
        refl,
        m,
        refl,
        refl,
      )

delete-store :
    (m : SyncMap MapEntry) (k : GoString) (e : MapEntry) → delete (store m k e) k ≡ delete m k
unfolding delete store
delete-store [] k e = ground (arith, str_eq_iff k k)
delete-store ((j, w) ∷ m) k e = ground (arith, delete-store m k e)

drop_added :
    (k : GoString) (p : FlattenerPoint) (o : Option MapEntry) (f : Flattener)
    → record (add_at k p o f) { point_map = delete (add_at k p o f).point_map k }
      ≡ record f { point_map = delete f.point_map k }
unfolding add_at
drop_added k p none f =
    ap (λ m. record f { point_map = m })
      (delete-store f.point_map k (record { point_data = p.point_data; values = p.value ∷ [] }))
drop_added k p (some e) f =
    ap (λ m. record f { point_map = m })
      (delete-store f.point_map k (record e { values = e.values ++ p.value ∷ [] }))

abbrev from_ok : Flattener → Outcome Flattener → Flattener
from_ok f (ok g) = g
from_ok f _ = f

-- A point that is added after the cycle has processed the entry of its key and before the cycle
-- deletes it leaves no trace: the map is what it would be without the call of Add.
pub add_in_cycle_is_lost :
    (d : Digests) (f g : Flattener) (k : GoString) (p : FlattenerPoint)
    → key_of d f.hashing_algorithm p ≡ ok k
    → add d f p ≡ ok g
    → record g { point_map = delete g.point_map k } ≡ record f { point_map = delete f.point_map k }
unfolding add
add_in_cycle_is_lost d f g k p h q =
    subst
      (λ x.
        record x { point_map = delete x.point_map k }
        ≡ record f { point_map = delete f.point_map k })
      (ap (from_ok f) (rw h at q)) (drop_added k p (load f.point_map k) f)
