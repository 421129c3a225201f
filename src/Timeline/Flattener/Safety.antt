-- ===== src/Timeline/Flattener/Safety.antt =====
-- No entry of the map is without a value, so `flatten` never reads outside its slice.
use mathlib.Core.Path.{subst}
use gobol.Base.{
  ap, ◌≡◌, ◌≢◌, refl, inl, inr, ℕ, Option, none, some, List, [], ◌∷◌, ◌++◌, arith, All, Bool-cases,
}
use gobol.Base.Text.{GoString, str_eq}
use gobol.Base.Float.{Float64, FloatOps}
use gobol.Base.SyncMap.{SyncMap, load, store}
use gobol.Hashing.Generate.{Digests}
use gobol.Timeline.Point.{Item, FlattenerPoint, MapEntry, Outcome, ok, err, panicked, ◌>>=◌}
use gobol.Timeline.Flattener.{Flattener, key_of, add_at, add, flat_value, flatten, deliverable}
use gobol.Timeline.Flattener.Groups.{add_each}
use gobol.Timeline.Flattener.Cycle.{IsSound}

abbrev from_ok : Flattener → Outcome Flattener → Flattener
from_ok f (ok g) = g
from_ok f _ = f

abbrev pub IsFilled : SyncMap MapEntry → Type 0
IsFilled = All (λ e. e.1.values ≢ [])

store-IsFilled :
    (m : SyncMap MapEntry) (k : GoString) (e : MapEntry)
    → e.values ≢ []
    → IsFilled m
    → IsFilled (store m k e)
unfolding store
store-IsFilled [] k e n h = (n, tt)
store-IsFilled ((j, w) ∷ m) k e n (v, h) = elim (Bool-cases (str_eq j k)) [
  | inl q ↦ rw q (n, h)
  | inr q ↦ rw q (v, store-IsFilled m k e n h)
]

more-ne-nil : (vs : List Float64) (v : Float64) → vs ++ v ∷ [] ≢ []
more-ne-nil [] v e = cc
more-ne-nil (w ∷ vs) v e = cc

add_at-IsFilled :
    (k : GoString) (p : FlattenerPoint) (o : Option MapEntry) (f : Flattener)
    → IsFilled f.point_map
    → IsFilled (add_at k p o f).point_map
unfolding add_at
add_at-IsFilled k p none f h = store-IsFilled f.point_map k _ (λ e. cc) h
add_at-IsFilled k p (some e) f h = store-IsFilled f.point_map k _ (more-ne-nil e.values p.value) h

module _ (d : Digests) where
  IsFilled-cases :
      (p : FlattenerPoint) (ps : List FlattenerPoint) (f g : Flattener) (o : Outcome GoString)
      → key_of d f.hashing_algorithm p ≡ o
      → ((f' : Flattener) → IsFilled f'.point_map → add_each d ps f' ≡ ok g → IsFilled g.point_map)
      → IsFilled f.point_map
      → add_each d (p ∷ ps) f ≡ ok g
      → IsFilled g.point_map
  unfolding add
  IsFilled-cases p ps f g (ok k) e ih h q =
      ih (add_at k p (load f.point_map k) f) (add_at-IsFilled k p (load f.point_map k) f h)
        (rw e at q)
  IsFilled-cases p ps f g (err x) e ih h q = ih f h (rw e at q)
  IsFilled-cases p ps f g panicked e ih h q = absurd (cc (q, e))

  add_each-IsFilled :
      (ps : List FlattenerPoint) (f g : Flattener)
      → IsFilled f.point_map
      → add_each d ps f ≡ ok g
      → IsFilled g.point_map
  add_each-IsFilled [] f g h q = subst (λ x. IsFilled x.point_map) (ap (from_ok f) q) h
  add_each-IsFilled (p ∷ ps) f g h q =
      IsFilled-cases p ps f g (key_of d f.hashing_algorithm p) refl
        (λ f' r e. add_each-IsFilled ps f' g r e) h q

never_panics :
    (ops : FloatOps) (operation : ℕ) (vs : List Float64)
    → vs ≢ []
    → flat_value ops operation vs ≢ panicked
unfolding flat_value
never_panics ops operation [] n = absurd (n refl)
never_panics ops operation (v ∷ vs) n = λ h. ground arith

module _ (ops : FloatOps) (to_item : FlattenerPoint → Outcome Item) where
  deliverable-ne-panicked :
      (e : MapEntry)
      → ((p : FlattenerPoint) → to_item p ≢ panicked)
      → e.values ≢ []
      → deliverable ops to_item e ≢ panicked
  unfolding deliverable flatten
  deliverable-ne-panicked e t n =
      go (flat_value ops e.operation e.values) (never_panics ops e.operation e.values n)
    where
      go :
          (o : Outcome Float64)
          → o ≢ panicked
          → ((o >>= λ v. ok (record { point_data = e.point_data; hash_parameters = []; value = v }))
              >>= λ p. to_item p)
            ≢ panicked
      go (ok v) h = t _
      go (err x) h = λ q. cc
      go panicked h = absurd (h refl)

  All-IsSound :
      (m : SyncMap MapEntry)
      → ((p : FlattenerPoint) → to_item p ≢ panicked)
      → IsFilled m
      → All (IsSound ops to_item) m
  All-IsSound [] t h = tt
  All-IsSound ((k, e) ∷ m) t (n, h) = (deliverable-ne-panicked e t n, All-IsSound m t h)

  -- If every entry of the map has a value, this holds after any points are added, and a transport whose
  -- conversion does not panic lets the cycle process each entry without a panic.
  pub add_each-IsSound :
      (d : Digests) (ps : List FlattenerPoint) (f g : Flattener)
      → ((p : FlattenerPoint) → to_item p ≢ panicked)
      → IsFilled f.point_map
      → add_each d ps f ≡ ok g
      → IsFilled g.point_map × All (IsSound ops to_item) g.point_map
  add_each-IsSound d ps f g t h q =
      let filled = add_each-IsFilled d ps f g h q in (filled, All-IsSound g.point_map t filled)
