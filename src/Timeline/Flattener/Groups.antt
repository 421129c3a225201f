-- ===== src/Timeline/Flattener/Groups.antt =====
-- The map of the flattener is the grouping of the added points by their keys.
use gobol.Base.{
  ◌∙◌, ◌≡◌, refl, inl, inr, Bool, false, Option, none, some, List, [], ◌∷◌, ◌++◌, append-nil,
  append_assoc, map, Bool-cases, Option-cases, if◌then◌else◌,
}
use gobol.Base.Text.{GoString, str_eq, str_eq_iff}
use gobol.Base.Float.{Float64}
use gobol.Base.SyncMap.{load, load-store}
use gobol.Hashing.Generate.{Digests, Algorithm}
use gobol.Timeline.Point.{FlattenerPoint, MapEntry, Outcome, ok, err, panicked, ◌>>=◌}
use gobol.Timeline.Flattener.{Flattener, key_of, add_at, add}

module _ (d : Digests) where
  -- A caller that goes on after an error.
  abbrev keep : Flattener → Outcome Flattener → Outcome Flattener
  keep f (ok g) = ok g
  keep f (err e) = ok f
  keep f panicked = panicked

  -- The points of a list are added in turn; one whose key has an error is skipped.
  abbrev pub add_each : List FlattenerPoint → Flattener → Outcome Flattener
  add_each [] f = ok f
  add_each (p ∷ ps) f = keep f (add d f p) >>= λ g. add_each ps g

  abbrev is_key : GoString → Outcome GoString → Bool
  is_key k (ok j) = str_eq j k
  is_key k (err e) = false
  is_key k panicked = false

  -- The points of a list that have the key `k`, in their order.
  abbrev pub of_key : Algorithm → GoString → List FlattenerPoint → List FlattenerPoint
  of_key a k [] = []
  of_key a k (p ∷ ps) =
      let rest = of_key a k ps in if is_key k (key_of d a p) then p ∷ rest else rest

  abbrev values_of : List FlattenerPoint → List Float64
  values_of = map (λ p. p.value)

  -- The entry of a group: the data of its first point, and all the values in their order.
  abbrev pub merge : Option MapEntry → List FlattenerPoint → Option MapEntry
  merge none [] = none
  merge none (p ∷ ps) = some (record { point_data = p.point_data; values = p.value ∷ values_of ps })
  merge (some e) ps = some (record e { values = e.values ++ values_of ps })

  merge-nil : (o : Option MapEntry) → merge o [] ≡ o
  merge-nil none = refl
  merge-nil (some e) = rw append-nil

  merge-cons :
      (o : Option MapEntry) (p : FlattenerPoint) (ps : List FlattenerPoint)
      → merge (merge o (p ∷ [])) ps ≡ merge o (p ∷ ps)
  merge-cons none p ps = refl
  merge-cons (some e) p ps = rw append_assoc

  load-add_at :
      (j k : GoString) (p : FlattenerPoint) (f : Flattener)
      → load (add_at j p (load f.point_map j) f).point_map k
        ≡ (if str_eq j k then merge (load f.point_map k) (p ∷ []) else load f.point_map k)
  unfolding add_at
  load-add_at j k p f = elim (Option-cases (load f.point_map j)) [
    | inl e ↦
        rw (e, add_at)
          (elim (Bool-cases (str_eq j k)) [
            | inl q ↦ rw (load-store, q, ← (str_eq_iff j k).0 q, e)
            | inr q ↦ rw (load-store, q)
          ])
    | inr (x, e) ↦
        rw (e, add_at)
          (elim (Bool-cases (str_eq j k)) [
            | inl q ↦ rw (load-store, q, ← (str_eq_iff j k).0 q, e)
            | inr q ↦ rw (load-store, q)
          ])
  ]

  add_at-algorithm :
      (j : GoString) (p : FlattenerPoint) (o : Option MapEntry) (f : Flattener)
      → (add_at j p o f).hashing_algorithm ≡ f.hashing_algorithm
  unfolding add_at
  add_at-algorithm j p none f = refl
  add_at-algorithm j p (some e) f = refl

  abbrev Grouped : List FlattenerPoint → Flattener → Flattener → Type 0
  Grouped ps f g =
      (k : GoString)
      → load g.point_map k ≡ merge (load f.point_map k) (of_key f.hashing_algorithm k ps)

  Grouped-step :
      (j : GoString) (p : FlattenerPoint) (ps : List FlattenerPoint) (f g : Flattener)
      → key_of d f.hashing_algorithm p ≡ ok j
      → Grouped ps (add_at j p (load f.point_map j) f) g
      → Grouped (p ∷ ps) f g
  Grouped-step j p ps f g e h k =
      h k
      ∙ rw (add_at-algorithm j p (load f.point_map j) f, load-add_at j k p f, e)
          (elim (Bool-cases (str_eq j k)) [
            | inl q ↦ rw q (merge-cons (load f.point_map k) p (of_key f.hashing_algorithm k ps))
            | inr q ↦ rw q
          ])

  Grouped-cases :
      (p : FlattenerPoint) (ps : List FlattenerPoint) (f g : Flattener) (o : Outcome GoString)
      → key_of d f.hashing_algorithm p ≡ o
      → ((f' : Flattener) → add_each ps f' ≡ ok g → Grouped ps f' g)
      → add_each (p ∷ ps) f ≡ ok g
      → Grouped (p ∷ ps) f g
  unfolding add
  Grouped-cases p ps f g (ok j) e ih h = Grouped-step j p ps f g e (ih _ (rw e at h))
  Grouped-cases p ps f g (err x) e ih h = λ k. ih f (rw e at h) k ∙ rw e
  Grouped-cases p ps f g panicked e ih h = λ k. cc (h, e)

  -- After points are added to a flattener, with no panic, the entry of each key is the one before with
  -- the values of the added points of that key behind its values, in the order of the calls. A new
  -- entry has the data of its first point, and the other keys keep theirs.
  pub add_each-groups :
      (ps : List FlattenerPoint) (f : Flattener) {g : Flattener}
      → add_each ps f ≡ ok g
      → (k : GoString)
      → load g.point_map k ≡ merge (load f.point_map k) (of_key f.hashing_algorithm k ps)
  add_each-groups [] f h = λ k. rw (merge-nil (load f.point_map k)) (cc (h))
  add_each-groups (p ∷ ps) f {g} h =
      Grouped-cases p ps f g (key_of d f.hashing_algorithm p) refl (λ f' q. add_each-groups ps f' q)
        h
