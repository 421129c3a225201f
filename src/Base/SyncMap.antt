-- ===== src/Base/SyncMap.antt =====
-- `sync.Map` with string keys. `Range` visits the entries in the order of the list, which stands
-- for any order: the theorems hold for every list of entries.
use mathlib.Core.Path.{◌≡◌, refl}
use mathlib.Core.Logic.{inl, inr, ◌≢◌}
use mathlib.Core.Option.{Option, none, some}
use mathlib.Core.List.{List, [], ◌∷◌, map}
use native.Mathlib.Omega.{arith}
use Prim.Native.Nat.{◌+◌}
use gobol.Base.Tests.{if◌then◌else◌, Bool-cases, Option-cases}
use gobol.Base.Lists.{Elem, Distinct, length}
use gobol.Base.Text.{GoString, str_eq, str_eq_iff}

abbrev pub SyncMap : Type 0 → Type 0
SyncMap V = List (GoString × V)

module _ {V : Type 0} where
  unfoldable pub load : SyncMap V → GoString → Option V
  load [] k = none
  load ((j, v) ∷ m) k = if str_eq j k then some v else load m k

  unfoldable pub store : SyncMap V → GoString → V → SyncMap V
  store [] k v = (k, v) ∷ []
  store ((j, w) ∷ m) k v = if str_eq j k then (j, v) ∷ m else (j, w) ∷ store m k v

  unfoldable pub delete : SyncMap V → GoString → SyncMap V
  delete [] k = []
  delete ((j, w) ∷ m) k = let rest = delete m k in if str_eq j k then rest else (j, w) ∷ rest

  abbrev pub keys : SyncMap V → List GoString
  keys = map (λ e. e.0)

  abbrev pub values : SyncMap V → List V
  values = map (λ e. e.1)

  pub load-store :
      (m : SyncMap V) (k j : GoString) (v : V)
      → load (store m k v) j ≡ (if str_eq k j then some v else load m j)
  unfolding load store
  load-store [] k j v = refl
  load-store ((i, w) ∷ m) k j v =
      ground (arith, str_eq_iff k j, str_eq_iff i k, str_eq_iff i j, load-store m k j v)

  pub load-delete :
      (m : SyncMap V) (k j : GoString)
      → load (delete m k) j ≡ (if str_eq k j then none else load m j)
  unfolding load delete
  load-delete [] k j = ground arith
  load-delete ((i, w) ∷ m) k j =
      ground (arith, str_eq_iff k j, str_eq_iff i k, str_eq_iff i j, load-delete m k j)

  -- A key that is not loaded does not stand in the map.
  pub load-none : (m : SyncMap V) (k : GoString) → load m k ≡ none → ¬ Elem k (keys m)
  unfolding load
  load-none [] k h e = e
  load-none ((j, v) ∷ m) k h (inl e) = ground (arith, str_eq_iff j k)
  load-none ((j, v) ∷ m) k h (inr e) = ground (arith, load-none m k)

  pub load-some : (m : SyncMap V) (k : GoString) {v : V} → load m k ≡ some v → Elem k (keys m)
  unfolding load
  load-some [] k h = cc
  load-some ((j, w) ∷ m) k h = elim (Bool-cases (str_eq j k)) [
    | inl e ↦ inl ((str_eq_iff j k).0 e)
    | inr e ↦ inr (load-some m k (rw e at h))
  ]

  Elem-store :
      (m : SyncMap V) (k j : GoString) (v : V)
      → Elem j (keys (store m k v))
      → j ≢ k
      → Elem j (keys m)
  unfolding store
  Elem-store [] k j v (inl e) n = absurd (n (cc))
  Elem-store [] k j v (inr e) n = e
  Elem-store ((i, w) ∷ m) k j v h n = elim (Bool-cases (str_eq i k)) [
    | inl e ↦ rw e at h
    | inr e ↦ elim (rw e at h) [ inl q ↦ inl q | inr q ↦ inr (Elem-store m k j v q n) ]
  ]

  -- A map holds one entry for each key.
  pub store-Distinct :
      (m : SyncMap V) (k : GoString) (v : V) → Distinct (keys m) → Distinct (keys (store m k v))
  unfolding store
  store-Distinct [] k v d = (λ e. e, tt)
  store-Distinct ((j, w) ∷ m) k v (n, d) = elim (Bool-cases (str_eq j k)) [
    | inl e ↦ rw e (n, d)
    | inr e ↦ rw e (
      λ h. n (Elem-store m k j v h (λ q. ground (arith, str_eq_iff j k))),
      store-Distinct m k v d,
    )
  ]

  Elem-delete : (m : SyncMap V) (k j : GoString) → Elem j (keys (delete m k)) → Elem j (keys m)
  unfolding delete
  Elem-delete [] k j h = h
  Elem-delete ((i, w) ∷ m) k j h = elim (Bool-cases (str_eq i k)) [
    | inl e ↦ inr (Elem-delete m k j (rw e at h))
    | inr e ↦ elim (rw e at h) [ inl q ↦ inl q | inr q ↦ inr (Elem-delete m k j q) ]
  ]

  pub delete-Distinct :
      (m : SyncMap V) (k : GoString) → Distinct (keys m) → Distinct (keys (delete m k))
  unfolding delete
  delete-Distinct [] k d = d
  delete-Distinct ((j, w) ∷ m) k (n, d) = elim (Bool-cases (str_eq j k)) [
    | inl e ↦ rw e (delete-Distinct m k d)
    | inr e ↦ rw e (λ h. n (Elem-delete m k j h), delete-Distinct m k d)
  ]

  -- A new key makes the map longer by one, and a known one keeps its length.
  pub length-store :
      (m : SyncMap V) (k : GoString) (v : V)
      → length (store m k v) ≡ (elim (load m k) [ none ↦ length m + 1 | some _ ↦ length m ])
  unfolding load store
  length-store [] k v = omega arith
  length-store ((j, w) ∷ m) k v = ground (arith, length-store m k v)

  -- `Range` over the entries with a call of `Delete` for each.
  abbrev pub delete_each : SyncMap V → SyncMap V → SyncMap V
  delete_each [] m = m
  delete_each ((k, e) ∷ es) m = delete_each es (delete m k)

  load-delete_each-none :
      (es m : SyncMap V) (k : GoString) → load m k ≡ none → load (delete_each es m) k ≡ none
  load-delete_each-none [] m k h = h
  load-delete_each-none ((j, e) ∷ es) m k h =
      load-delete_each-none es (delete m j) k (ground (arith, load-delete m j k))

  load-delete_each :
      (es m : SyncMap V) (k : GoString) → Elem k (keys es) → load (delete_each es m) k ≡ none
  load-delete_each [] m k h = absurd h
  load-delete_each ((j, e) ∷ es) m k (inl h) =
      load-delete_each-none es (delete m j) k (ground (arith, load-delete m j k, str_eq_iff j k))
  load-delete_each ((j, e) ∷ es) m k (inr h) = load-delete_each es (delete m j) k h

  pub delete_each_self : (m : SyncMap V) (k : GoString) → load (delete_each m m) k ≡ none
  delete_each_self m k = elim (Option-cases (load m k)) [
    | inl e ↦ load-delete_each-none m m k e
    | inr (v, e) ↦ load-delete_each m m k (load-some m k e)
  ]

pub ruleset map_laws = (load-store, load-delete)
