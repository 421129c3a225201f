-- ===== src/Solar/Cache.antt =====
-- The cache of interfaces, each of which is kept for its collection.
pub mod Operations
use mathlib.Core.Path.{subst}
use gobol.Base.{
  ◌==◌, ◌≡◌, ap, sym, ◌∙◌, refl, inl, inr, ℕ, Bool, true, false, Option, none, some, List, [], ◌∷◌,
  ◌++◌, All, if◌then◌else◌, arith, Bool-cases, Option-cases,
}
use gobol.Base.Text.{GoString, codes, str_eq, str_eq_iff, str_eq_refl}
use gobol.Base.Int.{ℤ}
use gobol.Base.SyncMap.{SyncMap, load, store, load-store}
use gobol.Base.Outcome.{ok, err, panicked}
use gobol.Solar.{
  Error, Outcome, Values, Field, Answer, Library, SolrService, Call, and_then, call, recovered,
  remember, get_solr_interface, commit_values, add_all, add_document, add_documents, succeeded,
  delete_all, delete_document_by_query, delete_document_by_id,
}
use gobol.Solar.Search.{recovered_result, simple_query, filtered_query, facets}
use gobol.Solar.Admin.{
  get_schema, add_new_field, accepted, acted, create_collection, delete_collection,
  list_collections,
}

some-injective : {A : Type 0} {a b : A} → some a ≡ some b → a ≡ b
some-injective h = cc

module _ {V : Type 0} (P : GoString × V → Type 0) where
  store-All : (m : SyncMap V) (k : GoString) (v : V) → P (k, v) → All P m → All P (store m k v)
  unfolding store
  store-All [] k v p a = (p, tt)
  store-All ((j, w) ∷ m) k v p (q, a) = elim (Bool-cases (str_eq j k)) [
    | inl e ↦ rw e (subst (λ i. P (i, v)) (sym ((str_eq_iff j k).0 e)) p, a)
    | inr e ↦ rw e (q, store-All m k v p a)
  ]

  load-All : (m : SyncMap V) (k : GoString) {v : V} → load m k ≡ some v → All P m → P (k, v)
  unfolding load
  load-All [] k h a = absurd cc
  load-All ((j, w) ∷ m) k {v} h (q, a) = elim (Bool-cases (str_eq j k)) [
    | inl e ↦
        let same : w ≡ v = some-injective (ap (λ b. if b then some w else load m k) (sym e) ∙ h) in
        subst (λ x. P (x, v)) ((str_eq_iff j k).0 e) (subst (λ x. P (j, x)) same q)
    | inr e ↦ load-All m k (rw e at h) a
  ]

-- An entry that the cache is to keep, if any.
abbrev pub Keeps : {V : Type 0} → Option (GoString × V) → SyncMap V → Type 0
Keeps none m = Unit
Keeps (some (k, v)) m = load m k ≡ some v

store-Keeps :
    {V : Type 0} (o : Option (GoString × V)) (m : SyncMap V) (k : GoString) (v : V)
    → load m k ≡ none
    → Keeps o m
    → Keeps o (store m k v)
store-Keeps none m k v n h = tt
store-Keeps (some (j, w)) m k v n h = elim (Bool-cases (str_eq k j)) [
  | inl e ↦ absurd cc (sym n ∙ ap (load m) ((str_eq_iff k j).0 e) ∙ h)
  | inr e ↦ load-store m k j v ∙ ap (λ b. if b then some v else load m j) e ∙ h
]

module _ (l : Library) (owner : l.Interface → GoString) where
  -- What the code relies on: NewSolrInterface gives an interface of the collection that it is asked for.
  abbrev pub MakesOwned : Type 0
  MakesOwned =
      (url collection : GoString) (v w : l.Server) (i : l.Interface)
      → l.new_solr_interface url collection v ≡ (w, ok i)
      → owner i ≡ collection

module _ (l : Library) (owner : l.Interface → GoString)
    (kept : Option (GoString × l.Interface)) where
  -- Each interface is under its own collection, and the entry that is to be kept is there.
  abbrev pub IsOwned : SolrService l → Type 0
  IsOwned s = All (λ e. owner e.1 ≡ e.0) s.cache × Keeps kept s.cache

  call-IsOwned :
      {A : Type 0} (f : l.Server → l.Server × Outcome A) (s : SolrService l)
      → IsOwned s
      → IsOwned (call l f s).0
  unfolding call
  call-IsOwned f s h = h

  and_then-IsOwned :
      {A B : Type 0} (r : Call l A) (k : A → SolrService l → Call l B)
      → IsOwned r.0
      → ((a : A) (s : SolrService l) → IsOwned s → IsOwned (k a s).0)
      → IsOwned (and_then l r k).0
  unfolding and_then
  and_then-IsOwned (s, ok a) k h f = f a s h
  and_then-IsOwned (s, err e) k h f = h
  and_then-IsOwned (s, panicked) k h f = h

  if-IsOwned :
      {A : Type 0} (b : Bool) (x y : Call l A)
      → IsOwned x.0
      → IsOwned y.0
      → IsOwned (if b then x else y).0
  if-IsOwned true x y h k = h
  if-IsOwned false x y h k = k

  succeeded-IsOwned : (b : Bool) (s : SolrService l) → IsOwned s → IsOwned (succeeded l b s).0
  unfolding succeeded
  succeeded-IsOwned true s h = h
  succeeded-IsOwned false s h = h

  recovered-IsOwned : (r : Call l (Unit {0})) → IsOwned r.0 → IsOwned (recovered l r).0
  unfolding recovered
  recovered-IsOwned (s, ok a) h = h
  recovered-IsOwned (s, err e) h = h
  recovered-IsOwned (s, panicked) h = h

  recovered_result-IsOwned : (r : Call l l.Result) → IsOwned r.0 → IsOwned (recovered_result l r).0
  unfolding recovered_result
  recovered_result-IsOwned (s, ok a) h = h
  recovered_result-IsOwned (s, err e) h = h
  recovered_result-IsOwned (s, panicked) h = h

  abbrev given : {A : Type 0} → A → Outcome A
  given a = ok a

  ok-injective : {A : Type 0} {a b : A} → given a ≡ given b → a ≡ b
  ok-injective h = cc

  -- What getSolrInterface leaves: if it gives an interface, that of the collection, which is in the cache.
  abbrev Gives : GoString → Call l l.Interface → Type 0
  Gives collection r =
      IsOwned r.0
      × ((i : l.Interface)
          → r.1 ≡ ok i
          → (owner i ≡ collection) × (load r.0.cache collection ≡ some i))

  remember-Gives :
      (collection : GoString) (i : l.Interface) (s : SolrService l)
      → owner i ≡ collection
      → load s.cache collection ≡ none
      → IsOwned s
      → Gives collection (remember l collection i s)
  unfolding remember
  remember-Gives collection i s o n h = (
    (
      store-All (λ e. owner e.1 ≡ e.0) s.cache collection i o h.0,
      store-Keeps kept s.cache collection i n h.1,
    ),
    λ j e. (
      ap owner (sym (ok-injective e)) ∙ o,
      load-store s.cache collection collection i
          ∙ ap (λ b. if b then some i else load s.cache collection) (str_eq_refl collection)
          ∙ ap some (ok-injective e),
    ),
  )

  opened-Gives :
      (collection : GoString) (s : SolrService l) (r : Call l l.Interface)
      → ((i : l.Interface) → r.1 ≡ ok i → owner i ≡ collection)
      → load r.0.cache collection ≡ none
      → IsOwned r.0
      → Gives collection (and_then l r (remember l collection))
  unfolding and_then
  opened-Gives collection s (t, ok i) o n h = remember-Gives collection i t (o i refl) n h
  opened-Gives collection s (t, err e) o n h = (h, λ j e. absurd cc)
  opened-Gives collection s (t, panicked) o n h = (h, λ j e. absurd cc)

  get_solr_interface-Gives :
      (law : MakesOwned l owner) (collection : GoString) (s : SolrService l)
      → IsOwned s
      → Gives collection (get_solr_interface l collection s)
  unfolding get_solr_interface call
  get_solr_interface-Gives law collection s h = elim (Option-cases (load s.cache collection)) [
    | inl e ↦
        rw (e, get_solr_interface)
          (opened-Gives collection s (call l (l.new_solr_interface s.url collection) s)
            (λ i q.
              law s.url collection s.server (l.new_solr_interface s.url collection s.server).0 i
                (ap (λ o. ((l.new_solr_interface s.url collection s.server).0, o)) q))
            e h)
    | inr (i, e) ↦
        rw (e, get_solr_interface)
          (
            h,
            λ j q. (
              ap owner (sym (ok-injective q))
                  ∙ load-All (λ x. owner x.1 ≡ x.0) s.cache collection e h.0,
              e ∙ ap some (ok-injective q),
            ),
          )
  ]

  -- A call through the interface of a collection.
  through-IsOwned :
      {A : Type 0} (law : MakesOwned l owner) (collection : GoString)
      (k : l.Interface → SolrService l → Call l A) (s : SolrService l)
      → ((i : l.Interface) (t : SolrService l) → IsOwned t → IsOwned (k i t).0)
      → IsOwned s
      → IsOwned (and_then l (get_solr_interface l collection s) k).0
  through-IsOwned law collection k s f h =
      and_then-IsOwned (get_solr_interface l collection s) k
        (get_solr_interface-Gives law collection s h).0 f

  acted-IsOwned :
      (problem : Error) (name : GoString) (params : Values) (s : SolrService l)
      → IsOwned s
      → IsOwned (acted l problem name params s).0
  unfolding acted accepted call
  acted-IsOwned problem name params s h =
      and_then-IsOwned (call l (l.action name params) s) (accepted l problem) h
        (λ r t k. if-IsOwned (r.status == 0) (t, ok r) (t, err problem) k k)
