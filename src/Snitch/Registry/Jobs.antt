-- ===== src/Snitch/Registry/Jobs.antt =====
-- Every point has its cron job, and no other.
use gobol.Base.{
  ap, sym, ◌∙◌, ◌≡◌, refl, inl, inr, Bool, true, false, not, List, [], ◌∷◌, ◌++◌, map, none, some,
  if◌then◌else◌, arith, Bool-cases, Option-cases,
}
use gobol.Base.Text.{GoString, str_eq}
use gobol.Base.Int.{ℤ}
use gobol.Base.Float.{Float64}
use gobol.Base.SyncMap.{SyncMap, load, store, keys}
use gobol.Base.Outcome.{ok, err, panicked}
use gobol.Snitch.Point.{CustomPoint, Arithmetic}
use gobol.Snitch.Registry.{
  Stats, Outcome, get_point, insert_point, new_point, add_point, update_point, value_add, increment,
  set_value, run_job, key_from_metric_id, is_aggregation,
}

-- The keys of the jobs, in the order in which they were added, are those of the points.
abbrev pub IsScheduled : Stats → Type 0
IsScheduled st = map (λ j. j.1) st.jobs ≡ keys st.points

pub keys-store_new :
    (m : SyncMap CustomPoint) (k : GoString) (p : CustomPoint)
    → load m k ≡ none
    → keys (store m k p) ≡ keys m ++ k ∷ []
unfolding load store
keys-store_new [] k p h = refl
keys-store_new ((j, q) ∷ m) k p h = ground (arith, keys-store_new m k p)

pub keys-store_known :
    (m : SyncMap CustomPoint) (k : GoString) (p : CustomPoint) {q : CustomPoint}
    → load m k ≡ some q
    → keys (store m k p) ≡ keys m
unfolding load store
keys-store_known [] k p h = cc
keys-store_known ((j, r) ∷ m) k p h = elim (Bool-cases (str_eq j k)) [
  | inl e ↦ rw e
  | inr e ↦ rw e (ap (λ l. j ∷ l) (keys-store_known m k p (rw e at h)))
]

pub map-append :
    {A B : Type 0} (f : A → B) (xs ys : List A) → map f (xs ++ ys) ≡ map f xs ++ map f ys
map-append f [] ys = refl
map-append f (x ∷ xs) ys = ap (λ l. f x ∷ l) (map-append f xs ys)

add_point-IsScheduled :
    (key : GoString) (p : CustomPoint) (st : Stats)
    → load st.points key ≡ none
    → IsScheduled st
    → IsScheduled (add_point key p st)
unfolding add_point
add_point-IsScheduled key p st n s =
    map-append (λ j. j.1) st.jobs ((p.interval, key) ∷ [])
    ∙ ap (λ l. l ++ key ∷ []) s
    ∙ sym (keys-store_new st.points key p n)

if-IsScheduled :
    {A : Type 0} (b : Bool) (x y : Stats × A)
    → IsScheduled x.0
    → IsScheduled y.0
    → IsScheduled (if b then x else y).0
if-IsScheduled true x y p q = p
if-IsScheduled false x y p q = q

get_point-IsScheduled :
    (parses : GoString → Bool) (metric : GoString) (tags : List (GoString × GoString))
    (aggregation interval : GoString) (keep nullable : Bool) (st : Stats)
    → IsScheduled st
    → IsScheduled (get_point parses metric tags aggregation interval keep nullable st).0
unfolding get_point insert_point
get_point-IsScheduled parses metric tags aggregation interval keep nullable st s =
    elim (Option-cases (load st.points (key_from_metric_id metric tags))) [
      | inl e ↦
          rw (e, get_point, insert_point)
            (if-IsScheduled (not (parses interval)) _ _ s (
              if-IsScheduled (not (is_aggregation aggregation)) _ _ s (
                add_point-IsScheduled (key_from_metric_id metric tags)
                  (new_point st metric tags aggregation interval keep nullable) st e s)))
      | inr (p, e) ↦ rw (e, get_point) s
    ]

update_point-IsScheduled :
    (f : CustomPoint → CustomPoint) (r : Stats × Outcome GoString)
    → IsScheduled r.0
    → IsScheduled (update_point f r).0
unfolding update_point
update_point-IsScheduled f (st, ok key) s = elim (Option-cases (load st.points key)) [
  | inl e ↦ rw (e, update_point) s
  | inr (p, e) ↦ rw (e, update_point) (s ∙ sym (keys-store_known st.points key (f p) e))
]
update_point-IsScheduled f (st, err e) s = s
update_point-IsScheduled f (st, panicked) s = s

run_job-IsScheduled :
    (ops : Arithmetic) (now : ℤ) (key : GoString) (st : Stats)
    → IsScheduled st
    → IsScheduled (run_job ops now key st).1
unfolding run_job
run_job-IsScheduled ops now key st s = elim (Option-cases (load st.points key)) [
  | inl e ↦ rw (e, run_job) s
  | inr (p, e) ↦ rw (e, run_job) (s ∙ sym (keys-store_known st.points key _ e))
]

-- The calls of a program that collects statistics, and the jobs of cron.
pub data Call : Type 0 where
  add_value :
      GoString → List (GoString × GoString) → GoString → GoString → Bool → Bool → Float64 → Call
  increase : GoString → List (GoString × GoString) → GoString → Bool → Bool → Call
  put_value : GoString → List (GoString × GoString) → GoString → Bool → Bool → Float64 → Call
  job : ℤ → GoString → Call

module _ (parses : GoString → Bool) (ops : Arithmetic) where
  abbrev pub perform : Call → Stats → Stats
  perform (add_value metric tags aggregation interval keep nullable v) st =
      (value_add parses ops metric tags aggregation interval keep nullable v st).0
  perform (increase metric tags interval keep nullable) st =
      (increment parses ops metric tags interval keep nullable st).0
  perform (put_value metric tags interval keep nullable v) st =
      (set_value parses metric tags interval keep nullable v st).0
  perform (job now key) st = (run_job ops now key st).1

  abbrev pub perform_all : List Call → Stats → Stats
  perform_all [] st = st
  perform_all (c ∷ cs) st = perform_all cs (perform c st)

  perform-IsScheduled : (c : Call) (st : Stats) → IsScheduled st → IsScheduled (perform c st)
  unfolding value_add increment set_value
  perform-IsScheduled (add_value metric tags aggregation interval keep nullable v) st s =
      update_point-IsScheduled _ _
        (get_point-IsScheduled parses metric tags aggregation interval keep nullable st s)
  perform-IsScheduled (increase metric tags interval keep nullable) st s =
      update_point-IsScheduled _ _
        (get_point-IsScheduled parses metric tags _ interval keep nullable st s)
  perform-IsScheduled (put_value metric tags interval keep nullable v) st s =
      update_point-IsScheduled _ _
        (get_point-IsScheduled parses metric tags _ interval keep nullable st s)
  perform-IsScheduled (job now key) st s = run_job-IsScheduled ops now key st s

  -- From a registry in which every point has one cron job, and every job a point, whatever calls are made
  -- and whatever jobs run, one after the other, the same holds. Calls that overlap are left out.
  pub perform_all-IsScheduled :
      (cs : List Call) (st : Stats) → IsScheduled st → IsScheduled (perform_all cs st)
  perform_all-IsScheduled [] st s = s
  perform_all-IsScheduled (c ∷ cs) st s =
      perform_all-IsScheduled cs (perform c st) (perform-IsScheduled c st s)
