-- ===== src/Scheduler/Refinement.antt =====
-- What the manager promises: a table from ids to whether the task runs. The operations implement it.
use gobol.Base.{
  ◌≡◌, refl, inl, inr, Bool, true, false, Option, none, some, List, [], ◌∷◌, arith, if◌then◌else◌,
  Elem, Option-cases,
}
use gobol.Base.Text.{GoString, str_eq, str_eq_iff}
use gobol.Base.SyncMap.{SyncMap, load, store, delete, keys, load-store, load-delete, load-some}
use gobol.Scheduler.{
  Addr, Task, World, Error, already_exists, already_is_running, was_not_running, is_already_running,
  does_not_exist_stop, does_not_exist_start, set_running, stop, add_task, remove_task, remove_each,
  remove_all_tasks, stop_task, start_task,
}
use gobol.Scheduler.Invariant.{IsConsistent}

-- The calls that change the manager, and their answers.
pub data Call : Type 0 where
  add : Addr → Bool → Call
  remove halt run : GoString → Call
  remove_all : Call

pub data Reply : Type 0 where
  done : Option Error → Reply
  removed : Bool → Reply

abbrev pub View : Type 0
View = GoString → Option Bool

-- What a client sees of the world.
abbrev pub view : World → View
view w k = elim (load w.task_map k) [ none ↦ none | some a ↦ some (w.heap a).running ]

abbrev pub answer : World × Option Error → World × Reply
answer (w, e) = (w, done e)

abbrev pub perform : Call → World → World × Reply
perform (add a auto) w = answer (add_task a auto w)
perform (remove id) w = let (w', b) = remove_task id w in (w', removed b)
perform (halt id) w = answer (stop_task id w)
perform (run id) w = answer (start_task id w)
perform remove_all w = (remove_all_tasks w, done none)

abbrev pub set_view : View → GoString → Option Bool → View
set_view v k b j = if str_eq k j then b else v j

abbrev spec_add : Task → Bool → View → View × Reply
spec_add t auto v = elim (v t.id) [
  | some _ ↦ (v, done (some (already_exists t.id)))
  | none ↦
      if auto
      then (if t.running
          then (set_view v t.id (some true), done (some (already_is_running t.id)))
          else (set_view v t.id (some true), done none))
      else (set_view v t.id (some t.running), done none)
]

abbrev spec_halt : GoString → View → View × Reply
spec_halt id v = elim (v id) [
  | none ↦ (v, done (some (does_not_exist_stop id)))
  | some true ↦ (set_view v id (some false), done none)
  | some false ↦ (v, done (some (was_not_running id)))
]

abbrev spec_run : GoString → View → View × Reply
spec_run id v = elim (v id) [
  | none ↦ (v, done (some (does_not_exist_start id)))
  | some true ↦ (v, done (some (is_already_running id)))
  | some false ↦ (set_view v id (some true), done none)
]

-- The promise; the heap tells the id and the state of a task that is added.
abbrev pub spec : (Addr → Task) → Call → View → View × Reply
spec heap (add a auto) v = spec_add (heap a) auto v
spec heap (remove id) v = elim (v id) [
  | none ↦ (v, removed false)
  | some _ ↦ (set_view v id none, removed true)
]
spec heap (halt id) v = spec_halt id v
spec heap (run id) v = spec_run id v
spec heap remove_all v = (λ _. none, done none)

-- Writing a registered task's flag changes its own entry of the view alone.
view-set_running :
    (w : World) (id k : GoString) (a : Addr) (b : Bool)
    → IsConsistent w
    → load w.task_map id ≡ some a
    → view (set_running w a b) k ≡ set_view (view w) id (some b) k
view-set_running w id k a b c l = elim (Option-cases (load w.task_map k)) [
  | inl e ↦ ground (arith, str_eq_iff id k)
  | inr (d, e) ↦ ground (arith, str_eq_iff id k, c.keyed id a, c.keyed k d)
]

halt-view :
    (w : World) (id : GoString)
    → IsConsistent w
    → ((k : GoString) → view (stop_task id w).0 k ≡ (spec_halt id (view w)).0 k)
      × (done (stop_task id w).1 ≡ (spec_halt id (view w)).1)
unfolding stop_task
halt-view w id c = elim (Option-cases (load w.task_map id)) [
  | inl e ↦ (λ k. ground arith, ground arith)
  | inr (a, e) ↦ (λ k. ground (arith, view-set_running w id k a false c e), ground arith)
]

run-view :
    (w : World) (id : GoString)
    → IsConsistent w
    → ((k : GoString) → view (start_task id w).0 k ≡ (spec_run id (view w)).0 k)
      × (done (start_task id w).1 ≡ (spec_run id (view w)).1)
unfolding start_task
run-view w id c = elim (Option-cases (load w.task_map id)) [
  | inl e ↦ (λ k. ground arith, ground arith)
  | inr (a, e) ↦ (λ k. ground (arith, view-set_running w id k a true c e), ground arith)
]

-- A registered task that leaves the map.
view-remove :
    (w : World) (id k : GoString) (a : Addr)
    → IsConsistent w
    → load w.task_map id ≡ some a
    → view (record (stop a w) { task_map = delete w.task_map id }) k ≡ set_view (view w) id none k
unfolding stop
view-remove w id k a c l = elim (Option-cases (load w.task_map k)) [
  | inl e ↦ ground (arith, load-delete w.task_map id k)
  | inr (d, e) ↦
      ground (arith, load-delete w.task_map id k, str_eq_iff id k, c.keyed id a, c.keyed k d)
]

remove-view :
    (w : World) (id : GoString)
    → IsConsistent w
    → ((k : GoString) → view (remove_task id w).0 k ≡ (spec w.heap (remove id) (view w)).0 k)
      × (removed (remove_task id w).1 ≡ (spec w.heap (remove id) (view w)).1)
unfolding remove_task
remove-view w id c = elim (Option-cases (load w.task_map id)) [
  | inl e ↦ (λ k. ground arith, ground arith)
  | inr (a, e) ↦ (λ k. ground (arith, view-remove w id k a c e), ground arith)
]

-- A task that enters the map, as it is or started.
view-store :
    (w : World) (a : Addr) (k : GoString) (b : Bool) (l : List Addr)
    → IsConsistent w
    → load w.task_map (w.heap a).id ≡ none
    → view (set_running (record w { loops = l; task_map = store w.task_map (w.heap a).id a }) a b) k
      ≡ set_view (view w) (w.heap a).id (some b) k
view-store w a k b l c n = elim (Option-cases (load w.task_map k)) [
  | inl e ↦ ground (arith, load-store w.task_map (w.heap a).id k a)
  | inr (d, e) ↦
      ground
        (arith, load-store w.task_map (w.heap a).id k a, str_eq_iff (w.heap a).id k, c.keyed k d)
]

view-store_same :
    (w : World) (a : Addr) (k : GoString)
    → view (record w { task_map = store w.task_map (w.heap a).id a }) k
      ≡ set_view (view w) (w.heap a).id (some (w.heap a).running) k
view-store_same w a k = ground (arith, load-store w.task_map (w.heap a).id k a)

add-view :
    (w : World) (a : Addr) (auto : Bool)
    → IsConsistent w
    → ((k : GoString) → view (add_task a auto w).0 k ≡ (spec_add (w.heap a) auto (view w)).0 k)
      × (done (add_task a auto w).1 ≡ (spec_add (w.heap a) auto (view w)).1)
unfolding add_task
add-view w a auto c = elim (Option-cases (load w.task_map (w.heap a).id)) [
  | inl e ↦ (
    λ k. ground (arith, view-store_same w a k, view-store w a k true (a ∷ w.loops) c e),
    ground arith,
  )
  | inr (b, e) ↦ (λ k. ground arith, ground arith)
]

remove_each-none :
    (es : SyncMap Addr) (w : World) (k : GoString)
    → load w.task_map k ≡ none
    → load (remove_each es w).task_map k ≡ none
unfolding remove_each
remove_each-none [] w k h = h
remove_each-none ((j, a) ∷ es) w k h =
    remove_each-none es _ k (ground (arith, load-delete w.task_map j k))

remove_each-Elem :
    (es : SyncMap Addr) (w : World) (k : GoString)
    → Elem k (keys es)
    → load (remove_each es w).task_map k ≡ none
unfolding remove_each
remove_each-Elem ((j, a) ∷ es) w k (inl e) =
    remove_each-none es _ k (ground (arith, load-delete w.task_map j k, str_eq_iff j k))
remove_each-Elem ((j, a) ∷ es) w k (inr e) = remove_each-Elem es _ k e
remove_each-Elem [] w k h = absurd h

remove_all-view : (w : World) (k : GoString) → view (remove_all_tasks w) k ≡ none
unfolding remove_all_tasks
remove_all-view w k = elim (Option-cases (load w.task_map k)) [
  | inl e ↦ ground (arith, remove_each-none w.task_map w k)
  | inr (a, e) ↦ ground (arith, remove_each-Elem w.task_map w k (load-some w.task_map k e))
]

-- Every call that changes the manager of a consistent world, with its answer, is the promised one:
-- the view after it is the promised view, at each id.
pub perform-spec :
    (c : Call) (w : World)
    → IsConsistent w
    → ((k : GoString) → view (perform c w).0 k ≡ (spec w.heap c (view w)).0 k)
      × ((perform c w).1 ≡ (spec w.heap c (view w)).1)
perform-spec (add a auto) w c = add-view w a auto c
perform-spec (remove id) w c = remove-view w id c
perform-spec (halt id) w c = halt-view w id c
perform-spec (run id) w c = run-view w id c
perform-spec remove_all w c = (remove_all-view w, refl)
