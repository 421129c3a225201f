-- ===== src/Scheduler/Listing.antt =====
-- The manager's read operations: GetNumTasks, GetTasksIDs, GetTasks, GetTask, Exists, IsRunning.
use gobol.Base.{
  sym, ◌≡◌, ◌↔◌, ℕ, ◌+◌, refl, true, List, [], ◌∷◌, ◌++◌, append-nil, append_assoc, arith, Elem,
  length, Distinct, Option-cases, inl, inr,
}
use gobol.Base.Text.{GoString}
use gobol.Base.SyncMap.{SyncMap, load, keys, values, load-none, load-some}
use gobol.Scheduler.{
  Addr, World, exists, get_num_tasks, get_tasks_ids, count_entries, collect_ids, collect_tasks,
}
use gobol.Scheduler.Invariant.{IsConsistent}

count_entries-length : (m : SyncMap Addr) (n : ℕ) → count_entries m n ≡ n + length m
unfolding count_entries
count_entries-length [] n = omega arith
count_entries-length (x ∷ m) n = omega (arith, count_entries-length m (n + 1))

collect_ids-keys : (m : SyncMap Addr) (l : List GoString) → collect_ids m l ≡ l ++ keys m
unfolding collect_ids
collect_ids-keys [] l = sym (append-nil l)
collect_ids-keys ((k, a) ∷ m) l = simp (collect_ids-keys m, append_assoc)

collect_tasks-values : (m : SyncMap Addr) (l : List Addr) → collect_tasks m l ≡ l ++ values m
unfolding collect_tasks
collect_tasks-values [] l = sym (append-nil l)
collect_tasks-values ((k, a) ∷ m) l = simp (collect_tasks-values m, append_assoc)

length-keys : (m : SyncMap Addr) → length m ≡ length (keys m)
length-keys [] = refl
length-keys (x ∷ m) = omega (arith, length-keys m)

get_tasks_ids-keys : (w : World) → get_tasks_ids w ≡ keys w.task_map
unfolding get_tasks_ids
get_tasks_ids-keys w = collect_ids-keys w.task_map []

exists-Elem : (w : World) (id : GoString) → (exists id w ≡ true) ↔ Elem id (keys w.task_map)
unfolding exists
exists-Elem w id = elim (Option-cases (load w.task_map id)) [
  | inl e ↦ (λ h. cc, λ h. absurd (load-none w.task_map id e h))
  | inr (a, e) ↦ (λ h. load-some w.task_map id e, λ h. ground arith)
]

-- In a consistent world the listed ids are distinct, GetNumTasks is their number, and Exists answers
-- true for exactly the listed ids.
pub get_tasks_ids_complete :
    (w : World)
    → IsConsistent w
    → Distinct (get_tasks_ids w)
      × (get_num_tasks w ≡ length (get_tasks_ids w))
      × ((id : GoString) → (exists id w ≡ true) ↔ Elem id (get_tasks_ids w))
unfolding get_num_tasks
get_tasks_ids_complete w c = rw (get_tasks_ids-keys w) (
  c.unique,
  omega (arith, count_entries-length w.task_map 0, length-keys w.task_map),
  exists-Elem w,
)
