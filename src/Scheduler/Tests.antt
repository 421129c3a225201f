-- ===== src/Scheduler/Tests.antt =====
-- The scheduler's theorems at a concrete world, and runs of its operations.
use gobol.Base.{
  ◌≡◌, refl, ℕ, suc, ◌+◌, ◌<◌, Bool, true, false, Option, none, some, List, [], ◌∷◌, arith, ◌↔◌,
  Elem, Distinct, length, replicate, ◌==◌, if◌then◌else◌,
}
use gobol.Base.Text.{GoString, codes, str_eq}
use gobol.Base.Int.{pos}
use gobol.Base.SyncMap.{load, store}
use gobol.Scheduler.{
  Task, World, already_is_running, new_task, add_task, start, stop_task, start_task, get_num_tasks,
  remove_all_tasks,
}
use gobol.Scheduler.Invariant.{IsConsistent, Reach, here, next, create, add, Reach-IsConsistent}
use gobol.Scheduler.Refinement.{halt as halt_call, perform, spec, view, perform-spec}
use gobol.Scheduler.Loops.{count, wake_all, stop_task-silences, restart_doubles}

abbrev no_task : Task
no_task = record { id = []; duration = pos 0; job = 0; running = false }

abbrev empty_world : World
empty_world = record { next = 0; heap = λ _. no_task; loops = []; executed = []; task_map = [] }

abbrev created : World
created = (new_task (codes "t") (pos 5) 7 empty_world).1

abbrev added : World
added = (add_task 0 true created).0

empty_world-IsConsistent : IsConsistent empty_world
unfolding load
empty_world-IsConsistent = record {
  keyed = λ k a h. cc;
  created = λ k a h. cc;
  unique = tt;
  looping = λ a h. cc;
  spawned = λ a h. absurd h;
}

added-Reach : Reach empty_world added
unfolding new_task
added-Reach = next (next here (create (codes "t") (pos 5) 7)) (add 0 true (omega arith))

Reach-IsConsistent_example : IsConsistent added
Reach-IsConsistent_example = Reach-IsConsistent empty_world-IsConsistent added-Reach

perform-spec_example :
    ((k : GoString)
      → view (perform (halt_call (codes "t")) added).0 k
        ≡ (spec added.heap (halt_call (codes "t")) (view added)).0 k)
    × ((perform (halt_call (codes "t")) added).1
        ≡ (spec added.heap (halt_call (codes "t")) (view added)).1)
perform-spec_example = perform-spec (halt_call (codes "t")) added Reach-IsConsistent_example

added_load : load added.task_map (codes "t") ≡ some 0
unfolding add_task new_task load store str_eq
added_load = refl

added_running : (added.heap 0).running ≡ true
unfolding add_task new_task load store str_eq
added_running = refl

stop_task-silences_example :
    let w' = (stop_task (codes "t") added).0 in
    (count 0 (wake_all (0 ∷ 0 ∷ []) w').executed ≡ count 0 w'.executed)
    × (count 0 (wake_all (replicate (count 0 w'.loops) 0) w').loops ≡ 0)
stop_task-silences_example = stop_task-silences (codes "t") 0 added (0 ∷ 0 ∷ []) added_load

restart_doubles_example :
    let w' = (start_task (codes "t") (stop_task (codes "t") added).0).0 in
    (count 0 w'.loops ≡ suc (count 0 added.loops))
    × (count 0 (wake_all (replicate (count 0 w'.loops) 0) w').executed
        ≡ suc (count 0 added.loops) + count 0 added.executed)
restart_doubles_example = restart_doubles (codes "t") 0 added added_load added_running

-- AddTask with auto start of a task that already runs reports an error, and has stored the task.
add_running :
    let r = add_task 0 true (start 0 created) in
    (r.1 ≡ some (already_is_running (codes "t"))) × (load r.0.task_map (codes "t") ≡ some 0)
unfolding add_task new_task start load store str_eq
add_running = (refl, refl)

removed_all : get_num_tasks (remove_all_tasks added) ≡ 0
unfolding get_num_tasks remove_all_tasks add_task new_task load store str_eq
    gobol.Base.SyncMap.delete
removed_all = refl
