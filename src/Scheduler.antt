-- ===== src/Scheduler.antt =====
-- scheduler/task.go and scheduler/scheduler.go: tasks that run repeatedly, and their manager.
-- Tasks are shared by pointer, so they live on a heap; a goroutine of `Start` is an entry of `loops`.
pub mod Invariant
pub mod Refinement
pub mod Loops
pub mod Listing
mod Tests
use gobol.Base.{
  ℕ, zero, suc, ◌+◌, Bool, true, false, Option, none, some, List, [], ◌∷◌, ◌++◌, ◌==◌,
  if◌then◌else◌, not,
}
use gobol.Base.Text.{GoString}
use gobol.Base.Int.{ℤ}
use gobol.Base.SyncMap.{SyncMap, load, store, delete}

-- A pointer to a task.
abbrev pub Addr : Type 0
Addr = ℕ

-- The job is the value whose `Execute` the loop calls.
pub record Task : Type 0 where
  pub id : GoString
  pub duration : ℤ
  pub job : ℕ
  pub running : Bool

-- The program's state: the tasks, the goroutines that wait for their next round, the jobs that have
-- been executed so far, and the manager's map.
pub record World : Type 0 where
  pub next : Addr
  pub heap : Addr → Task
  pub loops : List Addr
  pub executed : List Addr
  pub task_map : SyncMap Addr

pub data Error : Type 0 where
  already_exists already_is_running was_not_running is_already_running : GoString → Error
  does_not_exist_stop does_not_exist_start : GoString → Error

abbrev pub update : (Addr → Task) → Addr → Task → Addr → Task
update f p t q = if p == q then t else f q

abbrev pub set_running : World → Addr → Bool → World
set_running w a b = record w { heap = update w.heap a (record (w.heap a) { running = b }) }

-- NewTask
unfoldable pub new_task : GoString → ℤ → ℕ → World → Addr × World
new_task id duration job w =
    let t : Task = record { id = id; duration = duration; job = job; running = false } in
    (w.next, record w { next = suc w.next; heap = update w.heap w.next t })

-- (t *Task) Start
unfoldable pub start : Addr → World → World
start a w = if (w.heap a).running then w else set_running (record w { loops = a ∷ w.loops }) a true

-- (t *Task) Stop
unfoldable pub stop : Addr → World → World
stop a w = set_running w a false

unfoldable pub erase_one : Addr → List Addr → List Addr
erase_one a [] = []
erase_one a (b ∷ bs) = if b == a then bs else b ∷ erase_one a bs

-- One round of a goroutine of `Start`, when its wait is over.
unfoldable pub wake : Addr → World → World
unfolding erase_one
wake a w =
    if not (w.heap a).running
    then record w { loops = erase_one a w.loops }
    else record w { executed = w.executed ++ a ∷ [] }

-- scheduler.New
unfoldable pub new : World → World
new w = record w { task_map = [] }

-- (m *Manager) AddTask: the task is stored before the test of `running`.
add_missing : Addr → Bool → World → World × Option Error
unfolding start
add_missing a auto_start w =
    let w' : World = record w { task_map = store w.task_map (w.heap a).id a } in
    if auto_start
    then (if (w'.heap a).running
        then (w', some (already_is_running (w'.heap a).id))
        else (start a w', none))
    else (w', none)

unfoldable pub add_task : Addr → Bool → World → World × Option Error
unfolding add_missing
add_task a auto_start w = elim (load w.task_map (w.heap a).id) [
  | some _ ↦ (w, some (already_exists (w.heap a).id))
  | none ↦ add_missing a auto_start w
]

-- (m *Manager) Exists
unfoldable pub exists : GoString → World → Bool
exists id w = elim (load w.task_map id) [ some _ ↦ true | none ↦ false ]

-- (m *Manager) IsRunning
unfoldable pub is_running : GoString → World → Bool
is_running id w = elim (load w.task_map id) [ some a ↦ (w.heap a).running | none ↦ false ]

-- (m *Manager) RemoveTask
unfoldable pub remove_task : GoString → World → World × Bool
unfolding stop
remove_task id w = elim (load w.task_map id) [
  | some a ↦ (record (stop a w) { task_map = delete w.task_map id }, true)
  | none ↦ (w, false)
]

-- (m *Manager) RemoveAllTasks: `Range` over the entries that the map has at the call.
unfoldable pub remove_each : SyncMap Addr → World → World
unfolding stop
remove_each [] w = w
remove_each ((k, a) ∷ es) w = remove_each es (record (stop a w) { task_map = delete w.task_map k })

unfoldable pub remove_all_tasks : World → World
unfolding remove_each
remove_all_tasks w = remove_each w.task_map w

-- (m *Manager) StopTask
unfoldable pub stop_task : GoString → World → World × Option Error
unfolding stop
stop_task id w = elim (load w.task_map id) [
  | some a ↦ if (w.heap a).running then (stop a w, none) else (w, some (was_not_running id))
  | none ↦ (w, some (does_not_exist_stop id))
]

-- (m *Manager) StartTask
unfoldable pub start_task : GoString → World → World × Option Error
unfolding start
start_task id w = elim (load w.task_map id) [
  | some a ↦ if not (w.heap a).running then (start a w, none) else (w, some (is_already_running id))
  | none ↦ (w, some (does_not_exist_start id))
]

-- (m *Manager) GetNumTasks
count_entries : SyncMap Addr → ℕ → ℕ
count_entries [] n = n
count_entries (_ ∷ es) n = count_entries es (n + 1)

unfoldable pub get_num_tasks : World → ℕ
unfolding count_entries
get_num_tasks w = count_entries w.task_map 0

-- (m *Manager) GetTasksIDs
collect_ids : SyncMap Addr → List GoString → List GoString
collect_ids [] ids = ids
collect_ids ((k, _) ∷ es) ids = collect_ids es (ids ++ k ∷ [])

unfoldable pub get_tasks_ids : World → List GoString
unfolding collect_ids
get_tasks_ids w = collect_ids w.task_map []

-- (m *Manager) GetTasks
collect_tasks : SyncMap Addr → List Addr → List Addr
collect_tasks [] tasks = tasks
collect_tasks ((_, a) ∷ es) tasks = collect_tasks es (tasks ++ a ∷ [])

unfoldable pub get_tasks : World → List Addr
unfolding collect_tasks
get_tasks w = collect_tasks w.task_map []

-- (m *Manager) GetTask
unfoldable pub get_task : GoString → World → Option Addr
get_task id w = load w.task_map id
