-- ===== src/Scheduler/Invariant.antt =====
-- What holds of the scheduler's world between two calls, whoever calls and whichever goroutine wakes.
use gobol.Base.{
  ℕ, ◌<◌, ◌≡◌, ◌≢◌, refl, inl, inr, Bool, true, false, some, List, [], ◌∷◌, arith, ◌==◌, Elem,
  Distinct, Bool-cases, Option-cases,
}
use gobol.Base.Text.{GoString, str_eq_iff}
use gobol.Base.Int.{ℤ}
use gobol.Base.SyncMap.{
  SyncMap, load, store, delete, keys, load-store, load-delete, store-Distinct, delete-Distinct,
}
use gobol.Scheduler.{
  Addr, World, set_running, new_task, start, stop, erase_one, wake, add_missing, add_task,
  remove_task, remove_each, remove_all_tasks, stop_task, start_task,
}

pub record IsConsistent (w : World) : Type 0 where
  -- a task stands under its own id, and has been created
  pub keyed : (k : GoString) (a : Addr) → load w.task_map k ≡ some a → (w.heap a).id ≡ k
  pub created : (k : GoString) (a : Addr) → load w.task_map k ≡ some a → a < w.next
  pub unique : Distinct (keys w.task_map)
  -- a task that is running has a goroutine
  pub looping : (a : Addr) → (w.heap a).running ≡ true → Elem a w.loops
  pub spawned : (a : Addr) → Elem a w.loops → a < w.next

-- What the program's clients, the goroutines and the holders of a task may do.
pub data Step (w : World) : World → Type 0 where
  create : (id : GoString) (d : ℤ) (job : ℕ) → Step w (new_task id d job w).1
  add : (a : Addr) (auto : Bool) → a < w.next → Step w (add_task a auto w).0
  remove : (id : GoString) → Step w (remove_task id w).0
  remove_all : Step w (remove_all_tasks w)
  halt : (id : GoString) → Step w (stop_task id w).0
  run : (id : GoString) → Step w (start_task id w).0
  round : (a : Addr) → Elem a w.loops → Step w (wake a w)
  direct_start : (a : Addr) → a < w.next → Step w (start a w)
  direct_stop : (a : Addr) → Step w (stop a w)

pub data Reach (w : World) : World → Type 0 where
  here : Reach w w
  next : {u v : World} → Reach w u → Step u v → Reach w v

new_task-IsConsistent :
    (id : GoString) (d : ℤ) (job : ℕ) {w : World}
    → IsConsistent w
    → IsConsistent (new_task id d job w).1
unfolding new_task
new_task-IsConsistent id d job {w} c = record {
  keyed = λ k a h. ground (arith, c.keyed k a, c.created k a);
  created = λ k a h. ground (arith, c.created k a);
  unique = c.unique;
  looping = λ a h. ground (arith, c.looping a);
  spawned = λ a h. ground (arith, c.spawned a);
}

-- A created task that is not running gets its goroutine.
launch-IsConsistent :
    (a : Addr) {w : World}
    → a < w.next
    → IsConsistent w
    → IsConsistent (set_running (record w { loops = a ∷ w.loops }) a true)
launch-IsConsistent a {w} h c = record {
  keyed = λ k b l. ground (arith, c.keyed k b);
  created = c.created;
  unique = c.unique;
  looping = λ b l. ground (arith, c.looping b);
  spawned = λ b l. ground (arith, c.spawned b);
}

start-IsConsistent : (a : Addr) {w : World} → a < w.next → IsConsistent w → IsConsistent (start a w)
unfolding start
start-IsConsistent a {w} h c = elim (Bool-cases (w.heap a).running) [
  | inl e ↦ rw e c
  | inr e ↦ rw e (launch-IsConsistent a h c)
]

stop-IsConsistent : (a : Addr) {w : World} → IsConsistent w → IsConsistent (stop a w)
unfolding stop
stop-IsConsistent a {w} c = record {
  keyed = λ k b h. ground (arith, c.keyed k b);
  created = c.created;
  unique = c.unique;
  looping = λ b h. ground (arith, c.looping b);
  spawned = c.spawned;
}

-- An entry leaves the map.
delete-IsConsistent :
    (k : GoString) {w : World}
    → IsConsistent w
    → IsConsistent (record w { task_map = delete w.task_map k })
delete-IsConsistent k {w} c = record {
  keyed = λ j b h. ground (arith, load-delete w.task_map k j, c.keyed j b);
  created = λ j b h. ground (arith, load-delete w.task_map k j, c.created j b);
  unique = delete-Distinct w.task_map k c.unique;
  looping = c.looping;
  spawned = c.spawned;
}

-- A created task enters the map under its id.
store-IsConsistent :
    (a : Addr) {w : World}
    → a < w.next
    → IsConsistent w
    → IsConsistent (record w { task_map = store w.task_map (w.heap a).id a })
store-IsConsistent a {w} h c = record {
  keyed = λ j b l.
      ground
        (arith, load-store w.task_map (w.heap a).id j a, c.keyed j b, str_eq_iff (w.heap a).id j);
  created = λ j b l. ground (arith, load-store w.task_map (w.heap a).id j a, c.created j b);
  unique = store-Distinct w.task_map (w.heap a).id a c.unique;
  looping = c.looping;
  spawned = c.spawned;
}

add_task-IsConsistent :
    (a : Addr) (auto : Bool) {w : World}
    → a < w.next
    → IsConsistent w
    → IsConsistent (add_task a auto w).0
unfolding add_task
add_task-IsConsistent a auto {w} h c = elim (Option-cases (load w.task_map (w.heap a).id)) [
  | inr (b, e) ↦ rw (e, add_task) c
  | inl e ↦ rw (e, add_task) (go auto (w.heap a).running refl)
]
  where
    kept : IsConsistent (record w { task_map = store w.task_map (w.heap a).id a })
    kept = store-IsConsistent a h c

    go : (auto r : Bool) → (w.heap a).running ≡ r → IsConsistent (add_missing a auto w).0
    go false r e = kept
    go true true e = rw e kept
    go true false e = rw e (launch-IsConsistent a h kept)

remove_task-IsConsistent :
    (id : GoString) {w : World} → IsConsistent w → IsConsistent (remove_task id w).0
unfolding remove_task
remove_task-IsConsistent id {w} c = elim (Option-cases (load w.task_map id)) [
  | inl e ↦ rw (e, remove_task) c
  | inr (a, e) ↦ rw (e, remove_task) (delete-IsConsistent id (stop-IsConsistent a c))
]

remove_each-IsConsistent :
    (es : SyncMap Addr) {w : World} → IsConsistent w → IsConsistent (remove_each es w)
unfolding remove_each
remove_each-IsConsistent [] c = c
remove_each-IsConsistent ((k, a) ∷ es) c =
    remove_each-IsConsistent es (delete-IsConsistent k (stop-IsConsistent a c))

stop_task-IsConsistent :
    (id : GoString) {w : World} → IsConsistent w → IsConsistent (stop_task id w).0
unfolding stop_task
stop_task-IsConsistent id {w} c = elim (Option-cases (load w.task_map id)) [
  | inl e ↦ rw (e, stop_task) c
  | inr (a, e) ↦ elim (Bool-cases (w.heap a).running) [
    | inl r ↦ rw (e, stop_task, r) (stop-IsConsistent a c)
    | inr r ↦ rw (e, stop_task, r) c
  ]
]

start_task-IsConsistent :
    (id : GoString) {w : World} → IsConsistent w → IsConsistent (start_task id w).0
unfolding start_task
start_task-IsConsistent id {w} c = elim (Option-cases (load w.task_map id)) [
  | inl e ↦ rw (e, start_task) c
  | inr (a, e) ↦ elim (Bool-cases (w.heap a).running) [
    | inl r ↦ rw (e, start_task, r) c
    | inr r ↦ rw (e, start_task, r) (launch-IsConsistent a (c.created id a e) c)
  ]
]

-- Another goroutine stays when one leaves.
Elem-erase_one : (a b : Addr) (l : List Addr) → b ≢ a → Elem b l → Elem b (erase_one a l)
unfolding erase_one
Elem-erase_one a b [] n h = h
Elem-erase_one a b (x ∷ l) n h = elim (Bool-cases (x == a)) [
  | inl e ↦ rw e (elim h [ inl q ↦ absurd (n (ground arith)) | inr q ↦ q ])
  | inr e ↦ rw e (elim h [ inl q ↦ inl q | inr q ↦ inr (Elem-erase_one a b l n q) ])
]

erase_one-Elem : (a b : Addr) (l : List Addr) → Elem b (erase_one a l) → Elem b l
unfolding erase_one
erase_one-Elem a b [] h = h
erase_one-Elem a b (x ∷ l) h = elim (Bool-cases (x == a)) [
  | inl e ↦ inr (rw e at h)
  | inr e ↦ elim (rw e at h) [ inl q ↦ inl q | inr q ↦ inr (erase_one-Elem a b l q) ]
]

wake-IsConsistent : (a : Addr) {w : World} → IsConsistent w → IsConsistent (wake a w)
unfolding wake
wake-IsConsistent a {w} c = elim (Bool-cases (w.heap a).running) [
  | inl r ↦ rw r (record {
    keyed = c.keyed;
    created = c.created;
    unique = c.unique;
    looping = c.looping;
    spawned = c.spawned;
  })
  | inr r ↦ rw r (record {
    keyed = c.keyed;
    created = c.created;
    unique = c.unique;
    looping = λ b h. Elem-erase_one a b w.loops (λ e. cc (r, h)) (c.looping b h);
    spawned = λ b h. c.spawned b (erase_one-Elem a b w.loops h);
  })
]

Step-IsConsistent : {w v : World} → Step w v → IsConsistent w → IsConsistent v
unfolding remove_all_tasks
Step-IsConsistent (create id d job) c = new_task-IsConsistent id d job c
Step-IsConsistent (add a auto h) c = add_task-IsConsistent a auto h c
Step-IsConsistent (remove id) c = remove_task-IsConsistent id c
Step-IsConsistent {w} remove_all c = remove_each-IsConsistent w.task_map c
Step-IsConsistent (halt id) c = stop_task-IsConsistent id c
Step-IsConsistent (run id) c = start_task-IsConsistent id c
Step-IsConsistent (round a h) c = wake-IsConsistent a c
Step-IsConsistent (direct_start a h) c = start-IsConsistent a h c
Step-IsConsistent (direct_stop a) c = stop-IsConsistent a c

-- In every world that calls and wake-ups reach from a consistent one, each registered task stands
-- under its own id, ids are unique, and each running task has a goroutine.
pub Reach-IsConsistent : {w v : World} → IsConsistent w → Reach w v → IsConsistent v
Reach-IsConsistent c here = c
Reach-IsConsistent c (next r s) = Step-IsConsistent s (Reach-IsConsistent c r)
