-- ===== src/Scheduler/Loops.antt =====
-- The goroutines of `Start`, one for each call that finds the task stopped.
use gobol.Base.{
  ◌∙◌, ap, ℕ, zero, suc, ◌+◌, ◌-◌, replicate, ◌≡◌, refl, inl, inr, true, false, some, List, [], ◌∷◌,
  ◌++◌, arith, ◌==◌, if◌then◌else◌, Bool-cases,
}
use gobol.Base.Text.{GoString}
use gobol.Base.SyncMap.{load}
use gobol.Scheduler.{Addr, World, erase_one, wake, stop_task, start_task}

abbrev pub count : Addr → List Addr → ℕ
count a [] = 0
count a (b ∷ bs) = let rest = count a bs in if b == a then suc rest else rest

-- The wake-ups of a list, in turn.
abbrev pub wake_all : List Addr → World → World
wake_all [] w = w
wake_all (a ∷ as') w = wake_all as' (wake a w)

count-append : (a : Addr) (xs ys : List Addr) → count a (xs ++ ys) ≡ count a xs + count a ys
count-append a [] ys = omega arith
count-append a (x ∷ xs) ys = ground (arith, count-append a xs ys)

count-erase_one : (a : Addr) (l : List Addr) → count a (erase_one a l) ≡ count a l - 1
unfolding erase_one
count-erase_one a [] = omega arith
count-erase_one a (b ∷ l) = ground (arith, count-erase_one a l)

-- A wake-up starts and stops nothing.
wake-heap : (a b : Addr) (w : World) → ((wake a w).heap b).running ≡ (w.heap b).running
unfolding wake
wake-heap a b w = ground arith

wake-stopped :
    (a b : Addr) (w : World)
    → (w.heap b).running ≡ false
    → count b (wake a w).executed ≡ count b w.executed
unfolding wake
wake-stopped a b w h = elim (Bool-cases (a == b)) [
  | inl e ↦ ground (arith, count-append b w.executed (a ∷ []))
  | inr e ↦ ground (arith, count-append b w.executed (a ∷ []))
]

wake_all-stopped :
    (as' : List Addr) (b : Addr) (w : World)
    → (w.heap b).running ≡ false
    → count b (wake_all as' w).executed ≡ count b w.executed
wake_all-stopped [] b w h = refl
wake_all-stopped (a ∷ as') b w h =
    wake_all-stopped as' b (wake a w) (wake-heap a b w ∙ h) ∙ wake-stopped a b w h

wake-retire :
    (a : Addr) (w : World)
    → (w.heap a).running ≡ false
    → count a (wake a w).loops ≡ count a w.loops - 1
unfolding wake
wake-retire a w h = ground (arith, count-erase_one a w.loops)

wake_all-retire :
    (n : ℕ) (a : Addr) (w : World)
    → (w.heap a).running ≡ false
    → count a (wake_all (replicate n a) w).loops ≡ count a w.loops - n
wake_all-retire zero a w h = omega arith
wake_all-retire (suc n) a w h =
    omega (arith, wake_all-retire n a (wake a w) (wake-heap a a w ∙ h), wake-retire a w h)

wake-executes :
    (a : Addr) (w : World)
    → (w.heap a).running ≡ true
    → count a (wake a w).executed ≡ suc (count a w.executed)
unfolding wake
wake-executes a w h = ground (arith, count-append a w.executed (a ∷ []))

wake_all-executes :
    (n : ℕ) (a : Addr) (w : World)
    → (w.heap a).running ≡ true
    → count a (wake_all (replicate n a) w).executed ≡ n + count a w.executed
wake_all-executes zero a w h = omega arith
wake_all-executes (suc n) a w h =
    omega (arith, wake_all-executes n a (wake a w) (wake-heap a a w ∙ h), wake-executes a w h)

stop_task-running :
    (id : GoString) (a : Addr) (w : World)
    → load w.task_map id ≡ some a
    → ((stop_task id w).0.heap a).running ≡ false
unfolding stop_task
stop_task-running id a w h = ground arith

-- When StopTask is called for a registered task and the task is not started again, its job is not
-- executed by any sequence of wake-ups, and when each of its goroutines has woken once none is left.
pub stop_task-silences :
    (id : GoString) (a : Addr) (w : World) (as' : List Addr)
    → load w.task_map id ≡ some a
    → let w' = (stop_task id w).0 in
      (count a (wake_all as' w').executed ≡ count a w'.executed)
      × (count a (wake_all (replicate (count a w'.loops) a) w').loops ≡ 0)
stop_task-silences id a w as' h =
    let quiet = stop_task-running id a w h in
    (
      wake_all-stopped as' a (stop_task id w).0 quiet,
      omega (arith, wake_all-retire (count a (stop_task id w).0.loops) a (stop_task id w).0 quiet),
    )

restart_parts :
    (id : GoString) (a : Addr) (w : World)
    → load w.task_map id ≡ some a
    → (w.heap a).running ≡ true
    → let w' = (start_task id (stop_task id w).0).0 in
      (w'.loops ≡ a ∷ w.loops) × (w'.executed ≡ w.executed) × ((w'.heap a).running ≡ true)
unfolding stop_task start_task
restart_parts id a w h r = (ground arith, ground arith, ground arith)

-- When a registered task that runs is stopped and started again before its goroutine wakes, it has
-- one goroutine more than before, and a round in which each wakes once executes the job that often.
pub restart_doubles :
    (id : GoString) (a : Addr) (w : World)
    → load w.task_map id ≡ some a
    → (w.heap a).running ≡ true
    → let w' = (start_task id (stop_task id w).0).0 in
      (count a w'.loops ≡ suc (count a w.loops))
      × (count a (wake_all (replicate (count a w'.loops) a) w').executed
          ≡ suc (count a w.loops) + count a w.executed)
restart_doubles id a w h r =
    let (l, e, on) = restart_parts id a w h r in
    let more : count a (start_task id (stop_task id w).0).0.loops ≡ suc (count a w.loops) =
      ground (arith, ap (count a) l) in
    (
      more,
      omega (
        arith,
        more,
        ap (count a) e,
        wake_all-executes (count a (start_task id (stop_task id w).0).0.loops) a
            (start_task id (stop_task id w).0).0 on,
      ),
    )
