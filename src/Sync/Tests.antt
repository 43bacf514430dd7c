-- ===== src/Sync/Tests.antt =====
-- A semaphore, a lock and two tasks, and the theorems at them.
use smart_os.Base.{
  Option, ℕ, ◌+◌, ◌≤◌, ◌≡◌, refl, true, false, some, [], ◌∷◌, Ptr, null, arith, ◌==◌, if◌then◌else◌,
}
use smart_os.Base.Chain.{Chain}
use smart_os.Kernel.State.{init, ready, Task, link, stack_guard_pattern}
use smart_os.Kernel.Critical.{enter_critical, exit_critical}
use smart_os.Sync.{Status, enter, leave, enqueue, ok, System}
use smart_os.Kernel.Schedule.{
  schedule, dispatch, find_best, switch_tasks, guard_ok, start_next, charge, switch_out,
  update_watermark,
}
use smart_os.Kernel.Block.{task_yield, yielded, finish_period, then_do}
use smart_os.Sync.Lock.{
  mutex_try_lock, mutex_lock, mutex_unlock, release, inherit, find_waiter, hand_over,
}
use smart_os.Sync.Sem.{sem_wait}
use smart_os.Sync.Sem.Counting.{IsOpen, take, give, run, run-grants}
use smart_os.Sync.Sem.Waiting.{IsResumed, sem_wait_truncates}
use smart_os.Kernel.Schedule.Edf.Guarded.{IsGuarded}
use smart_os.Sync.Lock.Recursive.{lock_times, unlock_times, lock_times-unlock_times}

abbrev blank : Task
blank = record {
  sp = 0;
  entry = 0;
  parameter = 0;
  stack_addr = 0;
  stack_size = 256;
  stack_guard = 0x1000;
  deadline = 0;
  period = 0;
  arrival = 0;
  wakeup_time = 0;
  state = init;
  switch_count = 0;
  min_free_stack = 256;
  exec_start_time = 0;
  last_exec_time = 0;
  avg_exec_time = 0;
  max_exec_time = 0;
  deadline_miss_count = 0;
  next = null;
}

-- The task 4 runs, between the tasks 8 and 12.
abbrev tasks : Ptr → Task
tasks p =
    if p == 4
    then record blank { state = ready; deadline = 50; period = 20; arrival = 30; next = 12 }
    else if p == 8
    then record blank { state = ready; deadline = 60; period = 40; arrival = 20; next = 4 }
    else if p == 12
    then record blank { state = ready; deadline = 70; period = 50; arrival = 20 }
    else blank

-- The semaphore 100 has one unit left of three, the semaphore 101 has none; the lock 200 is free.
abbrev example_system : System
example_system = record {
  kernel = record {
    tasks = tasks;
    mem = λ p. stack_guard_pattern;
    current_task = 4;
    next_task = 4;
    task_list = 8;
    scheduler_started = true;
    os_tick = 40;
    critical_nesting = 0;
    irq_enabled = true;
    pend_sv = false;
    idle_task = 16;
    idle_stack = 0x2000;
    idle_entry = 0x101;
  };
  semaphores = λ p. record { count = if p == 100 then 1 else 0; max_count = 3; wait_list = null };
  mutexes = λ p. record {
    locked = false;
    owner = null;
    lock_count = 0;
    original_deadline = 0;
    wait_list = null;
  };
}

run-grants_example :
    (n : ℕ) × (s₁ : System) × (run 9 100 (take ∷ take ∷ give ∷ take ∷ []) example_system
      ≡ some (n, s₁))
    × IsOpen (s₁.semaphores 100)
    × (n + (s₁.semaphores 100).count ≤ 2)
    × (2 ≤ 3 → n + (s₁.semaphores 100).count ≡ 2)
run-grants_example =
    run-grants 9 100 (take ∷ take ∷ give ∷ take ∷ []) example_system (omega arith)
      (record { none_waits = refl; bounded = omega arith })

guarded : IsGuarded (example_system.kernel) (8 ∷ 4 ∷ [])
unfolding guard_ok
guarded q i = ground arith

sem_wait_truncates_example :
    (s₁ : System) × (sem_wait 9 example_system 101 ≡ some (ok, s₁))
    × Chain (link s₁.kernel.tasks) s₁.kernel.task_list (8 ∷ 4 ∷ [])
    × IsResumed 20 30 (s₁.kernel.tasks 4)
sem_wait_truncates_example =
    sem_wait_truncates 9 example_system 101 (8 ∷ []) (12 ∷ []) (omega arith) (omega arith) refl refl
      refl (refl, omega arith, (refl, omega arith, (refl, omega arith, refl))) (omega arith) guarded
      (omega arith)

lock_times-unlock_times_example :
    (s₁ s₂ : System) × (lock_times 3 example_system 200 ≡ some s₁)
    × (unlock_times 9 3 s₁ 200 ≡ some s₂)
    × ((s₁.mutexes 200).locked ≡ true)
    × ((s₁.mutexes 200).owner ≡ 4)
    × ((s₁.mutexes 200).lock_count ≡ 3)
    × ((s₂.mutexes 200).locked ≡ false)
    × ((q : Ptr) → s₂.kernel.tasks q ≡ tasks q)
lock_times-unlock_times_example =
    lock_times-unlock_times 9 2 example_system 200 (omega arith) (omega arith) refl refl
      (omega arith)

-- The same system while the task 8 runs.
abbrev as_task_8 : System → System
as_task_8 s = record s { kernel = record (s.kernel) { current_task = 8 } }

abbrev as_task_4 : System → System
as_task_4 s = record s { kernel = record (s.kernel) { current_task = 4 } }

abbrev deadline_and_owner : Status × System → ℕ × Ptr
deadline_and_owner (status, s) = ((s.kernel.tasks 8).deadline, (s.mutexes 200).owner)

abbrev unlock_as_8 : Status × System → Option (Status × System)
unlock_as_8 (status, s) = mutex_unlock 9 (as_task_8 s) 200

-- The task 8 holds the lock when the task 4, whose deadline is earlier, asks for it: the task 8 gets
-- this deadline, and when it unlocks it has its own again and the task 4 has the lock.
inherit_run :
    then_do
      (mutex_lock 9 (as_task_4 (mutex_try_lock (as_task_8 example_system) 200).1) 200)
      deadline_and_owner
    ≡ some (50, 8)
unfolding mutex_try_lock mutex_lock enter leave enqueue inherit task_yield yielded schedule
    find_best dispatch enter_critical exit_critical finish_period switch_tasks guard_ok start_next
    charge switch_out update_watermark
inherit_run = refl

hand_over_run :
    then_do
      (mutex_lock 9 (as_task_4 (mutex_try_lock (as_task_8 example_system) 200).1) 200)
      (λ r. then_do (unlock_as_8 r) deadline_and_owner)
    ≡ some (some (60, 4))
unfolding mutex_try_lock mutex_lock mutex_unlock release enter leave enqueue inherit find_waiter
    hand_over task_yield yielded schedule find_best dispatch enter_critical exit_critical
    finish_period switch_tasks guard_ok start_next charge switch_out update_watermark
hand_over_run = refl
