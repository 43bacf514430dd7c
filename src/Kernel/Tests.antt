-- ===== src/Kernel/Tests.antt =====
-- Two tasks, and the kernel's theorems at them.
use smart_os.Base.{
  ◌≡◌, ◌≢◌, refl, true, false, not, ◌&&◌, ◌||◌, none, some, [], ◌∷◌, Ptr, null, arith, max_u32,
  ◌==◌, if◌then◌else◌,
}
use smart_os.Base.Chain.{Chain}
use smart_os.Kernel.State.{init, ready, waiting, delayed, Task, Kernel, link, stack_guard_pattern}
use smart_os.Kernel.Critical.{enter_critical, exit_critical}
use smart_os.Kernel.Schedule.{guard_ok, schedule}
use smart_os.Kernel.Schedule.Keeps.{Agree, stuck}
use smart_os.Kernel.Schedule.Edf.{Next, schedule-Next}
use smart_os.Kernel.Schedule.Edf.Guarded.{IsGuarded}
use smart_os.Kernel.Block.{yielded, task_yield}
use smart_os.Kernel.Block.Laws.{task_yield_lem}
use smart_os.Kernel.Wake.{wake}
use smart_os.Kernel.Wake.Laws.{woken, any_due, wake-woken}
use smart_os.Kernel.Create.{fresh_task, stack_guard_init, task_create}
use smart_os.Kernel.Create.Laws.{Fits, task_create_starved}

abbrev blank : Task
blank = record {
  sp = 0;
  entry = 0;
  parameter = 0;
  stack_addr = 0;
  stack_size = 256;
  stack_guard = 0x1000;
  deadline = 0;
  period = 0;
  arrival = 0;
  wakeup_time = 0;
  state = init;
  switch_count = 0;
  min_free_stack = 256;
  exec_start_time = 0;
  last_exec_time = 0;
  avg_exec_time = 0;
  max_exec_time = 0;
  deadline_miss_count = 0;
  next = null;
}

-- The task 4 runs, and is behind the task 8 in the list; 12 has no period; 16 is the idle task.
abbrev blocks : Ptr → Task
blocks p =
    if p == 4
    then record blank { state = ready; deadline = 50; period = 20; arrival = 30; next = 12 }
    else if p == 8
    then record blank { state = ready; deadline = 60; period = 40; arrival = 20; next = 4 }
    else if p == 12
    then record blank { state = delayed; deadline = max_u32; wakeup_time = 35; next = null }
    else blank

abbrev pub example_kernel : Kernel
example_kernel = record {
  tasks = blocks;
  mem = λ p. stack_guard_pattern;
  current_task = 4;
  next_task = 4;
  task_list = 8;
  scheduler_started = true;
  os_tick = 40;
  critical_nesting = 0;
  irq_enabled = true;
  pend_sv = false;
  idle_task = 16;
  idle_stack = 0x2000;
  idle_entry = 0x101;
}

pub example_listed : Chain (link example_kernel.tasks) 8 (8 ∷ 4 ∷ 12 ∷ [])
example_listed = (refl, omega arith, (refl, omega arith, (refl, omega arith, refl)))

schedule-Next_example :
    (k' : Kernel) × (let next = k'.next_task in
      let asks = true && not (4 == next) in
      (schedule 9 example_kernel ≡ (
        if asks && not (guard_ok example_kernel 4 && guard_ok example_kernel next)
        then none
        else some k'))
      × (k'.pend_sv ≡ (false || asks))
      × Next example_kernel (8 ∷ 4 ∷ 12 ∷ []) next
      × ((q : Ptr) → Agree (k'.tasks q) (example_kernel.tasks q)))
schedule-Next_example =
    schedule-Next 9 example_kernel (8 ∷ 4 ∷ 12 ∷ []) example_listed (omega arith)

wake-woken_example :
    (tasks' : Ptr → Task) × (wake 9 40 8 blocks false
      ≡ some (tasks', any_due 40 (8 ∷ 4 ∷ 12 ∷ []) blocks || false))
    × ((q : Ptr) → tasks' q ≡ woken 40 (8 ∷ 4 ∷ 12 ∷ []) blocks q)
wake-woken_example =
    wake-woken 9 40 8 blocks false (8 ∷ 4 ∷ 12 ∷ []) example_listed (refl, (refl, (refl, tt)))
      (omega arith)

guarded : IsGuarded example_kernel (8 ∷ 4 ∷ 12 ∷ [])
unfolding guard_ok
guarded q i = ground arith

task_yield_lem_example :
    (k' : Kernel) × (task_yield 9 example_kernel ≡ some k')
    × Next (yielded example_kernel) (8 ∷ 4 ∷ 12 ∷ []) k'.next_task
    × Agree (k'.tasks 4) (record (blocks 4) { state = waiting; arrival = 50; deadline = 70 })
    × ((q : Ptr) → q ≢ 4 → Agree (k'.tasks q) (blocks q))
    × (k'.critical_nesting ≡ 0)
    × (k'.task_list ≡ 8)
task_yield_lem_example =
    task_yield_lem 9 example_kernel (8 ∷ 4 ∷ 12 ∷ []) example_listed (omega arith) guarded
      (omega arith)

new_task-Fits : Fits example_kernel 20 0x1000 256 (8 ∷ 4 ∷ 12 ∷ [])
new_task-Fits = record {
  task_ne = omega arith;
  unlisted = refl;
  stack_pos = omega arith;
  stack_high = omega arith;
  listed = example_listed;
  shallow = omega arith;
}

abbrev with_periodic : Kernel
with_periodic = task_create example_kernel 20 0x801 0 0x1000 256 100 80

abbrev with_one_shot : Kernel
with_one_shot = task_create example_kernel 20 0x801 0 0x1000 256 0 0

not_idle : 20 ≢ with_one_shot.idle_task
unfolding task_create enter_critical exit_critical stack_guard_init fresh_task
not_idle = ground arith

task_create_starved_example :
    ((with_one_shot.tasks 20).state ≡ ready)
    × (k'' : Kernel) × (schedule 9 with_one_shot
        ≡ (if stuck with_one_shot k''.next_task then none else some k''))
    × (k''.next_task ≢ 20)
task_create_starved_example =
    task_create_starved 9 example_kernel 20 0x801 0 0x1000 256 0 (8 ∷ 4 ∷ 12 ∷ []) new_task-Fits
      not_idle (omega arith)
