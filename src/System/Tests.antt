-- ===== src/System/Tests.antt =====
-- A system with one delayed task and one timer, and the theorem at it.
use smart_os.Base.{◌≡◌, refl, true, false, some, [], ◌∷◌, null, arith}
use smart_os.Kernel.State.{ready, delayed, Task, stack_guard_pattern}
use smart_os.Kernel.Schedule.{guard_ok}
use smart_os.Kernel.Schedule.Edf.Guarded.{IsGuarded}
use smart_os.Timer.{running, zero_timer}
use smart_os.System.{System, handle_ticks}
use smart_os.System.Wakeup.{handle_ticks-ready}

-- Asleep until the tick 43.
abbrev sleeper : Task
sleeper = record {
  sp = 0;
  entry = 0x101;
  parameter = 0;
  stack_addr = 0x3000;
  stack_size = 256;
  stack_guard = 0x3000;
  deadline = 60;
  period = 0;
  arrival = 0;
  wakeup_time = 43;
  state = delayed;
  switch_count = 0;
  min_free_stack = 256;
  exec_start_time = 0;
  last_exec_time = 0;
  avg_exec_time = 0;
  max_exec_time = 0;
  deadline_miss_count = 0;
  next = null;
}

abbrev system : System
system = record {
  kernel = record {
    tasks = λ p. sleeper;
    mem = λ p. stack_guard_pattern;
    current_task = 16;
    next_task = 16;
    task_list = 4;
    scheduler_started = true;
    os_tick = 40;
    critical_nesting = 0;
    irq_enabled = true;
    pend_sv = false;
    idle_task = 16;
    idle_stack = 0x2000;
    idle_entry = 0x101;
  };
  pools = record {
    mem = λ p. 0;
    pools = λ p. record {
      buffer = 0;
      buffer_end = 0;
      block_size = 0;
      block_stride = 0;
      block_count = 0;
      free_count = 0;
      ops_per_tick = 0;
      ops_left = 0;
      free_list = 0;
      min_free_count = 0;
    };
    registry = [];
  };
  timers = record {
    pool = λ p. record zero_timer { state = running; remaining_ms = 9 };
    timer_pool_init = true;
    active_timer_list = 1;
    next_timer_id = 2;
    stats = record {
      total_timers = 1;
      active_timers = 1;
      expired_count = 0;
      callback_count = 0;
      max_callback_time_us = 0;
    };
  };
}

guarded : IsGuarded (system.kernel) (4 ∷ [])
unfolding guard_ok
guarded q i = ground arith

handle_ticks-ready_example :
    (before after : System) × (handle_ticks (λ f a s. s) (λ f a. 0) 5 2 system ≡ some before)
    × ((before.kernel.tasks 4).state ≡ delayed)
    × (handle_ticks (λ f a s. s) (λ f a. 0) 5 3 system ≡ some after)
    × ((after.kernel.tasks 4).state ≡ ready)
handle_ticks-ready_example =
    handle_ticks-ready (λ f a s. s) (λ f a. 0) 2 5 system (4 ∷ []) (1 ∷ []) 4
      ((refl, omega arith, refl), (refl, tt), guarded)
      (refl, (refl, omega arith, refl), (refl, tt), (omega arith, tt)) (omega arith) (omega arith)
      refl refl refl (omega arith)
