-- ===== src/Kernel/Block.antt =====
-- How a task gives up the processor: `smart_task_yield` and `smart_delay`; and `smart_os_start`.
pub mod Laws
use smart_os.Base.{ℕ, ◌+◌, Bool, true, Option, none, some, Ptr, null, u32, ltb, ◌==◌, if◌then◌else◌}
use smart_os.Base.Chain.{update}
use smart_os.Kernel.State.{TaskState, ready, waiting, delayed, Task, Kernel}
use smart_os.Kernel.Critical.{enter_critical, exit_critical}
use smart_os.Kernel.Schedule.{schedule}

-- What follows a walk that may not end.
abbrev pub then_do : {A B : Type 0} → Option A → (A → B) → Option B
then_do none f = none
then_do (some a) f = some (f a)

-- The current task's new control block.
unfoldable pub finish_period : Task → Task
finish_period t =
    if ltb 0 t.period
    then record t {
      state = waiting;
      arrival = u32 (t.arrival + t.period);
      deadline = u32 (t.deadline + t.period);
    }
    else record t { state = ready }

-- Inside the critical section, up to the call of the scheduler.
unfoldable pub yielded : Kernel → Kernel
unfolding enter_critical
yielded k =
    let k₁ = enter_critical k in
    record k₁ { tasks = update k₁.tasks k₁.current_task (finish_period (k₁.tasks k₁.current_task)) }

unfoldable pub task_yield : ℕ → Kernel → Option Kernel
task_yield fuel k = then_do (schedule fuel (yielded k)) exit_critical

-- The sleeping task's new control block.
unfoldable pub sleep : (wakeup : ℕ) → Task → Task
sleep wakeup t = record t { wakeup_time = wakeup; state = delayed }

unfoldable pub delayed_from : ℕ → Kernel → Kernel
unfolding enter_critical
delayed_from ticks k =
    let k₁ = enter_critical k in
    record k₁ {
      tasks =
          update k₁.tasks k₁.current_task
            (sleep (u32 (k₁.os_tick + ticks)) (k₁.tasks k₁.current_task));
    }

unfoldable pub delay : ℕ → ℕ → Kernel → Option Kernel
delay fuel ticks k =
    if ticks == 0
    then some k
    else if k.current_task == null
    then some (exit_critical (enter_critical k))
    else then_do (schedule fuel (delayed_from ticks k)) exit_critical

-- `smart_os_start` up to the jump into the first task, less the device registers and the messages.
unfoldable pub os_start : ℕ → Kernel → Option Kernel
unfolding schedule
os_start fuel k =
    then_do (schedule fuel k)
      λ k₁. if k₁.current_task == null then k₁ else record k₁ { scheduler_started = true }
