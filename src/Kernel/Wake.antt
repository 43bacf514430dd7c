-- ===== src/Kernel/Wake.antt =====
-- The part of `SysTick_Handler` that wakes tasks.
pub mod Laws
use smart_os.Base.{
  ℕ, zero, suc, ◌+◌, Bool, true, false, ◌||◌, Option, none, some, Ptr, null, u32, leb, ◌==◌,
  if◌then◌else◌,
}
use smart_os.Base.Chain.{update}
use smart_os.Kernel.State.{TaskState, init, ready, running, waiting, suspend, delayed, Task, Kernel}
use smart_os.Kernel.Schedule.{schedule}

-- Whether the tick makes this task ready.
abbrev pub due_in : TaskState → ℕ → Task → Bool
due_in waiting os_tick t = leb t.arrival os_tick
due_in delayed os_tick t = leb t.wakeup_time os_tick
due_in _ os_tick t = false

unfoldable pub due : ℕ → Task → Bool
due os_tick t = due_in t.state os_tick t

-- The loop over the task list; the Boolean is `need_sched`.
unfoldable pub wake : ℕ → ℕ → Ptr → (Ptr → Task) → Bool → Option ((Ptr → Task) × Bool)
wake zero os_tick node tasks need_sched = none
wake (suc fuel) os_tick node tasks need_sched =
    let t = tasks node in
    let rest =
      wake fuel os_tick t.next
        (if due os_tick t then update tasks node (record t { state = ready }) else tasks)
        (due os_tick t || need_sched) in
    if node == null then some (tasks, need_sched) else rest

-- `SysTick_Handler` behind the calls of the other subsystems, and with the tick counted.
unfoldable pub wake_tasks : ℕ → Kernel → Option Kernel
unfolding wake schedule
wake_tasks fuel k = elim (wake fuel k.os_tick k.task_list k.tasks false) [
  | none ↦ none
  | some (tasks, need_sched) ↦
      if need_sched
      then schedule fuel (record k { tasks = tasks })
      else some (record k { tasks = tasks })
]

unfoldable pub count_tick : Kernel → Kernel
count_tick k = record k { os_tick = u32 (k.os_tick + 1) }
