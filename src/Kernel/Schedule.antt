-- ===== src/Kernel/Schedule.antt =====
-- `smart_schedule` and what it calls. A walk along the task list takes fuel. `none` says that the call does
-- not return: the fuel ran out, as it would on a list that goes round, or the stack check met a broken
-- guard and stays in its endless loop.
pub mod Edf
pub mod Switch
pub mod Keeps
use smart_os.Base.{
  ℕ, zero, suc, ◌+◌, ◌-◌, ◌*◌, ◌/◌, ◌%◌, Bool, true, false, not, ◌&&◌, ◌||◌, Option, none, some,
  Ptr, null, u32, sub_u32, max_u32, ltb, ◌==◌, if◌then◌else◌,
}
use smart_os.Base.Chain.{update}
use smart_os.Kernel.State.{TaskState, ready, Task, Kernel, stack_guard_pattern}

abbrev pub is_ready : TaskState → Bool
is_ready ready = true
is_ready _ = false

-- The loop over the task list.
unfoldable pub find_best : ℕ → (Ptr → Task) → (node best : Ptr) → (min_deadline : ℕ) → Option Ptr
find_best zero tasks node best min_deadline = none
find_best (suc fuel) tasks node best min_deadline =
    let t = tasks node in
    let better = is_ready t.state && ltb t.deadline min_deadline in
    let rest =
      find_best fuel tasks t.next (if better then node else best)
        (if better then t.deadline else min_deadline) in
    if node == null then some best else rest

-- `smart_task_update_watermark`
unfoldable pub update_watermark : Task → Task
update_watermark t =
    if t.stack_addr == null || t.sp == null
    then t
    else if ltb t.stack_addr t.sp && ltb (t.sp - t.stack_addr) t.min_free_stack
    then record t { min_free_stack = t.sp - t.stack_addr }
    else t

-- `smart_stack_guard_check`: whether it returns; otherwise it reports the overflow and loops for ever.
unfoldable pub guard_ok : Kernel → Ptr → Bool
guard_ok k task =
    task == null
    || (k.tasks task).stack_guard == null
    || k.mem (k.tasks task).stack_guard == stack_guard_pattern

-- The new predicted execution time.
unfoldable pub ema : (exec_time avg : ℕ) → ℕ
ema exec_time avg = if avg == 0 then exec_time else u32 (exec_time + u32 (7 * avg)) / 8

-- The statistics of the task that is switched out.
unfoldable pub switch_out : ℕ → Task → Task
switch_out os_tick t =
    let exec_time = sub_u32 os_tick t.exec_start_time in
    let u = update_watermark (record t {
      last_exec_time = exec_time;
      max_exec_time = if ltb t.max_exec_time exec_time then exec_time else t.max_exec_time;
      avg_exec_time = ema exec_time t.avg_exec_time;
      deadline_miss_count =
          if ltb t.deadline os_tick && ltb 0 t.period
          then u32 (t.deadline_miss_count + 1)
          else t.deadline_miss_count;
    }) in
    record u { switch_count = u32 (u.switch_count + 1) }

-- The current task is charged for its run.
unfoldable pub charge : Kernel → Kernel
charge k = if k.current_task == null then k else record k {
  tasks = update k.tasks k.current_task (switch_out k.os_tick (k.tasks k.current_task));
}

-- The next task's run begins.
unfoldable pub start_next : Kernel → Kernel
start_next k = if k.next_task == null then k else record k {
  tasks = update k.tasks k.next_task (record (k.tasks k.next_task) { exec_start_time = k.os_tick });
}

-- The end of `smart_schedule`, when `next_task` is another task than the current one.
unfoldable pub switch_tasks : Kernel → Option Kernel
switch_tasks k =
    let k₂ = start_next (charge k) in
    if guard_ok k₂ k₂.current_task && guard_ok k₂ k₂.next_task
    then some (record k₂ { pend_sv = true })
    else none

-- What `smart_schedule` does with the task that it has chosen.
unfoldable pub dispatch : Kernel → Ptr → Option Kernel
dispatch k chosen =
    let k₁ = record k { next_task = chosen } in
    if not k.scheduler_started
    then some (if k.current_task == null then record k₁ { current_task = chosen } else k₁)
    else if k.current_task == chosen
    then some k₁
    else switch_tasks k₁

unfoldable pub schedule : ℕ → Kernel → Option Kernel
unfolding find_best dispatch
schedule fuel k = elim (find_best fuel k.tasks k.task_list null max_u32) [
  | none ↦ none
  | some best ↦ dispatch k (if best == null then k.idle_task else best)
]
