-- ===== src/Sync/Sem.antt =====
-- The semaphores.
pub mod Counting
pub mod Waiting
use smart_os.Base.{
  ℕ, zero, suc, ◌+◌, ◌-◌, Bool, true, false, ◌||◌, Option, none, some, Ptr, null, u32, sub_u32, ltb,
  leb, ◌==◌, if◌then◌else◌,
}
use smart_os.Base.Chain.{update}
use smart_os.Kernel.State.{ready, Task, Kernel}
use smart_os.Kernel.Schedule.{schedule}
use smart_os.Kernel.Block.{task_yield, then_do}
use smart_os.Sync.{
  Status, ok, timeout, error, is_ok, Semaphore, System, set_semaphore, set_tasks, enter, leave,
  enqueue,
}

unfoldable pub sem_init : System → Ptr → (initial_count max_count : ℕ) → System
sem_init s sem initial_count max_count =
    if sem == null || max_count == 0
    then s
    else leave (
        set_semaphore (enter s) sem (record {
          count = if ltb max_count initial_count then max_count else initial_count;
          max_count = max_count;
          wait_list = null;
        }))

unfoldable pub sem_try_wait : System → Ptr → Status × System
unfolding enter leave
sem_try_wait s sem =
    let s₁ = enter s in
    let v = s₁.semaphores sem in
    if sem == null
    then (error, s)
    else if ltb 0 v.count
    then (ok, leave (set_semaphore s₁ sem (record v { count = v.count - 1 })))
    else (timeout, leave s₁)

-- A task that has to wait, up to the call of `smart_task_yield`.
unfoldable pub sem_block : ℕ → System → Ptr → Option System
unfolding enqueue
sem_block fuel s sem =
    let v = s.semaphores sem in
    let current = s.kernel.current_task in
    if current == null
    then some s
    else then_do (enqueue fuel s.kernel.tasks v.wait_list current) λ (wait_list, tasks).
      set_semaphore (set_tasks s tasks) sem (record v { wait_list = wait_list })

-- `smart_sem_wait`; when it blocks, the state is the one in which it requests the switch, and the status
-- what it returns as soon as the task runs again.
unfoldable pub sem_wait : ℕ → System → Ptr → Option (Status × System)
unfolding enter leave sem_block task_yield
sem_wait fuel s sem =
    let s₁ = enter s in
    let v = s₁.semaphores sem in
    if sem == null
    then some (error, s)
    else if ltb 0 v.count
    then some (ok, leave (set_semaphore s₁ sem (record v { count = v.count - 1 })))
    else elim (sem_block fuel s₁ sem) [
      | none ↦ none
      | some s₂ ↦
          then_do (task_yield fuel (leave s₂).kernel) (λ k. (ok, record (leave s₂) { kernel = k }))
    ]

-- The first waiting task is taken off the queue and made ready.
unfoldable pub wake_first : System → Ptr → System
wake_first s sem =
    let v = s.semaphores sem in
    let task = v.wait_list in
    let t = s.kernel.tasks task in
    set_tasks (set_semaphore s sem (record v { wait_list = t.next }))
      (update s.kernel.tasks task (record t { next = null; state = ready }))

unfoldable pub sem_post : ℕ → System → Ptr → Option (Status × System)
unfolding enter leave wake_first schedule
sem_post fuel s sem =
    let s₁ = enter s in
    let v = s₁.semaphores sem in
    let s₂ = leave (wake_first s₁ sem) in
    if sem == null
    then some (error, s)
    else if v.wait_list == null
    then some (
      ok,
      leave (
          if ltb v.count v.max_count
          then set_semaphore s₁ sem (record v { count = v.count + 1 })
          else s₁),
    )
    else then_do (schedule fuel s₂.kernel) (λ k. (ok, record s₂ { kernel = k }))

unfoldable pub sem_get_count : System → Ptr → ℕ
sem_get_count s sem = if sem == null then 0 else (s.semaphores sem).count

-- `others` is what the other tasks and the interrupts do until the calling task runs again.
module _ (others : System → System) where
  unfoldable pub wait_loop :
      ℕ → ℕ → System → Ptr → (start_time timeout_ms : ℕ) → Option (Status × System)
  unfolding sem_try_wait task_yield
  wait_loop walk zero s sem start_time timeout_ms = none
  wait_loop walk (suc fuel) s sem start_time timeout_ms =
      let (status, s₁) = sem_try_wait s sem in
      let again : Option (Status × System) = elim (task_yield walk s₁.kernel) [
        | none ↦ none
        | some k ↦ wait_loop walk fuel (others (record s₁ { kernel = k })) sem start_time timeout_ms
      ] in
      if is_ok status
      then some (ok, s₁)
      else if leb timeout_ms (sub_u32 s₁.kernel.os_tick start_time)
      then some (timeout, s₁)
      else again

  unfoldable pub sem_wait_timeout :
      ℕ → ℕ → System → Ptr → (timeout_ms : ℕ) → Option (Status × System)
  unfolding wait_loop
  sem_wait_timeout walk fuel s sem timeout_ms =
      if sem == null then some (error, s) else wait_loop walk fuel s sem s.kernel.os_tick timeout_ms
