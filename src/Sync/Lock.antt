-- ===== src/Sync/Lock.antt =====
-- The recursive locks with their inheritance of deadlines.
pub mod Recursive
use smart_os.Base.{
  ℕ, zero, suc, ◌+◌, ◌-◌, Bool, true, false, not, Option, none, some, Ptr, null, u32, sub_u32, ltb,
  leb, ◌==◌, if◌then◌else◌,
}
use smart_os.Base.Chain.{update}
use smart_os.Kernel.State.{ready, Task, Kernel}
use smart_os.Kernel.Schedule.{schedule}
use smart_os.Kernel.Block.{task_yield, then_do}
use smart_os.Sync.{
  Status, ok, timeout, error, is_ok, Mutex, System, set_mutex, set_tasks, set_next, enter, leave,
  enqueue,
}

unfoldable pub mutex_init : System → Ptr → System
mutex_init s mutex =
    if mutex == null
    then s
    else leave (
        set_mutex (enter s) mutex (record {
          locked = false;
          owner = null;
          lock_count = 0;
          original_deadline = 0;
          wait_list = null;
        }))

-- A free lock is taken.
abbrev pub taken_by : Ptr → Kernel → Mutex → Mutex
taken_by current k m = record m {
  locked = true;
  owner = current;
  lock_count = 1;
  original_deadline = (k.tasks current).deadline;
}

unfoldable pub mutex_try_lock : System → Ptr → Status × System
unfolding enter leave
mutex_try_lock s mutex =
    let s₁ = enter s in
    let m = s₁.mutexes mutex in
    let current = s.kernel.current_task in
    if mutex == null
    then (error, s)
    else if current == null
    then (error, s)
    else if not m.locked
    then (ok, leave (set_mutex s₁ mutex (taken_by current s₁.kernel m)))
    else if m.owner == current
    then (ok, leave (set_mutex s₁ mutex (record m { lock_count = u32 (m.lock_count + 1) })))
    else (timeout, leave s₁)

-- The owner's deadline becomes that of the task that waits for it, if this is the earlier one.
unfoldable pub inherit : (Ptr → Task) → (owner current : Ptr) → Ptr → Task
inherit tasks owner current =
    let earlier = (tasks current).deadline in
    if ltb earlier (tasks owner).deadline
    then update tasks owner (record (tasks owner) { deadline = earlier })
    else tasks

-- `smart_mutex_lock`; when it blocks, the state and the status are as for `sem_wait`.
unfoldable pub mutex_lock : ℕ → System → Ptr → Option (Status × System)
unfolding enter leave enqueue inherit task_yield
mutex_lock fuel s mutex =
    let s₁ = enter s in
    let m = s₁.mutexes mutex in
    let current = s.kernel.current_task in
    if mutex == null
    then some (error, s)
    else if current == null
    then some (error, s)
    else if not m.locked
    then some (ok, leave (set_mutex s₁ mutex (taken_by current s₁.kernel m)))
    else if m.owner == current
    then some (ok, leave (set_mutex s₁ mutex (record m { lock_count = u32 (m.lock_count + 1) })))
    else elim (enqueue fuel (inherit s₁.kernel.tasks m.owner current) m.wait_list current) [
      | none ↦ none
      | some (wait_list, tasks) ↦
          let s₂ =
            leave (set_mutex (set_tasks s₁ tasks) mutex (record m { wait_list = wait_list })) in
          then_do (task_yield fuel s₂.kernel) (λ k. (ok, record s₂ { kernel = k }))
    ]

-- The loop over the queue: the waiting task with the earliest deadline, and the one before it.
unfoldable pub find_waiter :
    ℕ → (Ptr → Task) → (node prev best prev_best : Ptr) → Option (Ptr × Ptr)
find_waiter zero tasks node prev best prev_best = none
find_waiter (suc fuel) tasks node prev best prev_best =
    let better = ltb (tasks node).deadline (tasks best).deadline in
    let rest =
      find_waiter fuel tasks (tasks node).next node (if better then node else best)
        (if better then prev else prev_best) in
    if node == null then some (best, prev_best) else rest

-- The lock goes to the waiting task `best`, which leaves the queue and is ready.
unfoldable pub hand_over : System → (mutex best prev_best : Ptr) → System
hand_over s mutex best prev_best =
    let m = s.mutexes mutex in
    let tasks = s.kernel.tasks in
    let after = (tasks best).next in
    let tasks₁ = if prev_best == null then tasks else set_next tasks prev_best after in
    let tasks₂ = update tasks₁ best (record (tasks₁ best) { next = null; state = ready }) in
    set_mutex (set_tasks s tasks₂) mutex (record m {
      wait_list = if prev_best == null then after else m.wait_list;
      owner = best;
      lock_count = 1;
      original_deadline = (tasks₂ best).deadline;
    })

-- The last unlock: the owner has its own deadline again, and the lock goes to a waiting task or is free.
unfoldable pub release : ℕ → System → (mutex current : Ptr) → Option (Status × System)
unfolding leave find_waiter hand_over schedule
release fuel s mutex current =
    let m = s.mutexes mutex in
    let t = s.kernel.tasks current in
    let s₁ =
      set_tasks s (update s.kernel.tasks current (record t { deadline = m.original_deadline })) in
    let w = m.wait_list in
    if w == null
    then some (ok, leave (set_mutex s₁ mutex (record m { locked = false; owner = null })))
    else elim (find_waiter fuel s₁.kernel.tasks w null w null) [
      | none ↦ none
      | some (best, prev_best) ↦
          let s₂ = leave (hand_over s₁ mutex best prev_best) in
          then_do (schedule fuel s₂.kernel) (λ k. (ok, record s₂ { kernel = k }))
    ]

unfoldable pub mutex_unlock : ℕ → System → Ptr → Option (Status × System)
unfolding enter leave release
mutex_unlock fuel s mutex =
    let s₁ = enter s in
    let m = s₁.mutexes mutex in
    let current = s.kernel.current_task in
    let n = sub_u32 m.lock_count 1 in
    let s₂ = set_mutex s₁ mutex (record m { lock_count = n }) in
    if mutex == null
    then some (error, s)
    else if current == null
    then some (error, s)
    else if not (m.owner == current)
    then some (error, leave s₁)
    else if ltb 0 n
    then some (ok, leave s₂)
    else release fuel s₂ mutex current

unfoldable pub mutex_is_locked : System → Ptr → Bool
mutex_is_locked s mutex = if mutex == null then false else (s.mutexes mutex).locked

-- `others` is what the other tasks and the interrupts do until the calling task runs again.
module _ (others : System → System) where
  unfoldable pub lock_loop :
      ℕ → ℕ → System → Ptr → (start_time timeout_ms : ℕ) → Option (Status × System)
  unfolding mutex_try_lock task_yield
  lock_loop walk zero s mutex start_time timeout_ms = none
  lock_loop walk (suc fuel) s mutex start_time timeout_ms =
      let (status, s₁) = mutex_try_lock s mutex in
      let again : Option (Status × System) = elim (task_yield walk s₁.kernel) [
        | none ↦ none
        | some k ↦
            lock_loop walk fuel (others (record s₁ { kernel = k })) mutex start_time timeout_ms
      ] in
      if is_ok status
      then some (ok, s₁)
      else if leb timeout_ms (sub_u32 s₁.kernel.os_tick start_time)
      then some (timeout, s₁)
      else again

  unfoldable pub mutex_lock_timeout :
      ℕ → ℕ → System → Ptr → (timeout_ms : ℕ) → Option (Status × System)
  unfolding lock_loop
  mutex_lock_timeout walk fuel s mutex timeout_ms =
      if mutex == null
      then some (error, s)
      else lock_loop walk fuel s mutex s.kernel.os_tick timeout_ms
