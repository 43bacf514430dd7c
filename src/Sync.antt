-- ===== src/Sync.antt =====
-- core/smart_sync.c and its header: semaphores and recursive locks whose waiting tasks are linked through
-- the same field as the kernel's task list.
pub mod Sem
pub mod Lock
mod Tests
use smart_os.Base.{
  ℕ, zero, suc, ◌+◌, Bool, true, false, Option, none, some, Ptr, null, ◌==◌, if◌then◌else◌,
}
use smart_os.Base.Chain.{update}
use smart_os.Kernel.State.{waiting, Task, Kernel}
use smart_os.Kernel.Critical.{enter_critical, exit_critical}

-- `smart_sync_status_t`
pub data Status : Type 0 where
  ok timeout error : Status

abbrev pub is_ok : Status → Bool
is_ok ok = true
is_ok _ = false

-- `smart_semaphore_t`
pub record Semaphore : Type 0 where
  pub count : ℕ
  pub max_count : ℕ
  pub wait_list : Ptr

-- `smart_mutex_t`; `locked` is the byte that is 0 or 1.
pub record Mutex : Type 0 where
  pub locked : Bool
  pub owner : Ptr
  pub lock_count : ℕ
  pub original_deadline : ℕ
  pub wait_list : Ptr

-- The kernel, and the semaphores and locks by address.
pub record System : Type 0 where
  pub kernel : Kernel
  pub semaphores : Ptr → Semaphore
  pub mutexes : Ptr → Mutex

abbrev pub set_semaphore : System → Ptr → Semaphore → System
set_semaphore s p v = record s { semaphores = update s.semaphores p v }

abbrev pub set_mutex : System → Ptr → Mutex → System
set_mutex s p v = record s { mutexes = update s.mutexes p v }

abbrev pub set_tasks : System → (Ptr → Task) → System
set_tasks s tasks = record s { kernel = record (s.kernel) { tasks = tasks } }

unfoldable pub enter : System → System
unfolding enter_critical
enter s = record s { kernel = enter_critical s.kernel }

unfoldable pub leave : System → System
unfolding exit_critical
leave s = record s { kernel = exit_critical s.kernel }

-- `while (node->next != NULL) node = node->next;`
unfoldable pub find_last : ℕ → (Ptr → Task) → Ptr → Option Ptr
find_last zero tasks node = none
find_last (suc fuel) tasks node =
    let rest = find_last fuel tasks (tasks node).next in
    if (tasks node).next == null then some node else rest

-- A task's link is set.
abbrev pub set_next : (Ptr → Task) → Ptr → Ptr → Ptr → Task
set_next tasks p next = update tasks p (record (tasks p) { next = next })

-- The current task waits at the end of the queue: the queue's first task and the tasks, afterwards.
unfoldable pub enqueue : ℕ → (Ptr → Task) → (wait_list current : Ptr) → Option (Ptr × (Ptr → Task))
unfolding find_last
enqueue fuel tasks wait_list current =
    let tasks₁ = update tasks current (record (tasks current) { state = waiting }) in
    if wait_list == null
    then some (current, set_next tasks₁ current null)
    else elim (find_last fuel tasks₁ wait_list) [
      | none ↦ none
      | some node ↦ some (wait_list, set_next (set_next tasks₁ node current) current null)
    ]
