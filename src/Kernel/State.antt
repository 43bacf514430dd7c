-- ===== src/Kernel/State.antt =====
-- The task control block and the static variables of core/smart_core.c.
use smart_os.Base.{ℕ, Bool, Ptr}

-- The `TASK_STATE_` values.
pub data TaskState : Type 0 where
  init ready running waiting suspend delayed : TaskState

-- `struct smart_task`
pub record Task : Type 0 where
  pub sp : Ptr
  pub entry : Ptr
  pub parameter : Ptr
  pub stack_addr : Ptr
  pub stack_size : ℕ
  pub stack_guard : Ptr
  pub deadline : ℕ
  pub period : ℕ
  pub arrival : ℕ
  pub wakeup_time : ℕ
  pub state : TaskState
  pub switch_count : ℕ
  pub min_free_stack : ℕ
  pub exec_start_time : ℕ
  pub last_exec_time : ℕ
  pub avg_exec_time : ℕ
  pub max_exec_time : ℕ
  pub deadline_miss_count : ℕ
  pub next : Ptr

-- The static variables, the control blocks by address, and the words of the stacks. `irq_enabled` is
-- what CPSID and CPSIE set, and `pend_sv` says that a context switch is requested. The last three are
-- addresses that the linker chooses.
pub record Kernel : Type 0 where
  pub tasks : Ptr → Task
  pub mem : Ptr → ℕ
  pub current_task : Ptr
  pub next_task : Ptr
  pub task_list : Ptr
  pub scheduler_started : Bool
  pub os_tick : ℕ
  pub critical_nesting : ℕ
  pub irq_enabled : Bool
  pub pend_sv : Bool
  pub idle_task : Ptr
  pub idle_stack : Ptr
  pub idle_entry : Ptr

abbrev pub stack_guard_pattern : ℕ
stack_guard_pattern = 0xdead_beef

-- The link that the kernel's lists run through.
abbrev pub link : (Ptr → Task) → Ptr → Ptr
link tasks p = (tasks p).next
