-- ===== src/Kernel/Create.antt =====
-- `smart_os_init` and `smart_task_create`, less its first call, `smart_uart_init`, which sets the serial
-- driver up and touches nothing of the kernel.
pub mod Laws
use Prim.Native.Nat.{bit_or}
use smart_os.Base.{
  ◌||◌, ℕ, zero, suc, ◌+◌, ◌-◌, ◌*◌, ◌/◌, ◌%◌, true, false, List, [], ◌∷◌, Ptr, null, u32, sub_u32,
  max_u32, ltb, ◌==◌, if◌then◌else◌,
}
use smart_os.Base.Chain.{update}
use smart_os.Kernel.State.{TaskState, ready, Task, Kernel, stack_guard_pattern}
use smart_os.Kernel.Critical.{enter_critical, exit_critical}

-- `while ((uint32_t)ptr & 7) ptr--;`: at most seven rounds.
unfoldable pub align_down : ℕ → Ptr → Ptr
align_down zero ptr = ptr
align_down (suc fuel) ptr =
    let rest = align_down fuel (sub_u32 ptr 1) in if ptr % 8 == 0 then ptr else rest

-- `*(--stk) = w` for each word in turn.
unfoldable pub push_words : List ℕ → (Ptr → ℕ) → Ptr → (Ptr → ℕ) × Ptr
push_words [] mem stk = (mem, stk)
push_words (w ∷ ws) mem stk = push_words ws (update mem (sub_u32 stk 4) w) (sub_u32 stk 4)

-- xPSR, PC, LR, R12, R3, R2, R1, R0 and R4 to R11.
unfoldable pub frame : (entry parameter : ℕ) → List ℕ
frame entry parameter =
    0x0100_0000
    ∷ bit_or entry 1
    ∷ 0
    ∷ 0
    ∷ 0
    ∷ 0
    ∷ 0
    ∷ parameter
    ∷ 0
    ∷ 0
    ∷ 0
    ∷ 0
    ∷ 0
    ∷ 0
    ∷ 0
    ∷ 0
    ∷ []

unfoldable pub hw_stack_init : (entry parameter : ℕ) → Ptr → (Ptr → ℕ) → (Ptr → ℕ) × Ptr
unfolding push_words frame
hw_stack_init entry parameter stack_addr mem = push_words (frame entry parameter) mem stack_addr

-- `smart_stack_guard_init`
unfoldable pub stack_guard_init : Kernel → Ptr → Kernel
stack_guard_init k task =
    let guard = u32 ((k.tasks task).stack_addr + 3) / 4 * 4 in
    if task == null || (k.tasks task).stack_addr == null then k else record k {
      tasks = update k.tasks task (record (k.tasks task) { stack_guard = guard });
      mem = update k.mem guard stack_guard_pattern;
    }

-- The control block that `smart_task_create` fills in, before the guard and the link.
unfoldable pub fresh_task :
    Kernel → (entry param stack sp : Ptr) → (stack_size period relative_deadline : ℕ) → Task → Task
fresh_task k entry param stack sp stack_size period relative_deadline old = record old {
  sp = sp;
  entry = entry;
  parameter = param;
  stack_addr = stack;
  stack_size = stack_size;
  stack_guard = null;
  period = period;
  switch_count = 0;
  min_free_stack = stack_size;
  exec_start_time = 0;
  last_exec_time = 0;
  avg_exec_time = 0;
  max_exec_time = 0;
  deadline_miss_count = 0;
  arrival = k.os_tick;
  wakeup_time = 0;
  deadline = if ltb 0 period then u32 (k.os_tick + relative_deadline) else max_u32;
  state = ready;
}

unfoldable pub task_create :
    Kernel → (task entry param stack : Ptr) → (stack_size period relative_deadline : ℕ) → Kernel
task_create k task entry param stack stack_size period relative_deadline =
    let k₁ = enter_critical k in
    let (mem, sp) = hw_stack_init entry param (align_down 8 (u32 (stack + stack_size))) k₁.mem in
    let t =
      fresh_task k₁ entry param stack sp stack_size period relative_deadline (k₁.tasks task) in
    let k₂ = stack_guard_init (record k₁ { tasks = update k₁.tasks task t; mem = mem }) task in
    exit_critical (record k₂ {
      tasks = update k₂.tasks task (record (k₂.tasks task) { next = k₂.task_list });
      task_list = task;
    })

-- `smart_os_init`, less the call of `smart_timer_init`.
unfoldable pub os_init : Kernel → Kernel
os_init k =
    let k₁ = record k {
      current_task = null;
      task_list = null;
      next_task = null;
      os_tick = 0;
      scheduler_started = false;
      critical_nesting = 0;
    } in
    let k₂ = task_create k₁ k.idle_task k.idle_entry null k.idle_stack 256 0 max_u32 in
    record k₂ {
      tasks = update k₂.tasks k.idle_task (record (k₂.tasks k.idle_task) { state = ready });
    }
