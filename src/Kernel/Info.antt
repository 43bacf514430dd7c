-- ===== src/Kernel/Info.antt =====
-- `smart_get_task_list` and the small queries.
use smart_os.Base.{
  ℕ, zero, suc, ◌≡◌, refl, Bool, true, false, List, [], ◌∷◌, Ptr, null, ◌==◌, if◌then◌else◌, take,
  arith, ap,
}
use mathlib.Core.List.{map}
use smart_os.Base.Chain.{Chain}
use smart_os.Kernel.State.{TaskState, Task, Kernel, link}

-- `smart_task_info_t`
pub record TaskInfo : Type 0 where
  pub entry : Ptr
  pub deadline : ℕ
  pub period : ℕ
  pub state : TaskState
  pub switch_count : ℕ
  pub stack_size : ℕ
  pub min_free_stack : ℕ
  pub last_exec_time : ℕ
  pub avg_exec_time : ℕ
  pub max_exec_time : ℕ
  pub deadline_miss_count : ℕ

unfoldable pub info : Task → TaskInfo
info t = record {
  entry = t.entry;
  deadline = t.deadline;
  period = t.period;
  state = t.state;
  switch_count = t.switch_count;
  stack_size = t.stack_size;
  min_free_stack = t.min_free_stack;
  last_exec_time = t.last_exec_time;
  avg_exec_time = t.avg_exec_time;
  max_exec_time = t.max_exec_time;
  deadline_miss_count = t.deadline_miss_count;
}

-- The loop, with room for `room` more entries.
unfoldable pub collect : ℕ → (Ptr → Task) → Ptr → List TaskInfo
unfolding info
collect zero tasks node = []
collect (suc room) tasks node =
    if node == null then [] else info (tasks node) ∷ collect room tasks (tasks node).next

-- What is written to `info_array`, whose `NULL` is the `false`; the function returns its length.
unfoldable pub get_task_list : Bool → ℕ → Kernel → List TaskInfo
unfolding collect
get_task_list false max_tasks k = []
get_task_list true max_tasks k = collect max_tasks k.tasks k.task_list

unfoldable pub get_tick : Kernel → ℕ
get_tick k = k.os_tick

unfoldable pub get_current_task : Kernel → Ptr
get_current_task k = k.current_task

collect-Chain :
    (n : ℕ) (tasks : Ptr → Task) (p : Ptr) (xs : List Ptr)
    → Chain (link tasks) p xs
    → collect n tasks p ≡ map (λ x. info (tasks x)) (take n xs)
unfolding collect
collect-Chain zero tasks p xs c = refl
collect-Chain (suc n) tasks p [] c = ground arith
collect-Chain (suc n) tasks p (x ∷ xs) c =
    ground (arith, collect-Chain n tasks (tasks x).next xs, ap tasks {x = p} {y = x})

-- `smart_get_task_list` reports the first `max_tasks` tasks of the task list, in its order.
pub get_task_list_lem :
    (max_tasks : ℕ) (k : Kernel) (xs : List Ptr)
    → Chain (link k.tasks) k.task_list xs
    → get_task_list true max_tasks k ≡ map (λ x. info (k.tasks x)) (take max_tasks xs)
unfolding get_task_list
get_task_list_lem max_tasks k xs c = collect-Chain max_tasks k.tasks k.task_list xs c
