-- ===== src/Kernel/Block/Laws.antt =====
-- A task that yields or sleeps.
use smart_os.Base.{
  ℕ, ◌+◌, ◌^◌, ◌<◌, ◌≡◌, ◌≢◌, refl, false, some, List, Ptr, null, arith, length, u32, ltb, ◌==◌,
  ==_refl, if◌then◌else◌, ap, ◌∙◌,
}
use smart_os.Base.Chain.{update, Chain, Chain-frame}
use smart_os.Kernel.State.{ready, waiting, delayed, Task, Kernel, link}
use smart_os.Kernel.Critical.{enter_critical, exit_critical}
use smart_os.Kernel.Critical.Nesting.{exit-enter, exit_critical_keeps}
use smart_os.Kernel.Schedule.{schedule}
use smart_os.Kernel.Schedule.Edf.{Next}
use smart_os.Kernel.Schedule.Edf.Guarded.{IsGuarded, schedule-returns}
use smart_os.Kernel.Schedule.Keeps.{
  Agree, dispatched, dispatched-Agree, dispatched_keeps, guard_ok-frame,
}
use smart_os.Kernel.Block.{then_do, finish_period, yielded, task_yield, sleep, delayed_from, delay}

-- A critical section in which the current task's block is replaced and the scheduler called.
module _ (f : Task → Task)
    (links : (t : Task) → ((f t).next ≡ t.next) × ((f t).stack_guard ≡ t.stack_guard))
    (k : Kernel) where
  abbrev given_up : Kernel
  given_up = record (enter_critical k) {
    tasks = update k.tasks k.current_task (f (k.tasks k.current_task));
  }

  given_up-Chain :
      (xs : List Ptr)
      → Chain (link k.tasks) k.task_list xs
      → Chain (link given_up.tasks) k.task_list xs
  given_up-Chain xs =
      Chain-frame (link k.tasks) (link given_up.tasks) k.task_list xs λ a h.
        ground (arith, links (k.tasks k.current_task), ap k.tasks {x = a} {y = k.current_task})

  given_up-IsGuarded : (xs : List Ptr) → IsGuarded k xs → IsGuarded given_up xs
  unfolding enter_critical
  given_up-IsGuarded xs g q i =
      guard_ok-frame given_up k q refl
        (ground (arith, links (k.tasks k.current_task), ap k.tasks {x = q} {y = k.current_task}))
      ∙ g q i

  give_up :
      (fuel : ℕ) (xs : List Ptr)
      → Chain (link k.tasks) k.task_list xs
      → length xs < fuel
      → IsGuarded k xs
      → k.critical_nesting + 1 < 2 ^ 32
      → (k' : Kernel) × (then_do (schedule fuel given_up) exit_critical ≡ some k')
        × Next given_up xs k'.next_task
        × Agree (k'.tasks k.current_task) (f (k.tasks k.current_task))
        × ((q : Ptr) → q ≢ k.current_task → Agree (k'.tasks q) (k.tasks q))
        × (k'.critical_nesting ≡ k.critical_nesting)
        × (k'.task_list ≡ k.task_list)
  unfolding enter_critical
  give_up fuel xs c h g n =
      let (p, e, next) =
        schedule-returns fuel given_up xs (given_up-Chain xs c) h (given_up-IsGuarded xs g) in
      let j = dispatched given_up p in
      let (_, lists, _, depth, _, _, _, sets, _) = dispatched_keeps given_up p in
      let (kept, chosen, _, _, listed, _, _) = exit_critical_keeps j in
      (
        exit_critical j,
        rw e refl,
        rw (chosen, sets) next,
        rw kept (replaced p),
        λ q ne. rw kept (spared p q ne),
        exit-enter k j n depth,
        listed ∙ lists,
      )
    where
      replaced :
          (p : Ptr)
          → Agree ((dispatched given_up p).tasks k.current_task) (f (k.tasks k.current_task))
      replaced p = rw (==_refl k.current_task) at (dispatched-Agree given_up p k.current_task)

      spared :
          (p q : Ptr) → q ≢ k.current_task → Agree ((dispatched given_up p).tasks q) (k.tasks q)
      spared p q ne = ground (arith, dispatched-Agree given_up p q)

-- `smart_task_yield` on a task list that ends, with the stack guards of the current task, the idle task and
-- the listed tasks intact: the call returns at the nesting depth at which it was made. A current task with a
-- period waits, its arrival and deadline one period later, and one without is ready; the other times that
-- scheduling reads, the links and the guards' addresses stay. No other task's state, link, deadline, period,
-- arrival, wake-up time or guard address changes, nor does the task list; and the next task is the earliest
-- ready one after this, or the idle task.
pub task_yield_lem :
    (fuel : ℕ) (k : Kernel) (xs : List Ptr)
    → Chain (link k.tasks) k.task_list xs
    → length xs < fuel
    → IsGuarded k xs
    → k.critical_nesting + 1 < 2 ^ 32
    → let t = k.tasks k.current_task in
      (k' : Kernel) × (task_yield fuel k ≡ some k')
      × Next (yielded k) xs k'.next_task
      × Agree (k'.tasks k.current_task) (
          if ltb 0 t.period
          then record t {
            state = waiting;
            arrival = u32 (t.arrival + t.period);
            deadline = u32 (t.deadline + t.period);
          }
          else record t { state = ready })
      × ((q : Ptr) → q ≢ k.current_task → Agree (k'.tasks q) (k.tasks q))
      × (k'.critical_nesting ≡ k.critical_nesting)
      × (k'.task_list ≡ k.task_list)
unfolding task_yield yielded finish_period
task_yield_lem fuel k xs c h g n = give_up finish_period (λ t. ground arith) k fuel xs c h g n

-- `smart_delay` of a running task on a task list that ends, with the guards intact: the task is delayed until
-- the given number of ticks from now, no other task changes in what scheduling reads, nor does the task list, and the next task is the earliest ready one after this.
pub delay_lem :
    (fuel ticks : ℕ) (k : Kernel) (xs : List Ptr)
    → Chain (link k.tasks) k.task_list xs
    → length xs < fuel
    → IsGuarded k xs
    → k.critical_nesting + 1 < 2 ^ 32
    → 0 < ticks
    → k.current_task ≢ null
    → (k' : Kernel) × (delay fuel ticks k ≡ some k')
      × Next (delayed_from ticks k) xs k'.next_task
      × Agree (k'.tasks k.current_task) (record (k.tasks k.current_task) {
        wakeup_time = u32 (k.os_tick + ticks);
        state = delayed;
      })
      × ((q : Ptr) → q ≢ k.current_task → Agree (k'.tasks q) (k.tasks q))
      × (k'.critical_nesting ≡ k.critical_nesting)
      × (k'.task_list ≡ k.task_list)
unfolding delay delayed_from sleep
delay_lem fuel ticks k xs c h g n pos here =
    rw (some_ticks, running)
      (give_up (sleep (u32 (k.os_tick + ticks))) (λ t. (refl, refl)) k fuel xs c h g n)
  where
    some_ticks : (ticks == 0) ≡ false
    some_ticks = ground arith

    running : (k.current_task == null) ≡ false
    running = ground arith
