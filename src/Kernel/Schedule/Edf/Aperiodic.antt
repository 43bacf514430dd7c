-- ===== src/Kernel/Schedule/Edf/Aperiodic.antt =====
-- A task with the deadline of a task without a period is never scheduled.
use smart_os.Base.{
  ℕ, ◌<◌, ◌≡◌, ◌≢◌, subst, sym, none, some, List, Ptr, max_u32, arith, length, if◌then◌else◌, ap,
}
use smart_os.Base.Chain.{Chain}
use smart_os.Kernel.State.{Kernel, link}
use smart_os.Kernel.Schedule.{schedule}
use smart_os.Kernel.Schedule.Edf.{Next, idle, task, schedule-dispatched}
use smart_os.Kernel.Schedule.Keeps.{stuck, dispatched, dispatched_keeps}

Next-ne :
    (k : Kernel) (xs : List Ptr) (n p : Ptr)
    → Next k xs n
    → p ≢ k.idle_task
    → (k.tasks p).deadline ≡ max_u32
    → n ≢ p
Next-ne k xs n p (idle e all) ne d z = ground arith
Next-ne k xs n p (task i r l all) ne d z = omega (arith, ap (λ q. (k.tasks q).deadline) z)

-- Whatever else is ready, and whether or not the switch meets a broken guard, `smart_schedule` never makes a task with the deadline `0xFFFFFFFF` the next
-- one, READY or not, unless it is the idle task. `smart_task_create` gives this deadline to every task
-- without a period.
pub schedule_never_aperiodic :
    (fuel : ℕ) (k : Kernel) (xs : List Ptr) (p : Ptr)
    → Chain (link k.tasks) k.task_list xs
    → length xs < fuel
    → p ≢ k.idle_task
    → (k.tasks p).deadline ≡ max_u32
    → (k' : Kernel) × (schedule fuel k ≡ (if stuck k k'.next_task then none else some k'))
      × (k'.next_task ≢ p)
schedule_never_aperiodic fuel k xs p c h ne d =
    let (c', e, n) = schedule-dispatched fuel k xs c h in
    let (_, _, _, _, _, _, _, next, _) = dispatched_keeps k c' in
    (
      dispatched k c',
      subst (λ q. schedule fuel k ≡ (if stuck k q then none else some (dispatched k c'))) (sym next)
          e,
      subst (λ q. q ≢ p) (sym next) (Next-ne k xs c' p n ne d),
    )
