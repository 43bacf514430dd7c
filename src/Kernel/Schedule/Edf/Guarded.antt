-- ===== src/Kernel/Schedule/Edf/Guarded.antt =====
-- Where `smart_schedule` returns: the stack guards that its check looks at.
use smart_os.Base.{ℕ, ◌<◌, ◌≡◌, ◌∙◌, true, some, List, ◌∷◌, Ptr, arith, length, ap}
use smart_os.Base.Chain.{has, Chain}
use smart_os.Kernel.State.{Kernel, link}
use smart_os.Kernel.Schedule.{guard_ok, schedule}
use smart_os.Kernel.Schedule.Keeps.{dispatched, dispatched-Agree, dispatched_keeps, guard_ok-frame}
use smart_os.Kernel.Schedule.Edf.{Next, idle, task, schedule-dispatched}

-- The stack guards of the current task, the idle task and the tasks `xs` are intact.
abbrev pub IsGuarded : Kernel → List Ptr → Type 0
IsGuarded k xs = (q : Ptr) → has q (k.current_task ∷ k.idle_task ∷ xs) ≡ true → guard_ok k q ≡ true

pub Next-guard_ok :
    (k : Kernel) (xs : List Ptr) (p : Ptr) → IsGuarded k xs → Next k xs p → guard_ok k p ≡ true
Next-guard_ok k xs p g (idle e all) = g p (ground (arith, e))
Next-guard_ok k xs p g (task i r l all) = g p (ground (arith, i))

-- With these guards intact, `smart_schedule` returns.
pub schedule-returns :
    (fuel : ℕ) (k : Kernel) (xs : List Ptr)
    → Chain (link k.tasks) k.task_list xs
    → length xs < fuel
    → IsGuarded k xs
    → (p : Ptr) × (schedule fuel k ≡ some (dispatched k p)) × Next k xs p
schedule-returns fuel k xs c h g =
    let (p, e, n) = schedule-dispatched fuel k xs c h in
    let here : guard_ok k k.current_task ≡ true = g k.current_task (ground arith) in
    let there : guard_ok k p ≡ true = Next-guard_ok k xs p g n in
    (p, e ∙ ground (arith, here, there), n)

-- They are intact afterwards too: a current task that was not there before is the chosen one.
pub dispatched-IsGuarded :
    (k : Kernel) (xs : List Ptr) (p : Ptr)
    → IsGuarded k xs
    → Next k xs p
    → IsGuarded (dispatched k p) xs
dispatched-IsGuarded k xs p g n q i =
    let (_, _, current, _, _, idles, same, _, _) = dispatched_keeps k p in
    guard_ok-frame (dispatched k p) k q same (dispatched-Agree k p q).stack_guard
    ∙ ground (arith, current, idles, g q, Next-guard_ok k xs p g n, ap (guard_ok k) {x = q} {y = p})
