-- ===== src/Kernel/Schedule/Keeps.antt =====
-- What `smart_schedule` leaves, and what it leaves alone.
use smart_os.Base.{
  ℕ, ◌≡◌, refl, Bool, true, not, ◌&&◌, ◌||◌, none, some, Ptr, null, arith, ◌==◌, if◌then◌else◌, ap,
  ◌∙◌,
}
use smart_os.Kernel.State.{Task, Kernel}
use smart_os.Kernel.Schedule.{
  update_watermark, guard_ok, switch_out, charge, start_next, switch_tasks, dispatch,
}

-- Two control blocks that agree in what scheduling reads and links.
pub record Agree (t u : Task) : Type 0 where
  pub next : t.next ≡ u.next
  pub state : t.state ≡ u.state
  pub deadline : t.deadline ≡ u.deadline
  pub period : t.period ≡ u.period
  pub arrival : t.arrival ≡ u.arrival
  pub wakeup_time : t.wakeup_time ≡ u.wakeup_time
  pub stack_guard : t.stack_guard ≡ u.stack_guard

switch_out-Agree : (now : ℕ) (t : Task) → Agree (switch_out now t) t
unfolding switch_out update_watermark
switch_out-Agree now t = ground arith

charge-Agree : (k : Kernel) (q : Ptr) → Agree ((charge k).tasks q) (k.tasks q)
unfolding charge
charge-Agree k q = ground (
  arith,
  switch_out-Agree k.os_tick (k.tasks k.current_task),
  ap k.tasks {x = q} {y = k.current_task},
)

start_next-Agree : (k : Kernel) (q : Ptr) → Agree ((start_next k).tasks q) (k.tasks q)
unfolding start_next
start_next-Agree k q = ground (arith, ap k.tasks {x = q} {y = k.next_task})

-- Whether `smart_schedule` asks for a switch to the task that it has chosen.
abbrev pub switches : Kernel → Ptr → Bool
switches k p = k.scheduler_started && not (k.current_task == p)

-- Whether this switch meets a broken stack guard.
abbrev pub stuck : Kernel → Ptr → Bool
stuck k p = switches k p && not (guard_ok k k.current_task && guard_ok k p)

abbrev pub switched : Kernel → Kernel
switched k = record (start_next (charge k)) { pend_sv = true }

-- What `smart_schedule` leaves when it returns.
unfoldable pub dispatched : Kernel → Ptr → Kernel
dispatched k p =
    let k₁ = record k { next_task = p } in
    if switches k p
    then switched k₁
    else if k.scheduler_started
    then k₁
    else record k₁ { current_task = if k.current_task == null then p else k.current_task }

switched-Agree : (k : Kernel) (q : Ptr) → Agree ((switched k).tasks q) (k.tasks q)
switched-Agree k q = ground (arith, start_next-Agree (charge k) q, charge-Agree k q)

-- `smart_schedule` changes no task's link, state, deadline, period, arrival, wake-up time or guard.
pub dispatched-Agree : (k : Kernel) (p q : Ptr) → Agree ((dispatched k p).tasks q) (k.tasks q)
unfolding dispatched
dispatched-Agree k p q = ground (arith, switched-Agree (record k { next_task = p }) q)

started_keeps :
    (k : Kernel)
    → ((start_next (charge k)).current_task ≡ k.current_task)
      × ((start_next (charge k)).next_task ≡ k.next_task)
      × ((start_next (charge k)).mem ≡ k.mem)
unfolding charge start_next
started_keeps k = ground arith

-- Nor the tick, the task list, the idle task, the words of memory or the critical section.
pub dispatched_keeps :
    (k : Kernel) (p : Ptr)
    → ((dispatched k p).os_tick ≡ k.os_tick)
      × ((dispatched k p).task_list ≡ k.task_list)
      × ((dispatched k p).current_task
          ≡ (if not k.scheduler_started && k.current_task == null then p else k.current_task))
      × ((dispatched k p).critical_nesting ≡ k.critical_nesting)
      × ((dispatched k p).irq_enabled ≡ k.irq_enabled)
      × ((dispatched k p).idle_task ≡ k.idle_task)
      × ((dispatched k p).mem ≡ k.mem)
      × ((dispatched k p).next_task ≡ p)
      × ((dispatched k p).pend_sv ≡ (k.pend_sv || switches k p))
unfolding dispatched charge start_next
dispatched_keeps k p = ground arith

-- A guard is as good as before where neither its address nor the memory has changed.
pub guard_ok-frame :
    (j k : Kernel) (q : Ptr)
    → j.mem ≡ k.mem
    → (j.tasks q).stack_guard ≡ (k.tasks q).stack_guard
    → guard_ok j q ≡ guard_ok k q
unfolding guard_ok
guard_ok-frame j k q m g = rw (m, g) refl

switch_tasks-switched :
    (k : Kernel)
    → switch_tasks k
      ≡ (if guard_ok k k.current_task && guard_ok k k.next_task then some (switched k) else none)
unfolding switch_tasks guard_ok
switch_tasks-switched k =
    let j = start_next (charge k) in
    let guard = λ (q : Ptr).
      guard_ok-frame j k q (started_keeps k).2
        ((start_next-Agree (charge k) q).stack_guard ∙ (charge-Agree k q).stack_guard) in
    rw ((started_keeps k).0, (started_keeps k).1, guard k.current_task, guard k.next_task) refl

-- `smart_schedule` returns unless a switch meets a broken guard.
pub dispatch-dispatched :
    (k : Kernel) (p : Ptr) → dispatch k p ≡ (if stuck k p then none else some (dispatched k p))
unfolding dispatch dispatched guard_ok
dispatch-dispatched k p = ground (arith, switch_tasks-switched (record k { next_task = p }))
