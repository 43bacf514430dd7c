-- ===== src/Kernel/Schedule/Edf.antt =====
-- `smart_schedule` is earliest deadline first.
pub mod Aperiodic
pub mod Guarded
use smart_os.Base.{
  ℕ, zero, suc, ◌+◌, ◌≤◌, ◌<◌, ◌≡◌, ◌≢◌, refl, Bool, true, false, not, ◌&&◌, ◌||◌, Option, none,
  some, List, [], ◌∷◌, Ptr, null, max_u32, arith, length, ltb, ◌==◌, ==_iff, if◌then◌else◌,
  Bool-cases, ◌⊎◌, inl, inr, ap, ◌∙◌,
}
use smart_os.Base.Chain.{has, Chain, Chain-ne_null}
use smart_os.Kernel.State.{TaskState, Task, Kernel, link}
use smart_os.Kernel.Schedule.Keeps.{
  Agree, stuck, dispatched, dispatched-Agree, dispatched_keeps, dispatch-dispatched,
}
use smart_os.Kernel.Schedule.{is_ready, find_best, guard_ok, schedule}

module _ (tasks : Ptr → Task) where
  abbrev better : Ptr → ℕ → Bool
  better x m = is_ready (tasks x).state && ltb (tasks x).deadline m

  -- The loop over the list of nodes instead of the links.
  pick : List Ptr → Ptr → ℕ → Ptr
  pick [] best m = best
  pick (x ∷ xs) best m =
      pick xs (if better x m then x else best) (if better x m then (tasks x).deadline else m)

  find_best-pick :
      (fuel : ℕ) (p best : Ptr) (m : ℕ) (xs : List Ptr)
      → Chain (link tasks) p xs
      → length xs < fuel
      → find_best fuel tasks p best m ≡ some (pick xs best m)
  unfolding find_best pick
  find_best-pick zero p best m xs c h = absurd (omega arith)
  find_best-pick (suc fuel) p best m [] c h = ground arith
  find_best-pick (suc fuel) p best m (x ∷ xs) c h =
      rw (c.0, not_null) (find_best-pick fuel (tasks x).next _ _ xs c.2 (omega arith))
    where
      not_null : (x == null) ≡ false
      not_null = ground (arith, c.1)

  -- What the loop returns, started with `best` and the bound `m`.
  data Earliest (xs : List Ptr) (best : Ptr) (m : ℕ) (r : Ptr) : Type 0 where
    stays :
        r ≡ best
        → ((x : Ptr) → has x xs ≡ true → is_ready (tasks x).state ≡ true → m ≤ (tasks x).deadline)
        → Earliest xs best m r
    found :
        has r xs ≡ true
        → is_ready (tasks r).state ≡ true
        → (tasks r).deadline < m
        → ((x : Ptr)
            → has x xs ≡ true
            → is_ready (tasks x).state ≡ true
            → (tasks r).deadline ≤ (tasks x).deadline)
        → Earliest xs best m r

  prefer :
      (x : Ptr) (xs : List Ptr) (best : Ptr) (m : ℕ) (r : Ptr)
      → better x m ≡ true
      → Earliest xs x (tasks x).deadline r
      → Earliest (x ∷ xs) best m r
  prefer x xs best m r b (stays e all) =
      found (ground arith) (ground (arith, ap tasks {x = r} {y = x}))
        (ground (arith, ap tasks {x = r} {y = x}))
        λ y h k. ground (arith, all y, ap tasks {x = r} {y = x}, ap tasks {x = y} {y = x})
  prefer x xs best m r b (found i d l all) =
      found (ground arith) d (ground arith) λ y h k. ground (arith, all y, ap tasks {x = y} {y = x})

  pass_over :
      (x : Ptr) (xs : List Ptr) (best : Ptr) (m : ℕ) (r : Ptr)
      → better x m ≡ false
      → Earliest xs best m r
      → Earliest (x ∷ xs) best m r
  pass_over x xs best m r b (stays e all) =
      stays e λ y h k. ground (arith, all y, ap tasks {x = y} {y = x})
  pass_over x xs best m r b (found i d l all) =
      found (ground arith) d l λ y h k. ground (arith, all y, ap tasks {x = y} {y = x})

  pick-Earliest : (xs : List Ptr) (best : Ptr) (m : ℕ) → Earliest xs best m (pick xs best m)
  unfolding pick
  pick-Earliest [] best m = stays refl (λ x h r. absurd (ground arith))
  pick-Earliest (x ∷ xs) best m = elim (Bool-cases (better x m)) [
    | inl b ↦ rw b (prefer x xs best m _ b (pick-Earliest xs x (tasks x).deadline))
    | inr b ↦ rw b (pass_over x xs best m _ b (pick-Earliest xs best m))
  ]

-- Which task is next when the tasks of the task list are `xs`.
pub data Next (k : Kernel) (xs : List Ptr) (next : Ptr) : Type 0 where
  idle :
      next ≡ k.idle_task
      → ((x : Ptr)
          → has x xs ≡ true
          → is_ready (k.tasks x).state ≡ true
          → max_u32 ≤ (k.tasks x).deadline)
      → Next k xs next
  task :
      has next xs ≡ true
      → is_ready (k.tasks next).state ≡ true
      → (k.tasks next).deadline < max_u32
      → ((x : Ptr)
          → has x xs ≡ true
          → is_ready (k.tasks x).state ≡ true
          → (k.tasks next).deadline ≤ (k.tasks x).deadline)
      → Next k xs next

chosen :
    (k : Kernel) (xs : List Ptr) (r : Ptr)
    → Chain (link k.tasks) k.task_list xs
    → Earliest k.tasks xs null max_u32 r
    → Next k xs (if r == null then k.idle_task else r)
chosen k xs r c (stays e all) = rw e (idle refl all)
chosen k xs r c (found i d l all) = rw not_null (task i d l all)
  where
    not_null : (r == null) ≡ false
    not_null = ground (arith, Chain-ne_null (link k.tasks) k.task_list r xs c i)

-- On a task list that ends, the walk of `smart_schedule` ends too, and its task is the earliest ready one.
pub schedule-dispatched :
    (fuel : ℕ) (k : Kernel) (xs : List Ptr)
    → Chain (link k.tasks) k.task_list xs
    → length xs < fuel
    → (p : Ptr) × (schedule fuel k ≡ (if stuck k p then none else some (dispatched k p)))
      × Next k xs p
unfolding schedule
schedule-dispatched fuel k xs c h =
    let r = pick k.tasks xs null max_u32 in
    let p : Ptr = if r == null then k.idle_task else r in
    (
      p,
      rw (find_best-pick k.tasks fuel k.task_list null max_u32 xs c h, schedule)
          (dispatch-dispatched k p),
      chosen k xs r c (pick-Earliest k.tasks xs null max_u32),
    )

-- On a task list that ends, `smart_schedule` chooses a READY task of the list with the least deadline,
-- provided one has a deadline below `0xFFFFFFFF`; otherwise it chooses the idle task. If the scheduler has
-- started, the choice is not the current task, and the stack guard of either is broken, the call does
-- not return, however much fuel it has. Otherwise it returns with the choice as the next task; it has asked for a
-- switch if the scheduler has started and the choice is not the current task, and the request of before
-- stays; and no task's link, state, deadline, period, arrival, wake-up time or guard address changes.
pub schedule-Next :
    (fuel : ℕ) (k : Kernel) (xs : List Ptr)
    → Chain (link k.tasks) k.task_list xs
    → length xs < fuel
    → (k' : Kernel) × (let next = k'.next_task in
        let asks = k.scheduler_started && not (k.current_task == next) in
        (schedule fuel k
          ≡ (if asks && not (guard_ok k k.current_task && guard_ok k next) then none else some k'))
        × (k'.pend_sv ≡ (k.pend_sv || asks))
        × Next k xs next
        × ((q : Ptr) → Agree (k'.tasks q) (k.tasks q)))
unfolding dispatched
schedule-Next fuel k xs c h =
    let (p, e, n) = schedule-dispatched fuel k xs c h in
    let (_, _, _, _, _, _, _, next, pends) = dispatched_keeps k p in
    (dispatched k p, rw next (e, pends, n, dispatched-Agree k p))
