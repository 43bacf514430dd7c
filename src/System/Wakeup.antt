-- ===== src/System/Wakeup.antt =====
-- What one tick does to every part of the system, and when a delayed task is ready again.
use smart_os.Base.{
  ℕ, zero, suc, ◌+◌, ◌^◌, ◌<◌, ◌≡◌, refl, ap, ◌∙◌, subst, Bool, true, false, ◌&&◌, ◌||◌, some, List,
  Ptr, u32, arith, length, leb, if◌then◌else◌, Bool-cases, inl, inr,
}
use smart_os.Base.Chain.{has, Distinct, Chain, Chain-frame}
use smart_os.Kernel.State.{ready, delayed, Task, Kernel, link}
use smart_os.Kernel.Schedule.{guard_ok}
use smart_os.Kernel.Schedule.Keeps.{
  Agree, dispatched, dispatched-Agree, dispatched_keeps, guard_ok-frame,
}
use smart_os.Kernel.Schedule.Edf.Guarded.{IsGuarded, schedule-returns, dispatched-IsGuarded}
use smart_os.Kernel.Wake.{due, due_in, wake_tasks, count_tick}
use smart_os.Kernel.Wake.Laws.{woken, any_due, wake-woken}
use smart_os.Mempool as Mempool
use smart_os.Timer.{Timers}
use smart_os.Timer.Tick.Quiet.{IsCounted, tick-IsCounted}
use smart_os.System.Quiet.{Quiet, Quiet-le, NoneDue-Later, Quiet-counted}
use smart_os.System.{System, handle_tick, handle_ticks}

-- The tasks of the kernel are the nodes `xs` of its list, and no stack guard that a switch looks at is broken.
abbrev pub Listed : Kernel → List Ptr → Type 0
Listed k xs = Chain (link k.tasks) k.task_list xs × Distinct xs × IsGuarded k xs

-- After the kernel's part of a tick at the time `now`.
abbrev pub Woken : Kernel → ℕ → List Ptr → Kernel → Type 0
Woken k now xs k' =
    (k'.os_tick ≡ now)
    × (k'.task_list ≡ k.task_list)
    × IsGuarded k' xs
    × ((q : Ptr) → Agree (k'.tasks q) (woken now xs k.tasks q))

woken-link :
    (now : ℕ) (xs : List Ptr) (tasks : Ptr → Task) (q : Ptr)
    → link (woken now xs tasks) q ≡ link tasks q
woken-link now xs tasks q = pick (has q xs && due now (tasks q))
  where
    pick :
        (b : Bool)
        → (if b then record (tasks q) { state = ready } else tasks q).next ≡ (tasks q).next
    pick true = refl
    pick false = refl

same-Agree : (t u : Task) → t ≡ u → Agree t u
same-Agree t u e = record {
  next = ap (λ t. t.next) e;
  state = ap (λ t. t.state) e;
  deadline = ap (λ t. t.deadline) e;
  period = ap (λ t. t.period) e;
  arrival = ap (λ t. t.arrival) e;
  wakeup_time = ap (λ t. t.wakeup_time) e;
  stack_guard = ap (λ t. t.stack_guard) e;
}

woken-guard :
    (now : ℕ) (xs : List Ptr) (tasks : Ptr → Task) (q : Ptr)
    → (woken now xs tasks q).stack_guard ≡ (tasks q).stack_guard
woken-guard now xs tasks q = pick (has q xs && due now (tasks q))
  where
    pick :
        (b : Bool)
        → (if b then record (tasks q) { state = ready } else tasks q).stack_guard
          ≡ (tasks q).stack_guard
    pick true = refl
    pick false = refl

wake_tasks-Woken :
    (fuel : ℕ) (k : Kernel) (xs : List Ptr)
    → Listed k xs
    → length xs < fuel
    → (k' : Kernel) × (wake_tasks fuel k ≡ some k') × Woken k k.os_tick xs k'
unfolding wake_tasks
wake_tasks-Woken fuel k xs (c, d, g) h =
    let (tasks, e, at) = wake-woken fuel k.os_tick k.task_list k.tasks false xs c d h in
    let woke : Kernel = record k { tasks = tasks } in
    let guarded : IsGuarded woke xs = λ q i.
      guard_ok-frame woke k q refl
        (ap (λ t. t.stack_guard) (at q) ∙ woken-guard k.os_tick xs k.tasks q)
      ∙ g q i in
    elim (Bool-cases (any_due k.os_tick xs k.tasks || false)) [
      | inr none_due ↦ (
        woke,
        rw (wake_tasks, e, none_due) refl,
        (refl, refl, guarded, λ q. same-Agree (tasks q) _ (at q)),
      )
      | inl some_due ↦
          let (p, r, n) =
            schedule-returns fuel woke xs
              (Chain-frame (link k.tasks) (link tasks) k.task_list xs
                (λ a i. ap (λ t. t.next) (at a) ∙ woken-link k.os_tick xs k.tasks a) c)
              h guarded in
          let keeps = dispatched_keeps woke p in
          (
            dispatched woke p,
            rw (wake_tasks, e, some_due) r,
            (
              keeps.0,
              keeps.1,
              dispatched-IsGuarded woke xs p guarded n,
              λ q.
                  subst (λ t. Agree ((dispatched woke p).tasks q) t) (at q)
                    (dispatched-Agree woke p q),
            ),
          )
    ]

Listed-Woken :
    (k k' : Kernel) (now : ℕ) (xs : List Ptr) → Listed k xs → Woken k now xs k' → Listed k' xs
Listed-Woken k k' now xs (c, d, _) (_, e, g, at) = (
  rw e (
      Chain-frame (link k.tasks) (link k'.tasks) k.task_list xs
        (λ a i. (at a).next ∙ woken-link now xs k.tasks a) c),
  d,
  g,
)

due-delayed : (now : ℕ) (t : Task) → t.state ≡ delayed → due now t ≡ leb t.wakeup_time now
unfolding due
due-delayed now t e = ap (λ st. due_in st now t) e

woken_now :
    (now : ℕ) (xs : List Ptr) (tasks : Ptr → Task) (q : Ptr)
    → has q xs ≡ true
    → (tasks q).state ≡ delayed
    → (tasks q).wakeup_time ≡ now
    → (woken now xs tasks q).state ≡ ready
woken_now now xs tasks q i e w =
    ap (λ b. (if b then record (tasks q) { state = ready } else tasks q).state)
      {x = has q xs && due now (tasks q)} {y = true}
      (rw (i, due-delayed now (tasks q) e) (ground (arith, w)))

woken_later :
    (now : ℕ) (xs : List Ptr) (tasks : Ptr → Task) (q : Ptr)
    → (tasks q).state ≡ delayed
    → now < (tasks q).wakeup_time
    → woken now xs tasks q ≡ tasks q
woken_later now xs tasks q e w =
    ap (λ b. if b then record (tasks q) { state = ready } else tasks q)
      {x = has q xs && due now (tasks q)} {y = false}
      (rw (due-delayed now (tasks q) e) (ground (arith, w)))

module _ (call : Ptr → Ptr → Timers → Timers) (elapsed : Ptr → Ptr → ℕ) where
  -- A tick at which no timer expires returns, if no guard is broken. It counts the tick, gives every registered pool its budget,
  -- counts every running timer down by one, and makes ready exactly the tasks of the list that are due at
  -- the new time, changing no other state, link or time of a task.
  pub handle_tick_lem :
      (fuel : ℕ) (s : System) (xs ts : List Ptr)
      → Listed s.kernel xs
      → Quiet 1 s.timers ts
      → length xs < fuel
      → length ts < fuel
      → (s' : System) × (handle_tick call elapsed fuel s ≡ some s')
        × Woken s.kernel (u32 (s.kernel.os_tick + 1)) xs s'.kernel
        × (s'.pools ≡ Mempool.tick s.pools)
        × IsCounted s.timers ts s'.timers
  unfolding handle_tick count_tick guard_ok
  handle_tick_lem fuel s xs ts k (made, c, d, l) h h' =
      let (timers, e, v) =
        tick-IsCounted call elapsed fuel s.timers ts made c d (NoneDue-Later 0 s.timers.pool ts l)
          h' in
      let (kernel, r, w) = wake_tasks-Woken fuel (count_tick s.kernel) xs k h in
      (
        record { kernel = kernel; pools = Mempool.tick s.pools; timers = timers },
        rw (handle_tick, e, r) refl,
        w,
        refl,
        v,
      )

  -- For a delayed task of a kernel list that ends, with the stack guards of the current task, the idle task
  -- and the listed tasks intact, on a clock that does not wrap before its wake-up time, and timers that do not
  -- expire until then: with more fuel than the lists are long, the ticks return, the task is still delayed
  -- behind the tick just before the time and ready behind the one that brings it.
  pub handle_ticks-ready :
      (n fuel : ℕ) (s : System) (xs ts : List Ptr) (q : Ptr)
      → Listed s.kernel xs
      → Quiet (suc n) s.timers ts
      → length xs < fuel
      → length ts < fuel
      → has q xs ≡ true
      → (s.kernel.tasks q).state ≡ delayed
      → (s.kernel.tasks q).wakeup_time ≡ s.kernel.os_tick + suc n
      → s.kernel.os_tick + suc n < 2 ^ 32
      → (before after : System) × (handle_ticks call elapsed fuel n s ≡ some before)
        × ((before.kernel.tasks q).state ≡ delayed)
        × (handle_ticks call elapsed fuel (suc n) s ≡ some after)
        × ((after.kernel.tasks q).state ≡ ready)
  unfolding handle_ticks
  handle_ticks-ready zero fuel s xs ts q k l h h' i st wu small =
      let (s', e, (_, _, _, w), _, _) = handle_tick_lem fuel s xs ts k l h h' in
      (
        s,
        s',
        refl,
        st,
        rw (handle_ticks, e) refl,
        (w q).state
            ∙ woken_now (u32 (s.kernel.os_tick + 1)) xs s.kernel.tasks q i st
                (omega (arith, wu, small)),
      )
  handle_ticks-ready (suc n) fuel s xs ts q k l h h' i st wu small =
      let (s', e, w, _, v) =
        handle_tick_lem fuel s xs ts k (Quiet-le 1 (suc (suc n)) s.timers ts (omega arith) l) h
          h' in
      let now : ℕ = u32 (s.kernel.os_tick + 1) in
      let time : s'.kernel.os_tick ≡ s.kernel.os_tick + 1 = w.0 ∙ omega (arith, small) in
      let stays : woken now xs s.kernel.tasks q ≡ s.kernel.tasks q =
        woken_later now xs s.kernel.tasks q st (omega (arith, wu, small)) in
      let (before, after, b, bs, a, as') =
        handle_ticks-ready n fuel s' xs ts q (Listed-Woken s.kernel s'.kernel now xs k w)
          (Quiet-counted (suc n) s.timers s'.timers ts l v) h h' i
          ((w.3 q).state ∙ ap (λ t. t.state) stays ∙ st)
          ((w.3 q).wakeup_time ∙ ap (λ t. t.wakeup_time) stays ∙ wu ∙ omega (arith, time))
          (omega (arith, time, small)) in
      (before, after, rw (handle_ticks, e) b, bs, rw (handle_ticks, e) a, as')
