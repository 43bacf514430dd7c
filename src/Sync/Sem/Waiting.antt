-- ===== src/Sync/Sem/Waiting.antt =====
-- What blocking on a semaphore does to the kernel's task list.
use smart_os.Base.{
  ℕ, ◌+◌, ◌^◌, ◌≤◌, ◌<◌, ◌≡◌, ◌≢◌, refl, ap, ◌∙◌, sym, subst, false, ◌&&◌, some, List, [], ◌∷◌,
  ◌++◌, Ptr, null, arith, length, ==_ne, u32, ltb, leb, if◌then◌else◌, Bool-cases, inl, inr,
}
use native.Mathlib.Decide.{ℕ_discrete}
use smart_os.Base.Chain.{has, Chain, Chain-frame, update, update_at, update_ne}
use smart_os.Kernel.State.{waiting, ready, Task, Kernel, link}
use smart_os.Kernel.Critical.{enter_critical}
use smart_os.Kernel.Critical.Nesting.{exit-enter, exit_critical_keeps}
use smart_os.Kernel.Wake.{due_in, due}
use smart_os.Kernel.Schedule.Keeps.{Agree, guard_ok-frame}
use smart_os.Kernel.Schedule.Edf.Guarded.{IsGuarded}
use smart_os.Kernel.Block.{task_yield, then_do}
use smart_os.Kernel.Block.Laws.{task_yield_lem}
use smart_os.Sync.{ok, System, set_semaphore, set_tasks, set_next, enter, leave, enqueue}
use smart_os.Sync.Sem.{sem_block, sem_wait}

head_ne : (c x : Ptr) (xs : List Ptr) → has c (x ∷ xs) ≡ false → c ≢ x
head_ne c x xs h = ground arith

-- Ending a chain at one of its nodes.
Chain-cut :
    (f : Ptr → Ptr) (p c : Ptr) (xs ys : List Ptr)
    → has c xs ≡ false
    → Chain f p (xs ++ c ∷ ys)
    → Chain (update f c null) p (xs ++ c ∷ [])
Chain-cut f p c [] ys out h = (h.0, h.1, update_at f c null c refl)
Chain-cut f p c (x ∷ xs) ys out h = (
  h.0,
  h.1,
  subst (λ q. Chain (update f c null) q (xs ++ c ∷ []))
      (sym (update_ne f c null x (head_ne c x xs out)))
      (Chain-cut f (f x) c xs ys (ground arith) h.2),
)

length-cut : (c : Ptr) (xs ys : List Ptr) → length (xs ++ c ∷ []) ≤ length (xs ++ c ∷ ys)
length-cut c [] ys = omega arith
length-cut c (x ∷ xs) ys = omega (arith, length-cut c xs ys)

-- The blocks of the tasks while the first task waits.
parked : (Ptr → Task) → Ptr → Ptr → Task
parked tasks c = set_next (update tasks c (record (tasks c) { state = waiting })) c null

parked-link :
    (tasks : Ptr → Task) (c q : Ptr) → link (parked tasks c) q ≡ update (link tasks) c null q
unfolding parked
parked-link tasks c q = elim (ℕ_discrete c q) [
  | yes e ↦ ap (λ t. t.next) (update_at once c new q e) ∙ sym (update_at (link tasks) c null q e)
  | no n ↦
      ap (λ t. t.next)
        (update_ne once c new q n ∙ update_ne tasks c (record (tasks c) { state = waiting }) q n)
      ∙ sym (update_ne (link tasks) c null q n)
]
  where
    once : Ptr → Task
    once = update tasks c (record (tasks c) { state = waiting })

    new : Task
    new = record (once c) { next = null }

parked_guard :
    (tasks : Ptr → Task) (c q : Ptr) → (parked tasks c q).stack_guard ≡ (tasks q).stack_guard
unfolding parked
parked_guard tasks c q = ground (arith, ap tasks {x = q} {y = c})

parked_times :
    (tasks : Ptr → Task) (c : Ptr)
    → ((parked tasks c c).period ≡ (tasks c).period)
      × ((parked tasks c c).arrival ≡ (tasks c).arrival)
unfolding parked
parked_times tasks c = ground arith

blocked : System → Ptr → System
blocked s p =
    let c = s.kernel.current_task in
    leave (
      set_semaphore (set_tasks (enter s) (parked s.kernel.tasks c)) p
        (record (s.semaphores p) { wait_list = c }))

sem_wait-blocked :
    (fuel : ℕ) (s : System) (p : Ptr)
    → p ≢ null
    → s.kernel.current_task ≢ null
    → (s.semaphores p).count ≡ 0
    → (s.semaphores p).wait_list ≡ null
    → sem_wait fuel s p
      ≡ then_do
          (task_yield fuel (blocked s p).kernel)
          (λ k. (ok, record (blocked s p) { kernel = k }))
unfolding sem_wait sem_block enqueue enter leave blocked parked
sem_wait-blocked fuel s p z y none_left alone =
    rw (==_ne p null z, none_left, ==_ne s.kernel.current_task null y, alone) refl

blocked-kernel :
    (s : System) (p : Ptr)
    → s.kernel.critical_nesting + 1 < 2 ^ 32
    → ((blocked s p).kernel.tasks ≡ parked s.kernel.tasks s.kernel.current_task)
      × ((blocked s p).kernel.task_list ≡ s.kernel.task_list)
      × ((blocked s p).kernel.current_task ≡ s.kernel.current_task)
      × ((blocked s p).kernel.critical_nesting ≡ s.kernel.critical_nesting)
      × ((blocked s p).kernel.idle_task ≡ s.kernel.idle_task)
      × ((blocked s p).kernel.mem ≡ s.kernel.mem)
unfolding blocked enter leave enter_critical
blocked-kernel s p nest =
    let k = record (enter_critical s.kernel) {
      tasks = parked s.kernel.tasks s.kernel.current_task;
    } in
    let (tasks, _, current, _, listed, idle, mem) = exit_critical_keeps k in
    (tasks, listed, current, exit-enter s.kernel k nest refl, idle, mem)

-- A task behind its yield: one with a period waits, and the tick makes it ready when the next period begins;
-- one without is ready.
abbrev pub IsResumed : (period arrival : ℕ) → Task → Type 0
IsResumed period arrival t =
    (t.state ≡ (if ltb 0 period then waiting else ready))
    × ((now : ℕ) → due now t ≡ (ltb 0 period && leb (u32 (arrival + period)) now))

due-state :
    (now : ℕ) (t : Task)
    → (t.state ≡ waiting → due now t ≡ leb t.arrival now) × (t.state ≡ ready → due now t ≡ false)
unfolding due
due-state now t = (λ e. ap (λ st. due_in st now t) e, λ e. ap (λ st. due_in st now t) e)

yielded-IsResumed :
    (t u : Task)
    → Agree u (
        if ltb 0 t.period
        then record t {
          state = waiting;
          arrival = u32 (t.arrival + t.period);
          deadline = u32 (t.deadline + t.period);
        }
        else record t { state = ready })
    → IsResumed t.period t.arrival u
yielded-IsResumed t u a = elim (Bool-cases (ltb 0 t.period)) [
  | inl p ↦
      let state : u.state ≡ waiting = rw p at (a.state) in
      let arrival : u.arrival ≡ u32 (t.arrival + t.period) = rw p at (a.arrival) in
      rw p (state, λ now. (due-state now u).0 state ∙ ap (λ b. leb b now) arrival)
  | inr p ↦
      let state : u.state ≡ ready = rw p at (a.state) in
      rw p (state, λ now. (due-state now u).1 state)
]

same-IsResumed :
    (old old' t t' : Task)
    → old.period ≡ old'.period
    → old.arrival ≡ old'.arrival
    → t ≡ t'
    → IsResumed old.period old.arrival t
    → IsResumed old'.period old'.arrival t'
same-IsResumed old old' t t' p a e h =
    subst (λ u. IsResumed old'.period old'.arrival u) e
      (subst (λ n. IsResumed n old'.arrival t) p (subst (λ n. IsResumed old.period n t) a h))

-- Yielding keeps the task list.
yield_keeps :
    (fuel : ℕ) (k : Kernel) (xs : List Ptr)
    → Chain (link k.tasks) k.task_list xs
    → length xs < fuel
    → IsGuarded k xs
    → k.critical_nesting + 1 < 2 ^ 32
    → (k' : Kernel) × (task_yield fuel k ≡ some k')
      × Chain (link k'.tasks) k'.task_list xs
      × IsResumed
          (k.tasks k.current_task).period
          (k.tasks k.current_task).arrival
          (k'.tasks k.current_task)
yield_keeps fuel k xs chain h guarded nest =
    let (k', e, _, self, other, _, same) = task_yield_lem fuel k xs chain h guarded nest in
    let next : (q : Ptr) → (k'.tasks q).next ≡ (k.tasks q).next = λ q.
      elim (ℕ_discrete q k.current_task) [
        | yes e ↦
            subst (λ z. (k'.tasks z).next ≡ (k.tasks z).next) (sym e) (ground (arith, self.next))
        | no n ↦ (other q n).next
      ] in
    (
      k',
      e,
      subst (λ l. Chain (link k'.tasks) l xs) (sym same)
          (Chain-frame (link k.tasks) (link k'.tasks) k.task_list xs (λ q i. next q) chain),
      yielded-IsResumed (k.tasks k.current_task) (k'.tasks k.current_task) self,
    )

-- A task that finds the count of a semaphore at 0 and is the first to wait for it, with the stack guards of
-- the idle task and of the tasks up to itself in the list intact, ends the kernel's task list at itself: the
-- tasks behind it are no longer reached by the scheduler or by the tick. The call's status is OK. A task with a
-- period waits only for its next period: the tick finds it due from the period's begin on, posted or not.
-- One without a period is READY at once.
pub sem_wait_truncates :
    (fuel : ℕ) (s : System) (p : Ptr) (xs ys : List Ptr)
    → p ≢ null
    → s.kernel.current_task ≢ null
    → (s.semaphores p).count ≡ 0
    → (s.semaphores p).wait_list ≡ null
    → has s.kernel.current_task xs ≡ false
    → Chain (link s.kernel.tasks) s.kernel.task_list (xs ++ s.kernel.current_task ∷ ys)
    → length (xs ++ s.kernel.current_task ∷ ys) < fuel
    → IsGuarded s.kernel (xs ++ s.kernel.current_task ∷ [])
    → s.kernel.critical_nesting + 1 < 2 ^ 32
    → (s₁ : System) × (sem_wait fuel s p ≡ some (ok, s₁))
      × Chain (link s₁.kernel.tasks) s₁.kernel.task_list (xs ++ s.kernel.current_task ∷ [])
      × IsResumed
          (s.kernel.tasks s.kernel.current_task).period
          (s.kernel.tasks s.kernel.current_task).arrival
          (s₁.kernel.tasks s.kernel.current_task)
sem_wait_truncates fuel s p xs ys z y none_left alone out chain h guarded nest =
    let c = s.kernel.current_task in
    let b = blocked s p in
    let (tasks, listed, current, depth, idle, mem) = blocked-kernel s p nest in
    let cut : Chain (link b.kernel.tasks) b.kernel.task_list (xs ++ c ∷ []) =
      rw (tasks, listed)
        (Chain-frame (update (link s.kernel.tasks) c null) (link (parked s.kernel.tasks c))
          s.kernel.task_list (xs ++ c ∷ []) (λ q i. parked-link s.kernel.tasks c q)
          (Chain-cut (link s.kernel.tasks) s.kernel.task_list c xs ys out chain)) in
    let same : (field : Task → ℕ)
        → field (b.kernel.tasks b.kernel.current_task) ≡ field (parked s.kernel.tasks c c) =
      λ field.
        ap (λ f. field (f b.kernel.current_task)) tasks
        ∙ ap (λ a. field (parked s.kernel.tasks c a)) current in
    let (k, e, last, state) =
      yield_keeps fuel b.kernel (xs ++ c ∷ []) cut (omega (arith, h, length-cut c xs ys))
        (λ q i.
          guard_ok-frame b.kernel s.kernel q mem
            (ap (λ f. (f q).stack_guard) tasks ∙ parked_guard s.kernel.tasks c q)
          ∙ guarded q (rw (current, idle) at i))
        (omega (arith, nest, depth)) in
    (
      record b { kernel = k },
      sem_wait-blocked fuel s p z y none_left alone
          ∙ ap (λ o. then_do o (λ k. (ok, record b { kernel = k }))) e,
      last,
      same-IsResumed (b.kernel.tasks b.kernel.current_task) (s.kernel.tasks c)
          (k.tasks b.kernel.current_task) (k.tasks c)
          (same (λ t. t.period) ∙ (parked_times s.kernel.tasks c).0)
          (same (λ t. t.arrival) ∙ (parked_times s.kernel.tasks c).1) (ap k.tasks current) state,
    )
