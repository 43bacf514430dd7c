-- ===== src/Sync/Lock/Recursive.antt =====
-- A lock taken several times by one task.
use smart_os.Base.{
  ℕ, zero, suc, ◌+◌, ◌^◌, ◌<◌, ◌≡◌, ◌≢◌, refl, inl, inr, ap, ◌∙◌, sym, subst, true, false, Option,
  none, some, Ptr, null, u32, sub_u32, arith, ltb, ◌==◌, ==_ne, ==_refl, if◌then◌else◌, Bool-cases,
}
use smart_os.Base.Chain.{update, update_at}
use smart_os.Kernel.State.{Task}
use smart_os.Kernel.Critical.{enter_critical}
use smart_os.Kernel.Critical.Nesting.{exit_critical_keeps}
use smart_os.Sync.{ok, is_ok, Mutex, System, set_mutex, set_tasks, enter, leave}
use smart_os.Sync.Lock.{mutex_try_lock, mutex_unlock, taken_by, release}

-- Takes the lock, or gives it back, a number of times; `none` says that one time was not answered by OK.
unfoldable pub lock_times : ℕ → System → Ptr → Option System
lock_times zero s p = some s
lock_times (suc n) s p =
    let (status, s₁) = mutex_try_lock s p in
    let rest = lock_times n s₁ p in if is_ok status then rest else none

unfoldable pub unlock_times : ℕ → ℕ → System → Ptr → Option System
unlock_times fuel zero s p = some s
unlock_times fuel (suc n) s p = elim (mutex_unlock fuel s p) [
  | none ↦ none
  | some (status, s₁) ↦ let rest = unlock_times fuel n s₁ p in if is_ok status then rest else none
]

-- The current task `c` holds the lock `p` for the `n`th time, nobody waits for it, the deadline to
-- restore is `d`, and the tasks are `tasks`.
pub record Held (s : System) (p c d n : ℕ) (tasks : Ptr → Task) : Type 0 where
  pub mutex :
      s.mutexes p
      ≡ record { locked = true; owner = c; lock_count = n; original_deadline = d; wait_list = null }
  pub current : s.kernel.current_task ≡ c
  pub blocks : s.kernel.tasks ≡ tasks

more : (n : ℕ) → n + 2 < 2 ^ 32 → ltb 0 (sub_u32 (n + 2) 1) ≡ true
more n few = ground (arith, few)

module _ (p c d : ℕ) (tasks : Ptr → Task) (z : p ≢ null) (y : c ≢ null) where
  held : ℕ → Mutex
  held n = record {
    locked = true;
    owner = c;
    lock_count = n;
    original_deadline = d;
    wait_list = null;
  }

  leave-Held :
      (s : System) (n : ℕ) (m : Mutex)
      → m ≡ held n
      → s.kernel.current_task ≡ c
      → s.kernel.tasks ≡ tasks
      → Held (leave (set_mutex (enter s) p m)) p c d n tasks
  unfolding enter leave held enter_critical
  leave-Held s n m e cur t = record {
    mutex = update_at s.mutexes p m p refl ∙ e;
    current = (exit_critical_keeps (enter_critical s.kernel)).2 ∙ cur;
    blocks = (exit_critical_keeps (enter_critical s.kernel)).0 ∙ t;
  }

  try_lock-again :
      (s : System) (n : ℕ)
      → Held s p c d n tasks
      → n + 1 < 2 ^ 32
      → (s₁ : System) × (mutex_try_lock s p ≡ (ok, s₁)) × Held s₁ p c d (n + 1) tasks
  unfolding mutex_try_lock enter leave held
  try_lock-again s n h few = (
    leave (set_mutex (enter s) p (held (u32 (n + 1)))),
    rw (==_ne p null z, h.current, ==_ne c null y, h.mutex, ==_refl c) refl,
    leave-Held s (n + 1) (held (u32 (n + 1))) (ap held (omega (arith, few))) h.current h.blocks,
  )

  unlock-inner :
      (fuel : ℕ) (s : System) (n : ℕ)
      → Held s p c d (n + 2) tasks
      → n + 2 < 2 ^ 32
      → (s₁ : System) × (mutex_unlock fuel s p ≡ some (ok, s₁)) × Held s₁ p c d (n + 1) tasks
  unfolding mutex_unlock enter leave held
  unlock-inner fuel s n h few = (
    leave (set_mutex (enter s) p (held (sub_u32 (n + 2) 1))),
    rw (==_ne p null z, h.current, ==_ne c null y, h.mutex, ==_refl c, more n few) refl,
    leave-Held s (n + 1) (held (sub_u32 (n + 2) 1)) (ap held (omega (arith, few))) h.current
        h.blocks,
  )

  -- The state in which the last unlock leaves a lock that nobody waits for.
  freed : System → System
  freed s =
      let tasks₁ = update s.kernel.tasks c (record (s.kernel.tasks c) { deadline = d }) in
      leave (set_mutex (set_tasks s tasks₁) p (record (held 0) { locked = false; owner = null }))

  release-freed :
      (fuel : ℕ) (s : System) → s.mutexes p ≡ held 0 → release fuel s p c ≡ some (ok, freed s)
  unfolding release freed held
  release-freed fuel s e = rw e refl

  unlock-release :
      (fuel : ℕ) (s : System)
      → Held s p c d 1 tasks
      → mutex_unlock fuel s p ≡ release fuel (set_mutex (enter s) p (held 0)) p c
  unfolding mutex_unlock enter held
  unlock-release fuel s h =
      rw (==_ne p null z, ==_ne s.kernel.current_task null (λ e. y (sym h.current ∙ e)), owns, last)
        refl
      ∙ ap
          (λ m.
            release fuel (set_mutex (enter s) p (record m { lock_count = sub_u32 m.lock_count 1 }))
              p s.kernel.current_task)
          h.mutex
      ∙ ap (λ b. release fuel (set_mutex (enter s) p (held 0)) p b) h.current
    where
      owns : ((s.mutexes p).owner == s.kernel.current_task) ≡ true
      owns = ground (arith, h.current, ap (λ m. m.owner) h.mutex)

      last : ltb 0 (sub_u32 (s.mutexes p).lock_count 1) ≡ false
      last = ap (λ m. ltb 0 (sub_u32 m.lock_count 1)) h.mutex

  unlock-outer :
      (fuel : ℕ) (s : System)
      → Held s p c d 1 tasks
      → (s₁ : System) × (mutex_unlock fuel s p ≡ some (ok, s₁))
        × ((s₁.mutexes p).locked ≡ false)
        × (s₁.kernel.tasks ≡ update tasks c (record (tasks c) { deadline = d }))
  unfolding freed leave enter enter_critical
  unlock-outer fuel s h =
      let s₁ = set_mutex (enter s) p (held 0) in
      let tasks₁ = update s.kernel.tasks c (record (s.kernel.tasks c) { deadline = d }) in
      (
        freed s₁,
        unlock-release fuel s h ∙ release-freed fuel s₁ (update_at s.mutexes p (held 0) p refl),
        ap (λ m. m.locked)
            (update_at s₁.mutexes p (record (held 0) { locked = false; owner = null }) p refl),
        (exit_critical_keeps (set_tasks s₁ tasks₁).kernel).0
            ∙ ap (λ t. update t c (record (t c) { deadline = d })) h.blocks,
      )

  lock_times-Held :
      (k n : ℕ) (s : System)
      → Held s p c d n tasks
      → n + k < 2 ^ 32
      → (s₁ : System) × (lock_times k s p ≡ some s₁) × Held s₁ p c d (n + k) tasks
  unfolding lock_times
  lock_times-Held zero n s h few = (s, refl, subst (λ i. Held s p c d i tasks) (omega arith) h)
  lock_times-Held (suc k) n s h few =
      let (s₁, e, h₁) = try_lock-again s n h (omega arith) in
      let (s₂, e₂, h₂) = lock_times-Held k (n + 1) s₁ h₁ (omega arith) in
      (s₂, rw e e₂, subst (λ i. Held s₂ p c d i tasks) (omega arith) h₂)

  unlock_times-freed :
      (fuel k : ℕ) (s : System)
      → Held s p c d (k + 1) tasks
      → k + 1 < 2 ^ 32
      → (s₁ : System) × (unlock_times fuel (suc k) s p ≡ some s₁)
        × ((s₁.mutexes p).locked ≡ false)
        × (s₁.kernel.tasks ≡ update tasks c (record (tasks c) { deadline = d }))
  unfolding unlock_times
  unlock_times-freed fuel zero s h few =
      let (s₁, e, f, g) = unlock-outer fuel s h in (s₁, rw (unlock_times, e) refl, f, g)
  unlock_times-freed fuel (suc k) s h few =
      let (s₁, e, h₁) =
        unlock-inner fuel s k (subst (λ i. Held s p c d i tasks) (omega arith) h) (omega arith) in
      let (s₂, e₂, f, g) = unlock_times-freed fuel k s₁ h₁ (omega arith) in
      (s₂, rw (unlock_times, e) e₂, f, g)

restored :
    (tasks : Ptr → Task) (c q : Ptr)
    → update tasks c (record (tasks c) { deadline = (tasks c).deadline }) q ≡ tasks q
restored tasks c q = elim (Bool-cases (c == q)) [
  | inl e ↦ rw e (ap tasks (ground (arith, e)))
  | inr e ↦ rw e refl
]

add_comm : (a b : ℕ) → a + b ≡ b + a
add_comm a b = omega arith

try_lock-free :
    (s : System) (p : Ptr)
    → p ≢ null
    → s.kernel.current_task ≢ null
    → (s.mutexes p).locked ≡ false
    → mutex_try_lock s p
      ≡ (ok, leave (set_mutex (enter s) p (taken_by s.kernel.current_task s.kernel (s.mutexes p))))
unfolding mutex_try_lock leave enter enter_critical
try_lock-free s p z y free = rw (==_ne p null z, ==_ne s.kernel.current_task null y, free) refl

-- A task takes a free lock `k + 1` times, each answered by OK; then it holds it with that count. As many
-- unlocks, each answered by OK, free the lock again and leave every task's control block as it was. This
-- is so when no task waits for the lock and the count stays below 2^32.
pub lock_times-unlock_times :
    (fuel k : ℕ) (s : System) (p : Ptr)
    → p ≢ null
    → s.kernel.current_task ≢ null
    → (s.mutexes p).locked ≡ false
    → (s.mutexes p).wait_list ≡ null
    → k + 1 < 2 ^ 32
    → (s₁ s₂ : System) × (lock_times (suc k) s p ≡ some s₁)
      × (unlock_times fuel (suc k) s₁ p ≡ some s₂)
      × ((s₁.mutexes p).locked ≡ true)
      × ((s₁.mutexes p).owner ≡ s.kernel.current_task)
      × ((s₁.mutexes p).lock_count ≡ k + 1)
      × ((s₂.mutexes p).locked ≡ false)
      × ((q : Ptr) → s₂.kernel.tasks q ≡ s.kernel.tasks q)
unfolding held leave enter enter_critical lock_times
lock_times-unlock_times fuel k s p z y free alone few =
    let c = s.kernel.current_task in
    let tasks = s.kernel.tasks in
    let d = (tasks c).deadline in
    let first = taken_by c s.kernel (s.mutexes p) in
    let h₀ : Held (leave (set_mutex (enter s) p first)) p c d 1 tasks =
      leave-Held p c d tasks z y s 1 first
        (ap
          (λ w. record {
            locked = true;
            owner = c;
            lock_count = 1;
            original_deadline = d;
            wait_list = w;
          })
          alone)
        refl refl in
    let (s₁, e, h) =
      lock_times-Held p c d tasks z y k 1 (leave (set_mutex (enter s) p first)) h₀
        (omega (arith, few)) in
    let h₁ : Held s₁ p c d (k + 1) tasks = subst (λ i. Held s₁ p c d i tasks) (add_comm 1 k) h in
    let (s₂, e₂, f, g) = unlock_times-freed p c d tasks z y fuel k s₁ h₁ few in
    (
      s₁,
      s₂,
      rw (lock_times, try_lock-free s p z y free) e,
      e₂,
      ap (λ m. m.locked) h₁.mutex,
      ap (λ m. m.owner) h₁.mutex,
      ap (λ m. m.lock_count) h₁.mutex,
      f,
      λ q. ap (λ t. t q) g ∙ restored tasks c q,
    )
