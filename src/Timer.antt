-- ===== src/Timer.antt =====
-- core/smart_timer.c and its header: sixteen software timers; the running ones form a linked list that
-- the tick walks. Each function but the tick masks interrupts for its whole body.
pub mod Pool
pub mod Tick
pub mod Listing
mod Tests
use smart_os.Base.{
  ℕ, zero, suc, ◌+◌, ◌-◌, ◌*◌, Bool, true, false, not, ◌&&◌, ◌||◌, Option, none, some, Ptr, null,
  u32, sub_u32, ltb, ◌==◌, if◌then◌else◌,
}
use smart_os.Base.Chain.{update}

-- `timer_type_t` and `timer_state_t`; a zeroed control block has the first constructor of each.
pub data TimerType : Type 0 where
  one_shot periodic : TimerType

pub data TimerState : Type 0 where
  stopped running expired : TimerState

abbrev pub is_running : TimerState → Bool
is_running running = true
is_running _ = false

abbrev pub is_stopped : TimerState → Bool
is_stopped stopped = true
is_stopped _ = false

-- `struct smart_timer`
pub record Timer : Type 0 where
  pub id : ℕ
  pub type : TimerType
  pub state : TimerState
  pub period_ms : ℕ
  pub remaining_ms : ℕ
  pub callback : Ptr
  pub callback_arg : Ptr
  pub next : Ptr

abbrev pub zero_timer : Timer
zero_timer = record {
  id = 0;
  type = one_shot;
  state = stopped;
  period_ms = 0;
  remaining_ms = 0;
  callback = null;
  callback_arg = null;
  next = null;
}

-- `timer_stats_t`
pub record Stats : Type 0 where
  pub total_timers : ℕ
  pub active_timers : ℕ
  pub expired_count : ℕ
  pub callback_count : ℕ
  pub max_callback_time_us : ℕ

abbrev pub max_timers : ℕ
max_timers = 16

-- The static variables. The control block `timer_pool[i]` stands at address `i + 1`, so that no block
-- is at `NULL`.
pub record Timers : Type 0 where
  pub pool : Ptr → Timer
  pub timer_pool_init : Bool
  pub active_timer_list : Ptr
  pub next_timer_id : ℕ
  pub stats : Stats

abbrev pub link : (Ptr → Timer) → Ptr → Ptr
link pool p = (pool p).next

abbrev pub set_timer : Timers → Ptr → Timer → Timers
set_timer s p t = record s { pool = update s.pool p t }

unfoldable pub init : Timers → Timers
init s = if s.timer_pool_init then s else record {
  pool = λ p. zero_timer;
  timer_pool_init = true;
  active_timer_list = null;
  next_timer_id = 1;
  stats = record {
    total_timers = 0;
    active_timers = 0;
    expired_count = 0;
    callback_count = 0;
    max_callback_time_us = 0;
  };
}

-- The first unused block from address `p` on, `n` blocks being left; `NULL` if all are used.
unfoldable pub find_free : ℕ → Ptr → (Ptr → Timer) → Ptr
find_free zero p pool = null
find_free (suc n) p pool =
    let rest = find_free n (p + 1) pool in if (pool p).id == 0 then p else rest

unfoldable pub allocate_timer : Timers → Ptr × Timers
unfolding find_free
allocate_timer s =
    let p = find_free max_timers 1 s.pool in
    if p == null then (null, s) else (
      p,
      record s {
        pool = update s.pool p (record (s.pool p) { id = s.next_timer_id });
        next_timer_id = u32 (s.next_timer_id + 1);
        stats = record (s.stats) { total_timers = u32 (s.stats.total_timers + 1) };
      },
    )

-- `while (prev && prev->next != timer) prev = prev->next;`
unfoldable pub find_prev : ℕ → (Ptr → Timer) → (prev timer : Ptr) → Option Ptr
find_prev zero pool prev timer = none
find_prev (suc fuel) pool prev timer =
    let rest = find_prev fuel pool (pool prev).next timer in
    if prev == null || (pool prev).next == timer then some prev else rest

-- Taking `timer` off the list, as `free_timer` and `smart_timer_stop` both do.
unfoldable pub unlink : ℕ → Timers → Ptr → Option Timers
unfolding find_prev
unlink fuel s timer =
    if s.active_timer_list == timer
    then some (record s { active_timer_list = (s.pool timer).next })
    else elim (find_prev fuel s.pool s.active_timer_list timer) [
      | none ↦ none
      | some prev ↦ some (
          if prev == null
          then s
          else set_timer s prev (record (s.pool prev) { next = (s.pool timer).next }))
    ]

abbrev pub then_do : {A B : Type 0} → Option A → (A → B) → Option B
then_do none f = none
then_do (some a) f = some (f a)

unfoldable pub free_timer : ℕ → Timers → Ptr → Option Timers
unfolding unlink
free_timer fuel s timer =
    if timer == null
    then some s
    else then_do (unlink fuel s timer) λ s₁. record s₁ {
      pool = update s₁.pool timer zero_timer;
      stats = record (s₁.stats) { total_timers = sub_u32 s₁.stats.total_timers 1 };
    }

-- `smart_timer_create`; `NULL` says that there is no timer.
unfoldable pub create : Timers → TimerType → (period_ms : ℕ) → (callback arg : Ptr) → Ptr × Timers
create s type period_ms callback arg =
    let (p, s₁) = allocate_timer s in
    if callback == null || period_ms == 0 then (null, s) else if p == null then (null, s₁) else (
      p,
      set_timer s₁ p (record (s₁.pool p) {
        type = type;
        state = stopped;
        period_ms = period_ms;
        remaining_ms = period_ms;
        callback = callback;
        callback_arg = arg;
        next = null;
      }),
    )

-- `!timer || timer->id == 0`; the functions below then return -1, the `false` of the model.
abbrev pub refused : Timers → Ptr → Bool
refused s timer = timer == null || (s.pool timer).id == 0

unfoldable pub start : Timers → Ptr → Bool × Timers
start s timer =
    let t = s.pool timer in
    if refused s timer then (false, s) else if is_running t.state then (true, s) else (
      true,
      record s {
        pool =
            update s.pool timer (record t {
              remaining_ms = t.period_ms;
              state = running;
              next = s.active_timer_list;
            });
        active_timer_list = timer;
        stats = record (s.stats) { active_timers = u32 (s.stats.active_timers + 1) };
      },
    )

unfoldable pub stop : ℕ → Timers → Ptr → Option (Bool × Timers)
stop fuel s timer =
    if refused s timer
    then some (false, s)
    else if not (is_running (s.pool timer).state)
    then some (true, s)
    else then_do (unlink fuel s timer) λ s₁. (
      true,
      record s₁ {
        pool = update s₁.pool timer (record (s₁.pool timer) { state = stopped; next = null });
        stats = record (s₁.stats) { active_timers = sub_u32 s₁.stats.active_timers 1 };
      },
    )

unfoldable pub reset : Timers → Ptr → Bool × Timers
reset s timer =
    let t = s.pool timer in
    if refused s timer
    then (false, s)
    else (true, set_timer s timer (record t { remaining_ms = t.period_ms; state = stopped }))

unfoldable pub delete : ℕ → Timers → Ptr → Option (Bool × Timers)
delete fuel s timer = if refused s timer then some (false, s) else elim (stop fuel s timer) [
  | none ↦ none
  | some (done, s₁) ↦ then_do (free_timer fuel s₁ timer) (λ s₂. (true, s₂))
]

unfoldable pub set_period : Timers → Ptr → ℕ → Bool × Timers
set_period s timer period_ms =
    let t = s.pool timer in
    if refused s timer || period_ms == 0 then (false, s) else (
      true,
      set_timer s timer (record t {
        period_ms = period_ms;
        remaining_ms = if is_stopped t.state then period_ms else t.remaining_ms;
      }),
    )

unfoldable pub get_remaining : Timers → Ptr → ℕ
get_remaining s timer = if refused s timer then 0 else (s.pool timer).remaining_ms

unfoldable pub get_state : Timers → Ptr → TimerState
get_state s timer = if refused s timer then stopped else (s.pool timer).state

-- What `smart_timer_get_stats` writes; its `NULL` is the `false`.
unfoldable pub get_stats : Timers → Bool → Option Stats
get_stats s false = none
get_stats s true = some s.stats
