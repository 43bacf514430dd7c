-- ===== src/Timer/Tick.antt =====
-- `smart_timer_tick`. What a callback does is a parameter: it is code of the application.
pub mod Lost
pub mod Quiet
use smart_os.Base.{
  ℕ, zero, suc, ◌+◌, ◌-◌, ◌*◌, Bool, true, false, Option, none, some, Ptr, null, u32, sub_u32, ltb,
  ◌==◌, if◌then◌else◌,
}
use smart_os.Base.Chain.{update}
use smart_os.Timer.{
  TimerType, one_shot, periodic, running, expired, Timer, Stats, Timers, set_timer,
}

abbrev pub is_periodic : TimerType → Bool
is_periodic periodic = true
is_periodic one_shot = false

unfoldable pub count_down : Timer → Timer
count_down t = record t { remaining_ms = t.remaining_ms - 1 }

-- The timer is expired and leaves the list; `prev` is the node before it, or `NULL`.
unfoldable pub expire : Timers → (prev timer next : Ptr) → Timers
expire s prev timer next =
    let s₁ = set_timer s timer (record (s.pool timer) { state = expired }) in
    let s₂ =
      if prev == null
      then record s₁ { active_timer_list = next }
      else set_timer s₁ prev (record (s₁.pool prev) { next = next }) in
    record s₂ {
      stats = record (s₂.stats) {
        expired_count = u32 (s₂.stats.expired_count + 1);
        active_timers = sub_u32 s₂.stats.active_timers 1;
      };
    }

-- A periodic timer goes back to the front of the list; a one-shot timer stays expired.
unfoldable pub rearm : Timers → Ptr → Timers
rearm s timer =
    let t = s.pool timer in
    if is_periodic t.type
    then record s {
      pool =
          update s.pool timer
            (record t { remaining_ms = t.period_ms; state = running; next = s.active_timer_list });
      active_timer_list = timer;
      stats = record (s.stats) { active_timers = u32 (s.stats.active_timers + 1) };
    }
    else set_timer s timer (record t { next = null })

-- `call` runs the function at an address on its argument; `elapsed` is how many ticks pass meanwhile.
module _ (call : Ptr → Ptr → Timers → Timers) (elapsed : Ptr → Ptr → ℕ) where
  unfoldable pub run_callback : Timers → Ptr → Timers
  run_callback s timer =
      let t = s.pool timer in
      let s₁ = call t.callback t.callback_arg s in
      let callback_time = u32 (elapsed t.callback t.callback_arg * 1000) in
      if t.callback == null then s else record s₁ {
        stats = record (s₁.stats) {
          max_callback_time_us =
              if ltb s₁.stats.max_callback_time_us callback_time
              then callback_time
              else s₁.stats.max_callback_time_us;
          callback_count = u32 (s₁.stats.callback_count + 1);
        };
      }

  unfoldable pub tick_loop : ℕ → Timers → (prev timer : Ptr) → Option Timers
  unfolding run_callback count_down expire rearm
  tick_loop zero s prev timer = none
  tick_loop (suc fuel) s prev timer =
      let t = count_down (s.pool timer) in
      let s₁ = set_timer s timer t in
      let kept = tick_loop fuel s₁ timer t.next in
      let fired =
        tick_loop fuel (rearm (run_callback (expire s₁ prev timer t.next) timer) timer) prev
          t.next in
      if timer == null then some s else (if t.remaining_ms == 0 then fired else kept)

  unfoldable pub tick : ℕ → Timers → Option Timers
  unfolding tick_loop
  tick fuel s = if s.timer_pool_init then tick_loop fuel s null s.active_timer_list else some s
