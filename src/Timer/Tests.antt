-- ===== src/Timer/Tests.antt =====
-- Three timers, two of which run, and the theorems at them.
use smart_os.Base.{
  ℕ, Bool, ◌≡◌, refl, true, false, not, ◌&&◌, some, List, [], ◌∷◌, Ptr, arith, ◌==◌, if◌then◌else◌,
}
use smart_os.Base.Chain.{has, Chain}
use smart_os.Timer.{
  periodic, running, is_running, Timer, Timers, zero_timer, link, start, stop, reset, create,
  allocate_timer, find_free, get_state, get_remaining, delete, free_timer, unlink, find_prev,
  set_period, then_do, stopped,
}
use smart_os.Timer.Tick.{tick}
use smart_os.Timer.Tick.Lost.{tick_loses}
use smart_os.Timer.Pool.{IsActive}
use smart_os.Timer.Pool.Reset.{start-reset}
use smart_os.Timer.Pool.Start.{start-IsActive, stop-IsActive}

abbrev blocks : Ptr → Timer
blocks p =
    if p == 1
    then record zero_timer {
      id = 5;
      state = running;
      period_ms = 100;
      remaining_ms = 7;
      callback = 0x801;
      next = 3;
    }
    else if p == 2
    then record zero_timer {
      id = 6;
      type = periodic;
      period_ms = 50;
      remaining_ms = 50;
      callback = 0x901;
    }
    else if p == 3
    then record zero_timer {
      id = 7;
      type = periodic;
      state = running;
      period_ms = 20;
      remaining_ms = 9;
      callback = 0x901;
    }
    else zero_timer

abbrev two_run : Timers
two_run = record {
  pool = blocks;
  timer_pool_init = true;
  active_timer_list = 1;
  next_timer_id = 8;
  stats = record {
    total_timers = 3;
    active_timers = 2;
    expired_count = 0;
    callback_count = 0;
    max_callback_time_us = 0;
  };
}

two_run-IsActive : IsActive two_run (1 ∷ 3 ∷ [])
two_run-IsActive = record {
  chain = (refl, omega arith, (refl, omega arith, refl));
  distinct = (refl, (refl, tt));
  listed = λ p. ground arith;
  counted = refl;
  few = omega arith;
}

start-IsActive_example :
    (s₁ : Timers) × (start two_run 2 ≡ (true, s₁))
    × IsActive s₁ (2 ∷ 1 ∷ 3 ∷ [])
    × ((q : Ptr)
        → s₁.pool q ≡ (
            if 2 == q && not (has 2 (1 ∷ 3 ∷ []))
            then record (two_run.pool 2) {
              remaining_ms = (two_run.pool 2).period_ms;
              state = running;
              next = 1;
            }
            else two_run.pool q))
start-IsActive_example =
    start-IsActive two_run 2 (1 ∷ 3 ∷ []) two_run-IsActive (omega arith) (omega arith) (omega arith)

stop-IsActive_example :
    (s₁ : Timers) × (stop 9 two_run 3 ≡ some (true, s₁))
    × IsActive s₁ (1 ∷ [])
    × (is_running (s₁.pool 3).state ≡ false)
stop-IsActive_example =
    stop-IsActive 9 two_run 3 (1 ∷ 3 ∷ []) two_run-IsActive (omega arith) (omega arith)
      (omega arith)

-- Callbacks that leave the timers alone.
abbrev idle_callbacks : Ptr → Ptr → Timers → Timers
idle_callbacks f x s = s

abbrev no_time : Ptr → Ptr → ℕ
no_time f x = 0

-- Two periodic timers that are due.
abbrev due_blocks : Ptr → Timer
due_blocks p =
    if p == 1
    then record zero_timer {
      id = 5;
      type = periodic;
      state = running;
      period_ms = 100;
      remaining_ms = 1;
      callback = 0x801;
      next = 3;
    }
    else if p == 3
    then record zero_timer {
      id = 7;
      type = periodic;
      state = running;
      period_ms = 20;
      remaining_ms = 1;
      callback = 0x901;
    }
    else zero_timer

abbrev both_due : Timers
both_due = record two_run { pool = due_blocks }

tick_loses_example :
    (s₁ : Timers) × (tick idle_callbacks no_time 9 both_due ≡ some s₁)
    × Chain (link s₁.pool) s₁.active_timer_list (3 ∷ [])
    × ((q : Ptr) → has q (1 ∷ 3 ∷ []) ≡ true → is_running (s₁.pool q).state ≡ true)
tick_loses_example =
    tick_loses idle_callbacks no_time (λ f x s. refl) 9 both_due 1 (3 ∷ []) refl
      (refl, omega arith, (refl, omega arith, refl)) (refl, (refl, tt))
      (refl, omega arith, (refl, omega arith, tt)) (omega arith)

start-reset_example :
    (s₁ s₂ : Timers) × (reset two_run 1 ≡ (true, s₁))
    × (start s₁ 1 ≡ (true, s₂))
    × (s₂.active_timer_list ≡ 1)
    × (link s₂.pool 1 ≡ 1)
    × ((ys : List Ptr) → ¬ Chain (link s₂.pool) s₂.active_timer_list ys)
start-reset_example = start-reset two_run 1 (3 ∷ []) two_run-IsActive (omega arith)

-- A new timer takes the first free block and is stopped.
create_run :
    let (p, s) = create two_run periodic 10 0x801 0 in
    (p ≡ 4) × (get_state s 4 ≡ stopped) × (get_remaining s 4 ≡ 10) × (s.next_timer_id ≡ 9)
unfolding create allocate_timer find_free get_state get_remaining
create_run = (refl, refl, refl, refl)

abbrev left_over : Bool × Timers → Bool × Ptr × ℕ × ℕ
left_over (done, s) = (done, (s.pool 1).next, (s.pool 3).id, s.stats.total_timers)

-- Deleting the second running timer leaves the first one running alone, and frees the block.
delete_run : then_do (delete 9 two_run 3) left_over ≡ some (true, 0, 0, 2)
unfolding delete stop free_timer unlink find_prev
delete_run = refl

-- A running timer keeps its remaining time when its period changes; a stopped one starts over.
set_period_run :
    (get_remaining (set_period two_run 1 40).1 1 ≡ 7)
    × (get_remaining (set_period two_run 2 40).1 2 ≡ 40)
unfolding set_period get_remaining
set_period_run = (refl, refl)
