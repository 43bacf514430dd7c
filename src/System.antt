-- ===== src/System.antt =====
-- `SysTick_Handler` of core/smart_core.c: one tick of the memory pools, the software timers and the tasks.
-- As the Makefile builds it: with a shell, and without logging.
pub mod Quiet
pub mod Wakeup
mod Tests
use smart_os.Base.{ℕ, zero, suc, Option, none, some, ◌>>=◌, Ptr}
use smart_os.Kernel.State.{Kernel}
use smart_os.Kernel.Wake.{count_tick, wake_tasks}
use smart_os.Mempool.{Store}
use smart_os.Mempool as Mempool
use smart_os.Timer.{Timers}
use smart_os.Timer.Tick as Tick

-- What the handler works on.
pub record System : Type 0 where
  pub kernel : Kernel
  pub pools : Store
  pub timers : Timers

-- `call` and `elapsed` stand for the timers' callbacks, which work on the timers only.
module _ (call : Ptr → Ptr → Timers → Timers) (elapsed : Ptr → Ptr → ℕ) where
  pub handle_tick : ℕ → System → Option System
  handle_tick fuel s = do
    timers ← Tick.tick call elapsed fuel s.timers
    kernel ← wake_tasks fuel (count_tick s.kernel)
    some (record { kernel = kernel; pools = Mempool.tick s.pools; timers = timers })

  -- A number of ticks, one after the other.
  pub handle_ticks : ℕ → ℕ → System → Option System
  unfolding handle_tick
  handle_ticks fuel zero s = some s
  handle_ticks fuel (suc n) s = do s' ← handle_tick fuel s; handle_ticks fuel n s'
